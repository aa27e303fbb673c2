-- ===== src/Capability/Tests.antt =====
-- Runs of the narrowing predicates, and the theorems at concrete capabilities.
use hearthold.Prelude.{
  ◌≡◌, ◌≢◌, ◌↔◌, refl, true, false, none, some, [], ◌∷◌, Text, codes, All, ◌===◌, starts_with,
  text_leb, includes, includes_all,
}
use hearthold.Prelude.Int.{pos}
use hearthold.Prelude.Sorting.{unique_sorted}
use hearthold.Attenuation.{is_subset}
use hearthold.Capability.{
  Caveats, ThirdPartyCaveat, HearthholdCapability, caveats_narrow, normalize_caveats,
  capability_narrows, caveats_chain_narrows, target_within,
}
use hearthold.Capability.Chains.{IsDelegation, IsAttenuated, capability_narrows-All}
use hearthold.Capability.Normal.{normalize_caveats-faithful_iff}

running : Unit {0}
unfolding caveats_narrow capability_narrows caveats_chain_narrows target_within is_subset
    unique_sorted ◌===◌ starts_with text_leb includes includes_all
running = tt

abbrev consent : ThirdPartyCaveat
consent = record { by = codes "did:s"; predicate = codes "cosign"; location = none }

abbrev loose : Caveats
loose = record {
  ceiling = some (pos 4);
  kinds = none;
  owner = some (codes "did:o");
  audience = none;
  expires = none;
  single_use = none;
  requires_discharge = none;
  status = none;
}

abbrev middle : Caveats
middle = record loose {
  ceiling = some (pos 3);
  kinds = some (codes "map" ∷ codes "log" ∷ []);
  expires = some (codes "2027-01-01T00:00:00Z");
  single_use = some true;
}

abbrev strict : Caveats
strict = record middle {
  ceiling = some (pos 2);
  kinds = some (codes "log" ∷ []);
  expires = some (codes "2026-12-01T00:00:00Z");
  requires_discharge = some (consent ∷ []);
}

narrow_runs :
    (caveats_narrow strict middle ≡ true)
    × (caveats_narrow middle loose ≡ true)
    × (caveats_narrow middle strict ≡ false)
    × (caveats_narrow (record strict { single_use = none }) middle ≡ false)
    × (caveats_chain_narrows (strict ∷ middle ∷ loose ∷ []) ≡ true)
unfolding running
narrow_runs = (refl, refl, refl, refl, refl)

-- The separator of a discharge key is not escaped, so two different caveats share a key.
abbrev shifted : Caveats → Text → Text → Caveats
shifted c by predicate = record c {
  requires_discharge = some (record { by = by; predicate = predicate; location = none } ∷ []);
}

keys_collide :
    caveats_narrow
      (shifted loose (codes "a") (codes "b::c"))
      (shifted loose (codes "a::b") (codes "c"))
    ≡ true
unfolding running
keys_collide = refl

abbrev root : HearthholdCapability
root = record {
  id = codes "1";
  controller = codes "did:e";
  parent_capability = none;
  invocation_target = codes "hearthold:vault";
  authority = record {
    operations = codes "read" ∷ codes "prove" ∷ [];
    resources = codes "vault" ∷ [];
  };
  caveats = loose;
}

abbrev child : HearthholdCapability
child = record root {
  id = codes "2";
  parent_capability = some (codes "1");
  invocation_target = codes "hearthold:vault:trips";
  caveats = middle;
}

abbrev leaf : HearthholdCapability
leaf = record child {
  id = codes "3";
  parent_capability = some (codes "2");
  invocation_target = codes "hearthold:vault:trips/2026";
  authority = record { operations = codes "read" ∷ []; resources = codes "vault" ∷ [] };
  caveats = strict;
}

delegation : IsDelegation leaf (child ∷ root ∷ [])
unfolding running
delegation = (refl, (refl, tt))

capability_narrows-All_example : All (IsAttenuated leaf) (child ∷ root ∷ [])
capability_narrows-All_example = capability_narrows-All leaf (child ∷ root ∷ []) delegation

normalize_caveats-faithful_iff_example :
    (caveats_narrow strict (normalize_caveats text_leb strict) ≡ true)
    × ((caveats_narrow (normalize_caveats text_leb strict) strict ≡ true)
        ↔ (strict.kinds ≢ some []))
normalize_caveats-faithful_iff_example = normalize_caveats-faithful_iff text_leb strict (pos 2) refl
