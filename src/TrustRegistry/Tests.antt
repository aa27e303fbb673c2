-- ===== src/TrustRegistry/Tests.antt =====
-- A group registry and a policy chain of one version, and the theorems at them.
use hearthold.Prelude.{
  ◌≡◌, ◌≢◌, ◌⊎◌, refl, true, false, Option, none, some, List, [], ◌∷◌, Text, codes, ◌===◌, ◌||◌,
  get_or, text_leb, includes, includes_all, before_hash,
}
use hearthold.Prelude.Int.{pos}
use hearthold.Json.{str, canonicalize}
use hearthold.Attenuation.{Proof}
use hearthold.Ruleset.{
  SignedRuleset, factor1, factor2, active, Warden, signed, ordered, ruleset_id, verify_ruleset,
  verify_member_ack, link_holds, amends, check_version, verify_from, verify_ordered,
  verify_ruleset_chain, serves, serve_from, operative_ordered, operative_ruleset, active_ruleset,
  tier_of, widens_into_private_scope,
}
use hearthold.TrustRegistry.{
  AuthorizationQuery, GroupBinding, GroupTrustRegistry, find_binding, binding_for, group_authorize,
  required_assurance,
}
use hearthold.TrustRegistry.Laws.{Decides, group_authorize-Decides, required_assurance-factor1}

running : Unit {0}
unfolding ordered ruleset_id verify_ruleset verify_member_ack link_holds amends check_version
    verify_from verify_ordered verify_ruleset_chain serves serve_from operative_ordered
    operative_ruleset active_ruleset tier_of canonicalize ◌===◌ widens_into_private_scope text_leb
    includes includes_all before_hash find_binding binding_for group_authorize required_assurance
running = tt

abbrev bindings : List GroupBinding
bindings =
    record { action = codes "issue"; resource = none; group = codes "everyone" }
    ∷ record { action = codes "issue"; resource = some (codes "badge"); group = codes "clerks" }
    ∷ []

-- The clerk `C` is the one member of `clerks`; a stranger is one of `everyone`.
abbrev registry : GroupTrustRegistry
registry = record {
  test_group = λ group entity. some ((group === codes "everyone") || (entity === codes "C"));
  bindings = bindings;
  authority_id = none;
  policy = none;
}

abbrev query : AuthorizationQuery
query = record {
  entity_id = codes "C";
  action = codes "issue";
  resource = some (codes "badge");
  authority_id = none;
}

-- The exact binding decides, so a stranger is refused although `everyone` would take it.
decides :
    ((group_authorize registry query).authorized ≡ true)
    × ((group_authorize registry (record query { entity_id = codes "D" })).authorized ≡ false)
unfolding running
decides = (refl, refl)

group_authorize-Decides_example :
    (b : GroupBinding) × Decides registry.bindings query b
    × (registry.test_group b.group query.entity_id ≡ some true)
group_authorize-Decides_example = group_authorize-Decides registry query decides.0

abbrev proof_of : Text → Option Proof
proof_of did = some (record { verification_method = did; proof_value = did; created = [] })

abbrev warden : Warden
warden = record {
  verify_proof = λ r. some true;
  sha256 = λ t. t;
  ruleset_json = λ r. str (get_or r.previous (codes "g"));
}

abbrev policy : SignedRuleset
policy = record {
  actor = codes "G";
  actor_kind = codes "k";
  resource = none;
  version = pos 1;
  previous = none;
  capabilities = record {
    kinds = none;
    verbs = none;
    assurance = some ((codes "spend", factor2) ∷ []);
  };
  ceiling = pos 2;
  status = active;
  subject = none;
  valid_until = none;
  proof = proof_of (codes "G");
  member_ack = none;
}

-- A chain that another actor claims to expect does not verify, and asks the second factor.
asks :
    (required_assurance warden (some (codes "G")) (some (policy ∷ [])) (codes "read") ≡ factor1)
    × (required_assurance warden (some (codes "G")) (some (policy ∷ [])) (codes "spend") ≡ factor2)
    × (required_assurance warden (some (codes "H")) (some (policy ∷ [])) (codes "read") ≡ factor2)
unfolding running
asks = (refl, refl, refl)

required_assurance-factor1_example :
    ((s : Text) × (verify_ruleset_chain warden (some (codes "G")) (policy ∷ []) ≡ signed s))
    × ((active_ruleset warden (some (codes "G")) (policy ∷ []) ≡ none)
        ⊎ ((head : SignedRuleset) × (active_ruleset warden (some (codes "G")) (policy ∷ [])
              ≡ some head)
            × (tier_of (get_or head.capabilities.assurance []) (codes "read") ≢ some factor2)))
required_assurance-factor1_example =
    required_assurance-factor1 warden (some (codes "G")) policy [] (codes "read") asks.0
