-- ===== src/Ruleset/Tests.antt =====
-- A guardianship over a member through the readers of a chain, and the theorems at that chain.
use hearthold.Prelude.{
  ◌≡◌, refl, true, false, Option, none, some, List, [], ◌∷◌, Text, codes, ◌===◌, get_or, text_leb,
  includes, includes_all, before_hash,
}
use hearthold.Prelude.Int.{pos}
use hearthold.Json.{str, canonicalize}
use hearthold.Attenuation.{Proof}
use hearthold.Ruleset.{
  SignedRuleset, active, revoked, Warden, signed, failed, unacknowledged, ordered, ruleset_id,
  verify_ruleset, verify_member_ack, link_holds, amends, check_version, verify_from, verify_ordered,
  verify_ruleset_chain, serves, serve_from, operative_ordered, operative_ruleset, active_ruleset,
  widens_into_private_scope, guardianship_narrows_or_equal, valid_until_narrows, assurance_lowered,
  tier_of,
}
use hearthold.Ruleset.Narrowing.{Follows, revoked_copy-unacknowledged}
use hearthold.Ruleset.Chains.{IsConsented, active-operative, operative_ruleset-IsConsented}
use hearthold.Ruleset.Guardian.{
  GuardianReadRequest, allowed, out_of_scope, authorize_guardian_read, judge_read, is_over,
  kind_outside, is_above, ActorRequest, authorize_actor, verb_outside, judge_actor,
}

running : Unit {0}
unfolding ordered ruleset_id verify_ruleset verify_member_ack link_holds amends check_version
    verify_from verify_ordered verify_ruleset_chain serves serve_from operative_ordered
    operative_ruleset active_ruleset widens_into_private_scope guardianship_narrows_or_equal
    valid_until_narrows assurance_lowered tier_of authorize_guardian_read judge_read is_over
    kind_outside is_above authorize_actor verb_outside judge_actor canonicalize ◌===◌ text_leb
    includes includes_all before_hash
running = tt

abbrev proof_of : Text → Option Proof
proof_of did = some (record { verification_method = did; proof_value = did; created = [] })

-- Ids are the previous id with a letter, so that a version can name its predecessor.
abbrev warden : Warden
warden = record {
  verify_proof = λ r. some true;
  sha256 = λ t. t;
  ruleset_json = λ r. str (get_or r.previous (codes "g"));
}

abbrev genesis : SignedRuleset
genesis = record {
  actor = codes "G";
  actor_kind = codes "k";
  resource = none;
  version = pos 1;
  previous = none;
  capabilities = record {
    kinds = some (codes "map" ∷ []);
    verbs = some (codes "read" ∷ []);
    assurance = none;
  };
  ceiling = pos 2;
  status = active;
  subject = some (codes "M");
  valid_until = some (codes "2027");
  proof = proof_of (codes "G");
  member_ack = proof_of (codes "M");
}

abbrev lower : SignedRuleset
lower = record genesis {
  version = pos 2;
  previous = some (codes "\"g\"");
  ceiling = pos 1;
  member_ack = none;
}

abbrev seizure : SignedRuleset
seizure = record lower { ceiling = pos 4 }

abbrev chain : List SignedRuleset
chain = lower ∷ genesis ∷ []

abbrev request : GuardianReadRequest
request = record {
  governor = codes "G";
  subject = codes "M";
  kind = some (codes "map");
  sensitivity = some (pos 1);
  at = codes "2026";
}

in_force : active_ruleset warden (some (codes "G")) chain ≡ some lower
unfolding running
in_force = refl

served : operative_ruleset warden (some (codes "G")) chain ≡ some lower
unfolding running
served = refl

seizure_falls_back :
    (verify_ruleset_chain warden none (genesis ∷ seizure ∷ []) ≡ failed unacknowledged)
    × (operative_ruleset warden none (genesis ∷ seizure ∷ []) ≡ some genesis)
unfolding running
seizure_falls_back = (refl, refl)

reads :
    (authorize_guardian_read warden chain request ≡ allowed)
    × (authorize_guardian_read warden chain (record request { sensitivity = some (pos 2) })
        ≡ out_of_scope)
unfolding running
reads = (refl, refl)

verified : verify_ruleset_chain warden (some (codes "G")) chain ≡ signed (codes "G")
unfolding running
verified = refl

active-operative_example :
    (active_ruleset warden (some (codes "G")) chain ≡ some lower)
    × (operative_ruleset warden (some (codes "G")) chain ≡ some lower)
unfolding ordered
active-operative_example = active-operative warden (some (codes "G")) chain (codes "G") verified

operative_ruleset-IsConsented_example : IsConsented warden lower × (lower.status ≡ active)
operative_ruleset-IsConsented_example =
    operative_ruleset-IsConsented warden (some (codes "G")) chain lower served refl

-- A wide version that is revoked, and the same again.
abbrev wide : SignedRuleset
wide = record lower { ceiling = pos 4; status = revoked }

abbrev again : SignedRuleset
again = record wide { version = pos 3; previous = some (ruleset_id warden wide); status = active }

follow : Follows warden (codes "G") 1 genesis wide × Follows warden (codes "G") 2 wide again
unfolding running
follow = (
  record { signed_by = refl; version = refl; linked = refl; subject = refl },
  record { signed_by = refl; version = refl; linked = refl; subject = refl },
)

start :
    (verify_ruleset warden genesis ≡ signed (codes "G")) × (verify_member_ack warden genesis ≡ true)
unfolding running
start = (refl, refl)

unacknowledged_twice :
    (verify_member_ack warden wide ≡ false) × (verify_member_ack warden again ≡ false)
unfolding running
unacknowledged_twice = (refl, refl)

revoked_copy-unacknowledged_example :
    operative_ruleset warden none (genesis ∷ wide ∷ again ∷ []) ≡ some again
revoked_copy-unacknowledged_example =
    revoked_copy-unacknowledged warden none (codes "G") genesis wide again start.0 refl refl start.1
      refl follow.0 refl follow.1 refl refl refl refl

abbrev act : ActorRequest
act = record { verb = codes "read"; kind = none; sensitivity = some (pos 1) }
