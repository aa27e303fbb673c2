-- ===== src/Delegations/Tests.antt =====
-- A delegation that is recorded and one that is presented, and the theorem at it.
use hearthold.Prelude.{
  ◌≡◌, refl, Bool, true, false, Option, none, some, [], ◌∷◌, Text, codes, ◌===◌, includes,
}
use hearthold.Prove.{
  Response, field_of, without, trust_class_of, disclose_one, disclose_pairs, disclosures,
  is_trusted, all_trusted, has_claims, check_proof, verify_proof,
}
use hearthold.Delegations.{
  legacy_delegation_kinds, read_all, list_delegations, record_delegation, delegated, declined,
  wrong_presenter, WardenNode, warden_did, read_delegation, check_delegation,
  verify_delegation_presentation,
}
use hearthold.Delegations.Verified.{IsDelegate, verify_delegation_presentation_sound}

running : Unit {0}
unfolding field_of without trust_class_of disclose_one disclose_pairs disclosures is_trusted
    all_trusted has_claims check_proof verify_proof read_all list_delegations record_delegation
    warden_did read_delegation check_delegation verify_delegation_presentation ◌===◌ includes
running = tt

records :
    list_delegations (
      record_delegation
        (record_delegation none (codes "E") (codes "1") (codes "t") none none)
        (codes "F")
        (codes "2")
        (codes "u")
        (some (codes "M"))
        none)
    ≡ (codes "E", codes "1", none) ∷ (codes "F", codes "2", some (codes "M")) ∷ []
unfolding running
records = refl

abbrev response : Response
response = record {
  vcs = some (codes "1") ∷ [];
  vps =
      record {
        issuer = some (codes "W");
        subject = some (record {
          fields = (codes "id", codes "E") ∷ (codes "member", codes "M") ∷ [];
          authority = none;
          caveats = none;
          kinds = none;
        });
      }
      ∷ [];
  challenge = some (codes "q");
  responder = some (codes "E");
  matched = true;
  fulfilled = 1;
  requested = 1;
}

abbrev node : WardenNode
node = record {
  current_id = some (codes "w");
  did_of = λ name. some (codes "W");
  delegation_schema = some (codes "S");
  verify_response = λ p. some response;
}

-- The gate takes the challenge once.
abbrev gate : Option (Bool → Text → Bool × Bool)
gate = some (λ live challenge. (live, false))

accepts :
    verify_delegation_presentation gate node (codes "p") (codes "E") true
    ≡ some (delegated legacy_delegation_kinds (some (codes "M")), false)
unfolding running
accepts = refl

-- Another holder is declined, and the challenge stays.
declines :
    verify_delegation_presentation gate node (codes "p") (codes "F") true
    ≡ some (declined wrong_presenter, true)
unfolding running
declines = refl

verify_delegation_presentation_sound_example :
    IsDelegate gate node
      (codes "p")
      (codes "E")
      true
      false
      legacy_delegation_kinds
      (some (codes "M"))
verify_delegation_presentation_sound_example =
    verify_delegation_presentation_sound gate node (codes "p") (codes "E") true false
      legacy_delegation_kinds (some (codes "M")) accepts
