-- ===== src/Disclosure/Tests.antt =====
-- A credential of two properties, of which one is shown, and the theorems at it.
use hearthold.Prelude.{
  ℕ, ◌+◌, ◌≡◌, refl, true, false, Option, none, some, [], ◌∷◌, Text, codes, ◌===◌, ◌∙◌, includes,
  text_leb, get_or, before_hash,
}
use hearthold.Prelude.Sorting.{sort}
use hearthold.Json.{str, canonicalize}
use hearthold.Attenuation.{Proof}
use hearthold.Attenuation.Wallet.{identity, identity-name}
use hearthold.Disclosure.{
  Presentation, IssueDisclosureArgs, IssuedDisclosureCredential, DisclosureNode, salted,
  select_disclosures, assemble_presentation, Values, set_value, accepted, rejected, no_membership,
  is_past, is_unexpected, digest_disclosure, issue_disclosure_credential, reveal_all, check_members,
  verify_presentation,
}
use hearthold.Disclosure.Reveals.{values_of, IsShown, verify_presentation_sound}
use hearthold.Disclosure.RoundTrip.{IsSigner, value_of, shown_as, issued-presents}

running : Unit {0}
unfolding salted select_disclosures assemble_presentation set_value is_past is_unexpected
    digest_disclosure issue_disclosure_credential reveal_all check_members verify_presentation
    values_of sort canonicalize ◌===◌ includes text_leb before_hash identity
running = tt

abbrev proof_of : Text → Option Proof
proof_of did = some (record { verification_method = did; proof_value = did; created = [] })

-- Names without a hash sign sign as themselves.
abbrev node : DisclosureNode
node = record {
  did_of = identity;
  add_proof = λ name body. some (record body { proof = proof_of name });
  encrypt_json = λ ds holder. some (codes "d");
  verify_proof = λ c. some true;
  sha256 = λ t. t;
}

node-IsSigner : IsSigner node
node-IsSigner = record {
  signs = λ name issuer body signed named added.
      let (same, bare) = identity-name name issuer named in
      let p : Proof = record { verification_method = name; proof_value = name; created = [] } in
      (p, cc, bare ∙ same, refl);
}

abbrev args : IssueDisclosureArgs
args = record {
  issuer_name = codes "W";
  holder = codes "H";
  properties = (codes "name", str (codes "n")) ∷ (codes "age", str (codes "g")) ∷ [];
  credential_type = codes "t";
  valid_until = some (codes "2027");
}

abbrev salts : ℕ → Text
salts n = (97 + n) ∷ []

abbrev card : IssuedDisclosureCredential
card = get_or (issue_disclosure_credential node args salts) (record {
  commitments = record {
    sd = [];
    issuer = [];
    credential_type = [];
    valid_until = none;
    proof = none;
  };
  disclosures = [];
  payload_did = [];
})

issues : issue_disclosure_credential node args salts ≡ some card
unfolding running
issues = refl

abbrev presented : Presentation
presented = assemble_presentation card.commitments card.disclosures (codes "age" ∷ [])

shows :
    verify_presentation node (some (codes "W")) (some (codes "2026")) presented
    ≡ accepted ((codes "age", str (codes "g")) ∷ [])
unfolding running
shows = refl

-- A value that was not signed has no digest among the signed ones.
forged :
    verify_presentation node (some (codes "W")) (some (codes "2026")) (record presented {
      disclosures = record { salt = codes "b"; name = codes "age"; value = str (codes "x") } ∷ [];
    })
    ≡ rejected no_membership
unfolding running
forged = refl

verify_presentation_sound_example :
    IsShown node
      (some (codes "W"))
      (some (codes "2026"))
      presented
      ((codes "age", str (codes "g")) ∷ [])
verify_presentation_sound_example =
    verify_presentation_sound node (some (codes "W")) (some (codes "2026")) presented
      ((codes "age", str (codes "g")) ∷ []) shows

ready :
    (node.did_of args.issuer_name ≡ some (codes "W"))
    × (is_unexpected (some (codes "W")) (codes "W") ≡ false)
    × (is_past args.valid_until (some (codes "2026")) ≡ false)
unfolding running
ready = (refl, refl, refl)

issued-presents_example :
    (values : Values) × (verify_presentation node
        (some (codes "W"))
        (some (codes "2026"))
        (assemble_presentation card.commitments card.disclosures (codes "age" ∷ []))
      ≡ accepted values)
    × ((name : Text) → value_of values name ≡ shown_as (codes "age" ∷ []) args.properties name)
issued-presents_example =
    issued-presents node node-IsSigner args salts card (codes "W") (codes "age" ∷ [])
      (some (codes "W")) (some (codes "2026")) ready.0 issues ready.1 ready.2
