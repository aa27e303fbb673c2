-- ===== src/Delegations.antt =====
-- packages/warden/src/delegations.ts: the record of issued delegations, and the check of one that is
-- presented. The file is what it parses to, none where it does not, and writing it succeeds; the
-- node, the schema and the challenge gate are parameters.
pub mod Verified
mod Tests
use hearthold.Prelude.{
  Bool, true, false, not, ◌&&◌, Option, none, some, List, [], ◌∷◌, ◌++◌, map, Text, codes, get_or,
  is_some, is_filled, if◌then◌else◌, ◌===◌, ◌||◌,
}
use hearthold.Prove.{
  DisclosedCredential, Claims, field_of, ProofOptions, ProofResult, Response, verify_proof,
}

abbrev pub legacy_delegation_kinds : List Text
legacy_delegation_kinds =
    codes "event" ∷ codes "location" ∷ codes "activity" ∷ codes "browsing" ∷ codes "document" ∷ []

pub record DelegationRecord : Type 0 where
  pub subject_did : Text
  pub credential_did : Text
  pub issued_at : Text
  pub member_did : Option Text
  pub kinds : Option (List Text)

abbrev pub DelegationFile : Type 0
DelegationFile = Option (List DelegationRecord)

unfoldable pub read_all : DelegationFile → List DelegationRecord
read_all file = get_or file []

-- The subject, the credential and the member of each.
unfoldable pub list_delegations : DelegationFile → List (Text × Text × Option Text)
unfolding read_all
list_delegations file = map (λ r. (r.subject_did, r.credential_did, r.member_did)) (read_all file)

unfoldable pub record_delegation :
    DelegationFile → Text → Text → Text → Option Text → Option (List Text) → DelegationFile
unfolding read_all
record_delegation file subject credential now member kinds = some (
    read_all file
    ++ record {
      subject_did = subject;
      credential_did = credential;
      issued_at = now;
      member_did = member;
      kinds = kinds;
    }
      ∷ [])

pub data DelegationFault : Type 0 where
  no_presentation no_identity not_verified wrong_presenter stale_challenge wrong_subject :
      DelegationFault

-- The kinds and the member of an accepted delegation.
pub data Delegation : Type 0 where
  delegated : List Text → Option Text → Delegation
  declined : DelegationFault → Delegation

-- The node of the warden: its current identity, the DID of one, empty where it has none, the
-- delegation schema and the check of a response; each but the first may throw.
pub record WardenNode : Type 0 where
  pub current_id : Option Text
  pub did_of : Text → Option Text
  pub delegation_schema : Option Text
  pub verify_response : Text → Option Response

-- The DID of the warden: none where it throws.
unfoldable pub warden_did : WardenNode → Option Text
warden_did node = elim node.current_id [
  | none ↦ some []
  | some [] ↦ some []
  | some (c ∷ cs) ↦ node.did_of (c ∷ cs)
]

abbrev pub proof_options : Text → Text → ProofOptions
proof_options warden schema = record {
  trusted_issuers = some (warden ∷ []);
  trust_registry = none;
  schema = some schema;
  required_claims = none;
}

-- The first disclosed credential, whose subject must be the responder.
unfoldable pub read_delegation : List DisclosedCredential → Text → Delegation
read_delegation [] responder = declined wrong_subject
read_delegation (d ∷ ds) responder =
    if is_filled d.subject && d.subject === responder
    then delegated (get_or d.claims.kinds legacy_delegation_kinds)
        (field_of d.claims.fields (codes "member"))
    else declined wrong_subject

module _ {G : Type 0} (gate : Option (G → Text → Bool × G)) where
  abbrev pub ask : G → Text → Bool × G
  ask g challenge = elim gate [ none ↦ (true, g) | some f ↦ f g challenge ]

  abbrev pub after_ask : Bool × G → Delegation → Delegation × G
  after_ask (true, g) d = (d, g)
  after_ask (false, g) d = (declined stale_challenge, g)

  -- From the proof on; a challenge is burned only for the expected holder.
  unfoldable pub check_delegation : ProofResult → Text → G → Delegation × G
  unfolding read_delegation
  check_delegation proof holder g =
      if is_some proof.fault || not (is_filled (get_or proof.responder []))
      then (declined not_verified, g)
      else if not (get_or proof.responder [] === holder)
      then (declined wrong_presenter, g)
      else after_ask (ask g proof.challenge)
          (read_delegation proof.disclosed (get_or proof.responder []))

  -- The answer and the challenges, none where a call outside the proof throws.
  unfoldable pub verify_delegation_presentation :
      WardenNode → Text → Text → G → Option (Delegation × G)
  unfolding check_delegation warden_did
  verify_delegation_presentation node presentation holder g =
      if not (is_filled presentation)
      then some (declined no_presentation, g)
      else elim (warden_did node) [
        | none ↦ none
        | some [] ↦ some (declined no_identity, g)
        | some (c ∷ cs) ↦ elim node.delegation_schema [
          | none ↦ none
          | some schema ↦
              elim (verify_proof (proof_options (c ∷ cs) schema)
                (node.verify_response presentation)) [
                  | none ↦ some (declined not_verified, g)
                  | some proof ↦ some (check_delegation proof holder g)
                ]
        ]
      ]
