-- ===== src/Disclosure.antt =====
-- packages/core/src/selective-disclosure.ts: credentials whose properties are signed as salted
-- digests and revealed one by one. The node and SHA-256 are parameters, the fresh salts an argument;
-- a call that throws returns none, and the prose reasons are left out.
pub mod Reveals
pub mod RoundTrip
mod Tests
use hearthold.Prelude.{
  ℕ, zero, suc, Bool, true, false, not, ◌&&◌, Option, none, some, List, [], ◌∷◌, map, Text, codes,
  get_or, is_filled, includes, text_leb, ◌===◌, if◌then◌else◌, ◌>>=◌, ◌>>◌,
}
use hearthold.Prelude.Sorting.{sort}
use hearthold.Json.{Json, str, obj, end, field, canonicalize}
use hearthold.Attenuation.{Proof, signer_of_proof}

pub record Disclosure : Type 0 where
  pub salt : Text
  pub name : Text
  pub value : Json

pub record SignedDisclosureCommitments : Type 0 where
  pub sd : List Text
  pub issuer : Text
  pub credential_type : Text
  pub valid_until : Option Text
  pub proof : Option Proof

pub record Presentation : Type 0 where
  pub commitments : SignedDisclosureCommitments
  pub disclosures : List Disclosure

pub record IssueDisclosureArgs : Type 0 where
  pub issuer_name : Text
  pub holder : Text
  pub properties : List (Text × Json)
  pub credential_type : Text
  pub valid_until : Option Text

pub record IssuedDisclosureCredential : Type 0 where
  pub commitments : SignedDisclosureCommitments
  pub disclosures : List Disclosure
  pub payload_did : Text

-- The calls of the node: the DID of a wallet name, a signature, and an asset encrypted to a holder.
pub record DisclosureNode : Type 0 where
  pub did_of : Text → Option Text
  pub add_proof : Text → SignedDisclosureCommitments → Option SignedDisclosureCommitments
  pub encrypt_json : List Disclosure → Text → Option Text
  pub verify_proof : SignedDisclosureCommitments → Option Bool
  pub sha256 : Text → Text

-- A fresh salt for each property, from the `n`th on.
unfoldable pub salted : (ℕ → Text) → ℕ → List (Text × Json) → List Disclosure
salted salts n [] = []
salted salts n ((name, value) ∷ ps) =
    record { salt = salts n; name = name; value = value } ∷ salted salts (suc n) ps

unfoldable pub select_disclosures : List Disclosure → List Text → List Disclosure
select_disclosures [] names = []
select_disclosures (d ∷ ds) names =
    let rest = select_disclosures ds names in if includes names d.name then d ∷ rest else rest

unfoldable pub assemble_presentation :
    SignedDisclosureCommitments → List Disclosure → List Text → Presentation
unfolding select_disclosures
assemble_presentation c all requested = record {
  commitments = c;
  disclosures = select_disclosures all requested;
}

abbrev pub Values : Type 0
Values = List (Text × Json)

-- `disclosed[d.name] = d.value`
unfoldable pub set_value : Values → Text → Json → Values
set_value [] name value = (name, value) ∷ []
set_value ((n, v) ∷ vs) name value =
    let changed = set_value vs name value in
    if n === name then (n, value) ∷ vs else (n, v) ∷ changed

pub data DisclosureCheck : Type 0 where
  no_signature bad_signature other_signer other_issuer expired no_membership : DisclosureCheck

pub data DisclosureVerifyResult : Type 0 where
  accepted : Values → DisclosureVerifyResult
  rejected : DisclosureCheck → DisclosureVerifyResult

-- `c.validUntil && opts.now && opts.now > c.validUntil`
unfoldable pub is_past : Option Text → Option Text → Bool
is_past until now =
    is_filled (get_or until [])
    && (is_filled (get_or now []) && not (text_leb (get_or now []) (get_or until [])))

-- `opts.expectedIssuer && c.issuer !== opts.expectedIssuer`
unfoldable pub is_unexpected : Option Text → Text → Bool
is_unexpected expected issuer =
    is_filled (get_or expected []) && not (issuer === get_or expected [])

module _ (node : DisclosureNode) where
  unfoldable pub digest_disclosure : Disclosure → Text
  digest_disclosure d = node.sha256 (
      canonicalize (
        obj (
          field (codes "name") (str d.name)
            (field (codes "salt") (str d.salt) (field (codes "value") d.value end)))))

  abbrev pub body_for : IssueDisclosureArgs → Text → List Disclosure → SignedDisclosureCommitments
  body_for args issuer ds = record {
    sd = sort (map digest_disclosure ds);
    issuer = issuer;
    credential_type = args.credential_type;
    valid_until = args.valid_until;
    proof = none;
  }

  unfoldable pub issue_disclosure_credential :
      IssueDisclosureArgs → (ℕ → Text) → Option IssuedDisclosureCredential
  unfolding salted
  issue_disclosure_credential args salts = do
    issuer ← node.did_of args.issuer_name
    signed ← node.add_proof args.issuer_name (body_for args issuer (salted salts 0 args.properties))
    payload ← node.encrypt_json (salted salts 0 args.properties) args.holder
    some (record {
      commitments = signed;
      disclosures = salted salts 0 args.properties;
      payload_did = payload;
    })

  -- The loop over the disclosures.
  unfoldable pub reveal_all : List Text → List Disclosure → Values → Option Values
  unfolding set_value
  reveal_all sd [] values = some values
  reveal_all sd (d ∷ ds) values =
      let rest = reveal_all sd ds (set_value values d.name d.value) in
      if includes sd (digest_disclosure d) then rest else none

  unfoldable pub check_members : Presentation → DisclosureVerifyResult
  check_members p = elim (reveal_all p.commitments.sd p.disclosures []) [
    | none ↦ rejected no_membership
    | some values ↦ accepted values
  ]

  unfoldable pub verify_presentation :
      Option Text → Option Text → Presentation → DisclosureVerifyResult
  unfolding is_past is_unexpected check_members
  verify_presentation expected now p = elim p.commitments.proof [
    | none ↦ rejected no_signature
    | some proof ↦
        if not (get_or (node.verify_proof p.commitments) false)
        then rejected bad_signature
        else if not (signer_of_proof (some proof) === p.commitments.issuer)
        then rejected other_signer
        else if is_unexpected expected p.commitments.issuer
        then rejected other_issuer
        else if is_past p.commitments.valid_until now
        then rejected expired
        else check_members p
  ]
