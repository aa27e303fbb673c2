-- ===== src/Attenuation.antt =====
-- packages/core/src/attenuation.ts: authority sets, the salted commitment and the `pic` block. The
-- caveats are of a type `C` with its JSON form, since this layer never reads them; `sha256` is the
-- hash of node:crypto, in hex.
pub mod Verify
pub mod Sets
pub mod Hops
pub mod Checks
pub mod Soundness
pub mod Authority
pub mod Converse
pub mod Completeness
pub mod Issue
pub mod Keymaster
pub mod Issued
pub mod RoundTrip
pub mod Wallet
mod IssueTests
mod Tests
use hearthold.Prelude.{
  ℕ, Bool, ◌&&◌, Option, none, some, List, Text, codes, get_or, includes_all, before_hash,
}
use hearthold.Prelude.Int.{ℤ}
use hearthold.Prelude.Sorting.{unique_sorted}
use hearthold.Json.{Json, str, arr, obj, Fields, end, field, canonicalize, string_items}

pub record AuthoritySet : Type 0 where
  pub operations : List Text
  pub resources : List Text

unfoldable pub normalize_authority_set : AuthoritySet → AuthoritySet
normalize_authority_set a = record {
  operations = unique_sorted a.operations;
  resources = unique_sorted a.resources;
}

unfoldable pub is_subset : AuthoritySet → AuthoritySet → Bool
unfolding normalize_authority_set
is_subset child parent =
    let c = normalize_authority_set child in
    let p = normalize_authority_set parent in
    includes_all p.operations c.operations && includes_all p.resources c.resources

pub record AuthoritySetPayload (C : Type 0) : Type 0 where
  pub authority_set : AuthoritySet
  pub salt : Text
  pub caveats : Option C

authority_json : AuthoritySet → Json
authority_json a = obj (
    field (codes "operations") (arr (string_items a.operations))
      (field (codes "resources") (arr (string_items a.resources)) end))

-- `if (caveats !== undefined) preimage.caveats = caveats`
caveat_fields : {C : Type 0} → (C → Json) → Option C → Fields
caveat_fields to_json none = end
caveat_fields to_json (some c) = field (codes "caveats") (to_json c) end

-- The hashed text of a commitment.
pub preimage : {C : Type 0} → (C → Json) → AuthoritySet → Text → Option C → Text
unfolding authority_json caveat_fields
preimage to_json a salt caveats = canonicalize (
    obj (
      field (codes "authoritySet") (authority_json (normalize_authority_set a))
        (field (codes "salt") (str salt) (caveat_fields to_json caveats))))

unfoldable pub commit :
    {C : Type 0} → (Text → Text) → (C → Json) → AuthoritySet → Text → Option C → Text
unfolding preimage
commit sha256 to_json a salt caveats = sha256 (preimage to_json a salt caveats)

pub record PrevPin : Type 0 where
  pub did : Text
  pub version_id : Text
  pub version_sequence : ℕ

pub record Proof : Type 0 where
  pub verification_method : Text
  pub proof_value : Text
  pub created : Text

pub record AttenuationAssertion : Type 0 where
  pub issuer : Text
  pub holder : Text
  pub statement : Text
  pub lineage_id : Text
  pub counter : ℤ
  pub authority_commitment : Text
  pub parent_authority_commitment : Option Text
  pub proof : Option Proof

-- The assertion is optional, since the verifier reads a block that anybody may have written.
pub record PicBlock : Type 0 where
  pub lineage_id : Text
  pub counter : ℤ
  pub prev_credential : Option PrevPin
  pub authority_commitment : Text
  pub parent_authority_commitment : Option Text
  pub attenuation_assertion : Option AttenuationAssertion

abbrev pub attenuation_statement : Text
attenuation_statement = codes "authoritySet ⊆ parent.authoritySet"

-- `(proof?.verificationMethod ?? '').split('#')[0]`
abbrev pub signer_of_proof : Option Proof → Text
signer_of_proof none = before_hash (codes "")
signer_of_proof (some p) = before_hash p.verification_method

unfoldable pub signer_of : AttenuationAssertion → Text
signer_of a = signer_of_proof a.proof
