-- ===== src/Attenuation/Hops.antt =====
-- What a delegation chain is: a description by relations, apart from the order of the checks in
-- `verifyAttenuationChain` of packages/core/src/attenuation.ts.
use hearthold.Prelude.{
  ℕ, ◌≡◌, ◌≢◌, ◌⊎◌, Bool, true, false, Option, none, some, List, [], ◌∷◌, Text, is_filled, is_some,
}
use hearthold.Prelude.Int.{pos, succ_ℤ}
use hearthold.Attenuation.{AuthoritySetPayload, PrevPin, commit, signer_of, attenuation_statement}
use hearthold.Attenuation.Sets.{IsWithin}
use hearthold.Attenuation.Verify.{Doc, Hop, Verifier, reveal_of, status_of, live, no_status}

module _ {C : Type 0} (v : Verifier C) where
  open v use {resolve_did, verify_proof, sha256, to_json, opts}

  -- The status is asked for when a status is required or a checker is given.
  abbrev pub AsksStatus : Type 0
  AsksStatus = (opts.require_status ≡ true) ⊎ (is_some opts.check_hop_status ≡ true)

  -- A hop that stands by itself: resolved, signed by its controller over the fields of its block,
  -- and, where it is disclosed, bound to its commitment and not revoked.
  pub record IsHop (did : Text) (version : Option ℕ) (hop : Hop C) : Type 0 where
    pub doc : Doc
    pub resolved : resolve_did did version ≡ some doc
    pub named : hop.did ≡ did
    pub controlled : doc.controller ≡ some hop.controller
    pub filled : is_filled hop.controller ≡ true
    pub carried : doc.pic ≡ some hop.pic
    pub claimed : hop.pic.attenuation_assertion ≡ some hop.assertion
    pub has_proof : is_some hop.assertion.proof ≡ true
    pub signed : verify_proof hop.assertion ≡ some true
    pub by_controller : signer_of hop.assertion ≡ hop.controller
    pub same_commitment : hop.assertion.authority_commitment ≡ hop.pic.authority_commitment
    pub same_parent :
        hop.assertion.parent_authority_commitment ≡ hop.pic.parent_authority_commitment
    pub same_counter : hop.assertion.counter ≡ hop.pic.counter
    pub same_lineage : hop.assertion.lineage_id ≡ hop.pic.lineage_id
    pub states : hop.assertion.statement ≡ attenuation_statement
    pub revealed : hop.reveal ≡ reveal_of v did
    pub disclosed : opts.require_disclosure ≡ true → is_some hop.reveal ≡ true
    pub committed :
        (p : AuthoritySetPayload C)
        → hop.reveal ≡ some p
        → commit sha256 to_json p.authority_set p.salt p.caveats ≡ hop.pic.authority_commitment
    pub status :
        (p : AuthoritySetPayload C)
        → hop.reveal ≡ some p
        → AsksStatus
        → (status_of v p hop.controller ≡ live)
          ⊎ ((status_of v p hop.controller ≡ no_status) × (opts.require_status ≡ false))

  -- A child that its parent's delegate issued, one step down, with no more authority.
  pub record IsLink (child parent : Hop C) : Type 0 where
    pub counter : child.pic.counter ≡ succ_ℤ parent.pic.counter
    pub commitment : child.pic.parent_authority_commitment ≡ some parent.pic.authority_commitment
    pub lineage : child.pic.lineage_id ≡ parent.pic.lineage_id
    pub delegator :
        opts.require_delegator_binding ≢ some false
        → signer_of child.assertion ≡ parent.assertion.holder
    pub authority :
        (c p : AuthoritySetPayload C)
        → child.reveal ≡ some c
        → parent.reveal ≡ some p
        → IsWithin c.authority_set p.authority_set
    pub caveats :
        (c p : AuthoritySetPayload C) (narrows : Option C → Option C → Bool)
        → child.reveal ≡ some c
        → parent.reveal ≡ some p
        → opts.caveat_narrows ≡ some narrows
        → narrows c.caveats p.caveats ≡ true

  -- The root of a chain, controlled by the expected issuer where one is expected.
  pub record IsOrigin (hop : Hop C) : Type 0 where
    pub last : hop.pic.prev_credential ≡ none
    pub counter : hop.pic.counter ≡ pos 0
    pub no_parent : hop.pic.parent_authority_commitment ≡ none
    pub root :
        (r : Text) → opts.expected_root_issuer ≡ some r → is_filled r ≡ true → hop.controller ≡ r

  -- The pinned version resolves to the pinned content.
  abbrev pub IsPinned : PrevPin → Type 0
  IsPinned pin =
      (d : Doc)
      → resolve_did pin.did (some pin.version_sequence) ≡ some d
      → d.version_id ≡ some pin.version_id

  -- The hop of a credential at a version, and the hops behind it up to its root.
  pub data Chain : Text → Option ℕ → Hop C → List (Hop C) → Type 0 where
    origin :
        {did : Text} {version : Option ℕ} {hop : Hop C}
        → IsHop did version hop
        → IsOrigin hop
        → Chain did version hop []
    link :
        {did : Text} {version : Option ℕ} {child parent : Hop C} {rest : List (Hop C)}
        → (pin : PrevPin) → IsHop did version child
        → child.pic.prev_credential ≡ some pin
        → IsPinned pin
        → IsLink child parent
        → Chain pin.did (some pin.version_sequence) parent rest
        → Chain did version child (parent ∷ rest)
