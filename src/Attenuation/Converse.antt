-- ===== src/Attenuation/Converse.antt =====
-- Valid hops, links and origins pass the checks of `verifyAttenuationChain` of
-- packages/core/src/attenuation.ts.
use hearthold.Prelude.{
  ℕ, ◌≡◌, ◌≢◌, ◌⊎◌, refl, Bool, true, false, Option, none, some, [], ◌∷◌, Text, is_filled, is_some,
  arith, get_or, eq_opt_iff, ===_iff, ◌===◌, inl, inr, not, ◌||◌, Option-cases, and-join,
}
use hearthold.Prelude.Int.{ℤ, eqb_ℤ_iff}
use hearthold.Attenuation.{AuthoritySetPayload, PicBlock, commit, signer_of}
use hearthold.Attenuation.Sets.{IsWithin, is_subset_iff}
use hearthold.Attenuation.Verify.{
  Doc, Hop, Expect, Verifier, passed, pin_holds, agrees, commitment_holds, check_assertion,
  check_disclosure, check_status, check_hop, check_link, check_origin, reveal_of, status_of, live,
  no_status, root_holds, within_parent, caveats_within,
}
use hearthold.Attenuation.Hops.{IsHop, IsLink, IsOrigin, AsksStatus}

module _ {C : Type 0} (v : Verifier C) where
  open v use {resolve_did, verify_proof, sha256, to_json, opts}

  check_disclosure_of :
      (reveal : Option (AuthoritySetPayload C)) (did : Text) (pic : PicBlock)
      → (opts.require_disclosure ≡ true → is_some reveal ≡ true)
      → ((p : AuthoritySetPayload C)
          → reveal ≡ some p
          → commit sha256 to_json p.authority_set p.salt p.caveats ≡ pic.authority_commitment)
      → check_disclosure v reveal did pic ≡ passed tt
  unfolding check_disclosure commitment_holds
  check_disclosure_of none did pic disclosed bound = ground arith
  check_disclosure_of (some p) did pic disclosed bound = ground (
    arith,
    (===_iff (commit sha256 to_json p.authority_set p.salt p.caveats) pic.authority_commitment).1
        (bound p refl),
  )

  check_status_of :
      (reveal : Option (AuthoritySetPayload C)) (did controller : Text) (n : Option ℤ)
      → ((p : AuthoritySetPayload C)
          → reveal ≡ some p
          → AsksStatus v
          → (status_of v p controller ≡ live)
            ⊎ ((status_of v p controller ≡ no_status) × (opts.require_status ≡ false)))
      → check_status v reveal did controller n ≡ passed tt
  unfolding check_status
  check_status_of none did controller n h = refl
  check_status_of (some p) did controller n h = ground (arith, h p refl)

  module _ {did : Text} {version : Option ℕ} {hop : Hop C} (good : IsHop v did version hop) where
    agrees_of_IsHop : agrees v hop.assertion hop.pic ≡ true
    unfolding agrees
    agrees_of_IsHop = and-join ((===_iff _ _).1 good.same_commitment) (
        and-join ((eq_opt_iff _ _).1 good.same_parent) (
          and-join ((eqb_ℤ_iff _ _).1 good.same_counter)
            (and-join ((===_iff _ _).1 good.same_lineage) ((===_iff _ _).1 good.states))))

    check_assertion_of_IsHop : check_assertion v did hop.controller hop.pic ≡ passed hop.assertion
    unfolding check_assertion
    check_assertion_of_IsHop = ground (
      arith,
      good.claimed,
      good.has_proof,
      good.signed,
      (===_iff (signer_of hop.assertion) hop.controller).1 good.by_controller,
      agrees_of_IsHop,
    )

    check_disclosure_of_IsHop : check_disclosure v hop.reveal did hop.pic ≡ passed tt
    check_disclosure_of_IsHop =
        check_disclosure_of hop.reveal did hop.pic good.disclosed good.committed

    check_status_of_IsHop :
        check_status v hop.reveal did hop.controller (some hop.pic.counter) ≡ passed tt
    check_status_of_IsHop =
        check_status_of hop.reveal did hop.controller (some hop.pic.counter) good.status

    pub check_hop_of_IsHop :
        (expect : Option (Expect C)) (doc : Doc)
        → resolve_did did version ≡ some doc
        → pin_holds v expect doc.version_id ≡ true
        → check_hop v expect did doc ≡ passed hop
    unfolding check_hop
    check_hop_of_IsHop expect doc found pinned = ground (
      arith, good.resolved, good.named, good.controlled, good.filled, good.carried, good.revealed,
      check_assertion_of_IsHop, check_disclosure_of_IsHop, check_status_of_IsHop,
    )

  within_parent_of :
      (child parent : Option (AuthoritySetPayload C))
      → ((c p : AuthoritySetPayload C)
          → child ≡ some c
          → parent ≡ some p
          → IsWithin c.authority_set p.authority_set)
      → within_parent v child parent ≡ true
  unfolding within_parent
  within_parent_of (some c) (some p) h = (is_subset_iff _ _).1 (h c p refl refl)
  within_parent_of (some c) none h = refl
  within_parent_of none parent h = refl

  caveats_within_of :
      (child parent : Option (AuthoritySetPayload C))
      → ((c p : AuthoritySetPayload C) (narrows : Option C → Option C → Bool)
          → child ≡ some c
          → parent ≡ some p
          → opts.caveat_narrows ≡ some narrows
          → narrows c.caveats p.caveats ≡ true)
      → caveats_within v child parent ≡ true
  unfolding caveats_within
  caveats_within_of (some c) (some p) h = elim (Option-cases opts.caveat_narrows) [
    | inl off ↦ rw (off, caveats_within)
    | inr (narrows, on) ↦ rw (on, caveats_within) (h c p narrows refl refl on)
  ]
  caveats_within_of (some c) none h = refl
  caveats_within_of none parent h = refl

  delegator_of :
      (binding : Option Bool) (a b : Text)
      → (binding ≢ some false → a ≡ b)
      → (not (get_or binding true) || a === b) ≡ true
  delegator_of none a b h = (===_iff a b).1 (h (λ e. cc))
  delegator_of (some true) a b h = (===_iff a b).1 (h (λ e. cc))
  delegator_of (some false) a b h = refl

  pub check_link_of_IsLink :
      {child parent : Hop C}
      → child.reveal ≡ reveal_of v child.did
      → IsLink v child parent
      → check_link v child parent ≡ passed tt
  unfolding check_link
  check_link_of_IsLink {child} {parent} revealed k = ground (
    arith,
    (eqb_ℤ_iff _ _).1 k.counter,
    (eq_opt_iff _ _).1 k.commitment,
    (===_iff _ _).1 k.lineage,
    delegator_of opts.require_delegator_binding (signer_of child.assertion) parent.assertion.holder
        k.delegator,
    within_parent_of (reveal_of v child.did) parent.reveal (rw revealed at k.authority),
    caveats_within_of (reveal_of v child.did) parent.reveal (rw revealed at k.caveats),
  )

  root_holds_of :
      (expected : Option Text) (controller : Text)
      → ((r : Text) → expected ≡ some r → is_filled r ≡ true → controller ≡ r)
      → root_holds v expected controller ≡ true
  unfolding root_holds
  root_holds_of none controller h = refl
  root_holds_of (some []) controller h = refl
  root_holds_of (some (c ∷ cs)) controller h = (===_iff _ _).1 (h (c ∷ cs) refl refl)

  pub check_origin_of_IsOrigin : (hop : Hop C) → IsOrigin v hop → check_origin v hop ≡ passed tt
  unfolding check_origin
  check_origin_of_IsOrigin hop k = ground (
    arith,
    (eqb_ℤ_iff _ _).1 k.counter,
    k.no_parent,
    root_holds_of opts.expected_root_issuer hop.controller k.root,
  )
