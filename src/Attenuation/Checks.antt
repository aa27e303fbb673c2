-- ===== src/Attenuation/Checks.antt =====
-- What the checks of one hop, of a link and of the origin establish in `verifyAttenuationChain` of
-- packages/core/src/attenuation.ts.
use hearthold.Prelude.{
  ℕ, ◌≡◌, ◌⊎◌, refl, Bool, true, false, Option, none, some, Text, is_filled, is_some, arith, get_or,
  eq_opt, eq_opt_iff, ===_iff, ◌===◌, inl, inr, ap, and-split,
}
use hearthold.Prelude.Int.{ℤ, succ_ℤ, eqb_ℤ, eqb_ℤ_iff}
use hearthold.Attenuation.{
  AuthoritySetPayload, PicBlock, AttenuationAssertion, commit, signer_of, attenuation_statement,
}
use hearthold.Attenuation.Sets.{IsWithin, is_subset_iff}
use hearthold.Attenuation.Verify.{
  Doc, Hop, Expect, Verifier, passed, pin_holds, agrees, commitment_holds, check_assertion,
  check_disclosure, check_status, check_hop, check_link, check_origin, or_reject-passed,
  require-passed, passed-injective, reveal_of, status_of, live, no_status, root_holds,
  within_parent, caveats_within,
}
use hearthold.Attenuation.Hops.{IsHop, IsLink, IsOrigin, AsksStatus}

module _ {C : Type 0} (v : Verifier C) where
  open v use {resolve_did, verify_proof, sha256, to_json, opts}

  -- The part of a hop that `check_assertion` vouches for.
  record IsSigned (controller : Text) (pic : PicBlock) (a : AttenuationAssertion) : Type 0 where
    claimed : pic.attenuation_assertion ≡ some a
    has_proof : is_some a.proof ≡ true
    signed : verify_proof a ≡ some true
    by_controller : signer_of a ≡ controller
    agreed : agrees v a pic ≡ true

  get_or-true : (o : Option Bool) → get_or o false ≡ true → o ≡ some true
  get_or-true none h = cc
  get_or-true (some b) h = ap some h

  check_assertion_sound :
      (did controller : Text) (pic : PicBlock) (a : AttenuationAssertion)
      → check_assertion v did controller pic ≡ passed a
      → IsSigned controller pic a
  unfolding check_assertion
  check_assertion_sound did controller pic a h =
      let (asrt, claimed, h₁) = or_reject-passed pic.attenuation_assertion _ _ _ _ h in
      let (has_proof, h₂) = require-passed _ _ _ _ _ h₁ in
      let (signed, h₃) = require-passed _ _ _ _ _ h₂ in
      let (by_controller, h₄) = require-passed _ _ _ _ _ h₃ in
      let (agreed, h₅) = require-passed _ _ _ _ _ h₄ in
      let same = passed-injective asrt a h₅ in
      rw (← same) (record {
        claimed = claimed;
        has_proof = has_proof;
        signed = get_or-true (verify_proof asrt) signed;
        by_controller = (===_iff _ _).0 by_controller;
        agreed = agreed;
      })

  check_disclosure_sound :
      (reveal : Option (AuthoritySetPayload C)) (did : Text) (pic : PicBlock)
      → check_disclosure v reveal did pic ≡ passed tt
      → (opts.require_disclosure ≡ true → is_some reveal ≡ true)
        × (commitment_holds v reveal pic ≡ true)
  unfolding check_disclosure commitment_holds
  check_disclosure_sound none did pic h = (ground arith, refl)
  check_disclosure_sound (some p) did pic h = ground arith

  check_status_sound :
      (p : AuthoritySetPayload C) (did controller : Text) (n : Option ℤ)
      → check_status v (some p) did controller n ≡ passed tt
      → AsksStatus v
      → (status_of v p controller ≡ live)
        ⊎ ((status_of v p controller ≡ no_status) × (opts.require_status ≡ false))
  unfolding check_status
  check_status_sound p did controller n h asks = ground arith

  -- What `check_hop` has passed, in terms of its parts.
  pub record IsChecked (expect : Option (Expect C)) (did : Text) (doc : Doc) (hop : Hop C)
      : Type 0 where
    pub pinned : pin_holds v expect doc.version_id ≡ true
    pub named : hop.did ≡ did
    controlled : doc.controller ≡ some hop.controller
    filled : is_filled hop.controller ≡ true
    carried : doc.pic ≡ some hop.pic
    asserted : check_assertion v did hop.controller hop.pic ≡ passed hop.assertion
    revealed : hop.reveal ≡ reveal_of v did
    disclosed : check_disclosure v hop.reveal did hop.pic ≡ passed tt
    live : check_status v hop.reveal did hop.controller (some hop.pic.counter) ≡ passed tt

  pub check_hop-IsChecked :
      (expect : Option (Expect C)) (did : Text) (doc : Doc) (hop : Hop C)
      → check_hop v expect did doc ≡ passed hop
      → IsChecked expect did doc hop
  unfolding check_hop
  check_hop-IsChecked expect did doc hop h = ground arith

  agrees-split :
      (a : AttenuationAssertion) (pic : PicBlock)
      → agrees v a pic ≡ true
      → (a.authority_commitment ≡ pic.authority_commitment)
        × (a.parent_authority_commitment ≡ pic.parent_authority_commitment)
        × (a.counter ≡ pic.counter)
        × (a.lineage_id ≡ pic.lineage_id)
        × (a.statement ≡ attenuation_statement)
  unfolding agrees
  agrees-split a pic h =
      let (c, h₁) = and-split (a.authority_commitment === pic.authority_commitment) _ h in
      let (p, h₂) =
        and-split (eq_opt a.parent_authority_commitment pic.parent_authority_commitment) _ h₁ in
      let (n, h₃) = and-split (eqb_ℤ a.counter pic.counter) _ h₂ in
      let (l, s) =
        and-split (a.lineage_id === pic.lineage_id) (a.statement === attenuation_statement) h₃ in
      (
        (===_iff _ _).0 c,
        (eq_opt_iff _ _).0 p,
        (eqb_ℤ_iff _ _).0 n,
        (===_iff _ _).0 l,
        (===_iff _ _).0 s,
      )

  commitment_holds_sound :
      (p : AuthoritySetPayload C) (reveal : Option (AuthoritySetPayload C)) (pic : PicBlock)
      → reveal ≡ some p
      → commitment_holds v reveal pic ≡ true
      → commit sha256 to_json p.authority_set p.salt p.caveats ≡ pic.authority_commitment
  unfolding commitment_holds
  commitment_holds_sound p reveal pic e h = (===_iff _ _).0 (rw e at h)

  pub IsChecked→IsHop :
      {expect : Option (Expect C)} {did : Text} {version : Option ℕ} {doc : Doc} {hop : Hop C}
      → resolve_did did version ≡ some doc
      → IsChecked expect did doc hop
      → IsHop v did version hop
  IsChecked→IsHop {did} {doc} {hop} found k =
      let s = check_assertion_sound did hop.controller hop.pic hop.assertion k.asserted in
      let (commitment, parent, counter, lineage, states) =
        agrees-split hop.assertion hop.pic s.agreed in
      let (disclosed, bound) = check_disclosure_sound hop.reveal did hop.pic k.disclosed in
      record {
        doc = doc;
        resolved = found;
        named = k.named;
        controlled = k.controlled;
        filled = k.filled;
        carried = k.carried;
        claimed = s.claimed;
        has_proof = s.has_proof;
        signed = s.signed;
        by_controller = s.by_controller;
        same_commitment = commitment;
        same_parent = parent;
        same_counter = counter;
        same_lineage = lineage;
        states = states;
        revealed = k.revealed;
        disclosed = disclosed;
        committed = λ p e. commitment_holds_sound p hop.reveal hop.pic e bound;
        status = λ p e asks.
            check_status_sound p did hop.controller (some hop.pic.counter) (rw (← e) k.live) asks;
      }

  -- The tests of `check_link`, all passed.
  pub record IsLinked (child parent : Hop C) : Type 0 where
    counter : eqb_ℤ child.pic.counter (succ_ℤ parent.pic.counter) ≡ true
    commitment :
        eq_opt child.pic.parent_authority_commitment (some parent.pic.authority_commitment) ≡ true
    lineage : child.pic.lineage_id === parent.pic.lineage_id ≡ true
    delegator :
        (get_or opts.require_delegator_binding true ≡ false)
        ⊎ (signer_of child.assertion === parent.assertion.holder ≡ true)
    authority : within_parent v (reveal_of v child.did) parent.reveal ≡ true
    caveats : caveats_within v (reveal_of v child.did) parent.reveal ≡ true

  pub check_link-IsLinked :
      (child parent : Hop C) → check_link v child parent ≡ passed tt → IsLinked child parent
  unfolding check_link
  check_link-IsLinked child parent h = ground arith

  within_parent-sound :
      (c p : AuthoritySetPayload C)
      → within_parent v (some c) (some p) ≡ true
      → IsWithin c.authority_set p.authority_set
  unfolding within_parent
  within_parent-sound c p h = (is_subset_iff _ _).0 h

  caveats_within_sound :
      (c p : AuthoritySetPayload C) (narrows : Option C → Option C → Bool)
      → opts.caveat_narrows ≡ some narrows
      → caveats_within v (some c) (some p) ≡ true
      → narrows c.caveats p.caveats ≡ true
  unfolding caveats_within
  caveats_within_sound c p narrows e h = rw (e, caveats_within) at h

  delegator_sound : (binding : Option Bool) → get_or binding true ≡ false → binding ≡ some false
  delegator_sound none h = cc
  delegator_sound (some b) h = ap some h

  pub IsLinked→IsLink :
      {child parent : Hop C}
      → child.reveal ≡ reveal_of v child.did
      → IsLinked child parent
      → IsLink v child parent
  IsLinked→IsLink {child} {parent} revealed k = record {
    counter = (eqb_ℤ_iff _ _).0 k.counter;
    commitment = (eq_opt_iff _ _).0 k.commitment;
    lineage = (===_iff _ _).0 k.lineage;
    delegator = λ on. elim k.delegator [
      | inl off ↦ absurd (on (delegator_sound opts.require_delegator_binding off))
      | inr same ↦ (===_iff _ _).0 same
    ];
    authority = λ c p ec ep. within_parent-sound c p (rw (← revealed, ec, ep) at k.authority);
    caveats = λ c p narrows ec ep e.
        caveats_within_sound c p narrows e (rw (← revealed, ec, ep) at k.caveats);
  }

  root_holds_sound :
      (expected : Option Text) (controller r : Text)
      → root_holds v expected controller ≡ true
      → expected ≡ some r
      → is_filled r ≡ true
      → controller ≡ r
  unfolding root_holds
  root_holds_sound none controller r h e filled = cc
  root_holds_sound (some r') controller r h e filled = ground (arith, ===_iff controller r')

  pub check_origin_sound :
      (hop : Hop C)
      → hop.pic.prev_credential ≡ none
      → check_origin v hop ≡ passed tt
      → IsOrigin v hop
  unfolding check_origin
  check_origin_sound hop last h = record {
    last = last;
    counter = (eqb_ℤ_iff _ _).0 (ground arith);
    no_parent = ground arith;
    root = λ r. root_holds_sound opts.expected_root_issuer hop.controller r (ground arith);
  }
