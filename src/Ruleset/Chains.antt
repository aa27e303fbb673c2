-- ===== src/Ruleset/Chains.antt =====
-- How the two readers of a chain in packages/core/src/ruleset.ts agree, and how every guardianship
-- that is served goes back to the member's acknowledgment.
use hearthold.Prelude.{
  subst, ℕ, suc, true, Option, none, some, List, [], ◌∷◌, Text, get_or, is_filled, eq_opt_iff, ◌≡◌,
  refl, sym, ap, ◌∙◌, arith, Bool-cases, inl, inr,
}
use hearthold.Prelude.Int.{pos, eqb_ℤ}
use hearthold.Ruleset.{
  SignedRuleset, RulesetStatus, RulesetCheck, signed, failed, Warden, ruleset_id, verify_ruleset,
  verify_member_ack, link_holds, amends, same_signer, same_actor, check_version, verify_from,
  verify_ordered, verify_ruleset_chain, pinned, pin_governor, serves, serve_from, if_active,
  operative_ordered, operative_ruleset, head_of, active_ruleset, ordered, last_of,
  widens_into_private_scope, guardianship_narrows_or_equal, signer_from, active, superseded,
  revoked, is_active,
}

signed-injective : (a b : Text) → signed a ≡ signed b → a ≡ b
signed-injective a b h = cc

module _ (w : Warden) where
  -- What a version that passes a round of either reader satisfies.
  pub record IsLawful (signer : Option Text) (prev : Option SignedRuleset) (i : ℕ)
      (r : SignedRuleset) (s : Text) : Type 0 where
    pub signed_by : verify_ruleset w r ≡ signed s
    pub same : same_signer w signer s ≡ true
    pub version : eqb_ℤ r.version (pos (suc i)) ≡ true
    pub linked : link_holds w prev r ≡ true
    pub amended : amends w prev r ≡ true

  check_version-IsLawful :
      (signer : Option Text) (first : SignedRuleset) (prev : Option SignedRuleset) (i : ℕ)
      (r : SignedRuleset) (s : Text) (c : RulesetCheck)
      → verify_ruleset w r ≡ c
      → check_version w signer first prev i r ≡ signed s
      → IsLawful signer prev i r s × (same_actor w first r ≡ true)
  unfolding check_version
  check_version-IsLawful signer first prev i r s (failed f) e h = absurd (ground (arith, e))
  check_version-IsLawful signer first prev i r s (signed t) e h =
      let k : (same_signer w signer t ≡ true)
          × (eqb_ℤ r.version (pos (suc i)) ≡ true)
          × (same_actor w first r ≡ true)
          × (link_holds w prev r ≡ true)
          × (amends w prev r ≡ true)
          × (signed t ≡ signed s) =
        ground (arith, e) in
      let t_s = signed-injective t s k.5 in
      (
        record {
          signed_by = e ∙ k.5;
          same = ap (same_signer w signer) (sym t_s) ∙ k.0;
          version = k.1;
          linked = k.3;
          amended = k.4;
        },
        k.2,
      )

  IsLawful→serves :
      (signer : Option Text) (prev : Option SignedRuleset) (i : ℕ) (r : SignedRuleset) (s : Text)
      → IsLawful signer prev i r s
      → serves w signer prev i r ≡ true
  unfolding serves
  IsLawful→serves signer prev i r s k =
      ground (arith, k.signed_by, k.same, k.version, k.linked, k.amended)

  verify_from-step :
      (signer : Text) (first prev : SignedRuleset) (i : ℕ) (r : SignedRuleset)
      (rs : List SignedRuleset) (s : Text) (c : RulesetCheck)
      → check_version w (some signer) first (some prev) i r ≡ c
      → verify_from w signer first prev i (r ∷ rs) ≡ signed s
      → (t : Text) × (check_version w (some signer) first (some prev) i r ≡ signed t)
        × (verify_from w signer first r (suc i) rs ≡ signed s)
  unfolding verify_from
  verify_from-step signer first prev i r rs s (failed f) e h = absurd (ground (arith, e))
  verify_from-step signer first prev i r rs s (signed t) e h = (t, e, ground (arith, e))

  verify_from-serves :
      (signer : Text) (first prev : SignedRuleset) (i : ℕ) (rs : List SignedRuleset) (s : Text)
      → verify_from w signer first prev i rs ≡ signed s
      → (verify_from w signer first prev i rs ≡ signed signer)
        × (serve_from w signer prev i rs ≡ last_of prev rs)
  unfolding verify_from serve_from
  verify_from-serves signer first prev i [] s h = (refl, refl)
  verify_from-serves signer first prev i (r ∷ rs) s h =
      let (t, checked, rest) =
        verify_from-step signer first prev i r rs s
          (check_version w (some signer) first (some prev) i r) refl h in
      let (lawful, actor) =
        check_version-IsLawful (some signer) first (some prev) i r t (verify_ruleset w r) refl
          checked in
      let served = IsLawful→serves (some signer) (some prev) i r t lawful in
      let (again, last) = verify_from-serves signer first r (suc i) rs s rest in
      (ground (arith, checked, again), ground (arith, served, last))

  verify_ordered-step :
      (expected : Option Text) (r : SignedRuleset) (rs : List SignedRuleset) (s : Text)
      (c : RulesetCheck)
      → check_version w none r none 0 r ≡ c
      → verify_ordered w expected (r ∷ rs) ≡ signed s
      → (t : Text) × (check_version w none r none 0 r ≡ signed t)
        × (pin_governor w expected (verify_from w t r r 1 rs) ≡ signed s)
  unfolding verify_ordered
  verify_ordered-step expected r rs s (failed f) e h = absurd (ground (arith, e))
  verify_ordered-step expected r rs s (signed t) e h = (t, e, ground (arith, e))

  pin-passed :
      (expected : Option Text) (c : RulesetCheck) (s : Text)
      → pin_governor w expected c ≡ signed s
      → (c ≡ signed s) × (pinned w expected s ≡ true)
  pin-passed expected (failed f) s h = absurd (ground arith)
  pin-passed expected (signed t) s h = elim (Bool-cases (pinned w expected t)) [
    | inl on ↦
        let e : signed t ≡ signed s = ground (arith, on) in
        (e, ap (pinned w expected) (sym (signed-injective t s e)) ∙ on)
    | inr off ↦ absurd (ground (arith, off))
  ]

  ordered-agree :
      (expected : Option Text) (rs : List SignedRuleset) (s : Text)
      → verify_ordered w expected rs ≡ signed s
      → operative_ordered w expected rs ≡ head_of w rs
  unfolding operative_ordered
  ordered-agree expected [] s h = refl
  ordered-agree expected (r ∷ rs) s h =
      let (t, checked, pinning) =
        verify_ordered-step expected r rs s (check_version w none r none 0 r) refl h in
      let (lawful, actor) =
        check_version-IsLawful none r none 0 r t (verify_ruleset w r) refl checked in
      let served = IsLawful→serves none none 0 r t lawful in
      let (from, pin) = pin-passed expected (verify_from w t r r 1 rs) s pinning in
      let (again, last) = verify_from-serves t r r 1 rs s from in
      let same : signed t ≡ signed s = sym again ∙ from in
      let pin_t : pinned w expected t ≡ true =
        ap (pinned w expected) (signed-injective t s same) ∙ pin in
      ground (arith, lawful.signed_by, served, pin_t, last)

  -- The ruleset goes back, by versions that name their predecessor and only narrow it or revoke
  -- it, to one that the member has signed.
  pub data IsConsented : SignedRuleset → Type 0 where
    acknowledged : {r : SignedRuleset} → verify_member_ack w r ≡ true → IsConsented r
    carried :
        {r : SignedRuleset} (prev : SignedRuleset)
        → IsConsented prev
        → prev.subject ≡ r.subject
        → r.previous ≡ some (ruleset_id w prev)
        → guardianship_narrows_or_equal prev r ≡ true
        → IsConsented r

  abbrev ConsentedTo : SignedRuleset → Type 0
  ConsentedTo r = is_filled (get_or r.subject []) ≡ true → IsConsented r

  amends-first : (r : SignedRuleset) → amends w none r ≡ true → ConsentedTo r
  unfolding amends widens_into_private_scope
  amends-first r h filled = acknowledged (ground (arith, filled))

  amends-next :
      (prev r : SignedRuleset)
      → ConsentedTo prev
      → link_holds w (some prev) r ≡ true
      → amends w (some prev) r ≡ true
      → ConsentedTo r
  unfolding amends widens_into_private_scope link_holds
  amends-next prev r before linked h filled = elim (Bool-cases (verify_member_ack w r)) [
    | inl ack ↦ acknowledged ack
    | inr no_ack ↦
        let same = (eq_opt_iff prev.subject r.subject).0 (ground (arith, filled, no_ack)) in
        carried prev (before (rw same filled)) same
          ((eq_opt_iff r.previous (some (ruleset_id w prev))).0 linked)
          (ground (arith, filled, no_ack))
  ]

  serves-parts :
      (signer : Option Text) (prev : Option SignedRuleset) (i : ℕ) (r : SignedRuleset)
      → serves w signer prev i r ≡ true
      → (link_holds w prev r ≡ true) × (amends w prev r ≡ true)
  unfolding serves
  serves-parts signer prev i r h = ground arith

  serve_from-ConsentedTo :
      (signer : Text) (prev : SignedRuleset) (i : ℕ) (rs : List SignedRuleset)
      → ConsentedTo prev
      → ConsentedTo (serve_from w signer prev i rs)
  unfolding serve_from
  serve_from-ConsentedTo signer prev i [] h = h
  serve_from-ConsentedTo signer prev i (r ∷ rs) h =
      elim (Bool-cases (serves w (some signer) (some prev) i r)) [
        | inr off ↦ rw off h
        | inl on ↦
            let (linked, amended) = serves-parts (some signer) (some prev) i r on in
            rw on (serve_from-ConsentedTo signer r (suc i) rs (amends-next prev r h linked amended))
      ]

  if_active-same :
      (r out : SignedRuleset) → if_active w r ≡ some out → (r ≡ out) × (r.status ≡ active)
  if_active-same r out h = elim (Bool-cases (is_active r.status)) [
    | inl on ↦ (some-injective r out (ground (arith, on)), is_active-only r.status on)
    | inr off ↦ absurd (ground (arith, off))
  ]
    where
      some-injective : (a b : SignedRuleset) → some a ≡ some b → a ≡ b
      some-injective a b h = cc

      is_active-only : (s : RulesetStatus) → is_active s ≡ true → s ≡ active
      is_active-only active h = refl
      is_active-only superseded h = absurd (ground arith)
      is_active-only revoked h = absurd (ground arith)

  operative_ordered-served :
      (expected : Option Text) (rs : List SignedRuleset) (out : SignedRuleset)
      → operative_ordered w expected rs ≡ some out
      → ConsentedTo out × (out.status ≡ active)
  unfolding operative_ordered
  operative_ordered-served expected [] out h = absurd (ground arith)
  operative_ordered-served expected (r ∷ rs) out h =
      let k : (serves w none none 0 r ≡ true)
          × (if_active w (serve_from w (signer_from w (verify_ruleset w r)) r 1 rs) ≡ some out) =
        ground arith in
      let (linked, amended) = serves-parts none none 0 r k.0 in
      let (same, live) =
        if_active-same (serve_from w (signer_from w (verify_ruleset w r)) r 1 rs) out k.1 in
      (
        subst ConsentedTo same (
            serve_from-ConsentedTo (signer_from w (verify_ruleset w r)) r 1 rs
              (amends-first r amended)),
        ap (λ x. x.status) (sym same) ∙ live,
      )

-- On a chain that verifies, the strict and the lenient reader put the same ruleset in force: the last
-- version in order if that one is active, and else none.
pub active-operative :
    (w : Warden) (expected : Option Text) (chain : List SignedRuleset) (s : Text)
    → verify_ruleset_chain w expected chain ≡ signed s
    → (active_ruleset w expected chain ≡ head_of w (ordered chain))
      × (operative_ruleset w expected chain ≡ head_of w (ordered chain))
unfolding active_ruleset operative_ruleset verify_ruleset_chain
active-operative w expected chain s h =
    (ground (arith, h), ordered-agree w expected (ordered chain) s h)

-- A ruleset in force over a member goes back, through versions that each name their predecessor
-- and either narrow it or revoke it, to a version that this member has acknowledged by signature.
pub operative_ruleset-IsConsented :
    (w : Warden) (expected : Option Text) (chain : List SignedRuleset) (r : SignedRuleset)
    → operative_ruleset w expected chain ≡ some r
    → is_filled (get_or r.subject []) ≡ true
    → IsConsented w r × (r.status ≡ active)
unfolding operative_ruleset
operative_ruleset-IsConsented w expected chain r h filled =
    let (consent, live) = operative_ordered-served w expected (ordered chain) r h in
    (consent filled, live)
