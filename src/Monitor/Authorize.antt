-- ===== src/Monitor/Authorize.antt =====
-- What `authorizeInvocation` of packages/core/src/invocation-monitor.ts has established when it
-- allows an act, and what it leaves of the ledger when it does not.
use hearthold.Prelude.{
  ◌≢◌, true, false, Option, none, some, List, [], ◌∷◌, Text, get_or, All, is_filled, ◌≡◌, refl,
  arith, Bool-cases, inl, inr, Option-cases,
}
use hearthold.Capability.{Caveats, ThirdPartyCaveat}
use hearthold.SpentTxns.{SpentTxnStore, IsLedger}
use hearthold.SpentTxns.Laws.{mark-is_spent, mark-keeps}
use hearthold.Monitor.{
  CapabilityInvocation, InvocationContext, VerifiedLeaf, allow, has_expired, exceeds, human_gate,
  unmet_caveats, with_policy, policy_consent, owner_of, capability_key, burn, settle, judge,
  cap_spent, is_single_use, authorize_invocation,
}
use hearthold.Monitor.Discharges.{IsDischarged, unmet_caveats-none, with_policy-none}

module _ {S : Type 0} (store : SpentTxnStore S) (ledger : IsLedger store) where
  open store use {is_spent, mark_spent}

  -- What an allowed act has passed, and the ledger after it.
  pub record IsAuthorized (inv : CapabilityInvocation) (ctx : InvocationContext)
      (leaf : VerifiedLeaf) (s s' : S) : Type 0 where
    pub fresh : is_spent s inv.act.txn ≡ some false
    pub alive : has_expired ctx leaf.caveats.expires ≡ false
    pub unused : cap_spent store leaf s ≡ some false
    pub below_ceiling : exceeds ctx.sensitivity leaf.caveats.ceiling ≡ false
    pub consented :
        All (λ c. IsDischarged inv c ctx leaf) (get_or leaf.caveats.requires_discharge [])
    pub human_consent :
        human_gate ctx ≡ true
        → (is_filled (get_or (owner_of ctx leaf) []) ≡ true)
          × IsDischarged inv (policy_consent (get_or (owner_of ctx leaf) [])) ctx leaf
    pub burned : is_spent s' inv.act.txn ≡ some true
    pub capability_burned :
        is_single_use store leaf ≡ true → is_spent s' (capability_key leaf) ≡ some true

  burn-burned :
      (inv : CapabilityInvocation) (leaf : VerifiedLeaf) (s : S) (c : Caveats)
      → (burn store inv leaf s).decision ≡ some (allow c)
      → (is_spent (burn store inv leaf s).ledger inv.act.txn ≡ some true)
        × (is_single_use store leaf ≡ true
            → is_spent (burn store inv leaf s).ledger (capability_key leaf) ≡ some true)
  unfolding burn
  burn-burned inv leaf s c h = elim (Option-cases (mark_spent s inv.act.txn)) [
    | inl off ↦ absurd (ground (arith, off))
    | inr (m, on) ↦ elim (Bool-cases (is_single_use store leaf)) [
      | inr many ↦
          rw (burn, on, many)
            (mark-is_spent store ledger s m inv.act.txn on, λ one. absurd (ground arith))
      | inl single ↦ elim (Option-cases (mark_spent m (capability_key leaf))) [
        | inl off ↦ absurd (ground (arith, on, off))
        | inr (b, both) ↦
            rw (burn, on, single, both)
              (
                mark-keeps store ledger m b (capability_key leaf) inv.act.txn both
                    (mark-is_spent store ledger s m inv.act.txn on),
                λ one. mark-is_spent store ledger m b (capability_key leaf) both,
              )
      ]
    ]
  ]

  -- What is spent stays spent in a burn.
  burn-keeps :
      (inv : CapabilityInvocation) (leaf : VerifiedLeaf) (s : S) (u : Text)
      → is_spent s u ≡ some true
      → is_spent (burn store inv leaf s).ledger u ≡ some true
  unfolding burn
  burn-keeps inv leaf s u h = elim (Option-cases (mark_spent s inv.act.txn)) [
    | inl off ↦ rw (burn, off) h
    | inr (m, on) ↦ elim (Bool-cases (is_single_use store leaf)) [
      | inr many ↦ rw (burn, on, many) (mark-keeps store ledger s m inv.act.txn u on h)
      | inl single ↦ elim (Option-cases (mark_spent m (capability_key leaf))) [
        | inl off ↦ rw (burn, on, single, off) (mark-keeps store ledger s m inv.act.txn u on h)
        | inr (b, both) ↦
            rw (burn, on, single, both)
              (mark-keeps store ledger m b (capability_key leaf) u both
                (mark-keeps store ledger s m inv.act.txn u on h))
      ]
    ]
  ]

  settle-allowed :
      (inv : CapabilityInvocation) (leaf : VerifiedLeaf) (s : S)
      (unmet : Option (List ThirdPartyCaveat)) (c : Caveats)
      → (settle store inv leaf s unmet).decision ≡ some (allow c)
      → (unmet ≡ some [])
        × (is_spent (settle store inv leaf s unmet).ledger inv.act.txn ≡ some true)
        × (is_single_use store leaf ≡ true
            → is_spent (settle store inv leaf s unmet).ledger (capability_key leaf) ≡ some true)
  unfolding settle
  settle-allowed inv leaf s none c h = absurd (ground arith)
  settle-allowed inv leaf s (some []) c h =
      let (txn, cap) = burn-burned inv leaf s c h in (refl, txn, cap)
  settle-allowed inv leaf s (some (u ∷ us)) c h = absurd (ground arith)

  settle-keeps :
      (inv : CapabilityInvocation) (leaf : VerifiedLeaf) (s : S)
      (unmet : Option (List ThirdPartyCaveat)) (u : Text)
      → is_spent s u ≡ some true
      → is_spent (settle store inv leaf s unmet).ledger u ≡ some true
  unfolding settle
  settle-keeps inv leaf s none u h = h
  settle-keeps inv leaf s (some []) u h = burn-keeps inv leaf s u h
  settle-keeps inv leaf s (some (x ∷ xs)) u h = h

  -- The unmet caveats of an act, the policy's with them.
  abbrev asked :
      CapabilityInvocation → InvocationContext → VerifiedLeaf → Option (List ThirdPartyCaveat)
  asked inv ctx leaf =
      with_policy inv ctx leaf
        (unmet_caveats inv ctx leaf (get_or leaf.caveats.requires_discharge []))

  -- The tests before the discharges pass, and the rest of the call is `settle`.
  judge-settles :
      (inv : CapabilityInvocation) (ctx : InvocationContext) (leaf : VerifiedLeaf) (s : S)
      (c : Caveats)
      → (judge store inv ctx leaf s).decision ≡ some (allow c)
      → (has_expired ctx leaf.caveats.expires ≡ false)
        × (cap_spent store leaf s ≡ some false)
        × (exceeds ctx.sensitivity leaf.caveats.ceiling ≡ false)
        × (judge store inv ctx leaf s ≡ settle store inv leaf s (asked inv ctx leaf))
  unfolding judge
  judge-settles inv ctx leaf s c h = ground arith

  authorize-judges :
      (inv : CapabilityInvocation) (ctx : InvocationContext) (leaf : VerifiedLeaf) (s : S)
      (c : Caveats)
      → (authorize_invocation store inv ctx leaf s).decision ≡ some (allow c)
      → (is_spent s inv.act.txn ≡ some false)
        × (authorize_invocation store inv ctx leaf s ≡ judge store inv ctx leaf s)
  unfolding authorize_invocation
  authorize-judges inv ctx leaf s c h = ground arith

  judge-keeps :
      (inv : CapabilityInvocation) (ctx : InvocationContext) (leaf : VerifiedLeaf) (s : S)
      (u : Text)
      → is_spent s u ≡ some true
      → is_spent (judge store inv ctx leaf s).ledger u ≡ some true
  unfolding judge
  judge-keeps inv ctx leaf s u h = ground (arith, settle-keeps inv leaf s (asked inv ctx leaf) u h)

  pub authorize-keeps_spent :
      (inv : CapabilityInvocation) (ctx : InvocationContext) (leaf : VerifiedLeaf) (s : S)
      (u : Text)
      → is_spent s u ≡ some true
      → is_spent (authorize_invocation store inv ctx leaf s).ledger u ≡ some true
  unfolding authorize_invocation
  authorize-keeps_spent inv ctx leaf s u h = ground (arith, judge-keeps inv ctx leaf s u h)

  -- When an act is allowed, its transaction was not spent and is spent afterwards, the capability
  -- had not expired, a single-use capability was not spent and is spent afterwards, the
  -- sensitivity does not exceed the ceiling, every discharge caveat is discharged for this act,
  -- and at or above the policy's line a named owner has consented to it.
  pub authorize_invocation_sound :
      (inv : CapabilityInvocation) (ctx : InvocationContext) (leaf : VerifiedLeaf) (s : S)
      (c : Caveats)
      → (authorize_invocation store inv ctx leaf s).decision ≡ some (allow c)
      → IsAuthorized inv ctx leaf s (authorize_invocation store inv ctx leaf s).ledger
  authorize_invocation_sound inv ctx leaf s c h =
      let (fresh, e) = authorize-judges inv ctx leaf s c h in
      let h' : (judge store inv ctx leaf s).decision ≡ some (allow c) = rw (← e) h in
      let (alive, unused, below, e') = judge-settles inv ctx leaf s c h' in
      let (none_left, txn, cap) = settle-allowed inv leaf s (asked inv ctx leaf) c (rw (← e') h') in
      let (no_unmet, gate) =
        with_policy-none inv ctx leaf
          (unmet_caveats inv ctx leaf (get_or leaf.caveats.requires_discharge [])) none_left in
      record {
        fresh = fresh;
        alive = alive;
        unused = unused;
        below_ceiling = below;
        consented =
            unmet_caveats-none inv ctx leaf (get_or leaf.caveats.requires_discharge []) no_unmet;
        human_consent = gate;
        burned = rw (e, e') txn;
        capability_burned = λ one. rw (e, e') (cap one);
      }

  settle-refused :
      (inv : CapabilityInvocation) (leaf : VerifiedLeaf) (s : S)
      (unmet : Option (List ThirdPartyCaveat))
      → ((c : Caveats) → (settle store inv leaf s unmet).decision ≢ some (allow c))
      → (settle store inv leaf s unmet).decision ≢ none
      → (settle store inv leaf s unmet).ledger ≡ s
  unfolding settle burn
  settle-refused inv leaf s none h k = refl
  settle-refused inv leaf s (some []) h k = ground (arith, h leaf.caveats)
  settle-refused inv leaf s (some (u ∷ us)) h k = refl

  -- A call that answers, but not by allowing the act, leaves the ledger as it was: a denial or a
  -- request for discharges burns neither the transaction nor the capability.
  pub authorize_invocation-refusal :
      (inv : CapabilityInvocation) (ctx : InvocationContext) (leaf : VerifiedLeaf) (s : S)
      → ((c : Caveats) → (authorize_invocation store inv ctx leaf s).decision ≢ some (allow c))
      → (authorize_invocation store inv ctx leaf s).decision ≢ none
      → (authorize_invocation store inv ctx leaf s).ledger ≡ s
  unfolding authorize_invocation judge
  authorize_invocation-refusal inv ctx leaf s h k =
      ground (arith, settle-refused inv leaf s (asked inv ctx leaf), h leaf.caveats)
