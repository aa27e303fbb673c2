-- ===== src/Monitor/Replay.antt =====
-- Sequences of calls of `authorizeInvocation` (packages/core/src/invocation-monitor.ts) on one
-- ledger, each of which other calls may overlap.
use hearthold.Prelude.{
  ◌≡◌, ◌≢◌, true, false, Option, some, none, List, [], ◌∷◌, get_or, arith, Bool-cases, Option-cases,
  inl, inr,
}
use hearthold.Capability.{Caveats, ThirdPartyCaveat}
use hearthold.SpentTxns.{SpentTxnStore, IsLedger}
use hearthold.SpentTxns.Laws.{mark-is_spent, mark-keeps}
use hearthold.Monitor.{
  CapabilityInvocation, InvocationContext, VerifiedLeaf, allow, is_single_use, capability_key,
  cap_spent, with_policy, unmet_caveats,
}
use hearthold.Monitor.Overlap.{
  Gaps, IsMarking, Marks, Marks-keep, burn_over, settle_over, judge_over, authorize_over,
}

module _ {S : Type 0} (store : SpentTxnStore S) (ledger : IsLedger store) (gaps : Gaps S)
    (marking : IsMarking store gaps) where
  open store use {is_spent, mark_spent}

  -- What an allowed call read of the ledger, and what it leaves there.
  record IsBurned (inv : CapabilityInvocation) (leaf : VerifiedLeaf) (s s' : S) : Type 0 where
    fresh : is_spent s inv.act.txn ≡ some false
    unused :
        is_single_use store leaf ≡ true
        → is_spent (gaps.before_key s) (capability_key leaf) ≡ some false
    burned : is_spent s' inv.act.txn ≡ some true
    capability_burned :
        is_single_use store leaf ≡ true → is_spent s' (capability_key leaf) ≡ some true

  burn_over-burned :
      (inv : CapabilityInvocation) (leaf : VerifiedLeaf) (s : S) (c : Caveats)
      → (burn_over store gaps inv leaf s).decision ≡ some (allow c)
      → (is_spent (burn_over store gaps inv leaf s).ledger inv.act.txn ≡ some true)
        × (is_single_use store leaf ≡ true
            → is_spent (burn_over store gaps inv leaf s).ledger (capability_key leaf) ≡ some true)
  unfolding burn_over
  burn_over-burned inv leaf s c h = elim (Option-cases (mark_spent s inv.act.txn)) [
    | inl off ↦ absurd (ground (arith, off))
    | inr (m, on) ↦
        let first = mark-is_spent store ledger s m inv.act.txn on in
        elim (Bool-cases (is_single_use store leaf)) [
          | inr many ↦ rw (burn_over, on, many) (first, λ one. absurd (ground arith))
          | inl single ↦
              let gap = gaps.before_key_burn m in
              elim (Option-cases (mark_spent gap (capability_key leaf))) [
                | inl off ↦ absurd (ground (arith, on, off))
                | inr (b, both) ↦
                    rw (burn_over, on, single, both)
                      (
                        mark-keeps store ledger gap b (capability_key leaf) inv.act.txn both (
                            Marks-keep store ledger m gap inv.act.txn (marking.before_key_burn m)
                              first),
                        λ one. mark-is_spent store ledger gap b (capability_key leaf) both,
                      )
              ]
        ]
  ]

  settle_over-burned :
      (inv : CapabilityInvocation) (leaf : VerifiedLeaf) (s : S)
      (unmet : Option (List ThirdPartyCaveat)) (c : Caveats)
      → (settle_over store gaps inv leaf s unmet).decision ≡ some (allow c)
      → (is_spent (settle_over store gaps inv leaf s unmet).ledger inv.act.txn ≡ some true)
        × (is_single_use store leaf ≡ true
            → is_spent (settle_over store gaps inv leaf s unmet).ledger (capability_key leaf)
              ≡ some true)
  unfolding settle_over
  settle_over-burned inv leaf s none c h = absurd (ground arith)
  settle_over-burned inv leaf s (some []) c h = burn_over-burned inv leaf s c h
  settle_over-burned inv leaf s (some (u ∷ us)) c h = absurd (ground arith)

  judge_over-settles :
      (inv : CapabilityInvocation) (ctx : InvocationContext) (leaf : VerifiedLeaf) (s : S)
      (c : Caveats)
      → (judge_over store gaps inv ctx leaf s).decision ≡ some (allow c)
      → (cap_spent store leaf (gaps.before_key s) ≡ some false)
        × (judge_over store gaps inv ctx leaf s
            ≡ settle_over store gaps inv leaf (gaps.before_burn (gaps.before_key s)) (
                with_policy inv ctx leaf
                  (unmet_caveats inv ctx leaf (get_or leaf.caveats.requires_discharge []))))
  unfolding judge_over
  judge_over-settles inv ctx leaf s c h = ground arith

  authorize_over-judges :
      (inv : CapabilityInvocation) (ctx : InvocationContext) (leaf : VerifiedLeaf) (s : S)
      (c : Caveats)
      → (authorize_over store gaps inv ctx leaf s).decision ≡ some (allow c)
      → (is_spent s inv.act.txn ≡ some false)
        × (authorize_over store gaps inv ctx leaf s ≡ judge_over store gaps inv ctx leaf s)
  unfolding authorize_over
  authorize_over-judges inv ctx leaf s c h = ground arith

  authorize_over-IsBurned :
      (inv : CapabilityInvocation) (ctx : InvocationContext) (leaf : VerifiedLeaf) (s : S)
      (c : Caveats)
      → (authorize_over store gaps inv ctx leaf s).decision ≡ some (allow c)
      → IsBurned inv leaf s (authorize_over store gaps inv ctx leaf s).ledger
  authorize_over-IsBurned inv ctx leaf s c h =
      let (fresh, e) = authorize_over-judges inv ctx leaf s c h in
      let (unused, e') = judge_over-settles inv ctx leaf s c (rw (← e) h) in
      let (txn, key) =
        settle_over-burned inv leaf (gaps.before_burn (gaps.before_key s))
          (with_policy inv ctx leaf
            (unmet_caveats inv ctx leaf (get_or leaf.caveats.requires_discharge [])))
          c (rw (← e', ← e) h) in
      record {
        fresh = fresh;
        unused = λ one. ground (arith, unused, one);
        burned = rw (e, e') txn;
        capability_burned = rw (e, e') key;
      }

module _ {S : Type 0} (store : SpentTxnStore S) (ledger : IsLedger store) (gaps gaps' : Gaps S)
    (marking : IsMarking store gaps) (marking' : IsMarking store gaps') where
  -- On a ledger that keeps its law, after a call has allowed an act and returned, no call that
  -- begins later on that ledger allows an act with the same transaction, whichever capability,
  -- context or caller it comes with, and whatever calls come between the two, or overlap either:
  -- in its gaps and in between the ledger is only marked, each mark one step. Of two calls that
  -- overlap each other it says nothing.
  pub replay-never-allowed :
      (inv again : CapabilityInvocation) (ctx ctx' : InvocationContext) (leaf leaf' : VerifiedLeaf)
      (s s' : S) (c c' : Caveats)
      → (authorize_over store gaps inv ctx leaf s).decision ≡ some (allow c)
      → Marks store (authorize_over store gaps inv ctx leaf s).ledger s'
      → again.act.txn ≡ inv.act.txn
      → (authorize_over store gaps' again ctx' leaf' s').decision ≢ some (allow c')
  replay-never-allowed inv again ctx ctx' leaf leaf' s s' c c' h later same h' =
      let first = authorize_over-IsBurned store ledger gaps marking inv ctx leaf s c h in
      let second = authorize_over-IsBurned store ledger gaps' marking' again ctx' leaf' s' c' h' in
      let spent = Marks-keep store ledger _ s' inv.act.txn later first.burned in
      ground (arith, second.fresh, spent, same)

  -- On a ledger that keeps its law, after a call has allowed an act under a single-use capability
  -- and returned, no call that begins later on that ledger allows an act under a single-use leaf
  -- with the same id, whatever calls come between the two, or overlap either: in its gaps and in
  -- between the ledger is only marked, each mark one step. Of two calls that overlap each other it
  -- says nothing.
  pub single_use-once :
      (inv again : CapabilityInvocation) (ctx ctx' : InvocationContext) (leaf leaf' : VerifiedLeaf)
      (s s' : S) (c c' : Caveats)
      → is_single_use store leaf ≡ true
      → is_single_use store leaf' ≡ true
      → leaf'.id ≡ leaf.id
      → (authorize_over store gaps inv ctx leaf s).decision ≡ some (allow c)
      → Marks store (authorize_over store gaps inv ctx leaf s).ledger s'
      → (authorize_over store gaps' again ctx' leaf' s').decision ≢ some (allow c')
  single_use-once inv again ctx ctx' leaf leaf' s s' c c' one one' same h later h' =
      let first = authorize_over-IsBurned store ledger gaps marking inv ctx leaf s c h in
      let second = authorize_over-IsBurned store ledger gaps' marking' again ctx' leaf' s' c' h' in
      let spent =
        Marks-keep store ledger _ s' (capability_key leaf) later (first.capability_burned one) in
      let still =
        Marks-keep store ledger s' (gaps'.before_key s') (capability_key leaf)
          (marking'.before_key s') spent in
      ground (arith, second.unused one', still, same)
