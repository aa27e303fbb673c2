-- ===== src/Monitor/Overlap.antt =====
-- `authorizeInvocation` (packages/core/src/invocation-monitor.ts) with what other calls do to the
-- ledger while it awaits: between its two reads of the ledger, between them and the burn, and between
-- the two burns. With nothing in the gaps it is the one of Monitor. One read or mark of the ledger is
-- one step.
use hearthold.Prelude.{
  true, false, Option, none, some, List, [], ◌∷◌, Text, get_or, if◌then◌else◌, ◌≡◌, refl, arith,
  Bool-cases, Option-cases, inl, inr,
}
use hearthold.Capability.{ThirdPartyCaveat}
use hearthold.SpentTxns.{SpentTxnStore, IsLedger}
use hearthold.Monitor.{
  CapabilityInvocation, InvocationContext, VerifiedLeaf, Outcome, allow, deny, replay, expired,
  single_use_spent, over_ceiling, no_owner, needs_discharge, has_expired, exceeds, unmet_caveats,
  with_policy, capability_key, is_single_use, cap_spent, burn, settle, judge, authorize_invocation,
}

-- What others do to the ledger before a call reads the capability's key, before it marks the
-- transaction, and before it marks the key.
pub record Gaps (S : Type 0) : Type 0 where
  pub before_key : S → S
  pub before_burn : S → S
  pub before_key_burn : S → S

abbrev pub quiet : {S : Type 0} → Gaps S
quiet = record { before_key = λ s. s; before_burn = λ s. s; before_key_burn = λ s. s }

module _ {S : Type 0} (store : SpentTxnStore S) (gaps : Gaps S) where
  open store use {is_spent, mark_spent}

  unfoldable pub burn_over : CapabilityInvocation → VerifiedLeaf → S → Outcome S
  burn_over inv leaf s = elim (mark_spent s inv.act.txn) [
    | none ↦ record { decision = none; ledger = s }
    | some marked ↦
        if is_single_use store leaf
        then elim (mark_spent (gaps.before_key_burn marked) (capability_key leaf)) [
          | none ↦ record { decision = none; ledger = gaps.before_key_burn marked }
          | some both ↦ record { decision = some (allow leaf.caveats); ledger = both }
        ]
        else record { decision = some (allow leaf.caveats); ledger = marked }
  ]

  unfoldable pub settle_over :
      CapabilityInvocation → VerifiedLeaf → S → Option (List ThirdPartyCaveat) → Outcome S
  unfolding burn_over
  settle_over inv leaf s none = record { decision = some (deny no_owner); ledger = s }
  settle_over inv leaf s (some []) = burn_over inv leaf s
  settle_over inv leaf s (some (u ∷ us)) = record {
    decision = some (needs_discharge (u ∷ us));
    ledger = s;
  }

  unfoldable pub judge_over :
      CapabilityInvocation → InvocationContext → VerifiedLeaf → S → Outcome S
  unfolding settle_over
  judge_over inv ctx leaf s =
      if has_expired ctx leaf.caveats.expires
      then record { decision = some (deny expired); ledger = s }
      else elim (cap_spent store leaf (gaps.before_key s)) [
        | none ↦ record { decision = none; ledger = gaps.before_key s }
        | some true ↦ record { decision = some (deny single_use_spent); ledger = gaps.before_key s }
        | some false ↦
            if exceeds ctx.sensitivity leaf.caveats.ceiling
            then record { decision = some (deny over_ceiling); ledger = gaps.before_key s }
            else settle_over inv leaf (gaps.before_burn (gaps.before_key s)) (
                with_policy inv ctx leaf
                  (unmet_caveats inv ctx leaf (get_or leaf.caveats.requires_discharge [])))
      ]

  unfoldable pub authorize_over :
      CapabilityInvocation → InvocationContext → VerifiedLeaf → S → Outcome S
  unfolding judge_over
  authorize_over inv ctx leaf s = elim (is_spent s inv.act.txn) [
    | none ↦ record { decision = none; ledger = s }
    | some true ↦ record { decision = some (deny replay); ledger = s }
    | some false ↦ judge_over inv ctx leaf s
  ]

module _ {S : Type 0} (store : SpentTxnStore S) where
  open store use {is_spent, mark_spent}

  settle_over-quiet :
      (inv : CapabilityInvocation) (leaf : VerifiedLeaf) (s : S)
      (unmet : Option (List ThirdPartyCaveat))
      → settle_over store quiet inv leaf s unmet ≡ settle store inv leaf s unmet
  unfolding settle_over settle burn_over burn
  settle_over-quiet inv leaf s none = refl
  settle_over-quiet inv leaf s (some []) = refl
  settle_over-quiet inv leaf s (some (u ∷ us)) = refl

  -- With nothing in the gaps, it is the call in one step.
  pub authorize_over-quiet :
      (inv : CapabilityInvocation) (ctx : InvocationContext) (leaf : VerifiedLeaf) (s : S)
      → authorize_over store quiet inv ctx leaf s ≡ authorize_invocation store inv ctx leaf s
  unfolding authorize_over authorize_invocation judge_over judge
  authorize_over-quiet inv ctx leaf s =
      let unmet =
        with_policy inv ctx leaf
          (unmet_caveats inv ctx leaf (get_or leaf.caveats.requires_discharge [])) in
      let same = settle_over-quiet inv leaf s unmet in ground (arith, same)

  -- Any number of marks, by any calls.
  pub data Marks (s : S) : S → Type 0 where
    now : Marks s s
    mark : {s' s'' : S} (t : Text) → Marks s s' → mark_spent s' t ≡ some s'' → Marks s s''

  -- In each gap others only mark.
  pub record IsMarking (gaps : Gaps S) : Type 0 where
    pub before_key : (s : S) → Marks s (gaps.before_key s)
    pub before_burn : (s : S) → Marks s (gaps.before_burn s)
    pub before_key_burn : (s : S) → Marks s (gaps.before_key_burn s)

  pub Marks-trans : (s s' s'' : S) → Marks s s' → Marks s' s'' → Marks s s''
  Marks-trans s s' _ m now = m
  Marks-trans s s' _ m (mark t n e) = mark t (Marks-trans s s' _ m n) e

  -- A call only marks, as do those that it overlaps: it may stand in the gap of another.
  burn_over-Marks :
      (gaps : Gaps S)
      → IsMarking gaps
      → (inv : CapabilityInvocation) (leaf : VerifiedLeaf) (s : S)
      → Marks s (burn_over store gaps inv leaf s).ledger
  unfolding burn_over
  burn_over-Marks gaps k inv leaf s = elim (Option-cases (mark_spent s inv.act.txn)) [
    | inl off ↦ rw (burn_over, off) now
    | inr (marked, on) ↦
        let one = mark inv.act.txn now on in
        elim (Bool-cases (is_single_use store leaf)) [
          | inr many ↦ rw (burn_over, on, many) one
          | inl single ↦
              let two =
                Marks-trans s marked (gaps.before_key_burn marked) one (k.before_key_burn marked) in
              elim (Option-cases (mark_spent (gaps.before_key_burn marked) (capability_key leaf))) [
                | inl off ↦ rw (burn_over, on, single, off) two
                | inr (both, also) ↦
                    rw (burn_over, on, single, also) (mark (capability_key leaf) two also)
              ]
        ]
  ]

  settle_over-Marks :
      (gaps : Gaps S)
      → IsMarking gaps
      → (inv : CapabilityInvocation) (leaf : VerifiedLeaf) (s : S)
        (unmet : Option (List ThirdPartyCaveat))
      → Marks s (settle_over store gaps inv leaf s unmet).ledger
  unfolding settle_over
  settle_over-Marks gaps k inv leaf s none = now
  settle_over-Marks gaps k inv leaf s (some []) = burn_over-Marks gaps k inv leaf s
  settle_over-Marks gaps k inv leaf s (some (u ∷ us)) = now

  judge_over-Marks :
      (gaps : Gaps S)
      → IsMarking gaps
      → (inv : CapabilityInvocation) (ctx : InvocationContext) (leaf : VerifiedLeaf) (s : S)
      → Marks s (judge_over store gaps inv ctx leaf s).ledger
  unfolding judge_over
  judge_over-Marks gaps k inv ctx leaf s =
      let read = gaps.before_key s in
      let unmet =
        with_policy inv ctx leaf
          (unmet_caveats inv ctx leaf (get_or leaf.caveats.requires_discharge [])) in
      let settled =
        Marks-trans s (gaps.before_burn read)
          (settle_over store gaps inv leaf (gaps.before_burn read) unmet).ledger
          (Marks-trans s read (gaps.before_burn read) (k.before_key s) (k.before_burn read))
          (settle_over-Marks gaps k inv leaf (gaps.before_burn read) unmet) in
      elim (Bool-cases (has_expired ctx leaf.caveats.expires)) [
        | inl over ↦ rw (judge_over, over) now
        | inr alive ↦ elim (Option-cases (cap_spent store leaf read)) [
          | inl off ↦ rw (judge_over, alive, off) (k.before_key s)
          | inr (true, on) ↦ rw (judge_over, alive, on) (k.before_key s)
          | inr (false, on) ↦ elim (Bool-cases (exceeds ctx.sensitivity leaf.caveats.ceiling)) [
            | inl above ↦ rw (judge_over, alive, on, above) (k.before_key s)
            | inr below ↦ rw (judge_over, alive, on, below) settled
          ]
        ]
      ]

  pub authorize_over-Marks :
      (gaps : Gaps S)
      → IsMarking gaps
      → (inv : CapabilityInvocation) (ctx : InvocationContext) (leaf : VerifiedLeaf) (s : S)
      → Marks s (authorize_over store gaps inv ctx leaf s).ledger
  unfolding authorize_over
  authorize_over-Marks gaps k inv ctx leaf s = elim (Option-cases (is_spent s inv.act.txn)) [
    | inl off ↦ rw (authorize_over, off) now
    | inr (true, on) ↦ rw (authorize_over, on) now
    | inr (false, on) ↦ rw (authorize_over, on) (judge_over-Marks gaps k inv ctx leaf s)
  ]

module _ {S : Type 0} (store : SpentTxnStore S) (ledger : IsLedger store) where
  open store use {is_spent, mark_spent}

  pub Marks-keep :
      (s s' : S) (u : Text)
      → Marks store s s'
      → is_spent s u ≡ some true
      → is_spent s' u ≡ some true
  Marks-keep s _ u now h = h
  Marks-keep s _ u (mark {s'} {s''} t before e) h =
      let prior = Marks-keep s s' u before h in
      let (b, was, is) = ledger.marks s' s'' t u e in ground (arith, prior, was, is)
