-- ===== src/Allocation/Held.antt =====
-- What `allocateIndex` of packages/core/src/allocation.ts has when it returns, whatever others do.
use hearthold.Prelude.{
  ℕ, zero, suc, ◌+◌, ◌≤◌, true, Option, none, some, List, Text, ◌==◌, ==_iff, get_or, ◌≡◌, ◌⊎◌,
  refl, sym, ap, ◌∙◌, arith, Option-cases, inl, inr,
}
use hearthold.Allocation.{
  Allocations, index_of, put, values, pick_free, AllocationNode, Gaps, Attempt, threw, conflict,
  done, read_record, head_version, verify_write, write_record, swap, allocate_from, attempt,
  attempts, allocate_index,
}

module _ {W B : Type 0} (node : AllocationNode W B) where
  -- The index that a call returns: the record of the state that it leaves holds it for the id, either
  -- as it found it, or as the one entry of its value.
  pub record IsHeld (id : Text) (i : ℕ) (w : W) : Type 0 where
    pub allocations : Allocations
    pub version : ℕ
    pub read : read_record node w ≡ some (allocations, version)
    pub held : index_of allocations id ≡ some i

  get_or-is : (o : Option ℕ) (i : ℕ) → get_or o (suc i) ≡ i → o ≡ some i
  get_or-is none i h = absurd (omega arith)
  get_or-is (some j) i h = ap some h

  done-injective : (i j : ℕ) (w w' : W) → done i w ≡ done j w' → (i ≡ j) × (w ≡ w')
  done-injective i j w w' h = (cc, cc)

  verify_write-IsHeld :
      (id : Text) (index i : ℕ) (w w' : W)
      → verify_write node id index w ≡ done i w'
      → IsHeld id i w'
  unfolding verify_write
  verify_write-IsHeld id index i w w' h = elim (Option-cases (read_record node w)) [
    | inl off ↦ absurd (ground (arith, off))
    | inr (r, on) ↦
        let k : (get_or (index_of r.0 id) (suc index) == index ≡ true)
            × (done index w ≡ done i w') =
          ground (arith, on) in
        let (same, end) = done-injective index i w w' k.1 in
        record {
          allocations = r.0;
          version = r.1;
          read = ap (read_record node) (sym end) ∙ on;
          held =
              get_or-is (index_of r.0 id) index
                ((==_iff (get_or (index_of r.0 id) (suc index)) index).0 k.0)
              ∙ ap some same;
        }
  ]

  write_record-IsHeld :
      (gaps : Gaps W) (id : Text) (index i : ℕ) (a : Allocations) (w w' : W)
      → write_record node gaps id index a w ≡ done i w'
      → IsHeld id i w'
  unfolding write_record
  write_record-IsHeld gaps id index i a w w' h = elim (Option-cases (node.seal (put a id index))) [
    | inl off ↦ absurd (ground (arith, off))
    | inr (sealed, on) ↦ elim (Option-cases (node.merge_data w sealed)) [
      | inl stale ↦ absurd (ground (arith, on, stale))
      | inr (w2, written) ↦
          verify_write-IsHeld id index i (gaps.after_write w2) w' (ground (arith, on, written))
    ]
  ]

  swap-IsHeld :
      (gaps : Gaps W) (id : Text) (index i : ℕ) (a : Allocations) (version : ℕ) (w w' : W)
      → swap node gaps id index a version w ≡ done i w'
      → IsHeld id i w'
  unfolding swap
  swap-IsHeld gaps id index i a version w w' h = elim (Option-cases (head_version node w)) [
    | inl off ↦ absurd (ground (arith, off))
    | inr (head, on) ↦
        write_record-IsHeld gaps id index i a (gaps.after_check w) w' (ground (arith, on))
  ]

  allocate_from-IsHeld :
      (gaps : Gaps W) (id : Text) (space i : ℕ) (draws : List ℕ) (w w' : W) (r : Allocations × ℕ)
      → read_record node w ≡ some r
      → allocate_from node gaps id space draws w r ≡ done i w'
      → IsHeld id i w'
  unfolding allocate_from
  allocate_from-IsHeld gaps id space i draws w w' r read h = elim (Option-cases (index_of r.0 id)) [
    | inr (existing, on) ↦
        let (same, end) = done-injective existing i w w' (ground (arith, on)) in
        record {
          allocations = r.0;
          version = r.1;
          read = ap (read_record node) (sym end) ∙ read;
          held = on ∙ ap some same;
        }
    | inl off ↦ elim (Option-cases (pick_free (values r.0) space draws)) [
      | inl full ↦ absurd (ground (arith, off, full))
      | inr (index, free) ↦
          swap-IsHeld gaps id index i r.0 r.1 (gaps.after_read w) w' (ground (arith, off, free))
    ]
  ]

  attempt-IsHeld :
      (gaps : Gaps W) (id : Text) (space i : ℕ) (draws : List ℕ) (w w' : W)
      → attempt node gaps id space draws w ≡ done i w'
      → IsHeld id i w'
  unfolding attempt
  attempt-IsHeld gaps id space i draws w w' h = elim (Option-cases (node.set_current_id w)) [
    | inl off ↦ absurd (ground (arith, off))
    | inr (w2, on) ↦ elim (Option-cases (read_record node w2)) [
      | inl unread ↦ absurd (ground (arith, on, unread))
      | inr (r, read) ↦
          allocate_from-IsHeld gaps id space i draws w2 w' r read (ground (arith, on, read))
    ]
  ]

  Attempt-cases :
      (a : Attempt W)
      → (a ≡ threw) ⊎ (((w : W) × (a ≡ conflict w)) ⊎ ((i : ℕ) × (w : W) × (a ≡ done i w)))
  Attempt-cases threw = inl refl
  Attempt-cases (conflict w) = inr (inl (w, refl))
  Attempt-cases (done i w) = inr (inr (i, w, refl))

  out-injective :
      (i j n m : ℕ) (w w' : W)
      → ◌≡◌ {A = Option ((ℕ × ℕ) × W)} (some ((i, n), w)) (some ((j, m), w'))
      → (i ≡ j) × (n ≡ m) × (w ≡ w')
  out-injective i j n m w w' h = (cc, cc, cc)

  attempts-IsHeld :
      (turn : ℕ → Gaps W × List ℕ) (id : Text) (space n left i m : ℕ) (w w' : W)
      → attempts node turn id space n left w ≡ some ((i, m), w')
      → IsHeld id i w' × (n ≤ m) × (m ≤ n + left)
  unfolding attempts
  attempts-IsHeld turn id space n zero i m w w' h =
      elim (Attempt-cases (attempt node (turn n).0 id space (turn n).1 w)) [
        | inl off ↦ absurd (ground (arith, off))
        | inr (inl (w2, lost)) ↦ absurd (ground (arith, lost))
        | inr (inr (j, w2, on)) ↦
            let (same, turns, end) = out-injective j i n m w2 w' (ground (arith, on)) in
            (
              attempt-IsHeld (turn n).0 id space i (turn n).1 w w'
                  (on ∙ ap (λ x. done x w2) same ∙ ap (done i) end),
              omega arith,
              omega arith,
            )
      ]
  attempts-IsHeld turn id space n (suc left) i m w w' h =
      elim (Attempt-cases (attempt node (turn n).0 id space (turn n).1 w)) [
        | inl off ↦ absurd (ground (arith, off))
        | inr (inl (w2, lost)) ↦
            let (held, low, high) =
              attempts-IsHeld turn id space (suc n) left i m w2 w' (ground (arith, lost)) in
            (held, omega arith, omega arith)
        | inr (inr (j, w2, on)) ↦
            let (same, turns, end) = out-injective j i n m w2 w' (ground (arith, on)) in
            (
              attempt-IsHeld (turn n).0 id space i (turn n).1 w w'
                  (on ∙ ap (λ x. done x w2) same ∙ ap (done i) end),
              omega arith,
              omega arith,
            )
      ]

-- Whatever others do between the steps, an allocation that returns leaves a state whose record holds
-- the index for the id, after at least one attempt and at most one more than the retries.
pub allocate_index-IsHeld :
    {W B : Type 0} (node : AllocationNode W B) (turn : ℕ → Gaps W × List ℕ) (id : Text) (space : ℕ)
    (max_retries : Option ℕ) (w w' : W) (i n : ℕ)
    → allocate_index node turn id space max_retries w ≡ some ((i, n), w')
    → IsHeld node id i w' × (1 ≤ n) × (n ≤ 1 + get_or max_retries 8)
unfolding allocate_index
allocate_index-IsHeld node turn id space max_retries w w' i n h =
    elim (Option-cases (node.set_current_id w)) [
      | inl off ↦ absurd (ground (arith, off))
      | inr (w2, on) ↦
          attempts-IsHeld node turn id space 1 (get_or max_retries 8) i n w2 w' (ground (arith, on))
    ]
