-- ===== src/Allocation/Quiet.antt =====
-- `allocateIndex` of packages/core/src/allocation.ts while nobody else writes to the record.
use hearthold.Prelude.{
  ℕ, zero, suc, ◌<◌, true, false, Option, none, some, List, [], ◌∷◌, All, Text, ==_iff, ◌===◌,
  ===_iff, get_or, ◌≡◌, ◌≢◌, ◌⊎◌, refl, sym, ap, ◌∙◌, arith, Bool-cases, Option-cases, inl, inr,
}
use hearthold.Allocation.{
  Allocations, index_of, put, values, has, count, set_size, AllocationNode, Gaps, done, read_record,
  head_version, verify_write, write_record, swap, allocate_from, attempt, attempts, allocate_index,
  lookup_index,
}
use hearthold.Allocation.Free.{pick_free-Decides}
use hearthold.Allocation.Held.{allocate_index-IsHeld}

-- No two ids share an index.
pub IsUnique : Allocations → Type 0
IsUnique a = (j k : Text) (i : ℕ) → index_of a j ≡ some i → index_of a k ≡ some i → j ≡ k

index_of-put_same : (a : Allocations) (id : Text) (i : ℕ) → index_of (put a id i) id ≡ some i
unfolding index_of put
index_of-put_same [] id i = ground (arith, ===_iff id id)
index_of-put_same ((k, j) ∷ a) id i = ground (arith, index_of-put_same a id i)

index_of-put_other :
    (a : Allocations) (id other : Text) (i : ℕ)
    → id ≢ other
    → index_of (put a id i) other ≡ index_of a other
unfolding index_of put
index_of-put_other [] id other i d = ground (arith, ===_iff id other)
index_of-put_other ((k, j) ∷ a) id other i d =
    ground (arith, index_of-put_other a id other i d, ===_iff k id, ===_iff k other)

index_of-has :
    (a : Allocations) (id : Text) (i : ℕ) → index_of a id ≡ some i → has (values a) i ≡ true
unfolding index_of has
index_of-has [] id i h = absurd (ground arith)
index_of-has ((k, j) ∷ a) id i h = ground (arith, index_of-has a id i, ==_iff j i)

count-unused : (us : List ℕ) (i : ℕ) → has us i ≡ false → count i us ≡ 0
unfolding has count
count-unused [] i h = refl
count-unused (u ∷ us) i h = ground (arith, count-unused us i)

count-put :
    (a : Allocations) (id : Text) (i : ℕ)
    → index_of a id ≡ none
    → has (values a) i ≡ false
    → count i (values (put a id i)) ≡ 1
unfolding index_of put has count
count-put [] id i h free = ground (arith, ==_iff i i)
count-put ((k, j) ∷ a) id i h free = ground (arith, count-put a id i)

index_of-put :
    (a : Allocations) (id j : Text) (i n : ℕ)
    → index_of (put a id i) j ≡ some n
    → ((id ≡ j) × (i ≡ n)) ⊎ (index_of a j ≡ some n)
index_of-put a id j i n h = elim (Bool-cases (id === j)) [
  | inl is ↦
      let e : id ≡ j = (===_iff id j).0 is in
      inl
        (e, some-injective i n (sym (index_of-put_same a id i) ∙ ap (index_of (put a id i)) e ∙ h))
  | inr not_is ↦
      inr (sym (index_of-put_other a id j i (λ e. ground (arith, not_is, (===_iff id j).1 e))) ∙ h)
]
  where
    some-injective : (x y : ℕ) → some x ≡ some y → x ≡ y
    some-injective x y h = cc

-- An index that is not used is given to no two ids.
put-IsUnique :
    (a : Allocations) (id : Text) (i : ℕ)
    → has (values a) i ≡ false
    → IsUnique a
    → IsUnique (put a id i)
unfolding IsUnique
put-IsUnique a id i free unique j k n h1 h2 =
    both (index_of-put a id j i n h1) (index_of-put a id k i n h2)
  where
    used : (x : Text) → i ≡ n → index_of a x ≡ some n → ⊥
    used x e h = ground (arith, free, e, index_of-has a x n h)

    both :
        ((id ≡ j) × (i ≡ n)) ⊎ (index_of a j ≡ some n)
        → ((id ≡ k) × (i ≡ n)) ⊎ (index_of a k ≡ some n)
        → j ≡ k
    both (inl (e, m)) (inl (f, m2)) = sym e ∙ f
    both (inl (e, m)) (inr f) = absurd (used k m f)
    both (inr e) (inl (f, m)) = absurd (used j m e)
    both (inr e) (inr f) = unique j k n e f

module _ {W B : Type 0} (node : AllocationNode W B) where
  -- What is relied on of the node: each call answers, choosing an identity changes no document, the
  -- seal opens to what was sealed, and what is merged is what resolves then.
  pub record IsNode : Type 0 where
    pub chooses :
        (w : W) → (w' : W) × (node.set_current_id w ≡ some w') × (node.resolve w' ≡ node.resolve w)
    pub seals : (a : Allocations) → (s : B) × (node.seal a ≡ some s) × (node.unseal s ≡ some a)
    pub merges :
        (w : W) (s : B) (version : ℕ) (old : Option B)
        → node.resolve w ≡ some (version, old)
        → (w' : W) × (n : ℕ) × (node.merge_data w s ≡ some w')
          × (node.resolve w' ≡ some (n, some s))

  abbrev pub quiet : Gaps W
  quiet = record { after_read = λ w. w; after_check = λ w. w; after_write = λ w. w }

  -- What is left by a call that allocates: an unused index in range, and a record with it added.
  pub record IsFresh (id : Text) (space : ℕ) (a : Allocations) (i : ℕ) (w : W) : Type 0 where
    pub in_range : i < space
    pub unused : has (values a) i ≡ false
    pub version : ℕ
    pub read : read_record node w ≡ some (put a id i, version)
    pub kept : (other : Text) → id ≢ other → index_of (put a id i) other ≡ index_of a other
    pub unique : IsUnique a → IsUnique (put a id i)

  read-sealed :
      (w : W) (a : Allocations) (v : ℕ) (s : B)
      → node.resolve w ≡ some (v, some s)
      → node.unseal s ≡ some a
      → read_record node w ≡ some (a, v)
  unfolding read_record
  read-sealed w a v s h k = ground (arith, h, k)

  read-version :
      (w : W) (a : Allocations) (v : ℕ)
      → read_record node w ≡ some (a, v)
      → (old : Option B) × (node.resolve w ≡ some (v, old)) × (head_version node w ≡ some v)
  unfolding read_record head_version
  read-version w a v h = elim (Option-cases (node.resolve w)) [
    | inl off ↦ absurd (ground (arith, off))
    | inr ((n, none), on) ↦ absurd (ground (arith, on))
    | inr ((n, some s), on) ↦ elim (Option-cases (node.unseal s)) [
      | inl shut ↦ absurd (ground (arith, on, shut))
      | inr (b, opened) ↦
          let e : n ≡ v = same_version b n (ground (arith, on, opened)) in
          (some s, on ∙ ap (λ x. some (x, some s)) e, ground (arith, on, e))
    ]
  ]
    where
      same_version :
          (b : Allocations) (n : ℕ)
          → ◌≡◌ {A = Option (Allocations × ℕ)} (some (b, n)) (some (a, v))
          → n ≡ v
      same_version b n e = cc

  verify_write-done :
      (id : Text) (i v : ℕ) (a : Allocations) (w : W)
      → read_record node w ≡ some (put a id i, v)
      → index_of a id ≡ none
      → has (values a) i ≡ false
      → verify_write node id i w ≡ done i w
  unfolding verify_write
  verify_write-done id i v a w h new free =
      ground (arith, h, index_of-put_same a id i, count-put a id i new free, ==_iff i i)

  read-chosen :
      (w w' : W) → node.resolve w' ≡ node.resolve w → read_record node w' ≡ read_record node w
  unfolding read_record
  read-chosen w w' e = rw (read_record, e) refl

  attempts-done :
      (turn : ℕ → Gaps W × List ℕ) (id : Text) (space n left i : ℕ) (w w' : W)
      → attempt node (turn n).0 id space (turn n).1 w ≡ done i w'
      → attempts node turn id space n left w ≡ some ((i, n), w')
  unfolding attempts
  attempts-done turn id space n zero i w w' h = ground (arith, h)
  attempts-done turn id space n (suc left) i w w' h = ground (arith, h)

  module _ (laws : IsNode) (id : Text) (space v : ℕ) (draws : List ℕ) (a : Allocations) where
    -- The compare and swap goes through, and the record has the new entry.
    swap-done :
        (i : ℕ) (w : W)
        → read_record node w ≡ some (a, v)
        → index_of a id ≡ none
        → has (values a) i ≡ false
        → (w' : W) × (n : ℕ) × (swap node quiet id i a v w ≡ done i w')
          × (read_record node w' ≡ some (put a id i, n))
    unfolding swap write_record
    swap-done i w read new free =
        let (old, resolved, head) = read-version w a v read in
        let (s, sealed, opens) = laws.seals (put a id i) in
        let (w', n, merged, after) = laws.merges w s v old resolved in
        let held = read-sealed w' (put a id i) n s after opens in
        let verified = verify_write-done id i n a w' held new free in
        (w', n, ground (arith, head, sealed, merged, verified, ==_iff v v), held)

    attempt-done :
        (w : W)
        → read_record node w ≡ some (a, v)
        → index_of a id ≡ none
        → set_size (values a) < space
        → All (λ d. d < space) draws
        → (i : ℕ) × (w' : W) × (n : ℕ) × (attempt node quiet id space draws w ≡ done i w')
          × (i < space)
          × (has (values a) i ≡ false)
          × (read_record node w' ≡ some (put a id i, n))
    unfolding attempt allocate_from
    attempt-done w read new fits all =
        let (w1, chosen, same) = laws.chooses w in
        let read1 = read-chosen w w1 same ∙ read in
        let (i, picked, in_range, free) = (pick_free-Decides (values a) space draws all).0 fits in
        let (w', n, swapped, held) = swap-done i w1 read1 new free in
        (i, w', n, ground (arith, chosen, read1, new, picked, swapped), in_range, free, held)

-- While nobody else writes, an id without an index gets one in the first attempt wherever fewer
-- indices are used than there are: one in range that no id has, whatever is drawn. Every other id
-- keeps its index, and where no two ids share one, none do afterwards.
pub allocate_index-IsFresh :
    {W B : Type 0} (node : AllocationNode W B) (laws : IsNode node) (draws : List ℕ) (id : Text)
    (space v : ℕ) (max_retries : Option ℕ) (w : W) (a : Allocations)
    → read_record node w ≡ some (a, v)
    → index_of a id ≡ none
    → set_size (values a) < space
    → All (λ d. d < space) draws
    → (i : ℕ) × (w' : W) × (allocate_index node (λ n. (quiet node, draws)) id space max_retries w
        ≡ some ((i, 1), w'))
      × IsFresh node id space a i w'
unfolding allocate_index
allocate_index-IsFresh node laws draws id space v max_retries w a read new fits all =
    let (w0, chosen, same) = laws.chooses w in
    let read0 = read-chosen node w w0 same ∙ read in
    let (i, w', n, finished, in_range, free, held) =
      attempt-done node laws id space v draws a w0 read0 new fits all in
    let ran =
      attempts-done node (λ m. (quiet node, draws)) id space 1 (get_or max_retries 8) i w0 w'
        finished in
    (
      i,
      w',
      ground (arith, chosen, ran),
      record {
        in_range = in_range;
        unused = free;
        version = n;
        read = held;
        kept = λ other d. index_of-put_other a id other i d;
        unique = put-IsUnique a id i free;
      },
    )

-- What is allocated is found again: in the state that an allocation leaves, whatever others did
-- meanwhile, the id's index is looked up, and allocating once more, with any draws and any number of
-- retries, gives the same index in the first attempt.
pub allocate_index-again :
    {W B : Type 0} (node : AllocationNode W B) (laws : IsNode node)
    (turn again : ℕ → Gaps W × List ℕ) (id : Text) (space space' : ℕ)
    (max_retries max_retries' : Option ℕ) (w w' : W) (i n : ℕ)
    → allocate_index node turn id space max_retries w ≡ some ((i, n), w')
    → (lookup_index node id w' ≡ some (some i))
      × ((w'' : W) × (allocate_index node again id space' max_retries' w' ≡ some ((i, 1), w'')))
unfolding lookup_index allocate_index attempt allocate_from
allocate_index-again node laws turn again id space space' max_retries max_retries' w w' i n h =
    let k = (allocate_index-IsHeld node turn id space max_retries w w' i n h).0 in
    let (w1, chosen, same) = laws.chooses w' in
    let read1 = read-chosen node w' w1 same ∙ k.read in
    let (w2, chosen2, same2) = laws.chooses w1 in
    let read2 = read-chosen node w1 w2 same2 ∙ read1 in
    let finished : attempt node (again 1).0 id space' (again 1).1 w1 ≡ done i w2 =
      ground (arith, chosen2, read2, k.held) in
    let ran = attempts-done node again id space' 1 (get_or max_retries' 8) i w1 w2 finished in
    (ground (arith, chosen, read1, k.held), (w2, ground (arith, chosen, ran)))
