-- ===== src/Allocation/Free.antt =====
-- `pickFree` of packages/core/src/allocation.ts.
use hearthold.Prelude.{
  ℕ, zero, suc, ◌+◌, ◌≤◌, ◌<◌, true, false, none, some, List, [], ◌∷◌, All, ◌==◌, ==_iff,
  if◌then◌else◌, ◌≡◌, ◌≢◌, refl, arith, Bool-cases, Option-cases, inl, inr,
}
use hearthold.Allocation.{has, set_size, first_free, dense, pick_free}

-- The items other than one.
without : ℕ → List ℕ → List ℕ
without i [] = []
without i (u ∷ us) = let kept = without i us in if u == i then kept else u ∷ kept

has-without : (i j : ℕ) (us : List ℕ) → i ≢ j → has us j ≡ true → has (without i us) j ≡ true
unfolding has without
has-without i j [] d h = h
has-without i j (u ∷ us) d h = ground (arith, has-without i j us d)

has-without_back : (i j : ℕ) (us : List ℕ) → has (without i us) j ≡ true → has us j ≡ true
unfolding has without
has-without_back i j [] h = h
has-without_back i j (u ∷ us) h = ground (arith, has-without_back i j us)

-- Without an item that is there, a set is smaller.
set_size-without :
    (i : ℕ) (us : List ℕ) → (if has us i then 1 else 0) + set_size (without i us) ≡ set_size us
unfolding has without set_size
set_size-without i [] = refl
set_size-without i (u ∷ us) = elim (Bool-cases (u == i)) [
  | inl same ↦
      let e : u ≡ i = (==_iff u i).0 same in rw (e) (ground (arith, set_size-without i us, same, e))
  | inr other ↦
      let d : i ≢ u = λ e. ground (arith, other, e) in
      ground (arith, other, has-without i u us d, has-without_back i u us, set_size-without i us)
]

-- Every index below `n` is used.
abbrev Full : List ℕ → ℕ → Type 0
Full us n = (i : ℕ) → i < n → has us i ≡ true

Full-set_size : (n : ℕ) (us : List ℕ) → Full us n → n ≤ set_size us
Full-set_size zero us full = omega arith
Full-set_size (suc n) us full =
    let rest =
      Full-set_size n (without n us)
        (λ i h. has-without n i us (ground arith) (full i (omega arith))) in
    let here = full n (omega arith) in ground (arith, set_size-without n us)

first_free-IsFree :
    (us draws : List ℕ) (space i : ℕ)
    → All (λ d. d < space) draws
    → first_free us draws ≡ some i
    → (has us i ≡ false) × (i < space)
unfolding first_free
first_free-IsFree us [] space i all h = absurd (ground arith)
first_free-IsFree us (d ∷ draws) space i all h = elim (Bool-cases (has us d)) [
  | inl old ↦ first_free-IsFree us draws space i all.1 (ground (arith, old))
  | inr new ↦ let same : d ≡ i = ground (arith, new) in (rw (← same) new, rw (← same) all.0)
]

dense-IsFree :
    (us : List ℕ) (from n i : ℕ) → dense us from n ≡ some i → (has us i ≡ false) × (i < from + n)
unfolding dense
dense-IsFree us from zero i h = absurd (ground arith)
dense-IsFree us from (suc n) i h = elim (Bool-cases (has us from)) [
  | inl old ↦ let k = dense-IsFree us (suc from) n i (ground (arith, old)) in (k.0, omega arith)
  | inr new ↦ let same : from ≡ i = ground (arith, new) in (rw (← same) new, omega arith)
]

dense-none :
    (us : List ℕ) (from n : ℕ)
    → dense us from n ≡ none
    → (i : ℕ) → from ≤ i
    → i < from + n
    → has us i ≡ true
unfolding dense
dense-none us from zero h i low high = absurd (omega arith)
dense-none us from (suc n) h i low high = elim (Bool-cases (has us from)) [
  | inl old ↦ elim (Bool-cases (from == i)) [
    | inl same ↦ rw (← (==_iff from i).0 same) old
    | inr other ↦
        dense-none us (suc from) n (ground (arith, old)) i (ground (arith, other)) (omega arith)
  ]
  | inr new ↦ absurd (ground (arith, new))
]

-- While the draws are in range, an index is picked exactly when fewer indices are used than there
-- are, whatever is drawn; it is in range, and not used.
pub pick_free-Decides :
    (used : List ℕ) (space : ℕ) (draws : List ℕ)
    → All (λ d. d < space) draws
    → (set_size used < space
        → (i : ℕ) × (pick_free used space draws ≡ some i) × (i < space) × (has used i ≡ false))
      × (space ≤ set_size used → pick_free used space draws ≡ none)
unfolding pick_free
pick_free-Decides used space draws all = (fits, λ h. ground arith)
  where
    fits :
        set_size used < space
        → (i : ℕ) × (pick_free used space draws ≡ some i) × (i < space) × (has used i ≡ false)
    fits h = elim (Option-cases (first_free used draws)) [
      | inr (i, on) ↦
          let k = first_free-IsFree used draws space i all on in (i, ground (arith, on), k.1, k.0)
      | inl off ↦ elim (Option-cases (dense used 0 space)) [
        | inr (i, on) ↦
            let k = dense-IsFree used 0 space i on in (i, ground (arith, off, on), omega arith, k.0)
        | inl full ↦ absurd (
            ground (
              arith,
              Full-set_size space used
                  (λ i less. dense-none used 0 space full i (omega arith) (omega arith)),
            ))
      ]
    ]
