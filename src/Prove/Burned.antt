-- ===== src/Prove/Burned.antt =====
-- Single use of a presented scroll in `verifyProof` of packages/core/src/prove.ts.
use hearthold.Prelude.{
  Bool, true, false, none, some, List, [], ◌∷◌, Text, includes, ===_iff, ◌===◌, ◌≡◌, ◌≢◌, ◌⊎◌, refl,
  arith, Bool-cases, Option-cases, inl, inr,
}
use hearthold.SpentTxns.{SpentTxnStore, IsLedger}
use hearthold.SpentTxns.Laws.{mark-is_spent, mark-keeps}
use hearthold.Prove.{
  Response, ProofResult, ProofOptions, disclosures, txns_of, all_txns, distinct, any_spent,
  mark_all, burn_txns, marked, verify_proof_once, check_proof,
}
use hearthold.Prove.Sound.{IsProved, check_proof→IsProved}

includes-distinct :
    (seen ts : List Text) (t : Text)
    → includes ts t ≡ true
    → (includes seen t ≡ true) ⊎ (includes (distinct seen ts) t ≡ true)
unfolding distinct includes
includes-distinct seen [] t h = absurd (ground arith)
includes-distinct seen (x ∷ ts) t h = elim (Bool-cases (includes seen x)) [
  | inl old ↦ elim (Bool-cases (x === t)) [
    | inl same ↦ inl (rw (← (===_iff x t).0 same) old)
    | inr other ↦ rw old (includes-distinct seen ts t (ground (arith, other)))
  ]
  | inr new ↦ elim (Bool-cases (x === t)) [
    | inl same ↦ inr (ground (arith, new, same))
    | inr other ↦ ground (arith, new, other, includes-distinct (x ∷ seen) ts t)
  ]
]

module _ {S : Type 0} (store : SpentTxnStore S) (ledger : IsLedger store) where
  open store use {is_spent, mark_spent}

  -- What was spent is spent.
  abbrev pub Grows : S → S → Type 0
  Grows s s' = (t : Text) → is_spent s t ≡ some true → is_spent s' t ≡ some true

  none_spent :
      (s : S) (ts : List Text)
      → any_spent store s ts ≡ some false
      → (t : Text) → includes ts t ≡ true
      → is_spent s t ≡ some false
  unfolding any_spent includes
  none_spent s [] h t m = absurd (ground arith)
  none_spent s (x ∷ ts) h t m = elim (Bool-cases (x === t)) [
    | inl same ↦ rw (← (===_iff x t).0 same) (ground arith)
    | inr other ↦ none_spent s ts (ground arith) t (ground (arith, other))
  ]

  mark_all-Grows : (s : S) (ts : List Text) → Grows s (mark_all store s ts).1
  unfolding mark_all
  mark_all-Grows s [] t h = h
  mark_all-Grows s (x ∷ ts) t h = elim (Option-cases (mark_spent s x)) [
    | inl off ↦ rw (mark_all, off) h
    | inr (s', on) ↦
        rw (mark_all, on) (mark_all-Grows s' ts t (mark-keeps store ledger s s' x t on h))
  ]

  mark_all-spent :
      (s : S) (ts : List Text)
      → (mark_all store s ts).0 ≡ true
      → (t : Text) → includes ts t ≡ true
      → is_spent (mark_all store s ts).1 t ≡ some true
  unfolding mark_all includes
  mark_all-spent s [] h t m = absurd (ground arith)
  mark_all-spent s (x ∷ ts) h t m = elim (Option-cases (mark_spent s x)) [
    | inl off ↦ absurd (ground (arith, off))
    | inr (s', on) ↦ elim (Bool-cases (x === t)) [
      | inl same ↦
          rw (mark_all, on)
            (mark_all-Grows s' ts t
              (rw (← (===_iff x t).0 same) (mark-is_spent store ledger s s' x on)))
      | inr other ↦
          rw (mark_all, on) (mark_all-spent s' ts (ground (arith, on)) t (ground (arith, other)))
    ]
  ]

  -- The accepted response: its proof is good, and each transaction that it discloses is spent only
  -- afterwards.
  pub record IsBurned (opts : ProofOptions) (res : Response) (s s' : S) : Type 0 where
    pub proved : IsProved opts res
    pub fresh :
        (t : Text) → includes (all_txns (disclosures res)) t ≡ true → is_spent s t ≡ some false
    pub burned :
        (t : Text) → includes (all_txns (disclosures res)) t ≡ true → is_spent s' t ≡ some true

  in_txns :
      (res : Response) (t : Text)
      → includes (all_txns (disclosures res)) t ≡ true
      → includes (txns_of (disclosures res)) t ≡ true
  unfolding txns_of includes
  in_txns res t m = ground (arith, includes-distinct [] (all_txns (disclosures res)) t m)

  marked-holds :
      (res : Response) (m : Bool × S) (out : ProofResult)
      → (marked store res m).0 ≡ some out
      → (m.0 ≡ true) × ((marked store res m).1 ≡ m.1)
  marked-holds res (true, s) out h = (refl, refl)
  marked-holds res (false, s) out h = absurd (ground arith)

  burn_txns-holds :
      (res : Response) (s : S) (out : ProofResult)
      → (burn_txns store res s).0 ≡ some out
      → out.fault ≡ none
      → ((t : Text) → includes (all_txns (disclosures res)) t ≡ true → is_spent s t ≡ some false)
        × ((t : Text)
            → includes (all_txns (disclosures res)) t ≡ true
            → is_spent (burn_txns store res s).1 t ≡ some true)
  unfolding burn_txns
  burn_txns-holds res s out h holds =
      elim (Option-cases (any_spent store s (txns_of (disclosures res)))) [
        | inl threw ↦ absurd (ground (arith, threw))
        | inr (true, old) ↦ absurd (ground (arith, old, holds))
        | inr (false, new) ↦
            let ts = txns_of (disclosures res) in
            let (done, same) = marked-holds res (mark_all store s ts) out (ground (arith, new)) in
            (
              λ t m. none_spent s ts new t (in_txns res t m),
              λ t m. rw (burn_txns, new, same) (mark_all-spent s ts done t (in_txns res t m)),
            )
      ]

-- When `verify_proof_once` accepts a response, the proof is good, no transaction that it discloses
-- was spent before, and all of them are spent afterwards.
pub verify_proof_once_sound :
    {S : Type 0} (store : SpentTxnStore S) (ledger : IsLedger store) (opts : ProofOptions)
    (res : Response) (s : S) (out : ProofResult)
    → (verify_proof_once store opts (some res) s).0 ≡ some out
    → out.fault ≡ none
    → IsBurned store ledger opts res s (verify_proof_once store opts (some res) s).1
unfolding verify_proof_once
verify_proof_once_sound store ledger opts res s out h holds =
    elim (Option-cases (check_proof opts res)) [
      | inl threw ↦ absurd (ground (arith, threw))
      | inr (some fault, failed) ↦ absurd (ground (arith, failed, holds))
      | inr (none, passed) ↦
          let (fresh, burned) =
            burn_txns-holds store ledger res s out (ground (arith, passed)) holds in
          record {
            proved = check_proof→IsProved opts res passed;
            fresh = fresh;
            burned = rw (verify_proof_once, passed) burned;
          }
    ]

-- A scroll burns: after a response is accepted, no response that discloses one of its transactions
-- is accepted on a ledger in which what was spent is still spent.
pub burned-never-accepted :
    {S : Type 0} (store : SpentTxnStore S) (ledger : IsLedger store) (opts opts' : ProofOptions)
    (res again : Response) (s s' : S) (out out' : ProofResult) (t : Text)
    → (verify_proof_once store opts (some res) s).0 ≡ some out
    → out.fault ≡ none
    → includes (all_txns (disclosures res)) t ≡ true
    → includes (all_txns (disclosures again)) t ≡ true
    → Grows store ledger (verify_proof_once store opts (some res) s).1 s'
    → (verify_proof_once store opts' (some again) s').0 ≡ some out'
    → out'.fault ≢ none
burned-never-accepted store ledger opts opts' res again s s' out out' t h holds m m' grows h'
      holds' =
    let first = verify_proof_once_sound store ledger opts res s out h holds in
    let second = verify_proof_once_sound store ledger opts' again s' out' h' holds' in
    ground (arith, second.fresh t m', grows t (first.burned t m))
