-- ===== src/SpentTxns/Laws.antt =====
-- Both ledgers of packages/core/src/single-use.ts keep the laws of their interface.
use hearthold.Prelude.{
  Bool, true, false, ◌||◌, some, List, [], ◌∷◌, ◌++◌, Text, ◌===◌, includes, ◌≡◌, arith, Bool-cases,
  inl, inr, refl, ===_iff,
}
use hearthold.SpentTxns.{
  SpentTxnStore, IsLedger, LedgerFile, absent, unusable, holds, file_is_spent, file_mark_spent,
  file_mark_across, file_spent_txn_store, memory_is_spent, memory_mark_spent,
  memory_spent_txn_store,
}

includes-append_one :
    (xs : List Text) (t u : Text) → includes (xs ++ t ∷ []) u ≡ (t === u || includes xs u)
unfolding includes
includes-append_one [] t u = refl
includes-append_one (x ∷ xs) t u = ground (arith, includes-append_one xs t u)

-- A transaction that is in the ledger already adds nothing.
includes-absorbs :
    (xs : List Text) (t u : Text)
    → includes xs t ≡ true
    → includes xs u ≡ (t === u || includes xs u)
includes-absorbs xs t u h = elim (Bool-cases (t === u)) [
  | inl same ↦ rw same (rw (← (===_iff t u).0 same) h)
  | inr other ↦ rw other
]

file-marks :
    (s s' : LedgerFile) (t u : Text)
    → file_mark_spent s t ≡ some s'
    → (b : Bool) × (file_is_spent s u ≡ some b) × (file_is_spent s' u ≡ some (t === u || b))
unfolding file_is_spent file_mark_spent includes
file-marks absent s' t u h = (false, refl, ground arith)
file-marks unusable s' t u h = absurd (ground arith)
file-marks (holds txns) s' t u h =
    (includes txns u, refl, ground (arith, includes-append_one txns t u, includes-absorbs txns t u))

-- The file ledger keeps the laws: a mark that returns adds the transaction and nothing else, also
-- when the file was absent; on an unusable file no call returns.
pub file-IsLedger : IsLedger file_spent_txn_store
file-IsLedger = record { marks = file-marks }

-- On the file that it read, a mark is the one in one step.
file_mark_across-same : (s : LedgerFile) (t : Text) → file_mark_across s s t ≡ file_mark_spent s t
unfolding file_mark_across file_mark_spent
file_mark_across-same absent t = refl
file_mark_across-same unusable t = refl
file_mark_across-same (holds txns) t = refl

-- Of two marks that both read the file before either writes it, the first one written is lost.
file_mark_across-loses :
    (txns : List Text) (t u : Text)
    → includes txns t ≡ false
    → includes txns u ≡ false
    → (u === t) ≡ false
    → (first : LedgerFile) × (both : LedgerFile) × (file_mark_spent (holds txns) t ≡ some first)
      × (file_is_spent first t ≡ some true)
      × (file_mark_across (holds txns) first u ≡ some both)
      × (file_is_spent both t ≡ some false)
unfolding file_mark_across file_mark_spent file_is_spent
file_mark_across-loses txns t u fresh fresh' apart = (
  holds (txns ++ t ∷ []),
  holds (txns ++ u ∷ []),
  ground (arith, fresh),
  ground (arith, includes-append_one txns t t, (===_iff t t).1 refl),
  ground (arith, fresh'),
  ground (arith, includes-append_one txns u t, fresh, apart),
)

-- The in-memory ledger keeps the same laws.
pub memory-IsLedger : IsLedger memory_spent_txn_store
unfolding memory_is_spent memory_mark_spent includes
memory-IsLedger = record { marks = λ s s' t u h. (includes s u, refl, ground arith) }

module _ {S : Type 0} (store : SpentTxnStore S) (ledger : IsLedger store) where
  open store use {is_spent, mark_spent}

  pub mark-is_spent : (s s' : S) (t : Text) → mark_spent s t ≡ some s' → is_spent s' t ≡ some true
  mark-is_spent s s' t h =
      let (b, old, new) = ledger.marks s s' t t h in ground (arith, new, (===_iff t t).1 refl)

  pub mark-keeps :
      (s s' : S) (t u : Text)
      → mark_spent s t ≡ some s'
      → is_spent s u ≡ some true
      → is_spent s' u ≡ some true
  mark-keeps s s' t u h k = let (b, old, new) = ledger.marks s s' t u h in ground (arith, old, new)
