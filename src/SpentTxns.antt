-- ===== src/SpentTxns.antt =====
-- packages/core/src/single-use.ts: the ledger of spent transactions, its interface with the laws
-- that the clients rely on, and the two implementations. The file of the first one is absent, of
-- no use (unreadable, no JSON, or no array), or holds an array; writes succeed.
-- A mark of the file is one step, with no other call between its read and its write, but in
-- `file_mark_across`.
pub mod Laws
use hearthold.Prelude.{
  Bool, true, false, ◌||◌, Option, none, some, List, [], ◌∷◌, ◌++◌, Text, ◌===◌, includes,
  if◌then◌else◌, ◌≡◌,
}

-- `isSpent` and `markSpent`, on the state of the ledger; none where the call throws.
pub record SpentTxnStore (S : Type 0) : Type 0 where
  pub is_spent : S → Text → Option Bool
  pub mark_spent : S → Text → Option S

-- A mark that returns leaves the ledger readable as before, with the mark.
pub record IsLedger {S : Type 0} (store : SpentTxnStore S) : Type 0 where
  pub marks :
      (s s' : S) (t u : Text)
      → store.mark_spent s t ≡ some s'
      → (b : Bool) × (store.is_spent s u ≡ some b) × (store.is_spent s' u ≡ some (t === u || b))

pub data LedgerFile : Type 0 where
  absent unusable : LedgerFile
  holds : List Text → LedgerFile

-- `all()`: an absent file is an empty ledger, and an unusable one throws.
abbrev all : LedgerFile → Option (List Text)
all absent = some []
all unusable = none
all (holds txns) = some txns

unfoldable pub file_is_spent : LedgerFile → Text → Option Bool
file_is_spent file txn = elim (all file) [ none ↦ none | some txns ↦ some (includes txns txn) ]

unfoldable pub file_mark_spent : LedgerFile → Text → Option LedgerFile
file_mark_spent file txn = elim (all file) [
  | none ↦ none
  | some txns ↦ some (if includes txns txn then file else holds (txns ++ txn ∷ []))
]

-- A mark that reads the file before and writes it after another call's write.
unfoldable pub file_mark_across : LedgerFile → LedgerFile → Text → Option LedgerFile
file_mark_across read file txn = elim (all read) [
  | none ↦ none
  | some txns ↦ some (if includes txns txn then file else holds (txns ++ txn ∷ []))
]

abbrev pub file_spent_txn_store : SpentTxnStore LedgerFile
file_spent_txn_store = record { is_spent = file_is_spent; mark_spent = file_mark_spent }

-- The set of the in-memory ledger, as the list of what was added.
unfoldable pub memory_is_spent : List Text → Text → Option Bool
memory_is_spent spent txn = some (includes spent txn)

unfoldable pub memory_mark_spent : List Text → Text → Option (List Text)
memory_mark_spent spent txn = some (txn ∷ spent)

abbrev pub memory_spent_txn_store : SpentTxnStore (List Text)
memory_spent_txn_store = record { is_spent = memory_is_spent; mark_spent = memory_mark_spent }
