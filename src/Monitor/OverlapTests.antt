-- ===== src/Monitor/OverlapTests.antt =====
-- Calls of `authorizeInvocation` that overlap, and the theorems on replay at them.
use hearthold.Prelude.{
  ◌≡◌, ◌≢◌, refl, some, List, [], Text, codes, ◌===◌, includes, text_leb, before_hash,
}
use hearthold.Json.{canonicalize}
use hearthold.SpentTxns.{memory_spent_txn_store, memory_is_spent, memory_mark_spent}
use hearthold.SpentTxns.Laws.{memory-IsLedger}
use hearthold.Monitor.{
  allow, exceeds, has_expired, human_gate, unmet_caveats, with_policy, has_valid_discharge,
  discharges_caveat, discharge_digest,
}
use hearthold.Monitor.Overlap.{
  Gaps, quiet, IsMarking, now, burn_over, settle_over, judge_over, authorize_over,
  authorize_over-Marks,
}
use hearthold.Monitor.Replay.{replay-never-allowed, single_use-once}
use hearthold.Monitor.Tests.{caveats, act, ctx, leaf, bare, inv}

running : Unit {0}
unfolding authorize_over judge_over settle_over burn_over exceeds has_expired human_gate
    unmet_caveats with_policy has_valid_discharge discharges_caveat discharge_digest memory_is_spent
    memory_mark_spent canonicalize ◌===◌ includes text_leb before_hash
running = tt

-- A call in whose gap another call runs.
abbrev with_bare : Gaps (List Text)
with_bare = record quiet {
  before_burn = λ s. (authorize_over memory_spent_txn_store quiet bare ctx leaf s).ledger;
}

quiet-IsMarking : IsMarking memory_spent_txn_store quiet
quiet-IsMarking = record {
  before_key = λ s. now;
  before_burn = λ s. now;
  before_key_burn = λ s. now;
}

with_bare-IsMarking : IsMarking memory_spent_txn_store with_bare
with_bare-IsMarking = record {
  before_key = λ s. now;
  before_burn =
      λ s. authorize_over-Marks memory_spent_txn_store quiet quiet-IsMarking bare ctx leaf s;
  before_key_burn = λ s. now;
}

allows_over :
    (authorize_over memory_spent_txn_store with_bare inv ctx leaf []).decision
    ≡ some (allow caveats)
unfolding running
allows_over = refl

abbrev after_bare : List Text
after_bare =
    (authorize_over memory_spent_txn_store quiet bare ctx leaf
      (authorize_over memory_spent_txn_store with_bare inv ctx leaf []).ledger).ledger

replay-never-allowed_example :
    (authorize_over memory_spent_txn_store with_bare inv ctx leaf after_bare).decision
    ≢ some (allow caveats)
replay-never-allowed_example =
    replay-never-allowed memory_spent_txn_store memory-IsLedger with_bare with_bare
      with_bare-IsMarking with_bare-IsMarking inv inv ctx ctx leaf leaf [] after_bare caveats
      caveats allows_over
      (authorize_over-Marks memory_spent_txn_store quiet quiet-IsMarking bare ctx leaf
        (authorize_over memory_spent_txn_store with_bare inv ctx leaf []).ledger)
      refl

single_use-once_example :
    (authorize_over memory_spent_txn_store with_bare
      (record inv { act = record act { txn = codes "u" } })
      ctx
      leaf
      (authorize_over memory_spent_txn_store with_bare inv ctx leaf []).ledger).decision
    ≢ some (allow caveats)
single_use-once_example =
    single_use-once memory_spent_txn_store memory-IsLedger with_bare with_bare with_bare-IsMarking
      with_bare-IsMarking inv (record inv { act = record act { txn = codes "u" } }) ctx ctx leaf
      leaf [] (authorize_over memory_spent_txn_store with_bare inv ctx leaf []).ledger caveats
      caveats refl refl refl allows_over now

-- Two overlapping calls with one act under one single-use capability: the second runs whole before
-- the first burns, and both are allowed.
abbrev with_itself : Gaps (List Text)
with_itself = record quiet {
  before_burn = λ s. (authorize_over memory_spent_txn_store quiet inv ctx leaf s).ledger;
}

both_allowed :
    ((authorize_over memory_spent_txn_store quiet inv ctx leaf []).decision ≡ some (allow caveats))
    × ((authorize_over memory_spent_txn_store with_itself inv ctx leaf []).decision
        ≡ some (allow caveats))
unfolding running
both_allowed = (refl, refl)
