-- ===== src/Allocation/Tests.antt =====
-- A node that keeps one record, two allocations on it, and the theorems at them.
use hearthold.Prelude.{
  ℕ, ◌+◌, ◌≤◌, ◌<◌, ◌≡◌, refl, arith, false, none, some, List, [], ◌∷◌, codes, ◌===◌, ◌==◌,
  if◌then◌else◌, get_or,
}
use hearthold.Allocation.{
  Allocations, index_of, put, values, has, set_size, count, first_free, dense, pick_free,
  AllocationNode, Gaps, read_record, head_version, verify_write, write_record, swap, allocate_from,
  attempt, attempts, allocate_index, lookup_index,
}
use hearthold.Allocation.Free.{pick_free-Decides}
use hearthold.Allocation.Held.{IsHeld, allocate_index-IsHeld}
use hearthold.Allocation.Quiet.{
  IsNode, IsFresh, quiet, allocate_index-IsFresh, allocate_index-again,
}

running : Unit {0}
unfolding index_of put has set_size count first_free dense pick_free read_record head_version
    verify_write write_record swap allocate_from attempt attempts allocate_index lookup_index ◌===◌
running = tt

-- A state is the version and the record, which is not sealed.
abbrev World : Type 0
World = ℕ × Allocations

abbrev node : AllocationNode World Allocations
node = record {
  set_current_id = λ w. some w;
  resolve = λ w. some (w.0, some w.1);
  unseal = λ a. some a;
  seal = λ a. some a;
  merge_data = λ w a. some (w.0 + 1, a);
}

node-IsNode : IsNode node
node-IsNode = record {
  chooses = λ w. (w, refl, refl);
  seals = λ a. (a, refl, refl);
  merges = λ w s version old h. ((w.0 + 1, s), w.0 + 1, refl, refl);
}

picks :
    (pick_free (1 ∷ 1 ∷ 0 ∷ []) 3 (0 ∷ 1 ∷ []) ≡ some 2)
    × (pick_free (1 ∷ 2 ∷ 0 ∷ []) 3 (0 ∷ 1 ∷ []) ≡ none)
unfolding running
picks = (refl, refl)

pick_free-Decides_example :
    (set_size (1 ∷ 1 ∷ 0 ∷ []) < 3
      → (i : ℕ) × (pick_free (1 ∷ 1 ∷ 0 ∷ []) 3 (0 ∷ 1 ∷ []) ≡ some i)
        × (i < 3)
        × (has (1 ∷ 1 ∷ 0 ∷ []) i ≡ false))
    × (3 ≤ set_size (1 ∷ 1 ∷ 0 ∷ []) → pick_free (1 ∷ 1 ∷ 0 ∷ []) 3 (0 ∷ 1 ∷ []) ≡ none)
pick_free-Decides_example =
    pick_free-Decides (1 ∷ 1 ∷ 0 ∷ []) 3 (0 ∷ 1 ∷ []) (omega arith, (omega arith, tt))

abbrev start : World
start = (1, (codes "a", 0) ∷ [])

-- In the first attempt another allocation lands after the read, so the head has moved.
abbrev turn : ℕ → Gaps World × List ℕ
turn n = (
  record (quiet node) { after_read = λ w. if n == 1 then (w.0 + 1, put w.1 (codes "b") 1) else w },
  1 ∷ 2 ∷ [],
)

retries :
    allocate_index node turn (codes "c") 3 none start
    ≡ some ((2, 2), (3, (codes "a", 0) ∷ (codes "b", 1) ∷ (codes "c", 2) ∷ []))
unfolding running
retries = refl

-- A write that lands between the check of the head and the write is lost, although it was verified.
loses :
    allocate_index node
      (λ n. (record (quiet node) { after_check = λ w. (w.0 + 1, put w.1 (codes "b") 1) }, 2 ∷ []))
      (codes "c")
      3
      none
      start
    ≡ some ((2, 1), (3, (codes "a", 0) ∷ (codes "c", 2) ∷ []))
unfolding running
loses = refl

allocate_index-IsHeld_example :
    IsHeld node (codes "c") 2 (3, (codes "a", 0) ∷ (codes "b", 1) ∷ (codes "c", 2) ∷ [])
    × (1 ≤ 2)
    × (2 ≤ 1 + get_or none 8)
allocate_index-IsHeld_example =
    allocate_index-IsHeld node turn (codes "c") 3 none start
      (3, (codes "a", 0) ∷ (codes "b", 1) ∷ (codes "c", 2) ∷ []) 2 2 retries

starts :
    (read_record node start ≡ some (start.1, 1))
    × (index_of start.1 (codes "c") ≡ none)
    × (set_size (values start.1) ≡ 1)
unfolding running
starts = (refl, refl, refl)

allocate_index-IsFresh_example :
    (i : ℕ) × (w : World) × (allocate_index node
        (λ n. (quiet node, 0 ∷ 2 ∷ []))
        (codes "c")
        3
        none
        start
      ≡ some ((i, 1), w))
    × IsFresh node (codes "c") 3 start.1 i w
allocate_index-IsFresh_example =
    allocate_index-IsFresh node node-IsNode (0 ∷ 2 ∷ []) (codes "c") 3 1 none start start.1 starts.0
      starts.1 (ground (arith, starts.2)) (omega arith, (omega arith, tt))

allocate_index-again_example :
    (lookup_index node (codes "c") (3, (codes "a", 0) ∷ (codes "b", 1) ∷ (codes "c", 2) ∷ [])
      ≡ some (some 2))
    × ((w : World) × (allocate_index node turn
            (codes "c")
            5
            (some 0)
            (3, (codes "a", 0) ∷ (codes "b", 1) ∷ (codes "c", 2) ∷ [])
          ≡ some ((2, 1), w)))
allocate_index-again_example =
    allocate_index-again node node-IsNode turn turn (codes "c") 3 5 none (some 0) start
      (3, (codes "a", 0) ∷ (codes "b", 1) ∷ (codes "c", 2) ∷ []) 2 2 retries
