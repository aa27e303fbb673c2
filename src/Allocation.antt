-- ===== src/Allocation.antt =====
-- packages/core/src/allocation.ts: indices of a status list that are allocated once each, in a
-- sealed record on the node. The node, the seal and the draws of `randomInt` are parameters, and
-- whatever others do to the node between the steps of an attempt is a function on its state. A call
-- that throws returns none. A sealed blob is of a type `B`. A record is an association list in which a key stands once.
pub mod Free
pub mod Held
pub mod Quiet
mod Tests
use hearthold.Prelude.{
  ℕ, zero, suc, ◌+◌, Bool, true, false, not, ◌&&◌, Option, none, some, List, [], ◌∷◌, map, Text,
  get_or, length, leb, ltb, ◌==◌, ◌===◌, if◌then◌else◌, is_some, ◌>>=◌, ◌>>◌, guard,
}

abbrev pub Allocations : Type 0
Allocations = List (Text × ℕ)

unfoldable pub index_of : Allocations → Text → Option ℕ
index_of [] id = none
index_of ((k, i) ∷ rest) id = if k === id then some i else index_of rest id

-- `{ ...allocations, [id]: index }`
unfoldable pub put : Allocations → Text → ℕ → Allocations
put [] id i = (id, i) ∷ []
put ((k, j) ∷ rest) id i =
    let changed = put rest id i in if k === id then (k, i) ∷ rest else (k, j) ∷ changed

-- `Object.values(...)`
abbrev pub values : Allocations → List ℕ
values allocations = map (λ (e : Text × ℕ). e.1) allocations

unfoldable pub has : List ℕ → ℕ → Bool
has [] i = false
has (u ∷ us) i = if u == i then true else has us i

-- `new Set(...).size`
unfoldable pub set_size : List ℕ → ℕ
unfolding has
set_size [] = 0
set_size (u ∷ us) = let rest = set_size us in if has us u then rest else suc rest

unfoldable pub count : ℕ → List ℕ → ℕ
count i [] = 0
count i (u ∷ us) = let rest = count i us in if u == i then suc rest else rest

-- The first free one of the draws, in order.
unfoldable pub first_free : List ℕ → List ℕ → Option ℕ
unfolding has
first_free used [] = none
first_free used (i ∷ draws) = if has used i then first_free used draws else some i

-- The fallback, over `n` indices from `i` on.
unfoldable pub dense : List ℕ → ℕ → ℕ → Option ℕ
unfolding has
dense used i zero = none
dense used i (suc n) = if has used i then dense used (suc i) n else some i

-- `pickFree`, on the indices that up to 100000 draws give.
unfoldable pub pick_free : List ℕ → ℕ → List ℕ → Option ℕ
unfolding set_size first_free dense
pick_free used space draws =
    if leb space (set_size used)
    then none
    else elim (first_free used draws) [ some i ↦ some i | none ↦ dense used 0 space ]

pub record AllocationNode (W B : Type 0) : Type 0 where
  pub set_current_id : W → Option W
  -- The version sequence and the sealed data of the record.
  pub resolve : W → Option (ℕ × Option B)
  pub unseal : B → Option Allocations
  pub seal : Allocations → Option B
  pub merge_data : W → B → Option W

-- What others do in the three gaps of an attempt: after the read, after the check of the head, and
-- after the write.
pub record Gaps (W : Type 0) : Type 0 where
  pub after_read : W → W
  pub after_check : W → W
  pub after_write : W → W

-- What an attempt ends in.
pub data Attempt (W : Type 0) : Type 0 where
  threw : Attempt W
  conflict : W → Attempt W
  done : ℕ → W → Attempt W

module _ {W B : Type 0} (node : AllocationNode W B) where
  abbrev unsealed : ℕ × Option B → Option (Allocations × ℕ)
  unsealed (version, none) = none
  unsealed (version, some sealed) = elim (node.unseal sealed) [
    | none ↦ none
    | some r ↦ some (r, version)
  ]

  unfoldable pub read_record : W → Option (Allocations × ℕ)
  read_record w = elim (node.resolve w) [ none ↦ none | some d ↦ unsealed d ]

  unfoldable pub head_version : W → Option ℕ
  head_version w = elim (node.resolve w) [ none ↦ none | some d ↦ some d.0 ]

  -- The empty record, given the call that makes an asset.
  unfoldable pub create_allocation_record : (W → B → Option (Text × W)) → W → Option (Text × W)
  create_allocation_record create_asset w = do
    w' ← node.set_current_id w
    sealed ← node.seal []
    create_asset w' sealed

  -- The check after the write.
  unfoldable pub verify_write : Text → ℕ → W → Attempt W
  unfolding index_of count
  verify_write id index w = elim (read_record w) [
    | none ↦ threw
    | some r ↦
        if get_or (index_of r.0 id) (suc index) == index && count index (values r.0) == 1
        then done index w
        else conflict w
  ]

  unfoldable pub write_record : Gaps W → Text → ℕ → Allocations → W → Attempt W
  unfolding put
  write_record gaps id index allocations w = elim (node.seal (put allocations id index)) [
    | none ↦ threw
    | some sealed ↦ elim (node.merge_data w sealed) [
      | none ↦ conflict w
      | some w' ↦ verify_write id index (gaps.after_write w')
    ]
  ]

  -- The compare and swap, and the write.
  unfoldable pub swap : Gaps W → Text → ℕ → Allocations → ℕ → W → Attempt W
  swap gaps id index allocations version w = elim (head_version w) [
    | none ↦ threw
    | some head ↦
        if head == version
        then write_record gaps id index allocations (gaps.after_check w)
        else conflict w
  ]

  unfoldable pub allocate_from : Gaps W → Text → ℕ → List ℕ → W → Allocations × ℕ → Attempt W
  unfolding index_of pick_free
  allocate_from gaps id space draws w r = elim (index_of r.0 id) [
    | some existing ↦ done existing w
    | none ↦ elim (pick_free (values r.0) space draws) [
      | none ↦ threw
      | some index ↦ swap gaps id index r.0 r.1 (gaps.after_read w)
    ]
  ]

  -- One pass of the loop.
  unfoldable pub attempt : Gaps W → Text → ℕ → List ℕ → W → Attempt W
  attempt gaps id space draws w = elim (node.set_current_id w) [
    | none ↦ threw
    | some w' ↦ elim (read_record w') [
      | none ↦ threw
      | some r ↦ allocate_from gaps id space draws w' r
    ]
  ]

  -- The loop from the attempt `n` on, with so many retries left; an attempt has its own gaps and
  -- draws.
  unfoldable pub attempts : (ℕ → Gaps W × List ℕ) → Text → ℕ → ℕ → ℕ → W → Option ((ℕ × ℕ) × W)
  attempts turn id space n zero w = elim (attempt (turn n).0 id space (turn n).1 w) [
    | threw ↦ none
    | conflict w' ↦ none
    | done i w' ↦ some ((i, n), w')
  ]
  attempts turn id space n (suc left) w = elim (attempt (turn n).0 id space (turn n).1 w) [
    | threw ↦ none
    | conflict w' ↦ attempts turn id space (suc n) left w'
    | done i w' ↦ some ((i, n), w')
  ]

  unfoldable pub allocate_index :
      (ℕ → Gaps W × List ℕ) → Text → ℕ → Option ℕ → W → Option ((ℕ × ℕ) × W)
  allocate_index turn id space max_retries w = elim (node.set_current_id w) [
    | none ↦ none
    | some w' ↦ attempts turn id space 1 (get_or max_retries 8) w'
  ]

  -- `lookupIndex`: none where it throws, `some none` for an id that has no index.
  unfoldable pub lookup_index : Text → W → Option (Option ℕ)
  unfolding index_of
  lookup_index id w = elim (node.set_current_id w) [
    | none ↦ none
    | some w' ↦ elim (read_record w') [ none ↦ none | some r ↦ some (index_of r.0 id) ]
  ]
