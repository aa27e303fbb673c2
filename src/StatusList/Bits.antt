-- ===== src/StatusList/Bits.antt =====
-- Reading and setting one bit of the revocation list of packages/core/src/status-list.ts.

use hearthold.Prelude.{
  ◌∙◌, every, not, Bool-cases, inl, inr, ==_iff, ℕ, zero, suc, ◌/◌, ◌%◌, ◌<◌, ◌≡◌, refl, ap, Bool,
  true, some, List, [], ◌∷◌, get_or, get_elem?, length, All, arith, ◌==◌, if◌then◌else◌,
}
use hearthold.Prelude.Int.{pos}
use hearthold.StatusList.{
  set, byte_bit, byte_set, bit_at, get_bit, set_bit, status_list_length, status_list_bytes,
}

-- The numbers under a bound.
abbrev under : ℕ → List ℕ
under zero = []
under (suc bound) = bound ∷ under bound

-- What `every` finds of the numbers under a bound holds of each of them.
every-under :
    (test : ℕ → Bool) (bound k : ℕ) → k < bound → every test (under bound) ≡ true → test k ≡ true
every-under test (suc bound) k small found = elim (Bool-cases (k == bound)) [
  | inl last ↦
      let at_bound : test bound ≡ true = ground (arith, found) in
      ap test ((==_iff k bound).0 last) ∙ at_bound
  | inr earlier ↦ every-under test bound k (ground (arith, earlier)) (ground (arith, found))
]
every-under test zero k small found = absurd (omega arith)

agree : Bool → Bool → Bool
agree a b = if a then b else not b

agree→eq : (a b : Bool) → agree a b ≡ true → a ≡ b
unfolding agree
agree→eq a b h = ground arith

-- Setting the bit at one place of a byte is seen at another place as it should be.
abbrev sets_bit : ℕ → ℕ → ℕ → Bool
sets_bit i j byte = agree (byte_bit (byte_set byte i) j) (if i == j then true else byte_bit byte j)

-- Every byte, at every two places.
bytes_checked :
    every (λ i. every (λ j. every (sets_bit i j) (under 256)) (under 8)) (under 8) ≡ true
unfolding agree byte_bit byte_set
bytes_checked = refl

byte_bit-set :
    (byte i j : ℕ)
    → byte < 256
    → i < 8
    → j < 8
    → byte_bit (byte_set byte i) j ≡ (if i == j then true else byte_bit byte j)
byte_bit-set byte i j hb hi hj =
    let at_i =
      every-under (λ m. every (λ n. every (sets_bit m n) (under 256)) (under 8)) 8 i hi
        bytes_checked in
    let at_j = every-under (λ n. every (sets_bit i n) (under 256)) 8 j hj at_i in
    agree→eq (byte_bit (byte_set byte i) j) (if i == j then true else byte_bit byte j)
      (every-under (sets_bit i j) 256 byte hb at_j)

get_elem?-set :
    (bs : List ℕ) (i j v : ℕ)
    → i < length bs
    → get_elem? (set bs i v) j ≡ (if i == j then some v else get_elem? bs j)
get_elem?-set [] i j v h = absurd (omega arith)
get_elem?-set (b ∷ bs) zero zero v h = refl
get_elem?-set (b ∷ bs) zero (suc j) v h = ground arith
get_elem?-set (b ∷ bs) (suc i) zero v h = ground arith
get_elem?-set (b ∷ bs) (suc i) (suc j) v h = ground (arith, get_elem?-set bs i j v)

byte_at : (bs : List ℕ) (i : ℕ) → All (λ b. b < 256) bs → get_or (get_elem? bs i) 0 < 256
byte_at [] i h = omega arith
byte_at (b ∷ bs) zero h = h.0
byte_at (b ∷ bs) (suc i) h = byte_at bs i h.1

pub length-set_bit : (bs : List ℕ) (i : ℕ) → length (set_bit bs i) ≡ length bs
unfolding set_bit
length-set_bit bs i = length-set bs (i / 8) (byte_set (get_or (get_elem? bs (i / 8)) 0) (i % 8))
  where
    length-set : (xs : List ℕ) (k v : ℕ) → length (set xs k v) ≡ length xs
    length-set [] k v = refl
    length-set (x ∷ xs) zero v = refl
    length-set (x ∷ xs) (suc k) v = ap suc (length-set xs k v)

bit_at-set_bit :
    (bs : List ℕ) (i j : ℕ)
    → length bs ≡ status_list_bytes
    → All (λ b. b < 256) bs
    → i < status_list_length
    → bit_at (set_bit bs i) j ≡ (if i == j then true else bit_at bs j)
bit_at-set_bit bs i j len bytes hi =
    let old = get_or (get_elem? bs (i / 8)) 0 in
    let there = get_elem?-set bs (i / 8) (j / 8) (byte_set old (i % 8)) (omega (arith, len)) in
    let bit =
      byte_bit-set old (i % 8) (j % 8) (byte_at bs (i / 8) bytes) (omega arith) (omega arith) in
    unfold bit_at set_bit in ground (arith, there, bit)

-- In a list of the fixed length, setting the bit at one index makes that bit read as set, and
-- leaves the bit at every other index as it was.
pub get_bit-set_bit :
    (bs : List ℕ) (i j : ℕ)
    → length bs ≡ status_list_bytes
    → All (λ b. b < 256) bs
    → i < status_list_length
    → j < status_list_length
    → get_bit (set_bit bs i) (pos j) ≡ (if i == j then some true else get_bit bs (pos j))
unfolding get_bit
get_bit-set_bit bs i j len bytes hi hj = ground (arith, bit_at-set_bit bs i j len bytes hi)
