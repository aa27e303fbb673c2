-- ===== src/Prelude/Sorting.antt =====
-- `[...new Set(xs)].sort()`: the set keeps the first occurrence of each string, and the sort is by
-- code units. The result is fixed by the members alone.
use mathlib.Core.Path.{◌≡◌, refl, sym, ap₂, ◌∙◌}
use mathlib.Core.Logic.{inl, inr}
use mathlib.Core.Bool.{true, false, ◌||◌}
use mathlib.Core.List.{List, [], ◌∷◌, ◌++◌}
use native.Mathlib.Omega.{arith}
use hearthold.Prelude.Tests.{if◌then◌else◌, Bool-cases}
use hearthold.Prelude.Strings.{
  Text, ◌===◌, ===_iff, text_leb, text_leb_refl, text_leb_trans, text_leb_total, text_leb_antisym,
  includes, Subset,
}

-- `set.add(x)`
set_add : List Text → Text → List Text
set_add set x = if includes set x then set else set ++ x ∷ []

set_from : List Text → List Text → List Text
set_from set [] = set
set_from set (x ∷ xs) = set_from (set_add set x) xs

-- One insertion of a sort that is stable and ascending.
insert : Text → List Text → List Text
insert x [] = x ∷ []
insert x (y ∷ ys) = if text_leb x y then x ∷ y ∷ ys else y ∷ insert x ys

unfoldable pub sort : List Text → List Text
unfolding insert
sort [] = []
sort (x ∷ xs) = insert x (sort xs)

unfoldable pub unique_sorted : List Text → List Text
unfolding set_from set_add sort
unique_sorted xs = sort (set_from [] xs)

includes-append :
    (xs ys : List Text) (a : Text) → includes (xs ++ ys) a ≡ (includes xs a || includes ys a)
unfolding includes
includes-append [] ys a = refl
includes-append (x ∷ xs) ys a = ground (arith, includes-append xs ys a)

includes-set_add :
    (set : List Text) (x a : Text) → includes (set_add set x) a ≡ (includes set a || x === a)
unfolding set_add includes
includes-set_add set x a = ground (arith, includes-append set (x ∷ []) a, (===_iff x a).0)

includes-set_from :
    (set xs : List Text) (a : Text)
    → includes (set_from set xs) a ≡ (includes set a || includes xs a)
unfolding set_from includes
includes-set_from set [] a = ground arith
includes-set_from set (x ∷ xs) a =
    ground (arith, includes-set_from (set_add set x) xs a, includes-set_add set x a)

includes-insert :
    (x : Text) (xs : List Text) (a : Text) → includes (insert x xs) a ≡ (x === a || includes xs a)
unfolding insert includes
includes-insert x [] a = refl
includes-insert x (y ∷ ys) a = ground (arith, includes-insert x ys a)

pub includes-sort : (xs : List Text) (a : Text) → includes (sort xs) a ≡ includes xs a
unfolding sort includes
includes-sort [] a = refl
includes-sort (x ∷ xs) a = ground (arith, includes-insert x (sort xs) a, includes-sort xs a)

-- The same strings are included after the set and the sort.
pub includes-unique_sorted :
    (xs : List Text) (a : Text) → includes (unique_sorted xs) a ≡ includes xs a
unfolding unique_sorted includes
includes-unique_sorted xs a =
    ground (arith, includes-sort (set_from [] xs) a, includes-set_from [] xs a)

-- Every string of the list comes after `x`.
abbrev Precedes : Text → List Text → Type 0
Precedes x xs = (a : Text) → includes xs a ≡ true → text_leb a x ≡ false

abbrev IsAscending : List Text → Type 0
IsAscending [] = Unit
IsAscending (x ∷ xs) = Precedes x xs × IsAscending xs

abbrev IsDistinct : List Text → Type 0
IsDistinct [] = Unit
IsDistinct (x ∷ xs) = (includes xs x ≡ false) × IsDistinct xs

Precedes-insert :
    (x y : Text) (ys : List Text) → text_leb x y ≡ false → Precedes y ys → Precedes y (insert x ys)
Precedes-insert x y ys h k a m = ground (arith, includes-insert x ys a, k a, (===_iff x a).0)

Precedes-cons :
    (x y : Text) (ys : List Text)
    → text_leb x y ≡ true
    → includes (y ∷ ys) x ≡ false
    → Precedes y ys
    → Precedes x (y ∷ ys)
unfolding includes
Precedes-cons x y ys le new k a m =
    ground
      (arith, k a, (===_iff y a).0, (===_iff y x).1, text_leb_antisym x y, text_leb_trans a x y)

insert-IsAscending :
    (x : Text) (ys : List Text) → includes ys x ≡ false → IsAscending ys → IsAscending (insert x ys)
unfolding insert includes
insert-IsAscending x [] new s = (λ a m. cc, tt)
insert-IsAscending x (y ∷ ys) new s = elim (Bool-cases (text_leb x y)) [
  | inl le ↦ rw le (Precedes-cons x y ys le new s.0, s)
  | inr gt ↦ rw gt (Precedes-insert x y ys gt s.0, insert-IsAscending x ys (ground arith) s.1)
]

sort-IsAscending : (xs : List Text) → IsDistinct xs → IsAscending (sort xs)
unfolding sort
sort-IsAscending [] d = tt
sort-IsAscending (x ∷ xs) d =
    insert-IsAscending x (sort xs) (includes-sort xs x ∙ d.0) (sort-IsAscending xs d.1)

append-IsDistinct :
    (xs : List Text) (x : Text) → includes xs x ≡ false → IsDistinct xs → IsDistinct (xs ++ x ∷ [])
unfolding includes
append-IsDistinct [] x new d = (refl, tt)
append-IsDistinct (y ∷ ys) x new d = (
  ground (arith, includes-append ys (x ∷ []) y, ===_iff y x, ===_iff x y),
  append-IsDistinct ys x (ground arith) d.1,
)

set_add-IsDistinct : (set : List Text) (x : Text) → IsDistinct set → IsDistinct (set_add set x)
unfolding set_add
set_add-IsDistinct set x d = elim (Bool-cases (includes set x)) [
  | inl old ↦ rw old d
  | inr new ↦ rw new (append-IsDistinct set x new d)
]

set_from-IsDistinct : (set xs : List Text) → IsDistinct set → IsDistinct (set_from set xs)
unfolding set_from
set_from-IsDistinct set [] d = d
set_from-IsDistinct set (x ∷ xs) d =
    set_from-IsDistinct (set_add set x) xs (set_add-IsDistinct set x d)

unique_sorted-IsAscending : (xs : List Text) → IsAscending (unique_sorted xs)
unfolding unique_sorted
unique_sorted-IsAscending xs = sort-IsAscending (set_from [] xs) (set_from-IsDistinct [] xs tt)

includes-head : (x : Text) (xs : List Text) → includes (x ∷ xs) x ≡ true
unfolding includes
includes-head x xs = ground (arith, (===_iff x x).1)

head-eq :
    (x y : Text) (xs ys : List Text)
    → Precedes x xs
    → Precedes y ys
    → includes (y ∷ ys) x ≡ true
    → includes (x ∷ xs) y ≡ true
    → x ≡ y
unfolding includes
head-eq x y xs ys p q m n =
    ground (arith, (===_iff y x).0, (===_iff x y).0, p y, q x, text_leb_total x y)

Subset-tail :
    (x y : Text) (xs ys : List Text)
    → x ≡ y
    → Precedes x xs
    → Subset (x ∷ xs) (y ∷ ys)
    → Subset xs ys
unfolding includes
Subset-tail x y xs ys e p h a m =
    ground (arith, h a, p a m, ===_iff x a, ===_iff y a, text_leb_refl x)

-- Ascending lists with the same members are one list.
ascending-eq :
    (xs ys : List Text) → IsAscending xs → IsAscending ys → Subset xs ys → Subset ys xs → xs ≡ ys
unfolding includes
ascending-eq [] [] s t h k = refl
ascending-eq [] (y ∷ ys) s t h k = cc (k y (includes-head y ys))
ascending-eq (x ∷ xs) [] s t h k = cc (h x (includes-head x xs))
ascending-eq (x ∷ xs) (y ∷ ys) s t h k =
    let e = head-eq x y xs ys s.0 t.0 (h x (includes-head x xs)) (k y (includes-head y ys)) in
    let below = Subset-tail x y xs ys e s.0 h in
    let above = Subset-tail y x ys xs (sym e) t.0 k in
    ap₂ ◌∷◌ e (ascending-eq xs ys s.1 t.1 below above)

-- The members fix the sorted list.
pub unique_sorted-eq :
    (xs ys : List Text) → Subset xs ys → Subset ys xs → unique_sorted xs ≡ unique_sorted ys
unique_sorted-eq xs ys h k =
    ascending-eq (unique_sorted xs) (unique_sorted ys) (unique_sorted-IsAscending xs)
      (unique_sorted-IsAscending ys)
      (λ a m. includes-unique_sorted ys a ∙ h a (sym (includes-unique_sorted xs a) ∙ m))
      (λ a m. includes-unique_sorted xs a ∙ k a (sym (includes-unique_sorted ys a) ∙ m))
