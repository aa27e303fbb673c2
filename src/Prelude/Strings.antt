-- ===== src/Prelude/Strings.antt =====
-- JavaScript strings as lists of UTF-16 code units, with the operations that the program uses:
-- `===`, `<=`, `startsWith`, truthiness, `split('#')[0]`, and `includes` on arrays of strings.
use Prim.Native.Nat.{ℕ}
use Prim.Native.Char.{code}
use Prim.Native.String.{String}
use mathlib.Core.Path.{◌≡◌, refl, ap}
use mathlib.Core.Option.{Option, none, some}
use mathlib.Core.Logic.{◌↔◌, inl, inr}
use mathlib.Core.Bool.{Bool, true, false, ◌&&◌, ◌||◌}
use mathlib.Core.List.{List, [], ◌∷◌, ◌++◌}
use native.Mathlib.Omega.{arith}
use hearthold.Prelude.Tests.{ltb, ◌==◌, if◌then◌else◌, Bool-cases}
use hearthold.Prelude.Lists.{every}

abbrev pub Text : Type 0
Text = List ℕ

-- The code units of an ASCII literal.
abbrev pub codes : String → Text
codes String.[] = []
codes (String.◌∷◌ c s) = code c ∷ codes s

infix 50 ◌===◌
unfoldable pub ◌===◌ : Text → Text → Bool
[] === [] = true
[] === (y ∷ ys) = false
(x ∷ xs) === [] = false
(x ∷ xs) === (y ∷ ys) = x == y && xs === ys

===-sound : (s t : Text) → s === t ≡ true → s ≡ t
unfolding ◌===◌
===-sound [] [] h = refl
===-sound [] (y ∷ ys) h = cc
===-sound (x ∷ xs) [] h = cc
===-sound (x ∷ xs) (y ∷ ys) h = ground (arith, ===-sound xs ys)

===-refl : (s : Text) → s === s ≡ true
unfolding ◌===◌
===-refl [] = refl
===-refl (x ∷ xs) = ground (arith, ===-refl xs)

pub ===_iff : (s t : Text) → (s === t ≡ true) ↔ (s ≡ t)
===_iff s t = (===-sound s t, λ e. rw e (===-refl t))

-- `s === t` on `string | null`, or on `string | undefined`.
abbrev pub eq_opt : Option Text → Option Text → Bool
eq_opt none none = true
eq_opt none (some t) = false
eq_opt (some s) none = false
eq_opt (some s) (some t) = s === t

eq_opt_sound : (a b : Option Text) → eq_opt a b ≡ true → a ≡ b
eq_opt_sound none none h = refl
eq_opt_sound none (some b) h = cc
eq_opt_sound (some a) none h = cc
eq_opt_sound (some a) (some b) h = ap some (===-sound a b h)

eq_opt_refl : (a b : Option Text) → a ≡ b → eq_opt a b ≡ true
eq_opt_refl none none e = refl
eq_opt_refl none (some b) e = cc
eq_opt_refl (some a) none e = cc
eq_opt_refl (some a) (some b) e = (===_iff a b).1 (ground arith)

pub eq_opt_iff : (a b : Option Text) → (eq_opt a b ≡ true) ↔ (a ≡ b)
eq_opt_iff a b = (eq_opt_sound a b, eq_opt_refl a b)

-- `s <= t`: the order by code units.
unfoldable pub text_leb : Text → Text → Bool
text_leb [] t = true
text_leb (x ∷ xs) [] = false
text_leb (x ∷ xs) (y ∷ ys) = if x == y then text_leb xs ys else ltb x y

pub text_leb_refl : (s : Text) → text_leb s s ≡ true
unfolding text_leb
text_leb_refl [] = refl
text_leb_refl (x ∷ xs) = ground (arith, text_leb_refl xs)

pub text_leb_trans :
    (s t u : Text) → text_leb s t ≡ true → text_leb t u ≡ true → text_leb s u ≡ true
unfolding text_leb
text_leb_trans [] t u h k = refl
text_leb_trans (x ∷ xs) [] u h k = cc
text_leb_trans (x ∷ xs) (y ∷ ys) [] h k = cc
text_leb_trans (x ∷ xs) (y ∷ ys) (z ∷ zs) h k = ground (arith, text_leb_trans xs ys zs)

pub text_leb_total : (s t : Text) → text_leb s t ≡ false → text_leb t s ≡ true
unfolding text_leb
text_leb_total [] t h = cc
text_leb_total (x ∷ xs) [] h = refl
text_leb_total (x ∷ xs) (y ∷ ys) h = ground (arith, text_leb_total xs ys)

pub text_leb_antisym : (s t : Text) → text_leb s t ≡ true → text_leb t s ≡ true → s ≡ t
unfolding text_leb
text_leb_antisym [] [] h k = refl
text_leb_antisym [] (y ∷ ys) h k = cc
text_leb_antisym (x ∷ xs) [] h k = cc
text_leb_antisym (x ∷ xs) (y ∷ ys) h k = ground (arith, text_leb_antisym xs ys)

-- `t.startsWith(s)`, the prefix first.
unfoldable pub starts_with : Text → Text → Bool
starts_with [] t = true
starts_with (x ∷ xs) [] = false
starts_with (x ∷ xs) (y ∷ ys) = x == y && starts_with xs ys

starts_with-split : (s t : Text) → starts_with s t ≡ true → (rest : Text) × (t ≡ s ++ rest)
unfolding starts_with
starts_with-split [] t h = (t, refl)
starts_with-split (x ∷ xs) [] h = cc
starts_with-split (x ∷ xs) (y ∷ ys) h =
    let (rest, e) = starts_with-split xs ys (ground arith) in (rest, ground arith)

pub starts_with-append : (s rest : Text) → starts_with s (s ++ rest) ≡ true
unfolding starts_with
starts_with-append [] rest = refl
starts_with-append (x ∷ xs) rest = ground (arith, starts_with-append xs rest)

pub starts_with_iff : (s t : Text) → (starts_with s t ≡ true) ↔ ((rest : Text) × (t ≡ s ++ rest))
starts_with_iff s t = (starts_with-split s t, λ (r, e). rw e (starts_with-append s r))

-- A string is truthy when it is not empty.
abbrev pub is_filled : Text → Bool
is_filled [] = false
is_filled (x ∷ xs) = true

-- `s.split('#')[0]`
unfoldable pub before_hash : Text → Text
before_hash [] = []
before_hash (x ∷ xs) = if x == b'#' then [] else x ∷ before_hash xs

-- `xs.includes(x)` on an array of strings; also `set.has(x)`.
unfoldable pub includes : List Text → Text → Bool
includes [] a = false
includes (x ∷ xs) a = x === a || includes xs a

-- Every string of the first array is in the second.
abbrev pub Subset : List Text → List Text → Type 0
Subset xs ys = (a : Text) → includes xs a ≡ true → includes ys a ≡ true

-- `xs.every((x) => ys.includes(x))`
unfoldable pub includes_all : List Text → List Text → Bool
includes_all ys xs = every (includes ys) xs

includes_all-sound : (ys xs : List Text) → includes_all ys xs ≡ true → Subset xs ys
unfolding includes_all includes
includes_all-sound ys [] h a m = cc
includes_all-sound ys (x ∷ xs) h a m = elim (Bool-cases (x === a)) [
  | inl same ↦ rw (← ===-sound x a same) (ground arith)
  | inr other ↦ includes_all-sound ys xs (ground arith) a (ground arith)
]

includes_all_complete : (ys xs : List Text) → Subset xs ys → includes_all ys xs ≡ true
unfolding includes_all includes
includes_all_complete ys [] h = refl
includes_all_complete ys (x ∷ xs) h =
    ground (arith, h x, ===-refl x, includes_all_complete ys xs (λ a m. h a (ground arith)))

pub every-includes_iff : (ys xs : List Text) → (includes_all ys xs ≡ true) ↔ Subset xs ys
every-includes_iff ys xs = (includes_all-sound ys xs, includes_all_complete ys xs)
