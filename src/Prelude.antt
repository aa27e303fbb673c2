-- ===== src/Prelude.antt =====
-- The names that the modules share: the library's, passed on, and those of the children. JavaScript
-- strings are sequences of UTF-16 code units (`Text`), and its numbers are integers here.
mod Tests
mod Lists
mod Strings
pub mod Sorting
pub mod Int
pub use Tests.*
pub use Lists.*
pub use Strings.{
  ===_iff, eq_opt_iff, text_leb_refl, text_leb_trans, text_leb_total, text_leb_antisym,
  starts_with-append, starts_with_iff, every-includes_iff,
}
unfoldable pub use Strings.{
  Text, codes, ◌===◌, text_leb, starts_with, is_filled, before_hash, eq_opt, includes, Subset,
  includes_all,
}
pub use Prim.Native.Nat.{ℕ, zero, suc, ◌+◌, ◌-◌, ◌*◌, ◌/◌, ◌%◌, ◌^◌, ◌≤◌, ◌<◌}
pub use mathlib.Core.Path.{◌≡◌, refl, sym, ap, ◌∙◌, subst}
pub use mathlib.Core.Logic.{◌≢◌, ◌↔◌, ◌⊎◌, inl, inr}
pub use mathlib.Core.Bool.{Bool, true, false, not, ◌&&◌, ◌||◌}
pub use mathlib.Core.Option.{Option, none, some}
pub use mathlib.Core.List.{List, [], ◌∷◌, ◌++◌, map}
pub use native.Mathlib.Omega.{arith}
