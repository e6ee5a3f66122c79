-- ===== src/Common.antt =====
-- Names that the other modules share: those of the libraries, passed on, and of the children.
mod Tests
mod Lists
mod Texts
mod Errors
mod Suffix
pub mod Map
pub mod Int
pub use Tests.*
pub use Lists.*
pub use Texts.*
pub use Errors.*
unfoldable pub use Suffix.{text_eq, strip_suffix}
pub use Suffix.{text_eq→≡, text_eq_refl, strip-append, has_suffix, has_suffix_iff}
pub use Prim.Native.Nat.{ℕ, zero, suc, ◌+◌, ◌-◌, ◌*◌, ◌/◌, ◌%◌, ◌≤◌, ◌<◌}
pub use Prim.Native.String.{String}
pub use mathlib.Core.Path.{◌≡◌, refl, sym, ap, ◌∙◌, subst}
pub use mathlib.Core.Logic.{◌≢◌, ◌↔◌, ◌⊎◌, inl, inr}
pub use mathlib.Core.Bool.{Bool, true, false, not, ◌&&◌, ◌||◌, false≢true}
pub use mathlib.Core.Option.{Option, none, some}
pub use mathlib.Core.List.{List, [], ◌∷◌, ◌++◌, map, reverse, append_assoc, append-nil}
pub use native.Mathlib.Omega.{arith}
pub use text.Mathlib.TextEquality.{eq_iff}
unfoldable pub use native.Mathlib.Decide.{dec_lt, dec_le, ℕ_discrete}
pub use native.Mathlib.Numerals.{add-one}
