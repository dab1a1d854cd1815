-- ===== src/Prelude.antt =====
-- The names that the other modules share: the libraries', passed on, and those of the children.
mod Tests
mod Lists
mod Text
pub use Tests.*
pub use Lists.*
unfoldable pub use Text.{
  is_whitespace, trim_start, trim_end, trim, char_at_or, lower, to_ascii_lowercase,
}
pub use Text.{is_empty}
pub use Prim.Native.Nat.{ℕ, zero, suc, ◌+◌, ◌-◌, ◌*◌, ◌/◌, ◌%◌, ◌^◌, ◌≤◌, ◌<◌, min, max}
pub use Prim.Native.String.{String, ◌++◌ as ◌<>◌}
pub use mathlib.Core.Path.{◌≡◌, refl, sym, ap, ◌∙◌, subst}
pub use mathlib.Core.Logic.{◌≢◌, ◌↔◌, ◌⊎◌, inl, inr}
pub use mathlib.Core.Bool.{Bool, true, false, not, ◌&&◌, ◌||◌}
pub use mathlib.Core.Option.{Option, none, some}
pub use mathlib.Core.List.{List, [], ◌∷◌, ◌++◌, map}
pub use native.Mathlib.Omega.{arith}
pub use text.Mathlib.Text.{◌==◌ as ◌=s◌}
pub use text.Mathlib.TextEquality.{eq_iff}
pub use text.Mathlib.TextPositions.{eq_refl}
