-- ===== src/Prelude.antt =====
-- Names that every module of the development shares: the libraries' basics, passed on, the Boolean
-- tests and list functions over the native numbers, and the wrap-around of machine words.
mod Tests
mod Lists
mod Words
mod Tables
pub use Tests.*
pub use Lists.*
pub use Words.*
unfoldable pub use Tables.{passes_below}
pub use Tables.{passes_below_at}
pub use Prim.Native.Nat.{
  ℕ, zero, suc, ◌+◌, ◌-◌, ◌*◌, ◌/◌, ◌%◌, ◌^◌, ◌≤◌, ◌<◌, min, max, bit_and, bit_or, bit_xor,
}
pub use mathlib.Core.Path.{◌≡◌, refl, sym, ap, ◌∙◌}
pub use mathlib.Core.Logic.{◌≢◌, ◌↔◌, ◌⊎◌, inl, inr}
pub use mathlib.Core.Bool.{Bool, true, false, not, ◌&&◌, ◌||◌}
pub use mathlib.Core.Option.{Option, none, some}
pub use mathlib.Core.List.{List, [], ◌∷◌, ◌++◌, map}
pub use native.Mathlib.Omega.{arith}
