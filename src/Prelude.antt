-- ===== src/Prelude.antt =====
-- Names that every module shares: the libraries' names, passed on, and the children's.
mod Tests
mod Lists
mod Strings
mod Trim
mod Order
pub use Tests.*
pub use Lists.*
unfoldable pub use Strings.*
unfoldable pub use Trim.{strip, trim}
unfoldable pub use Order.*
pub use Prim.Native.Nat.{ℕ, zero, suc, ◌+◌, ◌-◌, ◌*◌, ◌/◌, ◌%◌, ◌^◌, ◌≤◌, ◌<◌, min, max}
pub use Prim.Native.String.{String}
pub use mathlib.Core.Path.{◌≡◌, refl, sym, ap, ap₂, subst, ◌∙◌, fun_ext}
pub use mathlib.Core.Logic.{◌≢◌, ◌↔◌, ◌⊎◌, inl, inr}
pub use mathlib.Core.Bool.{Bool, true, false, not, ◌&&◌, ◌||◌}
pub use mathlib.Core.Option.{Option, none, some}
pub use mathlib.Core.List.{
  List, [], ◌∷◌, ◌++◌, map, reverse, foldl, append-nil, append_assoc, map-append,
}
pub use native.Mathlib.Omega.{arith}
