-- ===== src/Common.antt =====
-- Names that every module of the library shares: those of the libraries, passed on, Boolean tests
-- on numbers, lists measured by native numbers, and Go's maps, slices and fixed-width integers.
mod Tests
mod Lists
pub mod Maps
pub mod Slices
pub mod Members
pub mod Results
pub mod Integers
pub mod Text
pub use Tests.*
pub use Lists.*
pub use Slices.{Bytes, u16}
pub use Results.{Outcome, returned, panicked, stuck}
pub use Prim.Native.Nat.{ℕ, zero, suc, ◌+◌, ◌-◌, ◌*◌, ◌/◌, ◌%◌, ◌^◌, ◌≤◌, ◌<◌, min}
pub use mathlib.Core.Path.{◌≡◌, refl, sym, ap, ap₂, ◌∙◌}
pub use mathlib.Core.Logic.{◌≢◌, ◌↔◌, ◌⊎◌, inl, inr}
pub use mathlib.Core.Bool.{Bool, true, false, ◌&&◌, ◌||◌, not}
pub use mathlib.Core.Option.{Option, none, some}
pub use mathlib.Core.List.{List, [], ◌∷◌, ◌++◌, map, append_assoc, append-nil}
pub use native.Mathlib.Omega.{arith}
