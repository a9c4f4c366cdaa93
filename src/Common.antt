-- ===== src/Common.antt =====
-- What every module of the development shares: the libraries' names, tests on numbers, lists as
-- byte strings, bit operations as arithmetic, signed integers and Python's exceptions.
mod Tests
mod Lists
mod Bytes
mod Outcome
pub mod Bits
pub mod Int
pub mod Text
pub mod Dict
pub mod Value
pub mod Put
pub use Tests.*
pub use Lists.*
pub use Bytes.*
pub use Outcome.*
pub use Prim.Native.Nat.{
  ℕ, zero, suc, ◌+◌, ◌-◌, ◌*◌, ◌/◌, ◌%◌, ◌^◌, ◌≤◌, ◌<◌, min, max, bit_and, bit_or, bit_xor,
}
pub use Prim.Native.String.{String}
pub use mathlib.Core.Path.{◌≡◌, refl, sym, subst, ap, ap₂, ◌∙◌}
pub use mathlib.Core.Logic.{◌≢◌, ◌↔◌, ◌⊎◌, inl, inr}
pub use mathlib.Core.Bool.{Bool, true, false, not, ◌&&◌, ◌||◌}
pub use mathlib.Core.Option.{Option, none, some}
pub use mathlib.Core.List.{List, [], ◌∷◌, ◌++◌, map, foldl, append_assoc, append-nil}
pub use native.Mathlib.Omega.{arith}
