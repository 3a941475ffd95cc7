-- ===== src/Base.antt =====
-- Names and lemmas that every module shares: tests on numbers, lists over the native numbers,
-- and the outcome of a Rust call.
mod Tests
mod Lists
mod Results
mod Marks
mod Bits
mod Returns
mod Xor
unfoldable pub use Tests.*
pub use Lists.*
pub use Marks.*
pub use Returns.*
unfoldable pub use Xor.*
unfoldable pub use Bits.*
unfoldable pub use Results.*
pub use Prim.Native.Nat.{
  ℕ, zero, suc, ◌+◌, ◌-◌, ◌*◌, ◌/◌, ◌%◌, ◌^◌, ◌≤◌, ◌<◌, min, max, bit_and, bit_or,
}
pub use mathlib.Core.Path.{◌≡◌, refl, sym, ap, ap₂, ◌∙◌}
pub use mathlib.Core.Logic.{◌≢◌, ◌↔◌, ◌⊎◌, inl, inr}
pub use mathlib.Core.Bool.{Bool, true, false, not, ◌&&◌, ◌||◌}
pub use mathlib.Core.Option.{Option, none, some}
pub use mathlib.Core.List.{List, [], ◌∷◌, ◌++◌, map, append-nil, append_assoc}
pub use native.Mathlib.Omega.{arith}
