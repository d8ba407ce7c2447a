-- ===== src/Base.antt =====
-- Names that the modules of the library share: those of the standard libraries, passed on, Boolean
-- tests, lists over the native numbers, and the fixed-width arithmetic of the C code.
mod Tests
mod Lists
mod Words
mod Bits
mod Texts
mod Sums
pub use Tests.*
pub use Lists.*
pub use Words.*
pub use Bits.*
pub use Texts.*
pub use Sums.*
pub use Prim.Native.Nat.{ℕ, zero, suc, ◌+◌, ◌-◌, ◌*◌, ◌/◌, ◌%◌, ◌^◌, ◌≤◌, ◌<◌, bit_and, bit_or}
pub use mathlib.Core.Path.{◌≡◌, refl, sym, ap, ◌∙◌, fun_ext}
pub use mathlib.Core.Logic.{◌≢◌, ◌↔◌, ◌⊎◌, inl, inr}
pub use mathlib.Core.Bool.{Bool, true, false, not, ◌&&◌, ◌||◌}
pub use mathlib.Core.Option.{Option, none, some}
pub use mathlib.Core.List.{List, [], ◌∷◌, ◌++◌, map}
pub use native.Mathlib.Omega.{arith}
