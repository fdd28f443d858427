-- ===== src/Base.antt =====
-- The names that the modules of the library share: those of the libraries, passed on, and those of
-- its children (tests and the conditional, lists, bit operations, results).
mod Tests
mod Lists
mod Bits
mod Xor
mod Results
mod Decimal
pub use Tests.*
unfoldable pub use Lists.{c_str}
pub use Lists.*
unfoldable pub use Bits.{all_below}
pub use Bits.*
pub use Xor.*
pub use Results.*
unfoldable pub use Decimal.{format_u32, is_digit, from_chars_u32}
pub use Decimal.*
pub use Prim.Native.Nat.{ℕ, zero, suc, ◌+◌, ◌-◌, ◌*◌, ◌/◌, ◌%◌, ◌^◌, ◌≤◌, ◌<◌, min}
pub use Prim.Native.Nat.{bit_and, bit_or, bit_xor}
pub use mathlib.Core.Path.{◌≡◌, refl, sym, ap, ◌∙◌}
pub use mathlib.Core.Logic.{◌≢◌, ◌↔◌, ◌⊎◌, inl, inr}
pub use mathlib.Core.Bool.{Bool, true, false, ◌&&◌, ◌||◌, not}
pub use mathlib.Core.Option.{Option, none, some}
pub use mathlib.Core.List.{List, [], ◌∷◌, ◌++◌, map, append_assoc, append-nil}
pub use native.Mathlib.Omega.{arith}
