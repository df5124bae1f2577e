-- ===== src/Common.antt =====
-- The names that all modules share: the libraries' own, passed on, Boolean tests on the native
-- numbers, lists indexed by native numbers, sums over the entries of a list, and the status codes
-- of include/vibevoice/types.h.
mod Tests
mod Lists
mod Sums
mod Codes
mod Growth
mod Bits
mod Bytes
pub use Tests.*
pub use Lists.*
pub use Sums.*
pub use Codes.*
unfoldable pub use Bits.{all_below}
unfoldable pub use Bytes.{equal_bytes, starts_with}
pub use Bytes.{equal_bytes-eq, starts_with-append, little_endian, c_string}
pub use Bits.{bit_and_step, bit_or_step, pow2-positive, bit_and_ones, bit_or_below, all_below_sound}
unfoldable pub use Growth.{double_to}
pub use Growth.{double_to-bound}
pub use Prim.Native.Nat.{ℕ, zero, suc, ◌+◌, ◌-◌, ◌*◌, ◌/◌, ◌%◌, ◌^◌, ◌≤◌, ◌<◌, min, max}
pub use mathlib.Core.Path.{◌≡◌, refl, sym, ap, ◌∙◌}
pub use mathlib.Core.Logic.{◌≢◌, ◌↔◌, ◌⊎◌, inl, inr}
pub use mathlib.Core.Bool.{Bool, true, false, not, ◌&&◌, ◌||◌}
pub use mathlib.Core.Option.{Option, none, some}
pub use mathlib.Core.List.{List, [], ◌∷◌, ◌++◌, map, append-nil, append_assoc}
pub use native.Mathlib.Omega.{arith}
