-- ===== src/Common/Growth.antt =====
-- The growth of a buffer by doubling, as the C files have it.
use Prim.Native.Nat.{ℕ, zero, suc, ◌+◌, ◌*◌, ◌≤◌}
use mathlib.Core.Bool.{true, false}
use mathlib.Core.Logic.{inl, inr}
use native.Mathlib.Omega.{arith}
use vibevoice_c.Common.Tests.{ltb, Bool-cases}

-- `while (c < need) c *= 2;` with fuel; `c` is at least 1, so `need` rounds are enough.
unfoldable pub double_to : ℕ → ℕ → ℕ → ℕ
double_to zero c need = c
double_to (suc f) c need = elim (ltb c need) [ true ↦ double_to f (c * 2) need | false ↦ c ]

pub double_to-bound :
    (f c need : ℕ) → 1 ≤ c → need ≤ c + f → (need ≤ double_to f c need) × (c ≤ double_to f c need)
unfolding double_to
double_to-bound zero c need h k = (omega arith, omega arith)
double_to-bound (suc f) c need h k = elim (Bool-cases (ltb c need)) [
  | inl t ↦
      rw (double_to, t) (ground (arith, double_to-bound f (c * 2) need (omega arith) (omega arith)))
  | inr e ↦ rw (double_to, e) (ground arith, omega arith)
]
