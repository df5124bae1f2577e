-- ===== src/Common/Bits.antt =====
-- Masks and shifted sums of the native numbers as arithmetic.
use Prim.Native.Nat.{
  ℕ, zero, suc, ◌+◌, ◌-◌, ◌*◌, ◌/◌, ◌%◌, ◌^◌, ◌≤◌, ◌<◌, min, max, bit_and, bit_or, digits,
  bit_and-bitwise, bit_or-bitwise,
}
use mathlib.Core.Path.{◌≡◌, ◌∙◌, refl, sym, ap}
use native.Mathlib.Nat.{div-add-mod, mod-lt, mod-eq_of_lt, mul-add-mod_self_right}
use native.Mathlib.Omega.{arith}
use mathlib.Core.Bool.{Bool, true, ◌&&◌}
use mathlib.Core.Logic.{inl, inr}
use vibevoice_c.Common.Tests.{ltb, Bool-cases}

module _ (edge : ℕ → ℕ) (op : ℕ → ℕ → ℕ) where
  no_digits : (n b : ℕ) → digits edge op n 0 b ≡ edge b
  no_digits zero b = refl
  no_digits (suc n) b = refl

  -- More rounds than the number itself change nothing.
  own : (n m a b : ℕ) → a ≤ m → m ≤ n → digits edge op n a b ≡ digits edge op m a b
  own n m zero b h k = no_digits n b ∙ sym (no_digits m b)
  own n zero (suc a) b h k = absurd (omega arith)
  own zero (suc m) (suc a) b h k = absurd (omega arith)
  own (suc n) (suc m) (suc a) b h k =
      ap (λ (d : ℕ). d * 2 + op (suc a % 2) (b % 2))
        (own n m (suc a / 2) (b / 2) (omega arith) (omega arith))

pub bit_and_step : (a b : ℕ) → bit_and a b ≡ bit_and (a / 2) (b / 2) * 2 + min (a % 2) (b % 2)
bit_and_step zero b = omega (arith, bit_and-bitwise 0 b, bit_and-bitwise 0 (b / 2))
bit_and_step (suc a) b =
    let half = bit_and-bitwise (suc a / 2) (b / 2) in
    let rest = own (λ x. zero) min a (suc a / 2) (suc a / 2) (b / 2) (omega arith) (omega arith) in
    omega (arith, bit_and-bitwise (suc a) b, half, rest)

pub bit_or_step : (a b : ℕ) → bit_or a b ≡ bit_or (a / 2) (b / 2) * 2 + max (a % 2) (b % 2)
bit_or_step zero b = omega (arith, bit_or-bitwise 0 b, bit_or-bitwise 0 (b / 2))
bit_or_step (suc a) b =
    let half = bit_or-bitwise (suc a / 2) (b / 2) in
    let rest = own (λ x. x) max a (suc a / 2) (suc a / 2) (b / 2) (omega arith) (omega arith) in
    omega (arith, bit_or-bitwise (suc a) b, half, rest)

-- A mask of no ones; `k` is as large as the number.
no_ones : (k a : ℕ) → a ≤ k → bit_and a 0 ≡ 0
no_ones k zero h = bit_and-bitwise 0 0
no_ones zero (suc a) h = absurd (omega arith)
no_ones (suc k) (suc a) h =
    let deeper = no_ones k (suc a / 2) (omega arith) in
    omega (arith, bit_and_step (suc a) 0, deeper)

no_more : (k a : ℕ) → a ≤ k → bit_or a 0 ≡ a
no_more k zero h = bit_or-bitwise 0 0
no_more zero (suc a) h = absurd (omega arith)
no_more (suc k) (suc a) h =
    let deeper = no_more k (suc a / 2) (omega arith) in omega (arith, bit_or_step (suc a) 0, deeper)

pub pow2-positive : (k : ℕ) → 0 < 2 ^ k
pow2-positive zero = omega arith
pow2-positive (suc k) = omega (arith, pow2-positive k)

-- The remainder by a number that is twice as large, from the lowest digit and the rest.
mod_twice : (a m : ℕ) → 0 < m → a % (m * 2) ≡ (a / 2) % m * 2 + a % 2
mod_twice a m h =
    (let q = a / 2 / m in
      let r = a / 2 % m * 2 + a % 2 in
      let half = div-add-mod (a / 2) m in
      let below : r < m * 2 = omega (arith, mod-lt (a / 2) h) in
      let whole : a ≡ q * (m * 2) + r = omega (arith, half) in
      let cut : (q * (m * 2) + r) % (m * 2) ≡ r =
        mul-add-mod_self_right q (m * 2) r ∙ mod-eq_of_lt below in
      ap (λ (x : ℕ). x % (m * 2)) whole ∙ cut)

-- A mask of `k` ones.
pub bit_and_ones : (k a : ℕ) → bit_and a (2 ^ k - 1) ≡ a % 2 ^ k
bit_and_ones zero a = omega (arith, no_ones a a (omega arith))
bit_and_ones (suc k) a =
    (let positive = pow2-positive k in
      let mask_half : (2 ^ suc k - 1) / 2 ≡ 2 ^ k - 1 = omega arith in
      let mask_low : (2 ^ suc k - 1) % 2 ≡ 1 = omega arith in
      let twice : 2 ^ suc k ≡ 2 ^ k * 2 = omega arith in
      let rest : bit_and (a / 2) ((2 ^ suc k - 1) / 2) ≡ a / 2 % 2 ^ k =
        rw mask_half (bit_and_ones k (a / 2)) in
      let goal : a % 2 ^ suc k ≡ a / 2 % 2 ^ k * 2 + a % 2 =
        rw twice (mod_twice a (2 ^ k) positive) in
      omega (arith, bit_and_step a (2 ^ suc k - 1), mask_low, rest, goal))

-- A sum of parts that do not overlap.
pub bit_or_below : (k x y : ℕ) → y < 2 ^ k → bit_or (x * 2 ^ k) y ≡ x * 2 ^ k + y
bit_or_below zero x y h =
    let e : y ≡ 0 = omega arith in rw e (omega (arith, no_more (x * 1) (x * 1) (omega arith)))
bit_or_below (suc k) x y h =
    (let power : 2 ^ suc k ≡ 2 ^ k * 2 = omega arith in
      let twice : x * 2 ^ suc k ≡ x * 2 ^ k * 2 = rw power (omega arith) in
      let half : x * 2 ^ k * 2 / 2 ≡ x * 2 ^ k = omega arith in
      let rest : bit_or (x * 2 ^ k * 2 / 2) (y / 2) ≡ x * 2 ^ k + y / 2 =
        rw half (bit_or_below k x (y / 2) (omega arith)) in
      rw twice (omega (arith, bit_or_step (x * 2 ^ k * 2) y, rest)))

-- A test that holds of all numbers below a bound, by evaluation.
unfoldable pub all_below : ℕ → (ℕ → Bool) → Bool
all_below zero test = true
all_below (suc k) test = all_below k test && test k

pub all_below_sound :
    (k : ℕ) (test : ℕ → Bool) (n : ℕ) → all_below k test ≡ true → n < k → test n ≡ true
unfolding all_below
all_below_sound zero test n e h = absurd (omega arith)
all_below_sound (suc k) test n e h = elim (Bool-cases (ltb n k)) [
  | inl below ↦ all_below_sound k test n (ground (arith, e)) (ground arith)
  | inr top ↦ (let last : n ≡ k = ground arith in rw last (ground (arith, e)))
]
