-- ===== src/Common/Sums.antt =====
-- Sums of a number over the entries of a list: how many threads are in a state, how many caches
-- own a page.
use Prim.Native.Nat.{ℕ, zero, suc, ◌+◌, ◌-◌, ◌≤◌, ◌<◌}
use mathlib.Core.Path.{◌≡◌, refl, ap}
use mathlib.Core.Logic.{◌≢◌}
use mathlib.Core.List.{List, [], ◌∷◌, ◌++◌}
use mathlib.Core.Option.{some}
use native.Mathlib.Decide.{dec_lt}
use native.Mathlib.Omega.{arith}
use vibevoice_c.Common.Lists.{All, get_elem?, set, replicate}

module _ {ℓ} {A : Type ℓ} (f : A → ℕ) where
  abbrev pub sum_by : List A → ℕ
  sum_by [] = 0
  sum_by (x ∷ xs) = f x + sum_by xs

  -- Replacing one entry changes the sum by the difference of the two entries.
  pub sum_by-set :
      (xs : List A) (i : ℕ) (old new : A)
      → get_elem? xs i ≡ some old
      → sum_by (set xs i new) + f old ≡ sum_by xs + f new
  sum_by-set [] i old new e = cc
  sum_by-set (x ∷ xs) zero old new e = let p : f x ≡ f old = ap f (cc) in omega arith
  sum_by-set (x ∷ xs) (suc i) old new e = omega (arith, sum_by-set xs i old new e)

  -- A positive sum has a positive entry.
  pub sum_by_pos :
      (xs : List A) → 0 < sum_by xs → (i : ℕ) × (x : A) × (get_elem? xs i ≡ some x) × (0 < f x)
  sum_by_pos [] h = absurd (omega arith)
  sum_by_pos (x ∷ xs) h = elim (dec_lt 0 (f x)) [
    | yes p ↦ (0, x, refl, p)
    | no p ↦ (let (i, y, e, q) = sum_by_pos xs (omega arith) in (suc i, y, e, q))
  ]

  pub le-sum_by : (xs : List A) (i : ℕ) (x : A) → get_elem? xs i ≡ some x → f x ≤ sum_by xs
  le-sum_by [] i x e = cc
  le-sum_by (y ∷ xs) zero x e = let p : f y ≡ f x = ap f (cc) in omega arith
  le-sum_by (y ∷ xs) (suc i) x e = omega (arith, le-sum_by xs i x e)

  pub sum_by-zero : (xs : List A) → All (λ x. f x ≡ 0) xs → sum_by xs ≡ 0
  sum_by-zero [] h = refl
  sum_by-zero (x ∷ xs) h = omega (arith, h.0, sum_by-zero xs h.1)

  -- Two entries at different places count both.
  pub sum_by_two :
      (xs : List A) (i j : ℕ) (x y : A)
      → i ≢ j
      → get_elem? xs i ≡ some x
      → get_elem? xs j ≡ some y
      → f x + f y ≤ sum_by xs
  sum_by_two [] i j x y n e d = cc
  sum_by_two (z ∷ xs) zero zero x y n e d = absurd (n refl)
  sum_by_two (z ∷ xs) zero (suc j) x y n e d =
      let p : f z ≡ f x = ap f (cc) in omega (arith, le-sum_by xs j y d)
  sum_by_two (z ∷ xs) (suc i) zero x y n e d =
      let p : f z ≡ f y = ap f (cc) in omega (arith, le-sum_by xs i x e)
  sum_by_two (z ∷ xs) (suc i) (suc j) x y n e d =
      omega (arith, sum_by_two xs i j x y (λ p. n (ap suc p)) e d)

  pub sum_by-append : (xs ys : List A) → sum_by (xs ++ ys) ≡ sum_by xs + sum_by ys
  sum_by-append [] ys = omega arith
  sum_by-append (x ∷ xs) ys = omega (arith, sum_by-append xs ys)

  pub sum_by-replicate : (n : ℕ) (x : A) → f x ≡ 0 → sum_by (replicate n x) ≡ 0
  sum_by-replicate zero x e = refl
  sum_by-replicate (suc n) x e = omega (arith, sum_by-replicate n x e)

module _ {ℓ} {A : Type ℓ} (f g : A → ℕ) where
  -- A smaller sum is smaller at some entry.
  pub sum_by_lt :
      (xs : List A)
      → sum_by f xs < sum_by g xs
      → (i : ℕ) × (x : A) × (get_elem? xs i ≡ some x) × (f x < g x)
  sum_by_lt [] h = absurd (omega arith)
  sum_by_lt (x ∷ xs) h = elim (dec_lt (f x) (g x)) [
    | yes p ↦ (0, x, refl, p)
    | no p ↦ (let (i, y, e, q) = sum_by_lt xs (omega arith) in (suc i, y, e, q))
  ]

  -- Where one number is at most the other at every entry, the differences sum up.
  pub sum_by-sub :
      (xs : List A)
      → All (λ x. f x ≤ g x) xs
      → sum_by (λ x. g x - f x) xs + sum_by f xs ≡ sum_by g xs
  sum_by-sub [] h = refl
  sum_by-sub (x ∷ xs) h = omega (arith, h.0, sum_by-sub xs h.1)
