-- ===== src/KvPool/RoundTrip.antt =====
-- A reservation in src/inference/kv_cache.c that the device refuses: what it leaves in the pool.
use vibevoice_c.Common.{
  ℕ, zero, suc, ◌+◌, ◌-◌, ◌≤◌, ◌<◌, ◌≡◌, ◌≢◌, ◌∙◌, ap, refl, List, [], ◌∷◌, arith, length, get_or,
  set, length-set,
}
use native.Mathlib.Decide.{ℕ_discrete}
use vibevoice_c.KvPool.{Pool, take_pages, give_pages}

get_or-set_ne : (xs : List ℕ) (i j v : ℕ) → i ≢ j → get_or (set xs i v) j 0 ≡ get_or xs j 0
get_or-set_ne [] i j v h = refl
get_or-set_ne (x ∷ xs) zero zero v h = absurd (h refl)
get_or-set_ne (x ∷ xs) zero (suc j) v h = refl
get_or-set_ne (x ∷ xs) (suc i) zero v h = refl
get_or-set_ne (x ∷ xs) (suc i) (suc j) v h = get_or-set_ne xs i j v (λ e. h (ap suc e))

get_or-set_self : (xs : List ℕ) (i v : ℕ) → i < length xs → get_or (set xs i v) i 0 ≡ v
get_or-set_self [] i v h = absurd (omega arith)
get_or-set_self (x ∷ xs) zero v h = refl
get_or-set_self (x ∷ xs) (suc i) v h = get_or-set_self xs i v (omega arith)

set-get_or : (xs : List ℕ) (i v : ℕ) → i < length xs → v ≡ get_or xs i 0 → set xs i v ≡ xs
set-get_or [] i v h e = refl
set-get_or (x ∷ xs) zero v h e = ap (λ y. y ∷ xs) e
set-get_or (x ∷ xs) (suc i) v h e = ap (λ ys. x ∷ ys) (set-get_or xs i v (omega arith) e)

-- The loop that takes pages writes nothing below its start.
take_pages_below :
    (left at : ℕ) (p : Pool) (pages : List ℕ) (j : ℕ)
    → j < at
    → get_or (take_pages left at p pages).1 j 0 ≡ get_or pages j 0
unfolding take_pages
take_pages_below zero at p pages j h = refl
take_pages_below (suc left) at p pages j h =
    take_pages_below left (at + 1) _ _ j (omega arith) ∙ get_or-set_ne pages at j _ (omega arith)

-- Entry `at + k` is the element `k` below the top of the stack.
take_pages_entry :
    (left at : ℕ) (p : Pool) (pages : List ℕ) (m t : ℕ)
    → at ≤ m
    → m < at + left
    → at + left ≤ length pages
    → t ≡ p.n_free - 1 - (m - at)
    → get_or (take_pages left at p pages).1 m 0 ≡ get_or p.free_stack t 0
unfolding take_pages
take_pages_entry zero at p pages m t g h l e = absurd (omega arith)
take_pages_entry (suc left) at p pages m t g h l e = elim (ℕ_discrete m at) [
  | yes q ↦
      (let z : p.n_free - 1 ≡ t = omega arith in
        rw q (
          take_pages_below left (at + 1) _ _ at (omega arith)
          ∙ get_or-set_self pages at _ (omega arith)
          ∙ ap (λ (n : ℕ). get_or p.free_stack n 0) z))
  | no q ↦
      take_pages_entry left (at + 1) _ _ m t (omega arith) (omega arith)
        (omega (arith, length-set pages at (get_or p.free_stack (p.n_free - 1) 0))) (omega arith)
]

-- The loop that gives pages back writes what stands there already.
give_pages_same :
    (k base : ℕ) (p : Pool) (pages : List ℕ)
    → p.n_free + k ≤ length p.free_stack
    → ((j t : ℕ)
        → j < k
        → t ≡ p.n_free + k - 1 - j
        → get_or pages (base + j) 0 ≡ get_or p.free_stack t 0)
    → give_pages k base p pages ≡ record p { n_free = p.n_free + k }
unfolding give_pages
give_pages_same zero base p pages l same = ground arith
give_pages_same (suc k) base p pages l same =
    let e : set p.free_stack p.n_free (get_or pages (base + k) 0) ≡ p.free_stack =
      set-get_or p.free_stack p.n_free _ (omega arith)
        (same k p.n_free (omega arith) (omega arith)) in
    ap
      (λ (fs : List ℕ).
        give_pages k base (record p { free_stack = fs; n_free = p.n_free + 1 }) pages)
      e
    ∙ give_pages_same k base (record p { n_free = p.n_free + 1 }) pages (omega arith)
        (λ j t h q. same j t (omega arith) (omega arith))
    ∙ ground arith

take_pages_pool :
    (left at : ℕ) (p : Pool) (pages : List ℕ)
    → (take_pages left at p pages).0 ≡ record p { n_free = p.n_free - left }
unfolding take_pages
take_pages_pool zero at p pages = ground arith
take_pages_pool (suc left) at p pages = take_pages_pool left (at + 1) _ _ ∙ ground arith

-- Giving back what was taken: the pool is the one before, its free stack in the same order.
pub give-take :
    (need at : ℕ) (p : Pool) (pages : List ℕ)
    → need ≤ p.n_free
    → p.n_free ≤ length p.free_stack
    → at + need ≤ length pages
    → give_pages need at (take_pages need at p pages).0 (take_pages need at p pages).1 ≡ p
give-take need at p pages h k l = rw (take_pages_pool need at p pages) (
    give_pages_same need at (record p { n_free = p.n_free - need }) _ (omega arith)
      (λ j t q e.
        take_pages_entry need at p pages (at + j) t (omega arith) (omega arith) l (omega arith))
    ∙ ground arith)
