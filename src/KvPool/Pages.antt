-- ===== src/KvPool/Pages.antt =====
-- How pages move between the free stack and the array of a cache: the loops of
-- src/inference/kv_cache.c neither lose nor double a page, and giving back undoes taking.
use vibevoice_c.Common.{
  ℕ, zero, suc, ◌+◌, ◌-◌, ◌≤◌, ◌<◌, ◌≡◌, ◌∙◌, ap, refl, List, [], ◌∷◌, arith, ◌==◌, indicator,
  sum_by, take, set, get_or, length, length-set,
}
use native.Mathlib.Numerals.{add-one}
use vibevoice_c.KvPool.{Pool, take_pages, give_pages}

abbrev pub count : ℕ → List ℕ → ℕ
count x xs = sum_by (λ y. indicator (y == x)) xs

abbrev pub free_pages : Pool → List ℕ
free_pages p = take p.n_free p.free_stack

count-take-suc :
    (x : ℕ) (xs : List ℕ) (m : ℕ)
    → m < length xs
    → count x (take (suc m) xs) ≡ count x (take m xs) + indicator (get_or xs m 0 == x)
count-take-suc x [] m h = absurd (omega arith)
count-take-suc x (y ∷ xs) zero h = omega arith
count-take-suc x (y ∷ xs) (suc m) h = omega (arith, count-take-suc x xs m (omega arith))

take-set_ge : (xs : List ℕ) (m i v : ℕ) → m ≤ i → take m (set xs i v) ≡ take m xs
take-set_ge xs zero i v h = refl
take-set_ge [] (suc m) i v h = refl
take-set_ge (x ∷ xs) (suc m) zero v h = absurd (omega arith)
take-set_ge (x ∷ xs) (suc m) (suc i) v h = ap (λ ys. x ∷ ys) (take-set_ge xs m i v (omega arith))

get_or-set_self : (xs : List ℕ) (i v : ℕ) → i < length xs → get_or (set xs i v) i 0 ≡ v
get_or-set_self [] i v h = absurd (omega arith)
get_or-set_self (x ∷ xs) zero v h = refl
get_or-set_self (x ∷ xs) (suc i) v h = get_or-set_self xs i v (omega arith)

-- Writing the element just past the first `m` adds it to them.
count-push :
    (x : ℕ) (xs : List ℕ) (m v : ℕ)
    → m < length xs
    → count x (take (m + 1) (set xs m v)) ≡ count x (take m xs) + indicator (v == x)
count-push x xs m v h = rw add-one (
    omega (
      arith,
      count-take-suc x (set xs m v) m (omega (arith, length-set xs m v)),
      ap (λ (y : ℕ). indicator (y == x)) (get_or-set_self xs m v h),
      ap (count x) (take-set_ge xs m m v (omega arith)),
    ))

-- What the loop that takes pages does to the pool, and that every page stays where it can be found.
pub record Took (left at : ℕ) (p : Pool) (pages : List ℕ) (out : Pool × List ℕ) : Type 0 where
  pub pool : out.0 ≡ record p { n_free = p.n_free - left }
  pub room : length out.1 ≡ length pages
  pub moved :
      (x : ℕ)
      → count x (free_pages out.0) + count x (take (at + left) out.1)
        ≡ count x (free_pages p) + count x (take at pages)

-- The page on top of the stack, and the pool without it.
abbrev top : Pool → ℕ
top p = get_or p.free_stack (p.n_free - 1) 0

abbrev popped : Pool → Pool
popped p = record p { n_free = p.n_free - 1 }

count-popped :
    (x : ℕ) (p : Pool)
    → 0 < p.n_free
    → p.n_free ≤ length p.free_stack
    → count x (free_pages (popped p)) + indicator (top p == x) ≡ count x (free_pages p)
count-popped x p h k =
    let e : p.n_free ≡ suc (p.n_free - 1) = omega arith in
    omega (
      arith,
      count-take-suc x p.free_stack (p.n_free - 1) (omega arith),
      ap (λ (n : ℕ). count x (take n p.free_stack)) e,
    )

Took-suc :
    (left at : ℕ) (p : Pool) (pages : List ℕ) (out : Pool × List ℕ)
    → 0 < p.n_free
    → p.n_free ≤ length p.free_stack
    → at < length pages
    → Took left (at + 1) (popped p) (set pages at (top p)) out
    → Took (suc left) at p pages out
Took-suc left at p pages out h k l rest =
    let shift : at + 1 + left ≡ at + suc left = omega arith in
    record {
      pool = rest.pool ∙ ground arith;
      room = rest.room ∙ length-set pages at (top p);
      moved = λ x. omega (
        arith,
        rest.moved x,
        count-popped x p h k,
        count-push x pages at (top p) l,
        ap (λ (n : ℕ). count x (take n out.1)) shift,
      );
    }

pub take_pages-Took :
    (left at : ℕ) (p : Pool) (pages : List ℕ)
    → left ≤ p.n_free
    → p.n_free ≤ length p.free_stack
    → at + left ≤ length pages
    → Took left at p pages (take_pages left at p pages)
unfolding take_pages
take_pages-Took zero at p pages h k l = record {
  pool = ground arith;
  room = refl;
  moved = λ x. ground arith;
}
take_pages-Took (suc left) at p pages h k l =
    Took-suc left at p pages _ (omega arith) k (omega arith) (
      take_pages-Took left (at + 1) (popped p) (set pages at (top p)) (omega arith) (omega arith)
        (omega (arith, length-set pages at (top p))))

-- What the loop that gives pages back does to the pool.
pub record Gave (k base : ℕ) (p : Pool) (pages : List ℕ) (out : Pool) : Type 0 where
  pub free : out.n_free ≡ p.n_free + k
  pub room : length out.free_stack ≡ length p.free_stack
  pub rest : out ≡ record p { free_stack = out.free_stack; n_free = out.n_free }
  pub moved :
      (x : ℕ)
      → count x (free_pages out) + count x (take base pages)
        ≡ count x (free_pages p) + count x (take (base + k) pages)

abbrev pushed : Pool → ℕ → Pool
pushed p v = record p { free_stack = set p.free_stack p.n_free v; n_free = p.n_free + 1 }

count-pushed :
    (x : ℕ) (p : Pool) (v : ℕ)
    → p.n_free < length p.free_stack
    → count x (free_pages (pushed p v)) ≡ count x (free_pages p) + indicator (v == x)
count-pushed x p v h = count-push x p.free_stack p.n_free v h

Gave-suc :
    (i base : ℕ) (p : Pool) (pages : List ℕ) (out : Pool)
    → p.n_free < length p.free_stack
    → base + i < length pages
    → Gave i base (pushed p (get_or pages (base + i) 0)) pages out
    → Gave (suc i) base p pages out
Gave-suc i base p pages out h k g =
    let shift : base + suc i ≡ suc (base + i) = omega arith in
    record {
      free = omega (arith, g.free);
      room = g.room ∙ length-set p.free_stack p.n_free (get_or pages (base + i) 0);
      rest = ground (arith, g.rest);
      moved = λ x. omega (
        arith,
        g.moved x,
        count-pushed x p (get_or pages (base + i) 0) h,
        count-take-suc x pages (base + i) k,
        ap (λ (n : ℕ). count x (take n pages)) shift,
      );
    }

pub give_pages-Gave :
    (k base : ℕ) (p : Pool) (pages : List ℕ)
    → p.n_free + k ≤ length p.free_stack
    → base + k ≤ length pages
    → Gave k base p pages (give_pages k base p pages)
unfolding give_pages
give_pages-Gave zero base p pages h l = record {
  free = omega arith;
  room = refl;
  rest = refl;
  moved = λ x. ground arith;
}
give_pages-Gave (suc i) base p pages h l = Gave-suc i base p pages _ (omega arith) (omega arith) (
    give_pages-Gave i base (pushed p (get_or pages (base + i) 0)) pages
      (omega (arith, length-set p.free_stack p.n_free (get_or pages (base + i) 0))) (omega arith))
