-- ===== src/KvPool/Invariant.antt =====
-- What holds of the pool of src/inference/kv_cache.c and its caches between two atomic sections.
use vibevoice_c.Common.{
  ℕ, max, ◌+◌, ◌≤◌, ◌<◌, ◌≡◌, ◌∙◌, ap, some, arith, ltb, indicator, length, get_elem?, All, All-set,
  All-get_elem?, sum_by, sum_by-set, sum_by-zero, All-imp, sym,
}
use vibevoice_c.KvPool.{Pool}
use vibevoice_c.KvPool.System.{Slot, System, put}
use vibevoice_c.KvPool.Pages.{count, free_pages}
use vibevoice_c.KvPool.Slots.{
  owns, owned_len, is_holder, is_stalled, IsSlot, IsSlot-le, is_stalled_later,
}

-- Every page is free or owned by one cache, once; the counters count the slots; and as long as a
-- cache holds pages, one holder is not stalled (and without holders nothing is stalled).
pub record IsSound (s : System) : Type 0 where
  pub array : length s.pool.free_stack ≡ s.pool.n_pages
  pub within : s.pool.n_free ≤ s.pool.n_pages
  pub conserved : s.pool.n_free + sum_by owned_len s.slots ≡ s.pool.n_pages
  pub slots_fit : All (IsSlot s.pool.stall_gen) s.slots
  pub once :
      (x : ℕ)
      → count x (free_pages s.pool) + sum_by (owns x) s.slots ≡ indicator (ltb x s.pool.n_pages)
  pub holders : sum_by is_holder s.slots ≡ s.pool.n_holders
  pub stalled : sum_by (is_stalled s.pool.stall_gen) s.slots ≡ s.pool.n_stalled
  pub one_runs : s.pool.n_stalled < max s.pool.n_holders 1

module _ (s : System) (i : ℕ) {old : Slot} (at : get_elem? s.slots i ≡ some old)
    (v : IsSound s) where
  -- The slot that an event is about fits.
  pub IsSlot-fits : IsSlot s.pool.stall_gen old
  IsSlot-fits = All-get_elem? (IsSlot s.pool.stall_gen) s.slots i v.slots_fit at

  -- A change of the pool and of one slot in the same generation.
  pub put-IsSound :
      (p : Pool) (new : Slot)
      → p.n_pages ≡ s.pool.n_pages
      → length p.free_stack ≡ s.pool.n_pages
      → p.n_free + owned_len new ≡ s.pool.n_free + owned_len old
      → p.stall_gen ≡ s.pool.stall_gen
      → IsSlot p.stall_gen new
      → ((x : ℕ) → count x (free_pages p) + owns x new ≡ count x (free_pages s.pool) + owns x old)
      → p.n_holders + is_holder old ≡ s.pool.n_holders + is_holder new
      → p.n_stalled + is_stalled p.stall_gen old ≡ s.pool.n_stalled + is_stalled p.stall_gen new
      → p.n_stalled < max p.n_holders 1
      → IsSound (put s i p new)
  unfolding put
  put-IsSound p new np len nf gen fit once hold stall runs = record {
    array = len ∙ sym np;
    within = omega (arith, nf, v.conserved, sum_by-set owned_len s.slots i old new at);
    conserved = omega (arith, nf, v.conserved, sum_by-set owned_len s.slots i old new at);
    slots_fit = All-set (IsSlot p.stall_gen) s.slots i new fit (rw gen v.slots_fit);
    once = λ x. ground (arith, once x, v.once x, sum_by-set (owns x) s.slots i old new at);
    holders = omega (arith, sum_by-set is_holder s.slots i old new at, v.holders);
    stalled = omega (
      arith,
      stall,
      sum_by-set (is_stalled p.stall_gen) s.slots i old new at,
      ap (λ (g : ℕ). sum_by (is_stalled g) s.slots) gen,
      v.stalled,
    );
    one_runs = runs;
  }

  -- A change of the pool that begins a new generation, and of one slot that is not waiting after it.
  pub put-IsSound_woken :
      (p : Pool) (new : Slot)
      → p.n_pages ≡ s.pool.n_pages
      → length p.free_stack ≡ s.pool.n_pages
      → p.n_free + owned_len new ≡ s.pool.n_free + owned_len old
      → p.stall_gen ≡ s.pool.stall_gen + 1
      → IsSlot p.stall_gen new
      → ((x : ℕ) → count x (free_pages p) + owns x new ≡ count x (free_pages s.pool) + owns x old)
      → p.n_holders + is_holder old ≡ s.pool.n_holders + is_holder new
      → p.n_stalled ≡ 0
      → is_stalled (s.pool.stall_gen + 1) new ≡ 0
      → IsSound (put s i p new)
  unfolding put
  put-IsSound_woken p new np len nf gen fit once hold none_stalled awake = record {
    array = len ∙ sym np;
    within = omega (arith, nf, v.conserved, sum_by-set owned_len s.slots i old new at);
    conserved = omega (arith, nf, v.conserved, sum_by-set owned_len s.slots i old new at);
    slots_fit =
        All-set (IsSlot p.stall_gen) s.slots i new fit
          (All-imp s.slots (λ x f. IsSlot-le x (omega arith) f) v.slots_fit);
    once = λ x. ground (arith, once x, v.once x, sum_by-set (owns x) s.slots i old new at);
    holders = omega (arith, sum_by-set is_holder s.slots i old new at, v.holders);
    stalled =
        rw (gen, none_stalled)
          (sum_by-zero (is_stalled (s.pool.stall_gen + 1)) _ (
            All-set (λ x. is_stalled (s.pool.stall_gen + 1) x ≡ 0) s.slots i new awake
              (All-imp s.slots (λ x f. is_stalled_later s.pool.stall_gen x f) v.slots_fit)));
    one_runs = omega arith;
  }
