-- ===== src/KvPool/Progress.antt =====
-- What the callers of src/inference/kv_cache.c rely on, whatever the caches do: the owners of the pages,
-- their number, and the holders that wait.
use vibevoice_c.Common.{
  ℕ, zero, suc, ◌+◌, ◌^◌, ◌<◌, ◌≡◌, ◌≢◌, ap, refl, true, false, some, List, [], ◌∷◌, arith, ltb,
  indicator, length, get_elem?, Status, map, All, sum_by, sum_by_two, sum_by_lt, take-of_length,
  length-replicate,
}
use vibevoice_c.KvPool.{create, create_paged, descending}
use vibevoice_c.KvPool.System.{Slot, System, ready, Event, run}
use vibevoice_c.KvPool.Pages.{count, free_pages}
use vibevoice_c.KvPool.Slots.{owns, owned_len, is_holder, is_stalled, held_in, stalled_in, IsSlot}
use vibevoice_c.KvPool.Invariant.{IsSound}
use vibevoice_c.KvPool.Generations.{run-IsSound}

-- A fresh pool of `n_pages` pages, and a fresh cache for each window in the list.
abbrev pub fresh : ℕ → Slot
fresh max_seq_len = record { cache = create_paged max_seq_len; phase = ready; reply = Status.ok }

abbrev pub start : ℕ → List ℕ → System
start n_pages windows = record { pool = create n_pages; slots = map fresh windows }

length-descending : (n : ℕ) → length (descending n) ≡ n
unfolding descending
length-descending zero = refl
length-descending (suc n) = ap suc (length-descending n)

count-descending : (x n : ℕ) → count x (descending n) ≡ indicator (ltb x n)
unfolding descending
count-descending x zero = ground arith
count-descending x (suc n) = ground (arith, count-descending x n)

-- Nothing is owned, held or stalled in fresh slots.
fresh_sums :
    (f : Slot → ℕ)
    → ((m : ℕ) → f (fresh m) ≡ 0)
    → (windows : List ℕ) → sum_by f (map fresh windows) ≡ 0
fresh_sums f z [] = refl
fresh_sums f z (m ∷ ms) = omega (arith, z m, fresh_sums f z ms)

fresh-IsSlot : (windows : List ℕ) → All (IsSlot 0) (map fresh windows)
unfolding create_paged
fresh-IsSlot [] = tt
fresh-IsSlot (m ∷ ms) = (
  record {
    cache = record { array = length-replicate _ 0; covers = refl; within = omega arith };
    phase = tt;
  },
  fresh-IsSlot ms,
)

pub start-IsSound : (n_pages : ℕ) (windows : List ℕ) → IsSound (start n_pages windows)
unfolding create create_paged
start-IsSound n windows = record {
  array = length-descending n;
  within = omega arith;
  conserved = omega (arith, fresh_sums owned_len (λ m. refl) windows);
  slots_fit = fresh-IsSlot windows;
  once = λ x.
      rw (take-of_length n (descending n) (omega (arith, length-descending n)))
        (omega (arith, count-descending x n, fresh_sums (owns x) (λ m. refl) windows));
  holders = fresh_sums is_holder (λ m. refl) windows;
  stalled = fresh_sums (is_stalled 0) (λ m. refl) windows;
  one_runs = omega arith;
}

-- Whatever the slots do in fewer than 2 ^ 32 events, a page that a cache owns, or is about to map,
-- is owned once, by no other cache, and is not on the free stack.
pub page_has_one_owner :
    (n_pages x i j : ℕ) (windows : List ℕ) (es : List Event) {si sj : Slot}
    → length es < 2 ^ 32
    → i ≢ j
    → get_elem? (run (start n_pages windows) es).slots i ≡ some si
    → get_elem? (run (start n_pages windows) es).slots j ≡ some sj
    → 0 < owns x si
    → (owns x si ≡ 1)
      × (owns x sj ≡ 0)
      × (count x (free_pages (run (start n_pages windows) es).pool) ≡ 0)
unfolding create
page_has_one_owner n x i j windows es {si} {sj} h ne ai aj o =
    let s = run (start n windows) es in
    let v = run-IsSound es (omega (arith, h)) (start-IsSound n windows) in
    let both = sum_by_two (owns x) s.slots i j si sj ne ai aj in ground (arith, v.once x, both)

-- Whatever the slots do in fewer than 2 ^ 32 events, the free pages and those that the caches own
-- are together as many as the `n_pages` of the pool.
pub no_page_is_lost :
    (n_pages : ℕ) (windows : List ℕ) (es : List Event)
    → length es < 2 ^ 32
    → let s = run (start n_pages windows) es in
      s.pool.n_free + sum_by owned_len s.slots ≡ s.pool.n_pages
unfolding create
no_page_is_lost n windows es h =
    (run-IsSound es (omega (arith, h)) (start-IsSound n windows)).conserved

-- Whatever the caches have done since the start, in fewer than 2 ^ 32 steps: if some cache holds pages,
-- one of those that do is not stalled, that is, it does not sleep in `reserve_pages` counted for the
-- present `stall_gen`. So the holders never all wait for one another.
pub one_holder_is_not_stalled :
    (n_pages : ℕ) (windows : List ℕ) (es : List Event)
    → length es < 2 ^ 32
    → 0 < sum_by is_holder (run (start n_pages windows) es).slots
    → let s = run (start n_pages windows) es in
      (i : ℕ) × (slot : Slot) × (get_elem? s.slots i ≡ some slot)
      × (held_in slot.cache slot.phase ≡ true)
      × (stalled_in s.pool.stall_gen slot.phase ≡ false)
unfolding create
one_holder_is_not_stalled n windows es h k =
    let s = run (start n windows) es in
    let v = run-IsSound es (omega (arith, h)) (start-IsSound n windows) in
    let (i, slot, at, lt) =
      sum_by_lt (is_stalled s.pool.stall_gen) is_holder s.slots
        (omega (arith, v.holders, v.stalled, v.one_runs, k)) in
    (i, slot, at, ground arith, ground arith)
