-- ===== src/KvPool/Rounds.antt =====
-- One round of the loop of `reserve_pages` in src/inference/kv_cache.c keeps the pool sound.
use vibevoice_c.Common.{
  ℕ, ◌+◌, ◌-◌, ◌≤◌, ◌<◌, ◌≡◌, ◌∙◌, ap, refl, true, false, not, ◌&&◌, ◌||◌, some, arith, leb,
  indicator, take, length, get_elem?, inl, inr, Bool-cases, le-sum_by, kv_pool_exhausted,
}
use vibevoice_c.KvPool.{
  Pool, Wait, taken, grab, round, holds, hopeless, still_counted, surrender, stall,
}
use vibevoice_c.KvPool.System.{Slot, System, ready, put, try_round, after_round}
use vibevoice_c.KvPool.Pages.{count, Took, take_pages-Took}
use vibevoice_c.KvPool.Slots.{owns, owned_len, is_holder, is_stalled, IsCache}
use vibevoice_c.KvPool.Invariant.{IsSound, put-IsSound}

-- A slot whose thread is about to run a round with `w`.
pub record Enters (p : Pool) (slot : Slot) (w : Wait) : Type 0 where
  pub cache : IsCache slot.cache
  pub some_need : 0 < w.need
  pub fits : slot.cache.n_pages + w.need ≤ slot.cache.max_pages
  pub earlier : w.my_gen ≤ p.stall_gen
  pub counted_holds : w.counted ≡ true → 0 < slot.cache.n_pages
  pub owned : (x : ℕ) → owns x slot ≡ count x (take slot.cache.n_pages slot.cache.pages)
  pub owned_count : owned_len slot ≡ slot.cache.n_pages
  pub held : is_holder slot ≡ indicator (holds slot.cache)
  pub counts : is_stalled p.stall_gen slot ≡ indicator (still_counted p w)

module _ (s : System) (i : ℕ) (slot : Slot) (w : Wait) (at : get_elem? s.slots i ≡ some slot)
    (v : IsSound s) (e : Enters s.pool slot w) where
  holder_counted : is_holder slot ≤ s.pool.n_holders
  holder_counted = omega (arith, le-sum_by is_holder s.slots i slot at, v.holders)

  stalled_counted : is_stalled s.pool.stall_gen slot ≤ s.pool.n_stalled
  stalled_counted =
      omega (arith, le-sum_by (is_stalled s.pool.stall_gen) s.slots i slot at, v.stalled)

  surrender-IsSound :
      IsSound
        (put s i (surrender s.pool w) (record slot { phase = ready; reply = kv_pool_exhausted }))
  surrender-IsSound =
      put-IsSound s i at v (surrender s.pool w) _ refl v.array (omega (arith, e.owned_count)) refl
        (record { cache = e.cache; phase = tt }) (λ x. ground (arith, e.owned x))
        (omega (arith, e.held)) (omega (arith, e.counts, stalled_counted))
        (omega (arith, v.one_runs))

  -- Counting the caller leaves another holder that is not stalled.
  stall-IsSound :
      w.wait ≡ true
      → hopeless s.pool slot.cache w.need (still_counted s.pool w) ≡ false
      → IsSound (after_round s i slot w.need (stall s.pool slot.cache w))
  unfolding after_round
  stall-IsSound h k = elim (Bool-cases (holds slot.cache && not (still_counted s.pool w))) [
    | inl t ↦ rw t (
        put-IsSound s i at v _ _ refl v.array (omega (arith, e.owned_count)) refl
          (record {
            cache = e.cache;
            phase = (e.some_need, e.fits, h, omega arith, λ x. ground arith);
          })
          (λ x. ground (arith, e.owned x)) (omega (arith, e.held)) (ground (arith, e.counts))
          (ground (arith, v.one_runs)))
    | inr f ↦ rw f (
        put-IsSound s i at v _ _ refl v.array (omega (arith, e.owned_count)) refl
          (record {
            cache = e.cache;
            phase = (e.some_need, e.fits, h, e.earlier, λ x. e.counted_holds (ground arith));
          })
          (λ x. ground (arith, e.owned x)) (omega (arith, e.held)) (ground (arith, e.counts))
          v.one_runs)
  ]

  -- The pool whose pages are taken.
  entered : Pool
  entered = record s.pool {
    n_stalled = s.pool.n_stalled - indicator (still_counted s.pool w);
    n_holders = s.pool.n_holders + indicator (not (holds slot.cache));
  }

  grab-Took :
      w.need ≤ s.pool.n_free
      → Took w.need slot.cache.n_pages entered slot.cache.pages (grab s.pool slot.cache w)
  unfolding grab entered
  grab-Took h =
      take_pages-Took w.need slot.cache.n_pages _ slot.cache.pages h
        (omega (arith, v.array, v.within)) (omega (arith, e.fits, e.cache.array))

  grab-IsSound :
      w.need ≤ s.pool.n_free
      → IsSound
          (let (p, pages) = grab s.pool slot.cache w in after_round s i slot w.need (taken p pages))
  unfolding after_round entered
  grab-IsSound h =
      let t = grab-Took h in
      put-IsSound s i at v _ _ (ap (λ (p : Pool). p.n_pages) t.pool)
        (ap (λ (p : Pool). length p.free_stack) t.pool ∙ v.array)
        (omega (arith, ap (λ (p : Pool). p.n_free) t.pool, e.owned_count))
        (ap (λ (p : Pool). p.stall_gen) t.pool)
        (record {
          cache = record {
            array = t.room ∙ e.cache.array;
            covers = e.cache.covers;
            within = e.cache.within;
          };
          phase = (e.some_need, e.fits);
        })
        (λ x. ground (arith, e.owned x, t.moved x))
        (ground (arith, ap (λ (p : Pool). p.n_holders) t.pool, e.held))
        (ground (
          arith,
          ap (λ (p : Pool). p.n_stalled) t.pool,
          ap (λ (p : Pool). is_stalled p.stall_gen slot) t.pool,
          e.counts,
          stalled_counted,
        ))
        (ground (
          arith,
          ap (λ (p : Pool). p.n_stalled) t.pool,
          ap (λ (p : Pool). p.n_holders) t.pool,
          e.held,
          v.one_runs,
          holder_counted,
        ))

  pub try_round-IsSound : IsSound (try_round s i slot w)
  unfolding try_round round after_round put
  try_round-IsSound = elim (Bool-cases (leb w.need s.pool.n_free)) [
    | inl t ↦ rw t (grab-IsSound (ground arith))
    | inr f ↦
        elim (Bool-cases
          (not w.wait || hopeless s.pool slot.cache w.need (still_counted s.pool w))) [
            | inl g ↦ rw (f, g) surrender-IsSound
            | inr n ↦ rw (f, n) (stall-IsSound (ground arith) (ground arith))
          ]
  ]
