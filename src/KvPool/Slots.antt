-- ===== src/KvPool/Slots.antt =====
-- What is known of one cache of src/inference/kv_cache.c and of its thread, and how the counters of
-- the pool count it.
use vibevoice_c.Common.{
  ℕ, ap, ◌+◌, ◌≤◌, ◌<◌, ◌≡◌, Bool, true, false, ◌&&◌, arith, ◌==◌, indicator, take, length,
}
use vibevoice_c.KvPool.{Cache, page_count, holds}
use vibevoice_c.KvPool.System.{Slot, Phase, ready, waiting, mapping}
use vibevoice_c.KvPool.Pages.{count}

-- The entries of `pages` that the cache owns: those in use, and those being mapped.
abbrev pub owned_in : Cache → Phase → ℕ
owned_in c (mapping need) = c.n_pages + need
owned_in c _ = c.n_pages

abbrev pub owns : ℕ → Slot → ℕ
owns x slot = count x (take (owned_in slot.cache slot.phase) slot.cache.pages)

abbrev pub owned_len : Slot → ℕ
owned_len slot = owned_in slot.cache slot.phase

-- Whether `n_holders` counts the slot.
abbrev pub held_in : Cache → Phase → Bool
held_in c (mapping need) = true
held_in c _ = holds c

abbrev pub is_holder : Slot → ℕ
is_holder slot = indicator (held_in slot.cache slot.phase)

-- Whether `n_stalled` counts the slot, in the generation `g`.
abbrev pub stalled_in : ℕ → Phase → Bool
stalled_in g (waiting w) = w.counted && g == w.my_gen
stalled_in g _ = false

abbrev pub is_stalled : ℕ → Slot → ℕ
is_stalled g slot = indicator (stalled_in g slot.phase)

-- A cache as `vv_kv_cache_create_paged` makes it and the pool's functions leave it.
pub record IsCache (c : Cache) : Type 0 where
  pub array : length c.pages ≡ c.max_pages
  pub covers : c.max_pages ≡ page_count c.max_seq_len
  pub within : c.n_pages ≤ c.max_pages

-- What a thread in `reserve_pages` has asked for fits its cache; one that is counted as stalled
-- holds pages, and was counted in this generation or an earlier one.
abbrev pub PhaseFits : ℕ → Cache → Phase → Type 0
PhaseFits g c ready = Unit {0}
PhaseFits g c (waiting w) =
    (0 < w.need)
    × (c.n_pages + w.need ≤ c.max_pages)
    × (w.wait ≡ true)
    × (w.my_gen ≤ g)
    × (w.counted ≡ true → 0 < c.n_pages)
PhaseFits g c (mapping need) = (0 < need) × (c.n_pages + need ≤ c.max_pages)

pub record IsSlot (g : ℕ) (slot : Slot) : Type 0 where
  pub cache : IsCache slot.cache
  pub phase : PhaseFits g slot.cache slot.phase

PhaseFits-le : {g g' : ℕ} (c : Cache) (ph : Phase) → g ≤ g' → PhaseFits g c ph → PhaseFits g' c ph
PhaseFits-le c ready h f = f
PhaseFits-le c (waiting w) h f = (f.0, f.1, f.2, omega arith, f.4)
PhaseFits-le c (mapping need) h f = f

pub IsSlot-le : {g g' : ℕ} (slot : Slot) → g ≤ g' → IsSlot g slot → IsSlot g' slot
IsSlot-le slot h v = record {
  cache = v.cache;
  phase = PhaseFits-le slot.cache slot.phase h v.phase;
}

-- In a later generation no waiting thread is counted.
stalled_in_later :
    (g : ℕ) (c : Cache) (ph : Phase) → PhaseFits g c ph → stalled_in (g + 1) ph ≡ false
stalled_in_later g c ready f = ground arith
stalled_in_later g c (waiting w) f = ground arith
stalled_in_later g c (mapping need) f = ground arith

pub is_stalled_later : (g : ℕ) (slot : Slot) → IsSlot g slot → is_stalled (g + 1) slot ≡ 0
is_stalled_later g slot v = ap indicator (stalled_in_later g slot.cache slot.phase v.phase)
