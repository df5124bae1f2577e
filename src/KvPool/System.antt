-- ===== src/KvPool/System.antt =====
-- The caches that share one pool of src/inference/kv_cache.c, each used by a thread of its own, and
-- their interleavings.
use vibevoice_c.Common.{ℕ, Bool, Option, none, some, List, [], ◌∷◌, get_elem?, set}
use vibevoice_c.Common.{Status, ok, kv_pool_exhausted}
use vibevoice_c.KvPool.{
  Pool, Cache, Wait, Entry, answer, lock, Round, taken, gave_up, blocked, reserve_entry, round,
  keep, undo, release,
}

-- Where the thread of a cache stands: outside the pool's functions, in `vv_cond_wait` of
-- `reserve_pages`, or at its call of `vv_kv_page_map_dev` for so many new pages.
pub data Phase : Type 0 where
  ready : Phase
  waiting : Wait → Phase
  mapping : ℕ → Phase

pub record Slot : Type 0 where
  pub cache : Cache
  pub phase : Phase
  -- The status of the last call that returned.
  pub reply : Status

pub record System : Type 0 where
  pub pool : Pool
  pub slots : List Slot

-- A call of `vv_kv_cache_reserve` or `vv_kv_cache_reserve_wait` for positions `[0, n)`; a waiting
-- thread runs again, after a broadcast or for no reason; the device answers; a call of
-- `vv_kv_cache_release`.
pub data Event : Type 0 where
  reserve : ℕ → ℕ → Bool → Event
  wake : ℕ → Event
  mapped : ℕ → Status → Event
  give_back : ℕ → Event

unfoldable pub put : System → ℕ → Pool → Slot → System
put s i p slot = record { pool = p; slots = set s.slots i slot }

-- What a round leaves behind in slot `i`.
unfoldable pub after_round : System → ℕ → Slot → ℕ → Round → System
unfolding put
after_round s i slot need (taken p pages) =
    put s i p (record slot { cache = record slot.cache { pages = pages }; phase = mapping need })
after_round s i slot need (gave_up p) =
    put s i p (record slot { phase = ready; reply = kv_pool_exhausted })
after_round s i slot need (blocked p w) = put s i p (record slot { phase = waiting w })

unfoldable pub try_round : System → ℕ → Slot → Wait → System
try_round s i slot w = after_round s i slot w.need (round s.pool slot.cache w)

unfoldable pub after_entry : System → ℕ → Slot → Entry → System
after_entry s i slot (answer r) = put s i s.pool (record slot { reply = r })
after_entry s i slot (lock w) = try_round s i slot w

unfoldable pub after_map : System → ℕ → Slot → ℕ → Status → System
after_map s i slot need Status.ok =
    put s i s.pool (record slot { cache = keep slot.cache need; phase = ready; reply = ok })
after_map s i slot need r =
    put s i (undo s.pool slot.cache need) (record slot { phase = ready; reply = r })

unfoldable pub after_release : System → ℕ → Slot → System
after_release s i slot =
    let (p, c) = release s.pool slot.cache in put s i p (record slot { cache = c })

-- What an event does to a slot in the given phase; an event that does not fit does nothing.
unfoldable pub dispatch : Event → Slot → Phase → System → System
dispatch (reserve i n wait) slot ready s = after_entry s i slot (reserve_entry slot.cache n wait)
dispatch (wake i) slot (waiting w) s = try_round s i slot w
dispatch (mapped i r) slot (mapping need) s = after_map s i slot need r
dispatch (give_back i) slot ready s = after_release s i slot
dispatch _ _ _ s = s

abbrev pub subject : Event → ℕ
subject (reserve i n wait) = i
subject (wake i) = i
subject (mapped i r) = i
subject (give_back i) = i

unfoldable pub on_slot : Event → Option Slot → System → System
on_slot e none s = s
on_slot e (some slot) s = dispatch e slot slot.phase s

unfoldable pub step : System → Event → System
step s e = on_slot e (get_elem? s.slots (subject e)) s

unfoldable pub run : System → List Event → System
run s [] = s
run s (e ∷ es) = run (step s e) es
