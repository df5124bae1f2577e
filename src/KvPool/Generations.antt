-- ===== src/KvPool/Generations.antt =====
-- `stall_gen` of src/inference/kv_cache.c grows by at most one with each event, so that a run of
-- fewer than 2 ^ 32 events keeps the pool sound.
use vibevoice_c.Common.{
  ℕ, zero, suc, ◌+◌, ◌^◌, ◌≤◌, ◌<◌, ◌≡◌, refl, not, ◌&&◌, ◌||◌, some, none, Option, List, [], ◌∷◌,
  arith, leb, get_elem?, inl, inr, Status, Bool-cases, length,
}
use vibevoice_c.KvPool.{
  Pool, Wait, Entry, answer, lock, reserve_entry, take_pages, give_pages, grab, round, undo,
  release, holds, hopeless, still_counted,
}
use vibevoice_c.KvPool.System.{
  Slot, Phase, System, ready, waiting, mapping, put, Event, reserve, wake, mapped, give_back,
  try_round, after_round, after_entry, after_map, after_release, dispatch, on_slot, subject, step,
  run,
}
use vibevoice_c.KvPool.Invariant.{IsSound}
use vibevoice_c.KvPool.Reach.{step-IsSound}

take_pages-stall_gen :
    (left at : ℕ) (p : Pool) (pages : List ℕ)
    → (take_pages left at p pages).0.stall_gen ≡ p.stall_gen
unfolding take_pages
take_pages-stall_gen zero at p pages = refl
take_pages-stall_gen (suc left) at p pages = take_pages-stall_gen left (at + 1) _ _

give_pages-stall_gen :
    (k base : ℕ) (p : Pool) (pages : List ℕ) → (give_pages k base p pages).stall_gen ≡ p.stall_gen
unfolding give_pages
give_pages-stall_gen zero base p pages = refl
give_pages-stall_gen (suc k) base p pages = give_pages-stall_gen k base _ pages

try_round-stall_gen :
    (s : System) (i : ℕ) (slot : Slot) (w : Wait)
    → (try_round s i slot w).pool.stall_gen ≡ s.pool.stall_gen
unfolding try_round round after_round put grab
try_round-stall_gen s i slot w = elim (Bool-cases (leb w.need s.pool.n_free)) [
  | inl t ↦ rw t (take_pages-stall_gen w.need slot.cache.n_pages _ slot.cache.pages)
  | inr f ↦
      elim (Bool-cases (not w.wait || hopeless s.pool slot.cache w.need (still_counted s.pool w))) [
        | inl g ↦ rw (f, g)
        | inr g ↦ elim (Bool-cases (holds slot.cache && not (still_counted s.pool w))) [
          | inl h ↦ rw (f, g, h)
          | inr h ↦ rw (f, g, h)
        ]
      ]
]

after_entry-stall_gen :
    (s : System) (i : ℕ) (slot : Slot) (e : Entry)
    → (after_entry s i slot e).pool.stall_gen ≡ s.pool.stall_gen
unfolding after_entry put
after_entry-stall_gen s i slot (answer r) = refl
after_entry-stall_gen s i slot (lock w) = try_round-stall_gen s i slot w

after_map-stall_gen :
    (s : System) (i need : ℕ) (slot : Slot) (r : Status)
    → (after_map s i slot need r).pool.stall_gen ≤ s.pool.stall_gen + 1
unfolding after_map put undo
after_map-stall_gen s i need slot Status.ok = omega arith
after_map-stall_gen s i need slot r =
    omega (arith, give_pages-stall_gen need slot.cache.n_pages s.pool slot.cache.pages)

after_release-stall_gen :
    (s : System) (i : ℕ) (slot : Slot)
    → (after_release s i slot).pool.stall_gen ≤ s.pool.stall_gen + 1
unfolding after_release put release
after_release-stall_gen s i slot =
    ground (arith, give_pages-stall_gen slot.cache.n_pages 0 s.pool slot.cache.pages)

dispatch-stall_gen :
    (e : Event) (slot : Slot) (ph : Phase) (s : System)
    → (dispatch e slot ph s).pool.stall_gen ≤ s.pool.stall_gen + 1
unfolding dispatch
dispatch-stall_gen (reserve i n wait) slot ready s =
    omega (arith, after_entry-stall_gen s i slot (reserve_entry slot.cache n wait))
dispatch-stall_gen (wake i) slot (waiting w) s = omega (arith, try_round-stall_gen s i slot w)
dispatch-stall_gen (mapped i r) slot (mapping need) s = after_map-stall_gen s i need slot r
dispatch-stall_gen (give_back i) slot ready s = after_release-stall_gen s i slot
dispatch-stall_gen _ _ _ s = omega arith

step-stall_gen : (s : System) (e : Event) → (step s e).pool.stall_gen ≤ s.pool.stall_gen + 1
unfolding step on_slot
step-stall_gen s e = go (get_elem? s.slots (subject e))
  where
    go : (o : Option Slot) → (on_slot e o s).pool.stall_gen ≤ s.pool.stall_gen + 1
    go none = omega arith
    go (some slot) = dispatch-stall_gen e slot slot.phase s

pub run-IsSound :
    (es : List Event) {s : System}
    → s.pool.stall_gen + length es < 2 ^ 32
    → IsSound s
    → IsSound (run s es)
unfolding run
run-IsSound [] h v = v
run-IsSound (e ∷ es) {s} h v =
    run-IsSound es (omega (arith, step-stall_gen s e)) (step-IsSound e (omega arith) v)
