-- ===== src/KvPool/Reach.antt =====
-- Every interleaving of the calls of src/inference/kv_cache.c keeps the pool sound.
use vibevoice_c.Common.{
  ℕ, ◌+◌, ◌-◌, ◌^◌, ◌≤◌, ◌<◌, ◌≡◌, ◌∙◌, ap, refl, Bool, false, some, none, Option, arith, ltb, leb,
  ◌==◌, take, length, if◌then◌else◌, get_elem?, ◌⊎◌, inl, inr, ◌≢◌, set-same, le-sum_by, Status,
  Bool-cases,
}
use vibevoice_c.KvPool.{
  Pool, Cache, Wait, answer, lock, reserve_entry, return_pages, keep, undo, release, page_count,
}
use vibevoice_c.KvPool.System.{
  Slot, Phase, System, ready, waiting, mapping, put, Event, reserve, wake, mapped, give_back,
  try_round, after_entry, after_map, after_release, dispatch, on_slot, subject, step,
}
use vibevoice_c.KvPool.Pages.{count, give_pages-Gave}
use vibevoice_c.KvPool.Slots.{owned_len, is_holder}
use vibevoice_c.KvPool.Invariant.{IsSound, IsSlot-fits, put-IsSound, put-IsSound_woken}
use vibevoice_c.KvPool.Rounds.{try_round-IsSound}

-- An answer that only sets the reply.
reply-IsSound :
    (s : System) (i : ℕ) (slot : Slot) (r : Status)
    → get_elem? s.slots i ≡ some slot
    → slot.phase ≡ ready
    → IsSound s
    → IsSound (put s i s.pool (record slot { reply = r }))
reply-IsSound s i slot r at e v =
    put-IsSound s i at v s.pool _ refl v.array refl refl
      (record { cache = (IsSlot-fits s i at v).cache; phase = (IsSlot-fits s i at v).phase })
      (λ x. refl) refl refl v.one_runs

-- What `reserve_pages` decides before it takes the lock.
pub entry_cases :
    (c : Cache) (n : ℕ) (wait : Bool)
    → ((r : Status) × (reserve_entry c n wait ≡ answer r))
      ⊎ ((n ≤ c.max_seq_len)
          × (c.n_pages < page_count n)
          × (reserve_entry c n wait
              ≡ lock (record {
                need = page_count n - c.n_pages;
                wait = if c.no_wait then false else wait;
                counted = false;
                my_gen = 0;
              })))
unfolding reserve_entry
entry_cases c n wait = elim (Bool-cases (ltb c.max_seq_len n)) [
  | inl t ↦ inl (Status.overflow, rw t)
  | inr f ↦ elim (Bool-cases (leb (page_count n) c.n_pages)) [
    | inl t ↦ inl (Status.ok, rw (f, t))
    | inr g ↦ inr (ground arith, ground arith, rw (f, g))
  ]
]

after_entry-IsSound :
    (s : System) (i n : ℕ) (wait : Bool) (slot : Slot)
    → get_elem? s.slots i ≡ some slot
    → slot.phase ≡ ready
    → IsSound s
    → IsSound (after_entry s i slot (reserve_entry slot.cache n wait))
unfolding after_entry
after_entry-IsSound s i n wait slot at e v = elim (entry_cases slot.cache n wait) [
  | inl (r, p) ↦ rw p (reply-IsSound s i slot r at e v)
  | inr (fits, more, p) ↦ rw p (
      try_round-IsSound s i slot _ at v (record {
        cache = (IsSlot-fits s i at v).cache;
        some_need = omega arith;
        fits = omega (arith, (IsSlot-fits s i at v).cache.covers);
        earlier = omega arith;
        counted_holds = λ q. cc;
        owned = λ x. rw e;
        owned_count = rw e;
        held = rw e;
        counts = rw e;
      }))
]

wake-IsSound :
    (s : System) (i : ℕ) (slot : Slot) (w : Wait)
    → get_elem? s.slots i ≡ some slot
    → slot.phase ≡ waiting w
    → IsSound s
    → IsSound (try_round s i slot w)
wake-IsSound s i slot w at e v =
    let (n, f, wt, g, h) = rw e at (IsSlot-fits s i at v).phase in
    try_round-IsSound s i slot w at v (record {
      cache = (IsSlot-fits s i at v).cache;
      some_need = n;
      fits = f;
      earlier = g;
      counted_holds = h;
      owned = λ x. rw e;
      owned_count = rw e;
      held = rw e;
      counts = rw e;
    })

-- The device mapped the pages: they are in use.
keep-IsSound :
    (s : System) (i need : ℕ) (slot : Slot)
    → get_elem? s.slots i ≡ some slot
    → slot.phase ≡ mapping need
    → IsSound s
    → IsSound (
        put s i s.pool
          (record slot { cache = keep slot.cache need; phase = ready; reply = Status.ok }))
keep-IsSound s i need slot at e v =
    let (n, f) = rw e at (IsSlot-fits s i at v).phase in
    let c = (IsSlot-fits s i at v).cache in
    put-IsSound s i at v s.pool _ refl v.array (rw e) refl
      (record { cache = record { array = c.array; covers = c.covers; within = f }; phase = tt })
      (λ x. rw e) (rw e (ground arith)) (rw e) v.one_runs

-- The pages of a slot, and the holder that it is, can go back to the pool.
room_for :
    (s : System) (i : ℕ) (slot : Slot)
    → get_elem? s.slots i ≡ some slot
    → IsSound s
    → (s.pool.n_free + owned_len slot ≤ length s.pool.free_stack)
      × (is_holder slot ≤ s.pool.n_holders)
room_for s i slot at v = (
  omega (arith, v.array, v.conserved, le-sum_by owned_len s.slots i slot at),
  omega (arith, v.holders, le-sum_by is_holder s.slots i slot at),
)

-- The device refused: the pages are free again, and every waiting thread is worth another look.
undo-IsSound :
    (s : System) (i need : ℕ) (slot : Slot) (r : Status)
    → s.pool.stall_gen + 1 < 2 ^ 32
    → get_elem? s.slots i ≡ some slot
    → slot.phase ≡ mapping need
    → IsSound s
    → IsSound (put s i (undo s.pool slot.cache need) (record slot { phase = ready; reply = r }))
unfolding undo
undo-IsSound s i need slot r no_wrap at e v =
    let (n, f) = rw e at (IsSlot-fits s i at v).phase in
    let c = (IsSlot-fits s i at v).cache in
    let (room, one) = rw e at (room_for s i slot at v) in
    let g =
      give_pages-Gave need slot.cache.n_pages s.pool slot.cache.pages (omega (arith, room))
        (omega (arith, f, c.array)) in
    put-IsSound_woken s i at v _ _ (ap (λ (p : Pool). p.n_pages) g.rest) (g.room ∙ v.array)
      (rw e (omega (arith, g.free))) (rw (ap (λ (p : Pool). p.stall_gen) g.rest) (omega arith))
      (record { cache = c; phase = tt }) (λ x. rw e (g.moved x))
      (rw e (ground (arith, ap (λ (p : Pool). p.n_holders) g.rest, one))) refl refl

after_map-IsSound :
    (s : System) (i need : ℕ) (slot : Slot) (r : Status)
    → s.pool.stall_gen + 1 < 2 ^ 32
    → get_elem? s.slots i ≡ some slot
    → slot.phase ≡ mapping need
    → IsSound s
    → IsSound (after_map s i slot need r)
unfolding after_map
after_map-IsSound s i need slot Status.ok h at e v = keep-IsSound s i need slot at e v
after_map-IsSound s i need slot r h at e v = undo-IsSound s i need slot r h at e v

return-IsSound :
    (s : System) (i : ℕ) (slot : Slot)
    → s.pool.stall_gen + 1 < 2 ^ 32
    → get_elem? s.slots i ≡ some slot
    → slot.phase ≡ ready
    → slot.cache.n_pages ≢ 0
    → IsSound s
    → IsSound (
        put s i
          (return_pages s.pool slot.cache)
          (record slot { cache = record slot.cache { n_pages = 0 } }))
unfolding return_pages
return-IsSound s i slot no_wrap at e some_pages v =
    let c = (IsSlot-fits s i at v).cache in
    let (room, one) = rw e at (room_for s i slot at v) in
    let g =
      give_pages-Gave slot.cache.n_pages 0 s.pool slot.cache.pages room
        (omega (arith, c.within, c.array)) in
    let all : 0 + slot.cache.n_pages ≡ slot.cache.n_pages = omega arith in
    put-IsSound_woken s i at v _ _ (ap (λ (p : Pool). p.n_pages) g.rest) (g.room ∙ v.array)
      (rw e (omega (arith, g.free))) (rw (ap (λ (p : Pool). p.stall_gen) g.rest) (omega arith))
      (record {
        cache = record { array = c.array; covers = c.covers; within = omega arith };
        phase = rw e tt;
      })
      (λ x. rw e (omega (arith, g.moved x, ap (λ (n : ℕ). count x (take n slot.cache.pages)) all)))
      (rw e (ground (arith, ap (λ (p : Pool). p.n_holders) g.rest, one))) refl (rw e)

put-same :
    (s : System) (i : ℕ) {slot : Slot} → get_elem? s.slots i ≡ some slot → put s i s.pool slot ≡ s
unfolding put
put-same s i {slot} at = ap (λ l. record s { slots = l }) (set-same s.slots i at)

after_release-IsSound :
    (s : System) (i : ℕ) (slot : Slot)
    → s.pool.stall_gen + 1 < 2 ^ 32
    → get_elem? s.slots i ≡ some slot
    → slot.phase ≡ ready
    → IsSound s
    → IsSound (after_release s i slot)
unfolding after_release release
after_release-IsSound s i slot h at e v = elim (Bool-cases (slot.cache.n_pages == 0)) [
  | inl t ↦ rw t (rw (put-same s i at) v)
  | inr f ↦ rw f (return-IsSound s i slot h at e (λ q. ground arith) v)
]

dispatch-IsSound :
    (e : Event) (slot : Slot) (ph : Phase) {s : System}
    → s.pool.stall_gen + 1 < 2 ^ 32
    → get_elem? s.slots (subject e) ≡ some slot
    → slot.phase ≡ ph
    → IsSound s
    → IsSound (dispatch e slot ph s)
unfolding dispatch
dispatch-IsSound (reserve i n wait) slot ready {s} h at p v =
    after_entry-IsSound s i n wait slot at p v
dispatch-IsSound (wake i) slot (waiting w) {s} h at p v = wake-IsSound s i slot w at p v
dispatch-IsSound (mapped i r) slot (mapping need) {s} h at p v =
    after_map-IsSound s i need slot r h at p v
dispatch-IsSound (give_back i) slot ready {s} h at p v = after_release-IsSound s i slot h at p v
dispatch-IsSound _ _ _ h at p v = v

pub step-IsSound :
    (e : Event) {s : System} → s.pool.stall_gen + 1 < 2 ^ 32 → IsSound s → IsSound (step s e)
unfolding step on_slot
step-IsSound e {s} h v = go (get_elem? s.slots (subject e)) refl
  where
    go : (o : Option Slot) → get_elem? s.slots (subject e) ≡ o → IsSound (on_slot e o s)
    go none at = v
    go (some slot) at = dispatch-IsSound e slot slot.phase h at refl v
