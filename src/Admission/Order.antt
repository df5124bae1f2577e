-- ===== src/Admission/Order.antt =====
-- What callers of src/server/vv_queue.h rely on: the bounds, the order of admission, and that a free
-- slot never stays unused.
use vibevoice_c.Common.{
  ℕ, ◌+◌, ◌^◌, ◌≤◌, ◌<◌, ◌≡◌, ◌≢◌, ◌∙◌, ap, Bool, some, List, arith, get_elem?, set, inl, inr, ◌⊎◌,
  sum_by, sum_by_pos, le-sum_by, get_elem?-set_self, lt_of_get_elem?, sum_by_two,
}
use vibevoice_c.Admission.{Queue, admit, let_in}
use vibevoice_c.Admission.System.{
  Thread, System, Event, wake, poll, admit_at, poll_at, dispatch, step, run,
}
use vibevoice_c.Admission.Invariant.{IsConsistent, holds, queues, has_ticket, offset, admit_cases}
use vibevoice_c.Admission.Reach.{run-IsConsistent, start, start-IsConsistent, try_admit_cases}

-- Whatever the threads do, never more than `slots` of them hold a slot, and never more than
-- `slots + capacity` hold one or wait in `vv_queue_enter`.
pub run_bounds :
    (slots capacity n : ℕ) (es : List Event)
    → 0 < slots
    → slots + capacity < 2 ^ 31
    → let s = run (start slots capacity n) es in
      (sum_by holds s.threads ≤ s.queue.slots)
      × (sum_by holds s.threads + sum_by queues s.threads ≤ s.queue.slots + s.queue.capacity)
run_bounds slots capacity n es h k =
    let v = run-IsConsistent es (start-IsConsistent slots capacity n h k) in
    (omega (arith, v.running, v.within_slots), omega (arith, v.running, v.queued, v.within_bound))

-- A thread in line holds one of the `waiting` tickets from `serving` on.
pub in_line-lt :
    {s : System} (i t : ℕ)
    → get_elem? s.threads i ≡ some (Thread.in_line t)
    → IsConsistent s
    → (t < 2 ^ 64) × (offset t s.queue < s.queue.waiting)
in_line-lt {s} i t at v =
    ground (arith, v.lines t, le-sum_by (has_ticket t) s.threads i (Thread.in_line t) at)

has_ticket_pos : (t : ℕ) (th : Thread) → 0 < has_ticket t th → th ≡ Thread.in_line t
has_ticket_pos t Thread.idle h = absurd (omega arith)
has_ticket_pos t (Thread.in_line u) h = ground arith
has_ticket_pos t Thread.polling h = absurd (omega arith)
has_ticket_pos t Thread.holding h = absurd (omega arith)

next_in_line :
    (s : System)
    → IsConsistent s
    → 0 < s.queue.waiting
    → (i : ℕ) × (get_elem? s.threads i ≡ some (Thread.in_line s.queue.serving))
next_in_line s v h =
    let t = s.queue.serving in
    let (i, th, at, pos) =
      sum_by_pos (has_ticket t) s.threads (ground (arith, v.lines t, v.served_u64)) in
    (i, at ∙ ap some (has_ticket_pos t th pos))

admit-serving : (q : Queue) → q.active < q.slots → admit q.serving q ≡ some (let_in q)
unfolding admit
admit-serving q h = ground arith

wake-in_line :
    (s : System) (i t : ℕ)
    → get_elem? s.threads i ≡ some (Thread.in_line t)
    → step s (wake i) ≡ admit_at i t s
unfolding step dispatch
wake-in_line s i t at = rw at

-- Whatever the threads have done since the start: if fewer threads hold a slot than there are slots, and
-- some wait in `vv_queue_enter`, then one of them has the ticket that is served next, and it takes a
-- slot when it runs.
pub free_slot_is_taken :
    (slots capacity n : ℕ) (es : List Event)
    → 0 < slots
    → slots + capacity < 2 ^ 31
    → sum_by holds (run (start slots capacity n) es).threads
      < (run (start slots capacity n) es).queue.slots
    → 0 < sum_by queues (run (start slots capacity n) es).threads
    → let s = run (start slots capacity n) es in
      (i : ℕ) × (get_elem? s.threads i ≡ some (Thread.in_line s.queue.serving))
      × (get_elem? (step s (wake i)).threads i ≡ some Thread.holding)
unfolding admit_at
free_slot_is_taken slots capacity n es a b free line =
    let s = run (start slots capacity n) es in
    let v = run-IsConsistent es (start-IsConsistent slots capacity n a b) in
    let (i, at) = next_in_line s v (omega (arith, v.queued, line)) in
    let room : s.queue.active < s.queue.slots = omega (arith, v.running, free) in
    (
      i,
      at,
      rw (wake-in_line s i _ at, admit_at, admit-serving s.queue room)
          (get_elem?-set_self s.threads i _ (lt_of_get_elem? s.threads i at)),
    )

woken_is_served :
    (s : System) (i t : ℕ)
    → get_elem? s.threads i ≡ some (Thread.in_line t)
    → get_elem? (step s (wake i)).threads i ≡ some Thread.holding
    → t ≡ s.queue.serving
unfolding admit_at
woken_is_served s i t at e = elim (admit_cases t s.queue) [
  | inl n ↦ cc (rw (wake-in_line s i t at, admit_at, n) at e)
  | inr (turn, free, p) ↦ turn
]

-- First come, first served: in a consistent state, when a thread that waits in `vv_queue_enter` runs
-- and takes a slot, every other thread in line has a ticket further from `serving` than its own.
pub first_come_first_served :
    (s : System) (i j t u : ℕ)
    → IsConsistent s
    → i ≢ j
    → get_elem? s.threads i ≡ some (Thread.in_line t)
    → get_elem? s.threads j ≡ some (Thread.in_line u)
    → get_elem? (step s (wake i)).threads i ≡ some Thread.holding
    → offset t s.queue < offset u s.queue
first_come_first_served s i j t u v n at bt e = ground (
  arith,
  woken_is_served s i t at e,
  in_line-lt i t at v,
  in_line-lt j u bt v,
  v.served_u64,
  v.lines t,
  sum_by_two (has_ticket t) s.threads i j (Thread.in_line t) (Thread.in_line u) n at bt,
)

granted_if_none_waits :
    (s : System) (i : ℕ) (expired : Bool) (old : Thread)
    → get_elem? s.threads i ≡ some old
    → get_elem? (poll_at i expired s).threads i ≡ some Thread.holding
    → s.queue.waiting ≡ 0
unfolding poll_at
granted_if_none_waits s i expired old at e = elim (try_admit_cases expired s.queue) [
  | inl (empty, free, p) ↦ empty
  | inr (inl p) ↦ cc (stays Thread.idle (rw p at e))
  | inr (inr p) ↦ cc (stays Thread.polling (rw p at e))
]
  where
    stays :
        (new : Thread)
        → get_elem? (set s.threads i new) i ≡ some Thread.holding
        → new ≡ Thread.holding
    stays new q = cc (get_elem?-set_self s.threads i new (lt_of_get_elem? s.threads i at), q)

step_poll :
    (s : System) (i : ℕ) (expired : Bool)
    → (get_elem? s.threads i ≡ some Thread.idle) ⊎ (get_elem? s.threads i ≡ some Thread.polling)
    → step s (poll i expired) ≡ poll_at i expired s
unfolding step dispatch
step_poll s i expired (inl e) = rw e
step_poll s i expired (inr e) = rw e

-- In a consistent state a round of `vv_queue_try_enter` lets a thread in only if no thread waits in
-- `vv_queue_enter`.
pub try_enter_does_not_overtake :
    (s : System) (i j t : ℕ) (expired : Bool)
    → IsConsistent s
    → (get_elem? s.threads i ≡ some Thread.idle) ⊎ (get_elem? s.threads i ≡ some Thread.polling)
    → get_elem? (step s (poll i expired)).threads i ≡ some Thread.holding
    → get_elem? s.threads j ≢ some (Thread.in_line t)
try_enter_does_not_overtake s i j t expired v (inl at) e bt = omega (
  arith,
  in_line-lt j t bt v,
  granted_if_none_waits s i expired Thread.idle at (rw (step_poll s i expired (inl at)) at e),
)
try_enter_does_not_overtake s i j t expired v (inr at) e bt = omega (
  arith,
  in_line-lt j t bt v,
  granted_if_none_waits s i expired Thread.polling at (rw (step_poll s i expired (inr at)) at e),
)
