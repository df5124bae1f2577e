-- ===== src/Admission/Invariant.antt =====
-- What holds of a queue of src/server/vv_queue.h and its threads between two atomic sections.
use vibevoice_c.Common.{
  ℕ, ◌+◌, ◌-◌, ◌%◌, ◌^◌, ◌≤◌, ◌<◌, ◌≡◌, none, some, arith, ltb, ◌&&◌, ◌==◌, indicator, get_elem?,
  set, ◌⊎◌, sum_by, sum_by-set, inl, inr, lt_of_get_elem?, get_elem?-set_self,
}
use vibevoice_c.Admission.{Queue, refuse, draw, let_in, enter, admit}
use vibevoice_c.Admission.System.{Thread, System, admit_at, line_up, arrive_at}

abbrev pub holds : Thread → ℕ
holds Thread.holding = 1
holds _ = 0

abbrev pub queues : Thread → ℕ
queues (Thread.in_line t) = 1
queues _ = 0

abbrev pub has_ticket : ℕ → Thread → ℕ
has_ticket t (Thread.in_line u) = indicator (u == t)
has_ticket t _ = 0

-- How far a ticket is from the one that is served next, on 64-bit counters.
abbrev pub offset : ℕ → Queue → ℕ
offset t q = (t + 2 ^ 64 - q.serving) % 2 ^ 64

-- A server that can take a request at all, with counters of `int`.
pub record IsSized (q : Queue) : Type 0 where
  pub some_slot : 0 < q.slots
  pub int_sum : q.slots + q.capacity < 2 ^ 31

-- The counters count the threads, the bounds hold, and the tickets in line are exactly the
-- `waiting` ones from `serving` on, each held by one thread.
pub record IsConsistent (s : System) : Type 0 where
  pub sized : IsSized s.queue
  pub running : sum_by holds s.threads ≡ s.queue.active
  pub queued : sum_by queues s.threads ≡ s.queue.waiting
  pub within_slots : s.queue.active ≤ s.queue.slots
  pub within_bound : s.queue.active + s.queue.waiting ≤ s.queue.slots + s.queue.capacity
  pub served_u64 : s.queue.serving < 2 ^ 64
  pub next_up : s.queue.next ≡ (s.queue.serving + s.queue.waiting) % 2 ^ 64
  pub lines :
      (t : ℕ)
      → sum_by (has_ticket t) s.threads
        ≡ indicator (ltb t (2 ^ 64) && ltb (offset t s.queue) s.queue.waiting)

-- A thread in place of another changes the three counts by the difference of the two.
module _ (s : System) (i : ℕ) {old : Thread} (at : get_elem? s.threads i ≡ some old) where
  pub holds-set :
      (new : Thread)
      → sum_by holds (set s.threads i new) + holds old ≡ sum_by holds s.threads + holds new
  holds-set new = sum_by-set holds s.threads i old new at

  queues-set :
      (new : Thread)
      → sum_by queues (set s.threads i new) + queues old ≡ sum_by queues s.threads + queues new
  queues-set new = sum_by-set queues s.threads i old new at

  has_ticket-set :
      (new : Thread) (t : ℕ)
      → sum_by (has_ticket t) (set s.threads i new) + has_ticket t old
        ≡ sum_by (has_ticket t) s.threads + has_ticket t new
  has_ticket-set new t = sum_by-set (has_ticket t) s.threads i old new at

pub let_in-IsConsistent :
    {s : System} (i ticket : ℕ)
    → get_elem? s.threads i ≡ some (Thread.in_line ticket)
    → ticket ≡ s.queue.serving
    → s.queue.active < s.queue.slots
    → IsConsistent s
    → IsConsistent (record { queue = let_in s.queue; threads = set s.threads i Thread.holding })
let_in-IsConsistent {s} i ticket at turn free v = record {
  sized = record { some_slot = v.sized.some_slot; int_sum = v.sized.int_sum };
  running = omega (arith, holds-set s i at Thread.holding, v.running);
  queued = omega (arith, queues-set s i at Thread.holding, v.queued);
  within_slots = omega arith;
  within_bound = omega (arith, waits, v.within_bound);
  served_u64 = omega arith;
  next_up = omega (arith, waits, v.next_up, v.served_u64);
  lines = λ t. ground (
    arith,
    waits,
    v.sized,
    v.lines t,
    v.served_u64,
    v.within_bound,
    has_ticket-set s i at Thread.holding t,
  );
}
  where
    waits : 0 < s.queue.waiting
    waits = omega (arith, queues-set s i at Thread.holding, v.queued)

pub admit_cases :
    (ticket : ℕ) (q : Queue)
    → (admit ticket q ≡ none)
      ⊎ ((ticket ≡ q.serving) × (q.active < q.slots) × (admit ticket q ≡ some (let_in q)))
unfolding admit
admit_cases ticket q = ground arith

pub admit_at-IsConsistent :
    {s : System} (i ticket : ℕ)
    → get_elem? s.threads i ≡ some (Thread.in_line ticket)
    → IsConsistent s
    → IsConsistent (admit_at i ticket s)
unfolding admit_at
admit_at-IsConsistent {s} i ticket at v = elim (admit_cases ticket s.queue) [
  | inl e ↦ rw (e, admit_at) v
  | inr (turn, free, e) ↦ rw (e, admit_at) (let_in-IsConsistent i ticket at turn free v)
]

pub draw-IsConsistent :
    {s : System} (i : ℕ)
    → get_elem? s.threads i ≡ some Thread.idle
    → s.queue.active + s.queue.waiting < s.queue.slots + s.queue.capacity
    → IsConsistent s
    → IsConsistent
        (record { queue = draw s.queue; threads = set s.threads i (Thread.in_line s.queue.next) })
draw-IsConsistent {s} i at room v = record {
  sized = record { some_slot = v.sized.some_slot; int_sum = v.sized.int_sum };
  running = omega (arith, holds-set s i at (Thread.in_line s.queue.next), v.running);
  queued = omega (arith, queues-set s i at (Thread.in_line s.queue.next), v.queued);
  within_slots = v.within_slots;
  within_bound = omega arith;
  served_u64 = v.served_u64;
  next_up = omega (arith, v.next_up, v.served_u64);
  lines = λ t. ground (
    arith,
    v.sized,
    v.lines t,
    v.next_up,
    v.served_u64,
    has_ticket-set s i at (Thread.in_line s.queue.next) t,
  );
}

refuse-IsConsistent :
    {s : System} → IsConsistent s → IsConsistent (record s { queue = refuse s.queue })
refuse-IsConsistent v = record {
  sized = record { some_slot = v.sized.some_slot; int_sum = v.sized.int_sum };
  running = v.running;
  queued = v.queued;
  within_slots = v.within_slots;
  within_bound = v.within_bound;
  served_u64 = v.served_u64;
  next_up = v.next_up;
  lines = v.lines;
}

pub enter_cases :
    (q : Queue)
    → ((q.slots + q.capacity ≤ q.active + q.waiting) × (enter q ≡ (none, refuse q)))
      ⊎ ((q.active + q.waiting < q.slots + q.capacity) × (enter q ≡ (some q.next, draw q)))
unfolding enter
enter_cases q = ground arith

pub arrive_at-IsConsistent :
    {s : System} (i : ℕ)
    → get_elem? s.threads i ≡ some Thread.idle
    → IsConsistent s
    → IsConsistent (arrive_at i s)
unfolding arrive_at line_up
arrive_at-IsConsistent {s} i at v = elim (enter_cases s.queue) [
  | inl (full, e) ↦ rw (e, line_up) (refuse-IsConsistent v)
  | inr (room, e) ↦
      rw (e, line_up)
        (admit_at-IsConsistent i s.queue.next
          (get_elem?-set_self s.threads i _ (lt_of_get_elem? s.threads i at))
          (draw-IsConsistent i at room v))
]

-- A thread outside the line takes a slot, or gives one back, or stays outside: the line is as it was.
pub swap-IsConsistent :
    {s : System} (i : ℕ) (q : Queue) (old new : Thread)
    → get_elem? s.threads i ≡ some old
    → queues old ≡ 0
    → queues new ≡ 0
    → ((t : ℕ) → has_ticket t old ≡ has_ticket t new)
    → q.active + holds old ≡ s.queue.active + holds new
    → q.active ≤ q.slots
    → q.active + q.waiting ≤ q.slots + q.capacity
    → q ≡ record s.queue { active = q.active; rejected = q.rejected }
    → IsConsistent s
    → IsConsistent (record { queue = q; threads = set s.threads i new })
swap-IsConsistent {s} i q old new at o n ts da ws wb same v = record {
  sized = record { some_slot = ground (arith, v.sized); int_sum = ground (arith, v.sized) };
  running = omega (arith, holds-set s i at new, v.running);
  queued = ground (arith, queues-set s i at new, v.queued);
  within_slots = ws;
  within_bound = wb;
  served_u64 = ground (arith, v.served_u64);
  next_up = ground (arith, v.next_up);
  lines = λ t. ground (arith, v.lines t, ts t, has_ticket-set s i at new t);
}
