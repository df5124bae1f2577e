-- ===== src/Admission.antt =====
-- src/server/vv_queue.h: bounded FIFO admission for synchronous transcription requests.
-- A `vv_queue_t` is a record of its counters; `int` and `uint64_t` are native numbers, and the
-- 64-bit counters keep their wrap-around. Every function holds the lock from start to end except
-- across `vv_cond_wait`, so the code between two waits is one atomic function here: `enter` draws a
-- ticket, `admit` is one round of the ticket loop, `try_admit` one round of the polling loop.
-- A waiting thread may be woken at any time (a broadcast, a timeout or for no reason).
pub mod System
pub mod Invariant
pub mod Reach
pub mod Order
mod Runs
use vibevoice_c.Common.{ℕ, ◌+◌, ◌-◌, ◌%◌, ◌^◌, Bool, not, ◌&&◌, ◌||◌, Option, none, some}
use vibevoice_c.Common.{ltb, leb, ◌==◌, if◌then◌else◌}

pub record Queue : Type 0 where
  pub active : ℕ
  pub waiting : ℕ
  pub slots : ℕ
  pub capacity : ℕ
  pub next : ℕ
  pub serving : ℕ
  pub rejected : ℕ

-- `x + 1` on a `uint64_t`.
abbrev pub u64_inc : ℕ → ℕ
u64_inc x = (x + 1) % 2 ^ 64

-- `vv_queue_init`
pub init : ℕ → ℕ → Queue
init slots capacity = record {
  active = 0;
  waiting = 0;
  slots = slots;
  capacity = capacity;
  next = 0;
  serving = 0;
  rejected = 0;
}

-- A refusal, counted.
abbrev pub refuse : Queue → Queue
refuse q = record q { rejected = u64_inc q.rejected }

-- The queue after a ticket is drawn.
abbrev pub draw : Queue → Queue
draw q = record q { next = u64_inc q.next; waiting = q.waiting + 1 }

-- The queue after the thread whose turn it is takes a slot.
abbrev pub let_in : Queue → Queue
let_in q = record q { waiting = q.waiting - 1; active = q.active + 1; serving = u64_inc q.serving }

-- `vv_queue_enter` up to its loop: `none` is the refusal, `some` the ticket drawn.
pub enter : Queue → Option ℕ × Queue
enter q =
    if leb (q.slots + q.capacity) (q.active + q.waiting)
    then (none, refuse q)
    else (some q.next, draw q)

-- One round of the loop of `vv_queue_enter` and what follows it: `none` is another wait.
pub admit : ℕ → Queue → Option Queue
admit ticket q = if not (ticket == q.serving) || leb q.slots q.active then none else some (let_in q)

pub data Verdict : Type 0 where
  granted refused again : Verdict

-- One round of the loop of `vv_queue_try_enter`; `expired` is `left <= 0.0`.
pub try_admit : Bool → Queue → Verdict × Queue
try_admit expired q =
    if q.waiting == 0 && ltb q.active q.slots
    then (granted, record q { active = q.active + 1 })
    else if expired
    then (refused, refuse q)
    else (again, q)

-- `vv_queue_leave`
pub leave : Queue → Queue
leave q = record q { active = q.active - 1 }
