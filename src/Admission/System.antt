-- ===== src/Admission/System.antt =====
-- The threads that share one queue of src/server/vv_queue.h, and their interleavings. The handlers
-- of src/server/api.c call `vv_queue_leave` only after they were let in, so a thread that holds no
-- slot has no `leave` step.
use vibevoice_c.Common.{ℕ, Bool, Option, none, some, List, [], ◌∷◌, get_elem?, set}
use vibevoice_c.Admission.{Queue, Verdict, enter, admit, try_admit, leave}

-- Where a thread stands: outside, waiting in `vv_queue_enter` with its ticket, waiting in
-- `vv_queue_try_enter`, or between a successful entry and `vv_queue_leave`.
pub data Thread : Type 0 where
  idle : Thread
  in_line : ℕ → Thread
  polling : Thread
  holding : Thread

pub record System : Type 0 where
  pub queue : Queue
  pub threads : List Thread

-- A thread calls `vv_queue_enter`; a waiting thread runs again; a thread calls
-- `vv_queue_try_enter` or runs again in it, before or after its deadline; a thread leaves.
pub data Event : Type 0 where
  arrive : ℕ → Event
  wake : ℕ → Event
  poll : ℕ → Bool → Event
  depart : ℕ → Event

-- Thread `i` is in line with `ticket` and tests it.
unfoldable pub admit_at : ℕ → ℕ → System → System
admit_at i ticket s = elim (admit ticket s.queue) [
  | none ↦ s
  | some q ↦ record { queue = q; threads = set s.threads i Thread.holding }
]

-- What `vv_queue_enter` does with the answer of `enter`, up to its return or its first wait.
unfoldable pub line_up : ℕ → Option ℕ × Queue → System → System
line_up i (none, q) s = record s { queue = q }
line_up i (some ticket, q) s =
    admit_at i ticket (record { queue = q; threads = set s.threads i (Thread.in_line ticket) })

unfoldable pub arrive_at : ℕ → System → System
arrive_at i s = line_up i (enter s.queue) s

unfoldable pub place : Verdict → Thread
place Verdict.granted = Thread.holding
place Verdict.refused = Thread.idle
place Verdict.again = Thread.polling

unfoldable pub poll_at : ℕ → Bool → System → System
unfolding place
poll_at i expired s =
    let (v, q) = try_admit expired s.queue in
    record { queue = q; threads = set s.threads i (place v) }

unfoldable pub depart_at : ℕ → System → System
depart_at i s = record { queue = leave s.queue; threads = set s.threads i Thread.idle }

-- What an event does to a thread in the given place; an event that does not fit does nothing.
unfoldable pub dispatch : Event → Option Thread → System → System
dispatch (arrive i) (some Thread.idle) s = arrive_at i s
dispatch (wake i) (some (Thread.in_line t)) s = admit_at i t s
dispatch (poll i expired) (some Thread.idle) s = poll_at i expired s
dispatch (poll i expired) (some Thread.polling) s = poll_at i expired s
dispatch (depart i) (some Thread.holding) s = depart_at i s
dispatch _ _ s = s

abbrev pub subject : Event → ℕ
subject (arrive i) = i
subject (wake i) = i
subject (poll i expired) = i
subject (depart i) = i

unfoldable pub step : System → Event → System
step s e = dispatch e (get_elem? s.threads (subject e)) s

unfoldable pub run : System → List Event → System
run s [] = s
run s (e ∷ es) = run (step s e) es
