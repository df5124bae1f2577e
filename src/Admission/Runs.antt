-- ===== src/Admission/Runs.antt =====
-- Runs of the admission queue on a few threads, and its theorems at these inputs.
use vibevoice_c.Common.{
  ℕ, ◌+◌, ◌≤◌, ◌<◌, ◌≡◌, ◌≢◌, refl, false, some, List, [], ◌∷◌, arith, get_elem?, inl, sum_by,
}
use vibevoice_c.Admission.{init, enter, admit, try_admit, leave}
use vibevoice_c.Admission.System.{
  Thread, System, Event, arrive, wake, poll, depart, admit_at, line_up, arrive_at, poll_at,
  depart_at, dispatch, step, run, place,
}
use vibevoice_c.Admission.Invariant.{IsConsistent, holds, queues, offset}
use vibevoice_c.Admission.Reach.{start, start-IsConsistent, run-IsConsistent}
use vibevoice_c.Admission.Order.{
  run_bounds, free_slot_is_taken, first_come_first_served, try_enter_does_not_overtake,
}

-- One slot and a line of two: thread 0 gets the slot, 1 and 2 wait, 3 is refused, 0 leaves.
abbrev script : List Event
script = arrive 0 ∷ arrive 1 ∷ arrive 2 ∷ arrive 3 ∷ poll 3 false ∷ depart 0 ∷ []

abbrev after : System
after = record {
  queue = record {
    active = 0;
    waiting = 2;
    slots = 1;
    capacity = 2;
    next = 3;
    serving = 1;
    rejected = 1;
  };
  threads = Thread.idle ∷ Thread.in_line 1 ∷ Thread.in_line 2 ∷ Thread.polling ∷ [];
}

run-script : run (start 1 2 4) script ≡ after
unfolding run step dispatch arrive_at line_up admit_at poll_at depart_at place init enter admit
    try_admit leave
run-script = refl

after-IsConsistent : IsConsistent after
unfolding run step dispatch arrive_at line_up admit_at poll_at depart_at place init enter admit
    try_admit leave
after-IsConsistent = run-IsConsistent script (start-IsConsistent 1 2 4 (omega arith) (omega arith))

run_bounds_example :
    let s = run (start 1 2 4) script in
    (sum_by holds s.threads ≤ s.queue.slots)
    × (sum_by holds s.threads + sum_by queues s.threads ≤ s.queue.slots + s.queue.capacity)
run_bounds_example = run_bounds 1 2 4 script (omega arith) (omega arith)

free_slot_is_taken_example :
    let s = run (start 1 2 4) script in
    (i : ℕ) × (get_elem? s.threads i ≡ some (Thread.in_line s.queue.serving))
    × (get_elem? (step s (wake i)).threads i ≡ some Thread.holding)
unfolding run step dispatch arrive_at line_up enter init admit_at admit poll_at depart_at try_admit
    leave
free_slot_is_taken_example =
    free_slot_is_taken 1 2 4 script (omega arith) (omega arith) (omega arith) (omega arith)

wakes : get_elem? (step after (wake 1)).threads 1 ≡ some Thread.holding
unfolding step dispatch admit_at admit
wakes = refl

first_come_first_served_example : offset 1 after.queue < offset 2 after.queue
first_come_first_served_example =
    first_come_first_served after 1 2 1 2 after-IsConsistent (omega arith) refl refl wakes

polls : get_elem? (step (start 1 2 4) (poll 0 false)).threads 0 ≡ some Thread.holding
unfolding step dispatch poll_at place try_admit init
polls = refl

try_enter_does_not_overtake_example : get_elem? (start 1 2 4).threads 1 ≢ some (Thread.in_line 0)
try_enter_does_not_overtake_example =
    try_enter_does_not_overtake (start 1 2 4) 0 1 0 false
      (start-IsConsistent 1 2 4 (omega arith) (omega arith)) (inl refl) polls
