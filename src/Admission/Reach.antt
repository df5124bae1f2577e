-- ===== src/Admission/Reach.antt =====
-- Every interleaving of the calls of src/server/vv_queue.h keeps the queue consistent.
use vibevoice_c.Common.{
  ℕ, ◌+◌, ◌^◌, ◌≤◌, ◌<◌, ◌≡◌, refl, Bool, some, Option, List, [], ◌∷◌, arith, get_elem?, replicate,
  sum_by, le-sum_by, sum_by-replicate, inl, inr, ◌⊎◌,
}
use vibevoice_c.Admission.{Queue, Verdict, init, refuse, try_admit, leave}
use vibevoice_c.Admission.System.{
  Thread, System, Event, arrive, wake, poll, depart, poll_at, depart_at, dispatch, subject, step,
  run,
}
use vibevoice_c.Admission.Invariant.{
  IsConsistent, holds, queues, has_ticket, swap-IsConsistent, admit_at-IsConsistent,
  arrive_at-IsConsistent,
}

pub try_admit_cases :
    (expired : Bool) (q : Queue)
    → ((q.waiting ≡ 0)
        × (q.active < q.slots)
        × (try_admit expired q ≡ (Verdict.granted, record q { active = q.active + 1 })))
      ⊎ (try_admit expired q ≡ (Verdict.refused, refuse q))
      ⊎ (try_admit expired q ≡ (Verdict.again, q))
unfolding try_admit
try_admit_cases expired q = ground arith

poll_at-IsConsistent :
    {s : System} (i : ℕ) (expired : Bool) (old : Thread)
    → get_elem? s.threads i ≡ some old
    → queues old ≡ 0
    → holds old ≡ 0
    → ((t : ℕ) → has_ticket t old ≡ 0)
    → IsConsistent s
    → IsConsistent (poll_at i expired s)
unfolding poll_at
poll_at-IsConsistent {s} i expired old at nq nh nt v = elim (try_admit_cases expired s.queue) [
  | inl (empty, free, e) ↦ rw e (
      swap-IsConsistent i _ old Thread.holding at nq refl nt (omega (arith, nh)) (omega arith)
        (omega (arith, v.within_bound)) refl v)
  | inr (inl e) ↦ rw e (
      swap-IsConsistent i _ old Thread.idle at nq refl nt (omega (arith, nh)) v.within_slots
        v.within_bound refl v)
  | inr (inr e) ↦ rw e (
      swap-IsConsistent i _ old Thread.polling at nq refl nt (omega (arith, nh)) v.within_slots
        v.within_bound refl v)
]

depart_at-IsConsistent :
    {s : System} (i : ℕ)
    → get_elem? s.threads i ≡ some Thread.holding
    → IsConsistent s
    → IsConsistent (depart_at i s)
unfolding depart_at leave
depart_at-IsConsistent {s} i at v =
    swap-IsConsistent i _ Thread.holding Thread.idle at refl refl (λ t. refl)
      (omega (arith, one, v.running)) (omega (arith, v.within_slots))
      (omega (arith, v.within_bound)) refl v
  where
    one : 1 ≤ sum_by holds s.threads
    one = le-sum_by holds s.threads i Thread.holding at

dispatch-IsConsistent :
    (e : Event) (o : Option Thread) {s : System}
    → get_elem? s.threads (subject e) ≡ o
    → IsConsistent s
    → IsConsistent (dispatch e o s)
unfolding dispatch
dispatch-IsConsistent (arrive i) (some Thread.idle) at v = arrive_at-IsConsistent i at v
dispatch-IsConsistent (wake i) (some (Thread.in_line t)) at v = admit_at-IsConsistent i t at v
dispatch-IsConsistent (poll i x) (some Thread.idle) at v =
    poll_at-IsConsistent i x Thread.idle at refl refl (λ t. refl) v
dispatch-IsConsistent (poll i x) (some Thread.polling) at v =
    poll_at-IsConsistent i x Thread.polling at refl refl (λ t. refl) v
dispatch-IsConsistent (depart i) (some Thread.holding) at v = depart_at-IsConsistent i at v
dispatch-IsConsistent _ _ at v = v

pub step-IsConsistent : (e : Event) {s : System} → IsConsistent s → IsConsistent (step s e)
unfolding step
step-IsConsistent e v = dispatch-IsConsistent e _ refl v

pub run-IsConsistent : (es : List Event) {s : System} → IsConsistent s → IsConsistent (run s es)
unfolding run
run-IsConsistent [] v = v
run-IsConsistent (e ∷ es) v = run-IsConsistent es (step-IsConsistent e v)

-- A fresh queue and `n` threads outside.
abbrev pub start : ℕ → ℕ → ℕ → System
start slots capacity n = record { queue = init slots capacity; threads = replicate n Thread.idle }

pub start-IsConsistent :
    (slots capacity n : ℕ)
    → 0 < slots
    → slots + capacity < 2 ^ 31
    → IsConsistent (start slots capacity n)
unfolding init
start-IsConsistent slots capacity n h k = record {
  sized = record { some_slot = h; int_sum = k };
  running = sum_by-replicate holds n Thread.idle refl;
  queued = sum_by-replicate queues n Thread.idle refl;
  within_slots = omega arith;
  within_bound = omega arith;
  served_u64 = omega arith;
  next_up = refl;
  lines = λ t. ground (arith, sum_by-replicate (has_ticket t) n Thread.idle refl);
}
