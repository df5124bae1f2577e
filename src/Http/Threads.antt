-- ===== src/Http/Threads.antt =====
-- The connections of src/server/http.c are counted right.
use vibevoice_c.Common.{
  ℕ, ◌+◌, ◌≤◌, ◌≡◌, refl, ◌∙◌, ap, true, false, not, ◌||◌, leb, ◌==◌, if◌then◌else◌, arith, inl,
  inr, Bool-cases,
}
use vibevoice_c.Http.Server.{
  Place, Server, Step, accepts, thread_starts, thread_ends, shuts_down, leaves_loop, gives_back,
  Reachable, begun, then_to,
}

-- The place that the serving thread holds.
abbrev pub held : Place → ℕ
held Place.accepting = 0
held Place.starting = 1
held Place.draining = 0
held Place.returned = 0

-- The counter is how many hold a place, which are at most as many as there may be, and none of them
-- is left when the server is gone.
pub record IsCounted (m : ℕ) (s : Server) : Type 0 where
  pub counts : s.n_conns ≡ s.threads + held s.place
  pub within : s.n_conns ≤ (if m == 0 then 8 else m)
  pub bound : s.max_conns ≡ (if m == 0 then 8 else m)
  pub gone : s.place ≡ Place.returned → s.threads ≡ 0

Step-IsCounted : {m : ℕ} {s t : Server} → IsCounted m s → Step s t → IsCounted m t
Step-IsCounted {m} {s} v (accepts p) =
    elim (Bool-cases (leb s.max_conns s.n_conns || not s.running)) [
      | inl b ↦ rw b v
      | inr b ↦ rw b record {
        counts = ground (arith, v.counts, ap held p);
        within = ground (arith, v.bound, b);
        bound = v.bound;
        gone = λ e. cc;
      }
    ]
Step-IsCounted {m} {s} v (thread_starts true p) = record {
  counts = omega (arith, v.counts, ap held p);
  within = v.within;
  bound = v.bound;
  gone = λ e. cc;
}
Step-IsCounted {m} {s} v (thread_starts false p) = record {
  counts = omega (arith, v.counts, ap held p);
  within = omega (arith, v.within);
  bound = v.bound;
  gone = λ e. cc;
}
Step-IsCounted {m} {s} v (thread_ends h) = record {
  counts = omega (arith, v.counts);
  within = omega (arith, v.within);
  bound = v.bound;
  gone = λ e. omega (arith, v.gone e);
}
Step-IsCounted {m} {s} v shuts_down = record {
  counts = v.counts;
  within = v.within;
  bound = v.bound;
  gone = v.gone;
}
Step-IsCounted {m} {s} v (leaves_loop p r) = record {
  counts = v.counts ∙ ap (λ (n : ℕ). s.threads + n) (ap held p);
  within = v.within;
  bound = v.bound;
  gone = λ e. cc;
}
Step-IsCounted {m} {s} v (gives_back p z) = record {
  counts = omega (arith, v.counts, z);
  within = v.within;
  bound = v.bound;
  gone = λ e. omega (arith, v.counts, z);
}

-- In every state that the serving thread, the connection threads and a shutdown can reach, in any
-- order of their steps, the counter is the number of the connection threads, with the one that is about
-- to start; it is at most the bound, which is 8 if none is given; and when `vv_http_serve` has freed
-- the server and returned, no connection thread is left.
pub Reachable-IsCounted : (m : ℕ) (s : Server) → Reachable m s → IsCounted m s
Reachable-IsCounted m s begun = record {
  counts = refl;
  within = omega arith;
  bound = refl;
  gone = λ e. refl;
}
Reachable-IsCounted m t (then_to {s} r k) = Step-IsCounted (Reachable-IsCounted m s r) k
