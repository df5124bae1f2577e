-- ===== src/Http/Server.antt =====
-- The connections of `vv_http_serve` and `conn_thread` of src/server/http.c: the counter that the lock
-- protects, where the serving thread is, and how many connection threads have not given up their place.
use vibevoice_c.Common.{
  ℕ, ◌+◌, ◌-◌, ◌<◌, ◌≡◌, Bool, true, false, not, ◌||◌, leb, ◌==◌, if◌then◌else◌,
}

-- Where `vv_http_serve` is: in the loop, between the lock and the new thread, behind the loop, or
-- returned.
pub data Place : Type 0 where
  accepting starting draining returned : Place

pub record Server : Type 0 where
  pub running : Bool
  pub n_conns : ℕ
  pub max_conns : ℕ
  pub place : Place
  pub threads : ℕ

-- Before the loop: `max_conns > 0 ? max_conns : 8`.
abbrev pub begin : ℕ → Server
begin max_conns = record {
  running = true;
  n_conns = 0;
  max_conns = if max_conns == 0 then 8 else max_conns;
  place = Place.accepting;
  threads = 0;
}

-- A connection comes in: refused with 503, or counted.
abbrev pub on_accept : Server → Server
on_accept s =
    if leb s.max_conns s.n_conns || not s.running
    then s
    else record s { n_conns = s.n_conns + 1; place = Place.starting }

-- The thread is started, or there is no memory or thread for it and the count is taken back.
abbrev pub on_start : Bool → Server → Server
on_start true s = record s { place = Place.accepting; threads = s.threads + 1 }
on_start false s = record s { place = Place.accepting; n_conns = s.n_conns - 1 }

-- The end of `conn_thread`.
abbrev pub on_finish : Server → Server
on_finish s = record s { n_conns = s.n_conns - 1; threads = s.threads - 1 }

-- `vv_http_shutdown`
abbrev pub shut_down : Server → Server
shut_down s = record s { running = false }

-- A step of the program, of the thread that it is up to.
pub data Step (s : Server) : Server → Type 0 where
  accepts : s.place ≡ Place.accepting → Step s (on_accept s)
  thread_starts : (ok : Bool) → s.place ≡ Place.starting → Step s (on_start ok s)
  thread_ends : 0 < s.threads → Step s (on_finish s)
  shuts_down : Step s (shut_down s)
  leaves_loop :
      s.place ≡ Place.accepting → s.running ≡ false → Step s (record s { place = Place.draining })
  gives_back :
      s.place ≡ Place.draining → s.n_conns ≡ 0 → Step s (record s { place = Place.returned })

pub data Reachable (max_conns : ℕ) : Server → Type 0 where
  begun : Reachable max_conns (begin max_conns)
  then_to : {s t : Server} → Reachable max_conns s → Step s t → Reachable max_conns t
