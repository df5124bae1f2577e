-- ===== src/KvPool.antt =====
-- src/inference/kv_cache.c, "Paging": the pool of KV pages that the slots of the server share.
-- The C arrays `free_stack` and `pages` are lists read and written by index; `int` is a native
-- number, and `stall_gen` keeps its 32-bit wrap-around. The pool's lock makes the code between two
-- waits one atomic function. `vv_kv_page_map_dev`, the device call made outside the lock, is an
-- event with its outcome.
pub mod System
pub mod Pages
pub mod Slots
pub mod Invariant
pub mod Rounds
pub mod Reach
pub mod Generations
pub mod RoundTrip
pub mod Progress
pub mod Surrender
pub mod Success
mod Runs
use vibevoice_c.Common.{
  ℕ, zero, suc, ◌+◌, ◌-◌, ◌*◌, ◌/◌, ◌%◌, ◌^◌, Bool, true, false, not, ◌&&◌, ◌||◌,
}
use vibevoice_c.Common.{
  List, [], ◌∷◌, ltb, leb, ◌==◌, if◌then◌else◌, indicator, get_or, set, replicate,
}
use vibevoice_c.Common.{Status, ok, invalid_arg, overflow, kv_pool_exhausted}

-- `VV_KV_PAGE_SIZE`
abbrev pub page_size : ℕ
page_size = 64

-- The paging fields of `struct vv_kv_pool`.
pub record Pool : Type 0 where
  pub n_pages : ℕ
  pub free_stack : List ℕ
  pub n_free : ℕ
  pub n_holders : ℕ
  pub n_stalled : ℕ
  pub stall_gen : ℕ

-- The paging fields of a `vv_kv_cache_t` that has a pool; `pages` is its host mirror.
pub record Cache : Type 0 where
  pub max_seq_len : ℕ
  pub pages : List ℕ
  pub n_pages : ℕ
  pub max_pages : ℕ
  pub no_wait : Bool

-- The loop of `vv_kv_pool_create` that fills the free stack: low ids on top.
pub descending : ℕ → List ℕ
descending zero = []
descending (suc n) = n ∷ descending n

pub create : ℕ → Pool
unfolding descending
create n_pages = record {
  n_pages = n_pages;
  free_stack = descending n_pages;
  n_free = n_pages;
  n_holders = 0;
  n_stalled = 0;
  stall_gen = 0;
}

-- Pages that cover `n` positions.
abbrev pub page_count : ℕ → ℕ
page_count n = (n + page_size - 1) / page_size

-- The paging part of `vv_kv_cache_create_paged`.
pub create_paged : ℕ → Cache
create_paged max_seq_len = record {
  max_seq_len = max_seq_len;
  pages = replicate (page_count max_seq_len) 0;
  n_pages = 0;
  max_pages = page_count max_seq_len;
  no_wait = false;
}

-- `++stall_gen` on an `unsigned`.
abbrev pub next_gen : ℕ → ℕ
next_gen g = (g + 1) % 2 ^ 32

-- `n_stalled = 0; stall_gen++`, which comes with the broadcast when pages return.
abbrev pub wake_all : Pool → Pool
wake_all p = record p { n_stalled = 0; stall_gen = next_gen p.stall_gen }

-- What a call of `reserve_pages` carries round its loop.
pub record Wait : Type 0 where
  pub need : ℕ
  pub wait : Bool
  pub counted : Bool
  pub my_gen : ℕ

-- What the head of `reserve_pages` decides before it takes the lock.
pub data Entry : Type 0 where
  answer : Status → Entry
  lock : Wait → Entry

pub reserve_entry : Cache → ℕ → Bool → Entry
reserve_entry c n_positions wait =
    let want = page_count n_positions in
    if ltb c.max_seq_len n_positions
    then answer overflow
    else if leb want c.n_pages
    then answer ok
    else lock (record {
      need = want - c.n_pages;
      wait = if c.no_wait then false else wait;
      counted = false;
      my_gen = 0;
    })

-- `for (i = 0; i < need; i++) c->pages[c->n_pages + i] = p->free_stack[--p->n_free];`
-- by the rounds left: the pool and the cache's array `pages` after them.
pub take_pages : ℕ → ℕ → Pool → List ℕ → Pool × List ℕ
take_pages zero at p pages = (p, pages)
take_pages (suc left) at p pages =
    take_pages left (at + 1) (record p { n_free = p.n_free - 1 })
      (set pages at (get_or p.free_stack (p.n_free - 1) 0))

-- `for (i = k - 1; i >= 0; i--) p->free_stack[p->n_free++] = c->pages[base + i];`
pub give_pages : ℕ → ℕ → Pool → List ℕ → Pool
give_pages zero base p pages = p
give_pages (suc i) base p pages =
    give_pages i base
      (record p {
        free_stack = set p.free_stack p.n_free (get_or pages (base + i) 0);
        n_free = p.n_free + 1;
      })
      pages

abbrev pub holds : Cache → Bool
holds c = ltb 0 c.n_pages

-- Whether `running <= 0`: `(n_holders - holds) - (n_stalled - counted)` on signed integers.
abbrev pub none_running : Pool → Bool → Bool → Bool
none_running p held counted = leb (p.n_holders + indicator counted) (p.n_stalled + indicator held)

-- `hopeless`
abbrev pub hopeless : Pool → Cache → ℕ → Bool → Bool
hopeless p c need counted =
    ltb p.n_pages need
    || (holds c && none_running p (holds c) counted)
    || (not (holds c) && p.n_holders == 0)

-- Whether the wait is still counted in `n_stalled`.
abbrev pub still_counted : Pool → Wait → Bool
still_counted p w = w.counted && p.stall_gen == w.my_gen

-- One round of the loop of `reserve_pages` under the lock.
pub data Round : Type 0 where
  taken : Pool → List ℕ → Round
  gave_up : Pool → Round
  blocked : Pool → Wait → Round

-- After the loop: leave the stalled, become a holder, take the pages.
pub grab : Pool → Cache → Wait → Pool × List ℕ
grab p c w =
    take_pages w.need c.n_pages
      (record p {
        n_stalled = p.n_stalled - indicator (still_counted p w);
        n_holders = p.n_holders + indicator (not (holds c));
      })
      c.pages

-- `return VV_ERR_KV_POOL_EXHAUSTED`, no longer stalled.
abbrev pub surrender : Pool → Wait → Pool
surrender p w = record p { n_stalled = p.n_stalled - indicator (still_counted p w) }

-- Count the caller among the stalled holders, once.
abbrev pub stall : Pool → Cache → Wait → Round
stall p c w =
    if holds c && not (still_counted p w)
    then blocked (record p { n_stalled = p.n_stalled + 1 })
        (record w { counted = true; my_gen = p.stall_gen })
    else blocked p (record w { counted = still_counted p w })

pub round : Pool → Cache → Wait → Round
unfolding grab
round p c w =
    if leb w.need p.n_free
    then (let (p', pages) = grab p c w in taken p' pages)
    else if not w.wait || hopeless p c w.need (still_counted p w)
    then gave_up (surrender p w)
    else stall p c w

-- `reserve_pages` after the device mapped the pages.
abbrev pub keep : Cache → ℕ → Cache
keep c need = record c { n_pages = c.n_pages + need }

-- `reserve_pages` after the device refused: the pages go back.
pub undo : Pool → Cache → ℕ → Pool
undo p c need =
    let p' = give_pages need c.n_pages p c.pages in
    wake_all (record p' { n_holders = p'.n_holders - indicator (not (holds c)) })

-- The locked part of `vv_kv_cache_release`.
pub return_pages : Pool → Cache → Pool
return_pages p c =
    let p' = give_pages c.n_pages 0 p c.pages in
    wake_all (record p' { n_holders = p'.n_holders - 1 })

-- `vv_kv_cache_release`
pub release : Pool → Cache → Pool × Cache
unfolding return_pages
release p c = if c.n_pages == 0 then (p, c) else (return_pages p c, record c { n_pages = 0 })
