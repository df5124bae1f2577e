-- ===== src/KvPool/Runs.antt =====
-- Runs of the page pool with two caches, and its theorems at these inputs.
use vibevoice_c.Common.{
  ℕ, ◌+◌, ◌<◌, ◌≡◌, ◌⊎◌, refl, true, false, some, List, [], ◌∷◌, arith, get_elem?, sum_by, map,
  Status,
}
use vibevoice_c.KvPool.{
  Pool, Cache, Wait, create, create_paged, descending, reserve_entry, take_pages, give_pages, grab,
  round, undo, release, return_pages,
}
use vibevoice_c.KvPool.System.{
  Slot, System, ready, waiting, Event, reserve, wake, mapped, give_back, put, after_round,
  try_round, after_entry, after_map, after_release, dispatch, on_slot, step, run,
}
use vibevoice_c.KvPool.Pages.{count, free_pages}
use vibevoice_c.KvPool.Slots.{owns, owned_len, held_in, stalled_in}
use vibevoice_c.KvPool.Invariant.{IsSound}
use vibevoice_c.KvPool.Rounds.{Enters}
use vibevoice_c.KvPool.Generations.{run-IsSound}
use vibevoice_c.KvPool.Progress.{
  fresh, start, start-IsSound, page_has_one_owner, no_page_is_lost, one_holder_is_not_stalled,
}
use vibevoice_c.KvPool.Surrender.{OthersStalled, gives_up_only_if_hopeless}
use vibevoice_c.KvPool.Success.{Reserved, reserve_succeeds}

-- Three pages and two windows of 192 positions: the first cache takes two pages, the second one; the
-- second then waits for a second page.
abbrev two_windows : List ℕ
two_windows = 192 ∷ 192 ∷ []

abbrev script : List Event
script =
    reserve 0 100 true
    ∷ mapped 0 Status.ok
    ∷ reserve 1 10 true
    ∷ mapped 1 Status.ok
    ∷ reserve 1 70 true
    ∷ []

abbrev after : System
after = record {
  pool = record {
    n_pages = 3;
    free_stack = 2 ∷ 1 ∷ 0 ∷ [];
    n_free = 0;
    n_holders = 2;
    n_stalled = 1;
    stall_gen = 0;
  };
  slots =
      record {
        cache = record {
          max_seq_len = 192;
          pages = 0 ∷ 1 ∷ 0 ∷ [];
          n_pages = 2;
          max_pages = 3;
          no_wait = false;
        };
        phase = ready;
        reply = Status.ok;
      }
      ∷ record {
        cache = record {
          max_seq_len = 192;
          pages = 2 ∷ 0 ∷ 0 ∷ [];
          n_pages = 1;
          max_pages = 3;
          no_wait = false;
        };
        phase = waiting (record { need = 1; wait = true; counted = true; my_gen = 0 });
        reply = Status.ok;
      }
      ∷ [];
}

run-script : run (start 3 two_windows) script ≡ after
unfolding run step on_slot dispatch after_entry after_map after_release after_round try_round put
    create create_paged descending reserve_entry take_pages grab round
run-script = refl

-- The first cache's request for a third page then fails: the second is waiting. Its pages come back.
abbrev more : List Event
more = reserve 0 192 true ∷ give_back 0 ∷ wake 1 ∷ mapped 1 Status.cuda ∷ []

run-more :
    map (λ (x : Slot). x.reply) (run after more).slots ≡ Status.kv_pool_exhausted ∷ Status.cuda ∷ []
unfolding run step on_slot dispatch after_entry after_map after_release after_round try_round put
    reserve_entry take_pages give_pages grab round undo release return_pages
run-more = refl

free_after-more : free_pages (run after more).pool ≡ 1 ∷ 0 ∷ []
unfolding run step on_slot dispatch after_entry after_map after_release after_round try_round put
    reserve_entry take_pages give_pages grab round undo release return_pages
free_after-more = refl

after-IsSound : IsSound after
after-IsSound = rw run-script at (
    run-IsSound script {s = start 3 two_windows} (unfold create in omega arith)
      (start-IsSound 3 two_windows))

-- The second cache of `after` runs again and still finds no page; then the first asks for a third.
abbrev first_slot : Slot
first_slot = record {
  cache = record {
    max_seq_len = 192;
    pages = 0 ∷ 1 ∷ 0 ∷ [];
    n_pages = 2;
    max_pages = 3;
    no_wait = false;
  };
  phase = ready;
  reply = Status.ok;
}

at_first : get_elem? (run (start 3 two_windows) script).slots 0 ≡ some first_slot
at_first = rw run-script refl

at_second : get_elem? (run (start 3 two_windows) script).slots 1 ≡ get_elem? after.slots 1
at_second = rw run-script refl

page_has_one_owner_example :
    (owns 1 first_slot ≡ 1)
    × (count 1 (2 ∷ []) ≡ 0)
    × (count 1 (free_pages (run (start 3 two_windows) script).pool) ≡ 0)
page_has_one_owner_example =
    page_has_one_owner 3 1 0 1 two_windows script (omega arith) (omega arith) at_first at_second
      (omega arith)

no_page_is_lost_example :
    let s = run (start 3 two_windows) script in
    s.pool.n_free + sum_by owned_len s.slots ≡ s.pool.n_pages
no_page_is_lost_example = no_page_is_lost 3 two_windows script (omega arith)

one_holder_is_not_stalled_example :
    let s = run (start 3 two_windows) script in
    (i : ℕ) × (slot : Slot) × (get_elem? s.slots i ≡ some slot)
    × (held_in slot.cache slot.phase ≡ true)
    × (stalled_in s.pool.stall_gen slot.phase ≡ false)
unfolding run step on_slot dispatch after_entry reserve_entry create_paged try_round after_round
    round create after_map take_pages
one_holder_is_not_stalled_example =
    one_holder_is_not_stalled 3 two_windows script (omega arith) (omega arith)

abbrev third_page : Wait
third_page = record { need = 1; wait = true; counted = false; my_gen = 0 }

abbrev refused : Slot
refused = record first_slot { reply = Status.kv_pool_exhausted }

enters : Enters after.pool first_slot third_page
enters = record {
  cache = omega arith;
  some_need = omega arith;
  fits = omega arith;
  earlier = omega arith;
  counted_holds = λ e. omega arith;
  owned = λ x. refl;
  owned_count = refl;
  held = refl;
  counts = refl;
}

gives_up_only_if_hopeless_example : (3 < 1) ⊎ (0 < 2 × OthersStalled after 0)
unfolding try_round round after_round put
gives_up_only_if_hopeless_example =
    gives_up_only_if_hopeless after 0 first_slot refused third_page after-IsSound refl enters refl
      refl refl

-- Five pages, all free.
abbrev full_pool : Pool
full_pool = record {
  n_pages = 5;
  free_stack = 4 ∷ 3 ∷ 2 ∷ 1 ∷ 0 ∷ [];
  n_free = 5;
  n_holders = 0;
  n_stalled = 0;
  stall_gen = 0;
}

abbrev empty_cache : Cache
empty_cache = record {
  max_seq_len = 192;
  pages = 0 ∷ 0 ∷ 0 ∷ [];
  n_pages = 0;
  max_pages = 3;
  no_wait = false;
}

-- What is left of it after pages 0 and 1 when a second cache has taken page 2, a third one page 3, and
-- the second has given its page back.
abbrev left_pool : Pool
left_pool = record full_pool { free_stack = 4 ∷ 2 ∷ 2 ∷ 1 ∷ 0 ∷ []; n_free = 2; n_holders = 2 }

reserve_succeeds_example :
    Reserved 130 (step (step (start 3 two_windows) (reserve 1 130 true)) (mapped 1 Status.ok)) 1
unfolding create create_paged
reserve_succeeds_example =
    reserve_succeeds (start 3 two_windows) 1 130 true (fresh 192) refl refl (omega arith)
      (omega arith)
