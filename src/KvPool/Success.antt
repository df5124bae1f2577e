-- ===== src/KvPool/Success.antt =====
-- A reservation in src/inference/kv_cache.c that finds enough free pages succeeds and covers its
-- positions.
use vibevoice_c.Common.{
  ℕ, ◌+◌, ◌-◌, ◌*◌, ◌≤◌, ◌<◌, ◌≡◌, ◌∙◌, ap, refl, Bool, true, false, some, List, arith, leb,
  if◌then◌else◌, get_elem?, Status, get_elem?-set_self, lt_of_get_elem?,
}
use native.Mathlib.Decide.{dec_le}
use vibevoice_c.KvPool.{
  Pool, Wait, answer, lock, reserve_entry, grab, round, page_count, page_size, keep,
}
use vibevoice_c.KvPool.System.{
  Slot, System, Phase, ready, mapping, Event, reserve, mapped, put, try_round, after_round,
  after_entry, after_map, dispatch, on_slot, subject, step,
}

-- An event at a slot.
step-at :
    (s : System) (e : Event) (i : ℕ) {slot : Slot}
    → subject e ≡ i
    → get_elem? s.slots i ≡ some slot
    → step s e ≡ dispatch e slot slot.phase s
unfolding step on_slot
step-at s e i p at = rw (p, at)

put-at :
    (s : System) (i : ℕ) (p : Pool) (new : Slot) {old : Slot}
    → get_elem? s.slots i ≡ some old
    → get_elem? (put s i p new).slots i ≡ some new
unfolding put
put-at s i p new at = get_elem?-set_self s.slots i new (lt_of_get_elem? s.slots i at)

-- What a cache holds after a call for `n` positions that succeeded.
pub record Reserved (n : ℕ) (s : System) (i : ℕ) : Type 0 where
  pub slot : Slot
  pub at : get_elem? s.slots i ≡ some slot
  pub outside : slot.phase ≡ ready
  pub said_ok : slot.reply ≡ Status.ok
  pub covers : n ≤ slot.cache.n_pages * page_size

-- The call's first part: the entry, and the round if one is needed.
reserve-step :
    (s : System) (i n : ℕ) (wait : Bool) (slot : Slot)
    → get_elem? s.slots i ≡ some slot
    → slot.phase ≡ ready
    → step s (reserve i n wait) ≡ after_entry s i slot (reserve_entry slot.cache n wait)
unfolding dispatch
reserve-step s i n wait slot at out =
    step-at s (reserve i n wait) i refl at
    ∙ ap (λ (ph : Phase). dispatch (reserve i n wait) slot ph s) out

covered_already :
    (s : System) (i n : ℕ) (wait : Bool) (slot : Slot)
    → get_elem? s.slots i ≡ some slot
    → slot.phase ≡ ready
    → n ≤ slot.cache.max_seq_len
    → page_count n ≤ slot.cache.n_pages
    → step (step s (reserve i n wait)) (mapped i Status.ok)
      ≡ put s i s.pool (record slot { reply = Status.ok })
unfolding dispatch after_entry
covered_already s i n wait slot at out fits enough =
    let new : Slot = record slot { reply = Status.ok } in
    let e : reserve_entry slot.cache n wait ≡ answer Status.ok =
      unfold reserve_entry in ground arith in
    rw (reserve-step s i n wait slot at out, e)
      (step-at (put s i s.pool new) (mapped i Status.ok) i refl (put-at s i s.pool new at)
        ∙ ap (λ (ph : Phase). dispatch (mapped i Status.ok) new ph (put s i s.pool new)) out)

-- The pages taken, before and after the device agrees.
abbrev taking : Slot → Pool × List ℕ → ℕ → Slot
taking slot out need = record slot {
  cache = record slot.cache { pages = out.1 };
  phase = mapping need;
}

abbrev kept : Slot → Pool × List ℕ → ℕ → Slot
kept slot out need = record slot {
  cache = keep (record slot.cache { pages = out.1 }) need;
  phase = ready;
  reply = Status.ok;
}

abbrev request : Slot → ℕ → Bool → Wait
request slot n wait = record {
  need = page_count n - slot.cache.n_pages;
  wait = if slot.cache.no_wait then false else wait;
  counted = false;
  my_gen = 0;
}

taken_and_kept :
    (s : System) (i n : ℕ) (wait : Bool) (slot : Slot)
    → get_elem? s.slots i ≡ some slot
    → slot.phase ≡ ready
    → n ≤ slot.cache.max_seq_len
    → slot.cache.n_pages < page_count n
    → page_count n ≤ slot.cache.n_pages + s.pool.n_free
    → let w = request slot n wait in
      let out = grab s.pool slot.cache w in
      let t = put s i out.0 (taking slot out w.need) in
      step (step s (reserve i n wait)) (mapped i Status.ok) ≡ put t i out.0 (kept slot out w.need)
unfolding dispatch after_entry try_round round after_round after_map put
taken_and_kept s i n wait slot at out fits more room =
    let w : Wait = request slot n wait in
    let e : reserve_entry slot.cache n wait ≡ lock w = unfold reserve_entry in ground arith in
    let enough : leb w.need s.pool.n_free ≡ true = ground arith in
    let out' = grab s.pool slot.cache w in
    rw (reserve-step s i n wait slot at out, e, enough)
      (step-at (put s i out'.0 (taking slot out' w.need)) (mapped i Status.ok) i refl
        (put-at s i out'.0 (taking slot out' w.need) at))

-- If `n` positions fit the window and the missing pages are free, a call of `reserve_pages` by a
-- thread outside, and the device's agreement, end with VV_OK and pages for all `n` positions.
pub reserve_succeeds :
    (s : System) (i n : ℕ) (wait : Bool) (slot : Slot)
    → get_elem? s.slots i ≡ some slot
    → slot.phase ≡ ready
    → n ≤ slot.cache.max_seq_len
    → page_count n ≤ slot.cache.n_pages + s.pool.n_free
    → Reserved n (step (step s (reserve i n wait)) (mapped i Status.ok)) i
reserve_succeeds s i n wait slot at out fits room =
    elim (dec_le (page_count n) slot.cache.n_pages) [
      | yes p ↦ rw (covered_already s i n wait slot at out fits p) (record {
        slot = record slot { reply = Status.ok };
        at = put-at s i s.pool _ at;
        outside = out;
        said_ok = refl;
        covers = omega arith;
      })
      | no p ↦ rw (taken_and_kept s i n wait slot at out fits (omega arith) room) (record {
        slot =
            kept slot (grab s.pool slot.cache (request slot n wait))
              (page_count n - slot.cache.n_pages);
        at = put-at _ i _ _ (put-at s i _ _ at);
        outside = refl;
        said_ok = refl;
        covers = omega arith;
      })
    ]
