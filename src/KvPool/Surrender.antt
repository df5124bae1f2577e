-- ===== src/KvPool/Surrender.antt =====
-- When `reserve_pages` of src/inference/kv_cache.c answers VV_ERR_KV_POOL_EXHAUSTED to a caller that
-- would wait, and what a successful reservation covers.
use vibevoice_c.Common.{
  ℕ, ◌+◌, ◌-◌, ◌≤◌, ◌<◌, ◌≡◌, ◌≢◌, ◌∙◌, ap, refl, sym, true, not, ◌&&◌, ◌||◌, some, arith, leb,
  indicator, get_elem?, set, ◌⊎◌, inl, inr, Bool-cases, All-imp, sum_by, sum_by_two, sum_by-sub,
  sum_by_pos, le-sum_by, get_elem?-set_self, lt_of_get_elem?,
}
use native.Mathlib.Decide.{dec_lt}
use vibevoice_c.KvPool.{Cache, Wait, round, hopeless, still_counted, holds}
use vibevoice_c.KvPool.System.{
  Slot, Phase, System, ready, waiting, mapping, put, try_round, after_round,
}
use vibevoice_c.KvPool.Slots.{
  owned_len, owned_in, is_holder, is_stalled, held_in, stalled_in, IsSlot, PhaseFits,
}
use vibevoice_c.KvPool.Invariant.{IsSound}
use vibevoice_c.KvPool.Rounds.{Enters}

-- A stalled slot holds pages.
stalled-le-holder : (g : ℕ) (slot : Slot) → IsSlot g slot → is_stalled g slot ≤ is_holder slot
stalled-le-holder g slot v = go slot.phase v.phase
  where
    go :
        (ph : Phase)
        → PhaseFits g slot.cache ph
        → indicator (stalled_in g ph) ≤ indicator (held_in slot.cache ph)
    go ready f = omega arith
    go (waiting w) f = ground (arith, f.4)
    go (mapping need) f = omega arith

owned-holder : (c : Cache) (ph : Phase) → 0 < owned_in c ph → indicator (held_in c ph) ≡ 1
owned-holder c ready h = ground arith
owned-holder c (waiting w) h = ground arith
owned-holder c (mapping need) h = refl

-- The holders that are not stalled.
abbrev runs : ℕ → Slot → ℕ
runs g slot = is_holder slot - is_stalled g slot

module _ (s : System) (v : IsSound s) where
  runners : sum_by (runs s.pool.stall_gen) s.slots + s.pool.n_stalled ≡ s.pool.n_holders
  runners = omega (
    arith,
    sum_by-sub (is_stalled s.pool.stall_gen) is_holder s.slots
        (All-imp s.slots (stalled-le-holder s.pool.stall_gen) v.slots_fit),
    v.stalled,
    v.holders,
  )

  -- Without holders every page is free.
  all_free : s.pool.n_holders ≡ 0 → s.pool.n_free ≡ s.pool.n_pages
  all_free h = elim (dec_lt 0 (sum_by owned_len s.slots)) [
    | yes p ↦
        (let (i, slot, at, pos) = sum_by_pos owned_len s.slots p in
          absurd (
            omega (
              arith,
              owned-holder slot.cache slot.phase pos,
              le-sum_by is_holder s.slots i slot at,
              v.holders,
            )))
    | no p ↦ omega (arith, v.conserved)
  ]

-- The others all wait, counted in the current generation.
abbrev pub OthersStalled : System → ℕ → Type 0
OthersStalled s i =
    (j : ℕ) (other : Slot)
    → j ≢ i
    → get_elem? s.slots j ≡ some other
    → held_in other.cache other.phase ≡ true
    → stalled_in s.pool.stall_gen other.phase ≡ true

hopeless_means :
    (s : System) (i : ℕ) (slot : Slot) (w : Wait)
    → get_elem? s.slots i ≡ some slot
    → IsSound s
    → Enters s.pool slot w
    → s.pool.n_free < w.need
    → hopeless s.pool slot.cache w.need (still_counted s.pool w) ≡ true
    → (s.pool.n_pages < w.need) ⊎ (0 < slot.cache.n_pages × OthersStalled s i)
hopeless_means s i slot w at v e short h = elim (dec_lt s.pool.n_pages w.need) [
  | yes p ↦ inl p
  | no p ↦ elim (dec_lt 0 slot.cache.n_pages) [
    | yes q ↦ inr (
      q,
      λ j other ne aj hd. ground (
        arith,
        runners s v,
        sum_by_two (runs s.pool.stall_gen) s.slots i j slot other (λ r. ne (sym r)) at aj,
        e.held,
        e.counts,
        h,
      ),
    )
    | no q ↦ absurd (omega (arith, all_free s v (ground (arith, h))))
  ]
]

not_mapping : (need : ℕ) → ¬ (mapping need ≡ ready)
not_mapping need e = cc

not_waiting : (w : Wait) → ¬ (waiting w ≡ ready)
not_waiting w e = cc

-- A round that leaves its thread outside, with VV_ERR_KV_POOL_EXHAUSTED, gave up.
module _ (s : System) (i : ℕ) (slot : Slot) (w : Wait) (at : get_elem? s.slots i ≡ some slot) where
  ready_as_written :
      (new : Slot) {after : Slot}
      → get_elem? (set s.slots i new) i ≡ some after
      → after.phase ≡ ready
      → new.phase ≡ ready
  ready_as_written new {after} a r =
      let e : new ≡ after =
        cc (get_elem?-set_self s.slots i new (lt_of_get_elem? s.slots i at), a) in
      ap (λ (x : Slot). x.phase) e ∙ r

  gave_up_if_ready :
      {after : Slot}
      → get_elem? (try_round s i slot w).slots i ≡ some after
      → after.phase ≡ ready
      → (s.pool.n_free < w.need)
        × (w.wait ≡ true → hopeless s.pool slot.cache w.need (still_counted s.pool w) ≡ true)
  unfolding try_round round after_round put
  gave_up_if_ready {after} a r = elim (Bool-cases (leb w.need s.pool.n_free)) [
    | inl t ↦ absurd (not_mapping _ (ready_as_written _ (rw t at a) r))
    | inr f ↦
        elim (Bool-cases
          (not w.wait || hopeless s.pool slot.cache w.need (still_counted s.pool w))) [
            | inl g ↦ (ground arith, λ wt. ground arith)
            | inr g ↦ elim (Bool-cases (holds slot.cache && not (still_counted s.pool w))) [
              | inl h ↦ absurd (not_waiting _ (ready_as_written _ (rw (f, g, h) at a) r))
              | inr h ↦ absurd (not_waiting _ (ready_as_written _ (rw (f, g, h) at a) r))
            ]
          ]
  ]

-- A request that would wait fails only if it wants more pages than the pool has, or if its cache
-- holds pages and all others that do are stalled: in a sound state, when a round of `reserve_pages`
-- by a thread that may wait ends the call without pages, one of the two holds.
pub gives_up_only_if_hopeless :
    (s : System) (i : ℕ) (slot after : Slot) (w : Wait)
    → IsSound s
    → get_elem? s.slots i ≡ some slot
    → Enters s.pool slot w
    → w.wait ≡ true
    → get_elem? (try_round s i slot w).slots i ≡ some after
    → after.phase ≡ ready
    → (s.pool.n_pages < w.need) ⊎ (0 < slot.cache.n_pages × OthersStalled s i)
gives_up_only_if_hopeless s i slot after w v at e wt a r =
    let (short, h) = gave_up_if_ready s i slot w at a r in
    hopeless_means s i slot w at v e short (h wt)
