-- ===== src/Vad/Detector.antt =====
-- `vv_vad` of src/audio/vad.c, and its functions on one frame.
use vibevoice_c.Common.{
  ℕ, zero, suc, ◌+◌, ◌-◌, ◌*◌, ◌/◌, ◌%◌, Bool, true, false, not, ◌&&◌, Option, none, some, List, [],
  ◌∷◌, ◌++◌, ltb, leb, ◌==◌, if◌then◌else◌, get_or, set, length, double_to,
}
use vibevoice_c.Vad.Floats.{Floats}

module _ (R : Floats) where
  -- `vv_vad_params_t`
  pub record Params : Type 0 where
    pub sample_rate : ℕ
    pub start_db : R.Float
    pub stop_db : R.Float
    pub min_speech_ms : R.Float
    pub hangover_ms : R.Float
    pub pre_roll_ms : R.Float
    pub max_segment_s : R.Float
    pub noise_margin_db : R.Float
    pub adapt : Bool

  -- The fields of `struct vv_vad` that a frame changes; `seg` is the segment up to `seg_len`.
  pub record Detector : Type 0 where
    pub pre : List R.Float
    pub pre_len : ℕ
    pub pre_head : ℕ
    pub seg : List R.Float
    pub seg_cap : ℕ
    pub active : Bool
    pub silence_run : ℕ
    pub speech_run : ℕ
    pub level_db : R.Float
    pub floor_db : R.Float
    pub floor_init : Bool

  abbrev pub frame_len : Params → ℕ
  frame_len p = p.sample_rate * 20 / 1000

  abbrev pub pre_cap : Params → ℕ
  pre_cap p = R.samples_of_ms p.pre_roll_ms p.sample_rate + 1

  unfoldable pub start_threshold : Params → Detector → R.Float
  start_threshold p v =
      if not p.adapt
      then p.start_db
      else (let adaptive = R.plus v.floor_db p.noise_margin_db in
          if R.less p.start_db adaptive then adaptive else p.start_db)

  unfoldable pub stop_threshold : Params → Detector → R.Float
  stop_threshold p v =
      let gap = R.minus p.start_db p.stop_db in
      R.minus (start_threshold p v) (if R.less R.zero_db gap then gap else R.zero_db)

  unfoldable pub sum_of_squares : R.Double → List R.Float → R.Double
  sum_of_squares s [] = s
  sum_of_squares s (x ∷ xs) = sum_of_squares (R.add_square s x) xs

  unfoldable pub frame_db : List R.Float → R.Float
  frame_db xs =
      R.decibels (sum_of_squares R.nothing xs) (if ltb 0 (length xs) then length xs else 1)

  unfoldable pub push_sample : Params → Detector → R.Float → Detector
  push_sample p v x = record v {
    pre = set v.pre v.pre_head x;
    pre_head = (v.pre_head + 1) % pre_cap p;
    pre_len = if ltb v.pre_len (pre_cap p) then v.pre_len + 1 else v.pre_len;
  }

  unfoldable pub pre_push : Params → Detector → List R.Float → Detector
  unfolding push_sample
  pre_push p v [] = v
  pre_push p v (x ∷ xs) = pre_push p (push_sample p v x) xs

  -- `pre[(start + i) % pre_cap]` for the next `n` indices from `i` on.
  unfoldable pub ring : Params → List R.Float → ℕ → ℕ → ℕ → List R.Float
  ring p pre start i zero = []
  ring p pre start i (suc n) =
      get_or pre ((start + i) % pre_cap p) R.zero_db ∷ ring p pre start (i + 1) n

  -- `emit`
  unfoldable pub emit : Detector → Detector × Option (List R.Float)
  emit v = if length v.seg == 0 then (record v { active = false }, none) else (
    record v { seg = []; seg_cap = 0; active = false; silence_run = 0; speech_run = 0 },
    some v.seg,
  )

  -- The level and the noise floor.
  unfoldable pub hear : Params → Detector → List R.Float → Detector
  unfolding start_threshold
  hear p v f =
      let db = frame_db f in
      let floor =
        if not v.floor_init
        then db
        else if not v.active && R.less db (start_threshold p v)
        then R.plus v.floor_db
            (R.times (if R.less db v.floor_db then R.fast else R.slow) (R.minus db v.floor_db))
        else v.floor_db in
      record v {
        level_db = db;
        floor_init = true;
        floor_db = if R.less floor R.quietest then R.quietest else floor;
      }

  module _ (alloc : ℕ → Bool) where
    -- `seg_reserve`: the new capacity, unless the memory is refused.
    unfoldable pub seg_reserve : Params → Detector → ℕ → Option Detector
    seg_reserve p v extra =
        if leb (length v.seg + extra) v.seg_cap
        then some v
        else (let cap =
              double_to (length v.seg + extra) (if v.seg_cap == 0 then p.sample_rate else v.seg_cap)
                (length v.seg + extra) in
            if alloc cap then some (record v { seg_cap = cap }) else none)

    abbrev pub extend : Detector → List R.Float → Detector
    extend v f = record v { seg = v.seg ++ f }

    -- `if (seg_reserve(v, n)) { memcpy(...); v->seg_len += n; }`
    unfoldable pub append_frame : Params → Detector → List R.Float → Detector
    append_frame p v f = elim (seg_reserve p v (length f)) [ none ↦ v | some v' ↦ extend v' f ]

    unfoldable pub pre_drain : Params → Detector → Detector
    pre_drain p v = elim (seg_reserve p v v.pre_len) [
      | none ↦ v
      | some v' ↦ record v' {
        seg = v'.seg ++ ring p v.pre ((v.pre_head + pre_cap p - v.pre_len) % pre_cap p) 0 v.pre_len;
        pre_len = 0;
      }
    ]

    -- The frame when no segment is open.
    unfoldable pub listen : Params → Detector → List R.Float → Detector
    listen p v f =
        let w = pre_push p v f in
        if R.less (start_threshold p w) (frame_db f)
        then if leb (R.samples_of_ms p.min_speech_ms p.sample_rate) (w.speech_run + length f)
          then append_frame p
              (pre_drain p
                (record w { speech_run = w.speech_run + length f; active = true; silence_run = 0 }))
              f
          else record w { speech_run = w.speech_run + length f }
        else record w { speech_run = 0 }

    abbrev pub cut_if_long : Params → Detector → Detector × Option (List R.Float)
    cut_if_long p v =
        if leb (R.samples_of_s p.max_segment_s p.sample_rate) (length v.seg)
        then emit v
        else (v, none)

    -- The frame inside a segment.
    unfoldable pub follow : Params → Detector → List R.Float → Detector × Option (List R.Float)
    follow p v f =
        let w = append_frame p v f in
        if R.less (frame_db f) (stop_threshold p w)
        then if leb (R.samples_of_ms p.hangover_ms p.sample_rate) (w.silence_run + length f)
          then emit (record w { silence_run = w.silence_run + length f })
          else cut_if_long p (record w { silence_run = w.silence_run + length f })
        else cut_if_long p (record w { silence_run = 0 })

    unfoldable pub process_frame :
        Params → Detector → List R.Float → Detector × Option (List R.Float)
    process_frame p v f =
        let w = hear p v f in if not w.active then (listen p w f, none) else follow p w f
