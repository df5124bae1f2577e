-- ===== src/Vad/Stream.antt =====
-- The detector of src/audio/vad.c behind its input queue: `vv_vad_create`, `vv_vad_push`,
-- `vv_vad_drain` and `vv_vad_flush`.
use vibevoice_c.Common.{
  ℕ, zero, suc, ◌+◌, ◌-◌, Bool, false, ◌&&◌, Option, none, some, List, [], ◌++◌, ltb, leb, ◌==◌,
  if◌then◌else◌, take, drop, length, double_to,
}
use vibevoice_c.Vad.Floats.{Floats}
use vibevoice_c.Vad.Detector.{Params, Detector, frame_len, process_frame, append_frame, emit}

module _ (R : Floats) where
  -- `acc` is the partial frame, `input` the queue from `in_pos` to `in_len`.
  pub record Vad : Type 0 where
    pub detector : Detector R
    pub acc : List R.Float
    pub input : List R.Float
    pub in_cap : ℕ

  -- `vv_vad_create` behind its guards; `pre` is the ring as it was allocated.
  unfoldable pub create : List R.Float → Vad
  create pre = record {
    detector = record {
      pre = pre;
      pre_len = 0;
      pre_head = 0;
      seg = [];
      seg_cap = 0;
      active = false;
      silence_run = 0;
      speech_run = 0;
      level_db = R.unheard;
      floor_db = R.quietest;
      floor_init = false;
    };
    acc = [];
    input = [];
    in_cap = 0;
  }

  module _ (alloc : ℕ → Bool) (p : Params R) where
    -- `in_push`, with the answer whether there was room.
    unfoldable pub in_push : Vad → List R.Float → Option Vad
    in_push v pcm =
        if leb (length v.input + length pcm) v.in_cap
        then some (record v { input = v.input ++ pcm })
        else (let cap =
              double_to (length v.input + length pcm) (if v.in_cap == 0 then 4096 else v.in_cap)
                (length v.input + length pcm) in
            if alloc cap then some (record v { input = v.input ++ pcm; in_cap = cap }) else none)

    -- The samples that the frame takes out of the queue.
    abbrev pub take_in : Vad → ℕ → Vad
    take_in v n = record v { acc = v.acc ++ take n v.input; input = drop n v.input }

    abbrev pub processed : Vad → Detector R → Vad
    processed v d = record v { detector = d; acc = [] }

    -- `if (process_frame(...)) return true;`
    abbrev pub go_on :
        Vad → Vad × Option (List R.Float) → Option (List R.Float) → Vad × Option (List R.Float)
    go_on w rest none = rest
    go_on w rest (some seg) = (w, some seg)

    -- `drain`, with fuel: a round takes a sample at least as long as the frame is not full.
    unfoldable pub drain : ℕ → Vad → Vad × Option (List R.Float)
    drain zero v = (v, none)
    drain (suc f) v =
        let need = frame_len R p - length v.acc in
        let w = take_in v (if ltb (length v.input) need then length v.input else need) in
        let (d, out) = process_frame R alloc p w.detector w.acc in
        let rest = drain f (processed w d) in
        if length v.input == 0
        then (v, none)
        else if ltb (length w.acc) (frame_len R p)
        then (w, none)
        else go_on (processed w d) rest out

    -- `vv_vad_drain`; each round but the last takes a sample.
    unfoldable pub drain_queue : Vad → Vad × Option (List R.Float)
    drain_queue v = drain (suc (length v.input)) v

    -- `vv_vad_push` on samples that are there.
    unfoldable pub push : Vad → List R.Float → Vad × Option (List R.Float)
    unfolding in_push drain_queue
    push v pcm =
        if length pcm == 0
        then (v, none)
        else elim (in_push v pcm) [ none ↦ (v, none) | some w ↦ drain_queue w ]

    -- `vv_vad_flush`
    unfoldable pub flush : Vad → Vad × Option (List R.Float)
    flush v =
        let d =
          if ltb 0 (length v.acc) && v.detector.active
          then append_frame R alloc p v.detector v.acc
          else v.detector in
        let (d', out) = emit R d in
        if length d.seg == 0
        then (record v { detector = d; acc = [] }, none)
        else (record v { detector = d'; acc = [] }, out)
