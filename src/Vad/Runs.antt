-- ===== src/Vad/Runs.antt =====
-- The detector of src/audio/vad.c on small streams, with numbers for levels: a frame's level is the
-- sum of its samples, one sample a frame, and the thresholds do not move.
use vibevoice_c.Common.{
  double_to, ℕ, ◌+◌, ◌-◌, ◌≡◌, refl, true, false, Bool, List, [], ◌∷◌, ltb, arith,
}
use vibevoice_c.Vad.Floats.{Floats}
use vibevoice_c.Vad.Detector.{
  Params, Detector, process_frame, hear, listen, pre_push, pre_drain, ring, seg_reserve,
  append_frame, frame_db, sum_of_squares, start_threshold, push_sample,
}
use vibevoice_c.Vad.Stream.{Vad, create}
use vibevoice_c.Vad.Pieces.{Idle, listen_all, listen_all-sip_all}
use vibevoice_c.Vad.Samples.{sip_all}
use vibevoice_c.Vad.Bounds.{IsSound, OutFits, process_frame-bounds}
use vibevoice_c.Common.{joined}

abbrev numbers : Floats
numbers = record {
  Float = ℕ;
  Double = ℕ;
  nothing = 0;
  add_square = λ s x. s + x;
  decibels = λ s n. s;
  less = ltb;
  plus = λ x y. x + y;
  minus = λ x y. x - y;
  times = λ x y. 0;
  zero_db = 0;
  fast = 1;
  slow = 1;
  quietest = 0;
  unheard = 0;
  samples_of_ms = λ ms rate. ms;
  samples_of_s = λ s rate. s;
}

-- Frames of one sample; two loud samples open a segment, two silent ones close it.
abbrev params : Params numbers
params = record {
  sample_rate = 50;
  start_db = 5;
  stop_db = 3;
  min_speech_ms = 2;
  hangover_ms = 2;
  pre_roll_ms = 2;
  max_segment_s = 20;
  noise_margin_db = 0;
  adapt = false;
}

abbrev memory : ℕ → Bool
memory n = true

abbrev plenty : (n : ℕ) → memory n ≡ true
plenty n = refl

abbrev fresh : Vad numbers
unfolding create
fresh = create numbers (0 ∷ 0 ∷ 0 ∷ [])

abbrev pieces : List (List ℕ)
pieces = (1 ∷ 9 ∷ []) ∷ (8 ∷ 7 ∷ 0 ∷ 0 ∷ 2 ∷ []) ∷ (9 ∷ 9 ∷ []) ∷ []

listen_all-sip_all_example :
    (let (w, segs) = listen_all numbers memory params fresh pieces in
      Idle numbers memory params w
      × (sip_all numbers memory params fresh.detector fresh.acc (joined pieces)
          ≡ ((w.detector, w.acc), segs)))
unfolding create
listen_all-sip_all_example =
    listen_all-sip_all numbers memory params plenty fresh pieces (refl, omega arith)

-- An open segment.
abbrev open_segment : Detector numbers
open_segment = record fresh.detector {
  seg = 9 ∷ 9 ∷ [];
  seg_cap = 2;
  active = true;
  silence_run = 1;
}

process_frame-bounds_example :
    (let (w, out) = process_frame numbers memory params open_segment (0 ∷ []) in
      IsSound numbers memory params 1 w × OutFits numbers memory params 1 out)
unfolding fresh
process_frame-bounds_example =
    process_frame-bounds numbers memory params open_segment (0 ∷ []) (omega arith, omega arith)

-- One loud frame heard, the next will open a segment.
abbrev about_to_open : Detector numbers
about_to_open = record fresh.detector {
  pre = 1 ∷ 9 ∷ 0 ∷ [];
  pre_len = 2;
  pre_head = 2;
  speech_run = 1;
}

-- The frame that opens a segment, 8 here, is in it twice: the ring has it last, and it is appended.
opening_frame :
    (process_frame numbers memory params about_to_open (8 ∷ [])).0.seg ≡ 1 ∷ 9 ∷ 8 ∷ 8 ∷ []
unfolding fresh process_frame hear listen pre_push pre_drain ring seg_reserve append_frame frame_db
    sum_of_squares start_threshold push_sample double_to
opening_frame = refl
