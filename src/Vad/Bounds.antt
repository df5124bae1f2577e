-- ===== src/Vad/Bounds.antt =====
-- How long a segment of src/audio/vad.c can be.
use vibevoice_c.Common.{
  ℕ, ◌+◌, ◌≤◌, ◌<◌, ◌≡◌, ◌∙◌, ap, refl, sym, max, Bool, true, false, not, Option, none, some, List,
  leb, ◌==◌, if◌then◌else◌, length, arith,
}
use mathlib.Core.Path.{subst}
use vibevoice_c.Vad.Floats.{Floats}
use vibevoice_c.Vad.Detector.{
  Params, Detector, pre_cap, pre_push, emit, hear, append_frame, pre_drain, listen, follow,
  process_frame, cut_if_long, start_threshold, stop_threshold, frame_db,
}
use vibevoice_c.Vad.Buffers.{pre_push-keeps, append_frame-length, pre_drain-length}

module _ (R : Floats) (alloc : ℕ → Bool) (p : Params R) where
  -- The longest that a segment grows to before it is cut.
  abbrev seg_limit : ℕ → ℕ
  seg_limit n = max (R.samples_of_s p.max_segment_s p.sample_rate) (pre_cap R p + n)

  abbrev SegFits : ℕ → Bool → ℕ → Type 0
  SegFits n true len = len ≤ seg_limit n
  SegFits n false len = len ≡ 0

  -- No segment when none is open, and never one beyond the limit.
  abbrev pub IsSound : ℕ → Detector R → Type 0
  IsSound n v = (v.pre_len ≤ pre_cap R p) × SegFits n v.active (length v.seg)

  abbrev pub OutFits : ℕ → Option (List R.Float) → Type 0
  OutFits n none = Unit {0}
  OutFits n (some seg) = (0 < length seg) × (length seg ≤ seg_limit n + n)

  IsSound-open :
      (n : ℕ) (v : Detector R)
      → v.active ≡ true
      → v.pre_len ≤ pre_cap R p
      → length v.seg ≤ seg_limit n
      → IsSound n v
  IsSound-open n v a h k = (h, subst (λ (b : Bool). SegFits n b (length v.seg)) (sym a) k)

  IsSound-idle :
      (n : ℕ) (v : Detector R)
      → v.active ≡ false
      → v.pre_len ≤ pre_cap R p
      → length v.seg ≡ 0
      → IsSound n v
  IsSound-idle n v a h k = (h, subst (λ (b : Bool). SegFits n b (length v.seg)) (sym a) k)

  IsSound-if :
      (n : ℕ) (b : Bool) (v w : Detector R)
      → IsSound n v
      → IsSound n w
      → IsSound n (if b then v else w)
  IsSound-if n true v w h k = h
  IsSound-if n false v w h k = k

  -- The frame that may open a segment.
  listen-IsSound :
      (v : Detector R) (f : List R.Float)
      → v.pre_len ≤ pre_cap R p
      → v.active ≡ false
      → length v.seg ≡ 0
      → IsSound (length f) (listen R alloc p v f)
  unfolding listen
  listen-IsSound v f h a s =
      (let w = pre_push R p v f in
        let k = pre_push-keeps R alloc p v f h in
        let quiet : (r : ℕ) → IsSound (length f) (record w { speech_run = r }) = λ r.
          IsSound-idle (length f) (record w { speech_run = r }) (k.2 ∙ a) k.0 (ap length k.1 ∙ s) in
        let u : Detector R = record w {
          speech_run = w.speech_run + length f;
          active = true;
          silence_run = 0;
        } in
        let d = pre_drain-length R alloc p u in
        let e = append_frame-length R alloc p (pre_drain R alloc p u) f in
        IsSound-if (length f) (R.less (start_threshold R p w) (frame_db R f)) _ _
          (IsSound-if (length f)
            (leb (R.samples_of_ms p.min_speech_ms p.sample_rate) (w.speech_run + length f)) _ _
            (IsSound-open (length f) (append_frame R alloc p (pre_drain R alloc p u) f) (e.2 ∙ d.2)
              (omega (arith, e.1, d.1, k.0)) (omega (arith, e.0, d.0, k.0, ap length k.1, s)))
            (quiet (w.speech_run + length f)))
          (quiet 0))

  -- A detector and what it hands over.
  abbrev Kept : ℕ → Detector R × Option (List R.Float) → Type 0
  Kept n (w, out) = IsSound n w × OutFits n out

  Kept-if :
      (n : ℕ) (b : Bool) (x y : Detector R × Option (List R.Float))
      → (b ≡ true → Kept n x)
      → (b ≡ false → Kept n y)
      → Kept n (if b then x else y)
  Kept-if n true x y h k = h refl
  Kept-if n false x y h k = k refl

  emit-Kept :
      (n : ℕ) (v : Detector R)
      → v.pre_len ≤ pre_cap R p
      → length v.seg ≤ seg_limit n + n
      → Kept n (emit R v)
  unfolding emit
  emit-Kept n v h k =
      Kept-if n (length v.seg == 0) _ _ (λ e. ((h, ground arith), tt))
        (λ e. ((h, refl), (ground arith, k)))

  cut_if_long-Kept :
      (n : ℕ) (v : Detector R)
      → v.active ≡ true
      → v.pre_len ≤ pre_cap R p
      → length v.seg ≤ seg_limit n + n
      → Kept n (cut_if_long R alloc p v)
  cut_if_long-Kept n v a h k =
      Kept-if n (leb (R.samples_of_s p.max_segment_s p.sample_rate) (length v.seg)) _ _
        (λ e. emit-Kept n v h k) (λ e. (IsSound-open n v a h (ground arith), tt))

  follow-Kept :
      (v : Detector R) (f : List R.Float)
      → v.pre_len ≤ pre_cap R p
      → v.active ≡ true
      → length v.seg ≤ seg_limit (length f)
      → Kept (length f) (follow R alloc p v f)
  unfolding follow
  follow-Kept v f h a s =
      (let n = length f in
        let w = append_frame R alloc p v f in
        let e = append_frame-length R alloc p v f in
        let room : length w.seg ≤ seg_limit n + n = omega (arith, e.0) in
        let ring_room : w.pre_len ≤ pre_cap R p = omega (arith, e.1) in
        Kept-if n (R.less (frame_db R f) (stop_threshold R p w)) _ _
          (λ silent.
            Kept-if n (leb (R.samples_of_ms p.hangover_ms p.sample_rate) (w.silence_run + n)) _ _
              (λ long. emit-Kept n (record w { silence_run = w.silence_run + n }) ring_room room)
              (λ short.
                cut_if_long-Kept n (record w { silence_run = w.silence_run + n }) (e.2 ∙ a)
                  ring_room room))
          (λ loud. cut_if_long-Kept n (record w { silence_run = 0 }) (e.2 ∙ a) ring_room room))

  hear-keeps :
      (v : Detector R) (f : List R.Float)
      → ((hear R p v f).pre_len ≡ v.pre_len)
        × ((hear R p v f).seg ≡ v.seg)
        × ((hear R p v f).active ≡ v.active)
  unfolding hear
  hear-keeps v f = (refl, refl, refl)

  not-true : (b : Bool) → not b ≡ true → b ≡ false
  not-true true h = ground arith
  not-true false h = refl

  not-false : (b : Bool) → not b ≡ false → b ≡ true
  not-false true h = refl
  not-false false h = ground arith

  -- From a detector within these bounds, a frame keeps a segment within the limit, which is the longest segment asked for or the ring with
  -- one frame more; a segment that is handed over has at most one frame beyond it and is not empty.
  -- When none is open, none is stored. It holds whatever memory is refused.
  pub process_frame-bounds :
      (v : Detector R) (f : List R.Float)
      → IsSound (length f) v
      → (let (w, out) = process_frame R alloc p v f in
          IsSound (length f) w × OutFits (length f) out)
  unfolding process_frame
  process_frame-bounds v f h =
      (let w = hear R p v f in
        let k = hear-keeps v f in
        let fits : SegFits (length f) w.active (length w.seg) = rw (k.1, k.2) h.1 in
        let ring_room : w.pre_len ≤ pre_cap R p = omega (arith, k.0, h.0) in
        Kept-if (length f) (not w.active) _ _
          (λ closed. (
            listen-IsSound w f ring_room (not-true w.active closed) (
                subst (λ (b : Bool). SegFits (length f) b (length w.seg)) (not-true w.active closed)
                  fits),
            tt,
          ))
          (λ opened. follow-Kept w f ring_room (not-false w.active opened) (
            subst (λ (b : Bool). SegFits (length f) b (length w.seg)) (not-false w.active opened)
              fits)))
