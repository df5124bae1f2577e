-- ===== src/Vad/Pieces.antt =====
-- A listener of src/audio/vad.c that pushes what arrives, piece by piece, and drains after a segment
-- until none comes, as include/vibevoice/capture.h asks it to.
use vibevoice_c.Common.{
  ℕ, zero, suc, ◌+◌, ◌≤◌, ◌<◌, ◌≡◌, ◌∙◌, ap, refl, sym, Bool, true, false, Option, none, some, List,
  [], ◌∷◌, ◌++◌, leb, ◌==◌, if◌then◌else◌, length, arith, inl, inr, Bool-cases, length-append,
  joined, length-zero, double_to,
}
use mathlib.Core.Path.{subst}
use vibevoice_c.Vad.Floats.{Floats}
use vibevoice_c.Vad.Detector.{Params, frame_len}
use vibevoice_c.Vad.Stream.{Vad, in_push, drain_queue, push}
use vibevoice_c.Vad.Samples.{Heard, front, resume, sip_all, sip_all-append}
use vibevoice_c.Vad.Queue.{hears, Drained, drain-Drained}

module _ (R : Floats) (alloc : ℕ → Bool) (p : Params R) where
  -- The segments of a call and of the drains that follow it.
  unfoldable collect : ℕ → Vad R × Option (List R.Float) → Vad R × List (List R.Float)
  collect f (w, none) = (w, [])
  collect zero (w, some seg) = (w, seg ∷ [])
  collect (suc f) (w, some seg) =
      let (u, later) = collect f (drain_queue R alloc p w) in (u, seg ∷ later)

  unfoldable pub listen_all : Vad R → List (List R.Float) → Vad R × List (List R.Float)
  unfolding collect
  listen_all v [] = (v, [])
  listen_all v (c ∷ cs) =
      let (w, segs) = collect (length v.input + length c) (push R alloc p v c) in
      let (u, later) = listen_all w cs in (u, segs ++ later)

  -- All is heard.
  abbrev pub Idle : Vad R → Type 0
  Idle v = (length v.input ≡ 0) × (length v.acc < frame_len R p)

  abbrev Collected : Vad R → Vad R × List (List R.Float) → Type 0
  Collected v (w, segs) = Idle w × (hears R alloc p v ≡ ((w.detector, w.acc), segs))

  hears-Idle : (v : Vad R) → Idle v → hears R alloc p v ≡ ((v.detector, v.acc), [])
  unfolding sip_all
  hears-Idle v h = rw (length-zero v.input h.0) refl

  collect-Collected :
      (f : ℕ) (v : Vad R) (x : Vad R × Option (List R.Float))
      → length v.input ≤ f
      → Drained R alloc p v x
      → Collected v (collect f x)
  unfolding collect drain_queue
  collect-Collected f v (w, none) h d = ((d.0, d.1), d.2 ∙ hears-Idle w (d.0, d.1))
  collect-Collected zero v (w, some seg) h d = absurd (omega (arith, d.0))
  collect-Collected (suc f) v (w, some seg) h d =
      (let go =
          collect-Collected f w (drain_queue R alloc p w) (omega (arith, d.0))
            (drain-Drained R alloc p (suc (length w.input)) w d.1 (omega arith)) in
        (go.0, d.2 ∙ ap (λ (x : Heard R). front R (seg ∷ []) x) go.1))

  module _ (plenty : (n : ℕ) → alloc n ≡ true) where
    -- What the queue holds after `in_push`.
    in_push-some :
        (v : Vad R) (c : List R.Float)
        → (w : Vad R) × (in_push R alloc p v c ≡ some w)
          × (w.input ≡ v.input ++ c)
          × (w.acc ≡ v.acc)
          × (w.detector ≡ v.detector)
    unfolding in_push
    in_push-some v c = elim (Bool-cases (leb (length v.input + length c) v.in_cap)) [
      | inl t ↦ (record v { input = v.input ++ c }, rw t refl, refl, refl, refl)
      | inr f ↦
          (let cap =
              double_to (length v.input + length c) (if v.in_cap == 0 then 4096 else v.in_cap)
                (length v.input + length c) in
            (
              record v { input = v.input ++ c; in_cap = cap },
              rw (f, plenty cap) refl,
              refl,
              refl,
              refl,
            ))
    ]

    -- The queue's state and segments are those of the samples.
    abbrev Told : Vad R → List R.Float → Vad R × List (List R.Float) → Type 0
    Told v c (w, segs) =
        Idle w × (sip_all R alloc p v.detector v.acc c ≡ ((w.detector, w.acc), segs))

    hears-queued :
        (v w : Vad R) (c : List R.Float)
        → Idle v
        → w.input ≡ v.input ++ c
        → w.acc ≡ v.acc
        → w.detector ≡ v.detector
        → hears R alloc p w ≡ sip_all R alloc p v.detector v.acc c
    hears-queued v w c h e a d = rw (e, a, d, length-zero v.input h.0) refl

    push-drain_queue :
        (v w : Vad R) (c : List R.Float)
        → length c == 0 ≡ false
        → in_push R alloc p v c ≡ some w
        → push R alloc p v c ≡ drain_queue R alloc p w
    unfolding push
    push-drain_queue v w c f e = rw (f, e) refl

    push-empty : (v : Vad R) (c : List R.Float) → length c ≡ 0 → push R alloc p v c ≡ (v, none)
    unfolding push
    push-empty v c e = rw (length-zero c e) refl

    push-Told :
        (v : Vad R) (c : List R.Float)
        → Idle v
        → Told v c (collect (length v.input + length c) (push R alloc p v c))
    unfolding collect drain_queue sip_all
    push-Told v c h = elim (Bool-cases (length c == 0)) [
      | inl t ↦
          (let z : length c ≡ 0 = ground arith in
            subst
              (λ (x : Vad R × Option (List R.Float)).
                Told v c (collect (length v.input + length c) x))
              (sym (push-empty v c z)) (h, rw (length-zero c z) refl))
      | inr f ↦
          (let (w, e, i, a, d) = in_push-some v c in
            let n = length v.input + length c in
            let go =
              collect-Collected n w (drain_queue R alloc p w)
                (omega (arith, ap length i, length-append v.input c))
                (drain-Drained R alloc p (suc (length w.input)) w (omega (arith, ap length a, h.1))
                  (omega arith)) in
            subst (λ (x : Vad R × Option (List R.Float)). Told v c (collect n x))
              (sym (push-drain_queue v w c f e)) (go.0, sym (hears-queued v w c h i a d) ∙ go.1))
    ]

    -- However a stream is cut into pushes, a listener that drains after each segment gets the
    -- segments of the detector that takes one sample at a time, and ends where that one ends; if no
    -- memory is refused, a frame has a sample at least, and the queue was empty.
    pub listen_all-sip_all :
        (v : Vad R) (pieces : List (List R.Float))
        → Idle v
        → (let (w, segs) = listen_all v pieces in
            Idle w
            × (sip_all R alloc p v.detector v.acc (joined pieces) ≡ ((w.detector, w.acc), segs)))
    unfolding listen_all sip_all
    listen_all-sip_all v [] h = (h, refl)
    listen_all-sip_all v (c ∷ cs) h =
        (let (w, segs) = collect (length v.input + length c) (push R alloc p v c) in
          let one : Told v c (collect (length v.input + length c) (push R alloc p v c)) =
            push-Told v c h in
          let later = listen_all-sip_all w cs one.0 in
          (
            later.0,
            sip_all-append R alloc p v.detector v.acc c (joined cs)
                ∙ ap (λ (x : Heard R). resume R alloc p x (joined cs)) one.1
                ∙ ap (λ (x : Heard R). front R segs x) later.1,
          ))
