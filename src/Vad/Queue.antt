-- ===== src/Vad/Queue.antt =====
-- The queue of src/audio/vad.c against the detector that takes one sample at a time: however the
-- samples are cut into pushes, the same segments come out.
use vibevoice_c.Common.{
  ℕ, zero, suc, ◌+◌, ◌-◌, ◌≤◌, ◌<◌, ◌≡◌, ◌∙◌, ap, refl, sym, Bool, true, false, Option, none, some,
  List, [], ◌∷◌, ltb, ◌==◌, if◌then◌else◌, take, drop, length, arith, inl, inr, Bool-cases,
  take-append-drop, length-take, length-drop, length-append,
}
use vibevoice_c.Vad.Floats.{Floats}
use vibevoice_c.Vad.Detector.{Params, frame_len, process_frame}
use vibevoice_c.Vad.Stream.{Vad, drain, take_in, processed, go_on}
use vibevoice_c.Vad.Samples.{
  Heard, told, front, resume, sip_all, sip_all-append, sip_all-short, sip_all-full,
}

module _ (R : Floats) (alloc : ℕ → Bool) (p : Params R) where
  -- What a queue will be heard to say.
  abbrev pub hears : Vad R → Heard R
  hears v = sip_all R alloc p v.detector v.acc v.input

  -- A segment that is out, or an empty queue; and nothing that was in the queue is lost.
  abbrev pub Drained : Vad R → Vad R × Option (List R.Float) → Type 0
  Drained v (w, none) = (length w.input ≡ 0) × (length w.acc < frame_len R p) × (hears v ≡ hears w)
  Drained v (w, some seg) =
      (length w.input < length v.input)
      × (length w.acc < frame_len R p)
      × (hears v ≡ front R (seg ∷ []) (hears w))

  -- How many samples a round takes.
  abbrev taken : Vad R → ℕ
  taken v =
      let need = frame_len R p - length v.acc in
      if ltb (length v.input) need then length v.input else need

  taken_bounds :
      (v : Vad R)
      → length v.acc < frame_len R p
      → (taken v ≤ length v.input) × (length v.acc + taken v ≤ frame_len R p)
  taken_bounds v h = elim (Bool-cases (ltb (length v.input) (frame_len R p - length v.acc))) [
    | inl t ↦ rw t (omega arith, ground arith)
    | inr f ↦ rw f (ground arith, omega arith)
  ]

  hears-take_in :
      (v : Vad R) (n : ℕ)
      → hears v
        ≡ resume R alloc p (sip_all R alloc p v.detector v.acc (take n v.input)) (drop n v.input)
  hears-take_in v n =
      ap (λ (xs : List R.Float). sip_all R alloc p v.detector v.acc xs)
        (sym (take-append-drop n v.input))
      ∙ sip_all-append R alloc p v.detector v.acc (take n v.input) (drop n v.input)

  length-take_in :
      (v : Vad R) (n : ℕ)
      → n ≤ length v.input
      → (length (take_in R alloc p v n).acc ≡ length v.acc + n)
        × (length (take_in R alloc p v n).input ≡ length v.input - n)
  length-take_in v n h = (
    omega (arith, length-append v.acc (take n v.input), length-take n v.input),
    length-drop n v.input,
  )

  -- The frame is not full yet.
  hears-short :
      (v : Vad R)
      → length v.acc < frame_len R p
      → length (take_in R alloc p v (taken v)).acc < frame_len R p
      → (hears v ≡ hears (take_in R alloc p v (taken v)))
        × (length (take_in R alloc p v (taken v)).input ≡ 0)
  hears-short v h k =
      (let n = taken v in
        let b = taken_bounds v h in
        let e = length-take_in v n b.0 in
        let short =
          sip_all-short R alloc p v.detector v.acc (take n v.input)
            (omega (arith, length-take n v.input, e.0)) in
        (
          hears-take_in v n ∙ ap (λ (s : Heard R). resume R alloc p s (drop n v.input)) short,
          elim (Bool-cases (ltb (length v.input) (frame_len R p - length v.acc))) [
            | inl t ↦ rw t (omega (arith, length-drop (length v.input) v.input))
            | inr f ↦ absurd (ground (arith, e.0))
          ],
        ))

  -- The frame is full.
  hears-full :
      (v : Vad R)
      → length v.acc < frame_len R p
      → frame_len R p ≤ length (take_in R alloc p v (taken v)).acc
      → hears v ≡ (
          let w = take_in R alloc p v (taken v) in
          let (d, out) = process_frame R alloc p w.detector w.acc in
          front R (told R out) (hears (processed R alloc p w d)))
  hears-full v h k =
      (let n = taken v in
        let b = taken_bounds v h in
        let e = length-take_in v n b.0 in
        hears-take_in v n
        ∙ ap (λ (s : Heard R). resume R alloc p s (drop n v.input))
            (sip_all-full R alloc p v.detector v.acc (take n v.input) h
              (omega (arith, length-take n v.input, e.0, b.1))))

  Drained-if :
      (v : Vad R) (b : Bool) (x y : Vad R × Option (List R.Float))
      → (b ≡ true → Drained v x)
      → (b ≡ false → Drained v y)
      → Drained v (if b then x else y)
  Drained-if v true x y h k = h refl
  Drained-if v false x y h k = k refl

  Drained-from :
      (v w : Vad R) (x : Vad R × Option (List R.Float))
      → hears v ≡ hears w
      → length w.input ≤ length v.input
      → Drained w x
      → Drained v x
  Drained-from v w (u, none) e h k = (k.0, k.1, e ∙ k.2)
  Drained-from v w (u, some seg) e h k = (omega (arith, k.0), k.1, e ∙ k.2)

  Drained-go_on :
      (v w : Vad R) (rest : Vad R × Option (List R.Float)) (out : Option (List R.Float))
      → hears v ≡ front R (told R out) (hears w)
      → length w.input < length v.input
      → length w.acc < frame_len R p
      → Drained w rest
      → Drained v (go_on R alloc p w rest out)
  Drained-go_on v w rest none e h k d = Drained-from v w rest e (omega arith) d
  Drained-go_on v w rest (some seg) e h k d = (h, k, e)

  pub drain-Drained :
      (f : ℕ) (v : Vad R)
      → length v.acc < frame_len R p
      → length v.input < f
      → Drained v (drain R alloc p f v)
  unfolding drain
  drain-Drained zero v h k = absurd (omega arith)
  drain-Drained (suc f) v h k =
      (let w = take_in R alloc p v (taken v) in
        let d = process_frame R alloc p w.detector w.acc in
        let u = processed R alloc p w d.0 in
        let sizes = length-take_in v (taken v) (taken_bounds v h).0 in
        Drained-if v (length v.input == 0) _ _ (λ e. (ground arith, h, refl))
          (λ e.
            Drained-if v (ltb (length w.acc) (frame_len R p)) _ _
              (λ short.
                let s : length w.acc < frame_len R p = ground arith in
                let q = hears-short v h s in (q.1, s, q.0))
              (λ full.
                let s : frame_len R p ≤ length w.acc = ground arith in
                let n : 0 < length v.input = ground arith in
                let some_room : 0 < taken v = ground (arith, sizes.0) in
                let fewer : length u.input < length v.input = omega (arith, sizes.1) in
                Drained-go_on v u (drain R alloc p f u) d.1 (hears-full v h s) fewer (omega arith)
                  (drain-Drained f u (omega arith) (omega arith)))))
