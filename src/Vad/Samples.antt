-- ===== src/Vad/Samples.antt =====
-- The stream of src/audio/vad.c without its queue: the process_frame of Vad.Detector behind a loop that
-- takes one sample at a time.
use vibevoice_c.Common.{
  ℕ, ◌+◌, ◌<◌, ◌≡◌, ◌∙◌, ap, refl, sym, Bool, Option, none, some, List, [], ◌∷◌, ◌++◌, append-nil,
  append_assoc, ltb, if◌then◌else◌, length, arith, inl, inr, Bool-cases, length-append,
}
use vibevoice_c.Vad.Floats.{Floats}
use vibevoice_c.Vad.Detector.{Params, Detector, frame_len, process_frame}

module _ (R : Floats) where
  abbrev pub Heard : Type 0
  Heard = (Detector R × List R.Float) × List (List R.Float)

  abbrev pub told : Option (List R.Float) → List (List R.Float)
  told none = []
  told (some seg) = seg ∷ []

  abbrev pub front : List (List R.Float) → Heard → Heard
  front o (s, o') = (s, o ++ o')

  module _ (alloc : ℕ → Bool) (p : Params R) where
    -- One frame that is full, or not yet.
    abbrev frame_done : Detector R → List R.Float → Heard
    frame_done d acc = let (d', out) = process_frame R alloc p d acc in ((d', []), told out)

    unfoldable pub sip : Detector R → List R.Float → Heard
    sip d acc = if ltb (length acc) (frame_len R p) then ((d, acc), []) else frame_done d acc

    unfoldable pub sip_all : Detector R → List R.Float → List R.Float → Heard
    unfolding sip
    sip_all d acc [] = ((d, acc), [])
    sip_all d acc (x ∷ xs) =
        let ((d', acc'), o) = sip d (acc ++ x ∷ []) in front o (sip_all d' acc' xs)

    -- What is heard after what was heard.
    abbrev pub resume : Heard → List R.Float → Heard
    resume ((d, acc), o) xs = front o (sip_all d acc xs)

    resume-front :
        (o : List (List R.Float)) (h : Heard) (xs : List R.Float)
        → resume (front o h) xs ≡ front o (resume h xs)
    resume-front o ((d, acc), o') xs =
        ap (λ (l : List (List R.Float)). ((sip_all d acc xs).0, l)) (append_assoc o o' _)

    pub sip_all-append :
        (d : Detector R) (acc xs ys : List R.Float)
        → sip_all d acc (xs ++ ys) ≡ resume (sip_all d acc xs) ys
    unfolding sip_all
    sip_all-append d acc [] ys = refl
    sip_all-append d acc (x ∷ xs) ys =
        (let h = sip d (acc ++ x ∷ []) in
          ap (front h.1) (sip_all-append h.0.0 h.0.1 xs ys)
          ∙ sym (resume-front h.1 (sip_all h.0.0 h.0.1 xs) ys))

    sip-short :
        (d : Detector R) (acc : List R.Float)
        → length acc < frame_len R p
        → sip d acc ≡ ((d, acc), [])
    unfolding sip
    sip-short d acc h = elim (Bool-cases (ltb (length acc) (frame_len R p))) [
      | inl t ↦ rw t refl
      | inr f ↦ absurd (ground arith)
    ]

    -- Samples that do not fill the frame.
    pub sip_all-short :
        (d : Detector R) (acc xs : List R.Float)
        → length acc + length xs < frame_len R p
        → sip_all d acc xs ≡ ((d, acc ++ xs), [])
    unfolding sip_all
    sip_all-short d acc [] h = rw (append-nil acc) refl
    sip_all-short d acc (x ∷ xs) h =
        (let e : length (acc ++ x ∷ []) + length xs < frame_len R p =
            omega (arith, length-append acc (x ∷ [])) in
          rw (sip-short d (acc ++ x ∷ []) (omega (arith, e)))
            (sip_all-short d (acc ++ x ∷ []) xs e ∙ rw (append_assoc acc (x ∷ []) xs) refl))

    -- Samples that just fill it.
    pub sip_all-full :
        (d : Detector R) (acc xs : List R.Float)
        → length acc < frame_len R p
        → length acc + length xs ≡ frame_len R p
        → sip_all d acc xs ≡ frame_done d (acc ++ xs)
    unfolding sip_all sip
    sip_all-full d acc [] h e = absurd (omega arith)
    sip_all-full d acc (x ∷ []) h e =
        elim (Bool-cases (ltb (length (acc ++ x ∷ [])) (frame_len R p))) [
          | inl t ↦ absurd (ground (arith, length-append acc (x ∷ [])))
          | inr f ↦ rw (f, append-nil (told (process_frame R alloc p d (acc ++ x ∷ [])).1)) refl
        ]
    sip_all-full d acc (x ∷ y ∷ xs) h e =
        (let k : length (acc ++ x ∷ []) < frame_len R p =
            omega (arith, length-append acc (x ∷ [])) in
          rw (sip-short d (acc ++ x ∷ []) k) (
            sip_all-full d (acc ++ x ∷ []) (y ∷ xs) k (omega (arith, length-append acc (x ∷ [])))
            ∙ rw (append_assoc acc (x ∷ []) (y ∷ xs)) refl))
