-- ===== src/Vad/Buffers.antt =====
-- What the functions of src/audio/vad.c leave of the segment's length and the ring's.
use vibevoice_c.Common.{
  ℕ, zero, suc, ◌+◌, ◌-◌, ◌%◌, ◌≤◌, ◌≡◌, ap, refl, Bool, List, [], ◌∷◌, ◌++◌, leb, ◌==◌,
  if◌then◌else◌, length, arith, ◌⊎◌, inl, inr, Bool-cases, length-append, double_to,
}
use vibevoice_c.Vad.Floats.{Floats}
use vibevoice_c.Vad.Detector.{
  Params, Detector, pre_cap, pre_push, push_sample, ring, seg_reserve, append_frame, pre_drain,
}

module _ (R : Floats) (alloc : ℕ → Bool) (p : Params R) where
  length-ring : (pre : List R.Float) (start i n : ℕ) → length (ring R p pre start i n) ≡ n
  unfolding ring
  length-ring pre start i zero = refl
  length-ring pre start i (suc n) = ap suc (length-ring pre start (i + 1) n)

  append_frame-cases :
      (v : Detector R) (f : List R.Float)
      → (append_frame R alloc p v f ≡ v)
        ⊎ ((c : ℕ) × (append_frame R alloc p v f ≡ record v { seg_cap = c; seg = v.seg ++ f }))
  unfolding append_frame seg_reserve
  append_frame-cases v f = elim (Bool-cases (leb (length v.seg + length f) v.seg_cap)) [
    | inl t ↦ inr (v.seg_cap, rw (append_frame, seg_reserve, t) refl)
    | inr n ↦
        (let cap =
            double_to (length v.seg + length f)
              (if v.seg_cap == 0 then p.sample_rate else v.seg_cap) (length v.seg + length f) in
          elim (Bool-cases (alloc cap)) [
            | inl a ↦ inr (cap, rw (append_frame, seg_reserve, n, a) refl)
            | inr b ↦ inl (rw (append_frame, seg_reserve, n, b) refl)
          ])
  ]

  pre_drain-cases :
      (v : Detector R)
      → (pre_drain R alloc p v ≡ v)
        ⊎ ((c : ℕ) × (s : List R.Float) × (length s ≡ v.pre_len)
            × (pre_drain R alloc p v ≡ record v { seg_cap = c; seg = v.seg ++ s; pre_len = 0 }))
  unfolding pre_drain seg_reserve
  pre_drain-cases v =
      (let s = ring R p v.pre ((v.pre_head + pre_cap R p - v.pre_len) % pre_cap R p) 0 v.pre_len in
        let e : length s ≡ v.pre_len = length-ring v.pre _ 0 v.pre_len in
        elim (Bool-cases (leb (length v.seg + v.pre_len) v.seg_cap)) [
          | inl t ↦ inr (v.seg_cap, s, e, rw (pre_drain, seg_reserve, t) refl)
          | inr n ↦
              (let cap =
                  double_to (length v.seg + v.pre_len)
                    (if v.seg_cap == 0 then p.sample_rate else v.seg_cap)
                    (length v.seg + v.pre_len) in
                elim (Bool-cases (alloc cap)) [
                  | inl a ↦ inr (cap, s, e, rw (pre_drain, seg_reserve, n, a) refl)
                  | inr b ↦ inl (rw (pre_drain, seg_reserve, n, b) refl)
                ])
        ])

  -- The ring never holds more than its capacity, and leaves the segment alone.
  pub pre_push-keeps :
      (v : Detector R) (f : List R.Float)
      → v.pre_len ≤ pre_cap R p
      → ((pre_push R p v f).pre_len ≤ pre_cap R p)
        × ((pre_push R p v f).seg ≡ v.seg)
        × ((pre_push R p v f).active ≡ v.active)
  unfolding pre_push push_sample
  pre_push-keeps v [] h = (h, refl, refl)
  pre_push-keeps v (x ∷ xs) h = pre_push-keeps (push_sample R p v x) xs (ground arith)

  pub append_frame-length :
      (v : Detector R) (f : List R.Float)
      → (length (append_frame R alloc p v f).seg ≤ length v.seg + length f)
        × ((append_frame R alloc p v f).pre_len ≡ v.pre_len)
        × ((append_frame R alloc p v f).active ≡ v.active)
  append_frame-length v f = elim (append_frame-cases v f) [
    | inl e ↦ rw e (omega arith, refl, refl)
    | inr (c, e) ↦ rw e (omega (arith, length-append v.seg f), refl, refl)
  ]

  pub pre_drain-length :
      (v : Detector R)
      → (length (pre_drain R alloc p v).seg ≤ length v.seg + v.pre_len)
        × ((pre_drain R alloc p v).pre_len ≤ v.pre_len)
        × ((pre_drain R alloc p v).active ≡ v.active)
  pre_drain-length v = elim (pre_drain-cases v) [
    | inl e ↦ rw e (omega arith, omega arith, refl)
    | inr (c, s, l, e) ↦ rw e (omega (arith, l, length-append v.seg s), omega arith, refl)
  ]
