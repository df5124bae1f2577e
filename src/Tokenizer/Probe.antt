-- ===== src/Tokenizer/Probe.antt =====
-- Walking the buckets of src/text_tokenizer/bpe.c from one to the next.
use vibevoice_c.Common.{
  ℕ, zero, suc, ◌<◌, ◌≤◌, ◌≡◌, refl, Bool, true, false, none, some, [], ◌∷◌, get_or, set, length,
  arith, inl, inr, Option-cases,
}
use vibevoice_c.Tokenizer.Table.{at, empty, Buckets, advance, bucket_put, bucket_get}

get_or-set_self : (b : Buckets) (i e : ℕ) → i < length b → get_or (set b i (some e)) i none ≡ some e
get_or-set_self [] i e h = absurd (omega arith)
get_or-set_self (x ∷ b) zero e h = refl
get_or-set_self (x ∷ b) (suc i) e h = get_or-set_self b i e (omega arith)

-- A bucket that is filled stays as it is when an empty one is filled.
get_or-set_other :
    (b : Buckets) (i q e f : ℕ)
    → get_or b i none ≡ none
    → get_or b q none ≡ some f
    → get_or (set b i (some e)) q none ≡ some f
get_or-set_other [] i q e f h k = k
get_or-set_other (x ∷ b) zero zero e f h k = absurd (ground (arith, h, k))
get_or-set_other (x ∷ b) zero (suc q) e f h k = k
get_or-set_other (x ∷ b) (suc i) zero e f h k = k
get_or-set_other (x ∷ b) (suc i) (suc q) e f h k = get_or-set_other b i q e f h k

module _ (mask : ℕ) where
  -- The bucket that is `d` steps behind `i`.
  unfoldable pub hop : ℕ → ℕ → ℕ
  hop zero i = i
  hop (suc d) i = hop d (advance mask i)

  -- An entry at `d` steps, behind entries that were put earlier.
  abbrev pub Found : Buckets → ℕ → ℕ → ℕ → Type 0
  Found b e zero i = get_or b i none ≡ some e
  Found b e (suc d) i =
      ((c : ℕ) × (get_or b i none ≡ some c) × (c < e)) × Found b e d (advance mask i)

  -- An empty bucket at `d` steps, the first one.
  abbrev pub Free : Buckets → ℕ → ℕ → Type 0
  Free b zero i = get_or b i none ≡ none
  Free b (suc d) i = ((c : ℕ) × (get_or b i none ≡ some c)) × Free b d (advance mask i)

  -- Where there is an empty bucket there is a first one.
  pub first-Free :
      (b : Buckets) (m i : ℕ) → get_or b (hop m i) none ≡ none → (d : ℕ) × (d ≤ m) × Free b d i
  unfolding hop
  first-Free b zero i h = (0, omega arith, h)
  first-Free b (suc m) i h = elim (Option-cases (get_or b i none)) [
    | inl e ↦ (0, omega arith, e)
    | inr (c, e) ↦
        let (d, k, f) = first-Free b m (advance mask i) h in (suc d, omega arith, ((c, e), f))
  ]

  pub Free-end : (b : Buckets) (d i : ℕ) → Free b d i → get_or b (hop d i) none ≡ none
  unfolding hop
  Free-end b zero i f = f
  Free-end b (suc d) i f = Free-end b d (advance mask i) f.1

  -- The code's walk stops at the first empty bucket.
  pub bucket_put-Free :
      (f : ℕ) (b : Buckets) (d i e : ℕ)
      → Free b d i
      → d < f
      → bucket_put f mask i e b ≡ set b (hop d i) (some e)
  unfolding bucket_put hop
  bucket_put-Free zero b d i e h k = absurd (omega arith)
  bucket_put-Free (suc f) b zero i e h k = rw (bucket_put, h) refl
  bucket_put-Free (suc f) b (suc d) i e h k =
      let (c, full) = h.0 in
      rw (bucket_put, full) (bucket_put-Free f b d (advance mask i) e h.1 (omega arith))

  -- Filling an empty bucket leads no walk astray.
  pub Found-set :
      (b : Buckets) (e d i j x : ℕ)
      → get_or b j none ≡ none
      → Found b e d i
      → Found (set b j (some x)) e d i
  Found-set b e zero i j x h f = get_or-set_other b j i x e h f
  Found-set b e (suc d) i j x h ((c, full, less), f) =
      ((c, get_or-set_other b j i x c h full, less), Found-set b e d (advance mask i) j x h f)

  -- The entry that was put is found, if those before it were put earlier.
  pub Found-put :
      (b : Buckets) (e d i : ℕ)
      → Free b d i
      → hop d i < length b
      → ((q c : ℕ) → get_or b q none ≡ some c → c < e)
      → Found (set b (hop d i) (some e)) e d i
  unfolding hop
  Found-put b e zero i h k old = get_or-set_self b i e k
  Found-put b e (suc d) i ((c, full), h) k old =
      (let there = Free-end b d (advance mask i) h in
        (
          (c, get_or-set_other b (hop d (advance mask i)) i e c there full, old i c full),
          Found-put b e d (advance mask i) h k old,
        ))

  module _ (test : ℕ → Bool) where
    -- The walk finds an entry that passes, if none that was put earlier does.
    pub bucket_get-Found :
        (f : ℕ) (b : Buckets) (e d i : ℕ)
        → Found b e d i
        → d < f
        → test e ≡ true
        → ((c : ℕ) → c < e → test c ≡ false)
        → bucket_get f mask i test b ≡ at e
    unfolding bucket_get
    bucket_get-Found zero b e d i h k t early = absurd (omega arith)
    bucket_get-Found (suc f) b e zero i h k t early = rw (bucket_get, h, t) refl
    bucket_get-Found (suc f) b e (suc d) i ((c, full, less), h) k t early =
        rw (bucket_get, full, early c less)
          (bucket_get-Found f b e d (advance mask i) h (omega arith) t early)

    -- The walk ends at an empty bucket, if no entry passes.
    pub bucket_get-Free :
        (f : ℕ) (b : Buckets) (d i : ℕ)
        → Free b d i
        → d < f
        → ((q c : ℕ) → get_or b q none ≡ some c → test c ≡ false)
        → bucket_get f mask i test b ≡ empty
    unfolding bucket_get
    bucket_get-Free zero b d i h k fails = absurd (omega arith)
    bucket_get-Free (suc f) b zero i h k fails = rw (bucket_get, h) refl
    bucket_get-Free (suc f) b (suc d) i ((c, full), h) k fails =
        rw (bucket_get, full, fails i c full)
          (bucket_get-Free f b d (advance mask i) h (omega arith) fails)
