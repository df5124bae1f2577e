-- ===== src/Tokenizer/Filled.antt =====
-- The hash tables of src/text_tokenizer/bpe.c as they are filled: there is always an empty bucket, and
-- every entry is found from its own.
use vibevoice_c.Common.{
  ℕ, zero, suc, ◌+◌, ◌-◌, ◌*◌, ◌%◌, ◌^◌, ◌<◌, ◌≤◌, ◌≡◌, ◌∙◌, refl, sym, ap, Option, none, some,
  List, [], ◌∷◌, leb, ◌==◌, get_or, get_elem?, set, replicate, length, length-set, length-replicate,
  arith, inl, inr, Bool-cases, All, All-set, bit_and_ones, pow2-positive,
}
use native.Mathlib.Nat.{mod-lt, mod-add-mod, mod-eq_of_lt, mul-add-mod_self_right}
use mathlib.Core.Path.{subst}
use vibevoice_c.Tokenizer.Table.{Buckets, advance, home, bucket_put, put_all, build_table}
use vibevoice_c.Tokenizer.Probe.{
  hop, Found, Free, first-Free, Free-end, bucket_put-Free, Found-set, Found-put,
}

-- The number of empty buckets.
abbrev pub count_free : Buckets → ℕ
count_free [] = 0
count_free (none ∷ b) = suc (count_free b)
count_free (some e ∷ b) = count_free b

count_free-set :
    (b : Buckets) (i e : ℕ)
    → i < length b
    → get_or b i none ≡ none
    → suc (count_free (set b i (some e))) ≡ count_free b
count_free-set [] i e h k = absurd (omega arith)
count_free-set (none ∷ b) zero e h k = refl
count_free-set (some c ∷ b) zero e h k = absurd (ground (arith, k))
count_free-set (none ∷ b) (suc i) e h k = ap suc (count_free-set b i e (omega arith) k)
count_free-set (some c ∷ b) (suc i) e h k = count_free-set b i e (omega arith) k

an_empty_one :
    (b : Buckets) → 0 < count_free b → (p : ℕ) × (p < length b) × (get_or b p none ≡ none)
an_empty_one [] h = absurd (omega arith)
an_empty_one (none ∷ b) h = (0, omega arith, refl)
an_empty_one (some c ∷ b) h = let (p, k, e) = an_empty_one b h in (suc p, omega arith, e)

abbrev pub Under : ℕ → Option ℕ → Type 0
Under i none = Unit {0}
Under i (some e) = e < i

pub Under-get_or : (b : Buckets) (i q c : ℕ) → All (Under i) b → get_or b q none ≡ some c → c < i
Under-get_or [] i q c a e = absurd (ground (arith, e))
Under-get_or (x ∷ b) i zero c a e = subst (Under i) e a.0
Under-get_or (x ∷ b) i (suc q) c a e = Under-get_or b i q c a.1 e

Under-suc : (b : Buckets) (i : ℕ) → All (Under i) b → All (Under (i + 1)) b
Under-suc [] i a = tt
Under-suc (none ∷ b) i a = (tt, Under-suc b i a.1)
Under-suc (some e ∷ b) i a = (omega (arith, a.0), Under-suc b i a.1)

none-Under : (n i : ℕ) → All (Under i) (replicate n none)
none-Under zero i = tt
none-Under (suc n) i = (tt, none-Under n i)

all_free : (n : ℕ) → count_free (replicate n none) ≡ n
all_free zero = refl
all_free (suc n) = ap suc (all_free n)

-- A table of `2 ^ k` buckets.
module _ (k : ℕ) where
  abbrev pub mask_of : ℕ
  mask_of = 2 ^ k - 1

  advance_lem : (i : ℕ) → advance mask_of i ≡ (i + 1) % 2 ^ k
  advance_lem i = bit_and_ones k (i + 1)

  pub home-bound : (h : ℕ) → home mask_of h < 2 ^ k
  home-bound h = omega (arith, bit_and_ones k (h % 2 ^ 32), mod-lt (h % 2 ^ 32) (pow2-positive k))

  hop_lem : (d i : ℕ) → i < 2 ^ k → hop mask_of d i ≡ (i + d) % 2 ^ k
  unfolding hop
  hop_lem zero i h = let e : i + 0 ≡ i = omega arith in rw e (sym (mod-eq_of_lt h))
  hop_lem (suc d) i h =
      (let next = advance_lem i in
        let below : advance mask_of i < 2 ^ k =
          omega (arith, next, mod-lt (i + 1) (pow2-positive k)) in
        let e : i + 1 + d ≡ i + suc d = omega arith in
        hop_lem d (advance mask_of i) below
        ∙ ap (λ (x : ℕ). (x + d) % 2 ^ k) next
        ∙ mod-add-mod (i + 1) (2 ^ k) d
        ∙ ap (λ (x : ℕ). x % 2 ^ k) e)

  -- Every bucket is reached in fewer steps than there are buckets.
  reach : (i p : ℕ) → i < 2 ^ k → p < 2 ^ k → (d : ℕ) × (d < 2 ^ k) × (hop mask_of d i ≡ p)
  reach i p h l = elim (Bool-cases (leb i p)) [
    | inl e ↦ (
      p - i,
      ground arith,
      (let e : i + (p - i) ≡ p = ground arith in
          hop_lem (p - i) i h ∙ ap (λ (x : ℕ). x % 2 ^ k) e ∙ mod-eq_of_lt l),
    )
    | inr e ↦ (
      p + 2 ^ k - i,
      ground arith,
      (let e : i + (p + 2 ^ k - i) ≡ 1 * 2 ^ k + p = ground arith in
          hop_lem (p + 2 ^ k - i) i h
          ∙ ap (λ (x : ℕ). x % 2 ^ k) e
          ∙ mul-add-mod_self_right 1 (2 ^ k) p
          ∙ mod-eq_of_lt l),
    )
  ]

  -- From each bucket there is a first empty one, as long as one is left.
  pub some-Free :
      (b : Buckets) (i : ℕ)
      → length b ≡ 2 ^ k
      → 0 < count_free b
      → i < 2 ^ k
      → (d : ℕ) × (d < 2 ^ k) × Free mask_of b d i
  some-Free b i e c h =
      (let (p, l, free) = an_empty_one b c in
        let (m, n, there) = reach i p h (omega arith) in
        let (d, r, f) = first-Free mask_of b m i (rw there free) in (d, omega arith, f))

  -- A table that holds the entries below `i`, of the entries with these hashes.
  pub record Holds (hs : List ℕ) (i : ℕ) (b : Buckets) : Type 0 where
    pub size : length b ≡ 2 ^ k
    pub room : count_free b + i ≡ 2 ^ k
    pub under : All (Under i) b
    pub found :
        (e h : ℕ)
        → e < i
        → get_elem? hs e ≡ some h
        → (d : ℕ) × (d < 2 ^ k) × Found mask_of b e d (home mask_of h)

  Holds-start : (hs : List ℕ) → Holds hs 0 (replicate (2 ^ k) none)
  Holds-start hs = record {
    size = length-replicate (2 ^ k) none;
    room = omega (arith, all_free (2 ^ k));
    under = none-Under (2 ^ k) 0;
    found = λ e h l g. absurd (omega arith);
  }

  -- An entry more.
  Holds-put :
      (hs : List ℕ) (i h : ℕ) (b : Buckets)
      → Holds hs i b
      → i < 2 ^ k
      → get_elem? hs i ≡ some h
      → Holds hs (i + 1) (bucket_put (2 ^ k) mask_of (home mask_of h) i b)
  Holds-put hs i h b t l g =
      (let s = home mask_of h in
        let (d, near, free) = some-Free b s t.size (omega (arith, t.room)) (home-bound h) in
        let j = hop mask_of d s in
        let there : get_or b j none ≡ none = Free-end mask_of b d s free in
        let inside : j < length b =
          omega (arith, t.size, hop_lem d s (home-bound h), mod-lt (s + d) (pow2-positive k)) in
        let old : (q c : ℕ) → get_or b q none ≡ some c → c < i =
          λ q c e. Under-get_or b i q c t.under e in
        rw (bucket_put-Free mask_of (2 ^ k) b d s i free near) (record {
          size = length-set b j (some i) ∙ t.size;
          room = omega (arith, count_free-set b j i inside there, t.room);
          under = All-set (Under (i + 1)) b j (some i) (omega arith) (Under-suc b i t.under);
          found = λ e x below at_e. elim (Bool-cases (e == i)) [
            | inl same ↦
                (let e_i : e ≡ i = ground arith in
                  let at_i : get_elem? hs i ≡ some x = rw (← e_i) at_e in
                  let x_h : x ≡ h = ground (arith, g, at_i) in
                  rw (e_i, x_h) (d, near, Found-put mask_of b i d s free inside old))
            | inr other ↦
                (let (m, n, f) = t.found e x (ground arith) at_e in
                  (m, n, Found-set mask_of b e m (home mask_of x) j i there f))
          ];
        }))

  Holds-put_all :
      (hs : List ℕ) (i : ℕ) (rest : List ℕ) (b : Buckets)
      → Holds hs i b
      → i + length rest ≤ 2 ^ k
      → ((n : ℕ) → get_elem? hs (i + n) ≡ get_elem? rest n)
      → Holds hs (i + length rest) (put_all mask_of i rest b)
  unfolding put_all
  Holds-put_all hs i [] b t l same =
      let e : i ≡ i + 0 = omega arith in subst (λ (n : ℕ). Holds hs n b) e t
  Holds-put_all hs i (h ∷ rest) b t l same =
      (let whole : 2 ^ k - 1 + 1 ≡ 2 ^ k = omega (arith, pow2-positive k) in
        let b' = bucket_put (2 ^ k) mask_of (home mask_of h) i b in
        let here : get_elem? hs i ≡ some h = let z : i + 0 ≡ i = omega arith in rw z at (same 0) in
        let next = Holds-put hs i h b t (omega arith) here in
        let more : (n : ℕ) → get_elem? hs (i + 1 + n) ≡ get_elem? rest n =
          λ n. (let z : i + 1 + n ≡ i + suc n = omega arith in rw z (same (suc n))) in
        let far : i + 1 + length rest ≡ i + suc (length rest) = omega arith in
        rw whole (
          subst (λ (n : ℕ). Holds hs n (put_all mask_of (i + 1) rest b')) far
            (Holds-put_all hs (i + 1) rest b' next (omega arith) more)))

  -- The table of all entries.
  pub build_table-Holds :
      (hs : List ℕ) → length hs ≤ 2 ^ k → Holds hs (length hs) (build_table mask_of hs)
  unfolding build_table
  build_table-Holds hs l =
      (let whole : 2 ^ k - 1 + 1 ≡ 2 ^ k = omega (arith, pow2-positive k) in
        let none_yet : 0 + length hs ≡ length hs = omega arith in
        rw whole (
          subst (λ (n : ℕ). Holds hs n (put_all mask_of 0 hs (replicate (2 ^ k) none))) none_yet
            (Holds-put_all hs 0 hs (replicate (2 ^ k) none) (Holds-start hs) (omega arith)
              (λ n. let z : 0 + n ≡ n = omega arith in ap (get_elem? hs) z))))
