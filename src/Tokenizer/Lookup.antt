-- ===== src/Tokenizer/Lookup.antt =====
-- `vocab_get` and `merge_rank` of src/text_tokenizer/bpe.c find what a search through the entries from
-- the first on finds.
use vibevoice_c.Common.{
  equal_bytes-eq, ℕ, zero, suc, ◌+◌, ◌-◌, ◌*◌, ◌%◌, ◌^◌, ◌<◌, ◌≤◌, ◌≡◌, ◌⊎◌, ◌∙◌, refl, sym, ap,
  Bool, true, false, Option, none, some, List, [], ◌∷◌, ltb, if◌then◌else◌, get_elem?, map, length,
  double_to, double_to-bound, arith, inl, inr, Bool-cases, Option-cases, pow2-positive,
}
use mathlib.Core.Path.{subst}
use vibevoice_c.Tokenizer.Table.{
  WalkEnd, at, empty, home, next_pow2, fnv1a, basis, pair_hash, bucket_get, build_table, Entry,
  Merge, word_hash, merge_hash, is_word, is_pair, passes, entry_at, entry_of, vmask, mmask,
  vocab_get, merge_rank, id_of, rank_of, answer,
}
use vibevoice_c.Tokenizer.Probe.{Found, bucket_get-Found, bucket_get-Free}
use vibevoice_c.Tokenizer.Filled.{Holds, mask_of, build_table-Holds, some-Free, home-bound}

-- The first entry that passes.
abbrev pub find_first {ℓ} : {A : Type ℓ} → (A → Bool) → List A → Option A
find_first test [] = none
find_first test (x ∷ xs) = let rest = find_first test xs in if test x then some x else rest

module _ {ℓ} {A : Type ℓ} (test : A → Bool) where
  -- No entry passes, or one does and none before it.
  find_first-cases :
      (xs : List A)
      → ((find_first test xs ≡ none) × ((e : ℕ) → passes test (get_elem? xs e) ≡ false))
        ⊎ ((e : ℕ) × (e < length xs)
            × (get_elem? xs e ≡ find_first test xs)
            × (passes test (get_elem? xs e) ≡ true)
            × ((c : ℕ) → c < e → passes test (get_elem? xs c) ≡ false))
  find_first-cases [] = inl (refl, λ e. refl)
  find_first-cases (x ∷ xs) = elim (Bool-cases (test x)) [
    | inl t ↦ inr (0, omega arith, rw t refl, t, λ c h. absurd (omega arith))
    | inr t ↦ elim (find_first-cases xs) [
      | inl (n, all) ↦ inl (rw t n, failing t all)
      | inr (e, h, g, p, early) ↦ inr (suc e, omega arith, rw t g, p, before t e early)
    ]
  ]
    where
      failing :
          test x ≡ false
          → ((e : ℕ) → passes test (get_elem? xs e) ≡ false)
          → (e : ℕ) → passes test (get_elem? (x ∷ xs) e) ≡ false
      failing t all zero = t
      failing t all (suc e) = all e

      before :
          test x ≡ false
          → (e : ℕ) → ((c : ℕ) → c < e → passes test (get_elem? xs c) ≡ false)
          → (c : ℕ) → c < suc e
          → passes test (get_elem? (x ∷ xs) c) ≡ false
      before t e early zero h = t
      before t e early (suc c) h = early c (omega arith)

  module _ (hash : A → ℕ) where
    length-hashes : (xs : List A) → length (map hash xs) ≡ length xs
    length-hashes [] = refl
    length-hashes (x ∷ xs) = ap suc (length-hashes xs)

    hash_at :
        (xs : List A) (e : ℕ) (x : A)
        → get_elem? xs e ≡ some x
        → get_elem? (map hash xs) e ≡ some (hash x)
    hash_at [] e x g = absurd (ground (arith, g))
    hash_at (y ∷ xs) zero x g = let same : y ≡ x = cc in ap (λ (z : A). some (hash z)) same
    hash_at (y ∷ xs) (suc e) x g = hash_at xs e x g

    -- The walk ends, and at the entry that a search from the first on finds.
    pub entry_of-find_first :
        (k : ℕ) (xs : List A) (h : ℕ)
        → length xs < 2 ^ k
        → ((x : A) → test x ≡ true → hash x ≡ h)
        → entry_of xs (mask_of k) h test (build_table (mask_of k) (map hash xs))
          ≡ some (find_first test xs)
    unfolding entry_of
    entry_of-find_first k xs h l agree =
        (let mask = mask_of k in
          let b = build_table mask (map hash xs) in
          let at_entry = λ (e : ℕ). passes test (get_elem? xs e) in
          let whole : 2 ^ k - 1 + 1 ≡ 2 ^ k = omega (arith, pow2-positive k) in
          let ends : (w : WalkEnd)
              → bucket_get (2 ^ k) mask (home mask h) at_entry b ≡ w
              → entry_of xs mask h test b ≡ entry_at xs w =
            λ w walk.
              ap (λ (f : ℕ). entry_at xs (bucket_get f mask (home mask h) at_entry b)) whole
              ∙ ap (entry_at xs) walk in
          let n = length-hashes xs in
          let t : Holds k (map hash xs) (length (map hash xs)) b =
            build_table-Holds k (map hash xs) (omega arith) in
          elim (find_first-cases xs) [
            | inl (none_passes, all) ↦
                (let (d, near, free) =
                    some-Free k b (home mask h) t.size (omega (arith, t.room)) (home-bound k h) in
                  let walk : bucket_get (2 ^ k) mask (home mask h) at_entry b ≡ empty =
                    bucket_get-Free mask at_entry (2 ^ k) b d (home mask h) free near
                      (λ q c e. all c) in
                  ends empty walk ∙ ap (λ (o : Option A). some o) (sym none_passes))
            | inr (e, below, g, p, early) ↦ elim (Option-cases (get_elem? xs e)) [
              | inl gone ↦
                  (let empty_test : false ≡ true = rw gone at p in
                    absurd (ground (arith, empty_test)))
              | inr (x, there) ↦
                  (let right : hash x ≡ h = agree x (rw there at p) in
                    let (d, near, found) =
                      t.found e (hash x) (omega arith) (hash_at xs e x there) in
                    let walk : bucket_get (2 ^ k) mask (home mask h) at_entry b ≡ at e =
                      bucket_get-Found mask at_entry (2 ^ k) b e d (home mask h)
                        (subst (λ (z : ℕ). Found mask b e d (home mask z)) right found) near p
                        early in
                    ends (at e) walk ∙ ap (λ (o : Option A). some o) g)
            ]
          ])

double_to-power : (f j need : ℕ) → (k : ℕ) × (double_to f (2 ^ j) need ≡ 2 ^ k)
unfolding double_to
double_to-power zero j need = (j, refl)
double_to-power (suc f) j need = elim (Bool-cases (ltb (2 ^ j) need)) [
  | inr e ↦ (j, rw (double_to, e) refl)
  | inl e ↦
      (let (k, p) = double_to-power f (suc j) need in
        let twice : 2 ^ j * 2 ≡ 2 ^ suc j = omega arith in (k, rw (double_to, e, twice) p))
]

-- A table of a power of two buckets, more than there are entries.
next_pow2_lem : (n v : ℕ) → n ≤ v → n < 16 ⊎ (n < v) → (k : ℕ) × (next_pow2 v ≡ 2 ^ k) × (n < 2 ^ k)
unfolding next_pow2
next_pow2_lem n v h small =
    (let (k, p) = double_to-power v 4 v in
      let b = double_to-bound v 16 v (omega arith) (omega arith) in
      (k, p, elim small [ inl s ↦ omega (arith, b.1, p) | inr s ↦ omega (arith, b.0, p) ]))

enough : (n v : ℕ) → (0 < n → n < v) → n < 16 ⊎ (n < v)
enough zero v h = inl (omega arith)
enough (suc n) v h = inr (h (omega arith))

doubled :
    (n : ℕ)
    → n ≤ 2 ^ 30
    → (n ≤ (if ltb 0 n then n else 1) * 2 % 2 ^ 32)
      × (0 < n → n < (if ltb 0 n then n else 1) * 2 % 2 ^ 32)
doubled n h = elim (Bool-cases (ltb 0 n)) [
  | inl e ↦ rw e (omega arith, λ p. omega arith)
  | inr e ↦ rw e (ground arith, λ p. ground arith)
]

is_pair-merge_hash :
    (a b : List ℕ) (m : Merge) → is_pair a b m ≡ true → merge_hash m ≡ pair_hash a b
is_pair-merge_hash a b m e =
    let front = equal_bytes-eq m.a a (ground (arith, e)) in
    let back = equal_bytes-eq m.b b (ground (arith, e)) in rw (front, back) refl

-- `vocab_get` ends, and gives the identifier of the first entry of the vocabulary with the text: if
-- there are at most 2^30 entries, so that `next_pow2` does not wrap around.
pub vocab_get-find_first :
    (ventry : List Entry) (s : List ℕ)
    → length ventry ≤ 2 ^ 30
    → vocab_get ventry s ≡ some (id_of (find_first (is_word s) ventry))
unfolding vocab_get
vocab_get-find_first ventry s h =
    (let n = length ventry in
      let (k, p, l) =
        next_pow2_lem n (n * 2 % 2 ^ 32) (omega arith)
          (enough n (n * 2 % 2 ^ 32) (λ e. omega arith)) in
      let mask : vmask n ≡ mask_of k = ap (λ (x : ℕ). x - 1) p in
      let found =
        entry_of-find_first (is_word s) word_hash k ventry (fnv1a basis s) l
          (λ x e. ap (fnv1a basis) (equal_bytes-eq x.str s e)) in
      ap
        (λ (m : ℕ).
          answer id_of
            (entry_of ventry m (fnv1a basis s) (is_word s) (build_table m (map word_hash ventry))))
        mask
      ∙ ap (answer id_of) found)

-- `merge_rank` ends, and gives the rank of the first merge of the pair, if there are at most 2^30
-- merges.
pub merge_rank-find_first :
    (mentry : List Merge) (a b : List ℕ)
    → length mentry ≤ 2 ^ 30
    → merge_rank mentry a b ≡ some (rank_of (find_first (is_pair a b) mentry))
unfolding merge_rank
merge_rank-find_first mentry a b h =
    (let n = length mentry in
      let v = (if ltb 0 n then n else 1) * 2 % 2 ^ 32 in
      let (k, p, l) = next_pow2_lem n v (doubled n h).0 (enough n v (doubled n h).1) in
      let mask : mmask n ≡ mask_of k = ap (λ (x : ℕ). x - 1) p in
      let found =
        entry_of-find_first (is_pair a b) merge_hash k mentry (pair_hash a b) l
          (is_pair-merge_hash a b) in
      ap
        (λ (m : ℕ).
          answer rank_of (
            entry_of mentry m (pair_hash a b) (is_pair a b)
              (build_table m (map merge_hash mentry))))
        mask
      ∙ ap (answer rank_of) found)
