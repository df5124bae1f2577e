-- ===== src/Tokenizer/Words.antt =====
-- Merging in `bpe_piece` of src/text_tokenizer/bpe.c: it ends when no pair of neighbours has a rank,
-- and every symbol stays a word of the vocabulary.
use vibevoice_c.Common.{
  ℕ, zero, suc, ◌+◌, ◌<◌, ◌≤◌, ◌≡◌, ◌∙◌, refl, ap, none, some, List, [], ◌∷◌, ◌++◌, ltb, length,
  arith, inl, inr, Bool-cases, Option-cases, get_elem?, All, joined,
}
use mathlib.Core.Path.{subst}
use vibevoice_c.Tokenizer.Merge.{Lookups, Sym, find_best, merge_at, merge_loop, byte_level}
use vibevoice_c.Tokenizer.Best.{ranks, IsNone, IsLeast, Best, find_best-Best}
use vibevoice_c.Tokenizer.Tiles.{Tiles, join_at, Tiles-join_at, joined-join_at, byte_level-append}

module _ (t : Lookups) (buf : List ℕ) where
  -- A merge of a ranked pair takes one symbol away.
  length-merge_at :
      (syms : List Sym) (j r : ℕ)
      → get_elem? (ranks t buf syms) j ≡ some (some r)
      → suc (length (merge_at j syms)) ≡ length syms
  unfolding ranks merge_at
  length-merge_at [] j r e = absurd (ground arith)
  length-merge_at (a ∷ []) j r e = absurd (ground arith)
  length-merge_at (a ∷ b ∷ rest) zero r e = refl
  length-merge_at (a ∷ b ∷ rest) (suc j) r e = ap suc (length-merge_at (b ∷ rest) j r e)

  one_symbol : (syms : List Sym) → length syms ≤ 1 → All IsNone (ranks t buf syms)
  unfolding ranks
  one_symbol [] h = tt
  one_symbol (a ∷ []) h = tt
  one_symbol (a ∷ b ∷ r) h = absurd (omega arith)

  -- In as many rounds as there are symbols the merging ends, and then no pair of neighbours among
  -- the symbols that are left has a rank.
  pub merge_loop-IsNone :
      (f : ℕ) (syms : List Sym)
      → length syms ≤ suc f
      → All IsNone (ranks t buf (merge_loop t f buf syms))
  unfolding merge_loop
  merge_loop-IsNone zero syms h = one_symbol syms h
  merge_loop-IsNone (suc f) syms h = elim (Bool-cases (ltb 1 (length syms))) [
    | inr e ↦ rw (merge_loop, e) (one_symbol syms (ground arith))
    | inl e ↦
        (let b = find_best-Best t buf syms in
          elim (Option-cases (find_best t buf 0 none syms)) [
            | inl n ↦ rw (merge_loop, e, n) (subst (Best t buf syms) n b)
            | inr ((r, j), n) ↦
                (let l : IsLeast (ranks t buf syms) r j = subst (Best t buf syms) n b in
                  rw (merge_loop, e, n)
                    (merge_loop-IsNone f (merge_at j syms)
                      (omega (arith, length-merge_at syms j r l.0))))
          ])
  ]

-- What the encoder needs of the tables: a word for each byte, and for what a merge makes.
pub record IsComplete (t : Lookups) : Type 0 where
  pub has_byte : (b : ℕ) → b < 256 → (id : ℕ) × (t.vocab_get (byte_level (b ∷ [])) ≡ some id)
  pub has_merge :
      (x y : List ℕ) (r : ℕ)
      → t.merge_rank x y ≡ some r
      → (id : ℕ) × (t.vocab_get (x ++ y) ≡ some id)

module _ (t : Lookups) (whole : IsComplete t) where
  abbrev pub IsWord : List ℕ → Type 0
  IsWord bs = (id : ℕ) × (t.vocab_get (byte_level bs) ≡ some id)

  IsWord-join_at :
      (buf : List ℕ) (p : ℕ) (syms : List Sym) (bs : List (List ℕ)) (j r : ℕ)
      → Tiles buf p syms bs
      → get_elem? (ranks t buf syms) j ≡ some (some r)
      → All IsWord bs
      → All IsWord (join_at j bs)
  unfolding ranks
  IsWord-join_at buf p [] [] j r h e a = absurd (ground arith)
  IsWord-join_at buf p (s ∷ []) bs j r h e a = absurd (ground arith)
  IsWord-join_at buf p (s ∷ u ∷ rest) (b ∷ c ∷ bs) zero r h e a =
      (let rank : t.merge_rank (byte_level b) (byte_level c) ≡ some r =
          rw (← h.1, ← h.2.1) (ground arith) in
        let (id, m) = whole.has_merge (byte_level b) (byte_level c) r rank in
        ((id, rw (byte_level-append b c) m), a.1.1))
  IsWord-join_at buf p (s ∷ u ∷ rest) (b ∷ c ∷ bs) (suc j) r h e a =
      (a.0, IsWord-join_at buf (p + s.len) (u ∷ rest) (c ∷ bs) j r h.2 e a.1)
  IsWord-join_at buf p (s ∷ u ∷ rest) (b ∷ []) j r h e a = absurd h.2
  IsWord-join_at buf p (s ∷ u ∷ rest) [] j r h e a = absurd h
  IsWord-join_at buf p [] (b ∷ bs) j r h e a = absurd h

  -- After the loop the symbols are words that make up the same bytes.
  pub merge_loop-Tiles :
      (f : ℕ) (buf : List ℕ) (syms : List Sym) (bs : List (List ℕ))
      → Tiles buf 0 syms bs
      → All IsWord bs
      → (cs : List (List ℕ)) × Tiles buf 0 (merge_loop t f buf syms) cs
        × All IsWord cs
        × (joined cs ≡ joined bs)
  unfolding merge_loop
  merge_loop-Tiles zero buf syms bs h a = (bs, h, a, refl)
  merge_loop-Tiles (suc f) buf syms bs h a = elim (Bool-cases (ltb 1 (length syms))) [
    | inr e ↦ rw (merge_loop, e) (bs, h, a, refl)
    | inl e ↦
        (let b = find_best-Best t buf syms in
          elim (Option-cases (find_best t buf 0 none syms)) [
            | inl n ↦ rw (merge_loop, e, n) (bs, h, a, refl)
            | inr ((r, j), n) ↦
                (let l : IsLeast (ranks t buf syms) r j = subst (Best t buf syms) n b in
                  let (cs, k, w, same) =
                    merge_loop-Tiles f buf (merge_at j syms) (join_at j bs)
                      (Tiles-join_at buf 0 j syms bs h)
                      (IsWord-join_at buf 0 syms bs j r h l.0 a) in
                  rw (merge_loop, e, n) (cs, k, w, same ∙ joined-join_at j bs))
          ])
  ]
