-- ===== src/Tokenizer/Tiles.antt =====
-- The symbols of `bpe_piece` in src/text_tokenizer/bpe.c lie side by side in the buffer, and each is
-- the byte-level text of some bytes.
use vibevoice_c.Common.{
  ℕ, zero, suc, ◌+◌, ◌<◌, ◌≤◌, ◌≡◌, ◌∙◌, refl, sym, ap, false, List, [], ◌∷◌, ◌++◌, append-nil,
  append_assoc, ◌==◌, take, drop, length, length-append, take-length_append, drop-length_append,
  drop-add, take-add, arith, joined, All,
}
use mathlib.Core.Path.{subst}
use vibevoice_c.Tokenizer.Utf8.{utf8_get, utf8_put, byte_to_cp}
use vibevoice_c.Tokenizer.Alphabet.{byte_to_cp_bound}
use vibevoice_c.Tokenizer.RoundTrip.{utf8_get-utf8_put}
use vibevoice_c.Tokenizer.Merge.{Sym, slice, chars, merge_at, byte_level}

pub byte_level-append : (xs ys : List ℕ) → byte_level (xs ++ ys) ≡ byte_level xs ++ byte_level ys
unfolding byte_level
byte_level-append [] ys = refl
byte_level-append (x ∷ xs) ys =
    ap (λ (l : List ℕ). utf8_put (byte_to_cp x) ++ l) (byte_level-append xs ys)
    ∙ sym (append_assoc (utf8_put (byte_to_cp x)) (byte_level xs) (byte_level ys))

-- The bytes are bytes.
abbrev pub IsByte : ℕ → Type 0
IsByte b = b < 256

abbrev pub Tiles : List ℕ → ℕ → List Sym → List (List ℕ) → Type 0
Tiles buf p [] [] = Unit {0}
Tiles buf p [] (b ∷ bs) = ⊥
Tiles buf p (s ∷ r) [] = ⊥
Tiles buf p (s ∷ r) (b ∷ bs) =
    (s.start ≡ p) × (slice buf s ≡ byte_level b) × Tiles buf (p + s.len) r bs

-- Two neighbours made one.
abbrev pub join_at : ℕ → List (List ℕ) → List (List ℕ)
join_at zero (a ∷ b ∷ r) = (a ++ b) ∷ r
join_at (suc i) (a ∷ r) = a ∷ join_at i r
join_at i r = r

pub joined-join_at : (i : ℕ) (bs : List (List ℕ)) → joined (join_at i bs) ≡ joined bs
joined-join_at zero [] = refl
joined-join_at zero (a ∷ []) = refl
joined-join_at zero (a ∷ b ∷ r) = append_assoc a b (joined r)
joined-join_at (suc i) [] = refl
joined-join_at (suc i) (a ∷ r) = ap (λ (l : List ℕ). a ++ l) (joined-join_at i r)

pub Tiles-join_at :
    (buf : List ℕ) (p i : ℕ) (syms : List Sym) (bs : List (List ℕ))
    → Tiles buf p syms bs
    → Tiles buf p (merge_at i syms) (join_at i bs)
unfolding merge_at
Tiles-join_at buf p zero [] [] t = tt
Tiles-join_at buf p zero (s ∷ []) (b ∷ []) t = t
Tiles-join_at buf p zero (s ∷ u ∷ r) (b ∷ c ∷ bs) t =
    (let same : drop u.start buf ≡ drop s.len (drop s.start buf) =
        ap (λ (k : ℕ). drop k buf) (t.2.0 ∙ ap (λ (k : ℕ). k + s.len) (sym t.0))
        ∙ drop-add s.start s.len buf in
      let text : take (s.len + u.len) (drop s.start buf) ≡ byte_level (b ++ c) =
        take-add s.len u.len (drop s.start buf)
        ∙ ap (λ (l : List ℕ). take s.len (drop s.start buf) ++ take u.len l) (sym same)
        ∙ rw (t.1, t.2.1) (sym (byte_level-append b c)) in
      let far : p + s.len + u.len ≡ p + (s.len + u.len) = omega arith in
      (t.0, text, subst (λ (k : ℕ). Tiles buf k r bs) far t.2.2))
Tiles-join_at buf p (suc i) [] [] t = tt
Tiles-join_at buf p (suc i) (s ∷ r) (b ∷ bs) t =
    (t.0, t.1, Tiles-join_at buf (p + s.len) i r bs t.2)
Tiles-join_at buf p i [] (b ∷ bs) t = absurd t
Tiles-join_at buf p i (s ∷ r) [] t = absurd t
Tiles-join_at buf p zero (s ∷ []) (b ∷ c ∷ bs) t = absurd t.2
Tiles-join_at buf p zero (s ∷ u ∷ r) (b ∷ []) t = absurd t.2

-- One tile for each byte.
unfoldable pub singles : List ℕ → List (List ℕ)
singles [] = []
singles (b ∷ bs) = (b ∷ []) ∷ singles bs

pub length-utf8_put : (cp : ℕ) → (1 ≤ length (utf8_put cp)) × (length (utf8_put cp) ≤ 4)
unfolding utf8_put
length-utf8_put cp = ground arith

pub chars-Tiles :
    (f : ℕ) (buf : List ℕ) (p : ℕ) (bs : List ℕ)
    → All IsByte bs
    → drop p buf ≡ byte_level bs
    → length (byte_level bs) ≤ f
    → Tiles buf p (chars f p (byte_level bs)) (singles bs)
unfolding chars byte_level singles
chars-Tiles zero buf p [] a e h = tt
chars-Tiles zero buf p (b ∷ bs) a e h = absurd (
    omega (
      arith,
      length-utf8_put (byte_to_cp b),
      length-append (utf8_put (byte_to_cp b)) (byte_level bs),
    ))
chars-Tiles (suc f) buf p [] a e h = tt
chars-Tiles (suc f) buf p (b ∷ bs) a e h =
    (let w = utf8_put (byte_to_cp b) in
      let c = byte_level bs in
      let n = length-utf8_put (byte_to_cp b) in
      let m = length-append w c in
      let get : (utf8_get (w ++ c)).0 ≡ length w =
        ap (λ (x : ℕ × ℕ). x.0)
          (utf8_get-utf8_put (byte_to_cp b) c (omega (arith, byte_to_cp_bound b a.0))) in
      let full : length (w ++ c) == 0 ≡ false = ground (arith, n, m) in
      let text : take (length w) (drop p buf) ≡ byte_level (b ∷ []) =
        ap (λ (l : List ℕ). take (length w) l) e ∙ take-length_append w c ∙ sym (append-nil w) in
      let behind : drop (p + length w) buf ≡ c =
        drop-add p (length w) buf
        ∙ ap (λ (l : List ℕ). drop (length w) l) e
        ∙ drop-length_append w c in
      rw (full, get, drop-length_append w c)
        (refl, text, chars-Tiles f buf (p + length w) bs a.1 behind (omega (arith, n, m, h))))
