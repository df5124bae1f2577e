-- ===== src/Http/Framing.antt =====
-- The length of a body has one reading in src/server/http.c.
use vibevoice_c.Common.{
  ℕ, zero, suc, ◌≤◌, ◌≡◌, ◌∙◌, sym, refl, ap, Bool, true, false, not, ◌&&◌, ◌⊎◌, inl, inr, some,
  List, [], ◌∷◌, ◌++◌, leb, ◌==◌, length, drop, All, arith, Bool-cases, Option-cases, length-append,
}
use vibevoice_c.Http.{lower, ci_equal, codes, skip_while}
use vibevoice_c.Http.Search.{Lacks, until-append}
use vibevoice_c.Http.Head.{
  header_lines, Said, nothing, refusal, size, read_digits, read_length, read_line, read_lines,
  content_length, is_blank, is_blank_or_cr,
}

-- A line without a newline.
abbrev pub IsLine : List ℕ → Type 0
IsLine l = Lacks b'\n' l

-- The loop visits each line behind the first.
header_lines-visits :
    (P : List ℕ → Type 0) (pre l post : List ℕ)
    → IsLine l
    → All P (header_lines (pre ++ b'\n' ∷ l ++ b'\n' ∷ post))
    → P l
unfolding header_lines
header_lines-visits P [] l post h a =
    let more : (length (l ++ b'\n' ∷ post) == 0) ≡ false =
      ground (arith, length-append l (b'\n' ∷ post)) in
    let b = rw more at a in rw (until-append b'\n' l post h) at b.0
header_lines-visits P (c ∷ pre) l post h a =
    elim (Bool-cases ((c == b'\n') && not (length (pre ++ b'\n' ∷ l ++ b'\n' ∷ post) == 0))) [
      | inl t ↦ (let b = rw t at a in header_lines-visits P pre l post h b.1)
      | inr f ↦ (let b = rw f at a in header_lines-visits P pre l post h b)
    ]

-- A line that says nothing on the length, or the length `w` that was seen.
abbrev Agrees : Bool → ℕ → List ℕ → Type 0
Agrees s w l = (read_line l ≡ nothing) ⊎ ((s ≡ true) × (read_line l ≡ size w))

Said-cases : (x : Said) → (x ≡ nothing) ⊎ (x ≡ refusal) ⊎ ((v : ℕ) × (x ≡ size v))
Said-cases nothing = inl refl
Said-cases refusal = inr (inl refl)
Said-cases (size v) = inr (inr (v, refl))

read_lines-Agrees :
    (ls : List (List ℕ)) (seen : Bool) (want : ℕ) (s : Bool) (w : ℕ)
    → read_lines ls seen want ≡ some (s, w)
    → (seen ≡ true → (s ≡ true) × (w ≡ want)) × All (Agrees s w) ls
unfolding read_lines
read_lines-Agrees [] seen want s w e = (λ t. (cc, cc), tt)
read_lines-Agrees (l ∷ ls) seen want s w e = elim (Said-cases (read_line l)) [
  | inl n ↦
      (let (k, a) = read_lines-Agrees ls seen want s w (rw (read_lines, n) at e) in (k, (inl n, a)))
  | inr (inl r) ↦ absurd (let k = rw (read_lines, r) at e in cc)
  | inr (inr (v, z)) ↦
      (let e' = rw (read_lines, z) at e in
        elim (Bool-cases (seen && not (v == want))) [
          | inl t ↦ absurd (let k = rw t at e' in cc)
          | inr f ↦
              (let (k, a) = read_lines-Agrees ls true v s w (rw f at e') in
                let (st, wv) = k refl in
                (λ t. (st, wv ∙ ground (arith, f, t)), (inr (st, z ∙ ap size (sym wv)), a)))
        ])
]

abbrev no_zero : List ℕ → Bool
no_zero [] = true
no_zero (c ∷ s) = not (lower c == 0) && no_zero s

-- A text that is equal for `n` bytes has them, if there is no zero among them.
ci_equal-length : (a b : List ℕ) (n : ℕ) → no_zero b ≡ true → ci_equal a b n ≡ true → n ≤ length a
unfolding ci_equal
ci_equal-length a b zero z e = omega arith
ci_equal-length [] b (suc n) z e = absurd (ground arith)
ci_equal-length (x ∷ a) [] (suc n) z e = absurd (ground arith)
ci_equal-length (x ∷ a) (y ∷ b) (suc n) z e = elim (Bool-cases (lower x == lower y)) [
  | inl t ↦
      (let letter : (lower x == 0) ≡ false = ground (arith, t, z) in
        let k = rw (t, letter) at e in omega (arith, ci_equal-length a b n (ground (arith, z)) k))
  | inr f ↦ absurd (let k = rw f at e in cc)
]

read_line-transfer :
    (l : List ℕ) → ci_equal l (codes "transfer-encoding") 17 ≡ true → read_line l ≡ refusal
unfolding read_line
read_line-transfer l t =
    let n : leb 17 (length l) ≡ true =
      ground (arith, ci_equal-length l (codes "transfer-encoding") 17 refl t) in
    rw (read_line, n, t) refl

pub read_line-length :
    (l : List ℕ)
    → ci_equal l (codes "transfer-encoding") 17 ≡ false
    → ci_equal l (codes "content-length:") 15 ≡ true
    → read_line l ≡ read_length (drop 15 l)
unfolding read_line
read_line-length l f t =
    let n : leb 15 (length l) ≡ true =
      ground (arith, ci_equal-length l (codes "content-length:") 15 refl t) in
    let skipped : (leb 17 (length l) && ci_equal l (codes "transfer-encoding") 17) ≡ false =
      ground (arith, f) in
    rw (read_line, skipped, n, t) refl

-- What is behind "content-length:" is a length, or refused.
read_length-something : (s : List ℕ) → read_length s ≡ nothing → ⊥
unfolding read_length
read_length-something s e = elim (Option-cases (read_digits (skip_while is_blank s) 0)) [
  | inl n ↦ (let k = rw (read_length, n) at e in cc)
  | inr ((v, d), r) ↦
      (let k = rw (read_length, r) at e in
        elim (Bool-cases (length d == length (skip_while is_blank s))) [
          | inl t ↦ (let k' = rw t at k in cc)
          | inr f ↦
              (let k' = rw f at k in
                elim (Bool-cases (length (skip_while is_blank_or_cr d) == 0)) [
                  | inl t ↦ (let u = rw t at k' in cc)
                  | inr g ↦ (let u = rw g at k' in cc)
                ])
        ])
]

-- A head is only accepted if no line of it, behind the first, begins with "transfer-encoding", in any
-- capitals, and each line that begins with "content-length:" gives the length that is found: wherever
-- the line is, whatever is in front of it and behind it.
pub content_length_sound :
    (pre l post : List ℕ) (seen : Bool) (want : ℕ)
    → IsLine l
    → content_length (pre ++ b'\n' ∷ l ++ b'\n' ∷ post) ≡ some (seen, want)
    → (ci_equal l (codes "transfer-encoding") 17 ≡ false)
      × (ci_equal l (codes "content-length:") 15 ≡ true
          → (seen ≡ true) × (read_length (drop 15 l) ≡ size want))
unfolding content_length
content_length_sound pre l post seen want h e =
    let (k, a) = read_lines-Agrees _ false 0 seen want e in
    let said = header_lines-visits (Agrees seen want) pre l post h a in
    elim (Bool-cases (ci_equal l (codes "transfer-encoding") 17)) [
      | inl t ↦
          absurd (let r = read_line-transfer l t in elim said [ inl n ↦ cc | inr (st, z) ↦ cc ])
      | inr f ↦ (
        f,
        λ t.
            let r = read_line-length l f t in
            elim said [
              | inl n ↦ absurd (read_length-something (drop 15 l) (sym r ∙ n))
              | inr (st, z) ↦ (st, sym r ∙ z)
            ],
      )
    ]
