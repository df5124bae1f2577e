-- ===== src/Http/Escape.antt =====
-- What `json_escape_into` of src/server/http.c writes is the body of a JSON string.
use vibevoice_c.Common.{
  ℕ, suc, ◌+◌, ◌*◌, ◌/◌, ◌%◌, ◌<◌, ◌≤◌, ◌≡◌, ◌∙◌, refl, ap, Option, none, some, List, [], ◌∷◌, ◌++◌,
  ltb, ◌==◌, length, take, arith, inl, inr, Bool-cases, length-append,
}
use vibevoice_c.Http.Json.{hex, piece, escape_from, escape_into, plain, digits, hex_value, unescape}

abbrev prepend : ℕ → Option (List ℕ) → Option (List ℕ)
prepend c none = none
prepend c (some t) = some (c ∷ t)

hex_value-hex : (v : ℕ) → v < 16 → hex_value (hex v) ≡ some v
hex_value-hex v h = ground arith

digit_step :
    (x v k : ℕ) (t : List ℕ)
    → v < 16
    → unescape (digits (suc k) x) (hex v ∷ t) ≡ unescape (digits k (x * 16 + v)) t
unfolding unescape
digit_step x v k t h = rw (unescape, hex_value-hex v h) refl

last_digit :
    (x v : ℕ) (t : List ℕ)
    → v < 16
    → unescape (digits 0 x) (hex v ∷ t) ≡ prepend (x * 16 + v) (unescape plain t)
unfolding unescape
last_digit x v t h = rw (unescape, hex_value-hex v h) refl

-- A control character.
unescape-control :
    (c : ℕ) (t : List ℕ)
    → c < 0x20
    → unescape
        (digits 3 0)
        (hex (c / 4096) ∷ hex (c / 256 % 16) ∷ hex (c / 16 % 16) ∷ hex (c % 16) ∷ t)
      ≡ prepend c (unescape plain t)
unescape-control c t h =
    let whole : ((0 * 16 + c / 4096) * 16 + c / 256 % 16) * 16 + c / 16 % 16 ≡ c / 16 =
      omega arith in
    let same : c / 16 * 16 + c % 16 ≡ c = omega arith in
    digit_step 0 (c / 4096) 2 _ (omega arith)
    ∙ digit_step _ (c / 256 % 16) 1 _ (omega arith)
    ∙ digit_step _ (c / 16 % 16) 0 _ (omega arith)
    ∙ last_digit _ (c % 16) t (omega arith)
    ∙ ap (λ (x : ℕ). prepend (x * 16 + c % 16) (unescape plain t)) whole
    ∙ ap (λ (x : ℕ). prepend x (unescape plain t)) same

-- The piece of a byte is read back, whatever follows.
unescape-piece : (c : ℕ) (t : List ℕ) → unescape plain (piece c ++ t) ≡ prepend c (unescape plain t)
unfolding piece unescape
unescape-piece c t = elim (Bool-cases (c == b'"')) [
  | inl q ↦ (let e : c ≡ b'"' = ground (arith, q) in rw (piece, e) refl)
  | inr f ↦ (elim (Bool-cases (c == b'\\')) [
    | inl q ↦ (let e : c ≡ b'\\' = ground (arith, q) in rw (piece, e) refl)
    | inr g ↦ (elim (Bool-cases (ltb c 0x20)) [
      | inl q ↦ rw (piece, f, g, q) (unescape-control c t (ground (arith, q)))
      | inr p ↦ rw (piece, f, g, p, unescape, f, p, g) refl
    ])
  ])
]

length-piece : (c : ℕ) → length (piece c) ≤ 6
unfolding piece
length-piece c = ground arith

escape_from_lem :
    (cap o : ℕ) (s : List ℕ)
    → o < cap
    → (k : ℕ) × (unescape plain (escape_from cap o s) ≡ some (take k s))
      × (o + length (escape_from cap o s) < cap)
      × (o + length (escape_from cap o s) + 6 < cap → take k s ≡ s)
unfolding escape_from unescape
escape_from_lem cap o [] h = (0, refl, omega arith, λ l. refl)
escape_from_lem cap o (c ∷ s) h = elim (Bool-cases (ltb cap (o + length (piece c) + 1))) [
  | inl t ↦ (
    0,
    rw (escape_from, t) refl,
    rw (escape_from, t) (omega arith),
    λ l. absurd (let l' = rw (escape_from, t) at l in ground (arith, length-piece c, t, l')),
  )
  | inr f ↦
      (let (k, e, b, w) = escape_from_lem cap (o + length (piece c)) s (ground (arith, f)) in
        let out = escape_from cap (o + length (piece c)) s in
        let n = length-append (piece c) out in
        (
          suc k,
          rw (escape_from, f) (unescape-piece c out ∙ rw e refl),
          rw (escape_from, f) (omega arith),
          λ l. (let l' = rw (escape_from, f) at l in ap (λ (r : List ℕ). c ∷ r) (w (omega arith))),
        ))
]

-- What is written into a buffer of `cap` bytes, with its terminator, fits, and is the body of a JSON
-- string that stands for the front of the text; for all of it, if six bytes are left.
pub unescape-escape_into :
    (cap : ℕ) (s : List ℕ)
    → 0 < cap
    → (k : ℕ) × (unescape plain (escape_into cap s) ≡ some (take k s))
      × (length (escape_into cap s) + 1 ≤ cap)
      × (length (escape_into cap s) + 6 < cap → take k s ≡ s)
unfolding escape_into
unescape-escape_into cap s h =
    let (k, e, b, w) = escape_from_lem cap 0 s h in (k, e, omega arith, λ l. w (omega arith))
