-- ===== src/Http/Decimal.antt =====
-- A length in decimal is read back by src/server/http.c.
use vibevoice_c.Common.{
  ℕ, zero, suc, ◌+◌, ◌-◌, ◌*◌, ◌/◌, ◌%◌, ◌^◌, ◌<◌, ◌≤◌, ◌≡◌, ◌∙◌, refl, ap, true, false, inl, inr,
  some, List, [], ◌∷◌, ltb, ◌==◌, if◌then◌else◌, length, arith, Bool-cases, if_true, if_false,
}
use vibevoice_c.Http.{skip_while}
use vibevoice_c.Http.Head.{
  size, refusal, finished, read_digits, read_length, is_blank, is_blank_or_cr, is_digit,
}

-- The decimal digits of a number, in front of `acc`, at most `f + 1` of them.
unfoldable pub digits_of : ℕ → ℕ → List ℕ → List ℕ
digits_of zero n acc = (n + b'0') ∷ acc
digits_of (suc f) n acc =
    let rest = digits_of f (n / 10) ((n % 10 + b'0') ∷ acc) in
    if ltb n 10 then (n + b'0') ∷ acc else rest

abbrev pub largest : ℕ
largest = 2 ^ 64 - 7

read_digits-digit :
    (x value : ℕ) (s : List ℕ)
    → x < 10
    → value * 10 + x ≤ largest
    → read_digits ((x + b'0') ∷ s) value ≡ read_digits s (value * 10 + x)
unfolding read_digits
read_digits-digit x value s h k =
    let d : is_digit (x + b'0') ≡ true = ground arith in
    let fits : ltb ((2 ^ 64 - 10) / 10) value ≡ false = ground arith in
    let same : x + b'0' - b'0' ≡ x = omega arith in rw (read_digits, d, fits, same) refl

-- At most `f + 1` digits.
abbrev Fits : ℕ → ℕ → Type 0
Fits zero n = n < 10
Fits (suc f) n = Fits f (n / 10)

-- The digits of a number, read from 0, leave the number.
read_digits-digits_of :
    (f n : ℕ) (acc : List ℕ)
    → Fits f n
    → n ≤ largest
    → read_digits (digits_of f n acc) 0 ≡ read_digits acc n
unfolding digits_of
read_digits-digits_of zero n acc h k =
    let whole : 0 * 10 + n ≡ n = omega arith in
    read_digits-digit n 0 acc h (omega arith) ∙ ap (read_digits acc) whole
read_digits-digits_of (suc f) n acc h k = elim (Bool-cases (ltb n 10)) [
  | inl t ↦
      rw (digits_of, t)
        (read_digits-digit n 0 acc (ground arith) (omega arith)
          ∙ (let whole : 0 * 10 + n ≡ n = omega arith in ap (read_digits acc) whole))
  | inr e ↦
      (let whole : n / 10 * 10 + n % 10 ≡ n = omega arith in
        rw (digits_of, e)
          (read_digits-digits_of f (n / 10) ((n % 10 + b'0') ∷ acc) h (omega arith)
            ∙ read_digits-digit (n % 10) (n / 10) acc (omega arith) (omega arith)
            ∙ ap (read_digits acc) whole))
]

-- The first digit is one.
digits_of-cons :
    (f n : ℕ) (acc : List ℕ)
    → Fits f n
    → (c : ℕ) × (r : List ℕ) × (digits_of f n acc ≡ c ∷ r)
      × (is_blank c ≡ false)
      × (length acc ≤ length r)
unfolding digits_of
digits_of-cons zero n acc h = (n + b'0', acc, refl, ground arith, omega arith)
digits_of-cons (suc f) n acc h = elim (Bool-cases (ltb n 10)) [
  | inl t ↦ (n + b'0', acc, rw (digits_of, t) refl, ground arith, omega arith)
  | inr e ↦
      (let (c, r, q, b, l) = digits_of-cons f (n / 10) ((n % 10 + b'0') ∷ acc) h in
        (c, r, rw (digits_of, e) q, b, omega arith))
]

line_end : skip_while is_blank_or_cr (b'\r' ∷ []) ≡ []
unfolding skip_while
line_end = refl

finished-line_end : (v : List ℕ) (n : ℕ) → 2 ≤ length v → finished v (n, b'\r' ∷ []) ≡ size n
finished-line_end v n h =
    if_false {b = length {A = ℕ} (b'\r' ∷ []) == length v} refusal _ (ground (arith, h))
    ∙ if_true {b = length (skip_while is_blank_or_cr (b'\r' ∷ [])) == 0} (size n) refusal
        (rw line_end refl)

read_length-read :
    (s : List ℕ) (n : ℕ)
    → read_digits (skip_while is_blank s) 0 ≡ some (n, b'\r' ∷ [])
    → 2 ≤ length (skip_while is_blank s)
    → read_length s ≡ size n
unfolding read_length
read_length-read s n e h = rw (read_length, e) (finished-line_end _ n h)

-- A number of at most 2^64 - 7 in decimal is read as the length, between a blank and the "\r" of the
-- line's end.
pub read_length-decimal :
    (n : ℕ) → n ≤ largest → read_length (b' ' ∷ digits_of 19 n (b'\r' ∷ [])) ≡ size n
unfolding read_digits skip_while
read_length-decimal n h =
    let fits : Fits 19 n = omega arith in
    let (c, r, q, b, l) = digits_of-cons 19 n (b'\r' ∷ []) fits in
    let v : skip_while is_blank (b' ' ∷ digits_of 19 n (b'\r' ∷ [])) ≡ digits_of 19 n (b'\r' ∷ []) =
      rw (q, skip_while, b) refl in
    let d : read_digits (digits_of 19 n (b'\r' ∷ [])) 0 ≡ some (n, b'\r' ∷ []) =
      read_digits-digits_of 19 n (b'\r' ∷ []) fits h in
    let more : 2 ≤ length (digits_of 19 n (b'\r' ∷ [])) = ground (arith, ap length q) in
    read_length-read (b' ' ∷ digits_of 19 n (b'\r' ∷ [])) n (rw v d) (rw v more)
