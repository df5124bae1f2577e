-- ===== src/Http/Head.antt =====
-- `head_content_length` of src/server/http.c.
use vibevoice_c.Common.{
  ℕ, ◌+◌, ◌-◌, ◌*◌, ◌/◌, ◌^◌, Bool, true, false, not, ◌&&◌, ◌||◌, Option, none, some, List, [], ◌∷◌,
  ltb, leb, ◌==◌, if◌then◌else◌, length, drop,
}
use vibevoice_c.Http.{ci_equal, codes, until, skip_while}

-- The lines that the loop visits: behind a newline that is not the last byte, up to the next or the end.
unfoldable pub header_lines : List ℕ → List (List ℕ)
header_lines [] = []
header_lines (c ∷ s) =
    let rest = header_lines s in
    if c == b'\n' && not (length s == 0) then until b'\n' s ∷ rest else rest

abbrev pub is_digit : ℕ → Bool
is_digit c = leb b'0' c && leb c b'9'

-- The digits from `d` on: their value and what is behind them, or `none` on overflow.
unfoldable pub read_digits : List ℕ → ℕ → Option (ℕ × List ℕ)
read_digits [] value = some (value, [])
read_digits (c ∷ s) value =
    let rest = read_digits s (value * 10 + (c - b'0')) in
    if is_digit c
    then if ltb ((2 ^ 64 - 10) / 10) value then none else rest
    else some (value, c ∷ s)

abbrev pub is_blank : ℕ → Bool
is_blank c = c == b' ' || c == b'\t'

abbrev pub is_blank_or_cr : ℕ → Bool
is_blank_or_cr c = is_blank c || c == b'\r'

-- What a line says: nothing on the length, a length, or that the head is refused.
pub data Said : Type 0 where
  nothing refusal : Said
  size : ℕ → Said

abbrev pub finished : List ℕ → ℕ × List ℕ → Said
finished v (value, d) =
    if length d == length v
    then refusal
    else if length (skip_while is_blank_or_cr d) == 0
    then size value
    else refusal

-- The text behind "content-length:".
unfoldable pub read_length : List ℕ → Said
read_length s =
    let v = skip_while is_blank s in
    elim (read_digits v 0) [ none ↦ refusal | some r ↦ finished v r ]

-- A round of the loop, up to the comparison with an earlier length.
unfoldable pub read_line : List ℕ → Said
read_line l =
    if leb 17 (length l) && ci_equal l (codes "transfer-encoding") 17
    then refusal
    else if leb 15 (length l) && ci_equal l (codes "content-length:") 15
    then read_length (drop 15 l)
    else nothing

-- The rounds of the loop, with `seen` and `*want`; `none` is -1.
unfoldable pub read_lines : List (List ℕ) → Bool → ℕ → Option (Bool × ℕ)
read_lines [] seen want = some (seen, want)
read_lines (l ∷ ls) seen want = elim (read_line l) [
  | nothing ↦ read_lines ls seen want
  | refusal ↦ none
  | size value ↦
      (let rest = read_lines ls true value in if seen && not (value == want) then none else rest)
]

-- `head_content_length`
unfoldable pub content_length : List ℕ → Option (Bool × ℕ)
content_length head = read_lines (header_lines head) false 0
