-- ===== src/Tokenizer/Split.antt =====
-- The split into pieces of src/text_tokenizer/bpe.c: the classes of characters and `next_piece`.
use vibevoice_c.Common.{
  ℕ, zero, suc, ◌+◌, ◌-◌, Bool, false, not, ◌&&◌, ◌||◌, Option, none, some, List, [], ◌∷◌, ltb, leb,
  ◌==◌, if◌then◌else◌, get_or, drop, length,
}
use Prim.Native.Nat.{bit_or}
use vibevoice_c.Tokenizer.Utf8.{utf8_get}

abbrev pub between : ℕ → ℕ → ℕ → Bool
between lo c hi = leb lo c && leb c hi

unfoldable pub cp_is_space : ℕ → Bool
cp_is_space c =
    c == b' '
    || c == b'\t'
    || c == b'\n'
    || c == b'\r'
    || c == 0x0B
    || c == 0x0C
    || c == 0x85
    || c == 0xA0
    || c == 0x1680
    || between 0x2000 c 0x200A
    || c == 0x2028
    || c == 0x2029
    || c == 0x202F
    || c == 0x205F
    || c == 0x3000

unfoldable pub cp_is_digit : ℕ → Bool
cp_is_digit c =
    between b'0' c b'9'
    || between 0x0660 c 0x0669
    || between 0x06F0 c 0x06F9
    || between 0x0966 c 0x096F
    || between 0x09E6 c 0x09EF
    || between 0x0E50 c 0x0E59
    || between 0xFF10 c 0xFF19
    || c == 0xB2
    || c == 0xB3
    || c == 0xB9
    || between 0xBC c 0xBE

unfoldable pub cp_is_sym : ℕ → Bool
cp_is_sym c =
    if ltb c 0x80
    then not (between b'a' c b'z' || between b'A' c b'Z')
    else between 0xA0 c 0xBF
      || (c == 0xD7 || c == 0xF7)
      || between 0x2000 c 0x2BFF
      || between 0x3000 c 0x303F
      || between 0xFE00 c 0xFE6F
      || between 0xFF00 c 0xFF0F
      || between 0xFF1A c 0xFF20
      || between 0xFF3B c 0xFF40
      || between 0xFF5B c 0xFF65
      || leb 0xFFF0 c
      || between 0x1F000 c 0x1FAFF

unfoldable pub cp_is_letter : ℕ → Bool
cp_is_letter c = if cp_is_space c || cp_is_digit c then false else not (cp_is_sym c)

-- `while (q < len) { ... if (!test) break; q += a2; }` from `s` on: the bytes passed, with fuel; a
-- round takes a byte at least.
unfoldable pub run_while : (ℕ → Bool) → ℕ → List ℕ → ℕ
run_while test zero s = 0
run_while test (suc f) s =
    let (a, cp) = utf8_get s in
    let rest = run_while test f (drop a s) in
    if length s == 0 then 0 else if test cp then a + rest else 0

-- `while (q < len && (s[q] == '\r' || s[q] == '\n')) q++;`
unfoldable pub line_ends : List ℕ → ℕ
line_ends [] = 0
line_ends (c ∷ s) = let rest = line_ends s in if c == b'\r' || c == b'\n' then 1 + rest else 0

-- The loop over a run of spaces: `end`, and `last_nl`, which is `none` for (size_t)-1.
unfoldable pub spaces : ℕ → List ℕ → ℕ → Option ℕ → ℕ × Option ℕ
spaces zero s end last_nl = (end, last_nl)
spaces (suc f) s end last_nl =
    let (a, cp) = utf8_get s in
    let rest =
      spaces f (drop a s) (end + a) (if cp == b'\r' || cp == b'\n' then some end else last_nl) in
    if length s == 0 then (end, last_nl) else if not (cp_is_space cp) then (end, last_nl) else rest

-- An alternative of the pattern, and what follows it in the source.
abbrev pub or_else : Option ℕ → ℕ → ℕ
or_else none n = n
or_else (some m) n = m

unfoldable pub contraction : ℕ → List ℕ → Option ℕ
contraction cp s =
    let c1 = bit_or (get_or s 1 0) 0x20 in
    let c2 = bit_or (get_or s 2 0) 0x20 in
    if cp == b'\'' && leb 2 (length s)
    then if c1 == b's' || c1 == b't' || c1 == b'm' || c1 == b'd'
      then some 2
      else if leb 3 (length s)
          && ((c1 == b'r' && c2 == b'e')
              || (c1 == b'v' && c2 == b'e')
              || (c1 == b'l' && c2 == b'l'))
      then some 3
      else none
    else none

unfoldable pub word : ℕ → ℕ → List ℕ → Option ℕ
word adv cp s =
    let p =
      if not (cp == b'\r') && not (cp == b'\n') && not (cp_is_letter cp) && not (cp_is_digit cp)
      then adv
      else 0 in
    let q = run_while cp_is_letter (length s) (drop p s) in if ltb 0 q then some (p + q) else none

unfoldable pub digit : ℕ → ℕ → Option ℕ
digit adv cp = if cp_is_digit cp then some adv else none

abbrev pub is_other : ℕ → Bool
is_other c = not (cp_is_space c || cp_is_letter c || cp_is_digit c)

unfoldable pub symbols : ℕ → List ℕ → Option ℕ
symbols cp s =
    let p = if cp == b' ' then 1 else 0 in
    let q = run_while is_other (length s) (drop p s) in
    if ltb 0 q then some (p + q + line_ends (drop (p + q) s)) else none

-- The last three alternatives, on the run of spaces that was found.
abbrev pub space_end : ℕ → ℕ × Option ℕ → ℕ
space_end len (end, some i) = i + 1
space_end len (end, none) = if leb len end then end else if leb 2 end then end - 1 else end

unfoldable pub white : ℕ → List ℕ → Option ℕ
white cp s =
    if cp_is_space cp then some (space_end (length s) (spaces (length s) s 0 none)) else none

-- `next_piece` on a text that is not empty.
unfoldable pub next_piece : List ℕ → ℕ
next_piece s =
    let (adv, cp) = utf8_get s in
    or_else (contraction cp s) (
      or_else (word adv cp s)
        (or_else (digit adv cp) (or_else (symbols cp s) (or_else (white cp s) adv))))
