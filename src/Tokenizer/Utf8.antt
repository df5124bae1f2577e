-- ===== src/Tokenizer/Utf8.antt =====
-- `utf8_put`, `utf8_get` and the byte alphabet of src/text_tokenizer/bpe.c.
use vibevoice_c.Common.{
  ℕ, zero, suc, ◌+◌, ◌*◌, ◌/◌, ◌%◌, ◌^◌, Bool, ◌&&◌, ◌||◌, Option, none, some, List, [], ◌∷◌, ltb,
  leb, ◌==◌, if◌then◌else◌, get_or, set, replicate, length,
}
use Prim.Native.Nat.{bit_and, bit_or}

-- A number cast to `char`.
abbrev pub char : ℕ → ℕ
char x = x % 256

unfoldable pub utf8_put : ℕ → List ℕ
utf8_put cp =
    if ltb cp 0x80
    then char cp ∷ []
    else if ltb cp 0x800
    then char (bit_or 0xC0 (cp / 2 ^ 6)) ∷ char (bit_or 0x80 (bit_and cp 0x3F)) ∷ []
    else if ltb cp 0x10000
    then char (bit_or 0xE0 (cp / 2 ^ 12))
      ∷ char (bit_or 0x80 (bit_and (cp / 2 ^ 6) 0x3F))
      ∷ char (bit_or 0x80 (bit_and cp 0x3F))
      ∷ []
    else char (bit_or 0xF0 (cp / 2 ^ 18))
      ∷ char (bit_or 0x80 (bit_and (cp / 2 ^ 12) 0x3F))
      ∷ char (bit_or 0x80 (bit_and (cp / 2 ^ 6) 0x3F))
      ∷ char (bit_or 0x80 (bit_and cp 0x3F))
      ∷ []

abbrev pub low6 : List ℕ → ℕ → ℕ
low6 s i = bit_and (get_or s i 0) 0x3F

-- The bytes consumed, and the code point; `s` is not empty.
unfoldable pub utf8_get : List ℕ → ℕ × ℕ
utf8_get s =
    let c = get_or s 0 0 in
    if ltb c 0x80
    then (1, c)
    else if bit_and c 0xE0 == 0xC0 && leb 2 (length s)
    then (2, bit_or (bit_and c 0x1F * 2 ^ 6) (low6 s 1))
    else if bit_and c 0xF0 == 0xE0 && leb 3 (length s)
    then (3, bit_or (bit_or (bit_and c 0x0F * 2 ^ 12) (low6 s 1 * 2 ^ 6)) (low6 s 2))
    else if bit_and c 0xF8 == 0xF0 && leb 4 (length s)
    then (
      4,
      bit_or (bit_or (bit_or (bit_and c 0x07 * 2 ^ 18) (low6 s 1 * 2 ^ 12)) (low6 s 2 * 2 ^ 6))
          (low6 s 3),
    )
    else (1, c)

-- `printable` of `bytelevel_build`.
abbrev pub printable : ℕ → Bool
printable b = (leb b'!' b && leb b b'~') || (leb 0xA1 b && leb b 0xAC) || (leb 0xAE b && leb b 0xFF)

-- The loop of `bytelevel_build` over the bytes from `b` on, `left` of them: the two tables, and `n`.
-- An entry that is -1 is `none`.
unfoldable pub build : ℕ → ℕ → ℕ → List ℕ → List (Option ℕ) → List ℕ × List (Option ℕ)
build zero b n to_cp to_byte = (to_cp, to_byte)
build (suc left) b n to_cp to_byte =
    let cp = if printable b then b else 256 + n in
    build left (b + 1) (if printable b then n else n + 1) (set to_cp b cp)
      (if ltb cp 324 then set to_byte cp (some b) else to_byte)

unfoldable pub tables : List ℕ × List (Option ℕ)
unfolding build
tables = build 256 0 0 (replicate 256 0) (replicate 324 none)

-- `g_byte_to_cp[b]`
unfoldable pub byte_to_cp : ℕ → ℕ
unfolding tables
byte_to_cp b = get_or tables.0 b 0

-- `(cp < 324) ? g_cp_to_byte[cp] : -1`
unfoldable pub cp_to_byte : ℕ → Option ℕ
unfolding tables
cp_to_byte cp = if ltb cp 324 then get_or tables.1 cp none else none
