-- ===== src/Http/Json.antt =====
-- `json_escape_into` of src/server/http.c, and a decoder of JSON strings.
use vibevoice_c.Common.{
  ℕ, zero, suc, ◌+◌, ◌-◌, ◌*◌, ◌/◌, ◌%◌, ◌&&◌, ◌||◌, Option, none, some, List, [], ◌∷◌, ◌++◌, ltb,
  leb, ◌==◌, if◌then◌else◌, length,
}
use vibevoice_c.Http.{codes}

-- A digit of `%04x`.
abbrev pub hex : ℕ → ℕ
hex x = if ltb x 10 then b'0' + x else b'a' + (x - 10)

-- What the loop writes for a byte.
unfoldable pub piece : ℕ → List ℕ
piece c =
    if c == b'"'
    then codes "\\\""
    else if c == b'\\'
    then codes "\\\\"
    else if ltb c 0x20
    then codes "\\u" ++ hex (c / 4096) ∷ hex (c / 256 % 16) ∷ hex (c / 16 % 16) ∷ hex (c % 16) ∷ []
    else c ∷ []

-- The loop over a C string, with `o` bytes in the output.
unfoldable pub escape_from : ℕ → ℕ → List ℕ → List ℕ
escape_from cap o [] = []
escape_from cap o (c ∷ s) =
    let n = length (piece c) in
    let rest = escape_from cap (o + n) s in if ltb cap (o + n + 1) then [] else piece c ++ rest

-- `json_escape_into`, without the terminator.
unfoldable pub escape_into : ℕ → List ℕ → List ℕ
escape_into cap s = escape_from cap 0 s

-- A decoder of the body of a JSON string whose characters are bytes: where it stands.
pub data Decoder : Type 0 where
  plain escaped : Decoder
  digits : ℕ → ℕ → Decoder

abbrev pub hex_value : ℕ → Option ℕ
hex_value c =
    if leb b'0' c && leb c b'9'
    then some (c - b'0')
    else if leb b'a' c && leb c b'f'
    then some (c - b'a' + 10)
    else if leb b'A' c && leb c b'F'
    then some (c - b'A' + 10)
    else none

-- The text that is written, or `none` if it is no string: the end of the string and control characters
-- are not in it, an escape is `\"`, `\\` or `\u` with four digits.
unfoldable pub unescape : Decoder → List ℕ → Option (List ℕ)
unescape plain [] = some []
unescape escaped [] = none
unescape (digits k x) [] = none
unescape plain (c ∷ s) =
    let more = unescape escaped s in
    let rest = unescape plain s in
    if c == b'"' || ltb c 0x20
    then none
    else if c == b'\\'
    then more
    else elim rest [ none ↦ none | some t ↦ some (c ∷ t) ]
unescape escaped (c ∷ s) =
    let rest = unescape plain s in
    let more = unescape (digits 3 0) s in
    if c == b'u'
    then more
    else if c == b'"' || c == b'\\'
    then elim rest [ none ↦ none | some t ↦ some (c ∷ t) ]
    else none
unescape (digits k x) (c ∷ s) =
    let rest = unescape plain s in
    elim (hex_value c) [
      | none ↦ none
      | some v ↦ (elim k [
        | zero ↦ (elim rest [ none ↦ none | some t ↦ some ((x * 16 + v) ∷ t) ])
        | suc k' ↦ unescape (digits k' (x * 16 + v)) s
      ])
    ]
