-- ===== src/Http/Multipart.antt =====
-- `vv_http_parse_multipart` of src/server/http.c.
use vibevoice_c.Common.{
  ℕ, zero, suc, ◌+◌, ◌-◌, true, false, ◌&&◌, ◌||◌, Option, none, some, List, [], ◌∷◌, ◌++◌, leb,
  ◌==◌, if◌then◌else◌, length, take, drop, get_or, starts_with, equal_bytes,
}
use vibevoice_c.Http.{codes, mem_find, until}
use vibevoice_c.Http.Receive.{blank_line}

-- `vv_http_part_t`; `data` and `size` are the bytes.
pub record Part : Type 0 where
  pub name : List ℕ
  pub filename : List ℕ
  pub data_bytes : List ℕ

abbrev pub crlf : List ℕ
crlf = codes "\r\n"

-- The bytes of a boundary without quotes; a content type is a C string without its terminator.
unfoldable pub unquoted : List ℕ → List ℕ
unquoted [] = []
unquoted (c ∷ s) =
    let rest = unquoted s in if c == b';' || c == b' ' || c == b'\r' then [] else c ∷ rest

-- What `bpos` points to, with `boundary` of 256 bytes.
unfoldable pub read_boundary : List ℕ → List ℕ
read_boundary [] = []
read_boundary (c ∷ s) = take 255 (if c == b'"' then until b'"' s else unquoted (c ∷ s))

-- The boundary in a content type, empty without one.
unfoldable pub boundary_of : List ℕ → List ℕ
boundary_of content_type = elim (mem_find (codes "boundary=") content_type) [
  | none ↦ []
  | some i ↦ read_boundary (drop (i + 9) content_type)
]

-- A quoted value of the headers of a part, of `limit` bytes at most.
unfoldable pub quoted_value : List ℕ → ℕ → List ℕ → List ℕ
quoted_value key limit head = elim (mem_find key head) [
  | none ↦ []
  | some i ↦ take limit (until b'"' (drop (i + length key) head))
]

-- The data without the CRLF in front of the next boundary.
unfoldable pub strip : List ℕ → List ℕ
strip d =
    let n = length d in
    if leb 2 n && get_or d (n - 2) 0 == b'\r' && get_or d (n - 1) 0 == b'\n'
    then take (n - 2) d
    else d

unfoldable pub part_of : List ℕ → List ℕ → Part
part_of head d = record {
  name = quoted_value (codes "name=\"") 127 head;
  filename = quoted_value (codes "filename=\"") 255 head;
  data_bytes = strip d;
}

-- The loop, for at most as many parts as the first argument says, with the text from `p` on.
unfoldable pub parse_parts : ℕ → List ℕ → Option (List ℕ) → List Part
parse_parts zero sep p = []
parse_parts (suc n) sep none = []
parse_parts (suc n) sep (some p) =
    let behind = drop (length sep) p in
    let text = if starts_with crlf behind then drop 2 behind else behind in
    elim (starts_with (codes "--") behind) [
      | true ↦ []
      | false ↦ (elim (mem_find blank_line text) [
        | none ↦ []
        | some h ↦
            (let rest = drop (h + 4) text in
              elim (mem_find sep rest) [
                | none ↦ part_of (take h text) rest ∷ []
                | some k ↦
                    part_of (take h text) (take k rest) ∷ parse_parts n sep (some (drop k rest))
              ])
      ])
    ]

-- `vv_http_parse_multipart`
unfoldable pub parse_multipart : List ℕ → Option (List ℕ) → ℕ → List Part
parse_multipart body none max_parts = []
parse_multipart body (some content_type) max_parts =
    let b = boundary_of content_type in
    let sep = codes "--" ++ b in
    if length b == 0
    then []
    else parse_parts max_parts sep
        (elim (mem_find sep body) [ none ↦ none | some i ↦ some (drop i body) ])

-- `vv_http_part`
unfoldable pub part_named : List Part → List ℕ → Option Part
part_named [] name = none
part_named (p ∷ ps) name =
    let rest = part_named ps name in if equal_bytes p.name name then some p else rest
