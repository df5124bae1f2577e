-- ===== src/Http/Request.antt =====
-- How `read_request` of src/server/http.c parses the head, and the lookup of headers.
use vibevoice_c.Common.{
  ℕ, zero, suc, ◌-◌, Bool, true, false, ◌&&◌, ◌||◌, Option, none, some, List, [], ◌∷◌, ◌==◌,
  if◌then◌else◌, length, take, c_string, drop, equal_bytes,
}
use vibevoice_c.Http.{codes, ci_equal, until, skip_while}
use vibevoice_c.WebSocket.Handshake.{accept_key}
use vibevoice_c.Http.Head.{is_blank, is_blank_or_cr}

-- `vv_http_hdr_t`
pub record Header : Type 0 where
  pub name : List ℕ
  pub value : List ℕ

-- `vv_http_req_t`, without the body.
pub record Request : Type 0 where
  pub method : List ℕ
  pub path : List ℕ
  pub query : List ℕ
  pub headers : List Header

-- `memchr` or `strchr`: what is in front of the first `c`, and behind it.
unfoldable pub split_at : ℕ → List ℕ → Option (List ℕ × List ℕ)
split_at c [] = none
split_at c (x ∷ s) =
    let rest = split_at c s in
    if x == c then some ([], s) else elim rest [ none ↦ none | some (a, b) ↦ some (x ∷ a, b) ]

-- The loop that takes blanks off the end of a value.
unfoldable pub trim_end : List ℕ → List ℕ
trim_end [] = []
trim_end (c ∷ s) =
    let rest = trim_end s in if length rest == 0 && is_blank_or_cr c then [] else c ∷ rest

unfoldable pub header_of : List ℕ → List ℕ → Header
header_of name v = record {
  name = take 63 name;
  value = take 511 (trim_end (skip_while is_blank v));
}

abbrev pub stops : List ℕ → Bool
stops [] = true
stops (c ∷ s) = c == b'\r' || c == b'\n'

-- The loop over the headers, for at most as many as the first argument says.
unfoldable pub parse_headers : ℕ → List ℕ → List Header
parse_headers zero line = []
parse_headers (suc n) line = elim (stops line) [
  | true ↦ []
  | false ↦ (elim (split_at b'\n' line) [
    | none ↦ (elim (split_at b':' line) [ none ↦ [] | some (name, v) ↦ header_of name v ∷ [] ])
    | some (l, rest) ↦ (elim (split_at b':' l) [
      | none ↦ []
      | some (name, v) ↦ header_of name v ∷ parse_headers n rest
    ])
  ])
]

abbrev pub behind : ℕ → List ℕ → List ℕ
behind c s = elim (split_at c s) [ none ↦ [] | some (a, b) ↦ b ]

-- The fields, from the method, the target and the text behind them.
unfoldable pub request_of : List ℕ → List ℕ → List ℕ → Request
request_of m p r =
    let path = take 511 (c_string p) in
    record {
      method = take 7 (c_string m);
      path = until b'?' path;
      query = take 511 (behind b'?' path);
      headers = elim (split_at b'\n' (c_string r)) [
        | none ↦ []
        | some (a, lines) ↦ parse_headers 48 lines
      ];
    }

-- The head, with the blank line at its end; `none` refuses.
unfoldable pub parse_head : List ℕ → Option Request
parse_head head = elim (split_at b' ' (take (length head - 2) head)) [
  | none ↦ none
  | some (m, r) ↦ (elim (split_at b' ' r) [ none ↦ none | some (p, r') ↦ some (request_of m p r') ])
]

-- `vv_http_header`
unfoldable pub find_header : List ℕ → List Header → Option (List ℕ)
find_header name [] = none
find_header name (h ∷ hs) =
    let rest = find_header name hs in
    if length h.name == length name && ci_equal h.name name (length name)
    then some h.value
    else rest

-- The blanks at the end of a token.
unfoldable pub trim_spaces : List ℕ → List ℕ
trim_spaces [] = []
trim_spaces (c ∷ s) =
    let rest = trim_spaces s in if length rest == 0 && c == b' ' then [] else c ∷ rest

-- The loop of `header_has_token`; a round takes a byte at least, so the value's length is enough.
unfoldable pub has_token_from : ℕ → List ℕ → List ℕ → Bool
has_token_from zero token p = false
has_token_from (suc f) token p =
    let start = skip_while (λ c. c == b' ' || c == b',') p in
    let word = until b',' start in
    let t = trim_spaces word in
    let rest = has_token_from f token (drop (length word) start) in
    if length p == 0
    then false
    else if length t == length token && ci_equal t token (length token)
    then true
    else rest

-- `header_has_token`
unfoldable pub has_token : List ℕ → List ℕ → Bool
has_token value token = has_token_from (length value) token value

abbrev pub or_empty : Option (List ℕ) → List ℕ
or_empty none = []
or_empty (some v) = v

-- The tests of `vv_http_ws_accept`: the answer to the client's key, or `none` for the error 400. A
-- header that is missing fails its test as an empty one does.
unfoldable pub ws_accept : Request → Option (List ℕ)
ws_accept r =
    let value = λ (name : List ℕ). or_empty (find_header name r.headers) in
    if equal_bytes r.method (codes "GET")
      && has_token (value (codes "Upgrade")) (codes "websocket")
      && has_token (value (codes "Connection")) (codes "upgrade")
      && equal_bytes (value (codes "Sec-WebSocket-Version")) (codes "13")
    then accept_key (value (codes "Sec-WebSocket-Key"))
    else none
