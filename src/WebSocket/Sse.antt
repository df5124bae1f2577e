-- ===== src/WebSocket/Sse.antt =====
-- `vv_sse_format` of src/server/ws.c: an event of the server-sent kind, written into a buffer that may
-- be too small. A string is the list of its bytes before the final zero; a buffer that is not there
-- has capacity 0.
use vibevoice_c.Common.{
  ℕ, zero, suc, ◌+◌, ◌-◌, ◌&&◌, Option, none, some, List, [], ◌∷◌, ◌++◌, ltb, ◌==◌, if◌then◌else◌,
  get_or, take, drop, length,
}

-- What is in the buffer, and `need`.
abbrev pub Output : Type 0
Output = List ℕ × ℕ

-- The macro `PUT`.
unfoldable pub put : ℕ → Output → List ℕ → Output
put cap (out, need) s =
    if ltb (need + length s) cap
    then (out ++ s, need + length s)
    else if ltb need cap
    then (out ++ take (cap - 1 - need) s, need + length s)
    else (out, need + length s)

-- `strchr`, as an index.
unfoldable pub index_of : ℕ → List ℕ → Option ℕ
index_of c [] = none
index_of c (x ∷ xs) =
    let rest = index_of c xs in
    if x == c then some 0 else elim rest [ none ↦ none | some i ↦ some (suc i) ]

-- "event: ", "data: " and the end of a line.
abbrev pub event_word : List ℕ
event_word = 101 ∷ 118 ∷ 101 ∷ 110 ∷ 116 ∷ 58 ∷ 32 ∷ []

abbrev pub data_word : List ℕ
data_word = 100 ∷ 97 ∷ 116 ∷ 97 ∷ 58 ∷ 32 ∷ []

abbrev pub newline : List ℕ
newline = 10 ∷ []

-- `if (n && p[n - 1] == '\r') n--;`
abbrev pub less_return : List ℕ → ℕ → ℕ
less_return p n = if ltb 0 n && get_or p (n - 1) 0 == 13 then n - 1 else n

-- The three `PUT`s of a line of `n` bytes.
abbrev pub put_line : ℕ → Output → List ℕ → ℕ → Output
put_line cap o p n = put cap (put cap (put cap o data_word) (take (less_return p n) p)) newline

-- The loop over the lines of `data`, with fuel; each round but the last takes a byte.
unfoldable pub put_lines : ℕ → ℕ → Output → List ℕ → Output
put_lines zero cap o p = o
put_lines (suc f) cap o p = elim (index_of 10 p) [
  | none ↦ put_line cap o p (length p)
  | some i ↦ put_lines f cap (put_line cap o p i) (drop (suc i) p)
]

-- `vv_sse_format`: the bytes before the final zero in the buffer, and the result.
unfoldable pub format : ℕ → List ℕ → List ℕ → Output
unfolding put_lines
format cap event message =
    let o =
      if length event == 0
      then ([], 0)
      else put cap (put cap (put cap ([], 0) event_word) event) newline in
    put cap (put_lines (suc (length message)) cap o message) newline
