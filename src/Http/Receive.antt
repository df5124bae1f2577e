-- ===== src/Http/Receive.antt =====
-- The loop of `read_request` of src/server/http.c that receives a request.
use vibevoice_c.Common.{
  ℕ, ◌+◌, ◌-◌, ◌*◌, ◌%◌, ◌^◌, Bool, true, false, not, ◌&&◌, ◌||◌, Option, none, some, List, [], ◌∷◌,
  ◌++◌, ltb, leb, ◌==◌, if◌then◌else◌, length, take, drop, min,
}
use vibevoice_c.Http.{mem_find, codes}
use vibevoice_c.Http.Head.{content_length}

-- A call of `recv`: how many bytes it has to give, none at the end or on an error, and whether the
-- deadline of the head is over after it.
pub record Call : Type 0 where
  pub ready : ℕ
  pub late : Bool

-- The variables of the loop, with the bytes that the client has yet to send; `buf` has `len` bytes.
pub record Receiver : Type 0 where
  pub buf : List ℕ
  pub cap : ℕ
  pub head_end : ℕ
  pub want : ℕ
  pub coming : List ℕ

-- A blank line.
abbrev pub blank_line : List ℕ
blank_line = codes "\r\n\r\n"

-- `(int)(cap - len)`, as the `size_t` that `recv` takes it for.
abbrev pub asked : ℕ → ℕ
asked room = let low = room % 2 ^ 32 in if ltb low (2 ^ 31) then low else low + (2 ^ 64 - 2 ^ 32)

module _ (alloc : ℕ → Bool) (max_body : ℕ) where
  -- Room in the buffer, or `none`.
  unfoldable pub make_room : Receiver → Option Receiver
  make_room r =
      if length r.buf == r.cap
      then if leb ((max_body + 2 ^ 20) % 2 ^ 64) r.cap
        then none
        else if alloc (r.cap * 2 + 1)
        then some (record r { cap = r.cap * 2 })
        else none
      else some r

  -- The search for the end of the head, when it was not found before; `none` refuses.
  unfoldable pub seek : Bool → Receiver → Option Receiver
  seek late r = if not (r.head_end == 0) then some r else elim (mem_find blank_line r.buf) [
    | some e ↦ (elim (content_length (take (e + 4) r.buf)) [
      | none ↦ none
      | some (seen, want) ↦
          (if ltb max_body want then none else some (record r { head_end = e + 4; want = want }))
    ])
    | none ↦ (if late || ltb (2 ^ 16) (length r.buf) then none else some r)
  ]

  abbrev pub is_complete : Receiver → Bool
  is_complete r = not (r.head_end == 0) && leb ((r.head_end + r.want) % 2 ^ 64) (length r.buf)

  -- What is left when the loop ends: nothing without the end of the head.
  abbrev pub given_up : Receiver → Option Receiver
  given_up r = if r.head_end == 0 then none else some r

  -- The loop; a call beyond the last of the list gives nothing.
  unfoldable pub receive : List Call → Receiver → Option Receiver
  receive [] r = elim (make_room r) [ none ↦ none | some r' ↦ given_up r' ]
  receive (k ∷ ks) r = elim (make_room r) [
    | none ↦ none
    | some g ↦
        (let got = take (min k.ready (asked (g.cap - length g.buf))) g.coming in
          if length got == 0
          then given_up g
          else elim (seek k.late
              (record g { buf = g.buf ++ got; coming = drop (length got) g.coming })) [
                | none ↦ none
                | some s ↦ elim (is_complete s) [ true ↦ some s | false ↦ receive ks s ]
              ])
  ]

  -- The first buffer, of 64 KB, and the loop.
  unfoldable pub receive_all : List Call → List ℕ → Option Receiver
  receive_all ks coming =
      if alloc (2 ^ 16 + 1)
      then receive ks (record { buf = []; cap = 2 ^ 16; head_end = 0; want = 0; coming = coming })
      else none
