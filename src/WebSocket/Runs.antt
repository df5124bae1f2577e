-- ===== src/WebSocket/Runs.antt =====
-- The parser of src/server/ws.c on a short stream: a masked text message in two fragments with a ping
-- between them, and the start of a frame that asks for too much.
use vibevoice_c.Common.{
  take, length, ◌-◌, ℕ, ◌≡◌, refl, Bool, true, List, [], ◌∷◌, ◌++◌, joined, double_to, arith, leb,
}
use vibevoice_c.WebSocket.Frame.{deliver, frame, head_is_bad, sized_frame, size_of, body, unmask}
use vibevoice_c.WebSocket.Feed.{init, feed, copies, copy_end, feed_copies, grow, demand}
use vibevoice_c.WebSocket.Stream.{Reading, read}
use vibevoice_c.WebSocket.Pieces.{Stands, feed_all, pieces_are_read_as_one, cut_does_not_matter}
use vibevoice_c.WebSocket.Sse.{format}
use vibevoice_c.WebSocket.Cut.{text, split, fields, format-text}
use vibevoice_c.WebSocket.Room.{Fit, IsRoomy, feed-IsRoomy}

abbrev memory : ℕ → Bool
memory n = true

abbrev plenty : (n : ℕ) → memory n ≡ true
plenty n = refl

-- "he" without the final bit, a ping, "y" as the last fragment; the key is 1, 2, 3, 4.
abbrev hello : List ℕ
hello = 0x01 ∷ 0x82 ∷ 1 ∷ 2 ∷ 3 ∷ 4 ∷ 105 ∷ 103 ∷ []

abbrev ping : List ℕ
ping = 0x89 ∷ 0x80 ∷ 0 ∷ 0 ∷ 0 ∷ 0 ∷ []

abbrev end : List ℕ
end = 0x80 ∷ 0x81 ∷ 1 ∷ 2 ∷ 3 ∷ 4 ∷ 120 ∷ []

abbrev too_much : List ℕ
too_much = 0x82 ∷ 0xFE ∷ 0xFF ∷ 0xFF ∷ []

abbrev at_once : List (List ℕ)
at_once = (hello ++ (ping ++ (end ++ too_much))) ∷ []

abbrev cut : List (List ℕ)
cut =
    (0x01 ∷ [])
    ∷ (0x82 ∷ 1 ∷ 2 ∷ 3 ∷ 4 ∷ 105 ∷ 103 ∷ 0x89 ∷ [])
    ∷ []
    ∷ (0x80 ∷ 0 ∷ 0 ∷ 0 ∷ 0 ∷ [])
    ∷ (end ++ too_much)
    ∷ []

-- The calls that the stream makes.
calls : (feed_all memory (init 1000) at_once).1 ≡ (9, []) ∷ (1, 104 ∷ 101 ∷ 121 ∷ []) ∷ []
unfolding feed_all init feed grow frame head_is_bad sized_frame size_of body demand unmask double_to
calls = refl

pieces_are_read_as_one_example :
    (let (p, events) = feed_all memory (init 1000) cut in
      let (r, events') = read (init 1000).limits (init 1000).assembly (joined cut) in
      Stands p r × (events ≡ events'))
unfolding init
pieces_are_read_as_one_example = pieces_are_read_as_one memory plenty 1000 cut (omega arith)

cut_does_not_matter_example :
    (let (p, events) = feed_all memory (init 1000) at_once in
      let (q, events') = feed_all memory (init 1000) cut in
      (events ≡ events') × ((r : Reading) × (Stands p r × Stands q r)))
unfolding init
cut_does_not_matter_example = cut_does_not_matter memory plenty 1000 at_once cut (omega arith) refl

-- Memory for the first buffer of each kind, and for no larger one.
abbrev little : ℕ → Bool
little n = leb n 4096

feed-IsRoomy_example :
    Fit little (feed_copies little (init 1000) (hello ++ ping ++ end))
    × IsRoomy little (feed little (init 1000) (hello ++ ping ++ end)).0.1
unfolding init
feed-IsRoomy_example =
    feed-IsRoomy little (init 1000) (hello ++ ping ++ end) (omega arith) (omega arith, omega arith)

-- The copies of that call: 21 bytes arrive; then "he" is in `msg`, before and after the ping, then "hey"
-- with a zero behind it.
copied :
    feed_copies little (init 1000) (hello ++ ping ++ end)
    ≡ (21, 4096) ∷ (2, 4096) ∷ (2, 4096) ∷ (4, 4096) ∷ []
unfolding feed_copies copies copy_end init frame head_is_bad sized_frame size_of body deliver demand
    grow unmask double_to
copied = refl

-- "ok", "a", a return, a new line, "b".
abbrev name_ok : List ℕ
name_ok = 111 ∷ 107 ∷ []

abbrev two_lines : List ℕ
two_lines = 97 ∷ 13 ∷ 10 ∷ 98 ∷ []

format-text_example :
    format 20 name_ok two_lines
    ≡ (take (20 - 1) (text name_ok two_lines), length (text name_ok two_lines))
format-text_example = format-text 20 name_ok two_lines

-- "event: ok", "data: a" and "data: b", each on a line, and an empty line.
whole_event :
    text name_ok two_lines
    ≡ 101 ∷ 118 ∷ 101 ∷ 110 ∷ 116 ∷ 58 ∷ 32 ∷ 111 ∷ 107 ∷ 10 ∷ 100 ∷ 97 ∷ 116 ∷ 97 ∷ 58 ∷ 32 ∷ 97
      ∷ 10 ∷ 100 ∷ 97 ∷ 116 ∷ 97 ∷ 58 ∷ 32 ∷ 98 ∷ 10 ∷ 10 ∷ []
unfolding text split fields
whole_event = refl
