-- ===== src/Http/Runs.antt =====
-- Runs of the functions of src/server/http.c.
use vibevoice_c.Common.{
  ℕ, ◌+◌, ◌<◌, ◌≤◌, ◌≡◌, refl, true, false, Option, none, some, List, [], ◌∷◌, ◌++◌, length, take,
  drop, replicate, starts_with, arith,
}
use vibevoice_c.Http.{codes, ci_equal, find_from, mem_find, until, skip_while}
use vibevoice_c.Http.Head.{
  header_lines, read_line, read_lines, read_digits, read_length, content_length, size,
}
use vibevoice_c.Http.Receive.{Receiver, make_room, seek, receive, receive_all}
use vibevoice_c.Http.Arrival.{IsRequest, receive_all_complete}
use vibevoice_c.Http.Framing.{content_length_sound}
use vibevoice_c.Http.Decimal.{digits_of, read_length-decimal}
use vibevoice_c.Http.Json.{escape_into, unescape, plain}
use vibevoice_c.Http.Escape.{unescape-escape_into}
use vibevoice_c.Http.Multipart.{Part, quoted_value, parse_multipart}
use vibevoice_c.Http.Form.{form, IsPlain}
use vibevoice_c.Http.Upload.{parse_multipart-form}
use vibevoice_c.Http.Request.{trim_spaces, has_token, has_token_from}
use vibevoice_c.Http.Requests.{seven, replicate-IsReady}
use vibevoice_c.Http.Server.{
  Place, Server, begin, on_accept, on_start, on_finish, shut_down, Reachable, begun, then_to,
  accepts, thread_starts, thread_ends, shuts_down, leaves_loop, gives_back,
}
use vibevoice_c.Http.Threads.{IsCounted, Reachable-IsCounted}

abbrev post_head : List ℕ
post_head = codes "POST /x HTTP/1.1\r\nContent-Length: 3\r\n\r\n"

post_IsRequest : IsRequest 1000 post_head (codes "abc")
unfolding find_from starts_with content_length header_lines read_lines read_line read_length
    read_digits ci_equal until skip_while
post_IsRequest = record {
  seen = true;
  ends = (35, refl, refl);
  says = refl;
  small_head = omega arith;
  small_body = omega arith;
  limit = omega arith;
}

receive_all_complete_example :
    (s : Receiver) × (receive_all (λ n. true) 1000 (replicate 50 seven) (post_head ++ codes "abc")
      ≡ some s)
    × (s.buf ≡ post_head ++ codes "abc")
    × (s.head_end ≡ length post_head)
    × (drop s.head_end s.buf ≡ codes "abc")
receive_all_complete_example =
    receive_all_complete (λ n. true) 1000 post_head (codes "abc") (replicate 50 seven) (λ n. refl)
      post_IsRequest (replicate-IsReady 50) (omega arith)

content_length_sound_example :
    (ci_equal (codes "Content-Length: 3\r") (codes "transfer-encoding") 17 ≡ false)
    × (ci_equal (codes "Content-Length: 3\r") (codes "content-length:") 15 ≡ true
        → (true ≡ true) × (read_length (drop 15 (codes "Content-Length: 3\r")) ≡ size 3))
unfolding content_length header_lines read_lines read_line read_length read_digits ci_equal until
    skip_while
content_length_sound_example =
    content_length_sound (codes "POST /x HTTP/1.1\r") (codes "Content-Length: 3\r") (codes "\r\n")
      true 3
      (
        refl,
        (
          refl,
          (
            refl,
            (
              refl,
              (
                refl,
                (
                  refl,
                  (
                    refl,
                    (
                      refl,
                      (
                        refl,
                        (refl, (refl, (refl, (refl, (refl, (refl, (refl, (refl, (refl, tt))))))))),
                      ),
                    ),
                  ),
                ),
              ),
            ),
          ),
        ),
      )
      refl

read_length-decimal_example : read_length (b' ' ∷ digits_of 19 1200 (b'\r' ∷ [])) ≡ size 1200
read_length-decimal_example = read_length-decimal 1200 (omega arith)

unescape-escape_into_example :
    (k : ℕ) × (unescape plain (escape_into 64 (codes "a\"b\n")) ≡ some (take k (codes "a\"b\n")))
    × (length (escape_into 64 (codes "a\"b\n")) + 1 ≤ 64)
    × (length (escape_into 64 (codes "a\"b\n")) + 6 < 64 → take k (codes "a\"b\n") ≡ codes "a\"b\n")
unescape-escape_into_example = unescape-escape_into 64 (codes "a\"b\n") (omega arith)

abbrev voice : Part
voice = record { name = codes "file"; filename = codes "a.wav"; data_bytes = codes "RIFF" }

voice-IsPlain : IsPlain (codes "--XY") voice
unfolding find_from starts_with
voice-IsPlain = record {
  name_unquoted = (refl, (refl, (refl, (refl, tt))));
  filename_unquoted = (refl, (refl, (refl, (refl, (refl, tt)))));
  name_short = omega arith;
  filename_short = omega arith;
  name_free = refl;
  head_free = refl;
  data_free = refl;
}

parse_multipart-form_example :
    parse_multipart
      (form (codes "--" ++ codes "XY") (voice ∷ []))
      (some (codes "multipart/form-data; boundary=" ++ codes "XY"))
      16
    ≡ voice ∷ []
parse_multipart-form_example =
    parse_multipart-form (codes "XY") (voice ∷ []) 16 (omega arith) (omega arith) (refl, (refl, tt))
      (voice-IsPlain, tt) (omega arith)

-- One connection is served, and then the server shuts down.
abbrev served : Server
served = shut_down (on_finish (on_start true (on_accept (begin 2))))

abbrev closed : Server
closed = record (record served { place = Place.draining }) { place = Place.returned }

closed-Reachable : Reachable 2 closed
closed-Reachable =
    then_to
      (then_to
        (then_to
          (then_to (then_to (then_to begun (accepts refl)) (thread_starts true refl))
            (thread_ends (omega arith)))
          shuts_down)
        (leaves_loop refl refl))
      (gives_back refl refl)

Reachable-IsCounted_example : IsCounted 2 closed
Reachable-IsCounted_example = Reachable-IsCounted 2 closed closed-Reachable

tokens_are_found : has_token (codes "keep-alive, Upgrade") (codes "upgrade") ≡ true
unfolding has_token has_token_from skip_while until trim_spaces ci_equal
tokens_are_found = refl

-- A name that stands behind the file's name is not seen.
name_is_filename :
    quoted_value
      (codes "name=\"")
      127
      (codes "Content-Disposition: form-data; filename=\"x\"; name=\"y\"")
    ≡ codes "x"
unfolding quoted_value mem_find find_from starts_with until
name_is_filename = refl

abbrev received : Option Receiver → List ℕ
received none = []
received (some r) = drop r.head_end r.buf

-- A client that goes away in the middle of the body is taken for one that has sent it.
cut_body_is_given :
    received (receive_all (λ n. true) 1000 (replicate 50 seven) (post_head ++ codes "ab"))
    ≡ codes "ab"
unfolding receive_all receive make_room seek mem_find find_from starts_with content_length
    header_lines read_lines read_line read_length read_digits ci_equal until skip_while
cut_body_is_given = refl
