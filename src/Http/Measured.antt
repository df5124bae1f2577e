-- ===== src/Http/Measured.antt =====
-- A head with a Content-Length header says the length of its body to src/server/http.c, and ends with
-- its first blank line.
use vibevoice_c.Common.{
  ◌-◌, ℕ, zero, suc, ◌+◌, ◌/◌, ◌%◌, ◌^◌, ◌<◌, ◌≤◌, ◌≡◌, ◌∙◌, sym, refl, ap, true, false, not, ◌&&◌,
  some, List, [], ◌∷◌, ◌++◌, ltb, ◌==◌, length, All, arith, inl, inr, Bool-cases, length-append,
  append_assoc,
}
use vibevoice_c.Http.{codes, until, ci_equal, find_from}
use vibevoice_c.Http.Search.{Lacks, until-append}
use vibevoice_c.Http.Framing.{read_line-length}
use vibevoice_c.Http.Head.{
  header_lines, nothing, size, read_length, read_line, read_lines, content_length,
}
use vibevoice_c.Http.Decimal.{digits_of, largest, read_length-decimal}
use vibevoice_c.Http.Receive.{blank_line}
use vibevoice_c.Http.Arrival.{IsRequest}
use vibevoice_c.Http.Blank.{tail_text, find_from-tail_text}
use vibevoice_c.Http.Request.{Header, Request}
use vibevoice_c.Http.Sent.{
  IsSendable, IsHeader, Lacks-append, header_line-Lacks, header_line, header_text, head_text,
  target,
}

header_lines-skip :
    (l t : List ℕ)
    → Lacks b'\n' l
    → 0 < length t
    → header_lines (l ++ b'\n' ∷ t) ≡ until b'\n' t ∷ header_lines t
unfolding header_lines
header_lines-skip [] t h z =
    let e : (b'\n' == b'\n' && not (length t == 0)) ≡ true = ground (arith, z) in
    rw (header_lines, e) refl
header_lines-skip (x ∷ l) t h z =
    let e : (x == b'\n' && not (length (l ++ b'\n' ∷ t) == 0)) ≡ false = ground (arith, h.0) in
    rw (header_lines, e) (header_lines-skip l t h.1 z)

blank_line_lem : until b'\n' (codes "\r\n") ∷ header_lines (codes "\r\n") ≡ codes "\r" ∷ []
unfolding until header_lines
blank_line_lem = refl

-- The lines behind the first.
abbrev lines_of : List Header → List (List ℕ)
lines_of [] = codes "\r" ∷ []
lines_of (h ∷ hs) = header_line h ∷ lines_of hs

header_lines-tail_text :
    (l : List ℕ) (hs : List Header)
    → Lacks b'\n' l
    → All (λ h. Lacks b'\n' (header_line h)) hs
    → header_lines (l ++ b'\n' ∷ tail_text hs) ≡ lines_of hs
header_lines-tail_text l [] h a =
    header_lines-skip l (codes "\r\n") h (omega arith) ∙ blank_line_lem
header_lines-tail_text l (x ∷ hs) h a =
    let e : tail_text (x ∷ hs) ≡ header_line x ++ b'\n' ∷ tail_text hs =
      append_assoc (header_line x) (b'\n' ∷ header_text hs) (codes "\r\n") in
    ap (λ (t : List ℕ). header_lines (l ++ b'\n' ∷ t)) e
    ∙ header_lines-skip l (header_line x ++ b'\n' ∷ tail_text hs) h
        (omega (arith, length-append (header_line x) (b'\n' ∷ tail_text hs)))
    ∙ ap (λ (u : List ℕ). u ∷ header_lines (header_line x ++ b'\n' ∷ tail_text hs))
        (until-append b'\n' (header_line x) (tail_text hs) a.0)
    ∙ ap (λ (u : List (List ℕ)). header_line x ∷ u)
        (header_lines-tail_text (header_line x) hs a.0 a.1)

digits_of-append : (f n : ℕ) (acc t : List ℕ) → digits_of f n acc ++ t ≡ digits_of f n (acc ++ t)
unfolding digits_of
digits_of-append zero n acc t = refl
digits_of-append (suc f) n acc t = elim (Bool-cases (ltb n 10)) [
  | inl e ↦ rw (digits_of, e) refl
  | inr e ↦ rw (digits_of, e) (digits_of-append f (n / 10) ((n % 10 + b'0') ∷ acc) t)
]

abbrev pub length_header : ℕ → Header
length_header n = record { name = codes "Content-Length"; value = digits_of 19 n [] }

read_line-length_header : (n : ℕ) → n ≤ largest → read_line (header_line (length_header n)) ≡ size n
unfolding ci_equal
read_line-length_header n h =
    read_line-length (header_line (length_header n)) refl refl
    ∙ ap (λ (t : List ℕ). read_length (b' ' ∷ t)) (digits_of-append 19 n [] (codes "\r"))
    ∙ read_length-decimal n h

-- A header that says nothing on the length.
abbrev pub IsOther : Header → Type 0
IsOther h = read_line (header_line h) ≡ nothing

last_line : read_line (codes "\r") ≡ nothing
unfolding read_line ci_equal
last_line = refl

read_lines-back :
    (hs : List Header) (w : ℕ) → All IsOther hs → read_lines (lines_of hs) true w ≡ some (true, w)
unfolding read_lines
read_lines-back [] w a = rw (read_lines, last_line) refl
read_lines-back (h ∷ hs) w a = rw (read_lines, a.0) (read_lines-back hs w a.1)

read_lines-front :
    (front back : List Header) (n : ℕ)
    → All IsOther front
    → All IsOther back
    → n ≤ largest
    → read_lines (lines_of (front ++ length_header n ∷ back)) false 0 ≡ some (true, n)
unfolding read_lines
read_lines-front [] back n a b h =
    rw (read_lines, read_line-length_header n h) (read_lines-back back n b)
read_lines-front (x ∷ front) back n a b h =
    rw (read_lines, a.0) (read_lines-front front back n a.1 b h)

-- The bytes of a request up to its body.
abbrev pub head_of : Request → List ℕ
head_of r = head_text r ++ codes "\r\n"

-- The request line.
abbrev pub first_line : Request → List ℕ
first_line r = r.method ++ (b' ' ∷ (target r ++ codes " HTTP/1.1"))

head_of-first_line : (r : Request) → head_of r ≡ first_line r ++ b'\r' ∷ b'\n' ∷ tail_text r.headers
head_of-first_line r =
    append_assoc r.method
      (b' ' ∷ (target r ++ (b' ' ∷ (codes "HTTP/1.1\r\n" ++ header_text r.headers)))) (codes "\r\n")
    ∙ ap (λ (u : List ℕ). r.method ++ (b' ' ∷ u))
        (append_assoc (target r) (b' ' ∷ (codes "HTTP/1.1\r\n" ++ header_text r.headers))
          (codes "\r\n"))
    ∙ ap (λ (u : List ℕ). r.method ++ (b' ' ∷ u))
        (sym (append_assoc (target r) (codes " HTTP/1.1") (b'\r' ∷ b'\n' ∷ tail_text r.headers)))
    ∙ sym (
        append_assoc r.method (b' ' ∷ (target r ++ codes " HTTP/1.1"))
          (b'\r' ∷ b'\n' ∷ tail_text r.headers))

All-header_line : (hs : List Header) → All IsHeader hs → All (λ h. Lacks b'\n' (header_line h)) hs
All-header_line [] a = tt
All-header_line (h ∷ hs) a = (header_line-Lacks h a.0, All-header_line hs a.1)

content_length-head_of :
    (r : Request) (front back : List Header) (n : ℕ)
    → All IsHeader r.headers
    → Lacks b'\n' (first_line r)
    → r.headers ≡ front ++ length_header n ∷ back
    → All IsOther front
    → All IsOther back
    → n ≤ largest
    → content_length (head_of r) ≡ some (true, n)
unfolding content_length
content_length-head_of r front back n a l e f b h =
    let cut : head_of r ≡ (first_line r ++ codes "\r") ++ b'\n' ∷ tail_text r.headers =
      head_of-first_line r
      ∙ sym (append_assoc (first_line r) (codes "\r") (b'\n' ∷ tail_text r.headers)) in
    ap (λ (u : List ℕ). read_lines (header_lines u) false 0) cut
    ∙ ap (λ (u : List (List ℕ)). read_lines u false 0)
        (header_lines-tail_text (first_line r ++ codes "\r") r.headers
          (Lacks-append b'\n' (first_line r) (codes "\r") l (refl, tt))
          (All-header_line r.headers a))
    ∙ ap (λ (u : List Header). read_lines (lines_of u) false 0) e
    ∙ read_lines-front front back n f b h

-- A request with one header for the length of its body, in decimal, has what `read_request` relies on.
pub head_of-IsRequest :
    (max_body : ℕ) (r : Request) (front back : List Header) (body : List ℕ)
    → IsSendable r
    → Lacks b'\n' (first_line r)
    → r.headers ≡ front ++ length_header (length body) ∷ back
    → All IsOther front
    → All IsOther back
    → length (head_of r) ≤ 2 ^ 16
    → length body ≤ max_body
    → max_body ≤ 2 ^ 30 - 2 ^ 20
    → IsRequest max_body (head_of r) body
head_of-IsRequest max_body r front back body q l e f b small fits limit = record {
  seen = true;
  ends = (
    length (first_line r) + length (header_text r.headers),
    ap (find_from blank_line) (
          ap (λ (u : List ℕ). u ++ body) (head_of-first_line r)
          ∙ append_assoc (first_line r) (b'\r' ∷ b'\n' ∷ tail_text r.headers) body)
        ∙ find_from-tail_text (first_line r) r.headers body l q.headers_plain,
    omega (
      arith,
      ap length (head_of-first_line r),
      length-append (first_line r) (b'\r' ∷ b'\n' ∷ tail_text r.headers),
      length-append (header_text r.headers) (codes "\r\n"),
    ),
  );
  says =
      content_length-head_of r front back (length body) q.headers_plain l e f b
        (omega (arith, fits, limit));
  small_head = small;
  small_body = fits;
  limit = limit;
}
