-- ===== src/Http/Sent.antt =====
-- The head of a request that a client sends to src/server/http.c is read back.
use vibevoice_c.Common.{
  ℕ, zero, suc, ◌-◌, ◌≤◌, ◌≡◌, ◌∙◌, sym, refl, ap, true, false, none, some, List, [], ◌∷◌, ◌++◌,
  ◌==◌, if◌then◌else◌, length, take, All, arith, inl, inr, Bool-cases, length-append, length-zero,
  take-length_append, take-of_length, c_string,
}
use vibevoice_c.Http.{codes, until, skip_while}
use vibevoice_c.Http.Head.{is_blank}
use vibevoice_c.Http.Search.{Lacks, until-append}
use vibevoice_c.Http.Request.{
  Header, Request, split_at, trim_end, header_of, stops, parse_headers, behind, request_of,
  parse_head,
}

abbrev pub header_line : Header → List ℕ
header_line h = h.name ++ (b':' ∷ b' ' ∷ (h.value ++ codes "\r"))

abbrev pub header_text : List Header → List ℕ
header_text [] = []
header_text (h ∷ hs) = header_line h ++ b'\n' ∷ header_text hs

abbrev pub target : Request → List ℕ
target r = if length r.query == 0 then r.path else r.path ++ b'?' ∷ r.query

-- What a client sends, up to the blank line.
abbrev pub head_text : Request → List ℕ
head_text r =
    r.method ++ (b' ' ∷ (target r ++ (b' ' ∷ (codes "HTTP/1.1\r\n" ++ header_text r.headers))))

-- A header that can stand in a line: its value has no blanks at its ends.
pub record IsHeader (h : Header) : Type 0 where
  pub name_some : stops h.name ≡ false
  pub name_colon : Lacks b':' h.name
  pub name_newline : Lacks b'\n' h.name
  pub name_zero : Lacks 0 h.name
  pub name_short : length h.name ≤ 63
  pub value_newline : Lacks b'\n' h.value
  pub value_zero : Lacks 0 h.value
  pub value_short : length h.value ≤ 511
  pub value_start : skip_while is_blank (h.value ++ codes "\r") ≡ h.value ++ codes "\r"
  pub value_end : trim_end h.value ≡ h.value

split_at-append : (c : ℕ) (a b : List ℕ) → Lacks c a → split_at c (a ++ c ∷ b) ≡ some (a, b)
unfolding split_at
split_at-append c [] b h = let e : (c == c) ≡ true = ground arith in rw (split_at, e) refl
split_at-append c (x ∷ a) b h = rw (split_at, h.0, split_at-append c a b h.1) refl

until-Lacks : (c : ℕ) (a : List ℕ) → Lacks c a → until c a ≡ a
unfolding until
until-Lacks c [] h = refl
until-Lacks c (x ∷ a) h = rw (until, h.0) (ap (λ (k : List ℕ). x ∷ k) (until-Lacks c a h.1))

version_line : Lacks b'\n' (codes "HTTP/1.1\r")
version_line = (refl, (refl, (refl, (refl, (refl, (refl, (refl, (refl, (refl, tt)))))))))

split_at-none : (c : ℕ) (a : List ℕ) → Lacks c a → split_at c a ≡ none
unfolding split_at
split_at-none c [] h = refl
split_at-none c (x ∷ a) h = rw (split_at, h.0, split_at-none c a h.1) refl

pub Lacks-append : (c : ℕ) (a b : List ℕ) → Lacks c a → Lacks c b → Lacks c (a ++ b)
Lacks-append c [] b h k = k
Lacks-append c (x ∷ a) b h k = (h.0, Lacks-append c a b h.1 k)

c_string-Lacks : (s : List ℕ) → Lacks 0 s → c_string s ≡ s
c_string-Lacks [] h = refl
c_string-Lacks (x ∷ s) h = rw h.0 (ap (λ (l : List ℕ). x ∷ l) (c_string-Lacks s h.1))

trim_end-cr : (v : List ℕ) → trim_end (v ++ codes "\r") ≡ trim_end v
unfolding trim_end
trim_end-cr [] = refl
trim_end-cr (x ∷ v) = rw (trim_end, trim_end-cr v) refl

header_of_lem : (h : Header) → IsHeader h → header_of h.name (b' ' ∷ (h.value ++ codes "\r")) ≡ h
unfolding header_of skip_while
header_of_lem h q =
    rw
      (
        header_of,
        q.value_start,
        trim_end-cr h.value,
        q.value_end,
        take-of_length 63 h.name q.name_short,
        take-of_length 511 h.value q.value_short,
      )
      refl

pub stops-append : (a b : List ℕ) → stops a ≡ false → stops (a ++ b) ≡ false
stops-append [] b h = absurd (ground (arith, h))
stops-append (c ∷ a) b h = h

pub header_line-Lacks : (h : Header) → IsHeader h → Lacks b'\n' (header_line h)
header_line-Lacks h q =
    Lacks-append b'\n' h.name (b':' ∷ b' ' ∷ (h.value ++ codes "\r")) q.name_newline
      (refl, (refl, Lacks-append b'\n' h.value (codes "\r") q.value_newline (refl, tt)))

parse_headers-round :
    (n : ℕ) (line l rest name v : List ℕ)
    → stops line ≡ false
    → split_at b'\n' line ≡ some (l, rest)
    → split_at b':' l ≡ some (name, v)
    → parse_headers (suc n) line ≡ header_of name v ∷ parse_headers n rest
unfolding parse_headers
parse_headers-round n line l rest name v e1 e2 e3 = rw (parse_headers, e1, e2, e3) refl

parse_headers-text :
    (n : ℕ) (hs : List Header)
    → All IsHeader hs
    → length hs ≤ n
    → parse_headers n (header_text hs) ≡ hs
unfolding parse_headers
parse_headers-text zero [] a h = refl
parse_headers-text (suc n) [] a h = refl
parse_headers-text zero (x ∷ hs) a h = absurd (omega arith)
parse_headers-text (suc n) (x ∷ hs) a h =
    parse_headers-round n (header_text (x ∷ hs)) (header_line x) (header_text hs) x.name
      (b' ' ∷ (x.value ++ codes "\r"))
      (stops-append (header_line x) (b'\n' ∷ header_text hs)
        (stops-append x.name (b':' ∷ b' ' ∷ (x.value ++ codes "\r")) a.0.name_some))
      (split_at-append b'\n' (header_line x) (header_text hs) (header_line-Lacks x a.0))
      (split_at-append b':' x.name (b' ' ∷ (x.value ++ codes "\r")) a.0.name_colon)
    ∙ ap (λ (y : Header). y ∷ parse_headers n (header_text hs)) (header_of_lem x a.0)
    ∙ ap (λ (l : List Header). x ∷ l) (parse_headers-text n hs a.1 (omega arith))

header_text-Lacks : (hs : List Header) → All IsHeader hs → Lacks 0 (header_text hs)
header_text-Lacks [] a = tt
header_text-Lacks (h ∷ hs) a =
    Lacks-append 0 (header_line h) (b'\n' ∷ header_text hs)
      (Lacks-append 0 h.name (b':' ∷ b' ' ∷ (h.value ++ codes "\r")) a.0.name_zero
        (refl, (refl, Lacks-append 0 h.value (codes "\r") a.0.value_zero (refl, tt))))
      (refl, header_text-Lacks hs a.1)

-- A request that fits the fields of `vv_http_req_t`.
pub record IsSendable (r : Request) : Type 0 where
  pub method_space : Lacks b' ' r.method
  pub method_zero : Lacks 0 r.method
  pub method_short : length r.method ≤ 7
  pub target_space : Lacks b' ' (target r)
  pub target_zero : Lacks 0 (target r)
  pub target_short : length (target r) ≤ 511
  pub path_mark : Lacks b'?' r.path
  pub headers_plain : All IsHeader r.headers
  pub headers_few : length r.headers ≤ 48

-- The target is split again.
target_lem :
    (r : Request)
    → IsSendable r
    → (until b'?' (target r) ≡ r.path)
      × (behind b'?' (target r) ≡ r.query)
      × (length r.query ≤ length (target r))
target_lem r q = elim (Bool-cases (length r.query == 0)) [
  | inl t ↦
      (let e : target r ≡ r.path = rw t refl in
        let empty : r.query ≡ [] = length-zero r.query (ground (arith, t)) in
        (
          ap (until b'?') e ∙ until-Lacks b'?' r.path q.path_mark,
          ap (behind b'?') e ∙ rw (behind, split_at-none b'?' r.path q.path_mark) (sym empty),
          ground (arith, t),
        ))
  | inr f ↦
      (let e : target r ≡ r.path ++ b'?' ∷ r.query = rw f refl in
        (
          ap (until b'?') e ∙ until-append b'?' r.path r.query q.path_mark,
          ap (behind b'?') e ∙ rw (behind, split_at-append b'?' r.path r.query q.path_mark) refl,
          omega (arith, ap length e, length-append r.path (b'?' ∷ r.query)),
        ))
]

request_of-fields :
    (m p r r' a lines : List ℕ)
    → c_string m ≡ m
    → take 7 m ≡ m
    → c_string p ≡ p
    → take 511 p ≡ p
    → c_string r ≡ r'
    → split_at b'\n' r' ≡ some (a, lines)
    → (request_of m p r ≡ record {
      method = m;
      path = until b'?' p;
      query = take 511 (behind b'?' p);
      headers = parse_headers 48 lines;
    })
unfolding request_of
request_of-fields m p r r' a lines e1 e2 e3 e4 e5 e6 = rw (request_of, e1, e2, e3, e4, e5, e6) refl

request_of_lem :
    (r : Request)
    → IsSendable r
    → request_of r.method (target r) (codes "HTTP/1.1\r\n" ++ header_text r.headers) ≡ r
request_of_lem r q =
    let (path, query, short) = target_lem r q in
    let text = header_text r.headers in
    let whole : take 511 r.query ≡ r.query =
      take-of_length 511 r.query (omega (arith, q.target_short)) in
    request_of-fields r.method (target r) (codes "HTTP/1.1\r\n" ++ text)
      (codes "HTTP/1.1\r\n" ++ text) (codes "HTTP/1.1\r") text
      (c_string-Lacks r.method q.method_zero) (take-of_length 7 r.method q.method_short)
      (c_string-Lacks (target r) q.target_zero) (take-of_length 511 (target r) q.target_short)
      (ap (λ (t : List ℕ). codes "HTTP/1.1\r\n" ++ t)
        (c_string-Lacks text (header_text-Lacks r.headers q.headers_plain)))
      (split_at-append b'\n' (codes "HTTP/1.1\r") text version_line)
    ∙ rw (path, query, whole, parse_headers-text 48 r.headers q.headers_plain q.headers_few) refl

parse_head-parts :
    (head text m r p r' : List ℕ)
    → take (length head - 2) head ≡ text
    → split_at b' ' text ≡ some (m, r)
    → split_at b' ' r ≡ some (p, r')
    → parse_head head ≡ some (request_of m p r')
unfolding parse_head
parse_head-parts head text m r p r' e1 e2 e3 = rw (parse_head, e1, e2, e3) refl

-- The head of a request is read back as the method, path, query and headers that were sent: a method
-- of at most 7 bytes, a target of at most 511, at most 48 headers whose names have at most 63 bytes and
-- whose values have at most 511, without blanks at their ends, and none of these with the bytes that
-- end them.
pub parse_head-head_text :
    (r : Request) → IsSendable r → parse_head (head_text r ++ codes "\r\n") ≡ some r
parse_head-head_text r q =
    let rest = codes "HTTP/1.1\r\n" ++ header_text r.headers in
    let l : length (head_text r ++ codes "\r\n") - 2 ≡ length (head_text r) =
      omega (arith, length-append (head_text r) (codes "\r\n")) in
    let cut : take (length (head_text r ++ codes "\r\n") - 2) (head_text r ++ codes "\r\n")
        ≡ head_text r =
      ap (λ (n : ℕ). take n (head_text r ++ codes "\r\n")) l
      ∙ take-length_append (head_text r) (codes "\r\n") in
    parse_head-parts (head_text r ++ codes "\r\n") (head_text r) r.method
      (target r ++ (b' ' ∷ rest)) (target r) rest cut
      (split_at-append b' ' r.method (target r ++ (b' ' ∷ rest)) q.method_space)
      (split_at-append b' ' (target r) rest q.target_space)
    ∙ ap some (request_of_lem r q)
