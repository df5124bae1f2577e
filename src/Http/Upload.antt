-- ===== src/Http/Upload.antt =====
-- A form that a client sends is read back by src/server/http.c, part by part.
use vibevoice_c.Common.{
  ℕ, zero, suc, ◌+◌, ◌<◌, ◌≤◌, ◌≡◌, ◌∙◌, sym, refl, ap, true, false, ◌||◌, some, List, [], ◌∷◌,
  ◌++◌, ◌==◌, length, take, drop, All, starts_with, arith, append_assoc, take-length_append,
  drop-length_append, drop-add, take-of_length,
}
use vibevoice_c.Http.{codes, find_from, mem_find}
use vibevoice_c.Http.Receive.{blank_line}
use vibevoice_c.Http.Search.{find_from-append}
use vibevoice_c.Http.Form.{
  disposition, form, IsPlain, quoted_value-name, quoted_value-filename, strip-crlf,
}
use vibevoice_c.Http.Multipart.{
  Part, crlf, unquoted, read_boundary, boundary_of, part_of, parse_parts, parse_multipart,
}

-- The needle at the end of a text is found there, whatever follows.
find_at_end :
    (p s t : List ℕ)
    → 0 < length p
    → find_from p (s ++ p) ≡ some (length s)
    → mem_find p (s ++ (p ++ t)) ≡ some (length s)
unfolding mem_find
find_at_end p s t z e =
    let n : (length p == 0) ≡ false = ground (arith, z) in
    rw (mem_find, n, sym (append_assoc s p t)) (find_from-append p (s ++ p) t (length s) e)

-- A round of the loop: the text behind the separator's line, its headers, the data and what is next.
parse_parts-round :
    (n : ℕ) (sep p text : List ℕ) (h k : ℕ) (rest : List ℕ)
    → starts_with (codes "--") (drop (length sep) p) ≡ false
    → starts_with crlf (drop (length sep) p) ≡ true
    → drop 2 (drop (length sep) p) ≡ text
    → mem_find blank_line text ≡ some h
    → drop (h + 4) text ≡ rest
    → mem_find sep rest ≡ some k
    → parse_parts (suc n) sep (some p)
      ≡ part_of (take h text) (take k rest) ∷ parse_parts n sep (some (drop k rest))
unfolding parse_parts
parse_parts-round n sep p text h k rest e1 e2 e3 e4 e5 e6 =
    rw (parse_parts, e1, e2, e3, e4, e2, e3, e5, e6, e2, e3, e5) refl

no_dashes : (text : List ℕ) → starts_with (codes "--") (crlf ++ text) ≡ false
unfolding starts_with
no_dashes text = refl

a_line_end : (text : List ℕ) → starts_with crlf (crlf ++ text) ≡ true
unfolding starts_with
a_line_end text = refl

part_of_lem :
    (sep : List ℕ) (p : Part) → IsPlain sep p → part_of (disposition p) (p.data_bytes ++ crlf) ≡ p
unfolding part_of
part_of_lem sep p h =
    rw (part_of, quoted_value-name sep p h, quoted_value-filename sep p h, strip-crlf p.data_bytes)
      refl

parse_parts-cons :
    (n : ℕ) (sep : List ℕ) (p : Part) (t : List ℕ)
    → 0 < length sep
    → IsPlain sep p
    → parse_parts (suc n) sep (
        some (
          sep ++ (crlf ++ (disposition p ++ (blank_line ++ (p.data_bytes ++ crlf ++ (sep ++ t)))))))
      ≡ p ∷ parse_parts n sep (some (sep ++ t))
parse_parts-cons n sep p t z h =
    let d = p.data_bytes ++ crlf in
    let rest = d ++ (sep ++ t) in
    let body = disposition p ++ (blank_line ++ rest) in
    let e0 = drop-length_append sep (crlf ++ body) in
    parse_parts-round n sep (sep ++ (crlf ++ body)) body (length (disposition p)) (length d) rest
      (ap (starts_with (codes "--")) e0 ∙ no_dashes body)
      (ap (starts_with crlf) e0 ∙ a_line_end body) (ap (drop 2) e0)
      (find_at_end blank_line (disposition p) rest (omega arith) h.head_free)
      (drop-add (length (disposition p)) 4 body
        ∙ ap (drop 4) (drop-length_append (disposition p) (blank_line ++ rest)))
      (find_at_end sep d t z h.data_free)
    ∙ rw
        (
          take-length_append (disposition p) (blank_line ++ rest),
          take-length_append d (sep ++ t),
          drop-length_append d (sep ++ t),
          part_of_lem sep p h,
        )
        refl

-- A form begins with the separator.
form-cons : (sep : List ℕ) (ps : List Part) → (t : List ℕ) × (form sep ps ≡ sep ++ t)
form-cons sep [] = (_, refl)
form-cons sep (p ∷ ps) = (_, refl)

parse_parts-form :
    (n : ℕ) (sep : List ℕ) (ps : List Part)
    → 0 < length sep
    → All (IsPlain sep) ps
    → length ps ≤ n
    → parse_parts n sep (some (form sep ps)) ≡ ps
unfolding parse_parts starts_with
parse_parts-form zero sep [] z a h = refl
parse_parts-form (suc n) sep [] z a h =
    rw (parse_parts, drop-length_append sep (codes "--\r\n")) refl
parse_parts-form zero sep (p ∷ ps) z a h = absurd (omega arith)
parse_parts-form (suc n) sep (p ∷ ps) z a h =
    let (t, e) = form-cons sep ps in
    let rest = parse_parts-form n sep ps z a.1 (omega arith) in
    rw e (parse_parts-cons n sep p t z a.0 ∙ ap (λ (l : List Part). p ∷ l) (rw e at rest))

-- A byte of a boundary.
abbrev pub IsBoundary : ℕ → Type 0
IsBoundary c = (c == b';' || c == b' ' || c == b'\r' || c == b'"') ≡ false

unquoted_lem : (b : List ℕ) → All IsBoundary b → unquoted b ≡ b
unfolding unquoted
unquoted_lem [] c = refl
unquoted_lem (x ∷ b) c =
    let e : (x == b';' || x == b' ' || x == b'\r') ≡ false = ground (arith, c.0) in
    rw (unquoted, e) (ap (λ (l : List ℕ). x ∷ l) (unquoted_lem b c.1))

read_boundary_lem : (b : List ℕ) → length b ≤ 255 → All IsBoundary b → read_boundary b ≡ b
unfolding read_boundary
read_boundary_lem [] s c = refl
read_boundary_lem (x ∷ b) s c =
    let e : (x == b'"') ≡ false = ground (arith, c.0) in
    rw (read_boundary, e, unquoted_lem (x ∷ b) c) (take-of_length 255 (x ∷ b) s)

boundary_of_lem :
    (b : List ℕ)
    → length b ≤ 255
    → All IsBoundary b
    → boundary_of (codes "multipart/form-data; boundary=" ++ b) ≡ b
unfolding boundary_of mem_find find_from starts_with
boundary_of_lem b s c = read_boundary_lem b s c

starts_with_self : (p : List ℕ) → starts_with p p ≡ true
unfolding starts_with
starts_with_self [] = refl
starts_with_self (c ∷ p) = ground (arith, starts_with_self p)

find_from_self : (c : ℕ) (p : List ℕ) → find_from (c ∷ p) (c ∷ p) ≡ some 0
unfolding find_from
find_from_self c p = rw (find_from, starts_with_self (c ∷ p)) refl

parse_multipart-parts :
    (body content_type boundary : List ℕ) (n : ℕ)
    → boundary_of content_type ≡ boundary
    → 0 < length boundary
    → mem_find (codes "--" ++ boundary) body ≡ some 0
    → parse_multipart body (some content_type) n
      ≡ parse_parts n (codes "--" ++ boundary) (some body)
unfolding parse_multipart
parse_multipart-parts body content_type boundary n b z f =
    let some_boundary : (length boundary == 0) ≡ false = ground (arith, z) in
    rw (parse_multipart, b, some_boundary, f) refl

-- A form with at most `max_parts` parts is read back as these parts, when its content type names the
-- boundary, without quotes: a boundary of 1 to 255 bytes, none of them a quote, a space, a semicolon or a
-- "\r". The head of each part is one line, `Content-Disposition: form-data; name="…"; filename="…"`, with
-- no content type, a name of at most 127 bytes and a filename of at most 255, both without quotes; no
-- blank line comes before the one that ends the head, the first `filename="` behind the start of the name
-- is the one in front of the filename, and the separator does not come before the end of the data.
pub parse_multipart-form :
    (boundary : List ℕ) (ps : List Part) (max_parts : ℕ)
    → 0 < length boundary
    → length boundary ≤ 255
    → All IsBoundary boundary
    → All (IsPlain (codes "--" ++ boundary)) ps
    → length ps ≤ max_parts
    → parse_multipart
        (form (codes "--" ++ boundary) ps)
        (some (codes "multipart/form-data; boundary=" ++ boundary))
        max_parts
      ≡ ps
unfolding parse_multipart
parse_multipart-form boundary ps n z s c a h =
    let sep = codes "--" ++ boundary in
    let (t, e) = form-cons sep ps in
    let found : mem_find sep (form sep ps) ≡ some 0 =
      rw e (find_at_end sep [] t (omega arith) (find_from_self b'-' (b'-' ∷ boundary))) in
    parse_multipart-parts (form sep ps) (codes "multipart/form-data; boundary=" ++ boundary)
      boundary n (boundary_of_lem boundary s c) z found
    ∙ parse_parts-form n sep ps (omega arith) a h
