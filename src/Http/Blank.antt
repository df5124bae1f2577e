-- ===== src/Http/Blank.antt =====
-- The blank line that src/server/http.c looks for is the one at the end of the headers.
use vibevoice_c.Common.{
  ℕ, suc, ◌+◌, ◌≡◌, ◌∙◌, sym, refl, ap, false, some, List, [], ◌∷◌, ◌++◌, starts_with, ◌==◌, length,
  All, arith, length-append, append_assoc,
}
use vibevoice_c.Http.{codes, find_from}
use vibevoice_c.Http.Search.{Lacks}
use vibevoice_c.Http.Receive.{blank_line}
use vibevoice_c.Http.Request.{Header, stops}
use vibevoice_c.Http.Sent.{IsHeader, Lacks-append, stops-append, header_line, header_text}

-- What is behind the first line.
abbrev pub tail_text : List Header → List ℕ
tail_text hs = header_text hs ++ codes "\r\n"

-- Inside a line there is no blank line.
not_here :
    (x : ℕ) (l t : List ℕ)
    → Lacks b'\n' l
    → starts_with blank_line (x ∷ l ++ b'\r' ∷ b'\n' ∷ t) ≡ false
unfolding starts_with
not_here x [] t h = ground arith
not_here x (y ∷ l) t h = ground (arith, h.0)

line_end :
    (c : ℕ) (t : List ℕ)
    → (c == b'\r') ≡ false
    → starts_with blank_line (b'\r' ∷ b'\n' ∷ c ∷ t) ≡ false
unfolding starts_with
line_end c t d = ground (arith, d)

newline : (t : List ℕ) → starts_with blank_line (b'\n' ∷ t) ≡ false
unfolding starts_with
newline t = refl

find_from-next :
    (p : List ℕ) (x : ℕ) (s : List ℕ) (i : ℕ)
    → starts_with p (x ∷ s) ≡ false
    → find_from p s ≡ some i
    → find_from p (x ∷ s) ≡ some (suc i)
unfolding find_from
find_from-next p x s i e f = rw (find_from, e, f) refl

-- A line in front of one that does not begin with "\r".
find_from-line :
    (l : List ℕ) (c : ℕ) (t : List ℕ) (i : ℕ)
    → Lacks b'\n' l
    → (c == b'\r') ≡ false
    → find_from blank_line (c ∷ t) ≡ some i
    → find_from blank_line (l ++ b'\r' ∷ b'\n' ∷ c ∷ t) ≡ some (length l + (i + 2))
find_from-line [] c t i h d e =
    find_from-next blank_line b'\r' (b'\n' ∷ c ∷ t) (suc i) (line_end c t d)
      (find_from-next blank_line b'\n' (c ∷ t) i (newline (c ∷ t)) e)
    ∙ ap some (omega arith)
find_from-line (x ∷ l) c t i h d e =
    find_from-next blank_line x (l ++ b'\r' ∷ b'\n' ∷ c ∷ t) (length l + (i + 2))
      (not_here x l (c ∷ t) h.1) (find_from-line l c t i h.1 d e)
    ∙ ap some (omega arith)

find_from-last :
    (l t : List ℕ)
    → Lacks b'\n' l
    → find_from blank_line (l ++ b'\r' ∷ b'\n' ∷ b'\r' ∷ b'\n' ∷ t) ≡ some (length l)
unfolding find_from starts_with
find_from-last [] t h = refl
find_from-last (x ∷ l) t h =
    find_from-next blank_line x (l ++ b'\r' ∷ b'\n' ∷ b'\r' ∷ b'\n' ∷ t) (length l)
      (not_here x l (b'\r' ∷ b'\n' ∷ t) h.1) (find_from-last l t h.1)

find_from-text :
    (l u : List ℕ) (i : ℕ)
    → Lacks b'\n' l
    → stops u ≡ false
    → find_from blank_line u ≡ some i
    → find_from blank_line (l ++ b'\r' ∷ b'\n' ∷ u) ≡ some (length l + (i + 2))
find_from-text l [] i h d e = absurd (ground (arith, d))
find_from-text l (c ∷ t) i h d e = find_from-line l c t i h (ground (arith, d)) e

-- A header's line up to its end.
abbrev content : Header → List ℕ
content h = h.name ++ (b':' ∷ b' ' ∷ h.value)

header_line-content : (h : Header) (t : List ℕ) → header_line h ++ t ≡ content h ++ b'\r' ∷ t
header_line-content h t =
    append_assoc h.name (b':' ∷ b' ' ∷ (h.value ++ codes "\r")) t
    ∙ ap (λ (u : List ℕ). h.name ++ (b':' ∷ b' ' ∷ u)) (append_assoc h.value (codes "\r") t)
    ∙ sym (append_assoc h.name (b':' ∷ b' ' ∷ h.value) (b'\r' ∷ t))

tail_text-cons :
    (h : Header) (hs : List Header) (body : List ℕ)
    → tail_text (h ∷ hs) ++ body ≡ content h ++ b'\r' ∷ b'\n' ∷ (tail_text hs ++ body)
tail_text-cons h hs body =
    ap (λ (u : List ℕ). u ++ body)
      (append_assoc (header_line h) (b'\n' ∷ header_text hs) (codes "\r\n"))
    ∙ append_assoc (header_line h) (b'\n' ∷ tail_text hs) body
    ∙ header_line-content h (b'\n' ∷ (tail_text hs ++ body))

content-Lacks : (h : Header) → IsHeader h → Lacks b'\n' (content h)
content-Lacks h q =
    Lacks-append b'\n' h.name (b':' ∷ b' ' ∷ h.value) q.name_newline (refl, (refl, q.value_newline))

-- The blank line at the end of the headers is the first.
pub find_from-tail_text :
    (l : List ℕ) (hs : List Header) (body : List ℕ)
    → Lacks b'\n' l
    → All IsHeader hs
    → find_from blank_line (l ++ b'\r' ∷ b'\n' ∷ (tail_text hs ++ body))
      ≡ some (length l + length (header_text hs))
find_from-tail_text l [] body h a = find_from-last l body h ∙ ap some (omega arith)
find_from-tail_text l (x ∷ hs) body h a =
    ap (λ (u : List ℕ). find_from blank_line (l ++ b'\r' ∷ b'\n' ∷ u)) (tail_text-cons x hs body)
    ∙ find_from-text l (content x ++ b'\r' ∷ b'\n' ∷ (tail_text hs ++ body))
        (length (content x) + length (header_text hs)) h
        (stops-append (content x) (b'\r' ∷ b'\n' ∷ (tail_text hs ++ body))
          (stops-append x.name (b':' ∷ b' ' ∷ x.value) a.0.name_some))
        (find_from-tail_text (content x) hs body (content-Lacks x a.0) a.1)
    ∙ ap some (
        omega (
          arith,
          length-append (header_line x) (b'\n' ∷ header_text hs),
          length-append x.name (b':' ∷ b' ' ∷ (x.value ++ codes "\r")),
          length-append x.name (b':' ∷ b' ' ∷ x.value),
          length-append x.value (codes "\r"),
        ))
