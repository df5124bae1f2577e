-- ===== src/Http/Form.antt =====
-- The form that a client sends to src/server/http.c, and the headers of its parts.
use vibevoice_c.Common.{
  ℕ, zero, suc, ◌+◌, ◌-◌, ◌≤◌, ◌≡◌, ◌∙◌, sym, refl, ap, true, some, List, [], ◌∷◌, ◌++◌, leb,
  length, take, drop, get_or, starts_with, arith, length-append, append_assoc, take-length_append,
  drop-length_append, drop-add, take-of_length,
}
use vibevoice_c.Http.{codes, find_from, mem_find}
use vibevoice_c.Http.Receive.{blank_line}
use vibevoice_c.Http.Search.{find_from-append, Lacks, until-append}
use vibevoice_c.Http.Multipart.{Part, crlf, quoted_value, strip}

-- The headers of a part.
abbrev pub disposition : Part → List ℕ
disposition p =
    codes "Content-Disposition: form-data; name=\""
    ++ (p.name ++ (codes "\"; filename=\"" ++ (p.filename ++ codes "\"")))

-- What a client sends for the parts, from the separator on.
abbrev pub form : List ℕ → List Part → List ℕ
form sep [] = sep ++ codes "--\r\n"
form sep (p ∷ ps) =
    sep ++ (crlf ++ (disposition p ++ (blank_line ++ (p.data_bytes ++ crlf ++ form sep ps))))

abbrev pub IsUnquoted : List ℕ → Type 0
IsUnquoted s = Lacks b'"' s

-- A part that a form can hold: no quotes in the names, and what ends a stretch is not inside it.
pub record IsPlain (sep : List ℕ) (p : Part) : Type 0 where
  pub name_unquoted : IsUnquoted p.name
  pub filename_unquoted : IsUnquoted p.filename
  pub name_short : length p.name ≤ 127
  pub filename_short : length p.filename ≤ 255
  pub name_free :
      find_from (codes "filename=\"") (p.name ++ codes "\"; filename=\"") ≡ some (length p.name + 3)
  pub head_free : find_from blank_line (disposition p ++ blank_line) ≡ some (length (disposition p))
  pub data_free :
      find_from sep ((p.data_bytes ++ crlf) ++ sep) ≡ some (length (p.data_bytes ++ crlf))

quoted_value_lem :
    (key : List ℕ) (limit i : ℕ) (head v t : List ℕ)
    → mem_find key head ≡ some i
    → drop (i + length key) head ≡ v ++ b'"' ∷ t
    → IsUnquoted v
    → length v ≤ limit
    → quoted_value key limit head ≡ v
unfolding quoted_value
quoted_value_lem key limit i head v t e d u l =
    rw (quoted_value, e, d) (ap (take limit) (until-append b'"' v t u) ∙ take-of_length limit v l)

pub quoted_value-name :
    (sep : List ℕ) (p : Part)
    → IsPlain sep p
    → quoted_value (codes "name=\"") 127 (disposition p) ≡ p.name
unfolding mem_find find_from starts_with
quoted_value-name sep p h =
    quoted_value_lem (codes "name=\"") 127 32 (disposition p) p.name
      (codes "; filename=\"" ++ (p.filename ++ codes "\"")) refl refl h.name_unquoted h.name_short

-- Behind the name.
abbrev name_end : Part → List ℕ
name_end p = p.name ++ (codes "\"; filename=\"" ++ (p.filename ++ codes "\""))

abbrev more : ℕ → ℕ → ℕ
more zero x = x
more (suc n) x = suc (more n x)

find-filename :
    (sep : List ℕ) (p : Part)
    → IsPlain sep p
    → (i : ℕ) × (mem_find (codes "filename=\"") (disposition p) ≡ some i)
      × (i ≡ 38 + (length p.name + 3))
unfolding mem_find find_from starts_with
find-filename sep p h =
    let e =
      find_from-append (codes "filename=\"") (p.name ++ codes "\"; filename=\"")
        (p.filename ++ codes "\"") (length p.name + 3) h.name_free in
    let e' : find_from (codes "filename=\"") (name_end p) ≡ some (length p.name + 3) =
      ap (find_from (codes "filename=\""))
        (sym (append_assoc p.name (codes "\"; filename=\"") (p.filename ++ codes "\"")))
      ∙ e in
    (more 38 (length p.name + 3), rw e' refl, omega arith)

pub quoted_value-filename :
    (sep : List ℕ) (p : Part)
    → IsPlain sep p
    → quoted_value (codes "filename=\"") 255 (disposition p) ≡ p.filename
quoted_value-filename sep p h =
    let (i, e, q) = find-filename sep p h in
    let at : i + 10 ≡ 38 + (length p.name + 13) = omega arith in
    let d : drop (i + 10) (disposition p) ≡ p.filename ++ b'"' ∷ [] =
      ap (λ (n : ℕ). drop n (disposition p)) at
      ∙ drop-add 38 (length p.name + 13) (disposition p)
      ∙ drop-add (length p.name) 13 (name_end p)
      ∙ ap (drop 13)
          (drop-length_append p.name (codes "\"; filename=\"" ++ (p.filename ++ codes "\""))) in
    quoted_value_lem (codes "filename=\"") 255 i (disposition p) p.filename [] e d
      h.filename_unquoted h.filename_short

get_or-behind : (d t : List ℕ) (i : ℕ) → get_or (d ++ t) (length d + i) 0 ≡ get_or t i 0
get_or-behind [] t i = let e : 0 + i ≡ i = omega arith in rw e refl
get_or-behind (c ∷ d) t i =
    let e : suc (length d) + i ≡ suc (length d + i) = omega arith in
    ap (λ (n : ℕ). get_or (c ∷ d ++ t) n 0) e ∙ get_or-behind d t i

pub strip-crlf : (d : List ℕ) → strip (d ++ crlf) ≡ d
unfolding strip
strip-crlf d =
    let l : length (d ++ crlf) - 2 ≡ length d + 0 = omega (arith, length-append d crlf) in
    let l' : length (d ++ crlf) - 1 ≡ length d + 1 = omega (arith, length-append d crlf) in
    let l'' : length (d ++ crlf) - 2 ≡ length d = omega (arith, length-append d crlf) in
    let two : leb 2 (length (d ++ crlf)) ≡ true = ground (arith, length-append d crlf) in
    let cr : get_or (d ++ crlf) (length (d ++ crlf) - 2) 0 ≡ b'\r' =
      rw l (get_or-behind d crlf 0) in
    let lf : get_or (d ++ crlf) (length (d ++ crlf) - 1) 0 ≡ b'\n' =
      rw l' (get_or-behind d crlf 1) in
    rw (strip, two, cr, lf, l'') (take-length_append d crlf)
