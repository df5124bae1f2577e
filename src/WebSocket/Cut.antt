-- ===== src/WebSocket/Cut.antt =====
-- A buffer that is too small for an event of src/server/ws.c gets the front of it.
use vibevoice_c.Common.{
  ℕ, zero, suc, ◌+◌, ◌-◌, ◌≤◌, ◌<◌, ◌≡◌, ◌∙◌, ap, refl, none, some, List, [], ◌∷◌, ◌++◌, append-nil,
  append_assoc, ltb, ◌==◌, if◌then◌else◌, get_or, take, drop, length, arith, inl, inr, Bool-cases,
  Option-cases, length-append, length-take, take-append, take-of_length, length-drop,
  take-append-drop, get_or-append,
}
use mathlib.Core.Path.{subst}
use vibevoice_c.WebSocket.Sse.{
  Output, put, index_of, event_word, data_word, newline, less_return, put_line, put_lines, format,
}

-- The lines of a text.
unfoldable pub split : List ℕ → List (List ℕ)
split [] = [] ∷ []
split (x ∷ xs) =
    let rest = split xs in
    if x == 10 then [] ∷ rest else elim rest [ [] ↦ (x ∷ []) ∷ [] | l ∷ ls ↦ (x ∷ l) ∷ ls ]

-- A line as its own field, without the return at its end.
abbrev pub field : List ℕ → List ℕ
field l = data_word ++ (take (less_return l (length l)) l ++ newline)

unfoldable pub fields : List (List ℕ) → List ℕ
fields [] = []
fields (l ∷ ls) = field l ++ fields ls

-- The event, whole.
unfoldable pub text : List ℕ → List ℕ → List ℕ
unfolding split fields
text event message =
    (if length event == 0 then [] else event_word ++ (event ++ newline))
    ++ (fields (split message) ++ newline)

-- What the buffer holds of the text so far.
abbrev front_of : ℕ → List ℕ → Output
front_of cap s = (take (cap - 1) s, length s)

take-append_long :
    (n : ℕ) (xs ys : List ℕ) → length xs ≤ n → take n (xs ++ ys) ≡ xs ++ take (n - length xs) ys
take-append_long zero [] ys h = refl
take-append_long (suc n) [] ys h =
    let e : suc n ≡ suc n - 0 = omega arith in ap (λ (m : ℕ). take m ys) e
take-append_long zero (x ∷ xs) ys h = absurd (omega arith)
take-append_long (suc n) (x ∷ xs) ys h =
    let e : n - length xs ≡ suc n - suc (length xs) = omega arith in
    ap (λ (zs : List ℕ). x ∷ zs) (take-append_long n xs ys (omega arith))
    ∙ ap (λ (m : ℕ). x ∷ (xs ++ take m ys)) e

put-front_of : (cap : ℕ) (s t : List ℕ) → put cap (front_of cap s) t ≡ front_of cap (s ++ t)
unfolding put
put-front_of cap s t = elim (Bool-cases (ltb (length s + length t) cap)) [
  | inl fits ↦
      rw
        (
          fits,
          take-of_length (cap - 1) s (ground arith),
          take-of_length (cap - 1) (s ++ t) (ground (arith, length-append s t)),
          length-append s t,
        )
        refl
  | inr long ↦ elim (Bool-cases (ltb (length s) cap)) [
    | inl some_room ↦
        rw
          (
            long,
            some_room,
            take-of_length (cap - 1) s (ground arith),
            take-append_long (cap - 1) s t (ground arith),
            length-append s t,
          )
          refl
    | inr full ↦ rw (long, full, take-append (cap - 1) s t (ground arith), length-append s t) refl
  ]
]

-- Where the first line ends.
split-index_of :
    (p : List ℕ)
    → split p ≡ elim (index_of 10 p) [ none ↦ p ∷ [] | some i ↦ take i p ∷ split (drop (suc i) p) ]
unfolding split index_of
split-index_of [] = refl
split-index_of (x ∷ xs) = elim (Bool-cases (x == 10)) [
  | inl t ↦ rw t refl
  | inr f ↦ elim (Option-cases (index_of 10 xs)) [
    | inl e ↦ rw (f, split-index_of xs, e) refl
    | inr (i, e) ↦ rw (f, split-index_of xs, e) refl
  ]
]

index_of-bound : (c : ℕ) (p : List ℕ) (i : ℕ) → index_of c p ≡ some i → i < length p
unfolding index_of
index_of-bound c [] i e = absurd (ground arith)
index_of-bound c (x ∷ xs) i e = elim (Bool-cases (x == c)) [
  | inl t ↦ ground arith
  | inr f ↦ elim (Option-cases (index_of c xs)) [
    | inl n ↦ absurd (ground arith)
    | inr (j, n) ↦ ground (arith, index_of-bound c xs j n)
  ]
]

front_line :
    (cap : ℕ) (s p : List ℕ) (n : ℕ)
    → put_line cap (front_of cap s) p n
      ≡ front_of cap (s ++ (data_word ++ (take (less_return p n) p ++ newline)))
front_line cap s p n =
    (let l = take (less_return p n) p in
      let go : put cap (put cap (put cap (front_of cap s) data_word) l) newline
          ≡ front_of cap (((s ++ data_word) ++ l) ++ newline) =
        rw (put-front_of cap s data_word, put-front_of cap (s ++ data_word) l)
          (put-front_of cap ((s ++ data_word) ++ l) newline) in
      let same : ((s ++ data_word) ++ l) ++ newline ≡ s ++ (data_word ++ (l ++ newline)) =
        append_assoc (s ++ data_word) l newline ∙ append_assoc s data_word (l ++ newline) in
      go ∙ ap (front_of cap) same)

-- The return at the end of a line is seen alike with the rest of the text behind it.
line-append :
    (xs ys : List ℕ)
    → take (less_return (xs ++ ys) (length xs)) (xs ++ ys) ≡ take (less_return xs (length xs)) xs
line-append xs ys = elim (Bool-cases (ltb 0 (length xs))) [
  | inr empty ↦ rw empty (take-append (length xs) xs ys (omega arith))
  | inl some_byte ↦
      (let same : get_or (xs ++ ys) (length xs - 1) 0 ≡ get_or xs (length xs - 1) 0 =
          get_or-append xs ys (length xs - 1) 0 (ground arith) in
        rw same (take-append (less_return xs (length xs)) xs ys (ground arith)))
]

line-take :
    (p : List ℕ) (i : ℕ)
    → i ≤ length p
    → take (less_return p i) p ≡ take (less_return (take i p) (length (take i p))) (take i p)
line-take p i h =
    (let n : length (take i p) ≡ i = omega (arith, length-take i p) in
      let q = take-append-drop i p in
      let go = line-append (take i p) (drop i p) in
      subst
        (λ (m : ℕ).
          take (less_return p m) p ≡ take (less_return (take i p) (length (take i p))) (take i p))
        n
        (subst
          (λ (r : List ℕ).
            take (less_return r (length (take i p))) r
            ≡ take (less_return (take i p) (length (take i p))) (take i p))
          q go))

put_lines-front :
    (f cap : ℕ) (s p : List ℕ)
    → length p < f
    → put_lines f cap (front_of cap s) p ≡ front_of cap (s ++ fields (split p))
unfolding put_lines fields
put_lines-front zero cap s p h = absurd (omega arith)
put_lines-front (suc f) cap s p h = elim (Option-cases (index_of 10 p)) [
  | inl e ↦
      rw (put_lines, e, split-index_of p, e, append-nil (field p)) (front_line cap s p (length p))
  | inr (i, e) ↦
      (let b = index_of-bound 10 p i e in
        let t = take (less_return p i) p in
        rw (put_lines, e, split-index_of p, e)
          (ap (λ (o : Output). put_lines f cap o (drop (suc i) p)) (front_line cap s p i)
            ∙ put_lines-front f cap (s ++ (data_word ++ (t ++ newline))) (drop (suc i) p)
                (omega (arith, length-drop (suc i) p))
            ∙ ap (front_of cap) (
                append_assoc s (data_word ++ (t ++ newline)) _
                ∙ ap
                    (λ (l : List ℕ).
                      s ++ ((data_word ++ (l ++ newline)) ++ fields (split (drop (suc i) p))))
                    (line-take p i (omega (arith, b))))))
]

take-nil : (n : ℕ) → take {A = ℕ} n [] ≡ []
take-nil zero = refl
take-nil (suc n) = refl

front_of-nil : (cap : ℕ) → ([], 0) ≡ front_of cap []
front_of-nil cap = rw (take-nil (cap - 1)) refl

abbrev head_of : List ℕ → List ℕ
head_of event = if length event == 0 then [] else event_word ++ (event ++ newline)

head-front :
    (cap : ℕ) (event : List ℕ)
    → (if length event == 0
        then ([], 0)
        else put cap (put cap (put cap ([], 0) event_word) event) newline)
      ≡ front_of cap (head_of event)
head-front cap event = elim (Bool-cases (length event == 0)) [
  | inl t ↦ rw t (front_of-nil cap)
  | inr f ↦ rw f (
      ap (λ (o : Output). put cap (put cap (put cap o event_word) event) newline) (front_of-nil cap)
      ∙ ap (λ (o : Output). put cap (put cap o event) newline) (put-front_of cap [] event_word)
      ∙ ap (λ (o : Output). put cap o newline) (put-front_of cap event_word event)
      ∙ put-front_of cap (event_word ++ event) newline
      ∙ ap (front_of cap) (append_assoc event_word event newline))
]

-- `vv_sse_format` returns the length of the whole event, whatever the buffer's capacity, and the
-- buffer holds the event up to the capacity less the final zero.
pub format-text :
    (cap : ℕ) (event message : List ℕ)
    → format cap event message ≡ (take (cap - 1) (text event message), length (text event message))
unfolding format text
format-text cap event message =
    ap (λ (o : Output). put cap (put_lines (suc (length message)) cap o message) newline)
      (head-front cap event)
    ∙ ap (λ (o : Output). put cap o newline)
        (put_lines-front (suc (length message)) cap (head_of event) message (omega arith))
    ∙ put-front_of cap (head_of event ++ fields (split message)) newline
    ∙ ap (front_of cap) (append_assoc (head_of event) (fields (split message)) newline)
