-- ===== src/Http/Search.antt =====
-- The searches of src/server/http.c in the front of a text, and up to a byte.
use vibevoice_c.Common.{
  All, ℕ, zero, suc, ◌+◌, ◌<◌, ◌≤◌, ◌≡◌, refl, true, false, none, some, List, [], ◌∷◌, ◌++◌, ltb,
  ◌==◌, length, take, starts_with, arith, inl, inr, Bool-cases, Option-cases, length-take,
  take-length_append, take-of_length, sym, ap, ◌∙◌,
}
use vibevoice_c.Http.{until, find_from}

starts_with-short : (p s : List ℕ) → length s < length p → starts_with p s ≡ false
unfolding starts_with
starts_with-short [] s h = absurd (omega arith)
starts_with-short (c ∷ p) [] h = refl
starts_with-short (c ∷ p) (d ∷ s) h = ground (arith, starts_with-short p s (omega arith))

-- The front of a text starts with what the text starts with, if it is long enough.
starts_with-take :
    (p s : List ℕ) (k : ℕ) → length p ≤ k → starts_with p (take k s) ≡ starts_with p s
unfolding starts_with
starts_with-take [] s k h = refl
starts_with-take (c ∷ p) s zero h = absurd (omega arith)
starts_with-take (c ∷ p) [] (suc k) h = refl
starts_with-take (c ∷ p) (d ∷ s) (suc k) h = rw (starts_with-take p s k (omega arith)) refl

starts_with-take-false :
    (p s : List ℕ) (k : ℕ) → starts_with p s ≡ false → starts_with p (take k s) ≡ false
unfolding starts_with
starts_with-take-false [] s k h = absurd (ground arith)
starts_with-take-false (c ∷ p) s zero h = refl
starts_with-take-false (c ∷ p) [] (suc k) h = refl
starts_with-take-false (c ∷ p) (d ∷ s) (suc k) h = elim (Bool-cases (c == d)) [
  | inl t ↦ rw t (starts_with-take-false p s k (ground (arith, h, t)))
  | inr f ↦ rw f refl
]

find_from-short : (p s : List ℕ) → length s < length p → find_from p s ≡ none
unfolding find_from
find_from-short p [] h = refl
find_from-short p (c ∷ s) h =
    rw (starts_with-short p (c ∷ s) h, find_from-short p s (omega arith)) refl

-- Where a needle is, when the text does not start with it.
find_from-later :
    (p : List ℕ) (c : ℕ) (s : List ℕ) (i : ℕ)
    → starts_with p (c ∷ s) ≡ false
    → find_from p (c ∷ s) ≡ some i
    → (j : ℕ) × (find_from p s ≡ some j) × (i ≡ suc j)
unfolding find_from
find_from-later p c s i f e = elim (Option-cases (find_from p s)) [
  | inl n ↦ absurd (let k = rw (f, n) at e in cc)
  | inr (j, t) ↦ (let k = rw (f, t) at e in (j, t, cc))
]

find_from-first :
    (p : List ℕ) (c : ℕ) (s : List ℕ) (i : ℕ)
    → starts_with p (c ∷ s) ≡ true
    → find_from p (c ∷ s) ≡ some i
    → i ≡ 0
unfolding find_from
find_from-first p c s i t e = let k = rw t at e in cc

-- A needle that a text has is in every front that reaches behind it.
pub find_from-take :
    (p s : List ℕ) (k i : ℕ)
    → 0 < length p
    → find_from p s ≡ some i
    → i + length p ≤ k
    → find_from p (take k s) ≡ some i
unfolding find_from
find_from-take p [] k i z e h = cc
find_from-take p (c ∷ s) zero i z e h = absurd (omega arith)
find_from-take p (c ∷ s) (suc k) i z e h = elim (Bool-cases (starts_with p (c ∷ s))) [
  | inl t ↦
      (let b : starts_with p (c ∷ take k s) ≡ starts_with p (c ∷ s) =
          starts_with-take p (c ∷ s) (suc k) (omega arith) in
        rw (b, t, find_from-first p c s i t e) refl)
  | inr f ↦
      (let (j, e', q) = find_from-later p c s i f e in
        let b : starts_with p (c ∷ take k s) ≡ false = starts_with-take-false p (c ∷ s) (suc k) f in
        rw (b, find_from-take p s k j z e' (omega arith), q) refl)
]

-- And in no shorter front.
pub find_from-take-none :
    (p s : List ℕ) (k i : ℕ)
    → find_from p s ≡ some i
    → k < i + length p
    → find_from p (take k s) ≡ none
unfolding find_from
find_from-take-none p s zero i e h = refl
find_from-take-none p [] (suc k) i e h = refl
find_from-take-none p (c ∷ s) (suc k) i e h = elim (Bool-cases (starts_with p (c ∷ s))) [
  | inl t ↦
      (let z = find_from-first p c s i t e in
        find_from-short p (take (suc k) (c ∷ s)) (omega (arith, length-take (suc k) (c ∷ s))))
  | inr f ↦
      (let (j, e', q) = find_from-later p c s i f e in
        let b : starts_with p (c ∷ take k s) ≡ false = starts_with-take-false p (c ∷ s) (suc k) f in
        rw (b, find_from-take-none p s k j e' (omega arith)) refl)
]

starts_with-front : (p s t : List ℕ) → starts_with p s ≡ true → starts_with p (s ++ t) ≡ true
unfolding starts_with
starts_with-front [] s t e = refl
starts_with-front (c ∷ p) [] t e = cc
starts_with-front (c ∷ p) (d ∷ s) t e =
    ground (arith, starts_with-front p s t (ground (arith, e)), e)

-- A needle that is found is inside the text.
pub find_from-bound : (p s : List ℕ) (i : ℕ) → find_from p s ≡ some i → i + length p ≤ length s
find_from-bound p s i e = elim (Bool-cases (ltb (length s) (i + length p))) [
  | inl t ↦ absurd (
      let k : find_from p s ≡ none =
        rw⁻¹ (take-of_length (length s) s (omega arith))
          (find_from-take-none p s (length s) i e (ground arith)) in
      cc)
  | inr f ↦ ground arith
]

-- What is appended behind a text that is long enough is not seen.
starts_with-append_long :
    (p s t : List ℕ) → length p ≤ length s → starts_with p (s ++ t) ≡ starts_with p s
starts_with-append_long p s t h =
    sym (starts_with-take p (s ++ t) (length s) h) ∙ ap (starts_with p) (take-length_append s t)

-- What is appended does not move the first place of a needle.
pub find_from-append :
    (p s t : List ℕ) (i : ℕ) → find_from p s ≡ some i → find_from p (s ++ t) ≡ some i
unfolding find_from
find_from-append p [] t i e = cc
find_from-append p (c ∷ s) t i e = elim (Bool-cases (starts_with p (c ∷ s))) [
  | inl b ↦
      (let k : starts_with p (c ∷ s ++ t) ≡ true = starts_with-front p (c ∷ s) t b in
        rw (find_from, k, find_from-first p c s i b e) refl)
  | inr f ↦
      (let (j, e', q) = find_from-later p c s i f e in
        let k : starts_with p (c ∷ s ++ t) ≡ false =
          starts_with-append_long p (c ∷ s) t (omega (arith, find_from-bound p s j e')) ∙ f in
        rw (find_from, k, find_from-append p s t j e', q) refl)
]

-- A text without the byte `c`.
abbrev pub Lacks : ℕ → List ℕ → Type 0
Lacks c s = All (λ (x : ℕ). (x == c) ≡ false) s

pub until-append : (c : ℕ) (a b : List ℕ) → Lacks c a → until c (a ++ c ∷ b) ≡ a
unfolding until
until-append c [] b h = let e : (c == c) ≡ true = ground arith in rw (until, e) refl
until-append c (x ∷ a) b h = rw (until, h.0) (ap (λ (k : List ℕ). x ∷ k) (until-append c a b h.1))
