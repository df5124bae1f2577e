-- ===== src/Common/Bytes.antt =====
-- Strings as lists of bytes.
use Prim.Native.Nat.{ℕ, ◌+◌, ◌*◌}
use mathlib.Core.Path.{◌≡◌, ◌∙◌, refl, ap}
use mathlib.Core.Bool.{Bool, true, false, ◌&&◌}
use mathlib.Core.List.{List, [], ◌∷◌, ◌++◌}
use native.Mathlib.Omega.{arith}
use vibevoice_c.Common.Tests.{◌==◌, if◌then◌else◌}
use vibevoice_c.Common.Lists.{length, drop}

-- `memcmp` of strings that are as long.
unfoldable pub equal_bytes : List ℕ → List ℕ → Bool
equal_bytes [] [] = true
equal_bytes (x ∷ xs) (y ∷ ys) = x == y && equal_bytes xs ys
equal_bytes xs ys = false

pub equal_bytes-eq : (xs ys : List ℕ) → equal_bytes xs ys ≡ true → xs ≡ ys
unfolding equal_bytes
equal_bytes-eq [] [] e = refl
equal_bytes-eq [] (y ∷ ys) e = absurd (ground arith)
equal_bytes-eq (x ∷ xs) [] e = absurd (ground arith)
equal_bytes-eq (x ∷ xs) (y ∷ ys) e =
    (let head : x ≡ y = ground (arith, e) in
      let rest : equal_bytes xs ys ≡ true = ground (arith, e) in
      ap (λ (z : ℕ). z ∷ xs) head ∙ ap (λ (l : List ℕ). y ∷ l) (equal_bytes-eq xs ys rest))

abbrev pub little_endian : List ℕ → ℕ
little_endian [] = 0
little_endian (b ∷ bs) = b + 256 * little_endian bs

-- A string up to its terminator.
abbrev pub c_string : List ℕ → List ℕ
c_string [] = []
c_string (c ∷ s) = if c == 0 then [] else c ∷ c_string s

-- `memcmp` of a text with a string, where the text is long enough.
unfoldable pub starts_with : List ℕ → List ℕ → Bool
starts_with [] s = true
starts_with (c ∷ p) [] = false
starts_with (c ∷ p) (d ∷ s) = c == d && starts_with p s

pub starts_with-append : (p s : List ℕ) → starts_with p s ≡ true → p ++ drop (length p) s ≡ s
unfolding starts_with
starts_with-append [] s e = refl
starts_with-append (c ∷ p) [] e = absurd (ground arith)
starts_with-append (c ∷ p) (d ∷ s) e =
    (let head : c ≡ d = ground arith in
      let rest : starts_with p s ≡ true = ground arith in
      ap (λ (x : ℕ). x ∷ (p ++ drop (length p) s)) head
      ∙ ap (λ (l : List ℕ). d ∷ l) (starts_with-append p s rest))
