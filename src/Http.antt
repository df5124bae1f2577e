-- ===== src/Http.antt =====
-- The HTTP server of src/server/http.c: its searches in texts.
mod Search
mod Head
mod Receive
mod Arrival
mod Framing
mod Decimal
mod Json
mod Escape
mod Multipart
mod Form
mod Upload
mod Server
mod Threads
mod Request
mod Sent
mod Blank
mod Measured
mod Exchange
mod Requests
mod Runs
use Prim.Native.Char.{code}
use Prim.Native.String.{String}
use vibevoice_c.Common.{
  ℕ, zero, suc, ◌+◌, ◌-◌, Bool, true, false, not, ◌&&◌, ◌||◌, Option, none, some, List, [], ◌∷◌,
  ltb, leb, ◌==◌, if◌then◌else◌, length, take, drop, starts_with,
}

-- The bytes of a literal.
abbrev pub codes : String → List ℕ
codes String.[] = []
codes (String.◌∷◌ c s) = code c ∷ codes s

-- A letter of `ci_equal`.
abbrev pub lower : ℕ → ℕ
lower c = if leb b'A' c && leb c b'Z' then c + 32 else c

-- `ci_equal(a, b, n)`; a text that ends is not equal.
unfoldable pub ci_equal : List ℕ → List ℕ → ℕ → Bool
ci_equal a b zero = true
ci_equal (x ∷ a) (y ∷ b) (suc n) = lower x == lower y && (lower x == 0 || ci_equal a b n)
ci_equal a b (suc n) = false

-- The loop of `mem_find`: where the needle, which is not empty, is in the text.
unfoldable pub find_from : List ℕ → List ℕ → Option ℕ
find_from needle [] = none
find_from needle (c ∷ s) =
    let rest = find_from needle s in
    if starts_with needle (c ∷ s) then some 0 else elim rest [ none ↦ none | some i ↦ some (suc i) ]

-- `mem_find`, the index of the result.
unfoldable pub mem_find : List ℕ → List ℕ → Option ℕ
mem_find needle s = if length needle == 0 then none else find_from needle s

-- The bytes up to the next `c` or the end.
unfoldable pub until : ℕ → List ℕ → List ℕ
until c [] = []
until c (x ∷ s) = let rest = until c s in if x == c then [] else x ∷ rest

-- `while (*p == ...) p++` over bytes of a set.
unfoldable pub skip_while : (ℕ → Bool) → List ℕ → List ℕ
skip_while f [] = []
skip_while f (x ∷ s) = let rest = skip_while f s in if f x then rest else x ∷ s
