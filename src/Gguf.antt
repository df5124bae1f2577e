-- ===== src/Gguf.antt =====
-- src/model/gguf.c: the size in bytes of a tensor of a GGUF file. A signed 64-bit number is the word
-- that stores it, negative from 2 ^ 63 on; the names of the types are left out of their table.
use vibevoice_c.Common.{
  ℕ, zero, suc, ◌+◌, ◌*◌, ◌/◌, ◌%◌, ◌^◌, Bool, true, false, not, ◌&&◌, ◌||◌, Option, none, some,
  List, [], ◌∷◌, ltb, leb, ◌==◌, if◌then◌else◌, get_or,
}
pub mod Sizes
pub mod Cursor
pub mod Parse
pub mod Inside
pub mod Access
pub mod Arrays
pub mod Views
mod Runs
mod Files

-- `ggml_traits_t`
pub record Traits : Type 0 where
  pub code : ℕ
  pub blck : ℕ
  pub size : ℕ

abbrev row : ℕ → ℕ → ℕ → Traits
row c b s = record { code = c; blck = b; size = s }

-- `k_traits`, in its order.
abbrev pub k_traits : List Traits
k_traits =
    row 0 1 4
    ∷ row 1 1 2
    ∷ row 2 32 18
    ∷ row 3 32 20
    ∷ row 6 32 22
    ∷ row 7 32 24
    ∷ row 8 32 34
    ∷ row 9 32 36
    ∷ row 10 256 84
    ∷ row 11 256 110
    ∷ row 12 256 144
    ∷ row 13 256 176
    ∷ row 14 256 210
    ∷ row 15 256 292
    ∷ row 24 1 1
    ∷ row 25 1 2
    ∷ row 26 1 4
    ∷ row 30 1 2
    ∷ row 36 1 1
    ∷ row 37 1 1
    ∷ []

abbrev pub i2_s : ℕ
i2_s = 36

abbrev pub i8_s : ℕ
i8_s = 37

-- The loop of `traits`.
unfoldable pub find : ℕ → List Traits → Option Traits
find type [] = none
find type (t ∷ ts) = let rest = find type ts in if t.code == type then some t else rest

unfoldable pub any_negative : List ℕ → Bool
any_negative [] = false
any_negative (x ∷ xs) = leb (2 ^ 63) x || any_negative xs

-- The checked product: `none` is the refusal.
unfoldable pub elements : ℕ → List ℕ → Option ℕ
elements n [] = some n
elements n (x ∷ xs) =
    let rest = elements (n * x % 2 ^ 64) xs in
    if not (x == 0) && ltb (2 ^ 62 / x) n then none else rest

-- The size of a tensor with `n` elements.
unfoldable pub bytes_of : ℕ → Traits → ℕ → ℕ
bytes_of type t n =
    if type == i2_s
    then if not (n % 4 == 0) then 0 else (n / 4 + 32) % 2 ^ 64
    else if type == i8_s
    then (n + 32) % 2 ^ 64
    else n / t.blck * t.size % 2 ^ 64

abbrev pub bytes_or_none : ℕ → Traits → Option ℕ → ℕ
bytes_or_none type t none = 0
bytes_or_none type t (some n) = bytes_of type t n

-- `vv_ggml_nbytes`
unfoldable pub nbytes : ℕ → List ℕ → ℕ
nbytes type ne = elim (find type k_traits) [
  | none ↦ 0
  | some t ↦
      if any_negative ne || not (get_or ne 0 0 % t.blck == 0)
      then 0
      else bytes_or_none type t (elements 1 ne)
]
