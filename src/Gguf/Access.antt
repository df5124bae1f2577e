-- ===== src/Gguf/Access.antt =====
-- The accessors of src/model/gguf.c. A read of the mapping says when it would be outside.
use vibevoice_c.Common.{
  ℕ, zero, suc, ◌+◌, ◌/◌, Bool, not, ◌||◌, Option, none, some, List, [], ◌∷◌, ltb, leb, ◌==◌,
  if◌then◌else◌, get_elem?, take, drop, length, Status, little_endian, equal_bytes,
}
use vibevoice_c.Gguf.{i2_s, i8_s}
use vibevoice_c.Gguf.Cursor.{vt_string, vt_array, resolve}
use vibevoice_c.Gguf.Parse.{
  Value, unsigned, signed, float32, float64, Kv, Tensor, Gguf, find_kv, nelements,
}

-- `vv_gguf_tensor` and `vv_gguf_kv`, at an index that is not negative.
abbrev pub tensor_at : Gguf → ℕ → Option Tensor
tensor_at g i = get_elem? g.tensors i

abbrev pub kv_at : Gguf → ℕ → Option Kv
kv_at g i = get_elem? g.kvs i

-- The loop of `vv_gguf_find_tensor`.
unfoldable pub find_named : List ℕ → List ℕ → List Tensor → Option Tensor
find_named strings name [] = none
find_named strings name (t ∷ ts) =
    let rest = find_named strings name ts in
    elim (resolve strings t.name) [
      | none ↦ rest
      | some s ↦ (if equal_bytes s name then some t else rest)
    ]

-- `vv_gguf_find_tensor`
abbrev pub find_tensor : Gguf → List ℕ → Option Tensor
find_tensor g name = find_named g.strings name g.tensors

-- The 64 bits of the union that an integer is in.
abbrev pub word_of : Value → ℕ
word_of (unsigned u) = u
word_of (signed i) = i
word_of (float32 f) = f
word_of (float64 f) = f

abbrev pub is_unsigned : ℕ → Bool
is_unsigned t = t == 0 || t == 2 || t == 4 || t == 7 || t == 10

abbrev pub is_signed : ℕ → Bool
is_signed t = t == 1 || t == 3 || t == 5 || t == 11

abbrev pub int_of : ℕ → Option Kv → ℕ
int_of def none = def
int_of def (some kv) = if is_unsigned kv.type || is_signed kv.type then word_of kv.v else def

-- `vv_gguf_get_int`; a result is the 64 bits that store it.
unfoldable pub get_int : Gguf → List ℕ → ℕ → ℕ
get_int g key def = int_of def (find_kv g.strings key g.kvs)

abbrev pub str_of : List ℕ → Option Kv → Option (List ℕ)
str_of strings none = none
str_of strings (some kv) = if kv.type == vt_string then resolve strings kv.str else none

-- `vv_gguf_get_str`
unfoldable pub get_str : Gguf → List ℕ → Option (List ℕ)
get_str g key = str_of g.strings (find_kv g.strings key g.kvs)

-- What an accessor finds: nothing, a stretch of the mapping, or a read outside of it.
pub data Access : Type 0 where
  null outside : Access
  found : ℕ → ℕ → Access

module _ (base : List ℕ) where
  -- The `n` bytes at `p`.
  unfoldable pub bytes_at : ℕ → ℕ → Option (List ℕ)
  bytes_at p n = if ltb (length base) (p + n) then none else some (take n (drop p base))

  -- The loop of `vv_gguf_arr_str`, `i` rounds before the last.
  unfoldable pub arr_walk : ℕ → ℕ → Access
  arr_walk zero p = elim (bytes_at p 8) [
    | none ↦ outside
    | some bs ↦ found (p + 8) (little_endian bs)
  ]
  arr_walk (suc i) p = elim (bytes_at p 8) [
    | none ↦ outside
    | some bs ↦ arr_walk i (p + (8 + little_endian bs))
  ]

  -- `vv_gguf_arr_str`
  unfoldable pub arr_str : Kv → ℕ → Access
  arr_str kv idx =
      if not (kv.type == vt_array) || not (kv.arr_type == vt_string) || leb kv.arr_n idx
      then null
      else arr_walk idx kv.arr_data

-- The scale of `vv_gguf_i2s_view`, and of `vv_gguf_i8s_view`: four bytes at an offset.
abbrev pub scale_at : Tensor → (ℕ → ℕ) → Status × Option ℕ
scale_at t behind = elim t.data_at [
  | none ↦ (Status.invalid_arg, none)
  | some d ↦ (Status.ok, some (d + behind (nelements t.ne)))
]

unfoldable pub i2s_view : Tensor → Status × Option ℕ
i2s_view t = if not (t.type == i2_s) then (Status.invalid_arg, none) else scale_at t (λ n. n / 4)

unfoldable pub i8s_view : Tensor → Status × Option ℕ
i8s_view t = if not (t.type == i8_s) then (Status.invalid_arg, none) else scale_at t (λ n. n)
