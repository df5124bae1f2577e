-- ===== src/Gguf/Files.antt =====
-- A small file of src/model/gguf.c: an entry that is an array of two strings, and an I2_S tensor with
-- eight elements.
use vibevoice_c.Common.{
  ℕ, zero, suc, ◌+◌, ◌/◌, ◌%◌, ◌^◌, ◌≤◌, ◌≡◌, refl, Bool, true, none, some, List, [], ◌∷◌, ◌++◌,
  replicate, length, arith, Status, double_to, equal_bytes,
}
use vibevoice_c.Gguf.{find, nbytes, any_negative, elements, bytes_of}
use vibevoice_c.Gguf.Cursor.{
  cur_take, cur_u32, cur_u64, cur_str, arena_for, while_good, skip_value, scalar_size, resolve,
}
use vibevoice_c.Gguf.Parse.{
  Kv, Tensor, Gguf, unsigned, opened, read_array, read_kv, read_kvs, read_dims, read_tensor,
  read_tensors, find_kv, place, place_all, nelements, finish, read_tables, parse, open_memory,
}
use vibevoice_c.Gguf.Access.{found, arr_str, arr_walk, bytes_at, i2s_view}
use vibevoice_c.Gguf.Inside.{IsLaidOut, open_memory-IsLaidOut}
use vibevoice_c.Gguf.Arrays.{arr_str-open_memory}
use vibevoice_c.Gguf.Sizes.{product}
use vibevoice_c.Gguf.Views.{i2s_view-open_memory}

-- A number in `w` bytes, the low one first.
abbrev le : ℕ → ℕ → List ℕ
le zero x = []
le (suc w) x = x % 256 ∷ le w (x / 256)

abbrev str : List ℕ → List ℕ
str s = le 8 (length s) ++ s

abbrev entry : List ℕ
entry = str (b'k' ∷ []) ++ le 4 9 ++ le 4 8 ++ le 8 2 ++ str (b'a' ∷ []) ++ str (b'b' ∷ b'c' ∷ [])

abbrev tensor : List ℕ
tensor = str (b't' ∷ []) ++ le 4 1 ++ le 8 8 ++ le 4 36 ++ le 8 0

-- 4 + 4 + 8 + 8 + 44 + 33 = 101 bytes, then 27 to the next multiple of 32.
abbrev file : List ℕ
file =
    b'G' ∷ b'G' ∷ b'U' ∷ b'F' ∷ le 4 3
    ++ le 8 1
    ++ le 8 1
    ++ entry
    ++ tensor
    ++ replicate 27 0
    ++ replicate 34 7

abbrev memory : ℕ → Bool
memory n = true

abbrev kv : Kv
kv = record { key = 1; type = 9; arr_type = 8; arr_n = 2; arr_data = 49; v = unsigned 0; str = 0 }

abbrev t : Tensor
t = record {
  name = 3;
  n_dims = 1;
  ne = 8 ∷ 1 ∷ 1 ∷ 1 ∷ [];
  type = 36;
  offset = 0;
  data_at = some 128;
  nbytes = 34;
}

abbrev g : Gguf
g = record {
  version = 3;
  alignment = 32;
  data_offset = 128;
  kvs = kv ∷ [];
  tensors = t ∷ [];
  strings = b'k' ∷ 0 ∷ b't' ∷ 0 ∷ [];
}

file_is_read : open_memory memory file ≡ opened g
unfolding open_memory parse cur_u32 cur_u64 cur_take cur_str arena_for double_to while_good
    skip_value scalar_size read_array read_kv read_kvs read_dims read_tensor read_tensors find_kv
    resolve equal_bytes place place_all nelements finish read_tables find nbytes any_negative
    elements bytes_of
file_is_read = refl

open_memory-IsLaidOut_example : IsLaidOut (length file) g
open_memory-IsLaidOut_example = open_memory-IsLaidOut memory file g file_is_read

arr_str-open_memory_example :
    (q len : ℕ) × ((arr_str file kv 1 ≡ found q len) × (q + len ≤ length file))
arr_str-open_memory_example =
    arr_str-open_memory memory file g 0 kv 1 file_is_read (omega arith) refl refl refl (omega arith)

second_string : arr_str file kv 1 ≡ found 66 2
unfolding arr_str arr_walk bytes_at
second_string = refl

i2s_view-open_memory_example :
    (p : ℕ) × (i2s_view t ≡ (Status.ok, some p))
    × (p ≡ 128 + product 1 t.ne / 4)
    × (p + 4 ≤ 128 + t.nbytes)
    × (128 + t.nbytes ≤ length file)
i2s_view-open_memory_example =
    i2s_view-open_memory memory file g 0 t 128 file_is_read refl refl refl (λ e. omega (arith, e))

-- A shape of 2^64 elements: the size is refused with 0, and the number of elements wraps around to 0.
abbrev wrapped : Tensor
wrapped = record {
  name = 3;
  n_dims = 2;
  ne = 2 ^ 32 ∷ 2 ^ 32 ∷ 1 ∷ 1 ∷ [];
  type = 36;
  offset = 0;
  data_at = none;
  nbytes = 0;
}

-- Such a tensor is placed in a data block of no bytes at all, behind a file of 96.
wrapped_is_placed : place 32 96 0 wrapped ≡ some (record wrapped { data_at = some 96 })
unfolding place nelements find nbytes any_negative elements
wrapped_is_placed = refl

-- Its scale is then read behind the end of the file.
wrapped_is_read : i2s_view (record wrapped { data_at = some 96 }) ≡ (Status.ok, some 96)
unfolding i2s_view nelements
wrapped_is_read = refl
