-- ===== src/Gguf/Parse.antt =====
-- `parse` and `vv_gguf_open_memory` of src/model/gguf.c.
use Prim.Native.Nat.{bit_and}
use vibevoice_c.Common.{
  ℕ, zero, suc, ◌+◌, ◌-◌, ◌*◌, ◌/◌, ◌%◌, ◌^◌, Bool, true, false, not, ◌&&◌, ◌||◌, Option, none,
  some, List, [], ◌∷◌, ltb, leb, ◌==◌, if◌then◌else◌, get_or, set, length, Status, little_endian,
  equal_bytes,
}
use vibevoice_c.Gguf.{k_traits, find, nbytes}
use vibevoice_c.Gguf.Cursor.{
  Cursor, Reader, scalar_size, vt_string, vt_array, spoil, while_good, left, cur_take, cur_u32,
  cur_u64, cur_len, advance_if, skip_value, cur_str, resolve,
}

-- The scalar of `vv_gguf_kv_t`: `u`; `i`, as the 64 bits that store it; or `f`, as the bits of the
-- float or double in the file.
pub data Value : Type 0 where
  unsigned signed float32 float64 : ℕ → Value

-- `vv_gguf_kv_t`; key and string are offsets in the arena plus 1, the array is an offset in the file.
pub record Kv : Type 0 where
  pub key : ℕ
  pub type : ℕ
  pub arr_type : ℕ
  pub arr_n : ℕ
  pub arr_data : ℕ
  pub v : Value
  pub str : ℕ

-- `vv_gguf_tensor_t`; the data is an offset in the file.
pub record Tensor : Type 0 where
  pub name : ℕ
  pub n_dims : ℕ
  pub ne : List ℕ
  pub type : ℕ
  pub offset : ℕ
  pub data_at : Option ℕ
  pub nbytes : ℕ

-- `struct vv_gguf`, without the mapping.
pub record Gguf : Type 0 where
  pub version : ℕ
  pub alignment : ℕ
  pub data_offset : ℕ
  pub kvs : List Kv
  pub tensors : List Tensor
  pub strings : List ℕ

pub data Opened : Type 0 where
  opened : Gguf → Opened
  refused : Status → Opened

-- A number of `w` bits, widened with its sign.
abbrev pub widen : ℕ → ℕ → ℕ
widen w x = if leb (2 ^ (w - 1)) x then x + 2 ^ 64 - 2 ^ w else x

-- The switch of `read_scalar`.
unfoldable pub value_of : ℕ → ℕ → Value
value_of t x =
    if t == 7
    then unsigned (if x == 0 then 0 else 1)
    else if t == 1
    then signed (widen 8 x)
    else if t == 3
    then signed (widen 16 x)
    else if t == 5
    then signed (widen 32 x)
    else if t == 6
    then float32 x
    else if t == 11
    then signed x
    else if t == 12
    then float64 x
    else unsigned x

abbrev pub max_dim : ℕ
max_dim = 2 ^ 40

abbrev pub is_power : ℕ → Bool
is_power a = not (a == 0) && bit_and a (a - 1) == 0

-- `vv_gguf_nelements`; the products wrap around.
unfoldable pub nelements : List ℕ → ℕ
nelements ne = get_or ne 0 0 * get_or ne 1 0 * get_or ne 2 0 * get_or ne 3 0 % 2 ^ 64

module _ (base : List ℕ) (v1 : Bool) where
  -- The array of an entry with this key.
  unfoldable pub read_array : ℕ → Reader → Kv × Reader
  unfolding cur_u32 cur_u64 cur_take
  read_array key r =
      let (t, c1) = cur_u32 base r.cur in
      let (n, c2) = cur_len base v1 c1 in
      let esz = scalar_size t in
      (
        record {
          key = key;
          type = vt_array;
          arr_type = t;
          arr_n = n;
          arr_data = c2.p;
          v = unsigned 0;
          str = 0;
        },
        record r {
          cur = elim (esz == 0) [
            | false ↦ advance_if (not (ltb (left base c2 / esz) n)) (n * esz) c2
            | true ↦ while_good n (skip_value base 4 t v1) c2
          ];
        },
      )

  module _ (alloc : ℕ → Bool) where
    -- The round of the loop over the entries, when the cursor is good.
    unfoldable pub read_kv : Reader → Kv × Reader
    unfolding cur_u32 cur_u64 cur_take
    read_kv r =
        let (key, r1) = cur_str base alloc v1 r in
        let (t, c) = cur_u32 base r1.cur in
        let r2 = record r1 { cur = c } in
        let entry : Kv = record {
          key = key;
          type = t;
          arr_type = 0;
          arr_n = 0;
          arr_data = 0;
          v = unsigned 0;
          str = 0;
        } in
        if c.bad
        then (entry, r2)
        else if t == vt_string
        then (let (str, r3) = cur_str base alloc v1 r2 in (record entry { str = str }, r3))
        else if t == vt_array
        then read_array key r2
        else if not (scalar_size t == 0)
        then (let (bs, c') = cur_take base (scalar_size t) c in
            (record entry { v = value_of t (little_endian bs) }, record r2 { cur = c' }))
        else (entry, record r2 { cur = spoil c })

    unfoldable pub read_kvs : ℕ → Reader → List Kv × Reader
    read_kvs zero r = ([], r)
    read_kvs (suc n) r = elim r.cur.bad [
      | true ↦ ([], r)
      | false ↦ (let (kv, r') = read_kv r in let (kvs, r'') = read_kvs n r' in (kv ∷ kvs, r''))
    ]

    -- The loop over the dimensions from `d` on, `n` of them.
    unfoldable pub read_dims : ℕ → ℕ → List ℕ → Cursor → List ℕ × Cursor
    unfolding cur_u32 cur_u64 cur_take
    read_dims zero d ne c = (ne, c)
    read_dims (suc n) d ne c =
        let (x, c') = cur_len base v1 c in
        elim (ltb max_dim x) [ true ↦ (ne, spoil c') | false ↦ read_dims n (d + 1) (set ne d x) c' ]

    -- The round of the loop over the tensors; without a tensor the cursor is bad.
    unfoldable pub read_tensor : Reader → Option Tensor × Reader
    unfolding cur_u32 cur_u64 cur_take
    read_tensor r =
        let (name, r1) = cur_str base alloc v1 r in
        let (nd, c) = cur_u32 base r1.cur in
        if c.bad || ltb nd 1 || ltb 4 nd
        then (none, record r1 { cur = spoil c })
        else (let (ne, c1) = read_dims nd 0 (1 ∷ 1 ∷ 1 ∷ 1 ∷ []) c in
            let (t, c2) = cur_u32 base c1 in
            let (off, c3) = cur_u64 base c2 in
            (
              some (record {
                name = name;
                n_dims = nd;
                ne = ne;
                type = t;
                offset = off;
                data_at = none;
                nbytes = 0;
              }),
              record r1 { cur = c3 },
            ))

    unfoldable pub read_tensors : ℕ → Reader → List Tensor × Reader
    read_tensors zero r = ([], r)
    read_tensors (suc n) r = elim r.cur.bad [
      | true ↦ ([], r)
      | false ↦
          (let (o, r') = read_tensor r in
            elim o [
              | none ↦ ([], r')
              | some t ↦ (let (ts, r'') = read_tensors n r' in (t ∷ ts, r''))
            ])
    ]

-- `vv_gguf_find_kv`
unfoldable pub find_kv : List ℕ → List ℕ → List Kv → Option Kv
find_kv strings key [] = none
find_kv strings key (kv ∷ kvs) =
    let rest = find_kv strings key kvs in
    elim (resolve strings kv.key) [
      | none ↦ rest
      | some s ↦ (if equal_bytes s key then some kv else rest)
    ]

-- "general.alignment"
abbrev pub alignment_key : List ℕ
alignment_key =
    b'g' ∷ b'e' ∷ b'n' ∷ b'e' ∷ b'r' ∷ b'a' ∷ b'l' ∷ b'.' ∷ b'a' ∷ b'l' ∷ b'i' ∷ b'g' ∷ b'n' ∷ b'm'
    ∷ b'e' ∷ b'n' ∷ b't' ∷ []

-- The alignment that an entry gives, or `none` if it is refused.
abbrev pub alignment_of : Option Kv → Option ℕ
alignment_of none = some 32
alignment_of (some kv) = elim kv.v [
  | unsigned a ↦ (if not (kv.type == 4) || not (is_power a) || ltb 65536 a then none else some a)
  | signed a ↦ none
  | float32 a ↦ none
  | float64 a ↦ none
]

-- The round of the loop that places the tensors; `none` is VV_ERR_PARSE.
unfoldable pub place : ℕ → ℕ → ℕ → Tensor → Option Tensor
place alignment data_offset data_size t = elim (find t.type k_traits) [
  | none ↦ some t
  | some tr ↦
      (let nb = nbytes t.type t.ne in
        if nb == 0 && not (nelements t.ne == 0)
        then none
        else if not (t.offset % alignment == 0)
            || ltb data_size t.offset
            || ltb (data_size - t.offset) nb
        then none
        else some (record t { nbytes = nb; data_at = some (data_offset + t.offset) }))
]

unfoldable pub place_all : ℕ → ℕ → ℕ → List Tensor → Option (List Tensor)
place_all al off size [] = some []
place_all al off size (t ∷ ts) = elim (place al off size t) [
  | none ↦ none
  | some u ↦ (elim (place_all al off size ts) [ none ↦ none | some us ↦ some (u ∷ us) ])
]

abbrev pub unnamed : List ℕ → Bool
unnamed [] = false
unnamed (x ∷ xs) = x == 0 || unnamed xs

abbrev pub kv_keys : List Kv → List ℕ
kv_keys [] = []
kv_keys (kv ∷ kvs) = kv.key ∷ kv_keys kvs

abbrev pub tensor_names : List Tensor → List ℕ
tensor_names [] = []
tensor_names (t ∷ ts) = t.name ∷ tensor_names ts

-- What `parse` does once the tables are read up to `pos`.
unfoldable pub finish : ℕ → ℕ → ℕ → List Kv → List Tensor → List ℕ → Opened
finish size version pos kvs tensors strings =
    if unnamed (kv_keys kvs) || unnamed (tensor_names tensors)
    then refused Status.parse
    else elim (alignment_of (find_kv strings alignment_key kvs)) [
      | none ↦ refused Status.parse
      | some al ↦
          (let off = (pos + al - 1) / al * al in
            if ltb size off
            then refused Status.parse
            else elim (place_all al off (size - off) tensors) [
              | none ↦ refused Status.parse
              | some ts ↦ opened (record {
                version = version;
                alignment = al;
                data_offset = off;
                kvs = kvs;
                tensors = ts;
                strings = strings;
              })
            ])
    ]

module _ (alloc : ℕ → Bool) (base : List ℕ) where
  -- The two tables, of `n_kv` and `n_tensors` entries.
  unfoldable pub read_tables : ℕ → ℕ → ℕ → Cursor → Opened
  read_tables version n_kv n_tensors c =
      let (kvs, r) =
        read_kvs base (version == 1) alloc n_kv (record { cur = c; strings = []; cap = 0 }) in
      elim r.cur.bad [
        | true ↦ refused Status.parse
        | false ↦
            (let (ts, r') = read_tensors base (version == 1) alloc n_tensors r in
              elim r'.cur.bad [
                | true ↦ refused Status.parse
                | false ↦ finish (length base) version r'.cur.p kvs ts r'.strings
              ])
      ]

  -- `parse`
  unfoldable pub parse : Opened
  unfolding cur_u32 cur_u64 cur_take
  parse =
      let (magic, c0) = cur_u32 base (record { p = 0; bad = false }) in
      let (version, c1) = cur_u32 base c0 in
      let (n_tensors, c2) = cur_len base (version == 1) c1 in
      let (n_kv, c3) = cur_len base (version == 1) c2 in
      let left = left base c3 in
      if c0.bad || not (magic == 0x46554747)
      then refused Status.parse
      else if ltb version 1 || ltb 3 version
      then refused Status.model_version
      else if c3.bad
      then refused Status.parse
      else elim (ltb (left / 12) n_kv || ltb (left / 28) n_tensors || ltb (2 ^ 20) n_tensors) [
        | true ↦ refused Status.parse
        | false ↦
            (let count = λ (n : ℕ). if n == 0 then 1 else n in
              elim (alloc (48 * count n_kv) && alloc (80 * count n_tensors)) [
                | false ↦ refused Status.out_of_memory
                | true ↦ read_tables version n_kv n_tensors c3
              ])
      ]

  -- `vv_gguf_open_memory`
  unfoldable pub open_memory : Opened
  open_memory = elim (alloc 96) [ false ↦ refused Status.out_of_memory | true ↦ parse ]
