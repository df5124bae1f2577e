-- ===== src/Gguf/Cursor.antt =====
-- The cursor of src/model/gguf.c and what is read through it. A pointer into the mapping is its offset
-- from `base`; a string is the list of its bytes.
use vibevoice_c.Common.{
  ℕ, zero, suc, ◌+◌, ◌-◌, ◌*◌, ◌/◌, Bool, true, false, not, ◌||◌, Option, none, some, List, [], ◌∷◌,
  ◌++◌, ltb, ◌==◌, if◌then◌else◌, take, drop, length, double_to, little_endian, c_string,
}

-- `cursor_t`, without `end`, which is the end of the mapping.
pub record Cursor : Type 0 where
  pub p : ℕ
  pub bad : Bool

-- The cursor with the arena: `strings` up to `strings_used`, and `strings_cap`.
pub record Reader : Type 0 where
  pub cur : Cursor
  pub strings : List ℕ
  pub cap : ℕ

abbrev pub spoil : Cursor → Cursor
spoil c = record c { bad = true }

-- `scalar_size`
unfoldable pub scalar_size : ℕ → ℕ
scalar_size t =
    if t == 0 || t == 1 || t == 7
    then 1
    else if t == 2 || t == 3
    then 2
    else if t == 4 || t == 5 || t == 6
    then 4
    else if t == 10 || t == 11 || t == 12
    then 8
    else 0

abbrev pub vt_string : ℕ
vt_string = 8

abbrev pub vt_array : ℕ
vt_array = 9

-- `for (uint64_t i = 0; i < n && !c->bad; i++) c = body(c);`
unfoldable pub while_good : ℕ → (Cursor → Cursor) → Cursor → Cursor
while_good zero body c = c
while_good (suc n) body c = elim c.bad [ true ↦ c | false ↦ while_good n body (body c) ]

-- Past `n` bytes that were checked to be there, or not.
abbrev pub advance_if : Bool → ℕ → Cursor → Cursor
advance_if fits n c = if fits then record c { p = c.p + n } else spoil c

module _ (base : List ℕ) where
  -- `c->end - c->p`
  abbrev pub left : Cursor → ℕ
  left c = length base - c.p

  -- `cur_take`: the bytes, none of them on failure.
  unfoldable pub cur_take : ℕ → Cursor → List ℕ × Cursor
  cur_take n c =
      if c.bad || ltb (left c) n
      then ([], spoil c)
      else (take n (drop c.p base), record c { p = c.p + n })

  -- `cur_u32` and `cur_u64`; the value is 0 on failure.
  unfoldable pub cur_u32 : Cursor → ℕ × Cursor
  unfolding cur_take
  cur_u32 c = let (bs, c') = cur_take 4 c in (little_endian bs, c')

  unfoldable pub cur_u64 : Cursor → ℕ × Cursor
  unfolding cur_take
  cur_u64 c = let (bs, c') = cur_take 8 c in (little_endian bs, c')

  -- `v1 ? cur_u32(c) : cur_u64(c)`
  abbrev pub cur_len : Bool → Cursor → ℕ × Cursor
  cur_len v1 c = if v1 then cur_u32 c else cur_u64 c

  -- `skip_value`; `d` is how many levels are left, 5 - depth.
  unfoldable pub skip_value : ℕ → ℕ → Bool → Cursor → Cursor
  unfolding cur_u32 cur_u64 cur_take
  skip_value zero t v1 c = spoil c
  skip_value (suc d) t v1 c =
      if not (scalar_size t == 0)
      then (cur_take (scalar_size t) c).1
      else if t == vt_string
      then (let (len, c') = cur_len v1 c in advance_if (not (c'.bad || ltb (left c') len)) len c')
      else if t == vt_array
      then (let (et, c1) = cur_u32 c in
          let (n, c2) = cur_len v1 c1 in
          let esz = scalar_size et in
          elim (esz == 0) [
            | false ↦ advance_if (not (c2.bad || ltb (left c2 / esz) n)) (n * esz) c2
            | true ↦ while_good n (skip_value d et v1) c2
          ])
      else spoil c

  module _ (alloc : ℕ → Bool) where
    -- The arena's capacity for `need` bytes, or `none` without memory.
    unfoldable pub arena_for : ℕ → ℕ → Option ℕ
    arena_for cap need =
        let grown = double_to need (if cap == 0 then 65536 else cap * 2) need in
        if ltb cap need then if alloc grown then some grown else none else some cap

    -- `cur_str`: the offset in the arena plus 1, 0 for NULL.
    unfoldable pub cur_str : Bool → Reader → ℕ × Reader
    unfolding cur_u32 cur_u64 cur_take
    cur_str v1 r =
        let (len, c) = cur_len v1 r.cur in
        let used = length r.strings in
        if c.bad || ltb (left c) len
        then (0, record r { cur = spoil c })
        else elim (arena_for r.cap (used + len + 1)) [
          | none ↦ (0, record r { cur = spoil c })
          | some cap ↦ (
            used + 1,
            record {
              cur = record c { p = c.p + len };
              strings = r.strings ++ take len (drop c.p base) ++ 0 ∷ [];
              cap = cap;
            },
          )
        ]

-- `resolve`, and the string there.
unfoldable pub resolve : List ℕ → ℕ → Option (List ℕ)
resolve strings zero = none
resolve strings (suc off) = some (c_string (drop off strings))
