-- ===== src/Gguf/Arrays.antt =====
-- The strings of an array of src/model/gguf.c were checked when the file was parsed.
use vibevoice_c.Common.{
  ℕ, zero, suc, ◌+◌, ◌<◌, ◌≤◌, ◌≡◌, refl, Bool, true, false, not, ◌||◌, some, List, [], ltb, leb,
  ◌==◌, get_elem?, take, drop, length, arith, inl, inr, Bool-cases, All, little_endian,
  All-get_elem?,
}
use mathlib.Core.Path.{subst}
use vibevoice_c.Gguf.Cursor.{
  Cursor, Reader, vt_string, vt_array, scalar_size, while_good, left, cur_take, cur_u32, cur_u64,
  skip_value, cur_str,
}
use vibevoice_c.Gguf.Parse.{Kv, Gguf, opened, read_array, read_kv, read_kvs, open_memory}
use vibevoice_c.Gguf.Access.{found, bytes_at, arr_walk, arr_str}
use vibevoice_c.Gguf.Inside.{open_memory-tables, read_tables-finish}

module _ (base : List ℕ) where
  abbrev pub len_at : ℕ → ℕ
  len_at p = little_endian (take 8 (drop p base))

  -- `n` strings with their lengths, one behind the other from `p` on, inside the file.
  abbrev pub HasStrings : ℕ → ℕ → Type 0
  HasStrings zero p = Unit {0}
  HasStrings (suc n) p =
      (p + 8 ≤ length base) × (p + 8 + len_at p ≤ length base) × HasStrings n (p + 8 + len_at p)

  -- A string that was skipped.
  skip_string :
      (d : ℕ) (c : Cursor)
      → (skip_value base (suc d) vt_string false c).bad ≡ false
      → (c.bad ≡ false)
        × (c.p + 8 ≤ length base)
        × (c.p + 8 + len_at c.p ≤ length base)
        × ((skip_value base (suc d) vt_string false c).p ≡ c.p + 8 + len_at c.p)
  unfolding skip_value scalar_size cur_u64 cur_take
  skip_string d c e = elim (Bool-cases (c.bad || ltb (left base c) 8)) [
    | inl a ↦
        (let clash : true ≡ false = rw (cur_u64, cur_take, a) at e in
          absurd (ground (arith, clash)))
    | inr a ↦
        (let c' : Cursor = record c { p = c.p + 8 } in
          elim (Bool-cases (c.bad || ltb (left base c') (len_at c.p))) [
            | inl b ↦
                (let clash : true ≡ false = rw (cur_u64, cur_take, a, b) at e in
                  absurd (ground (arith, clash)))
            | inr b ↦ (
              ground (arith, a),
              ground (arith, a),
              ground (arith, a, b),
              rw (cur_u64, cur_take, a, b) refl,
            )
          ])
  ]

  while_good-start :
      (n : ℕ) (body : Cursor → Cursor) (c : Cursor)
      → (while_good n body c).bad ≡ false
      → c.bad ≡ false
  unfolding while_good
  while_good-start zero body c e = e
  while_good-start (suc n) body c e = elim (Bool-cases c.bad) [
    | inl a ↦
        (let same : c.bad ≡ false = rw (while_good, a) at e in absurd (ground (arith, a, same)))
    | inr a ↦ a
  ]

  -- All the strings of an array that were skipped.
  skip_strings :
      (n d : ℕ) (c : Cursor)
      → (while_good n (skip_value base (suc d) vt_string false) c).bad ≡ false
      → HasStrings n c.p
  unfolding while_good
  skip_strings zero d c e = tt
  skip_strings (suc n) d c e =
      (let body = skip_value base (suc d) vt_string false in
        let start = while_good-start (suc n) body c e in
        let rest : (while_good n body (body c)).bad ≡ false = rw (while_good, start) at e in
        let (a, b, k, m) = skip_string d c (while_good-start n body (body c) rest) in
        (b, k, subst (HasStrings n) m (skip_strings n d (body c) rest)))

  -- The walk of `vv_gguf_arr_str` stays inside.
  arr_walk-HasStrings :
      (n i p : ℕ)
      → HasStrings n p
      → i < n
      → (q len : ℕ) × ((arr_walk base i p ≡ found q len) × (q + len ≤ length base))
  unfolding arr_walk bytes_at
  arr_walk-HasStrings zero i p h l = absurd (omega arith)
  arr_walk-HasStrings (suc n) zero p h l =
      let there : ltb (length base) (p + 8) ≡ false = ground (arith, h.0) in
      (p + 8, len_at p, (rw (arr_walk, bytes_at, there) refl, h.1))
  arr_walk-HasStrings (suc n) (suc i) p h l =
      (let there : ltb (length base) (p + 8) ≡ false = ground (arith, h.0) in
        let near : p + (8 + len_at p) ≡ p + 8 + len_at p = omega arith in
        rw (arr_walk, bytes_at, there, near)
          (arr_walk-HasStrings n i (p + 8 + len_at p) h.2 (omega arith)))

  -- The strings of an entry, if it is an array of them.
  abbrev pub StringsOf : Kv → Type 0
  StringsOf kv = kv.type ≡ vt_array → kv.arr_type ≡ vt_string → HasStrings kv.arr_n kv.arr_data

  module _ (alloc : ℕ → Bool) where
    read_array-StringsOf :
        (key : ℕ) (r : Reader)
        → (read_array base false key r).1.cur.bad ≡ false
        → StringsOf (read_array base false key r).0
    unfolding read_array scalar_size
    read_array-StringsOf key r e a b =
        (let t = (cur_u32 base r.cur).0 in
          let c1 = (cur_u32 base r.cur).1 in
          let n = (cur_u64 base c1).0 in
          let c2 = (cur_u64 base c1).1 in
          let esz : scalar_size t == 0 ≡ true = rw b refl in
          let all : (while_good n (skip_value base 4 t false) c2).bad ≡ false =
            rw (read_array, esz) at e in
          skip_strings n 3 c2
            (subst (λ (u : ℕ). (while_good n (skip_value base 4 u false) c2).bad ≡ false) b all))

    read_kv-StringsOf :
        (r : Reader)
        → (read_kv base false alloc r).1.cur.bad ≡ false
        → StringsOf (read_kv base false alloc r).0
    unfolding read_kv
    read_kv-StringsOf r e =
        (let key = (cur_str base alloc false r).0 in
          let r1 = (cur_str base alloc false r).1 in
          let t = (cur_u32 base r1.cur).0 in
          let c = (cur_u32 base r1.cur).1 in
          let r2 : Reader = record r1 { cur = c } in
          elim (Bool-cases c.bad) [
            | inl a ↦
                (let clash : c.bad ≡ false = rw (read_kv, a) at e in
                  absurd (ground (arith, a, clash)))
            | inr a ↦ elim (Bool-cases (t == vt_string)) [
              | inl b ↦ rw (read_kv, a, b) (λ h k. absurd (ground (arith, b, h)))
              | inr b ↦ elim (Bool-cases (t == vt_array)) [
                | inl d ↦
                    rw (read_kv, a, b, d) (read_array-StringsOf key r2 (rw (read_kv, a, b, d) at e))
                | inr d ↦ elim (Bool-cases (not (scalar_size t == 0))) [
                  | inl f ↦ rw (read_kv, a, b, d, f) (λ h k. absurd (ground (arith, d, h)))
                  | inr f ↦ rw (read_kv, a, b, d, f) (λ h k. absurd (ground (arith, d, h)))
                ]
              ]
            ]
          ])

    read_kvs-start :
        (n : ℕ) (r : Reader) → (read_kvs base false alloc n r).1.cur.bad ≡ false → r.cur.bad ≡ false
    unfolding read_kvs
    read_kvs-start zero r e = e
    read_kvs-start (suc n) r e = elim (Bool-cases r.cur.bad) [
      | inl a ↦
          (let clash : r.cur.bad ≡ false = rw (read_kvs, a) at e in
            absurd (ground (arith, a, clash)))
      | inr a ↦ a
    ]

    read_kvs-StringsOf :
        (n : ℕ) (r : Reader)
        → (read_kvs base false alloc n r).1.cur.bad ≡ false
        → All StringsOf (read_kvs base false alloc n r).0
    unfolding read_kvs
    read_kvs-StringsOf zero r e = tt
    read_kvs-StringsOf (suc n) r e =
        (let start = read_kvs-start (suc n) r e in
          let r' = (read_kv base false alloc r).1 in
          let rest : (read_kvs base false alloc n r').1.cur.bad ≡ false =
            rw (read_kvs, start) at e in
          rw (read_kvs, start)
            (read_kv-StringsOf r (read_kvs-start n r' rest), read_kvs-StringsOf n r' rest))

-- A string of an array of strings, at an index below the array's length, is found inside the file, and
-- every length on the way is read inside it: in a file that was accepted, of version 2 or 3.
pub arr_str-open_memory :
    (alloc : ℕ → Bool) (base : List ℕ) (g : Gguf) (i : ℕ) (kv : Kv) (idx : ℕ)
    → open_memory alloc base ≡ opened g
    → 1 < g.version
    → get_elem? g.kvs i ≡ some kv
    → kv.type ≡ vt_array
    → kv.arr_type ≡ vt_string
    → idx < kv.arr_n
    → (q len : ℕ) × ((arr_str base kv idx ≡ found q len) × (q + len ≤ length base))
unfolding arr_str
arr_str-open_memory alloc base g i kv idx e v at_i a b l =
    (let (version, n_kv, n_tensors, (c, t)) = open_memory-tables alloc base g e in
      let (good, laid, kvs, vs) = read_tables-finish alloc base version n_kv n_tensors c g t in
      let r : Reader = record { cur = c; strings = []; cap = 0 } in
      let new : version == 1 ≡ false = ground (arith, vs, v) in
      let good' : (read_kvs base false alloc n_kv r).1.cur.bad ≡ false =
        subst (λ (b : Bool). (read_kvs base b alloc n_kv r).1.cur.bad ≡ false) new good in
      let same : g.kvs ≡ (read_kvs base false alloc n_kv r).0 =
        subst (λ (b : Bool). g.kvs ≡ (read_kvs base b alloc n_kv r).0) new kvs in
      let all : All (StringsOf base) g.kvs = rw same (read_kvs-StringsOf base alloc n_kv r good') in
      let strings = All-get_elem? (StringsOf base) g.kvs i all at_i a b in
      let reads : not (kv.type == vt_array) || not (kv.arr_type == vt_string) || leb kv.arr_n idx
          ≡ false =
        ground (arith, a, b, l) in
      rw reads (arr_walk-HasStrings base kv.arr_n idx kv.arr_data strings l))
