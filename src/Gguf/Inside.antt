-- ===== src/Gguf/Inside.antt =====
-- Every tensor that src/model/gguf.c hands out lies inside the file.
use vibevoice_c.Common.{
  ℕ, zero, suc, ◌+◌, ◌-◌, ◌*◌, ◌/◌, ◌%◌, ◌^◌, ◌≤◌, ◌≡◌, ◌∙◌, refl, sym, ap, Bool, true, false, not,
  ◌&&◌, ◌||◌, Option, none, some, List, [], ◌∷◌, ltb, ◌==◌, if◌then◌else◌, length, length-set, set,
  Status, arith, inl, inr, Bool-cases, Option-cases, All, ◌⊎◌, ◌≢◌,
}
use mathlib.Core.Path.{subst}
use mathlib.Core.Option.{some-injective}
use native.Mathlib.Nat.{mul-mod_left}
use native.Mathlib.Decide.{ℕ_discrete}
use vibevoice_c.Gguf.{Traits, k_traits, find, nbytes}
use vibevoice_c.Gguf.Sizes.{product, exact_bytes, nbytes_is_exact}
use vibevoice_c.Gguf.Cursor.{Cursor, Reader, cur_str, left, cur_take, cur_u32, cur_u64, cur_len}
use vibevoice_c.Gguf.Parse.{
  Kv, Tensor, Gguf, Opened, opened, refused, max_dim, read_dims, read_kvs, read_tensor,
  read_tensors, find_kv, alignment_key, alignment_of, place, place_all, nelements, unnamed, kv_keys,
  tensor_names, finish, read_tables, parse, open_memory,
}

-- A test that refuses when it holds, passed.
pub unless :
    (b : Bool) (s : Status) (x : Opened) (g : Gguf)
    → (if b then refused s else x) ≡ opened g
    → (b ≡ false) × (x ≡ opened g)
unless true s x g e = absurd (ground arith)
unless false s x g e = (refl, e)

-- The size of a tensor is the exact one, as a number of any size, of a tensor of a known type; or it is
-- 0, and so is the number of elements as the code computes it, modulo 2 ^ 64.
abbrev pub IsExact : ℕ → List ℕ → ℕ → Type 0
IsExact type ne nb =
    ((nb ≡ 0) × (nelements ne ≡ 0))
    ⊎ (nb ≢ 0)
      × ((tr : Traits) × (find type k_traits ≡ some tr) × (nb ≡ exact_bytes type tr (product 1 ne)))

nbytes-IsExact :
    (type : ℕ) (ne : List ℕ)
    → (nbytes type ne == 0 && not (nelements ne == 0)) ≡ false
    → IsExact type ne (nbytes type ne)
nbytes-IsExact type ne a = elim (ℕ_discrete (nbytes type ne) 0) [
  | yes z ↦ inl (z, ground (arith, a, z))
  | no k ↦ let (tr, f, m, x) = nbytes_is_exact type ne k in inr (k, (tr, f, x))
]

-- Where a tensor of a file of `size` bytes is: its data, if it has any, begins at its offset in the data
-- block, and `nbytes` bytes from there on are in the file.
abbrev pub IsInside : ℕ → ℕ → ℕ → Tensor → Type 0
IsInside size alignment data_offset t =
    (d : ℕ)
    → t.data_at ≡ some d
    → (d ≡ data_offset + t.offset)
      × (d + t.nbytes ≤ size)
      × (t.offset % alignment ≡ 0)
      × (t.nbytes ≡ nbytes t.type t.ne)
      × (length t.ne ≡ 4)
      × IsExact t.type t.ne t.nbytes

abbrev pub IsUnplaced : Tensor → Type 0
IsUnplaced t = (t.data_at ≡ none) × (length t.ne ≡ 4)

-- A test that drops the tensor when it holds, passed.
kept :
    (b : Bool) (x : Option Tensor) (u : Tensor)
    → (if b then none else x) ≡ some u
    → (b ≡ false) × (x ≡ some u)
kept true x u e = absurd (ground arith)
kept false x u e = (refl, e)

place-IsInside :
    (al off size : ℕ) (t u : Tensor)
    → IsUnplaced t
    → place al off size t ≡ some u
    → IsInside (off + size) al off u
unfolding place
place-IsInside al off size t u n e = elim (Option-cases (find t.type k_traits)) [
  | inl f ↦
      (let same : t ≡ u = some-injective t u (rw (place, f) at e) in
        subst (IsInside (off + size) al off) same
          (λ d k. let clash : none ≡ some d = sym n.0 ∙ k in absurd (ground (arith, clash))))
  | inr (tr, f) ↦
      (let nb = nbytes t.type t.ne in
        let (a, e1) = kept (nb == 0 && not (nelements t.ne == 0)) _ u (rw (place, f) at e) in
        let (b, e2) =
          kept (not (t.offset % al == 0) || ltb size t.offset || ltb (size - t.offset) nb) _ u e1 in
        let v : Tensor = record t { nbytes = nb; data_at = some (off + t.offset) } in
        let same : v ≡ u = some-injective v u e2 in
        subst (IsInside (off + size) al off) same (λ d k.
          (let here : off + t.offset ≡ d = some-injective (off + t.offset) d k in
            (
              sym here,
              ground (arith, b, here),
              ground (arith, b),
              refl,
              n.1,
              nbytes-IsExact t.type t.ne a,
            ))))
]

place_all-IsInside :
    (al off size : ℕ) (ts us : List Tensor)
    → All IsUnplaced ts
    → place_all al off size ts ≡ some us
    → All (IsInside (off + size) al off) us
unfolding place_all
place_all-IsInside al off size [] [] n e = tt
place_all-IsInside al off size [] (u ∷ us) n e = absurd (ground arith)
place_all-IsInside al off size (t ∷ ts) us n e = elim (Option-cases (place al off size t)) [
  | inl f ↦ (let clash : none ≡ some us = rw (place_all, f) at e in absurd (ground (arith, clash)))
  | inr (u, f) ↦ elim (Option-cases (place_all al off size ts)) [
    | inl g ↦
        (let clash : none ≡ some us = rw (place_all, f, g) at e in absurd (ground (arith, clash)))
    | inr (vs, g) ↦
        (let same : u ∷ vs ≡ us = some-injective (u ∷ vs) us (rw (place_all, f, g) at e) in
          subst (All (IsInside (off + size) al off)) same
            (place-IsInside al off size t u n.0 f, place_all-IsInside al off size ts vs n.1 g))
  ]
]

-- What the fields of a parsed file have to do with each other.
pub record IsLaidOut (size : ℕ) (g : Gguf) : Type 0 where
  pub inside : All (IsInside size g.alignment g.data_offset) g.tensors
  pub starts : g.data_offset ≤ size
  pub aligned : g.data_offset % g.alignment ≡ 0

refused-opened : (s : Status) (g : Gguf) → refused s ≡ opened g → ⊥
refused-opened s g e = ground arith

abbrev content : Gguf → Opened → Gguf
content d (opened g) = g
content d (refused s) = d

pub opened-injective : (a b : Gguf) → opened a ≡ opened b → a ≡ b
opened-injective a b e = ap (content a) e

pub finish-IsLaidOut :
    (size version pos : ℕ) (kvs : List Kv) (ts : List Tensor) (strings : List ℕ) (g : Gguf)
    → All IsUnplaced ts
    → finish size version pos kvs ts strings ≡ opened g
    → IsLaidOut size g × (g.kvs ≡ kvs) × (g.version ≡ version) × (g.strings ≡ strings)
unfolding finish
finish-IsLaidOut size version pos kvs ts strings g n e =
    (let (a, e1) = unless (unnamed (kv_keys kvs) || unnamed (tensor_names ts)) _ _ g e in
      elim (Option-cases (alignment_of (find_kv strings alignment_key kvs))) [
        | inl f ↦
            (let clash : refused Status.parse ≡ opened g = rw f at e1 in
              absurd (ground (arith, clash)))
        | inr (al, f) ↦
            (let off = (pos + al - 1) / al * al in
              let (b, e2) = unless (ltb size off) _ _ g (rw f at e1) in
              elim (Option-cases (place_all al off (size - off) ts)) [
                | inl h ↦
                    (let clash : refused Status.parse ≡ opened g = rw h at e2 in
                      absurd (ground (arith, clash)))
                | inr (us, h) ↦
                    (let w : Gguf = record {
                      version = version;
                      alignment = al;
                      data_offset = off;
                      kvs = kvs;
                      tensors = us;
                      strings = strings;
                    } in
                      let same : w ≡ g = opened-injective w g (rw h at e2) in
                      let whole : off + (size - off) ≡ size = ground (arith, b) in
                      subst
                        (λ (x : Gguf).
                          IsLaidOut size x
                          × (x.kvs ≡ kvs)
                          × (x.version ≡ version)
                          × (x.strings ≡ strings))
                        same
                        (
                          record {
                            inside =
                                subst (λ (m : ℕ). All (IsInside m al off) us) whole
                                  (place_all-IsInside al off (size - off) ts us n h);
                            starts = ground (arith, b);
                            aligned = mul-mod_left ((pos + al - 1) / al) al;
                          },
                          refl,
                          refl,
                          refl,
                        ))
              ])
      ])

module _ (base : List ℕ) (v1 : Bool) (alloc : ℕ → Bool) where
  abbrev Unplaced : Option Tensor → Type 0
  Unplaced none = Unit {0}
  Unplaced (some t) = IsUnplaced t

  length-read_dims :
      (n d : ℕ) (ne : List ℕ) (c : Cursor) → length (read_dims base v1 alloc n d ne c).0 ≡ length ne
  unfolding read_dims
  length-read_dims zero d ne c = refl
  length-read_dims (suc n) d ne c =
      (let x = (cur_len base v1 c).0 in
        let c' = (cur_len base v1 c).1 in
        elim (Bool-cases (ltb max_dim x)) [
          | inl e ↦ rw (read_dims, e) refl
          | inr e ↦
              rw (read_dims, e) (length-read_dims n (d + 1) (set ne d x) c' ∙ length-set ne d x)
        ])

  read_tensor-Unplaced : (r : Reader) → Unplaced (read_tensor base v1 alloc r).0
  unfolding read_tensor cur_u32 cur_u64 cur_take
  read_tensor-Unplaced r =
      (let c = (cur_u32 base (cur_str base alloc v1 r).1.cur).1 in
        let nd = (cur_u32 base (cur_str base alloc v1 r).1.cur).0 in
        elim (Bool-cases (c.bad || ltb nd 1 || ltb 4 nd)) [
          | inl e ↦ rw e tt
          | inr e ↦ rw e (refl, length-read_dims nd 0 (1 ∷ 1 ∷ 1 ∷ 1 ∷ []) c)
        ])

  read_tensors-Unplaced : (n : ℕ) (r : Reader) → All IsUnplaced (read_tensors base v1 alloc n r).0
  unfolding read_tensors
  read_tensors-Unplaced zero r = tt
  read_tensors-Unplaced (suc k) r = elim (Bool-cases r.cur.bad) [
    | inl e ↦ rw (read_tensors, e) tt
    | inr e ↦ elim (Option-cases (read_tensor base v1 alloc r).0) [
      | inl n ↦ rw (read_tensors, e, n) tt
      | inr (t, n) ↦
          rw (read_tensors, e, n)
            (
              subst Unplaced n (read_tensor-Unplaced r),
              read_tensors-Unplaced k (read_tensor base v1 alloc r).1,
            )
    ]
  ]

-- What the tables give, when the file is accepted.
pub read_tables-finish :
    (alloc : ℕ → Bool) (base : List ℕ) (version n_kv n_tensors : ℕ) (c : Cursor) (g : Gguf)
    → read_tables alloc base version n_kv n_tensors c ≡ opened g
    → ((read_kvs base
          (version == 1)
          alloc
          n_kv
          (record { cur = c; strings = []; cap = 0 })).1.cur.bad
        ≡ false)
      × IsLaidOut (length base) g
      × (g.kvs
          ≡ (read_kvs base (version == 1) alloc n_kv (record { cur = c; strings = []; cap = 0 })).0)
      × (g.version ≡ version)
unfolding read_tables
read_tables-finish alloc base version n_kv n_tensors c g e =
    (let r =
        (read_kvs base (version == 1) alloc n_kv (record { cur = c; strings = []; cap = 0 })).1 in
      let kvs =
        (read_kvs base (version == 1) alloc n_kv (record { cur = c; strings = []; cap = 0 })).0 in
      let r' = (read_tensors base (version == 1) alloc n_tensors r).1 in
      let ts = (read_tensors base (version == 1) alloc n_tensors r).0 in
      elim (Bool-cases r.cur.bad) [
        | inl a ↦ absurd (refused-opened Status.parse g (rw (read_tables, a) at e))
        | inr a ↦ elim (Bool-cases r'.cur.bad) [
          | inl b ↦ absurd (refused-opened Status.parse g (rw (read_tables, a, b) at e))
          | inr b ↦
              (let f =
                  finish-IsLaidOut (length base) version r'.cur.p kvs ts r'.strings g
                    (read_tensors-Unplaced base (version == 1) alloc n_tensors r)
                    (rw (read_tables, a, b) at e) in
                (a, f.0, f.1, f.2))
        ]
      ])

-- The tables of a file that is accepted: where they begin and how many entries there are.
pub open_memory-tables :
    (alloc : ℕ → Bool) (base : List ℕ) (g : Gguf)
    → open_memory alloc base ≡ opened g
    → (version n_kv n_tensors : ℕ) × ((c : Cursor) × (read_tables alloc base version n_kv n_tensors
            c
          ≡ opened g))
unfolding open_memory parse cur_u32 cur_u64 cur_take
open_memory-tables alloc base g e =
    (let c0 = (cur_u32 base (record { p = 0; bad = false })).1 in
      let magic = (cur_u32 base (record { p = 0; bad = false })).0 in
      let c1 = (cur_u32 base c0).1 in
      let version = (cur_u32 base c0).0 in
      let v1 = version == 1 in
      let n_tensors = (cur_len base v1 c1).0 in
      let c2 = (cur_len base v1 c1).1 in
      let n_kv = (cur_len base v1 c2).0 in
      let c3 = (cur_len base v1 c2).1 in
      elim (Bool-cases (alloc 96)) [
        | inr a ↦ absurd (refused-opened Status.out_of_memory g (rw (open_memory, a) at e))
        | inl a ↦
            (let (x1, e1) =
                unless (c0.bad || not (magic == 0x46554747)) _ _ g (rw (open_memory, a) at e) in
              let (x2, e2) = unless (ltb version 1 || ltb 3 version) _ _ g e1 in
              let (x3, e3) = unless c3.bad _ _ g e2 in
              let left = left base c3 in
              let count = λ (n : ℕ). if n == 0 then 1 else n in
              elim (Bool-cases
                (ltb (left / 12) n_kv || ltb (left / 28) n_tensors || ltb (2 ^ 20) n_tensors)) [
                  | inl b ↦ absurd (refused-opened Status.parse g (rw b at e3))
                  | inr b ↦
                      elim (Bool-cases (alloc (48 * count n_kv) && alloc (80 * count n_tensors))) [
                        | inr d ↦ absurd (refused-opened Status.out_of_memory g (rw (b, d) at e3))
                        | inl d ↦ (version, n_kv, n_tensors, (c3, rw (b, d) at e3))
                      ]
                ])
      ])

-- A file that is accepted: each tensor with data has it at its offset in the data block, aligned, with
-- all bytes of its size inside the file. That size is not 0 and the exact size of its type and shape,
-- nothing wrapped around; or it is 0 and the number of elements, which is computed modulo 2 ^ 64, is 0
-- too. The data block begins inside the file, aligned.
pub open_memory-IsLaidOut :
    (alloc : ℕ → Bool) (base : List ℕ) (g : Gguf)
    → open_memory alloc base ≡ opened g
    → IsLaidOut (length base) g
open_memory-IsLaidOut alloc base g e =
    (let (version, n_kv, n_tensors, (c, t)) = open_memory-tables alloc base g e in
      (read_tables-finish alloc base version n_kv n_tensors c g t).1)
