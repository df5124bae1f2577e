-- ===== src/Gguf/Sizes.antt =====
-- The arithmetic of `vv_ggml_nbytes` in src/model/gguf.c does not wrap around unnoticed.
use vibevoice_c.Common.{
  ℕ, zero, suc, ◌+◌, ◌*◌, ◌/◌, ◌%◌, ◌^◌, ◌≤◌, ◌≡◌, ◌≢◌, ◌∙◌, ap, refl, sym, false, not, ◌&&◌, ◌||◌,
  none, some, List, [], ◌∷◌, ltb, ◌==◌, if◌then◌else◌, get_or, arith, inl, inr, Bool-cases,
  Option-cases, All, if_true, if_false,
}
use mathlib.Core.Path.{subst}
use mathlib.Core.Option.{some-injective}
use native.Mathlib.Nat.{div-mul-le_self}
use vibevoice_c.Gguf.{Traits, k_traits, find, any_negative, elements, bytes_of, nbytes, i2_s, i8_s}

none-some : {A : Type 0} {a : A} → none ≡ some a → ⊥
none-some e = ground arith

-- The product of the dimensions, of any size.
unfoldable pub product : ℕ → List ℕ → ℕ
product n [] = n
product n (x ∷ xs) = product (n * x) xs

-- The guard keeps the next product small.
mul-bound : (n x : ℕ) → (not (x == 0) && ltb (2 ^ 62 / x) n) ≡ false → n * x ≤ 2 ^ 62
mul-bound n zero h = omega arith
mul-bound n (suc x) h =
    (let k : n ≤ 2 ^ 62 / suc x = ground arith in
      let d : 2 ^ 62 / suc x * suc x ≤ 2 ^ 62 = div-mul-le_self (2 ^ 62) (suc x) in grind arith)

elements-product :
    (n : ℕ) (ne : List ℕ) (m : ℕ)
    → n ≤ 2 ^ 62
    → elements n ne ≡ some m
    → (m ≡ product n ne) × (m ≤ 2 ^ 62)
unfolding elements product
elements-product n [] m h e = ground arith
elements-product n (x ∷ xs) m h e = elim (Bool-cases (not (x == 0) && ltb (2 ^ 62 / x) n)) [
  | inl t ↦ absurd (none-some (sym (if_true _ _ t) ∙ e))
  | inr f ↦
      (let b = mul-bound n x f in
        let same : n * x % 2 ^ 64 ≡ n * x = omega (arith, b) in
        let rest : elements (n * x % 2 ^ 64) xs ≡ some m = sym (if_false _ _ f) ∙ e in
        elements-product (n * x) xs m b (ap (λ (k : ℕ). elements k xs) (sym same) ∙ rest))
]

-- No type has more than four bytes for an element.
abbrev IsSmall : Traits → Type 0
IsSmall t = t.size ≤ 4 * t.blck

k_traits-IsSmall : All IsSmall k_traits
k_traits-IsSmall = ground arith

find-All :
    (P : Traits → Type 0) (type : ℕ) (ts : List Traits) (t : Traits)
    → All P ts
    → find type ts ≡ some t
    → P t
unfolding find
find-All P type [] t a e = absurd (none-some e)
find-All P type (u ∷ us) t a e = elim (Bool-cases (u.code == type)) [
  | inl h ↦ subst P (some-injective u t (sym (if_true _ _ h) ∙ e)) a.0
  | inr h ↦ find-All P type us t a.1 (sym (if_false _ _ h) ∙ e)
]

-- The size of a tensor with `n` elements, as a number of any size.
abbrev pub exact_bytes : ℕ → Traits → ℕ → ℕ
exact_bytes type t n =
    if type == i2_s then n / 4 + 32 else if type == i8_s then n + 32 else n / t.blck * t.size

mul-monotone : (a b c : ℕ) → b ≤ c → a * b ≤ a * c
mul-monotone a b c h = grind arith

blocks-bound : (t : Traits) (n : ℕ) → IsSmall t → n ≤ 2 ^ 62 → n / t.blck * t.size ≤ 2 ^ 64
blocks-bound t n s h =
    (let d : n / t.blck * t.blck ≤ n = div-mul-le_self n t.blck in
      let q : n / t.blck * t.size ≤ n / t.blck * (4 * t.blck) =
        mul-monotone (n / t.blck) t.size (4 * t.blck) s in
      let r : n / t.blck * (4 * t.blck) ≡ 4 * (n / t.blck * t.blck) = grind arith in
      omega (arith, d, q, r))

bytes_of-exact :
    (type : ℕ) (t : Traits) (n : ℕ)
    → IsSmall t
    → n ≤ 2 ^ 62
    → bytes_of type t n ≢ 0
    → bytes_of type t n ≡ exact_bytes type t n
unfolding bytes_of
bytes_of-exact type t n s h k =
    (let b = blocks-bound t n s h in
      elim (Bool-cases (type == i2_s)) [
        | inl two ↦ elim (Bool-cases (not (n % 4 == 0))) [
          | inl odd ↦ absurd (k (rw (two, odd) refl))
          | inr even ↦ rw (two, even) (omega arith)
        ]
        | inr other ↦ elim (Bool-cases (type == i8_s)) [
          | inl eight ↦ rw (other, eight) (omega arith)
          | inr plain ↦
              (let e : bytes_of type t n ≡ n / t.blck * t.size % 2 ^ 64 = rw (other, plain) refl in
                e ∙ rw (other, plain) (omega (arith, b, k, e)))
        ]
      ])

-- A size that is not 0 is the exact size of a tensor of a known type whose rows are whole blocks:
-- nothing has wrapped around.
pub nbytes_is_exact :
    (type : ℕ) (ne : List ℕ)
    → nbytes type ne ≢ 0
    → (t : Traits) × (find type k_traits ≡ some t)
      × (get_or ne 0 0 % t.blck ≡ 0)
      × (nbytes type ne ≡ exact_bytes type t (product 1 ne))
unfolding nbytes product
nbytes_is_exact type ne k = elim (Option-cases (find type k_traits)) [
  | inl e ↦ absurd (k (rw (nbytes, e) refl))
  | inr (t, e) ↦ elim (Bool-cases (any_negative ne || not (get_or ne 0 0 % t.blck == 0))) [
    | inl bad ↦ absurd (k (rw (nbytes, e, bad) refl))
    | inr good ↦ elim (Option-cases (elements 1 ne)) [
      | inl o ↦ absurd (k (rw (nbytes, e, good, o) refl))
      | inr (n, o) ↦
          (let size : nbytes type ne ≡ bytes_of type t n = rw (nbytes, e, good, o) refl in
            let p = elements-product 1 ne n (omega arith) o in
            let x =
              bytes_of-exact type t n (find-All IsSmall type k_traits t k_traits-IsSmall e) p.1
                (λ z. k (size ∙ z)) in
            (t, e, ground arith, size ∙ x ∙ ap (exact_bytes type t) p.0))
    ]
  ]
]

-- A size that is not 0 is of a tensor of few elements.
pub nbytes-product : (type : ℕ) (ne : List ℕ) → nbytes type ne ≢ 0 → product 1 ne ≤ 2 ^ 62
unfolding nbytes product
nbytes-product type ne k = elim (Option-cases (find type k_traits)) [
  | inl e ↦ absurd (k (rw (nbytes, e) refl))
  | inr (t, e) ↦ elim (Bool-cases (any_negative ne || not (get_or ne 0 0 % t.blck == 0))) [
    | inl bad ↦ absurd (k (rw (nbytes, e, bad) refl))
    | inr good ↦ elim (Option-cases (elements 1 ne)) [
      | inl o ↦ absurd (k (rw (nbytes, e, good, o) refl))
      | inr (n, o) ↦ (let p = elements-product 1 ne n (omega arith) o in omega (arith, p.0, p.1))
    ]
  ]
]
