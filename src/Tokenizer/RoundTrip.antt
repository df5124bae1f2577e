-- ===== src/Tokenizer/RoundTrip.antt =====
-- `utf8_get` of src/text_tokenizer/bpe.c reads back what `utf8_put` wrote.
use vibevoice_c.Common.{
  ℕ, suc, ◌+◌, ◌*◌, ◌/◌, ◌%◌, ◌^◌, ◌<◌, ◌≤◌, ◌≡◌, ◌∙◌, refl, ap, true, false, List, [], ◌∷◌, ◌++◌,
  ltb, leb, length, arith, bit_or_below, inl, inr, Bool-cases,
}
use Prim.Native.Nat.{bit_or}
use vibevoice_c.Tokenizer.Utf8.{utf8_put, utf8_get}
use vibevoice_c.Tokenizer.Alphabet.{six, two, three, four}

put_1 : (cp : ℕ) → cp < 0x80 → utf8_put cp ≡ cp ∷ []
unfolding utf8_put
put_1 cp h =
    let e : cp % 256 ≡ cp = omega arith in
    elim (Bool-cases (ltb cp 0x80)) [ inl t ↦ rw (t, e) refl | inr f ↦ absurd (ground arith) ]

put_2 : (cp : ℕ) → 0x80 ≤ cp → cp < 0x800 → utf8_put cp ≡ (0xC0 + cp / 64) ∷ (0x80 + cp % 64) ∷ []
unfolding utf8_put
put_2 cp h k =
    (let a = two (cp / 64) (omega arith) in
      let t : ltb cp 0x80 ≡ false = ground arith in
      let u : ltb cp 0x800 ≡ true = ground arith in rw (t, u, a.0, (six cp).0) refl)

put_3 :
    (cp : ℕ)
    → 0x800 ≤ cp
    → cp < 0x10000
    → utf8_put cp ≡ (0xE0 + cp / 4096) ∷ (0x80 + cp / 64 % 64) ∷ (0x80 + cp % 64) ∷ []
unfolding utf8_put
put_3 cp h k =
    (let a = three (cp / 4096) (omega arith) in
      let t : ltb cp 0x80 ≡ false = ground arith in
      let u : ltb cp 0x800 ≡ false = ground arith in
      let v : ltb cp 0x10000 ≡ true = ground arith in
      rw (t, u, v, a.0, (six (cp / 64)).0, (six cp).0) refl)

put_4 :
    (cp : ℕ)
    → 0x10000 ≤ cp
    → cp < 2 ^ 21
    → utf8_put cp
      ≡ (0xF0 + cp / 2 ^ 18)
        ∷ (0x80 + cp / 4096 % 64)
        ∷ (0x80 + cp / 64 % 64)
        ∷ (0x80 + cp % 64)
        ∷ []
unfolding utf8_put
put_4 cp h k =
    (let a = four (cp / 2 ^ 18) (omega arith) in
      let t : ltb cp 0x80 ≡ false = ground arith in
      let u : ltb cp 0x800 ≡ false = ground arith in
      let v : ltb cp 0x10000 ≡ false = ground arith in
      rw (t, u, v, a.0, (six (cp / 4096)).0, (six (cp / 64)).0, (six cp).0) refl)

-- Sixes side by side.
join_2 : (x y : ℕ) → y < 64 → bit_or (x * 4096) (y * 64) ≡ (x * 64 + y) * 64
join_2 x y h = omega (arith, bit_or_below 12 x (y * 64) (omega arith))

pub join_3 :
    (x y z : ℕ) → y < 64 → z < 64 → bit_or (bit_or (x * 4096) (y * 64)) z ≡ (x * 64 + y) * 64 + z
join_3 x y z h k = rw (join_2 x y h) (bit_or_below 6 (x * 64 + y) z k)

join_4 :
    (x y z w : ℕ)
    → y < 64
    → z < 64
    → w < 64
    → bit_or (bit_or (bit_or (x * 2 ^ 18) (y * 4096)) (z * 64)) w ≡ ((x * 64 + y) * 64 + z) * 64 + w
join_4 x y z w h k m =
    (let front : bit_or (x * 2 ^ 18) (y * 4096) ≡ (x * 64 + y) * 4096 =
        omega (arith, bit_or_below 18 x (y * 4096) (omega arith)) in
      rw front (join_3 (x * 64 + y) z w k m))

get_1 : (cp : ℕ) (rest : List ℕ) → cp < 0x80 → utf8_get (cp ∷ rest) ≡ (1, cp)
unfolding utf8_get
get_1 cp rest h = let t : ltb cp 0x80 ≡ true = ground arith in rw t refl

get_2 :
    (x y : ℕ) (rest : List ℕ)
    → x < 32
    → utf8_get ((0xC0 + x) ∷ (0x80 + y % 64) ∷ rest) ≡ (2, x * 64 + y % 64)
unfolding utf8_get
get_2 x y rest h =
    (let a = two x h in
      let t : ltb (0xC0 + x) 0x80 ≡ false = ground arith in
      let n : leb 2 (suc (suc (length rest))) ≡ true = ground arith in
      rw (t, a.2, n, a.1, (six y).1, bit_or_below 6 x (y % 64) (omega arith)) refl)

get_3 :
    (x y z : ℕ) (rest : List ℕ)
    → x < 16
    → utf8_get ((0xE0 + x) ∷ (0x80 + y % 64) ∷ (0x80 + z % 64) ∷ rest)
      ≡ (3, (x * 64 + y % 64) * 64 + z % 64)
unfolding utf8_get
get_3 x y z rest h =
    (let a = three x h in
      let t : ltb (0xE0 + x) 0x80 ≡ false = ground arith in
      let n : leb 3 (suc (suc (suc (length rest)))) ≡ true = ground arith in
      rw (t, a.3, a.2, n, a.1, (six y).1, (six z).1)
        (ap (λ (n : ℕ). (3, n)) (join_3 x (y % 64) (z % 64) (omega arith) (omega arith))))

get_4 :
    (x y z w : ℕ) (rest : List ℕ)
    → x < 8
    → utf8_get ((0xF0 + x) ∷ (0x80 + y % 64) ∷ (0x80 + z % 64) ∷ (0x80 + w % 64) ∷ rest)
      ≡ (4, ((x * 64 + y % 64) * 64 + z % 64) * 64 + w % 64)
unfolding utf8_get
get_4 x y z w rest h =
    (let a = four x h in
      let t : ltb (0xF0 + x) 0x80 ≡ false = ground arith in
      let n : leb 4 (suc (suc (suc (suc (length rest))))) ≡ true = ground arith in
      rw (t, a.3, a.4, a.2, n, a.1, (six y).1, (six z).1, (six w).1)
        (ap (λ (n : ℕ). (4, n))
          (join_4 x (y % 64) (z % 64) (w % 64) (omega arith) (omega arith) (omega arith))))

-- What was written is read back, with the number of its bytes, whatever follows.
pub utf8_get-utf8_put :
    (cp : ℕ) (rest : List ℕ)
    → cp < 2 ^ 21
    → utf8_get (utf8_put cp ++ rest) ≡ (length (utf8_put cp), cp)
utf8_get-utf8_put cp rest h = elim (Bool-cases (ltb cp 0x80)) [
  | inl t ↦ rw (put_1 cp (ground arith)) (get_1 cp rest (ground arith))
  | inr t ↦ elim (Bool-cases (ltb cp 0x800)) [
    | inl u ↦
        rw (put_2 cp (ground arith) (ground arith))
          (get_2 (cp / 64) cp rest (ground arith) ∙ ap (λ (n : ℕ). (2, n)) (omega arith))
    | inr u ↦ elim (Bool-cases (ltb cp 0x10000)) [
      | inl v ↦ rw (put_3 cp (ground arith) (ground arith)) (
          get_3 (cp / 4096) (cp / 64) cp rest (ground arith) ∙ ap (λ (n : ℕ). (3, n)) (omega arith))
      | inr v ↦ rw (put_4 cp (ground arith) (ground arith)) (
          get_4 (cp / 2 ^ 18) (cp / 4096) (cp / 64) cp rest (omega arith)
          ∙ ap (λ (n : ℕ). (4, n)) (omega arith))
    ]
  ]
]
