-- ===== src/Tokenizer/Clean.antt =====
-- Tokens of src/text_tokenizer/bpe.c that decoding does not make longer.
use vibevoice_c.Common.{
  all_below, all_below_sound, bit_and_ones, bit_or_below, ℕ, zero, suc, ◌*◌, ◌^◌, ◌<◌, ◌≤◌, ◌≡◌,
  refl, Bool, true, false, ◌&&◌, ◌||◌, none, some, List, ltb, leb, ◌==◌, if◌then◌else◌, get_or,
  drop, length, arith, inl, inr, Bool-cases, Option-cases, length-append, length-drop,
}
use Prim.Native.Nat.{bit_and, bit_or}
use vibevoice_c.Tokenizer.Utf8.{utf8_get, utf8_put, cp_to_byte, printable, tables, build}
use vibevoice_c.Tokenizer.RoundTrip.{join_3}
use vibevoice_c.Tokenizer.Tiles.{length-utf8_put}
use vibevoice_c.Tokenizer.Pieces.{utf8_get_bounds}
use vibevoice_c.Tokenizer.Codec.{decode_chars}

-- A character that stands for itself when it is written again: it is not a stray byte, which
-- `utf8_get` takes for a code point from 0x80 on, unless that is in the alphabet.
abbrev pub is_whole : List ℕ → Bool
is_whole s = ltb 1 (utf8_get s).0 || ltb (get_or s 0 0) 0x80 || printable (get_or s 0 0)

unfoldable pub is_clean : ℕ → List ℕ → Bool
is_clean zero s = true
is_clean (suc f) s =
    let rest = is_clean f (drop (utf8_get s).0 s) in
    if length s == 0 then true else is_whole s && rest

abbrev kept : ℕ → Bool
kept b = if printable b then (elim (cp_to_byte b) [ none ↦ false | some c ↦ true ]) else true

kept_table : all_below 256 kept ≡ true
unfolding all_below cp_to_byte tables build
kept_table = refl

abbrev written : ℕ → ℕ
written cp = elim (cp_to_byte cp) [ none ↦ length (utf8_put cp) | some b ↦ 1 ]

written_bound : (cp a : ℕ) → 1 ≤ a → length (utf8_put cp) ≤ a → written cp ≤ a
written_bound cp a h k = elim (Option-cases (cp_to_byte cp)) [
  | inl e ↦ rw (written, e) k
  | inr (b, e) ↦ rw (written, e) h
]

put_short : (cp : ℕ) → cp < 0x80 → length (utf8_put cp) ≤ 1
unfolding utf8_put
put_short cp h = ground arith

put_two : (cp : ℕ) → cp < 0x800 → length (utf8_put cp) ≤ 2
unfolding utf8_put
put_two cp h = ground arith

put_three : (cp : ℕ) → cp < 0x10000 → length (utf8_put cp) ≤ 3
unfolding utf8_put
put_three cp h = ground arith

written-printable : (c : ℕ) → printable c ≡ true → written c ≤ 1
written-printable c h =
    (let small : c < 256 = ground arith in
      let k = all_below_sound 256 kept c kept_table small in
      elim (Option-cases (cp_to_byte c)) [
        | inl e ↦ absurd (ground (arith, e, k))
        | inr (b, e) ↦ rw (written, e) (omega arith)
      ])

read_two : (x y : ℕ) → bit_or (bit_and x 0x1F * 2 ^ 6) (bit_and y 0x3F) < 0x800
read_two x y = omega (
  arith,
  bit_and_ones 5 x,
  bit_and_ones 6 y,
  bit_or_below 6 (bit_and x 0x1F) (bit_and y 0x3F) (omega (arith, bit_and_ones 6 y)),
)

read_three :
    (x y z : ℕ)
    → bit_or (bit_or (bit_and x 0x0F * 2 ^ 12) (bit_and y 0x3F * 2 ^ 6)) (bit_and z 0x3F) < 0x10000
read_three x y z = omega (
  arith,
  bit_and_ones 4 x,
  bit_and_ones 6 y,
  bit_and_ones 6 z,
  join_3 (bit_and x 0x0F) (bit_and y 0x3F) (bit_and z 0x3F) (omega (arith, bit_and_ones 6 y))
      (omega (arith, bit_and_ones 6 z)),
)

not_stray :
    (s : List ℕ)
    → (utf8_get s).0 ≡ 1
    → ltb (get_or s 0 0) 0x80 ≡ false
    → is_whole s ≡ true
    → printable (get_or s 0 0) ≡ true
not_stray s e t h = ground (arith, e, t, h)

char_fits : (s : List ℕ) → is_whole s ≡ true → written (utf8_get s).1 ≤ (utf8_get s).0
unfolding utf8_get
char_fits s h =
    (let c = get_or s 0 0 in
      elim (Bool-cases (ltb c 0x80)) [
        | inl t ↦ rw t (written_bound c 1 (omega arith) (put_short c (ground arith)))
        | inr t ↦ elim (Bool-cases (bit_and c 0xE0 == 0xC0 && leb 2 (length s))) [
          | inl u ↦
              rw (t, u) (written_bound _ 2 (omega arith) (put_two _ (read_two c (get_or s 1 0))))
          | inr u ↦ elim (Bool-cases (bit_and c 0xF0 == 0xE0 && leb 3 (length s))) [
            | inl v ↦
                rw (t, u, v)
                  (written_bound _ 3 (omega arith)
                    (put_three _ (read_three c (get_or s 1 0) (get_or s 2 0))))
            | inr v ↦ elim (Bool-cases (bit_and c 0xF8 == 0xF0 && leb 4 (length s))) [
              | inl w ↦ rw (t, u, v, w) (written_bound _ 4 (omega arith) (length-utf8_put _).1)
              | inr w ↦
                  let one : (utf8_get s).0 ≡ 1 = rw (t, u, v, w) refl in
                  rw (t, u, v, w) (written-printable c (not_stray s one t h))
            ]
          ]
        ]
      ])

-- A clean token is never longer when it is decoded.
pub decode_chars-bound :
    (f : ℕ) (s : List ℕ) → is_clean f s ≡ true → length (decode_chars f s) ≤ length s
unfolding decode_chars is_clean
decode_chars-bound zero s h = omega arith
decode_chars-bound (suc f) s h =
    (let a = (utf8_get s).0 in
      let cp = (utf8_get s).1 in
      let rest = drop a s in
      elim (Bool-cases (length s == 0)) [
        | inl e ↦ rw e (omega arith)
        | inr e ↦
            (let b = utf8_get_bounds s (ground arith) in
              let whole : is_whole s ≡ true = ground (arith, h, e) in
              let clean : is_clean f rest ≡ true = ground (arith, h, e) in
              let ih = decode_chars-bound f rest clean in
              let fit = char_fits s whole in
              elim (Option-cases (cp_to_byte cp)) [
                | inl n ↦
                    let w : written cp ≡ length (utf8_put cp) = rw (written, n) refl in
                    rw (e, n)
                      (omega (
                        arith,
                        ih,
                        length-append (utf8_put cp) (decode_chars f rest),
                        length-drop a s,
                        b.1,
                        fit,
                        w,
                      ))
                | inr (c, n) ↦ rw (e, n) (omega (arith, ih, length-drop a s, b.0, b.1))
              ])
      ])
