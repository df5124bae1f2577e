-- ===== src/Tokenizer/Decode.antt =====
-- Decoding in src/text_tokenizer/bpe.c: byte-level text gives its bytes, and the output fits.
use vibevoice_c.Common.{
  ℕ, zero, suc, ◌^◌, ◌≤◌, ◌≡◌, refl, ap, Bool, true, false, ◌&&◌, Option, none, some, List, [], ◌∷◌,
  ◌++◌, leb, ◌==◌, get_or, length, arith, inl, inr, Bool-cases, Option-cases, All, length-append,
  drop-length_append,
}
use mathlib.Core.Path.{subst}
use vibevoice_c.Tokenizer.Utf8.{utf8_get, utf8_put, byte_to_cp}
use vibevoice_c.Tokenizer.Alphabet.{cp_to_byte-byte_to_cp, byte_to_cp_bound}
use vibevoice_c.Tokenizer.RoundTrip.{utf8_get-utf8_put}
use vibevoice_c.Tokenizer.Merge.{byte_level}
use vibevoice_c.Tokenizer.Tiles.{IsByte, length-utf8_put}
use vibevoice_c.Tokenizer.Codec.{
  Tokenizer, token_at, token_len, find_added, decode_chars, decode_id, decode_write, decode_bound,
}
use vibevoice_c.Tokenizer.Clean.{is_clean, decode_chars-bound}

-- Decoding undoes the byte-level alphabet.
pub decode_chars-byte_level :
    (f : ℕ) (bs : List ℕ)
    → All IsByte bs
    → length (byte_level bs) ≤ f
    → decode_chars f (byte_level bs) ≡ bs
unfolding decode_chars byte_level
decode_chars-byte_level zero [] a h = refl
decode_chars-byte_level zero (b ∷ bs) a h = absurd (
    omega (
      arith,
      length-utf8_put (byte_to_cp b),
      length-append (utf8_put (byte_to_cp b)) (byte_level bs),
    ))
decode_chars-byte_level (suc f) [] a h = refl
decode_chars-byte_level (suc f) (b ∷ bs) a h =
    (let w = utf8_put (byte_to_cp b) in
      let c = byte_level bs in
      let n = length-utf8_put (byte_to_cp b) in
      let m = length-append w c in
      let get = utf8_get-utf8_put (byte_to_cp b) c (omega (arith, byte_to_cp_bound b a.0)) in
      let full : length (w ++ c) == 0 ≡ false = ground (arith, n, m) in
      let read_len : (utf8_get (w ++ c)).0 ≡ length w = ap (λ (x : ℕ × ℕ). x.0) get in
      let read_cp : (utf8_get (w ++ c)).1 ≡ byte_to_cp b = ap (λ (x : ℕ × ℕ). x.1) get in
      rw (full, read_cp, cp_to_byte-byte_to_cp b a.0, read_len, drop-length_append w c)
        (ap (λ (l : List ℕ). b ∷ l) (decode_chars-byte_level f bs a.1 (omega (arith, n, m, h)))))

abbrev pub IsClean : Option (List ℕ) → Type 0
IsClean none = Unit {0}
IsClean (some tok) = is_clean (length tok) tok ≡ true

All-get_or : (xs : List (Option (List ℕ))) (i : ℕ) → All IsClean xs → IsClean (get_or xs i none)
All-get_or [] i a = tt
All-get_or (x ∷ xs) zero a = a.0
All-get_or (x ∷ xs) (suc i) a = All-get_or xs i a.1

token_at-IsClean : (t : Tokenizer) (id : ℕ) → All IsClean t.id_to_token → IsClean (token_at t id)
unfolding token_at
token_at-IsClean t id a = elim (Bool-cases (leb (2 ^ 31) id)) [
  | inl e ↦ rw e tt
  | inr e ↦ rw e (All-get_or t.id_to_token id a)
]

decode_id-bound :
    (t : Tokenizer) (skip_special : Bool) (id : ℕ)
    → All IsClean t.id_to_token
    → length (decode_id t skip_special id) ≤ token_len (token_at t id)
unfolding decode_id
decode_id-bound t skip_special id a =
    (let k = token_at-IsClean t id a in
      elim (Option-cases (token_at t id)) [
        | inl e ↦ rw (decode_id, e) (omega arith)
        | inr (tok, e) ↦
            (let clean : IsClean (some tok) = subst IsClean e k in
              elim (Option-cases (find_added t.specials id)) [
                | inl n ↦ rw (decode_id, e, n) (decode_chars-bound (length tok) tok clean)
                | inr (sp, n) ↦ elim (Bool-cases (skip_special && sp.is_special)) [
                  | inl m ↦ rw (decode_id, e, n, m) (omega arith)
                  | inr m ↦ rw (decode_id, e, n, m) (omega arith)
                ]
              ])
      ])

-- What is decoded fits the bound that the buffers are made for, if every token of the table consists
-- of whole characters and bytes of the alphabet.
pub decode_write-decode_bound :
    (t : Tokenizer) (skip_special : Bool) (ids : List ℕ)
    → All IsClean t.id_to_token
    → length (decode_write t skip_special ids) ≤ decode_bound t ids
unfolding decode_write decode_bound
decode_write-decode_bound t skip_special [] a = omega arith
decode_write-decode_bound t skip_special (id ∷ ids) a = omega (
  arith,
  decode_id-bound t skip_special id a,
  decode_write-decode_bound t skip_special ids a,
  length-append (decode_id t skip_special id) (decode_write t skip_special ids),
)
