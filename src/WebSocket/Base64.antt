-- ===== src/WebSocket/Base64.antt =====
-- `vv_base64_encode` of src/server/ws.c against a decoder.
use Prim.Native.Nat.{bit_and, bit_or}
use vibevoice_c.Common.{
  ℕ, suc, ◌+◌, ◌*◌, ◌/◌, ◌%◌, ◌^◌, ◌<◌, ◌≤◌, ◌≡◌, ◌⊎◌, inl, inr, Bool-cases, ◌++◌, ◌||◌, refl, ap,
  Bool, true, false, not, ◌&&◌, none, some, List, [], ◌∷◌, ltb, ◌==◌, if◌then◌else◌, length, arith,
  All, all_below, all_below_sound, bit_and_ones, bit_or_below,
}
use vibevoice_c.Http.{codes}
use vibevoice_c.WebSocket.Handshake.{
  symbol, triple, base64_encode, sha1, bytes_down, guid, accept_key,
}

-- The index of a letter in a list.
unfoldable pub position : List ℕ → ℕ → ℕ
position [] c = 0
position (x ∷ xs) c = let rest = position xs c in if x == c then 0 else suc rest

-- The alphabet of base64 in the order of its values, written out.
abbrev pub alphabet : List ℕ
alphabet = codes "ABCDEFGHIJKLMNOPQRSTUVWXYZabcdefghijklmnopqrstuvwxyz0123456789+/"

-- The bytes of groups of four letters.
unfoldable pub base64_decode : List ℕ → List ℕ
base64_decode (w ∷ x ∷ y ∷ z ∷ r) =
    let rest = base64_decode r in
    let a = position alphabet w * 4 + position alphabet x / 16 in
    let b = position alphabet x % 16 * 16 + position alphabet y / 4 in
    let c = position alphabet y % 4 * 64 + position alphabet z in
    if y == b'=' then a ∷ [] else if z == b'=' then a ∷ b ∷ [] else a ∷ b ∷ c ∷ rest
base64_decode s = []

abbrev is_read_back : ℕ → Bool
is_read_back v = position alphabet (symbol v) == v && not (symbol v == b'=')

letters_table : all_below 64 is_read_back ≡ true
unfolding all_below position symbol
letters_table = refl

symbol_mod : (v : ℕ) → symbol v ≡ symbol (v % 64)
unfolding symbol
symbol_mod v =
    let e : bit_and v 63 ≡ bit_and (v % 64) 63 =
      omega (arith, bit_and_ones 6 v, bit_and_ones 6 (v % 64)) in
    rw e refl

position-symbol : (v : ℕ) → (position alphabet (symbol v) ≡ v % 64) × (symbol v == b'=' ≡ false)
position-symbol v =
    (let k = all_below_sound 64 is_read_back (v % 64) letters_table (omega arith) in
      let e = symbol_mod v in rw e (ground (arith, k)))

triple_lem : (a b c : ℕ) → b < 256 → c < 256 → triple a b c ≡ a * 65536 + b * 256 + c
triple_lem a b c h k =
    (let front : bit_or (a * 2 ^ 16) (b * 2 ^ 8) ≡ (a * 256 + b) * 2 ^ 8 =
        omega (arith, bit_or_below 16 a (b * 2 ^ 8) (omega arith)) in
      rw front (omega (arith, bit_or_below 8 (a * 256 + b) c k)))

abbrev pub IsByte : ℕ → Type 0
IsByte b = b < 256

-- A group of four letters gives its three bytes.
group :
    (a b c : ℕ)
    → a < 256
    → b < 256
    → c < 256
    → (position alphabet (symbol (triple a b c / 2 ^ 18)) * 4
          + position alphabet (symbol (triple a b c / 2 ^ 12)) / 16
        ≡ a)
      × (position alphabet (symbol (triple a b c / 2 ^ 12)) % 16 * 16
            + position alphabet (symbol (triple a b c / 2 ^ 6)) / 4
          ≡ b)
      × (position alphabet (symbol (triple a b c / 2 ^ 6)) % 4 * 64
            + position alphabet (symbol (triple a b c))
          ≡ c)
group a b c h k l =
    (let t = triple_lem a b c k l in
      let p = position-symbol (triple a b c / 2 ^ 18) in
      let q = position-symbol (triple a b c / 2 ^ 12) in
      let r = position-symbol (triple a b c / 2 ^ 6) in
      let s = position-symbol (triple a b c) in
      (omega (arith, t, p.0, q.0, h), omega (arith, t, q.0, r.0, k), omega (arith, t, r.0, s.0, l)))

-- Decoding what `vv_base64_encode` makes of bytes, by a decoder for groups of four letters, gives the
-- bytes back.
pub base64_decode-base64_encode : (s : List ℕ) → All IsByte s → base64_decode (base64_encode s) ≡ s
unfolding base64_encode base64_decode
base64_decode-base64_encode [] h = refl
base64_decode-base64_encode (a ∷ []) h =
    (let g = group a 0 0 h.0 (omega arith) (omega arith) in ap (λ (x : ℕ). x ∷ []) g.0)
base64_decode-base64_encode (a ∷ b ∷ []) h =
    (let g = group a b 0 h.0 h.1.0 (omega arith) in
      let third = (position-symbol (triple a b 0 / 2 ^ 6)).1 in rw (third, g.0, g.1) refl)
base64_decode-base64_encode (a ∷ b ∷ c ∷ r) h =
    (let g = group a b c h.0 h.1.0 h.1.1.0 in
      let third = (position-symbol (triple a b c / 2 ^ 6)).1 in
      let fourth = (position-symbol (triple a b c)).1 in
      rw (third, fourth, g.0, g.1, g.2, base64_decode-base64_encode r h.1.1.1) refl)

-- The text has four letters for each three bytes or less.
length-base64_encode : (s : List ℕ) → length (base64_encode s) ≡ (length s + 2) / 3 * 4
unfolding base64_encode
length-base64_encode [] = omega arith
length-base64_encode (a ∷ []) = omega arith
length-base64_encode (a ∷ b ∷ []) = omega arith
length-base64_encode (a ∷ b ∷ c ∷ r) = omega (arith, length-base64_encode r)

length-sha1 : (p : List ℕ) → length (sha1 p) ≡ 20
unfolding sha1 bytes_down
length-sha1 p = refl

-- An answer to a client's key has 28 letters, so it fills the 29 bytes of `out` with its terminator;
-- a key has an answer if it has 1 to 64 bytes, and else none.
pub accept_key-cases :
    (client_key : List ℕ)
    → ((out : List ℕ) × (accept_key client_key ≡ some out)
        × (length out ≡ 28)
        × (1 ≤ length client_key)
        × (length client_key ≤ 64))
      ⊎ ((accept_key client_key ≡ none) × ((length client_key ≡ 0) ⊎ (64 < length client_key)))
unfolding accept_key
accept_key-cases client_key =
    elim (Bool-cases (length client_key == 0 || ltb 64 (length client_key))) [
      | inl e ↦ inr (rw (accept_key, e) refl, ground (arith, e))
      | inr e ↦
          (let digest = sha1 (client_key ++ guid) in
            inl (
              base64_encode digest,
              rw (accept_key, e) refl,
              omega (arith, length-base64_encode digest, length-sha1 (client_key ++ guid)),
              ground (arith, e),
              ground (arith, e),
            ))
    ]
