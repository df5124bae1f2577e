-- ===== src/WebSocket/Header.antt =====
-- The header of a frame of src/server/ws.c, as the parser of the same file reads it.
use Prim.Native.Nat.{bit_and, bit_or}
use vibevoice_c.Common.{
  ℕ, suc, ◌*◌, ◌/◌, ◌%◌, ◌^◌, ◌<◌, ◌≤◌, ◌≡◌, ◌∙◌, refl, Bool, true, false, not, ◌&&◌, List, ◌∷◌,
  ◌++◌, ltb, leb, ◌==◌, if◌then◌else◌, get_or, length, arith, inl, inr, Bool-cases, bit_and_ones,
  bit_or_below, all_below, all_below_sound,
}
use vibevoice_c.WebSocket.Frame.{sized, size_of, big_endian, op_of, fin_of}
use vibevoice_c.WebSocket.Handshake.{frame_header, bytes_down, u8}

-- A byte more of a number: what was read is the number without its low byte.
next_byte : (acc y : ℕ) → y < 2 ^ 64 → acc ≡ y / 256 → bit_or (acc * 256 % 2 ^ 64) (u8 y) ≡ y
next_byte acc y h e =
    (let whole : acc * 256 % 2 ^ 64 ≡ acc * 256 = omega arith in
      rw whole (omega (arith, bit_or_below 8 acc (y % 256) (omega arith))))

eight_bytes :
    (b0 b1 len : ℕ) (rest : List ℕ)
    → len < 2 ^ 64
    → big_endian 8 2 (b0 ∷ b1 ∷ bytes_down 8 len ++ rest) 0 ≡ len
unfolding big_endian bytes_down
eight_bytes b0 b1 len rest h =
    (let e1 = next_byte 0 (len / 2 ^ 56) (omega arith) (omega arith) in
      let e2 = next_byte _ (len / 2 ^ 48) (omega arith) (e1 ∙ omega arith) in
      let e3 = next_byte _ (len / 2 ^ 40) (omega arith) (e2 ∙ omega arith) in
      let e4 = next_byte _ (len / 2 ^ 32) (omega arith) (e3 ∙ omega arith) in
      let e5 = next_byte _ (len / 2 ^ 24) (omega arith) (e4 ∙ omega arith) in
      let e6 = next_byte _ (len / 2 ^ 16) (omega arith) (e5 ∙ omega arith) in
      let e7 = next_byte _ (len / 2 ^ 8) (omega arith) (e6 ∙ omega arith) in
      next_byte _ (len / 1) (omega arith) (e7 ∙ omega arith) ∙ omega arith)

abbrev first_byte : ℕ → Bool → ℕ
first_byte opcode fin = u8 (bit_or (if fin then 0x80 else 0) (bit_and opcode 0x0F))

abbrev reads_back : Bool → ℕ → Bool
reads_back fin x =
    op_of (u8 (bit_or (if fin then 0x80 else 0) x)) == x
    && (if fin_of (u8 (bit_or (if fin then 0x80 else 0) x)) then fin else not fin)

set_table : all_below 16 (reads_back true) ≡ true
unfolding all_below
set_table = refl

clear_table : all_below 16 (reads_back false) ≡ true
unfolding all_below
clear_table = refl

first_byte_lem :
    (opcode : ℕ) (fin : Bool)
    → (op_of (first_byte opcode fin) ≡ opcode % 16) × (fin_of (first_byte opcode fin) ≡ fin)
first_byte_lem opcode true =
    let k = all_below_sound 16 (reads_back true) (opcode % 16) set_table (omega arith) in
    rw (bit_and_ones 4 opcode) (ground (arith, k))
first_byte_lem opcode false =
    let k = all_below_sound 16 (reads_back false) (opcode % 16) clear_table (omega arith) in
    rw (bit_and_ones 4 opcode) (ground (arith, k))

size_small : (n : ℕ) (bs : List ℕ) → n < 126 → size_of n bs ≡ sized n 2
unfolding size_of
size_small n bs h =
    let e : n == 126 ≡ false = ground arith in
    let f : n == 127 ≡ false = ground arith in rw (e, f) refl

size_middle :
    (b0 b1 len : ℕ) (rest : List ℕ)
    → len ≤ 0xFFFF
    → size_of 126 (b0 ∷ b1 ∷ u8 (len / 2 ^ 8) ∷ u8 len ∷ rest) ≡ sized len 4
unfolding size_of
size_middle b0 b1 len rest h =
    (let there : ltb (suc (suc (suc (suc (length rest))))) 4 ≡ false = ground arith in
      let value : bit_or (u8 (len / 2 ^ 8) * 256) (u8 len) ≡ len =
        omega (arith, bit_or_below 8 (len / 2 ^ 8 % 256) (len % 256) (omega arith)) in
      rw (there, value) refl)

size_large :
    (b0 b1 len : ℕ) (rest : List ℕ)
    → len < 2 ^ 63
    → size_of 127 (b0 ∷ b1 ∷ bytes_down 8 len ++ rest) ≡ sized len 10
unfolding size_of bytes_down
size_large b0 b1 len rest h =
    (let bs = b0 ∷ b1 ∷ bytes_down 8 len ++ rest in
      let there : ltb (length bs) 10 ≡ false = ground arith in
      let value = eight_bytes b0 b1 len rest (omega arith) in
      let low : len / 2 ^ 63 == 0 ≡ true = let z : len / 2 ^ 63 ≡ 0 = omega arith in rw z refl in
      rw (there, value, low) refl)

-- The first byte of a header gives its opcode and its last-frame bit back, and the length that the
-- parser reads behind it is the payload's, at the header's length, whatever follows: if the payload is
-- shorter than 2^63.
pub size_of-frame_header :
    (opcode : ℕ) (fin : Bool) (len : ℕ) (rest : List ℕ)
    → len < 2 ^ 63
    → (op_of (get_or (frame_header opcode fin len) 0 0) ≡ opcode % 16)
      × (fin_of (get_or (frame_header opcode fin len) 0 0) ≡ fin)
      × (size_of
            (bit_and (get_or (frame_header opcode fin len) 1 0) 0x7F)
            (frame_header opcode fin len ++ rest)
          ≡ sized len (length (frame_header opcode fin len)))
unfolding frame_header bytes_down
size_of-frame_header opcode fin len rest h =
    (let b = first_byte_lem opcode fin in
      elim (Bool-cases (ltb len 126)) [
        | inl e ↦
            (let low : bit_and (u8 len) 0x7F ≡ len = ground (arith, bit_and_ones 7 (u8 len)) in
              rw (frame_header, e, low) (b.0, b.1, size_small len _ (ground arith)))
        | inr e ↦ elim (Bool-cases (leb len 0xFFFF)) [
          | inl f ↦
              rw (frame_header, e, f)
                (b.0, b.1, size_middle (first_byte opcode fin) 126 len rest (ground arith))
          | inr f ↦
              rw (frame_header, e, f) (b.0, b.1, size_large (first_byte opcode fin) 127 len rest h)
        ]
      ])
