-- ===== src/WebSocket/Opening.antt =====
-- The handshake and the frame headers of src/server/ws.c on the example of RFC 6455.
use Prim.Native.Nat.{bit_and}
use vibevoice_c.Common.{
  ℕ, ◌<◌, ◌≤◌, ◌%◌, ◌≡◌, ◌⊎◌, refl, true, none, some, List, [], ◌∷◌, ◌++◌, get_or, length, arith,
}
use vibevoice_c.WebSocket.Frame.{sized, size_of, op_of, fin_of}
use vibevoice_c.WebSocket.Handshake.{
  accept_key, sha1, tail_of, whole_blocks, sha1_block, rounds, round_of, mix, extend_words,
  block_words, rol32, bytes_down, base64_encode, symbol, frame_header,
}
use vibevoice_c.WebSocket.Base64.{base64_decode, base64_decode-base64_encode, accept_key-cases}
use vibevoice_c.WebSocket.Header.{size_of-frame_header}

-- "dGhlIHNhbXBsZSBub25jZQ=="
abbrev key : List ℕ
key =
    b'd' ∷ b'G' ∷ b'h' ∷ b'l' ∷ b'I' ∷ b'H' ∷ b'N' ∷ b'h' ∷ b'b' ∷ b'X' ∷ b'B' ∷ b's' ∷ b'Z' ∷ b'S'
    ∷ b'B' ∷ b'u' ∷ b'b' ∷ b'2' ∷ b'5' ∷ b'j' ∷ b'Z' ∷ b'Q' ∷ b'=' ∷ b'=' ∷ []

-- "s3pPLMBiTxaQ9kYGzzhZRbK+xOo="
abbrev answer : List ℕ
answer =
    b's' ∷ b'3' ∷ b'p' ∷ b'P' ∷ b'L' ∷ b'M' ∷ b'B' ∷ b'i' ∷ b'T' ∷ b'x' ∷ b'a' ∷ b'Q' ∷ b'9' ∷ b'k'
    ∷ b'Y' ∷ b'G' ∷ b'z' ∷ b'z' ∷ b'h' ∷ b'Z' ∷ b'R' ∷ b'b' ∷ b'K' ∷ b'+' ∷ b'x' ∷ b'O' ∷ b'o'
    ∷ b'=' ∷ []

key_is_answered : accept_key key ≡ some answer
unfolding accept_key sha1 tail_of whole_blocks sha1_block rounds round_of mix extend_words
    block_words rol32 bytes_down base64_encode symbol
key_is_answered = refl

accept_key-cases_example :
    ((out : List ℕ) × (accept_key key ≡ some out)
      × (length out ≡ 28)
      × (1 ≤ length key)
      × (length key ≤ 64))
    ⊎ ((accept_key key ≡ none) × ((length key ≡ 0) ⊎ (64 < length key)))
accept_key-cases_example = accept_key-cases key

abbrev digest : List ℕ
digest = 0xB3 ∷ 0x7A ∷ 0x4F ∷ 0x2C ∷ []

base64_decode-base64_encode_example : base64_decode (base64_encode digest) ≡ digest
base64_decode-base64_encode_example =
    base64_decode-base64_encode digest
      (omega arith, (omega arith, (omega arith, (omega arith, tt))))

size_of-frame_header_example :
    (op_of (get_or (frame_header 2 true 70000) 0 0) ≡ 2 % 16)
    × (fin_of (get_or (frame_header 2 true 70000) 0 0) ≡ true)
    × (size_of
          (bit_and (get_or (frame_header 2 true 70000) 1 0) 0x7F)
          (frame_header 2 true 70000 ++ 1 ∷ [])
        ≡ sized 70000 (length (frame_header 2 true 70000)))
size_of-frame_header_example = size_of-frame_header 2 true 70000 (1 ∷ []) (omega arith)
