-- ===== src/WebSocket/Handshake.antt =====
-- What opens a WebSocket in src/server/ws.c: SHA-1, base64, `vv_ws_accept_key`, and the header of a
-- frame that the server sends.
use Prim.Native.Nat.{bit_and, bit_or, bit_xor}
use vibevoice_c.Common.{
  ℕ, zero, suc, ◌+◌, ◌-◌, ◌*◌, ◌/◌, ◌%◌, ◌^◌, Bool, true, false, ◌||◌, Option, none, some, List, [],
  ◌∷◌, ◌++◌, ltb, leb, ◌==◌, if◌then◌else◌, get_or, drop, replicate, length,
}

-- A number cast to `uint8_t`, and to `uint32_t`.
abbrev pub u8 : ℕ → ℕ
u8 x = x % 256

abbrev pub u32 : ℕ → ℕ
u32 x = x % 2 ^ 32

unfoldable pub rol32 : ℕ → ℕ → ℕ
rol32 x n = bit_or (u32 (x * 2 ^ n)) (x / 2 ^ (32 - n))

-- `h`, and `a`, `bb`, `c`, `d`, `e`
pub record Words : Type 0 where
  pub a : ℕ
  pub bb : ℕ
  pub c : ℕ
  pub d : ℕ
  pub e : ℕ

-- The first 16 words of `w`, of a block from the byte `at` on.
unfoldable pub block_words : ℕ → ℕ → List ℕ → List ℕ
block_words zero at b = []
block_words (suc n) at b =
    bit_or
      (bit_or (bit_or (get_or b at 0 * 2 ^ 24) (get_or b (at + 1) 0 * 2 ^ 16))
        (get_or b (at + 2) 0 * 2 ^ 8))
      (get_or b (at + 3) 0)
    ∷ block_words n (at + 4) b

-- The words from index `i` on, `n` of them, behind those that are there.
unfoldable pub extend_words : ℕ → ℕ → List ℕ → List ℕ
extend_words zero i w = w
extend_words (suc n) i w =
    let x =
      bit_xor (bit_xor (bit_xor (get_or w (i - 3) 0) (get_or w (i - 8) 0)) (get_or w (i - 14) 0))
        (get_or w (i - 16) 0) in
    extend_words n (i + 1) (w ++ rol32 x 1 ∷ [])

-- `~x` of a `uint32_t`.
abbrev pub complement : ℕ → ℕ
complement x = 2 ^ 32 - 1 - x

-- `f` and `k` in round `i`.
unfoldable pub mix : ℕ → ℕ → ℕ → ℕ → ℕ × ℕ
mix i bb c d =
    if ltb i 20
    then (bit_or (bit_and bb c) (bit_and (complement bb) d), 0x5A827999)
    else if ltb i 40
    then (bit_xor (bit_xor bb c) d, 0x6ED9EBA1)
    else if ltb i 60
    then (bit_or (bit_or (bit_and bb c) (bit_and bb d)) (bit_and c d), 0x8F1BBCDC)
    else (bit_xor (bit_xor bb c) d, 0xCA62C1D6)

-- A round of the loop of `sha1_block`, on the word of `w` for it.
unfoldable pub round_of : ℕ → ℕ → Words → Words
round_of i w s =
    let (f, k) = mix i s.bb s.c s.d in
    record {
      a = u32 (rol32 s.a 5 + f + s.e + k + w);
      bb = s.a;
      c = rol32 s.bb 30;
      d = s.c;
      e = s.d;
    }

unfoldable pub rounds : ℕ → List ℕ → Words → Words
rounds i [] s = s
rounds i (w ∷ ws) s = rounds (i + 1) ws (round_of i w s)

unfoldable pub sha1_block : Words → List ℕ → Words
sha1_block h b =
    let s = rounds 0 (extend_words 64 16 (block_words 16 0 b)) h in
    record {
      a = u32 (h.a + s.a);
      bb = u32 (h.bb + s.bb);
      c = u32 (h.c + s.c);
      d = u32 (h.d + s.d);
      e = u32 (h.e + s.e);
    }

-- `while (left >= 64)`, with fuel: the state, and what is left.
unfoldable pub whole_blocks : ℕ → Words → List ℕ → Words × List ℕ
whole_blocks zero h p = (h, p)
whole_blocks (suc f) h p = elim (leb 64 (length p)) [
  | true ↦ whole_blocks f (sha1_block h p) (drop 64 p)
  | false ↦ (h, p)
]

-- The bytes of a number, the high one first.
unfoldable pub bytes_down : ℕ → ℕ → List ℕ
bytes_down zero x = []
bytes_down (suc n) x = u8 (x / 2 ^ (8 * n)) ∷ bytes_down n x

-- `tail`: what is left, 0x80, zeros, and the number of bits; one block or two.
unfoldable pub tail_of : ℕ → List ℕ → List ℕ
tail_of n left =
    let tl = if leb (length left + 9) 64 then 64 else 128 in
    left ++ 0x80 ∷ replicate (tl - 9 - length left) 0 ++ bytes_down 8 (n * 8 % 2 ^ 64)

-- `vv_sha1`
unfoldable pub sha1 : List ℕ → List ℕ
sha1 p =
    let start : Words = record {
      a = 0x67452301;
      bb = 0xEFCDAB89;
      c = 0x98BADCFE;
      d = 0x10325476;
      e = 0xC3D2E1F0;
    } in
    let (h, left) = whole_blocks (length p / 64) start p in
    let tail = tail_of (length p) left in
    let h1 = sha1_block h tail in
    let h2 = if length tail == 128 then sha1_block h1 (drop 64 tail) else h1 in
    bytes_down 4 h2.a
    ++ bytes_down 4 h2.bb
    ++ bytes_down 4 h2.c
    ++ bytes_down 4 h2.d
    ++ bytes_down 4 h2.e

-- `tab`
abbrev pub letters : ℕ → ℕ → List ℕ
letters zero c = []
letters (suc n) c = c ∷ letters n (c + 1)

abbrev pub tab : List ℕ
tab = letters 26 b'A' ++ letters 26 b'a' ++ letters 10 b'0' ++ b'+' ∷ b'/' ∷ []

unfoldable pub symbol : ℕ → ℕ
symbol v = get_or tab (bit_and v 63) 0

abbrev pub triple : ℕ → ℕ → ℕ → ℕ
triple a b c = bit_or (bit_or (a * 2 ^ 16) (b * 2 ^ 8)) c

-- `vv_base64_encode`, without the terminator.
unfoldable pub base64_encode : List ℕ → List ℕ
base64_encode [] = []
base64_encode (a ∷ []) =
    let v = triple a 0 0 in symbol (v / 2 ^ 18) ∷ symbol (v / 2 ^ 12) ∷ b'=' ∷ b'=' ∷ []
base64_encode (a ∷ b ∷ []) =
    let v = triple a b 0 in
    symbol (v / 2 ^ 18) ∷ symbol (v / 2 ^ 12) ∷ symbol (v / 2 ^ 6) ∷ b'=' ∷ []
base64_encode (a ∷ b ∷ c ∷ r) =
    let v = triple a b c in
    symbol (v / 2 ^ 18) ∷ symbol (v / 2 ^ 12) ∷ symbol (v / 2 ^ 6) ∷ symbol v ∷ base64_encode r

-- "258EAFA5-E914-47DA-95CA-C5AB0DC85B11"
abbrev pub guid : List ℕ
guid =
    b'2' ∷ b'5' ∷ b'8' ∷ b'E' ∷ b'A' ∷ b'F' ∷ b'A' ∷ b'5' ∷ b'-' ∷ b'E' ∷ b'9' ∷ b'1' ∷ b'4' ∷ b'-'
    ∷ b'4' ∷ b'7' ∷ b'D' ∷ b'A' ∷ b'-' ∷ b'9' ∷ b'5' ∷ b'C' ∷ b'A' ∷ b'-' ∷ b'C' ∷ b'5' ∷ b'A'
    ∷ b'B' ∷ b'0' ∷ b'D' ∷ b'C' ∷ b'8' ∷ b'5' ∷ b'B' ∷ b'1' ∷ b'1' ∷ []

-- `vv_ws_accept_key`; `none` is false.
unfoldable pub accept_key : List ℕ → Option (List ℕ)
accept_key client_key =
    if length client_key == 0 || ltb 64 (length client_key)
    then none
    else some (base64_encode (sha1 (client_key ++ guid)))

-- `vv_ws_frame_header`: the bytes of `out` up to the length that it returns.
unfoldable pub frame_header : ℕ → Bool → ℕ → List ℕ
frame_header opcode fin len =
    let b0 = u8 (bit_or (if fin then 0x80 else 0) (bit_and opcode 0x0F)) in
    if ltb len 126
    then b0 ∷ u8 len ∷ []
    else if leb len 0xFFFF
    then b0 ∷ 126 ∷ u8 (len / 2 ^ 8) ∷ u8 len ∷ []
    else b0 ∷ 127 ∷ bytes_down 8 len
