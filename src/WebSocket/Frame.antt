-- ===== src/WebSocket/Frame.antt =====
-- One round of the loop of `vv_ws_parser_feed` in src/server/ws.c, on the bytes not yet parsed.
use Prim.Native.Nat.{bit_and, bit_or, bit_xor}
use vibevoice_c.Common.{
  ℕ, zero, suc, ◌+◌, ◌-◌, ◌*◌, ◌/◌, ◌%◌, ◌^◌, Bool, not, ◌&&◌, ◌||◌, Option, none, some, List, [],
  ◌∷◌, ◌++◌, ltb, leb, ◌==◌, if◌then◌else◌, get_or, take, drop, length,
}

-- The settings of a parser.
pub record Limits : Type 0 where
  pub max_message : ℕ
  pub require_mask : Bool

-- The message in progress: `msg` up to `msg_len`, and `msg_opcode`.
pub record Assembly : Type 0 where
  pub msg : List ℕ
  pub opcode : ℕ

abbrev pub Event : Type 0
Event = ℕ × List ℕ

abbrev pub close_protocol : ℕ
close_protocol = 1002

abbrev pub close_too_big : ℕ
close_too_big = 1009

-- A round: more bytes are wanted; a violation, with its close code and the bytes as they are left;
-- or a whole frame: its size, its bytes with the payload unmasked, the capacity that `msg` must have
-- for it, and the assembly and calls that follow once it has.
pub data Round : Type 0 where
  more : Round
  bad : ℕ → List ℕ → Round
  whole : ℕ → List ℕ → Option ℕ → Assembly → List Event → Round

abbrev pub fin_of : ℕ → Bool
fin_of b0 = not (bit_and b0 0x80 == 0)

abbrev pub op_of : ℕ → ℕ
op_of b0 = bit_and b0 0x0F

abbrev pub masked_of : ℕ → Bool
masked_of b1 = not (bit_and b1 0x80 == 0)

abbrev pub is_control : ℕ → Bool
is_control op = leb 8 op

-- The checks on the first two bytes.
unfoldable pub head_is_bad : Limits → ℕ → ℕ → Bool
head_is_bad l b0 b1 =
    not (bit_and b0 0x70 == 0)
    || not (leb (op_of b0) 2 || (leb 8 (op_of b0) && leb (op_of b0) 10))
    || (l.require_mask && not (masked_of b1))
    || (is_control (op_of b0) && (not (fin_of b0) || ltb 125 (bit_and b1 0x7F)))

-- `for (i = 0; i < n; i++) len = len << 8 | f[at + i];`
unfoldable pub big_endian : ℕ → ℕ → List ℕ → ℕ → ℕ
big_endian zero at bs len = len
big_endian (suc n) at bs len =
    big_endian n (at + 1) bs (bit_or (len * 256 % 2 ^ 64) (get_or bs at 0))

-- The payload length and the header's length without the mask.
pub data Size : Type 0 where
  short : Size
  invalid : Size
  sized : ℕ → ℕ → Size

unfoldable pub size_of : ℕ → List ℕ → Size
unfolding big_endian
size_of len7 bs =
    if len7 == 126
    then if ltb (length bs) 4 then short else sized (bit_or (get_or bs 2 0 * 256) (get_or bs 3 0)) 4
    else if len7 == 127
    then if ltb (length bs) 10
      then short
      else (let len = big_endian 8 2 bs 0 in
          if not (len / 2 ^ 63 == 0) then invalid else sized len 10)
    else sized len7 2

-- `payload[i] ^= key[i & 3]`, from index `i` on.
unfoldable pub unmask : List ℕ → ℕ → List ℕ → List ℕ
unmask key i [] = []
unmask key i (b ∷ bs) = bit_xor b (get_or key (bit_and i 3) 0) ∷ unmask key (i + 1) bs

-- What the frame does to the message in progress; `bytes` is the frame with its payload unmasked,
-- `after` what follows it in the buffer.
unfoldable pub deliver : Assembly → ℕ → Bool → List ℕ → ℕ → List ℕ → List ℕ → Round
deliver a op fin payload size bytes after =
    if is_control op
    then whole size bytes none a ((op, payload) ∷ [])
    else if op == 0
    then if a.opcode == 0
      then bad close_protocol (bytes ++ after)
      else if fin
      then whole size bytes (some (length a.msg + length payload + 1))
          (record { msg = []; opcode = 0 }) ((a.opcode, a.msg ++ payload) ∷ [])
      else whole size bytes (some (length a.msg + length payload + 1))
          (record a { msg = a.msg ++ payload }) []
    else if not (a.opcode == 0)
    then bad close_protocol (bytes ++ after)
    else if fin
    then whole size bytes none a ((op, payload) ∷ [])
    else whole size bytes (some (length payload + 1)) (record { msg = payload; opcode = op }) []

abbrev pub payload_of : Bool → ℕ → ℕ → List ℕ → List ℕ
payload_of masked hl len bs =
    let raw = take len (drop hl bs) in
    if masked then unmask (take 4 (drop (hl - 4) bs)) 0 raw else raw

-- The frame behind a header of known size.
unfoldable pub body : Limits → Assembly → ℕ → Bool → ℕ → ℕ → List ℕ → Round
unfolding deliver
body l a b0 masked len hl0 bs =
    let op = op_of b0 in
    let hl = if masked then hl0 + 4 else hl0 in
    if ltb l.max_message len
    then bad close_too_big bs
    else if (not (is_control op) && op == 0) && ltb l.max_message ((length a.msg + len) % 2 ^ 64)
    then bad close_too_big bs
    else if ltb (length bs) ((hl + len) % 2 ^ 64)
    then more
    else (let payload = payload_of masked hl len bs in
        deliver a op (fin_of b0) payload (hl + len) (take hl bs ++ payload) (drop (hl + len) bs))

unfoldable pub sized_frame : Limits → Assembly → ℕ → ℕ → List ℕ → Size → Round
sized_frame l a b0 b1 bs short = more
sized_frame l a b0 b1 bs invalid = bad close_protocol bs
sized_frame l a b0 b1 bs (sized len hl) = body l a b0 (masked_of b1) len hl bs

-- The round on the bytes from `in + off` on.
unfoldable pub frame : Limits → Assembly → List ℕ → Round
frame l a [] = more
frame l a (b0 ∷ []) = more
frame l a (b0 ∷ b1 ∷ rest) =
    let bs = b0 ∷ b1 ∷ rest in
    if head_is_bad l b0 b1
    then bad close_protocol bs
    else sized_frame l a b0 b1 bs (size_of (bit_and b1 0x7F) bs)
