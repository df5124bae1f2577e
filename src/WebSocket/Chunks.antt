-- ===== src/WebSocket/Chunks.antt =====
-- The parser of src/server/ws.c does not care how its input is cut: a frame that is whole, or wrong,
-- stays so when more bytes follow.
use vibevoice_c.Common.{
  ℕ, zero, suc, ◌+◌, ◌-◌, ◌*◌, ◌/◌, ◌%◌, ◌≤◌, ◌<◌, ◌^◌, ◌≡◌, ◌∙◌, ap, refl, Bool, true, false, not,
  ◌&&◌, List, [], ◌∷◌, ◌++◌, ltb, ◌==◌, if◌then◌else◌, take, drop, length, arith, ◌⊎◌, inl, inr,
  Bool-cases, get_or-append, take-append, slice-append, length-append,
}
use Prim.Native.Nat.{bit_and, bit_or}
use vibevoice_c.WebSocket.Frame.{
  Limits, Assembly, Round, more, bad, whole, Size, short, invalid, sized, big_endian, size_of,
  deliver, body, sized_frame, frame, is_control, op_of, fin_of, masked_of, head_is_bad, payload_of,
}

-- What a round on more bytes may be.
pub data Extends : Round → Round → Type 0 where
  same : (r : Round) → Extends r r
  open_end : (r : Round) → Extends more r
  still_bad : (code : ℕ) (x y : List ℕ) → Extends (bad code x) (bad code y)

-- What the loop needs to know of it.
abbrev pub Extended : Round → Round → Type 0
Extended more r = Unit {0}
Extended (bad code x) r = (y : List ℕ) × (r ≡ bad code y)
Extended (whole size bytes need a events) r = r ≡ whole size bytes need a events

Extended-refl : (r : Round) → Extended r r
Extended-refl more = tt
Extended-refl (bad code x) = (x, refl)
Extended-refl (whole size bytes need a events) = refl

extended : {r r' : Round} → Extends r r' → Extended r r'
extended (same r) = Extended-refl r
extended (open_end r) = tt
extended (still_bad code x y) = (y, refl)

Extends-if :
    (b : Bool) {r r' s s' : Round}
    → Extends r r'
    → Extends s s'
    → Extends (if b then r else s) (if b then r' else s')
Extends-if true h k = h
Extends-if false h k = k

deliver-Extends :
    (a : Assembly) (op : ℕ) (fin : Bool) (payload : List ℕ) (size : ℕ) (bytes x y : List ℕ)
    → Extends (deliver a op fin payload size bytes x) (deliver a op fin payload size bytes y)
unfolding deliver
deliver-Extends a op fin payload size bytes x y = Extends-if (is_control op) (same _) (
    Extends-if (op == 0) (Extends-if (a.opcode == 0) (still_bad _ _ _) (same _))
      (Extends-if (not (a.opcode == 0)) (still_bad _ _ _) (same _)))

big_endian-append :
    (n at : ℕ) (bs c : List ℕ) (len : ℕ)
    → at + n ≤ length bs
    → big_endian n at (bs ++ c) len ≡ big_endian n at bs len
unfolding big_endian
big_endian-append zero at bs c len h = refl
big_endian-append (suc n) at bs c len h =
    ap (λ (b : ℕ). big_endian n (at + 1) (bs ++ c) (bit_or (len * 256 % 2 ^ 64) b))
      (get_or-append bs c at 0 (omega arith))
    ∙ big_endian-append n (at + 1) bs c _ (omega arith)

longer : (bs c : List ℕ) (n : ℕ) → ltb (length bs) n ≡ false → ltb (length (bs ++ c)) n ≡ false
longer bs c n h = ground (arith, length-append bs c)

-- The part of `body` behind the limits.
abbrev pub fits : Assembly → ℕ → Bool → Bool → ℕ → ℕ → List ℕ → Round
fits a op fin masked hl len bs =
    if ltb (length bs) ((hl + len) % 2 ^ 64)
    then more
    else (let payload = payload_of masked hl len bs in
        deliver a op fin payload (hl + len) (take hl bs ++ payload) (drop (hl + len) bs))

payload_of-append :
    (masked : Bool) (hl len : ℕ) (bs c : List ℕ)
    → 4 ≤ hl ⊎ (masked ≡ false)
    → hl + len ≤ length bs
    → payload_of masked hl len (bs ++ c) ≡ payload_of masked hl len bs
payload_of-append false hl len bs c h k = slice-append len hl bs c k
payload_of-append true hl len bs c h k =
    rw (slice-append len hl bs c k, slice-append 4 (hl - 4) bs c (ground arith))

fits-Extends :
    (a : Assembly) (op : ℕ) (fin masked : Bool) (hl len : ℕ) (bs c : List ℕ)
    → (hl + len < 2 ^ 64) × (4 ≤ hl ⊎ (masked ≡ false))
    → Extends (fits a op fin masked hl len bs) (fits a op fin masked hl len (bs ++ c))
fits-Extends a op fin masked hl len bs c h =
    elim (Bool-cases (ltb (length bs) ((hl + len) % 2 ^ 64))) [
      | inl t ↦ rw t (open_end _)
      | inr f ↦
          rw
            (
              f,
              longer bs c ((hl + len) % 2 ^ 64) f,
              payload_of-append masked hl len bs c h.1 (ground (arith, h.0)),
              take-append hl bs c (ground (arith, h.0)),
            )
            (deliver-Extends a op fin _ (hl + len) _ _ _)
    ]

size_of-append :
    (len7 : ℕ) (bs c : List ℕ)
    → (size_of len7 bs ≡ short) ⊎ (size_of len7 (bs ++ c) ≡ size_of len7 bs)
unfolding size_of
size_of-append len7 bs c = elim (Bool-cases (len7 == 126)) [
  | inl t ↦ elim (Bool-cases (ltb (length bs) 4)) [
    | inl s ↦ inl (rw (t, s))
    | inr e ↦ inr (
        rw (
          t,
          e,
          longer bs c 4 e,
          get_or-append bs c 2 0 (ground arith),
          get_or-append bs c 3 0 (ground arith),
        ))
  ]
  | inr f ↦ elim (Bool-cases (len7 == 127)) [
    | inl t ↦ elim (Bool-cases (ltb (length bs) 10)) [
      | inl s ↦ inl (rw (f, t, s))
      | inr e ↦ inr (rw (f, t, e, longer bs c 10 e, big_endian-append 8 2 bs c 0 (ground arith)))
    ]
    | inr g ↦ inr (rw (f, g))
  ]
]

body-Extends :
    (l : Limits) (a : Assembly) (b0 : ℕ) (masked : Bool) (len hl : ℕ) (bs c : List ℕ)
    → l.max_message < 2 ^ 62
    → hl < 16
    → Extends (body l a b0 masked len hl bs) (body l a b0 masked len hl (bs ++ c))
unfolding body
body-Extends l a b0 masked len hl0 bs c h k = elim (Bool-cases (ltb l.max_message len)) [
  | inl t ↦ rw t (still_bad _ _ _)
  | inr f ↦ rw f (
      Extends-if
        ((not (is_control (op_of b0)) && op_of b0 == 0)
          && ltb l.max_message ((length a.msg + len) % 2 ^ 64))
        (still_bad _ _ _)
        (fits-Extends a (op_of b0) (fin_of b0) masked (if masked then hl0 + 4 else hl0) len bs c
          (ground arith)))
]

-- A header has 2 to 10 bytes.
abbrev pub Bounded : Size → Type 0
Bounded short = Unit {0}
Bounded invalid = Unit {0}
Bounded (sized len hl) = (2 ≤ hl) × (hl ≤ 10)

pub size_of-Bounded : (len7 : ℕ) (bs : List ℕ) → Bounded (size_of len7 bs)
unfolding size_of
size_of-Bounded len7 bs = elim (Bool-cases (len7 == 126)) [
  | inl t ↦ elim (Bool-cases (ltb (length bs) 4)) [
    | inl s ↦ rw (t, s) tt
    | inr e ↦ rw (t, e) (omega arith, omega arith)
  ]
  | inr f ↦ elim (Bool-cases (len7 == 127)) [
    | inl t ↦ elim (Bool-cases (ltb (length bs) 10)) [
      | inl s ↦ rw (f, t, s) tt
      | inr e ↦ elim (Bool-cases (not (big_endian 8 2 bs 0 / 2 ^ 63 == 0))) [
        | inl u ↦ rw (f, t, e, u) tt
        | inr v ↦ rw (f, t, e, v) (omega arith, omega arith)
      ]
    ]
    | inr g ↦ rw (f, g) (omega arith, omega arith)
  ]
]

sized_frame-Extends :
    (l : Limits) (a : Assembly) (b0 b1 : ℕ) (bs c : List ℕ) (s : Size)
    → l.max_message < 2 ^ 62
    → Bounded s
    → Extends (sized_frame l a b0 b1 bs s) (sized_frame l a b0 b1 (bs ++ c) s)
unfolding sized_frame
sized_frame-Extends l a b0 b1 bs c short h k = open_end _
sized_frame-Extends l a b0 b1 bs c invalid h k = still_bad _ _ _
sized_frame-Extends l a b0 b1 bs c (sized len hl) h k =
    body-Extends l a b0 (masked_of b1) len hl bs c h (omega (arith, k.1))

sized_frame-size_of-Extends :
    (l : Limits) (a : Assembly) (b0 b1 len7 : ℕ) (bs c : List ℕ)
    → l.max_message < 2 ^ 62
    → Extends
        (sized_frame l a b0 b1 bs (size_of len7 bs))
        (sized_frame l a b0 b1 (bs ++ c) (size_of len7 (bs ++ c)))
unfolding sized_frame
sized_frame-size_of-Extends l a b0 b1 len7 bs c h = elim (size_of-append len7 bs c) [
  | inl e ↦ rw e (open_end _)
  | inr e ↦ rw e (sized_frame-Extends l a b0 b1 bs c (size_of len7 bs) h (size_of-Bounded len7 bs))
]

pub frame-Extended :
    (l : Limits) (a : Assembly) (bs c : List ℕ)
    → l.max_message < 2 ^ 62
    → Extended (frame l a bs) (frame l a (bs ++ c))
unfolding frame
frame-Extended l a [] c h = tt
frame-Extended l a (b0 ∷ []) c h = tt
frame-Extended l a (b0 ∷ b1 ∷ rest) c h = extended (
    Extends-if (head_is_bad l b0 b1) (still_bad _ _ _)
      (sized_frame-size_of-Extends l a b0 b1 (bit_and b1 0x7F) (b0 ∷ b1 ∷ rest) c h))
