-- ===== src/WebSocket/Sizes.antt =====
-- The size of a frame that a round of the parser of src/server/ws.c takes.
use vibevoice_c.Common.{
  length-take, length-drop, length-append, refl, ap, drop, take, suc, ◌-◌, ◌++◌, ◌≡◌, ℕ, ◌+◌, ◌%◌,
  ◌≤◌, ◌<◌, ◌^◌, Bool, true, false, not, ◌&&◌, List, [], ◌∷◌, ltb, ◌==◌, if◌then◌else◌, length,
  arith, inl, inr, Bool-cases,
}
use Prim.Native.Nat.{bit_and}
use vibevoice_c.WebSocket.Frame.{
  unmask, payload_of, Limits, Assembly, Round, more, bad, whole, Size, short, invalid, sized,
  deliver, body, sized_frame, frame, is_control, op_of, fin_of, masked_of, head_is_bad,
}
use vibevoice_c.WebSocket.Chunks.{fits, Bounded, size_of-Bounded}

-- A whole frame has two bytes at least, and no more than there are; no byte comes or goes.
abbrev pub Fitting : ℕ → Round → Type 0
Fitting n more = Unit {0}
Fitting n (bad code x) = length x ≡ n
Fitting n (whole size bytes need a events) = (2 ≤ size) × (size ≤ n) × (length bytes ≡ size)

Fitting-if :
    (n : ℕ) (b : Bool) (r s : Round) → Fitting n r → Fitting n s → Fitting n (if b then r else s)
Fitting-if n true r s h k = h
Fitting-if n false r s h k = k

deliver-Fitting :
    (n : ℕ) (a : Assembly) (op : ℕ) (fin : Bool) (payload : List ℕ) (size : ℕ) (bytes x : List ℕ)
    → (2 ≤ size) × (size ≤ n) × (length bytes ≡ size)
    → length (bytes ++ x) ≡ n
    → Fitting n (deliver a op fin payload size bytes x)
unfolding deliver
deliver-Fitting n a op fin payload size bytes x h k = Fitting-if n (is_control op) _ _ h (
    Fitting-if n (op == 0) _ _ (Fitting-if n (a.opcode == 0) _ _ k (Fitting-if n fin _ _ h h))
      (Fitting-if n (not (a.opcode == 0)) _ _ k (Fitting-if n fin _ _ h h)))

length-unmask : (key : List ℕ) (i : ℕ) (bs : List ℕ) → length (unmask key i bs) ≡ length bs
unfolding unmask
length-unmask key i [] = refl
length-unmask key i (b ∷ bs) = ap suc (length-unmask key (i + 1) bs)

length-payload_of :
    (masked : Bool) (hl len : ℕ) (bs : List ℕ)
    → hl + len ≤ length bs
    → length (payload_of masked hl len bs) ≡ len
length-payload_of false hl len bs h = omega (arith, length-take len (drop hl bs), length-drop hl bs)
length-payload_of true hl len bs h = omega (
  arith,
  length-unmask (take 4 (drop (hl - 4) bs)) 0 (take len (drop hl bs)),
  length-take len (drop hl bs),
  length-drop hl bs,
)

length-frame :
    (masked : Bool) (hl len : ℕ) (bs : List ℕ)
    → hl + len ≤ length bs
    → length (take hl bs ++ payload_of masked hl len bs) ≡ hl + len
length-frame masked hl len bs h = omega (
  arith,
  length-append (take hl bs) (payload_of masked hl len bs),
  length-payload_of masked hl len bs h,
  length-take hl bs,
)

fits-Fitting :
    (a : Assembly) (op : ℕ) (fin masked : Bool) (hl len : ℕ) (bs : List ℕ)
    → (2 ≤ hl) × (hl + len < 2 ^ 64)
    → Fitting (length bs) (fits a op fin masked hl len bs)
fits-Fitting a op fin masked hl len bs h =
    elim (Bool-cases (ltb (length bs) ((hl + len) % 2 ^ 64))) [
      | inl t ↦ rw t tt
      | inr f ↦
          (let enough : hl + len ≤ length bs = ground (arith, h.1) in
            let same = length-frame masked hl len bs enough in
            rw f (
              deliver-Fitting (length bs) a op fin (payload_of masked hl len bs) (hl + len)
                (take hl bs ++ payload_of masked hl len bs) (drop (hl + len) bs)
                (omega (arith, h.0), enough, same)
                (omega (
                  arith,
                  same,
                  length-drop (hl + len) bs,
                  length-append (take hl bs ++ payload_of masked hl len bs) (drop (hl + len) bs),
                ))))
    ]

body-Fitting :
    (l : Limits) (a : Assembly) (b0 : ℕ) (masked : Bool) (len hl : ℕ) (bs : List ℕ)
    → l.max_message < 2 ^ 62
    → (2 ≤ hl) × (hl ≤ 10)
    → Fitting (length bs) (body l a b0 masked len hl bs)
unfolding body
body-Fitting l a b0 masked len hl0 bs h k = elim (Bool-cases (ltb l.max_message len)) [
  | inl t ↦ rw t refl
  | inr f ↦ rw f (
      Fitting-if (length bs)
        ((not (is_control (op_of b0)) && op_of b0 == 0)
          && ltb l.max_message ((length a.msg + len) % 2 ^ 64))
        _ _ refl
        (fits-Fitting a (op_of b0) (fin_of b0) masked (if masked then hl0 + 4 else hl0) len bs
          (ground (arith, k.0), ground (arith, k.1))))
]

sized_frame-Fitting :
    (l : Limits) (a : Assembly) (b0 b1 : ℕ) (bs : List ℕ) (s : Size)
    → l.max_message < 2 ^ 62
    → Bounded s
    → Fitting (length bs) (sized_frame l a b0 b1 bs s)
unfolding sized_frame
sized_frame-Fitting l a b0 b1 bs short h k = tt
sized_frame-Fitting l a b0 b1 bs invalid h k = refl
sized_frame-Fitting l a b0 b1 bs (sized len hl) h k =
    body-Fitting l a b0 (masked_of b1) len hl bs h k

pub frame-Fitting :
    (l : Limits) (a : Assembly) (bs : List ℕ)
    → l.max_message < 2 ^ 62
    → Fitting (length bs) (frame l a bs)
unfolding frame
frame-Fitting l a [] h = tt
frame-Fitting l a (b0 ∷ []) h = tt
frame-Fitting l a (b0 ∷ b1 ∷ rest) h =
    Fitting-if (length (b0 ∷ b1 ∷ rest)) (head_is_bad l b0 b1) _ _ refl (
      sized_frame-Fitting l a b0 b1 (b0 ∷ b1 ∷ rest) _ h
        (size_of-Bounded (bit_and b1 0x7F) (b0 ∷ b1 ∷ rest)))
