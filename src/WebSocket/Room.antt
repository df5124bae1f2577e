-- ===== src/WebSocket/Room.antt =====
-- The buffers of the parser of src/server/ws.c: every copy into them and what is in them.
use vibevoice_c.Common.{
  double_to-bound, ℕ, zero, suc, ◌+◌, ◌%◌, ◌≤◌, ◌<◌, ◌^◌, ◌≡◌, ◌∙◌, refl, sym, Bool, true, false,
  not, ◌&&◌, Option, none, some, List, [], ◌∷◌, ◌++◌, drop, length, arith, length-append,
  length-drop, ltb, leb, ◌==◌, if◌then◌else◌, Status, Bool-cases, inl, inr, Option-cases, if_true,
  if_false,
}
use mathlib.Core.Path.{subst}
use vibevoice_c.WebSocket.Frame.{
  Limits, Assembly, Event, Round, more, bad, whole, frame, deliver, is_control, body, sized_frame,
  short, invalid, sized, head_is_bad, Size, op_of, fin_of, payload_of,
}
use vibevoice_c.WebSocket.Feed.{
  Parser, End, paused, stopped, out_of_fuel, grow, demand, loop, settle, take_in, feed, copy_end,
  copies, feed_copies,
}
use vibevoice_c.WebSocket.Sizes.{Fitting, frame-Fitting}
use vibevoice_c.WebSocket.Stream.{known, asks, refuses, takes}

-- The frame's demand covers the message in progress that it leaves, and the byte behind it.
abbrev Pays : Assembly → Round → Type 0
Pays a more = Unit {0}
Pays a (bad code bytes) = Unit {0}
Pays a (whole size bytes none a' events) =
    (length a'.msg ≤ length a.msg) × (copy_end a a' events ≤ length a.msg)
Pays a (whole size bytes (some n) a' events) = (length a'.msg < n) × (copy_end a a' events ≤ n)

data Paying (a : Assembly) : Round → Type 0 where
  by_more : Paying a more
  by_bad : (code : ℕ) (bytes : List ℕ) → Paying a (bad code bytes)
  by_none :
      (size : ℕ) (bytes : List ℕ) (a' : Assembly) (events : List Event)
      → length a'.msg ≤ length a.msg
      → copy_end a a' events ≤ length a.msg
      → Paying a (whole size bytes none a' events)
  by_some :
      (size : ℕ) (bytes : List ℕ) (n : ℕ) (a' : Assembly) (events : List Event)
      → length a'.msg < n
      → copy_end a a' events ≤ n
      → Paying a (whole size bytes (some n) a' events)

Paying-Pays : (a : Assembly) (r : Round) → Paying a r → Pays a r
Paying-Pays a _ by_more = tt
Paying-Pays a _ (by_bad code bytes) = tt
Paying-Pays a _ (by_none size bytes a' events h k) = (h, k)
Paying-Pays a _ (by_some size bytes n a' events h k) = (h, k)

Paying-if :
    (a : Assembly) (b : Bool) {r s : Round}
    → Paying a r
    → Paying a s
    → Paying a (if b then r else s)
Paying-if a true h k = h
Paying-if a false h k = k

deliver-Paying :
    (a : Assembly) (op : ℕ) (fin : Bool) (payload : List ℕ) (size : ℕ) (bytes x : List ℕ)
    → Paying a (deliver a op fin payload size bytes x)
unfolding deliver copy_end
deliver-Paying a op fin payload size bytes x =
    let grown = length-append a.msg payload in
    Paying-if a (is_control op) (by_none _ _ _ _ (omega arith) (ground arith)) (
      Paying-if a (op == 0)
        (Paying-if a (a.opcode == 0) (by_bad _ _) (
          Paying-if a fin (by_some _ _ _ _ _ (omega arith) (ground (arith, grown)))
            (by_some _ _ _ _ _ (omega (arith, grown)) (omega (arith, grown)))))
        (Paying-if a (not (a.opcode == 0)) (by_bad _ _) (
          Paying-if a fin (by_none _ _ _ _ (omega arith) (ground arith))
            (by_some _ _ _ _ _ (omega arith) (omega arith)))))

body-Paying :
    (l : Limits) (a : Assembly) (b0 : ℕ) (masked : Bool) (len hl : ℕ) (bs : List ℕ)
    → Paying a (body l a b0 masked len hl bs)
unfolding body
body-Paying l a b0 masked len hl0 bs =
    let hl = if masked then hl0 + 4 else hl0 in
    Paying-if a (ltb l.max_message len) (by_bad _ _) (
      Paying-if a
        ((not (is_control (op_of b0)) && op_of b0 == 0)
          && ltb l.max_message ((length a.msg + len) % 2 ^ 64))
        (by_bad _ _)
        (Paying-if a (ltb (length bs) ((hl + len) % 2 ^ 64)) by_more
          (deliver-Paying a (op_of b0) (fin_of b0) (payload_of masked hl len bs) (hl + len) _ _)))

sized_frame-Paying :
    (l : Limits) (a : Assembly) (b0 b1 : ℕ) (bs : List ℕ) (s : Size)
    → Paying a (sized_frame l a b0 b1 bs s)
unfolding sized_frame
sized_frame-Paying l a b0 b1 bs short = by_more
sized_frame-Paying l a b0 b1 bs invalid = by_bad _ _
sized_frame-Paying l a b0 b1 bs (sized len hl) = body-Paying l a b0 _ len hl bs

frame-Paying : (l : Limits) (a : Assembly) (bs : List ℕ) → Paying a (frame l a bs)
unfolding frame
frame-Paying l a [] = by_more
frame-Paying l a (b0 ∷ []) = by_more
frame-Paying l a (b0 ∷ b1 ∷ rest) =
    Paying-if a (head_is_bad l b0 b1) (by_bad _ _) (sized_frame-Paying l a b0 b1 (b0 ∷ b1 ∷ rest) _)

frame-Pays : (l : Limits) (a : Assembly) (bs : List ℕ) → Pays a (frame l a bs)
frame-Pays l a bs = Paying-Pays a (frame l a bs) (frame-Paying l a bs)

module _ (alloc : ℕ → Bool) where
  grow-fits : (cap need c : ℕ) → grow alloc cap need ≡ some c → (need ≤ c) × (cap ≤ c)
  unfolding grow
  grow-fits cap need c e = elim (Bool-cases (leb need cap)) [
    | inl t ↦ ground arith
    | inr f ↦
        (let d =
            double_to-bound need (if cap == 0 then 4096 else cap) need (ground arith)
              (ground arith) in
          ground (arith, d.0, d.1))
  ]

  demand-fits :
      (a a' : Assembly) (size : ℕ) (bytes : List ℕ) (need : Option ℕ) (events : List Event)
      (cap c : ℕ)
      → Pays a (whole size bytes need a' events)
      → length a.msg ≤ cap
      → demand alloc cap need ≡ some c
      → (length a'.msg ≤ c) × (copy_end a a' events ≤ c)
  unfolding demand
  demand-fits a a' size bytes none events cap c h k e =
      (ground (arith, h.0, e), ground (arith, h.1, e))
  demand-fits a a' size bytes (some n) events cap c h k e =
      let g = grow-fits cap n c e in (omega (arith, g, h.0), omega (arith, g, h.1))

  -- The buffers' contents are within the capacities.
  abbrev HasRoom : ℕ → End → Type 0
  HasRoom n (paused a cap rest) = (length a.msg ≤ cap) × (length rest ≤ n)
  HasRoom n (stopped s code failed a cap buffer) = (length a.msg ≤ cap) × (length buffer ≤ n)
  HasRoom n out_of_fuel = ⊥

  loop-HasRoom :
      (f n : ℕ) (l : Limits) (a : Assembly) (cap : ℕ) (done rest : List ℕ)
      → l.max_message < 2 ^ 62
      → length rest < f
      → length done + length rest ≤ n
      → length a.msg ≤ cap
      → HasRoom n (loop alloc f l a cap done rest).0
  unfolding loop
  loop-HasRoom zero n l a cap done rest m h k r = absurd (omega arith)
  loop-HasRoom (suc f) n l a cap done rest m h k r = elim (known (frame l a rest)) [
    | asks e ↦ rw (loop, e) (r, omega arith)
    | refuses code bytes e ↦
        (let same : length bytes ≡ length rest =
            subst (λ (r : Round). Fitting (length rest) r) e (frame-Fitting l a rest m) in
          rw (loop, e) (r, omega (arith, same, length-append done bytes)))
    | takes size bytes need a' events e ↦
        (let fit : Fitting (length rest) (whole size bytes need a' events) =
            subst (λ (r : Round). Fitting (length rest) r) e (frame-Fitting l a rest m) in
          let pays : Pays a (whole size bytes need a' events) =
            subst (λ (r : Round). Pays a r) e (frame-Pays l a rest) in
          elim (Option-cases (demand alloc cap need)) [
            | inl q ↦
                rw (loop, e, q)
                  (
                    r,
                    omega (
                      arith,
                      length-append done (bytes ++ drop size rest),
                      length-append bytes (drop size rest),
                      length-drop size rest,
                      fit.1,
                      fit.2,
                    ),
                  )
            | inr (c, q) ↦
                rw (loop, e, q)
                  (loop-HasRoom f n l a' c (done ++ bytes) (drop size rest) m
                    (omega (arith, length-drop size rest, fit.0, fit.1))
                    (omega (arith, length-append done bytes, length-drop size rest, fit.1, fit.2))
                    (demand-fits a a' size bytes need events cap c pays r q).0)
          ])
  ]

  -- The parser's buffers hold their contents.
  abbrev pub IsRoomy : Parser → Type 0
  IsRoomy p = (length p.input ≤ p.in_cap) × (length p.assembly.msg ≤ p.msg_cap)

  settle-IsRoomy : (p : Parser) (e : End) → HasRoom p.in_cap e → IsRoomy (settle alloc p e).1
  unfolding settle
  settle-IsRoomy p (paused a cap rest) h = (h.1, h.0)
  settle-IsRoomy p (stopped s code failed a cap buffer) h = (h.1, h.0)
  settle-IsRoomy p out_of_fuel h = absurd h

  take_in-IsRoomy :
      (p : Parser) (bytes : List ℕ) (room : Option ℕ)
      → p.limits.max_message < 2 ^ 62
      → ((c : ℕ) → room ≡ some c → length (p.input ++ bytes) ≤ c)
      → IsRoomy p
      → IsRoomy (take_in alloc p bytes room).0.1
  unfolding take_in
  take_in-IsRoomy p bytes none m h r = r
  take_in-IsRoomy p bytes (some c) m h r =
      settle-IsRoomy (record p { in_cap = c; input = p.input ++ bytes }) _
        (loop-HasRoom (suc (length (p.input ++ bytes))) c p.limits p.assembly p.msg_cap []
          (p.input ++ bytes) m (omega arith) (omega (arith, h c refl)) r.1)

  room_for :
      (p : Parser) (bytes : List ℕ) (c : ℕ)
      → IsRoomy p
      → (if length bytes == 0
          then some p.in_cap
          else grow alloc p.in_cap (length p.input + length bytes))
        ≡ some c
      → length (p.input ++ bytes) ≤ c
  room_for p bytes c r e = elim (Bool-cases (length bytes == 0)) [
    | inl t ↦ ground (arith, length-append p.input bytes, r.0)
    | inr f ↦
        (let g : grow alloc p.in_cap (length p.input + length bytes) ≡ some c =
            sym (if_false _ _ f) ∙ e in
          omega (
            arith,
            length-append p.input bytes,
            grow-fits p.in_cap (length p.input + length bytes) c g,
          ))
  ]

  -- Every copy ends within the capacity that its buffer has then.
  abbrev pub Fit : List (ℕ × ℕ) → Type 0
  Fit [] = Unit {0}
  Fit (p ∷ ps) = (p.0 ≤ p.1) × Fit ps

  loop-Fit :
      (f : ℕ) (l : Limits) (a : Assembly) (cap : ℕ) (rest : List ℕ)
      → length a.msg ≤ cap
      → Fit (copies alloc f l a cap rest)
  unfolding copies
  loop-Fit zero l a cap rest r = tt
  loop-Fit (suc f) l a cap rest r = elim (known (frame l a rest)) [
    | asks e ↦ rw (copies, e) tt
    | refuses code bytes e ↦ rw (copies, e) tt
    | takes size bytes need a' events e ↦
        (let pays : Pays a (whole size bytes need a' events) =
            subst (λ (r : Round). Pays a r) e (frame-Pays l a rest) in
          elim (Option-cases (demand alloc cap need)) [
            | inl q ↦ rw (copies, e, q) tt
            | inr (c, q) ↦
                (let fits = demand-fits a a' size bytes need events cap c pays r q in
                  rw (copies, e, q) (fits.1, loop-Fit f l a' c (drop size rest) fits.0))
          ])
  ]

  feed_copies-Fit : (p : Parser) (bytes : List ℕ) → IsRoomy p → Fit (feed_copies alloc p bytes)
  unfolding feed_copies
  feed_copies-Fit p bytes r = elim (Bool-cases p.failed) [
    | inl t ↦ subst Fit (sym (if_true _ _ t)) tt
    | inr f ↦
        subst Fit (sym (if_false _ _ f))
          (elim (Option-cases (
            if length bytes == 0
            then some p.in_cap
            else grow alloc p.in_cap (length p.input + length bytes))) [
              | inl q ↦ rw q tt
              | inr (c, q) ↦ rw q (
                room_for p bytes c r q,
                loop-Fit (suc (length (p.input ++ bytes))) p.limits p.assembly p.msg_cap
                    (p.input ++ bytes) r.1,
              )
            ])
  ]

  -- Whatever memory is refused: every copy that a call makes, of the bytes into `in` and of the pieces
  -- of a message into `msg` with the zero behind the last one, ends within the capacity that the buffer
  -- has then, and the call leaves both buffers with room for what is in them; if messages are limited
  -- to less than 2 ^ 62 bytes and the buffers had room before.
  pub feed-IsRoomy :
      (p : Parser) (bytes : List ℕ)
      → p.limits.max_message < 2 ^ 62
      → IsRoomy p
      → Fit (feed_copies alloc p bytes) × IsRoomy (feed alloc p bytes).0.1
  unfolding feed
  feed-IsRoomy p bytes m r = (
    feed_copies-Fit p bytes r,
    elim (Bool-cases p.failed) [
      | inl t ↦
          subst (λ (z : (Status × Parser) × List Event). IsRoomy z.0.1) (sym (if_true _ _ t)) r
      | inr f ↦
          subst (λ (z : (Status × Parser) × List Event). IsRoomy z.0.1) (sym (if_false _ _ f))
            (take_in-IsRoomy p bytes _ m (λ c e. room_for p bytes c r e) r)
    ],
  )
