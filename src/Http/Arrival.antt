-- ===== src/Http/Arrival.antt =====
-- A whole request arrives, however src/server/http.c receives it.
use vibevoice_c.Common.{
  ℕ, zero, suc, ◌+◌, ◌-◌, ◌*◌, ◌%◌, ◌^◌, ◌<◌, ◌≤◌, ◌≡◌, ◌∙◌, sym, refl, ap, Bool, true, false, ◌⊎◌,
  inl, inr, none, some, List, [], ◌∷◌, ◌++◌, min, ltb, leb, ◌==◌, length, take, drop, All, arith,
  Bool-cases, append_assoc, append-nil, length-append, length-take, take-append, take-length_append,
  drop-length_append, length-zero, length-drop,
}
use vibevoice_c.Http.{find_from, mem_find}
use vibevoice_c.Http.Search.{find_from-take, find_from-take-none}
use vibevoice_c.Http.Head.{content_length}
use vibevoice_c.Http.Receive.{
  asked, Call, Receiver, blank_line, make_room, seek, is_complete, receive, receive_all,
}

-- A call that has a byte, in time.
abbrev pub IsReady : Call → Type 0
IsReady k = (0 < k.ready) × (k.late ≡ false)

-- A request: a head that ends with its first blank line and gives the length of the body.
pub record IsRequest (max_body : ℕ) (head body : List ℕ) : Type 0 where
  pub seen : Bool
  pub ends : (e : ℕ) × (find_from blank_line (head ++ body) ≡ some e) × (length head ≡ e + 4)
  pub says : content_length head ≡ some (seen, length body)
  pub small_head : length head ≤ 2 ^ 16
  pub small_body : length body ≤ max_body
  pub limit : max_body ≤ 2 ^ 30 - 2 ^ 20

module _ (alloc : ℕ → Bool) (memory : (n : ℕ) → alloc n ≡ true) (max_body : ℕ) (head body : List ℕ)
    (q : IsRequest max_body head body) where
  -- The end of the head is not in the buffer yet, or it was found.
  abbrev Phase : Receiver → Type 0
  Phase r =
      ((r.head_end ≡ 0) × (length r.buf < length head))
      ⊎ ((r.head_end ≡ length head) × (r.want ≡ length body) × (length head ≤ length r.buf))

  abbrev Waiting : Receiver → Type 0
  Waiting r =
      (r.buf ++ r.coming ≡ head ++ body)
      × Phase r
      × (length r.buf < length head + length body)
      × (length r.buf ≤ r.cap)
      × (2 ^ 16 ≤ r.cap)
      × (r.cap < 2 ^ 31)

  make_room_lem :
      (r : Receiver)
      → Waiting r
      → (cap : ℕ) × (make_room alloc max_body r ≡ some (record r { cap = cap }))
        × (length r.buf < cap)
        × (2 ^ 16 ≤ cap)
        × (cap < 2 ^ 31)
  unfolding make_room
  make_room_lem r (e, p, l, c, b, u) = elim (Bool-cases (length r.buf == r.cap)) [
    | inl t ↦
        (let full : leb ((max_body + 2 ^ 20) % 2 ^ 64) r.cap ≡ false =
            ground (arith, q.small_head, q.small_body, q.limit) in
          let few : r.cap < max_body + 2 ^ 20 =
            ground (arith, t, l, q.small_head, q.small_body, q.limit) in
          (
            r.cap * 2,
            rw (make_room, t, full, memory (r.cap * 2 + 1)) refl,
            ground arith,
            omega arith,
            omega (arith, few, q.limit),
          ))
    | inr f ↦ (r.cap, rw (make_room, f) refl, ground arith, b, u)
  ]

  -- The front of the text that is in the buffer.
  front :
      (r : Receiver) → r.buf ++ r.coming ≡ head ++ body → r.buf ≡ take (length r.buf) (head ++ body)
  front r e = sym (take-length_append r.buf r.coming) ∙ ap (take (length r.buf)) e

  rest_of_take : (n : ℕ) (xs : List ℕ) → take n xs ++ drop (length (take n xs)) xs ≡ xs
  rest_of_take zero xs = refl
  rest_of_take (suc n) [] = refl
  rest_of_take (suc n) (x ∷ xs) = ap (λ (l : List ℕ). x ∷ l) (rest_of_take n xs)

  front_head :
      (r : Receiver)
      → r.buf ++ r.coming ≡ head ++ body
      → length head ≤ length r.buf
      → take (length head) r.buf ≡ head
  front_head r e h =
      sym (take-append (length head) r.buf r.coming h)
      ∙ ap (take (length head)) e
      ∙ take-length_append head body

  found_none :
      (r : Receiver)
      → r.buf ++ r.coming ≡ head ++ body
      → length r.buf < length head
      → mem_find blank_line r.buf ≡ none
  unfolding mem_find
  found_none r e h =
      let (at, f, l) = q.ends in
      ap (find_from blank_line) (front r e)
      ∙ find_from-take-none blank_line (head ++ body) (length r.buf) at f (omega arith)

  found_end :
      (r : Receiver)
      → r.buf ++ r.coming ≡ head ++ body
      → length head ≤ length r.buf
      → mem_find blank_line r.buf ≡ some (q.ends.0)
  unfolding mem_find
  found_end r e h =
      let (at, f, l) = q.ends in
      ap (find_from blank_line) (front r e)
      ∙ find_from-take blank_line (head ++ body) (length r.buf) at (omega arith) f (omega arith)

  -- The search finds the end of the head as soon as it is there.
  seek_lem :
      (r : Receiver)
      → r.buf ++ r.coming ≡ head ++ body
      → (r.head_end ≡ 0)
        ⊎ ((r.head_end ≡ length head) × (r.want ≡ length body) × (length head ≤ length r.buf))
      → (s : Receiver) × (seek alloc max_body false r ≡ some s)
        × (s.buf ≡ r.buf)
        × (s.coming ≡ r.coming)
        × (s.cap ≡ r.cap)
        × Phase s
  unfolding seek
  seek_lem r e (inl z) =
      let start : (r.head_end == 0) ≡ true = ground (arith, z) in
      elim (Bool-cases (ltb (length r.buf) (length head))) [
        | inl t ↦
            (let fits : ltb (2 ^ 16) (length r.buf) ≡ false = ground (arith, q.small_head) in
              (
                r,
                rw (seek, start, found_none r e (ground arith), fits) refl,
                refl,
                refl,
                refl,
                inl (z, ground arith),
              ))
        | inr f ↦
            (let (at, g, l) = q.ends in
              let there : length head ≤ length r.buf = ground arith in
              let whole : take (at + 4) r.buf ≡ head = rw⁻¹ l (front_head r e there) in
              let fits : ltb max_body (length body) ≡ false = ground (arith, q.small_body) in
              (
                record r { head_end = at + 4; want = length body },
                rw (seek, start, found_end r e there, whole, q.says, fits) refl,
                refl,
                refl,
                refl,
                inr (sym l, refl, there),
              ))
      ]
  seek_lem r e (inr (z, w, h)) =
      let (at, g, l) = q.ends in
      let past : (r.head_end == 0) ≡ false = ground (arith, z, l) in
      (r, rw (seek, past) refl, refl, refl, refl, inr (z, w, h))

  -- What a call gives: at least a byte, and no more than there is room for.
  taken :
      (n room : ℕ) (xs : List ℕ)
      → 0 < n
      → 0 < room
      → 0 < length xs
      → (0 < length (take (min n room) xs)) × (length (take (min n room) xs) ≤ room)
  taken n room xs a b c = ground (arith, length-take (min n room) xs)

  -- When the loop ends is when everything is there.
  complete_lem :
      (s : Receiver)
      → s.buf ++ s.coming ≡ head ++ body
      → Phase s
      → ((is_complete alloc max_body s ≡ true)
          × (s.buf ≡ head ++ body)
          × (s.head_end ≡ length head))
        ⊎ ((is_complete alloc max_body s ≡ false) × (length s.buf < length head + length body))
  complete_lem s e (inl (z, l)) = inr (ground (arith, z), omega arith)
  complete_lem s e (inr (z, w, l)) =
      let (at, g, m) = q.ends in
      let total : length s.buf + length s.coming ≡ length head + length body =
        sym (length-append s.buf s.coming) ∙ ap length e ∙ length-append head body in
      let bound : length head + length body < 2 ^ 63 =
        omega (arith, q.small_head, q.small_body, q.limit) in
      elim (Bool-cases (ltb (length s.buf) (length head + length body))) [
        | inl t ↦ inr (ground (arith, z, w, t, bound), ground (arith, t))
        | inr f ↦
            (let nothing_left : s.coming ≡ [] = length-zero s.coming (ground (arith, total, f)) in
              inl (
                ground (arith, z, w, f, bound, m),
                sym (append-nil s.buf) ∙ ap (λ (l : List ℕ). s.buf ++ l) (sym nothing_left) ∙ e,
                z,
              ))
      ]

  -- A call that gives bytes.
  receive-cons :
      (k : Call) (ks : List Call) (r g s : Receiver)
      → make_room alloc max_body r ≡ some g
      → (length (take (min k.ready (asked (g.cap - length g.buf))) g.coming) == 0) ≡ false
      → (seek alloc max_body k.late (
            let got = take (min k.ready (asked (g.cap - length g.buf))) g.coming in
            record g { buf = g.buf ++ got; coming = drop (length got) g.coming })
          ≡ some s)
      → receive alloc max_body (k ∷ ks) r ≡ (elim (is_complete alloc max_body s) [
        | true ↦ some s
        | false ↦ receive alloc max_body ks s
      ])
  unfolding receive
  receive-cons k ks r g s e1 e2 e3 = rw (receive, e1, e2, e3) refl

  receive-Waiting :
      (ks : List Call) (r : Receiver)
      → Waiting r
      → All IsReady ks
      → length r.coming ≤ length ks
      → (s : Receiver) × (receive alloc max_body ks r ≡ some s)
        × (s.buf ≡ head ++ body)
        × (s.head_end ≡ length head)
  receive-Waiting [] r w a h =
      absurd (ground (arith, ap length w.0, length-append r.buf r.coming, length-append head body))
  receive-Waiting (k ∷ ks) r w a h =
      let (cap, g, room, big, under) = make_room_lem r w in
      let all_asked : asked (cap - length r.buf) ≡ cap - length r.buf = ground (arith, under) in
      let space = asked (cap - length r.buf) in
      let more : 0 < length r.coming =
        ground (arith, ap length w.0, length-append r.buf r.coming, length-append head body) in
      let got = take (min k.ready space) r.coming in
      let (some_got, fits) = taken k.ready space r.coming a.0.0 (omega (arith, all_asked)) more in
      let rest = drop (length got) r.coming in
      let text : (r.buf ++ got) ++ rest ≡ head ++ body =
        append_assoc r.buf got rest
        ∙ ap (λ (l : List ℕ). r.buf ++ l) (rest_of_take _ r.coming)
        ∙ w.0 in
      let next : Receiver = record {
        buf = r.buf ++ got;
        cap = cap;
        head_end = r.head_end;
        want = r.want;
        coming = rest;
      } in
      let longer = length-append r.buf got in
      let (s, found, sb, sc, scap, phase) =
        seek_lem next text
          (elim w.1 [ inl (z, l) ↦ inl z | inr (z, v, l) ↦ inr (z, v, omega arith) ]) in
      let whole : s.buf ++ s.coming ≡ head ++ body = rw (sb, sc) text in
      let step = receive-cons k ks r _ s g (ground (arith, some_got)) (rw a.0.1 found) in
      elim (complete_lem s whole phase) [
        | inl (c, b, z) ↦ (s, step ∙ rw c refl, b, z)
        | inr (c, l) ↦
            (let left : length s.coming ≤ length ks =
                ground (arith, ap length sc, length-drop (length got) r.coming) in
              let sb' = ap length sb in
              let (u, run, b, z) =
                receive-Waiting ks s
                  (whole, phase, l, omega (arith, all_asked), omega arith, omega arith) a.1 left in
              (u, step ∙ rw c run, b, z))
      ]

-- A request whose head has at most 64 KB, ends with its first blank line, says how long the body is
-- and announces no more than the server takes, is received whole, head and body, with the body
-- behind the head: however many bytes each call of recv gives, if it gives at least one, in time, and
-- there is memory; on a server that takes bodies of at most 2^30 - 2^20 bytes, so that the room in the
-- buffer fits the `int` that recv is given.
pub receive_all_complete :
    (alloc : ℕ → Bool) (max_body : ℕ) (head body : List ℕ) (ks : List Call)
    → ((n : ℕ) → alloc n ≡ true)
    → IsRequest max_body head body
    → All IsReady ks
    → length (head ++ body) ≤ length ks
    → (s : Receiver) × (receive_all alloc max_body ks (head ++ body) ≡ some s)
      × (s.buf ≡ head ++ body)
      × (s.head_end ≡ length head)
      × (drop s.head_end s.buf ≡ body)
unfolding receive_all
receive_all_complete alloc max_body head body ks memory q a h =
    let (at, g, m) = q.ends in
    let (s, e, b, z) =
      receive-Waiting alloc memory max_body head body q ks
        (record { buf = []; cap = 2 ^ 16; head_end = 0; want = 0; coming = head ++ body })
        (refl, inl (refl, omega arith), omega arith, omega arith, omega arith, omega arith) a h in
    (s, rw (receive_all, memory (2 ^ 16 + 1)) e, b, z, rw (b, z) (drop-length_append head body))
