-- ===== src/WebSocket/Pieces.antt =====
-- `vv_ws_parser_feed` of src/server/ws.c on the pieces of a stream, against the reading of the whole.
use vibevoice_c.Common.{
  joined, double_to, ℕ, zero, suc, ◌+◌, ◌<◌, ◌^◌, ◌≡◌, ◌∙◌, ap, refl, sym, Bool, true, false,
  Option, none, some, List, [], ◌∷◌, ◌++◌, append-nil, append_assoc, drop, length, arith,
  length-drop, leb, ◌==◌, if◌then◌else◌, Status, Bool-cases, inl, inr, if_true, if_false,
}
use mathlib.Core.Path.{subst}
use vibevoice_c.WebSocket.Frame.{Limits, Assembly, Event, Round, whole, frame}
use vibevoice_c.WebSocket.Feed.{
  Parser, init, failure, End, paused, stopped, out_of_fuel, grow, demand, loop, settle, take_in,
  feed,
}
use vibevoice_c.WebSocket.Sizes.{Fitting, frame-Fitting}
use vibevoice_c.WebSocket.Stream.{
  Reading, waiting, broken, scan, read, after, resume, read-append, known, asks, refuses, takes,
}

-- The loop's end is what the description finds.
abbrev Agrees : End → Reading → Type 0
Agrees (paused a cap rest) r = r ≡ waiting a rest
Agrees (stopped s code failed a cap buffer) r =
    (r ≡ broken code) × (s ≡ failure code) × (failed ≡ true)
Agrees out_of_fuel r = ⊥

abbrev AgreesWith : End × List Event → Reading × List Event → Type 0
AgreesWith (e, events) (r, events') = Agrees e r × (events ≡ events')

AgreesWith-after :
    (events : List Event) (x : End × List Event) (y : Reading × List Event)
    → AgreesWith x y
    → AgreesWith (x.0, events ++ x.1) (after events y)
AgreesWith-after events (e, es) (r, es') h = (h.0, ap (λ (l : List Event). events ++ l) h.1)

-- The status of a call.
abbrev pub answer : Reading → Status
answer (waiting a rest) = Status.ok
answer (broken code) = failure code

-- The parser stands where the reading says.
abbrev pub Stands : Parser → Reading → Type 0
Stands p (waiting a rest) = (p.failed ≡ false) × (p.assembly ≡ a) × (p.input ≡ rest)
Stands p (broken code) = (p.failed ≡ true) × (p.close_code ≡ code)

-- What a call gives back, and what it leaves.
abbrev Continues : Limits → (Status × Parser) × List Event → Reading × List Event → Type 0
Continues l ((s, p), events) (r, events') =
    Stands p r × (events ≡ events') × (p.limits ≡ l) × (s ≡ answer r)

abbrev Caught : Parser × List Event → Reading × List Event → Type 0
Caught (p, events) (r, events') = Stands p r × (events ≡ events')

module _ (alloc : ℕ → Bool) (plenty : (n : ℕ) → alloc n ≡ true) where
  grow-some : (cap need : ℕ) → (c : ℕ) × (grow alloc cap need ≡ some c)
  unfolding grow
  grow-some cap need = elim (Bool-cases (leb need cap)) [
    | inl t ↦ (cap, rw t refl)
    | inr f ↦ (
      double_to need (if cap == 0 then 4096 else cap) need,
      rw (f, plenty (double_to need (if cap == 0 then 4096 else cap) need)) refl,
    )
  ]

  demand-some : (cap : ℕ) (need : Option ℕ) → (c : ℕ) × (demand alloc cap need ≡ some c)
  unfolding demand
  demand-some cap none = (cap, refl)
  demand-some cap (some need) = grow-some cap need

  loop-Agrees :
      (f : ℕ) (l : Limits) (a : Assembly) (cap : ℕ) (done rest : List ℕ)
      → l.max_message < 2 ^ 62
      → length rest < f
      → AgreesWith (loop alloc f l a cap done rest) (scan f l a rest)
  unfolding loop scan
  loop-Agrees zero l a cap done rest m h = absurd (omega arith)
  loop-Agrees (suc f) l a cap done rest m h = elim (known (frame l a rest)) [
    | asks e ↦ rw (loop, scan, e) (refl, refl)
    | refuses code bytes e ↦ rw (loop, scan, e) ((refl, refl, refl), refl)
    | takes size bytes need a' events e ↦
        (let fit : Fitting (length rest) (whole size bytes need a' events) =
            subst (λ (r : Round). Fitting (length rest) r) e (frame-Fitting l a rest m) in
          let (c, k) = demand-some cap need in
          rw (loop, scan, e, k)
            (AgreesWith-after events _ _ (
              loop-Agrees f l a' c (done ++ bytes) (drop size rest) m
                (omega (arith, length-drop size rest, fit.0, fit.1)))))
  ]

  settle-Continues :
      (p : Parser) (x : End × List Event) (y : Reading × List Event)
      → p.failed ≡ false
      → AgreesWith x y
      → Continues p.limits (settle alloc p x.0, x.1) y
  unfolding settle
  settle-Continues p (paused a cap rest, es) (r, es') h k =
      rw k.0 ((h, refl, refl), k.1, refl, refl)
  settle-Continues p (stopped s code failed a cap buffer, es) (r, es') h k =
      rw k.0.0 ((k.0.2, rw k.0.2 refl), k.1, refl, k.0.1)
  settle-Continues p (out_of_fuel, es) (r, es') h k = absurd k.0

  room-some :
      (p : Parser) (bytes : List ℕ)
      → (c : ℕ) × ((if length bytes == 0
            then some p.in_cap
            else grow alloc p.in_cap (length p.input + length bytes))
          ≡ some c)
  room-some p bytes = elim (Bool-cases (length bytes == 0)) [
    | inl t ↦ (p.in_cap, rw t refl)
    | inr f ↦ rw f (grow-some p.in_cap (length p.input + length bytes))
  ]

  take_in-Continues :
      (p : Parser) (bytes : List ℕ) (cap : ℕ)
      → p.limits.max_message < 2 ^ 62
      → p.failed ≡ false
      → Continues p.limits
          (take_in alloc p bytes (some cap))
          (resume p.limits (waiting p.assembly p.input, []) bytes)
  unfolding take_in read
  take_in-Continues p bytes cap m h =
      settle-Continues (record p { in_cap = cap; input = p.input ++ bytes }) _ _ h
        (loop-Agrees (suc (length (p.input ++ bytes))) p.limits p.assembly p.msg_cap []
          (p.input ++ bytes) m (omega arith))

  feed-Continues :
      (p : Parser) (bytes : List ℕ) (r : Reading)
      → p.limits.max_message < 2 ^ 62
      → Stands p r
      → Continues p.limits (feed alloc p bytes) (resume p.limits (r, []) bytes)
  unfolding feed
  feed-Continues p bytes (broken code) m h =
      subst (λ z. Continues p.limits z (broken code, [])) (sym (if_true _ _ h.0))
        (h, refl, refl, ap failure h.1)
  feed-Continues p bytes (waiting a rest) m h =
      (let (c, k) = room-some p bytes in
        subst (λ z. Continues p.limits z (resume p.limits (waiting a rest, []) bytes))
          (sym (if_false _ _ h.0)) (rw (k, ← h.1, ← h.2) (take_in-Continues p bytes c m h.0)))

-- A client that hands on whatever arrives, piece by piece.
unfoldable pub feed_all : (ℕ → Bool) → Parser → List (List ℕ) → Parser × List Event
feed_all alloc p [] = (p, [])
feed_all alloc p (c ∷ cs) =
    let ((s, p'), events) = feed alloc p c in
    let (q, later) = feed_all alloc p' cs in (q, events ++ later)

module _ (alloc : ℕ → Bool) (plenty : (n : ℕ) → alloc n ≡ true) where
  -- What came out already stays in front.
  resume-events :
      (l : Limits) (o : Reading × List Event) (c : List ℕ)
      → resume l o c ≡ after o.1 (resume l (o.0, []) c)
  resume-events l (waiting a rest, events) c = refl
  resume-events l (broken code, events) c =
      ap (λ (es : List Event). (broken code, es)) (sym (append-nil events))

  one_more :
      (l : Limits) (a : Assembly) (s c : List ℕ)
      → l.max_message < 2 ^ 62
      → after (read l a s).1 (resume l ((read l a s).0, []) c) ≡ read l a (s ++ c)
  one_more l a s c m = sym (resume-events l (read l a s) c) ∙ sym (read-append l a s c m)

  -- A call on the piece `c`, after the stream `s`.
  feed-read :
      (p : Parser) (c : List ℕ) (l : Limits) (a : Assembly) (s : List ℕ)
      → l.max_message < 2 ^ 62
      → p.limits ≡ l
      → Stands p (read l a s).0
      → Continues l ((feed alloc p c).0, (read l a s).1 ++ (feed alloc p c).1) (read l a (s ++ c))
  feed-read p c l a s m e h =
      (let go : Continues l (feed alloc p c) (resume l ((read l a s).0, []) c) =
          subst (λ (k : Limits). Continues k (feed alloc p c) (resume k ((read l a s).0, []) c)) e
            (feed-Continues alloc plenty p c (read l a s).0 (rw e m) h) in
        subst (λ z. Continues l ((feed alloc p c).0, (read l a s).1 ++ (feed alloc p c).1) z)
          (one_more l a s c m)
          (go.0, ap (λ (es : List Event). (read l a s).1 ++ es) go.1, go.2, go.3))

  feed_all-Caught :
      (p : Parser) (pieces : List (List ℕ)) (l : Limits) (a : Assembly) (s : List ℕ)
      → l.max_message < 2 ^ 62
      → p.limits ≡ l
      → Stands p (read l a s).0
      → Caught
          ((feed_all alloc p pieces).0, (read l a s).1 ++ (feed_all alloc p pieces).1)
          (read l a (s ++ joined pieces))
  unfolding feed_all
  feed_all-Caught p [] l a s m e h = rw (append-nil s, append-nil (read l a s).1) (h, refl)
  feed_all-Caught p (c ∷ cs) l a s m e h =
      (let go = feed-read p c l a s m e h in
        let later = feed_all-Caught (feed alloc p c).0.1 cs l a (s ++ c) m go.2 go.0 in
        rw
          (← append_assoc s c (joined cs), ← append_assoc (read l a s).1 (feed alloc p c).1 _, go.1)
          later)

  -- In whatever pieces a stream arrives, the parser makes the same calls and stands where the reading
  -- of the whole stream says, if no memory is refused and messages are limited to less than 2 ^ 62
  -- bytes.
  pub pieces_are_read_as_one :
      (max_message : ℕ) (pieces : List (List ℕ))
      → (init max_message).limits.max_message < 2 ^ 62
      → (let (p, events) = feed_all alloc (init max_message) pieces in
          let (r, events') =
            read (init max_message).limits (init max_message).assembly (joined pieces) in
          Stands p r × (events ≡ events'))
  unfolding init read scan frame
  pieces_are_read_as_one n pieces m =
      feed_all-Caught (init n) pieces (init n).limits (init n).assembly [] m refl (refl, refl, refl)

  -- Two ways to cut a stream into pieces give the same calls and leave the parser at the same point,
  -- if no memory is refused and messages are limited to less than 2 ^ 62 bytes.
  pub cut_does_not_matter :
      (max_message : ℕ) (ps qs : List (List ℕ))
      → (init max_message).limits.max_message < 2 ^ 62
      → joined ps ≡ joined qs
      → (let (p, events) = feed_all alloc (init max_message) ps in
          let (q, events') = feed_all alloc (init max_message) qs in
          (events ≡ events') × ((r : Reading) × (Stands p r × Stands q r)))
  cut_does_not_matter n ps qs m e =
      (let x = pieces_are_read_as_one n ps m in
        let y = pieces_are_read_as_one n qs m in
        let w = read (init n).limits (init n).assembly in
        (
          x.1 ∙ ap (λ (bs : List ℕ). (w bs).1) e ∙ sym y.1,
          (
            (w (joined qs)).0,
            (subst (λ bs. Stands (feed_all alloc (init n) ps).0 (w bs).0) e x.0, y.0),
          ),
        ))
