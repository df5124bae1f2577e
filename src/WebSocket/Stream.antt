-- ===== src/WebSocket/Stream.antt =====
-- What `vv_ws_parser_feed` of src/server/ws.c makes of a stream, whatever the pieces it arrives in:
-- the rounds of WebSocket.Frame on the whole stream, with no buffers between them.
use vibevoice_c.Common.{
  ℕ, zero, suc, ◌<◌, ◌^◌, ◌≡◌, ◌∙◌, ap, refl, sym, Option, List, [], ◌++◌, append_assoc, drop,
  length, arith, length-append, length-drop, drop-append,
}
use mathlib.Core.Path.{subst}
use vibevoice_c.WebSocket.Frame.{Limits, Assembly, Event, Round, more, bad, whole, frame}
use vibevoice_c.WebSocket.Chunks.{Extended, frame-Extended}
use vibevoice_c.WebSocket.Sizes.{Fitting, frame-Fitting}

-- What is known after the bytes so far: the message in progress and the bytes of no whole frame yet,
-- or a violation with its close code.
pub data Reading : Type 0 where
  waiting : Assembly → List ℕ → Reading
  broken : ℕ → Reading

unfoldable pub scan : ℕ → Limits → Assembly → List ℕ → Reading × List Event
scan zero l a bs = (waiting a bs, [])
scan (suc f) l a bs = elim (frame l a bs) [
  | more ↦ (waiting a bs, [])
  | bad code bytes ↦ (broken code, [])
  | whole size bytes need a' events ↦
      (let (r, later) = scan f l a' (drop size bs) in (r, events ++ later))
]

unfoldable pub read : Limits → Assembly → List ℕ → Reading × List Event
unfolding scan
read l a bs = scan (suc (length bs)) l a bs

abbrev pub after : List Event → Reading × List Event → Reading × List Event
after events (r, later) = (r, events ++ later)

-- More bytes.
abbrev pub resume : Limits → Reading × List Event → List ℕ → Reading × List Event
resume l (waiting a rest, events) c = after events (read l a (rest ++ c))
resume l (broken code, events) c = (broken code, events)

resume-after :
    (l : Limits) (events : List Event) (o : Reading × List Event) (c : List ℕ)
    → resume l (after events o) c ≡ after events (resume l o c)
resume-after l events (waiting a rest, later) c =
    ap (λ (es : List Event). ((read l a (rest ++ c)).0, es)) (append_assoc events later _)
resume-after l events (broken code, later) c = refl

-- What a round is.
pub data Known (r : Round) : Type 0 where
  asks : r ≡ more → Known r
  refuses : (code : ℕ) (bytes : List ℕ) → r ≡ bad code bytes → Known r
  takes :
      (size : ℕ) (bytes : List ℕ) (need : Option ℕ) (a : Assembly) (events : List Event)
      → r ≡ whole size bytes need a events
      → Known r

pub known : (r : Round) → Known r
known more = asks refl
known (bad code bytes) = refuses code bytes refl
known (whole size bytes need a events) = takes size bytes need a events refl

-- Fuel beyond the number of bytes changes nothing.
pub scan-fuel :
    (f g : ℕ) (l : Limits) (a : Assembly) (bs : List ℕ)
    → l.max_message < 2 ^ 62
    → length bs < f
    → length bs < g
    → scan f l a bs ≡ scan g l a bs
unfolding scan
scan-fuel zero g l a bs m h k = absurd (omega arith)
scan-fuel (suc f) zero l a bs m h k = absurd (omega arith)
scan-fuel (suc f) (suc g) l a bs m h k = elim (known (frame l a bs)) [
  | asks e ↦ rw (scan, e) refl
  | refuses code bytes e ↦ rw (scan, e) refl
  | takes size bytes need a' events e ↦
      (let fit : Fitting (length bs) (whole size bytes need a' events) =
          subst (λ (r : Round). Fitting (length bs) r) e (frame-Fitting l a bs m) in
        rw (scan, e)
          (ap (after events) (
            scan-fuel f g l a' (drop size bs) m (omega (arith, length-drop size bs, fit.0, fit.1))
              (omega (arith, length-drop size bs, fit.0, fit.1)))))
]

-- A stream read to some point, and then the rest of it, is the stream read at once.
scan-append :
    (f : ℕ) (l : Limits) (a : Assembly) (bs c : List ℕ)
    → l.max_message < 2 ^ 62
    → length (bs ++ c) < f
    → scan f l a (bs ++ c) ≡ resume l (scan f l a bs) c
unfolding scan read
scan-append zero l a bs c m h = absurd (omega arith)
scan-append (suc f) l a bs c m h = elim (known (frame l a bs)) [
  | asks e ↦
      rw (scan, e) (scan-fuel (suc f) (suc (length (bs ++ c))) l a (bs ++ c) m h (omega arith))
  | refuses code bytes e ↦
      (let x : Extended (bad code bytes) (frame l a (bs ++ c)) =
          subst (λ (r : Round). Extended r (frame l a (bs ++ c))) e (frame-Extended l a bs c m) in
        rw (scan, e, x.1) refl)
  | takes size bytes need a' events e ↦
      (let fit : Fitting (length bs) (whole size bytes need a' events) =
          subst (λ (r : Round). Fitting (length bs) r) e (frame-Fitting l a bs m) in
        let x : Extended (whole size bytes need a' events) (frame l a (bs ++ c)) =
          subst (λ (r : Round). Extended r (frame l a (bs ++ c))) e (frame-Extended l a bs c m) in
        rw (scan, e, x, drop-append size bs c fit.1)
          (ap (after events) (
              scan-append f l a' (drop size bs) c m (
                omega (
                  arith,
                  length-append (drop size bs) c,
                  length-append bs c,
                  length-drop size bs,
                  fit.0,
                  fit.1,
                )))
            ∙ sym (resume-after l events (scan f l a' (drop size bs)) c)))
]

pub read-append :
    (l : Limits) (a : Assembly) (bs c : List ℕ)
    → l.max_message < 2 ^ 62
    → read l a (bs ++ c) ≡ resume l (read l a bs) c
unfolding read
read-append l a bs c m =
    scan-append (suc (length (bs ++ c))) l a bs c m (omega arith)
    ∙ ap (λ (o : Reading × List Event). resume l o c)
        (scan-fuel (suc (length (bs ++ c))) (suc (length bs)) l a bs m
          (omega (arith, length-append bs c)) (omega arith))
