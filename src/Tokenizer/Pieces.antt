-- ===== src/Tokenizer/Pieces.antt =====
-- `next_piece` of src/text_tokenizer/bpe.c always moves on, and never beyond the text.
use vibevoice_c.Common.{
  ℕ, zero, suc, ◌+◌, ◌<◌, ◌≤◌, ◌≡◌, refl, Bool, true, false, not, ◌&&◌, ◌||◌, Option, none, some,
  List, [], ◌∷◌, ltb, leb, ◌==◌, if◌then◌else◌, get_or, drop, length, length-drop, arith, inl, inr,
  Bool-cases,
}
use Prim.Native.Nat.{bit_and}
use vibevoice_c.Tokenizer.Utf8.{utf8_get}
use vibevoice_c.Tokenizer.Split.{run_while, line_ends, spaces, or_else, cp_is_space}

pub utf8_get_bounds :
    (s : List ℕ) → 0 < length s → (1 ≤ (utf8_get s).0) × ((utf8_get s).0 ≤ length s)
unfolding utf8_get
utf8_get_bounds s h =
    (let c = get_or s 0 0 in
      elim (Bool-cases (ltb c 0x80)) [
        | inl t ↦ rw t (omega arith, h)
        | inr t ↦ elim (Bool-cases (bit_and c 0xE0 == 0xC0 && leb 2 (length s))) [
          | inl u ↦ rw (t, u) (omega arith, ground arith)
          | inr u ↦ elim (Bool-cases (bit_and c 0xF0 == 0xE0 && leb 3 (length s))) [
            | inl v ↦ rw (t, u, v) (omega arith, ground arith)
            | inr v ↦ elim (Bool-cases (bit_and c 0xF8 == 0xF0 && leb 4 (length s))) [
              | inl w ↦ rw (t, u, v, w) (omega arith, ground arith)
              | inr w ↦ rw (t, u, v, w) (omega arith, h)
            ]
          ]
        ]
      ])

pub run_while-bound : (test : ℕ → Bool) (f : ℕ) (s : List ℕ) → run_while test f s ≤ length s
unfolding run_while
run_while-bound test zero s = omega arith
run_while-bound test (suc f) s =
    (let a = (utf8_get s).0 in
      let ih = run_while-bound test f (drop a s) in
      elim (Bool-cases (length s == 0)) [
        | inl t ↦ rw t (omega arith)
        | inr t ↦ elim (Bool-cases (test (utf8_get s).1)) [
          | inl u ↦ rw (t, u) (omega (arith, ih, length-drop a s, utf8_get_bounds s (ground arith)))
          | inr u ↦ rw (t, u) (omega arith)
        ]
      ])

pub line_ends-bound : (s : List ℕ) → line_ends s ≤ length s
unfolding line_ends
line_ends-bound [] = omega arith
line_ends-bound (c ∷ s) = elim (Bool-cases (c == b'\r' || c == b'\n')) [
  | inl t ↦ rw t (omega (arith, line_ends-bound s))
  | inr t ↦ rw t (omega arith)
]

-- The last line end is before the end of the run.
abbrev pub Within : Option ℕ → ℕ → Type 0
Within none e = Unit {0}
Within (some i) e = i < e

abbrev pub SpacesFit : ℕ → ℕ → ℕ × Option ℕ → Type 0
SpacesFit from to (e, l) = (from ≤ e) × (e ≤ to) × Within l e

SpacesFit-if :
    (from to : ℕ) (b : Bool) (x y : ℕ × Option ℕ)
    → (b ≡ true → SpacesFit from to x)
    → (b ≡ false → SpacesFit from to y)
    → SpacesFit from to (if b then x else y)
SpacesFit-if from to true x y h k = h refl
SpacesFit-if from to false x y h k = k refl

SpacesFit-widen :
    (from m to n : ℕ) (x : ℕ × Option ℕ) → from ≤ m → n ≤ to → SpacesFit m n x → SpacesFit from to x
SpacesFit-widen from m to n (e, l) h k f = (omega (arith, f.0), omega (arith, f.1), f.2)

Within-next :
    (b : Bool) (i a : ℕ) (l : Option ℕ)
    → 1 ≤ a
    → Within l i
    → Within (if b then some i else l) (i + a)
Within-next true i a l h k = omega arith
Within-next false i a none h k = tt
Within-next false i a (some j) h k = omega (arith, k)

spaces-SpacesFit :
    (f : ℕ) (s : List ℕ) (end : ℕ) (l : Option ℕ)
    → Within l end
    → SpacesFit end (end + length s) (spaces f s end l)
unfolding spaces
spaces-SpacesFit zero s end l h = (omega arith, omega arith, h)
spaces-SpacesFit (suc f) s end l h =
    (let a = (utf8_get s).0 in
      let cp = (utf8_get s).1 in
      SpacesFit-if end (end + length s) (length s == 0) _ _ (λ e. (omega arith, omega arith, h))
        (λ e.
          let b = utf8_get_bounds s (ground arith) in
          SpacesFit-if end (end + length s) (not (cp_is_space cp)) _ _
            (λ k. (omega arith, omega arith, h))
            (λ k.
              SpacesFit-widen end (end + a) (end + length s) (end + a + length (drop a s)) _
                (omega arith) (omega (arith, length-drop a s, b.1))
                (spaces-SpacesFit f (drop a s) (end + a)
                  (if cp == b'\r' || cp == b'\n' then some end else l)
                  (Within-next (cp == b'\r' || cp == b'\n') end a l b.0 h)))))

-- A first space is passed.
pub spaces-passes :
    (f : ℕ) (s : List ℕ)
    → 0 < f
    → 0 < length s
    → cp_is_space (utf8_get s).1 ≡ true
    → SpacesFit 1 (length s) (spaces f s 0 none)
unfolding spaces
spaces-passes zero s z h k = absurd (omega arith)
spaces-passes (suc f) s z h k =
    (let a = (utf8_get s).0 in
      let cp = (utf8_get s).1 in
      let b = utf8_get_bounds s h in
      SpacesFit-if 1 (length s) (length s == 0) _ _ (λ e. absurd (ground arith))
        (λ e.
          SpacesFit-if 1 (length s) (not (cp_is_space cp)) _ _ (λ m. absurd (ground (arith, m, k)))
            (λ m.
              SpacesFit-widen 1 (0 + a) (length s) (0 + a + length (drop a s)) _
                (omega (arith, b.0)) (omega (arith, length-drop a s, b.1))
                (spaces-SpacesFit f (drop a s) (0 + a)
                  (if cp == b'\r' || cp == b'\n' then some 0 else none)
                  (Within-next (cp == b'\r' || cp == b'\n') 0 a none b.0 tt)))))

-- A piece has a byte at least, and ends in the text.
abbrev pub Fits : ℕ → Option ℕ → Type 0
Fits len none = Unit {0}
Fits len (some n) = (0 < n) × (n ≤ len)

pub Fits-if :
    (len : ℕ) (b : Bool) (x y : Option ℕ)
    → (b ≡ true → Fits len x)
    → (b ≡ false → Fits len y)
    → Fits len (if b then x else y)
Fits-if len true x y h k = h refl
Fits-if len false x y h k = k refl

pub or_else-Fits :
    (len : ℕ) (o : Option ℕ) (n : ℕ)
    → Fits len o
    → (0 < n) × (n ≤ len)
    → (0 < or_else o n) × (or_else o n ≤ len)
or_else-Fits len none n h k = k
or_else-Fits len (some m) n h k = h
