-- ===== src/Tokenizer/Bounds.antt =====
-- Each alternative of `next_piece` in src/text_tokenizer/bpe.c stays within the text.
use vibevoice_c.Common.{
  ℕ, ◌+◌, ◌<◌, ◌≤◌, not, ◌&&◌, ◌||◌, Option, none, some, List, ltb, leb, ◌==◌, if◌then◌else◌,
  get_or, drop, length, length-drop, arith,
}
use Prim.Native.Nat.{bit_or}
use vibevoice_c.Tokenizer.Utf8.{utf8_get}
use vibevoice_c.Tokenizer.Split.{
  run_while, spaces, contraction, word, digit, symbols, white, space_end, next_piece, is_other,
  cp_is_space, cp_is_letter, cp_is_digit,
}
use vibevoice_c.Tokenizer.Pieces.{
  utf8_get_bounds, run_while-bound, line_ends-bound, SpacesFit, spaces-passes, Fits, Fits-if,
  or_else-Fits,
}

module _ (s : List ℕ) (h : 0 < length s) where
  contraction-Fits : (cp : ℕ) → Fits (length s) (contraction cp s)
  unfolding contraction
  contraction-Fits cp =
      (let c1 = bit_or (get_or s 1 0) 0x20 in
        let c2 = bit_or (get_or s 2 0) 0x20 in
        let pair =
          (c1 == b'r' && c2 == b'e') || (c1 == b'v' && c2 == b'e') || (c1 == b'l' && c2 == b'l') in
        let three : Option ℕ = if leb 3 (length s) && pair then some 3 else none in
        Fits-if (length s) (cp == b'\'' && leb 2 (length s))
          (if c1 == b's' || c1 == b't' || c1 == b'm' || c1 == b'd' then some 2 else three) none
          (λ e.
            Fits-if (length s) (c1 == b's' || c1 == b't' || c1 == b'm' || c1 == b'd') (some 2) three
              (λ k. (omega arith, ground arith))
              (λ k.
                Fits-if (length s) (leb 3 (length s) && pair) (some 3) none
                  (λ m. (omega arith, ground arith)) (λ m. tt)))
          (λ e. tt))

  word-Fits : (adv cp : ℕ) → adv ≤ length s → Fits (length s) (word adv cp s)
  unfolding word
  word-Fits adv cp b =
      (let p =
          if not (cp == b'\r') && not (cp == b'\n') && not (cp_is_letter cp) && not (cp_is_digit cp)
          then adv
          else 0 in
        let r = run_while-bound cp_is_letter (length s) (drop p s) in
        let d = length-drop p s in
        let q : p ≤ length s = ground arith in
        Fits-if (length s) (ltb 0 (run_while cp_is_letter (length s) (drop p s))) _ _
          (λ e. (ground arith, omega (arith, r, d, q))) (λ e. tt))

  digit-Fits : (adv cp : ℕ) → (1 ≤ adv) × (adv ≤ length s) → Fits (length s) (digit adv cp)
  unfolding digit
  digit-Fits adv cp b = Fits-if (length s) (cp_is_digit cp) _ _ (λ e. b) (λ e. tt)

  symbols-Fits : (cp : ℕ) → Fits (length s) (symbols cp s)
  unfolding symbols
  symbols-Fits cp =
      (let p = if cp == b' ' then 1 else 0 in
        let q = run_while is_other (length s) (drop p s) in
        let r = run_while-bound is_other (length s) (drop p s) in
        let d = length-drop p s in
        let l = line_ends-bound (drop (p + q) s) in
        let m = length-drop (p + q) s in
        let k : p ≤ length s = ground arith in
        Fits-if (length s) (ltb 0 q) _ _ (λ e. (ground arith, omega (arith, r, d, l, m, k)))
          (λ e. tt))

  space_end-Fits :
      (x : ℕ × Option ℕ)
      → SpacesFit 1 (length s) x
      → (0 < space_end (length s) x) × (space_end (length s) x ≤ length s)
  space_end-Fits (e, some i) f = (omega arith, omega (arith, f.1, f.2))
  space_end-Fits (e, none) f = ground (arith, f.0, f.1)

  white-Fits : Fits (length s) (white (utf8_get s).1 s)
  unfolding white
  white-Fits =
      Fits-if (length s) (cp_is_space (utf8_get s).1) _ _
        (λ e. space_end-Fits (spaces (length s) s 0 none) (spaces-passes (length s) s h h e))
        (λ e. tt)

  -- A piece of a text that is not empty has at least one byte and ends in the text.
  pub next_piece-bounds : (0 < next_piece s) × (next_piece s ≤ length s)
  unfolding next_piece
  next_piece-bounds =
      (let (adv, cp) = utf8_get s in
        let b = utf8_get_bounds s h in
        or_else-Fits (length s) (contraction cp s) _ (contraction-Fits cp) (
          or_else-Fits (length s) (word adv cp s) _ (word-Fits adv cp b.1) (
            or_else-Fits (length s) (digit adv cp) _ (digit-Fits adv cp b) (
              or_else-Fits (length s) (symbols cp s) _ (symbols-Fits cp)
                (or_else-Fits (length s) (white cp s) _ white-Fits b)))))
