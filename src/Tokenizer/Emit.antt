-- ===== src/Tokenizer/Emit.antt =====
-- What the encoder of src/text_tokenizer/bpe.c adds to the text of its identifiers: a run of text.
use vibevoice_c.Common.{
  none, ℕ, zero, suc, ◌+◌, ◌*◌, ◌^◌, ◌<◌, ◌≤◌, ◌≡◌, ◌∙◌, refl, sym, ap, Bool, true, false, Option,
  some, List, [], ◌∷◌, ◌++◌, append-nil, append_assoc, leb, ◌==◌, take, drop, length, arith, inl,
  inr, Bool-cases, if_true, All, joined, length-drop, take-append-drop,
}
use mathlib.Core.Path.{subst}
use vibevoice_c.Tokenizer.Bounds.{next_piece-bounds}
use vibevoice_c.Tokenizer.Merge.{
  Sym, Ids, slice, known_id, chars, merge_loop, push_id, push_syms, bpe_piece, byte_level,
  piece_len, encode_pieces, encode_text_run,
}
use vibevoice_c.Tokenizer.Tiles.{IsByte, Tiles, singles, chars-Tiles}
use vibevoice_c.Tokenizer.Words.{IsWord, merge_loop-Tiles}
use vibevoice_c.Tokenizer.Codec.{Tokenizer, token_at, flush_run, decode_id, decode_write}
use vibevoice_c.Tokenizer.Decode.{decode_chars-byte_level}
use vibevoice_c.Tokenizer.Sound.{IsSound, IsByte-front, IsByte-back}

-- The text of identifiers, special tokens included.
abbrev pub text_of : Tokenizer → Ids → List ℕ
text_of t out = decode_write t false out.ids

-- An encoder's step that succeeded and added `xs` to the text.
abbrev pub Emits : Tokenizer → Ids → List ℕ → Option Ids → Type 0
Emits t out xs o = (out' : Ids) × (o ≡ some out') × (text_of t out' ≡ text_of t out ++ xs)

module _ (t : Tokenizer) (sound : IsSound t) (alloc : ℕ → Bool)
    (plenty : (n : ℕ) → alloc n ≡ true) where
  decode_write-append :
      (xs ys : List ℕ)
      → decode_write t false (xs ++ ys) ≡ decode_write t false xs ++ decode_write t false ys
  unfolding decode_write
  decode_write-append [] ys = refl
  decode_write-append (x ∷ xs) ys =
      ap (λ (l : List ℕ). decode_id t false x ++ l) (decode_write-append xs ys)
      ∙ sym (append_assoc (decode_id t false x) (decode_write t false xs) (decode_write t false ys))

  pub push_id-Emits :
      (out : Ids) (id : ℕ) → Emits t out (decode_id t false id) (push_id t.lookups alloc out id)
  unfolding push_id decode_write
  push_id-Emits out id =
      (let text : decode_write t false (out.ids ++ id ∷ [])
            ≡ text_of t out ++ decode_id t false id =
          decode_write-append out.ids (id ∷ [])
          ∙ ap (λ (l : List ℕ). text_of t out ++ l) (append-nil (decode_id t false id)) in
        elim (Bool-cases (leb out.cap (length out.ids))) [
          | inl e ↦ (
            record { ids = out.ids ++ id ∷ []; cap = out.cap * 2 + 64 },
            rw (e, plenty ((out.cap * 2 + 64) * 4)) refl,
            text,
          )
          | inr e ↦ (record out { ids = out.ids ++ id ∷ [] }, rw e refl, text)
        ])

  -- A word's identifier stands for its bytes.
  decode_id-word :
      (b : List ℕ) (id : ℕ)
      → All IsByte b
      → t.lookups.vocab_get (byte_level b) ≡ some id
      → decode_id t false id ≡ b
  unfolding decode_id
  decode_id-word b id a e =
      rw (decode_id, sound.listed (byte_level b) id e, sound.plain (byte_level b) id e)
        (decode_chars-byte_level (length (byte_level b)) b a (omega arith))

  pub Emits-then :
      (out : Ids) (xs ys : List ℕ) (o : Option Ids) (out' : Ids)
      → text_of t out' ≡ text_of t out ++ xs
      → Emits t out' ys o
      → Emits t out (xs ++ ys) o
  Emits-then out xs ys o out' h (out'', e, k) =
      (out'', e, k ∙ ap (λ (l : List ℕ). l ++ ys) h ∙ append_assoc (text_of t out) xs ys)

  -- The identifier of a word is not negative as an `int32_t`, since it has a text.
  known_id-listed :
      (b : List ℕ) (id : ℕ)
      → t.lookups.vocab_get (byte_level b) ≡ some id
      → known_id (some id) ≡ some id
  unfolding known_id token_at
  known_id-listed b id e = elim (Bool-cases (leb (2 ^ 31) id)) [
    | inl f ↦
        (let clash : none ≡ some (byte_level b) =
            sym (if_true _ _ f) ∙ sound.listed (byte_level b) id e in
          absurd (ground (arith, clash)))
    | inr f ↦ rw f refl
  ]

  push_syms-Emits :
      (buf : List ℕ) (p : ℕ) (syms : List Sym) (bs : List (List ℕ)) (out : Ids)
      → Tiles buf p syms bs
      → All (IsWord t.lookups sound.complete) bs
      → All (All IsByte) bs
      → Emits t out (joined bs) (push_syms t.lookups alloc buf out syms)
  unfolding push_syms
  push_syms-Emits buf p [] [] out h w a = (out, refl, sym (append-nil (text_of t out)))
  push_syms-Emits buf p [] (b ∷ bs) out h w a = absurd h
  push_syms-Emits buf p (s ∷ r) [] out h w a = absurd h
  push_syms-Emits buf p (s ∷ r) (b ∷ bs) out h w a =
      (let (id, found) = w.0 in
        let look : known_id (t.lookups.vocab_get (slice buf s)) ≡ some id =
          ap (λ (w : List ℕ). known_id (t.lookups.vocab_get w)) h.1
          ∙ ap (known_id) found
          ∙ known_id-listed b id found in
        let (out', e, k) = push_id-Emits out id in
        let text : text_of t out' ≡ text_of t out ++ b =
          k ∙ ap (λ (l : List ℕ). text_of t out ++ l) (decode_id-word b id a.0 found) in
        rw (push_syms, look, e)
          (Emits-then out b (joined bs) (push_syms t.lookups alloc buf out' r) out' text
            (push_syms-Emits buf (p + s.len) r bs out' h.2 w.1 a.1)))

  singles-IsWord :
      (bs : List ℕ) → All IsByte bs → All (IsWord t.lookups sound.complete) (singles bs)
  unfolding singles
  singles-IsWord [] a = tt
  singles-IsWord (b ∷ bs) a = (sound.complete.has_byte b a.0, singles-IsWord bs a.1)

  joined-singles : (bs : List ℕ) → joined (singles bs) ≡ bs
  unfolding singles
  joined-singles [] = refl
  joined-singles (b ∷ bs) = ap (λ (l : List ℕ). b ∷ l) (joined-singles bs)

  IsByte-joined : (bs : List (List ℕ)) → All IsByte (joined bs) → All (All IsByte) bs
  IsByte-joined [] a = tt
  IsByte-joined (b ∷ bs) a =
      (IsByte-front b (joined bs) a, IsByte-joined bs (IsByte-back b (joined bs) a))

  bpe_piece-Emits :
      (bs : List ℕ) (out : Ids)
      → All IsByte bs
      → Emits t out bs (bpe_piece t.lookups alloc (byte_level bs) out)
  unfolding bpe_piece
  bpe_piece-Emits bs out a =
      (let buf = byte_level bs in
        let syms = chars (length buf) 0 buf in
        let start : Tiles buf 0 syms (singles bs) =
          chars-Tiles (length buf) buf 0 bs a refl (omega arith) in
        let (cs, tiles, words, same) =
          merge_loop-Tiles t.lookups sound.complete (length syms) buf syms (singles bs) start
            (singles-IsWord bs a) in
        let whole : joined cs ≡ bs = same ∙ joined-singles bs in
        let bytes : All (All IsByte) cs = IsByte-joined cs (rw whole a) in
        let merged = merge_loop t.lookups (length syms) buf syms in
        rw (plenty ((length buf + 1) * 8)) (
          subst (λ (xs : List ℕ). Emits t out xs (push_syms t.lookups alloc buf out merged)) whole
            (push_syms-Emits buf 0 merged cs out tiles words bytes)))

  encode_pieces-Emits :
      (f : ℕ) (s : List ℕ) (out : Ids)
      → All IsByte s
      → length s ≤ f
      → Emits t out s (encode_pieces t.lookups alloc f s out)
  unfolding encode_pieces
  encode_pieces-Emits zero [] out a h = (out, refl, sym (append-nil (text_of t out)))
  encode_pieces-Emits zero (c ∷ s) out a h = absurd (omega arith)
  encode_pieces-Emits (suc f) [] out a h = (out, refl, sym (append-nil (text_of t out)))
  encode_pieces-Emits (suc f) (c ∷ s) out a h =
      (let text = c ∷ s in
        let n = piece_len text in
        let b = next_piece-bounds text (omega arith) in
        let pos : 0 < n = ground (arith, b.0) in
        let whole = take-append-drop n text in
        let bytes : All IsByte (take n text ++ drop n text) = rw whole a in
        let (out', e, k) =
          bpe_piece-Emits (take n text) out (IsByte-front (take n text) (drop n text) bytes) in
        let rest =
          encode_pieces-Emits f (drop n text) out' (IsByte-back (take n text) (drop n text) bytes)
            (omega (arith, length-drop n text, pos)) in
        let filled : length text == 0 ≡ false = ground arith in
        rw (encode_pieces, filled, e)
          (subst
            (λ (xs : List ℕ). Emits t out xs (encode_pieces t.lookups alloc f (drop n text) out'))
            whole (Emits-then out (take n text) (drop n text) _ out' k rest)))

  pub flush_run-Emits :
      (run : List ℕ) (out : Ids) → All IsByte run → Emits t out run (flush_run t alloc run out)
  unfolding flush_run encode_text_run
  flush_run-Emits [] out a = (out, refl, sym (append-nil (text_of t out)))
  flush_run-Emits (c ∷ run) out a =
      let filled : suc (length run) == 0 ≡ false = ground arith in
      rw (filled, plenty (length (c ∷ run) * 2 + 8))
        (encode_pieces-Emits (length (c ∷ run)) (c ∷ run) out a (omega arith))
