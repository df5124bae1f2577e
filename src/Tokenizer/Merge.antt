-- ===== src/Tokenizer/Merge.antt =====
-- `bpe_piece` and `encode_text_run` of src/text_tokenizer/bpe.c, over the two lookups of the tables.
use vibevoice_c.Common.{
  ◌^◌, ℕ, zero, suc, ◌+◌, ◌*◌, Bool, true, false, Option, none, some, List, [], ◌∷◌, ◌++◌, ltb, leb,
  ◌==◌, if◌then◌else◌, take, drop, length,
}
use vibevoice_c.Tokenizer.Utf8.{utf8_get, utf8_put, byte_to_cp}
use vibevoice_c.Tokenizer.Split.{next_piece}

-- What the encoder asks of a tokenizer: `merge_rank` and `vocab_get`.
pub record Lookups : Type 0 where
  pub merge_rank : List ℕ → List ℕ → Option ℕ
  pub vocab_get : List ℕ → Option ℕ

-- `sym_t`
pub record Sym : Type 0 where
  pub start : ℕ
  pub len : ℕ

abbrev pub slice : List ℕ → Sym → List ℕ
slice buf s = take s.len (drop s.start buf)

-- One symbol for each character of the rest `s` of the buffer, which begins at `p`; with fuel.
unfoldable pub chars : ℕ → ℕ → List ℕ → List Sym
chars zero p s = []
chars (suc f) p s =
    let a = (utf8_get s).0 in
    let rest = chars f (p + a) (drop a s) in
    if length s == 0 then [] else record { start = p; len = a } ∷ rest

-- `best_rank` and `best_i`, after the rank of the pair at `i`.
abbrev pub better : Option (ℕ × ℕ) → Option ℕ → ℕ → Option (ℕ × ℕ)
better best none i = best
better none (some r) i = some (r, i)
better (some (b, j)) (some r) i = if ltb r b then some (r, i) else some (b, j)

-- `sym[i].len += sym[i + 1].len`, and the symbols behind move up.
unfoldable pub merge_at : ℕ → List Sym → List Sym
merge_at zero (a ∷ b ∷ r) = record a { len = a.len + b.len } ∷ r
merge_at (suc i) (a ∷ r) = a ∷ merge_at i r
merge_at i r = r

-- The identifiers so far, in a buffer for `cap` of them.
pub record Ids : Type 0 where
  pub ids : List ℕ
  pub cap : ℕ

-- `id < 0`, the test for a text that is not in the table, as the code has it on `int32_t`: an
-- identifier from 2 ^ 31 on is negative too.
unfoldable pub known_id : Option ℕ → Option ℕ
known_id none = none
known_id (some id) = if leb (2 ^ 31) id then none else some id

module _ (t : Lookups) where
  -- The loop over the pairs of symbols from index `i` on.
  unfoldable pub find_best : List ℕ → ℕ → Option (ℕ × ℕ) → List Sym → Option (ℕ × ℕ)
  find_best buf i best [] = best
  find_best buf i best (a ∷ []) = best
  find_best buf i best (a ∷ b ∷ r) =
      find_best buf (i + 1) (better best (t.merge_rank (slice buf a) (slice buf b)) i) (b ∷ r)

  -- `while (ns > 1)`, with fuel; each round takes a symbol away.
  unfoldable pub merge_loop : ℕ → List ℕ → List Sym → List Sym
  merge_loop zero buf syms = syms
  merge_loop (suc f) buf syms = elim (ltb 1 (length syms)) [
    | false ↦ syms
    | true ↦ (elim (find_best buf 0 none syms) [
      | none ↦ syms
      | some (r, i) ↦ merge_loop f buf (merge_at i syms)
    ])
  ]

  module _ (alloc : ℕ → Bool) where
    -- An identifier more; `none` is VV_ERR_OUT_OF_MEMORY.
    unfoldable pub push_id : Ids → ℕ → Option Ids
    push_id out id =
        if leb out.cap (length out.ids)
        then if alloc ((out.cap * 2 + 64) * 4)
          then some (record { ids = out.ids ++ id ∷ []; cap = out.cap * 2 + 64 })
          else none
        else some (record out { ids = out.ids ++ id ∷ [] })

    -- The loop that looks the symbols up.
    unfoldable pub push_syms : List ℕ → Ids → List Sym → Option Ids
    push_syms buf out [] = some out
    push_syms buf out (s ∷ r) = elim (known_id (t.vocab_get (slice buf s))) [
      | none ↦ push_syms buf out r
      | some id ↦ (elim (push_id out id) [ none ↦ none | some out' ↦ push_syms buf out' r ])
    ]

    unfoldable pub bpe_piece : List ℕ → Ids → Option Ids
    unfolding chars merge_loop push_syms
    bpe_piece buf out =
        if alloc ((length buf + 1) * 8)
        then (let syms = chars (length buf) 0 buf in
            push_syms buf out (merge_loop (length syms) buf syms))
        else none

-- The bytes of a piece in the byte-level alphabet.
unfoldable pub byte_level : List ℕ → List ℕ
byte_level [] = []
byte_level (b ∷ bs) = utf8_put (byte_to_cp b) ++ byte_level bs

abbrev pub piece_len : List ℕ → ℕ
piece_len s = if next_piece s == 0 then 1 else next_piece s

module _ (t : Lookups) (alloc : ℕ → Bool) where
  -- The loop over the pieces of a text, with fuel; each takes a byte at least.
  unfoldable pub encode_pieces : ℕ → List ℕ → Ids → Option Ids
  encode_pieces zero s out = some out
  encode_pieces (suc f) s out = elim (length s == 0) [
    | true ↦ some out
    | false ↦ (elim (bpe_piece t alloc (byte_level (take (piece_len s) s)) out) [
      | none ↦ none
      | some out' ↦ encode_pieces f (drop (piece_len s) s) out'
    ])
  ]

  -- `encode_text_run`
  unfoldable pub encode_text_run : List ℕ → Ids → Option Ids
  unfolding encode_pieces
  encode_text_run s out = if alloc (length s * 2 + 8) then encode_pieces (length s) s out else none
