-- ===== src/Tokenizer/Codec.antt =====
-- A tokenizer of src/text_tokenizer/bpe.c, `vv_tokenizer_encode` and the decoding functions.
use vibevoice_c.Common.{
  starts_with, equal_bytes, ℕ, zero, suc, ◌+◌, ◌*◌, ◌/◌, ◌^◌, Bool, ◌&&◌, Option, none, some, List,
  [], ◌∷◌, ◌++◌, ltb, leb, ◌==◌, if◌then◌else◌, get_or, drop, length, Status,
}
use vibevoice_c.Tokenizer.Utf8.{utf8_get, utf8_put, cp_to_byte}
use vibevoice_c.Tokenizer.Merge.{Lookups, Ids, push_id, encode_text_run}

-- An entry of `sentry`, with its mark in `s_is_special`.
pub record Special : Type 0 where
  pub str : List ℕ
  pub id : ℕ
  pub is_special : Bool

-- `id_to_token` is as long as `id_capacity`; an entry that is NULL is `none`.
pub record Tokenizer : Type 0 where
  pub lookups : Lookups
  pub id_to_token : List (Option (List ℕ))
  pub specials : List Special

-- The first special token that the text starts with.
unfoldable pub find_special : List Special → List ℕ → Option Special
find_special [] s = none
find_special (sp ∷ sps) s =
    let rest = find_special sps s in if starts_with sp.str s then some sp else rest

-- What the text `c ∷ s` starts with.
unfoldable pub hit : List Special → ℕ → List ℕ → Option Special
hit sps c s = if c == b'<' then find_special sps (c ∷ s) else none

-- The first special token with an identifier.
unfoldable pub find_added : List Special → ℕ → Option Special
find_added [] id = none
find_added (sp ∷ sps) id = let rest = find_added sps id in if sp.id == id then some sp else rest

-- The token's text, if the identifier is not negative and in the table.
unfoldable pub token_at : Tokenizer → ℕ → Option (List ℕ)
token_at t id = if leb (2 ^ 31) id then none else get_or t.id_to_token id none

module _ (t : Tokenizer) (alloc : ℕ → Bool) where
  -- The text since `run_start`, if there is any.
  unfoldable pub flush_run : List ℕ → Ids → Option Ids
  flush_run run out = if length run == 0 then some out else encode_text_run t.lookups alloc run out

  -- The loop of `vv_tokenizer_encode`, with fuel, and what follows it: `run` is the text from
  -- `run_start` to `pos`, `s` what is behind `pos`.
  unfoldable pub encode_loop : ℕ → List ℕ → List ℕ → Ids → Option Ids
  encode_loop zero run s out = flush_run run out
  encode_loop (suc f) run [] out = flush_run run out
  encode_loop (suc f) run (c ∷ s) out = elim (hit t.specials c s) [
    | none ↦ encode_loop f (run ++ c ∷ []) s out
    | some sp ↦ (elim (flush_run run out) [
      | none ↦ none
      | some out' ↦ (elim (push_id t.lookups alloc out' sp.id) [
        | none ↦ none
        | some out'' ↦ encode_loop f [] (drop (length sp.str) (c ∷ s)) out''
      ])
    ])
  ]

  -- `vv_tokenizer_encode`; `none` is VV_ERR_OUT_OF_MEMORY.
  unfoldable pub encode : List ℕ → Option (List ℕ)
  unfolding encode_loop
  encode text =
      let cap = length text / 2 + 32 in
      if alloc (cap * 4)
      then (elim (encode_loop (length text) [] text (record { ids = []; cap = cap })) [
        | none ↦ none
        | some out ↦ some out.ids
      ])
      else none

-- The characters of a token that is not special, with fuel.
unfoldable pub decode_chars : ℕ → List ℕ → List ℕ
decode_chars zero s = []
decode_chars (suc f) s =
    let (a, cp) = utf8_get s in
    let rest = decode_chars f (drop a s) in
    if length s == 0
    then []
    else elim (cp_to_byte cp) [ some b ↦ b ∷ rest | none ↦ utf8_put cp ++ rest ]

-- What one identifier adds to the text.
unfoldable pub decode_id : Tokenizer → Bool → ℕ → List ℕ
decode_id t skip_special id = elim (token_at t id) [
  | none ↦ []
  | some tok ↦ (elim (find_added t.specials id) [
    | some sp ↦ if skip_special && sp.is_special then [] else tok
    | none ↦ decode_chars (length tok) tok
  ])
]

-- `decode_write`
unfoldable pub decode_write : Tokenizer → Bool → List ℕ → List ℕ
decode_write t skip_special [] = []
decode_write t skip_special (id ∷ ids) =
    decode_id t skip_special id ++ decode_write t skip_special ids

abbrev pub token_len : Option (List ℕ) → ℕ
token_len none = 0
token_len (some tok) = length tok

-- `decode_bound`
unfoldable pub decode_bound : Tokenizer → List ℕ → ℕ
decode_bound t [] = 0
decode_bound t (id ∷ ids) = token_len (token_at t id) + decode_bound t ids

-- `vv_tokenizer_decode_into` on a buffer for `cap` bytes: the status, and the bytes written.
unfoldable pub decode_into : Tokenizer → List ℕ → Bool → ℕ → Status × List ℕ
decode_into t ids skip_special cap =
    if ltb cap (decode_bound t ids)
    then (Status.overflow, [])
    else (Status.ok, decode_write t skip_special ids)

-- `vv_tokenizer_decode_ex`: the status, and the text.
unfoldable pub decode_ex : (ℕ → Bool) → Tokenizer → List ℕ → Bool → Status × List ℕ
decode_ex alloc t ids skip_special =
    if alloc (decode_bound t ids + 2)
    then (Status.ok, decode_write t skip_special ids)
    else (Status.out_of_memory, [])

-- `vv_tokenizer_special_id`
unfoldable pub special_id : List Special → Lookups → List ℕ → Option ℕ
special_id [] l name = l.vocab_get name
special_id (sp ∷ sps) l name =
    let rest = special_id sps l name in if equal_bytes sp.str name then some sp.id else rest
