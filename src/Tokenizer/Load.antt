-- ===== src/Tokenizer/Load.antt =====
-- `vv_tokenizer_load` of src/text_tokenizer/bpe.c, from the values that the JSON parser hands over, when
-- no memory is refused. An identifier is the 32 bits of its `int32_t`.
use vibevoice_c.Common.{
  ℕ, ◌+◌, ◌^◌, Bool, true, ◌&&◌, Option, none, some, List, [], ◌∷◌, ltb, ◌==◌, if◌then◌else◌, set,
  replicate, length, map,
}
use vibevoice_c.Tokenizer.Codec.{Special, Tokenizer}
use vibevoice_c.Tokenizer.Table.{Entry, Merge, vocab_get, merge_rank}

-- An item of `model.merges`: a string, an array of two strings, or anything else.
pub data MergeItem : Type 0 where
  line : List ℕ → MergeItem
  pair : List ℕ → List ℕ → MergeItem
  other : MergeItem

-- An item of `added_tokens`, with the members that are of the right kind.
pub record AddedItem : Type 0 where
  pub content : Option (List ℕ)
  pub id : Option ℕ
  pub special : Option Bool

-- `strchr(s, ' ')`: what is before the first space, and behind it.
unfoldable pub split_space : List ℕ → Option (List ℕ × List ℕ)
split_space [] = none
split_space (c ∷ s) =
    let rest = split_space s in
    if c == b' ' then some ([], s) else elim rest [ none ↦ none | some (a, b) ↦ some (c ∷ a, b) ]

-- The two sides of an item, or `none` where the loop goes on.
unfoldable pub sides : MergeItem → Option (List ℕ × List ℕ)
sides (line s) = split_space s
sides (pair x y) = some (x, y)
sides other = none

-- The loop over the merges from index `i` on; the rank is the index.
unfoldable pub read_merges : ℕ → List MergeItem → List Merge
read_merges i [] = []
read_merges i (m ∷ ms) = elim (sides m) [
  | none ↦ read_merges (i + 1) ms
  | some (a, b) ↦ record { a = a; b = b; rank = i } ∷ read_merges (i + 1) ms
]

-- `if (id > max_id) max_id = id;` as signed numbers, where `max_id` is not negative.
abbrev pub raise : ℕ → ℕ → ℕ
raise max_id id = if ltb max_id id && ltb id (2 ^ 31) then id else max_id

-- `max_id` after the entries with these identifiers.
unfoldable pub max_id_of : ℕ → List ℕ → ℕ
max_id_of max_id [] = max_id
max_id_of max_id (id ∷ ids) = max_id_of (raise max_id id) ids

abbrev pub is_special_or : Option Bool → Bool
is_special_or none = true
is_special_or (some b) = b

-- The entry for an item, or `none` where the loop goes on.
abbrev pub added_of : AddedItem → Option Special
added_of it = elim it.content [
  | none ↦ none
  | some c ↦ (elim it.id [
    | none ↦ none
    | some n ↦ some (record { str = c; id = n; is_special = is_special_or it.special })
  ])
]

-- The loop over the added tokens.
unfoldable pub read_added : List AddedItem → List Special
read_added [] = []
read_added (it ∷ its) = elim (added_of it) [ none ↦ read_added its | some sp ↦ sp ∷ read_added its ]

-- An entry's place among those before it, which are given from the last one back.
unfoldable pub sink : Special → List Special → List Special
sink e [] = e ∷ []
sink e (x ∷ r) =
    let rest = sink e r in if ltb (length x.str) (length e.str) then x ∷ rest else e ∷ x ∷ r

abbrev pub back_to_front : List Special → List Special → List Special
back_to_front [] acc = acc
back_to_front (x ∷ r) acc = back_to_front r (x ∷ acc)

-- The loop that sorts; `sorted` is what is in place, from the last one back.
unfoldable pub sort_from : List Special → List Special → List Special
sort_from sorted [] = back_to_front sorted []
sort_from sorted (e ∷ es) = sort_from (sink e sorted) es

-- `sentry` in its order.
unfoldable pub load_specials : List AddedItem → List Special
load_specials its = sort_from [] (read_added its)

-- `if (id >= 0 && id < t->id_capacity) ...`
abbrev pub name_id : ℕ → List (Option (List ℕ)) → ℕ → List ℕ → List (Option (List ℕ))
name_id cap names id str = if ltb id (2 ^ 31) && ltb id cap then set names id (some str) else names

-- The loop over entries that fills `id_to_token`.
unfoldable pub name_all {ℓ} :
    {A : Type ℓ}
    → (A → ℕ)
    → (A → List ℕ)
    → ℕ
    → List A
    → List (Option (List ℕ))
    → List (Option (List ℕ))
name_all id_of str_of cap [] names = names
name_all id_of str_of cap (x ∷ xs) names =
    name_all id_of str_of cap xs (name_id cap names (id_of x) (str_of x))

-- An answer of the tables; there always is one.
abbrev pub given : Option (Option ℕ) → Option ℕ
given none = none
given (some o) = o

-- `id_capacity`
abbrev pub capacity : List Entry → List Special → ℕ
capacity ventry added =
    max_id_of (max_id_of 0 (map (λ (x : Entry). x.id) ventry)) (map (λ (sp : Special). sp.id) added)
    + 1

-- `vv_tokenizer_load` where `model.merges` is there.
unfoldable pub load : List Entry → List MergeItem → List AddedItem → Tokenizer
load ventry merges added =
    let mentry = read_merges 0 merges in
    let specials = load_specials added in
    let cap = capacity ventry (read_added added) in
    let names =
      name_all (λ (x : Entry). x.id) (λ (x : Entry). x.str) cap ventry (replicate cap none) in
    record {
      lookups = record {
        merge_rank = λ a b. given (merge_rank mentry a b);
        vocab_get = λ s. given (vocab_get ventry s);
      };
      id_to_token = name_all (λ (x : Special). x.id) (λ (x : Special). x.str) cap specials names;
      specials = specials;
    }
