-- ===== src/Tokenizer/Sound.antt =====
-- Tables of a tokenizer of src/text_tokenizer/bpe.c that belong together.
use vibevoice_c.Common.{ℕ, ◌<◌, ◌≡◌, none, some, List, [], ◌∷◌, ◌++◌, length, All}
use vibevoice_c.Tokenizer.Tiles.{IsByte}
use vibevoice_c.Tokenizer.Words.{IsComplete}
use vibevoice_c.Tokenizer.Codec.{Tokenizer, Special, find_added, token_at}

-- A special token that is not empty, whose identifier stands for its text.
abbrev pub IsListed : Tokenizer → Special → Type 0
IsListed t sp =
    (0 < length sp.str)
    × (token_at t sp.id ≡ some sp.str)
    × ((q : Special) × (find_added t.specials sp.id ≡ some q))

-- Tables that belong together: the vocabulary covers the bytes and the merges, an identifier of the
-- vocabulary stands for its word and is no special token's, and the special tokens are listed.
pub record IsSound (t : Tokenizer) : Type 0 where
  pub complete : IsComplete t.lookups
  pub listed : (s : List ℕ) (id : ℕ) → t.lookups.vocab_get s ≡ some id → token_at t id ≡ some s
  pub plain :
      (s : List ℕ) (id : ℕ) → t.lookups.vocab_get s ≡ some id → find_added t.specials id ≡ none
  pub specials_listed : All (IsListed t) t.specials

pub IsByte-front : (xs ys : List ℕ) → All IsByte (xs ++ ys) → All IsByte xs
IsByte-front [] ys a = tt
IsByte-front (x ∷ xs) ys a = (a.0, IsByte-front xs ys a.1)

pub IsByte-back : (xs ys : List ℕ) → All IsByte (xs ++ ys) → All IsByte ys
IsByte-back [] ys a = a
IsByte-back (x ∷ xs) ys a = IsByte-back xs ys a.1
