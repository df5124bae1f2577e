-- ===== src/Tokenizer/Entries.antt =====
-- Searches through the entries that `vv_tokenizer_load` of src/text_tokenizer/bpe.c makes.
use vibevoice_c.Common.{
  ℕ, ◌≡◌, refl, Bool, true, false, ◌==◌, none, some, List, [], ◌∷◌, map, arith, inl, inr,
  Bool-cases, All, All-imp,
}
use mathlib.Core.Path.{subst}
use vibevoice_c.Tokenizer.Codec.{Special, find_added}
use vibevoice_c.Tokenizer.Lookup.{find_first}
use vibevoice_c.Tokenizer.Load.{
  AddedItem, read_added, sink, back_to_front, sort_from, load_specials,
}
use vibevoice_c.Tokenizer.Longest.{sink-All}

pub find_first-All {ℓ} :
    {A : Type ℓ} (P : A → Type 0) (test : A → Bool) (xs : List A) (x : A)
    → All P xs
    → find_first test xs ≡ some x
    → P x × (test x ≡ true)
find_first-All P test [] x a e = absurd (ground (arith, e))
find_first-All P test (y ∷ xs) x a e = elim (Bool-cases (test y)) [
  | inl t ↦
      let same : some y ≡ some x = rw t at e in
      let here : y ≡ x = cc in subst (λ z. P z × (test z ≡ true)) here (a.0, t)
  | inr t ↦ find_first-All P test xs x a.1 (rw t at e)
]

back_to_front-All :
    (P : Special → Type 0) (xs acc : List Special)
    → All P xs
    → All P acc
    → All P (back_to_front xs acc)
back_to_front-All P [] acc a b = b
back_to_front-All P (x ∷ xs) acc a b = back_to_front-All P xs (x ∷ acc) a.1 (a.0, b)

sort_from-All :
    (P : Special → Type 0) (sorted es : List Special)
    → All P sorted
    → All P es
    → All P (sort_from sorted es)
unfolding sort_from
sort_from-All P sorted [] a b = back_to_front-All P sorted [] a tt
sort_from-All P sorted (e ∷ es) a b =
    sort_from-All P (sink e sorted) es (sink-All P e sorted b.0 a) b.1

pub load_specials-All :
    (P : Special → Type 0) (added : List AddedItem)
    → All P (read_added added)
    → All P (load_specials added)
unfolding load_specials
load_specials-All P added a = sort_from-All P [] (read_added added) tt a

pub map-All {ℓ} :
    {A : Type ℓ} (f : A → ℕ) (P : ℕ → Type 0) (xs : List A)
    → All P (map f xs)
    → All (λ x. P (f x)) xs
map-All f P [] a = tt
map-All f P (x ∷ xs) a = (a.0, map-All f P xs a.1)

pub All-map {ℓ} :
    {A : Type ℓ} (f : A → ℕ) (P : ℕ → Type 0) (xs : List A)
    → All (λ x. P (f x)) xs
    → All P (map f xs)
All-map f P [] a = tt
All-map f P (x ∷ xs) a = (a.0, All-map f P xs a.1)

pub All-both {ℓ} :
    {A : Type ℓ} (P Q : A → Type 0) (xs : List A) → All P xs → All Q xs → All (λ x. P x × Q x) xs
All-both P Q [] a b = tt
All-both P Q (x ∷ xs) a b = ((a.0, b.0), All-both P Q xs a.1 b.1)

-- The first special token with an identifier, where there is one.
pub find_added-none :
    (is_added : ℕ → Bool) (sps : List Special) (id : ℕ)
    → All (λ sp. is_added sp.id ≡ true) sps
    → is_added id ≡ false
    → find_added sps id ≡ none
unfolding find_added
find_added-none is_added [] id a e = refl
find_added-none is_added (sp ∷ sps) id a e = elim (Bool-cases (sp.id == id)) [
  | inl t ↦
      let same : sp.id ≡ id = ground arith in
      let clash : is_added id ≡ true = rw (← same) a.0 in absurd (ground (arith, e, clash))
  | inr t ↦ rw t (find_added-none is_added sps id a.1 e)
]

abbrev pub FoundAdded : List Special → Special → Type 0
FoundAdded sps sp = (q : Special) × (find_added sps sp.id ≡ some q)

found_later :
    (x : Special) (sps : List Special) (sp : Special) → FoundAdded sps sp → FoundAdded (x ∷ sps) sp
unfolding find_added
found_later x sps sp (q, e) = elim (Bool-cases (x.id == sp.id)) [
  | inl t ↦ (x, rw t refl)
  | inr t ↦ (q, rw (t, e) refl)
]

found_first : (x : Special) (sps : List Special) → FoundAdded (x ∷ sps) x
unfolding find_added
found_first x sps = let t : x.id == x.id ≡ true = ground arith in (x, rw t refl)

pub found_all : (sps : List Special) → All (FoundAdded sps) sps
found_all [] = tt
found_all (x ∷ sps) = (found_first x sps, All-imp sps (found_later x sps) (found_all sps))
