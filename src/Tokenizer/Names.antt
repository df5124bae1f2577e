-- ===== src/Tokenizer/Names.antt =====
-- `id_to_token` as `vv_tokenizer_load` of src/text_tokenizer/bpe.c fills it.
use vibevoice_c.Common.{
  ℕ, zero, suc, ◌<◌, ◌≤◌, ◌^◌, ◌≡◌, ◌∙◌, refl, sym, ap, true, false, ◌&&◌, ◌==◌, Option, none, some,
  List, [], ◌∷◌, ltb, get_or, set, length, length-set, arith, inl, inr, Bool-cases, All,
}
use vibevoice_c.Tokenizer.Load.{raise, max_id_of, name_id, name_all}

abbrev pub Names : Type 0
Names = List (Option (List ℕ))

get_or-set_self :
    (names : Names) (i : ℕ) (s : List ℕ)
    → i < length names
    → get_or (set names i (some s)) i none ≡ some s
get_or-set_self [] i s h = absurd (omega arith)
get_or-set_self (x ∷ names) zero s h = refl
get_or-set_self (x ∷ names) (suc i) s h = get_or-set_self names i s (omega arith)

get_or-set_ne :
    (names : Names) (i j : ℕ) (s : List ℕ)
    → i == j ≡ false
    → get_or (set names i (some s)) j none ≡ get_or names j none
get_or-set_ne [] i j s h = refl
get_or-set_ne (x ∷ names) zero zero s h = absurd (ground (arith, h))
get_or-set_ne (x ∷ names) zero (suc j) s h = refl
get_or-set_ne (x ∷ names) (suc i) zero s h = refl
get_or-set_ne (x ∷ names) (suc i) (suc j) s h = get_or-set_ne names i j s (ground (arith, h))

length-name_id :
    (cap : ℕ) (names : Names) (id : ℕ) (s : List ℕ) → length (name_id cap names id s) ≡ length names
length-name_id cap names id s = elim (Bool-cases (ltb id (2 ^ 31) && ltb id cap)) [
  | inl e ↦ rw e (length-set names id (some s))
  | inr e ↦ rw e refl
]

-- The largest identifier is not below any of them.
pub max_id_of-bound :
    (ids : List ℕ) (max_id : ℕ)
    → All (λ id. id < 2 ^ 31) ids
    → (max_id ≤ max_id_of max_id ids) × All (λ id. id ≤ max_id_of max_id ids) ids
unfolding max_id_of
max_id_of-bound [] max_id a = (omega arith, tt)
max_id_of-bound (id ∷ ids) max_id a =
    (let b = max_id_of-bound ids (raise max_id id) a.1 in
      let r : (max_id ≤ raise max_id id) × (id ≤ raise max_id id) = ground (arith, a.0) in
      (omega (arith, b.0, r.0), (omega (arith, b.0, r.1), b.1)))

module _ {ℓ} {A : Type ℓ} (id_of : A → ℕ) (str_of : A → List ℕ) (word : ℕ → List ℕ) (cap : ℕ) where
  abbrev pub Named : A → Type 0
  Named x = (str_of x ≡ word (id_of x)) × (id_of x < 2 ^ 31) × (id_of x < cap)

  pub length-name_all :
      (xs : List A) (names : Names) → length (name_all id_of str_of cap xs names) ≡ length names
  unfolding name_all
  length-name_all [] names = refl
  length-name_all (x ∷ xs) names =
      length-name_all xs (name_id cap names (id_of x) (str_of x))
      ∙ length-name_id cap names (id_of x) (str_of x)

  name_id-Named :
      (names : Names) (x : A)
      → Named x
      → name_id cap names (id_of x) (str_of x) ≡ set names (id_of x) (some (word (id_of x)))
  name_id-Named names x n =
      let inside : ltb (id_of x) (2 ^ 31) && ltb (id_of x) cap ≡ true = ground (arith, n.1, n.2) in
      rw (inside, n.0) refl

  -- What an identifier stands for already stays.
  pub name_all-stays :
      (xs : List A) (names : Names) (id : ℕ)
      → All Named xs
      → length names ≡ cap
      → get_or names id none ≡ some (word id)
      → get_or (name_all id_of str_of cap xs names) id none ≡ some (word id)
  unfolding name_all
  name_all-stays [] names id a l e = e
  name_all-stays (x ∷ xs) names id a l e =
      (let next = name_id cap names (id_of x) (str_of x) in
        let one = name_id-Named names x a.0 in
        let there : get_or next id none ≡ some (word id) = elim (Bool-cases (id_of x == id)) [
          | inl s ↦
              (let same : id_of x ≡ id = ground arith in
                rw (one, same) (get_or-set_self names id (word id) (omega (arith, a.0.2, l, same))))
          | inr d ↦ rw one (get_or-set_ne names (id_of x) id (word (id_of x)) d ∙ e)
        ] in
        name_all-stays xs next id a.1 (length-name_id cap names (id_of x) (str_of x) ∙ l) there)

  -- Each entry's identifier stands for its text.
  pub name_all-names :
      (xs : List A) (names : Names)
      → All Named xs
      → length names ≡ cap
      → All (λ x. get_or (name_all id_of str_of cap xs names) (id_of x) none ≡ some (str_of x)) xs
  unfolding name_all
  name_all-names [] names a l = tt
  name_all-names (x ∷ xs) names a l =
      (let next = name_id cap names (id_of x) (str_of x) in
        let size : length next ≡ cap = length-name_id cap names (id_of x) (str_of x) ∙ l in
        let there : get_or next (id_of x) none ≡ some (word (id_of x)) =
          rw (name_id-Named names x a.0)
            (get_or-set_self names (id_of x) (word (id_of x)) (omega (arith, a.0.2, l))) in
        (
          name_all-stays xs next (id_of x) a.1 size there ∙ ap (λ (s : List ℕ). some s) (sym a.0.0),
          name_all-names xs next a.1 size,
        ))
