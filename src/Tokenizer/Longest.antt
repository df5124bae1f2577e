-- ===== src/Tokenizer/Longest.antt =====
-- The order of the added tokens of src/text_tokenizer/bpe.c: the longest that fits is taken.
use vibevoice_c.Common.{
  starts_with, ℕ, zero, suc, ◌≤◌, ◌≡◌, ◌≢◌, ◌∙◌, ap, sym, ◌⊎◌, refl, true, none, some, List, [],
  ◌∷◌, ltb, get_elem?, length, arith, inl, inr, Bool-cases, All, All-imp,
}
use mathlib.Core.Path.{subst}
use native.Mathlib.Decide.{ℕ_discrete}
use vibevoice_c.Tokenizer.Codec.{Special, find_special, hit}
use vibevoice_c.Tokenizer.Load.{
  AddedItem, read_added, sink, back_to_front, sort_from, load_specials,
}

abbrev pub Among : Special → List Special → Type 0
Among q [] = ⊥
Among q (x ∷ xs) = (q ≡ x) ⊎ Among q xs

abbrev pub NotLonger : Special → Special → Type 0
NotLonger x y = length y.str ≤ length x.str

abbrev pub NotShorter : Special → Special → Type 0
NotShorter x y = length x.str ≤ length y.str

abbrev pub Rising : List Special → Type 0
Rising [] = Unit {0}
Rising (x ∷ xs) = All (NotShorter x) xs × Rising xs

abbrev pub Falling : List Special → Type 0
Falling [] = Unit {0}
Falling (x ∷ xs) = All (NotLonger x) xs × Falling xs

pub sink-All :
    (P : Special → Type 0) (e : Special) (xs : List Special) → P e → All P xs → All P (sink e xs)
unfolding sink
sink-All P e [] p a = (p, tt)
sink-All P e (x ∷ xs) p a = elim (Bool-cases (ltb (length x.str) (length e.str))) [
  | inl t ↦ rw t (a.0, sink-All P e xs p a.1)
  | inr t ↦ rw t (p, a)
]

sink-Rising : (e : Special) (xs : List Special) → Rising xs → Rising (sink e xs)
unfolding sink
sink-Rising e [] r = (tt, tt)
sink-Rising e (x ∷ xs) r = elim (Bool-cases (ltb (length x.str) (length e.str))) [
  | inl t ↦ rw t (sink-All (NotShorter x) e xs (ground arith) r.0, sink-Rising e xs r.1)
  | inr t ↦
      (let low : length e.str ≤ length x.str = ground arith in
        rw t ((low, All-imp xs (λ y h. omega (arith, h, low)) r.0), r))
]

sink-Among : (q e : Special) (xs : List Special) → Among q (e ∷ xs) → Among q (sink e xs)
unfolding sink
sink-Among q e [] m = m
sink-Among q e (x ∷ xs) m = elim (Bool-cases (ltb (length x.str) (length e.str))) [
  | inl t ↦ rw t (elim m [
    | inl s ↦ inr (sink-Among q e xs (inl s))
    | inr (inl s) ↦ inl s
    | inr (inr n) ↦ inr (sink-Among q e xs (inr n))
  ])
  | inr t ↦ rw t m
]

back_to_front-Among :
    (q : Special) (xs acc : List Special)
    → Among q xs ⊎ Among q acc
    → Among q (back_to_front xs acc)
back_to_front-Among q [] acc (inl m) = absurd m
back_to_front-Among q [] acc (inr m) = m
back_to_front-Among q (x ∷ xs) acc (inl (inl s)) = back_to_front-Among q xs (x ∷ acc) (inr (inl s))
back_to_front-Among q (x ∷ xs) acc (inl (inr m)) = back_to_front-Among q xs (x ∷ acc) (inl m)
back_to_front-Among q (x ∷ xs) acc (inr m) = back_to_front-Among q xs (x ∷ acc) (inr (inr m))

beside :
    (x : Special) (xs acc : List Special)
    → All (NotShorter x) xs
    → All (λ y. All (NotLonger y) acc) xs
    → All (λ y. All (NotLonger y) (x ∷ acc)) xs
beside x [] acc a b = tt
beside x (y ∷ xs) acc a b = ((a.0, b.0), beside x xs acc a.1 b.1)

back_to_front-Falling :
    (xs acc : List Special)
    → Rising xs
    → Falling acc
    → All (λ x. All (NotLonger x) acc) xs
    → Falling (back_to_front xs acc)
back_to_front-Falling [] acc r f a = f
back_to_front-Falling (x ∷ xs) acc r f a =
    back_to_front-Falling xs (x ∷ acc) r.1 (a.0, f) (beside x xs acc r.0 a.1)

all_trivial : (xs : List Special) → All (λ x. All (NotLonger x) []) xs
all_trivial [] = tt
all_trivial (x ∷ xs) = (tt, all_trivial xs)

sort_from-Falling : (sorted es : List Special) → Rising sorted → Falling (sort_from sorted es)
unfolding sort_from
sort_from-Falling sorted [] r = back_to_front-Falling sorted [] r tt (all_trivial sorted)
sort_from-Falling sorted (e ∷ es) r = sort_from-Falling (sink e sorted) es (sink-Rising e sorted r)

sort_from-Among :
    (q : Special) (sorted es : List Special)
    → Among q sorted ⊎ Among q es
    → Among q (sort_from sorted es)
unfolding sort_from
sort_from-Among q sorted [] m = back_to_front-Among q sorted [] m
sort_from-Among q sorted (e ∷ es) (inl m) =
    sort_from-Among q (sink e sorted) es (inl (sink-Among q e sorted (inr m)))
sort_from-Among q sorted (e ∷ es) (inr (inl s)) =
    sort_from-Among q (sink e sorted) es (inl (sink-Among q e sorted (inl s)))
sort_from-Among q sorted (e ∷ es) (inr (inr m)) = sort_from-Among q (sink e sorted) es (inr m)

Among-NotLonger :
    (x q : Special) (xs : List Special)
    → All (NotLonger x) xs
    → Among q xs
    → length q.str ≤ length x.str
Among-NotLonger x q [] a m = absurd m
Among-NotLonger x q (y ∷ xs) a (inl s) = rw s a.0
Among-NotLonger x q (y ∷ xs) a (inr m) = Among-NotLonger x q xs a.1 m

find_special-Falling :
    (q : Special) (xs : List Special) (s : List ℕ)
    → Falling xs
    → Among q xs
    → starts_with q.str s ≡ true
    → (sp : Special) × (find_special xs s ≡ some sp)
      × (starts_with sp.str s ≡ true)
      × (length q.str ≤ length sp.str)
unfolding find_special
find_special-Falling q [] s f m t = absurd m
find_special-Falling q (x ∷ xs) s f m t = elim (Bool-cases (starts_with x.str s)) [
  | inl e ↦
      (let shorter : length q.str ≤ length x.str = elim m [
        | inl same ↦ rw same (omega arith)
        | inr n ↦ Among-NotLonger x q xs f.0 n
      ] in
        (x, rw e refl, e, shorter))
  | inr e ↦ elim m [
    | inl same ↦
        let clash : starts_with x.str s ≡ true =
          subst (λ (z : Special). starts_with z.str s ≡ true) same t in
        absurd (ground (arith, e, clash))
    | inr n ↦
        let (sp, g, at, l) = find_special-Falling q xs s f.1 n t in (sp, rw (e, g) refl, at, l)
  ]
]

get_elem?-Among : (q : Special) (xs : List Special) (i : ℕ) → get_elem? xs i ≡ some q → Among q xs
get_elem?-Among q [] i e = absurd (ground (arith, e))
get_elem?-Among q (x ∷ xs) zero e = let same : q ≡ x = cc in inl same
get_elem?-Among q (x ∷ xs) (suc i) e = inr (get_elem?-Among q xs i e)

hit_at_mark : (sps : List Special) (s : List ℕ) → hit sps b'<' s ≡ find_special sps (b'<' ∷ s)
unfolding hit
hit_at_mark sps s = refl

hit_elsewhere : (sps : List Special) (c : ℕ) (s : List ℕ) → c ≢ b'<' → hit sps c s ≡ none
unfolding hit
hit_elsewhere sps c s h = ground arith

-- Where the text that is left starts with an added token, `vv_tokenizer_encode` takes an added token
-- there that is at least as long, whatever the order of the added tokens in the file, if the text left
-- begins with '<'; and where it begins with another byte, it takes none.
pub hit-load_specials :
    (added : List AddedItem) (i : ℕ) (q : Special) (c : ℕ) (s : List ℕ)
    → get_elem? (read_added added) i ≡ some q
    → starts_with q.str (c ∷ s) ≡ true
    → ((c ≡ b'<')
        × ((sp : Special) × (hit (load_specials added) c s ≡ some sp)
            × (starts_with sp.str (c ∷ s) ≡ true)
            × (length q.str ≤ length sp.str)))
      ⊎ ((c ≢ b'<') × (hit (load_specials added) c s ≡ none))
unfolding load_specials
hit-load_specials added i q c s e t =
    let (sp, f, at, l) =
      find_special-Falling q (load_specials added) (c ∷ s)
        (sort_from-Falling [] (read_added added) tt)
        (sort_from-Among q [] (read_added added) (inr (get_elem?-Among q (read_added added) i e)))
        t in
    elim (ℕ_discrete c b'<') [
      | yes h ↦ inl (
        h,
        (
          sp,
          ap (λ (b : ℕ). hit (load_specials added) b s) h
              ∙ hit_at_mark _ s
              ∙ ap (λ (b : ℕ). find_special (load_specials added) (b ∷ s)) (sym h)
              ∙ f,
          at,
          l,
        ),
      )
      | no h ↦ inr (h, hit_elsewhere (load_specials added) c s h)
    ]
