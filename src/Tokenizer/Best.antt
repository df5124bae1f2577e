-- ===== src/Tokenizer/Best.antt =====
-- The pair of symbols that `bpe_piece` of src/text_tokenizer/bpe.c merges next, and where it stops.
use vibevoice_c.Common.{
  ℕ, suc, ◌+◌, ◌<◌, ◌≤◌, ◌≡◌, ◌⊎◌, refl, sym, ap, Option, none, some, List, [], ◌∷◌, ltb, arith,
  inl, inr, Bool-cases, Option-cases, get_elem?, take, All,
}
use mathlib.Core.Path.{subst}
use vibevoice_c.Tokenizer.Merge.{Lookups, Sym, slice, better, find_best}

-- A rank that is not below `r`, and one that is above.
abbrev pub AtLeast : ℕ → Option ℕ → Type 0
AtLeast r none = Unit {0}
AtLeast r (some s) = r ≤ s

abbrev pub Above : ℕ → Option ℕ → Type 0
Above r none = Unit {0}
Above r (some s) = r < s

abbrev pub IsNone : Option ℕ → Type 0
IsNone none = Unit {0}
IsNone (some s) = ⊥

-- The rank at `k` is `r`, no rank is lower, and those before it are higher.
abbrev pub IsLeast : List (Option ℕ) → ℕ → ℕ → Type 0
IsLeast xs r k = (get_elem? xs k ≡ some (some r)) × All (AtLeast r) xs × All (Above r) (take k xs)

-- The loop over the ranks alone.
pick : ℕ → Option (ℕ × ℕ) → List (Option ℕ) → Option (ℕ × ℕ)
pick i best [] = best
pick i best (x ∷ xs) = pick (i + 1) (better best x i) xs

abbrev Below : ℕ → Option (ℕ × ℕ) → Type 0
Below r none = Unit {0}
Below r (some (b, m)) = r < b

-- What the loop finds from index `i` on, when it had found `best` before.
abbrev Picked : ℕ → Option (ℕ × ℕ) → List (Option ℕ) → Option (ℕ × ℕ) → Type 0
Picked i best xs none = (best ≡ none) × All IsNone xs
Picked i best xs (some (r, j)) =
    ((best ≡ some (r, j)) × All (AtLeast r) xs)
    ⊎ (Below r best × ((k : ℕ) × (j ≡ i + k) × IsLeast xs r k))

-- No rank at the first index.
Picked-none :
    (i : ℕ) (best : Option (ℕ × ℕ)) (xs : List (Option ℕ)) (o : Option (ℕ × ℕ))
    → Picked (i + 1) best xs o
    → Picked i best (none ∷ xs) o
Picked-none i best xs none p = (p.0, (tt, p.1))
Picked-none i best xs (some (r, j)) (inl p) = inl (p.0, (tt, p.1))
Picked-none i best xs (some (r, j)) (inr (b, (k, e, (g, l, a)))) =
    inr (b, (suc k, omega arith, (g, (tt, l), (tt, a))))

-- A rank at the first index that is better than all before.
Picked-better :
    (i s : ℕ) (best : Option (ℕ × ℕ)) (xs : List (Option ℕ)) (o : Option (ℕ × ℕ))
    → Below s best
    → Picked (i + 1) (some (s, i)) xs o
    → Picked i best (some s ∷ xs) o
Picked-better i s best xs none b p = ground (arith, p.0)
Picked-better i s best xs (some (r, j)) b (inl (e, a)) =
    (let same : s ≡ r = ground (arith, e) in
      let here : i ≡ j = ground (arith, e) in
      inr (
        subst (λ (k : ℕ). Below k best) same b,
        (0, omega arith, (ap (λ (k : ℕ). some (some k)) same, (omega arith, a), tt)),
      ))
Picked-better i s best xs (some (r, j)) b (inr (z, (k, e, (g, l, a)))) =
    inr (Below-trans best b, (suc k, omega arith, (g, (omega arith, l), (z, a))))
  where
    Below-trans : (o : Option (ℕ × ℕ)) → Below s o → Below r o
    Below-trans none h = tt
    Below-trans (some (c, m)) h = omega arith

-- A rank at the first index that is no better.
Picked-worse :
    (i s b m : ℕ) (xs : List (Option ℕ)) (o : Option (ℕ × ℕ))
    → b ≤ s
    → Picked (i + 1) (some (b, m)) xs o
    → Picked i (some (b, m)) (some s ∷ xs) o
Picked-worse i s b m xs none h p = ground (arith, p.0)
Picked-worse i s b m xs (some (r, j)) h (inl (e, a)) =
    let same : b ≡ r = ground (arith, e) in inl (e, (omega arith, a))
Picked-worse i s b m xs (some (r, j)) h (inr (z, (k, e, (g, l, a)))) =
    inr (z, (suc k, omega arith, (g, (omega arith, l), (omega arith, a))))

pick-Picked :
    (i : ℕ) (best : Option (ℕ × ℕ)) (xs : List (Option ℕ)) → Picked i best xs (pick i best xs)
unfolding pick
pick-Picked i none [] = (refl, tt)
pick-Picked i (some (b, m)) [] = inl (refl, tt)
pick-Picked i best (none ∷ xs) =
    Picked-none i best xs (pick (i + 1) best xs) (pick-Picked (i + 1) best xs)
pick-Picked i none (some s ∷ xs) =
    Picked-better i s none xs (pick (i + 1) (some (s, i)) xs) tt
      (pick-Picked (i + 1) (some (s, i)) xs)
pick-Picked i (some (b, m)) (some s ∷ xs) =
    (let better_case = pick-Picked (i + 1) (some (s, i)) xs in
      let worse_case = pick-Picked (i + 1) (some (b, m)) xs in
      elim (Bool-cases (ltb s b)) [
        | inl t ↦ rw t (
            Picked-better i s (some (b, m)) xs (pick (i + 1) (some (s, i)) xs) (ground arith)
              better_case)
        | inr t ↦
            rw t (Picked-worse i s b m xs (pick (i + 1) (some (b, m)) xs) (ground arith) worse_case)
      ])

module _ (t : Lookups) (buf : List ℕ) where
  -- The ranks of the neighbours.
  unfoldable pub ranks : List Sym → List (Option ℕ)
  ranks [] = []
  ranks (a ∷ []) = []
  ranks (a ∷ b ∷ r) = t.merge_rank (slice buf a) (slice buf b) ∷ ranks (b ∷ r)

  find_best-pick :
      (i : ℕ) (best : Option (ℕ × ℕ)) (syms : List Sym)
      → find_best t buf i best syms ≡ pick i best (ranks syms)
  unfolding find_best pick ranks
  find_best-pick i best [] = refl
  find_best-pick i best (a ∷ []) = refl
  find_best-pick i best (a ∷ b ∷ r) =
      find_best-pick (i + 1) (better best (t.merge_rank (slice buf a) (slice buf b)) i) (b ∷ r)

  -- What the loop over the pairs finds: nothing, and then no pair has a rank; or the pair of least
  -- rank, the first of them.
  abbrev pub Best : List Sym → Option (ℕ × ℕ) → Type 0
  Best syms none = All IsNone (ranks syms)
  Best syms (some (r, j)) = IsLeast (ranks syms) r j

  Picked-Best : (syms : List Sym) (o : Option (ℕ × ℕ)) → Picked 0 none (ranks syms) o → Best syms o
  Picked-Best syms none p = p.1
  Picked-Best syms (some (r, j)) (inl p) = ground (arith, p.0)
  Picked-Best syms (some (r, j)) (inr (b, (k, e, l))) =
      let same : k ≡ j = omega arith in subst (λ (m : ℕ). IsLeast (ranks syms) r m) same l

  pub find_best-Best : (syms : List Sym) → Best syms (find_best t buf 0 none syms)
  find_best-Best syms = Picked-Best syms (find_best t buf 0 none syms) (
      subst (λ (o : Option (ℕ × ℕ)). Picked 0 none (ranks syms) o)
        (sym (find_best-pick 0 none syms)) (pick-Picked 0 none (ranks syms)))

  -- The loop over the pairs finds nothing, and then no pair of neighbours has a rank; or it finds the
  -- index of a pair whose rank is the least of all ranks, the first such index.
  pub find_best-cases :
      (syms : List Sym)
      → ((find_best t buf 0 none syms ≡ none) × All IsNone (ranks syms))
        ⊎ ((r : ℕ) × ((j : ℕ) × (find_best t buf 0 none syms ≡ some (r, j))
              × IsLeast (ranks syms) r j))
  find_best-cases syms =
      (let b = find_best-Best syms in
        elim (Option-cases (find_best t buf 0 none syms)) [
          | inl n ↦ inl (n, subst (Best syms) n b)
          | inr ((r, j), n) ↦ inr (r, (j, n, subst (Best syms) n b))
        ])
