-- ===== src/Sched/Split/Largest.antt =====
-- `first_max` of split.rs: the first position of a largest value, unless all are 0.
use pg_steward.Base.{
  ℕ, suc, ◌+◌, ◌≤◌, ◌<◌, ◌≡◌, refl, sym, subst, ap, ◌⊎◌, inl, inr, true, false, Option, none, some,
  List, [], ◌∷◌, arith, All, All-imp, get_elem?, Bool-cases, ltb,
}
use pg_steward.Sched.Split.{most, best_from, index_of, first_max}

-- What the scan answers: the best entry before, or a larger one of the list.
abbrev Best : ℕ → Option (ℕ × ℕ) → List ℕ → Option (ℕ × ℕ) → Type 0
Best index best values answer =
    All (λ v. v ≤ most answer) values
    × (most best ≤ most answer)
    × ((answer ≡ best)
        ⊎ ((k : ℕ) × (i : ℕ) × (v : ℕ) × (i ≡ index + k)
            × (answer ≡ some (i, v))
            × (get_elem? values k ≡ some v)
            × (0 < v)))

best_from-Best :
    (index : ℕ) (best : Option (ℕ × ℕ)) (values : List ℕ)
    → Best index best values (best_from index best values)
unfolding best_from
best_from-Best index best [] = (tt, omega arith, inl refl)
best_from-Best index best (v ∷ values) = elim (Bool-cases (ltb (most best) v)) [
  | inl more ↦
      subst (Best index best (v ∷ values)) (sym (rw (more, best_from)))
        (took more (best_from-Best (index + 1) (some (index, v)) values))
  | inr less ↦
      subst (Best index best (v ∷ values)) (sym (rw (less, best_from)))
        (left less (best_from-Best (index + 1) best values))
]
  where
    took :
        ltb (most best) v ≡ true
        → {answer : Option (ℕ × ℕ)} → Best (index + 1) (some (index, v)) values answer
        → Best index best (v ∷ values) answer
    took more (all, above, inl e) =
        ((above, all), ground arith, inr (0, index, v, omega arith, e, refl, ground arith))
    took more (all, above, inr (k, i, w, p, e, g, pos)) =
        ((above, all), ground arith, inr (suc k, i, w, omega arith, e, g, pos))

    left :
        ltb (most best) v ≡ false
        → {answer : Option (ℕ × ℕ)} → Best (index + 1) best values answer
        → Best index best (v ∷ values) answer
    left less (all, above, inl e) = ((ground arith, all), above, inl e)
    left less (all, above, inr (k, i, w, p, e, g, pos)) =
        ((ground arith, all), above, inr (suc k, i, w, omega arith, e, g, pos))

-- Either every value is 0, or the answer is the position of a positive value that none exceeds.
abbrev pub Largest : List ℕ → Option ℕ → Type 0
Largest values answer =
    ((answer ≡ none) × All (λ v. v ≡ 0) values)
    ⊎ ((i : ℕ) × (v : ℕ) × (answer ≡ some i)
        × (get_elem? values i ≡ some v)
        × (0 < v)
        × All (λ w. w ≤ v) values)

pub first_max-Largest : (values : List ℕ) → Largest values (first_max values)
first_max-Largest values = go (best_from-Best 0 none values)
  where
    go : {answer : Option (ℕ × ℕ)} → Best 0 none values answer → Largest values (index_of answer)
    go (all, above, inl e) =
        inl (ap index_of e, All-imp (λ v h. omega (arith, h, ap most e)) values all)
    go (all, above, inr (k, i, v, p, e, g, pos)) =
        let here : k ≡ i = omega arith in
        inr (
          i,
          v,
          ap index_of e,
          rw (← here) g,
          pos,
          All-imp (λ w h. omega (arith, h, ap most e)) values all,
        )
