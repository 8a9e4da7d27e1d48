-- ===== src/Sched/Split/Divide.antt =====
-- The slots of the shares in order, `divide`: their sum, and each one's bounds.
use pg_steward.Base.{
  ℕ, ◌+◌, ◌-◌, ◌≤◌, ◌≡◌, ap, ◌⊎◌, inl, inr, List, [], ◌∷◌, arith, sum, min, map, subst,
}
use pg_steward.Sched.Split.{Share, need, shave, give_up_to, divide}
use pg_steward.Sched.Split.Shares.{
  Below, Below-trans, Gave, Gave-Sized, Gave-Below, Sized, GaveUpTo, sum-shave, shave-Below,
  give-GaveUpTo,
}

module _ {ℓ} {K : Type ℓ} where
  -- What a share holds and still has a use for.
  abbrev pub in_use : Share K → ℕ
  in_use s = min s.current s.demand

  abbrev pub uses : List (Share K) → List ℕ
  uses = map in_use

  abbrev wants : List (Share K) → List ℕ
  wants = map (λ s. s.demand)

  abbrev pub needs : List (Share K) → List ℕ
  needs = map need

  uses-Sized : (ss : List (Share K)) (xs : List ℕ) → Below xs (uses ss) → Sized (wants ss) xs
  uses-Sized [] [] b = tt
  uses-Sized [] (x ∷ xs) b = absurd b
  uses-Sized (s ∷ ss) [] b = absurd b
  uses-Sized (s ∷ ss) (x ∷ xs) b = uses-Sized ss xs b.1

  wants-Sized : (ss : List (Share K)) (xs : List ℕ) → Sized (wants ss) xs → Sized (needs ss) xs
  wants-Sized [] [] b = tt
  wants-Sized [] (x ∷ xs) b = absurd b
  wants-Sized (s ∷ ss) [] b = absurd b
  wants-Sized (s ∷ ss) (x ∷ xs) b = wants-Sized ss xs b

  -- Nobody ends above its need: neither loop gives beyond what it is asked for.
  capped :
      (ss : List (Share K)) (us xs ys : List ℕ)
      → Below us (uses ss)
      → Gave (wants ss) us xs
      → Gave (needs ss) xs ys
      → Below ys (needs ss)
  capped [] [] [] [] b p q = tt
  capped [] [] [] (y ∷ ys) b p q = absurd q
  capped [] [] (x ∷ xs) ys b p q = absurd p
  capped [] (u ∷ us) xs ys b p q = absurd b
  capped (s ∷ ss) [] xs ys b p q = absurd b
  capped (s ∷ ss) (u ∷ us) [] ys b p q = absurd p
  capped (s ∷ ss) (u ∷ us) (x ∷ xs) [] b p q = absurd q
  capped (s ∷ ss) (u ∷ us) (x ∷ xs) (y ∷ ys) b p q = (ground arith, capped ss us xs ys b.1 p.2 q.2)

  module _ (granted : ℕ) (order : List (Share K)) where
    abbrev shaved : List ℕ
    shaved = shave (sum (uses order) - granted) (uses order)

    abbrev met : List ℕ
    met = give_up_to granted (wants order) shaved

    shaved-Below : Below shaved (uses order)
    shaved-Below = shave-Below (sum (uses order) - granted) (uses order)

    sum-shaved : sum shaved + (sum (uses order) - granted) ≡ sum (uses order)
    sum-shaved = sum-shave (sum (uses order) - granted) (uses order) (omega arith)

    first_give : GaveUpTo (granted - sum shaved) (wants order) shaved met
    unfolding give_up_to
    first_give =
        give-GaveUpTo (granted - sum shaved) (wants order) shaved
          (uses-Sized order shaved shaved-Below)

    last_give : GaveUpTo (granted - sum met) (needs order) met (divide granted order)
    unfolding give_up_to divide
    last_give =
        give-GaveUpTo (granted - sum met) (needs order) met
          (wants-Sized order met (Gave-Sized (wants order) shaved met first_give.0))

    pub sum-divide : sum (divide granted order) ≤ granted
    sum-divide = omega (arith, sum-shaved, first_give.1, last_give.1)

    pub divide_stop :
        (sum (divide granted order) ≡ granted) ⊎ Below (needs order) (divide granted order)
    divide_stop = elim last_give.2 [
      | inl e ↦ inl (omega (arith, sum-shaved, first_give.1))
      | inr b ↦ inr b
    ]

    pub divide-Below : Below (divide granted order) (needs order)
    divide-Below =
        capped order shaved met (divide granted order) shaved-Below first_give.0 last_give.0

    pub divide_keeps : sum (uses order) ≤ granted → Below (uses order) (divide granted order)
    unfolding shave
    divide_keeps fits =
        let none_over : sum (uses order) - granted ≡ 0 = omega arith in
        let same : shaved ≡ uses order = ap (λ n. shave n (uses order)) none_over in
        Below-trans (uses order) met (divide granted order)
          (subst (λ us. Below us met) same (Gave-Below (wants order) shaved met first_give.0))
          (Gave-Below (needs order) met (divide granted order) last_give.0)
