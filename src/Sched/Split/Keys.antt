-- ===== src/Sched/Split/Keys.antt =====
-- `split` of split.rs: what each proxy is given.
use mathlib.Core.Option.{some-injective}
use pg_steward.Base.{
  ℕ, zero, suc, ◌+◌, ◌≤◌, ◌≡◌, refl, sym, ap, ◌∙◌, ◌⊎◌, inl, inr, none, some, List, [], ◌∷◌, arith,
  All, sum, get_elem?, map, get_or, total, subst,
}
use pg_steward.Base.Order.{cmp_self, Ord, false_of_ne}
use pg_steward.Base.Map.{
  Map, lookup, insert, lookup-insert, total_of, total_of-insert, IsSorted, insert-IsSorted,
}
use pg_steward.Base.Sorting.{Distinct, Distinct-sort_by, position, total-sort_by}
use pg_steward.Sched.Split.{Share, need, divide, in_order, zipped, split}
use pg_steward.Sched.Split.Shares.{Below}
use pg_steward.Sched.Split.Divide.{
  in_use, uses, needs, sum-divide, divide_stop, divide-Below, divide_keeps,
}

module _ {ℓ} {K : Type ℓ} (f : Share K → ℕ) where
  capped_at :
      (xs : List ℕ) (ss : List (Share K)) (j : ℕ) (s : Share K)
      → Below xs (map f ss)
      → get_elem? ss j ≡ some s
      → (x : ℕ) × (get_elem? xs j ≡ some x) × (x ≤ f s)
  capped_at [] [] j s b g = absurd (cc)
  capped_at [] (t ∷ ss) j s b g = absurd b
  capped_at (x ∷ xs) [] j s b g = absurd b
  capped_at (x ∷ xs) (t ∷ ss) zero s b g =
      (x, refl, subst (λ r. x ≤ f r) (some-injective _ _ g) b.0)
  capped_at (x ∷ xs) (t ∷ ss) (suc j) s b g = capped_at xs ss j s b.1 g

  floored_at :
      (xs : List ℕ) (ss : List (Share K)) (j : ℕ) (s : Share K) (x : ℕ)
      → Below (map f ss) xs
      → get_elem? ss j ≡ some s
      → get_elem? xs j ≡ some x
      → f s ≤ x
  floored_at [] ss j s x b g h = absurd (cc)
  floored_at (y ∷ xs) [] j s x b g h = absurd (cc)
  floored_at (y ∷ xs) (t ∷ ss) zero s x b g h =
      let same = ap f (some-injective _ _ g) in let here = some-injective _ _ h in omega arith
  floored_at (y ∷ xs) (t ∷ ss) (suc j) s x b g h = floored_at xs ss j s x b.1 g h

  sum-map : (ss : List (Share K)) → sum (map f ss) ≡ total f ss
  sum-map [] = refl
  sum-map (s ∷ ss) = omega (arith, sum-map ss)

module _ {ℓ} {K : Type ℓ} ⦃o : Ord K⦄ where
  abbrev Absent : List (Share K) → Map K ℕ → Type 0
  Absent ss m = All (λ s. lookup s.key m ≡ none) ss

  zipped_other :
      (ss : List (Share K)) (xs : List ℕ) (m : Map K ℕ) (k : K)
      → All (λ s. ¬ (k ≡ s.key)) ss
      → lookup k (zipped ss xs m) ≡ lookup k m
  unfolding zipped
  zipped_other [] xs m k a = refl
  zipped_other (s ∷ ss) [] m k a = refl
  zipped_other (s ∷ ss) (x ∷ xs) m k a =
      zipped_other ss xs (insert s.key x m) k a.1
      ∙ ground (arith, lookup-insert k s.key x m, false_of_ne s.key k (λ e. a.0 (sym e)))

  zipped_at :
      (ss : List (Share K)) (xs : List ℕ) (m : Map K ℕ) (j : ℕ) (s : Share K) (x : ℕ)
      → Distinct (λ t. t.key) ss
      → get_elem? ss j ≡ some s
      → get_elem? xs j ≡ some x
      → lookup s.key (zipped ss xs m) ≡ some x
  unfolding zipped
  zipped_at [] xs m j s x d g h = absurd (cc)
  zipped_at (t ∷ ss) [] m j s x d g h = absurd (cc)
  zipped_at (t ∷ ss) (y ∷ xs) m zero s x d g h =
      let other = zipped_other ss xs (insert t.key y m) t.key d.0 in
      let same : t ≡ s = some-injective _ _ g in
      let here : y ≡ x = some-injective _ _ h in
      rw (← same, ← here, other) (ground (arith, lookup-insert t.key t.key y m, cmp_self t.key))
  zipped_at (t ∷ ss) (y ∷ xs) m (suc j) s x d g h = zipped_at ss xs (insert t.key y m) j s x d.1 g h

  Absent-insert :
      (s : Share K) (x : ℕ) (ss : List (Share K)) (m : Map K ℕ)
      → All (λ t. ¬ (s.key ≡ t.key)) ss
      → Absent ss m
      → Absent ss (insert s.key x m)
  Absent-insert s x [] m a u = tt
  Absent-insert s x (t ∷ ss) m a u = (
    ground (arith, lookup-insert t.key s.key x m, false_of_ne s.key t.key a.0),
    Absent-insert s x ss m a.1 u.1,
  )

  sum-zipped :
      (ss : List (Share K)) (xs : List ℕ) (m : Map K ℕ)
      → Below xs (needs ss)
      → Distinct (λ t. t.key) ss
      → Absent ss m
      → IsSorted m
      → total_of (λ n. n) (zipped ss xs m) ≡ total_of (λ n. n) m + sum xs
  unfolding zipped
  sum-zipped [] [] m b d u sorted = omega arith
  sum-zipped [] (x ∷ xs) m b d u sorted = absurd b
  sum-zipped (s ∷ ss) [] m b d u sorted = absurd b
  sum-zipped (s ∷ ss) (x ∷ xs) m b d u sorted = ground (
    arith,
    sum-zipped ss xs (insert s.key x m) b.1 d.1 (Absent-insert s x ss m d.0 u.1)
        (insert-IsSorted s.key x m sorted),
    total_of-insert (λ n. n) s.key x m sorted,
  )

module _ {ℓ} {K : Type ℓ} ⦃o : Ord K⦄ (granted : ℕ) (shares : List (Share K))
    (distinct : Distinct (λ (s : Share K). s.key) shares) where
  abbrev given : List ℕ
  given = divide granted (in_order shares)

  sorted-Distinct : Distinct (λ (s : Share K). s.key) (in_order shares)
  sorted-Distinct = Distinct-sort_by _ shares distinct

  nobody : (ss : List (Share K)) → Absent ss []
  unfolding lookup
  nobody [] = tt
  nobody (s ∷ ss) = (refl, nobody ss)

  -- The slots that the proxies are given are never more than the tenant was granted.
  pub split_total : total_of (λ n. n) (split granted shares) ≤ granted
  unfolding split
  split_total = omega (
    arith,
    sum-zipped (in_order shares) given [] (divide-Below granted (in_order shares)) sorted-Distinct
        (nobody (in_order shares)) tt,
    sum-divide granted (in_order shares),
  )

  given_at :
      (i : ℕ) (s : Share K)
      → get_elem? shares i ≡ some s
      → (j : ℕ) × (x : ℕ) × (get_elem? (in_order shares) j ≡ some s)
        × (get_elem? given j ≡ some x)
        × (x ≤ need s)
        × (lookup s.key (split granted shares) ≡ some x)
  unfolding split
  given_at i s g =
      let (j, h) = position (λ (t : Share K). t.key) shares i s g in
      let (x, k, le) =
        capped_at need given (in_order shares) j s (divide-Below granted (in_order shares)) h in
      (j, x, h, k, le, zipped_at (in_order shares) given [] j s x sorted-Distinct h k)

  -- Every proxy is answered, and given no more than it needs.
  pub split_capped :
      (i : ℕ) (s : Share K)
      → get_elem? shares i ≡ some s
      → (x : ℕ) × (lookup s.key (split granted shares) ≡ some x) × (x ≤ need s)
  split_capped i s g = let (j, x, h, k, le, e) = given_at i s g in (x, e, le)

  -- Either everything granted is given out, or every proxy is given just what it needs.
  pub split_conserving :
      (total_of (λ n. n) (split granted shares) ≡ granted)
      ⊎ ((i : ℕ) (s : Share K)
          → get_elem? shares i ≡ some s
          → lookup s.key (split granted shares) ≡ some (need s))
  unfolding split
  split_conserving = elim (divide_stop granted (in_order shares)) [
    | inl e ↦ inl (
        omega (
          arith,
          sum-zipped (in_order shares) given [] (divide-Below granted (in_order shares))
              sorted-Distinct (nobody (in_order shares)) tt,
        ))
    | inr b ↦ inr λ i s g.
        let (j, x, h, k, le, e) = given_at i s g in
        let ge = floored_at need given (in_order shares) j s x b h k in
        let same : x ≡ need s = omega arith in e ∙ ap some same
  ]

  -- If what the proxies hold and use fits, none of it is taken away.
  pub split_keeps :
      total in_use shares ≤ granted
      → (i : ℕ) (s : Share K) → get_elem? shares i ≡ some s
      → in_use s ≤ get_or 0 (lookup s.key (split granted shares))
  split_keeps fits i s g =
      let (j, x, h, k, le, e) = given_at i s g in
      let enough : sum (uses (in_order shares)) ≤ granted = omega (
        arith,
        sum-map in_use (in_order shares),
        total-sort_by (λ (t : Share K). t.key) in_use shares,
      ) in
      let ge =
        floored_at in_use given (in_order shares) j s x
          (divide_keeps granted (in_order shares) enough) h k in
      rw e ge
