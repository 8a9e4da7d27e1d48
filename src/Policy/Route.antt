-- ===== src/Policy/Route.antt =====
-- `Policies::route` of crates/core/src/policy.rs: the instance each roll picks.
use pg_steward.Base.Order.{Ord, text_ord, cmp_self}
use pg_steward.Base.{
  ℕ, ◌+◌, ◌-◌, ◌%◌, ◌≤◌, ◌<◌, ◌≡◌, refl, sym, ap, subst, ◌∙◌, inl, inr, true, false, some, List, [],
  ◌∷◌, ◌++◌, ltb, ◌==◌, arith, total, Bool-cases,
}
use pg_steward.Policy.{
  TenantId, TenantRule, Policies, resolve, weight_of, total_weight, pick, route_in, route, contains,
}

module _ {I : Type 0} ⦃order : Ord I⦄ (p : Policies I) where
  abbrev pub weight_sum : List I → ℕ
  weight_sum is = total (weight_of p) is

  total_weight_lem : (is : List I) → weight_sum is < 4294967296 → total_weight p is ≡ weight_sum is
  total_weight_lem [] h = refl
  total_weight_lem (i ∷ is) h = let rest = total_weight_lem is (omega arith) in omega arith

  pick_lem :
      (before : List I) (i : I) (behind : List I) (left : ℕ)
      → weight_sum before ≤ left
      → left < weight_sum before + weight_of p i
      → pick p (before ++ i ∷ behind) left ≡ some i
  unfolding pick
  pick_lem [] i behind left low high = ground arith
  pick_lem (x ∷ before) i behind left low high =
      ground (arith, pick_lem before i behind (left - weight_of p x))

  weight_sum-append : (is js : List I) → weight_sum (is ++ js) ≡ weight_sum is + weight_sum js
  weight_sum-append [] js = omega arith
  weight_sum-append (i ∷ is) js = omega (arith, weight_sum-append is js)

  -- In a rule whose weights add up to a number of a `u32` that is not 0, the loop decides.
  route_in_lem :
      (rule : TenantRule I) (roll : ℕ → ℕ)
      → 0 < weight_sum rule.instances
      → weight_sum rule.instances < 4294967296
      → route_in p rule roll
        ≡ pick p rule.instances (roll (weight_sum rule.instances) % weight_sum rule.instances)
  unfolding route_in
  route_in_lem rule roll some_weight small =
      let whole = total_weight_lem rule.instances small in
      let loaded : (weight_sum rule.instances == 0) ≡ false = ground arith in
      rw (whole, loaded) refl

  -- If the rule of a tenant writes an instance after others, and the weights of all its instances
  -- add up to less than 2 ^ 32, then `route` answers that instance for every roll whose remainder
  -- by that sum reaches the sum of the weights before it, and exceeds it by less than its own
  -- weight.
  pub route_lem :
      (tenant : TenantId) (roll : ℕ → ℕ) (rule : TenantRule I) (before : List I) (i : I)
      (behind : List I)
      → resolve p tenant ≡ some rule
      → rule.instances ≡ before ++ i ∷ behind
      → weight_sum rule.instances < 4294967296
      → let left = roll (weight_sum rule.instances) % weight_sum rule.instances in
        weight_sum before ≤ left
        → left < weight_sum before + weight_of p i
        → route p tenant roll ≡ some i
  unfolding route
  route_lem tenant roll rule before i behind found written small low high =
      let sum : weight_sum rule.instances
          ≡ weight_sum before + (weight_of p i + weight_sum behind) =
        ap weight_sum written ∙ weight_sum-append before (i ∷ behind) in
      let some_weight : 0 < weight_sum rule.instances = omega arith in
      let left = roll (weight_sum rule.instances) % weight_sum rule.instances in
      rw (found, route)
        (route_in_lem rule roll some_weight small
          ∙ subst (λ is. pick p is left ≡ some i) (sym written)
              (pick_lem before i behind left low high))

  pick_total :
      (is : List I) (left : ℕ)
      → left < weight_sum is
      → (i : I) × (pick p is left ≡ some i) × (contains is i ≡ true)
  unfolding pick
  pick_total [] left h = ground arith
  pick_total (x ∷ is) left h = elim (Bool-cases (ltb left (weight_of p x))) [
    | inl here ↦ (x, rw here refl, ground (arith, cmp_self x))
    | inr later ↦
        let (i, found, inside) = pick_total is (left - weight_of p x) (ground arith) in
        (i, rw later found, ground arith)
  ]

  -- If a tenant has a rule whose weights add up to a number of a `u32` that is not 0, then every
  -- roll is answered with an instance that the rule writes.
  pub route_total :
      (tenant : TenantId) (roll : ℕ → ℕ) (rule : TenantRule I)
      → resolve p tenant ≡ some rule
      → 0 < weight_sum rule.instances
      → weight_sum rule.instances < 4294967296
      → (i : I) × (route p tenant roll ≡ some i) × (contains rule.instances i ≡ true)
  unfolding route
  route_total tenant roll rule found some_weight small =
      let n = weight_sum rule.instances in
      let (i, picked, inside) = pick_total rule.instances (roll n % n) (omega arith) in
      (i, rw (found, route) (route_in_lem rule roll some_weight small ∙ picked), inside)
