-- ===== src/Policy/Change.antt =====
-- `Policies::change_tenant` of crates/core/src/policy.rs: what it changes and what it keeps.
use pg_steward.Base.Order.{Ord, ◌≟◌, Text, text_ord}
use pg_steward.Base.Map.{
  Map, lookup, insert, lookup-insert, IsSorted, insert-IsSorted, total_of, total_of-insert, worth,
}
use pg_steward.Base.{
  ℕ, ◌+◌, ◌≤◌, ◌≡◌, refl, sym, ap, subst, ◌∙◌, inl, inr, min, true, false, Option, some, List, [],
  ◌∷◌, if◌then◌else◌, ltb, ◌==◌, arith, get_or, saturating_add, u32_max, ok, Result-cases,
  Option-cases, Bool-cases, All,
}
use pg_steward.Policy.{
  TenantPolicy, PolicyChange, TenantRule, Policies, contains, minimums_from, minimums_on,
  changed_weight, check_budgets, with_policy, change_rule, change_tenant,
}

module _ {I : Type 0} ⦃order : Ord I⦄ where
  -- The minimum a rule has on an instance.
  abbrev pub share : I → TenantRule I → ℕ
  share i rule = if contains rule.instances i then rule.policy.min else 0

  minimums_from_lem :
      (sum : ℕ) (rules : Map Text (TenantRule I)) (i : I)
      → sum ≤ u32_max
      → minimums_from sum rules i ≡ min (sum + total_of (share i) rules) u32_max
  unfolding minimums_from
  minimums_from_lem sum [] i h = omega arith
  minimums_from_lem sum ((_, rule) ∷ rules) i h = elim (Bool-cases (contains rule.instances i)) [
    | inl e ↦
        rw (e, minimums_from)
          (minimums_from_lem (saturating_add sum rule.policy.min) rules i (omega arith)
            ∙ omega arith)
    | inr e ↦ rw (e, minimums_from) (minimums_from_lem sum rules i h ∙ omega arith)
  ]

  abbrev pub IsWithin : (I → Option ℕ) → Policies I → I → Type 0
  IsWithin budget p i = (b : ℕ) → budget i ≡ some b → minimums_on p i ≤ b

  check_budgets_lem :
      (budget : I → Option ℕ) (p p' : Policies I) (is : List I)
      → check_budgets budget p is ≡ ok p'
      → (p ≡ p') × All (IsWithin budget p) is
  unfolding check_budgets
  check_budgets_lem budget p p' [] e = (ground arith, tt)
  check_budgets_lem budget p p' (i ∷ is) e = elim (Option-cases (budget i)) [
    | inl unknown ↦
        let (same, fits) = check_budgets_lem budget p p' is (ground arith) in
        (same, ((λ b h. ground arith), fits))
    | inr (c, known) ↦ elim (Bool-cases (ltb c (minimums_on p i))) [
      | inl over ↦ ground arith
      | inr within ↦
          let (same, fits) = check_budgets_lem budget p p' is (ground arith) in
          (same, ((λ b h. ground arith), fits))
    ]
  ]

  All-contains : (P : I → Type 0) (is : List I) (i : I) → contains is i ≡ true → All P is → P i
  All-contains P [] i e _ = ground arith
  All-contains P (x ∷ is) i e (h, hs) = elim (Bool-cases (x ≟ i)) [
    | inl same ↦ subst P (order.exact x i (ground arith)) h
    | inr other ↦ All-contains P is i (ground arith) hs
  ]

  -- A change that is accepted, taken apart.
  abbrev pub Accepted : Policies I → Text → PolicyChange → (I → Option ℕ) → Policies I → Type 0
  Accepted p tenant change budget p' =
      (rule : TenantRule I) × (policy : TenantPolicy) × (lookup tenant p.rules ≡ some rule)
      × (p' ≡ with_policy p tenant rule policy)
      × (policy.min ≡ get_or rule.policy.min change.min)
      × (policy.max ≡ get_or rule.policy.max change.max)
      × (policy.weight ≡ get_or rule.policy.weight change.weight)
      × (policy.min ≤ policy.max)
      × ¬ (change.weight ≡ some 0)
      × All (IsWithin budget p') rule.instances

  change_rule_lem :
      (p p' : Policies I) (tenant : Text) (rule : TenantRule I) (change : PolicyChange)
      (budget : I → Option ℕ) (weight : ℕ)
      → change_rule p tenant rule change budget weight ≡ ok p'
      → let policy : TenantPolicy = record {
        min = get_or rule.policy.min change.min;
        max = get_or rule.policy.max change.max;
        weight = weight;
      } in
        (p' ≡ with_policy p tenant rule policy)
        × (get_or rule.policy.min change.min ≤ get_or rule.policy.max change.max)
        × All (IsWithin budget p') rule.instances
  unfolding change_rule
  change_rule_lem p p' tenant rule change budget weight e =
      let low = get_or rule.policy.min change.min in
      let high = get_or rule.policy.max change.max in
      elim (Bool-cases (ltb high low)) [
        | inl wrong ↦ ground arith
        | inr right ↦
            let changed =
              with_policy p tenant rule record { min = low; max = high; weight = weight } in
            let (same, fits) = check_budgets_lem budget changed p' rule.instances (ground arith) in
            (sym same, ground arith, subst (λ q. All (IsWithin budget q) rule.instances) same fits)
      ]

  changed_weight_lem :
      (change : PolicyChange) (policy : TenantPolicy) (w : ℕ)
      → changed_weight {I = I} change policy ≡ ok w
      → (w ≡ get_or policy.weight change.weight) × ¬ (change.weight ≡ some 0)
  changed_weight_lem change policy w e = elim (Option-cases change.weight) [
    | inl same ↦ (ground arith, ground arith)
    | inr (c, new) ↦ elim (Bool-cases (c == 0)) [
      | inl wrong ↦ ground arith
      | inr right ↦ (ground arith, λ h. ground arith)
    ]
  ]

  change_tenant-Accepted :
      (p p' : Policies I) (tenant : Text) (change : PolicyChange) (budget : I → Option ℕ)
      → change_tenant p tenant change budget ≡ ok p'
      → Accepted p tenant change budget p'
  unfolding change_tenant
  change_tenant-Accepted p p' tenant change budget e = elim (Option-cases (lookup tenant p.rules)) [
    | inl missing ↦ ground arith
    | inr (rule, found) ↦ elim (Result-cases (changed_weight {I = I} change rule.policy)) [
      | inl (x, bad) ↦ ground arith
      | inr (w, good) ↦
          let done : change_rule p tenant rule change budget w ≡ ok p' = ground arith in
          let (heavy, some_weight) = changed_weight_lem change rule.policy w good in
          let (same, ordered, fits) = change_rule_lem p p' tenant rule change budget w done in
          (
            rule,
            record {
              min = get_or rule.policy.min change.min;
              max = get_or rule.policy.max change.max;
              weight = w;
            },
            found,
            same,
            refl,
            refl,
            heavy,
            ordered,
            some_weight,
            fits,
          )
    ]
  ]

  -- Where the changed rule is not written, and so not checked, the minimums stay.
  minimums_on-elsewhere :
      (p : Policies I) (tenant : Text) (rule : TenantRule I) (policy : TenantPolicy) (i : I)
      → IsSorted p.rules
      → lookup tenant p.rules ≡ some rule
      → contains rule.instances i ≡ false
      → minimums_on (with_policy p tenant rule policy) i ≡ minimums_on p i
  minimums_on-elsewhere p tenant rule policy i sorted found other =
      let rule' : TenantRule I = record rule { policy = policy } in
      let before : worth (share i) (lookup tenant p.rules) ≡ 0 = rw (found, other) refl in
      let after : share i rule' ≡ 0 = rw other refl in
      omega (
        arith,
        total_of-insert (share i) tenant rule' p.rules sorted,
        minimums_from_lem 0 p.rules i (omega arith),
        minimums_from_lem 0 (insert tenant rule' p.rules) i (omega arith),
      )

  -- If the rules are in order and the minimums on every instance fit its budget, they still do
  -- after any change of a tenant that is accepted under these budgets.
  pub change_tenant-IsWithin :
      (p p' : Policies I) (tenant : Text) (change : PolicyChange) (budget : I → Option ℕ)
      → IsSorted p.rules
      → ((i : I) → IsWithin budget p i)
      → change_tenant p tenant change budget ≡ ok p'
      → IsSorted p'.rules × ((i : I) → IsWithin budget p' i)
  change_tenant-IsWithin p p' tenant change budget sorted within e =
      let (rule, policy, found, same, _, _, _, _, _, fits) =
        change_tenant-Accepted p p' tenant change budget e in
      (
        subst (λ q. IsSorted q.rules) (sym same)
            (insert-IsSorted tenant (record rule { policy = policy }) p.rules sorted),
        λ i. elim (Bool-cases (contains rule.instances i)) [
          | inl written ↦ All-contains (IsWithin budget p') rule.instances i written fits
          | inr other ↦
              subst (λ q. IsWithin budget q i) (sym same)
                (λ b known.
                  subst (λ n. n ≤ b)
                    (sym (minimums_on-elsewhere p tenant rule policy i sorted found other))
                    (within i b known))
        ],
      )

  -- A change of a tenant that is accepted finds a rule of that name, leaves every other rule and
  -- all weights of instances as they were, and puts in its place the rule with the same instances
  -- and the numbers of the change, or its old ones where the change has none; its minimum is at
  -- most its maximum, and the change did not set the weight to 0.
  pub lookup-change_tenant :
      (p p' : Policies I) (tenant : Text) (change : PolicyChange) (budget : I → Option ℕ)
      → change_tenant p tenant change budget ≡ ok p'
      → (rule : TenantRule I) × (policy : TenantPolicy) × (lookup tenant p.rules ≡ some rule)
        × ((q : Text)
            → lookup q p'.rules
              ≡ (if tenant ≟ q then some (record rule { policy = policy }) else lookup q p.rules))
        × (p'.weights ≡ p.weights)
        × (policy.min ≡ get_or rule.policy.min change.min)
        × (policy.max ≡ get_or rule.policy.max change.max)
        × (policy.weight ≡ get_or rule.policy.weight change.weight)
        × (policy.min ≤ policy.max)
        × ¬ (change.weight ≡ some 0)
  lookup-change_tenant p p' tenant change budget e =
      let (rule, policy, found, same, low, high, heavy, ordered, some_weight, _) =
        change_tenant-Accepted p p' tenant change budget e in
      (
        rule,
        policy,
        found,
        (λ q.
            ap (λ s. lookup q s.rules) same
            ∙ lookup-insert q tenant (record rule { policy = policy }) p.rules),
        ap (λ s. s.weights) same,
        low,
        high,
        heavy,
        ordered,
        some_weight,
      )
