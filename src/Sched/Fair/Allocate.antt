-- ===== src/Sched/Fair/Allocate.antt =====
-- `allocate` of fair.rs: what the grants promise to each claim.
use native.Mathlib.Nat.{zero-add}
use pg_steward.Base.{
  ℕ, ◌+◌, ◌≤◌, ◌≡◌, refl, ap, ◌∙◌, ◌⊎◌, inl, inr, some, List, [], ◌∷◌, arith, total, map, get_elem?,
  All-get_elem?, saturate,
}
use pg_steward.Base.Order.{Ord}
use pg_steward.Base.Map.{lookup, total_of}
use pg_steward.Base.Sorting.{All-sort_by, total-sort_by, Distinct, Distinct-sort_by, position}
use pg_steward.Sched.{Claim, ceiling, guarantee, get}
use pg_steward.Sched.Fair.{
  Row, Tally, guarantees, demands, limit, rounds, row_of, collect, by_key, allocate,
}
use pg_steward.Sched.Fair.Steps.{Heavy}
use pg_steward.Sched.Fair.Bounds.{held_total, Met}
use pg_steward.Sched.Fair.Rounds.{
  Fresh-total, rounds-Ended, rounds_total, rounds_floors, rounds_demands,
}
use pg_steward.Sched.Fair.Collect.{
  SettledRow, Settled, Weighty, settled, row_at, row_of-Heavy, row_of-Fresh, row_of_floors, Untold,
  collect_total, collect_unmet, collect_at, collect_sum,
}

module _ {ℓ} {K : Type ℓ} ⦃o : Ord K⦄ (release budget : ℕ) (claims : List (Claim K)) where
  abbrev order : List (Claim K)
  order = by_key claims

  abbrev start : List Row
  start = map (row_of release) order

  abbrev ended : List Row × ℕ
  ended = rounds budget start

  abbrev fresh_tally : Tally K
  fresh_tally = record { granted = []; total = 0; unmet = 0 }

module _ {ℓ} {K : Type ℓ} ⦃o : Ord K⦄ (release budget : ℕ) (claims : List (Claim K))
    (weighty : Weighty claims) where
  heavy : Heavy (start release budget claims)
  heavy = row_of-Heavy release (by_key claims) (All-sort_by _ _ claims weighty)

  rows-Settled : Settled release (ended release budget claims).0 (by_key claims)
  rows-Settled = settled release (by_key claims) _ (rounds-Ended _ budget heavy)

  total_lem : (allocate release budget claims).total ≡ held_total (ended release budget claims).0
  unfolding allocate
  total_lem =
      collect_total release (ended release budget claims).0 (by_key claims)
        (fresh_tally release budget claims) rows-Settled
      ∙ zero-add _

  left_lem : (allocate release budget claims).total + (ended release budget claims).1 ≡ budget
  left_lem = omega (
    arith,
    total_lem,
    rounds_total (start release budget claims) budget heavy,
    Fresh-total (start release budget claims) (row_of-Fresh release (by_key claims)),
  )

  -- The slots granted never exceed the budget.
  pub total-le-budget : (allocate release budget claims).total ≤ budget
  total-le-budget = omega (arith, left_lem)

  module _ (distinct : Distinct (λ (c : Claim K). c.key) claims) where
    untold : (cs : List (Claim K)) → Untold release cs (fresh_tally release budget claims)
    unfolding lookup
    untold [] = tt
    untold (c ∷ cs) = (refl, untold cs)

    -- Each claim is answered by a row that was made for it.
    granted_at :
        (i : ℕ) (c : Claim K)
        → get_elem? claims i ≡ some c
        → (j : ℕ) × (r : Row) × (get_elem? (ended release budget claims).0 j ≡ some r)
          × SettledRow release r c
          × (get (allocate release budget claims) c.key ≡ r.granted)
    unfolding allocate
    granted_at i c g =
        let (j, h) = position (λ (d : Claim K). d.key) claims i c g in
        let (r, k, s) =
          row_at release (ended release budget claims).0 (by_key claims) j c rows-Settled h in
        (
          j,
          r,
          k,
          s,
          collect_at release (ended release budget claims).0 (by_key claims)
              (fresh_tally release budget claims) j r c (Distinct-sort_by _ claims distinct)
              (untold (by_key claims)) k h,
        )

    -- No claim is granted more than its maximum.
    pub get-le-max_slots :
        (i : ℕ) (c : Claim K)
        → get_elem? claims i ≡ some c
        → get (allocate release budget claims) c.key ≤ c.max_slots
    get-le-max_slots i c g = let (j, r, k, s, e) = granted_at i c g in omega arith

    -- The answered total is the sum of the grants, and stays within the budget.
    pub granted_total :
        (total_of (λ n. n) (allocate release budget claims).granted
          ≡ (allocate release budget claims).total)
        × ((allocate release budget claims).total ≤ budget)
    unfolding allocate
    granted_total = (
      collect_sum release (ended release budget claims).0 (by_key claims)
          (fresh_tally release budget claims) (Distinct-sort_by _ claims distinct)
          (untold (by_key claims)) tt refl,
      total-le-budget,
    )

    -- If the guarantees fit the budget, every claim is granted its guarantee and none is unmet.
    pub guarantees_granted :
        total guarantee claims ≤ budget
        → ((allocate release budget claims).unmet_guarantee ≡ 0)
          × ((i : ℕ) (c : Claim K)
              → get_elem? claims i ≡ some c
              → guarantee c ≤ get (allocate release budget claims) c.key)
    unfolding allocate
    guarantees_granted fits = (ap saturate none_unmet, λ i c g. each i c g)
      where
        met : Met guarantees (ended release budget claims).0
        met =
            rounds_floors (start release budget claims) budget heavy
              (row_of-Fresh release (by_key claims))
              (omega (
                arith,
                row_of_floors release (by_key claims),
                total-sort_by (λ (c : Claim K). c.key) guarantee claims,
              ))

        none_unmet :
            (collect
              (ended release budget claims).0
              (by_key claims)
              (fresh_tally release budget claims)).unmet
            ≡ 0
        none_unmet =
            collect_unmet release (ended release budget claims).0 (by_key claims)
              (fresh_tally release budget claims) met

        each :
            (i : ℕ) (c : Claim K)
            → get_elem? claims i ≡ some c
            → guarantee c ≤ get (allocate release budget claims) c.key
        each i c g =
            let (j, r, k, s, e) = granted_at i c g in
            let enough =
              All-get_elem? (λ t. limit guarantees t ≤ t.granted) (ended release budget claims).0 j
                met k in
            omega arith

    -- Work is conserved: either the whole budget is granted, or every claim has all that it may use.
    pub work_conserving :
        ((allocate release budget claims).total ≡ budget)
        ⊎ ((i : ℕ) (c : Claim K)
            → get_elem? claims i ≡ some c
            → ceiling c ≤ get (allocate release budget claims) c.key)
    work_conserving = elim (rounds_demands (start release budget claims) budget heavy) [
      | inl none_left ↦ inl (omega (arith, left_lem))
      | inr met ↦ inr λ i c g.
          let (j, r, k, s, e) = granted_at i c g in
          let enough =
            All-get_elem? (λ t. limit demands t ≤ t.granted) (ended release budget claims).0 j met
              k in
          omega arith
    ]
