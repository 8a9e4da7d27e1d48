-- ===== src/Sched/Fair/Collect.antt =====
-- The last loop of `allocate` in fair.rs, from rows back to claims.
use mathlib.Core.Option.{some-injective}
use pg_steward.Base.{
  ℕ, zero, suc, ◌+◌, ◌≤◌, ◌<◌, ◌≡◌, refl, sym, subst, ◌∙◌, none, some, List, [], ◌∷◌, arith, All,
  total, map, get_elem?, get_or,
}
use pg_steward.Base.Order.{cmp_self, Ord, false_of_ne}
use pg_steward.Base.Map.{
  lookup, lookup-insert, total_of, total_of-insert, IsSorted, insert-IsSorted,
}
use pg_steward.Base.Sorting.{Distinct}
use pg_steward.Sched.{Claim, ceiling, guarantee, kept}
use pg_steward.Sched.Fair.{Row, Tally, guarantees, row_of, tallied, collect}
use pg_steward.Sched.Fair.Steps.{Heavy}
use pg_steward.Sched.Fair.Bounds.{held_total, Met}
use pg_steward.Sched.Fair.Rounds.{Ended, Fresh, floor_total}

-- A row at the end, beside the claim it was made for.
abbrev pub SettledRow {ℓ} : {K : Type ℓ} → ℕ → Row → Claim K → Type 0
SettledRow release r c =
    (r.guarantee ≡ guarantee c)
    × (r.ceiling ≡ ceiling c)
    × (r.kept ≡ kept release c)
    × (r.granted ≤ c.max_slots)

abbrev pub Settled {ℓ} : {K : Type ℓ} → ℕ → List Row → List (Claim K) → Type 0
Settled release [] [] = Unit
Settled release [] (c ∷ cs) = ⊥
Settled release (r ∷ rows) [] = ⊥
Settled release (r ∷ rows) (c ∷ cs) = SettledRow release r c × Settled release rows cs

-- Every claim has the weight that a `NonZeroU32` has.
abbrev pub Weighty {ℓ} : {K : Type ℓ} → List (Claim K) → Type 0
Weighty = All (λ c. 0 < c.weight)

module _ {ℓ} {K : Type ℓ} (release : ℕ) where
  pub settled :
      (cs : List (Claim K)) (rows : List Row)
      → Ended (map (row_of release) cs) rows
      → Settled release rows cs
  settled [] [] e = tt
  settled [] (r ∷ rows) e = absurd e
  settled (c ∷ cs) [] e = absurd e
  settled (c ∷ cs) (r ∷ rows) e = (omega arith, settled cs rows e.1)

  pub row_at :
      (rows : List Row) (cs : List (Claim K)) (j : ℕ) (c : Claim K)
      → Settled release rows cs
      → get_elem? cs j ≡ some c
      → (r : Row) × (get_elem? rows j ≡ some r) × SettledRow release r c
  row_at [] [] j c s g = absurd (cc)
  row_at [] (d ∷ cs) j c s g = absurd s
  row_at (r ∷ rows) [] j c s g = absurd s
  row_at (r ∷ rows) (d ∷ cs) zero c s g =
      (r, refl, subst (SettledRow release r) (some-injective _ _ g) s.0)
  row_at (r ∷ rows) (d ∷ cs) (suc j) c s g = row_at rows cs j c s.1 g

  pub row_of-Heavy : (cs : List (Claim K)) → Weighty cs → Heavy (map (row_of release) cs)
  row_of-Heavy [] w = tt
  row_of-Heavy (c ∷ cs) w = (w.0, row_of-Heavy cs w.1)

  pub row_of-Fresh : (cs : List (Claim K)) → Fresh (map (row_of release) cs)
  row_of-Fresh [] = tt
  row_of-Fresh (c ∷ cs) = (refl, row_of-Fresh cs)

  pub row_of_floors :
      (cs : List (Claim K)) → floor_total (map (row_of release) cs) ≡ total guarantee cs
  row_of_floors [] = refl
  row_of_floors (c ∷ cs) = omega (arith, row_of_floors cs)

module _ {ℓ} {K : Type ℓ} ⦃o : Ord K⦄ (release : ℕ) where
  -- The totals that the last loop accumulates.
  pub collect_total :
      (rows : List Row) (cs : List (Claim K)) (t : Tally K)
      → Settled release rows cs
      → (collect rows cs t).total ≡ t.total + held_total rows
  unfolding collect
  collect_total [] [] t s = omega arith
  collect_total [] (c ∷ cs) t s = absurd s
  collect_total (r ∷ rows) [] t s = absurd s
  collect_total (r ∷ rows) (c ∷ cs) t s = ground (arith, collect_total rows cs (tallied r c t) s.1)

  pub collect_unmet :
      (rows : List Row) (cs : List (Claim K)) (t : Tally K)
      → Met guarantees rows
      → (collect rows cs t).unmet ≡ t.unmet
  unfolding collect
  collect_unmet [] cs t m = refl
  collect_unmet (r ∷ rows) [] t m = refl
  collect_unmet (r ∷ rows) (c ∷ cs) t m = omega (arith, collect_unmet rows cs (tallied r c t) m.1)

  -- A key of no later claim reads on as it did.
  collect_other :
      (rows : List Row) (cs : List (Claim K)) (t : Tally K) (k : K)
      → All (λ c. ¬ (k ≡ c.key)) cs
      → lookup k (collect rows cs t).granted ≡ lookup k t.granted
  unfolding collect
  collect_other [] cs t k a = refl
  collect_other (r ∷ rows) [] t k a = refl
  collect_other (r ∷ rows) (c ∷ cs) t k a =
      collect_other rows cs (tallied r c t) k a.1
      ∙ ground
          (arith, lookup-insert k c.key r.granted t.granted, false_of_ne c.key k (λ e. a.0 (sym e)))

  -- None of the claims has been tallied.
  abbrev pub Untold : List (Claim K) → Tally K → Type 0
  Untold cs t = All (λ c. lookup c.key t.granted ≡ none) cs

  Untold-tallied :
      (r : Row) (c : Claim K) (cs : List (Claim K)) (t : Tally K)
      → All (λ d. ¬ (c.key ≡ d.key)) cs
      → Untold cs t
      → Untold cs (tallied r c t)
  Untold-tallied r c [] t a u = tt
  Untold-tallied r c (d ∷ cs) t a u = (
    ground (arith, lookup-insert d.key c.key r.granted t.granted, false_of_ne c.key d.key a.0),
    Untold-tallied r c cs t a.1 u.1,
  )

  -- Each claim is granted what its row ended with.
  pub collect_at :
      (rows : List Row) (cs : List (Claim K)) (t : Tally K) (j : ℕ) (r : Row) (c : Claim K)
      → Distinct (λ c. c.key) cs
      → Untold cs t
      → get_elem? rows j ≡ some r
      → get_elem? cs j ≡ some c
      → get_or 0 (lookup c.key (collect rows cs t).granted) ≡ r.granted
  unfolding collect
  collect_at [] cs t j r c d u g h = absurd (cc)
  collect_at (x ∷ rows) [] t j r c d u g h = absurd (cc)
  collect_at (x ∷ rows) (y ∷ cs) t zero r c d u g h =
      let here = collect_other rows cs (tallied x y t) y.key d.0 in
      let same_row : x ≡ r = some-injective _ _ g in
      let same : y ≡ c = some-injective _ _ h in
      rw (← same, ← same_row, here)
        (ground (arith, lookup-insert y.key y.key x.granted t.granted, cmp_self y.key))
  collect_at (x ∷ rows) (y ∷ cs) t (suc j) r c d u g h =
      collect_at rows cs (tallied x y t) j r c d.1 (Untold-tallied x y cs t d.0 u.1) g h

  -- The granted slots, summed over the map.
  pub collect_sum :
      (rows : List Row) (cs : List (Claim K)) (t : Tally K)
      → Distinct (λ c. c.key) cs
      → Untold cs t
      → IsSorted t.granted
      → total_of (λ n. n) t.granted ≡ t.total
      → total_of (λ n. n) (collect rows cs t).granted ≡ (collect rows cs t).total
  unfolding collect
  collect_sum [] cs t d u s e = e
  collect_sum (x ∷ rows) [] t d u s e = e
  collect_sum (x ∷ rows) (y ∷ cs) t d u s e =
      collect_sum rows cs (tallied x y t) d.1 (Untold-tallied x y cs t d.0 u.1)
        (ground (arith, insert-IsSorted y.key x.granted t.granted s))
        (ground (arith, total_of-insert (λ n. n) y.key x.granted t.granted s))
