-- ===== src/Sched/Fair/Rounds.antt =====
-- The three rounds of fair.rs together: what a row ends with.
use pg_steward.Base.{ℕ, ◌+◌, ◌≤◌, ◌≡◌, refl, ◌⊎◌, inl, inr, List, [], ◌∷◌, arith, All, total, max}
use pg_steward.Sched.Fair.{Row, guarantees, demands, retention, fill, rounds}
use pg_steward.Sched.Fair.Steps.{Heavy}
use pg_steward.Sched.Fair.Bounds.{
  Grew, held_total, Met, fill-Grew, fill_total, fill-Met, Grew-Heavy, Grew-Met,
}

-- The row keeps its limits, and holds no more than the highest of them (or what it held before).
abbrev pub EndedRow : Row → Row → Type 0
EndedRow a d =
    (d.guarantee ≡ a.guarantee)
    × (d.ceiling ≡ a.ceiling)
    × (d.kept ≡ a.kept)
    × (d.granted ≤ max a.granted (max a.guarantee (max a.ceiling a.kept)))

abbrev pub Ended : List Row → List Row → Type 0
Ended [] [] = Unit
Ended [] (d ∷ ds) = ⊥
Ended (a ∷ rows) [] = ⊥
Ended (a ∷ rows) (d ∷ ds) = EndedRow a d × Ended rows ds

join_rounds :
    (ps qs rs ts : List Row)
    → Grew guarantees ps qs
    → Grew demands qs rs
    → Grew retention rs ts
    → Ended ps ts
join_rounds [] [] [] [] f g h = tt
join_rounds [] [] [] (t ∷ ts) f g h = h
join_rounds [] [] (r ∷ rs) ts f g h = absurd g
join_rounds [] (q ∷ qs) rs ts f g h = absurd f
join_rounds (p ∷ ps) [] rs ts f g h = absurd f
join_rounds (p ∷ ps) (q ∷ qs) [] ts f g h = absurd g
join_rounds (p ∷ ps) (q ∷ qs) (r ∷ rs) [] f g h = h
join_rounds (p ∷ ps) (q ∷ qs) (r ∷ rs) (t ∷ ts) f g h =
    (omega arith, join_rounds ps qs rs ts f.1 g.1 h.1)

abbrev pub floor_total : List Row → ℕ
floor_total = total (λ r. r.guarantee)

-- No row holds anything yet.
abbrev pub Fresh : List Row → Type 0
Fresh = All (λ r. r.granted ≡ 0)

pub Fresh-total : (rows : List Row) → Fresh rows → held_total rows ≡ 0
Fresh-total [] f = refl
Fresh-total (r ∷ rows) f = omega (arith, Fresh-total rows f.1)

floors_kept :
    (xs ys : List Row)
    → Fresh xs
    → Grew guarantees xs ys
    → (floor_total ys ≡ floor_total xs) × (held_total ys ≤ floor_total ys)
floors_kept [] [] f g = omega arith
floors_kept [] (y ∷ ys) f g = absurd g
floors_kept (x ∷ xs) [] f g = absurd g
floors_kept (x ∷ xs) (y ∷ ys) f g = omega (arith, floors_kept xs ys f.1 g.1)

-- Rows that hold at most their floors and together hold all of them hold each of them.
squeeze :
    (xs ys : List Row)
    → Fresh xs
    → Grew guarantees xs ys
    → floor_total ys ≤ held_total ys
    → Met guarantees ys
squeeze [] [] f g h = tt
squeeze [] (y ∷ ys) f g h = absurd g
squeeze (x ∷ xs) [] f g h = absurd g
squeeze (x ∷ xs) (y ∷ ys) f g h =
    (omega (arith, floors_kept xs ys f.1 g.1), squeeze xs ys f.1 g.1 (omega arith))

module _ (rows : List Row) (budget : ℕ) (heavy : Heavy rows) where
  abbrev first : List Row × ℕ
  first = fill guarantees rows budget

  abbrev second : List Row × ℕ
  second = fill demands first.0 first.1

  abbrev third : List Row × ℕ
  third = fill retention second.0 second.1

  first-Heavy : Heavy first.0
  first-Heavy = Grew-Heavy guarantees rows first.0 (fill-Grew guarantees rows budget heavy) heavy

  grew₂ : Grew demands first.0 second.0
  grew₂ = fill-Grew demands first.0 first.1 first-Heavy

  second-Heavy : Heavy second.0
  second-Heavy = Grew-Heavy demands first.0 second.0 grew₂ first-Heavy

  grew₃ : Grew retention second.0 third.0
  grew₃ = fill-Grew retention second.0 second.1 second-Heavy

  pub rounds-Ended : Ended rows (rounds budget rows).0
  unfolding rounds
  rounds-Ended =
      join_rounds rows first.0 second.0 third.0 (fill-Grew guarantees rows budget heavy) grew₂ grew₃

  -- Slots are neither lost nor made up: granted and left over they are the budget.
  pub rounds_total :
      held_total (rounds budget rows).0 + (rounds budget rows).1 ≡ held_total rows + budget
  unfolding rounds
  rounds_total = omega (
    arith,
    fill_total guarantees rows budget heavy,
    fill_total demands first.0 first.1 first-Heavy,
    fill_total retention second.0 second.1 second-Heavy,
  )

  first-Met : Fresh rows → floor_total rows ≤ budget → Met guarantees first.0
  first-Met fresh enough = elim (fill-Met guarantees rows budget heavy) [
    | inr met ↦ met
    | inl none_left ↦
        let grew = fill-Grew guarantees rows budget heavy in
        squeeze rows first.0 fresh grew (
          omega (
            arith,
            floors_kept rows first.0 fresh grew,
            fill_total guarantees rows budget heavy,
            Fresh-total rows fresh,
          ))
  ]

  -- A budget that covers the floors meets each of them.
  pub rounds_floors : Fresh rows → floor_total rows ≤ budget → Met guarantees (rounds budget rows).0
  unfolding rounds
  rounds_floors fresh enough =
      Grew-Met retention guarantees second.0 third.0 grew₃
        (Grew-Met demands guarantees first.0 second.0 grew₂ (first-Met fresh enough))

  -- Slots are left over only once every demand is met.
  pub rounds_demands : ((rounds budget rows).1 ≡ 0) ⊎ Met demands (rounds budget rows).0
  unfolding rounds
  rounds_demands = elim (fill-Met demands first.0 first.1 first-Heavy) [
    | inl none_left ↦ inl (
        omega (
          arith,
          fill_total retention second.0 second.1 second-Heavy,
          more (second.0) (third.0) grew₃,
        ))
    | inr met ↦ inr (Grew-Met retention demands second.0 third.0 grew₃ met)
  ]
    where
      more : (xs ys : List Row) → Grew retention xs ys → held_total xs ≤ held_total ys
      more [] [] g = omega arith
      more [] (y ∷ ys) g = absurd g
      more (x ∷ xs) [] g = absurd g
      more (x ∷ xs) (y ∷ ys) g = omega (arith, more xs ys g.1)
