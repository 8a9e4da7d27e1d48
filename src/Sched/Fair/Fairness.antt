-- ===== src/Sched/Fair/Fairness.antt =====
-- Weighted max-min fairness of one round of fair.rs.
use mathlib.Core.Option.{some-injective}
use pg_steward.Base.{
  ℕ, zero, suc, ◌+◌, ◌-◌, ◌*◌, ◌≤◌, ◌≡◌, refl, sym, ap, ◌∙◌, subst, ◌⊎◌, inl, inr, true, some, List,
  [], ◌∷◌, arith, get_elem?, set, map, ℕ_discrete, get_elem?-set_self, get_elem?-set_ne,
}
use pg_steward.Sched.Fair.{Row, Phase, under, after, raise, rebase, fill}
use pg_steward.Sched.Fair.Queue.{Before-le, scale_le}
use pg_steward.Sched.Fair.Steps.{Step, Steps, Heavy}
use pg_steward.Sched.Fair.Drain.{fill-Filled}

-- What two rows gained over `origin`, by weight: a row below its limit is at most one slot behind.
abbrev pub IsFair : Phase → List Row → List Row → Type 0
IsFair phase origin rows =
    (i j : ℕ) (a₀ b₀ a b : Row)
    → get_elem? origin i ≡ some a₀
    → get_elem? origin j ≡ some b₀
    → get_elem? rows i ≡ some a
    → get_elem? rows j ≡ some b
    → under phase b ≡ true
    → (a.granted - a₀.granted) * b.weight ≤ (b.granted - b₀.granted + 1) * a.weight

-- The base of a row is what it was granted when the round began.
abbrev Anchored : List Row → List Row → Type 0
Anchored origin rows =
    (i : ℕ) (a₀ a : Row)
    → get_elem? origin i ≡ some a₀
    → get_elem? rows i ≡ some a
    → (a.base ≡ a₀.granted) × (a₀.granted ≤ a.granted)

module _ (phase : Phase) (origin rows mid : List Row) (s : Step phase rows mid)
    (anchored : Anchored origin rows) (fair : IsFair phase origin rows) where
  -- A row after the step is the raised one or an old one.
  Was : ℕ → Row → Type 0
  Was i a = ((i ≡ s.index) × (a ≡ raise s.row)) ⊎ (get_elem? rows i ≡ some a)

  was : (i : ℕ) (a : Row) → get_elem? mid i ≡ some a → Was i a
  unfolding Was
  was i a g = elim (ℕ_discrete s.index i) [
    | yes e ↦ inl (
      sym e,
      some-injective _ _ (sym g ∙ (subst (λ k. get_elem? mid k ≡ some (raise s.row)) e hit)),
    )
    | no ne ↦ inr (sym (get_elem?-set_ne rows s.index i (raise s.row) ne) ∙ g')
  ]
    where
      hit : get_elem? mid s.index ≡ some (raise s.row)
      hit = rw s.result (get_elem?-set_self rows s.index (raise s.row) s.at)

      g' : get_elem? (set rows s.index (raise s.row)) i ≡ some a
      g' = subst (λ t. get_elem? t i ≡ some a) s.result g

  at_index :
      (i : ℕ) (a₀ : Row)
      → get_elem? origin i ≡ some a₀
      → i ≡ s.index
      → get_elem? origin s.index ≡ some a₀
  at_index i a₀ o e = subst (λ k. get_elem? origin k ≡ some a₀) e o

  step-Anchored : Anchored origin mid
  unfolding Was
  step-Anchored i a₀ a o g = elim (was i a g) [
    | inl (e, same) ↦
        let old = anchored s.index a₀ s.row (at_index i a₀ o e) s.at in rw same (omega arith)
    | inr old ↦ anchored i a₀ a o old
  ]

  -- The rows of a pair: the raised one may stand on either side.
  raised_old :
      (j : ℕ) (a₀ b₀ b : Row)
      → get_elem? origin s.index ≡ some a₀
      → get_elem? origin j ≡ some b₀
      → get_elem? rows j ≡ some b
      → under phase b ≡ true
      → (s.row.granted + 1 - a₀.granted) * b.weight ≤ (b.granted - b₀.granted + 1) * s.row.weight
  raised_old j a₀ b₀ b oi oj gj u =
      let mine = anchored s.index a₀ s.row oi s.at in
      let theirs = anchored j b₀ b oj gj in
      let least = Before-le (after s.index s.row) (after j b) (s.first j b gj u) in
      let left : s.row.granted + 1 - a₀.granted ≡ s.row.granted - s.row.base + 1 = omega arith in
      let right : b.granted - b₀.granted + 1 ≡ b.granted - b.base + 1 = omega arith in
      rw (left, right) least

  old_raised :
      (i : ℕ) (a₀ b₀ a : Row)
      → get_elem? origin i ≡ some a₀
      → get_elem? origin s.index ≡ some b₀
      → get_elem? rows i ≡ some a
      → (a.granted - a₀.granted) * s.row.weight ≤ (s.row.granted + 1 - b₀.granted + 1) * a.weight
  old_raised i a₀ b₀ a oi oj gi =
      let before = fair i s.index a₀ b₀ a s.row oi oj gi s.at s.below in
      let more =
        scale_le (s.row.granted - b₀.granted + 1) (s.row.granted + 1 - b₀.granted + 1) a.weight
          (omega arith) in
      omega arith

  raised_raised :
      (a₀ b₀ : Row)
      → get_elem? origin s.index ≡ some a₀
      → get_elem? origin s.index ≡ some b₀
      → (s.row.granted + 1 - a₀.granted) * s.row.weight
        ≤ (s.row.granted + 1 - b₀.granted + 1) * s.row.weight
  raised_raised a₀ b₀ oi oj =
      let mine = anchored s.index a₀ s.row oi s.at in
      let theirs = anchored s.index b₀ s.row oj s.at in
      scale_le (s.row.granted + 1 - a₀.granted) (s.row.granted + 1 - b₀.granted + 1) s.row.weight
        (omega arith)

  step-IsFair : IsFair phase origin mid
  unfolding Was
  step-IsFair i j a₀ b₀ a b oi oj gi gj u = go (was i a gi) (was j b gj)
    where
      go :
          Was i a
          → Was j b
          → (a.granted - a₀.granted) * b.weight ≤ (b.granted - b₀.granted + 1) * a.weight
      go (inl (e, x)) (inl (f, y)) =
          rw (x, y) (raised_raised a₀ b₀ (at_index i a₀ oi e) (at_index j b₀ oj f))
      go (inl (e, x)) (inr q) = rw x (raised_old j a₀ b₀ b (at_index i a₀ oi e) oj q u)
      go (inr p) (inl (f, y)) = rw y (old_raised i a₀ b₀ a oi (at_index j b₀ oj f) p)
      go (inr p) (inr q) = fair i j a₀ b₀ a b oi oj p q u

Steps-IsFair :
    (phase : Phase) (n : ℕ) (origin rows out : List Row)
    → Steps phase n rows out
    → Anchored origin rows
    → IsFair phase origin rows
    → IsFair phase origin out
Steps-IsFair phase zero origin rows out e anchored fair = subst (IsFair phase origin) e fair
Steps-IsFair phase (suc n) origin rows out (mid, s, rest) anchored fair =
    Steps-IsFair phase n origin mid out rest (step-Anchored phase origin rows mid s anchored fair)
      (step-IsFair phase origin rows mid s anchored fair)

get_elem?-rebase :
    (rows : List Row) (i : ℕ) (a₀ a : Row)
    → get_elem? rows i ≡ some a₀
    → get_elem? (map rebase rows) i ≡ some a
    → a ≡ rebase a₀
get_elem?-rebase [] i a₀ a g h = absurd (cc)
get_elem?-rebase (r ∷ rows) zero a₀ a g h =
    sym (some-injective _ _ h) ∙ ap rebase (some-injective _ _ g)
get_elem?-rebase (r ∷ rows) (suc i) a₀ a g h = get_elem?-rebase rows i a₀ a g h

-- Nothing has been gained yet.
still-IsFair :
    (phase : Phase) (origin rows : List Row)
    → ((i : ℕ) (a₀ a : Row)
        → get_elem? origin i ≡ some a₀
        → get_elem? rows i ≡ some a
        → a.granted ≡ a₀.granted)
    → IsFair phase origin rows
still-IsFair phase origin rows same i j a₀ b₀ a b oi oj gi gj u =
    let none_gained : a.granted - a₀.granted ≡ 0 = omega (arith, same i a₀ a oi gi) in
    rw none_gained (omega arith)

-- In each round, for any two rows: if the second ends below its limit, what the first gained for
-- its weight is at most what one more slot would give the second for its weight.
pub fill-IsFair :
    (phase : Phase) (rows : List Row) (remaining : ℕ)
    → Heavy rows
    → IsFair phase rows (fill phase rows remaining).0
fill-IsFair phase rows remaining heavy = elim (fill-Filled phase rows remaining heavy) [
  | inl (_, e, _) ↦ still-IsFair phase rows (fill phase rows remaining).0 λ i a₀ a g h.
      ap (λ (r : Row). r.granted) (some-injective _ _ (sym h ∙ ap (λ t. get_elem? t i) e ∙ g))
  | inr (_, (n, steps, _, _)) ↦
      Steps-IsFair phase n rows (map rebase rows) (fill phase rows remaining).0 steps
        (λ i a₀ a g h. rw (get_elem?-rebase rows i a₀ a g h) (refl, omega arith))
        (still-IsFair phase rows (map rebase rows)
          λ i a₀ a g h. ap (λ (r : Row). r.granted) (get_elem?-rebase rows i a₀ a g h))
]
