-- ===== src/Sched/Fair/Bounds.antt =====
-- What the rounds of fair.rs do to the rows: how much each may gain, and what is left over.
use pg_steward.Base.{
  ℕ, zero, suc, ◌+◌, ◌≤◌, ◌≡◌, refl, sym, ap, subst, ◌⊎◌, inl, inr, true, some, List, [], ◌∷◌,
  arith, All, total, max, get_elem?, set, map,
}
use pg_steward.Sched.Fair.{
  Row, Phase, guarantees, demands, retention, limit, under, raise, rebase, fill,
}
use pg_steward.Sched.Fair.Steps.{Steps, Full, Heavy}
use pg_steward.Sched.Fair.Drain.{fill-Filled}

-- The same row with more granted, but no more than its limit allows.
abbrev pub GrewRow : Phase → Row → Row → Type 0
GrewRow phase a b =
    (b.guarantee ≡ a.guarantee)
    × (b.ceiling ≡ a.ceiling)
    × (b.kept ≡ a.kept)
    × (b.held ≡ a.held)
    × (b.weight ≡ a.weight)
    × (a.granted ≤ b.granted)
    × (b.granted ≤ max a.granted (limit phase a))

abbrev pub Grew : Phase → List Row → List Row → Type 0
Grew phase [] [] = Unit
Grew phase [] (b ∷ bs) = ⊥
Grew phase (a ∷ rows) [] = ⊥
Grew phase (a ∷ rows) (b ∷ bs) = GrewRow phase a b × Grew phase rows bs

GrewRow-trans :
    (phase : Phase) (a b c : Row) → GrewRow phase a b → GrewRow phase b c → GrewRow phase a c
GrewRow-trans guarantees a b c p q = omega arith
GrewRow-trans demands a b c p q = omega arith
GrewRow-trans retention a b c p q = omega arith

Grew-refl : (phase : Phase) (rows : List Row) → Grew phase rows rows
Grew-refl phase [] = tt
Grew-refl phase (r ∷ rows) = (omega arith, Grew-refl phase rows)

Grew-trans :
    (phase : Phase) (xs ys zs : List Row) → Grew phase xs ys → Grew phase ys zs → Grew phase xs zs
Grew-trans phase [] [] zs p q = q
Grew-trans phase [] (y ∷ ys) zs p q = absurd p
Grew-trans phase (x ∷ xs) [] zs p q = absurd p
Grew-trans phase (x ∷ xs) (y ∷ ys) [] p q = absurd q
Grew-trans phase (x ∷ xs) (y ∷ ys) (z ∷ zs) p q =
    (GrewRow-trans phase x y z p.0 q.0, Grew-trans phase xs ys zs p.1 q.1)

rebase-Grew : (phase : Phase) (rows : List Row) → Grew phase rows (map rebase rows)
rebase-Grew phase [] = tt
rebase-Grew phase (r ∷ rows) = (omega arith, rebase-Grew phase rows)

set-Grew :
    (phase : Phase) (rows : List Row) (i : ℕ) (r : Row)
    → get_elem? rows i ≡ some r
    → under phase r ≡ true
    → Grew phase rows (set rows i (raise r))
set-Grew phase [] i r g u = tt
set-Grew phase (x ∷ rows) zero r g u = (ground arith, Grew-refl phase rows)
set-Grew phase (x ∷ rows) (suc i) r g u = (omega arith, set-Grew phase rows i r g u)

Steps-Grew : (phase : Phase) (n : ℕ) (xs ys : List Row) → Steps phase n xs ys → Grew phase xs ys
Steps-Grew phase zero xs ys e = subst (Grew phase xs) e (Grew-refl phase xs)
Steps-Grew phase (suc n) xs ys (mid, s, rest) =
    Grew-trans phase xs mid ys
      (subst (Grew phase xs) (sym s.result) (set-Grew phase xs s.index s.row s.at s.below))
      (Steps-Grew phase n mid ys rest)

abbrev pub held_total : List Row → ℕ
held_total = total (λ r. r.granted)

total-set :
    (rows : List Row) (i : ℕ) (r : Row)
    → get_elem? rows i ≡ some r
    → held_total (set rows i (raise r)) ≡ held_total rows + 1
total-set [] i r g = absurd (cc)
total-set (x ∷ rows) zero r g = ground arith
total-set (x ∷ rows) (suc i) r g = omega (arith, total-set rows i r g)

Steps-total :
    (phase : Phase) (n : ℕ) (xs ys : List Row)
    → Steps phase n xs ys
    → held_total ys ≡ held_total xs + n
Steps-total phase zero xs ys e = omega (arith, ap held_total e)
Steps-total phase (suc n) xs ys (mid, s, rest) = omega (
  arith,
  Steps-total phase n mid ys rest,
  ap held_total s.result,
  total-set xs s.index s.row s.at,
)

total-rebase : (rows : List Row) → held_total (map rebase rows) ≡ held_total rows
total-rebase [] = refl
total-rebase (r ∷ rows) = omega (arith, total-rebase rows)

-- Every row has its limit.
abbrev pub Met : Phase → List Row → Type 0
Met phase = All (λ r. limit phase r ≤ r.granted)

Full-Met : (phase : Phase) (rows : List Row) → Full phase rows → Met phase rows
Full-Met phase [] f = tt
Full-Met phase (r ∷ rows) f = (ground (arith, f 0 r refl), Full-Met phase rows (λ j. f (suc j)))

module _ (phase : Phase) (rows : List Row) (n : ℕ) (heavy : Heavy rows) where
  abbrev out : List Row × ℕ
  out = fill phase rows n

  pub fill-Grew : Grew phase rows out.0
  fill-Grew = elim (fill-Filled phase rows n heavy) [
    | inl (_, e, _) ↦ subst (Grew phase rows) (sym e) (Grew-refl phase rows)
    | inr (_, (k, steps, _, _)) ↦
        Grew-trans phase rows (map rebase rows) out.0 (rebase-Grew phase rows)
          (Steps-Grew phase k (map rebase rows) out.0 steps)
  ]

  -- What a round gives out is what it takes from the remaining slots.
  pub fill_total : held_total out.0 + out.1 ≡ held_total rows + n
  fill_total = elim (fill-Filled phase rows n heavy) [
    | inl (z, e, l) ↦ omega (arith, ap held_total e)
    | inr (_, (k, steps, left, _)) ↦
        omega (arith, Steps-total phase k (map rebase rows) out.0 steps, total-rebase rows)
  ]

  -- A round that leaves slots over has met every limit.
  pub fill-Met : (out.1 ≡ 0) ⊎ Met phase out.0
  fill-Met = elim (fill-Filled phase rows n heavy) [
    | inl (_, _, l) ↦ inl l
    | inr (_, (_, _, _, inl l)) ↦ inl l
    | inr (_, (_, _, _, inr f)) ↦ inr (Full-Met phase out.0 f)
  ]

pub Grew-Heavy : (phase : Phase) (xs ys : List Row) → Grew phase xs ys → Heavy xs → Heavy ys
Grew-Heavy phase [] [] g h = tt
Grew-Heavy phase [] (y ∷ ys) g h = absurd g
Grew-Heavy phase (x ∷ xs) [] g h = absurd g
Grew-Heavy phase (x ∷ xs) (y ∷ ys) g h = (omega arith, Grew-Heavy phase xs ys g.1 h.1)

-- A limit that a row has met stays met: the row keeps its fields and what it was granted.
pub Grew-Met : (by of : Phase) (xs ys : List Row) → Grew by xs ys → Met of xs → Met of ys
Grew-Met by of [] [] g h = tt
Grew-Met by of [] (y ∷ ys) g h = absurd g
Grew-Met by of (x ∷ xs) [] g h = absurd g
Grew-Met by guarantees (x ∷ xs) (y ∷ ys) g h = (omega arith, Grew-Met by guarantees xs ys g.1 h.1)
Grew-Met by demands (x ∷ xs) (y ∷ ys) g h = (omega arith, Grew-Met by demands xs ys g.1 h.1)
Grew-Met by retention (x ∷ xs) (y ∷ ys) g h = (omega arith, Grew-Met by retention xs ys g.1 h.1)
