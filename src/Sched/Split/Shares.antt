-- ===== src/Sched/Split/Shares.antt =====
-- The two loops of split.rs: what they take from and give to the shares.
use mathlib.Core.Option.{some-injective}
use pg_steward.Base.{
  ℕ, zero, suc, ◌+◌, ◌-◌, ◌≤◌, ◌<◌, ◌≡◌, refl, ◌⊎◌, inl, inr, some, List, [], ◌∷◌, arith, All, sum,
  get_elem?, max,
}
use pg_steward.Sched.Split.{lower, higher, shave, shortfalls, give}
use pg_steward.Sched.Split.Largest.{first_max-Largest}

sum-lower :
    (xs : List ℕ) (i : ℕ) {v : ℕ} → get_elem? xs i ≡ some v → 0 < v → sum (lower xs i) + 1 ≡ sum xs
unfolding lower
sum-lower [] i g p = absurd (cc)
sum-lower (x ∷ xs) zero g p = ground arith
sum-lower (x ∷ xs) (suc i) g p = omega (arith, sum-lower xs i g p)

sum_zero : (xs : List ℕ) → All (λ v. v ≡ 0) xs → sum xs ≡ 0
sum_zero [] a = refl
sum_zero (x ∷ xs) a = omega (arith, sum_zero xs a.1)

-- Shaving takes off exactly the excess, as far as there is something to take.
pub sum-shave :
    (excess : ℕ) (given : List ℕ)
    → excess ≤ sum given
    → sum (shave excess given) + excess ≡ sum given
unfolding shave
sum-shave zero given h = omega arith
sum-shave (suc excess) given h = elim (first_max-Largest given) [
  | inl (e, zeros) ↦ absurd (omega (arith, sum_zero given zeros))
  | inr (i, v, e, g, pos, above) ↦
      rw (e, shave) (omega (arith, sum-shave excess (lower given i), sum-lower given i g pos))
]

-- Pairwise order of two lists of one length.
abbrev pub Below : List ℕ → List ℕ → Type 0
Below [] [] = Unit
Below [] (y ∷ ys) = ⊥
Below (x ∷ xs) [] = ⊥
Below (x ∷ xs) (y ∷ ys) = (x ≤ y) × Below xs ys

Below-refl : (xs : List ℕ) → Below xs xs
Below-refl [] = tt
Below-refl (x ∷ xs) = (omega arith, Below-refl xs)

pub Below-trans : (xs ys zs : List ℕ) → Below xs ys → Below ys zs → Below xs zs
Below-trans [] [] zs p q = q
Below-trans [] (y ∷ ys) zs p q = absurd p
Below-trans (x ∷ xs) [] zs p q = absurd p
Below-trans (x ∷ xs) (y ∷ ys) [] p q = absurd q
Below-trans (x ∷ xs) (y ∷ ys) (z ∷ zs) p q = (omega arith, Below-trans xs ys zs p.1 q.1)

lower-Below : (xs : List ℕ) (i : ℕ) → Below (lower xs i) xs
unfolding lower
lower-Below [] i = tt
lower-Below (x ∷ xs) zero = (omega arith, Below-refl xs)
lower-Below (x ∷ xs) (suc i) = (omega arith, lower-Below xs i)

pub shave-Below : (excess : ℕ) (given : List ℕ) → Below (shave excess given) given
unfolding shave
shave-Below zero given = Below-refl given
shave-Below (suc excess) given = elim (first_max-Largest given) [
  | inl (e, zeros) ↦ rw (e, shave) (Below-refl given)
  | inr (i, v, e, g, pos, above) ↦
      rw (e, shave)
        (Below-trans (shave excess (lower given i)) (lower given i) given
          (shave-Below excess (lower given i)) (lower-Below given i))
]

-- `out` is `given` with more, but never above what is wanted.
abbrev pub Gave : List ℕ → List ℕ → List ℕ → Type 0
Gave [] [] [] = Unit
Gave (w ∷ ws) (g ∷ gs) (x ∷ xs) = (g ≤ x) × (x ≤ max g w) × Gave ws gs xs
Gave _ _ _ = ⊥

abbrev pub Sized : List ℕ → List ℕ → Type 0
Sized [] [] = Unit
Sized (w ∷ ws) (g ∷ gs) = Sized ws gs
Sized _ _ = ⊥

Gave-refl : (ws gs : List ℕ) → Sized ws gs → Gave ws gs gs
Gave-refl [] [] s = tt
Gave-refl [] (g ∷ gs) s = absurd s
Gave-refl (w ∷ ws) [] s = absurd s
Gave-refl (w ∷ ws) (g ∷ gs) s = (omega arith, omega arith, Gave-refl ws gs s)

Gave-trans : (ws gs xs ys : List ℕ) → Gave ws gs xs → Gave ws xs ys → Gave ws gs ys
Gave-trans [] [] [] ys p q = q
Gave-trans [] [] (x ∷ xs) ys p q = absurd p
Gave-trans [] (g ∷ gs) xs ys p q = absurd p
Gave-trans (w ∷ ws) [] xs ys p q = absurd p
Gave-trans (w ∷ ws) (g ∷ gs) [] ys p q = absurd p
Gave-trans (w ∷ ws) (g ∷ gs) (x ∷ xs) [] p q = absurd q
Gave-trans (w ∷ ws) (g ∷ gs) (x ∷ xs) (y ∷ ys) p q =
    (omega arith, omega arith, Gave-trans ws gs xs ys p.2 q.2)

pub Gave-Sized : (ws gs xs : List ℕ) → Gave ws gs xs → Sized ws xs
Gave-Sized [] [] [] p = tt
Gave-Sized [] [] (x ∷ xs) p = p
Gave-Sized [] (g ∷ gs) xs p = absurd p
Gave-Sized (w ∷ ws) [] xs p = absurd p
Gave-Sized (w ∷ ws) (g ∷ gs) [] p = p
Gave-Sized (w ∷ ws) (g ∷ gs) (x ∷ xs) p = Gave-Sized ws gs xs p.2

higher-Gave :
    (ws gs : List ℕ) (i : ℕ) {v : ℕ}
    → Sized ws gs
    → get_elem? (shortfalls ws gs) i ≡ some v
    → 0 < v
    → Gave ws gs (higher gs i) × (sum (higher gs i) ≡ sum gs + 1)
unfolding shortfalls higher
higher-Gave [] gs i s g p = absurd (cc)
higher-Gave (w ∷ ws) [] i s g p = absurd s
higher-Gave (w ∷ ws) (x ∷ gs) zero s g p =
    let room : w - x ≡ _ = some-injective _ _ g in
    ((omega arith, omega arith, Gave-refl ws gs s), omega arith)
higher-Gave (w ∷ ws) (x ∷ gs) (suc i) s g p =
    let (more, added) = higher-Gave ws gs i s g p in ((omega arith, omega arith, more), omega arith)

no_shortfall : (ws gs : List ℕ) → Sized ws gs → All (λ v. v ≡ 0) (shortfalls ws gs) → Below ws gs
unfolding shortfalls
no_shortfall [] [] s a = tt
no_shortfall [] (g ∷ gs) s a = absurd s
no_shortfall (w ∷ ws) [] s a = absurd s
no_shortfall (w ∷ ws) (g ∷ gs) s a = (omega arith, no_shortfall ws gs s a.1)

-- Giving: exactly what is missing, unless everyone has what is wanted before.
abbrev pub GaveUpTo : ℕ → List ℕ → List ℕ → List ℕ → Type 0
GaveUpTo missing ws gs out =
    Gave ws gs out × (sum out ≤ sum gs + missing) × ((sum out ≡ sum gs + missing) ⊎ Below ws out)

pub give-GaveUpTo :
    (missing : ℕ) (ws gs : List ℕ) → Sized ws gs → GaveUpTo missing ws gs (give missing ws gs)
unfolding give
give-GaveUpTo zero ws gs s = (Gave-refl ws gs s, omega arith, inl (omega arith))
give-GaveUpTo (suc missing) ws gs s = elim (first_max-Largest (shortfalls ws gs)) [
  | inl (e, zeros) ↦ rw (e, give) (Gave-refl ws gs s, omega arith, inr (no_shortfall ws gs s zeros))
  | inr (i, v, e, g, pos, above) ↦
      let (more, added) = higher-Gave ws gs i s g pos in
      let (gave, bound, stop) =
        give-GaveUpTo missing ws (higher gs i) (Gave-Sized ws gs (higher gs i) more) in
      rw (e, give)
        (
          Gave-trans ws gs (higher gs i) (give missing ws (higher gs i)) more gave,
          omega arith,
          elim stop [ inl t ↦ inl (omega arith) | inr b ↦ inr b ],
        )
]

pub Gave-Below : (ws gs xs : List ℕ) → Gave ws gs xs → Below gs xs
Gave-Below [] [] [] p = tt
Gave-Below [] [] (x ∷ xs) p = absurd p
Gave-Below [] (g ∷ gs) xs p = absurd p
Gave-Below (w ∷ ws) [] xs p = absurd p
Gave-Below (w ∷ ws) (g ∷ gs) [] p = absurd p
Gave-Below (w ∷ ws) (g ∷ gs) (x ∷ xs) p = (p.0, Gave-Below ws gs xs p.2)
