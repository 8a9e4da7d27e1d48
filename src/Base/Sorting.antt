-- ===== src/Base/Sorting.antt =====
-- `sort_by` on a key: a stable sort, written as insertion.
use Prim.Native.Nat.{ℕ, zero, suc, ◌+◌, Ordering}
use Prim.Native.Nat.Ordering.{lt, eq, gt}
use mathlib.Core.Path.{◌≡◌, refl, sym, subst}
use mathlib.Core.Option.{some, some-injective}
use native.Mathlib.Omega.{arith}
use pg_steward.Base.Lists.{All, total, get_elem?}
use mathlib.Core.List.{List, [], ◌∷◌}
use pg_steward.Base.Order.{Ord}

module _ {ℓ κ} {A : Type ℓ} {K : Type κ} ⦃o : Ord K⦄ (key : A → K) where
  -- Before the first entry that is not smaller: an equal entry that came earlier stays earlier.
  unfoldable pub place : A → List A → List A
  place a [] = a ∷ []
  place a (b ∷ bs) = elim (o.cmp (key b) (key a)) [ lt ↦ b ∷ place a bs | _ ↦ a ∷ b ∷ bs ]

  unfoldable pub sort_by : List A → List A
  unfolding place
  sort_by [] = []
  sort_by (a ∷ r) = place a (sort_by r)

  All-place {μ} : (P : A → Type μ) (a : A) (bs : List A) → P a → All P bs → All P (place a bs)
  unfolding place
  All-place P a [] p ps = (p, tt)
  All-place P a (b ∷ bs) p ps = ground (arith, All-place P a bs p ps.1)

  pub All-sort_by {μ} : (P : A → Type μ) (xs : List A) → All P xs → All P (sort_by xs)
  unfolding sort_by
  All-sort_by P [] ps = tt
  All-sort_by P (a ∷ r) ps = All-place P a (sort_by r) ps.0 (All-sort_by P r ps.1)

  total-place : (f : A → ℕ) (a : A) (bs : List A) → total f (place a bs) ≡ f a + total f bs
  unfolding place
  total-place f a [] = refl
  total-place f a (b ∷ bs) = ground (arith, total-place f a bs)

  pub total-sort_by : (f : A → ℕ) (xs : List A) → total f (sort_by xs) ≡ total f xs
  unfolding sort_by
  total-sort_by f [] = refl
  total-sort_by f (a ∷ r) = omega (arith, total-place f a (sort_by r), total-sort_by f r)

  -- No two entries have the same key.
  abbrev pub Distinct : List A → Type κ
  Distinct [] = Unit
  Distinct (a ∷ r) = All (λ b. ¬ (key a ≡ key b)) r × Distinct r

  Distinct-place :
      (a : A) (bs : List A) → All (λ b. ¬ (key a ≡ key b)) bs → Distinct bs → Distinct (place a bs)
  unfolding place
  Distinct-place a [] h d = (tt, tt)
  Distinct-place a (b ∷ bs) h d = go (o.cmp (key b) (key a)) refl (Distinct-place a bs h.1 d.1)
    where
      go :
          (c : Ordering)
          → o.cmp (key b) (key a) ≡ c
          → Distinct (place a bs)
          → Distinct (place a (b ∷ bs))
      go lt e ds = rw (e, place) (All-place _ a bs (λ q. h.0 (sym q)) d.0, ds)
      go eq e ds = rw (e, place) (h, d)
      go gt e ds = rw (e, place) (h, d)

  pub Distinct-sort_by : (xs : List A) → Distinct xs → Distinct (sort_by xs)
  unfolding sort_by
  Distinct-sort_by [] d = tt
  Distinct-sort_by (a ∷ r) d =
      Distinct-place a (sort_by r) (All-sort_by _ r d.0) (Distinct-sort_by r d.1)

  -- Where an entry stands after sorting.
  place_self : (a : A) (bs : List A) → (j : ℕ) × (get_elem? (place a bs) j ≡ some a)
  unfolding place
  place_self a [] = (0, refl)
  place_self a (b ∷ bs) = go (o.cmp (key b) (key a)) refl (place_self a bs)
    where
      go :
          (c : Ordering)
          → o.cmp (key b) (key a) ≡ c
          → (j : ℕ) × (get_elem? (place a bs) j ≡ some a)
          → (j : ℕ) × (get_elem? (place a (b ∷ bs)) j ≡ some a)
      go lt e (j, h) = rw (e, place) (suc j, h)
      go eq e h = rw (e, place) (0, refl)
      go gt e h = rw (e, place) (0, refl)

  place_other :
      (a : A) (bs : List A) (i : ℕ) (b : A)
      → get_elem? bs i ≡ some b
      → (j : ℕ) × (get_elem? (place a bs) j ≡ some b)
  unfolding place
  place_other a [] i b h = absurd (cc)
  place_other a (x ∷ bs) zero b h = go (o.cmp (key x) (key a)) refl
    where
      go :
          (c : Ordering)
          → o.cmp (key x) (key a) ≡ c
          → (j : ℕ) × (get_elem? (place a (x ∷ bs)) j ≡ some b)
      go lt e = rw (e, place) (0, h)
      go eq e = rw (e, place) (1, h)
      go gt e = rw (e, place) (1, h)
  place_other a (x ∷ bs) (suc i) b h = go (o.cmp (key x) (key a)) refl (place_other a bs i b h)
    where
      go :
          (c : Ordering)
          → o.cmp (key x) (key a) ≡ c
          → (j : ℕ) × (get_elem? (place a bs) j ≡ some b)
          → (j : ℕ) × (get_elem? (place a (x ∷ bs)) j ≡ some b)
      go lt e (j, k) = rw (e, place) (suc j, k)
      go eq e k = rw (e, place) (suc (suc i), h)
      go gt e k = rw (e, place) (suc (suc i), h)

  pub position :
      (xs : List A) (i : ℕ) (a : A)
      → get_elem? xs i ≡ some a
      → (j : ℕ) × (get_elem? (sort_by xs) j ≡ some a)
  unfolding sort_by
  position [] i a h = absurd (cc)
  position (x ∷ r) zero a h =
      subst (λ t. (j : ℕ) × (get_elem? (place x (sort_by r)) j ≡ some t)) (some-injective _ _ h)
        (place_self x (sort_by r))
  position (x ∷ r) (suc i) a h = let (j, k) = position r i a h in place_other x (sort_by r) j a k
