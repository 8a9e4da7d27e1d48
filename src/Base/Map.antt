-- ===== src/Base/Map.antt =====
-- `BTreeMap`: an association list in the order of its keys, so that walking the list is walking
-- the map in key order.
use Prim.Native.Nat.{ℕ, ◌+◌}
use Prim.Native.Nat.Ordering.{lt, eq, gt}
use mathlib.Core.Path.{◌≡◌, refl, subst}
use mathlib.Core.Logic.{inl, inr}
use mathlib.Core.Bool.{Bool}
use mathlib.Core.List.{List, [], ◌∷◌}
use mathlib.Core.Option.{Option, none, some, some-injective}
use native.Mathlib.Omega.{arith}
use pg_steward.Base.Order.{cmp_self, Ord, ◌≺◌, ◌≟◌}
use pg_steward.Base.Tests.{if◌then◌else◌, Bool-cases}
use pg_steward.Base.Lists.{All, All-imp, total, keep}

abbrev pub Map {ℓ κ} : Type ℓ → Type κ → Type (ℓ ⊔ κ)
Map K V = List (K × V)

pub eq-sym {ℓ} : {K : Type ℓ} ⦃o : Ord K⦄ (a b : K) → (a ≟ b) ≡ (b ≟ a)
eq-sym ⦃o⦄ a b =
    ground
      (arith, o.swap a b, o.swap a b, o.swap b a, o.swap b a, o.exact a b, o.exact b a, cmp_self a)

module _ {ℓ κ} {K : Type ℓ} {V : Type κ} ⦃o : Ord K⦄ where
  unfoldable pub lookup : K → Map K V → Option V
  lookup q [] = none
  lookup q ((k, v) ∷ m) = if k ≟ q then some v else lookup q m

  unfoldable pub insert : K → V → Map K V → Map K V
  insert q w [] = (q, w) ∷ []
  insert q w ((k, v) ∷ m) = elim (o.cmp q k) [
    | lt ↦ (q, w) ∷ (k, v) ∷ m
    | eq ↦ (q, w) ∷ m
    | gt ↦ (k, v) ∷ insert q w m
  ]

  unfoldable pub remove : K → Map K V → Map K V
  remove q [] = []
  remove q ((k, v) ∷ m) = if k ≟ q then m else (k, v) ∷ remove q m

  -- The keys rise along the list.
  abbrev pub IsSorted : Map K V → Type ℓ
  IsSorted [] = Unit
  IsSorted (e ∷ m) = All (λ d. e.0 ≺ d.0) m × IsSorted m

  -- A key reads the value last inserted under it, and every other key what it read before.
  pub lookup-insert :
      (p q : K) (w : V) (m : Map K V)
      → lookup p (insert q w m) ≡ (if q ≟ p then some w else lookup p m)
  unfolding lookup insert
  lookup-insert p q w [] = refl
  lookup-insert p q w ((k, v) ∷ m) =
      ground (arith, lookup-insert p q w m, o.exact q k, o.exact q p, o.exact k p)

  pub above_trans : (q k : K) (m : Map K V) → q ≺ k → All (λ d. k ≺ d.0) m → All (λ d. q ≺ d.0) m
  above_trans q k m h a = All-imp (λ d. o.chain q k d.0 h) m a

  pub All-insert {μ} :
      (P : K × V → Type μ) (q : K) (w : V) (m : Map K V) → P (q, w) → All P m → All P (insert q w m)
  unfolding insert
  All-insert P q w [] p a = (p, tt)
  All-insert P q w ((k, v) ∷ m) p a = ground (arith, All-insert P q w m)

  pub insert-IsSorted : (q : K) (w : V) (m : Map K V) → IsSorted m → IsSorted (insert q w m)
  unfolding insert
  insert-IsSorted q w [] s = (tt, tt)
  insert-IsSorted q w ((k, v) ∷ m) s = ground (
    arith,
    insert-IsSorted q w m s.1,
    All-insert (λ d. k ≺ d.0) q w m,
    o.swap q k,
    o.exact q k,
    above_trans q k m,
  )

  pub All-remove {μ} : (P : K × V → Type μ) (q : K) (m : Map K V) → All P m → All P (remove q m)
  unfolding remove
  All-remove P q [] a = tt
  All-remove P q ((k, v) ∷ m) a = ground (arith, All-remove P q m)

  pub remove-IsSorted : (q : K) (m : Map K V) → IsSorted m → IsSorted (remove q m)
  unfolding remove
  remove-IsSorted q [] s = tt
  remove-IsSorted q ((k, v) ∷ m) s =
      ground (arith, remove-IsSorted q m s.1, All-remove (λ d. k ≺ d.0) q m)

  pub lookup_above : (q : K) (m : Map K V) → All (λ d. q ≺ d.0) m → lookup q m ≡ none
  unfolding lookup
  lookup_above q [] a = refl
  lookup_above q ((k, v) ∷ m) a = ground (arith, lookup_above q m, o.swap q k)

  -- A removed key is gone, and every other key reads what it read before.
  pub lookup-remove :
      (p q : K) (m : Map K V)
      → IsSorted m
      → lookup p (remove q m) ≡ (if q ≟ p then none else lookup p m)
  unfolding lookup remove
  lookup-remove p q [] s = ground arith
  lookup-remove p q ((k, v) ∷ m) s = ground (
    arith,
    lookup-remove p q m s.1,
    lookup_above k m,
    o.exact q k,
    o.exact k q,
    o.exact k p,
    o.exact q p,
    cmp_self q,
  )

module _ {ℓ κ} {K : Type ℓ} {V : Type κ} ⦃o : Ord K⦄ where
  read_below :
      (k : K) (v : V) (m rest : Map K V)
      → All (λ d. k ≺ d.0) rest
      → All (λ d. lookup d.0 m ≡ some d.1) rest
      → All (λ d. lookup d.0 ((k, v) ∷ m) ≡ some d.1) rest
  unfolding lookup
  read_below k v m [] a r = tt
  read_below k v m (d ∷ rest) (a, as_) (r, rs) =
      (ground (arith, o.exact k d.0), read_below k v m rest as_ rs)

  -- In a map in order every entry is what its key reads.
  pub entries_read : (m : Map K V) → IsSorted m → All (λ d. lookup d.0 m ≡ some d.1) m
  unfolding lookup
  entries_read [] s = tt
  entries_read ((k, v) ∷ m) (a, s) =
      (ground (arith, cmp_self k), read_below k v m m a (entries_read m s))

module _ {ℓ κ μ} {K : Type ℓ} {V : Type κ} ⦃o : Ord K⦄ (Q : V → Type μ) where
  pub values-All : (q : K) (m : Map K V) (v : V) → lookup q m ≡ some v → All (λ d. Q d.1) m → Q v
  unfolding lookup
  values-All q [] v h a = absurd (cc)
  values-All q ((k, w) ∷ m) v h (a, as_) = elim (Bool-cases (k ≟ q)) [
    | inl hit ↦ subst Q (some-injective w v (rw hit at h)) a
    | inr miss ↦ values-All q m v (rw miss at h) as_
  ]

-- `values_mut` and what maps one map's values to another's.
unfoldable pub map_values {ℓ κ μ} :
    {K : Type ℓ} {V : Type κ} {W : Type μ} → (K → V → W) → Map K V → Map K W
map_values f [] = []
map_values f ((k, v) ∷ m) = (k, f k v) ∷ map_values f m

abbrev pub map_found {ℓ κ} : {V : Type ℓ} {W : Type κ} → (V → W) → Option V → Option W
map_found f none = none
map_found f (some v) = some (f v)

module _ {ℓ κ μ} {K : Type ℓ} {V : Type κ} {W : Type μ} ⦃o : Ord K⦄ (f : K → V → W) where
  pub lookup-map_values :
      (q : K) (m : Map K V) → lookup q (map_values f m) ≡ map_found (f q) (lookup q m)
  unfolding lookup map_values
  lookup-map_values q [] = refl
  lookup-map_values q ((k, v) ∷ m) = ground (arith, lookup-map_values q m, o.exact k q)

  All-map_values :
      (q : K) (m : Map K V) → All (λ d. q ≺ d.0) m → All (λ d. q ≺ d.0) (map_values f m)
  unfolding map_values
  All-map_values q [] a = tt
  All-map_values q ((k, v) ∷ m) (a, as_) = (a, All-map_values q m as_)

  pub map_values-IsSorted : (m : Map K V) → IsSorted m → IsSorted (map_values f m)
  unfolding map_values
  map_values-IsSorted [] s = tt
  map_values-IsSorted ((k, v) ∷ m) (a, s) = (All-map_values k m a, map_values-IsSorted m s)

module _ {ℓ κ} {K : Type ℓ} {V : Type κ} ⦃o : Ord K⦄ (p : K × V → Bool) where
  abbrev pub kept : K → Option V → Option V
  kept q none = none
  kept q (some v) = if p (q, v) then some v else none

  -- `retain` keeps or drops each entry by itself.
  pub lookup-keep : (q : K) (m : Map K V) → IsSorted m → lookup q (keep p m) ≡ kept q (lookup q m)
  unfolding lookup
  lookup-keep q [] s = refl
  lookup-keep q ((k, v) ∷ m) (a, s) =
      ground (arith, lookup-keep q m s, lookup_above k m a, o.exact k q)

  All-keep {μ} : (Q : K × V → Type μ) (m : Map K V) → All Q m → All Q (keep p m)
  All-keep Q [] a = tt
  All-keep Q (e ∷ m) (a, as_) = ground (arith, All-keep Q m as_)

  pub keep-IsSorted : (m : Map K V) → IsSorted m → IsSorted (keep p m)
  keep-IsSorted [] s = tt
  keep-IsSorted (e ∷ m) (a, s) = ground (arith, All-keep (λ d. e.0 ≺ d.0) m a, keep-IsSorted m s)

abbrev pub worth {κ} : {V : Type κ} → (V → ℕ) → Option V → ℕ
worth f none = 0
worth f (some v) = f v

module _ {ℓ κ} {K : Type ℓ} {V : Type κ} ⦃o : Ord K⦄ (f : V → ℕ) where
  -- The sum over the values of a map.
  abbrev pub total_of : Map K V → ℕ
  total_of m = total (λ d. f d.1) m

  pub total_of-insert :
      (q : K) (w : V) (m : Map K V)
      → IsSorted m
      → total_of (insert q w m) + worth f (lookup q m) ≡ total_of m + f w
  unfolding lookup insert
  total_of-insert q w [] s = ground arith
  total_of-insert q w ((k, v) ∷ m) s = ground (
    arith,
    total_of-insert q w m s.1,
    lookup_above q m,
    o.swap q k,
    o.swap q k,
    o.exact q k,
    cmp_self k,
    above_trans q k m,
  )

  pub total_of-remove :
      (q : K) (m : Map K V) → total_of (remove q m) + worth f (lookup q m) ≡ total_of m
  unfolding lookup remove
  total_of-remove q [] = ground arith
  total_of-remove q ((k, v) ∷ m) = ground (arith, total_of-remove q m)
