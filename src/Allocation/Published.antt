-- ===== src/Allocation/Published.antt =====
-- `AllocationTable::grants_for`: what a proxy reads is exactly what the table grants it.
use pg_steward.Base.{ℕ, ◌≡◌, refl, ◌∙◌, Option, none, some, false, [], ◌∷◌, ◌++◌, arith}
use pg_steward.Base.Order.{Ord, ◌≟◌, pair_ord, cmp_self}
use pg_steward.Base.Map.{Map, lookup, IsSorted, lookup_above}
use pg_steward.Allocation.{Desired, AllocationTable, of_proxy, grants_over, grants_for}
use pg_steward.Allocation.Apply.{or_else}

lookup-append {ℓ κ} :
    {K : Type ℓ} {V : Type κ} ⦃o : Ord K⦄ (q : K) (xs ys : Map K V)
    → lookup q (xs ++ ys) ≡ or_else (lookup q xs) (lookup q ys)
unfolding lookup
lookup-append q [] ys = refl
lookup-append q ((k, v) ∷ xs) ys = ground (arith, lookup-append q xs ys)

-- What one instance grants the holder, if the instance is there.
abbrev pub held_by :
    {T P : Type 0} ⦃t : Ord T⦄ ⦃p : Ord P⦄ → T → P → Option (Desired (T × P)) → Option ℕ
held_by tenant proxy none = none
held_by tenant proxy (some d) = lookup (tenant, proxy) d.granted

module _ {I T P : Type 0} ⦃o : Ord I⦄ ⦃t : Ord T⦄ ⦃p : Ord P⦄ where
  lookup-of_proxy :
      (proxy : P) (i : I) (tenant : T) (m : Map (T × P) ℕ)
      → lookup (i, tenant) (of_proxy proxy i m) ≡ lookup (tenant, proxy) m
  unfolding lookup of_proxy
  lookup-of_proxy proxy i tenant [] = refl
  lookup-of_proxy proxy i tenant (((u, q), slots) ∷ m) =
      ground (arith, lookup-of_proxy proxy i tenant m, cmp_self i)

  lookup-of_proxy_other :
      (proxy : P) (i j : I) (tenant : T) (m : Map (T × P) ℕ)
      → (i ≟ j) ≡ false
      → lookup (j, tenant) (of_proxy proxy i m) ≡ none
  unfolding lookup of_proxy
  lookup-of_proxy_other proxy i j tenant [] h = refl
  lookup-of_proxy_other proxy i j tenant (((u, q), slots) ∷ m) h =
      ground (arith, lookup-of_proxy_other proxy i j tenant m h)

  over :
      (proxy : P) (i : I) (tenant : T) (m : Map I (Desired (T × P)))
      → IsSorted m
      → lookup (i, tenant) (grants_over proxy m) ≡ held_by tenant proxy (lookup i m)
  unfolding lookup grants_over
  over proxy i tenant [] s = refl
  over proxy i tenant ((k, d) ∷ m) s =
      lookup-append (i, tenant) (of_proxy proxy k d.granted) (grants_over proxy m)
      ∙ ground (
        arith,
        lookup-of_proxy proxy k tenant d.granted,
        lookup-of_proxy_other proxy k i tenant d.granted,
        lookup_above k m s.0,
        over proxy i tenant m s.1,
        o.exact k i,
      )

  -- A proxy reads a slot count for an instance and a tenant exactly where the table grants it one.
  pub lookup-grants_for :
      (table : AllocationTable I (T × P)) (proxy : P) (i : I) (tenant : T)
      → IsSorted table.instances
      → lookup (i, tenant) (grants_for table proxy)
        ≡ held_by tenant proxy (lookup i table.instances)
  lookup-grants_for table proxy i tenant s = over proxy i tenant table.instances s
