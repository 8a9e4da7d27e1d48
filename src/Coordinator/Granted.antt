-- ===== src/Coordinator/Granted.antt =====
-- Who crates/core/src/grant.rs grants slots to: the proxies that it knows and that have not departed.
use pg_steward.Base.Order.{Ord, ◌≟◌, pair_ord, pair_laws, text_ord}
use pg_steward.Base.Map.{Map, lookup, IsSorted, All-insert, All-remove, entries_read}
use pg_steward.Base.Sums.{is_eq-true}
use pg_steward.Base.{
  ℕ, ◌-◌, ◌≡◌, refl, subst, inl, inr, false, none, some, List, [], ◌∷◌, map, ◌==◌, get_or,
  Bool-cases, All, All-imp,
}
use pg_steward.Sched.{Claim, Grants, get}
use pg_steward.Sched.Split.{Share, split}
use pg_steward.Budget.{InstanceBudget}
use pg_steward.Allocation.{new_desired, grant}
use pg_steward.Policy.{TenantId, tenant_ord}
use pg_steward.Coordinator.{Slot, ProxyState, State, occupied, proxy_of, occupied_on}
use pg_steward.Coordinator.Claims.{holders_on, claims}
use pg_steward.Coordinator.Plan.{
  Plan, granting, share_of, grant_share, grant_shares, grant_tenants, desired_on,
}
use pg_steward.Coordinator.Room.{AllHolders, holders_from-AllHolders}

module _ {P : Type 0} ⦃p : Ord P⦄ where
  lookup-All :
      (Good : P → Type 0) (tenant : TenantId) (proxy : P) (m : Map (TenantId × P) ℕ)
      → ¬ Good proxy
      → All (λ e. Good e.0.1) m
      → lookup (tenant, proxy) m ≡ none
  unfolding lookup
  lookup-All Good tenant proxy [] not_good a = refl
  lookup-All Good tenant proxy ((k, v) ∷ m) not_good (a, as_) =
      elim (Bool-cases (k ≟ (tenant, proxy))) [
        | inl e ↦ absurd (
            not_good (subst (λ q. Good q.1) (pair_laws.exact k (tenant, proxy) (is_eq-true _ e)) a))
        | inr e ↦ rw e (lookup-All Good tenant proxy m not_good as_)
      ]

module _ {I P : Type 0} ⦃i : Ord I⦄ ⦃p : Ord P⦄ where
  abbrev pub Active : State I P → P → Type 0
  Active s proxy =
      (state : ProxyState (Slot I)) × (lookup proxy s.proxies ≡ some state)
      × (state.departed ≡ false)

  module _ (s : State I P) (instance_id : I) (Good : P → Type 0) where
    abbrev pub AllGranted : Plan P → Type 0
    AllGranted plan = All (λ e. Good e.0.1) plan.desired.granted

    grant_share-AllGranted :
        (tenant : TenantId) (targets : Map P ℕ) (share : Share P) (plan : Plan P)
        → Good share.key
        → AllGranted plan
        → AllGranted (grant_share s instance_id tenant targets share plan)
    unfolding grant_share grant
    grant_share-AllGranted tenant targets share plan g a =
        let target = get_or 0 (lookup share.key targets) in
        let before = occupied (proxy_of s share.key) (instance_id, tenant) in
        let slots = granting target before share plan.available in
        elim (Bool-cases (slots == 0)) [
          | inl e ↦ rw e (All-remove (λ e. Good e.0.1) (tenant, share.key) plan.desired.granted a)
          | inr e ↦
              rw e (All-insert (λ e. Good e.0.1) (tenant, share.key) slots plan.desired.granted g a)
        ]

    grant_shares-AllGranted :
        (tenant : TenantId) (targets : Map P ℕ) (proxies : List P) (plan : Plan P)
        → All Good proxies
        → AllGranted plan
        → AllGranted (
            grant_shares s instance_id tenant targets
              (map (share_of s instance_id tenant) proxies)
              plan)
    unfolding grant_shares
    grant_shares-AllGranted tenant targets [] plan g a = a
    grant_shares-AllGranted tenant targets (proxy ∷ proxies) plan (g, gs) a =
        let share = share_of s instance_id tenant proxy in
        grant_shares-AllGranted tenant targets proxies
          (grant_share s instance_id tenant targets share plan) gs
          (grant_share-AllGranted tenant targets share plan g a)

    grant_tenants-AllGranted :
        (targets : Grants TenantId) (holders : Map TenantId (List P)) (plan : Plan P)
        → AllHolders Good holders
        → AllGranted plan
        → AllGranted (grant_tenants s instance_id targets holders plan)
    unfolding grant_tenants
    grant_tenants-AllGranted targets [] plan g a = a
    grant_tenants-AllGranted targets ((tenant, proxies) ∷ holders) plan (g, gs) a =
        let shares = map (share_of s instance_id tenant) proxies in
        let splits = split (get targets tenant) shares in
        grant_tenants-AllGranted targets holders
          (grant_shares s instance_id tenant splits shares plan) gs
          (grant_shares-AllGranted tenant splits proxies plan g a)

  module _ (allocator : ℕ → List (Claim TenantId) → Grants TenantId) (release_delay : ℕ) where
    desired_on-Active :
        (s : State I P) (instance_id : I) (derived : InstanceBudget)
        → IsSorted s.proxies
        → All
            (λ e. Active s e.0.1)
            (desired_on allocator release_delay s instance_id derived).granted
    unfolding desired_on
    desired_on-Active s instance_id derived sorted =
        let budget = derived.budget.total in
        let holders = holders_on s instance_id in
        let targets = allocator budget (claims release_delay s instance_id holders) in
        let start : Plan P = record {
          available = budget - occupied_on s instance_id;
          desired = new_desired budget;
        } in
        grant_tenants-AllGranted s instance_id (Active s) targets holders start
          (holders_from-AllHolders (Active s) instance_id s.proxies []
            (All-imp (λ e r stays. (e.1, r, stays)) s.proxies (entries_read s.proxies sorted)) tt)
          tt

    -- For proxies in order, the desired state of an instance grants nothing to a proxy that is
    -- not known or has departed.
    pub desired_on-none :
        (s : State I P) (instance_id : I) (derived : InstanceBudget) (tenant : TenantId) (proxy : P)
        → IsSorted s.proxies
        → ¬ Active s proxy
        → lookup (tenant, proxy) (desired_on allocator release_delay s instance_id derived).granted
          ≡ none
    desired_on-none s instance_id derived tenant proxy sorted gone =
        lookup-All (Active s) tenant proxy
          (desired_on allocator release_delay s instance_id derived).granted gone
          (desired_on-Active s instance_id derived sorted)
