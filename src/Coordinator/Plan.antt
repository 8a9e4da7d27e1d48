-- ===== src/Coordinator/Plan.antt =====
-- The desired state that crates/core/src/grant.rs computes: every grant that rises fits what no
-- holder may still occupy.
use pg_steward.Base.Order.{Ord, pair_ord, text_ord}
use pg_steward.Base.Map.{Map, lookup, map_values}
use pg_steward.Base.{ℕ, ◌+◌, ◌-◌, min, false, List, [], ◌∷◌, map, if◌then◌else◌, leb, get_or}
use pg_steward.Sched.{Claim, Grants, get}
use pg_steward.Sched.Split.{Share, split}
use pg_steward.Budget.{InstanceBudget}
use pg_steward.Allocation.{Desired, new_desired, grant, install}
use pg_steward.Policy.{TenantId, tenant_ord}
use pg_steward.Coordinator.{State, occupied, proxy_of, occupied_on, demand_at, granted_at}
use pg_steward.Coordinator.Claims.{holders_on, claims}

-- `available` and `desired`, the two variables of the loops.
pub record Plan (P : Type 0) : Type 0 where
  pub available : ℕ
  pub desired : Desired (TenantId × P)

-- What one share is granted, from its target and what its holder may occupy now.
abbrev pub granting : {P : Type 0} → ℕ → ℕ → Share P → ℕ → ℕ
granting target before share available =
    if leb target share.current then target else min target (before + available)

module _ {I P : Type 0} ⦃i : Ord I⦄ ⦃p : Ord P⦄ where
  abbrev pub share_of : State I P → I → TenantId → P → Share P
  share_of s instance_id tenant proxy = record {
    key = proxy;
    demand = demand_at s proxy (instance_id, tenant);
    current = granted_at s instance_id tenant proxy;
    may_release = false;
  }

  unfoldable pub grant_share : State I P → I → TenantId → Map P ℕ → Share P → Plan P → Plan P
  grant_share s instance_id tenant targets share plan =
      let target = get_or 0 (lookup share.key targets) in
      let before = occupied (proxy_of s share.key) (instance_id, tenant) in
      let granted = granting target before share plan.available in
      record {
        available =
            if leb target share.current
            then plan.available
            else plan.available - (granted - before);
        desired = grant plan.desired (tenant, share.key) granted;
      }

  unfoldable pub grant_shares :
      State I P → I → TenantId → Map P ℕ → List (Share P) → Plan P → Plan P
  grant_shares s instance_id tenant targets [] plan = plan
  grant_shares s instance_id tenant targets (share ∷ shares) plan =
      grant_shares s instance_id tenant targets shares
        (grant_share s instance_id tenant targets share plan)

  unfoldable pub grant_tenants :
      State I P → I → Grants TenantId → Map TenantId (List P) → Plan P → Plan P
  grant_tenants s instance_id targets [] plan = plan
  grant_tenants s instance_id targets ((tenant, proxies) ∷ holders) plan =
      let shares = map (share_of s instance_id tenant) proxies in
      grant_tenants s instance_id targets holders
        (grant_shares s instance_id tenant (split (get targets tenant) shares) shares plan)

  module _ (allocator : ℕ → List (Claim TenantId) → Grants TenantId) (release_delay : ℕ) where
    unfoldable pub desired_on : State I P → I → InstanceBudget → Desired (TenantId × P)
    desired_on s instance_id derived =
        let budget = derived.budget.total in
        let holders = holders_on s instance_id in
        let targets = allocator budget (claims release_delay s instance_id holders) in
        let start : Plan P = record {
          available = budget - occupied_on s instance_id;
          desired = new_desired budget;
        } in
        (grant_tenants s instance_id targets holders start).desired

    -- The entry, one instance after another in their order.
    abbrev pub desired_state : State I P → Map I (Desired (TenantId × P))
    desired_state s = install (map_values (desired_on s) s.budgets) []
