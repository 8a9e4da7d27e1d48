-- ===== src/Coordinator/Claims.antt =====
-- What crates/core/src/grant.rs reads from the reports: who holds an instance (`holders_on`) and
-- what its tenants claim (`claims`).
use pg_steward.Base.Order.{Ord, ◌≟◌, pair_ord, text_ord}
use pg_steward.Base.Map.{Map, lookup, insert}
use pg_steward.Base.{
  ℕ, ◌-◌, Bool, true, not, ◌&&◌, none, some, List, [], ◌∷◌, ◌++◌, if◌then◌else◌, ltb, leb, get_or,
  saturating_add,
}
use pg_steward.Sched.{Claim}
use pg_steward.Policy.{TenantId, tenant_ord, policy_on}
use pg_steward.Coordinator.{Slot, ProxyState, State, keys, set_of, proxy_of, demand_at, granted_at}

module _ {I : Type 0} ⦃i : Ord I⦄ where
  -- The tenants of one proxy that ask for the instance or hold it.
  abbrev pub tenants_on : I → List (Slot I) → List TenantId
  tenants_on instance_id [] = []
  tenants_on instance_id ((of, tenant) ∷ slots) =
      if of ≟ instance_id
      then tenant ∷ tenants_on instance_id slots
      else tenants_on instance_id slots

module _ {P : Type 0} where
  abbrev pub add_holder : P → List TenantId → Map TenantId (List P) → Map TenantId (List P)
  add_holder proxy [] holders = holders
  add_holder proxy (tenant ∷ tenants) holders =
      add_holder proxy tenants
        (insert tenant (get_or [] (lookup tenant holders) ++ proxy ∷ []) holders)

module _ {I P : Type 0} ⦃i : Ord I⦄ ⦃p : Ord P⦄ where
  unfoldable pub holders_from :
      I → Map P (ProxyState (Slot I)) → Map TenantId (List P) → Map TenantId (List P)
  holders_from instance_id [] holders = holders
  holders_from instance_id ((proxy, state) ∷ proxies) holders = holders_from instance_id proxies (
      if state.departed
      then holders
      else add_holder proxy
          (keys (set_of (tenants_on instance_id (keys state.demand ++ keys state.held)))) holders)

  abbrev pub holders_on : State I P → I → Map TenantId (List P)
  holders_on s instance_id = holders_from instance_id s.proxies []

  module _ (release_delay : ℕ) where
    abbrev pub may_release : State I P → ProxyState (Slot I) → Slot I → Bool
    may_release s state slot = elim s.now [
      | none ↦ true
      | some now ↦ elim (lookup slot state.idle_since) [
        | none ↦ true
        | some since ↦ leb release_delay (now - since)
      ]
    ]

    -- The sums of the loop of `claims` over the proxies of one tenant.
    unfoldable pub claim_from : State I P → I → List P → Claim TenantId → Claim TenantId
    claim_from s instance_id [] c = c
    claim_from s instance_id (proxy ∷ proxies) c =
        let slot : Slot I = (instance_id, c.key) in
        let wanted = demand_at s proxy slot in
        let granted = granted_at s instance_id c.key proxy in
        claim_from s instance_id proxies (record c {
          demand = saturating_add c.demand wanted;
          current = saturating_add c.current granted;
          may_release =
              c.may_release
              && not (ltb wanted granted && not (may_release s (proxy_of s proxy) slot));
        })

    unfoldable pub claims : State I P → I → Map TenantId (List P) → List (Claim TenantId)
    claims s instance_id [] = []
    claims s instance_id ((tenant, proxies) ∷ holders) =
        elim (policy_on s.policies instance_id tenant) [
          | none ↦ claims s instance_id holders
          | some policy ↦
              claim_from s instance_id proxies (record {
                key = tenant;
                min_slots = policy.min;
                max_slots = policy.max;
                weight = policy.weight;
                demand = 0;
                current = 0;
                may_release = true;
              })
              ∷ claims s instance_id holders
        ]
