-- ===== src/Coordinator/Settled.antt =====
-- What `within_budget` of crates/core/src/grant.rs tells, the condition that `set_margin` waits for.
use pg_steward.Base.Order.{Ord, pair_ord, text_ord}
use pg_steward.Base.Map.{worth, Map, lookup, IsSorted, entries_read}
use pg_steward.Base.Sums.{Once, total_mono, All-both, total-map, total-append}
use pg_steward.Base.{
  ℕ, ◌≤◌, ◌<◌, ◌≡◌, ◌⊎◌, refl, ap, inl, inr, true, false, some, List, u32_max, Bool-cases, [], ◌∷◌,
  map, get_or, arith, Option-cases, All, All-imp, total,
}
use pg_steward.Policy.{TenantId, tenant_ord}
use pg_steward.Coordinator.{
  within_budget, Slot, Held, ProxyState, State, new_proxy, keys, budget_on,
}
use pg_steward.Coordinator.Claims.{tenants_on}
use pg_steward.Coordinator.Total.{
  all_total, at_slot, held_total_mono, pairs_on, pairs-Once, name_at, occupied_on_lem,
}
use pg_steward.Budget.{InstanceBudget}
use pg_steward.Coordinator.Safety.{occupied_at, occupied_at-total}
use pg_steward.Coordinator.Ceiling.{IsOrdered}

module _ {I P : Type 0} ⦃i : Ord I⦄ ⦃p : Ord P⦄ (instance_id : I) where
  all_total_pairs :
      (more : TenantId × P → ℕ) (proxies : Map P (ProxyState (Slot I)))
      → All
          (λ d.
            IsSorted d.1.held
            × ((tenant : TenantId) → at_slot instance_id d.1.held tenant ≤ more (tenant, d.0)))
          proxies
      → all_total instance_id proxies ≤ total more (pairs_on instance_id proxies)
  all_total_pairs more [] h = omega arith
  all_total_pairs more ((proxy, state) ∷ proxies) ((s, h), hs) =
      let tenants = tenants_on instance_id (keys state.held) in
      let mine : Map (Slot I) Held = [] in
      let here =
        held_total_mono instance_id mine state.held (λ t. more (t, proxy)) s
          (λ tenant. omega (arith, h tenant)) in
      omega (
        arith,
        all_total_pairs more proxies hs,
        here,
        total-append more (map (name_at instance_id proxy) tenants) (pairs_on instance_id proxies),
        total-map more (name_at instance_id proxy) tenants,
      )

  -- What a tenant may occupy on the instance through a proxy.
  abbrev pub held_at : State I P → TenantId × P → ℕ
  held_at s (tenant, proxy) =
      worth
        (λ (state : ProxyState (Slot I)).
          worth (λ (h : Held). h.occupied) (lookup (instance_id, tenant) state.held))
        (lookup proxy s.proxies)

  held_at-eq :
      (s : State I P) (q : TenantId × P) → held_at s q ≡ occupied_at instance_id s.proxies q
  unfolding lookup
  held_at-eq s (tenant, proxy) = elim (Option-cases (lookup proxy s.proxies)) [
    | inl e ↦ rw e refl
    | inr (state, e) ↦ rw e (elim (Option-cases (lookup (instance_id, tenant) state.held)) [
      | inl none_ ↦ rw none_ refl
      | inr (h, found) ↦ rw found refl
    ])
  ]

  -- Together they may occupy as much as all proxies hold.
  all_total-held_at :
      (s : State I P)
      → IsOrdered s
      → all_total instance_id s.proxies ≤ total (held_at s) (pairs_on instance_id s.proxies)
  all_total-held_at s (o, held, b, t) =
      let each : (a : P × ProxyState (Slot I))
          → IsSorted a.1.held × (lookup a.0 s.proxies ≡ some a.1)
          → IsSorted a.1.held
            × ((tenant : TenantId)
                → at_slot instance_id a.1.held tenant ≤ held_at s (tenant, a.0)) =
        λ a (hd, r). (
          hd,
          λ tenant.
              let here : occupied_at instance_id s.proxies (tenant, a.0)
                  ≡ at_slot instance_id a.1.held tenant =
                ap (λ o. at_slot instance_id (get_or new_proxy o).held tenant) r in
              omega (arith, here, held_at-eq s (tenant, a.0)),
        ) in
      all_total_pairs (held_at s) s.proxies (
        All-imp each s.proxies (
          All-both (λ d. IsSorted d.1.held) (λ d. lookup d.0 s.proxies ≡ some d.1) s.proxies held
            (entries_read s.proxies o)))

  -- For a state in order and an instance with a budget below the largest `u32`: either
  -- `within_budget` holds, and whatever tenants of whatever proxies, none named twice, may occupy on
  -- the instance is together at most the budget; or it does not hold, and there are tenants of
  -- proxies, none named twice, who together may occupy more than the budget.
  pub within_budget_lem :
      (s : State I P) (b : InstanceBudget) (qs : List (TenantId × P))
      → IsOrdered s
      → lookup instance_id s.budgets ≡ some b
      → b.budget.total < u32_max
      → Once qs
      → ((within_budget s instance_id ≡ true) × (total (held_at s) qs ≤ b.budget.total))
        ⊎ ((within_budget s instance_id ≡ false)
            × (over : List (TenantId × P)) × Once over
            × (b.budget.total < total (held_at s) over))
  within_budget_lem s b qs ordered e fits once =
      let budget : budget_on s instance_id ≡ b.budget.total = rw (e, budget_on) refl in
      let all = occupied_on_lem instance_id s in
      let above = occupied_at-total instance_id s.proxies qs once in
      let same =
        total_mono (held_at s) (occupied_at instance_id s.proxies)
          (λ q. omega (arith, held_at-eq s q)) qs in
      let most = all_total-held_at s ordered in
      elim (Bool-cases (within_budget s instance_id)) [
        | inl holds ↦ inl (holds, ground (arith, holds, budget, all, above, same, fits))
        | inr fails ↦ inr (
          fails,
          pairs_on instance_id s.proxies,
          pairs-Once instance_id s.proxies ordered.0 ordered.1,
          ground (arith, fails, budget, all, most, fits),
        )
      ]
