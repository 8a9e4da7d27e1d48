-- ===== src/Coordinator/Steady.antt =====
-- That `reconcile` of crates/core/src/grant.rs keeps the state in order, and never grants a proxy
-- more than the slots counted as occupied by it.
use pg_steward.Base.Order.{Ord, pair_ord, text_ord}
use pg_steward.Base.Map.{lookup, IsSorted, values-All, map_values-IsSorted}
use pg_steward.Base.{
  ℕ, ◌+◌, ◌≤◌, ◌≡◌, refl, sym, ap, subst, ◌∙◌, inl, inr, true, false, none, some, List, get_or,
  arith, Option-cases, All-imp,
}
use pg_steward.Sched.{Claim, Grants}
use pg_steward.Allocation.{AllocationTable, granted_in}
use pg_steward.Policy.{TenantId, tenant_ord}
use pg_steward.Coordinator.{State, new_proxy, occupied, published, granted_at}
use pg_steward.Coordinator.Plan.{desired_on}
use pg_steward.Coordinator.Publish.{track_idle, all_equal, reconcile}
use pg_steward.Coordinator.Holding.{equal_maps-lookup, publish_to-departed, publish_to-IsSorted}
use pg_steward.Coordinator.Room.{IsCovered}
use pg_steward.Coordinator.Ceiling.{
  published_lem, All-map_values, at_change, track_idle-IsOrdered, track_idle-IsCovered,
}
use pg_steward.Coordinator.Granted.{Active, desired_on-none}
use pg_steward.Coordinator.Reconcile.{
  changes, changes_lem, published_anew, publish_cases, all_equal-at, Installs, reconcile_cases,
}
use pg_steward.Coordinator.Rounds.{IsSteady}

module _ {I P : Type 0} ⦃i : Ord I⦄ ⦃p : Ord P⦄ where
  module _ (allocator : ℕ → List (Claim TenantId) → Grants TenantId) (release_delay : ℕ) where
    -- A proxy that the coordinator does not know is granted nothing.
    pub unknown_none :
        (s : State I P) (table : AllocationTable I (TenantId × P)) (instance_id : I)
        (tenant : TenantId) (proxy : P)
        → IsSteady s
        → Installs allocator release_delay s table
        → lookup proxy s.proxies ≡ none
        → granted_in table instance_id (tenant, proxy) ≤ 0
    unfolding lookup
    unknown_none s table instance_id tenant proxy (o, c) (t', at_) unknown =
        elim (Option-cases (lookup instance_id s.budgets)) [
          | inl e ↦
              let stands : lookup instance_id table.instances
                  ≡ lookup instance_id s.table.instances =
                at_ instance_id ∙ rw e refl in
              let covers =
                subst
                  (λ r.
                    (get_or new_proxy r).departed ≡ false
                    → granted_at s instance_id tenant proxy
                      ≤ occupied (get_or new_proxy r) (instance_id, tenant))
                  unknown (λ stays. c proxy instance_id stays tenant) refl in
              rw stands covers
          | inr (derived, e) ↦
              let desired = desired_on allocator release_delay s instance_id derived in
              let new : lookup instance_id table.instances ≡ some desired =
                at_ instance_id ∙ rw e refl in
              let gone : ¬ Active s proxy = λ (state, r, _). let e' = sym r ∙ unknown in cc in
              let nothing =
                desired_on-none allocator release_delay s instance_id derived tenant proxy o.0
                  gone in
              rw new (rw nothing (omega arith))
        ]

    module _ (s : State I P) (table : AllocationTable I (TenantId × P)) (steady : IsSteady s)
        (installs : Installs allocator release_delay s table) where
      same-IsCovered :
          all_equal s (record s { table = table }) s.proxies ≡ true
          → IsCovered (record s { table = table })
      same-IsCovered e proxy instance_id stays tenant =
          let after : State I P = record s { table = table } in
          elim (Option-cases (lookup proxy s.proxies)) [
            | inl unknown ↦
                omega (arith, unknown_none s table instance_id tenant proxy steady installs unknown)
            | inr (state, known) ↦
                let equal = all_equal-at s after s.proxies proxy state e known in
                let same = ap (get_or 0) (
                  equal_maps-lookup (published s proxy) (published after proxy)
                    (instance_id, tenant) equal) in
                omega (
                  arith,
                  same,
                  steady.1 proxy instance_id stays tenant,
                  published_lem s proxy instance_id tenant steady.0.3,
                  published_lem after proxy instance_id tenant installs.0,
                )
          ]

      anew-IsCovered : IsCovered (published_anew s (record s { table = table }))
      anew-IsCovered proxy instance_id =
          let change = changes s (record s { table = table }) in
          at_change
            (λ before after.
              (before.departed ≡ false
                → (tenant : TenantId)
                → granted_at s instance_id tenant proxy ≤ occupied before (instance_id, tenant))
              → after.departed ≡ false
              → (tenant : TenantId)
              → granted_in table instance_id (tenant, proxy) ≤ occupied after (instance_id, tenant))
            change s.proxies proxy
            (λ unknown covers stays tenant.
              omega (arith, unknown_none s table instance_id tenant proxy steady installs unknown))
            (λ state known covers stays tenant. ground (
              arith,
              covers
                  (sym (
                      publish_to-departed (s.generation + 1) (published s proxy)
                        (published (record s { table = table }) proxy) state)
                    ∙ stays)
                  tenant,
              changes_lem s table proxy state instance_id tenant steady.0.3 installs.0 (
                  values-All (λ state. IsSorted state.held) proxy s.proxies state known steady.0.1),
            ))
            (steady.1 proxy instance_id)

    -- For any allocator, `reconcile` keeps the maps of the state in order, and keeps every proxy
    -- that has not departed granted at most the slots that it may occupy; one that is not known
    -- is granted nothing.
    pub reconcile-IsSteady :
        (s : State I P) → IsSteady s → IsSteady (reconcile allocator release_delay s).0
    reconcile-IsSteady s (o, c) =
        let tracked = track_idle s in
        let o' = track_idle-IsOrdered s o in
        let steady : IsSteady tracked = (o', track_idle-IsCovered s c) in
        reconcile_cases allocator release_delay (λ r. IsSteady r.0) s o (λ e. steady)
          (λ table installs.
            let after : State I P = record tracked { table = table } in
            let change = changes tracked after in
            let sorted =
              All-imp
                (λ d h.
                  publish_to-IsSorted (tracked.generation + 1) (published tracked d.0)
                    (published after d.0) d.1 h)
                tracked.proxies o'.1 in
            publish_cases IsSteady tracked after
              (λ e.
                ((o'.0, o'.1, o'.2, installs.0), same-IsCovered tracked table steady installs e))
              (
                (
                  map_values-IsSorted change tracked.proxies o'.0,
                  All-map_values (λ d. IsSorted d.1.held) change tracked.proxies sorted,
                  o'.2,
                  installs.0,
                ),
                anew-IsCovered tracked table steady installs,
              ))
