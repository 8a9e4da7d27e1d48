-- ===== src/Coordinator/Rounds.antt =====
-- What every round of `reconcile` in crates/core/src/grant.rs keeps: an instance is never taken above
-- its budget.
use pg_steward.Base.Order.{Ord, pair_ord, text_ord}
use pg_steward.Base.Map.{Map, lookup, map_values, IsSorted, entries_read, map_values-IsSorted}
use pg_steward.Base.Sums.{All-both, weigh, weight_at, total-weight_at}
use pg_steward.Base.{
  ℕ, ◌+◌, ◌-◌, ◌≤◌, ◌≡◌, refl, sym, ap, ◌∙◌, ◌⊎◌, inl, inr, max, some, List, [], get_or, arith,
  Option-cases, All-imp, u32_max,
}
use pg_steward.Sched.{Claim, Grants}
use pg_steward.Allocation.{AllocationTable, granted_of, granted_in}
use pg_steward.Policy.{TenantId, tenant_ord}
use pg_steward.Coordinator.{
  Slot, ProxyState, State, new_proxy, proxy_of, published, budget_on, occupied_on, granted_at,
}
use pg_steward.Coordinator.Plan.{desired_on}
use pg_steward.Coordinator.Publish.{track_idle, reconcile}
use pg_steward.Coordinator.Holding.{publish_to-IsSorted}
use pg_steward.Coordinator.Room.{excess, IsCovered, desired_on-excess}
use pg_steward.Coordinator.Total.{all_total, at_slot, pairs_on, pairs-Once, occupied_on_lem}
use pg_steward.Coordinator.Ceiling.{
  all_total_mono, IsOrdered, track_idle_cases, All-map_values, track_idle-total,
  track_idle-IsOrdered, track_idle-IsCovered,
}
use pg_steward.Coordinator.Reconcile.{
  changes, changes_lem, published_anew, publish_cases, Installs, reconcile_cases,
}

module _ {I P : Type 0} ⦃i : Ord I⦄ ⦃p : Ord P⦄ where
  abbrev pub IsSteady : State I P → Type 0
  IsSteady s = IsOrdered s × IsCovered s

  more_lem :
      (s : State I P) (instance_id : I) (G : Map (TenantId × P) ℕ) (tenant : TenantId) (proxy : P)
      → weight_at (excess s instance_id) (tenant, proxy) (lookup (tenant, proxy) G)
        ≡ get_or 0 (lookup (tenant, proxy) G) - at_slot instance_id (proxy_of s proxy).held tenant
  more_lem s instance_id G tenant proxy = elim (Option-cases (lookup (tenant, proxy) G)) [
    | inl e ↦ rw e (omega arith)
    | inr (g, e) ↦ rw e refl
  ]

  -- A round whose grants on an instance are those that stand or those of a map adds at most what the
  -- map exceeds.
  changed_total :
      (s : State I P) (table : AllocationTable I (TenantId × P)) (instance_id : I)
      (G : Map (TenantId × P) ℕ)
      → IsOrdered s
      → IsSorted table.instances
      → ((tenant : TenantId) (proxy : P)
          → (granted_at s instance_id tenant proxy ≡ granted_in table instance_id (tenant, proxy))
            ⊎ (granted_in table instance_id (tenant, proxy) ≡ get_or 0 (lookup (tenant, proxy) G)))
      → all_total instance_id (published_anew s (record s { table = table })).proxies
        ≤ all_total instance_id s.proxies + weigh (excess s instance_id) G
  changed_total s table instance_id G (o, held, b, t) t' h =
      let change = changes s (record s { table = table }) in
      let more : TenantId × P → ℕ = λ q. weight_at (excess s instance_id) q (lookup q G) in
      let sorted =
        All-imp
          (λ d hd.
            publish_to-IsSorted (s.generation + 1) (published s d.0)
              (published (record s { table = table }) d.0) d.1 hd)
          s.proxies held in
      let each : (d : P × ProxyState (Slot I))
          → IsSorted d.1.held × (lookup d.0 s.proxies ≡ some d.1)
          → IsSorted (change d.0 d.1).held
            × ((tenant : TenantId)
                → at_slot instance_id (change d.0 d.1).held tenant
                  ≤ at_slot instance_id d.1.held tenant + more (tenant, d.0)) =
        λ d (hd, r). (
          publish_to-IsSorted (s.generation + 1) (published s d.0)
              (published (record s { table = table }) d.0) d.1 hd,
          λ tenant.
              let here : at_slot instance_id (proxy_of s d.0).held tenant
                  ≡ at_slot instance_id d.1.held tenant =
                ap (λ o. at_slot instance_id (get_or new_proxy o).held tenant) r in
              elim (h tenant d.0) [
                | inl e ↦ ground (arith, e, changes_lem s table d.0 d.1 instance_id tenant t t' hd)
                | inr e ↦ ground (
                  arith,
                  here,
                  e,
                  changes_lem s table d.0 d.1 instance_id tenant t t' hd,
                  more_lem s instance_id G tenant d.0,
                )
              ],
        ) in
      let once =
        pairs-Once instance_id (map_values change s.proxies)
          (map_values-IsSorted change s.proxies o)
          (All-map_values (λ e. IsSorted e.1.held) change s.proxies sorted) in
      omega (
        arith,
        all_total_mono instance_id change more s.proxies (
            All-imp each s.proxies (
              All-both (λ d. IsSorted d.1.held) (λ d. lookup d.0 s.proxies ≡ some d.1) s.proxies
                held (entries_read s.proxies o))),
        total-weight_at (excess s instance_id) (pairs_on instance_id (map_values change s.proxies))
            G once,
      )

  module _ (allocator : ℕ → List (Claim TenantId) → Grants TenantId) (release_delay : ℕ) where
    installed_total :
        (s : State I P) (table : AllocationTable I (TenantId × P)) (instance_id : I)
        → IsSteady s
        → Installs allocator release_delay s table
        → all_total instance_id (published_anew s (record s { table = table })).proxies
          ≤ all_total instance_id s.proxies + (budget_on s instance_id - occupied_on s instance_id)
    installed_total s table instance_id (o, c) (t', at_) =
        elim (Option-cases (lookup instance_id s.budgets)) [
          | inl e ↦
              let stands : lookup instance_id table.instances
                  ≡ lookup instance_id s.table.instances =
                at_ instance_id ∙ rw e refl in
              let total =
                changed_total s table instance_id [] o t'
                  (λ tenant proxy. inl (ap (granted_of (tenant, proxy)) (sym stands))) in
              omega (arith, total)
          | inr (derived, e) ↦
              let desired = desired_on allocator release_delay s instance_id derived in
              let new : lookup instance_id table.instances ≡ some desired =
                at_ instance_id ∙ rw e refl in
              let total =
                changed_total s table instance_id desired.granted o t'
                  (λ tenant proxy. inr (ap (granted_of (tenant, proxy)) new)) in
              rw (e, budget_on)
                (omega (
                  arith,
                  total,
                  desired_on-excess allocator release_delay s instance_id derived o.0 c,
                ))
        ]

    track_idle-budget_on :
        (s : State I P) (instance_id : I)
        → budget_on (track_idle s) instance_id ≡ budget_on s instance_id
    track_idle-budget_on s instance_id =
        track_idle_cases (λ t. budget_on t instance_id ≡ budget_on s instance_id) s refl
          λ change h d g. refl

    pub reconcile-budget_on :
        (s : State I P) (instance_id : I)
        → IsOrdered s
        → budget_on (reconcile allocator release_delay s).0 instance_id ≡ budget_on s instance_id
    reconcile-budget_on s instance_id o =
        let same = track_idle-budget_on s instance_id in
        reconcile_cases allocator release_delay
          (λ r. budget_on r.0 instance_id ≡ budget_on s instance_id) s o (λ e. same)
          (λ table installs.
            publish_cases (λ r. budget_on r instance_id ≡ budget_on s instance_id) (track_idle s)
              (record (track_idle s) { table = table }) (λ e. same) same)

    -- What a round leaves of the slots that may be occupied, before `occupied_on` saturates them.
    pub reconcile_total :
        (s : State I P) (instance_id : I)
        → IsSteady s
        → budget_on s instance_id ≤ u32_max
        → all_total instance_id (reconcile allocator release_delay s).0.proxies
          ≤ max (all_total instance_id s.proxies) (budget_on s instance_id)
    reconcile_total s instance_id (o, c) fits =
        let tracked = track_idle s in
        let steady : IsSteady tracked = (track_idle-IsOrdered s o, track_idle-IsCovered s c) in
        let same = track_idle-total s instance_id in
        let bound : Map P (ProxyState (Slot I)) → Type 0 = λ m.
          all_total instance_id m
          ≤ max (all_total instance_id s.proxies) (budget_on s instance_id) in
        reconcile_cases allocator release_delay (λ r. bound r.0.proxies) s o
          (λ e. omega (arith, same))
          (λ table installs.
            let after : State I P = record tracked { table = table } in
            publish_cases (λ r. bound r.proxies) tracked after (λ e. omega (arith, same))
              (omega (
                arith,
                same,
                fits,
                track_idle-budget_on s instance_id,
                occupied_on_lem instance_id tracked,
                installed_total tracked table instance_id steady installs,
              )))

    -- For a state in order in which every proxy that has not departed may occupy at least what it
    -- is granted, and a budget that fits a `u32`: after `reconcile`, whether it is rejected or
    -- not, the slots that may be occupied on the instance are at most the larger of what they
    -- were and of the budget.
    pub reconcile_ceiling :
        (s : State I P) (instance_id : I)
        → IsSteady s
        → budget_on s instance_id ≤ u32_max
        → occupied_on (reconcile allocator release_delay s).0 instance_id
          ≤ max (occupied_on s instance_id) (budget_on s instance_id)
    reconcile_ceiling s instance_id steady fits = omega (
      arith,
      fits,
      reconcile_total s instance_id steady fits,
      occupied_on_lem instance_id s,
      occupied_on_lem instance_id (reconcile allocator release_delay s).0,
    )
