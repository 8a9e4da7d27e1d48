-- ===== src/Coordinator/Bound.antt =====
-- What a step of the coordinator of crates/core/src/grant.rs may add to the slots held on an instance.
use pg_steward.Base.Order.{Ord, pair_ord, text_ord}
use pg_steward.Base.Map.{lookup, IsSorted, values-All, total_of-insert, worth}
use pg_steward.Base.Sums.{total_none}
use pg_steward.Base.{
  ℕ, ◌+◌, ◌≤◌, ◌≡◌, refl, ap, subst, inl, inr, max, true, false, some, List, [], get_or, arith,
  Option-cases, u32_max,
}
use pg_steward.Sched.{Claim, Grants}
use pg_steward.Budget.{InstanceBudget}
use pg_steward.Policy.{TenantId, tenant_ord}
use pg_steward.Coordinator.{
  Report, usage_of, Slot, ProxyState, State, new_proxy, keys, occupied_of, occupied, proxy_of,
  published, budget_on,
}
use pg_steward.Coordinator.Claims.{tenants_on}
use pg_steward.Coordinator.Publish.{
  report_to, report_for, channel, add_instance, set_policies, depart, reconcile,
}
use pg_steward.Coordinator.Holding.{report_to-occupied, report_to-IsSorted}
use pg_steward.Coordinator.Total.{held_total, all_total, at_slot, held_total_mono}
use pg_steward.Coordinator.Ceiling.{published_lem}
use pg_steward.Coordinator.Rounds.{reconcile_total, reconcile-budget_on}
use pg_steward.Coordinator.Promise.{measured-occupied}
use pg_steward.Coordinator.World.{
  Agent, World, Step, rounds, ticks, reconciles, departs, reads, adopts, opens, closes, reports,
  stops, withdraws, joins, adds, observes, sets_policies, sets_tenant, sets_margin,
}
use pg_steward.Coordinator.Sound.{granted_to, Agrees-IsCovered, IsSound}
use pg_steward.Coordinator.Steps.{depart-IsSound, with_proxy}
use pg_steward.Coordinator.Run.{
  observe_instance_cases, set_tenant_cases, change_margin_cases, add_instance-IsSound,
}

module _ {I P : Type 0} ⦃i : Ord I⦄ ⦃p : Ord P⦄ (instance_id : I) where
  -- A step adds slots to an instance only up to its budget.
  abbrev pub IsBounded : State I P → State I P → Type 0
  IsBounded s s' =
      budget_on s' instance_id ≤ u32_max
      → all_total instance_id s'.proxies
        ≤ max (all_total instance_id s.proxies) (budget_on s' instance_id)

  with_proxy-total :
      (s : State I P) (proxy : P) (state : ProxyState (Slot I))
      → IsSorted s.proxies
      → held_total instance_id state.held ≤ held_total instance_id (proxy_of s proxy).held
      → all_total instance_id (with_proxy s proxy state).proxies ≤ all_total instance_id s.proxies
  with_proxy-total s proxy state sorted le =
      let f : ProxyState (Slot I) → ℕ = λ state. held_total instance_id state.held in
      let law = total_of-insert f proxy state s.proxies sorted in
      let here : held_total instance_id (proxy_of s proxy).held ≡ worth f (lookup proxy s.proxies) =
        elim (Option-cases (lookup proxy s.proxies)) [
          | inl e ↦ rw e refl
          | inr (state, e) ↦ rw e refl
        ] in
      omega (arith, law, le, here)

  report_for-total :
      (s : State I P) (agents : P → Agent (Slot I)) (proxy : P) (report : Report (Slot I))
      → IsSound s agents
      → (proxy_of s proxy).departed ≡ false
      → ((slot : Slot I) → (agents proxy).live slot ≡ (usage_of report slot).actual)
      → all_total instance_id (report_for s proxy report).proxies ≤ all_total instance_id s.proxies
  unfolding report_for
  report_for-total s agents proxy report sound stays counts =
      elim (Option-cases (lookup proxy s.proxies)) [
        | inl e ↦ rw (e, report_for) (omega arith)
        | inr (state, e) ↦
            let known = published s proxy in
            let sorted =
              values-All (λ state. IsSorted state.held) proxy s.proxies state e sound.0.1 in
            let here : proxy_of s proxy ≡ state = ap (get_or new_proxy) e in
            let each : (tenant : TenantId)
                → at_slot instance_id (report_to report known state).held tenant
                  ≤ at_slot instance_id state.held tenant + 0 =
              λ tenant.
                let slot : Slot I = (instance_id, tenant) in
                let h = (sound.1 proxy).honoured stays instance_id tenant in
                let entry = lookup slot state.held in
                let covered : granted_to s proxy instance_id tenant ≤ occupied_of entry =
                  subst (λ q. granted_to s proxy instance_id tenant ≤ occupied q slot) here
                    h.covered in
                let held : (agents proxy).live slot ≤ occupied_of entry =
                  subst (λ q. (agents proxy).live slot ≤ occupied q slot) here h.held in
                omega (
                  arith,
                  report_to-occupied report known state slot sorted,
                  measured-occupied report known slot entry
                      (omega (arith, published_lem s proxy instance_id tenant sound.0.3, covered))
                      (omega (arith, counts slot, held)),
                ) in
            let total =
              held_total_mono instance_id state.held (report_to report known state).held
                (λ tenant. 0) (report_to-IsSorted report known state sorted) each in
            rw (e, report_for)
              (with_proxy-total s proxy (report_to report known state) sound.0.0 (
                omega (
                  arith,
                  total,
                  total_none (tenants_on instance_id (keys (report_to report known state).held)),
                  ap (λ q. held_total instance_id q.held) here,
                )))
      ]

  depart-total :
      (s : State I P) (proxy : P)
      → IsSorted s.proxies
      → all_total instance_id (depart s proxy).proxies ≤ all_total instance_id s.proxies
  unfolding depart
  depart-total s proxy sorted = elim (Option-cases (lookup proxy s.proxies)) [
    | inl e ↦ rw (e, depart) (omega arith)
    | inr (state, e) ↦
        rw (e, depart)
          (with_proxy-total s proxy (record state { departed = true; demand = []; held = [] })
            sorted (omega arith))
  ]

  channel-total :
      (s : State I P) (proxy : P)
      → IsSorted s.proxies
      → all_total instance_id (channel s proxy).proxies ≤ all_total instance_id s.proxies
  unfolding channel
  channel-total s proxy sorted = elim (Option-cases (lookup proxy s.proxies)) [
    | inl e ↦ rw (e, channel) (with_proxy-total s proxy new_proxy sorted (omega arith))
    | inr (state, e) ↦ rw (e, channel) (omega arith)
  ]

  added_total :
      (s : State I P) (other : I) (budget : InstanceBudget)
      → all_total instance_id (add_instance s other budget).proxies
        ≤ all_total instance_id s.proxies
  unfolding add_instance
  added_total s other budget = omega arith

  added :
      (s : State I P) (other : I) (budget : InstanceBudget)
      → all_total instance_id (add_instance s other budget).proxies
        ≤ max
            (all_total instance_id s.proxies)
            (budget_on (add_instance s other budget) instance_id)
  added s other budget = omega (arith, added_total s other budget)

  module _ (allocator : ℕ → List (Claim TenantId) → Grants TenantId) (release_delay : ℕ) where
    reconcile-IsBounded :
        (before s : State I P) (agents : P → Agent (Slot I))
        → IsSound s agents
        → all_total instance_id s.proxies ≤ all_total instance_id before.proxies
        → IsBounded before (reconcile allocator release_delay s).0
    reconcile-IsBounded before s agents sound le fits =
        let same = reconcile-budget_on allocator release_delay s instance_id sound.0 in
        omega (
          arith,
          le,
          same,
          reconcile_total allocator release_delay s instance_id
              (sound.0, Agrees-IsCovered s agents sound.1) (omega (arith, fits, same)),
        )

    pub Step-IsBounded :
        (w w' : World I P)
        → IsSound w.coordinator w.agents
        → Step allocator release_delay w w'
        → IsBounded w.coordinator w'.coordinator
    Step-IsBounded w _ sound (rounds now) fits =
        reconcile-IsBounded w.coordinator (record w.coordinator { now = some now }) w.agents sound
          (omega arith) fits
    Step-IsBounded w _ sound (ticks now) fits = omega arith
    Step-IsBounded w _ sound reconciles fits =
        reconcile-IsBounded w.coordinator w.coordinator w.agents sound (omega arith) fits
    Step-IsBounded w _ sound (reads proxy) fits = omega arith
    Step-IsBounded w _ sound (adopts proxy slot) fits = omega arith
    Step-IsBounded w _ sound (opens proxy slot room going) fits = omega arith
    Step-IsBounded w _ sound (closes proxy slot) fits = omega arith
    Step-IsBounded w _ sound (reports proxy report stays at_ adopted counts) fits =
        omega (arith, report_for-total w.coordinator w.agents proxy report sound stays counts)
    Step-IsBounded w _ sound (stops proxy) fits = omega arith
    Step-IsBounded w _ sound (withdraws proxy stopped none_live) fits =
        reconcile-IsBounded w.coordinator (depart w.coordinator proxy) w.agents
          (depart-IsSound w.coordinator w.agents sound proxy stopped none_live)
          (depart-total w.coordinator proxy sound.0.0) fits
    Step-IsBounded w _ sound (departs proxy stopped none_live) fits =
        omega (arith, depart-total w.coordinator proxy sound.0.0)
    Step-IsBounded w _ sound (joins proxy) fits =
        omega (arith, channel-total w.coordinator proxy sound.0.0)
    Step-IsBounded w _ sound (adds other budget) fits = added w.coordinator other budget
    Step-IsBounded w _ sound (observes other at foreign) fits =
        observe_instance_cases (IsBounded w.coordinator) w.coordinator other at foreign
          (λ fits. omega arith) (λ budget fits. added w.coordinator other budget) fits
    Step-IsBounded w _ sound (sets_policies policies) fits = omega arith
    Step-IsBounded w _ sound (sets_tenant tenant change) fits =
        set_tenant_cases allocator release_delay (IsBounded w.coordinator) w.coordinator tenant
          change (λ fits. omega arith)
          (λ policies.
            reconcile-IsBounded w.coordinator (set_policies w.coordinator policies) w.agents sound
              (omega arith))
          fits
    Step-IsBounded w _ sound (sets_margin other margin) fits =
        change_margin_cases allocator release_delay (IsBounded w.coordinator) w.coordinator other
          margin (λ fits. omega arith)
          (λ budget.
            reconcile-IsBounded w.coordinator (add_instance w.coordinator other budget) w.agents
              (add_instance-IsSound w.coordinator w.agents other budget sound)
              (added_total w.coordinator other budget))
          fits
