-- ===== src/Coordinator/Run.antt =====
-- That every step of the coordinator of crates/core/src/grant.rs among its proxies keeps them in
-- agreement, and what a step may add to the slots held on an instance.
use pg_steward.Base.Order.{Text, Ord, pair_ord, text_ord}
use pg_steward.Base.Map.{Map, lookup, insert, IsSorted, insert-IsSorted, insert-IsSorted}
use pg_steward.Base.{
  ℕ, inl, inr, Option, none, some, List, Result, err, ok, ltb, Bool-cases, Option-cases,
}
use pg_steward.Sched.{Claim, Grants}
use pg_steward.Budget.{InstanceBudget, observe, set_margin, with_margin}
use pg_steward.Policy.{
  TenantId, tenant_ord, Policies, PolicyChange, SettingError, change_tenant, minimums_on,
}
use pg_steward.Coordinator.{Slot, State}
use pg_steward.Coordinator.Publish.{
  add_instance, observe_instance, set_policies, depart, set_tenant, change_margin, reconcile,
}
use pg_steward.Coordinator.World.{
  Agent, World, Step, rounds, ticks, reconciles, departs, reads, adopts, opens, closes, reports,
  stops, withdraws, joins, adds, observes, sets_policies, sets_tenant, sets_margin,
}
use pg_steward.Coordinator.Sound.{IsSound, reconcile-IsSound}
use pg_steward.Coordinator.Steps.{
  update-Agrees, report_for-IsSound, depart-IsSound, channel-IsSound,
}
use pg_steward.Coordinator.Agents.{
  reads-IsKept, adopts-IsKept, opens-IsKept, closes-IsKept, stops-IsKept,
}

module _ {I P : Type 0} ⦃i : Ord I⦄ ⦃p : Ord P⦄ where
  budgets-IsSound :
      (s : State I P) (agents : P → Agent (Slot I)) (budgets : Map I InstanceBudget)
      → IsSorted budgets
      → IsSound s agents
      → IsSound (record s { budgets = budgets }) agents
  budgets-IsSound s agents budgets sorted (o, a) = ((o.0, o.1, sorted, o.3), a)

  pub add_instance-IsSound :
      (s : State I P) (agents : P → Agent (Slot I)) (instance_id : I) (budget : InstanceBudget)
      → IsSound s agents
      → IsSound (add_instance s instance_id budget) agents
  unfolding add_instance
  add_instance-IsSound s agents instance_id budget sound =
      budgets-IsSound s agents (insert instance_id budget s.budgets)
        (insert-IsSorted instance_id budget s.budgets sound.0.2) sound

  -- The outcomes of the calls that go on to `reconcile`.
  pub observe_instance_cases {ℓ} :
      (C : State I P → Type ℓ) (s : State I P) (instance_id : I) (at foreign : ℕ)
      → C s
      → ((budget : InstanceBudget) → C (add_instance s instance_id budget))
      → C (observe_instance s instance_id at foreign).0
  unfolding observe_instance add_instance
  observe_instance_cases C s instance_id at foreign same changed =
      elim (Option-cases (lookup instance_id s.budgets)) [
        | inl e ↦ rw (e, observe_instance) same
        | inr (b, e) ↦ rw (e, observe_instance) (changed (observe b at foreign).0)
      ]

  module _ (allocator : ℕ → List (Claim TenantId) → Grants TenantId) (release_delay : ℕ) where
    pub set_tenant_cases {ℓ} :
        (C : State I P → Type ℓ) (s : State I P) (tenant : Text) (change : PolicyChange)
        → C s
        → ((policies : Policies I)
            → C (reconcile allocator release_delay (set_policies s policies)).0)
        → C (set_tenant allocator release_delay s tenant change).0
    unfolding set_tenant
    set_tenant_cases C s tenant change same changed =
        let budget : I → Option ℕ = λ instance_id. elim (lookup instance_id s.budgets) [
          | none ↦ none
          | some b ↦ some b.budget.total
        ] in
        elim (change_tenant s.policies tenant change budget)
          as (λ r.
            C
              (elim r as (λ x. State I P × Result (SettingError I) (Unit {0})) [
                | err e ↦ (s, err e)
                | ok policies ↦
                    ((reconcile allocator release_delay (set_policies s policies)).0, ok tt)
              ]).0) [ err e ↦ same | ok policies ↦ changed policies ]

    pub change_margin_cases {ℓ} :
        (C : State I P → Type ℓ) (s : State I P) (instance_id : I) (margin : ℕ)
        → C s
        → ((budget : InstanceBudget)
            → C (reconcile allocator release_delay (add_instance s instance_id budget)).0)
        → C (change_margin allocator release_delay s instance_id margin).0
    unfolding change_margin add_instance
    change_margin_cases C s instance_id margin same changed =
        elim (Option-cases (lookup instance_id s.budgets)) [
          | inl e ↦ rw (e, change_margin) same
          | inr (b, e) ↦
              elim (Bool-cases
                (ltb (with_margin b margin).total (minimums_on s.policies instance_id))) [
                  | inl low ↦ rw (e, change_margin) (rw low same)
                  | inr fits ↦ rw (e, change_margin) (rw fits (changed (set_margin b margin).0))
                ]
        ]

    pub Step-IsSound :
        (w w' : World I P)
        → IsSound w.coordinator w.agents
        → Step allocator release_delay w w'
        → IsSound w'.coordinator w'.agents
    Step-IsSound w _ sound (rounds now) =
        reconcile-IsSound allocator release_delay (record w.coordinator { now = some now }) w.agents
          sound
    Step-IsSound w _ sound (ticks now) = sound
    Step-IsSound w _ sound reconciles =
        reconcile-IsSound allocator release_delay w.coordinator w.agents sound
    Step-IsSound w _ sound (reads proxy) = (
      sound.0,
      update-Agrees w.coordinator w.agents proxy _ sound.1 (reads-IsKept _ _ _ _ (sound.1 proxy)),
    )
    Step-IsSound w _ sound (adopts proxy slot) = (
      sound.0,
      update-Agrees w.coordinator w.agents proxy _ sound.1
          (adopts-IsKept _ _ _ _ (sound.1 proxy) slot),
    )
    Step-IsSound w _ sound (opens proxy slot room going) = (
      sound.0,
      update-Agrees w.coordinator w.agents proxy _ sound.1
          (opens-IsKept _ _ _ _ (sound.1 proxy) slot room going),
    )
    Step-IsSound w _ sound (closes proxy slot) = (
      sound.0,
      update-Agrees w.coordinator w.agents proxy _ sound.1
          (closes-IsKept _ _ _ _ (sound.1 proxy) slot),
    )
    Step-IsSound w _ sound (reports proxy report stays at_ adopted counts) =
        report_for-IsSound w.coordinator w.agents sound proxy report at_ adopted counts
    Step-IsSound w _ sound (stops proxy) = (
      sound.0,
      update-Agrees w.coordinator w.agents proxy _ sound.1 (stops-IsKept _ _ _ _ (sound.1 proxy)),
    )
    Step-IsSound w _ sound (withdraws proxy stopped none_live) =
        reconcile-IsSound allocator release_delay (depart w.coordinator proxy) w.agents
          (depart-IsSound w.coordinator w.agents sound proxy stopped none_live)
    Step-IsSound w _ sound (departs proxy stopped none_live) =
        depart-IsSound w.coordinator w.agents sound proxy stopped none_live
    Step-IsSound w _ sound (joins proxy) = channel-IsSound w.coordinator w.agents sound proxy
    Step-IsSound w _ sound (adds instance_id budget) =
        add_instance-IsSound w.coordinator w.agents instance_id budget sound
    Step-IsSound w _ sound (observes instance_id at foreign) =
        observe_instance_cases (λ s. IsSound s w.agents) w.coordinator instance_id at foreign sound
          λ budget. add_instance-IsSound w.coordinator w.agents instance_id budget sound
    Step-IsSound w _ sound (sets_policies policies) = sound
    Step-IsSound w _ sound (sets_tenant tenant change) =
        set_tenant_cases (λ s. IsSound s w.agents) w.coordinator tenant change sound
          λ policies.
            reconcile-IsSound allocator release_delay (set_policies w.coordinator policies) w.agents
              sound
    Step-IsSound w _ sound (sets_margin instance_id margin) =
        change_margin_cases (λ s. IsSound s w.agents) w.coordinator instance_id margin sound
          λ budget.
            reconcile-IsSound allocator release_delay
              (add_instance w.coordinator instance_id budget) w.agents
              (add_instance-IsSound w.coordinator w.agents instance_id budget sound)
