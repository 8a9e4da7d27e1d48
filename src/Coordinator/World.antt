-- ===== src/Coordinator/World.antt =====
-- The coordinator of crates/core/src/grant.rs among its proxies: what each proxy has read of its grants
-- and holds open, and every step that they and the node take. A proxy follows `run` and `converge` of
-- crates/core/src/convergence.rs: it reads its grants, gives each pool its slots, and reports once all
-- pools have theirs; its pools open connections up to their slots. It withdraws once it has stopped
-- opening connections and holds none, as crates/node/src/serve.rs does, and reports no more. Where
-- the code takes two locks one after the other, both the whole and each half are steps, so others
-- may come between: `ticks`, `departs`, `sets_policies` and `adds` are first halves, and the second is
-- always `reconciles`, which is also the first round of a node.
use pg_steward.Base.Order.{Text, Ord, ◌≟◌, pair_ord, text_ord}
use pg_steward.Base.Map.{insert}
use pg_steward.Base.{ℕ, ◌+◌, ◌-◌, ◌<◌, ◌≡◌, Bool, true, false, none, some, List, [], if◌then◌else◌}
use pg_steward.Sched.{Claim, Grants}
use pg_steward.Budget.{InstanceBudget}
use pg_steward.Allocation.{new_table}
use pg_steward.Policy.{TenantId, tenant_ord, new_policies, Policies, PolicyChange}
use pg_steward.Coordinator.{
  Report, GrantSet, no_grants, usage_of, slots_of, Slot, State, new_proxy, proxy_of,
}
use pg_steward.Coordinator.Publish.{
  subscribe, report_for, channel, add_instance, observe_instance, set_policies, depart, withdraw,
  set_tenant, change_margin, reconcile, reconcile_at,
}

-- `read` is the set of grants that `converge` works on, `limits` the slots its pools were last given.
pub record Agent (S : Type 0) : Type 0 where
  pub read : GrantSet S
  pub limits : S → ℕ
  pub live : S → ℕ
  pub stopped : Bool

pub record World (I P : Type 0) : Type 0 where
  pub coordinator : State I P
  pub agents : P → Agent (Slot I)

abbrev pub new_agent : {S : Type 0} → Agent S
new_agent = record { read = no_grants; limits = λ slot. 0; live = λ slot. 0; stopped = false }

abbrev pub update {ℓ} : {K : Type 0} {V : Type ℓ} ⦃o : Ord K⦄ → (K → V) → K → V → K → V
update f k v q = if k ≟ q then v else f q

module _ {I P : Type 0} ⦃i : Ord I⦄ ⦃p : Ord P⦄ where
  abbrev pub with_agent : World I P → P → Agent (Slot I) → World I P
  with_agent w proxy agent = record w { agents = update w.agents proxy agent }

  abbrev pub with_coordinator : World I P → State I P → World I P
  with_coordinator w s = record w { coordinator = s }

  -- `InProcessCoordinator::new` knows the proxy that it is created for.
  abbrev pub new_state : P → State I P
  new_state proxy = record {
    table = new_table;
    budgets = [];
    policies = new_policies;
    generation = 0;
    now = none;
    proxies = insert proxy new_proxy [];
  }

  abbrev pub new_world : P → World I P
  new_world proxy = record { coordinator = new_state proxy; agents = λ q. new_agent }

  module _ (allocator : ℕ → List (Claim TenantId) → Grants TenantId) (release_delay : ℕ) where
    pub data Step (w : World I P) : World I P → Type 0 where
      rounds :
          (now : ℕ)
          → Step w (with_coordinator w (reconcile_at allocator release_delay w.coordinator now).0)
      ticks : (now : ℕ) → Step w (with_coordinator w (record w.coordinator { now = some now }))
      reconciles : Step w (with_coordinator w (reconcile allocator release_delay w.coordinator).0)
      reads :
          (proxy : P)
          → Step w (
              with_agent w proxy (record (w.agents proxy) { read = subscribe w.coordinator proxy }))
      adopts :
          (proxy : P) (slot : Slot I)
          → Step w (
              with_agent w proxy (record (w.agents proxy) {
                limits = update (w.agents proxy).limits slot (slots_of (w.agents proxy).read slot);
              }))
      opens :
          (proxy : P) (slot : Slot I)
          → (w.agents proxy).live slot < (w.agents proxy).limits slot
          → (w.agents proxy).stopped ≡ false
          → Step w (
              with_agent w proxy (record (w.agents proxy) {
                live = update (w.agents proxy).live slot ((w.agents proxy).live slot + 1);
              }))
      closes :
          (proxy : P) (slot : Slot I)
          → Step w (
              with_agent w proxy (record (w.agents proxy) {
                live = update (w.agents proxy).live slot ((w.agents proxy).live slot - 1);
              }))
      reports :
          (proxy : P) (report : Report (Slot I))
          → (proxy_of w.coordinator proxy).departed ≡ false
          → report.generation ≡ (w.agents proxy).read.generation
          → ((slot : Slot I) → (w.agents proxy).limits slot ≡ slots_of (w.agents proxy).read slot)
          → ((slot : Slot I) → (w.agents proxy).live slot ≡ (usage_of report slot).actual)
          → Step w (with_coordinator w (report_for w.coordinator proxy report))
      stops : (proxy : P) → Step w (with_agent w proxy (record (w.agents proxy) { stopped = true }))
      withdraws :
          (proxy : P)
          → (w.agents proxy).stopped ≡ true
          → ((slot : Slot I) → (w.agents proxy).live slot ≡ 0)
          → Step w (with_coordinator w (withdraw allocator release_delay w.coordinator proxy))
      departs :
          (proxy : P)
          → (w.agents proxy).stopped ≡ true
          → ((slot : Slot I) → (w.agents proxy).live slot ≡ 0)
          → Step w (with_coordinator w (depart w.coordinator proxy))
      joins : (proxy : P) → Step w (with_coordinator w (channel w.coordinator proxy))
      adds :
          (instance_id : I) (budget : InstanceBudget)
          → Step w (with_coordinator w (add_instance w.coordinator instance_id budget))
      observes :
          (instance_id : I) (at foreign : ℕ)
          → Step w (with_coordinator w (observe_instance w.coordinator instance_id at foreign).0)
      sets_policies :
          (policies : Policies I)
          → Step w (with_coordinator w (set_policies w.coordinator policies))
      sets_tenant :
          (tenant : Text) (change : PolicyChange)
          → Step w (
              with_coordinator w (set_tenant allocator release_delay w.coordinator tenant change).0)
      sets_margin :
          (instance_id : I) (margin : ℕ)
          → Step w (
              with_coordinator w
                (change_margin allocator release_delay w.coordinator instance_id margin).0)
