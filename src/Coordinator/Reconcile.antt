-- ===== src/Coordinator/Reconcile.antt =====
-- What a round of `reconcile` in crates/core/src/grant.rs does, by the outcome of `apply`.
use pg_steward.Base.Order.{Ord, pair_ord, text_ord}
use pg_steward.Base.Map.{
  Map, lookup, map_values, IsSorted, map_values-IsSorted, lookup-map_values, map_found,
}
use pg_steward.Base.{
  ℕ, ◌+◌, ◌≡◌, refl, ap, ◌∙◌, inl, inr, max, true, Option, none, some, List, [], ◌∷◌, if◌then◌else◌,
  ◌==◌, arith, Bool-cases,
}
use pg_steward.Sched.{Claim, Grants}
use pg_steward.Allocation.{Desired, AllocationTable, PreconditionError, install, granted_in}
use pg_steward.Allocation.Apply.{or_else, install-IsSorted, lookup-install, apply_cases}
use pg_steward.Policy.{TenantId, tenant_ord}
use pg_steward.Coordinator.{Slot, ProxyState, State, published, granted_at}
use pg_steward.Coordinator.Plan.{desired_on, desired_state}
use pg_steward.Coordinator.Publish.{
  equal_maps, publish_to, track_idle, all_equal, publish, reconcile,
}
use pg_steward.Coordinator.Holding.{publish_to_lem}
use pg_steward.Coordinator.Total.{at_slot}
use pg_steward.Coordinator.Ceiling.{IsOrdered, published_lem, track_idle-IsOrdered}

or_else-none {ℓ} : {A : Type ℓ} (r : Option A) → or_else r none ≡ r
or_else-none none = refl
or_else-none (some a) = refl

module _ {I P : Type 0} ⦃i : Ord I⦄ ⦃p : Ord P⦄ where
  -- What every proxy becomes when some grant changed.
  abbrev pub changes : State I P → State I P → P → ProxyState (Slot I) → ProxyState (Slot I)
  changes before after proxy state =
      publish_to (after.generation + 1) (published before proxy) (published after proxy) state

  abbrev pub published_anew : State I P → State I P → State I P
  published_anew before after = record after {
    generation = after.generation + 1;
    proxies = map_values (changes before after) after.proxies;
  }

  pub publish_cases {ℓ} :
      (C : State I P → Type ℓ) (before after : State I P)
      → (all_equal before after after.proxies ≡ true → C after)
      → C (published_anew before after)
      → C (publish before after)
  unfolding publish
  publish_cases C before after same other =
      elim (Bool-cases (all_equal before after after.proxies)) [
        | inl e ↦ rw (e, publish) (same e)
        | inr e ↦ rw (e, publish) other
      ]

  pub all_equal-at :
      (before after : State I P) (proxies : Map P (ProxyState (Slot I))) (proxy : P)
      (state : ProxyState (Slot I))
      → all_equal before after proxies ≡ true
      → lookup proxy proxies ≡ some state
      → equal_maps ◌==◌ (published before proxy) (published after proxy) ≡ true
  unfolding all_equal lookup
  all_equal-at before after [] proxy state e h = ground arith
  all_equal-at before after ((q, other) ∷ proxies) proxy state e h =
      ground (arith, all_equal-at before after proxies proxy state, p.exact q proxy)

  module _ (allocator : ℕ → List (Claim TenantId) → Grants TenantId) (release_delay : ℕ) where
    entry_at :
        (s : State I P) (instance_id : I)
        → IsSorted s.budgets
        → lookup instance_id (desired_state allocator release_delay s)
          ≡ map_found
              (desired_on allocator release_delay s instance_id)
              (lookup instance_id s.budgets)
    unfolding lookup
    entry_at s instance_id o =
        let change = desired_on allocator release_delay s in
        lookup-install instance_id (map_values change s.budgets) []
          (map_values-IsSorted change s.budgets o)
        ∙ ap (λ r. or_else r none) (lookup-map_values change instance_id s.budgets)
        ∙ or_else-none (map_found (change instance_id) (lookup instance_id s.budgets))

    -- What an accepted entry leaves of an instance.
    abbrev pub installed_at : State I P → I → Option (Desired (TenantId × P))
    installed_at s instance_id =
        or_else
          (map_found (desired_on allocator release_delay s instance_id)
            (lookup instance_id s.budgets))
          (lookup instance_id s.table.instances)

    -- The table that an accepted entry leaves.
    abbrev pub Installs : State I P → AllocationTable I (TenantId × P) → Type 0
    Installs s table =
        IsSorted table.instances
        × ((instance_id : I) → lookup instance_id table.instances ≡ installed_at s instance_id)

    pub reconcile_cases {ℓ} :
        (C : State I P × Option (PreconditionError I) → Type ℓ) (s : State I P)
        → IsOrdered s
        → ((e : PreconditionError I) → C (track_idle s, some e))
        → ((table : AllocationTable I (TenantId × P))
            → Installs (track_idle s) table
            → C (publish (track_idle s) (record (track_idle s) { table = table }), none))
        → C (reconcile allocator release_delay s)
    unfolding reconcile
    reconcile_cases C s o rejected accepted =
        let tracked = track_idle s in
        let entry = desired_state allocator release_delay tracked in
        let o' = track_idle-IsOrdered s o in
        let sorted : IsSorted entry =
          install-IsSorted (map_values (desired_on allocator release_delay tracked) tracked.budgets)
            [] tt in
        apply_cases
          (λ r. C (elim r.1 [
            | some e ↦ (tracked, some e)
            | none ↦ (publish tracked (record tracked { table = r.0 }), none)
          ]))
          tracked.table entry (λ error e. rejected error)
          (λ e.
            accepted (record { instances = install entry tracked.table.instances })
              (
                install-IsSorted entry tracked.table.instances o'.3,
                λ instance_id.
                    lookup-install instance_id entry tracked.table.instances sorted
                    ∙ ap (λ r. or_else r (lookup instance_id tracked.table.instances))
                        (entry_at tracked instance_id o'.2),
              ))

  -- What a round that changes grants does to one slot of one proxy.
  pub changes_lem :
      (s : State I P) (table : AllocationTable I (TenantId × P)) (proxy : P)
      (state : ProxyState (Slot I)) (instance_id : I) (tenant : TenantId)
      → IsSorted s.table.instances
      → IsSorted table.instances
      → IsSorted state.held
      → at_slot instance_id (changes s (record s { table = table }) proxy state).held tenant ≡ (
          if granted_at s instance_id tenant proxy == granted_in table instance_id (tenant, proxy)
          then at_slot instance_id state.held tenant
          else max
              (at_slot instance_id state.held tenant)
              (granted_in table instance_id (tenant, proxy)))
  changes_lem s table proxy state instance_id tenant before after held =
      let lem =
        publish_to_lem (s.generation + 1) (published s proxy)
          (published (record s { table = table }) proxy) state (instance_id, tenant) held in
      lem
      ∙ rw
          (
            published_lem s proxy instance_id tenant before,
            published_lem (record s { table = table }) proxy instance_id tenant after,
          )
          refl
