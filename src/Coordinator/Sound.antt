-- ===== src/Coordinator/Sound.antt =====
-- That the coordinator of crates/core/src/grant.rs and its proxies agree after every change of the
-- coordinator's state.
use pg_steward.Base.Order.{Ord, pair_ord, text_ord}
use pg_steward.Base.Map.{lookup, IsSorted, values-All}
use pg_steward.Base.{
  ℕ, ◌+◌, ◌≡◌, sym, ap, subst, ◌∙◌, inl, inr, true, none, List, get_or, arith, Option-cases,
}
use pg_steward.Sched.{Claim, Grants}
use pg_steward.Allocation.{AllocationTable, granted_in}
use pg_steward.Policy.{TenantId, tenant_ord}
use pg_steward.Coordinator.{slots_of, Slot, State, new_proxy, proxy_of, published, granted_at}
use pg_steward.Coordinator.Publish.{track_idle, all_equal, reconcile}
use pg_steward.Coordinator.Holding.{equal_maps-lookup}
use pg_steward.Coordinator.Room.{IsCovered}
use pg_steward.Coordinator.Ceiling.{
  IsOrdered, published_lem, track_idle_cases, at_change, track_idle-IsOrdered,
}
use pg_steward.Coordinator.Reconcile.{
  changes, published_anew, publish_cases, all_equal-at, Installs, reconcile_cases,
}
use pg_steward.Coordinator.Rounds.{IsSteady}
use pg_steward.Coordinator.Steady.{unknown_none, reconcile-IsSteady}
use pg_steward.Coordinator.World.{Agent}
use pg_steward.Coordinator.Kept.{IsKept, same_state-IsKept, same_granted-IsKept, publish_to-IsKept}

module _ {I P : Type 0} ⦃i : Ord I⦄ ⦃p : Ord P⦄ where
  abbrev pub granted_to : State I P → P → I → TenantId → ℕ
  granted_to s proxy instance_id tenant = granted_at s instance_id tenant proxy

  abbrev pub Agrees : State I P → (P → Agent (Slot I)) → Type 0
  Agrees s agents =
      (proxy : P) → IsKept (granted_to s proxy) s.generation (proxy_of s proxy) (agents proxy)

  abbrev pub IsSound : State I P → (P → Agent (Slot I)) → Type 0
  IsSound s agents = IsOrdered s × Agrees s agents

  pub Agrees-IsCovered :
      (s : State I P) (agents : P → Agent (Slot I)) → Agrees s agents → IsCovered s
  Agrees-IsCovered s agents a proxy instance_id stays tenant =
      ((a proxy).honoured stays instance_id tenant).covered

  track_idle-IsSound :
      (s : State I P) (agents : P → Agent (Slot I))
      → IsSound s agents
      → IsSound (track_idle s) agents
  track_idle-IsSound s agents (o, a) = (
    track_idle-IsOrdered s o,
    track_idle_cases (λ t. Agrees t agents) s a
        λ change h d g proxy.
          at_change
            (λ before after.
              IsKept (granted_to s proxy) s.generation before (agents proxy)
              → IsKept (granted_to s proxy) s.generation after (agents proxy))
            change s.proxies proxy (λ e k. k)
            (λ state e.
              same_state-IsKept (granted_to s proxy) s.generation state (change proxy state)
                (agents proxy) (h proxy state) (d proxy state) (g proxy state))
            (a proxy),
  )

  module _ (allocator : ℕ → List (Claim TenantId) → Grants TenantId) (release_delay : ℕ) where
    module _ (s : State I P) (agents : P → Agent (Slot I)) (sound : IsSound s agents)
        (table : AllocationTable I (TenantId × P))
        (installs : Installs allocator release_delay s table) where
      IsSound-IsSteady : IsSteady s
      IsSound-IsSteady = (sound.0, Agrees-IsCovered s agents sound.1)

      unknown_same :
          (proxy : P)
          → lookup proxy s.proxies ≡ none
          → (instance_id : I) (tenant : TenantId)
          → granted_to s proxy instance_id tenant ≡ granted_in table instance_id (tenant, proxy)
      unfolding lookup
      unknown_same proxy e instance_id tenant =
          let now =
            unknown_none allocator release_delay s table instance_id tenant proxy IsSound-IsSteady
              installs e in
          let was =
            subst
              (λ r.
                slots_of (get_or new_proxy r).grants (instance_id, tenant)
                ≡ granted_to s proxy instance_id tenant)
              e ((sound.1 proxy).sent instance_id tenant) in
          omega (arith, now, was)

      same-Agrees :
          all_equal s (record s { table = table }) s.proxies ≡ true
          → Agrees (record s { table = table }) agents
      same-Agrees e proxy =
          let after : State I P = record s { table = table } in
          let same : (instance_id : I) (tenant : TenantId)
              → granted_to s proxy instance_id tenant ≡ granted_to after proxy instance_id tenant =
            λ instance_id tenant. elim (Option-cases (lookup proxy s.proxies)) [
              | inl unknown ↦ unknown_same proxy unknown instance_id tenant
              | inr (state, known) ↦
                  sym (published_lem s proxy instance_id tenant sound.0.3)
                  ∙ ap (get_or 0) (
                      equal_maps-lookup (published s proxy) (published after proxy)
                        (instance_id, tenant) (all_equal-at s after s.proxies proxy state e known))
                  ∙ published_lem after proxy instance_id tenant installs.0
            ] in
          let kept =
            same_granted-IsKept (granted_to s proxy) (granted_to after proxy) s.generation 0
              (proxy_of s proxy) (agents proxy) same (sound.1 proxy) in
          subst (λ n. IsKept (granted_to after proxy) n (proxy_of s proxy) (agents proxy))
            (omega arith) kept

      anew-Agrees : Agrees (published_anew s (record s { table = table })) agents
      anew-Agrees proxy =
          let after : State I P = record s { table = table } in
          at_change
            (λ before state.
              IsKept (granted_to s proxy) s.generation before (agents proxy)
              → IsKept (granted_to after proxy) (s.generation + 1) state (agents proxy))
            (changes s after) s.proxies proxy
            (λ unknown.
              same_granted-IsKept (granted_to s proxy) (granted_to after proxy) s.generation 1
                new_proxy (agents proxy) (unknown_same proxy unknown))
            (λ state known.
              publish_to-IsKept (granted_to s proxy) (granted_to after proxy) s.generation
                (published s proxy) (published after proxy) state (agents proxy)
                (values-All (λ state. IsSorted state.held) proxy s.proxies state known sound.0.1)
                (λ instance_id tenant. published_lem s proxy instance_id tenant sound.0.3)
                (λ instance_id tenant. published_lem after proxy instance_id tenant installs.0))
            (sound.1 proxy)

    pub reconcile-IsSound :
        (s : State I P) (agents : P → Agent (Slot I))
        → IsSound s agents
        → IsSound (reconcile allocator release_delay s).0 agents
    reconcile-IsSound s agents sound =
        let tracked = track_idle s in
        let sound' = track_idle-IsSound s agents sound in
        let steady =
          reconcile-IsSteady allocator release_delay s
            (sound.0, Agrees-IsCovered s agents sound.1) in
        (
          steady.0,
          reconcile_cases allocator release_delay (λ r. Agrees r.0 agents) s sound.0 (λ e. sound'.1)
              (λ table installs.
                let after : State I P = record tracked { table = table } in
                publish_cases (λ r. Agrees r agents) tracked after
                  (same-Agrees tracked agents sound' table installs)
                  (anew-Agrees tracked agents sound' table installs)),
        )
