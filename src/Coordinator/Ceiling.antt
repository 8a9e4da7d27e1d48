-- ===== src/Coordinator/Ceiling.antt =====
-- That `reconcile` of crates/core/src/grant.rs leaves no instance with more slots that may be occupied
-- than it had or than its budget, and keeps the state in order.
use pg_steward.Base.Order.{Ord, pair_ord, text_ord}
use pg_steward.Base.Map.{Map, lookup, map_values, IsSorted, map_values-IsSorted, lookup-map_values}
use pg_steward.Base.Sums.{total-map, total-append}
use pg_steward.Base.{
  ℕ, ◌+◌, ◌≤◌, ◌≡◌, refl, sym, ap, subst, ◌∙◌, inl, inr, false, none, some, [], ◌∷◌, map, get_or,
  arith, Option-cases, All, All-imp, total,
}
use pg_steward.Allocation.Published.{lookup-grants_for}
use pg_steward.Policy.{TenantId, tenant_ord}
use pg_steward.Coordinator.{
  Slot, ProxyState, State, new_proxy, keys, occupied, published, granted_at,
}
use pg_steward.Coordinator.Claims.{tenants_on}
use pg_steward.Coordinator.Publish.{track_proxy, track_idle}
use pg_steward.Coordinator.Holding.{slots_in}
use pg_steward.Coordinator.Room.{IsCovered}
use pg_steward.Coordinator.Total.{
  held_total, all_total, at_slot, held_total_mono, pairs_on, name_at,
}

module _ {I P : Type 0} ⦃i : Ord I⦄ ⦃p : Ord P⦄ where
  -- What a change of every proxy adds to the slots held on an instance.
  pub all_total_mono :
      (instance_id : I) (change : P → ProxyState (Slot I) → ProxyState (Slot I))
      (more : TenantId × P → ℕ) (proxies : Map P (ProxyState (Slot I)))
      → All
          (λ d.
            IsSorted (change d.0 d.1).held
            × ((tenant : TenantId)
                → at_slot instance_id (change d.0 d.1).held tenant
                  ≤ at_slot instance_id d.1.held tenant + more (tenant, d.0)))
          proxies
      → all_total instance_id (map_values change proxies)
        ≤ all_total instance_id proxies
          + total more (pairs_on instance_id (map_values change proxies))
  unfolding map_values
  all_total_mono instance_id change more [] h = omega arith
  all_total_mono instance_id change more ((proxy, state) ∷ proxies) ((s, h), hs) =
      let tenants = tenants_on instance_id (keys (change proxy state).held) in
      let others = pairs_on instance_id (map_values change proxies) in
      omega (
        arith,
        all_total_mono instance_id change more proxies hs,
        held_total_mono instance_id state.held (change proxy state).held (λ t. more (t, proxy)) s h,
        total-append more (map (name_at instance_id proxy) tenants) others,
        total-map more (name_at instance_id proxy) tenants,
      )

  -- The state's maps are in the order of their keys.
  abbrev pub IsOrdered : State I P → Type 0
  IsOrdered s =
      IsSorted s.proxies
      × All (λ d. IsSorted d.1.held) s.proxies
      × IsSorted s.budgets
      × IsSorted s.table.instances

  pub published_lem :
      (s : State I P) (proxy : P) (instance_id : I) (tenant : TenantId)
      → IsSorted s.table.instances
      → slots_in (published s proxy) (instance_id, tenant) ≡ granted_at s instance_id tenant proxy
  published_lem s proxy instance_id tenant sorted =
      ap (get_or 0) (lookup-grants_for s.table proxy instance_id tenant sorted)
      ∙ elim (Option-cases (lookup instance_id s.table.instances)) [
        | inl e ↦ rw e refl
        | inr (d, e) ↦ rw e refl
      ]

  pub track_idle_cases {ℓ} :
      (C : State I P → Type ℓ) (s : State I P)
      → C s
      → ((change : P → ProxyState (Slot I) → ProxyState (Slot I))
          → ((proxy : P) (state : ProxyState (Slot I)) → (change proxy state).held ≡ state.held)
          → ((proxy : P) (state : ProxyState (Slot I))
              → (change proxy state).departed ≡ state.departed)
          → ((proxy : P) (state : ProxyState (Slot I)) → (change proxy state).grants ≡ state.grants)
          → C (record s { proxies = map_values change s.proxies }))
      → C (track_idle s)
  unfolding track_idle
  track_idle_cases C s idle tracked =
      elim s.now
        as (λ n. C (elim n [
          | none ↦ s
          | some now ↦ record s {
            proxies =
                map_values (λ proxy state. track_proxy now (published s proxy) state) s.proxies;
          }
        ])) [
          | none ↦ idle
          | some now ↦
              tracked (λ proxy state. track_proxy now (published s proxy) state)
                (λ proxy state. refl) (λ proxy state. refl) (λ proxy state. refl)
        ]

  same_total :
      (instance_id : I) (change : P → ProxyState (Slot I) → ProxyState (Slot I))
      (proxies : Map P (ProxyState (Slot I)))
      → ((proxy : P) (state : ProxyState (Slot I)) → (change proxy state).held ≡ state.held)
      → all_total instance_id (map_values change proxies) ≡ all_total instance_id proxies
  unfolding map_values
  same_total instance_id change [] h = refl
  same_total instance_id change ((proxy, state) ∷ proxies) h =
      omega (
        arith,
        ap (held_total instance_id) (h proxy state),
        same_total instance_id change proxies h,
      )

  pub All-map_values {ℓ} :
      (Q : P × ProxyState (Slot I) → Type ℓ)
      (change : P → ProxyState (Slot I) → ProxyState (Slot I))
      (proxies : Map P (ProxyState (Slot I)))
      → All (λ d. Q (d.0, change d.0 d.1)) proxies
      → All Q (map_values change proxies)
  unfolding map_values
  All-map_values Q change [] h = tt
  All-map_values Q change (d ∷ proxies) (h, hs) = (h, All-map_values Q change proxies hs)

  -- What each proxy becomes, whether the coordinator knows it or not.
  pub at_change {ℓ} :
      (Q : ProxyState (Slot I) → ProxyState (Slot I) → Type ℓ)
      (change : P → ProxyState (Slot I) → ProxyState (Slot I))
      (proxies : Map P (ProxyState (Slot I))) (proxy : P)
      → (lookup proxy proxies ≡ none → Q new_proxy new_proxy)
      → ((state : ProxyState (Slot I))
          → lookup proxy proxies ≡ some state
          → Q state (change proxy state))
      → Q
          (get_or new_proxy (lookup proxy proxies))
          (get_or new_proxy (lookup proxy (map_values change proxies)))
  at_change Q change proxies proxy unknown known =
      rw (lookup-map_values change proxy proxies) (elim (Option-cases (lookup proxy proxies)) [
        | inl e ↦ rw e (unknown e)
        | inr (state, e) ↦ rw e (known state e)
      ])

  -- `track_idle` touches neither what is held nor who departed.
  pub track_idle-total :
      (s : State I P) (instance_id : I)
      → all_total instance_id (track_idle s).proxies ≡ all_total instance_id s.proxies
  track_idle-total s instance_id =
      track_idle_cases (λ t. all_total instance_id t.proxies ≡ all_total instance_id s.proxies) s
        refl λ change h d g. same_total instance_id change s.proxies h

  pub track_idle-IsOrdered : (s : State I P) → IsOrdered s → IsOrdered (track_idle s)
  track_idle-IsOrdered s o = track_idle_cases IsOrdered s o λ change h d g. (
    map_values-IsSorted change s.proxies o.0,
    All-map_values (λ e. IsSorted e.1.held) change s.proxies
        (All-imp (λ e t. subst IsSorted (sym (h e.0 e.1)) t) s.proxies o.1),
    o.2,
    o.3,
  )

  pub track_idle-IsCovered : (s : State I P) → IsCovered s → IsCovered (track_idle s)
  track_idle-IsCovered s c =
      track_idle_cases IsCovered s c λ change h d g proxy instance_id stays tenant.
        at_change
          (λ before after.
            (before.departed ≡ false
              → granted_at s instance_id tenant proxy ≤ occupied before (instance_id, tenant))
            → after.departed ≡ false
            → granted_at s instance_id tenant proxy ≤ occupied after (instance_id, tenant))
          change s.proxies proxy (λ e covers. covers)
          (λ state e covers stays. rw (h proxy state) (covers (sym (d proxy state) ∙ stays)))
          (λ stays. c proxy instance_id stays tenant) stays
