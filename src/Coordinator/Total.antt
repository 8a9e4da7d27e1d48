-- ===== src/Coordinator/Total.antt =====
-- `occupied_on` of crates/core/src/grant.rs as a sum over the tenants that each proxy holds.
use pg_steward.Base.Order.{Ord, ◌≟◌, ◌≺◌, pair_ord, cmp_self, text_ord}
use pg_steward.Base.Map.{Map, lookup, IsSorted, entries_read}
use pg_steward.Base.Sums.{
  Once, total_mono, total_add, weight_at, total-weight_at, is_eq-true, total-map, Once-map,
  Once-append, All-append, All-map,
}
use pg_steward.Base.{
  ℕ, ◌+◌, ◌≤◌, ◌≡◌, refl, ap, subst, ◌∙◌, inl, inr, true, some, List, [], ◌∷◌, ◌++◌, map,
  if◌then◌else◌, arith, Bool-cases, Option-cases, All, total, saturate, saturating_add, u32_max,
}
use pg_steward.Policy.{TenantId, tenant_ord}
use pg_steward.Coordinator.{
  Slot, Held, ProxyState, State, keys, occupied_of, held_on, fold_occupied, occupied_from,
  occupied_on,
}
use pg_steward.Coordinator.Claims.{tenants_on}

module _ {I : Type 0} ⦃i : Ord I⦄ (instance_id : I) where
  abbrev pub held_total : Map (Slot I) Held → ℕ
  held_total held = total (held_on instance_id) held

  abbrev pub all_total : {P : Type 0} → Map P (ProxyState (Slot I)) → ℕ
  all_total proxies = total (λ e. held_total e.1.held) proxies

  fold_occupied_lem :
      (held : Map (Slot I) Held) (sum : ℕ)
      → sum ≤ u32_max
      → fold_occupied instance_id held sum ≡ saturate (sum + held_total held)
  unfolding fold_occupied
  fold_occupied_lem [] sum h = ground arith
  fold_occupied_lem ((slot, h) ∷ held) sum le =
      let next = if slot.0 ≟ instance_id then saturating_add sum h.occupied else sum in
      let fits : next ≤ u32_max = ground arith in fold_occupied_lem held next fits ∙ ground arith

  occupied_from_lem :
      {P : Type 0} ⦃p : Ord P⦄ (proxies : Map P (ProxyState (Slot I))) (sum : ℕ)
      → sum ≤ u32_max
      → occupied_from instance_id proxies sum ≡ saturate (sum + all_total proxies)
  unfolding occupied_from
  occupied_from_lem [] sum h = ground arith
  occupied_from_lem ((proxy, state) ∷ proxies) sum h =
      let folded = fold_occupied_lem state.held sum h in
      let next = fold_occupied instance_id state.held sum in
      let fits : next ≤ u32_max = omega (arith, folded) in
      occupied_from_lem proxies next fits ∙ omega (arith, folded)

  pub occupied_on_lem :
      {P : Type 0} ⦃p : Ord P⦄ (s : State I P)
      → occupied_on s instance_id ≡ saturate (all_total s.proxies)
  occupied_on_lem s = occupied_from_lem s.proxies 0 (ground arith) ∙ omega arith

  abbrev pub at_slot : Map (Slot I) Held → TenantId → ℕ
  at_slot held tenant = occupied_of (lookup (instance_id, tenant) held)

  below_ne :
      (a b : Slot I) → a ≺ b → a.0 ≟ instance_id ≡ true → b.0 ≟ instance_id ≡ true → ¬ (a.1 ≡ b.1)
  below_ne a b h x y same = ground (
    arith,
    i.exact a.0 instance_id,
    i.exact b.0 instance_id,
    i.exact a.0 b.0,
    cmp_self a.0,
    cmp_self a.1,
  )

  tenants-above :
      (slot : Slot I) (held : Map (Slot I) Held)
      → slot.0 ≟ instance_id ≡ true
      → All (λ d. slot ≺ d.0) held
      → All (λ t. ¬ (slot.1 ≡ t)) (tenants_on instance_id (keys held))
  tenants-above slot [] at_ a = tt
  tenants-above slot ((slot', h) ∷ held) at_ (a, as_) = elim (Bool-cases (slot'.0 ≟ instance_id)) [
    | inl hit ↦ rw hit (below_ne slot slot' a at_ hit, tenants-above slot held at_ as_)
    | inr miss ↦ rw miss (tenants-above slot held at_ as_)
  ]

  pub tenants-Once :
      (held : Map (Slot I) Held) → IsSorted held → Once (tenants_on instance_id (keys held))
  tenants-Once [] s = tt
  tenants-Once ((slot, h) ∷ held) (a, s) = elim (Bool-cases (slot.0 ≟ instance_id)) [
    | inl hit ↦ rw hit (tenants-above slot held hit a, tenants-Once held s)
    | inr miss ↦ rw miss (tenants-Once held s)
  ]

  held_total_lem :
      (whole held : Map (Slot I) Held)
      → All (λ d. lookup d.0 whole ≡ some d.1) held
      → held_total held ≡ total (at_slot whole) (tenants_on instance_id (keys held))
  held_total_lem whole [] a = refl
  held_total_lem whole ((slot, h) ∷ held) (a, as_) = elim (Bool-cases (slot.0 ≟ instance_id)) [
    | inl hit ↦
        let here : slot.0 ≡ instance_id =
          i.exact slot.0 instance_id (is_eq-true (i.cmp slot.0 instance_id) hit) in
        let reads : at_slot whole slot.1 ≡ h.occupied =
          subst (λ at_. occupied_of (lookup (at_, slot.1) whole) ≡ h.occupied) here
            (ap occupied_of a) in
        rw hit (omega (arith, reads, held_total_lem whole held as_))
    | inr miss ↦ rw miss (omega (arith, held_total_lem whole held as_))
  ]

  at_slot_lem :
      (held : Map (Slot I) Held) (tenant : TenantId)
      → weight_at
          (λ slot h. held_on instance_id (slot, h))
          (instance_id, tenant)
          (lookup (instance_id, tenant) held)
        ≡ at_slot held tenant
  at_slot_lem held tenant = elim (Option-cases (lookup (instance_id, tenant) held)) [
    | inl e ↦ rw e refl
    | inr (h, e) ↦ rw e (ground (arith, cmp_self instance_id))
  ]

  pub total-at_slot :
      (held : Map (Slot I) Held) (tenants : List TenantId)
      → Once tenants
      → total (at_slot held) tenants ≤ held_total held
  total-at_slot held tenants d =
      let name : TenantId → Slot I = λ t. (instance_id, t) in
      let weight : Slot I → Held → ℕ = λ slot h. held_on instance_id (slot, h) in
      let sums =
        total-weight_at weight (map name tenants) held
          (Once-map name (λ a b e. ap (λ q. q.1) e) tenants d) in
      let each =
        total_mono (at_slot held) (λ t. weight_at weight (name t) (lookup (name t) held))
          (λ t. omega (arith, at_slot_lem held t)) tenants in
      omega (arith, sums, each, total-map (λ q. weight_at weight q (lookup q held)) name tenants)

  -- What slots come to once each has risen by some amount.
  pub held_total_mono :
      (held held' : Map (Slot I) Held) (more : TenantId → ℕ)
      → IsSorted held'
      → ((tenant : TenantId) → at_slot held' tenant ≤ at_slot held tenant + more tenant)
      → held_total held' ≤ held_total held + total more (tenants_on instance_id (keys held'))
  held_total_mono held held' more s h =
      let tenants = tenants_on instance_id (keys held') in
      omega (
        arith,
        held_total_lem held' held' (entries_read held' s),
        total_mono (at_slot held') (λ t. at_slot held t + more t) h tenants,
        total_add (at_slot held) more tenants,
        total-at_slot held tenants (tenants-Once held' s),
      )

-- Every tenant of every proxy, under both names.
module _ {I P : Type 0} ⦃i : Ord I⦄ (instance_id : I) where
  abbrev pub name_at : P → TenantId → TenantId × P
  name_at proxy tenant = (tenant, proxy)

  abbrev pub pairs_on : Map P (ProxyState (Slot I)) → List (TenantId × P)
  pairs_on [] = []
  pairs_on ((proxy, state) ∷ proxies) =
      map (name_at proxy) (tenants_on instance_id (keys state.held)) ++ pairs_on proxies

  other_proxy :
      ⦃p : Ord P⦄ (proxy : P) (tenant : TenantId) (other : P) (tenants : List TenantId)
      → proxy ≺ other
      → All (λ q. ¬ (name_at proxy tenant ≡ q)) (map (name_at other) tenants)
  other_proxy proxy tenant other [] h = tt
  other_proxy ⦃p⦄ proxy tenant other (t ∷ ts) h = (
    λ e. let here : proxy ≡ other = ap (λ q. q.1) e in ground (arith, cmp_self proxy),
    other_proxy proxy tenant other ts h,
  )

  pairs-above :
      ⦃p : Ord P⦄ (proxy : P) (tenant : TenantId) (proxies : Map P (ProxyState (Slot I)))
      → All (λ d. proxy ≺ d.0) proxies
      → All (λ q. ¬ (name_at proxy tenant ≡ q)) (pairs_on proxies)
  pairs-above proxy tenant [] a = tt
  pairs-above proxy tenant ((other, state) ∷ proxies) (a, as_) =
      All-append (λ q. ¬ (name_at proxy tenant ≡ q))
        (map (name_at other) (tenants_on instance_id (keys state.held))) (pairs_on proxies)
        (other_proxy proxy tenant other _ a) (pairs-above proxy tenant proxies as_)

  pub pairs-Once :
      ⦃p : Ord P⦄ (proxies : Map P (ProxyState (Slot I)))
      → IsSorted proxies
      → All (λ d. IsSorted d.1.held) proxies
      → Once (pairs_on proxies)
  pairs-Once [] s h = tt
  pairs-Once ((proxy, state) ∷ proxies) (a, s) (h, hs) =
      let tenants = tenants_on instance_id (keys state.held) in
      Once-append (map (name_at proxy) tenants) (pairs_on proxies)
        (Once-map (name_at proxy) (λ a b e. ap (λ q. q.0) e) tenants
          (tenants-Once instance_id state.held h))
        (pairs-Once proxies s hs)
        (All-map (λ q. All (λ r. ¬ (q ≡ r)) (pairs_on proxies)) (name_at proxy)
          (λ tenant. pairs-above proxy tenant proxies a) tenants)
