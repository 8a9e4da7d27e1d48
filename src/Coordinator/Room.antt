-- ===== src/Coordinator/Room.antt =====
-- Why the grants of `desired_state` in crates/core/src/grant.rs fit: what they add to the slots that
-- may already be occupied comes out of `available`.
use pg_steward.Base.Order.{Ord, ◌≟◌, pair_ord, text_ord}
use pg_steward.Base.Map.{Map, lookup, insert, IsSorted, All-insert, entries_read}
use pg_steward.Base.Sums.{weigh, weigh-insert, weigh-remove}
use pg_steward.Base.{
  ℕ, ◌+◌, ◌-◌, ◌≤◌, ◌≡◌, sym, subst, inl, inr, min, false, List, [], ◌∷◌, ◌++◌, map, if◌then◌else◌,
  leb, get_or, arith, Bool-cases, All, All-imp,
}
use pg_steward.Sched.{Claim, Grants, get}
use pg_steward.Sched.Split.{split}
use pg_steward.Budget.{InstanceBudget}
use pg_steward.Allocation.{Desired, new_desired, grant}
use pg_steward.Policy.{TenantId, tenant_ord}
use pg_steward.Coordinator.{
  Slot, ProxyState, State, new_proxy, keys, set_of, occupied, proxy_of, occupied_on, granted_at,
}
use pg_steward.Coordinator.Claims.{tenants_on, add_holder, holders_from, holders_on, claims}
use pg_steward.Coordinator.Plan.{
  Plan, share_of, grant_share, grant_shares, grant_tenants, desired_on,
}

module _ {H : Type 0} ⦃o : Ord H⦄ where
  weigh-grant :
      (f : H → ℕ → ℕ) (d : Desired H) (holder : H) (slots : ℕ)
      → weigh f (grant d holder slots).granted ≤ weigh f d.granted + f holder slots
  unfolding grant
  weigh-grant f d holder slots =
      ground (arith, weigh-insert f holder slots d.granted, weigh-remove f holder d.granted)

module _ {I P : Type 0} ⦃i : Ord I⦄ ⦃p : Ord P⦄ (s : State I P) (instance_id : I) where
  -- What a grant lets its holder open on top of what it may occupy already.
  abbrev pub excess : TenantId × P → ℕ → ℕ
  excess (tenant, proxy) slots = slots - occupied (proxy_of s proxy) (instance_id, tenant)

  -- The grants of a plan and the room it has left.
  abbrev pub spent : Plan P → ℕ
  spent plan = weigh excess plan.desired.granted + plan.available

  -- What a proxy is granted now is among what it may occupy.
  abbrev pub Covers : P → Type 0
  Covers proxy =
      (tenant : TenantId)
      → granted_at s instance_id tenant proxy ≤ occupied (proxy_of s proxy) (instance_id, tenant)

  granting_lem :
      (target before current available : ℕ)
      → current ≤ before
      → (if leb target current then target else min target (before + available))
          - before
          + (if leb target current
              then available
              else available
                - ((if leb target current then target else min target (before + available))
                    - before))
        ≤ available
  granting_lem target before current available h = ground arith

  grant_share-spent :
      (tenant : TenantId) (targets : Map P ℕ) (proxy : P) (plan : Plan P)
      → Covers proxy
      → spent (grant_share s instance_id tenant targets (share_of s instance_id tenant proxy) plan)
        ≤ spent plan
  unfolding grant_share
  grant_share-spent tenant targets proxy plan c =
      let target = get_or 0 (lookup proxy targets) in
      let before = occupied (proxy_of s proxy) (instance_id, tenant) in
      let current = granted_at s instance_id tenant proxy in
      let granted = if leb target current then target else min target (before + plan.available) in
      omega (
        arith,
        weigh-grant excess plan.desired (tenant, proxy) granted,
        granting_lem target before current plan.available (c tenant),
      )

  grant_shares-spent :
      (tenant : TenantId) (targets : Map P ℕ) (proxies : List P) (plan : Plan P)
      → All Covers proxies
      → spent (
          grant_shares s instance_id tenant targets
            (map (share_of s instance_id tenant) proxies)
            plan)
        ≤ spent plan
  unfolding grant_shares
  grant_shares-spent tenant targets [] plan c = omega arith
  grant_shares-spent tenant targets (proxy ∷ proxies) plan (c, cs) =
      let next =
        grant_share s instance_id tenant targets (share_of s instance_id tenant proxy) plan in
      omega (
        arith,
        grant_share-spent tenant targets proxy plan c,
        grant_shares-spent tenant targets proxies next cs,
      )

  grant_tenants-spent :
      (targets : Grants TenantId) (holders : Map TenantId (List P)) (plan : Plan P)
      → All (λ h. All Covers h.1) holders
      → spent (grant_tenants s instance_id targets holders plan) ≤ spent plan
  unfolding grant_tenants
  grant_tenants-spent targets [] plan c = omega arith
  grant_tenants-spent targets ((tenant, proxies) ∷ holders) plan (c, cs) =
      let shares = map (share_of s instance_id tenant) proxies in
      let splits = split (get targets tenant) shares in
      omega (
        arith,
        grant_shares-spent tenant splits proxies plan c,
        grant_tenants-spent targets holders (grant_shares s instance_id tenant splits shares plan)
            cs,
      )

-- The holders of an instance are proxies that have not departed.
module _ {ℓ} {P : Type 0} (Good : P → Type ℓ) where
  abbrev pub AllHolders : Map TenantId (List P) → Type ℓ
  AllHolders holders = All (λ h. All Good h.1) holders

  All-append : (ps : List P) (proxy : P) → All Good ps → Good proxy → All Good (ps ++ proxy ∷ [])
  All-append [] proxy a g = (g, tt)
  All-append (q ∷ ps) proxy (a, as_) g = (a, All-append ps proxy as_ g)

  known_holders :
      (tenant : TenantId) (holders : Map TenantId (List P))
      → AllHolders holders
      → All Good (get_or [] (lookup tenant holders))
  unfolding lookup
  known_holders tenant [] a = tt
  known_holders tenant ((k, ps) ∷ holders) (a, as_) = elim (Bool-cases (k ≟ tenant)) [
    | inl hit ↦ rw hit a
    | inr miss ↦ rw miss (known_holders tenant holders as_)
  ]

  add_holder-AllHolders :
      (proxy : P) (tenants : List TenantId) (holders : Map TenantId (List P))
      → Good proxy
      → AllHolders holders
      → AllHolders (add_holder proxy tenants holders)
  add_holder-AllHolders proxy [] holders g a = a
  add_holder-AllHolders proxy (tenant ∷ tenants) holders g a =
      let before = get_or [] (lookup tenant holders) in
      add_holder-AllHolders proxy tenants (insert tenant (before ++ proxy ∷ []) holders) g (
        All-insert (λ h. All Good h.1) tenant (before ++ proxy ∷ []) holders
          (All-append before proxy (known_holders tenant holders a) g) a)

module _ {ℓ} {I P : Type 0} ⦃i : Ord I⦄ ⦃p : Ord P⦄ (Good : P → Type ℓ) where
  pub holders_from-AllHolders :
      (instance_id : I) (proxies : Map P (ProxyState (Slot I))) (holders : Map TenantId (List P))
      → All (λ e. e.1.departed ≡ false → Good e.0) proxies
      → AllHolders Good holders
      → AllHolders Good (holders_from instance_id proxies holders)
  unfolding holders_from
  holders_from-AllHolders instance_id [] holders g a = a
  holders_from-AllHolders instance_id ((proxy, state) ∷ proxies) holders (g, gs) a =
      elim (Bool-cases state.departed) [
        | inl gone ↦ rw gone (holders_from-AllHolders instance_id proxies holders gs a)
        | inr stays ↦
            let tenants =
              keys (set_of (tenants_on instance_id (keys state.demand ++ keys state.held))) in
            rw stays (
              holders_from-AllHolders instance_id proxies (add_holder proxy tenants holders) gs
                (add_holder-AllHolders Good proxy tenants holders (g stays) a))
      ]

module _ {I P : Type 0} ⦃i : Ord I⦄ ⦃p : Ord P⦄ where
  -- Proxies that have not departed may occupy what they are granted.
  abbrev pub IsCovered : State I P → Type 0
  IsCovered s =
      (proxy : P) (instance_id : I)
      → (proxy_of s proxy).departed ≡ false
      → Covers s instance_id proxy

  module _ (allocator : ℕ → List (Claim TenantId) → Grants TenantId) (release_delay : ℕ) where
    -- For proxies in order that may occupy at least what they are granted: what the desired
    -- grants of an instance exceed the slots that their holders may already occupy by adds up to
    -- at most what the budget leaves above all slots that may be occupied there.
    pub desired_on-excess :
        (s : State I P) (instance_id : I) (derived : InstanceBudget)
        → IsSorted s.proxies
        → IsCovered s
        → weigh
            (excess s instance_id)
            (desired_on allocator release_delay s instance_id derived).granted
          ≤ derived.budget.total - occupied_on s instance_id
    unfolding desired_on
    desired_on-excess s instance_id derived sorted covered =
        let budget = derived.budget.total in
        let holders = holders_on s instance_id in
        let targets = allocator budget (claims release_delay s instance_id holders) in
        let start : Plan P = record {
          available = budget - occupied_on s instance_id;
          desired = new_desired budget;
        } in
        let active =
          holders_from-AllHolders (Covers s instance_id) instance_id s.proxies []
            (All-imp
              (λ e r stays.
                covered e.0 instance_id
                  (subst (λ o. (get_or new_proxy o).departed ≡ false) (sym r) stays))
              s.proxies (entries_read s.proxies sorted))
            tt in
        omega (arith, grant_tenants-spent s instance_id targets holders start active)
