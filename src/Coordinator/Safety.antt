-- ===== src/Coordinator/Safety.antt =====
-- That the proxies of crates/core/src/grant.rs together never hold more connections on an instance than
-- the largest budget it has had.
use pg_steward.Base.Order.{Ord, ◌≟◌, pair_ord, text_ord}
use pg_steward.Base.Map.{Map, lookup, insert}
use pg_steward.Base.Sums.{total_none, total_mono, same_key, Once}
use pg_steward.Base.{
  ℕ, ◌+◌, ◌≤◌, ◌≡◌, refl, sym, ◌∙◌, inl, inr, max, true, List, [], ◌∷◌, if◌then◌else◌, get_or,
  arith, Bool-cases, All, total, u32_max,
}
use pg_steward.Sched.{Claim, Grants}
use pg_steward.Policy.{TenantId, tenant_ord}
use pg_steward.Coordinator.{Slot, ProxyState, new_proxy, proxy_of, budget_on}
use pg_steward.Coordinator.Total.{total-at_slot, all_total, at_slot}
use pg_steward.Coordinator.World.{World, new_world, new_state, Step, new_agent}
use pg_steward.Coordinator.Kept.{IsKept}
use pg_steward.Coordinator.Sound.{granted_to, Agrees, IsSound}
use pg_steward.Coordinator.Run.{Step-IsSound}
use pg_steward.Coordinator.Bound.{Step-IsBounded}

module _ {P : Type 0} ⦃p : Ord P⦄ where
  -- The tenants that a list names at one proxy.
  tenants_at : P → List (TenantId × P) → List TenantId
  tenants_at proxy [] = []
  tenants_at proxy (q ∷ qs) = if proxy ≟ q.1 then q.0 ∷ tenants_at proxy qs else tenants_at proxy qs

  tenants_at-apart :
      (proxy : P) (q : TenantId × P) (qs : List (TenantId × P))
      → proxy ≟ q.1 ≡ true
      → All (λ r. ¬ (q ≡ r)) qs
      → All (λ t. ¬ (q.0 ≡ t)) (tenants_at proxy qs)
  unfolding tenants_at
  tenants_at-apart proxy q [] e a = tt
  tenants_at-apart proxy (t, o) ((t', o') ∷ qs) e (a, as_) = elim (Bool-cases (proxy ≟ o')) [
    | inl hit ↦
        let here = sym (same_key proxy o e) ∙ same_key proxy o' hit in
        rw hit ((λ same. a (rw (same, here) refl)), tenants_at-apart proxy (t, o) qs e as_)
    | inr miss ↦ rw miss (tenants_at-apart proxy (t, o) qs e as_)
  ]

  tenants_at-Once : (proxy : P) (qs : List (TenantId × P)) → Once qs → Once (tenants_at proxy qs)
  unfolding tenants_at
  tenants_at-Once proxy [] d = tt
  tenants_at-Once proxy (q ∷ qs) (a, d) = elim (Bool-cases (proxy ≟ q.1)) [
    | inl hit ↦ rw hit (tenants_at-apart proxy q qs hit a, tenants_at-Once proxy qs d)
    | inr miss ↦ rw miss (tenants_at-Once proxy qs d)
  ]

  total_split :
      (proxy : P) (f : TenantId → ℕ) (g : TenantId × P → ℕ) (qs : List (TenantId × P))
      → total (λ q. if proxy ≟ q.1 then f q.0 else g q) qs
        ≤ total f (tenants_at proxy qs) + total g qs
  unfolding tenants_at
  total_split proxy f g [] = omega arith
  total_split proxy f g (q ∷ qs) = elim (Bool-cases (proxy ≟ q.1)) [
    | inl hit ↦ rw hit (omega (arith, total_split proxy f g qs))
    | inr miss ↦ rw miss (omega (arith, total_split proxy f g qs))
  ]

module _ {I : Type 0} ⦃i : Ord I⦄ where
  fresh-IsKept :
      (granted_ : I → TenantId → ℕ)
      → ((instance_id : I) (tenant : TenantId) → granted_ instance_id tenant ≡ 0)
      → IsKept granted_ 0 new_proxy new_agent
  unfolding lookup
  fresh-IsKept granted_ none_ = record {
    honoured = λ stays instance_id tenant. record {
      covered = omega (arith, none_ instance_id tenant);
      promised = omega arith;
      limited = omega arith;
      held = omega arith;
      answered = λ h e le. absurd (cc);
    };
    gone = λ e. absurd (cc);
    sent = λ instance_id tenant. sym (none_ instance_id tenant);
    read_by = omega arith;
    sent_by = omega arith;
  }

module _ {I P : Type 0} ⦃i : Ord I⦄ ⦃p : Ord P⦄ where
  fresh-Agrees : (proxy : P) → Agrees {I = I} (new_state proxy) (λ q. new_agent)
  unfolding lookup insert
  fresh-Agrees proxy q =
      let kept = fresh-IsKept (granted_to (new_state proxy) q) (λ instance_id tenant. refl) in
      elim (Bool-cases (proxy ≟ q)) [ inl hit ↦ rw hit kept | inr miss ↦ rw miss kept ]

module _ {I P : Type 0} ⦃i : Ord I⦄ ⦃p : Ord P⦄ (instance_id : I) where
  abbrev pub occupied_at : Map P (ProxyState (Slot I)) → TenantId × P → ℕ
  occupied_at proxies q = at_slot instance_id (get_or new_proxy (lookup q.1 proxies)).held q.0

  pub occupied_at-total :
      (proxies : Map P (ProxyState (Slot I))) (qs : List (TenantId × P))
      → Once qs
      → total (occupied_at proxies) qs ≤ all_total instance_id proxies
  unfolding lookup
  occupied_at-total [] qs d = omega (arith, total_none qs)
  occupied_at-total ((proxy, state) ∷ proxies) qs d =
      let each : (q : TenantId × P)
          → occupied_at ((proxy, state) ∷ proxies) q
            ≤ (if proxy ≟ q.1 then at_slot instance_id state.held q.0 else occupied_at proxies q) =
        λ q. elim (Bool-cases (proxy ≟ q.1)) [
          | inl hit ↦ rw hit (omega arith)
          | inr miss ↦ rw miss (omega arith)
        ] in
      omega (
        arith,
        occupied_at-total proxies qs d,
        total_mono (occupied_at ((proxy, state) ∷ proxies))
            (λ q. if proxy ≟ q.1 then at_slot instance_id state.held q.0 else occupied_at proxies q)
            each qs,
        total_split proxy (at_slot instance_id state.held) (occupied_at proxies) qs,
        total-at_slot instance_id state.held (tenants_at proxy qs) (tenants_at-Once proxy qs d),
      )

  -- The connections that some tenants of some proxies hold open on the instance.
  abbrev pub connections : World I P → List (TenantId × P) → ℕ
  connections w qs = total (λ q. (w.agents q.1).live (instance_id, q.0)) qs

  pub connections-total :
      (w : World I P) (qs : List (TenantId × P))
      → IsSound w.coordinator w.agents
      → Once qs
      → connections w qs ≤ all_total instance_id w.coordinator.proxies
  connections-total w qs sound d =
      let each : (q : TenantId × P)
          → (w.agents q.1).live (instance_id, q.0) ≤ occupied_at w.coordinator.proxies q =
        λ q. elim (Bool-cases (proxy_of w.coordinator q.1).departed) [
          | inl gone ↦ omega (arith, ((sound.1 q.1).gone gone).1 (instance_id, q.0))
          | inr stays ↦ ((sound.1 q.1).honoured stays instance_id q.0).held
        ] in
      omega (
        arith,
        occupied_at-total w.coordinator.proxies qs d,
        total_mono (λ q. (w.agents q.1).live (instance_id, q.0)) (occupied_at w.coordinator.proxies)
            each qs,
      )

  module _ (allocator : ℕ → List (Claim TenantId) → Grants TenantId) (release_delay : ℕ) where
    -- The worlds that a fresh coordinator reaches, with the largest budget the instance has had.
    pub data Reachable : ℕ → World I P → Type 0 where
      fresh : (proxy : P) → Reachable 0 (new_world proxy)
      then_ :
          {n : ℕ} {w w' : World I P}
          → Reachable n w
          → Step allocator release_delay w w'
          → Reachable (max n (budget_on w'.coordinator instance_id)) w'

    pub Reachable-IsSound :
        (n : ℕ) (w : World I P)
        → Reachable n w
        → IsSound w.coordinator w.agents
          × (n ≤ u32_max → all_total instance_id w.coordinator.proxies ≤ n)
    unfolding lookup insert
    Reachable-IsSound _ _ (fresh proxy) =
        ((((tt, tt), (tt, tt), tt, tt), fresh-Agrees proxy), λ fits. omega arith)
    Reachable-IsSound _ _ (then_ {n} {w} {w'} r step) =
        let (sound, le) = Reachable-IsSound n w r in
        (
          Step-IsSound allocator release_delay w w' sound step,
          λ fits. omega (
            arith,
            le (omega (arith, fits)),
            Step-IsBounded instance_id allocator release_delay w w' sound step
                (omega (arith, fits)),
          ),
        )

    -- For any allocator, and any world that rounds, reports, reads and applications of grants,
    -- opened and closed connections, departures, new proxies, new and observed budgets and
    -- changes of settings, each as a whole or one lock at a time, reach in any order from a fresh
    -- coordinator: the connections that any tenants of any proxies, none named twice, hold open
    -- on an instance are at most the largest budget that the instance has had, if that fits a
    -- `u32`.
    pub connections_safe :
        (n : ℕ) (w : World I P) (qs : List (TenantId × P))
        → Reachable n w
        → n ≤ u32_max
        → Once qs
        → connections w qs ≤ n
    connections_safe n w qs r fits d =
        let (sound, le) = Reachable-IsSound n w r in
        omega (arith, connections-total w qs sound d, le fits)
