-- ===== src/Coordinator/Steps.antt =====
-- That every step of the coordinator of crates/core/src/grant.rs, of its proxies and of the node keeps
-- them in agreement.
use pg_steward.Base.Order.{Ord, ◌≟◌, pair_ord, text_ord}
use pg_steward.Base.Map.{
  lookup, insert, IsSorted, insert-IsSorted, insert-IsSorted, All-insert, lookup-insert, values-All,
}
use pg_steward.Base.Sums.{same_key}
use pg_steward.Base.{◌≡◌, subst, inl, inr, true, none, some, [], get_or, Bool-cases, Option-cases}
use pg_steward.Policy.{tenant_ord}
use pg_steward.Coordinator.{
  Report, usage_of, slots_of, Slot, ProxyState, State, new_proxy, proxy_of, published,
}
use pg_steward.Coordinator.Publish.{report_to, report_for, channel, depart}
use pg_steward.Coordinator.Holding.{report_to-IsSorted}
use pg_steward.Coordinator.Ceiling.{published_lem}
use pg_steward.Coordinator.World.{Agent, update}
use pg_steward.Coordinator.Kept.{IsKept, report_to-IsKept}
use pg_steward.Coordinator.Sound.{granted_to, Agrees, IsSound}

module _ {I P : Type 0} ⦃i : Ord I⦄ ⦃p : Ord P⦄ where
  pub update-Agrees :
      (s : State I P) (agents : P → Agent (Slot I)) (proxy : P) (agent : Agent (Slot I))
      → Agrees s agents
      → IsKept (granted_to s proxy) s.generation (proxy_of s proxy) agent
      → Agrees s (update agents proxy agent)
  update-Agrees s agents proxy agent a k q = elim (Bool-cases (proxy ≟ q)) [
    | inl hit ↦ rw hit (
        subst (λ q. IsKept (granted_to s q) s.generation (proxy_of s q) agent)
          (same_key proxy q hit) k)
    | inr miss ↦ rw miss (a q)
  ]

  abbrev pub with_proxy : State I P → P → ProxyState (Slot I) → State I P
  with_proxy s proxy state = record s { proxies = insert proxy state s.proxies }

  with_proxy-IsSound :
      (s : State I P) (agents : P → Agent (Slot I)) (proxy : P) (state : ProxyState (Slot I))
      → IsSound s agents
      → IsSorted state.held
      → IsKept (granted_to s proxy) s.generation state (agents proxy)
      → IsSound (with_proxy s proxy state) agents
  with_proxy-IsSound s agents proxy state (o, a) sorted k = (
    (
      insert-IsSorted proxy state s.proxies o.0,
      All-insert (λ d. IsSorted d.1.held) proxy state s.proxies sorted o.1,
      o.2,
      o.3,
    ),
    λ q. rw (lookup-insert q proxy state s.proxies) (elim (Bool-cases (proxy ≟ q)) [
      | inl hit ↦ rw hit (
          subst (λ q. IsKept (granted_to s q) s.generation state (agents q)) (same_key proxy q hit)
            k)
      | inr miss ↦ rw miss (a q)
    ]),
  )

  -- What the coordinator knows of a proxy, if it knows it.
  at_known {ℓ} :
      (C : State I P → Type ℓ) (s : State I P) (proxy : P)
      (change : ProxyState (Slot I) → State I P)
      → C s
      → ((state : ProxyState (Slot I)) → lookup proxy s.proxies ≡ some state → C (change state))
      → C (elim (lookup proxy s.proxies) [ none ↦ s | some state ↦ change state ])
  at_known C s proxy change unknown known = elim (Option-cases (lookup proxy s.proxies)) [
    | inl e ↦ rw e unknown
    | inr (state, e) ↦ rw e (known state e)
  ]

  module _ (s : State I P) (agents : P → Agent (Slot I)) (sound : IsSound s agents) where
    lookup-IsKept :
        (proxy : P) (state : ProxyState (Slot I))
        → lookup proxy s.proxies ≡ some state
        → IsKept (granted_to s proxy) s.generation state (agents proxy)
    lookup-IsKept proxy state e =
        subst (λ r. IsKept (granted_to s proxy) s.generation (get_or new_proxy r) (agents proxy)) e
          (sound.1 proxy)

    lookup-IsSorted :
        (proxy : P) (state : ProxyState (Slot I))
        → lookup proxy s.proxies ≡ some state
        → IsSorted state.held
    lookup-IsSorted proxy state e =
        values-All (λ state. IsSorted state.held) proxy s.proxies state e sound.0.1

    pub report_for-IsSound :
        (proxy : P) (report : Report (Slot I))
        → report.generation ≡ (agents proxy).read.generation
        → ((slot : Slot I) → (agents proxy).limits slot ≡ slots_of (agents proxy).read slot)
        → ((slot : Slot I) → (agents proxy).live slot ≡ (usage_of report slot).actual)
        → IsSound (report_for s proxy report) agents
    unfolding report_for
    report_for-IsSound proxy report at_ adopted counts =
        at_known (λ r. IsSound r agents) s proxy
          (λ state. with_proxy s proxy (report_to report (published s proxy) state)) sound
          λ state e.
            with_proxy-IsSound s agents proxy (report_to report (published s proxy) state) sound
              (report_to-IsSorted report (published s proxy) state (lookup-IsSorted proxy state e))
              (report_to-IsKept (granted_to s proxy) s.generation report (published s proxy) state
                (agents proxy) (lookup-IsSorted proxy state e)
                (λ instance_id tenant. published_lem s proxy instance_id tenant sound.0.3) at_
                adopted counts (lookup-IsKept proxy state e))

    pub depart-IsSound :
        (proxy : P)
        → (agents proxy).stopped ≡ true
        → ((slot : Slot I) → (agents proxy).live slot ≡ 0)
        → IsSound (depart s proxy) agents
    unfolding depart
    depart-IsSound proxy stopped none_live =
        at_known (λ r. IsSound r agents) s proxy
          (λ state. with_proxy s proxy (record state { departed = true; demand = []; held = [] }))
          sound
          λ state e.
            let k = lookup-IsKept proxy state e in
            with_proxy-IsSound s agents proxy
              (record state { departed = true; demand = []; held = [] }) sound tt
              record {
                honoured = λ stays. absurd (cc);
                gone = λ e. (stopped, none_live);
                sent = k.sent;
                read_by = k.read_by;
                sent_by = k.sent_by;
              }

    pub channel-IsSound : (proxy : P) → IsSound (channel s proxy) agents
    unfolding channel
    channel-IsSound proxy = elim (Option-cases (lookup proxy s.proxies)) [
      | inl e ↦
          rw (e, channel)
            (with_proxy-IsSound s agents proxy new_proxy sound tt (
              subst
                (λ r. IsKept (granted_to s proxy) s.generation (get_or new_proxy r) (agents proxy))
                e (sound.1 proxy)))
      | inr (state, e) ↦ rw (e, channel) sound
    ]
