-- ===== src/Coordinator/Kept.antt =====
-- What a round of crates/core/src/grant.rs keeps between the coordinator and one of its proxies.
use pg_steward.Base.Order.{Ord, pair_ord, text_ord}
use pg_steward.Base.Map.{Map, lookup, IsSorted}
use pg_steward.Base.{
  ℕ, ◌+◌, ◌≤◌, ◌≡◌, sym, subst, ◌∙◌, inl, inr, true, false, ◌==◌, arith, Bool-cases,
}
use pg_steward.Policy.{TenantId, tenant_ord}
use pg_steward.Coordinator.{Report, usage_of, slots_of, Slot, ProxyState}
use pg_steward.Coordinator.Publish.{report_to, equal_maps, publish_to}
use pg_steward.Coordinator.Holding.{publish_to-departed, publish_to-grants, slots_in}
use pg_steward.Coordinator.Promise.{
  IsHonoured, publish_to-Leaves, Leaves-IsHonoured, report_to-IsHonoured,
}
use pg_steward.Coordinator.World.{Agent}

-- What holds between a proxy and its entry with the coordinator, by what it is granted.
pub record IsKept {I : Type 0} ⦃i : Ord I⦄ (granted_ : I → TenantId → ℕ) (generation : ℕ)
    (state : ProxyState (Slot I)) (agent : Agent (Slot I)) : Type 0 where
  pub honoured :
      state.departed ≡ false
      → (instance_id : I) (tenant : TenantId)
      → IsHonoured
          (granted_ instance_id tenant)
          (slots_of agent.read (instance_id, tenant))
          agent.read.generation
          (agent.limits (instance_id, tenant))
          (agent.live (instance_id, tenant))
          (lookup (instance_id, tenant) state.held)
  pub gone :
      state.departed ≡ true → (agent.stopped ≡ true) × ((slot : Slot I) → agent.live slot ≡ 0)
  pub sent :
      (instance_id : I) (tenant : TenantId)
      → slots_of state.grants (instance_id, tenant) ≡ granted_ instance_id tenant
  pub read_by : agent.read.generation ≤ generation
  pub sent_by : state.grants.generation ≤ generation

module _ {I : Type 0} ⦃i : Ord I⦄ where
  pub same_state-IsKept :
      (granted_ : I → TenantId → ℕ) (generation : ℕ) (before after : ProxyState (Slot I))
      (agent : Agent (Slot I))
      → after.held ≡ before.held
      → after.departed ≡ before.departed
      → after.grants ≡ before.grants
      → IsKept granted_ generation before agent
      → IsKept granted_ generation after agent
  same_state-IsKept granted_ generation before after agent h d g k = record {
    honoured = λ stays instance_id tenant. rw h (k.honoured (sym d ∙ stays) instance_id tenant);
    gone = λ e. k.gone (sym d ∙ e);
    sent = λ instance_id tenant. rw g (k.sent instance_id tenant);
    read_by = k.read_by;
    sent_by = rw g k.sent_by;
  }

  pub same_granted-IsKept :
      (granted_ granted' : I → TenantId → ℕ) (generation more : ℕ) (state : ProxyState (Slot I))
      (agent : Agent (Slot I))
      → ((instance_id : I) (tenant : TenantId)
          → granted_ instance_id tenant ≡ granted' instance_id tenant)
      → IsKept granted_ generation state agent
      → IsKept granted' (generation + more) state agent
  same_granted-IsKept granted_ granted' generation more state agent e k = record {
    honoured = λ stays instance_id tenant.
        rw⁻¹ (e instance_id tenant) (k.honoured stays instance_id tenant);
    gone = k.gone;
    sent = λ instance_id tenant. k.sent instance_id tenant ∙ e instance_id tenant;
    read_by = omega (arith, k.read_by);
    sent_by = omega (arith, k.sent_by);
  }

  publish_to-sent_by :
      (generation : ℕ) (before after : Map (Slot I) ℕ) (state : ProxyState (Slot I))
      → state.grants.generation ≤ generation
      → (publish_to generation before after state).grants.generation ≤ generation
  unfolding publish_to
  publish_to-sent_by generation before after state h =
      elim (Bool-cases (equal_maps ◌==◌ before after)) [
        | inl same ↦ rw same h
        | inr other ↦ rw other (omega arith)
      ]

  pub publish_to-IsKept :
      (granted_ granted' : I → TenantId → ℕ) (generation : ℕ) (before after : Map (Slot I) ℕ)
      (state : ProxyState (Slot I)) (agent : Agent (Slot I))
      → IsSorted state.held
      → ((instance_id : I) (tenant : TenantId)
          → slots_in before (instance_id, tenant) ≡ granted_ instance_id tenant)
      → ((instance_id : I) (tenant : TenantId)
          → slots_in after (instance_id, tenant) ≡ granted' instance_id tenant)
      → IsKept granted_ generation state agent
      → IsKept granted' (generation + 1) (publish_to (generation + 1) before after state) agent
  publish_to-IsKept granted_ granted' generation before after state agent s was now k = record {
    honoured = λ stays instance_id tenant.
        let slot : Slot I = (instance_id, tenant) in
        let old =
          k.honoured (sym (publish_to-departed (generation + 1) before after state) ∙ stays)
            instance_id tenant in
        let entry = lookup slot (publish_to (generation + 1) before after state).held in
        subst
          (λ g.
            IsHonoured g (slots_of agent.read slot) agent.read.generation (agent.limits slot)
              (agent.live slot) entry)
          (now instance_id tenant)
          (Leaves-IsHonoured (generation + 1) (slots_in before slot) (slots_in after slot)
            (slots_of agent.read slot) agent.read.generation (agent.limits slot) (agent.live slot)
            (lookup slot state.held) entry (omega (arith, k.read_by))
            (rw (was instance_id tenant) old)
            (publish_to-Leaves (generation + 1) before after state slot s));
    gone = λ e. k.gone (sym (publish_to-departed (generation + 1) before after state) ∙ e);
    sent = λ instance_id tenant.
        publish_to-grants (generation + 1) before after state (instance_id, tenant)
          (k.sent instance_id tenant ∙ sym (was instance_id tenant))
        ∙ now instance_id tenant;
    read_by = omega (arith, k.read_by);
    sent_by = publish_to-sent_by (generation + 1) before after state (omega (arith, k.sent_by));
  }

  -- A report keeps what the coordinator owes the proxy that sends it.
  pub report_to-IsKept :
      (granted_ : I → TenantId → ℕ) (generation : ℕ) (report : Report (Slot I))
      (known : Map (Slot I) ℕ) (state : ProxyState (Slot I)) (agent : Agent (Slot I))
      → IsSorted state.held
      → ((instance_id : I) (tenant : TenantId)
          → slots_in known (instance_id, tenant) ≡ granted_ instance_id tenant)
      → report.generation ≡ agent.read.generation
      → ((slot : Slot I) → agent.limits slot ≡ slots_of agent.read slot)
      → ((slot : Slot I) → agent.live slot ≡ (usage_of report slot).actual)
      → IsKept granted_ generation state agent
      → IsKept granted_ generation (report_to report known state) agent
  unfolding report_to
  report_to-IsKept granted_ generation report known state agent s now at_ adopted counts k =
      record {
        honoured = λ stays instance_id tenant.
            let slot : Slot I = (instance_id, tenant) in
            let entry = lookup slot (report_to report known state).held in
            let same = now instance_id tenant in
            subst
              (λ g.
                IsHonoured g (slots_of agent.read slot) agent.read.generation (agent.limits slot)
                  (agent.live slot) entry)
              same
              (report_to-IsHonoured report known state slot (slots_of agent.read slot)
                agent.read.generation (agent.limits slot) (agent.live slot) s at_ (adopted slot)
                (counts slot)
                (subst
                  (λ g.
                    IsHonoured g (slots_of agent.read slot) agent.read.generation
                      (agent.limits slot) (agent.live slot) (lookup slot state.held))
                  (sym same) (k.honoured stays instance_id tenant)));
        gone = k.gone;
        sent = k.sent;
        read_by = k.read_by;
        sent_by = k.sent_by;
      }
