-- ===== src/Coordinator/Agents.antt =====
-- What a proxy of crates/core/src/grant.rs does by itself keeps what the coordinator counts for it.
use pg_steward.Base.Order.{Ord, ◌≟◌, pair_ord, text_ord}
use pg_steward.Base.Sums.{same_key}
use pg_steward.Base.{
  ℕ, ◌+◌, ◌-◌, ◌≤◌, ◌<◌, ◌≡◌, refl, subst, ◌⊎◌, inl, inr, true, false, arith, Bool-cases,
}
use pg_steward.Policy.{TenantId, tenant_ord}
use pg_steward.Coordinator.{slots_of, Slot, ProxyState}
use pg_steward.Coordinator.World.{Agent, update}
use pg_steward.Coordinator.Kept.{IsKept}

-- What a proxy does by itself.
module _ {I : Type 0} ⦃i : Ord I⦄ (granted_ : I → TenantId → ℕ) (generation : ℕ)
    (state : ProxyState (Slot I)) (agent : Agent (Slot I))
    (k : IsKept granted_ generation state agent) where
  pub reads-IsKept : IsKept granted_ generation state (record agent { read = state.grants })
  reads-IsKept = record {
    honoured = λ stays instance_id tenant.
        let h = k.honoured stays instance_id tenant in
        let same = k.sent instance_id tenant in
        record {
          covered = h.covered;
          promised = omega (arith, same, h.covered);
          limited = h.limited;
          held = h.held;
          answered = λ entry e le. same;
        };
    gone = k.gone;
    sent = k.sent;
    read_by = k.sent_by;
    sent_by = k.sent_by;
  }

  changes-IsKept :
      (agent' : Agent (Slot I))
      → agent'.read ≡ agent.read
      → (agent.stopped ≡ true → agent'.stopped ≡ true)
      → (agent.stopped ≡ true
          → ((slot : Slot I) → agent.live slot ≡ 0)
          → (slot : Slot I) → agent'.live slot ≡ 0)
      → ((slot : Slot I)
          → (agent'.limits slot ≤ agent.limits slot)
            ⊎ (agent'.limits slot ≤ slots_of agent.read slot))
      → ((slot : Slot I)
          → (agent'.live slot ≤ agent.live slot) ⊎ (agent'.live slot ≤ agent.limits slot))
      → IsKept granted_ generation state agent'
  changes-IsKept agent' r st z limit live = record {
    honoured = λ stays instance_id tenant.
        let h = k.honoured stays instance_id tenant in
        rw r record {
          covered = h.covered;
          promised = h.promised;
          limited = elim (limit (instance_id, tenant)) [
            | inl le ↦ omega (arith, le, h.limited)
            | inr le ↦ omega (arith, le, h.promised)
          ];
          held = elim (live (instance_id, tenant)) [
            | inl le ↦ omega (arith, le, h.held)
            | inr le ↦ omega (arith, le, h.limited)
          ];
          answered = h.answered;
        };
    gone = λ e. let (stopped, none_live) = k.gone e in (st stopped, z stopped none_live);
    sent = k.sent;
    read_by = rw r k.read_by;
    sent_by = k.sent_by;
  }

  pub adopts-IsKept :
      (slot : Slot I)
      → IsKept granted_ generation state
          (record agent { limits = update agent.limits slot (slots_of agent.read slot) })
  adopts-IsKept slot =
      changes-IsKept _ refl (λ e. e) (λ e h. h)
        (λ q. elim (Bool-cases (slot ≟ q)) [
          | inl hit ↦ rw hit (inr (ground (arith, same_key slot q hit)))
          | inr miss ↦ rw miss (inl (omega arith))
        ])
        (λ q. inl (omega arith))

  pub opens-IsKept :
      (slot : Slot I)
      → agent.live slot < agent.limits slot
      → agent.stopped ≡ false
      → IsKept granted_ generation state
          (record agent { live = update agent.live slot (agent.live slot + 1) })
  opens-IsKept slot room going =
      changes-IsKept _ refl (λ e. e) (λ e h. absurd (cc)) (λ q. inl (omega arith))
        (λ q. elim (Bool-cases (slot ≟ q)) [
          | inl hit ↦ rw hit (
              inr (
                subst (λ q. agent.live slot + 1 ≤ agent.limits q) (same_key slot q hit)
                  (omega (arith, room))))
          | inr miss ↦ rw miss (inl (omega arith))
        ])

  pub closes-IsKept :
      (slot : Slot I)
      → IsKept granted_ generation state
          (record agent { live = update agent.live slot (agent.live slot - 1) })
  closes-IsKept slot =
      let fewer : (q : Slot I) → update agent.live slot (agent.live slot - 1) q ≤ agent.live q =
        λ q. elim (Bool-cases (slot ≟ q)) [
          | inl hit ↦
              rw hit (
                subst (λ q. agent.live slot - 1 ≤ agent.live q) (same_key slot q hit) (omega arith))
          | inr miss ↦ rw miss (omega arith)
        ] in
      changes-IsKept _ refl (λ e. e) (λ e h q. omega (arith, fewer q, h q)) (λ q. inl (omega arith))
        (λ q. inl (fewer q))

  pub stops-IsKept : IsKept granted_ generation state (record agent { stopped = true })
  stops-IsKept =
      changes-IsKept _ refl (λ e. refl) (λ e h. h) (λ q. inl (omega arith)) (λ q. inl (omega arith))
