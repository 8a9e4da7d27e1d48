-- ===== src/Coordinator/Promise.antt =====
-- What a slot of a proxy owes its connections in crates/core/src/grant.rs: as long as the proxy may
-- still act on an older set of grants, the slot counts what that set promised.
use pg_steward.Base.Order.{Ord, pair_ord, text_ord}
use pg_steward.Base.Map.{
  Map, lookup, map_values, lookup-keep, IsSorted, lookup-map_values, map_values-IsSorted, map_found,
  kept,
}
use pg_steward.Base.{
  ℕ, ◌≤◌, ◌<◌, ◌≡◌, refl, sym, ap, subst, ◌∙◌, ◌⊎◌, inl, inr, Option, none, some, ◌++◌, leb, ◌==◌,
  get_or, arith, Bool-cases,
}
use pg_steward.Policy.{tenant_ord}
use pg_steward.Coordinator.{Report, Held, ProxyState, occupied_of, keys, usage_of}
use pg_steward.Coordinator.Publish.{
  equal_maps, move_all, still_held, publish_to, measured, report_to,
}
use pg_steward.Coordinator.Holding.{
  slots_in, member-keys, raised, unseen, move_all-IsSorted, lookup-move_all, equal_maps-lookup,
}

-- A slot is granted some connections now, its proxy last read a set of grants of some generation that
-- promised some, and its pool may have some open and has some.
pub record IsHonoured (granted seen seen_at limit actual : ℕ) (entry : Option Held) : Type 0 where
  pub covered : granted ≤ occupied_of entry
  pub promised : seen ≤ occupied_of entry
  pub limited : limit ≤ occupied_of entry
  pub held : actual ≤ occupied_of entry
  pub answered : (h : Held) → entry ≡ some h → h.changed_at ≤ seen_at → seen ≡ granted

-- What a round leaves of an entry.
abbrev pub Leaves : ℕ → ℕ → ℕ → Option Held → Option Held → Type 0
Leaves generation was now entry entry' =
    ((was ≡ now) × (entry' ≡ entry))
    ⊎ (entry' ≡ some (raised generation now entry))
    ⊎ ((entry' ≡ none) × (now ≡ 0) × (occupied_of entry ≡ 0))

module _ {S : Type 0} ⦃o : Ord S⦄ where
  kept_or_gone :
      (after : Map S ℕ) (slot : S) (r : Option Held)
      → (kept (still_held after) slot r ≡ r)
        ⊎ ((kept (still_held after) slot r ≡ none)
            × (slots_in after slot ≡ 0)
            × (occupied_of r ≡ 0))
  kept_or_gone after slot none = inl refl
  kept_or_gone after slot (some h) = elim (Bool-cases (still_held after (slot, h))) [
    | inl e ↦ inl (rw e refl)
    | inr e ↦ inr (rw e refl, ground (arith, e, member-keys slot after), ground (arith, e))
  ]

  moved_entry :
      (generation : ℕ) (before after : Map S ℕ) (p : ProxyState S) (slot : S)
      → (slots_in before slot ≡ slots_in after slot)
          × (lookup slot (move_all generation before after (keys before ++ keys after) p.held)
              ≡ lookup slot p.held)
        ⊎ (lookup slot (move_all generation before after (keys before ++ keys after) p.held)
            ≡ some (raised generation (slots_in after slot) (lookup slot p.held)))
  moved_entry generation before after p slot = ground (
    arith,
    unseen before after slot,
    lookup-move_all generation before after (keys before ++ keys after) p.held slot,
  )

  pub publish_to-Leaves :
      (generation : ℕ) (before after : Map S ℕ) (p : ProxyState S) (slot : S)
      → IsSorted p.held
      → Leaves generation
          (slots_in before slot)
          (slots_in after slot)
          (lookup slot p.held)
          (lookup slot (publish_to generation before after p).held)
  unfolding publish_to
  publish_to-Leaves generation before after p slot s =
      elim (Bool-cases (equal_maps ◌==◌ before after)) [
        | inl same ↦ rw same (inl (ap (get_or 0) (equal_maps-lookup before after slot same), refl))
        | inr other ↦
            let ks = keys before ++ keys after in
            let moved = move_all generation before after ks p.held in
            let e1 =
              lookup-keep (still_held after) slot moved
                (move_all-IsSorted generation before after ks p.held s) in
            rw other (
              rw e1 (elim (moved_entry generation before after p slot) [
                | inl (same, e) ↦ elim (kept_or_gone after slot (lookup slot moved)) [
                  | inl k ↦ inl (same, k ∙ e)
                  | inr (k, zero_, gone) ↦ inr (inr (k, zero_, ap occupied_of (sym e) ∙ gone))
                ]
                | inr e ↦ elim (kept_or_gone after slot (lookup slot moved)) [
                  | inl k ↦ inr (inl (k ∙ e))
                  | inr (k, zero_, gone) ↦
                      let total = ap occupied_of (sym e) ∙ gone in
                      inr (inr (k, zero_, omega (arith, total)))
                ]
              ]))
      ]

-- A round keeps every promise, since it raises what it grants anew and marks it as changed.
pub Leaves-IsHonoured :
    (generation was now seen seen_at limit actual : ℕ) (entry entry' : Option Held)
    → seen_at < generation
    → IsHonoured was seen seen_at limit actual entry
    → Leaves generation was now entry entry'
    → IsHonoured now seen seen_at limit actual entry'
Leaves-IsHonoured generation was now seen seen_at limit actual entry entry' old h (inl (same, e)) =
    rw (same, ← e) at h
Leaves-IsHonoured generation was now seen seen_at limit actual entry entry' old h (inr (inl e)) =
    rw e record {
      covered = ground arith;
      promised = ground (arith, h.promised);
      limited = ground (arith, h.limited);
      held = ground (arith, h.held);
      answered = λ held eq_ le.
          (let later = ap (λ r. get_or 0 (map_found (λ h. h.changed_at) r)) eq_ in
            omega (arith, later, le));
    }
Leaves-IsHonoured generation was now seen seen_at limit actual entry entry' old h
      (inr (inr (e, z, gone))) =
    rw e record {
      covered = ground arith;
      promised = ground (arith, h.promised);
      limited = ground (arith, h.limited);
      held = ground (arith, h.held);
      answered = λ held eq_ le. ground (arith, h.promised);
    }

-- A report that answers the last change makes the entry what is granted or what is open.
pub measured-IsHonoured :
    {S : Type 0} ⦃o : Ord S⦄ (report : Report S) (granted_ : Map S ℕ) (slot : S) (actual : ℕ)
    (seen : ℕ) (entry : Option Held)
    → actual ≡ (usage_of report slot).actual
    → IsHonoured (slots_in granted_ slot) seen report.generation seen actual entry
    → IsHonoured
        (slots_in granted_ slot)
        seen
        report.generation
        seen
        actual
        (map_found (measured report granted_ slot) entry)
measured-IsHonoured report granted_ slot actual seen none e h = h
measured-IsHonoured report granted_ slot actual seen (some held) e h =
    elim (Bool-cases (leb held.changed_at report.generation)) [
      | inl le ↦
          let agrees = h.answered held refl (ground (arith, le)) in
          rw le record {
            covered = ground arith;
            promised = ground (arith, agrees);
            limited = ground (arith, agrees);
            held = ground (arith, e);
            answered = λ held' eq_ le'. agrees;
          }
      | inr lt ↦ rw lt h
    ]

-- An entry that counts nothing may go.
pub dropped-IsHonoured :
    (granted_ seen seen_at limit actual : ℕ) (entry : Option Held)
    → occupied_of entry ≡ 0
    → IsHonoured granted_ seen seen_at limit actual entry
    → IsHonoured granted_ seen seen_at limit actual none
dropped-IsHonoured granted_ seen seen_at limit actual entry e h = record {
  covered = ground (arith, h.covered);
  promised = ground (arith, h.promised);
  limited = ground (arith, h.limited);
  held = ground (arith, h.held);
  answered = λ h' e' le. absurd (cc);
}

module _ {S : Type 0} ⦃o : Ord S⦄ where
  pub report_to-IsHonoured :
      (report : Report S) (known : Map S ℕ) (p : ProxyState S) (slot : S)
      (seen seen_at limit actual : ℕ)
      → IsSorted p.held
      → report.generation ≡ seen_at
      → limit ≡ seen
      → actual ≡ (usage_of report slot).actual
      → IsHonoured (slots_in known slot) seen seen_at limit actual (lookup slot p.held)
      → IsHonoured
          (slots_in known slot)
          seen
          seen_at
          limit
          actual
          (lookup slot (report_to report known p).held)
  unfolding report_to
  report_to-IsHonoured report known p slot seen seen_at limit actual s at_ adopted counts h =
      let measures = measured report known in
      let found = map_found (measures slot) (lookup slot p.held) in
      let reads =
        lookup-keep (still_held known) slot (map_values measures p.held)
          (map_values-IsSorted measures p.held s) in
      let same = lookup-map_values measures slot p.held in
      let old : IsHonoured (slots_in known slot) seen report.generation seen actual
          (lookup slot p.held) =
        rw at_ (rw adopted at h) in
      let new = measured-IsHonoured report known slot actual seen (lookup slot p.held) counts old in
      let goal : (r : Option Held)
          → kept (still_held known) slot found ≡ r
          → IsHonoured (slots_in known slot) seen seen_at limit actual r =
        λ r e. elim (kept_or_gone known slot found) [
          | inl k ↦
              rw (adopted, ← at_)
                (subst (IsHonoured (slots_in known slot) seen report.generation seen actual)
                  (sym k ∙ e) new)
          | inr (k, _, zero_) ↦
              rw (adopted, ← at_)
                (subst (IsHonoured (slots_in known slot) seen report.generation seen actual)
                  (sym k ∙ e)
                  (dropped-IsHonoured (slots_in known slot) seen report.generation seen actual found
                    zero_ new))
        ] in
      goal _ (ap (kept (still_held known) slot) (sym same) ∙ sym reads)

  pub measured-occupied :
      (report : Report S) (known : Map S ℕ) (slot : S) (entry : Option Held)
      → slots_in known slot ≤ occupied_of entry
      → (usage_of report slot).actual ≤ occupied_of entry
      → occupied_of (map_found (measured report known slot) entry) ≤ occupied_of entry
  measured-occupied report known slot none h k = omega arith
  measured-occupied report known slot (some held) h k = ground (arith, h, k)
