-- ===== src/Coordinator/Holding.antt =====
-- What `reconcile` and a report of crates/core/src/grant.rs leave of the slots that one proxy may
-- still occupy, slot by slot.
use pg_steward.Base.Order.{Ord, ◌≟◌, pair_ord, text_ord}
use pg_steward.Base.Map.{
  Map, lookup, map_values, lookup-insert, lookup-keep, keep-IsSorted, insert-IsSorted, IsSorted,
  lookup-map_values, map_values-IsSorted, map_found, kept,
}
use pg_steward.Base.{
  ℕ, ◌≤◌, ◌≡◌, refl, ap, subst, ◌∙◌, inl, inr, max, true, false, not, ◌&&◌, ◌||◌, Option, none,
  some, List, [], ◌∷◌, ◌++◌, if◌then◌else◌, ◌==◌, get_or, arith, Bool-cases, Option-cases,
}
use pg_steward.Policy.{tenant_ord}
use pg_steward.Coordinator.{Report, Held, ProxyState, occupied_of, keys, member, slots_of, occupied}
use pg_steward.Coordinator.Publish.{
  equal_maps, moved, move_all, still_held, publish_to, measured, report_to,
}

module _ {ℓ κ} {K : Type ℓ} {V : Type κ} ⦃o : Ord K⦄ where
  pub member-keys : (q : K) (m : Map K V) → member q (keys m) ≡ false → lookup q m ≡ none
  unfolding lookup
  member-keys q [] h = refl
  member-keys q ((k, v) ∷ m) h = ground (arith, member-keys q m)

module _ {ℓ} {K : Type ℓ} ⦃o : Ord K⦄ where
  member-append : (q : K) (xs ys : List K) → member q (xs ++ ys) ≡ member q xs || member q ys
  member-append q [] ys = refl
  member-append q (x ∷ xs) ys = ground (arith, member-append q xs ys)

  pub equal_maps-lookup :
      (m m' : Map K ℕ) (q : K) → equal_maps ◌==◌ m m' ≡ true → lookup q m ≡ lookup q m'
  unfolding lookup
  equal_maps-lookup [] [] q h = refl
  equal_maps-lookup [] (_ ∷ _) q h = ground arith
  equal_maps-lookup (_ ∷ _) [] q h = ground arith
  equal_maps-lookup ((k, v) ∷ m) ((k', v') ∷ m') q h =
      ground (arith, equal_maps-lookup m m' q, o.exact k k')

abbrev pub raised : ℕ → ℕ → Option Held → Held
raised generation now h = record { changed_at = generation; occupied = max (occupied_of h) now }

module _ {S : Type 0} ⦃o : Ord S⦄ where
  -- What a map of grants says of a slot.
  abbrev pub slots_in : Map S ℕ → S → ℕ
  slots_in m slot = get_or 0 (lookup slot m)

  moved_lem :
      (generation : ℕ) (before after : Map S ℕ) (k : S) (held : Map S Held) (slot : S)
      → lookup slot (moved generation (slots_in before k) (slots_in after k) k held) ≡ (
          if k ≟ slot && not (slots_in before slot == slots_in after slot)
          then some (raised generation (slots_in after slot) (lookup slot held))
          else lookup slot held)
  moved_lem generation before after k held slot = ground (
    arith,
    o.exact k slot,
    lookup-insert slot k (raised generation (slots_in after k) (lookup k held)) held,
  )

  pub lookup-move_all :
      (generation : ℕ) (before after : Map S ℕ) (ks : List S) (held : Map S Held) (slot : S)
      → lookup slot (move_all generation before after ks held) ≡ (
          if member slot ks && not (slots_in before slot == slots_in after slot)
          then some (raised generation (slots_in after slot) (lookup slot held))
          else lookup slot held)
  unfolding move_all
  lookup-move_all generation before after [] held slot = refl
  lookup-move_all generation before after (k ∷ ks) held slot =
      let held' = moved generation (slots_in before k) (slots_in after k) k held in
      lookup-move_all generation before after ks held' slot
      ∙ ground (arith, moved_lem generation before after k held slot)

  pub move_all-IsSorted :
      (generation : ℕ) (before after : Map S ℕ) (ks : List S) (held : Map S Held)
      → IsSorted held
      → IsSorted (move_all generation before after ks held)
  unfolding move_all
  move_all-IsSorted generation before after [] held s = s
  move_all-IsSorted generation before after (k ∷ ks) held s =
      move_all-IsSorted generation before after ks _
        (elim (Bool-cases (slots_in before k == slots_in after k)) [
          | inl same ↦ rw same s
          | inr other ↦ rw other (insert-IsSorted k _ held s)
        ])

  pub publish_to-IsSorted :
      (generation : ℕ) (before after : Map S ℕ) (p : ProxyState S)
      → IsSorted p.held
      → IsSorted (publish_to generation before after p).held
  unfolding publish_to
  publish_to-IsSorted generation before after p s =
      elim (Bool-cases (equal_maps ◌==◌ before after)) [
        | inl same ↦ rw same s
        | inr other ↦ rw other (
            keep-IsSorted (still_held after) _
              (move_all-IsSorted generation before after (keys before ++ keys after) p.held s))
      ]

  pub publish_to-departed :
      (generation : ℕ) (before after : Map S ℕ) (p : ProxyState S)
      → (publish_to generation before after p).departed ≡ p.departed
  unfolding publish_to
  publish_to-departed generation before after p = elim (Bool-cases (equal_maps ◌==◌ before after)) [
    | inl same ↦ rw same refl
    | inr other ↦ rw other refl
  ]

  pub publish_to-grants :
      (generation : ℕ) (before after : Map S ℕ) (p : ProxyState S) (slot : S)
      → slots_of p.grants slot ≡ slots_in before slot
      → slots_of (publish_to generation before after p).grants slot ≡ slots_in after slot
  unfolding publish_to
  publish_to-grants generation before after p slot h =
      elim (Bool-cases (equal_maps ◌==◌ before after)) [
        | inl same ↦ rw same (h ∙ ap (get_or 0) (equal_maps-lookup before after slot same))
        | inr other ↦ rw other refl
      ]

  -- What a kept entry counts.
  pub kept_lem :
      (after : Map S ℕ) (slot : S) (r : Option Held)
      → occupied_of (kept (still_held after) slot r) ≡ occupied_of r
  kept_lem after slot none = refl
  kept_lem after slot (some h) = ground arith

  pub unseen :
      (before after : Map S ℕ) (slot : S)
      → member slot (keys before ++ keys after) ≡ false
      → slots_in before slot ≡ slots_in after slot
  unseen before after slot h = ground (
    arith,
    member-append slot (keys before) (keys after),
    member-keys slot before,
    member-keys slot after,
  )

  pub publish_to_lem :
      (generation : ℕ) (before after : Map S ℕ) (p : ProxyState S) (slot : S)
      → IsSorted p.held
      → occupied (publish_to generation before after p) slot ≡ (
          if slots_in before slot == slots_in after slot
          then occupied p slot
          else max (occupied p slot) (slots_in after slot))
  unfolding publish_to
  publish_to_lem generation before after p slot s =
      elim (Bool-cases (equal_maps ◌==◌ before after)) [
        | inl same ↦ rw same (ground (arith, equal_maps-lookup before after slot same))
        | inr other ↦
            let ks = keys before ++ keys after in
            rw other (
              ap occupied_of (
                lookup-keep (still_held after) slot _
                  (move_all-IsSorted generation before after ks p.held s))
              ∙ kept_lem after slot (lookup slot (move_all generation before after ks p.held))
              ∙ ap occupied_of (lookup-move_all generation before after ks p.held slot)
              ∙ ground (arith, unseen before after slot))
      ]

  -- For a proxy whose held slots are in order and a slot that may occupy what it was granted:
  -- after a round the slot counts the larger of what it counted and of its new grant, whatever
  -- the other slots do.
  pub publish_to-occupied :
      (generation : ℕ) (before after : Map S ℕ) (p : ProxyState S) (slot : S)
      → IsSorted p.held
      → slots_in before slot ≤ occupied p slot
      → occupied (publish_to generation before after p) slot
        ≡ max (occupied p slot) (slots_in after slot)
  publish_to-occupied generation before after p slot s h =
      publish_to_lem generation before after p slot s ∙ ground arith

  -- For a proxy whose held slots are in order, a report leaves each slot with the larger of its
  -- grant and of the connections reported, if it was measured at or after the change of the slot,
  -- and with what it counted otherwise; a slot without an entry stays without.
  pub report_to-occupied :
      (report : Report S) (granted : Map S ℕ) (p : ProxyState S) (slot : S)
      → IsSorted p.held
      → occupied (report_to report granted p) slot
        ≡ occupied_of (map_found (measured report granted slot) (lookup slot p.held))
  unfolding report_to
  report_to-occupied report granted p slot s =
      let measures = measured report granted in
      ap occupied_of (
        lookup-keep (still_held granted) slot (map_values measures p.held)
          (map_values-IsSorted measures p.held s))
      ∙ kept_lem granted slot (lookup slot (map_values measures p.held))
      ∙ ap occupied_of (lookup-map_values measures slot p.held)

  pub report_to-IsSorted :
      (report : Report S) (granted : Map S ℕ) (p : ProxyState S)
      → IsSorted p.held
      → IsSorted (report_to report granted p).held
  unfolding report_to
  report_to-IsSorted report granted p s =
      keep-IsSorted (still_held granted) _ (map_values-IsSorted (measured report granted) p.held s)

  -- What a proxy is granted stays covered when it reports.
  pub report_to-covers :
      (report : Report S) (granted : Map S ℕ) (p : ProxyState S) (slot : S)
      → IsSorted p.held
      → slots_in granted slot ≤ occupied p slot
      → slots_in granted slot ≤ occupied (report_to report granted p) slot
  report_to-covers report granted p slot s h =
      rw (report_to-occupied report granted p slot s) (elim (Option-cases (lookup slot p.held)) [
        | inl e ↦ rw e (omega (arith, subst (λ r. slots_in granted slot ≤ occupied_of r) e h))
        | inr (held, e) ↦
            rw e (ground (arith, subst (λ r. slots_in granted slot ≤ occupied_of r) e h))
      ])
