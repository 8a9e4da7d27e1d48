-- ===== src/Coordinator/Publish.antt =====
-- How crates/core/src/grant.rs changes what proxies hold: `reconcile`, the reports, and the settings
-- that end in it.
use pg_steward.Base.Order.{Ord, ◌≟◌, pair_ord, Text, text_ord}
use pg_steward.Base.Map.{Map, lookup, insert, map_values}
use pg_steward.Base.{
  ℕ, ◌+◌, max, Bool, true, false, ◌&&◌, ◌||◌, Option, none, some, List, [], ◌∷◌, ◌++◌,
  if◌then◌else◌, ltb, leb, ◌==◌, get_or, keep, Result, err, ok,
}
use pg_steward.Sched.{Claim, Grants}
use pg_steward.Budget.{
  InstanceBudget, TotalBudget, BudgetChange, shrank, observe, set_margin, with_margin,
}
use pg_steward.Allocation.{PreconditionError, apply}
use pg_steward.Policy.{
  TenantId, tenant_ord, Policies, PolicyChange, SettingError, above_budget, no_such_instance,
  change_tenant, minimums_on,
}
use pg_steward.Coordinator.{
  Slot, Report, GrantSet, Held, ProxyState, State, new_proxy, occupied_of, keys, member, usage_of,
  proxy_of, published,
}
use pg_steward.Coordinator.Plan.{desired_state}

-- Two maps are equal when their entries are.
abbrev pub equal_maps {ℓ κ} :
    {K : Type ℓ} {V : Type κ} ⦃o : Ord K⦄ → (V → V → Bool) → Map K V → Map K V → Bool
equal_maps same [] [] = true
equal_maps same [] (_ ∷ _) = false
equal_maps same (_ ∷ _) [] = false
equal_maps same ((k, v) ∷ m) ((k', v') ∷ m') = k ≟ k' && same v v' && equal_maps same m m'

module _ {S : Type 0} ⦃o : Ord S⦄ where
  -- One turn of the loop of `reconcile` over the slots before and after.
  abbrev pub moved : ℕ → ℕ → ℕ → S → Map S Held → Map S Held
  moved generation was now slot held =
      if was == now
      then held
      else insert slot
          (record { changed_at = generation; occupied = max (occupied_of (lookup slot held)) now })
          held

  unfoldable pub move_all : ℕ → Map S ℕ → Map S ℕ → List S → Map S Held → Map S Held
  move_all generation before after [] held = held
  move_all generation before after (slot ∷ slots) held =
      move_all generation before after slots
        (moved generation (get_or 0 (lookup slot before)) (get_or 0 (lookup slot after)) slot held)

  abbrev pub still_held : Map S ℕ → S × Held → Bool
  still_held after (slot, h) = ltb 0 h.occupied || member slot (keys after)

  -- What `reconcile` does to one proxy.
  unfoldable pub publish_to : ℕ → Map S ℕ → Map S ℕ → ProxyState S → ProxyState S
  publish_to generation before after p = if equal_maps ◌==◌ before after then p else record p {
    held =
        keep (still_held after)
          (move_all generation before after (keys before ++ keys after) p.held);
    grants = record { generation = generation; grants = after };
  }

  -- What `report_for` does to one entry.
  abbrev pub measured : Report S → Map S ℕ → S → Held → Held
  measured report granted slot h =
      if leb h.changed_at report.generation
      then record h {
        occupied = max (get_or 0 (lookup slot granted)) (usage_of report slot).actual;
      }
      else h

  -- The slots of a proxy that are granted more than it asks for.
  abbrev pub idle_slots : Map S ℕ → Map S ℕ → List S
  idle_slots demand [] = []
  idle_slots demand ((slot, granted) ∷ m) =
      if ltb (get_or 0 (lookup slot demand)) granted
      then slot ∷ idle_slots demand m
      else idle_slots demand m

  abbrev pub note_idle : ℕ → List S → Map S ℕ → Map S ℕ
  note_idle now [] since = since
  note_idle now (slot ∷ slots) since =
      note_idle now slots
        (elim (lookup slot since) [ none ↦ insert slot now since | some _ ↦ since ])

  abbrev pub track_proxy : ℕ → Map S ℕ → ProxyState S → ProxyState S
  track_proxy now granted state =
      let idle = idle_slots state.demand granted in
      record state {
        idle_since = note_idle now idle (keep (λ e. member e.0 idle) state.idle_since);
      }

  unfoldable pub report_to : Report S → Map S ℕ → ProxyState S → ProxyState S
  report_to report granted state = record state {
    demand = map_values (λ _ usage. usage.demand) report.usage;
    held = keep (still_held granted) (map_values (measured report granted) state.held);
  }

module _ {I P : Type 0} ⦃i : Ord I⦄ ⦃p : Ord P⦄ where
  unfoldable pub track_idle : State I P → State I P
  track_idle s = elim s.now [
    | none ↦ s
    | some now ↦ record s {
      proxies = map_values (λ proxy state. track_proxy now (published s proxy) state) s.proxies;
    }
  ]

  -- The comparison of `published_by_proxy` before and after, over the same proxies.
  unfoldable pub all_equal : State I P → State I P → Map P (ProxyState (Slot I)) → Bool
  all_equal before after [] = true
  all_equal before after ((proxy, _) ∷ proxies) =
      equal_maps ◌==◌ (published before proxy) (published after proxy)
      && all_equal before after proxies

  -- The rest of `reconcile`, once the table has taken the entry.
  unfoldable pub publish : State I P → State I P → State I P
  publish before after = if all_equal before after after.proxies then after else record after {
    generation = after.generation + 1;
    proxies =
        map_values
          (λ proxy state.
            publish_to (after.generation + 1) (published before proxy) (published after proxy)
              state)
          after.proxies;
  }

  -- A report of a proxy that the coordinator does not know is dropped.
  unfoldable pub report_for : State I P → P → Report (Slot I) → State I P
  report_for s proxy report = elim (lookup proxy s.proxies) [
    | none ↦ s
    | some state ↦ record s {
      proxies = insert proxy (report_to report (published s proxy) state) s.proxies;
    }
  ]

  unfoldable pub channel : State I P → P → State I P
  channel s proxy = elim (lookup proxy s.proxies) [
    | none ↦ record s { proxies = insert proxy new_proxy s.proxies }
    | some _ ↦ s
  ]

  unfoldable pub add_instance : State I P → I → InstanceBudget → State I P
  add_instance s instance_id budget = record s { budgets = insert instance_id budget s.budgets }

  unfoldable pub observe_instance : State I P → I → ℕ → ℕ → State I P × Option BudgetChange
  observe_instance s instance_id at foreign = elim (lookup instance_id s.budgets) [
    | none ↦ (s, none)
    | some b ↦
        let (b', change) = observe b at foreign in
        (record s { budgets = insert instance_id b' s.budgets }, some change)
  ]

  -- The value that a receiver of the channel holds.
  abbrev pub subscribe : State I P → P → GrantSet (Slot I)
  subscribe s proxy = (proxy_of s proxy).grants

  abbrev pub instances : State I P → Map I TotalBudget
  instances s = map_values (λ instance_id b. b.budget) s.budgets

  abbrev pub set_policies : State I P → Policies I → State I P
  set_policies s policies = record s { policies = policies }

  -- The first half of `withdraw_proxy`.
  unfoldable pub depart : State I P → P → State I P
  depart s proxy = elim (lookup proxy s.proxies) [
    | none ↦ s
    | some state ↦ record s {
      proxies = insert proxy (record state { departed = true; demand = []; held = [] }) s.proxies;
    }
  ]

  module _ (allocator : ℕ → List (Claim TenantId) → Grants TenantId) (release_delay : ℕ) where
    unfoldable pub reconcile : State I P → State I P × Option (PreconditionError I)
    reconcile s =
        let tracked = track_idle s in
        let (table, error) = apply tracked.table (desired_state allocator release_delay tracked) in
        elim error [
          | some e ↦ (tracked, some e)
          | none ↦ (publish tracked (record tracked { table = table }), none)
        ]

    abbrev pub reconcile_at : State I P → ℕ → State I P × Option (PreconditionError I)
    reconcile_at s now = reconcile (record s { now = some now })

    -- The second half of `withdraw_proxy` reconciles.
    abbrev pub withdraw : State I P → P → State I P
    withdraw s proxy = (reconcile (depart s proxy)).0

    unfoldable pub set_tenant :
        State I P → Text → PolicyChange → State I P × Result (SettingError I) (Unit {0})
    set_tenant s tenant change =
        elim (change_tenant s.policies tenant change (λ instance_id.
          elim (lookup instance_id s.budgets) [ none ↦ none | some b ↦ some b.budget.total ])) [
            | err e ↦ (s, err e)
            | ok policies ↦ ((reconcile (set_policies s policies)).0, ok tt)
          ]

    -- The settings that `set_margin` writes; an answer of `true` waits for `within_budget`.
    unfoldable pub change_margin : State I P → I → ℕ → State I P × Result (SettingError I) Bool
    change_margin s instance_id margin = elim (lookup instance_id s.budgets) [
      | none ↦ (s, err (no_such_instance instance_id))
      | some b ↦
          let derived = (with_margin b margin).total in
          let minimums = minimums_on s.policies instance_id in
          if ltb derived minimums
          then (s, err (above_budget instance_id minimums derived))
          else (let (b', change) = set_margin b margin in
              (
                (reconcile (record s { budgets = insert instance_id b' s.budgets })).0,
                ok (elim change [ shrank _ _ ↦ true | _ ↦ false ]),
              ))
    ]
