-- ===== src/Coordinator/Tests.antt =====
-- The theorems on the coordinator applied to a proxy that asks for connections on an instance.
use pg_steward.Base.Order.{nat_ord, ◌≟◌, pair_ord, text_ord}
use pg_steward.Base.Map.{Map, lookup, insert, map_values}
use pg_steward.Base.Sums.{weigh}
use pg_steward.Base.{
  some, true, ℕ, ◌+◌, ◌-◌, ◌≤◌, ◌≡◌, refl, inl, inr, max, false, none, List, [], ◌∷◌, map, arith,
  Bool-cases, total, u32_max, ◌<◌, ◌⊎◌,
}
use pg_steward.Sched.{Claim, Grants}
use pg_steward.Budget.{InstanceBudget}
use pg_steward.Coordinator.Settled.{held_at, within_budget_lem}
use pg_steward.Allocation.{grant, grants_over, of_proxy, install, apply, precondition, granted_in}
use pg_steward.Policy.{TenantId, tenant_ord, Policies}
use pg_steward.Base.Sums.{Once}
use pg_steward.Coordinator.{
  new_proxy, within_budget, occupied_from, fold_occupied, Report, slots_of, Slot, ProxyState, State,
  occupied, proxy_of, budget_on, occupied_on,
}
use pg_steward.Coordinator.Plan.{desired_on}
use pg_steward.Coordinator.Publish.{
  move_all, report_to, report_for, add_instance, set_policies, publish_to, track_idle, all_equal,
  publish, reconcile, reconcile_at,
}
use pg_steward.Coordinator.Holding.{publish_to-occupied, slots_in}
use pg_steward.Coordinator.Room.{excess, desired_on-excess}
use pg_steward.Coordinator.Granted.{Active, desired_on-none}
use pg_steward.Coordinator.Rounds.{reconcile_ceiling, IsSteady}
use pg_steward.Coordinator.Steady.{reconcile-IsSteady}
use pg_steward.Coordinator.World.{
  Agent, World, new_state, rounds, reads, adopts, opens, reports, adds, sets_policies, with_agent,
  with_coordinator, new_agent, update,
}
use pg_steward.Coordinator.Sound.{Agrees-IsCovered}
use pg_steward.Coordinator.Safety.{
  Reachable-IsSound, Reachable, fresh, then_, connections, connections_safe,
}
use pg_steward.Coordinator.Plan.{grant_share, grant_shares, grant_tenants}
use pg_steward.Coordinator.Claims.{holders_from, claim_from, claims}
use pg_steward.Budget.{new_budget, derive}
use pg_steward.Sched.Split.{
  divide, zipped, split, give_up_to, give, shave, best_from, shortfalls, higher,
}
use pg_steward.Base.Sorting.{sort_by}

abbrev ann : TenantId
ann = record { database = 1 ∷ []; user = 2 ∷ [] }

abbrev her_slot : Slot ℕ
her_slot = (7, ann)

-- An allocator that grants what is asked for.
abbrev generous : ℕ → List (Claim TenantId) → Grants TenantId
generous budget asked = record {
  granted = map (λ c. (c.key, c.demand)) asked;
  total = total (λ c. c.demand) asked;
  unmet_guarantee = 0;
}

abbrev ten : InstanceBudget
ten =
    new_budget
      (record {
        max_connections = 10;
        superuser_reserved_connections = 0;
        reserved_connections = 0;
      })
      0 5

abbrev her_policies : Policies ℕ
her_policies = record {
  weights = [];
  rules =
      ((2 ∷ []), record { instances = 7 ∷ []; policy = record { min = 0; max = 9; weight = 1 } })
      ∷ [];
}

abbrev wish : Report (Slot ℕ)
wish = record { generation = 0; usage = (her_slot, record { demand = 3; actual = 0 }) ∷ [] }

abbrev asked : State ℕ ℕ
asked = report_for (set_policies (add_instance (new_state 1) 7 ten) her_policies) 1 wish

abbrev granted_ : State ℕ ℕ
granted_ = (reconcile generous 0 asked).0

three : granted_in granted_.table 7 (ann, 1) ≡ 3
unfolding report_for add_instance reconcile track_idle apply precondition install desired_on
    grant_tenants grant_shares grant_share grant claim_from claims holders_from publish all_equal
    publish_to move_all report_to lookup insert map_values new_budget derive split divide zipped
    tenant_ord occupied_from fold_occupied sort_by give_up_to give shave best_from shortfalls higher
    grants_over of_proxy
three = refl

-- The proxy 1 asks, is granted three connections, reads its grants and opens one.
abbrev asking : World ℕ ℕ
asking = record { coordinator = asked; agents = λ q. new_agent }

asking-Reachable : Reachable 7 generous 0 10 asking
unfolding report_for add_instance lookup insert new_budget derive tenant_ord
asking-Reachable = then_ (then_ (then_ (fresh 1) (adds 7 ten)) (sets_policies her_policies)) (
    reports 1 wish refl refl (λ slot. refl)
      (λ slot. elim (Bool-cases (her_slot ≟ slot)) [
        | inl hit ↦ rw hit refl
        | inr miss ↦ rw miss refl
      ]))

abbrev informed : Agent (Slot ℕ)
informed = record new_agent { read = (proxy_of (reconcile_at generous 0 asked 5).0 1).grants }

abbrev resized : Agent (Slot ℕ)
resized = record informed {
  limits = update informed.limits her_slot (slots_of informed.read her_slot);
}

abbrev opened : World ℕ ℕ
opened =
    with_agent
      (with_agent
        (with_agent (with_coordinator asking (reconcile_at generous 0 asked 5).0) 1 informed) 1
        resized)
      1 (record resized { live = update resized.live her_slot (resized.live her_slot + 1) })

opened-Reachable : Reachable 7 generous 0 10 opened
unfolding report_for add_instance reconcile track_idle apply precondition install desired_on
    grant_tenants grant_shares grant_share grant claim_from claims holders_from publish all_equal
    publish_to move_all report_to lookup insert map_values new_budget derive split divide zipped
    tenant_ord occupied_from fold_occupied sort_by give_up_to give shave best_from shortfalls higher
    grants_over of_proxy
opened-Reachable =
    then_ (then_ (then_ (then_ asking-Reachable (rounds 5)) (reads 1)) (adopts 1 her_slot))
      (opens 1 her_slot (omega arith) refl)

connections_safe_example : connections 7 opened ((ann, 1) ∷ []) ≤ 10
connections_safe_example =
    connections_safe 7 generous 0 10 opened ((ann, 1) ∷ []) opened-Reachable (omega arith) (tt, tt)

one_open : connections 7 opened ((ann, 1) ∷ []) ≡ 1
unfolding tenant_ord
one_open = refl

asked-IsSteady : IsSteady asked
asked-IsSteady =
    let sound = (Reachable-IsSound 7 generous 0 10 asking asking-Reachable).0 in
    (sound.0, Agrees-IsCovered asked asking.agents sound.1)

asked-budget_on : budget_on asked 7 ≤ u32_max
unfolding report_for add_instance lookup insert new_budget derive
asked-budget_on = omega arith

reconcile_ceiling_example :
    occupied_on (reconcile generous 0 asked).0 7 ≤ max (occupied_on asked 7) (budget_on asked 7)
reconcile_ceiling_example = reconcile_ceiling generous 0 asked 7 asked-IsSteady asked-budget_on

reconcile-IsSteady_example : IsSteady (reconcile generous 0 asked).0
reconcile-IsSteady_example = reconcile-IsSteady generous 0 asked asked-IsSteady

desired_on-excess_example :
    weigh (excess asked 7) (desired_on generous 0 asked 7 ten).granted
    ≤ ten.budget.total - occupied_on asked 7
desired_on-excess_example =
    desired_on-excess generous 0 asked 7 ten asked-IsSteady.0.0 asked-IsSteady.1

-- The proxy 2 is not known.
stranger : ¬ Active asked 2
unfolding report_for add_instance lookup insert
stranger (state, known, stays) = absurd (cc)

desired_on-none_example : lookup (ann, 2) (desired_on generous 0 asked 7 ten).granted ≡ none
desired_on-none_example = desired_on-none generous 0 asked 7 ten ann 2 asked-IsSteady.0.0 stranger

-- A proxy that may occupy three slots, and what becomes of them when its grant falls.
abbrev three_held : ProxyState ℕ
three_held = record {
  grants = record { generation = 4; grants = (7, 3) ∷ [] };
  demand = [];
  held = (7, record { changed_at = 4; occupied = 3 }) ∷ [];
  departed = false;
  idle_since = [];
}

abbrev higher_grant : Map ℕ ℕ
higher_grant = (7, 3) ∷ []

abbrev lower_grant : Map ℕ ℕ
lower_grant = (7, 1) ∷ []

covered : slots_in higher_grant 7 ≤ occupied three_held 7
unfolding lookup
covered = omega arith

publish_to-occupied_example :
    occupied (publish_to 5 higher_grant lower_grant three_held) 7
    ≡ max (occupied three_held 7) (slots_in lower_grant 7)
publish_to-occupied_example =
    publish_to-occupied 5 higher_grant lower_grant three_held 7 (tt, tt) covered

-- The proxy 1 may occupy three of ten connections.
abbrev three_occupied : State ℕ ℕ
three_occupied = record (new_state 1) {
  budgets = (7, ten) ∷ [];
  proxies =
      (1, record new_proxy { held = (her_slot, record { changed_at = 1; occupied = 3 }) ∷ [] })
      ∷ [];
}

ten_budgeted : lookup 7 three_occupied.budgets ≡ some ten
unfolding lookup
ten_budgeted = refl

ten_fits : ten.budget.total < u32_max
unfolding new_budget derive
ten_fits = omega arith

within_budget_lem_example :
    ((within_budget three_occupied 7 ≡ true)
      × (total (held_at 7 three_occupied) ((ann, 1) ∷ []) ≤ ten.budget.total))
    ⊎ ((within_budget three_occupied 7 ≡ false)
        × (over : List (TenantId × ℕ)) × Once over
        × (ten.budget.total < total (held_at 7 three_occupied) over))
within_budget_lem_example =
    within_budget_lem 7 three_occupied ten ((ann, 1) ∷ []) ((tt, tt), ((tt, tt), tt), (tt, tt), tt)
      ten_budgeted ten_fits (tt, tt)
