-- ===== src/Coordinator.antt =====
-- crates/core/src/grant.rs: the coordinator in the node's own process, which turns the reports of
-- proxies into grants. Each function is what the code does under one lock, and so is `reconcile`;
-- `set_tenant`, `change_margin` (which is `set_margin` without its wait), `withdraw` and `reconcile_at`
-- join a first lock with the `reconcile` that follows it. Instances and proxies have any ordered names, an `Instant` is a number, and a generation is
-- a `u64` that does not wrap. A `watch` channel holds the value last sent.
pub mod Claims
pub mod Plan
pub mod Publish
pub mod Holding
pub mod Room
pub mod Total
pub mod Ceiling
pub mod Granted
pub mod Reconcile
pub mod Rounds
pub mod Steady
pub mod Promise
pub mod World
pub mod Kept
pub mod Sound
pub mod Agents
pub mod Steps
pub mod Bound
pub mod Safety
pub mod Settled
pub mod Run
mod Tests
use pg_steward.Base.Order.{Ord, ◌≟◌, pair_ord, Text, text_ord}
use pg_steward.Base.Map.{Map, lookup, insert, map_values}
use pg_steward.Base.{
  ℕ, ◌+◌, ◌-◌, ◌≤◌, min, max, Bool, true, false, not, ◌&&◌, ◌||◌, Option, none, some, List, [], ◌∷◌,
  ◌++◌, map, if◌then◌else◌, ltb, leb, ◌==◌, get_or, keep, saturating_add, Result, err, ok,
}
use pg_steward.Sched.{Claim, Grants, get}
use pg_steward.Sched.Split.{Share, split}
use pg_steward.Budget.{
  InstanceBudget, TotalBudget, BudgetChange, unchanged, grew, shrank, observe, set_margin,
  with_margin,
}
use pg_steward.Allocation.{
  Desired, new_desired, grant, AllocationTable, PreconditionError, new_table, install, apply,
  granted_in, grants_for,
}
use pg_steward.Policy.{
  TenantId, tenant_ord, Policies, PolicyChange, SettingError, above_budget, no_such_instance,
  new_policies, change_tenant, policy_on, minimums_on,
}

pub record Usage : Type 0 where
  pub demand : ℕ
  pub actual : ℕ

abbrev pub Slot : Type 0 → Type 0
Slot I = I × TenantId

pub record Report (S : Type 0) : Type 0 where
  pub generation : ℕ
  pub usage : Map S Usage

pub record GrantSet (S : Type 0) : Type 0 where
  pub generation : ℕ
  pub grants : Map S ℕ

pub record Held : Type 0 where
  pub changed_at : ℕ
  pub occupied : ℕ

pub record ProxyState (S : Type 0) : Type 0 where
  pub grants : GrantSet S
  pub demand : Map S ℕ
  pub held : Map S Held
  pub departed : Bool
  pub idle_since : Map S ℕ

pub record State (I P : Type 0) : Type 0 where
  pub table : AllocationTable I (TenantId × P)
  pub budgets : Map I InstanceBudget
  pub policies : Policies I
  pub generation : ℕ
  pub now : Option ℕ
  pub proxies : Map P (ProxyState (Slot I))

abbrev pub no_grants : {S : Type 0} → GrantSet S
no_grants = record { generation = 0; grants = [] }

abbrev pub new_proxy : {S : Type 0} → ProxyState S
new_proxy = record { grants = no_grants; demand = []; held = []; departed = false; idle_since = [] }

abbrev pub new_report : {S : Type 0} → ℕ → Report S
new_report generation = record { generation = generation; usage = [] }

abbrev pub occupied_of : Option Held → ℕ
occupied_of none = 0
occupied_of (some h) = h.occupied

abbrev pub keys {ℓ κ} : {K : Type ℓ} {V : Type κ} → Map K V → List K
keys m = map (λ d. d.0) m

-- A `BTreeSet`.
abbrev pub set_of {ℓ} : {K : Type ℓ} ⦃o : Ord K⦄ → List K → Map {ℓ, 0} K Unit
set_of [] = []
set_of (k ∷ ks) = insert k tt (set_of ks)

abbrev pub member {ℓ} : {K : Type ℓ} ⦃o : Ord K⦄ → K → List K → Bool
member q [] = false
member q (k ∷ ks) = k ≟ q || member q ks

module _ {S : Type 0} ⦃o : Ord S⦄ where
  -- The two methods `get`.
  abbrev pub usage_of : Report S → S → Usage
  usage_of r slot = get_or (record { demand = 0; actual = 0 }) (lookup slot r.usage)

  abbrev pub slots_of : GrantSet S → S → ℕ
  slots_of g slot = get_or 0 (lookup slot g.grants)

  abbrev pub occupied : ProxyState S → S → ℕ
  occupied p slot = occupied_of (lookup slot p.held)

module _ {I : Type 0} ⦃i : Ord I⦄ where
  abbrev pub add_usage : Report (Slot I) → I → TenantId → Usage → Report (Slot I)
  add_usage r instance_id tenant usage = record r {
    usage = insert (instance_id, tenant) usage r.usage;
  }

  -- The entries of one instance.
  abbrev pub held_on : I → Slot I × Held → ℕ
  held_on instance_id (slot, h) = if slot.0 ≟ instance_id then h.occupied else 0

  unfoldable pub fold_occupied : I → Map (Slot I) Held → ℕ → ℕ
  fold_occupied instance_id [] sum = sum
  fold_occupied instance_id ((slot, h) ∷ held) sum =
      fold_occupied instance_id held
        (if slot.0 ≟ instance_id then saturating_add sum h.occupied else sum)

module _ {I P : Type 0} ⦃i : Ord I⦄ ⦃p : Ord P⦄ where
  abbrev pub proxy_of : State I P → P → ProxyState (Slot I)
  proxy_of s proxy = get_or new_proxy (lookup proxy s.proxies)

  abbrev pub published : State I P → P → Map (Slot I) ℕ
  published s proxy = grants_for s.table proxy

  abbrev pub budget_on : State I P → I → ℕ
  budget_on s instance_id = elim (lookup instance_id s.budgets) [
    | none ↦ 0
    | some b ↦ b.budget.total
  ]

  -- The fold of `occupied_on` over the proxies, from a sum on.
  unfoldable pub occupied_from : I → Map P (ProxyState (Slot I)) → ℕ → ℕ
  occupied_from instance_id [] sum = sum
  occupied_from instance_id ((_, state) ∷ proxies) sum =
      occupied_from instance_id proxies (fold_occupied instance_id state.held sum)

  abbrev pub occupied_on : State I P → I → ℕ
  occupied_on s instance_id = occupied_from instance_id s.proxies 0

  abbrev pub within_budget : State I P → I → Bool
  within_budget s instance_id = leb (occupied_on s instance_id) (budget_on s instance_id)

  abbrev pub demand_at : State I P → P → Slot I → ℕ
  demand_at s proxy slot = get_or 0 (lookup slot (proxy_of s proxy).demand)

  abbrev pub granted_at : State I P → I → TenantId → P → ℕ
  granted_at s instance_id tenant proxy = granted_in s.table instance_id (tenant, proxy)
