-- ===== src/Policy.antt =====
-- crates/core/src/policy.rs, with TenantPolicy of grant.rs and TenantId of tenant.rs: the rules of
-- tenants, the change of one and the choice of an instance. Instances are any ordered names; a
-- budget and a roll are the functions that the callers pass.
pub mod Change
pub mod Route
pub mod Tenant
mod Tests
use Prim.Native.Nat.{Ordering}
use Prim.Native.Nat.Ordering.{lt, eq, gt}
use pg_steward.Base.Order.{Ord, ◌≟◌, Text, text_ord, Comparison, flip, compare_pair, pair_laws}
use pg_steward.Base.Map.{Map, lookup, insert}
use pg_steward.Protocol.Startup.{StartupMessage, user, database}
use pg_steward.Base.{◌≡◌, ap}
use pg_steward.Base.{
  ℕ, zero, suc, ◌+◌, ◌-◌, ◌%◌, Bool, true, false, ◌||◌, Option, none, some, List, [], ◌∷◌, ◌++◌,
  if◌then◌else◌, ltb, ◌==◌, get_or, saturating_add, Result, err, ok, and_then,
}

pub record TenantPolicy : Type 0 where
  pub min : ℕ
  pub max : ℕ
  pub weight : ℕ

pub record PolicyChange : Type 0 where
  pub min : Option ℕ
  pub max : Option ℕ
  pub weight : Option ℕ

pub record TenantId : Type 0 where
  pub user : Text
  pub database : Text

-- Its derived `Ord`.
abbrev compare_tenant : TenantId → TenantId → Ordering
compare_tenant a b = compare_pair (a.user, a.database) (b.user, b.database)

abbrev text_pair : Comparison (Text × Text) compare_pair
text_pair = pair_laws

abbrev of_pair : Text × Text → TenantId
of_pair p = record { user = p.0; database = p.1 }

tenant_exact : (a b : TenantId) → compare_tenant a b ≡ eq → a ≡ b
tenant_exact a b h = ap of_pair (text_pair.exact (a.user, a.database) (b.user, b.database) h)

tenant_swap : (a b : TenantId) → compare_tenant b a ≡ flip (compare_tenant a b)
tenant_swap a b = text_pair.swap (a.user, a.database) (b.user, b.database)

tenant_chain :
    (a b c : TenantId) → compare_tenant a b ≡ lt → compare_tenant b c ≡ lt → compare_tenant a c ≡ lt
tenant_chain a b c h k =
    text_pair.chain (a.user, a.database) (b.user, b.database) (c.user, c.database) h k

pub tenant_laws : Comparison TenantId compare_tenant
tenant_laws = record { exact = tenant_exact; swap = tenant_swap; chain = tenant_chain }

instance unfoldable pub tenant_ord : Ord TenantId
tenant_ord = record { cmp = compare_tenant; laws = tenant_laws }

-- Its `Display`, the user and the database around `@`.
abbrev pub display : TenantId → Text
display tenant = tenant.user ++ 64 ∷ tenant.database

pub data TenantResolveError : Type 0 where
  missing_user : TenantResolveError

unfoldable pub from_startup : StartupMessage → Result TenantResolveError TenantId
from_startup m = elim (user m) [
  | none ↦ err missing_user
  | some u ↦ ok record { user = u; database = get_or u (database m) }
]

abbrev pub wildcard : Text
wildcard = 42 ∷ []

pub record TenantRule (I : Type 0) : Type 0 where
  pub instances : List I
  pub policy : TenantPolicy

pub record Policies (I : Type 0) : Type 0 where
  pub weights : Map I ℕ
  pub rules : Map Text (TenantRule I)

pub data SettingError (I : Type 0) : Type 0 where
  no_such_tenant : Text → SettingError I
  min_above_max : ℕ → ℕ → SettingError I
  zero_weight : SettingError I
  no_such_instance : I → SettingError I
  above_budget : I → ℕ → ℕ → SettingError I

abbrev pub new_policies : {I : Type 0} → Policies I
new_policies = record { weights = []; rules = [] }

abbrev pub contains : {I : Type 0} ⦃order : Ord I⦄ → List I → I → Bool
contains [] i = false
contains (x ∷ xs) i = x ≟ i || contains xs i

module _ {I : Type 0} ⦃order : Ord I⦄ where
  -- The fold of `minimums_on`, from a sum on.
  unfoldable pub minimums_from : ℕ → Map Text (TenantRule I) → I → ℕ
  minimums_from sum [] i = sum
  minimums_from sum ((_, rule) ∷ rules) i =
      minimums_from (if contains rule.instances i then saturating_add sum rule.policy.min else sum)
        rules i

  abbrev pub minimums_on : Policies I → I → ℕ
  minimums_on p i = minimums_from 0 p.rules i

  abbrev pub changed_weight : PolicyChange → TenantPolicy → Result (SettingError I) ℕ
  changed_weight change policy = elim change.weight [
    | none ↦ ok policy.weight
    | some w ↦ if w == 0 then err zero_weight else ok w
  ]

  -- The loop over the instances of the changed rule.
  unfoldable pub check_budgets :
      (I → Option ℕ) → Policies I → List I → Result (SettingError I) (Policies I)
  check_budgets budget changed [] = ok changed
  check_budgets budget changed (i ∷ instances) =
      let rest = check_budgets budget changed instances in
      elim (budget i) [
        | none ↦ rest
        | some b ↦
            if ltb b (minimums_on changed i)
            then err (above_budget i (minimums_on changed i) b)
            else rest
      ]

  abbrev pub with_policy : Policies I → Text → TenantRule I → TenantPolicy → Policies I
  with_policy p tenant rule policy = record p {
    rules = insert tenant (record rule { policy = policy }) p.rules;
  }

  unfoldable pub change_rule :
      Policies I
      → Text
      → TenantRule I
      → PolicyChange
      → (I → Option ℕ)
      → ℕ
      → Result (SettingError I) (Policies I)
  change_rule p tenant rule change budget weight =
      let low = get_or rule.policy.min change.min in
      let high = get_or rule.policy.max change.max in
      if ltb high low
      then err (min_above_max low high)
      else check_budgets budget
          (with_policy p tenant rule record { min = low; max = high; weight = weight })
          rule.instances

  unfoldable pub change_tenant :
      Policies I → Text → PolicyChange → (I → Option ℕ) → Result (SettingError I) (Policies I)
  change_tenant p tenant change budget = elim (lookup tenant p.rules) [
    | none ↦ err (no_such_tenant tenant)
    | some rule ↦
        and_then (changed_weight change rule.policy) (change_rule p tenant rule change budget)
  ]

  abbrev pub with_instance : Policies I → I → ℕ → Policies I
  with_instance p i weight = record p { weights = insert i weight p.weights }

  abbrev pub with_tenant : Policies I → Text → TenantRule I → Policies I
  with_tenant p key rule = record p { rules = insert key rule p.rules }

  -- `or_else` of an `Option`.
  abbrev or_else : Option (TenantRule I) → Option (TenantRule I) → Option (TenantRule I)
  or_else none other = other
  or_else (some r) other = some r

  abbrev pub resolve : Policies I → TenantId → Option (TenantRule I)
  resolve p tenant =
      or_else (lookup (display tenant) p.rules)
        (or_else (lookup tenant.user p.rules) (lookup wildcard p.rules))

  abbrev pub policy_on : Policies I → I → TenantId → Option TenantPolicy
  policy_on p i tenant = elim (resolve p tenant) [
    | none ↦ none
    | some rule ↦ if contains rule.instances i then some rule.policy else none
  ]

  abbrev pub weight_of : Policies I → I → ℕ
  weight_of p i = get_or 1 (lookup i p.weights)

  -- The sum of the weights, a `u32`.
  abbrev pub total_weight : Policies I → List I → ℕ
  total_weight p [] = 0
  total_weight p (i ∷ is) = (weight_of p i + total_weight p is) % 4294967296

  -- The loop of `route`, with `left` to go.
  unfoldable pub pick : Policies I → List I → ℕ → Option I
  pick p [] left = none
  pick p (i ∷ is) left =
      if ltb left (weight_of p i) then some i else pick p is (left - weight_of p i)

  unfoldable pub route_in : Policies I → TenantRule I → (ℕ → ℕ) → Option I
  route_in p rule roll =
      let total = total_weight p rule.instances in
      if total == 0 then none else pick p rule.instances (roll total % total)

  unfoldable pub route : Policies I → TenantId → (ℕ → ℕ) → Option I
  route p tenant roll = elim (resolve p tenant) [ none ↦ none | some rule ↦ route_in p rule roll ]
