-- ===== src/Policy/Tests.antt =====
-- The theorems on tenant rules applied to two rules on two instances.
use pg_steward.Base.Order.{nat_ord, ◌≟◌, Text, text_ord}
use pg_steward.Base.Map.{lookup, insert, IsSorted}
use pg_steward.Base.{
  ℕ, ◌≤◌, ◌≡◌, refl, true, Option, none, some, [], ◌∷◌, if◌then◌else◌, get_or, ok, arith, leb,
}
use pg_steward.Base.{err, ◌⊎◌, ◌<◌, length}
use pg_steward.Protocol.Startup.{StartupMessage, parameter, user_name, database_name, filled}
use pg_steward.Policy.{missing_user, from_startup}
use pg_steward.Policy.Tenant.{from_startup_lem}
use pg_steward.Policy.{
  TenantPolicy, PolicyChange, TenantId, TenantRule, Policies, contains, change_tenant, change_rule,
  check_budgets, minimums_from, route, resolve,
}
use pg_steward.Policy.Change.{IsWithin, change_tenant-IsWithin, lookup-change_tenant}
use pg_steward.Policy.Route.{route_lem, route_total, weight_sum}

-- The rules `a` and `b`, on the instances 1 and 2.
abbrev rule_of : ℕ → TenantRule ℕ
rule_of min = record { instances = 1 ∷ 2 ∷ []; policy = record { min = min; max = 9; weight = 1 } }

abbrev two_rules : Policies ℕ
two_rules = record {
  weights = (1, 2) ∷ (2, 3) ∷ [];
  rules = ((97 ∷ []), rule_of 1) ∷ ((98 ∷ []), rule_of 2) ∷ [];
}

abbrev raise : PolicyChange
raise = record { min = some 4; max = none; weight = none }

abbrev budgets : ℕ → Option ℕ
budgets i = if leb i 2 then some 6 else none

abbrev raised : Policies ℕ
raised = record two_rules { rules = ((97 ∷ []), rule_of 4) ∷ ((98 ∷ []), rule_of 2) ∷ [] }

raised_ok : change_tenant two_rules (97 ∷ []) raise budgets ≡ ok raised
unfolding change_tenant change_rule check_budgets minimums_from lookup insert
raised_ok = refl

all-IsWithin : (i : ℕ) → IsWithin budgets two_rules i
unfolding minimums_from
all-IsWithin i b e = ground arith

change_tenant-IsWithin_example : IsSorted raised.rules × ((i : ℕ) → IsWithin budgets raised i)
change_tenant-IsWithin_example =
    change_tenant-IsWithin two_rules raised (97 ∷ []) raise budgets (((refl, tt), (tt, tt)))
      all-IsWithin raised_ok

lookup-change_tenant_example :
    (rule : TenantRule ℕ) × (policy : TenantPolicy) × (lookup (97 ∷ []) two_rules.rules ≡ some rule)
    × ((q : Text)
        → lookup q raised.rules ≡ (
            if ◌≟◌ {K = Text} (97 ∷ []) q
            then some (record rule { policy = policy })
            else lookup q two_rules.rules))
    × (raised.weights ≡ two_rules.weights)
    × (policy.min ≡ get_or rule.policy.min raise.min)
    × (policy.max ≡ get_or rule.policy.max raise.max)
    × (policy.weight ≡ get_or rule.policy.weight raise.weight)
    × (policy.min ≤ policy.max)
    × ¬ (raise.weight ≡ some 0)
lookup-change_tenant_example =
    lookup-change_tenant two_rules raised (97 ∷ []) raise budgets raised_ok

abbrev client : TenantId
client = record { user = 98 ∷ []; database = 99 ∷ [] }

client_rule : resolve two_rules client ≡ some (rule_of 2)
unfolding lookup
client_rule = refl

weights_sum : weight_sum two_rules (rule_of 2).instances ≡ 5
unfolding lookup
weights_sum = refl

-- The roll 8 leaves 3, which the weight 2 of the first instance does not cover.
route_lem_example : route two_rules client (λ _. 8) ≡ some 2
unfolding lookup
route_lem_example =
    route_lem two_rules client (λ _. 8) (rule_of 2) (1 ∷ []) 2 [] client_rule refl (omega arith)
      (omega arith) (omega arith)

route_total_example :
    (i : ℕ) × (route two_rules client (λ _. 8) ≡ some i) × (contains (rule_of 2).instances i ≡ true)
unfolding lookup
route_total_example =
    route_total two_rules client (λ _. 8) (rule_of 2) client_rule (omega arith) (omega arith)

-- A message that names the user `u` and an empty database.
abbrev hello : StartupMessage
hello = record {
  version = record { major = 3; minor = 0 };
  parameters = (user_name, 117 ∷ []) ∷ (database_name, []) ∷ [];
}

from_startup_lem_example :
    ((filled (parameter hello user_name) ≡ none) × (from_startup hello ≡ err missing_user))
    ⊎ ((t : TenantId) × (from_startup hello ≡ ok t)
        × (parameter hello user_name ≡ some t.user)
        × (t.database ≡ get_or t.user (filled (parameter hello database_name)))
        × (0 < length t.user)
        × (0 < length t.database))
from_startup_lem_example = from_startup_lem hello
