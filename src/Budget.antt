-- ===== src/Budget.antt =====
-- crates/core/src/budget.rs: an instance's total budget, derived from what the instance reports.
-- An `Instant` and a `Duration` are numbers of one unit; `saturating_duration_since` is
-- subtraction that stops at 0. The front of the deque is the head of the list.
pub mod Derive
pub mod Deque
pub mod Peak
mod Tests
use pg_steward.Base.{
  ℕ, ◌+◌, ◌-◌, min, Bool, List, [], ◌∷◌, ◌++◌, if◌then◌else◌, ltb, leb, ◌==◌, saturate,
  saturating_add,
}

pub record ServerLimits : Type 0 where
  pub max_connections : ℕ
  pub superuser_reserved_connections : ℕ
  pub reserved_connections : ℕ

abbrev pub reserved : ServerLimits → ℕ
reserved l = saturating_add l.superuser_reserved_connections l.reserved_connections

pub record BudgetInputs : Type 0 where
  pub limits : ServerLimits
  pub foreign_peak : ℕ
  pub margin : ℕ

abbrev pub deductions : BudgetInputs → ℕ
deductions i = reserved i.limits + i.foreign_peak + i.margin

pub record TotalBudget : Type 0 where
  pub inputs : BudgetInputs
  pub total : ℕ
  pub shortfall : ℕ

unfoldable pub derive : BudgetInputs → TotalBudget
derive i = record {
  inputs = i;
  total = saturate (i.limits.max_connections - deductions i);
  shortfall = saturate (deductions i - i.limits.max_connections);
}

abbrev pub is_exhausted : TotalBudget → Bool
is_exhausted b = b.total == 0

-- A sample: when, and how many foreign connections.
abbrev pub Sample : Type 0
Sample = ℕ × ℕ

pub record ForeignPeak : Type 0 where
  pub window : ℕ
  pub samples : List Sample

abbrev pub new_peak : ℕ → ForeignPeak
new_peak window = record { window = window; samples = [] }

-- The first loop of `observe` pops the front.
unfoldable pub expire : ℕ → ℕ → List Sample → List Sample
expire window at [] = []
expire window at ((oldest, count) ∷ samples) =
    if leb (at - oldest) window then (oldest, count) ∷ samples else expire window at samples

-- The second loop pops the back: what is popped is a suffix with no larger count.
abbrev pub beside : ℕ → Sample → List Sample → List Sample
beside count s [] = if ltb count s.1 then s ∷ [] else []
beside count s (r ∷ rest) = s ∷ r ∷ rest

unfoldable pub outdo : ℕ → List Sample → List Sample
outdo count [] = []
outdo count (s ∷ samples) = beside count s (outdo count samples)

unfoldable pub observe_peak : ForeignPeak → ℕ → ℕ → ForeignPeak
observe_peak p at count = record p {
  samples = outdo count (expire p.window at p.samples) ++ (at, count) ∷ [];
}

abbrev pub front : List Sample → ℕ
front [] = 0
front ((_, count) ∷ _) = count

abbrev pub peak : ForeignPeak → ℕ
peak p = front p.samples

pub data BudgetChange : Type 0 where
  unchanged : BudgetChange
  grew : ℕ → ℕ → BudgetChange
  shrank : ℕ → ℕ → BudgetChange

pub record InstanceBudget : Type 0 where
  pub limits : ServerLimits
  pub margin : ℕ
  pub peak : ForeignPeak
  pub budget : TotalBudget

unfoldable pub with_margin : InstanceBudget → ℕ → TotalBudget
unfolding derive
with_margin b margin =
    derive (record { limits = b.limits; foreign_peak = peak b.peak; margin = margin })

unfoldable pub new_budget : ServerLimits → ℕ → ℕ → InstanceBudget
unfolding derive
new_budget limits margin window = record {
  limits = limits;
  margin = margin;
  peak = new_peak window;
  budget =
      derive (record { limits = limits; foreign_peak = peak (new_peak window); margin = margin });
}

abbrev pub change : ℕ → ℕ → BudgetChange
change from to =
    if ltb from to then grew from to else if ltb to from then shrank from to else unchanged

-- The method `derive` of `InstanceBudget`.
unfoldable pub rederive : InstanceBudget → InstanceBudget × BudgetChange
unfolding derive
rederive b =
    let budget =
      derive (record { limits = b.limits; foreign_peak = peak b.peak; margin = b.margin }) in
    (record b { budget = budget }, change b.budget.total budget.total)

unfoldable pub observe : InstanceBudget → ℕ → ℕ → InstanceBudget × BudgetChange
unfolding rederive observe_peak
observe b at foreign_connections =
    rederive (record b { peak = observe_peak b.peak at foreign_connections })

unfoldable pub update_limits : InstanceBudget → ServerLimits → InstanceBudget × BudgetChange
unfolding rederive
update_limits b limits = rederive (record b { limits = limits })

unfoldable pub set_margin : InstanceBudget → ℕ → InstanceBudget × BudgetChange
unfolding rederive
set_margin b margin = rederive (record b { margin = margin })
