-- ===== src/Budget/Tests.antt =====
-- The theorems on crates/core/src/budget.rs at concrete inputs.
use pg_steward.Base.{◌+◌, ◌-◌, ◌<◌, min, u32_max, ◌≤◌, ◌≡◌, refl, ◌⊎◌, List, [], ◌∷◌, ◌++◌, arith}
use pg_steward.Budget.{
  ServerLimits, BudgetInputs, InstanceBudget, Sample, deductions, derive, expire, outdo,
  observe_peak, new_peak, peak, with_margin, new_budget, rederive, set_margin, shrank, unchanged,
}
use pg_steward.Budget
use pg_steward.Budget.Derive.{IsDerived, set_margin_shrinks, operations-IsDerived}
use pg_steward.Budget.Deque.{recent_peak, observe_all}
use pg_steward.Budget.Peak.{peak-observe_all}

abbrev limits : ServerLimits
limits = record {
  max_connections = 100;
  superuser_reserved_connections = 3;
  reserved_connections = 0;
}

abbrev inputs : BudgetInputs
inputs = record { limits = limits; foreign_peak = 5; margin = 2 }

derive_runs : (derive inputs).total ≡ 90
unfolding derive
derive_runs = refl

abbrev seen : List Sample
seen = (1, 9) ∷ (4, 3) ∷ (6, 5) ∷ []

peak_runs : peak (observe_peak (observe_all (new_peak 5) seen) 8 2) ≡ 5
unfolding observe_all observe_peak outdo expire
peak_runs = refl

peak-observe_all_example :
    peak (observe_peak (observe_all (new_peak 5) seen) 8 2) ≡ recent_peak 5 8 (seen ++ (8, 2) ∷ [])
peak-observe_all_example = peak-observe_all 5 8 2 seen (omega arith) (omega arith)

abbrev held : InstanceBudget
held = new_budget limits 2 5

operations-IsDerived_example :
    IsDerived held
    × IsDerived (Budget.observe held 3 1).0
    × IsDerived (Budget.update_limits held limits).0
    × IsDerived (set_margin held 2).0
operations-IsDerived_example = operations-IsDerived limits 2 5 held 3 1

set_margin_shrinks_example :
    ((set_margin held 10).0.margin ≡ 10)
    × ((set_margin held 10).0.limits ≡ held.limits)
    × ((set_margin held 10).0.peak ≡ held.peak)
    × ((set_margin held 10).0.budget.total
        ≡ min (100 - (min (3 + 0) u32_max + peak held.peak + 10)) u32_max)
    × ((set_margin held 10).0.budget.total ≤ held.budget.total)
    × ((((set_margin held 10).0.budget.total < held.budget.total)
          × ((set_margin held 10).1 ≡ shrank held.budget.total (set_margin held 10).0.budget.total))
        ⊎ (((set_margin held 10).0.budget.total ≡ held.budget.total)
            × ((set_margin held 10).1 ≡ unchanged)))
unfolding new_budget
set_margin_shrinks_example = set_margin_shrinks held 10 operations-IsDerived_example.0 (omega arith)
