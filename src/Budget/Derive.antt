-- ===== src/Budget/Derive.antt =====
-- The arithmetic of the total budget, and that an `InstanceBudget` always holds the derived one.
use pg_steward.Base.{ℕ, ◌+◌, ◌-◌, ◌≤◌, ◌<◌, ◌≡◌, refl, ap, ◌⊎◌, arith, u32_max, min}
use pg_steward.Budget.{
  ServerLimits, BudgetInputs, TotalBudget, InstanceBudget, unchanged, shrank, peak, deductions,
  derive, with_margin, new_budget, observe, update_limits, set_margin,
}

-- The inputs are `u32` values.
pub record IsWord (i : BudgetInputs) : Type 0 where
  pub max_word : i.limits.max_connections ≤ u32_max

-- Budget and deductions together are `max_connections`, up to the shortfall, of which one is 0: the
-- budget is at most what the instance has left over, and equal to it where anything is left over.
pub derive_total :
    (i : BudgetInputs)
    → IsWord i
    → ((derive i).total + deductions i
        ≡ i.limits.max_connections + (deductions i - i.limits.max_connections))
      × ((derive i).shortfall ≡ min (deductions i - i.limits.max_connections) u32_max)
      × (((derive i).total ≡ 0) ⊎ ((derive i).shortfall ≡ 0))
unfolding derive
derive_total i w = ground arith

-- The stored budget is the one that the present inputs derive.
abbrev pub IsDerived : InstanceBudget → Type 0
IsDerived b = b.budget ≡ with_margin b b.margin

-- A new budget is the derived one, and every operation leaves it so, whatever was stored before.
pub operations-IsDerived :
    (limits : ServerLimits) (margin window : ℕ) (b : InstanceBudget) (at foreign : ℕ)
    → IsDerived (new_budget limits margin window)
      × IsDerived (observe b at foreign).0
      × IsDerived (update_limits b limits).0
      × IsDerived (set_margin b margin).0
unfolding new_budget observe update_limits set_margin with_margin
operations-IsDerived limits margin window b at foreign = (refl, refl, refl, refl)

-- If the stored budget is the derived one, setting a margin that is not smaller stores that margin
-- and keeps the limits and the peak; the new total is what `max_connections` leaves over the reserved
-- connections, the foreign peak and the new margin; it is at most the old one; and the answer is
-- `shrank` with the old and the new total if it is smaller, and `unchanged` if they are equal.
pub set_margin_shrinks :
    (b : InstanceBudget) (margin : ℕ)
    → IsDerived b
    → b.margin ≤ margin
    → ((set_margin b margin).0.margin ≡ margin)
      × ((set_margin b margin).0.limits ≡ b.limits)
      × ((set_margin b margin).0.peak ≡ b.peak)
      × ((set_margin b margin).0.budget.total
          ≡ min
              (b.limits.max_connections
                - (min
                      (b.limits.superuser_reserved_connections + b.limits.reserved_connections)
                      u32_max
                    + peak b.peak
                    + margin))
              u32_max)
      × ((set_margin b margin).0.budget.total ≤ b.budget.total)
      × ((((set_margin b margin).0.budget.total < b.budget.total)
            × ((set_margin b margin).1
                ≡ shrank b.budget.total (set_margin b margin).0.budget.total))
          ⊎ (((set_margin b margin).0.budget.total ≡ b.budget.total)
              × ((set_margin b margin).1 ≡ unchanged)))
unfolding set_margin with_margin
set_margin_shrinks b margin d h =
    let old = ap (λ (t : TotalBudget). t.total) d in
    (refl, refl, refl, ground arith, ground (arith, old), ground (arith, old))

-- A margin that `with_margin` was asked about gives the budget that `set_margin` then stores.
pub set_margin-with_margin :
    (b : InstanceBudget) (margin : ℕ)
    → ((set_margin b margin).0.budget ≡ with_margin b margin)
      × ((set_margin b margin).0.limits ≡ b.limits)
      × ((set_margin b margin).0.peak ≡ b.peak)
unfolding set_margin with_margin
set_margin-with_margin b margin = (refl, refl, refl)
