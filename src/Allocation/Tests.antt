-- ===== src/Allocation/Tests.antt =====
-- The theorems on crates/core/src/allocation.rs at concrete inputs.
use pg_steward.Base.{ℕ, ◌≤◌, ◌≡◌, refl, ◌⊎◌, none, some, [], ◌∷◌, All}
use pg_steward.Base.Order.{nat_ord, pair_ord}
use pg_steward.Base.Map.{lookup, insert, total_of}
use pg_steward.Allocation.{
  Desired, Entry, PreconditionError, over_budget, new_desired, new_table, grant, precondition,
  install, apply, grants_for,
}
use pg_steward.Allocation.Grant.{IsCounted, new-IsCounted, grant-IsCounted}
use pg_steward.Allocation.Apply.{Offends, or_else, apply_atomic, apply_all, apply_all_safe}
use pg_steward.Allocation.Published.{held_by, lookup-grants_for}

-- Tenant 5 holds 3 slots at proxy 1 and 4 at proxy 2.
abbrev shared : Desired (ℕ × ℕ)
shared = grant (grant (new_desired 10) (5, 1) 3) (5, 2) 4

shared-IsCounted : IsCounted shared
shared-IsCounted = grant-IsCounted _ _ _ (grant-IsCounted _ _ _ (new-IsCounted 10))

abbrev over : Desired (ℕ × ℕ)
over = grant (new_desired 2) (5, 1) 3

abbrev entry : Entry ℕ (ℕ × ℕ)
entry = (1, shared) ∷ []

abbrev refused : Entry ℕ (ℕ × ℕ)
refused = (1, shared) ∷ (2, over) ∷ []

refused_whole : apply new_table refused ≡ (new_table, some (over_budget 2 3 2))
unfolding apply precondition grant insert lookup
refused_whole = refl

apply_atomic_example :
    (((apply new_table refused).0 ≡ new_table)
      × ((error : PreconditionError ℕ) × ((apply new_table refused).1 ≡ some error)
          × Offends refused error))
    ⊎ (((apply new_table refused).1 ≡ none)
        × All (λ e. e.1.total ≤ e.1.budget) refused
        × ((i : ℕ)
            → lookup i (apply new_table refused).0.instances ≡ or_else (lookup i refused) none))
unfolding lookup
apply_atomic_example = apply_atomic new_table refused (((refl, tt), (tt, tt)))

installed : lookup 1 (apply_all new_table (entry ∷ refused ∷ [])).instances ≡ some shared
unfolding apply_all apply precondition install grant insert lookup
installed = refl

apply_all_safe_example : total_of (λ n. n) shared.granted ≤ 10
unfolding grant
apply_all_safe_example =
    apply_all_safe (entry ∷ refused ∷ []) 1 shared
      ((shared-IsCounted, tt), ((shared-IsCounted, (over_counted, tt)), tt)) installed
  where
    over_counted : IsCounted over
    over_counted = grant-IsCounted _ _ _ (new-IsCounted 2)

lookup-grants_for_example :
    lookup (1, 5) (grants_for (apply new_table entry).0 2)
    ≡ held_by 5 2 (lookup 1 (apply new_table entry).0.instances)
unfolding apply precondition install grant insert lookup
lookup-grants_for_example = lookup-grants_for (apply new_table entry).0 2 1 5 (tt, tt)
