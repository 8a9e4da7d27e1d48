-- ===== src/Allocation.antt =====
-- crates/core/src/allocation.rs: the desired state of the whole system and the one way to write it.
-- An instance, a tenant and a proxy are named by values of any types with a lawful order; in the
-- code they are strings. The `u64` total sums `u32` grants and does not wrap.
pub mod Grant
pub mod Apply
pub mod Published
mod Tests
use pg_steward.Base.{
  ℕ, ◌+◌, ◌-◌, Bool, Option, none, some, List, [], ◌∷◌, ◌++◌, if◌then◌else◌, ltb, ◌==◌, get_or,
  saturate,
}
use pg_steward.Base.Order.{Ord, ◌≟◌, pair_ord}
use pg_steward.Base.Map.{Map, lookup, insert, remove}

pub record Desired (H : Type 0) : Type 0 where
  pub budget : ℕ
  pub granted : Map H ℕ
  pub total : ℕ

abbrev pub new_desired : {H : Type 0} → ℕ → Desired H
new_desired budget = record { budget = budget; granted = []; total = 0 }

module _ {H : Type 0} ⦃o : Ord H⦄ where
  unfoldable pub grant : Desired H → H → ℕ → Desired H
  grant d holder slots = record d {
    granted = if slots == 0 then remove holder d.granted else insert holder slots d.granted;
    total = d.total - get_or 0 (lookup holder d.granted) + slots;
  }

  abbrev pub granted : Desired H → H → ℕ
  granted d holder = get_or 0 (lookup holder d.granted)

  abbrev pub granted_of : H → Option (Desired H) → ℕ
  granted_of holder none = 0
  granted_of holder (some d) = granted d holder

abbrev pub Entry : Type 0 → Type 0 → Type 0
Entry I H = Map I (Desired H)

pub record AllocationTable (I H : Type 0) : Type 0 where
  pub instances : Map I (Desired H)

abbrev pub new_table : {I H : Type 0} → AllocationTable I H
new_table = record { instances = [] }

pub data PreconditionError (I : Type 0) : Type 0 where
  over_budget : I → ℕ → ℕ → PreconditionError I

abbrev pub budget_of : {H : Type 0} → Option (Desired H) → ℕ
budget_of none = 0
budget_of (some d) = d.budget

abbrev pub total_of_desired : {H : Type 0} → Option (Desired H) → ℕ
total_of_desired none = 0
total_of_desired (some d) = d.total

module _ {I H : Type 0} where
  -- The first loop of `apply`.
  unfoldable pub precondition : Entry I H → Option (PreconditionError I)
  precondition [] = none
  precondition ((instance_id, d) ∷ entry) =
      if ltb d.budget d.total
      then some (over_budget instance_id d.total d.budget)
      else precondition entry

module _ {I H : Type 0} ⦃o : Ord I⦄ where
  -- The second loop of `apply`.
  unfoldable pub install : Entry I H → Map I (Desired H) → Map I (Desired H)
  install [] m = m
  install ((instance_id, d) ∷ entry) m = install entry (insert instance_id d m)

  -- The table after the call, and the error if there is one.
  unfoldable pub apply :
      AllocationTable I H → Entry I H → AllocationTable I H × Option (PreconditionError I)
  apply table entry = elim (precondition entry) [
    | some error ↦ (table, some error)
    | none ↦ (record { instances = install entry table.instances }, none)
  ]

  abbrev pub budget : AllocationTable I H → I → ℕ
  budget table i = budget_of (lookup i table.instances)

  abbrev pub granted_total : AllocationTable I H → I → ℕ
  granted_total table i = saturate (total_of_desired (lookup i table.instances))

  abbrev pub headroom : AllocationTable I H → I → ℕ
  headroom table i = budget table i - granted_total table i

module _ {I H : Type 0} ⦃o : Ord I⦄ ⦃h : Ord H⦄ where
  abbrev pub granted_in : AllocationTable I H → I → H → ℕ
  granted_in table i holder = granted_of holder (lookup i table.instances)

-- What one proxy is granted, over the instances in order and the holders of each in order.
module _ {I T P : Type 0} ⦃p : Ord P⦄ where
  unfoldable pub of_proxy : P → I → Map (T × P) ℕ → List ((I × T) × ℕ)
  of_proxy proxy i [] = []
  of_proxy proxy i (((tenant, holder), slots) ∷ m) =
      if holder ≟ proxy then ((i, tenant), slots) ∷ of_proxy proxy i m else of_proxy proxy i m

  unfoldable pub grants_over : P → Map I (Desired (T × P)) → List ((I × T) × ℕ)
  grants_over proxy [] = []
  grants_over proxy ((i, d) ∷ m) = of_proxy proxy i d.granted ++ grants_over proxy m

  abbrev pub grants_for : AllocationTable I (T × P) → P → List ((I × T) × ℕ)
  grants_for table proxy = grants_over proxy table.instances
