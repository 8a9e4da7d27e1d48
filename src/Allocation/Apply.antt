-- ===== src/Allocation/Apply.antt =====
-- `AllocationTable::apply`: an entry is installed whole or rejected whole, and no instance is ever
-- granted more than its budget.
use mathlib.Core.Option.{some-injective}
use pg_steward.Base.{
  ◌≤◌, ◌<◌, ◌≡◌, refl, sym, subst, ◌∙◌, ◌⊎◌, inl, inr, Option, none, some, List, [], ◌∷◌, arith,
  All, Bool-cases, Option-cases,
}
use pg_steward.Base.Order.{Ord, ◌≟◌}
use pg_steward.Base.Map.{
  Map, lookup, insert, IsSorted, total_of, lookup-insert, insert-IsSorted, lookup_above, All-insert,
}
use pg_steward.Allocation.{
  Desired, Entry, AllocationTable, PreconditionError, over_budget, new_table, precondition, install,
  apply,
}
use pg_steward.Allocation.Grant.{IsCounted}

-- Every desired state written was built up by `grant`.
abbrev pub AllCounted : {I H : Type 0} ⦃h : Ord H⦄ → Entry I H → Type 0
AllCounted = All (λ e. IsCounted e.1)

module _ {I H : Type 0} where
  precondition-none :
      (entry : Entry I H) → precondition entry ≡ none → All (λ e. e.1.total ≤ e.1.budget) entry
  unfolding precondition
  precondition-none [] e = tt
  precondition-none ((i, d) ∷ entry) e = ground (arith, precondition-none entry)

  -- The error names an instance of the entry that is over its budget.
  abbrev pub Offends : Entry I H → PreconditionError I → Type 0
  Offends [] error = ⊥
  Offends ((i, d) ∷ entry) error =
      ((error ≡ over_budget i d.total d.budget) × (d.budget < d.total)) ⊎ Offends entry error

  precondition-some :
      (entry : Entry I H) (error : PreconditionError I)
      → precondition entry ≡ some error
      → Offends entry error
  unfolding precondition
  precondition-some [] error e = ground arith
  precondition-some ((i, d) ∷ entry) error e = ground (arith, precondition-some entry error)

abbrev pub or_else {ℓ} : {A : Type ℓ} → Option A → Option A → Option A
or_else none other = other
or_else (some a) other = some a

module _ {I H : Type 0} ⦃o : Ord I⦄ where
  pub lookup-install :
      (i : I) (entry : Entry I H) (m : Map I (Desired H))
      → IsSorted entry
      → lookup i (install entry m) ≡ or_else (lookup i entry) (lookup i m)
  unfolding lookup install
  lookup-install i [] m s = refl
  lookup-install i ((k, d) ∷ entry) m s =
      lookup-install i entry (insert k d m) s.1
      ∙ ground (arith, lookup-insert i k d m, lookup_above k entry s.0, o.exact k i)

  pub install-IsSorted :
      (entry : Entry I H) (m : Map I (Desired H)) → IsSorted m → IsSorted (install entry m)
  unfolding install
  install-IsSorted [] m s = s
  install-IsSorted ((k, d) ∷ entry) m s =
      install-IsSorted entry (insert k d m) (insert-IsSorted k d m s)

  All-install {ℓ} :
      (P : I × Desired H → Type ℓ) (entry : Entry I H) (m : Map I (Desired H))
      → All P entry
      → All P m
      → All P (install entry m)
  unfolding install
  All-install P [] m a b = b
  All-install P ((k, d) ∷ entry) m a b =
      All-install P entry (insert k d m) a.1 (All-insert P k d m a.0 b)

module _ {I H : Type 0} ⦃o : Ord I⦄ ⦃h : Ord H⦄ where
  -- Every instance is granted at most its budget, and its total is the sum of its grants.
  pub record IsWithin (table : AllocationTable I H) : Type 0 where
    pub sorted : IsSorted table.instances
    pub fits : All (λ e. e.1.total ≤ e.1.budget) table.instances
    pub counted : AllCounted table.instances

  pub apply_cases {ℓ} :
      (P : AllocationTable I H × Option (PreconditionError I) → Type ℓ)
      (table : AllocationTable I H) (entry : Entry I H)
      → ((error : PreconditionError I) → precondition entry ≡ some error → P (table, some error))
      → (precondition entry ≡ none → P (record { instances = install entry table.instances }, none))
      → P (apply table entry)
  unfolding apply
  apply_cases P table entry rejected installed = elim (Option-cases (precondition entry)) [
    | inl e ↦ rw (e, apply) (installed e)
    | inr (error, e) ↦ rw (e, apply) (rejected error e)
  ]

  -- Every entry keeps every instance within its budget, whether it is installed or rejected.
  pub apply-IsWithin :
      (table : AllocationTable I H) (entry : Entry I H)
      → AllCounted entry
      → IsWithin table
      → IsWithin (apply table entry).0
  apply-IsWithin table entry counted w =
      apply_cases (λ r. IsWithin r.0) table entry (λ error e. w)
        λ e. record {
          sorted = install-IsSorted entry table.instances w.sorted;
          fits = All-install _ entry table.instances (precondition-none entry e) w.fits;
          counted = All-install _ entry table.instances counted w.counted;
        }

  -- A rejected entry changes nothing and names an instance that it would put over its budget; an
  -- installed one fits every budget, and replaces exactly the instances it names.
  pub apply_atomic :
      (table : AllocationTable I H) (entry : Entry I H)
      → IsSorted entry
      → (((apply table entry).0 ≡ table)
          × ((error : PreconditionError I) × ((apply table entry).1 ≡ some error)
              × Offends entry error))
        ⊎ (((apply table entry).1 ≡ none)
            × All (λ e. e.1.total ≤ e.1.budget) entry
            × ((i : I)
                → lookup i (apply table entry).0.instances
                  ≡ or_else (lookup i entry) (lookup i table.instances)))
  apply_atomic table entry s =
      apply_cases
        (λ r.
          ((r.0 ≡ table)
            × ((error : PreconditionError I) × (r.1 ≡ some error) × Offends entry error))
          ⊎ ((r.1 ≡ none)
              × All (λ e. e.1.total ≤ e.1.budget) entry
              × ((i : I)
                  → lookup i r.0.instances ≡ or_else (lookup i entry) (lookup i table.instances))))
        table entry (λ error e. inl (refl, (error, refl, precondition-some entry error e)))
        λ e. inr (refl, precondition-none entry e, λ i. lookup-install i entry table.instances s)

  unfoldable pub apply_all : AllocationTable I H → List (Entry I H) → AllocationTable I H
  apply_all table [] = table
  apply_all table (entry ∷ entries) = apply_all (apply table entry).0 entries

  apply_all-IsWithin :
      (table : AllocationTable I H) (entries : List (Entry I H))
      → All AllCounted entries
      → IsWithin table
      → IsWithin (apply_all table entries)
  unfolding apply_all
  apply_all-IsWithin table [] c w = w
  apply_all-IsWithin table (entry ∷ entries) c w =
      apply_all-IsWithin (apply table entry).0 entries c.1 (apply-IsWithin table entry c.0 w)

  at_instance :
      (m : Map I (Desired H)) (i : I) (d : Desired H)
      → All (λ e. e.1.total ≤ e.1.budget) m
      → AllCounted m
      → lookup i m ≡ some d
      → (d.total ≤ d.budget) × (d.total ≡ total_of (λ n. n) d.granted)
  unfolding lookup
  at_instance [] i d f c e = ground arith
  at_instance ((k, x) ∷ m) i d f c e = elim (Bool-cases (k ≟ i)) [
    | inl hit ↦
        let same : x ≡ d = some-injective _ _ (sym (rw (hit, lookup)) ∙ e) in
        subst (λ (y : Desired H). (y.total ≤ y.budget) × (y.total ≡ total_of (λ n. n) y.granted))
          same (f.0, c.0.counted)
    | inr miss ↦ at_instance m i d f.1 c.1 (sym (rw (miss, lookup)) ∙ e)
  ]

  -- Whatever entries are applied from the empty table, accepted or rejected, no instance is ever
  -- granted more slots than its budget.
  pub apply_all_safe :
      (entries : List (Entry I H)) (i : I) (d : Desired H)
      → All AllCounted entries
      → lookup i (apply_all new_table entries).instances ≡ some d
      → total_of (λ n. n) d.granted ≤ d.budget
  apply_all_safe entries i d c e =
      let w = apply_all-IsWithin new_table entries c start in
      omega (arith, at_instance (apply_all new_table entries).instances i d w.fits w.counted e)
    where
      start : IsWithin new_table
      start = record { sorted = tt; fits = tt; counted = tt }
