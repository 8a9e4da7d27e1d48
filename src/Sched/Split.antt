-- ===== src/Sched/Split.antt =====
-- crates/sched/src/split.rs: how a tenant's slots are divided among the proxies that hold it.
-- Sums are `u64` sums of `u32` values and do not wrap.
pub mod Largest
pub mod Shares
pub mod Divide
pub mod Keys
use pg_steward.Base.{
  ℕ, zero, suc, ◌+◌, ◌-◌, min, max, Bool, Option, none, some, List, [], ◌∷◌, map, if◌then◌else◌,
  ltb, sum,
}
use pg_steward.Base.Order.{Ord}
use pg_steward.Base.Map.{Map, insert}
use pg_steward.Base.Sorting.{sort_by}

pub record Share {ℓ} (K : Type ℓ) : Type ℓ where
  pub key : K
  pub demand : ℕ
  pub current : ℕ
  pub may_release : Bool

module _ {ℓ} {K : Type ℓ} where
  abbrev pub need : Share K → ℕ
  need s = if s.may_release then s.demand else max s.demand s.current

-- The value of the best entry seen so far, 0 for none.
abbrev pub most : Option (ℕ × ℕ) → ℕ
most none = 0
most (some (_, value)) = value

unfoldable pub best_from : ℕ → Option (ℕ × ℕ) → List ℕ → Option (ℕ × ℕ)
best_from index best [] = best
best_from index best (value ∷ values) =
    best_from (index + 1) (if ltb (most best) value then some (index, value) else best) values

abbrev pub index_of : Option (ℕ × ℕ) → Option ℕ
index_of none = none
index_of (some (index, _)) = some index

abbrev pub first_max : List ℕ → Option ℕ
first_max values = index_of (best_from 0 none values)

-- `given[index] -= 1` and `given[index] += 1`.
unfoldable pub lower : List ℕ → ℕ → List ℕ
lower [] index = []
lower (g ∷ given) zero = (g - 1) ∷ given
lower (g ∷ given) (suc index) = g ∷ lower given index

unfoldable pub higher : List ℕ → ℕ → List ℕ
higher [] index = []
higher (g ∷ given) zero = (g + 1) ∷ given
higher (g ∷ given) (suc index) = g ∷ higher given index

-- `while total > granted`, by recursion on the excess, which each round takes one off.
unfoldable pub shave : ℕ → List ℕ → List ℕ
shave zero given = given
shave (suc excess) given = elim (first_max given) [
  | none ↦ given
  | some index ↦ shave excess (lower given index)
]

unfoldable pub shortfalls : List ℕ → List ℕ → List ℕ
shortfalls [] given = []
shortfalls (w ∷ wanted) [] = []
shortfalls (w ∷ wanted) (g ∷ given) = (w - g) ∷ shortfalls wanted given

-- `while total < granted`, by recursion on what is missing.
unfoldable pub give : ℕ → List ℕ → List ℕ → List ℕ
give zero wanted given = given
give (suc missing) wanted given = elim (first_max (shortfalls wanted given)) [
  | none ↦ given
  | some index ↦ give missing wanted (higher given index)
]

unfoldable pub give_up_to : ℕ → List ℕ → List ℕ → List ℕ
give_up_to granted wanted given = give (granted - sum given) wanted given

module _ {ℓ} {K : Type ℓ} where
  -- The slots of the shares, in the order of the shares.
  unfoldable pub divide : ℕ → List (Share K) → List ℕ
  divide granted order =
      let used = map (λ s. min s.current s.demand) order in
      let shaved = shave (sum used - granted) used in
      give_up_to granted (map need order) (give_up_to granted (map (λ s. s.demand) order) shaved)

module _ {ℓ} {K : Type ℓ} ⦃o : Ord K⦄ where
  unfoldable pub zipped : List (Share K) → List ℕ → Map K ℕ → Map K ℕ
  zipped [] given m = m
  zipped (s ∷ order) [] m = m
  zipped (s ∷ order) (g ∷ given) m = zipped order given (insert s.key g m)

  abbrev pub in_order : List (Share K) → List (Share K)
  in_order = sort_by (λ s. s.key)

  unfoldable pub split : ℕ → List (Share K) → Map K ℕ
  split granted shares = let order = in_order shares in zipped order (divide granted order) []
