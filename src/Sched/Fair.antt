-- ===== src/Sched/Fair.antt =====
-- crates/sched/src/fair.rs: weighted max-min fair allocation by three rounds of a greedy loop over
-- a priority queue. The queue, a `BinaryHeap<Reverse<Next>>`, is a list from which `pop` takes the
-- least entry of `Ord for Next`. Products of two `u32` fit the `u64` they are computed in, and
-- `granted` stays below a limit that is a `u32`, so no sum wraps.
pub mod Queue
pub mod Steps
pub mod Drain
pub mod Bounds
pub mod Fairness
pub mod Rounds
pub mod Collect
pub mod Allocate
use Prim.Native.Nat.{compare, Ordering}
use Prim.Native.Nat.Ordering.{lt, eq, gt}
use pg_steward.Base.{
  ℕ, zero, suc, ◌+◌, ◌-◌, ◌*◌, min, Bool, true, false, Option, none, some, List, [], ◌∷◌, map,
  if◌then◌else◌, ltb, leb, get_elem?, set, saturate,
}
use pg_steward.Base.Order.{Ord, then_with}
use pg_steward.Base.Map.{Map, insert}
use pg_steward.Base.Sorting.{sort_by}
use pg_steward.Sched.{Claim, Grants, ceiling, guarantee, kept}

pub record Row : Type 0 where
  pub guarantee : ℕ
  pub ceiling : ℕ
  pub kept : ℕ
  pub held : ℕ
  pub weight : ℕ
  pub granted : ℕ
  pub base : ℕ

pub data Phase : Type 0 where
  guarantees demands retention : Phase

abbrev pub limit : Phase → Row → ℕ
limit guarantees row = row.guarantee
limit demands row = row.ceiling
limit retention row = row.kept

pub record Next : Type 0 where
  pub index : ℕ
  pub taken : ℕ
  pub weight : ℕ
  pub moving : Bool

abbrev pub after : ℕ → Row → Next
after index row = record {
  index = index;
  taken = row.granted - row.base + 1;
  weight = row.weight;
  moving = leb row.held row.granted;
}

abbrev compare_bool : Bool → Bool → Ordering
compare_bool false true = lt
compare_bool true false = gt
compare_bool _ _ = eq

abbrev pub compare_next : Next → Next → Ordering
compare_next a b =
    then_with
      (then_with (compare (a.taken * b.weight) (b.taken * a.weight))
        (compare_bool a.moving b.moving))
      (compare a.index b.index)

abbrev choose : Ordering → Next → Next → List Next → Next × List Next
choose gt n m rest = (m, n ∷ rest)
choose _ n m rest = (n, m ∷ rest)

abbrev pick : Next → Option (Next × List Next) → Next × List Next
pick n none = (n, [])
pick n (some (m, rest)) = choose (compare_next n m) n m rest

unfoldable pub pop : List Next → Option (Next × List Next)
pop [] = none
pop (n ∷ queue) = some (pick n (pop queue))

abbrev pub under : Phase → Row → Bool
under phase row = ltb row.granted (limit phase row)

abbrev pub raise : Row → Row
raise row = record row { granted = row.granted + 1 }

-- The rows below their limit, enumerated from `index`.
unfoldable pub queue_of : Phase → ℕ → List Row → List Next
queue_of phase index [] = []
queue_of phase index (row ∷ rows) =
    if under phase row
    then after index row ∷ queue_of phase (index + 1) rows
    else queue_of phase (index + 1) rows

abbrev push : Phase → ℕ → Row → List Next → List Next
push phase index row queue = if under phase row then after index row ∷ queue else queue

-- `while remaining > 0`, by recursion on what remains. The index of a queue entry lies within the
-- rows; the code would panic on one that does not, and here the loop stops.
unfoldable pub drain : Phase → ℕ → List Next → List Row → List Row × ℕ
drain phase zero queue rows = (rows, 0)
drain phase (suc remaining) queue rows = elim (pop queue) [
  | none ↦ (rows, suc remaining)
  | some (next, rest) ↦ elim (get_elem? rows next.index) [
    | none ↦ (rows, suc remaining)
    | some row ↦
        drain phase remaining (push phase next.index (raise row) rest)
          (set rows next.index (raise row))
  ]
]

abbrev pub rebase : Row → Row
rebase row = record row { base = row.granted }

unfoldable pub fill : Phase → List Row → ℕ → List Row × ℕ
fill phase rows zero = (rows, 0)
fill phase rows (suc remaining) =
    let based = map rebase rows in drain phase (suc remaining) (queue_of phase 0 based) based

module _ {ℓ} {K : Type ℓ} where
  abbrev pub row_of : ℕ → Claim K → Row
  row_of release c = record {
    guarantee = guarantee c;
    ceiling = ceiling c;
    kept = kept release c;
    held = c.current;
    weight = c.weight;
    granted = 0;
    base = 0;
  }

-- The three rounds, from rows that hold nothing.
unfoldable pub rounds : ℕ → List Row → List Row × ℕ
rounds budget rows =
    let (floors, left) = fill guarantees rows budget in
    let (met, spare) = fill demands floors left in fill retention met spare

pub record Tally {ℓ} (K : Type ℓ) : Type ℓ where
  pub granted : Map K ℕ
  pub total : ℕ
  pub unmet : ℕ

module _ {ℓ} {K : Type ℓ} ⦃o : Ord K⦄ where
  -- One turn of the last loop.
  abbrev pub tallied : Row → Claim K → Tally K → Tally K
  tallied row c t = record {
    granted = if ltb 0 row.granted then insert c.key row.granted t.granted else t.granted;
    total = if ltb 0 row.granted then t.total + row.granted else t.total;
    unmet = t.unmet + (row.guarantee - row.granted);
  }

  -- The loop over `rows.iter().zip(order.iter())`.
  unfoldable pub collect : List Row → List (Claim K) → Tally K → Tally K
  collect [] claims t = t
  collect (row ∷ rows) [] t = t
  collect (row ∷ rows) (c ∷ claims) t = collect rows claims (tallied row c t)

  abbrev pub by_key : List (Claim K) → List (Claim K)
  by_key = sort_by (λ c. c.key)

  unfoldable pub allocate : ℕ → ℕ → List (Claim K) → Grants K
  allocate release budget claims =
      let order = by_key claims in
      let (rows, _) = rounds budget (map (row_of release) order) in
      let tally = collect rows order (record { granted = []; total = 0; unmet = 0 }) in
      record {
        granted = tally.granted;
        total = tally.total;
        unmet_guarantee = saturate tally.unmet;
      }
