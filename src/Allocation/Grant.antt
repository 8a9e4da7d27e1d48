-- ===== src/Allocation/Grant.antt =====
-- `Desired::grant`: the total is kept beside the map that it sums.
use pg_steward.Base.{ℕ, ◌≡◌, refl, arith, if◌then◌else◌}
use pg_steward.Base.Order.{Ord, ◌≟◌}
use pg_steward.Base.Map.{
  IsSorted, total_of, total_of-insert, total_of-remove, lookup-insert, lookup-remove,
  insert-IsSorted, remove-IsSorted,
}
use pg_steward.Allocation.{Desired, new_desired, grant, granted}

-- The total is the sum of the grants.
pub record IsCounted {H : Type 0} ⦃o : Ord H⦄ (d : Desired H) : Type 0 where
  pub sorted : IsSorted d.granted
  pub counted : d.total ≡ total_of (λ n. n) d.granted

module _ {H : Type 0} ⦃o : Ord H⦄ where
  pub new-IsCounted : (budget : ℕ) → IsCounted {H = H} (new_desired budget)
  new-IsCounted budget = record { sorted = tt; counted = refl }

  -- `grant` keeps the total the sum of the grants.
  pub grant-IsCounted :
      (d : Desired H) (holder : H) (slots : ℕ) → IsCounted d → IsCounted (grant d holder slots)
  unfolding grant
  grant-IsCounted d holder slots c = ground (
    arith,
    insert-IsSorted holder slots d.granted,
    remove-IsSorted holder d.granted,
    total_of-insert (λ n. n) holder slots d.granted,
    total_of-remove (λ n. n) holder d.granted,
  )

  -- The holder reads what it was granted last, and every other holder what it read before.
  pub granted-grant :
      (d : Desired H) (holder other : H) (slots : ℕ)
      → IsCounted d
      → granted (grant d holder slots) other ≡ (if holder ≟ other then slots else granted d other)
  unfolding grant
  granted-grant d holder other slots c =
      ground
        (arith, lookup-insert other holder slots d.granted, lookup-remove other holder d.granted)
