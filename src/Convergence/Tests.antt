-- ===== src/Convergence/Tests.antt =====
-- The theorems on the pools of a proxy applied to one pool in use and one that is unused.
use pg_steward.Base.Order.{nat_ord}
use pg_steward.Base.Map.{lookup, insert}
use pg_steward.Base.{ℕ, ◌≡◌, refl, Bool, false, some, [], ◌∷◌, total}
use pg_steward.Pool.{new_pool}
use pg_steward.Coordinator.{GrantSet, no_grants}
use pg_steward.Convergence.{ProxyPools, drop_unused, count_dropped, report}
use pg_steward.Convergence.Pools.{drop_unused_lem, report_lem, used, opened_at, held_by, Sifted}

abbrev unshared : ℕ → Bool
unshared slot = false

-- The pool 1 serves a client, and the pool 2 is left with a count of four opened connections.
abbrev two_pools : ProxyPools ℕ ℕ
two_pools = record {
  pools =
      (1, record (new_pool 2) { in_use = 1; opened = 3 })
      ∷ (2, record (new_pool 0) { opened = 4 })
      ∷ [];
  opened_by_dropped = (2, 5) ∷ [];
}

abbrev ungranted : GrantSet ℕ
ungranted = no_grants

drop_unused_lem_example :
    (opened_at unshared ungranted (drop_unused unshared ungranted two_pools) 2
      ≡ opened_at unshared ungranted two_pools 2)
    × (total (λ d. held_by d.1) (drop_unused unshared ungranted two_pools).pools
        ≡ total (λ d. held_by d.1) two_pools.pools)
    × Sifted unshared ungranted 2
        (lookup 2 two_pools.pools)
        (lookup 2 (drop_unused unshared ungranted two_pools).pools)
drop_unused_lem_example = drop_unused_lem unshared ungranted two_pools 2 ((refl, tt), (tt, tt))

nine : lookup 2 (drop_unused unshared ungranted two_pools).opened_by_dropped ≡ some 9
unfolding drop_unused count_dropped lookup insert
nine = refl

report_lem_example :
    ((report two_pools 6).generation ≡ 6)
    × (lookup 1 (report two_pools 6).usage ≡ used (lookup 1 two_pools.pools))
report_lem_example = report_lem two_pools 6 1 ((refl, tt), (tt, tt))
