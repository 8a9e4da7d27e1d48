-- ===== src/Convergence.antt =====
-- crates/core/src/convergence.rs: the pools of a proxy, one for each instance and tenant, and what they
-- report. Whether someone else holds a handle of a pool (its `Arc` count) is a parameter. The sockets that `converge` closes, what servers said in welcome and the loop `run` are left out.
pub mod Pools
mod Tests
use pg_steward.Base.Order.{Ord, ◌≟◌}
use pg_steward.Base.Map.{Map, lookup, insert, map_values}
use pg_steward.Base.{
  ℕ, ◌+◌, Bool, not, ◌&&◌, ◌||◌, Option, none, some, List, [], ◌∷◌, map, if◌then◌else◌, ltb, ◌==◌,
  get_or, keep, length, saturate, total,
}
use pg_steward.Pool.{PoolStats, new_pool, stats, demand, occupied_in, retire, closed}
use pg_steward.Coordinator.{Usage, Report, GrantSet, new_report, slots_of}

pub record ProxyPools (S C : Type 0) : Type 0 where
  pub pools : Map S (pg_steward.Pool.State C)
  pub opened_by_dropped : Map S ℕ

module _ {C : Type 0} where
  abbrev pub usage_in : pg_steward.Pool.State C → Usage
  usage_in pool = record {
    demand = saturate (demand (stats pool));
    actual = saturate (occupied_in (stats pool));
  }

  -- The `converge` of one pool, whose waiters that are still there get what it frees.
  abbrev pub converge_pool : (ℕ → Bool) → ℕ → pg_steward.Pool.State C → pg_steward.Pool.State C
  converge_pool alive grant pool =
      let (s, gone) = retire pool grant in (closed alive s (length gone)).0

abbrev pub new_pools : {S C : Type 0} → ProxyPools S C
new_pools = record { pools = []; opened_by_dropped = [] }

module _ {S C : Type 0} ⦃o : Ord S⦄ where
  abbrev pub insert_pool : ProxyPools S C → S → pg_steward.Pool.State C → ProxyPools S C
  insert_pool p slot pool = record p { pools = insert slot pool p.pools }

  abbrev pub get_pool : ProxyPools S C → S → Option (pg_steward.Pool.State C)
  get_pool p slot = lookup slot p.pools

  -- `fresh` is the pool that is opened where there is none.
  unfoldable pub checkout : ProxyPools S C → S → pg_steward.Pool.State C → ProxyPools S C
  checkout p slot fresh = elim (lookup slot p.pools) [
    | none ↦ insert_pool p slot fresh
    | some _ ↦ p
  ]

  -- The fold of `report` over the pools.
  unfoldable pub report_from : Report S → Map S (pg_steward.Pool.State C) → Report S
  report_from r [] = r
  report_from r ((slot, pool) ∷ pools) =
      report_from (record r { usage = insert slot (usage_in pool) r.usage }) pools

  abbrev pub report : ProxyPools S C → ℕ → Report S
  report p generation = report_from (new_report generation) p.pools

  abbrev pub occupied_by : ProxyPools S C → ℕ
  occupied_by p = total (λ d. occupied_in (stats d.1)) p.pools

  abbrev pub all_stats : ProxyPools S C → Map S PoolStats
  all_stats p =
      map_values
        (λ slot pool. record (stats pool) {
          opened = (stats pool).opened + get_or 0 (lookup slot p.opened_by_dropped);
        })
        p.pools

  -- `is_unused` is also false while someone else holds a handle of the pool.
  module _ (shared : S → Bool) where
    abbrev pub is_unused : S × pg_steward.Pool.State C → Bool
    is_unused (slot, pool) = not (shared slot) && occupied_in (stats pool) == 0

    abbrev pub is_kept : GrantSet S → S × pg_steward.Pool.State C → Bool
    is_kept grants d = ltb 0 (slots_of grants d.0) || not (is_unused d)

    -- What `retain` adds to the counts of dropped pools.
    unfoldable pub count_dropped : GrantSet S → Map S (pg_steward.Pool.State C) → Map S ℕ → Map S ℕ
    count_dropped grants [] counts = counts
    count_dropped grants ((slot, pool) ∷ pools) counts = count_dropped grants pools (
        if is_kept grants (slot, pool)
        then counts
        else insert slot (get_or 0 (lookup slot counts) + (stats pool).opened) counts)

    unfoldable pub drop_unused : GrantSet S → ProxyPools S C → ProxyPools S C
    drop_unused grants p = record {
      pools = keep (is_kept grants) p.pools;
      opened_by_dropped = count_dropped grants p.pools p.opened_by_dropped;
    }

    -- One pool after another, and then the lock.
    unfoldable pub converge : (S → ℕ → Bool) → GrantSet S → ProxyPools S C → ProxyPools S C
    converge alive grants p = drop_unused grants (record p {
      pools =
          map_values (λ slot pool. converge_pool (alive slot) (slots_of grants slot) pool) p.pools;
    })
