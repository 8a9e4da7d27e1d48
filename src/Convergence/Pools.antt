-- ===== src/Convergence/Pools.antt =====
-- What `converge` of crates/core/src/convergence.rs drops, and what `report` measures.
use mathlib.Core.Path.{ap₂}
use pg_steward.Base.Order.{Ord}
use pg_steward.Base.Map.{
  Map, lookup, insert, IsSorted, lookup-insert, lookup_above, lookup-keep, kept,
}
use pg_steward.Base.{
  ℕ, ◌+◌, ◌<◌, ◌≡◌, ◌⊎◌, true, false, refl, ap, sym, subst, length, min, u32_max, ◌∙◌, arith, Bool,
  Option, none, some, [], ◌∷◌, get_or, keep, total,
}
use pg_steward.Pool.{PoolStats, stats, demand, occupied_in}
use pg_steward.Coordinator.{Usage, Report, GrantSet, new_report}
use pg_steward.Convergence.{
  ProxyPools, usage_in, report_from, report, is_kept, count_dropped, drop_unused,
}

abbrev pub or_used : Option Usage → Option Usage → Option Usage
or_used none other = other
or_used (some u) other = some u

-- The connections that a pool has or is about to have.
abbrev pub held_by : {C : Type 0} → pg_steward.Pool.State C → ℕ
held_by e = length e.idle + e.in_use + e.opening + e.closing

-- What a report says of a pool: who waits, uses or opens, and what is occupied, as `u32`.
abbrev pub used : {C : Type 0} → Option (pg_steward.Pool.State C) → Option Usage
used none = none
used (some e) = some (record {
  demand = min (length e.waiters + e.in_use + e.opening) u32_max;
  actual = min (held_by e) u32_max;
})

usage_in_lem : {C : Type 0} (e : pg_steward.Pool.State C) → some (usage_in e) ≡ used (some e)
usage_in_lem e = ap₂ (λ d a. some (record { demand = d; actual = a })) (omega arith) (omega arith)

abbrev pub opened_in : {C : Type 0} → Option (pg_steward.Pool.State C) → ℕ
opened_in none = 0
opened_in (some e) = e.opened

module _ {S C : Type 0} ⦃o : Ord S⦄ where
  report_from_generation :
      (r : Report S) (pools : Map S (pg_steward.Pool.State C))
      → (report_from r pools).generation ≡ r.generation
  unfolding report_from
  report_from_generation r [] = refl
  report_from_generation r ((k, e) ∷ pools) =
      report_from_generation (record r { usage = insert k (usage_in e) r.usage }) pools

  report_from_lem :
      (r : Report S) (pools : Map S (pg_steward.Pool.State C)) (slot : S)
      → IsSorted pools
      → lookup slot (report_from r pools).usage
        ≡ or_used (used (lookup slot pools)) (lookup slot r.usage)
  unfolding lookup report_from
  report_from_lem r [] slot s = refl
  report_from_lem r ((k, e) ∷ pools) slot (a, s) =
      report_from_lem (record r { usage = insert k (usage_in e) r.usage }) pools slot s
      ∙ ground (
        arith,
        usage_in_lem e,
        lookup-insert slot k (usage_in e) r.usage,
        lookup_above k pools a,
        o.exact k slot,
      )

  -- For pools in order of their keys, the report is of the generation it is asked for, and has for
  -- every key with a pool, as demand, the waiters and the connections in use and being opened, and,
  -- as actual, the idle connections and those in use, being opened and being closed, each sum
  -- stopped at the largest `u32`; it has nothing for a key without a pool.
  pub report_lem :
      (p : ProxyPools S C) (generation : ℕ) (slot : S)
      → IsSorted p.pools
      → ((report p generation).generation ≡ generation)
        × (lookup slot (report p generation).usage ≡ used (lookup slot p.pools))
  unfolding lookup
  report_lem p generation slot s = (
    report_from_generation (new_report generation) p.pools,
    report_from_lem (new_report generation) p.pools slot s
        ∙ or_used_none (used (lookup slot p.pools)),
  )
    where
      or_used_none : (u : Option Usage) → or_used u none ≡ u
      or_used_none none = refl
      or_used_none (some u) = refl

module _ {S C : Type 0} ⦃o : Ord S⦄ (shared : S → Bool) (grants : GrantSet S) where
  count_dropped_lem :
      (pools : Map S (pg_steward.Pool.State C)) (counts : Map S ℕ) (slot : S)
      → IsSorted pools
      → get_or 0 (lookup slot (count_dropped shared grants pools counts))
          + opened_in (kept (is_kept shared grants) slot (lookup slot pools))
        ≡ get_or 0 (lookup slot counts) + opened_in (lookup slot pools)
  unfolding lookup count_dropped
  count_dropped_lem [] counts slot s = refl
  count_dropped_lem ((k, e) ∷ pools) counts slot (a, s) =
      let counts' = insert k (get_or 0 (lookup k counts) + (stats e).opened) counts in
      ground (
        arith,
        count_dropped_lem pools counts slot s,
        count_dropped_lem pools counts' slot s,
        lookup-insert slot k (get_or 0 (lookup k counts) + (stats e).opened) counts,
        lookup_above k pools a,
        o.exact k slot,
      )

  keep-held_by :
      (pools : Map S (pg_steward.Pool.State C))
      → total (λ d. held_by d.1) (keep (is_kept shared grants) pools)
        ≡ total (λ d. held_by d.1) pools
  keep-held_by [] = refl
  keep-held_by (d ∷ pools) = ground (arith, keep-held_by pools)

  -- What was opened under a key, by the pool that is there and by those that were dropped.
  abbrev pub opened_at : ProxyPools S C → S → ℕ
  opened_at p slot = get_or 0 (lookup slot p.opened_by_dropped) + opened_in (lookup slot p.pools)

  -- The pool of a key after pools were dropped, against the one before: the same if the key is
  -- granted slots, the pool shared or something held by it, and none otherwise.
  abbrev pub Sifted :
      S → Option (pg_steward.Pool.State C) → Option (pg_steward.Pool.State C) → Type 0
  Sifted slot none after = after ≡ none
  Sifted slot (some e) after =
      (((0 < get_or 0 (lookup slot grants.grants)) ⊎ (shared slot ≡ true) ⊎ (0 < held_by e))
        × (after ≡ some e))
      ⊎ ((get_or 0 (lookup slot grants.grants) ≡ 0)
          × (shared slot ≡ false)
          × (held_by e ≡ 0)
          × (after ≡ none))

  kept-Sifted :
      (slot : S) (e : Option (pg_steward.Pool.State C))
      → Sifted slot e (kept (is_kept shared grants) slot e)
  kept-Sifted slot none = refl
  kept-Sifted slot (some e) = ground arith

  -- For pools in order of their keys, whatever the grants and whoever holds handles: dropping
  -- pools keeps, for every key, the number of connections ever opened under it, by its pool and
  -- by those dropped before; it keeps what all pools together hold, which is idle, in use, being
  -- opened or being closed; and a key has its pool afterwards exactly if it is granted some slots,
  -- or the pool was shared, or the pool held something.
  pub drop_unused_lem :
      (p : ProxyPools S C) (slot : S)
      → IsSorted p.pools
      → (opened_at (drop_unused shared grants p) slot ≡ opened_at p slot)
        × (total (λ d. held_by d.1) (drop_unused shared grants p).pools
            ≡ total (λ d. held_by d.1) p.pools)
        × Sifted slot (lookup slot p.pools) (lookup slot (drop_unused shared grants p).pools)
  unfolding drop_unused
  drop_unused_lem p slot s =
      let reads = lookup-keep (is_kept shared grants) slot p.pools s in
      (
        ap
              (λ r.
                get_or 0 (lookup slot (count_dropped shared grants p.pools p.opened_by_dropped))
                + opened_in r)
              reads
            ∙ count_dropped_lem p.pools p.opened_by_dropped slot s,
        keep-held_by p.pools,
        subst (Sifted slot (lookup slot p.pools)) (sym reads)
            (kept-Sifted slot (lookup slot p.pools)),
      )
