-- ===== src/Sched/Tests.antt =====
-- The theorems on crates/sched at concrete inputs, and runs of its two entry points.
use pg_steward.Base.{
  ℕ, ◌≤◌, ◌≡◌, refl, ◌⊎◌, true, false, some, List, [], ◌∷◌, arith, get_elem?, get_or, map,
}
use pg_steward.Base.Order.{nat_ord}
use pg_steward.Base.Map.{lookup, total_of, insert}
use pg_steward.Base.Sorting.{sort_by}
use pg_steward.Sched.{Claim, get, guarantee, ceiling}
use pg_steward.Sched.Fair.{
  Row, guarantees, fill, rounds, drain, pop, queue_of, row_of, collect, allocate,
}
use pg_steward.Sched.Fair.Drain.{Filled, fill-Filled}
use pg_steward.Sched.Fair.Fairness.{IsFair, fill-IsFair}
use pg_steward.Sched.Fair.Allocate.{
  get-le-max_slots, granted_total, guarantees_granted, work_conserving,
}
use pg_steward.Sched.Split.{
  Share, need, best_from, lower, higher, shave, shortfalls, give, give_up_to, divide, zipped, split,
}
use pg_steward.Sched.Split.Keys.{split_total, split_capped, split_conserving, split_keeps}

-- The two tenants of the README: floors 30 and 10, demands 60 and 90.
abbrev web : Claim ℕ
web = record {
  key = 1;
  min_slots = 30;
  max_slots = 100;
  weight = 1;
  demand = 60;
  current = 0;
  may_release = true;
}

abbrev worker : Claim ℕ
worker = record {
  key = 2;
  min_slots = 10;
  max_slots = 100;
  weight = 1;
  demand = 90;
  current = 0;
  may_release = true;
}

abbrev tenants : List (Claim ℕ)
tenants = web ∷ worker ∷ []

readme_grants : (get (allocate 1 100 tenants) 1 ≡ 60) × (get (allocate 1 100 tenants) 2 ≡ 40)
unfolding allocate rounds fill drain pop queue_of collect sort_by insert lookup
readme_grants = (refl, refl)

abbrev rows : List Row
rows = map (row_of 1) tenants

fill-Filled_example : Filled guarantees rows 50 (fill guarantees rows 50)
fill-Filled_example = fill-Filled guarantees rows 50 (omega arith)

fill-IsFair_example : IsFair guarantees rows (fill guarantees rows 35).0
fill-IsFair_example = fill-IsFair guarantees rows 35 (omega arith)

get-le-max_slots_example : get (allocate 1 300 tenants) 2 ≤ 100
get-le-max_slots_example = get-le-max_slots 1 300 tenants (omega arith) (omega arith) 1 worker refl

granted_total_example :
    (total_of (λ n. n) (allocate 1 100 tenants).granted ≡ (allocate 1 100 tenants).total)
    × ((allocate 1 100 tenants).total ≤ 100)
granted_total_example = granted_total 1 100 tenants (omega arith) (omega arith)

guarantees_granted_example :
    ((allocate 1 100 tenants).unmet_guarantee ≡ 0)
    × ((i : ℕ) (c : Claim ℕ)
        → get_elem? tenants i ≡ some c
        → guarantee c ≤ get (allocate 1 100 tenants) c.key)
guarantees_granted_example =
    guarantees_granted 1 100 tenants (omega arith) (omega arith) (omega arith)

work_conserving_example :
    ((allocate 1 100 tenants).total ≡ 100)
    ⊎ ((i : ℕ) (c : Claim ℕ)
        → get_elem? tenants i ≡ some c
        → ceiling c ≤ get (allocate 1 100 tenants) c.key)
work_conserving_example = work_conserving 1 100 tenants (omega arith) (omega arith)

-- Two proxies, the second of which keeps what it holds.
abbrev busy : Share ℕ
busy = record { key = 1; demand = 7; current = 2; may_release = true }

abbrev quiet : Share ℕ
quiet = record { key = 2; demand = 1; current = 4; may_release = false }

abbrev proxies : List (Share ℕ)
proxies = busy ∷ quiet ∷ []

split_runs : split 10 proxies ≡ (1, 7) ∷ (2, 3) ∷ []
unfolding split divide zipped give_up_to give shave shortfalls best_from lower higher sort_by insert
split_runs = refl

split_total_example : total_of (λ n. n) (split 10 proxies) ≤ 10
split_total_example = split_total 10 proxies (omega arith)

split_capped_example : (x : ℕ) × (lookup 1 (split 10 proxies) ≡ some x) × (x ≤ 7)
split_capped_example = split_capped 10 proxies (omega arith) 0 busy refl

split_conserving_example :
    (total_of (λ n. n) (split 10 proxies) ≡ 10)
    ⊎ ((i : ℕ) (s : Share ℕ)
        → get_elem? proxies i ≡ some s
        → lookup s.key (split 10 proxies) ≡ some (need s))
split_conserving_example = split_conserving 10 proxies (omega arith)

split_keeps_example : 2 ≤ get_or 0 (lookup 1 (split 10 proxies))
split_keeps_example = split_keeps 10 proxies (omega arith) (omega arith) 0 busy refl
