-- ===== src/Sched.antt =====
-- crates/sched/src/lib.rs: what an allocator is asked (`Claim`) and what it answers (`Grants`).
-- A `NonZeroU32` is a number; where a theorem needs it to be positive it says so.
pub mod Fair
pub mod Split
mod Tests
use pg_steward.Base.{ℕ, ◌-◌, ◌≤◌, min, Bool, if◌then◌else◌, get_or, ◌==◌, List}
use pg_steward.Base.Order.{Ord}
use pg_steward.Base.Map.{Map, lookup}

pub record Claim {ℓ} (K : Type ℓ) : Type ℓ where
  pub key : K
  pub min_slots : ℕ
  pub max_slots : ℕ
  pub weight : ℕ
  pub demand : ℕ
  pub current : ℕ
  pub may_release : Bool

module _ {ℓ} {K : Type ℓ} where
  abbrev pub ceiling : Claim K → ℕ
  ceiling c = min c.demand c.max_slots

  abbrev pub guarantee : Claim K → ℕ
  guarantee c = min c.min_slots (ceiling c)

  -- `saturating_sub` is subtraction that stops at 0.
  abbrev pub kept : ℕ → Claim K → ℕ
  kept release c = min (c.current - (if c.may_release then release else 0)) c.max_slots

pub record Grants {ℓ} (K : Type ℓ) : Type ℓ where
  pub granted : Map K ℕ
  pub total : ℕ
  pub unmet_guarantee : ℕ

module _ {ℓ} {K : Type ℓ} ⦃o : Ord K⦄ where
  abbrev pub get : Grants K → K → ℕ
  get g k = get_or 0 (lookup k g.granted)

  abbrev pub guarantees_met : Grants K → Bool
  guarantees_met g = g.unmet_guarantee == 0
