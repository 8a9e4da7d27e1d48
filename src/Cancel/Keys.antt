-- ===== src/Cancel/Keys.antt =====
-- The keys that a registry of crates/core/src/cancel.rs issues, and what they are aimed at.
use pg_steward.Base.Order.{pair_ord, nat_ord, ◌≟◌}
use pg_steward.Base.Map.{lookup-insert, lookup-remove, IsSorted}
use pg_steward.Base.{
  ℕ, zero, suc, ◌+◌, ◌*◌, ◌%◌, ◌≤◌, ◌<◌, ◌≡◌, ◌≢◌, refl, none, some, List, [], ◌∷◌, if◌then◌else◌,
  get_elem?, arith,
}
use pg_steward.Cancel.{
  CancelKey, in_key, max_tag, CancelRegistry, issued_key, issue, target, aim, stand_down,
  drop_ticket,
}

module _ {I : Type 0} where
  -- A registry with a tag that `ProxyTag` allows issues keys whose process id keeps the sign bit
  -- clear and from which the tag is read back; a new key is aimed at nothing, and what other keys
  -- are aimed at stays.
  pub issue_lem :
      (r : CancelRegistry I) (secret : ℕ)
      → r.tag ≤ max_tag
      → let (r', key) = issue r secret in
        (key.0 < 2147483648)
        × (in_key key ≡ r.tag)
        × (r'.tag ≡ r.tag)
        × ((q : CancelKey) → target r' q ≡ (if key ≟ q then none else target r q))
  unfolding issue in_key target
  issue_lem r secret h = (
    omega arith,
    omega arith,
    refl,
    λ q. ground (arith, lookup-insert q (issued_key r secret) none r.live),
  )

  -- The life of a ticket, if the live keys are in order: aimed, its key and no other reads the target; stood down or dropped, its
  -- key reads none and the others what they read.
  pub target-aim :
      (r : CancelRegistry I) (key : CancelKey) (i : I) (backend : CancelKey) (q : CancelKey)
      → IsSorted r.live
      → (target (aim r key i backend) q
          ≡ (if key ≟ q then some record { instance_id = i; backend = backend } else target r q))
        × (target (stand_down r key) q ≡ (if key ≟ q then none else target r q))
        × (target (drop_ticket r key) q ≡ (if key ≟ q then none else target r q))
  unfolding target aim stand_down drop_ticket
  target-aim r key i backend q s = (
    ground (arith, lookup-insert q key (some record { instance_id = i; backend = backend }) r.live),
    ground (arith, lookup-insert q key none r.live),
    ground (arith, lookup-remove q key r.live s),
  )

  -- The keys of one ticket after another.
  unfoldable pub issue_all : CancelRegistry I → List ℕ → List CancelKey
  unfolding issue
  issue_all r [] = []
  issue_all r (secret ∷ secrets) = let (r', key) = issue r secret in key ∷ issue_all r' secrets

  issue_all_lem :
      (r : CancelRegistry I) (secrets : List ℕ) (i : ℕ) (key : CancelKey)
      → get_elem? (issue_all r secrets) i ≡ some key
      → key.0 ≡ r.tag * 524288 + (r.serial + i) % 524288
  unfolding issue_all issue
  issue_all_lem r [] i key e = ground arith
  issue_all_lem r (secret ∷ secrets) zero key e = ground arith
  issue_all_lem r (secret ∷ secrets) (suc i) key e =
      let rest = issue_all_lem (issue r secret).0 secrets i key e in omega arith

  -- Of the tickets that a registry issues one after another, whatever their secrets, no two fewer
  -- than 2 ^ 19 apart have the same process id.
  pub issue_all_distinct :
      (r : CancelRegistry I) (secrets : List ℕ) (i j : ℕ) (k l : CancelKey)
      → i < j
      → j < i + 524288
      → get_elem? (issue_all r secrets) i ≡ some k
      → get_elem? (issue_all r secrets) j ≡ some l
      → k.0 ≢ l.0
  issue_all_distinct r secrets i j k l h d e f =
      omega (arith, issue_all_lem r secrets i k e, issue_all_lem r secrets j l f)
