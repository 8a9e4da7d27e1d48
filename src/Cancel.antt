-- ===== src/Cancel.antt =====
-- crates/core/src/cancel.rs: the keys by which clients cancel. A key is its process id and its
-- secret, both the 32 bits of an `i32`; the `HashMap` of live keys is a sorted list of pairs. The
-- tag of a proxy is any number the type allows, and the secret of a key an argument of `issue`.
pub mod Keys
mod Tests
use pg_steward.Base.Order.{Ord, pair_ord, nat_ord}
use pg_steward.Base.Map.{Map, lookup, insert, remove}
use pg_steward.Base.{ℕ, ◌+◌, ◌*◌, ◌/◌, ◌%◌, Option, none, some, List, [], ◌∷◌}

abbrev pub CancelKey : Type 0
CancelKey = ℕ × ℕ

-- `ProxyTag::MAX`, twelve bits.
abbrev pub max_tag : ℕ
max_tag = 4095

-- The twelve bits above the nineteen of the serial.
unfoldable pub in_key : CancelKey → ℕ
in_key (process_id, _) = process_id / 524288 % 4096

pub record Target (I : Type 0) : Type 0 where
  pub instance_id : I
  pub backend : CancelKey

pub record CancelRegistry (I : Type 0) : Type 0 where
  pub tag : ℕ
  pub serial : ℕ
  pub live : Map CancelKey (Option (Target I))

module _ {I : Type 0} where
  abbrev pub new_registry : ℕ → CancelRegistry I
  new_registry tag = record { tag = tag; serial = 0; live = [] }

  -- The serial leaves the bits of the tag clear, so that the disjunction of both is their sum.
  abbrev pub issued_key : CancelRegistry I → ℕ → CancelKey
  issued_key r secret = (r.tag * 524288 + r.serial % 524288, secret)

  unfoldable pub issue : CancelRegistry I → ℕ → CancelRegistry I × CancelKey
  issue r secret = (
    record r {
      serial = (r.serial + 1) % 4294967296;
      live = insert (issued_key r secret) none r.live;
    },
    issued_key r secret,
  )

  unfoldable pub target : CancelRegistry I → CancelKey → Option (Target I)
  target r key = elim (lookup key r.live) [ none ↦ none | some aimed ↦ aimed ]

  -- The ticket that holds `key`.
  unfoldable pub aim : CancelRegistry I → CancelKey → I → CancelKey → CancelRegistry I
  aim r key instance_id backend = record r {
    live = insert key (some record { instance_id = instance_id; backend = backend }) r.live;
  }

  unfoldable pub stand_down : CancelRegistry I → CancelKey → CancelRegistry I
  stand_down r key = record r { live = insert key none r.live }

  unfoldable pub drop_ticket : CancelRegistry I → CancelKey → CancelRegistry I
  drop_ticket r key = record r { live = remove key r.live }
