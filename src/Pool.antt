-- ===== src/Pool.antt =====
-- crates/core/src/pool.rs: the pool of one instance and tenant. Each function is one stretch of
-- the code between taking the lock and letting a connection or a slot go, with the loops that
-- retry a waiter that has gone. A vector is a list with its last element first; the waiters are
-- the tickets of the queue, its front first. Whether the receiver of a ticket is still there when
-- a handoff is sent is the argument `alive`. Counts are `usize` and `u64` and do not wrap.
pub mod Handing
pub mod HandOut
pub mod World
mod Tests
use pg_steward.Base.{
  ℕ, zero, suc, ◌+◌, ◌-◌, Bool, true, false, not, Option, none, some, List, [], ◌∷◌, ◌++◌,
  if◌then◌else◌, ltb, leb, ◌==◌, length, keep,
}

pub record State (C : Type 0) : Type 0 where
  pub slots : ℕ
  pub idle : List C
  pub in_use : ℕ
  pub opening : ℕ
  pub closing : ℕ
  pub retiring : List C
  pub waiters : List ℕ
  pub next_ticket : ℕ
  pub opened : ℕ

pub data Handoff (C : Type 0) : Type 0 where
  connection : C → Handoff C
  slot : Handoff C

pub data Request (C : Type 0) : Type 0 where
  assigned : C → Request C
  reserved : Request C
  queued : ℕ → Request C

pub record PoolStats : Type 0 where
  pub slots : ℕ
  pub idle : ℕ
  pub in_use : ℕ
  pub opening : ℕ
  pub closing : ℕ
  pub waiting : ℕ
  pub opened : ℕ

abbrev pub actual : PoolStats → ℕ
actual s = s.idle + s.in_use + s.closing

abbrev pub occupied_in : PoolStats → ℕ
occupied_in s = actual s + s.opening

-- `AddAssign` of the stats.
abbrev pub add_stats : PoolStats → PoolStats → PoolStats
add_stats s t = record {
  slots = s.slots + t.slots;
  idle = s.idle + t.idle;
  in_use = s.in_use + t.in_use;
  opening = s.opening + t.opening;
  closing = s.closing + t.closing;
  waiting = s.waiting + t.waiting;
  opened = s.opened + t.opened;
}

abbrev pub demand : PoolStats → ℕ
demand s = s.waiting + s.in_use + s.opening

-- What is sent to a waiter, with its ticket.
abbrev pub Sent : Type 0 → Type 0
Sent C = Option (ℕ × Handoff C)

module _ {C : Type 0} where
  abbrev pub new_pool : ℕ → State C
  new_pool slots = record {
    slots = slots;
    idle = [];
    in_use = 0;
    opening = 0;
    closing = 0;
    retiring = [];
    waiters = [];
    next_ticket = 0;
    opened = 0;
  }

  abbrev pub stats : State C → PoolStats
  stats s = record {
    slots = s.slots;
    idle = length s.idle;
    in_use = s.in_use;
    opening = s.opening;
    closing = s.closing;
    waiting = length s.waiters;
    opened = s.opened;
  }

  abbrev pub occupied : State C → ℕ
  occupied s = length s.idle + s.in_use + s.opening + s.closing

  abbrev pub over_grant : State C → Bool
  over_grant s = ltb s.slots (length s.idle + s.in_use + s.opening)

  abbrev pub take_idle : State C → C → List C → State C
  take_idle s c rest = record s { idle = rest; in_use = s.in_use + 1 }

  unfoldable pub request : State C → State C × Request C
  request s = elim s.idle [
    | c ∷ rest ↦ (take_idle s c rest, assigned c)
    | [] ↦ if ltb (occupied s) s.slots then (record s { opening = s.opening + 1 }, reserved) else (
      record s { next_ticket = s.next_ticket + 1; waiters = s.waiters ++ s.next_ticket ∷ [] },
      queued s.next_ticket,
    )
  ]

  -- The function `release`, over the waiters left.
  unfoldable pub release_to : (ℕ → Bool) → List ℕ → State C → C → State C × Sent C
  release_to alive [] s c =
      if over_grant s
      then (
        record s {
          in_use = s.in_use - 1;
          closing = s.closing + 1;
          retiring = c ∷ s.retiring;
          waiters = [];
        },
        none,
      )
      else (record s { in_use = s.in_use - 1; idle = c ∷ s.idle; waiters = [] }, none)
  release_to alive (ticket ∷ waiters) s c =
      if over_grant s
      then (
        record s {
          in_use = s.in_use - 1;
          closing = s.closing + 1;
          retiring = c ∷ s.retiring;
          waiters = ticket ∷ waiters;
        },
        none,
      )
      else (if alive ticket
          then (record s { waiters = waiters }, some (ticket, connection c))
          else release_to alive waiters s c)

  abbrev pub release : (ℕ → Bool) → State C → C → State C × Sent C
  release alive s c = release_to alive s.waiters s c

  -- `Drop for Reservation`, over the waiters left.
  unfoldable pub cancel_to : (ℕ → Bool) → List ℕ → State C → State C × Sent C
  cancel_to alive [] s = (record s { opening = s.opening - 1; waiters = [] }, none)
  cancel_to alive (ticket ∷ waiters) s =
      if over_grant s
      then (record s { opening = s.opening - 1; waiters = ticket ∷ waiters }, none)
      else (if alive ticket
          then (record s { waiters = waiters }, some (ticket, slot))
          else cancel_to alive waiters s)

  abbrev pub cancel : (ℕ → Bool) → State C → State C × Sent C
  cancel alive s = cancel_to alive s.waiters s

  abbrev pub fulfil : State C → State C
  fulfil s = record s { opening = s.opening - 1; in_use = s.in_use + 1; opened = s.opened + 1 }

  -- The connection is closed; its slot becomes a reservation that is dropped.
  abbrev pub discard : (ℕ → Bool) → State C → State C × Sent C
  discard alive s = cancel alive (record s { in_use = s.in_use - 1; opening = s.opening + 1 })

  unfoldable pub give_up : State C → ℕ → State C × Bool
  give_up s ticket =
      let left = keep (λ w. not (w == ticket)) s.waiters in
      (record s { waiters = left }, not (length left == length s.waiters))

  -- `while over_grant`, over the idle connections: those left, and those retired on top of others.
  unfoldable pub retire_idle : ℕ → ℕ → List C → List C → List C × List C
  retire_idle slots busy [] retired = ([], retired)
  retire_idle slots busy (c ∷ idle) retired =
      if ltb slots (suc (length idle) + busy)
      then retire_idle slots busy idle (c ∷ retired)
      else (c ∷ idle, retired)

  unfoldable pub retire : State C → ℕ → State C × List C
  retire s grant =
      let (idle, retired) = retire_idle grant (s.in_use + s.opening) s.idle s.retiring in
      (
        record s {
          slots = grant;
          idle = idle;
          closing = s.closing + (length s.idle - length idle);
          retiring = [];
        },
        retired,
      )

  -- One turn of the loop of `hand_out`, with its waiters and idle connections: the state after it
  -- and what was sent, or nothing when the loop returns.
  unfoldable pub hand_turn : (ℕ → Bool) → List ℕ → List C → State C → Option (State C × Sent C)
  hand_turn alive [] _ s = none
  hand_turn alive (ticket ∷ waiters) (c ∷ rest) s =
      some (release_to alive (ticket ∷ waiters) (take_idle s c rest) c)
  hand_turn alive (ticket ∷ waiters) [] s =
      if leb s.slots (occupied s)
      then none
      else (if alive ticket
          then some (record s { opening = s.opening + 1; waiters = waiters }, some (ticket, slot))
          else some (record s { waiters = waiters }, none))

  abbrev pub sent_first : Sent C → List (ℕ × Handoff C) → List (ℕ × Handoff C)
  sent_first sent more = elim sent [ none ↦ more | some h ↦ h ∷ more ]

  -- `hand_out`, on fuel: with more fuel than waiters and idle connections it ends by its returns.
  unfoldable pub hand_out : (ℕ → Bool) → ℕ → State C → State C × List (ℕ × Handoff C)
  hand_out alive zero s = (s, [])
  hand_out alive (suc fuel) s = elim (hand_turn alive s.waiters s.idle s) [
    | none ↦ (s, [])
    | some (s', sent) ↦ let (left, more) = hand_out alive fuel s' in (left, sent_first sent more)
  ]

  abbrev pub enough : State C → ℕ
  enough s = suc (length s.waiters + length s.idle)

  abbrev pub closed : (ℕ → Bool) → State C → ℕ → State C × List (ℕ × Handoff C)
  closed alive s count =
      let s' = record s { closing = s.closing - count } in hand_out alive (enough s') s'
