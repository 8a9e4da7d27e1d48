-- ===== src/Pool/Tests.antt =====
-- The pool's theorems applied to runs of it.
use pg_steward.Base.{ℕ, ◌+◌, ◌≤◌, ◌≡◌, refl, Bool, true, [], ◌∷◌, arith, length, min, max}
use pg_steward.Pool.{State, occupied, request, hand_turn, hand_out, enough, retire, retire_idle}
use pg_steward.Pool.HandOut.{Exhausted, hand_out-Exhausted}
use pg_steward.Pool.World.{
  World, begin, requested, retired, after_close, begins, steps, requests, retires, closes,
  IsAccounted, Reachable-IsAccounted, retire_lem,
}
use pg_steward.Pool.Handing.{Settled}

abbrev present : ℕ → Bool
present _ = true

-- A pool of one slot: a client takes it, another waits, the grant falls to none and rises to two.
abbrev two_clients : World ℕ
two_clients = requested (requested (begin 1))

abbrev raised : World ℕ
raised = after_close present 0 (retired 2 (retired 0 two_clients))

Reachable-IsAccounted_example : IsAccounted raised × Settled raised.pool
Reachable-IsAccounted_example = Reachable-IsAccounted (
    steps (steps (steps (steps (steps begins requests) requests) (retires 0)) (retires 2))
      (closes present 0 (omega arith)))

raised_sent : raised.promised ≡ 2
unfolding request retire retire_idle hand_out hand_turn
raised_sent = refl

abbrev waiting : State ℕ
waiting = record {
  slots = 2;
  idle = 7 ∷ [];
  in_use = 0;
  opening = 0;
  closing = 0;
  retiring = [];
  waiters = 3 ∷ 4 ∷ 5 ∷ [];
  next_ticket = 6;
  opened = 1;
}

hand_out-Exhausted_example : Exhausted (hand_out present (enough waiting) waiting).0
hand_out-Exhausted_example = hand_out-Exhausted present (enough waiting) waiting (omega arith)

retire_lem_example :
    let (s', gone) = retire waiting 0 in
    (occupied s' ≡ occupied waiting)
    × (s'.slots ≡ 0)
    × (length s'.retiring ≡ 0)
    × (s'.closing + length waiting.retiring ≡ waiting.closing + length gone)
    × (length s'.idle + s'.in_use + s'.opening ≤ max 0 (waiting.in_use + waiting.opening))
    × (min (length waiting.idle + waiting.in_use + waiting.opening) 0
        ≤ length s'.idle + s'.in_use + s'.opening)
retire_lem_example = retire_lem waiting 0
