-- ===== src/Pool/HandOut.antt =====
-- `Inner::hand_out` of pool.rs: its loop ends, and what it leaves.
use pg_steward.Base.{
  ℕ, zero, suc, ◌+◌, ◌≤◌, ◌<◌, ◌≡◌, refl, ◌⊎◌, inl, inr, Bool, none, some, List, [], ◌∷◌, arith,
  length, max, Option-cases, total,
}
use pg_steward.Pool.{State, Handoff, occupied, Sent, take_idle, hand_turn, sent_first, hand_out}
use pg_steward.Pool.Handing.{connections, reservations, release_to-shorter, occupied-release_to}

abbrev pub connections_of : {C : Type 0} → List (ℕ × Handoff C) → ℕ
connections_of sent = total (λ h. connections (some h)) sent

abbrev pub reservations_of : {C : Type 0} → List (ℕ × Handoff C) → ℕ
reservations_of sent = total (λ h. reservations (some h)) sent

-- Every waiter is served, or every slot is taken.
abbrev pub Exhausted : {C : Type 0} → State C → Type 0
Exhausted s = (s.waiters ≡ []) ⊎ ((s.idle ≡ []) × (s.slots ≤ occupied s))

-- What went to waiters is what left the counts of the pool.
abbrev pub Moved : {C : Type 0} → State C → State C → ℕ → ℕ → Type 0
Moved s s' conns slots =
    (occupied s' ≤ max (occupied s) s.slots)
    × (s'.slots ≡ s.slots)
    × (s'.in_use ≡ s.in_use + conns)
    × (s'.opening ≡ s.opening + slots)
    × (s'.closing + length s.retiring ≡ s.closing + length s'.retiring)

counts_of-sent_first :
    {C : Type 0} (sent : Sent C) (more : List (ℕ × Handoff C))
    → (connections_of (sent_first sent more) ≡ connections sent + connections_of more)
      × (reservations_of (sent_first sent more) ≡ reservations sent + reservations_of more)
counts_of-sent_first none more = omega arith
counts_of-sent_first (some h) more = omega arith

module _ {C : Type 0} (alive : ℕ → Bool) where
  hand_turn-shorter :
      (ws : List ℕ) (idle : List C) (s : State C) (s' : State C) (sent : Sent C)
      → idle ≡ s.idle
      → hand_turn alive ws idle s ≡ some (s', sent)
      → length s'.waiters + length s'.idle < length ws + length idle
  unfolding hand_turn
  hand_turn-shorter [] idle s s' sent i e = ground arith
  hand_turn-shorter (w ∷ ws) [] s s' sent i e = ground arith
  hand_turn-shorter (w ∷ ws) (c ∷ rest) s s' sent i e =
      ground (arith, release_to-shorter alive (w ∷ ws) (take_idle s c rest) c)

  hand_turn-Exhausted :
      (ws : List ℕ) (idle : List C) (s : State C)
      → hand_turn alive ws idle s ≡ none
      → (ws ≡ []) ⊎ ((idle ≡ []) × (s.slots ≤ occupied s))
  unfolding hand_turn
  hand_turn-Exhausted [] idle s e = inl refl
  hand_turn-Exhausted (w ∷ ws) [] s e = ground arith
  hand_turn-Exhausted (w ∷ ws) (c ∷ rest) s e = ground arith

  -- With more fuel than the pool has waiters and idle connections, `hand_out` ends by a return of
  -- its own: no waiter is left, or no connection is idle and the pool occupies its slots.
  pub hand_out-Exhausted :
      (fuel : ℕ) (s : State C)
      → length s.waiters + length s.idle < fuel
      → Exhausted (hand_out alive fuel s).0
  unfolding hand_out
  hand_out-Exhausted zero s h = ground arith
  hand_out-Exhausted (suc fuel) s h = elim (Option-cases (hand_turn alive s.waiters s.idle s)) [
    | inl e ↦ rw (e, hand_out) (hand_turn-Exhausted s.waiters s.idle s e)
    | inr ((s', sent), e) ↦
        rw (e, hand_out)
          (hand_out-Exhausted fuel s'
            (omega (arith, hand_turn-shorter s.waiters s.idle s s' sent refl e)))
  ]

  hand_turn-Moved :
      (ws : List ℕ) (idle : List C) (s : State C) (s' : State C) (sent : Sent C)
      → idle ≡ s.idle
      → hand_turn alive ws idle s ≡ some (s', sent)
      → Moved s s' (connections sent) (reservations sent)
  unfolding hand_turn
  hand_turn-Moved [] idle s s' sent i e = ground arith
  hand_turn-Moved (w ∷ ws) [] s s' sent i e = ground arith
  hand_turn-Moved (w ∷ ws) (c ∷ rest) s s' sent i e =
      ground (arith, occupied-release_to alive (w ∷ ws) (take_idle s c rest) c (omega arith))

  -- Whatever `hand_out` sends, it keeps the slots and never takes the pool above them or above
  -- what it occupied already; `in_use` and `opening` grow by exactly the connections and the slots
  -- sent, and `closing` as the list of connections to retire does.
  pub hand_out-Moved :
      (fuel : ℕ) (s : State C)
      → let (s', sent) = hand_out alive fuel s in
        Moved s s' (connections_of sent) (reservations_of sent)
  unfolding hand_out
  hand_out-Moved zero s = omega arith
  hand_out-Moved (suc fuel) s = elim (Option-cases (hand_turn alive s.waiters s.idle s)) [
    | inl e ↦ rw (e, hand_out) (omega arith)
    | inr ((s', sent), e) ↦
        rw (e, hand_out)
          (omega (
            arith,
            hand_turn-Moved s.waiters s.idle s s' sent refl e,
            hand_out-Moved fuel s',
            counts_of-sent_first sent (hand_out alive fuel s').1,
          ))
  ]
