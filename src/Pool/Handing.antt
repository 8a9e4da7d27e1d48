-- ===== src/Pool/Handing.antt =====
-- The loops of pool.rs that hand connections and slots on: what each leaves.
use pg_steward.Base.{
  ℕ, ◌+◌, ◌≤◌, ◌<◌, ◌≡◌, ◌⊎◌, inl, inr, Bool, none, some, List, [], ◌∷◌, arith, length, max,
}
use pg_steward.Pool.{State, connection, slot, occupied, Sent, release_to, cancel_to, retire_idle}

-- No client waits beside an idle connection.
abbrev pub Settled : {C : Type 0} → State C → Type 0
Settled s = (s.waiters ≡ []) ⊎ (s.idle ≡ [])

-- The connections and the slots sent to a waiter.
abbrev pub connections : {C : Type 0} → Sent C → ℕ
connections sent = elim sent [ none ↦ 0 | some (_, h) ↦ elim h [ connection _ ↦ 1 | slot ↦ 0 ] ]

abbrev pub reservations : {C : Type 0} → Sent C → ℕ
reservations sent = elim sent [ none ↦ 0 | some (_, h) ↦ elim h [ connection _ ↦ 0 | slot ↦ 1 ] ]

module _ {C : Type 0} (alive : ℕ → Bool) where
  -- A connection that comes back is retired, handed to a waiter or left idle, and none of these
  -- changes how many connections the pool occupies.
  pub occupied-release_to :
      (ws : List ℕ) (s : State C) (c : C)
      → 0 < s.in_use
      → let (s', sent) = release_to alive ws s c in
        (occupied s' ≡ occupied s)
        × (s'.slots ≡ s.slots)
        × (s'.in_use + 1 ≡ s.in_use + connections sent)
        × (s'.opening ≡ s.opening)
        × (reservations sent ≡ 0)
        × (s'.closing + length s.retiring ≡ s.closing + length s'.retiring)
        × (length s'.waiters ≤ length ws)
  unfolding release_to
  occupied-release_to [] s c h = ground arith
  occupied-release_to (w ∷ ws) s c h = ground (arith, occupied-release_to ws s c h)

  pub release_to-Settled :
      (ws : List ℕ) (s : State C) (c : C)
      → (ws ≡ []) ⊎ (s.idle ≡ [])
      → Settled (release_to alive ws s c).0
  unfolding release_to
  release_to-Settled [] s c h = ground arith
  release_to-Settled (w ∷ ws) s c (inl h) = ground arith
  release_to-Settled (w ∷ ws) s c (inr h) = ground (arith, release_to-Settled ws s c (inr h))

  -- Unless the connection is left idle with no waiter before, the lists only get shorter.
  pub release_to-shorter :
      (ws : List ℕ) (s : State C) (c : C)
      → let s' = (release_to alive ws s c).0 in
        length s'.waiters + length s'.idle ≤ max 1 (length ws) + length s.idle
  unfolding release_to
  release_to-shorter [] s c = ground arith
  release_to-shorter (w ∷ ws) s c = ground (arith, release_to-shorter ws s c)

  pub occupied-cancel_to :
      (ws : List ℕ) (s : State C)
      → 0 < s.opening
      → let (s', sent) = cancel_to alive ws s in
        (occupied s' ≤ occupied s)
        × (s'.slots ≡ s.slots)
        × (s'.opening + 1 ≡ s.opening + reservations sent)
        × (s'.in_use ≡ s.in_use)
        × (connections sent ≡ 0)
        × (s'.closing ≡ s.closing)
        × (length s'.retiring ≡ length s.retiring)
  unfolding cancel_to
  occupied-cancel_to [] s h = ground arith
  occupied-cancel_to (w ∷ ws) s h = ground (arith, occupied-cancel_to ws s h)

  pub cancel_to-Settled :
      (ws : List ℕ) (s : State C) → (ws ≡ []) ⊎ (s.idle ≡ []) → Settled (cancel_to alive ws s).0
  unfolding cancel_to
  cancel_to-Settled [] s h = ground arith
  cancel_to-Settled (w ∷ ws) s (inl h) = ground arith
  cancel_to-Settled (w ∷ ws) s (inr h) = ground (arith, cancel_to-Settled ws s (inr h))

-- What `while over_grant` leaves and retires.
pub retire_idle_lem :
    {C : Type 0} (slots busy : ℕ) (idle retired : List C)
    → let (left, gone) = retire_idle slots busy idle retired in
      (length left + length gone ≡ length idle + length retired)
      × ((length left + busy ≤ slots) ⊎ (length left ≡ 0))
      × ((length left ≡ length idle) ⊎ (slots ≤ length left + busy))
      × (length left ≤ length idle)
unfolding retire_idle
retire_idle_lem slots busy [] retired = ground arith
retire_idle_lem slots busy (c ∷ idle) retired =
    ground (arith, retire_idle_lem slots busy idle (c ∷ retired))
