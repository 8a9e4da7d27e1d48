-- ===== src/Pool/World.antt =====
-- A pool of crates/core/src/pool.rs among its clients: what is outside it (the assignments and
-- reservations clients hold, the connections `converge` is closing), and every step they take.
use pg_steward.Base.{
  ℕ, ◌+◌, ◌-◌, ◌≤◌, ◌<◌, ◌≡◌, refl, inl, inr, Bool, List, [], ◌∷◌, arith, length, min, max, keep,
}
use pg_steward.Pool.{
  State, assigned, reserved, queued, new_pool, request, occupied, release, cancel, fulfil, discard,
  give_up, retire_idle, retire, hand_out, enough, closed,
}
use pg_steward.Pool.Handing.{
  Settled, connections, reservations, occupied-release_to, release_to-Settled, occupied-cancel_to,
  cancel_to-Settled, retire_idle_lem,
}
use pg_steward.Pool.HandOut.{
  connections_of, reservations_of, Exhausted, hand_out-Exhausted, hand_out-Moved,
}

keep-empty : {A : Type 0} (p : A → Bool) (xs : List A) → xs ≡ [] → keep p xs ≡ []
keep-empty p [] e = refl
keep-empty p (x ∷ xs) e = cc

-- `ceiling` is the largest grant the pool has had.
pub record World (C : Type 0) : Type 0 where
  pub pool : State C
  pub held : ℕ
  pub promised : ℕ
  pub closers : ℕ
  pub ceiling : ℕ

module _ {C : Type 0} where
  abbrev pub begin : ℕ → World C
  begin slots = record {
    pool = new_pool slots;
    held = 0;
    promised = 0;
    closers = 0;
    ceiling = slots;
  }

  abbrev pub requested : World C → World C
  requested w =
      let (s, r) = request w.pool in
      elim r [
        | assigned c ↦ record w { pool = s; held = w.held + 1 }
        | reserved ↦ record w { pool = s; promised = w.promised + 1 }
        | queued t ↦ record w { pool = s }
      ]

  -- An assignment that ends, with what its loop sends.
  abbrev pub released : (ℕ → Bool) → C → World C → World C
  released alive c w =
      let (s, sent) = release alive w.pool c in
      record w { pool = s; held = w.held - 1 + connections sent }

  abbrev pub cancelled : (ℕ → Bool) → World C → World C
  cancelled alive w =
      let (s, sent) = cancel alive w.pool in
      record w { pool = s; promised = w.promised - 1 + reservations sent }

  abbrev pub discarded : (ℕ → Bool) → World C → World C
  discarded alive w =
      let (s, sent) = discard alive w.pool in
      record w { pool = s; held = w.held - 1; promised = w.promised + reservations sent }

  abbrev pub retired : ℕ → World C → World C
  retired grant w =
      let (s, gone) = retire w.pool grant in
      record w { pool = s; closers = w.closers + length gone; ceiling = max w.ceiling grant }

  abbrev pub after_close : (ℕ → Bool) → ℕ → World C → World C
  after_close alive n w =
      let (s, sent) = closed alive w.pool n in
      record w {
        pool = s;
        held = w.held + connections_of sent;
        promised = w.promised + reservations_of sent;
        closers = w.closers - n;
      }

  pub data Step (w : World C) : World C → Type 0 where
    requests : Step w (requested w)
    opens :
        0 < w.promised
        → Step w (record w { pool = fulfil w.pool; promised = w.promised - 1; held = w.held + 1 })
    cancels : (alive : ℕ → Bool) → 0 < w.promised → Step w (cancelled alive w)
    releases : (alive : ℕ → Bool) (c : C) → 0 < w.held → Step w (released alive c w)
    discards : (alive : ℕ → Bool) → 0 < w.held → Step w (discarded alive w)
    leaves : (ticket : ℕ) → Step w (record w { pool = (give_up w.pool ticket).0 })
    retires : (grant : ℕ) → Step w (retired grant w)
    closes : (alive : ℕ → Bool) (n : ℕ) → n ≤ w.closers → Step w (after_close alive n w)

  pub data Reachable (slots : ℕ) : World C → Type 0 where
    begins : Reachable slots (begin slots)
    steps : {w w' : World C} → Reachable slots w → Step w w' → Reachable slots w'

  -- The counts of the pool are those of what is outside it, it occupies no more than its largest
  -- grant, and no client waits beside an idle connection.
  abbrev pub IsAccounted : World C → Type 0
  IsAccounted w =
      (w.pool.in_use ≡ w.held)
      × (w.pool.opening ≡ w.promised)
      × (w.pool.closing ≡ length w.pool.retiring + w.closers)
      × (occupied w.pool ≤ w.ceiling)
      × (w.pool.slots ≤ w.ceiling)

  requested-IsAccounted : (w : World C) → IsAccounted w → IsAccounted (requested w)
  unfolding request
  requested-IsAccounted w a = ground arith

  released-IsAccounted :
      (alive : ℕ → Bool) (c : C) (w : World C)
      → 0 < w.held
      → IsAccounted w
      → IsAccounted (released alive c w)
  released-IsAccounted alive c w h a =
      omega (arith, occupied-release_to alive w.pool.waiters w.pool c (omega arith))

  cancelled-IsAccounted :
      (alive : ℕ → Bool) (w : World C)
      → 0 < w.promised
      → IsAccounted w
      → IsAccounted (cancelled alive w)
  cancelled-IsAccounted alive w h a =
      omega (arith, occupied-cancel_to alive w.pool.waiters w.pool (omega arith))

  discarded-IsAccounted :
      (alive : ℕ → Bool) (w : World C)
      → 0 < w.held
      → IsAccounted w
      → IsAccounted (discarded alive w)
  discarded-IsAccounted alive w h a =
      let s = record w.pool { in_use = w.pool.in_use - 1; opening = w.pool.opening + 1 } in
      omega (arith, occupied-cancel_to alive s.waiters s (omega arith))

  retired-IsAccounted : (grant : ℕ) (w : World C) → IsAccounted w → IsAccounted (retired grant w)
  unfolding retire
  retired-IsAccounted grant w a =
      omega
        (arith, retire_idle_lem grant (w.pool.in_use + w.pool.opening) w.pool.idle w.pool.retiring)

  after_close-IsAccounted :
      (alive : ℕ → Bool) (n : ℕ) (w : World C)
      → n ≤ w.closers
      → IsAccounted w
      → IsAccounted (after_close alive n w)
  after_close-IsAccounted alive n w h a =
      let s' = record w.pool { closing = w.pool.closing - n } in
      omega (arith, hand_out-Moved alive (enough s') s')

  step-IsAccounted : {w w' : World C} → Step w w' → IsAccounted w → IsAccounted w'
  unfolding give_up
  step-IsAccounted requests a = requested-IsAccounted _ a
  step-IsAccounted (opens h) a = omega arith
  step-IsAccounted (cancels alive h) a = cancelled-IsAccounted alive _ h a
  step-IsAccounted (releases alive c h) a = released-IsAccounted alive c _ h a
  step-IsAccounted (discards alive h) a = discarded-IsAccounted alive _ h a
  step-IsAccounted (leaves ticket) a = omega arith
  step-IsAccounted (retires grant) a = retired-IsAccounted grant _ a
  step-IsAccounted (closes alive n h) a = after_close-IsAccounted alive n _ h a

  Exhausted-Settled : (s : State C) → Exhausted s → Settled s
  Exhausted-Settled s (inl e) = inl e
  Exhausted-Settled s (inr (e, _)) = inr e

  retire_idle-empty :
      (slots busy : ℕ) (idle gone : List C) → idle ≡ [] → (retire_idle slots busy idle gone).0 ≡ []
  unfolding retire_idle
  retire_idle-empty slots busy [] gone e = refl
  retire_idle-empty slots busy (c ∷ idle) gone e = cc

  step-Settled : {w w' : World C} → Step w w' → Settled w.pool → Settled w'.pool
  unfolding request give_up retire
  step-Settled {w} requests a = ground arith
  step-Settled (opens h) a = a
  step-Settled {w} (cancels alive h) a = cancel_to-Settled alive w.pool.waiters w.pool a
  step-Settled {w} (releases alive c h) a = release_to-Settled alive w.pool.waiters w.pool c a
  step-Settled {w} (discards alive h) a =
      cancel_to-Settled alive w.pool.waiters
        (record w.pool { in_use = w.pool.in_use - 1; opening = w.pool.opening + 1 }) a
  step-Settled {w} (leaves ticket) a = elim a [ inl e ↦ inl (keep-empty _ _ e) | inr e ↦ inr e ]
  step-Settled {w} (retires grant) a = elim a [
    | inl e ↦ inl e
    | inr e ↦ inr (retire_idle-empty _ _ _ _ e)
  ]
  step-Settled {w} (closes alive n h) a =
      let s' = record w.pool { closing = w.pool.closing - n } in
      Exhausted-Settled (hand_out alive (enough s') s').0
        (hand_out-Exhausted alive (enough s') s' (omega arith))

  -- In every state a pool reaches from its start, by any steps of clients and of `converge` with
  -- any liveness of the waiters: `in_use` is the number of assignments clients hold, `opening`
  -- that of reservations, `closing` that of the connections to retire and being closed (so no
  -- count is ever taken below zero), the pool occupies at most the largest grant it has had, and
  -- no client waits beside an idle connection.
  pub Reachable-IsAccounted :
      {slots : ℕ} {w : World C} → Reachable slots w → IsAccounted w × Settled w.pool
  Reachable-IsAccounted begins = (omega arith, inl refl)
  Reachable-IsAccounted (steps r s) =
      let (a, b) = Reachable-IsAccounted r in (step-IsAccounted s a, step-Settled s b)

  -- `retire` with a grant sets the slots to it, keeps the number of connections the pool occupies,
  -- empties the list of connections to retire, counts each one it returns as closing once, and
  -- leaves the idle ones within the grant or, when clients alone are above it, none; it retires
  -- no idle connection that the grant allows.
  pub retire_lem :
      (s : State C) (grant : ℕ)
      → let (s', gone) = retire s grant in
        (occupied s' ≡ occupied s)
        × (s'.slots ≡ grant)
        × (length s'.retiring ≡ 0)
        × (s'.closing + length s.retiring ≡ s.closing + length gone)
        × (length s'.idle + s'.in_use + s'.opening ≤ max grant (s.in_use + s.opening))
        × (min (length s.idle + s.in_use + s.opening) grant
            ≤ length s'.idle + s'.in_use + s'.opening)
  unfolding retire
  retire_lem s grant = omega (arith, retire_idle_lem grant (s.in_use + s.opening) s.idle s.retiring)
