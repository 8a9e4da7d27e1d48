-- ===== src/Sched/Fair/Queue.antt =====
-- The priority queue of fair.rs: `pop` takes out a least entry and leaves the others.
use Prim.Native.Nat.{Ordering}
use Prim.Native.Nat.Ordering.{lt, eq, gt}
use pg_steward.Base.{
  ℕ, ◌*◌, ◌≤◌, ◌<◌, ◌≡◌, ◌≢◌, refl, sym, subst, ◌⊎◌, inl, inr, Option, none, some, List, [], ◌∷◌,
  arith, All,
}
use pg_steward.Sched.Fair.{Next, compare_next, pop, pick, choose}

cancel_le : (a b c : ℕ) → 0 < c → a * c ≤ b * c → a ≤ b
cancel_le a b c h k = grind arith

cancel_lt : (a b c : ℕ) → a * c < b * c → a < b
cancel_lt a b c k = grind arith

pub scale_le : (x y w : ℕ) → x ≤ y → x * w ≤ y * w
scale_le x y w h = grind arith

scale_lt : (x y w : ℕ) → 0 < w → x < y → x * w < y * w
scale_lt x y w k h = grind arith

-- Fractions `a / u ≤ b / v ≤ c / w` by cross-multiplication.
cross_le : (a b c u v w : ℕ) → 0 < v → a * v ≤ b * u → b * w ≤ c * v → a * w ≤ c * u
cross_le a b c u v w h p q =
    cancel_le (a * w) (c * u) v h
      (omega (arith, scale_le (a * v) (b * u) w p, scale_le (b * w) (c * v) u q))

cross_lt : (a b c u v w : ℕ) → 0 < u → a * v ≤ b * u → b * w < c * v → a * w < c * u
cross_lt a b c u v w h p q =
    cancel_lt (a * w) (c * u) v
      (omega (arith, scale_le (a * v) (b * u) w p, scale_lt (b * w) (c * v) u h q))

cross_lt' : (a b c u v w : ℕ) → 0 < w → a * v < b * u → b * w ≤ c * v → a * w < c * u
cross_lt' a b c u v w h p q =
    cancel_lt (a * w) (c * u) v
      (omega (arith, scale_lt (a * v) (b * u) w h p, scale_le (b * w) (c * v) u q))

-- `a` comes no later than `b`.
abbrev pub Before : Next → Next → Type 0
Before a b = compare_next a b ≢ gt

Before-trans :
    (a b c : Next)
    → 0 < a.weight
    → 0 < b.weight
    → 0 < c.weight
    → Before a b
    → Before b c
    → Before a c
Before-trans a b c wa wb wc p q = ground (
  arith,
  cross_le a.taken b.taken c.taken a.weight b.weight c.weight,
  cross_le c.taken b.taken a.taken c.weight b.weight a.weight,
  cross_lt a.taken b.taken c.taken a.weight b.weight c.weight,
  cross_lt' a.taken b.taken c.taken a.weight b.weight c.weight,
)

pub Before-refl : (a : Next) → Before a a
Before-refl a h = ground arith

Before_total : (a b : Next) → compare_next a b ≡ gt → Before b a
Before_total a b h = ground arith

-- An entry that comes no later has the smaller fraction.
pub Before-le : (a b : Next) → Before a b → a.taken * b.weight ≤ b.taken * a.weight
Before-le a b h = ground arith

abbrev pub Weighted : Next → Type 0
Weighted n = 0 < n.weight

abbrev pub Queued : Next → List Next → Type 0
Queued n [] = ⊥
Queued n (m ∷ queue) = (n ≡ m) ⊎ Queued n queue

pub All-Queued {κ} :
    (P : Next → Type κ) {n : Next} (queue : List Next) → All P queue → Queued n queue → P n
All-Queued P [] a h = absurd h
All-Queued P (m ∷ queue) a (inl e) = subst P (sym e) a.0
All-Queued P (m ∷ queue) a (inr h) = All-Queued P queue a.1 h

-- No two entries are of one row.
abbrev pub Apart : List Next → Type 0
Apart [] = Unit
Apart (n ∷ queue) = All (λ m. n.index ≢ m.index) queue × Apart queue

-- What `pop` returns: an entry, none of the others before it, with the rest of the queue.
pub record Popped (queue : List Next) (n : Next) (rest : List Next) : Type 1 where
  pub parts : (P : Next → Type 0) → All P queue → P n × All P rest
  pub whole : (m : Next) → Queued m queue → (m ≡ n) ⊎ Queued m rest
  pub least : All Weighted queue → All (Before n) rest
  pub apart : Apart queue → Apart (n ∷ rest)

keep_first :
    (n m : Next) (queue rest : List Next)
    → Before n m
    → Popped queue m rest
    → Popped (n ∷ queue) n (m ∷ rest)
keep_first n m queue rest b h = record {
  parts = λ P a. (a.0, h.parts P a.1);
  whole = λ k q. elim q [ inl e ↦ inl e | inr r ↦ inr (h.whole k r) ];
  least = λ w. let ws = h.parts Weighted w.1 in (b, go w.0 ws.0 rest ws.1 (h.least w.1));
  apart = λ a. (h.parts (λ k. n.index ≢ k.index) a.0, h.apart a.1);
}
  where
    go :
        Weighted n
        → Weighted m
        → (r : List Next) → All Weighted r
        → All (Before m) r
        → All (Before n) r
    go wn wm [] ws bs = tt
    go wn wm (k ∷ r) ws bs = (Before-trans n m k wn wm ws.0 b bs.0, go wn wm r ws.1 bs.1)

take_later :
    (n m : Next) (queue rest : List Next)
    → Before m n
    → Popped queue m rest
    → Popped (n ∷ queue) m (n ∷ rest)
take_later n m queue rest b h = record {
  parts = λ P a. let ps = h.parts P a.1 in (ps.0, (a.0, ps.1));
  whole = λ k q. elim q [
    | inl e ↦ inr (inl e)
    | inr r ↦ elim (h.whole k r) [ inl e ↦ inl e | inr s ↦ inr (inr s) ]
  ];
  least = λ w. (b, h.least w.1);
  apart = λ a.
      let ps = h.parts (λ k. n.index ≢ k.index) a.0 in
      let qs = h.apart a.1 in (((λ e. ps.0 (sym e)), qs.0), (ps.1, qs.1));
}

alone : (n : Next) → Popped (n ∷ []) n []
alone n = record { parts = λ P a. a; whole = λ k q. q; least = λ w. tt; apart = λ a. a }

choose-Popped :
    (n m : Next) (queue rest : List Next) (c : Ordering)
    → compare_next n m ≡ c
    → Popped queue m rest
    → Popped (n ∷ queue) (choose c n m rest).0 (choose c n m rest).1
choose-Popped n m queue rest gt e h = take_later n m queue rest (Before_total n m e) h
choose-Popped n m queue rest lt e h = keep_first n m queue rest (λ g. cc) h
choose-Popped n m queue rest eq e h = keep_first n m queue rest (λ g. cc) h

pick-Popped :
    (n : Next) (queue : List Next) (o : Option (Next × List Next))
    → pop queue ≡ o
    → ((t : Next × List Next) → pop queue ≡ some t → Popped queue t.0 t.1)
    → Popped (n ∷ queue) (pick n o).0 (pick n o).1
unfolding pop
pick-Popped n [] none e h = alone n
pick-Popped n (m ∷ queue) none e h = absurd (ground arith)
pick-Popped n queue (some (m, rest)) e h =
    choose-Popped n m queue rest (compare_next n m) refl (h (m, rest) e)

-- The entry that `pop` answers, with the rest that it leaves.
pub pop-Popped :
    (queue : List Next) (r : Next × List Next) → pop queue ≡ some r → Popped queue r.0 r.1
unfolding pop
pop-Popped [] r e = absurd (ground arith)
pop-Popped (n ∷ queue) r e =
    let same : pick n (pop queue) ≡ r = cc in
    subst (λ t. Popped (n ∷ queue) t.0 t.1) same
      (pick-Popped n queue (pop queue) refl (λ t. pop-Popped queue t))

pub pop-none : (queue : List Next) → pop queue ≡ none → queue ≡ []
unfolding pop
pop-none [] e = refl
pop-none (n ∷ queue) e = ground arith
