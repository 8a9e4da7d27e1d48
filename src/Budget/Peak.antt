-- ===== src/Budget/Peak.antt =====
-- The monotonic deque of `ForeignPeak` against the plain history of observations.
use mathlib.Core.List.{append-nil, append_assoc}
use pg_steward.Base.{ℕ, ◌-◌, ◌≤◌, ◌<◌, ◌≡◌, refl, sym, subst, ◌∙◌, List, [], ◌∷◌, ◌++◌, arith, All}
use pg_steward.Budget.{
  Sample, ForeignPeak, new_peak, expire, beside, outdo, observe_peak, front, peak,
}
use pg_steward.Budget.Deque.{
  most_since, recent_peak, observe_all, Rising, Falling, Follows, observe_peak-Follows,
}

most_since-le :
    (k b : ℕ) (samples : List Sample) → All (λ s. s.1 < b) samples → most_since k samples ≤ b
unfolding most_since
most_since-le k b [] a = omega arith
most_since-le k b (s ∷ samples) a = ground (arith, most_since-le k b samples a.1)

abbrev Reaches : ℕ → List Sample → Type 0
Reaches k [] = Unit
Reaches k (s ∷ samples) = k ≤ s.0

-- The front is the largest sample, and counts from any time up to its own.
front-most_since :
    (k : ℕ) (samples : List Sample)
    → Falling samples
    → Reaches k samples
    → front samples ≡ most_since k samples
unfolding most_since
front-most_since k [] f r = refl
front-most_since k (s ∷ samples) f r = ground (arith, most_since-le k s.1 samples f.0)

expire-Reaches :
    (window at : ℕ) (samples : List Sample) → Reaches (at - window) (expire window at samples)
unfolding expire
expire-Reaches window at [] = tt
expire-Reaches window at ((t, c) ∷ samples) = ground (arith, expire-Reaches window at samples)

outdo-Reaches :
    (k at c : ℕ) (samples : List Sample)
    → k ≤ at
    → Reaches k samples
    → Reaches k (outdo c samples ++ (at, c) ∷ [])
unfolding outdo
outdo-Reaches k at c [] h r = h
outdo-Reaches k at c (s ∷ samples) h r = go (outdo c samples)
  where
    go : (rest : List Sample) → Reaches k (beside c s rest ++ (at, c) ∷ [])
    go [] = ground arith
    go (x ∷ rest) = r

reaches : (p : ForeignPeak) (at c : ℕ) → Reaches (at - p.window) (observe_peak p at c).samples
unfolding observe_peak
reaches p at c =
    outdo-Reaches (at - p.window) at c (expire p.window at p.samples) (omega arith)
      (expire-Reaches p.window at p.samples)

peak-observe_peak :
    (p : ForeignPeak) (now at c : ℕ) (history : List Sample)
    → now ≤ at
    → Follows p.window now p.samples history
    → peak (observe_peak p at c) ≡ recent_peak p.window at (history ++ (at, c) ∷ [])
peak-observe_peak p now at c history h f =
    let next = observe_peak-Follows p now at c history h f in
    front-most_since (at - p.window) (observe_peak p at c).samples next.falling (reaches p at c)
    ∙ next.same (at - p.window) (omega arith)

window_kept : (p : ForeignPeak) (at c : ℕ) → (observe_peak p at c).window ≡ p.window
unfolding observe_peak
window_kept p at c = refl

abbrev pub last_time : ℕ → List Sample → ℕ
last_time now [] = now
last_time now ((t, _) ∷ history) = last_time t history

observe_all-Follows :
    (window : ℕ) (p : ForeignPeak) (now : ℕ) (before history : List Sample)
    → p.window ≡ window
    → Rising now history
    → Follows window now p.samples before
    → (Follows window (last_time now history) (observe_all p history).samples (before ++ history))
      × ((observe_all p history).window ≡ window)
unfolding observe_all
observe_all-Follows window p now before [] w r f = (rw append-nil f, w)
observe_all-Follows window p now before ((t, c) ∷ history) w r f =
    let step =
      observe_peak-Follows p now t c before r.0
        (subst (λ x. Follows x now p.samples before) (sym w) f) in
    let step' =
      subst (λ x. Follows x t (observe_peak p t c).samples (before ++ (t, c) ∷ [])) w step in
    subst
      (λ l.
        Follows window (last_time t history) (observe_all (observe_peak p t c) history).samples l
        × ((observe_all (observe_peak p t c) history).window ≡ window))
      (append_assoc before ((t, c) ∷ []) history)
      (observe_all-Follows window (observe_peak p t c) t (before ++ (t, c) ∷ []) history
        (window_kept p t c ∙ w) r.1 step')

-- After any observations whose times do not go back, the peak read from the deque is the largest
-- count of the whole history within the window that ends at the last observation.
pub peak-observe_all :
    (window at count : ℕ) (history : List Sample)
    → Rising 0 history
    → last_time 0 history ≤ at
    → peak (observe_peak (observe_all (new_peak window) history) at count)
      ≡ recent_peak window at (history ++ (at, count) ∷ [])
peak-observe_all window at count history r h =
    let p = observe_all (new_peak window) history in
    let (f, w) = observe_all-Follows window (new_peak window) 0 [] history refl r start in
    let f' = subst (λ x. Follows x (last_time 0 history) p.samples history) (sym w) f in
    subst (λ x. peak (observe_peak p at count) ≡ recent_peak x at (history ++ (at, count) ∷ [])) w
      (peak-observe_peak p (last_time 0 history) at count history h f')
  where
    start : Follows window 0 [] []
    start = record { same = λ k g. refl; falling = tt; past = tt }
