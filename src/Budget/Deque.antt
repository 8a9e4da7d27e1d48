-- ===== src/Budget/Deque.antt =====
-- The deque of `ForeignPeak`: what each of the two loops of `observe` leaves, and that the deque
-- answers like the history of the observations.
use pg_steward.Base.{
  ℕ, ◌+◌, ◌-◌, ◌≤◌, ◌<◌, ◌≡◌, refl, max, List, [], ◌∷◌, ◌++◌, arith, All, All-imp, if◌then◌else◌,
  leb,
}
use pg_steward.Budget.{Sample, ForeignPeak, expire, beside, outdo, observe_peak}

-- The largest count among the samples of time `k` or later.
unfoldable pub most_since : ℕ → List Sample → ℕ
most_since k [] = 0
most_since k ((t, count) ∷ samples) = max (if leb k t then count else 0) (most_since k samples)

-- The observations of the last window, by the whole history.
abbrev pub recent_peak : ℕ → ℕ → List Sample → ℕ
recent_peak window now history = most_since (now - window) history

unfoldable pub observe_all : ForeignPeak → List Sample → ForeignPeak
observe_all p [] = p
observe_all p ((at, count) ∷ history) = observe_all (observe_peak p at count) history

-- The times do not go back.
abbrev pub Rising : ℕ → List Sample → Type 0
Rising now [] = Unit
Rising now ((t, _) ∷ history) = (now ≤ t) × Rising t history

abbrev pub Falling : List Sample → Type 0
Falling [] = Unit
Falling (s ∷ samples) = All (λ r. r.1 < s.1) samples × Falling samples

abbrev pub Past : ℕ → List Sample → Type 0
Past now = All (λ s. s.0 ≤ now)

most_since-append :
    (k : ℕ) (xs ys : List Sample)
    → most_since k (xs ++ ys) ≡ max (most_since k xs) (most_since k ys)
unfolding most_since
most_since-append k [] ys = omega arith
most_since-append k ((t, c) ∷ xs) ys = ground (arith, most_since-append k xs ys)

most_since-expire :
    (window at k : ℕ) (samples : List Sample)
    → at ≤ k + window
    → most_since k (expire window at samples) ≡ most_since k samples
unfolding most_since expire
most_since-expire window at k [] h = refl
most_since-expire window at k ((t, c) ∷ samples) h =
    ground (arith, most_since-expire window at k samples)

pub All-expire {ℓ} :
    (P : Sample → Type ℓ) (window at : ℕ) (samples : List Sample)
    → All P samples
    → All P (expire window at samples)
unfolding expire
All-expire P window at [] a = tt
All-expire P window at ((t, c) ∷ samples) a = ground (arith, All-expire P window at samples a.1)

pub Falling-expire :
    (window at : ℕ) (samples : List Sample) → Falling samples → Falling (expire window at samples)
unfolding expire
Falling-expire window at [] f = tt
Falling-expire window at ((t, c) ∷ samples) f = ground (arith, Falling-expire window at samples f.1)

All-beside {ℓ} :
    (P : Sample → Type ℓ) (c : ℕ) (s : Sample) (rest : List Sample)
    → P s
    → All P rest
    → All P (beside c s rest)
All-beside P c s [] p a = ground arith
All-beside P c s (r ∷ rest) p a = (p, a)

All-outdo {ℓ} :
    (P : Sample → Type ℓ) (c : ℕ) (samples : List Sample) → All P samples → All P (outdo c samples)
unfolding outdo
All-outdo P c [] a = tt
All-outdo P c (s ∷ samples) a = All-beside P c s (outdo c samples) a.0 (All-outdo P c samples a.1)

-- What `outdo` leaves is larger than the new count.
outdo_larger :
    (c : ℕ) (samples : List Sample) → Falling samples → All (λ s. c < s.1) (outdo c samples)
unfolding outdo
outdo_larger c [] f = tt
outdo_larger c (s ∷ samples) f =
    go (outdo c samples) (outdo_larger c samples f.1) (All-outdo (λ r. r.1 < s.1) c samples f.0)
  where
    go :
        (rest : List Sample)
        → All (λ r. c < r.1) rest
        → All (λ r. r.1 < s.1) rest
        → All (λ r. c < r.1) (beside c s rest)
    go [] a b = ground arith
    go (r ∷ rest) a b = (omega arith, a)

Falling-outdo : (c : ℕ) (samples : List Sample) → Falling samples → Falling (outdo c samples)
unfolding outdo
Falling-outdo c [] f = tt
Falling-outdo c (s ∷ samples) f =
    go (outdo c samples) (Falling-outdo c samples f.1) (All-outdo (λ r. r.1 < s.1) c samples f.0)
  where
    go : (rest : List Sample) → Falling rest → All (λ r. r.1 < s.1) rest → Falling (beside c s rest)
    go [] a b = ground arith
    go (r ∷ rest) a b = (b, a)

Falling-append :
    (samples : List Sample) (at c : ℕ)
    → Falling samples
    → All (λ s. c < s.1) samples
    → Falling (samples ++ (at, c) ∷ [])
Falling-append [] at c f a = (tt, tt)
Falling-append (s ∷ samples) at c f a = (go samples f.0 a.0, Falling-append samples at c f.1 a.1)
  where
    go :
        (rest : List Sample)
        → All (λ r. r.1 < s.1) rest
        → c < s.1
        → All (λ r. r.1 < s.1) (rest ++ (at, c) ∷ [])
    go [] b h = (h, tt)
    go (r ∷ rest) b h = (b.0, go rest b.1 h)

-- A popped sample never counts beside the one that came later with a count as large.
most_since-outdo :
    (k at c : ℕ) (samples : List Sample)
    → Past at samples
    → max (most_since k (outdo c samples)) (if leb k at then c else 0)
      ≡ max (most_since k samples) (if leb k at then c else 0)
unfolding most_since outdo
most_since-outdo k at c [] p = refl
most_since-outdo k at c (s ∷ samples) p = go (outdo c samples) (most_since-outdo k at c samples p.1)
  where
    go :
        (rest : List Sample)
        → max (most_since k rest) (if leb k at then c else 0)
          ≡ max (most_since k samples) (if leb k at then c else 0)
        → max (most_since k (beside c s rest)) (if leb k at then c else 0)
          ≡ max (most_since k (s ∷ samples)) (if leb k at then c else 0)
    go [] e = ground (arith, p.0)
    go (r ∷ rest) e = ground (arith, p.0)

-- The deque answers like the history, from any time that the window still reaches.
pub record Follows (window now : ℕ) (samples history : List Sample) : Type 0 where
  pub same : (k : ℕ) → now ≤ k + window → most_since k samples ≡ most_since k history
  pub falling : Falling samples
  pub past : Past now samples

Past-append :
    (samples : List Sample) (at c : ℕ) → Past at samples → Past at (samples ++ (at, c) ∷ [])
Past-append [] at c p = (omega arith, tt)
Past-append (s ∷ samples) at c p = (p.0, Past-append samples at c p.1)

pub observe_peak-Follows :
    (p : ForeignPeak) (now at c : ℕ) (history : List Sample)
    → now ≤ at
    → Follows p.window now p.samples history
    → Follows p.window at (observe_peak p at c).samples (history ++ (at, c) ∷ [])
unfolding observe_peak most_since
observe_peak-Follows p now at c history h f = record {
  same = λ k r. omega (
    arith,
    most_since-append k kept ((at, c) ∷ []),
    most_since-append k history ((at, c) ∷ []),
    most_since-outdo k at c (expire p.window at p.samples) past_kept,
    most_since-expire p.window at k p.samples r,
    f.same k (omega arith),
  );
  falling =
      Falling-append kept at c
        (Falling-outdo c (expire p.window at p.samples)
          (Falling-expire p.window at p.samples f.falling))
        (outdo_larger c (expire p.window at p.samples)
          (Falling-expire p.window at p.samples f.falling));
  past =
      Past-append kept at c (All-outdo (λ s. s.0 ≤ at) c (expire p.window at p.samples) past_kept);
}
  where
    kept : List Sample
    kept = outdo c (expire p.window at p.samples)

    past_kept : Past at (expire p.window at p.samples)
    past_kept =
        All-expire (λ s. s.0 ≤ at) p.window at p.samples
          (All-imp {P = λ s. s.0 ≤ now} {Q = λ s. s.0 ≤ at} (λ s q. omega arith) p.samples f.past)
