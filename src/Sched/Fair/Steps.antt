-- ===== src/Sched/Fair/Steps.antt =====
-- The loop of fair.rs as single steps: each raises by one the first row, in the order of the
-- queue, of those below their limit.
use mathlib.Core.Path.{ap₂}
use mathlib.Core.Option.{some-injective}
use pg_steward.Base.{
  ℕ, zero, suc, ◌+◌, ◌≤◌, ◌<◌, ◌≡◌, ◌≢◌, refl, sym, ◌∙◌, subst, ◌⊎◌, inl, inr, true, false, some,
  List, [], ◌∷◌, arith, All, All-imp, Bool-cases, get_elem?, set, get_elem?-set_ne, All-get_elem?,
}
use pg_steward.Sched.Fair.{Row, Phase, Next, after, under, raise, queue_of}
use pg_steward.Sched.Fair.Queue.{Before, Before-refl, Weighted, Queued, All-Queued, Apart, Popped}

pub record Step (phase : Phase) (rows rows' : List Row) : Type 0 where
  pub index : ℕ
  pub row : Row
  pub at : get_elem? rows index ≡ some row
  pub below : under phase row ≡ true
  pub first :
      (j : ℕ) (r : Row)
      → get_elem? rows j ≡ some r
      → under phase r ≡ true
      → Before (after index row) (after j r)
  pub result : rows' ≡ set rows index (raise row)

abbrev pub Steps : Phase → ℕ → List Row → List Row → Type 0
Steps phase zero rows rows' = rows ≡ rows'
Steps phase (suc n) rows rows' = (mid : List Row) × Step phase rows mid × Steps phase n mid rows'

-- Every row has reached its limit.
abbrev pub Full : Phase → List Row → Type 0
Full phase rows = (j : ℕ) (r : Row) → get_elem? rows j ≡ some r → under phase r ≡ false

abbrev pub Heavy : List Row → Type 0
Heavy = All (λ r. 0 < r.weight)

unfoldable pub Fits : Phase → List Row → Next → Type 0
Fits phase rows n =
    (r : Row) × (get_elem? rows n.index ≡ some r) × (under phase r ≡ true) × (n ≡ after n.index r)

-- The queue holds exactly the rows below their limit, each once and up to date.
pub record Matches (phase : Phase) (queue : List Next) (rows : List Row) : Type 0 where
  pub sound : All (Fits phase rows) queue
  pub complete :
      (j : ℕ) (r : Row)
      → get_elem? rows j ≡ some r
      → under phase r ≡ true
      → Queued (after j r) queue
  pub apart : Apart queue

module _ (phase : Phase) where
  From : ℕ → List Row → Next → Type 0
  From i rows n =
      (k : ℕ) × (r : Row) × (n.index ≡ i + k)
      × (get_elem? rows k ≡ some r)
      × (under phase r ≡ true)
      × (n ≡ after n.index r)

  From-suc :
      (i : ℕ) (row : Row) (rows : List Row) (n : Next) → From (i + 1) rows n → From i (row ∷ rows) n
  unfolding From
  From-suc i row rows n (k, r, e, g, u, s) = (suc k, r, omega arith, g, u, s)

  queue_of-From : (i : ℕ) (rows : List Row) → All (From i rows) (queue_of phase i rows)
  unfolding queue_of From
  queue_of-From i [] = tt
  queue_of-From i (row ∷ rows) =
      let rest =
        All-imp (From-suc i row rows) (queue_of phase (i + 1) rows) (queue_of-From (i + 1) rows) in
      elim (Bool-cases (under phase row)) [
        | inl u ↦ rw (u, queue_of) ((zero, row, omega arith, refl, u, refl), rest)
        | inr u ↦ rw (u, queue_of) rest
      ]

  queue_of_complete :
      (i : ℕ) (rows : List Row) (k j : ℕ) (r : Row)
      → j ≡ i + k
      → get_elem? rows k ≡ some r
      → under phase r ≡ true
      → Queued (after j r) (queue_of phase i rows)
  unfolding queue_of
  queue_of_complete i [] k j r e g u = absurd (cc)
  queue_of_complete i (row ∷ rows) zero j r e g u =
      let same : row ≡ r = some-injective _ _ g in
      let here : i ≡ j = omega arith in
      let open_row : under phase row ≡ true = subst (λ t. under phase t ≡ true) (sym same) u in
      rw (open_row, queue_of) (inl (sym (ap₂ after here same)))
  queue_of_complete i (row ∷ rows) (suc k) j r e g u =
      let later = queue_of_complete (i + 1) rows k j r (omega arith) g u in
      elim (Bool-cases (under phase row)) [
        | inl v ↦ rw (v, queue_of) (inr later)
        | inr v ↦ rw (v, queue_of) later
      ]

  queue_of_from : (i : ℕ) (rows : List Row) → All (λ n. i ≤ n.index) (queue_of phase i rows)
  unfolding From
  queue_of_from i rows =
      All-imp (λ n f. omega (arith, f.2)) (queue_of phase i rows) (queue_of-From i rows)

  queue_of-Apart : (i : ℕ) (rows : List Row) → Apart (queue_of phase i rows)
  unfolding queue_of
  queue_of-Apart i [] = tt
  queue_of-Apart i (row ∷ rows) = elim (Bool-cases (under phase row)) [
    | inl v ↦
        rw (v, queue_of)
          (
            All-imp (λ n h. omega arith) (queue_of phase (i + 1) rows) (queue_of_from (i + 1) rows),
            queue_of-Apart (i + 1) rows,
          )
    | inr v ↦ rw (v, queue_of) (queue_of-Apart (i + 1) rows)
  ]

  pub queue_of-Matches : (rows : List Row) → Matches phase (queue_of phase 0 rows) rows
  unfolding From Fits
  queue_of-Matches rows = record {
    sound = All-imp (λ n f. fits n f) (queue_of phase 0 rows) (queue_of-From 0 rows);
    complete = λ j r. queue_of_complete 0 rows j j r (omega arith);
    apart = queue_of-Apart 0 rows;
  }
    where
      fits : (n : Next) → From 0 rows n → Fits phase rows n
      fits n (k, r, e, g, u, s) =
          let here : k ≡ n.index = omega arith in
          (r, subst (λ t. get_elem? rows t ≡ some r) here g, u, s)

  -- One round of the loop: the popped row is raised, and the queue matches again.
  module _ (queue rest : List Next) (n : Next) (rows : List Row) (r : Row)
      (popped : Popped queue n rest) (heavy : Heavy rows) (m : Matches phase queue rows)
      (at : get_elem? rows n.index ≡ some r) (u : under phase r ≡ true)
      (s : n ≡ after n.index r) where
    pub matching : All Weighted queue
    unfolding Fits
    matching = All-imp (λ k f. weighted k f) queue m.sound
      where
        weighted : (k : Next) → Fits phase rows k → Weighted k
        weighted k (row, g, v, e) =
            subst Weighted (sym e) (All-get_elem? (λ t. 0 < t.weight) rows k.index heavy g)

    pub raised : Step phase rows (set rows n.index (raise r))
    raised = record {
      index = n.index;
      row = r;
      at = at;
      below = u;
      first = λ j t g v. go j t (popped.whole (after j t) (m.complete j t g v));
      result = refl;
    }
      where
        go :
            (j : ℕ) (t : Row)
            → (after j t ≡ n) ⊎ Queued (after j t) rest
            → Before (after n.index r) (after j t)
        go j t (inl e) =
            subst (λ k. Before (after n.index r) k) (sym e)
              (subst (λ k. Before k n) s (Before-refl n))
        go j t (inr q) =
            subst (λ k. Before k (after j t)) s
              (All-Queued (Before n) rest (popped.least matching) q)

    unchanged :
        (k : Next)
        → n.index ≢ k.index
        → Fits phase rows k
        → Fits phase (set rows n.index (raise r)) k
    unfolding Fits
    unchanged k ne (row, g, v, e) =
        (row, get_elem?-set_ne rows n.index k.index (raise r) ne ∙ g, v, e)

    pub rest-Fits :
        (q : List Next)
        → All (λ k. n.index ≢ k.index) q
        → All (Fits phase rows) q
        → All (Fits phase (set rows n.index (raise r))) q
    rest-Fits [] a f = tt
    rest-Fits (k ∷ q) a f = (unchanged k a.0 f.0, rest-Fits q a.1 f.1)
