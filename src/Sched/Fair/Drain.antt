-- ===== src/Sched/Fair/Drain.antt =====
-- The loops of fair.rs, `drain` and `fill`, as sequences of steps.
use mathlib.Core.Path.{ap₂}
use mathlib.Core.Option.{some-injective}
use pg_steward.Base.{
  ℕ, zero, suc, ◌+◌, ◌<◌, ◌≤◌, ◌≡◌, refl, sym, ap, ◌∙◌, subst, ◌⊎◌, inl, inr, true, some, List, [],
  ◌∷◌, arith, All, Option-cases, Bool-cases, get_elem?, set, map, get_elem?-set_self,
  get_elem?-set_ne, All-get_elem?, ℕ_discrete,
}
use pg_steward.Sched.Fair.{
  Row, Phase, Next, after, under, raise, rebase, queue_of, push, pop, drain, fill,
}
use pg_steward.Sched.Fair.Queue.{Queued, Popped, pop-Popped, pop-none}
use pg_steward.Sched.Fair.Steps.{
  Step, Steps, Full, Heavy, Fits, Matches, queue_of-Matches, raised, rest-Fits,
}

module _ (phase : Phase) (queue rest : List Next) (n : Next) (rows : List Row) (r : Row)
    (popped : Popped queue n rest) (heavy : Heavy rows) (m : Matches phase queue rows)
    (at : get_elem? rows n.index ≡ some r) where
  abbrev rows' : List Row
  rows' = set rows n.index (raise r)

  hit : get_elem? rows' n.index ≡ some (raise r)
  hit = get_elem?-set_self rows n.index (raise r) at

  in_push : (k : Next) → Queued k rest → Queued k (push phase n.index (raise r) rest)
  in_push k q = elim (Bool-cases (under phase (raise r))) [ inl v ↦ rw v (inr q) | inr v ↦ rw v q ]

  pushed_complete :
      (j : ℕ) (t : Row)
      → get_elem? rows' j ≡ some t
      → under phase t ≡ true
      → Queued (after j t) (push phase n.index (raise r) rest)
  pushed_complete j t g v = elim (ℕ_discrete n.index j) [
    | yes e ↦
        let g' : get_elem? rows' n.index ≡ some t =
          subst (λ i. get_elem? rows' i ≡ some t) (sym e) g in
        let same : raise r ≡ t = some-injective _ _ (sym hit ∙ g') in
        let open_row : under phase (raise r) ≡ true =
          subst (λ k. under phase k ≡ true) (sym same) v in
        rw open_row (inl (ap₂ after (sym e) (sym same)))
    | no ne ↦
        elim (popped.whole (after j t)
          (m.complete j t (sym (get_elem?-set_ne rows n.index j (raise r) ne) ∙ g) v)) [
            | inl e ↦ absurd (ne (sym (ap (λ k. k.index) e)))
            | inr q ↦ in_push (after j t) q
          ]
  ]

  pushed :
      under phase r ≡ true
      → n ≡ after n.index r
      → Matches phase (push phase n.index (raise r) rest) rows'
  unfolding Fits
  pushed u s = record {
    sound = elim (Bool-cases (under phase (raise r))) [
      | inl v ↦ rw v ((raise r, hit, v, refl), fits)
      | inr v ↦ rw v fits
    ];
    complete = pushed_complete;
    apart = elim (Bool-cases (under phase (raise r))) [
      | inl v ↦ rw v (popped.apart m.apart)
      | inr v ↦ rw v (popped.apart m.apart).1
    ];
  }
    where
      fits : All (Fits phase rows') rest
      fits =
          rest-Fits phase queue rest n rows r popped heavy m at u s rest (popped.apart m.apart).0
            (popped.parts (Fits phase rows) m.sound).1

set-Heavy : (rows : List Row) (i : ℕ) (r : Row) → 0 < r.weight → Heavy rows → Heavy (set rows i r)
set-Heavy [] i r w h = tt
set-Heavy (x ∷ rows) zero r w h = (w, h.1)
set-Heavy (x ∷ rows) (suc i) r w h = (h.0, set-Heavy rows i r w h.1)

pub Step-Heavy :
    {phase : Phase} {rows mid : List Row} → Step phase rows mid → Heavy rows → Heavy mid
Step-Heavy {phase} {rows} {mid} s h =
    subst Heavy (sym s.result) (
      set-Heavy rows s.index (raise s.row) (All-get_elem? (λ t. 0 < t.weight) rows s.index h s.at)
        h)

empty-Full : (phase : Phase) (rows : List Row) → Matches phase [] rows → Full phase rows
empty-Full phase rows m j r g = elim (Bool-cases (under phase r)) [
  | inl v ↦ absurd (m.complete j r g v)
  | inr v ↦ v
]

-- The loop makes some number of steps, counts each off what remained, and stops when nothing
-- remains or no row is below its limit.
abbrev pub Drained : Phase → List Row → ℕ → List Row × ℕ → Type 0
Drained phase rows remaining out =
    (n : ℕ) × Steps phase n rows out.0 × (remaining ≡ n + out.1) × ((out.1 ≡ 0) ⊎ Full phase out.0)

prepend :
    (phase : Phase) (rows mid : List Row) (remaining : ℕ) (out : List Row × ℕ)
    → Step phase rows mid
    → Drained phase mid remaining out
    → Drained phase rows (suc remaining) out
prepend phase rows mid remaining out step (n, steps, e, stop) =
    (suc n, (mid, step, steps), omega arith, stop)

drain-Drained :
    (phase : Phase) (remaining : ℕ) (queue : List Next) (rows : List Row)
    → Matches phase queue rows
    → Heavy rows
    → Drained phase rows remaining (drain phase remaining queue rows)
unfolding drain Fits
drain-Drained phase zero queue rows m h = (0, refl, omega arith, inl refl)
drain-Drained phase (suc remaining) queue rows m h = elim (Option-cases (pop queue)) [
  | inl e ↦
      rw (e, drain)
        (
          0,
          refl,
          omega arith,
          inr (empty-Full phase rows (subst (λ q. Matches phase q rows) (pop-none queue e) m)),
        )
  | inr (p, e) ↦
      let popped = pop-Popped queue p e in
      let fit = (popped.parts (Fits phase rows) m.sound).0 in
      let r = fit.0 in
      let mid = set rows p.0.index (raise r) in
      let queue' = push phase p.0.index (raise r) p.1 in
      let step = raised phase queue p.1 p.0 rows r popped h m fit.1 fit.2 fit.3 in
      let m' = pushed phase queue p.1 p.0 rows r popped h m fit.1 fit.2 fit.3 in
      let rest = drain-Drained phase remaining queue' mid m' (Step-Heavy step h) in
      rw (e, fit.1, drain)
        (prepend phase rows mid remaining (drain phase remaining queue' mid) step rest)
]

rebase-Heavy : (rows : List Row) → Heavy rows → Heavy (map rebase rows)
rebase-Heavy [] h = tt
rebase-Heavy (r ∷ rows) h = (h.0, rebase-Heavy rows h.1)

-- With nothing left to give a round leaves the rows alone, their bases too; otherwise it starts
-- from the bases set to what is granted.
abbrev pub Filled : Phase → List Row → ℕ → List Row × ℕ → Type 0
Filled phase rows remaining out =
    ((remaining ≡ 0) × (out.0 ≡ rows) × (out.1 ≡ 0))
    ⊎ ((1 ≤ remaining) × Drained phase (map rebase rows) remaining out)

-- Each round of the allocation is the greedy one: it gives one slot at a time, each to the first
-- row of those below their limit, until no slot is left or no row is below its limit.
pub fill-Filled :
    (phase : Phase) (rows : List Row) (remaining : ℕ)
    → Heavy rows
    → Filled phase rows remaining (fill phase rows remaining)
unfolding fill
fill-Filled phase rows zero h = inl (refl, refl, refl)
fill-Filled phase rows (suc remaining) h = inr (
  omega arith,
  drain-Drained phase (suc remaining) (queue_of phase 0 (map rebase rows)) (map rebase rows)
      (queue_of-Matches phase (map rebase rows)) (rebase-Heavy rows h),
)
