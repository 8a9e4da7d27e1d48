-- ===== src/Protocol/Listen/Scan.antt =====
-- That the loop of `has_listen` in crates/protocol/src/listen.rs ends: every turn moves the cursor.
use pg_steward.Base.{
  ℕ, zero, suc, ◌+◌, ◌-◌, ◌≤◌, ◌≡◌, refl, sym, ◌∙◌, inl, inr, arith, Bool, true, false, Option,
  some, List, [], ◌∷◌, length, take, drop, Option-cases,
}
use pg_steward.Protocol.Listen.{
  Turn, found, ahead, turn, tagged_len, scan, passed, word_len, line_comment_len, block_comment_len,
  find, tag_len,
}

-- A turn that goes on moves ahead.
abbrev Moves : Turn → Type 0
Moves found = Unit
Moves (ahead n head) = 1 ≤ n

block_comment_moves : (a : ℕ) (bs : List ℕ) → 1 ≤ block_comment_len 0 (a ∷ bs)
unfolding block_comment_len
block_comment_moves a [] = omega arith
block_comment_moves a (b ∷ bs) = ground arith

tagged_moves : (size a : ℕ) (bs : List ℕ) → 1 ≤ size → 1 ≤ tagged_len size (a ∷ bs)
tagged_moves size a bs h = elim (Option-cases (find (take size (a ∷ bs)) (drop size (a ∷ bs)))) [
  | inl e ↦ rw (e, tagged_len) (omega arith)
  | inr (offset, e) ↦ rw (e, tagged_len) (omega (arith, h))
]

turn-Moves : (before : List ℕ) (b : ℕ) (bs : List ℕ) (head : Bool) → Moves (turn before b bs head)
unfolding turn word_len line_comment_len
turn-Moves before b bs head =
    let size = 1 + tag_len true bs + 1 in
    ground (arith, block_comment_moves b bs, tagged_moves size b bs)

pub length-drop : (n : ℕ) (bs : List ℕ) → length (drop n bs) ≡ length bs - n
length-drop zero bs = omega arith
length-drop (suc n) [] = omega arith
length-drop (suc n) (b ∷ bs) = omega (arith, length-drop n bs)

-- Two computations that both answer, and answer the same.
abbrev Agree : Option Bool → Option Bool → Type 0
Agree x y = (answer : Bool) × (x ≡ some answer) × (y ≡ some answer)

after-Agree :
    (t : Turn) (f g : ℕ → Bool → Option Bool)
    → ((n : ℕ) (head : Bool) → 1 ≤ n → Agree (f n head) (g n head))
    → Moves t
    → Agree
        (elim t as (λ x. Option Bool) [ found ↦ some true | ahead n head ↦ f n head ])
        (elim t as (λ x. Option Bool) [ found ↦ some true | ahead n head ↦ g n head ])
after-Agree found f g h m = (true, refl, refl)
after-Agree (ahead n head) f g h m = h n head m

-- From any cursor, on any two amounts of fuel that are at least the number of bytes ahead, the loop
-- returns an answer, the same on both, and does not run out of fuel.
pub scan-fuel :
    (fuel fuel' : ℕ) (before bs : List ℕ) (head : Bool)
    → length bs ≤ fuel
    → length bs ≤ fuel'
    → (answer : Bool) × (scan fuel before bs head ≡ some answer)
      × (scan fuel' before bs head ≡ some answer)
unfolding scan
scan-fuel zero zero before [] head h k = (false, refl, refl)
scan-fuel zero (suc fuel') before [] head h k = (false, refl, refl)
scan-fuel (suc fuel) zero before [] head h k = (false, refl, refl)
scan-fuel (suc fuel) (suc fuel') before [] head h k = (false, refl, refl)
scan-fuel zero fuel' before (b ∷ bs) head h k = absurd (omega (arith, h))
scan-fuel (suc fuel) zero before (b ∷ bs) head h k = absurd (omega (arith, k))
scan-fuel (suc fuel) (suc fuel') before (b ∷ bs) head h k =
    after-Agree (turn before b bs head)
      (λ n head'. scan fuel (passed n before (b ∷ bs)) (drop n (b ∷ bs)) head')
      (λ n head'. scan fuel' (passed n before (b ∷ bs)) (drop n (b ∷ bs)) head')
      (λ n head' m.
        scan-fuel fuel fuel' (passed n before (b ∷ bs)) (drop n (b ∷ bs)) head'
          (omega (arith, m, h, length-drop n (b ∷ bs)))
          (omega (arith, m, k, length-drop n (b ∷ bs))))
      (turn-Moves before b bs head)

pub scan_same :
    (fuel fuel' : ℕ) (before bs : List ℕ) (head : Bool)
    → length bs ≤ fuel
    → length bs ≤ fuel'
    → scan fuel before bs head ≡ scan fuel' before bs head
scan_same fuel fuel' before bs head h k =
    let both = scan-fuel fuel fuel' before bs head h k in both.1 ∙ sym both.2
