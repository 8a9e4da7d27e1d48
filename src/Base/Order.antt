-- ===== src/Base/Order.antt =====
-- Keys with a lawful comparison (`K: Ord`): numbers, pairs and texts as byte sequences.
use Prim.Native.Nat.{ℕ, compare, Ordering}
use Prim.Native.Nat.Ordering.{lt, eq, gt}
use mathlib.Core.Path.{◌≡◌, refl}
use mathlib.Core.Bool.{Bool, true, false}
use mathlib.Core.List.{List, [], ◌∷◌}
use native.Mathlib.Omega.{arith}

abbrev pub flip : Ordering → Ordering
flip lt = gt
flip eq = eq
flip gt = lt

-- What `Ord` asks of `cmp`; an `Equal` answer is equality here.
pub record Comparison {ℓ} (K : Type ℓ) (cmp : K → K → Ordering) : Type ℓ where
  pub chain : (p q r : K) → cmp p q ≡ lt → cmp q r ≡ lt → cmp p r ≡ lt
  pub exact : (p q : K) → cmp p q ≡ eq → p ≡ q
  pub swap : (p q : K) → cmp q p ≡ flip (cmp p q)

-- The trait, with its laws.
pub record Ord {ℓ} (Key : Type ℓ) : Type ℓ where
  pub cmp : (p q : Key) → Ordering
  pub laws : Comparison Key cmp
  pub open laws use {exact, swap, chain}

pub cmp_self {ℓ} : {K : Type ℓ} ⦃o : Ord K⦄ (a : K) → o.cmp a a ≡ eq
cmp_self ⦃o⦄ a = ground (arith, o.swap a a)

abbrev pub is_eq : Ordering → Bool
is_eq eq = true
is_eq _ = false

-- `==` of keys, as their order decides it.
infix 50 ◌≟◌
abbrev pub ◌≟◌ {ℓ} : {K : Type ℓ} ⦃o : Ord K⦄ → K → K → Bool
◌≟◌ ⦃o⦄ a b = is_eq (o.cmp a b)

pub false_of_ne {ℓ} : {K : Type ℓ} ⦃o : Ord K⦄ (a b : K) → ¬ (a ≡ b) → (a ≟ b) ≡ false
false_of_ne ⦃o⦄ a b h = ground (arith, o.exact a b)

infix 50 ◌≺◌
abbrev pub ◌≺◌ {ℓ} : {K : Type ℓ} ⦃o : Ord K⦄ → K → K → Type 0
◌≺◌ ⦃o⦄ a b = o.cmp a b ≡ lt

pub nat_laws : Comparison ℕ compare
nat_laws = record {
  exact = λ a b h. ground arith;
  swap = λ a b. ground arith;
  chain = λ a b c h k. ground arith;
}

instance abbrev pub nat_ord : Ord ℕ
nat_ord = record { cmp = compare; laws = nat_laws }

-- `Ordering::then_with`.
abbrev pub then_with : Ordering → Ordering → Ordering
then_with lt next = lt
then_with eq next = next
then_with gt next = gt

-- A derived `Ord` compares the fields in turn.
module _ {ℓ κ} {A : Type ℓ} {B : Type κ} ⦃left : Ord A⦄ ⦃right : Ord B⦄ where
  abbrev pub compare_pair : A × B → A × B → Ordering
  compare_pair (a, b) (a', b') = then_with (left.cmp a a') (right.cmp b b')

  pair_swap : (p q : A × B) → compare_pair q p ≡ flip (compare_pair p q)
  pair_swap (a, b) (a', b') = ground (arith, left.swap a a', right.swap b b')

  pair_exact : (p q : A × B) → compare_pair p q ≡ eq → p ≡ q
  pair_exact (a, b) (a', b') h = ground (arith, left.exact a a', right.exact b b')

  pair_chain :
      (p q r : A × B) → compare_pair p q ≡ lt → compare_pair q r ≡ lt → compare_pair p r ≡ lt
  pair_chain (a, b) (a', b') (a'', b'') h k =
      ground (arith, left.chain a a' a'', left.exact a a', left.exact a' a'', right.chain b b' b'')

  pub pair_laws : Comparison (A × B) compare_pair
  pair_laws = record { exact = pair_exact; swap = pair_swap; chain = pair_chain }

  instance abbrev pub pair_ord : Ord (A × B)
  pair_ord = record { cmp = compare_pair; laws = pair_laws }

-- A Rust `String` by its UTF-8 bytes, which is also how it is ordered.
abbrev pub Text : Type 0
Text = List ℕ

abbrev pub compare_text : Text → Text → Ordering
compare_text [] [] = eq
compare_text [] (y ∷ ys) = lt
compare_text (x ∷ xs) [] = gt
compare_text (x ∷ xs) (y ∷ ys) = then_with (compare x y) (compare_text xs ys)

text_swap : (a b : Text) → compare_text b a ≡ flip (compare_text a b)
text_swap [] [] = refl
text_swap [] (y ∷ ys) = refl
text_swap (x ∷ xs) [] = refl
text_swap (x ∷ xs) (y ∷ ys) = ground (arith, text_swap xs ys)

text_exact : (a b : Text) → compare_text a b ≡ eq → a ≡ b
text_exact [] [] h = refl
text_exact [] (y ∷ ys) h = ground arith
text_exact (x ∷ xs) [] h = ground arith
text_exact (x ∷ xs) (y ∷ ys) h = ground (arith, text_exact xs ys)

text_chain : (a b c : Text) → compare_text a b ≡ lt → compare_text b c ≡ lt → compare_text a c ≡ lt
text_chain [] [] c h k = k
text_chain [] (y ∷ ys) [] h k = ground arith
text_chain [] (y ∷ ys) (z ∷ zs) h k = refl
text_chain (x ∷ xs) [] c h k = ground arith
text_chain (x ∷ xs) (y ∷ ys) [] h k = ground arith
text_chain (x ∷ xs) (y ∷ ys) (z ∷ zs) h k = ground (arith, text_chain xs ys zs)

pub text_laws : Comparison Text compare_text
text_laws = record { exact = text_exact; swap = text_swap; chain = text_chain }

instance abbrev pub text_ord : Ord Text
text_ord = record { cmp = compare_text; laws = text_laws }
