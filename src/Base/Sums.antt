-- ===== src/Base/Sums.antt =====
-- Sums over maps whose weights depend on the key, and sums of what a map says at given keys.
use Prim.Native.Nat.{ℕ, ◌+◌, ◌≤◌, Ordering}
use Prim.Native.Nat.Ordering.{lt, eq, gt}
use mathlib.Core.Path.{◌≡◌, refl, sym, ap, subst}
use mathlib.Core.Logic.{inl, inr}
use mathlib.Core.Bool.{Bool, true}
use mathlib.Core.List.{List, [], ◌∷◌, ◌++◌, map}
use mathlib.Core.Option.{Option, none}
use native.Mathlib.Omega.{arith}
use pg_steward.Base.Order.{is_eq, Ord, ◌≟◌}
use pg_steward.Base.Tests.{if◌then◌else◌, Bool-cases}
use pg_steward.Base.Lists.{All, total}
use pg_steward.Base.Map.{Map, lookup, insert, remove, worth}

pub is_eq-true : (c : Ordering) → is_eq c ≡ true → c ≡ eq
is_eq-true eq h = refl
is_eq-true lt h = cc
is_eq-true gt h = cc

pub same_key {ℓ} : {K : Type ℓ} ⦃o : Ord K⦄ (a b : K) → a ≟ b ≡ true → a ≡ b
same_key ⦃o⦄ a b h = o.exact a b (is_eq-true (o.cmp a b) h)

-- No value stands twice in a list.
abbrev pub Once {ℓ} : {A : Type ℓ} → List A → Type ℓ
Once [] = Unit
Once (a ∷ r) = All (λ b. ¬ (a ≡ b)) r × Once r

module _ {ℓ} {A : Type ℓ} where
  pub total_mono : (f g : A → ℕ) → ((a : A) → f a ≤ g a) → (xs : List A) → total f xs ≤ total g xs
  total_mono f g h [] = omega arith
  total_mono f g h (a ∷ xs) = omega (arith, h a, total_mono f g h xs)

  pub total_add : (f g : A → ℕ) (xs : List A) → total (λ a. f a + g a) xs ≡ total f xs + total g xs
  total_add f g [] = omega arith
  total_add f g (a ∷ xs) = omega (arith, total_add f g xs)

  pub total_zero : (f : A → ℕ) (xs : List A) → All (λ a. f a ≡ 0) xs → total f xs ≡ 0
  total_zero f [] h = refl
  total_zero f (a ∷ xs) (h, hs) = omega (arith, total_zero f xs hs)

  pub total_none : (xs : List A) → total (λ a. 0) xs ≡ 0
  total_none [] = refl
  total_none (a ∷ xs) = omega (arith, total_none xs)

  none_hit :
      (test : A → Bool) (c : A) (x : ℕ) (y : A → ℕ) (xs : List A)
      → ((a : A) → test a ≡ true → a ≡ c)
      → All (λ b. ¬ (c ≡ b)) xs
      → total (λ a. if test a then x else y a) xs ≡ total y xs
  none_hit test c x y [] only h = refl
  none_hit test c x y (a ∷ xs) only (h, hs) = elim (Bool-cases (test a)) [
    | inl hit ↦ absurd (h (sym (only a hit)))
    | inr miss ↦ rw miss (ap (λ n. y a + n) (none_hit test c x y xs only hs))
  ]

  -- In a list with no value twice, a test that only one value passes picks at most once.
  pub total_if_Once :
      (test : A → Bool) (c : A) (x : ℕ) (y : A → ℕ) (xs : List A)
      → ((a : A) → test a ≡ true → a ≡ c)
      → Once xs
      → total (λ a. if test a then x else y a) xs ≤ x + total y xs
  total_if_Once test c x y [] only d = omega arith
  total_if_Once test c x y (a ∷ xs) only (h, hs) = elim (Bool-cases (test a)) [
    | inl hit ↦
        let others =
          none_hit test c x y xs only (subst (λ v. All (λ b. ¬ (v ≡ b)) xs) (only a hit) h) in
        rw hit (omega arith)
    | inr miss ↦ rw miss (omega (arith, total_if_Once test c x y xs only hs))
  ]

module _ {ℓ} {A : Type ℓ} where
  pub total-append : (f : A → ℕ) (xs ys : List A) → total f (xs ++ ys) ≡ total f xs + total f ys
  total-append f [] ys = omega arith
  total-append f (a ∷ xs) ys = omega (arith, total-append f xs ys)

  pub All-append {κ} : (Q : A → Type κ) (xs ys : List A) → All Q xs → All Q ys → All Q (xs ++ ys)
  All-append Q [] ys h k = k
  All-append Q (a ∷ xs) ys (h, hs) k = (h, All-append Q xs ys hs k)

  pub All-both {κ μ} :
      (Q : A → Type κ) (R : A → Type μ) (xs : List A)
      → All Q xs
      → All R xs
      → All (λ a. Q a × R a) xs
  All-both Q R [] h k = tt
  All-both Q R (a ∷ xs) (h, hs) (k, ks) = ((h, k), All-both Q R xs hs ks)

  pub Once-append :
      (xs ys : List A) → Once xs → Once ys → All (λ a. All (λ b. ¬ (a ≡ b)) ys) xs → Once (xs ++ ys)
  Once-append [] ys d e apart = e
  Once-append (a ∷ xs) ys (h, d) e (apart, aparts) =
      (All-append (λ b. ¬ (a ≡ b)) xs ys h apart, Once-append xs ys d e aparts)

module _ {ℓ κ} {A : Type ℓ} {B : Type κ} where
  pub total-map :
      (f : B → ℕ) (g : A → B) (xs : List A) → total f (map g xs) ≡ total (λ a. f (g a)) xs
  total-map f g [] = refl
  total-map f g (a ∷ xs) = omega (arith, total-map f g xs)

  pub All-map {μ} :
      (Q : B → Type μ) (g : A → B) → ((a : A) → Q (g a)) → (xs : List A) → All Q (map g xs)
  All-map Q g h [] = tt
  All-map Q g h (a ∷ xs) = (h a, All-map Q g h xs)

  away :
      (g : A → B)
      → ((a b : A) → g a ≡ g b → a ≡ b)
      → (c : A) (xs : List A) → All (λ b. ¬ (c ≡ b)) xs
      → All (λ b. ¬ (g c ≡ b)) (map g xs)
  away g inj c [] h = tt
  away g inj c (a ∷ xs) (h, hs) = (λ e. h (inj c a e), away g inj c xs hs)

  pub Once-map :
      (g : A → B) → ((a b : A) → g a ≡ g b → a ≡ b) → (xs : List A) → Once xs → Once (map g xs)
  Once-map g inj [] d = tt
  Once-map g inj (a ∷ xs) (h, d) = (away g inj a xs h, Once-map g inj xs d)

module _ {ℓ κ} {K : Type ℓ} {V : Type κ} ⦃o : Ord K⦄ (f : K → V → ℕ) where
  -- The weights of the entries of a map.
  abbrev pub weigh : Map K V → ℕ
  weigh m = total (λ d. f d.0 d.1) m

  abbrev pub weight_at : K → Option V → ℕ
  weight_at q r = worth (f q) r

  pub weigh-insert : (q : K) (w : V) (m : Map K V) → weigh (insert q w m) ≤ weigh m + f q w
  unfolding insert
  weigh-insert q w [] = omega arith
  weigh-insert q w ((k, v) ∷ m) = ground (arith, weigh-insert q w m)

  pub weigh-remove : (q : K) (m : Map K V) → weigh (remove q m) ≤ weigh m
  unfolding remove
  weigh-remove q [] = omega arith
  weigh-remove q ((k, v) ∷ m) = ground (arith, weigh-remove q m)

  nothing_at : (rs : List K) → total (λ q. weight_at q none) rs ≡ 0
  nothing_at [] = refl
  nothing_at (r ∷ rs) = omega (arith, nothing_at rs)

  at_head :
      (k : K) (v : V) (m : Map K V) (q : K)
      → weight_at q (lookup q ((k, v) ∷ m)) ≤ (if k ≟ q then f k v else weight_at q (lookup q m))
  unfolding lookup
  at_head k v m q = ground (arith, o.exact k q)

  -- What a map says at different keys is part of what it holds.
  pub total-weight_at :
      (qs : List K) (m : Map K V) → Once qs → total (λ q. weight_at q (lookup q m)) qs ≤ weigh m
  unfolding lookup
  total-weight_at qs [] d = omega (arith, nothing_at qs)
  total-weight_at qs ((k, v) ∷ m) d =
      let rest : K → ℕ = λ q. weight_at q (lookup q m) in
      let once =
        total_if_Once (λ q. k ≟ q) k (f k v) rest qs
          (λ q h. sym (o.exact k q (is_eq-true (o.cmp k q) h))) d in
      let each =
        total_mono (λ q. weight_at q (lookup q ((k, v) ∷ m))) (λ q. if k ≟ q then f k v else rest q)
          (at_head k v m) qs in
      omega (arith, once, each, total-weight_at qs m d)
