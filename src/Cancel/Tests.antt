-- ===== src/Cancel/Tests.antt =====
-- The theorems on cancel keys applied to a registry that has issued one key.
use pg_steward.Base.Order.{pair_ord, nat_ord}
use pg_steward.Base.{ℕ, ◌≡◌, ◌≢◌, refl, none, some, [], ◌∷◌, get_elem?, arith}
use pg_steward.Cancel.{CancelKey, CancelRegistry, new_registry, issue}
use pg_steward.Cancel.Keys.{issue_all, issue_all_distinct}

abbrev fresh : CancelRegistry ℕ
fresh = new_registry 7

-- Seven times 2 ^ 19, with the secret 11.
abbrev first_key : CancelKey
first_key = (3670016, 11)

abbrev second_key : CancelKey
second_key = (3670017, 11)

abbrev live_one : CancelRegistry ℕ
live_one = record { tag = 7; serial = 1; live = (first_key, none) ∷ [] }

zeroth : get_elem? (issue_all fresh (11 ∷ 11 ∷ [])) 0 ≡ some first_key
unfolding issue_all issue
zeroth = refl

one_later : get_elem? (issue_all fresh (11 ∷ 11 ∷ [])) 1 ≡ some second_key
unfolding issue_all issue
one_later = refl

issue_all_distinct_example : first_key.0 ≢ second_key.0
issue_all_distinct_example =
    issue_all_distinct fresh (11 ∷ 11 ∷ []) 0 1 first_key second_key (omega arith) (omega arith)
      zeroth one_later
