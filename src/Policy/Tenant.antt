-- ===== src/Policy/Tenant.antt =====
-- `TenantId::from_startup` of crates/core/src/tenant.rs: the tenant of a startup message.
use pg_steward.Base.Order.{Text, text_ord}
use pg_steward.Base.{
  ◌<◌, ◌≡◌, refl, ◌⊎◌, inl, inr, Option, none, some, [], ◌∷◌, length, get_or, err, ok, arith,
}
use pg_steward.Protocol.Startup.{
  StartupMessage, parameter, user, database, user_name, database_name, filled,
}
use pg_steward.Policy.{TenantId, missing_user, from_startup}

filled_lem :
    (o : Option Text)
    → (filled o ≡ none) ⊎ ((t : Text) × (filled o ≡ some t) × (o ≡ some t) × (0 < length t))
filled_lem none = inl refl
filled_lem (some []) = inl refl
filled_lem (some (b ∷ bs)) = inr (b ∷ bs, refl, refl, omega arith)

names_lem :
    (m : StartupMessage) (u : Text)
    → filled (parameter m user_name) ≡ some u
    → (user m ≡ some u) × (database m ≡ some (get_or u (filled (parameter m database_name))))
unfolding user database
names_lem m u found = (found, rw (found, database) refl)

long_lem : (u : Text) (o : Option Text) → 0 < length u → 0 < length (get_or u (filled o))
long_lem u o h = elim (filled_lem o) [
  | inl plain ↦ rw plain h
  | inr (d, chosen, _, wide) ↦ rw chosen wide
]

no_user_lem : (m : StartupMessage) → filled (parameter m user_name) ≡ none → user m ≡ none
unfolding user
no_user_lem m e = e

-- A startup message either has no `user` that is not empty, and is refused, or it resolves to the
-- tenant of that user, with the database it names, or one named like the user if it names none or
-- an empty one; no part of a tenant is empty.
pub from_startup_lem :
    (m : StartupMessage)
    → ((filled (parameter m user_name) ≡ none) × (from_startup m ≡ err missing_user))
      ⊎ ((t : TenantId) × (from_startup m ≡ ok t)
          × (parameter m user_name ≡ some t.user)
          × (t.database ≡ get_or t.user (filled (parameter m database_name)))
          × (0 < length t.user)
          × (0 < length t.database))
unfolding from_startup
from_startup_lem m = elim (filled_lem (parameter m user_name)) [
  | inl missing ↦ inl (missing, rw (no_user_lem m missing, from_startup) refl)
  | inr (u, found, named, long) ↦
      let o = parameter m database_name in
      let (has_user, has_database) = names_lem m u found in
      inr (
        record { user = u; database = get_or u (filled o) },
        rw (has_user, has_database, from_startup) refl,
        named,
        refl,
        long,
        long_lem u o long,
      )
]
