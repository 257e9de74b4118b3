-- ===== src/Queries/Users.antt =====
-- bauth_server/src/queries/users.rs. `lower` is the database's, which depends on its locale.
use bauth.Base.{
  ℕ, Bool, ◌&&◌, ◌∷◌, Option, none, some, Result, ok, err, not, ◌==◌, ◌=?◌, if◌then◌else◌,
}
use bauth.Base.Text.{Text, trim_matches}
use bauth.Base.Table.{find, update, count, exists}
use bauth.Queries.Cascades.{delete_users}
use bauth.Schema.{Db, User, SqlError, unique_violation}

module _ (lower : Text → Text) where
  -- `lower(btrim($1))`.
  abbrev pub normalized : Text → Text
  normalized email = lower (trim_matches b' ' email)

  -- `ON CONFLICT (email) DO NOTHING`: no row comes back when the address has an account.
  unfoldable pub create : ℕ → ℕ → Text → Db → Result SqlError (Option User × Db)
  create now id email db =
      if exists (λ u. u.email =? normalized email) db.users
      then ok (none, db)
      else if exists (λ u. u.id == id) db.users
      then err unique_violation
      else let row : User = record {
        id = id;
        email = normalized email;
        email_verified_at = none;
        disabled_at = none;
        created_at = now;
        updated_at = now;
      } in
        ok (some row, record db { users = row ∷ db.users })

  unfoldable pub find_by_email : Text → Db → Option User
  find_by_email email db = find (λ u. u.email =? normalized email) db.users

unfoldable pub find_by_id : ℕ → Db → Option User
find_by_id id db = find (λ u. u.id == id) db.users

-- `COALESCE(email_verified_at, now())`.
abbrev pub coalesce : Option ℕ → ℕ → ℕ
coalesce none n = n
coalesce (some m) n = m

unfoldable pub mark_email_verified : ℕ → ℕ → Text → Db → Db
mark_email_verified now id email db = record db {
  users =
      update (λ u. (u.id == id) && (u.email =? email))
        (λ u. record u {
          email_verified_at = some (coalesce u.email_verified_at now);
          updated_at = now;
        })
        db.users;
}

abbrev pub uses : ℕ → Text → User → Bool
uses id email u = (u.id == id) && (u.email =? email)

-- The unique column `email`: the statement fails if another account has the new address.
unfoldable pub change_email : ℕ → ℕ → Text → Text → Db → Result SqlError (Db × Bool)
change_email now id from_email to_email db =
    if exists (uses id from_email) db.users
      && exists (λ u. not (u.id == id) && (u.email =? to_email)) db.users
    then err unique_violation
    else ok (
      record db {
        users =
            update (uses id from_email)
              (λ u. record u { email = to_email; email_verified_at = some now; updated_at = now })
              db.users;
      },
      count (uses id from_email) db.users == 1,
    )

-- The account's sessions, tokens and pending emails go with it.
unfoldable pub delete : ℕ → Db → Db
unfolding delete_users
delete id db = delete_users (λ u. u.id == id) db
