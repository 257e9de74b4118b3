-- ===== src/Queries/EmailChanges.antt =====
-- bauth_server/src/queries/email_changes.rs.
use bauth.Base.{
  ℕ, Bool, ◌&&◌, List, Option, none, some, Result, ok, ◌>>=◌, ltb, ◌==◌, ◌=?◌, is_none, true,
  if◌then◌else◌,
}
use bauth.Base.Text.{Text}
use bauth.Base.Table.{find, update, exists}
use bauth.Schema.{Db, EmailChange, SqlError, insert}
use bauth.Queries.Users.{normalized}

unfoldable pub create :
    (Text → Text) → ℕ → ℕ → ℕ → Text → Text → List ℕ → ℕ → Db → Result SqlError Db
create lower now id user_id from_email to_email token_hash expires_at db = do
  rows ←
      insert
        (exists (λ e. if e.id == id then true else e.token_hash =? token_hash) db.email_changes)
        (exists (λ u. u.id == user_id) db.users)
        (record {
          id = id;
          user_id = user_id;
          from_email = from_email;
          to_email = normalized lower to_email;
          token_hash = token_hash;
          expires_at = expires_at;
          consumed_at = none;
          created_at = now;
        })
        db.email_changes
  ok (record db { email_changes = rows })

pub record ConsumedEmailChange : Type 0 where
  pub user_id : ℕ
  pub from_email : Text
  pub to_email : Text

abbrev pub is_usable : ℕ → List ℕ → EmailChange → Bool
is_usable now token_hash e =
    (e.token_hash =? token_hash) && (is_none e.consumed_at && ltb now e.expires_at)

abbrev pub mark_used : ℕ → EmailChange → EmailChange
mark_used now e = record e { consumed_at = some now }

unfoldable pub consume : ℕ → List ℕ → Db → Option (ConsumedEmailChange × Db)
consume now token_hash db = elim (find (is_usable now token_hash) db.email_changes) [
  | none ↦ none
  | some e ↦ some (
    record { user_id = e.user_id; from_email = e.from_email; to_email = e.to_email },
    record db {
      email_changes = update (is_usable now token_hash) (mark_used now) db.email_changes;
    },
  )
]
