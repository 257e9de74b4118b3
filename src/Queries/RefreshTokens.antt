-- ===== src/Queries/RefreshTokens.antt =====
-- bauth_server/src/queries/refresh_tokens.rs.
use bauth.Base.{
  ℕ, Bool, true, ◌&&◌, List, Option, none, some, Result, ok, ◌>>=◌, ◌==◌, ◌=?◌, is_none, is_some,
  is_just, if◌then◌else◌,
}
use bauth.Base.Text.{Text}
use bauth.Base.Table.{find, update, exists}
use bauth.Schema.{Db, RefreshToken, Session, SqlError, insert}

-- `parent_id REFERENCES refresh_tokens`: NULL is no reference.
abbrev pub has_parent : Option ℕ → List RefreshToken → Bool
has_parent none tokens = true
has_parent (some parent) tokens = exists (λ r. r.id == parent) tokens

unfoldable pub create : ℕ → ℕ → ℕ → List ℕ → Option ℕ → Db → Result SqlError Db
create now id session_id token_hash parent_id db = do
  rows ←
      insert
        (exists (λ r. if r.id == id then true else r.token_hash =? token_hash) db.refresh_tokens)
        (exists (λ s. s.id == session_id) db.sessions && has_parent parent_id db.refresh_tokens)
        (record {
          id = id;
          session_id = session_id;
          parent_id = parent_id;
          token_hash = token_hash;
          rotated_at = none;
          superseded_at = none;
          created_at = now;
        })
        db.refresh_tokens
  ok (record db { refresh_tokens = rows })

pub record RefreshTokenWithSession : Type 0 where
  pub id : ℕ
  pub rotated_at : Option ℕ
  pub superseded_at : Option ℕ
  pub session_id : ℕ
  pub user_id : ℕ
  pub client_id : Text
  pub session_expires_at : ℕ
  pub session_revoked_at : Option ℕ

abbrev pub joined : RefreshToken → Session → RefreshTokenWithSession
joined r s = record {
  id = r.id;
  rotated_at = r.rotated_at;
  superseded_at = r.superseded_at;
  session_id = s.id;
  user_id = s.user_id;
  client_id = s.client_id;
  session_expires_at = s.expires_at;
  session_revoked_at = s.revoked_at;
}

unfoldable pub find_for_update : List ℕ → Db → Option RefreshTokenWithSession
find_for_update token_hash db = elim (find (λ r. r.token_hash =? token_hash) db.refresh_tokens) [
  | none ↦ none
  | some r ↦ elim (find (λ s. s.id == r.session_id) db.sessions) [
    | none ↦ none
    | some s ↦ some (joined r s)
  ]
]

unfoldable pub mark_rotated : ℕ → ℕ → Db → Db
mark_rotated now id db = record db {
  refresh_tokens =
      update (λ r. (r.id == id) && is_none r.rotated_at) (λ r. record r { rotated_at = some now })
        db.refresh_tokens;
}

unfoldable pub has_used_successor : ℕ → Db → Bool
has_used_successor id db =
    exists (λ r. is_just r.parent_id id && is_some r.rotated_at) db.refresh_tokens

unfoldable pub supersede_unused_successors : ℕ → ℕ → Db → Db
supersede_unused_successors now id db = record db {
  refresh_tokens =
      update (λ r. is_just r.parent_id id && (is_none r.rotated_at && is_none r.superseded_at))
        (λ r. record r { superseded_at = some now }) db.refresh_tokens;
}
