-- ===== src/Queries/Sessions.antt =====
-- bauth_server/src/queries/sessions.rs.
use bauth.Base.{
  max, map, [], ◌∷◌, ℕ, Bool, true, ◌&&◌, List, Option, none, some, Result, ok, ◌>>=◌, ltb, ◌==◌,
  ◌=?◌, is_none, is_just, if◌then◌else◌,
}
use bauth.Base.Text.{Text}
use bauth.Base.Table.{find, select, update, count, exists}
use bauth.Schema.{Db, Session, RefreshToken, SqlError, insert}

unfoldable pub create : ℕ → ℕ → ℕ → Text → ℕ → ℕ → Db → Result SqlError Db
create now id user_id client_id authorization_code_id expires_at db = do
  rows ←
      insert
        (exists
          (λ s. if s.id == id then true else is_just s.authorization_code_id authorization_code_id)
          db.sessions)
        (exists (λ u. u.id == user_id) db.users
          && exists (λ c. c.id == authorization_code_id) db.authorization_codes)
        (record {
          id = id;
          user_id = user_id;
          client_id = client_id;
          authorization_code_id = some authorization_code_id;
          expires_at = expires_at;
          revoked_at = none;
          created_at = now;
        })
        db.sessions
  ok (record db { sessions = rows })

-- `SET revoked_at = now()`.
abbrev pub set_revoked : ℕ → Session → Session
set_revoked now s = record s { revoked_at = some now }

abbrev pub revoke_where : ℕ → (Session → Bool) → Db → Db
revoke_where now p db = record db { sessions = update p (set_revoked now) db.sessions }

abbrev pub by_authorization_code : ℕ → Session → Bool
by_authorization_code code_id s = is_just s.authorization_code_id code_id && is_none s.revoked_at

unfoldable pub revoke_by_authorization_code : ℕ → ℕ → Db → Db × Bool
revoke_by_authorization_code now code_id db = (
  revoke_where now (by_authorization_code code_id) db,
  count (by_authorization_code code_id) db.sessions == 1,
)

abbrev pub by_id : ℕ → Session → Bool
by_id id s = (s.id == id) && is_none s.revoked_at

unfoldable pub revoke : ℕ → ℕ → Db → Db
revoke now id db = revoke_where now (by_id id) db

abbrev pub by_refresh_token : List RefreshToken → List ℕ → Text → Session → Bool
by_refresh_token tokens token_hash client_id s =
    exists (λ r. (r.session_id == s.id) && (r.token_hash =? token_hash)) tokens
    && ((s.client_id =? client_id) && is_none s.revoked_at)

unfoldable pub revoke_by_refresh_token : ℕ → List ℕ → Text → Db → Db × Option ℕ
revoke_by_refresh_token now token_hash client_id db = (
  revoke_where now (by_refresh_token db.refresh_tokens token_hash client_id) db,
  elim (find (by_refresh_token db.refresh_tokens token_hash client_id) db.sessions) [
    | none ↦ none
    | some s ↦ some s.id
  ],
)

pub record AuthenticatedSession : Type 0 where
  pub user_id : ℕ
  pub email : Text

-- The join: the session if it is live, then its user if enabled.
abbrev pub is_live : ℕ → Session → Bool
is_live now s = is_none s.revoked_at && ltb now s.expires_at

unfoldable pub find_authenticated : ℕ → ℕ → Db → Option AuthenticatedSession
find_authenticated now id db = elim (find (λ s. (s.id == id) && is_live now s) db.sessions) [
  | none ↦ none
  | some s ↦ elim (find (λ u. (u.id == s.user_id) && is_none u.disabled_at) db.users) [
    | none ↦ none
    | some u ↦ some (record { user_id = s.user_id; email = u.email })
  ]
]

pub record ActiveSession : Type 0 where
  pub id : ℕ
  pub client_id : Text
  pub created_at : ℕ
  pub last_used_at : ℕ
  pub expires_at : ℕ

-- `COALESCE(max(r.created_at), s.created_at)` over the refresh tokens of the session.
unfoldable pub last_used : ℕ → Option ℕ → List RefreshToken → ℕ
last_used created_at none [] = created_at
last_used created_at (some newest) [] = newest
last_used created_at none (r ∷ rs) = last_used created_at (some r.created_at) rs
last_used created_at (some newest) (r ∷ rs) =
    last_used created_at (some (max newest r.created_at)) rs

abbrev pub active : List RefreshToken → Session → ActiveSession
active tokens s = record {
  id = s.id;
  client_id = s.client_id;
  created_at = s.created_at;
  last_used_at = last_used s.created_at none (select (λ r. r.session_id == s.id) tokens);
  expires_at = s.expires_at;
}

-- `ORDER BY "last_used_at!" DESC`.
unfoldable pub place : ActiveSession → List ActiveSession → List ActiveSession
place a [] = a ∷ []
place a (x ∷ xs) =
    let rest = place a xs in if ltb a.last_used_at x.last_used_at then x ∷ rest else a ∷ x ∷ xs

unfoldable pub last_used_first : List ActiveSession → List ActiveSession
unfolding place
last_used_first [] = []
last_used_first (x ∷ xs) = place x (last_used_first xs)

unfoldable pub list_active_for_user : ℕ → ℕ → Db → List ActiveSession
unfolding last_used last_used_first
list_active_for_user now user_id db = last_used_first (
    map (active db.refresh_tokens)
      (select (λ s. (s.user_id == user_id) && is_live now s) db.sessions))

abbrev pub of_user : ℕ → ℕ → Session → Bool
of_user id user_id s = (s.id == id) && ((s.user_id == user_id) && is_none s.revoked_at)

unfoldable pub revoke_for_user : ℕ → ℕ → ℕ → Db → Db × Bool
revoke_for_user now id user_id db =
    (revoke_where now (of_user id user_id) db, count (of_user id user_id) db.sessions == 1)
