-- ===== src/Sessions.antt =====
-- bauth_server/src/sessions.rs: opening a session, and adding a refresh token to one.
use bauth.Base.{ℕ, ◌+◌, Option, none, Result, ok, ◌>>=◌}
use bauth.Base.Text.{Text}
use bauth.Base.Time.{days, seconds}
use bauth.Crypto.{Crypto}
use bauth.Schema.{Db, SqlError}
use bauth.Server.{Env}
use bauth.Token.{generate}
use bauth.Queries.Sessions
use bauth.Queries.RefreshTokens

abbrev pub session_ttl : ℕ
session_ttl = days 30

abbrev pub refresh_reuse_grace : ℕ
refresh_reuse_grace = seconds 30

pub record OpenedSession : Type 0 where
  pub session_id : ℕ
  pub refresh_token : Text

module _ (x : Crypto) (env : Env) where
  unfoldable pub new_refresh_token : ℕ → Option ℕ → Db → Result SqlError (Text × Db)
  unfolding generate
  new_refresh_token session_id parent_id db = do
    db' ←
        RefreshTokens.create env.now env.other_id session_id (generate x env.random).hash parent_id
          db
    ok ((generate x env.random).plain, db')

  unfoldable pub open_session : ℕ → Text → ℕ → Db → Result SqlError (OpenedSession × Db)
  unfolding new_refresh_token
  open_session user_id client_id authorization_code_id db = do
    db₁ ←
        Sessions.create env.now env.id user_id client_id authorization_code_id
          (env.now + session_ttl) db
    (token, db₂) ← new_refresh_token env.id none db₁
    ok (record { session_id = env.id; refresh_token = token }, db₂)
