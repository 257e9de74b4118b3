-- ===== src/OAuth.antt =====
-- bauth_server/src/routes/oauth.rs: the token endpoint and the revocation endpoint.
-- A handler gives the answer and the database it leaves. Inside, `err e` is a return with `?` or
-- `return Err(e)` that commits nothing, `ok (answer, db)` an answer after `db` was committed.
pub mod Opened
pub mod Consume
pub mod Code
pub mod Replay
pub mod Completed
pub mod Login
pub mod Exchange
pub mod Refresh
pub mod Refreshed
use bauth.Base.{
  ℕ, ◌-◌, Bool, true, false, not, ◌||◌, List, ◌++◌, Option, none, some, Result, ok, err, ◌>>=◌,
  ◌>>◌, ok_or, guard, map_err, leb, ◌=?◌, is_some, if◌then◌else◌,
}
use bauth.Base.Text.{Text, text}
use bauth.Clients.{Client, get}
use bauth.Schema.{Db, User, SqlError}
use bauth.Server.{Server, Env}
use bauth.Token.{hash}
use bauth.Sessions.{open_session, new_refresh_token, refresh_reuse_grace}
use bauth.AccessToken.{issue, IssueError}
use bauth.Pkce.{verify}
use bauth.Queries.Users
use bauth.Queries.Sessions
use bauth.Queries.RefreshTokens
use bauth.Queries.RefreshTokens.{RefreshTokenWithSession}
use bauth.Queries.AuthorizationCodes
use bauth.Queries.AuthorizationCodes.{ConsumedCode}

pub data OAuthError : Type 0 where
  invalid_request : Text → OAuthError
  invalid_client : OAuthError
  invalid_grant : Text → OAuthError
  unsupported_grant_type : OAuthError
  server_error : OAuthError

-- `IntoResponse`: the status and the `error` of the body.
unfoldable pub into_response : OAuthError → ℕ × Text
into_response (invalid_request _) = (400, text "invalid_request")
into_response invalid_client = (401, text "invalid_client")
into_response (invalid_grant _) = (400, text "invalid_grant")
into_response unsupported_grant_type = (400, text "unsupported_grant_type")
into_response server_error = (500, text "server_error")

pub record TokenRequest : Type 0 where
  pub grant_type : Text
  pub client_id : Text
  pub code : Option Text
  pub redirect_uri : Option Text
  pub code_verifier : Option Text
  pub refresh_token : Option Text

pub record TokenResponse : Type 0 where
  pub access_token : Text
  pub token_type : Text
  pub expires_in : ℕ
  pub refresh_token : Text

abbrev pub Reply : Type 0
Reply = Result OAuthError TokenResponse

pub record RevokeRequest : Type 0 where
  pub token : Text
  pub client_id : Text

-- What a request leaves: nothing is committed on an early return.
abbrev pub finish :
    {A : Type 0} → Db → Result OAuthError (Result OAuthError A × Db) → Result OAuthError A × Db
finish db (err e) = (err e, db)
finish db (ok (answer, committed)) = (answer, committed)

abbrev pub from_sql : {A : Type 0} → Result SqlError A → Result OAuthError A
from_sql r = map_err (λ _. server_error) r

abbrev pub from_issue : {A : Type 0} → Result IssueError A → Result OAuthError A
from_issue r = map_err (λ _. server_error) r

abbrev pub missing : Text → OAuthError
missing name = invalid_request (text "missing `" ++ (name ++ text "`"))

unfoldable pub required : Option Text → Text → Result OAuthError Text
required value name = ok_or value (missing name)

-- `user.is_none_or(|user| user.disabled_at.is_some())`.
abbrev pub is_inactive : Option User → Bool
is_inactive none = true
is_inactive (some u) = is_some u.disabled_at

-- The account that the tokens are for may have been disabled.
abbrev pub check_active : ℕ → Db → Result OAuthError (Unit {0})
check_active user_id db =
    guard (not (is_inactive (Users.find_by_id user_id db)))
      (invalid_grant (text "account is disabled"))

module _ (server : Server) (env : Env) where
  -- The rest of `authorization_code`, once the code is consumed in `tx`.
  unfoldable pub exchange :
      TokenRequest → Text → Text → Client → ConsumedCode → Db → Result OAuthError (Reply × Db)
  unfolding Users.find_by_id
  exchange input redirect_uri code_verifier client consumed tx = do
    guard (consumed.client_id =? client.id)
        (invalid_grant (text "code was issued to another client"))
    guard (consumed.redirect_uri =? redirect_uri)
        (invalid_grant (text "redirect_uri does not match"))
    guard (verify server.crypto code_verifier consumed.code_challenge)
        (invalid_grant (text "code_verifier does not match"))
    check_active consumed.user_id tx
    (session, tx') ←
        from_sql (open_session server.crypto env consumed.user_id client.id consumed.id tx)
    access ← from_issue (issue server env consumed.user_id session.session_id client)
    ok (
      ok (record {
        access_token = access.token;
        token_type = text "Bearer";
        expires_in = access.expires_in;
        refresh_token = session.refresh_token;
      }),
      tx',
    )

  unfoldable pub reject_unusable_code : List ℕ → Db → Db
  reject_unusable_code code_hash db = elim (AuthorizationCodes.find_consumed code_hash db) [
    | none ↦ db
    | some code_id ↦ (Sessions.revoke_by_authorization_code env.now code_id db).0
  ]

  unfoldable pub authorization_code : TokenRequest → Db → Reply × Db
  unfolding required exchange reject_unusable_code
  authorization_code input db = finish db (do
    code ← required input.code (text "code")
    redirect_uri ← required input.redirect_uri (text "redirect_uri")
    code_verifier ← required input.code_verifier (text "code_verifier")
    client ← ok_or (get input.client_id server.clients) invalid_client
    let code_hash = hash server.crypto code
    elim (AuthorizationCodes.consume env.now code_hash db) [
      | none ↦ ok (
        err (invalid_grant (text "code is invalid, expired or already used")),
        reject_unusable_code code_hash db,
      )
      | some (consumed, tx) ↦ exchange input redirect_uri code_verifier client consumed tx
    ])

  -- The `match` of `refresh_token`: was this token stolen, and what the check writes.
  unfoldable pub check_reuse : ℕ → Option ℕ → Option ℕ → Db → Bool × Db
  check_reuse id (some _) _ tx = (true, tx)
  check_reuse id none none tx = (false, RefreshTokens.mark_rotated env.now id tx)
  check_reuse id none (some rotated_at) tx =
      if leb (env.now - rotated_at) refresh_reuse_grace
      then (false, tx)
      else if RefreshTokens.has_used_successor id tx
      then (true, tx)
      else (false, RefreshTokens.supersede_unused_successors env.now id tx)

  -- The end of `refresh_token`, for a token that is no stolen copy.
  unfoldable pub rotate : Client → RefreshTokenWithSession → Db → Result OAuthError (Reply × Db)
  rotate client current tx = do
    (new_token, tx') ←
        from_sql (new_refresh_token server.crypto env current.session_id (some current.id) tx)
    access ← from_issue (issue server env current.user_id current.session_id client)
    ok (
      ok (record {
        access_token = access.token;
        token_type = text "Bearer";
        expires_in = access.expires_in;
        refresh_token = new_token;
      }),
      tx',
    )

  -- The middle of `refresh_token`: the session is revoked, and that is committed, when the token
  -- was stolen or its account is gone.
  unfoldable pub refresh_checked :
      Client → RefreshTokenWithSession → Bool → Db → Result OAuthError (Reply × Db)
  unfolding rotate Users.find_by_id
  refresh_checked client current true tx = ok (
    err (invalid_grant (text "refresh token was already used")),
    Sessions.revoke env.now current.session_id tx,
  )
  refresh_checked client current false tx =
      if is_inactive (Users.find_by_id current.user_id tx)
      then ok (
        err (invalid_grant (text "account is disabled")),
        Sessions.revoke env.now current.session_id tx,
      )
      else rotate client current tx

  unfoldable pub refresh_token : TokenRequest → Db → Reply × Db
  unfolding required check_reuse refresh_checked
  refresh_token input db = finish db (do
    plain ← required input.refresh_token (text "refresh_token")
    client ← ok_or (get input.client_id server.clients) invalid_client
    current ←
        ok_or (RefreshTokens.find_for_update (hash server.crypto plain) db)
          (invalid_grant (text "refresh token is invalid"))
    guard (current.client_id =? client.id)
        (invalid_grant (text "refresh token was issued to another client"))
    guard (not (is_some current.session_revoked_at || leb current.session_expires_at env.now))
        (invalid_grant (text "session is expired or revoked"))
    let (stolen, tx) = check_reuse current.id current.superseded_at current.rotated_at db
    refresh_checked client current stolen tx)

  unfoldable pub token : TokenRequest → Db → Reply × Db
  unfolding authorization_code refresh_token
  token input db =
      if input.grant_type =? text "authorization_code"
      then authorization_code input db
      else if input.grant_type =? text "refresh_token"
      then refresh_token input db
      else (err unsupported_grant_type, db)

  -- Status 200 is `ok tt`.
  unfoldable pub revoke : RevokeRequest → Db → Result OAuthError (Unit {0}) × Db
  revoke input db = finish db (do
    client ← ok_or (get input.client_id server.clients) invalid_client
    ok (
      ok tt,
      (Sessions.revoke_by_refresh_token env.now (hash server.crypto input.token) client.id db).0,
    ))
