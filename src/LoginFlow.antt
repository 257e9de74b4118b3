-- ===== src/LoginFlow.antt =====
-- bauth_server/src/login_flow.rs and bauth_server/src/routes/login.rs: the creation of a login flow by
-- an app, and its completion with an authorization code.
use bauth.Base.{
  ℕ, ◌+◌, Bool, false, not, ◌||◌, Option, none, some, Result, ok, ◌>>=◌, ◌>>◌, ok_or, guard,
  map_err, ltb, ◌=?◌, if◌then◌else◌,
}
use bauth.Base.Text.{Text, text, len}
use bauth.Base.Time.{seconds, minutes}
use bauth.Clients.{get, allows_redirect_uri}
use bauth.Errors.{
  ApiError, invalid_client, invalid_redirect_uri, invalid_code_challenge, invalid_request, internal,
}
use bauth.Handler.{App, transact}
use bauth.Pkce.{is_valid_challenge}
use bauth.Schema.{Db, SqlError}
use bauth.Server.{Server, Env}
use bauth.Token.{generate}
use bauth.Queries.LoginFlows
use bauth.Queries.AuthorizationCodes

abbrev pub code_ttl : ℕ
code_ttl = seconds 60

abbrev pub flow_ttl : ℕ
flow_ttl = minutes 15

abbrev pub max_state_len : ℕ
max_state_len = 512

-- `LoginResponse::Completed` holds the code; `none` if the flow is not pending any more.
unfoldable pub complete : Server → Env → ℕ → ℕ → Db → Result SqlError (Option Text × Db)
unfolding generate
complete server env flow_id user_id db =
    let (db₁, completed) = LoginFlows.complete env.now flow_id db in
    if completed
    then (do
      db₂ ←
          AuthorizationCodes.create env.now env.id (generate server.crypto env.random).hash flow_id
            user_id (env.now + code_ttl) db₁
      ok (some (generate server.crypto env.random).plain, db₂))
    else ok (none, db₁)

pub record CreateFlowRequest : Type 0 where
  pub client_id : Text
  pub redirect_uri : Text
  pub code_challenge : Text
  pub code_challenge_method : Text
  pub state : Option Text

pub record FlowResponse : Type 0 where
  pub flow_id : ℕ
  pub expires_at : ℕ

-- `state.as_ref().is_some_and(|s| s.len() > MAX_STATE_LEN)`.
abbrev pub is_too_long : Option Text → Bool
is_too_long none = false
is_too_long (some s) = ltb max_state_len (len s)

unfoldable pub create_flow :
    Server → Env → CreateFlowRequest → App → Result ApiError FlowResponse × App
create_flow server env input app = transact app (do
  client ← ok_or (get input.client_id server.clients) invalid_client
  guard (allows_redirect_uri client input.redirect_uri) invalid_redirect_uri
  guard
      (not (
        not (input.code_challenge_method =? text "S256")
        || not (is_valid_challenge input.code_challenge)))
      invalid_code_challenge
  guard (not (is_too_long input.state)) (invalid_request (text "state must be at most 512 bytes"))
  db ←
      map_err (λ _. internal)
        (LoginFlows.create env.now env.id client.id input.redirect_uri input.code_challenge
          input.state (env.now + flow_ttl) app.db)
  ok (ok (record { flow_id = env.id; expires_at = env.now + flow_ttl }), db))
