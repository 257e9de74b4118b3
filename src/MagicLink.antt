-- ===== src/MagicLink.antt =====
-- bauth_server/src/routes/magic_link.rs: login and sign-up by an emailed link and code.
pub mod Budget
pub mod Guesses
use bauth.Base.{
  ℕ, ◌+◌, ◌-◌, ◌*◌, Bool, ◌∷◌, ◌++◌, Option, none, some, Result, ok, err, ◌>>=◌, ◌>>◌, ok_or, guard,
  map_err, ltb, ◌=?◌, is_none, if◌then◌else◌,
}
use bauth.Base.Text.{Text, text}
use bauth.Clients.{Client, get}
use bauth.Email.{is_valid}
use bauth.Errors.{
  ApiError, invalid_client, invalid_email, invalid_token, invalid_code, account_disabled,
  flow_expired, rate_limited, internal,
}
use bauth.Handler.{
  App, Email, magic_link, magic_signup, Verdict, check, charge_address, charge_email_ip,
  charge_token_ip, email_per_address_quota, email_per_ip_quota, token_per_ip_quota, email_key,
  settle, transact,
}
use bauth.LoginFlow.{complete}
use bauth.MagicCode.{
  code_ttl, max_failures_per_code, max_failures_per_day, check_format, generate, verify,
}
use bauth.Schema.{Db, User, SqlError, MagicLink}
use bauth.Server.{Server, Env}
use bauth.Token
use bauth.Queries.LoginFlows
use bauth.Queries.LoginFlows.{PendingMagicLinkFlow}
use bauth.Queries.MagicLinks
use bauth.Queries.Users

abbrev pub max_emails_per_flow : ℕ
max_emails_per_flow = 3

pub data Recipient : Type 0 where
  account : ℕ → Recipient
  sign_up : Recipient

abbrev pub from_sql : {A : Type 0} → Result SqlError A → Result ApiError A
from_sql r = map_err (λ _. internal) r

-- `(expires_at - Utc::now()).to_std().unwrap_or_default()`, in nanoseconds.
abbrev pub flow_exhausted : ℕ → ℕ → ApiError
flow_exhausted expires_at now = rate_limited ((expires_at - now) * 1000)

-- The `match` on the account of the address.
abbrev pub recipient_of : Option User → Bool → Option Recipient
recipient_of (some user) allow_signup =
    if is_none user.disabled_at then some (account user.id) else none
recipient_of none allow_signup = if allow_signup then some sign_up else none

abbrev pub user_of : Recipient → Option ℕ
user_of (account user_id) = some user_id
user_of sign_up = none

abbrev pub email_for : Recipient → Text → Text → Text → Text → Email
email_for (account _) to app_name link code = magic_link to app_name link code
email_for sign_up to app_name link code = magic_signup to app_name link code

module _ (server : Server) (verdict : Verdict) (env : Env) where
  -- The end of `request`: the email, if the address gets one.
  unfoldable pub send : ℕ → Text → Client → ℕ → Option Recipient → App → Result ApiError App
  unfolding generate Token.generate
  send flow_id email client expires_at none app = ok app
  send flow_id email client expires_at (some recipient) app = do
    let secret = Token.generate server.crypto env.random
    let code = generate server.crypto server.code_keys.magic_link flow_id env.number
    (to, db) ← from_sql (
        MagicLinks.create server.lower env.now env.id flow_id (user_of recipient) email secret.hash
          code.hash expires_at app.db)
    let link = client.magic_link_url ++ (text "#token=" ++ secret.plain)
    ok (record app {
      db = db;
      outbox = email_for recipient to client.name link code.plain ∷ app.outbox;
    })

  -- The answer of `request` to what `send` gave.
  abbrev pub sent : App → ℕ → Result ApiError App → Result ApiError ℕ × App
  sent app flow_expires_at (err e) = (err e, app)
  sent app flow_expires_at (ok left) = (ok flow_expires_at, left)

  -- The middle of `request`, after the checks: the request is counted, which stays whatever follows.
  unfoldable pub count_and_send :
      ℕ → Text → Client → PendingMagicLinkFlow → App → Result ApiError (Result ApiError ℕ × App)
  unfolding send
  count_and_send flow_id email client flow app = do
    (flow_expires_at, db) ←
        ok_or
          (LoginFlows.count_magic_link_request env.now flow_id max_emails_per_flow
            (env.now + code_ttl) app.db)
          (flow_exhausted flow.expires_at env.now)
    let app₁ = record app { db = db }
    ok (
        sent app₁ flow_expires_at (
          send flow_id email client (env.now + code_ttl)
            (recipient_of (Users.find_by_email server.lower email db) client.allow_signup) app₁))

  -- `request`: the answer is the new expiry of the flow.
  unfoldable pub request : Text → ℕ → Text → App → Result ApiError ℕ × App
  unfolding count_and_send check
  request ip flow_id email app =
      let app₁ = charge_email_ip ip env.now app in
      settle app₁ (do
        check verdict email_per_ip_quota ip env.now app.limits.email_per_ip
        guard (is_valid email) invalid_email
        flow ← ok_or (LoginFlows.find_pending_magic_link_flow env.now flow_id app.db) flow_expired
        guard (ltb flow.requests max_emails_per_flow) (flow_exhausted flow.expires_at env.now)
        client ← ok_or (get flow.client_id server.clients) invalid_client
        let key = email_key server email
        let app₂ = charge_address key env.now app₁
        ok (
            settle app₂ (do
              check verdict email_per_address_quota key env.now app.limits.email_per_address
              count_and_send flow_id email client flow app₂)))

  -- The account of `log_in`: the one that the email was sent for, or for a sign-up a new one, or the
  -- one that took the address meanwhile.
  unfoldable pub account_for : Option ℕ → Text → Db → Result ApiError (Option User × Db)
  account_for (some id) email db = ok (Users.find_by_id id db, db)
  account_for none email db = do
    (created, db₁) ← from_sql (Users.create server.lower env.now env.other_id email db)
    ok (elim created [
      | some user ↦ (some user, db₁)
      | none ↦ (Users.find_by_email server.lower email db₁, db₁)
    ])

  unfoldable pub log_in : ℕ → Option ℕ → Text → ApiError → Db → Result ApiError ((Text × ℕ) × Db)
  unfolding account_for complete
  log_in flow_id user_id email stale db = do
    (found, db₁) ← account_for user_id email db
    user ← ok_or found stale
    guard (is_none user.disabled_at) account_disabled
    guard (user.email =? email) stale
    let db₂ = Users.mark_email_verified env.now user.id user.email db₁
    (response, db₃) ← from_sql (complete server env flow_id user.id db₂)
    code ← ok_or response flow_expired
    ok ((code, user.id), db₃)

  unfoldable pub confirm_body : Text → Db → Result ApiError (Result ApiError Text × Db)
  unfolding log_in
  confirm_body token db = do
    (link, tx) ←
        ok_or (MagicLinks.consume env.now (Token.hash server.crypto token) db) invalid_token
    (done, tx') ← log_in link.flow_id link.user_id link.email invalid_token tx
    ok (ok done.0, tx')

  unfoldable pub confirm : Text → Text → App → Result ApiError Text × App
  unfolding confirm_body check
  confirm ip token app = transact (charge_token_ip ip env.now app) (do
    check verdict token_per_ip_quota ip env.now app.limits.token_per_ip
    confirm_body token app.db)

  -- A wrong code is committed, with the error for an answer.
  unfoldable pub confirm_code_body :
      ℕ → Text → MagicLink → Db → Result ApiError (Result ApiError Text × Db)
  unfolding log_in
  confirm_code_body flow_id code link db =
      if verify server.crypto server.code_keys.magic_link flow_id code link.code_hash
      then (do
        (done, tx) ←
            log_in flow_id link.user_id link.email invalid_code
              (MagicLinks.consume_by_id env.now link.id db)
        ok (ok done.0, tx))
      else ok (
        err invalid_code,
        MagicLinks.record_code_failure env.now link.id max_failures_per_code db,
      )

  unfoldable pub confirm_code : Text → ℕ → Text → App → Result ApiError Text × App
  unfolding confirm_code_body check check_format
  confirm_code ip flow_id code app = transact (charge_token_ip ip env.now app) (do
    check verdict token_per_ip_quota ip env.now app.limits.token_per_ip
    check_format code
    link ←
        ok_or
          (MagicLinks.find_code_candidate env.now flow_id max_failures_per_code max_failures_per_day
            app.db)
          invalid_code
    confirm_code_body flow_id code link app.db)
