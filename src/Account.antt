-- ===== src/Account.antt =====
-- bauth_server/src/routes/me.rs and bauth_server/src/routes/email_change.rs: the account of the user
-- who asks. The handlers take the user that `current_user` gave.
pub mod Budget
pub mod Calls
pub mod Guarded
pub mod Checked
pub mod Deleted
pub mod Moved
pub mod Revoked
use bauth.Base.{
  ℕ, ◌+◌, Bool, true, false, not, List, [], ◌∷◌, ◌++◌, map, Option, none, some, Result, ok, err,
  ◌>>=◌, ◌>>◌, ok_or, guard, map_err, ◌==◌, ◌=?◌, is_none, is_some, if◌then◌else◌,
}
use bauth.Base.Text.{Text, text}
use bauth.Base.Time.{hours}
use bauth.Clients.{Client, get}
use bauth.CurrentUser.{CurrentUser}
use bauth.Email.{is_valid}
use bauth.Errors.{
  ApiError, invalid_request, invalid_email, invalid_token, invalid_code, invalid_client,
  account_disabled, unauthorized, not_found, email_taken, internal,
}
use bauth.Handler.{
  App, confirmation_code, confirm_email_change, email_changed, account_deleted, Verdict, check,
  charge_address, charge_email_ip, charge_token_ip, email_per_address_quota, email_per_ip_quota,
  token_per_ip_quota, email_key, settle, transact,
}
use bauth.MagicCode.{
  code_ttl, max_failures_per_code, max_failures_per_day, check_format, generate, verify,
}
use bauth.MagicLink.{from_sql}
use bauth.Schema.{Db, User, SqlError, unique_violation, foreign_key_violation, Confirmation}
use bauth.Server.{Server, Env}
use bauth.Token
use bauth.Queries.Users
use bauth.Queries.Sessions
use bauth.Queries.Sessions.{ActiveSession}
use bauth.Queries.Confirmations
use bauth.Queries.EmailChanges

abbrev pub email_change_ttl : ℕ
email_change_ttl = hours 1

pub record MeResponse : Type 0 where
  pub id : ℕ
  pub email : Text
  pub email_verified : Bool
  pub created_at : ℕ

unfoldable pub get_me : CurrentUser → Db → Result ApiError MeResponse
get_me user db = do
  account ← ok_or (Users.find_by_id user.id db) unauthorized
  ok (record {
    id = account.id;
    email = account.email;
    email_verified = is_some account.email_verified_at;
    created_at = account.created_at;
  })

pub record SessionResponse : Type 0 where
  pub id : ℕ
  pub client_id : Text
  pub client_name : Option Text
  pub created_at : ℕ
  pub last_used_at : ℕ
  pub expires_at : ℕ
  pub current : Bool

abbrev pub name_of : Option Client → Option Text
name_of none = none
name_of (some client) = some client.name

unfoldable pub list_sessions : Server → ℕ → CurrentUser → Db → List SessionResponse
list_sessions server now user db =
    map
      (λ (s : ActiveSession). record {
        id = s.id;
        client_id = s.client_id;
        client_name = name_of (get s.client_id server.clients);
        created_at = s.created_at;
        last_used_at = s.last_used_at;
        expires_at = s.expires_at;
        current = s.id == user.session_id;
      })
      (Sessions.list_active_for_user now user.id db)

-- Status 204 is `ok tt`.
unfoldable pub revoke_session : ℕ → CurrentUser → ℕ → App → Result ApiError (Unit {0}) × App
revoke_session now user session_id app =
    let (db, revoked) = Sessions.revoke_for_user now session_id user.id app.db in
    (guard revoked not_found, record app { db = db })

pub data ConfirmationAction : Type 0 where
  change_email delete_account : ConfirmationAction

unfoldable pub as_str : ConfirmationAction → Text
as_str change_email = text "change_email"
as_str delete_account = text "delete_account"

unfoldable pub describe : ConfirmationAction → Text
describe change_email = text "modifier l'adresse email de votre compte"
describe delete_account = text "supprimer votre compte"

-- `email_change::page`.
unfoldable pub page : Client → Result ApiError Text
page client =
    ok_or client.email_change_url
      (invalid_request (text "email change is not enabled for this client"))

-- `Ok(())` of an inner function, then the rest of the handler.
abbrev pub after :
    {A B : Type 0}
    → Result ApiError A × App
    → (A → App → Result ApiError B × App)
    → Result ApiError B × App
after (err e, app) rest = (err e, app)
after (ok a, app) rest = rest a app

module _ (server : Server) (verdict : Verdict) (env : Env) (ip : Text) (user : CurrentUser) where
  -- The end of `request_confirmation`: the row, then the email.
  unfoldable pub send_confirmation : ConfirmationAction → App → Result ApiError App
  unfolding generate as_str describe
  send_confirmation action app = do
    let code = generate server.crypto server.code_keys.confirmation user.session_id env.number
    db ← from_sql (
        Confirmations.create env.now env.id user.id user.session_id (as_str action) user.email
          code.hash (env.now + code_ttl) app.db)
    ok (record app {
      db = db;
      outbox = confirmation_code user.email (describe action) code.plain ∷ app.outbox;
    })

  -- What follows keeps the state when it fails.
  abbrev pub done : App → Result ApiError App → Result ApiError (Unit {0}) × App
  done app (err e) = (err e, app)
  done app (ok left) = (ok tt, left)

  -- Status 202 is `ok tt`.
  unfoldable pub request_confirmation : ConfirmationAction → App → Result ApiError (Unit {0}) × App
  unfolding check send_confirmation
  request_confirmation action app =
      let app₁ = charge_email_ip ip env.now app in
      settle app₁ (do
        check verdict email_per_ip_quota ip env.now app.limits.email_per_ip
        let key = email_key server user.email
        let app₂ = charge_address key env.now app₁
        ok (
            settle app₂ (do
              check verdict email_per_address_quota key env.now app.limits.email_per_address
              ok (done app₂ (send_confirmation action app₂)))))

  -- The row is used up by the right code, and counts a wrong one. Both are committed.
  abbrev pub spend : Bool → Confirmation → Db → Result ApiError (Unit {0}) × Db
  spend true confirmation db = (ok tt, Confirmations.consume_by_id env.now confirmation.id db)
  spend false confirmation db = (
    err invalid_code,
    Confirmations.record_code_failure env.now confirmation.id max_failures_per_code db,
  )

  -- The end of `check_code`, for the row that the code is checked against.
  unfoldable pub check_candidate :
      Text → Confirmation → Db → Result ApiError (Result ApiError (Unit {0}) × Db)
  check_candidate code confirmation db = do
    guard (confirmation.email =? user.email) invalid_code
    ok (
        spend
          (verify server.crypto server.code_keys.confirmation user.session_id code
            confirmation.code_hash)
          confirmation db)

  unfoldable pub check_code : ConfirmationAction → Text → App → Result ApiError (Unit {0}) × App
  unfolding check check_format check_candidate as_str
  check_code action code app = transact (charge_token_ip ip env.now app) (do
    check verdict token_per_ip_quota ip env.now app.limits.token_per_ip
    check_format code
    confirmation ←
        ok_or
          (Confirmations.find_code_candidate env.now user.id user.session_id (as_str action)
            max_failures_per_code max_failures_per_day app.db)
          invalid_code
    check_candidate code confirmation app.db)

  -- The end of `change_email`, once the code is spent: a taken address gets no link.
  unfoldable pub send_change_link : Text → Text → Option User → App → Result ApiError App
  unfolding Token.generate
  send_change_link new_email url (some _) app = ok app
  send_change_link new_email url none app = do
    let token = Token.generate server.crypto env.random
    db ← from_sql (
        EmailChanges.create server.lower env.now env.id user.id user.email new_email token.hash
          (env.now + email_change_ttl) app.db)
    let link = url ++ (text "#token=" ++ token.plain)
    ok (record app {
      db = db;
      outbox = confirm_email_change (email_key server new_email) link ∷ app.outbox;
    })

  unfoldable pub change_email_of : Text → Text → App → Result ApiError (Unit {0}) × App
  unfolding check check_code send_change_link page
  change_email_of code new_email app =
      let key = email_key server new_email in
      settle app (do
        guard (is_valid new_email) invalid_email
        guard (not (key =? user.email)) (invalid_request (text "new_email is the current address"))
        client ← ok_or (get user.client_id server.clients) invalid_client
        url ← page client
        let app₁ = charge_address key env.now app
        ok (
            settle app₁ (do
              check verdict email_per_address_quota key env.now app.limits.email_per_address
              ok (
                  after (check_code change_email code app₁) λ _ app₂. done app₂ (
                    send_change_link new_email url
                      (Users.find_by_email server.lower new_email app₂.db) app₂)))))

  unfoldable pub delete_account_of : Text → App → Result ApiError (Unit {0}) × App
  unfolding check_code
  delete_account_of code app = after (check_code delete_account code app) λ _ app₁. (
    ok tt,
    record app₁ {
      db = Users.delete user.id app₁.db;
      outbox = account_deleted user.email ∷ app₁.outbox;
    },
  )

-- The `match` of `confirm` on the answer of the database.
unfoldable pub changed : Result SqlError (Db × Bool) → Result ApiError Db
changed (ok (db, true)) = ok db
changed (ok (db, false)) = err invalid_token
changed (err unique_violation) = err email_taken
changed (err foreign_key_violation) = err internal

module _ (server : Server) (verdict : Verdict) (env : Env) (ip : Text) where
  -- `email_change::confirm`. Nothing is committed unless the address moves.
  unfoldable pub move_address : Text → Db → Result ApiError ((Text × Text) × Db)
  unfolding changed Token.hash
  move_address token db = do
    (change, tx) ←
        ok_or (EmailChanges.consume env.now (Token.hash server.crypto token) db) invalid_token
    user ← ok_or (Users.find_by_id change.user_id tx) invalid_token
    guard (is_none user.disabled_at) account_disabled
    left ← changed (Users.change_email env.now user.id change.from_email change.to_email tx)
    ok ((change.from_email, change.to_email), left)

  abbrev pub announced :
      App → Result ApiError ((Text × Text) × Db) → Result ApiError (Unit {0}) × App
  announced app (err e) = (err e, app)
  announced app (ok ((from_email, to_email), db)) =
      (ok tt, record app { db = db; outbox = email_changed from_email to_email ∷ app.outbox })

  unfoldable pub confirm : Text → App → Result ApiError (Unit {0}) × App
  unfolding check move_address
  confirm token app = announced (charge_token_ip ip env.now app) (do
    check verdict token_per_ip_quota ip env.now app.limits.token_per_ip
    move_address token app.db)
