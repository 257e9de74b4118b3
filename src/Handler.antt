-- ===== src/Handler.antt =====
-- What a request changes: the database, the histories of the rate limiters and the emails sent.
-- bauth_server/src/rate_limit.rs (`Limiter::check`, `RateLimits::new`, `email_key`) and the emails of
-- bauth_server/src/emails.rs as values. The crate governor decides a check: `verdict` is its answer,
-- any function of the quota and of the checks made before.
use bauth.Base.{ℕ, List, ◌∷◌, Option, none, some, Result, ok, err}
use bauth.Base.Text.{Text, trim_matches}
use bauth.Errors.{ApiError, rate_limited}
use bauth.Schema.{Db}
use bauth.Server.{Server}

-- `burst` requests at once, then one more every `period` seconds.
pub record Quota : Type 0 where
  pub burst : ℕ
  pub period : ℕ

-- The checks made, with their time, newest first.
abbrev pub Limiter : Type 0
Limiter = List (Text × ℕ)

abbrev pub Verdict : Type 0
Verdict = Quota → Limiter → Text → ℕ → Option ℕ

pub record Limits : Type 0 where
  pub email_per_address : Limiter
  pub email_per_ip : Limiter
  pub token_per_ip : Limiter

abbrev pub email_per_address_quota : Quota
email_per_address_quota = record { burst = 5; period = 180 }

abbrev pub email_per_ip_quota : Quota
email_per_ip_quota = record { burst = 20; period = 30 }

abbrev pub token_per_ip_quota : Quota
token_per_ip_quota = record { burst = 30; period = 2 }

pub data Email : Type 0 where
  magic_link magic_signup : Text → Text → Text → Text → Email
  confirmation_code : Text → Text → Text → Email
  confirm_email_change email_changed : Text → Text → Email
  account_deleted : Text → Email

pub record App : Type 0 where
  pub db : Db
  pub limits : Limits
  pub outbox : List Email

unfoldable pub check : Verdict → Quota → Text → ℕ → Limiter → Result ApiError (Unit {0})
check verdict quota key now limiter = elim (verdict quota limiter key now) [
  | none ↦ ok tt
  | some retry_after ↦ err (rate_limited retry_after)
]

-- A check is in the history whatever its answer.
abbrev pub charge_address : Text → ℕ → App → App
charge_address key now app = record app {
  limits = record (app.limits) { email_per_address = (key, now) ∷ app.limits.email_per_address };
}

abbrev pub charge_email_ip : Text → ℕ → App → App
charge_email_ip key now app = record app {
  limits = record (app.limits) { email_per_ip = (key, now) ∷ app.limits.email_per_ip };
}

abbrev pub charge_token_ip : Text → ℕ → App → App
charge_token_ip key now app = record app {
  limits = record (app.limits) { token_per_ip = (key, now) ∷ app.limits.token_per_ip };
}

-- `rate_limit::email_key`.
unfoldable pub email_key : Server → Text → Text
email_key server email = server.to_lowercase (trim_matches b' ' email)

-- What a request leaves: on an early return, the application as it was then.
abbrev pub settle :
    {A : Type 0} → App → Result ApiError (Result ApiError A × App) → Result ApiError A × App
settle app (err e) = (err e, app)
settle app (ok (answer, left)) = (answer, left)

-- The same for a transaction on the database.
abbrev pub transact :
    {A : Type 0} → App → Result ApiError (Result ApiError A × Db) → Result ApiError A × App
transact app (err e) = (err e, app)
transact app (ok (answer, db)) = (answer, record app { db = db })
