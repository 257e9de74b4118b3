-- ===== src/Errors.antt =====
-- bauth_server/src/errors.rs: the errors of the application routes, their stable codes and their
-- status, and the seconds of `Retry-After`. Durations are in nanoseconds there, as in `Duration`.
pub mod Laws
use bauth.Base.{ℕ, ◌+◌, ◌/◌, ◌%◌, Bool, true, false, Option, none, some, ltb, if◌then◌else◌}
use bauth.Base.Text.{Text, text}

pub data ApiError : Type 0 where
  invalid_request : Text → ApiError
  invalid_email invalid_token invalid_code invalid_client invalid_redirect_uri : ApiError
  invalid_code_challenge account_disabled flow_expired unauthorized not_found : ApiError
  email_taken : ApiError
  rate_limited : ℕ → ApiError
  internal : ApiError

-- `ApiError::code`.
unfoldable pub code_of : ApiError → Text
code_of (invalid_request _) = text "invalid_request"
code_of invalid_email = text "invalid_email"
code_of invalid_token = text "invalid_token"
code_of invalid_code = text "invalid_code"
code_of invalid_client = text "invalid_client"
code_of invalid_redirect_uri = text "invalid_redirect_uri"
code_of invalid_code_challenge = text "invalid_code_challenge"
code_of account_disabled = text "account_disabled"
code_of flow_expired = text "flow_expired"
code_of unauthorized = text "unauthorized"
code_of not_found = text "not_found"
code_of email_taken = text "email_taken"
code_of (rate_limited _) = text "rate_limited"
code_of internal = text "internal_error"

-- `ApiError::status`.
unfoldable pub status : ApiError → ℕ
status unauthorized = 401
status not_found = 404
status (rate_limited _) = 429
status internal = 500
status _ = 400

-- From nanoseconds. In 64 bits the sum overflows for `Duration::MAX` only, which no limiter gives.
unfoldable pub retry_after_seconds : ℕ → ℕ
retry_after_seconds retry_after =
    retry_after / 1_000_000_000 + (if ltb 0 (retry_after % 1_000_000_000) then 1 else 0)

-- `IntoResponse`: the status, the code of the body and the two headers of some errors.
pub record Response : Type 0 where
  pub status : ℕ
  pub code : Text
  pub www_authenticate : Bool
  pub retry_after : Option ℕ

unfoldable pub into_response : ApiError → Response
unfolding status code_of retry_after_seconds
into_response (rate_limited wait) = record {
  status = status (rate_limited wait);
  code = code_of (rate_limited wait);
  www_authenticate = false;
  retry_after = some (retry_after_seconds wait);
}
into_response unauthorized = record {
  status = status unauthorized;
  code = code_of unauthorized;
  www_authenticate = true;
  retry_after = none;
}
into_response e = record {
  status = status e;
  code = code_of e;
  www_authenticate = false;
  retry_after = none;
}
