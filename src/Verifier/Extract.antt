-- ===== src/Verifier/Extract.antt =====
-- bauth_client/src/extract.rs, and `Verifier::me` of bauth_client/src/verifier.rs. A response is its
-- status, its code and whether it has the header `WWW-Authenticate`.
use bauth.Base.{
  ℕ, ◌+◌, Bool, Option, none, some, Result, ok, err, ◌>>=◌, ◌==◌, ◌=?◌, map_err, ok_or, map,
  if◌then◌else◌,
}
use bauth.Base.Text.{Text, text, is_ascii_uppercase}
use bauth.Base.Text.Words.{split_once, skip_whitespace, trim}
use bauth.Verifier.{AuthUser, VerifyError, WrongClient, malformed, unknown_key, invalid, jwks}

pub data AuthRejection : Type 0 where
  missing_token missing_verifier : AuthRejection
  invalid_token : VerifyError → AuthRejection

pub data MeError : Type 0 where
  unauthorized : MeError
  unavailable : Text → MeError
  unexpected_status : ℕ → MeError

pub record Me : Type 0 where
  pub id : ℕ
  pub email : Text
  pub email_verified : Bool

pub record Response : Type 0 where
  pub status : ℕ
  pub code : Text
  pub www_authenticate : Bool

-- `error_response`.
unfoldable pub error_response : ℕ → Text → Response
error_response status code = record {
  status = status;
  code = code;
  www_authenticate = status == 401;
}

unfoldable pub reject : AuthRejection → Response
unfolding error_response
reject missing_token = error_response 401 (text "unauthorized")
reject missing_verifier = error_response 500 (text "internal_error")
reject (invalid_token malformed) = error_response 401 (text "unauthorized")
reject (invalid_token unknown_key) = error_response 401 (text "unauthorized")
reject (invalid_token invalid) = error_response 401 (text "unauthorized")
reject (invalid_token (jwks e)) = error_response 503 (text "auth_unavailable")

unfoldable pub reject_me : MeError → Response
unfolding error_response
reject_me unauthorized = error_response 401 (text "unauthorized")
reject_me (unavailable e) = error_response 503 (text "auth_unavailable")
reject_me (unexpected_status status) = error_response 503 (text "auth_unavailable")

unfoldable pub reject_client : WrongClient → Response
unfolding error_response
reject_client wrong = error_response 403 (text "forbidden")

-- `Verifier::me`, from what the HTTP client gives: a status with the body read as JSON, or an error.
unfoldable pub me : Result Text (ℕ × Result Text Me) → Result MeError Me
me (err e) = err (unavailable e)
me (ok (status, body)) =
    if status == 200
    then map_err unavailable body
    else if status == 401
    then err unauthorized
    else err (unexpected_status status)

-- `eq_ignore_ascii_case`.
abbrev pub to_ascii_lowercase : ℕ → ℕ
to_ascii_lowercase c = if is_ascii_uppercase c then c + 32 else c

abbrev pub eq_ignore_ascii_case : Text → Text → Bool
eq_ignore_ascii_case s t = map to_ascii_lowercase s =? map to_ascii_lowercase t

-- The header's value as text, if it has one.
unfoldable pub bearer_token : Option Text → Option Text
unfolding split_once skip_whitespace
bearer_token none = none
bearer_token (some value) = elim (split_once b' ' value) [
  | none ↦ none
  | some (scheme, token) ↦
      if eq_ignore_ascii_case scheme (text "bearer") then some (trim token) else none
]

-- The verifier of the request's extensions, as its function `verify`.
module _ (verifier : Option (Text → Result VerifyError AuthUser)) where
  unfoldable pub verify : Text → Result AuthRejection AuthUser
  verify token = ok_or verifier missing_verifier >>= λ f. map_err invalid_token (f token)

  -- `AuthUser` as an extractor.
  unfoldable pub required : Option Text → Result AuthRejection AuthUser
  unfolding bearer_token verify
  required authorization = ok_or (bearer_token authorization) missing_token >>= verify

  abbrev pub some_user : Result AuthRejection AuthUser → Result AuthRejection (Option AuthUser)
  some_user (ok user) = ok (some user)
  some_user (err e) = err e

  -- `Option<AuthUser>` as an extractor.
  unfoldable pub optional : Option Text → Result AuthRejection (Option AuthUser)
  unfolding bearer_token verify
  optional authorization = elim (bearer_token authorization) [
    | none ↦ ok none
    | some token ↦ some_user (verify token)
  ]
