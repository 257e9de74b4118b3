-- ===== src/CurrentUser.antt =====
-- bauth_server/src/current_user.rs: the user behind a bearer token. jsonwebtoken is a parameter.
pub mod Checked
pub mod Joined
pub mod Laws
use bauth.Base.{
  ℕ, Bool, true, false, not, ◌&&◌, List, [], ◌∷◌, Option, none, some, Result, ok, err, ◌>>=◌, ◌>>◌,
  ok_or, and_then, guard, ◌==◌, ◌=?◌, if◌then◌else◌,
}
use bauth.Base.Text.{Text, text}
use bauth.Base.Table.{find}
use bauth.Errors.{ApiError, unauthorized}
use bauth.Schema.{Db}
use bauth.Server.{Server, Jwk, AccessTokenClaims}
use bauth.Queries.Sessions

-- What the code reads of a token's header; `alg` tells whether it is EdDSA.
pub record Header : Type 0 where
  pub is_eddsa : Bool
  pub typ : Option Text
  pub kid : Option Text

-- What `Validation` is told to check; no audience is any audience.
pub record Validation : Type 0 where
  pub issuer : Text
  pub audience : Option Text
  pub required : List Text
  pub leeway : ℕ

-- jsonwebtoken: `decode_header`, `DecodingKey::from_jwk`, and `decode`, which gives the claims of a
-- token that passes the validation now under the key; and how a UUID is printed.
pub record Jwt : Type 0 where
  pub decode_header : Text → Option Header
  pub from_jwk : Jwk → Option (List ℕ)
  pub decode : ℕ → Text → List ℕ → Validation → Option AccessTokenClaims
  pub print_uuid : ℕ → Text

abbrev pub leeway_seconds : ℕ
leeway_seconds = 30

pub record CurrentUser : Type 0 where
  pub id : ℕ
  pub email : Text
  pub session_id : ℕ
  pub client_id : Text

-- `str::strip_prefix`.
unfoldable pub strip_prefix : Text → Text → Option Text
strip_prefix [] s = some s
strip_prefix (c ∷ prefix) [] = none
strip_prefix (c ∷ prefix) (d ∷ s) =
    let rest = strip_prefix prefix s in if c == d then rest else none

abbrev pub is_text : Option Text → Text → Bool
is_text none t = false
is_text (some s) t = s =? t

-- `header.alg != EdDSA || header.typ != "at+jwt"`, negated.
abbrev pub is_access_token : Header → Bool
is_access_token header = header.is_eddsa && is_text header.typ (text "at+jwt")

module _ (server : Server) (jwt : Jwt) where
  -- `SigningKeys::decoding_key`.
  unfoldable pub decoding_key : Text → Option (List ℕ)
  decoding_key kid =
      and_then (find (λ j. jwt.print_uuid j.key_id =? kid) server.signing_keys.jwks) jwt.from_jwk

  abbrev pub validation : Validation
  validation = record {
    issuer = server.issuer;
    audience = none;
    required = text "exp" ∷ text "iss" ∷ text "sub" ∷ [];
    leeway = leeway_seconds;
  }

  -- `from_request_parts`, from the value of the header `Authorization`.
  unfoldable pub current_user : ℕ → Option Text → Db → Result ApiError CurrentUser
  unfolding decoding_key strip_prefix
  current_user now authorization db = do
    token ← ok_or (and_then authorization (strip_prefix (text "Bearer "))) unauthorized
    header ← ok_or (jwt.decode_header token) unauthorized
    guard (is_access_token header) unauthorized
    key ← ok_or (and_then header.kid decoding_key) unauthorized
    claims ← ok_or (jwt.decode now token key validation) unauthorized
    session ← ok_or (Sessions.find_authenticated now claims.sid db) unauthorized
    guard (session.user_id == claims.sub) unauthorized
    ok (record {
      id = session.user_id;
      email = session.email;
      session_id = claims.sid;
      client_id = claims.client_id;
    })
