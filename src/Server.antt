-- ===== src/Server.antt =====
-- `AppState` of bauth_server/src/main.rs, the signing keys in memory, and what one request takes
-- from outside: the clock, the ids of new rows, the bytes of the random generator.
use bauth.Base.{ℕ, Bool, true, List, Option, none, some, ◌&&◌, leb, ltb}
use bauth.Base.Text.{Text}
use bauth.Base.Table.{find}
use bauth.Crypto.{Crypto}
use bauth.Clients.{Client}
use bauth.MagicCode.{CodeKeys}

-- bauth_core: the claims of an access token. `iat` and `exp` are seconds.
pub record AccessTokenClaims : Type 0 where
  pub iss : Text
  pub sub : ℕ
  pub aud : Text
  pub client_id : Text
  pub sid : ℕ
  pub iat : ℕ
  pub exp : ℕ
  pub jti : ℕ

-- A key allowed to sign from `active_at` until `retired_at`.
pub record LoadedKey : Type 0 where
  pub kid : ℕ
  pub encoding_key : List ℕ
  pub active_at : ℕ
  pub retired_at : Option ℕ

-- `retired_at.is_none_or(|retired_at| retired_at > now)`.
abbrev pub not_retired : Option ℕ → ℕ → Bool
not_retired none now = true
not_retired (some at) now = ltb now at

unfoldable pub can_sign : LoadedKey → ℕ → Bool
can_sign key now = leb key.active_at now && not_retired key.retired_at now

pub record Jwk : Type 0 where
  pub key_id : ℕ
  pub x : Text

pub record SigningKeys : Type 0 where
  pub keys : List LoadedKey
  pub jwks : List Jwk

unfoldable pub signing_key : SigningKeys → ℕ → Option LoadedKey
unfolding can_sign
signing_key keys now = find (λ key. can_sign key now) keys.keys

-- The state that handlers share, with the third-party functions that they call: `encode` is
-- `jsonwebtoken::encode` with the header of access tokens (its `kid` first), `lower` the database's
-- `lower`, `to_lowercase` Rust's.
pub record Server : Type 0 where
  pub crypto : Crypto
  pub clients : List Client
  pub issuer : Text
  pub signing_keys : SigningKeys
  pub code_keys : CodeKeys
  pub encode : ℕ → AccessTokenClaims → List ℕ → Option Text
  pub lower : Text → Text
  pub to_lowercase : Text → Text

-- `Utc::now()`, which is taken to agree with the database's `now()`; ids that `uuidv7` gives the
-- rows of this request; random bytes.
pub record Env : Type 0 where
  pub now : ℕ
  pub id : ℕ
  pub other_id : ℕ
  pub jti : ℕ
  pub random : List ℕ
  pub number : ℕ
