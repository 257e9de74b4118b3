-- ===== src/Tests/Fixtures.antt =====
-- A server with one client and toy cryptography, one user, one login flow, one code, one session.
use bauth.Base.{ℕ, List, [], ◌∷◌, ◌++◌, none, some, true}
use bauth.Base.Text.{Text, text}
use bauth.Clients.{Client}
use bauth.Crypto.{Crypto}
use bauth.Handler.{App, Verdict}
use bauth.MagicCode.{code_keys}
use bauth.OAuth.{TokenRequest}
use bauth.Schema.{Db, User, LoginFlow, AuthorizationCode, Session, RefreshToken, MagicLink}
use bauth.Server.{Server, Env, AccessTokenClaims}
use bauth.CurrentUser.{Jwt}

abbrev pub plain_crypto : Crypto
plain_crypto = record { sha256 = λ b. b; base64url = λ b. b; hmac_sha256 = λ k m. k ++ m }

abbrev pub verifier : Text
verifier = text "aaaaaaaaaaaaaaaaaaaaaaaaaaaaaaaaaaaaaaaaaaa"

abbrev pub web : Client
web = record {
  id = text "web";
  name = text "Web";
  redirect_uris = text "https://app/cb" ∷ [];
  allow_signup = true;
  audience = none;
  magic_link_url = text "https://app/login";
  email_change_url = none;
  allowed_origins = [];
}

abbrev pub server : Server
server = record {
  crypto = plain_crypto;
  clients = web ∷ [];
  issuer = text "https://auth";
  signing_keys = record {
    keys = record { kid = 1; encoding_key = []; active_at = 0; retired_at = none } ∷ [];
    jwks = [];
  };
  code_keys = code_keys plain_crypto [];
  encode = λ kid claims key. some (text "jwt");
  lower = λ s. s;
  to_lowercase = λ s. s;
}

-- Every limiter lets every request pass.
abbrev pub lenient : Verdict
lenient quota history key now = none

abbrev pub at : ℕ → ℕ → List ℕ → Env
at now id random = record {
  now = now;
  id = id;
  other_id = id;
  jti = id;
  random = random;
  number = 123456;
}

abbrev pub user : User
user = record {
  id = 1;
  email = text "a@b.c";
  email_verified_at = none;
  disabled_at = none;
  created_at = 0;
  updated_at = 0;
}

abbrev pub flow : LoginFlow
flow = record {
  id = 10;
  client_id = text "web";
  redirect_uri = text "https://app/cb";
  code_challenge = verifier;
  state = none;
  magic_link_requests = 1;
  expires_at = 1_000_000_000;
  completed_at = some 1;
  created_at = 500_000_000;
}

abbrev pub code : AuthorizationCode
code = record {
  id = 20;
  code_hash = text "code";
  flow_id = 10;
  user_id = 1;
  expires_at = 60_000_000;
  consumed_at = none;
  created_at = 0;
}

abbrev pub session : Session
session = record {
  id = 30;
  user_id = 1;
  client_id = text "web";
  authorization_code_id = none;
  expires_at = 2_000_000_000_000;
  revoked_at = none;
  created_at = 0;
}

-- Rotated at the start, with a child that was rotated after it.
abbrev pub parent_token : RefreshToken
parent_token = record {
  id = 40;
  session_id = 30;
  parent_id = none;
  token_hash = text "old";
  rotated_at = some 1;
  superseded_at = none;
  created_at = 0;
}

abbrev pub child_token : RefreshToken
child_token = record {
  id = 41;
  session_id = 30;
  parent_id = some 40;
  token_hash = text "new";
  rotated_at = some 2;
  superseded_at = none;
  created_at = 1;
}

abbrev pub link : MagicLink
link = record {
  id = 50;
  flow_id = 10;
  user_id = some 1;
  email = text "a@b.c";
  token_hash = text "secret";
  code_hash = [];
  code_failures = 4;
  expires_at = 900_000_000;
  consumed_at = none;
  created_at = 0;
}

abbrev pub db : Db
db = record {
  users = user ∷ [];
  login_flows = flow ∷ [];
  authorization_codes = code ∷ [];
  sessions = session ∷ [];
  refresh_tokens = parent_token ∷ child_token ∷ [];
  magic_links = link ∷ [];
  email_changes = [];
  confirmations = [];
  signing_keys = [];
}

abbrev pub app : App
app = record {
  db = db;
  limits = record { email_per_address = []; email_per_ip = []; token_per_ip = [] };
  outbox = [];
}

abbrev pub exchange_request : TokenRequest
exchange_request = record {
  grant_type = text "authorization_code";
  client_id = text "web";
  code = some (text "code");
  redirect_uri = some (text "https://app/cb");
  code_verifier = some verifier;
  refresh_token = none;
}

abbrev pub refresh_request : TokenRequest
refresh_request = record {
  grant_type = text "refresh_token";
  client_id = text "web";
  code = none;
  redirect_uri = none;
  code_verifier = none;
  refresh_token = some (text "old");
}

abbrev pub claims : AccessTokenClaims
claims = record {
  iss = text "https://auth";
  sub = 1;
  aud = text "web";
  client_id = text "web";
  sid = 30;
  iat = 5;
  exp = 905;
  jti = 7;
}

-- Every token decodes.
abbrev pub jwt : Jwt
jwt = record {
  decode_header =
      λ token. some (record { is_eddsa = true; typ = some (text "at+jwt"); kid = some (text "1") });
  from_jwk = λ j. some j.x;
  decode = λ now token key validation. some claims;
  print_uuid = λ id. text "1";
}
