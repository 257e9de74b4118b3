-- ===== src/AccessToken.antt =====
-- bauth_server/src/access_token.rs: access tokens signed by the key of the moment.
use bauth.Base.{ℕ, ◌+◌, ◌/◌, Result, ok, ◌>>=◌, ok_or}
use bauth.Base.Text.{Text}
use bauth.Base.Time.{minutes}
use bauth.Clients.{Client, audience}
use bauth.Server.{Server, Env, AccessTokenClaims, signing_key}

abbrev pub access_token_ttl : ℕ
access_token_ttl = minutes 15

pub data IssueError : Type 0 where
  no_signing_key jwt : IssueError

pub record IssuedAccessToken : Type 0 where
  pub token : Text
  pub expires_in : ℕ

-- `DateTime::timestamp`: whole seconds.
abbrev pub timestamp : ℕ → ℕ
timestamp at = at / 1_000_000

unfoldable pub claims_of : Server → Env → ℕ → ℕ → Client → AccessTokenClaims
unfolding audience
claims_of server env user_id session_id client = record {
  iss = server.issuer;
  sub = user_id;
  aud = audience client;
  client_id = client.id;
  sid = session_id;
  iat = timestamp env.now;
  exp = timestamp (env.now + access_token_ttl);
  jti = env.jti;
}

unfoldable pub issue : Server → Env → ℕ → ℕ → Client → Result IssueError IssuedAccessToken
unfolding signing_key claims_of
issue server env user_id session_id client = do
  key ← ok_or (signing_key server.signing_keys env.now) no_signing_key
  token ←
      ok_or
        (server.encode key.kid (claims_of server env user_id session_id client) key.encoding_key)
        jwt
  ok (record { token = token; expires_in = timestamp access_token_ttl })
