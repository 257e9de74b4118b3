-- ===== src/Token.antt =====
-- bauth_server/src/token.rs: secrets that are sent to users and stored as a hash.
use bauth.Base.{ℕ, List}
use bauth.Base.Text.{Text, bytes}
use bauth.Crypto.{Crypto}

pub record SecretToken : Type 0 where
  pub plain : Text
  pub hash : List ℕ

module _ (x : Crypto) where
  unfoldable pub hash : Text → List ℕ
  hash plain = x.sha256 (bytes plain)

  -- From the bytes that the random generator gave.
  unfoldable pub generate : List ℕ → SecretToken
  unfolding hash
  generate random = let plain = x.base64url random in record { plain = plain; hash = hash plain }
