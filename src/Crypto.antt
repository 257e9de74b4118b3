-- ===== src/Crypto.antt =====
-- The third-party functions that the server calls, as a parameter: sha2, base64 and aws-lc-rs.
-- Cargo.toml names them; none is in the repository.
use bauth.Base.{ℕ, List}
use bauth.Base.Text.{Text}

pub record Crypto : Type 0 where
  -- `Sha256::digest(bytes).to_vec()`.
  pub sha256 : List ℕ → List ℕ
  -- `URL_SAFE_NO_PAD.encode(bytes)`.
  pub base64url : List ℕ → Text
  -- `hmac::sign(&hmac::Key::new(HMAC_SHA256, key), message)`.
  pub hmac_sha256 : List ℕ → List ℕ → List ℕ
