-- ===== src/Pkce.antt =====
-- bauth_server/src/pkce.rs: the shape of a code challenge and the check of a code verifier.
pub mod Laws
use bauth.Base.{ℕ, Bool, true, false, ◌&&◌, ◌||◌, all, leb, ◌==◌, ◌=?◌, if◌then◌else◌}
use bauth.Base.Text.{Text, bytes, len, is_ascii_alphanumeric}
use bauth.Crypto.{Crypto}

abbrev pub s256_challenge_len : ℕ
s256_challenge_len = 43

-- The bytes that `is_base64url` accepts.
abbrev pub is_base64url_byte : ℕ → Bool
is_base64url_byte b = is_ascii_alphanumeric b || (b == b'-' || b == b'_')

unfoldable pub is_base64url : Text → Bool
is_base64url s = all is_base64url_byte (bytes s)

unfoldable pub is_valid_challenge : Text → Bool
unfolding is_base64url
is_valid_challenge challenge = (len challenge == s256_challenge_len) && is_base64url challenge

-- The bytes that `is_valid_verifier` accepts.
abbrev pub is_unreserved_byte : ℕ → Bool
is_unreserved_byte b =
    is_ascii_alphanumeric b || ((b == b'-' || b == b'.') || (b == b'_' || b == b'~'))

unfoldable pub is_valid_verifier : Text → Bool
is_valid_verifier verifier =
    (leb 43 (len verifier) && leb (len verifier) 128) && all is_unreserved_byte (bytes verifier)

module _ (x : Crypto) where
  unfoldable pub verify : Text → Text → Bool
  unfolding is_valid_verifier
  verify verifier challenge =
      is_valid_verifier verifier && (x.base64url (x.sha256 (bytes verifier)) =? challenge)
