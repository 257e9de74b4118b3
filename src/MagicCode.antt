-- ===== src/MagicCode.antt =====
-- bauth_server/src/magic_code.rs: the 6-digit codes of emails, their keyed hash and their check;
-- and the integer that they are drawn from.
pub mod Random
pub mod Digits
pub mod Laws
use bauth.Base.{
  ℕ, zero, suc, ◌+◌, ◌-◌, ◌*◌, ◌/◌, ◌%◌, ◌^◌, Bool, ◌&&◌, List, [], ◌∷◌, ◌++◌, Option, none, some,
  all, leb, ◌==◌, ◌=?◌, if◌then◌else◌, Result, ok, err,
}
use bauth.Base.Text.{Text, bytes, len, text, is_ascii_digit}
use bauth.Base.Time.{minutes}
use bauth.Crypto.{Crypto}
use bauth.Errors.{ApiError, invalid_request}

abbrev pub code_range : ℕ
code_range = 1_000_000

abbrev pub code_ttl : ℕ
code_ttl = minutes 15

abbrev pub max_failures_per_code : ℕ
max_failures_per_code = 5

abbrev pub max_failures_per_day : ℕ
max_failures_per_day = 10

-- `u32::MAX`.
abbrev pub u32_max : ℕ
u32_max = 4294967295

-- Four bytes of the operating system's generator.
abbrev pub Draw : Type 0
Draw = ℕ × ℕ × ℕ × ℕ

-- `u32::from_le_bytes`.
abbrev pub from_le_bytes : Draw → ℕ
from_le_bytes (a, b, c, d) = a + 2 ^ 8 * b + 2 ^ 16 * c + 2 ^ 24 * d

unfoldable pub zone : ℕ → ℕ
zone range = u32_max - (u32_max - range + 1) % range

-- The loop of `random_below`, over what the generator gives; `none` when that has run out.
unfoldable pub random_below : ℕ → List Draw → Option ℕ
unfolding zone
random_below range [] = none
random_below range (bytes ∷ draws) =
    let value = from_le_bytes bytes in
    let again = random_below range draws in
    if leb value (zone range) then some (value % range) else again

-- The decimal digits of a number, none for 0; the number itself is fuel enough.
unfoldable pub digits : ℕ → ℕ → Text
digits zero n = []
digits (suc fuel) n =
    let rest = digits fuel (n / 10) in if n == 0 then [] else rest ++ (b'0' + n % 10) ∷ []

-- What `{:0width}` prints: zeros in front of a shorter number, all digits of a longer one.
unfoldable pub zero_padded : ℕ → ℕ → Text
unfolding digits
zero_padded zero n = digits n n
zero_padded (suc width) n = zero_padded width (n / 10) ++ (b'0' + n % 10) ∷ []

-- `Uuid::as_bytes`: 16 bytes, the most significant first.
unfoldable pub be_bytes : ℕ → ℕ → List ℕ
be_bytes zero n = []
be_bytes (suc width) n = be_bytes width (n / 256) ++ (n % 256) ∷ []

unfoldable pub message : ℕ → Text → List ℕ
unfolding be_bytes
message owner code = be_bytes 16 owner ++ bytes code

unfoldable pub is_well_formed : Text → Bool
is_well_formed code = (len code == 6) && all is_ascii_digit (bytes code)

unfoldable pub check_format : Text → Result ApiError (Unit {0})
unfolding is_well_formed
check_format code =
    if is_well_formed code then ok tt else err (invalid_request (text "code must be 6 digits"))

pub record MagicCode : Type 0 where
  pub plain : Text
  pub hash : List ℕ

module _ (x : Crypto) where
  -- `CodeKey::generate`, from the number that `random_below` returned.
  unfoldable pub generate : List ℕ → ℕ → ℕ → MagicCode
  unfolding zero_padded message
  generate key owner number = record {
    plain = zero_padded 6 number;
    hash = x.hmac_sha256 key (message owner (zero_padded 6 number));
  }

  -- `CodeKey::verify`.
  unfoldable pub verify : List ℕ → ℕ → Text → List ℕ → Bool
  unfolding message
  verify key owner code hash = x.hmac_sha256 key (message owner code) =? hash

-- `MasterKey::derive` and `CodeKeys::new`: one key per purpose.
pub record CodeKeys : Type 0 where
  pub magic_link : List ℕ
  pub confirmation : List ℕ

unfoldable pub code_keys : Crypto → List ℕ → CodeKeys
code_keys x master = record {
  magic_link = x.hmac_sha256 master (bytes (text "bauth/magic_code"));
  confirmation = x.hmac_sha256 master (bytes (text "bauth/confirmation_code"));
}
