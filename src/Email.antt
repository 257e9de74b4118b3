-- ===== src/Email.antt =====
-- bauth_server/src/email.rs: the shape of an address. Texts are their characters here.
pub mod Parts
pub mod Laws
use bauth.Base.{
  ℕ, Bool, true, false, not, ◌&&◌, ◌||◌, [], ◌∷◌, Option, none, some, any, leb, ltb, ◌==◌,
  if◌then◌else◌,
}
use bauth.Base.Text.{Text, len, trim_matches}
use bauth.Base.Text.Words.{is_whitespace, split_once, is_empty}

abbrev pub max_len : ℕ
max_len = 254

-- `char::is_control`: the Unicode category Cc.
unfoldable pub is_control : ℕ → Bool
is_control c = ltb c 32 || (leb 0x7F c && leb c 0x9F)

abbrev pub contains : ℕ → Text → Bool
contains sep s = any (λ c. c == sep) s

abbrev pub starts_with : ℕ → Text → Bool
starts_with sep [] = false
starts_with sep (c ∷ s) = c == sep

abbrev pub ends_with : ℕ → Text → Bool
ends_with sep [] = false
ends_with sep (c ∷ []) = c == sep
ends_with sep (c ∷ d ∷ s) = ends_with sep (d ∷ s)

abbrev pub is_domain : Text → Bool
is_domain domain =
    not (contains b'@' domain)
    && (contains b'.' domain && (not (starts_with b'.' domain) && not (ends_with b'.' domain)))

abbrev pub is_address : Option (Text × Text) → Bool
is_address none = false
is_address (some (local, domain)) = not (is_empty local) && is_domain domain

unfoldable pub is_valid : Text → Bool
unfolding trim_matches is_whitespace is_control split_once
is_valid email =
    let trimmed = trim_matches b' ' email in
    leb (len trimmed) max_len
    && (not (any (λ c. is_whitespace c || is_control c) trimmed)
        && is_address (split_once b'@' trimmed))
