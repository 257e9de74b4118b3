-- ===== src/Base/Text/Ascii.antt =====
-- Texts whose bytes all pass an ASCII test are their own bytes.
use Prim.Native.Nat.{ℕ, ◌+◌, ◌/◌, ◌<◌}
use mathlib.Core.Path.{◌≡◌, refl}
use mathlib.Core.Bool.{Bool, true}
use mathlib.Core.List.{[], ◌∷◌}
use native.Mathlib.Omega.{arith}
use bauth.Base.Lists.{all}
use bauth.Base.Text.{Text, bytes}

module _ (p : ℕ → Bool) (ascii : (b : ℕ) → p b ≡ true → b < 128) where
  pub bytes_ascii : (s : Text) → all p (bytes s) ≡ true → bytes s ≡ s
  unfolding bytes
  bytes_ascii [] h = refl
  bytes_ascii (c ∷ s) h = ground (
    arith,
    bytes_ascii s,
    ascii (0xC0 + c / 64),
    ascii (0xE0 + c / 4096),
    ascii (0xF0 + c / 262144),
  )

  -- The other way: a text of such characters has them for bytes.
  pub ascii_bytes : (s : Text) → all p s ≡ true → bytes s ≡ s
  unfolding bytes
  ascii_bytes [] h = refl
  ascii_bytes (c ∷ s) h = ground (arith, ascii_bytes s, ascii c)
