-- ===== src/Base/Text.antt =====
-- Rust's `&str` as the list of its Unicode scalar values, with the UTF-8 bytes that `bytes` and
-- `len` see, and the string methods that the code calls.
pub mod Ascii
pub mod Words
use Prim.Native.Char.{code}
use Prim.Native.String.{String}
use Prim.Native.Nat.{ℕ, ◌+◌, ◌/◌, ◌%◌}
use mathlib.Core.Bool.{Bool, true, false}
use mathlib.Core.List.{List, [], ◌∷◌, ◌++◌, reverse}
use bauth.Base.Tests.{ltb, leb, ◌==◌, if◌then◌else◌}
use bauth.Base.Lists.{length}

abbrev pub Text : Type 0
Text = List ℕ

-- The scalar values of a literal.
abbrev pub text : String → Text
text String.[] = []
text (String.◌∷◌ c s) = code c ∷ text s

-- The UTF-8 encoding of one scalar value.
unfoldable pub utf8 : ℕ → List ℕ
utf8 c =
    if ltb c 0x80
    then c ∷ []
    else if ltb c 0x800
    then (0xC0 + c / 64) ∷ (0x80 + c % 64) ∷ []
    else if ltb c 0x10000
    then (0xE0 + c / 4096) ∷ (0x80 + c / 64 % 64) ∷ (0x80 + c % 64) ∷ []
    else (0xF0 + c / 262144) ∷ (0x80 + c / 4096 % 64) ∷ (0x80 + c / 64 % 64) ∷ (0x80 + c % 64) ∷ []

-- `str::as_bytes`.
unfoldable pub bytes : Text → List ℕ
unfolding utf8
bytes [] = []
bytes (c ∷ s) = utf8 c ++ bytes s

-- `str::len` counts bytes.
abbrev pub len : Text → ℕ
len s = length (bytes s)

unfoldable pub trim_start : ℕ → Text → Text
trim_start sep [] = []
trim_start sep (c ∷ s) = let rest = trim_start sep s in if c == sep then rest else c ∷ s

-- `trim_matches(c)`: also what SQL's `btrim` does at a space.
unfoldable pub trim_matches : ℕ → Text → Text
unfolding trim_start
trim_matches sep s = reverse (trim_start sep (reverse (trim_start sep s)))

-- Bytes that are ASCII digits, and those that are ASCII letters or digits.
abbrev pub is_ascii_digit : ℕ → Bool
is_ascii_digit b = if ltb b b'0' then false else leb b b'9'

abbrev pub is_ascii_lowercase : ℕ → Bool
is_ascii_lowercase b = if ltb b b'a' then false else leb b b'z'

abbrev pub is_ascii_uppercase : ℕ → Bool
is_ascii_uppercase b = if ltb b b'A' then false else leb b b'Z'

abbrev pub is_ascii_alphanumeric : ℕ → Bool
is_ascii_alphanumeric b =
    if is_ascii_digit b then true else if is_ascii_lowercase b then true else is_ascii_uppercase b
