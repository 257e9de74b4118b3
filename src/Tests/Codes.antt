-- ===== src/Tests/Codes.antt =====
-- Code verifiers and emailed codes on the fixtures.
use bauth.Base.{
  ℕ, ◌*◌, ◌+◌, ◌<◌, ◌≤◌, ◌≡◌, refl, ◌↔◌, ◌⊎◌, map, All, ok, true, all, any, leb, length, List, [],
  ◌∷◌, some, arith, ◌=?◌,
}
use bauth.Base.Text.{text, trim_matches}
use bauth.Email
use bauth.Email.Laws.{IsAddress}
use bauth.Errors.{retry_after_seconds}
use bauth.MagicCode
use bauth.MagicCode.{Draw, from_le_bytes, random_below, zone, u32_max, is_well_formed, check_format}
use bauth.MagicCode.Digits.{u128, decimal}
use bauth.Pkce
use bauth.Pkce.{is_valid_challenge}
use bauth.Pkce.Laws.{IsVerifier, challenge_of, sextet}
use bauth.Tests.Fixtures.{plain_crypto, verifier}

verify_iff_example :
    (Pkce.verify plain_crypto verifier verifier ≡ true)
    ↔ (IsVerifier verifier × (challenge_of plain_crypto verifier ≡ verifier))
verify_iff_example = bauth.Pkce.Laws.verify_iff plain_crypto verifier verifier

is_valid_challenge_iff_example :
    (is_valid_challenge verifier ≡ true)
    ↔ ((ns : List ℕ) × (length ns ≡ 43) × All (λ n. n < 64) ns × (verifier ≡ map sextet ns))
is_valid_challenge_iff_example = bauth.Pkce.Laws.is_valid_challenge_iff verifier

-- The first value is beyond the zone of a million, the second is 7.
abbrev draws : List Draw
draws = (255, 255, 255, 255) ∷ (7, 0, 0, 0) ∷ []

zone_hit : any (λ d. leb (from_le_bytes d) (zone 1_000_000)) draws ≡ true
unfolding zone
zone_hit = refl

random_below_total_example : (r : ℕ) × (random_below 1_000_000 draws ≡ some r) × (r < 1_000_000)
random_below_total_example =
    bauth.MagicCode.Random.random_below_total 1_000_000 draws (omega arith) zone_hit

random_below_uniform_example :
    (copies : ℕ) × (u32_max + 1 < 2 * (copies * 1_000_000))
    × (copies * 1_000_000 ≤ u32_max + 1)
    × ((d : Draw) (ds : List Draw) (r : ℕ)
        → (random_below 1_000_000 (d ∷ ds) ≡ some r) ↔ (
            ((k : ℕ) × (k < copies) × (r < 1_000_000) × (from_le_bytes d ≡ k * 1_000_000 + r))
            ⊎ ((copies * 1_000_000 ≤ from_le_bytes d) × (random_below 1_000_000 ds ≡ some r))))
random_below_uniform_example =
    bauth.MagicCode.Random.random_below_uniform 1_000_000 (omega arith) (omega arith)

drawn : random_below 1_000_000 draws ≡ some 7
unfolding random_below
drawn = refl

generate-random_below_example :
    (check_format (MagicCode.generate plain_crypto [] 10 7).plain ≡ ok tt)
    × (length (MagicCode.generate plain_crypto [] 10 7).plain ≡ 6)
    × (decimal 0 (MagicCode.generate plain_crypto [] 10 7).plain ≡ 7)
generate-random_below_example =
    bauth.MagicCode.Laws.generate-random_below plain_crypto [] 10 draws drawn

-- A number of seven digits is printed whole.
seven_digits : (MagicCode.generate plain_crypto [] 10 1_234_567).plain ≡ text "1234567"
unfolding MagicCode.generate
seven_digits = refl

abbrev ten : ℕ
ten = 10

abbrev eleven : ℕ
eleven = 11

small_ten : 10 < u128
small_ten = omega arith

small_eleven : 11 < u128
small_eleven = omega arith

six_digits : is_well_formed (text "000043") ≡ true
unfolding is_well_formed bauth.Base.Text.bytes
six_digits = refl

verify-generate_iff_example :
    (MagicCode.verify plain_crypto [] 11
        (text "000043")
        (MagicCode.generate plain_crypto [] 10 42).hash
      ≡ true)
    ↔ ((eleven ≡ ten) × (text "000043" ≡ (MagicCode.generate plain_crypto [] 10 42).plain))
verify-generate_iff_example =
    bauth.MagicCode.Laws.verify-generate_iff plain_crypto [] (λ a b e. e) ten eleven 42
      (text "000043") small_ten small_eleven six_digits

is_valid_iff_example :
    (Email.is_valid (text " a@b.c ") ≡ true) ↔ IsAddress (trim_matches b' ' (text " a@b.c "))
is_valid_iff_example = bauth.Email.Laws.is_valid_iff (text " a@b.c ")

abbrev two : ℕ
two = 2

retry_after_seconds_lem_example :
    (retry_after_seconds 1_500_000_000 ≤ two) ↔ (1_500_000_000 ≤ two * 1_000_000_000)
retry_after_seconds_lem_example = bauth.Errors.Laws.retry_after_seconds_lem 1_500_000_000 two
