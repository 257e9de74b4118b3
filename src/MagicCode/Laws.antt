-- ===== src/MagicCode/Laws.antt =====
-- What an emailed code of bauth_server/src/magic_code.rs opens.
use bauth.Base.{
  ℕ, ◌≡◌, ◌<◌, ◌↔◌, sym, ◌∙◌, true, List, =?_sound, =?_refl, some, ok, refl, length, arith,
}
use bauth.Base.Text.{Text}
use bauth.Crypto.{Crypto}
use bauth.MagicCode.Random.{random_below-lt}
use bauth.MagicCode.{
  code_range, Draw, random_below, check_format, message, is_well_formed, zero_padded, generate,
  verify,
}
use bauth.MagicCode.Digits.{
  u128, bytes-is_well_formed, is_well_formed-zero_padded, bytes-zero_padded, message-injective,
  decimal, decimal-zero_padded, length-zero_padded,
}

module _ (x : Crypto) (key : List ℕ) where
  -- The code that is generated from a number that the loop drew passes the check of the format
  -- of typed codes, has six characters, and reads as that number in decimal.
  pub generate-random_below :
      (owner : ℕ) (draws : List Draw) {number : ℕ}
      → random_below code_range draws ≡ some number
      → (check_format (generate x key owner number).plain ≡ ok tt)
        × (length (generate x key owner number).plain ≡ 6)
        × (decimal 0 (generate x key owner number).plain ≡ number)
  unfolding generate check_format
  generate-random_below owner draws {number} drawn =
      let below = random_below-lt code_range draws (omega arith) drawn in
      (
        rw (is_well_formed-zero_padded number below) refl,
        length-zero_padded 6 number below,
        decimal-zero_padded 6 number,
      )

  -- If the keyed hash has no collision, a well-formed code opens what was generated for an owner
  -- exactly when the owner and the code are those of the generation. Owners are 128-bit ids.
  pub verify-generate_iff :
      ((a b : List ℕ) → x.hmac_sha256 key a ≡ x.hmac_sha256 key b → a ≡ b)
      → (owner owner' number : ℕ) (code : Text) → owner < u128
      → owner' < u128
      → is_well_formed code ≡ true
      → (verify x key owner' code (generate x key owner number).hash ≡ true)
        ↔ ((owner' ≡ owner) × (code ≡ (generate x key owner number).plain))
  unfolding generate verify
  verify-generate_iff inj o o' n c ho ho' w = (to, from)
    where
      plain : Text
      plain = zero_padded 6 n

      to : verify x key o' c (generate x key o n).hash ≡ true → (o' ≡ o) × (c ≡ plain)
      to h =
          let same = inj (message o' c) (message o plain) (=?_sound _ _ h) in
          let (owners, codes) = message-injective o' o c plain ho' ho same in
          (owners, sym (bytes-is_well_formed c w) ∙ codes ∙ bytes-zero_padded 6 n)

      from : (o' ≡ o) × (c ≡ plain) → verify x key o' c (generate x key o n).hash ≡ true
      from (e, d) = rw (e, d) (=?_refl _)
