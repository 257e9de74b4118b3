-- ===== src/MasterKey/Sealed.antt =====
-- A signing key that was sealed, and is loaded from its row: bauth_server/src/signing_keys.rs with
-- bauth_server/src/master_key.rs.
use bauth.Base.{
  ℕ, zero, suc, ◌≡◌, ◌≢◌, refl, inl, inr, false, List, [], ◌∷◌, ◌++◌, Option, none, some, ok, err,
  ok_or, length, take, drop, ltb, ◌==◌, if◌then◌else◌, Bool-cases, length-append, arith, ap, ◌∙◌,
}
use bauth.Base.Text.{Text, bytes}
use bauth.Crypto.{Crypto}
use bauth.MasterKey.{
  Cipher, MasterKey, nonce_len, encrypt, decrypt, opened, opener, generate, decrypt_error,
}
use bauth.Schema.{SigningKeyRow}
use bauth.SigningKeys
use bauth.SigningKeys.{SigningKeyError, load_key, context, encoding_key, seed_len}

-- Authenticated encryption with associated data.
pub record IsAead (c : Cipher) : Type 0 where
  pub opens :
      (key nonce context plaintext : List ℕ)
      → c.decrypt key nonce context (c.encrypt key nonce context plaintext) ≡ some plaintext
  pub refuses :
      (key nonce context other plaintext : List ℕ)
      → context ≢ other
      → c.decrypt key nonce other (c.encrypt key nonce context plaintext) ≡ none

pub take-append : (n : ℕ) (xs ys : List ℕ) → length xs ≡ n → take n (xs ++ ys) ≡ xs
take-append zero [] ys e = refl
take-append zero (x ∷ xs) ys e = absurd (omega arith)
take-append (suc n) [] ys e = absurd (omega arith)
take-append (suc n) (x ∷ xs) ys e = ap (λ zs. x ∷ zs) (take-append n xs ys (omega arith))

pub drop-append : (n : ℕ) (xs ys : List ℕ) → length xs ≡ n → drop n (xs ++ ys) ≡ ys
drop-append zero [] ys e = refl
drop-append zero (x ∷ xs) ys e = absurd (omega arith)
drop-append (suc n) [] ys e = absurd (omega arith)
drop-append (suc n) (x ∷ xs) ys e = drop-append n xs ys (omega arith)

opened-ok_or : (c : Cipher) (o : Option (List ℕ)) → opened c (ok_or o decrypt_error) ≡ o
opened-ok_or c none = refl
opened-ok_or c (some plaintext) = refl

module _ (c : Cipher) (key : MasterKey) (nonce : List ℕ) (sized : length nonce ≡ nonce_len) where
  -- What is sealed reaches the cipher as it was.
  decrypt-encrypt :
      (plaintext context other : List ℕ)
      → opened c (decrypt c key (encrypt c key nonce plaintext context) other)
        ≡ c.decrypt key.cipher nonce other (c.encrypt key.cipher nonce context plaintext)
  unfolding decrypt encrypt
  decrypt-encrypt plaintext context other =
      let sealed = c.encrypt key.cipher nonce context plaintext in
      let long : ltb (length (nonce ++ sealed)) nonce_len ≡ false =
        ground (arith, length-append nonce sealed, sized) in
      rw (long, take-append nonce_len nonce sealed sized, drop-append nonce_len nonce sealed sized)
        (opened-ok_or c (c.decrypt key.cipher nonce other sealed))

-- The ids of keys are printed differently.
pub record IsPrinted (print_uuid : ℕ → Text) : Type 0 where
  pub distinct : (a b : ℕ) → bytes (print_uuid a) ≡ bytes (print_uuid b) → a ≡ b

module _ (c : Cipher) (aead : IsAead c) (x : Crypto) (print_uuid : ℕ → Text)
    (printed : IsPrinted print_uuid) (public_key : List ℕ → List ℕ) (key : MasterKey) where
  context_distinct :
      (a b : ℕ)
      → context x (opener c print_uuid key) a ≡ context x (opener c print_uuid key) b
      → a ≡ b
  unfolding context opener bytes
  context_distinct a b e = printed.distinct a b (ap (drop 12) e)

  -- For a cipher that gives back what it sealed and refuses another context, and ids that are
  -- printed differently: the private key that was generated for an id, with a seed of 32 bytes
  -- and a nonce of 24, is loaded from a row with this id as the signing key of its seed, with
  -- the dates of the row, and in the row of any other id is refused as one that does not
  -- decrypt.
  pub generate-load_key :
      (kid : ℕ) (seed nonce : List ℕ) (row : SigningKeyRow)
      → length seed ≡ seed_len
      → length nonce ≡ nonce_len
      → row.encrypted_private_key
        ≡ (generate c x print_uuid public_key key kid seed nonce).encrypted_private_key
      → load_key x (opener c print_uuid key) row ≡ (
          if row.id == kid
          then ok (record {
            kid = kid;
            encoding_key = encoding_key seed;
            active_at = row.active_at;
            retired_at = row.retired_at;
          })
          else err (SigningKeys.decrypt_error row.id))
  unfolding load_key generate opener
  generate-load_key kid seed nonce row whole sized same =
      let ctx = context x (opener c print_uuid key) in
      let read = decrypt-encrypt c key nonce sized seed (ctx kid) (ctx row.id) in
      elim (Bool-cases (row.id == kid)) [
        | inl t ↦
            let here : row.id ≡ kid = ground arith in
            let opens : c.decrypt key.cipher nonce (ctx row.id)
                  (c.encrypt key.cipher nonce (ctx kid) seed)
                ≡ some seed =
              ap
                (λ k.
                  c.decrypt key.cipher nonce (ctx k) (c.encrypt key.cipher nonce (ctx kid) seed))
                here
              ∙ aead.opens key.cipher nonce (ctx kid) seed in
            rw (same, t)
              (rw (read ∙ opens) (
                rw whole (
                  ap
                    (λ k. ok (record {
                      kid = k;
                      encoding_key = encoding_key seed;
                      active_at = row.active_at;
                      retired_at = row.retired_at;
                    }))
                    here)))
        | inr f ↦
            let away : ctx kid ≢ ctx row.id =
              λ e. (let eq = context_distinct kid row.id e in ground (arith, eq)) in
            rw (same, f)
              (rw (read ∙ aead.refuses key.cipher nonce (ctx kid) (ctx row.id) seed away) refl)
      ]
