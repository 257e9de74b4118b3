-- ===== src/MasterKey.antt =====
-- bauth_server/src/master_key.rs, and the keys that bauth_server/src/signing_keys.rs generates and
-- seals with it. The crates chacha20poly1305 and base64 are parameters.
pub mod Sealed
use bauth.Base.{
  ℕ, Bool, List, ◌++◌, Option, none, some, Result, ok, err, ◌>>=◌, ◌>>◌, guard, ok_or, length, take,
  drop, ltb, not, ◌==◌,
}
use bauth.Base.Text.{Text, text, bytes}
use bauth.Base.Text.Words.{trim}
use bauth.Crypto.{Crypto}
use bauth.SigningKeys
use bauth.SigningKeys.{GeneratedKey, context}

abbrev pub key_len : ℕ
key_len = 32

abbrev pub nonce_len : ℕ
nonce_len = 24

-- XChaCha20-Poly1305, by key, nonce and context, and `STANDARD.decode`.
pub record Cipher : Type 0 where
  pub encrypt : (key nonce context plaintext : List ℕ) → List ℕ
  pub decrypt : (key nonce context ciphertext : List ℕ) → Option (List ℕ)
  pub decode : Text → Option (List ℕ)

pub data MasterKeyError : Type 0 where
  invalid_key decrypt_error : MasterKeyError

pub record MasterKey : Type 0 where
  pub cipher : List ℕ
  pub derivation : List ℕ

unfoldable pub derive : Crypto → MasterKey → Text → List ℕ
derive x key purpose = x.hmac_sha256 key.derivation (bytes (text "bauth/" ++ purpose))

module _ (c : Cipher) where
  unfoldable pub from_base64 : Text → Result MasterKeyError MasterKey
  from_base64 encoded = do
    key ← ok_or (c.decode (trim encoded)) invalid_key
    guard (length key == key_len) invalid_key
    ok (record { cipher = key; derivation = key })

  -- With the nonce that the random generator gave.
  unfoldable pub encrypt : MasterKey → (nonce plaintext context : List ℕ) → List ℕ
  encrypt key nonce plaintext context = nonce ++ c.encrypt key.cipher nonce context plaintext

  unfoldable pub decrypt : MasterKey → (sealed context : List ℕ) → Result MasterKeyError (List ℕ)
  decrypt key sealed context = do
    guard (not (ltb (length sealed) nonce_len)) decrypt_error
    ok_or (c.decrypt key.cipher (take nonce_len sealed) context (drop nonce_len sealed))
        decrypt_error

  -- What loading the key set needs of the master key, whose only error is `Decrypt`.
  abbrev pub opened : Result MasterKeyError (List ℕ) → Option (List ℕ)
  opened (ok plaintext) = some plaintext
  opened (err e) = none

  unfoldable pub opener : (ℕ → Text) → MasterKey → SigningKeys.MasterKey
  unfolding decrypt
  opener print_uuid key = record {
    decrypt = λ sealed context. opened (decrypt key sealed context);
    print_uuid = print_uuid;
  }

  -- `generate` of signing keys: `public_key` is that of aws-lc-rs for a seed.
  unfoldable pub generate :
      Crypto
      → (ℕ → Text)
      → (List ℕ → List ℕ)
      → MasterKey
      → (kid : ℕ) → (seed nonce : List ℕ) → GeneratedKey
  unfolding encrypt opener
  generate x print_uuid public_key key kid seed nonce = record {
    kid = kid;
    public_key = public_key seed;
    encrypted_private_key = encrypt key nonce seed (context x (opener print_uuid key) kid);
  }
