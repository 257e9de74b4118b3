-- ===== src/SigningKeys.antt =====
-- bauth_server/src/signing_keys.rs: loading the key set, and the rotation of keys.
pub mod Rotation
pub mod Loaded
pub mod Verifiable
use bauth.Base.{
  ℕ, ◌+◌, ◌-◌, Bool, true, false, not, ◌||◌, ◌++◌, ◌∷◌, [], List, map, length, Option, none, some,
  Result, ok, err, ◌>>=◌, ◌>>◌, guard, ok_or, map_err, leb, ltb, ◌==◌, is_none, is_some,
  if◌then◌else◌,
}
use bauth.Base.Text.{Text, text, bytes}
use bauth.Base.Time.{days, hours}
use bauth.Base.Table.{find, select, exists}
use bauth.Crypto.{Crypto}
use bauth.Schema.{Db, SigningKeyRow, SqlError}
use bauth.Server.{LoadedKey, SigningKeys, Jwk, not_retired, signing_key}
use bauth.Queries.SigningKeys.{insert_key, list_published, retire_all_except}

abbrev pub rotation_interval : ℕ
rotation_interval = days 30

abbrev pub prepublication : ℕ
prepublication = hours 24

abbrev pub retired_key_grace : ℕ
retired_key_grace = hours 24

abbrev pub seed_len : ℕ
seed_len = 32

abbrev pub ed25519_pkcs8_prefix : List ℕ
ed25519_pkcs8_prefix =
    0x30 ∷ 0x2e ∷ 0x02 ∷ 0x01 ∷ 0x00 ∷ 0x30 ∷ 0x05 ∷ 0x06 ∷ 0x03 ∷ 0x2b ∷ 0x65 ∷ 0x70 ∷ 0x04 ∷ 0x22
    ∷ 0x04 ∷ 0x20 ∷ []

pub data SigningKeyError : Type 0 where
  database : SqlError → SigningKeyError
  decrypt_error invalid_key : ℕ → SigningKeyError

-- `MasterKey::decrypt`, whose error is `none`, and how a UUID is printed.
pub record MasterKey : Type 0 where
  pub decrypt : List ℕ → List ℕ → Option (List ℕ)
  pub print_uuid : ℕ → Text

-- What `generate` makes from the random generator, with its seed encrypted.
pub record GeneratedKey : Type 0 where
  pub kid : ℕ
  pub public_key : List ℕ
  pub encrypted_private_key : List ℕ

unfoldable pub encoding_key : List ℕ → List ℕ
encoding_key seed = ed25519_pkcs8_prefix ++ seed

module _ (x : Crypto) (master_key : MasterKey) where
  unfoldable pub context : ℕ → List ℕ
  context kid = bytes (text "signing_key:" ++ master_key.print_uuid kid)

  abbrev pub jwk : ℕ → List ℕ → Jwk
  jwk kid public_key = record { key_id = kid; x = x.base64url public_key }

  unfoldable pub load_key : SigningKeyRow → Result SigningKeyError LoadedKey
  unfolding encoding_key context
  load_key row = do
    seed ←
        ok_or (master_key.decrypt row.encrypted_private_key (context row.id)) (decrypt_error row.id)
    guard (length seed == seed_len) (invalid_key row.id)
    ok (record {
      kid = row.id;
      encoding_key = encoding_key seed;
      active_at = row.active_at;
      retired_at = row.retired_at;
    })

  unfoldable pub load_keys : List SigningKeyRow → Result SigningKeyError (List LoadedKey)
  unfolding load_key
  load_keys [] = ok []
  load_keys (row ∷ rows) = do key ← load_key row; keys ← load_keys rows; ok (key ∷ keys)

  unfoldable pub load : ℕ → Db → Result SigningKeyError SigningKeys
  unfolding load_keys
  load now db = do
    let rows = list_published now retired_key_grace db
    keys ← load_keys (select (λ row. not_retired row.retired_at now) rows)
    ok (record { keys = keys; jwks = map (λ row. jwk row.id row.public_key) rows })

  -- The end of `ensure_and_load`: a key that signs right away.
  unfoldable pub create_now : ℕ → GeneratedKey → Db → Result SigningKeyError (SigningKeys × Db)
  unfolding load
  create_now now key db = do
    db' ← map_err database (insert_key key.kid key.public_key key.encrypted_private_key now db)
    keys ← load now db'
    ok (keys, db')

  unfoldable pub ensure_and_load : ℕ → GeneratedKey → Db → Result SigningKeyError (SigningKeys × Db)
  unfolding load create_now
  ensure_and_load now key db = do
    keys ← load now db
    elim (signing_key keys now) [ some k ↦ ok (keys, db) | none ↦ create_now now key db ]

-- A row that may sign at the time.
abbrev pub signs : ℕ → SigningKeyRow → Bool
signs now row = if leb row.active_at now then not_retired row.retired_at now else false

-- `current.is_none_or(|key| now - key.active_at >= ROTATION_INTERVAL)`.
abbrev pub is_due : ℕ → Option SigningKeyRow → Bool
is_due now none = true
is_due now (some row) = leb rotation_interval (now - row.active_at)

-- `locked` is the answer of the advisory lock.
unfoldable pub rotate_if_due : Bool → ℕ → GeneratedKey → Db → Result SigningKeyError (Option ℕ × Db)
rotate_if_due false now key db = ok (none, db)
rotate_if_due true now key db =
    let rows = list_published now retired_key_grace db in
    if exists (λ row. ltb now row.active_at) rows || not (is_due now (find (signs now) rows))
    then ok (none, db)
    else (do
      db' ←
          map_err database
            (insert_key key.kid key.public_key key.encrypted_private_key (now + prepublication) db)
      ok (some key.kid, retire_all_except key.kid (now + prepublication) db'))
