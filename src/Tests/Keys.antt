-- ===== src/Tests/Keys.antt =====
-- A signing key, its rotation after a month, and the key sets loaded.
use bauth.Base.{
  ℕ, ◌+◌, ◌≤◌, ◌≡◌, refl, Bool, true, false, All, List, [], ◌∷◌, ◌++◌, Option, none, some, Result,
  ok, ◌==◌, ◌&&◌, is_some, arith,
}
use bauth.Base.Table.{exists}
use bauth.Base.Text.{text}
use bauth.Base.Time.{days, minutes}
use bauth.Schema.{Db, SigningKeyRow}
use bauth.Server.{SigningKeys, signing_key}
use bauth.SigningKeys.{
  MasterKey, GeneratedKey, ed25519_pkcs8_prefix, encoding_key, load, ensure_and_load, signs,
}
use bauth.Queries.SigningKeys.{list_published, newest_first}
use bauth.SigningKeys.Loaded
use bauth.SigningKeys.Rotation
use bauth.SigningKeys.Rotation.{Attempt, rotations, signs_as}
use bauth.SigningKeys.Verifiable
use bauth.Tests.Fixtures.{plain_crypto, db}

abbrev plain_master_key : MasterKey
plain_master_key = record {
  decrypt = λ encrypted context. some encrypted;
  print_uuid = λ id. id ∷ [];
}

abbrev seed : List ℕ
seed = text "0123456789abcdef0123456789abcdef"

abbrev next_key : GeneratedKey
next_key = record { kid = 2; public_key = seed; encrypted_private_key = seed }

abbrev first_row : SigningKeyRow
first_row = record {
  id = 1;
  public_key = seed;
  encrypted_private_key = seed;
  active_at = 0;
  retired_at = none;
}

abbrev keyed : Db
keyed = record db { signing_keys = first_row ∷ [] }

-- The rotation is due on the day 31, and the key is pending a day later.
abbrev tries : List Attempt
tries =
    record { locked = true; now = days 31; key = next_key }
    ∷ record { locked = true; now = days 32; key = record next_key { kid = 3 } }
    ∷ []

rotations-signs_example : exists (signs (days 32)) (rotations tries keyed).signing_keys ≡ true
unfolding exists
rotations-signs_example =
    Rotation.rotations-signs tries 0 keyed (omega arith, (omega arith, tt)) (λ u from. ground arith)
      (days 32) (omega arith)

abbrev first_keys : SigningKeys
first_keys = record {
  keys =
      record {
        kid = 1;
        encoding_key = ed25519_pkcs8_prefix ++ seed;
        active_at = 0;
        retired_at = none;
      }
      ∷ [];
  jwks = record { key_id = 1; x = seed } ∷ [];
}

loads : load plain_crypto plain_master_key 5 keyed ≡ ok first_keys
unfolding load list_published newest_first encoding_key bauth.Base.Table.select
loads = refl

load-signing_key_example : is_some (signing_key first_keys 9) ≡ true
unfolding exists
load-signing_key_example =
    Loaded.load-signing_key plain_crypto plain_master_key 5 9 keyed (omega arith) loads refl

-- The table has no key yet.
abbrev second_keys : SigningKeys
second_keys = record {
  keys =
      record {
        kid = 2;
        encoding_key = ed25519_pkcs8_prefix ++ seed;
        active_at = 7;
        retired_at = none;
      }
      ∷ [];
  jwks = record { key_id = 2; x = seed } ∷ [];
}

abbrev ensured_db : Db
ensured_db = record db {
  signing_keys =
      record {
        id = 2;
        public_key = seed;
        encrypted_private_key = seed;
        active_at = 7;
        retired_at = none;
      }
      ∷ [];
}

ensures : ensure_and_load plain_crypto plain_master_key 7 next_key db ≡ ok (second_keys, ensured_db)
unfolding ensure_and_load load list_published newest_first encoding_key bauth.Base.Table.select
    signing_key bauth.Base.Table.find bauth.Queries.SigningKeys.insert_key exists
ensures = refl

ensure_and_load-signs_example : is_some (signing_key second_keys 7) ≡ true
ensure_and_load-signs_example =
    Loaded.ensure_and_load-signs plain_crypto plain_master_key 7 next_key db ensures

-- A token of the first key, issued when the rotation runs, is read ten minutes later.
abbrev rotated_keys : SigningKeys
rotated_keys = record {
  keys =
      record {
        kid = 2;
        encoding_key = ed25519_pkcs8_prefix ++ seed;
        active_at = days 32;
        retired_at = none;
      }
      ∷ record {
        kid = 1;
        encoding_key = ed25519_pkcs8_prefix ++ seed;
        active_at = 0;
        retired_at = some (days 32);
      }
      ∷ [];
  jwks = record { key_id = 2; x = seed } ∷ record { key_id = 1; x = seed } ∷ [];
}

abbrev once : List Attempt
once = record { locked = true; now = days 31; key = next_key } ∷ []

rotated_loads :
    load plain_crypto plain_master_key (days 31 + minutes 10) (rotations once keyed)
    ≡ ok rotated_keys
unfolding rotations load list_published newest_first encoding_key bauth.Base.Table.select
    bauth.SigningKeys.rotate_if_due exists bauth.Base.Table.find
    bauth.Queries.SigningKeys.insert_key bauth.Queries.SigningKeys.retire_all_except
    bauth.Base.Table.update
rotated_loads = refl

rotations-load_example : exists (λ j. j.key_id == 1) rotated_keys.jwks ≡ true
unfolding exists
rotations-load_example =
    Verifiable.rotations-load plain_crypto plain_master_key once 1 (days 31) (days 31 + minutes 10)
      keyed refl (omega arith, tt) (omega arith) rotated_loads
