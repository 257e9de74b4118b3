-- ===== src/Queries/SigningKeys.antt =====
-- bauth_server/src/queries/signing_keys.rs.
use bauth.Base.{
  ℕ, ◌+◌, Bool, true, not, ◌&&◌, List, [], ◌∷◌, Option, none, some, Result, ok, ◌>>=◌, ltb, ◌==◌,
  if◌then◌else◌,
}
use bauth.Base.Table.{select, update, exists}
use bauth.Schema.{Db, SigningKeyRow, SqlError, insert}

unfoldable pub insert_key : ℕ → List ℕ → List ℕ → ℕ → Db → Result SqlError Db
insert_key id public_key encrypted_private_key active_at db = do
  rows ←
      insert (exists (λ k. k.id == id) db.signing_keys) true
        (record {
          id = id;
          public_key = public_key;
          encrypted_private_key = encrypted_private_key;
          active_at = active_at;
          retired_at = none;
        })
        db.signing_keys
  ok (record db { signing_keys = rows })

-- `retired_at IS NULL OR retired_at > $1`, where `$1` is `now - grace`; written as a sum, since the
-- difference may lie before the epoch.
abbrev pub is_published : ℕ → ℕ → Option ℕ → Bool
is_published now grace none = true
is_published now grace (some at) = ltb now (at + grace)

-- `ORDER BY active_at DESC`.
unfoldable pub place : SigningKeyRow → List SigningKeyRow → List SigningKeyRow
place k [] = k ∷ []
place k (x ∷ xs) =
    let rest = place k xs in if ltb k.active_at x.active_at then x ∷ rest else k ∷ x ∷ xs

unfoldable pub newest_first : List SigningKeyRow → List SigningKeyRow
unfolding place
newest_first [] = []
newest_first (x ∷ xs) = place x (newest_first xs)

unfoldable pub list_published : ℕ → ℕ → Db → List SigningKeyRow
list_published now grace db =
    newest_first (select (λ k. is_published now grace k.retired_at) db.signing_keys)

-- `retired_at IS NULL OR retired_at > $2`.
abbrev pub retires_after : ℕ → Option ℕ → Bool
retires_after at none = true
retires_after at (some retired_at) = ltb at retired_at

abbrev pub set_retired : ℕ → SigningKeyRow → SigningKeyRow
set_retired at k = record k { retired_at = some at }

unfoldable pub retire_all_except : ℕ → ℕ → Db → Db
retire_all_except keep retired_at db = record db {
  signing_keys =
      update (λ k. not (k.id == keep) && retires_after retired_at k.retired_at)
        (set_retired retired_at) db.signing_keys;
}
