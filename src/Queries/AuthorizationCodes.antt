-- ===== src/Queries/AuthorizationCodes.antt =====
-- bauth_server/src/queries/authorization_codes.rs.
use bauth.Base.{
  ℕ, Bool, true, ◌&&◌, List, Option, none, some, Result, ok, ◌>>=◌, ltb, ◌==◌, ◌=?◌, is_none,
  is_some, if◌then◌else◌,
}
use bauth.Base.Text.{Text}
use bauth.Base.Table.{find, update, exists}
use bauth.Schema.{Db, AuthorizationCode, SqlError, insert}

unfoldable pub create : ℕ → ℕ → List ℕ → ℕ → ℕ → ℕ → Db → Result SqlError Db
create now id code_hash flow_id user_id expires_at db = do
  rows ←
      insert
        (exists
          (λ c.
            if c.id == id
            then true
            else if c.flow_id == flow_id
            then true
            else c.code_hash =? code_hash)
          db.authorization_codes)
        (exists (λ f. f.id == flow_id) db.login_flows && exists (λ u. u.id == user_id) db.users)
        (record {
          id = id;
          code_hash = code_hash;
          flow_id = flow_id;
          user_id = user_id;
          expires_at = expires_at;
          consumed_at = none;
          created_at = now;
        })
        db.authorization_codes
  ok (record db { authorization_codes = rows })

pub record ConsumedCode : Type 0 where
  pub id : ℕ
  pub user_id : ℕ
  pub client_id : Text
  pub redirect_uri : Text
  pub code_challenge : Text

-- The rows that the UPDATE of `consume` is about.
abbrev pub is_usable : ℕ → List ℕ → AuthorizationCode → Bool
is_usable now code_hash c =
    (c.code_hash =? code_hash) && (is_none c.consumed_at && ltb now c.expires_at)

abbrev pub mark_consumed : ℕ → AuthorizationCode → AuthorizationCode
mark_consumed now c = record c { consumed_at = some now }

unfoldable pub consume : ℕ → List ℕ → Db → Option (ConsumedCode × Db)
consume now code_hash db = elim (find (is_usable now code_hash) db.authorization_codes) [
  | none ↦ none
  | some c ↦ elim (find (λ f. f.id == c.flow_id) db.login_flows) [
    | none ↦ none
    | some f ↦ some (
      record {
        id = c.id;
        user_id = c.user_id;
        client_id = f.client_id;
        redirect_uri = f.redirect_uri;
        code_challenge = f.code_challenge;
      },
      record db {
        authorization_codes =
            update (is_usable now code_hash) (mark_consumed now) db.authorization_codes;
      },
    )
  ]
]

unfoldable pub find_consumed : List ℕ → Db → Option ℕ
find_consumed code_hash db =
    elim (find (λ c. (c.code_hash =? code_hash) && is_some c.consumed_at) db.authorization_codes) [
      | none ↦ none
      | some c ↦ some c.id
    ]
