-- ===== src/Schema.antt =====
-- The tables of bauth_server/migrations, a row as a record, and what an INSERT checks: the unique
-- columns and the references to other tables. Instants are microseconds, ids are numbers (the
-- database's uuidv7), hashes are bytes, `Option` is a column that may be NULL.
use bauth.Base.{ℕ, Bool, List, ◌∷◌, Option, Result, ok, err, if◌then◌else◌}
use bauth.Base.Text.{Text}

pub record User : Type 0 where
  pub id : ℕ
  pub email : Text
  pub email_verified_at : Option ℕ
  pub disabled_at : Option ℕ
  pub created_at : ℕ
  pub updated_at : ℕ

pub record LoginFlow : Type 0 where
  pub id : ℕ
  pub client_id : Text
  pub redirect_uri : Text
  pub code_challenge : Text
  pub state : Option Text
  pub magic_link_requests : ℕ
  pub expires_at : ℕ
  pub completed_at : Option ℕ
  pub created_at : ℕ

pub record AuthorizationCode : Type 0 where
  pub id : ℕ
  pub code_hash : List ℕ
  pub flow_id : ℕ
  pub user_id : ℕ
  pub expires_at : ℕ
  pub consumed_at : Option ℕ
  pub created_at : ℕ

pub record Session : Type 0 where
  pub id : ℕ
  pub user_id : ℕ
  pub client_id : Text
  pub authorization_code_id : Option ℕ
  pub expires_at : ℕ
  pub revoked_at : Option ℕ
  pub created_at : ℕ

pub record RefreshToken : Type 0 where
  pub id : ℕ
  pub session_id : ℕ
  pub parent_id : Option ℕ
  pub token_hash : List ℕ
  pub rotated_at : Option ℕ
  pub superseded_at : Option ℕ
  pub created_at : ℕ

pub record MagicLink : Type 0 where
  pub id : ℕ
  pub flow_id : ℕ
  pub user_id : Option ℕ
  pub email : Text
  pub token_hash : List ℕ
  pub code_hash : List ℕ
  pub code_failures : ℕ
  pub expires_at : ℕ
  pub consumed_at : Option ℕ
  pub created_at : ℕ

pub record EmailChange : Type 0 where
  pub id : ℕ
  pub user_id : ℕ
  pub from_email : Text
  pub to_email : Text
  pub token_hash : List ℕ
  pub expires_at : ℕ
  pub consumed_at : Option ℕ
  pub created_at : ℕ

pub record Confirmation : Type 0 where
  pub id : ℕ
  pub user_id : ℕ
  pub session_id : ℕ
  pub action : Text
  pub email : Text
  pub code_hash : List ℕ
  pub code_failures : ℕ
  pub expires_at : ℕ
  pub consumed_at : Option ℕ
  pub created_at : ℕ

pub record SigningKeyRow : Type 0 where
  pub id : ℕ
  pub public_key : List ℕ
  pub encrypted_private_key : List ℕ
  pub active_at : ℕ
  pub retired_at : Option ℕ

pub record Db : Type 0 where
  pub users : List User
  pub login_flows : List LoginFlow
  pub authorization_codes : List AuthorizationCode
  pub sessions : List Session
  pub refresh_tokens : List RefreshToken
  pub magic_links : List MagicLink
  pub email_changes : List EmailChange
  pub confirmations : List Confirmation
  pub signing_keys : List SigningKeyRow

-- What `sqlx::Error` can be for a statement that reaches the database.
pub data SqlError : Type 0 where
  unique_violation foreign_key_violation : SqlError

-- INSERT: `taken` tells whether a unique column holds the value already, `linked` whether every
-- reference has its row.
abbrev pub insert : {A : Type 0} → Bool → Bool → A → List A → Result SqlError (List A)
insert taken linked row rows =
    if taken
    then err unique_violation
    else if linked
    then ok (row ∷ rows)
    else err foreign_key_violation
