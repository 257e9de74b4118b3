-- ===== src/System/Stable.antt =====
-- A property of the database that every statement keeps, as an interface: the statements of
-- bauth_server/src/queries that the routes execute, each with what its caller has checked.
use bauth.Base.{ℕ, ◌+◌, ◌≡◌, Bool, List, Option, some, ok}
use bauth.Base.Text.{Text}
use bauth.MagicCode.{code_ttl, max_failures_per_code}
use bauth.MagicLink.{max_emails_per_flow}
use bauth.MagicLink.Budget.{IsCandidate}
use bauth.LoginFlow.{flow_ttl}
use bauth.Schema.{Db, Session, MagicLink, User}
use bauth.Queries.Users
use bauth.Queries.Sessions
use bauth.Queries.RefreshTokens
use bauth.Queries.AuthorizationCodes
use bauth.Queries.AuthorizationCodes.{ConsumedCode}
use bauth.Queries.LoginFlows
use bauth.Queries.MagicLinks

pub record IsStable (lower : Text → Text) (now : ℕ) (P : Db → Type 0) : Type 0 where
  pub create_user :
      (id : ℕ) (email : Text) (db : Db) {made : Option User} {left : Db}
      → P db
      → Users.create lower now id email db ≡ ok (made, left)
      → P left
  pub mark_email_verified :
      (id : ℕ) (email : Text) (db : Db) → P db → P (Users.mark_email_verified now id email db)
  pub create_session :
      (id user_id : ℕ) (client_id : Text) (code_id expires_at : ℕ) (db : Db) {left : Db}
      → P db
      → Sessions.create now id user_id client_id code_id expires_at db ≡ ok left
      → P left
  pub revoke_where : (p : Session → Bool) (db : Db) → P db → P (Sessions.revoke_where now p db)
  pub create_token :
      (id session_id : ℕ) (h : List ℕ) (parent_id : Option ℕ) (db : Db) {left : Db}
      → P db
      → RefreshTokens.create now id session_id h parent_id db ≡ ok left
      → P left
  pub mark_rotated : (id : ℕ) (db : Db) → P db → P (RefreshTokens.mark_rotated now id db)
  pub supersede :
      (id : ℕ) (db : Db) → P db → P (RefreshTokens.supersede_unused_successors now id db)
  pub create_code :
      (id : ℕ) (h : List ℕ) (flow_id user_id expires_at : ℕ) (db : Db) {left : Db}
      → P db
      → AuthorizationCodes.create now id h flow_id user_id expires_at db ≡ ok left
      → P left
  pub consume_code :
      (h : List ℕ) (db : Db) {consumed : ConsumedCode} {left : Db}
      → P db
      → AuthorizationCodes.consume now h db ≡ some (consumed, left)
      → P left
  pub create_flow :
      (id : ℕ) (client_id redirect_uri code_challenge : Text) (state : Option Text) (db : Db)
      {left : Db}
      → P db
      → LoginFlows.create now id client_id redirect_uri code_challenge state (now + flow_ttl) db
        ≡ ok left
      → P left
  pub complete_flow : (id : ℕ) (db : Db) → P db → P (LoginFlows.complete now id db).0
  pub count_request :
      (id : ℕ) (db : Db) {expires_at : ℕ} {left : Db}
      → P db
      → LoginFlows.count_magic_link_request now id max_emails_per_flow (now + code_ttl) db
        ≡ some (expires_at, left)
      → P left
  pub create_link :
      (id flow_id : ℕ) (user_id : Option ℕ) (email : Text) (token_hash code_hash : List ℕ) (db : Db)
      {to : Text} {left : Db}
      → P db
      → MagicLinks.create lower now id flow_id user_id email token_hash code_hash
          (now + code_ttl)
          db
        ≡ ok (to, left)
      → P left
  pub consume_link :
      (h : List ℕ) (db : Db) {link : MagicLink} {left : Db}
      → P db
      → MagicLinks.consume now h db ≡ some (link, left)
      → P left
  pub consume_by_id : (id : ℕ) (db : Db) → P db → P (MagicLinks.consume_by_id now id db)
  pub record_failure :
      (flow_id : ℕ) (link : MagicLink) (db : Db)
      → P db
      → IsCandidate now flow_id db link
      → P (MagicLinks.record_code_failure now link.id max_failures_per_code db)
