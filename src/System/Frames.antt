-- ===== src/System/Frames.antt =====
-- Which table each statement of bauth_server/src/queries writes.
use bauth.Base.{ℕ, ◌≡◌, List, Option, some, ok, none, ◌∷◌, arith}
use bauth.Base.Text.{Text}
use bauth.Base.Table.{update}
use bauth.Schema.{Db, MagicLink, User}
use bauth.Queries.Users
use bauth.Queries.Sessions
use bauth.Queries.RefreshTokens
use bauth.Queries.AuthorizationCodes
use bauth.Queries.AuthorizationCodes.{ConsumedCode}
use bauth.Queries.LoginFlows
use bauth.Queries.MagicLinks

pub create_user-writes :
    (lower : Text → Text) (now id : ℕ) (email : Text) (db : Db) {made : Option User} {left : Db}
    → Users.create lower now id email db ≡ ok (made, left)
    → left ≡ record db { users = left.users }
unfolding Users.create
create_user-writes lower now id email db e = ground arith

pub create_session-writes :
    (now id user_id : ℕ) (client_id : Text) (code_id expires_at : ℕ) (db : Db) {left : Db}
    → Sessions.create now id user_id client_id code_id expires_at db ≡ ok left
    → left ≡ record db { sessions = left.sessions }
unfolding Sessions.create
create_session-writes now id user_id client_id code_id expires_at db e = ground arith

pub create_token-writes :
    (now id session_id : ℕ) (h : List ℕ) (parent_id : Option ℕ) (db : Db) {left : Db}
    → RefreshTokens.create now id session_id h parent_id db ≡ ok left
    → left ≡ record db { refresh_tokens = left.refresh_tokens }
unfolding RefreshTokens.create
create_token-writes now id session_id h parent_id db e = ground arith

pub create_code-writes :
    (now id : ℕ) (h : List ℕ) (flow_id user_id expires_at : ℕ) (db : Db) {left : Db}
    → AuthorizationCodes.create now id h flow_id user_id expires_at db ≡ ok left
    → left ≡ record db { authorization_codes = left.authorization_codes }
unfolding AuthorizationCodes.create
create_code-writes now id h flow_id user_id expires_at db e = ground arith

pub consume_code-writes :
    (now : ℕ) (h : List ℕ) (db : Db) {consumed : ConsumedCode} {left : Db}
    → AuthorizationCodes.consume now h db ≡ some (consumed, left)
    → left ≡ record db {
      authorization_codes =
          update
            (AuthorizationCodes.is_usable now h)
            (AuthorizationCodes.mark_consumed now)
            db.authorization_codes;
    }
unfolding AuthorizationCodes.consume
consume_code-writes now h db e = ground arith

pub create_flow-writes :
    (now id : ℕ) (client_id redirect_uri code_challenge : Text) (state : Option Text)
    (expires_at : ℕ) (db : Db) {left : Db}
    → LoginFlows.create now id client_id redirect_uri code_challenge state expires_at db ≡ ok left
    → left ≡ record db {
      login_flows =
          record {
            id = id;
            client_id = client_id;
            redirect_uri = redirect_uri;
            code_challenge = code_challenge;
            state = state;
            magic_link_requests = 0;
            expires_at = expires_at;
            completed_at = none;
            created_at = now;
          }
          ∷ db.login_flows;
    }
unfolding LoginFlows.create
create_flow-writes now id client_id redirect_uri code_challenge state expires_at db e = ground arith

pub count_request-writes :
    (now id limit link_expires_at : ℕ) (db : Db) {expires_at : ℕ} {left : Db}
    → LoginFlows.count_magic_link_request now id limit link_expires_at db ≡ some (expires_at, left)
    → left ≡ record db {
      login_flows =
          update
            (LoginFlows.is_countable now id limit)
            (LoginFlows.counted link_expires_at)
            db.login_flows;
    }
unfolding LoginFlows.count_magic_link_request
count_request-writes now id limit link_expires_at db e = ground arith

pub create_link-writes :
    (lower : Text → Text) (now id flow_id : ℕ) (user_id : Option ℕ) (email : Text)
    (token_hash code_hash : List ℕ) (expires_at : ℕ) (db : Db) {to : Text} {left : Db}
    → MagicLinks.create lower now id flow_id user_id email token_hash code_hash expires_at db
      ≡ ok (to, left)
    → left ≡ record db { magic_links = left.magic_links }
unfolding MagicLinks.create
create_link-writes lower now id flow_id user_id email token_hash code_hash expires_at db e =
    ground arith

pub consume_link-writes :
    (now : ℕ) (h : List ℕ) (db : Db) {link : MagicLink} {left : Db}
    → MagicLinks.consume now h db ≡ some (link, left)
    → left ≡ record db {
      magic_links =
          update (MagicLinks.is_usable now h) (MagicLinks.set_consumed now) db.magic_links;
    }
unfolding MagicLinks.consume
consume_link-writes now h db e = ground arith
