-- ===== src/OAuth/Completed.antt =====
-- What `complete` of bauth_server/src/login_flow.rs leaves, and the statements of an exchange over it.
use bauth.Base.{
  ℕ, ◌+◌, ◌≡◌, inl, inr, true, false, none, some, ok, List, ◌∷◌, ◌==◌, ==_refl, ◌=?◌, is_just,
  if◌then◌else◌, Option-cases, arith,
}
use bauth.Base.Text.{Text}
use bauth.Base.Table.{exists, find, update}
use bauth.Base.Table.Laws.{exists_of_find}
use bauth.Crypto.{Crypto}
use bauth.LoginFlow.{complete, code_ttl}
use bauth.OAuth.{is_inactive}
use bauth.OAuth.Opened.{new_session, new_token}
use bauth.Queries.AuthorizationCodes
use bauth.Queries.AuthorizationCodes.{ConsumedCode, is_usable, mark_consumed}
use bauth.Queries.LoginFlows
use bauth.Queries.LoginFlows.{is_pending, set_completed}
use bauth.Queries.RefreshTokens
use bauth.Queries.Sessions
use bauth.Queries.Users
use bauth.Schema.{Db, LoginFlow, AuthorizationCode}
use bauth.Server.{Server, Env}
use bauth.Sessions.{open_session, new_refresh_token, session_ttl}
use bauth.Token.{generate}

abbrev pub new_code : ℕ → ℕ → List ℕ → ℕ → ℕ → AuthorizationCode
new_code now id code_hash flow_id user_id = record {
  id = id;
  code_hash = code_hash;
  flow_id = flow_id;
  user_id = user_id;
  expires_at = now + code_ttl;
  consumed_at = none;
  created_at = now;
}

abbrev pub completed : Server → Env → ℕ → ℕ → Db → Db
completed server env flow_id user_id db = record db {
  login_flows = update (is_pending env.now flow_id) (set_completed env.now) db.login_flows;
  authorization_codes =
      new_code env.now env.id (generate server.crypto env.random).hash flow_id user_id
      ∷ db.authorization_codes;
}

pub complete_inv :
    (server : Server) (env : Env) (flow_id user_id : ℕ) (db left : Db) (plain : Text)
    → complete server env flow_id user_id db ≡ ok (some plain, left)
    → (plain ≡ (generate server.crypto env.random).plain)
      × (left ≡ completed server env flow_id user_id db)
unfolding complete LoginFlows.complete AuthorizationCodes.create
complete_inv server env flow_id user_id db left plain e = ground arith

-- A session can be opened if its account and its code exist, and its ids and its token are new.
pub open_session_lem :
    (x : Crypto) (env : Env) (user_id : ℕ) (client_id : Text) (code_id : ℕ) (db : Db)
    → exists (λ u. u.id == user_id) db.users ≡ true
    → exists (λ c. c.id == code_id) db.authorization_codes ≡ true
    → exists
        (λ s. if s.id == env.id then true else is_just s.authorization_code_id code_id)
        db.sessions
      ≡ false
    → exists
        (λ r. if r.id == env.other_id then true else r.token_hash =? (generate x env.random).hash)
        db.refresh_tokens
      ≡ false
    → (left : Db) × (open_session x env user_id client_id code_id db
        ≡ ok (record { session_id = env.id; refresh_token = (generate x env.random).plain }, left))
unfolding open_session new_refresh_token Sessions.create RefreshTokens.create exists
open_session_lem x env user_id client_id code_id db user code fresh new = (
  record db {
    sessions =
        new_session env.now env.id user_id client_id code_id (env.now + session_ttl) ∷ db.sessions;
    refresh_tokens =
        new_token env.now env.other_id env.id (generate x env.random).hash none ∷ db.refresh_tokens;
  },
  ground (arith, user, code, fresh, new, ==_refl env.id),
)

pub consume_of :
    (now : ℕ) (code_hash : List ℕ) (db : Db) (c : AuthorizationCode) (f : LoginFlow)
    → find (is_usable now code_hash) db.authorization_codes ≡ some c
    → find (λ g. g.id == c.flow_id) db.login_flows ≡ some f
    → AuthorizationCodes.consume now code_hash db
      ≡ some (
        record {
          id = c.id;
          user_id = c.user_id;
          client_id = f.client_id;
          redirect_uri = f.redirect_uri;
          code_challenge = f.code_challenge;
        },
        record db {
          authorization_codes =
              update (is_usable now code_hash) (mark_consumed now) db.authorization_codes;
        },
      )
unfolding AuthorizationCodes.consume
consume_of now code_hash db c f there flow = ground arith

-- An account that may log in has its row.
pub exists_of_active :
    (user_id : ℕ) (db : Db)
    → is_inactive (Users.find_by_id user_id db) ≡ false
    → exists (λ u. u.id == user_id) db.users ≡ true
unfolding Users.find_by_id
exists_of_active user_id db active = elim (Option-cases (find (λ u. u.id == user_id) db.users)) [
  | inl n ↦ ground (arith, n)
  | inr (u, e) ↦ exists_of_find (λ v. v.id == user_id) db.users e
]
