-- ===== src/OAuth/Opened.antt =====
-- What `open` of bauth_server/src/sessions.rs leaves, and the statements under it.
use bauth.Base.{
  ℕ, ◌+◌, ◌≡◌, true, false, none, some, ok, List, ◌∷◌, Option, ◌==◌, ◌=?◌, is_just, if◌then◌else◌,
  >>=-eq-ok, arith,
}
use bauth.Base.Text.{Text}
use bauth.Base.Table.{exists}
use bauth.Crypto.{Crypto}
use bauth.Schema.{Db, Session, RefreshToken}
use bauth.Server.{Env}
use bauth.Token.{generate}
use bauth.Sessions.{OpenedSession, session_ttl, open_session, new_refresh_token}
use bauth.Queries.Sessions
use bauth.Queries.RefreshTokens

abbrev pub new_session : ℕ → ℕ → ℕ → Text → ℕ → ℕ → Session
new_session now id user_id client_id code_id expires_at = record {
  id = id;
  user_id = user_id;
  client_id = client_id;
  authorization_code_id = some code_id;
  expires_at = expires_at;
  revoked_at = none;
  created_at = now;
}

abbrev pub new_token : ℕ → ℕ → ℕ → List ℕ → Option ℕ → RefreshToken
new_token now id session_id token_hash parent_id = record {
  id = id;
  session_id = session_id;
  parent_id = parent_id;
  token_hash = token_hash;
  rotated_at = none;
  superseded_at = none;
  created_at = now;
}

pub create_session_inv :
    (now id user_id : ℕ) (client_id : Text) (code_id expires_at : ℕ) (db : Db) {left : Db}
    → Sessions.create now id user_id client_id code_id expires_at db ≡ ok left
    → (exists
          (λ s. if s.id == id then true else is_just s.authorization_code_id code_id)
          db.sessions
        ≡ false)
      × (left ≡ record db {
        sessions = new_session now id user_id client_id code_id expires_at ∷ db.sessions;
      })
unfolding Sessions.create
create_session_inv now id user_id client_id code_id expires_at db h = ground arith

pub create_token_inv :
    (now id session_id : ℕ) (h : List ℕ) (parent_id : Option ℕ) (db : Db) {left : Db}
    → RefreshTokens.create now id session_id h parent_id db ≡ ok left
    → (exists (λ r. if r.id == id then true else r.token_hash =? h) db.refresh_tokens ≡ false)
      × (left ≡ record db {
        refresh_tokens = new_token now id session_id h parent_id ∷ db.refresh_tokens;
      })
unfolding RefreshTokens.create
create_token_inv now id session_id h parent_id db e = ground arith

module _ (x : Crypto) (env : Env) where
  pub new_refresh_token_inv :
      (session_id : ℕ) (parent_id : Option ℕ) (db : Db) {plain : Text} {left : Db}
      → new_refresh_token x env session_id parent_id db ≡ ok (plain, left)
      → (plain ≡ (generate x env.random).plain)
        × (left ≡ record db {
          refresh_tokens =
              new_token env.now env.other_id session_id (generate x env.random).hash parent_id
              ∷ db.refresh_tokens;
        })
  unfolding new_refresh_token RefreshTokens.create
  new_refresh_token_inv session_id parent_id db e = ground arith

  -- The session opened is live for 30 days, under a fresh id and the code that it was opened with.
  pub open_session_inv :
      (user_id : ℕ) (client_id : Text) (code_id : ℕ) (db : Db) {session : OpenedSession} {left : Db}
      → open_session x env user_id client_id code_id db ≡ ok (session, left)
      → (exists
            (λ s. if s.id == env.id then true else is_just s.authorization_code_id code_id)
            db.sessions
          ≡ false)
        × (session.session_id ≡ env.id)
        × (session.refresh_token ≡ (generate x env.random).plain)
        × (left ≡ record db {
          sessions =
              new_session env.now env.id user_id client_id code_id (env.now + session_ttl)
              ∷ db.sessions;
          refresh_tokens =
              new_token env.now env.other_id env.id (generate x env.random).hash none
              ∷ db.refresh_tokens;
        })
  unfolding open_session
  open_session_inv user_id client_id code_id db {session} {left} e =
      let (db₁, made, rest) =
        >>=-eq-ok
          (Sessions.create env.now env.id user_id client_id code_id (env.now + session_ttl) db) _
          e in
      let (pair, given, last) = >>=-eq-ok (new_refresh_token x env env.id none db₁) _ rest in
      let (fresh, same) =
        create_session_inv env.now env.id user_id client_id code_id (env.now + session_ttl) db
          made in
      let (plain, after) =
        new_refresh_token_inv env.id none db₁ {plain = pair.0} {left = pair.1} given in
      ground (arith)
