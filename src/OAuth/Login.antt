-- ===== src/OAuth/Login.antt =====
-- A login from its completion (bauth_server/src/login_flow.rs) to the tokens
-- (bauth_server/src/routes/oauth.rs).
use bauth.Base.{
  ℕ, ◌+◌, ◌<◌, ◌≡◌, refl, inl, inr, true, false, some, ok, List, ◌∷◌, ◌==◌, ==_refl, ◌=?◌, =?_refl,
  is_just, if◌then◌else◌, Bool-cases, arith, ap, ◌∙◌,
}
use bauth.Base.Text.{Text, text}
use bauth.Base.Table.{exists, find, update}
use bauth.Base.Table.Laws.{find-update, find-head, update-head, exists-head}
use bauth.AccessToken.{issue, IssuedAccessToken}
use bauth.LoginFlow.{complete, code_ttl}
use bauth.OAuth.{TokenRequest, authorization_code, exchange, finish, is_inactive}
use bauth.OAuth.Code.{IsComplete, authorization_code_usable}
use bauth.Pkce.{verify}
use bauth.Queries.AuthorizationCodes
use bauth.Queries.AuthorizationCodes.{ConsumedCode, is_usable, mark_consumed}
use bauth.Queries.LoginFlows.{is_pending, set_completed}
use bauth.Queries.Users
use bauth.Schema.{Db, LoginFlow}
use bauth.Server.{Server, Env}
use bauth.Token.{generate}
use bauth.OAuth.Completed.{
  completed, new_code, complete_inv, open_session_lem, consume_of, exists_of_active,
}

module _ (server : Server) (first later : Env) (flow_id user_id : ℕ) (db : Db) where
  abbrev digest : List ℕ
  digest = (generate server.crypto first.random).hash

  abbrev left : Db
  left = completed server first flow_id user_id db

  abbrev of_flow : LoginFlow → ConsumedCode
  of_flow f = record {
    id = first.id;
    user_id = user_id;
    client_id = f.client_id;
    redirect_uri = f.redirect_uri;
    code_challenge = f.code_challenge;
  }

  abbrev spent : Db
  spent = record left {
    authorization_codes =
        mark_consumed later.now (new_code first.now first.id digest flow_id user_id)
        ∷ update (is_usable later.now digest) (mark_consumed later.now) db.authorization_codes;
  }

  completed-usable :
      later.now < first.now + code_ttl
      → is_usable later.now digest (new_code first.now first.id digest flow_id user_id) ≡ true
  completed-usable soon = rw (=?_refl digest) (ground arith)

  completed-flow :
      {f : LoginFlow}
      → find (λ g. g.id == flow_id) db.login_flows ≡ some f
      → (g : LoginFlow) × (find (λ g. g.id == flow_id) left.login_flows ≡ some g)
        × (of_flow g ≡ of_flow f)
  completed-flow {f} known = (
    if is_pending first.now flow_id f then set_completed first.now f else f,
    find-update (λ g. g.id == flow_id) (is_pending first.now flow_id) (set_completed first.now)
        (λ _. refl) db.login_flows known,
    elim (Bool-cases (is_pending first.now flow_id f)) [ inl t ↦ rw t | inr t ↦ rw t ],
  )

  -- The new code is found, with what its flow asked for.
  completed-consume :
      later.now < first.now + code_ttl
      → {f : LoginFlow} → find (λ g. g.id == flow_id) db.login_flows ≡ some f
      → AuthorizationCodes.consume later.now digest left ≡ some (of_flow f, spent)
  completed-consume soon {f} known =
      let (g, there, same) = completed-flow known in
      let usable = completed-usable soon in
      let now = new_code first.now first.id digest flow_id user_id in
      consume_of later.now digest left now g (find-head _ now db.authorization_codes usable) there
      ∙ (ap
            (λ z. some (
              z,
              record left {
                authorization_codes =
                    update (is_usable later.now digest) (mark_consumed later.now)
                      (now ∷ db.authorization_codes);
              },
            ))
            same
          ∙ ap (λ z. some (of_flow f, record left { authorization_codes = z }))
              (update-head (is_usable later.now digest) (mark_consumed later.now) now
                db.authorization_codes usable))

  module _ (input : TokenRequest) (r : IsComplete server input) (f : LoginFlow)
      (access : IssuedAccessToken) where
    -- The exchange of the new code passes every check.
    completed-exchange :
        f.client_id ≡ r.client.id
        → f.redirect_uri ≡ r.redirect_uri
        → verify server.crypto r.code_verifier f.code_challenge ≡ true
        → is_inactive (Users.find_by_id user_id left) ≡ false
        → exists
            (λ s. if s.id == later.id then true else is_just s.authorization_code_id first.id)
            db.sessions
          ≡ false
        → exists
            (λ t.
              if t.id == later.other_id
              then true
              else t.token_hash =? (generate server.crypto later.random).hash)
            db.refresh_tokens
          ≡ false
        → issue server later user_id later.id r.client ≡ ok access
        → (finish left (
            exchange server later input r.redirect_uri r.code_verifier r.client
              (of_flow f)
              spent)).0
          ≡ ok (record {
            access_token = access.token;
            token_type = text "Bearer";
            expires_in = access.expires_in;
            refresh_token = (generate server.crypto later.random).plain;
          })
    unfolding exchange Users.find_by_id
    completed-exchange same_client same_uri verified active new_session_id new_token_id issued =
        let (after, opened) =
          open_session_lem server.crypto later user_id r.client.id first.id spent
            (exists_of_active user_id left active) (exists-head _ _ _ (==_refl first.id))
            new_session_id new_token_id in
        rw (
          same_client,
          same_uri,
          =?_refl r.client.id,
          =?_refl r.redirect_uri,
          verified,
          active,
          opened,
          issued,
        )

-- A login that is completed can be exchanged. Let `complete` give a code and a database, and let
-- a complete request present that code there before the code expires, for the client and the
-- redirect URI of the flow, with a verifier for its challenge. If the account is active, the ids
-- and the hash of the new session and token are new, no session refers to the id of the code,
-- and an access token can be issued, then the answer is that access token and the new refresh
-- token.
pub complete-authorization_code :
    (server : Server) (first later : Env) (flow_id user_id : ℕ) (db after : Db) (plain : Text)
    (input : TokenRequest) (r : IsComplete server input) (f : LoginFlow)
    (access : IssuedAccessToken)
    → complete server first flow_id user_id db ≡ ok (some plain, after)
    → find (λ g. g.id == flow_id) db.login_flows ≡ some f
    → r.code ≡ plain
    → f.client_id ≡ r.client.id
    → f.redirect_uri ≡ r.redirect_uri
    → verify server.crypto r.code_verifier f.code_challenge ≡ true
    → later.now < first.now + code_ttl
    → is_inactive (Users.find_by_id user_id db) ≡ false
    → exists
        (λ s. if s.id == later.id then true else is_just s.authorization_code_id first.id)
        db.sessions
      ≡ false
    → exists
        (λ t.
          if t.id == later.other_id
          then true
          else t.token_hash =? (generate server.crypto later.random).hash)
        db.refresh_tokens
      ≡ false
    → issue server later user_id later.id r.client ≡ ok access
    → (authorization_code server later input after).0
      ≡ ok (record {
        access_token = access.token;
        token_type = text "Bearer";
        expires_in = access.expires_in;
        refresh_token = (generate server.crypto later.random).plain;
      })
unfolding Users.find_by_id generate
complete-authorization_code server first later flow_id user_id db after plain input r f access done
      known same_code same_client same_uri verified soon active new_id new_hash issued =
    let (is_plain, is_after) = complete_inv server first flow_id user_id db after plain done in
    rw is_after (
      rw
        (authorization_code_usable server later input (completed server first flow_id user_id db) r
          (of_flow server first later flow_id user_id db f)
          (spent server first later flow_id user_id db)
          (rw (same_code ∙ is_plain)
            (completed-consume server first later flow_id user_id db soon known)))
        (completed-exchange server first later flow_id user_id db input r f access same_client
          same_uri verified active new_id new_hash issued))
