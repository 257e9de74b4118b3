-- ===== src/System/Requests.antt =====
-- bauth_server/src/routes/oauth.rs, for a property that the statements keep.
use bauth.Base.{
  ℕ, inl, inr, Bool, true, false, List, Option, none, some, Option-cases, Bool-cases, leb, ◌-◌, ◌+◌,
  ◌=?◌, ◌||◌, not, guard, ok_or, is_some,
}
use bauth.Base.Text.{Text, text}
use bauth.Clients.{Client, get}
use bauth.Pkce.{verify}
use bauth.AccessToken.{issue}
use bauth.Schema.{Db}
use bauth.Server.{Server, Env}
use bauth.Sessions.{refresh_reuse_grace, session_ttl, open_session, new_refresh_token}
use bauth.Token
use bauth.Queries.Users
use bauth.Queries.Sessions
use bauth.Queries.RefreshTokens
use bauth.Queries.RefreshTokens.{RefreshTokenWithSession}
use bauth.Queries.AuthorizationCodes
use bauth.Queries.AuthorizationCodes.{ConsumedCode}
use bauth.OAuth.{
  TokenRequest, RevokeRequest, exchange, reject_unusable_code, authorization_code, check_reuse,
  rotate, refresh_checked, refresh_token, token, revoke, is_inactive, check_active, from_sql,
  from_issue, required, invalid_grant, invalid_client,
}
use bauth.OAuth.Code
use bauth.System.Stable.{IsStable}
use bauth.System.Keeps.{Keeps, map_err-eq-ok, Keeps-bind, Keeps-ok, Keeps-if, finish_keeps}

module _ (server : Server) (env : Env) (P : Db → Type 0)
    (st : IsStable server.lower env.now P) where
  new_refresh_token-Keeps :
      (session_id : ℕ) (parent_id : Option ℕ) (db : Db)
      → P db
      → Keeps P (new_refresh_token server.crypto env session_id parent_id db)
  unfolding new_refresh_token
  new_refresh_token-Keeps session_id parent_id db h =
      Keeps-bind P
        (RefreshTokens.create env.now env.other_id session_id
          (Token.generate server.crypto env.random).hash parent_id db)
        _ λ db' made. Keeps-ok P _ db' (st.create_token _ _ _ _ db h made)

  open_session-Keeps :
      (user_id : ℕ) (client_id : Text) (code_id : ℕ) (db : Db)
      → P db
      → Keeps P (open_session server.crypto env user_id client_id code_id db)
  unfolding open_session
  open_session-Keeps user_id client_id code_id db h =
      Keeps-bind P
        (Sessions.create env.now env.id user_id client_id code_id (env.now + session_ttl) db) _
        λ db₁ made.
          Keeps-bind P (new_refresh_token server.crypto env env.id none db₁) _ λ given done.
            Keeps-ok P _ given.1 (
              (new_refresh_token-Keeps env.id none db₁
                  (st.create_session _ _ _ _ _ db h made)).holds
                given.0 given.1 done)

  exchange-Keeps :
      (input : TokenRequest) (uri verifier : Text) (client : Client) (consumed : ConsumedCode)
      (tx : Db)
      → P tx
      → Keeps P (exchange server env input uri verifier client consumed tx)
  unfolding exchange
  exchange-Keeps input uri verifier client consumed tx h =
      Keeps-bind P
        (guard (consumed.client_id =? client.id)
          (invalid_grant (text "code was issued to another client")))
        _
        λ _ _.
          Keeps-bind P
            (guard (consumed.redirect_uri =? uri)
              (invalid_grant (text "redirect_uri does not match")))
            _
            λ _ _.
              Keeps-bind P
                (guard (verify server.crypto verifier consumed.code_challenge)
                  (invalid_grant (text "code_verifier does not match")))
                _
                λ _ _. Keeps-bind P (check_active consumed.user_id tx) _ λ _ _.
                  Keeps-bind P
                    (from_sql
                      (open_session server.crypto env consumed.user_id client.id consumed.id tx))
                    _
                    λ opened done.
                      Keeps-bind P
                        (from_issue (issue server env consumed.user_id opened.0.session_id client))
                        _
                        λ access _. Keeps-ok P _ opened.1 (
                          (open_session-Keeps consumed.user_id client.id consumed.id tx h).holds
                            opened.0 opened.1 (map_err-eq-ok _ _ done))

  reject_keeps : (h : List ℕ) (db : Db) → P db → P (reject_unusable_code server env h db)
  unfolding reject_unusable_code Sessions.revoke_by_authorization_code
  reject_keeps h db p = elim (Option-cases (AuthorizationCodes.find_consumed h db)) [
    | inl n ↦ rw (n, reject_unusable_code) p
    | inr (id, s) ↦
        rw (s, reject_unusable_code) (st.revoke_where (Sessions.by_authorization_code id) db p)
  ]

  authorization_code_keeps :
      (input : TokenRequest) (db : Db) → P db → P (authorization_code server env input db).1
  authorization_code_keeps input db h =
      elim (Code.authorization_code_incomplete server env input db) [
        | inr (e, same) ↦ rw same h
        | inl r ↦
            let code_hash = Token.hash server.crypto r.code in
            elim (Option-cases (AuthorizationCodes.consume env.now code_hash db)) [
              | inl n ↦
                  rw (Code.authorization_code_unusable server env input db r n)
                    (reject_keeps code_hash db h)
              | inr ((consumed, tx), s) ↦
                  rw (Code.authorization_code_usable server env input db r consumed tx s) (
                    finish_keeps P db _ h (
                      exchange-Keeps input r.redirect_uri r.code_verifier r.client consumed tx
                        (st.consume_code code_hash db h s)))
            ]
      ]

  check_reuse_keeps :
      (id : ℕ) (superseded_at rotated_at : Option ℕ) (tx : Db)
      → P tx
      → P (check_reuse server env id superseded_at rotated_at tx).1
  unfolding check_reuse
  check_reuse_keeps id (some at) r tx h = h
  check_reuse_keeps id none none tx h = st.mark_rotated id tx h
  check_reuse_keeps id none (some at) tx h =
      elim (Bool-cases (leb (env.now - at) refresh_reuse_grace)) [
        | inl t ↦ rw t h
        | inr t ↦ elim (Bool-cases (RefreshTokens.has_used_successor id tx)) [
          | inl u ↦ rw (t, u) h
          | inr u ↦ rw (t, u) (st.supersede id tx h)
        ]
      ]

  rotate-Keeps :
      (client : Client) (current : RefreshTokenWithSession) (tx : Db)
      → P tx
      → Keeps P (rotate server env client current tx)
  unfolding rotate
  rotate-Keeps client current tx h =
      Keeps-bind P
        (from_sql (new_refresh_token server.crypto env current.session_id (some current.id) tx)) _
        λ made done.
          Keeps-bind P (from_issue (issue server env current.user_id current.session_id client)) _
            λ access _. Keeps-ok P _ made.1 (
              (new_refresh_token-Keeps current.session_id (some current.id) tx h).holds made.0
                made.1 (map_err-eq-ok _ _ done))

  refresh_checked-Keeps :
      (client : Client) (current : RefreshTokenWithSession) (stolen : Bool) (tx : Db)
      → P tx
      → Keeps P (refresh_checked server env client current stolen tx)
  unfolding refresh_checked Sessions.revoke
  refresh_checked-Keeps client current true tx h =
      Keeps-ok P _ _ (st.revoke_where (Sessions.by_id current.session_id) tx h)
  refresh_checked-Keeps client current false tx h =
      Keeps-if P (is_inactive (Users.find_by_id current.user_id tx)) _ _
        (Keeps-ok P _ _ (st.revoke_where (Sessions.by_id current.session_id) tx h))
        (rotate-Keeps client current tx h)

  refresh_token_keeps :
      (input : TokenRequest) (db : Db) → P db → P (refresh_token server env input db).1
  unfolding refresh_token
  refresh_token_keeps input db h = finish_keeps P db _ h (
      Keeps-bind P (required input.refresh_token (text "refresh_token")) _ λ plain _.
        Keeps-bind P (ok_or (get input.client_id server.clients) invalid_client) _ λ client _.
          Keeps-bind P
            (ok_or (RefreshTokens.find_for_update (Token.hash server.crypto plain) db)
              (invalid_grant (text "refresh token is invalid")))
            _
            λ current _.
              Keeps-bind P
                (guard (current.client_id =? client.id)
                  (invalid_grant (text "refresh token was issued to another client")))
                _
                λ _ _.
                  Keeps-bind P
                    (guard
                      (not (
                        is_some current.session_revoked_at
                        || leb current.session_expires_at env.now))
                      (invalid_grant (text "session is expired or revoked")))
                    _
                    λ _ _.
                      refresh_checked-Keeps client current
                        (check_reuse server env current.id current.superseded_at current.rotated_at
                          db).0
                        (check_reuse server env current.id current.superseded_at current.rotated_at
                          db).1
                        (check_reuse_keeps current.id current.superseded_at current.rotated_at db
                          h))

  pub token_keeps : (input : TokenRequest) (db : Db) → P db → P (token server env input db).1
  unfolding token
  token_keeps input db h = elim (Bool-cases (input.grant_type =? text "authorization_code")) [
    | inl t ↦ rw t (authorization_code_keeps input db h)
    | inr t ↦ elim (Bool-cases (input.grant_type =? text "refresh_token")) [
      | inl u ↦ rw (t, u) (refresh_token_keeps input db h)
      | inr u ↦ rw (t, u) h
    ]
  ]

  pub revoke_keeps : (input : RevokeRequest) (db : Db) → P db → P (revoke server env input db).1
  unfolding revoke Sessions.revoke_by_refresh_token
  revoke_keeps input db h = finish_keeps P db _ h (
      Keeps-bind P (ok_or (get input.client_id server.clients) invalid_client) _ λ client _.
        Keeps-ok P _ _ (
          st.revoke_where
            (Sessions.by_refresh_token db.refresh_tokens (Token.hash server.crypto input.token)
              client.id)
            db h))
