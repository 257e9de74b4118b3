-- ===== src/OAuth/Refreshed.antt =====
-- `refresh_token` of bauth_server/src/routes/oauth.rs: what an answer with tokens means.
use bauth.Base.{
  ◌≡◌, refl, ◌⊎◌, inl, inr, Bool, true, false, some, ok, err, is_some, ◌||◌, ◌=?◌, =?_sound, leb,
  Bool-cases, Option-cases, Result-cases, arith,
}
use bauth.Base.Text.{Text, text}
use bauth.AccessToken.{IssuedAccessToken, issue}
use bauth.Clients.{Client, get}
use bauth.Schema.{Db}
use bauth.Server.{Server, Env}
use bauth.Sessions.{new_refresh_token}
use bauth.Token.{hash}
use bauth.Queries.Users
use bauth.Queries.RefreshTokens
use bauth.Queries.RefreshTokens.{RefreshTokenWithSession}
use bauth.OAuth.{
  OAuthError, TokenRequest, TokenResponse, missing, is_inactive, check_reuse, finish,
  refresh_checked, rotate, refresh_token,
}
use bauth.OAuth.Refresh.{IsPresented, refresh_token_lem}

module _ (server : Server) (env : Env) (input : TokenRequest) (db : Db) where
  -- A request with a token that its own client presents on a live session.
  pub record Presentation : Type 0 where
    pub plain : Text
    pub client : Client
    pub current : RefreshTokenWithSession
    pub presented : IsPresented server env input db plain client current

  refresh_token_unpresented :
      Presentation ⊎ ((e : OAuthError) × (refresh_token server env input db ≡ (err e, db)))
  unfolding refresh_token
  refresh_token_unpresented = elim (Option-cases input.refresh_token) [
    | inl n ↦ inr (missing (text "refresh_token"), rw n)
    | inr (plain, p) ↦ elim (Option-cases (get input.client_id server.clients)) [
      | inl n ↦ inr (bauth.OAuth.invalid_client, rw (p, n))
      | inr (client, c) ↦
          elim (Option-cases (RefreshTokens.find_for_update (hash server.crypto plain) db)) [
            | inl n ↦
                inr (bauth.OAuth.invalid_grant (text "refresh token is invalid"), rw (p, c, n))
            | inr (current, f) ↦ elim (Bool-cases (current.client_id =? client.id)) [
              | inr n ↦ inr (
                bauth.OAuth.invalid_grant (text "refresh token was issued to another client"),
                rw (p, c, f, n),
              )
              | inl same ↦
                  elim (Bool-cases (
                    is_some current.session_revoked_at || leb current.session_expires_at env.now)) [
                      | inl n ↦ inr (
                        bauth.OAuth.invalid_grant (text "session is expired or revoked"),
                        rw (p, c, f, same, n),
                      )
                      | inr live ↦ inl (record {
                        plain = plain;
                        client = client;
                        current = current;
                        presented = record {
                          given = p;
                          known = c;
                          found = f;
                          owner = =?_sound _ _ same;
                          unrevoked = ground arith;
                          unexpired = ground arith;
                        };
                      })
                    ]
            ]
          ]
    ]
  ]

  -- The check for reuse of the token presented.
  abbrev pub reuse : Presentation → Bool × Db
  reuse p = check_reuse server env p.current.id p.current.superseded_at p.current.rotated_at db

  -- What a rotation that answers with tokens has checked, and what it did.
  pub record IsRotated (client : Client) (current : RefreshTokenWithSession) (tx : Db)
      (answer : TokenResponse) (left : Db) : Type 0 where
    pub active : is_inactive (Users.find_by_id current.user_id tx) ≡ false
    pub access : IssuedAccessToken
    pub rotated :
        new_refresh_token server.crypto env current.session_id (some current.id) tx
        ≡ ok (answer.refresh_token, left)
    pub issued : issue server env current.user_id current.session_id client ≡ ok access
    pub token : answer.access_token ≡ access.token

  refresh_checked_inv :
      (client : Client) (current : RefreshTokenWithSession) (stolen : Bool) (tx : Db)
      (answer : TokenResponse)
      → (finish db (refresh_checked server env client current stolen tx)).0 ≡ ok answer
      → (stolen ≡ false)
        × IsRotated client current tx answer
            (finish db (refresh_checked server env client current stolen tx)).1
  unfolding refresh_checked rotate
  refresh_checked_inv client current true tx answer e = absurd (ground arith)
  refresh_checked_inv client current false tx answer e =
      elim (Bool-cases (is_inactive (Users.find_by_id current.user_id tx))) [
        | inl n ↦ absurd (ground arith)
        | inr active ↦
            elim (Result-cases
              (new_refresh_token server.crypto env current.session_id (some current.id) tx)) [
                | inr (bad, n) ↦ absurd (ground arith)
                | inl ((plain, made), r) ↦
                    elim (Result-cases
                      (issue server env current.user_id current.session_id client)) [
                        | inr (bad, n) ↦ absurd (ground arith)
                        | inl (access, i) ↦ (
                          refl,
                          record {
                            active = active;
                            access = access;
                            rotated = ground arith;
                            issued = i;
                            token = ground arith;
                          },
                        )
                      ]
              ]
      ]

  -- The token was presented by its client, was no stolen copy, and was rotated.
  pub record IsRefreshed (answer : TokenResponse) (left : Db) : Type 0 where
    pub presentation : Presentation
    pub not_stolen : (reuse presentation).0 ≡ false
    pub rotation :
        IsRotated presentation.client presentation.current (reuse presentation).1 answer left

  -- If a refresh answers with tokens, then its token was presented by the client that it was
  -- issued to on a session that is neither revoked nor expired, the check for reuse did not call
  -- it stolen, the account is active after that check, the refresh token of the answer is a new
  -- child of the token in the same session, and the access token is the one issued for the
  -- session.
  pub refresh_token_granted :
      (answer : TokenResponse)
      → (refresh_token server env input db).0 ≡ ok answer
      → IsRefreshed answer (refresh_token server env input db).1
  refresh_token_granted answer e = elim refresh_token_unpresented [
    | inr (bad, same) ↦ absurd (ground (arith, same))
    | inl p ↦
        let here = refresh_token_lem server env input db p.plain p.client p.current p.presented in
        let (not_stolen, rotation) =
          refresh_checked_inv p.client p.current (reuse p).0 (reuse p).1 answer (rw (← here) e) in
        record { presentation = p; not_stolen = not_stolen; rotation = rw here rotation }
  ]
