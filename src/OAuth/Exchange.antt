-- ===== src/OAuth/Exchange.antt =====
-- `authorization_code` of bauth_server/src/routes/oauth.rs: what an exchange checks.
use bauth.Base.{
  ◌≡◌, refl, ◌⊎◌, inl, inr, true, false, ok, err, ◌=?◌, =?_sound, Result-cases, Bool-cases,
}
use bauth.Base.Text.{Text, text}
use bauth.Clients.{Client}
use bauth.Schema.{Db}
use bauth.Server.{Server, Env}
use bauth.Pkce.{verify}
use bauth.AccessToken.{issue, IssuedAccessToken}
use bauth.Sessions.{OpenedSession, open_session}
use bauth.Queries.Users
use bauth.Queries.AuthorizationCodes.{ConsumedCode}
use bauth.OAuth.{TokenRequest, TokenResponse, is_inactive, exchange, authorization_code, finish}

module _ (server : Server) (env : Env) (input : TokenRequest) (redirect_uri code_verifier : Text)
    (client : Client) (consumed : ConsumedCode) (tx : Db) where
  -- Everything that a successful exchange has checked, and what it did.
  pub record IsExchanged (answer : TokenResponse) (left : Db) : Type 0 where
    pub same_client : consumed.client_id ≡ client.id
    pub same_redirect : consumed.redirect_uri ≡ redirect_uri
    pub verified : verify server.crypto code_verifier consumed.code_challenge ≡ true
    pub active : is_inactive (Users.find_by_id consumed.user_id tx) ≡ false
    pub session : OpenedSession
    pub access : IssuedAccessToken
    pub opened :
        open_session server.crypto env consumed.user_id client.id consumed.id tx
        ≡ ok (session, left)
    pub issued : issue server env consumed.user_id session.session_id client ≡ ok access
    pub refresh : answer.refresh_token ≡ session.refresh_token
    pub token : answer.access_token ≡ access.token

  -- An exchange fails, or it has checked everything.
  pub exchange_cases :
      ((e : bauth.OAuth.OAuthError) × (exchange server env input redirect_uri code_verifier client
            consumed tx
          ≡ err e))
      ⊎ ((answer : TokenResponse) × (left : Db) × (exchange server env input redirect_uri
              code_verifier client consumed tx
            ≡ ok (ok answer, left))
          × IsExchanged answer left)
  unfolding exchange
  exchange_cases = elim (Bool-cases (consumed.client_id =? client.id)) [
    | inr n ↦ inl (bauth.OAuth.invalid_grant (text "code was issued to another client"), rw n)
    | inl same_client ↦ elim (Bool-cases (consumed.redirect_uri =? redirect_uri)) [
      | inr n ↦
          inl (bauth.OAuth.invalid_grant (text "redirect_uri does not match"), rw (same_client, n))
      | inl same_redirect ↦
          elim (Bool-cases (verify server.crypto code_verifier consumed.code_challenge)) [
            | inr n ↦ inl (
              bauth.OAuth.invalid_grant (text "code_verifier does not match"),
              rw (same_client, same_redirect, n),
            )
            | inl verified ↦
                elim (Bool-cases (is_inactive (Users.find_by_id consumed.user_id tx))) [
                  | inl n ↦ inl (
                    bauth.OAuth.invalid_grant (text "account is disabled"),
                    rw (same_client, same_redirect, verified, n),
                  )
                  | inr active ↦
                      elim (Result-cases (
                        open_session server.crypto env consumed.user_id client.id consumed.id tx)) [
                          | inr (e, n) ↦ inl (
                            bauth.OAuth.server_error,
                            rw (same_client, same_redirect, verified, active, n),
                          )
                          | inl ((session, left), opened) ↦
                              elim (Result-cases
                                (issue server env consumed.user_id session.session_id client)) [
                                  | inr (e, n) ↦ inl (
                                    bauth.OAuth.server_error,
                                    rw (same_client, same_redirect, verified, active, opened, n),
                                  )
                                  | inl (access, issued) ↦ inr (
                                    record {
                                      access_token = access.token;
                                      token_type = text "Bearer";
                                      expires_in = access.expires_in;
                                      refresh_token = session.refresh_token;
                                    },
                                    left,
                                    rw (
                                      same_client, same_redirect, verified, active, opened, issued,
                                    ),
                                    record {
                                      same_client = =?_sound _ _ same_client;
                                      same_redirect = =?_sound _ _ same_redirect;
                                      verified = verified;
                                      active = active;
                                      session = session;
                                      access = access;
                                      opened = opened;
                                      issued = issued;
                                      refresh = refl;
                                      token = refl;
                                    },
                                  )
                                ]
                        ]
                ]
          ]
    ]
  ]
