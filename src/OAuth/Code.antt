-- ===== src/OAuth/Code.antt =====
-- `authorization_code` of bauth_server/src/routes/oauth.rs, by its branches.
use bauth.Base.{ℕ, ◌≡◌, ◌⊎◌, inl, inr, some, none, err, List, Option-cases}
use bauth.Base.Text.{Text, text}
use bauth.Clients.{Client, get}
use bauth.Schema.{Db}
use bauth.Server.{Server, Env}
use bauth.Token.{hash}
use bauth.Queries.AuthorizationCodes
use bauth.Queries.AuthorizationCodes.{ConsumedCode, is_usable, mark_consumed}
use bauth.OAuth.{
  TokenRequest, TokenResponse, Reply, OAuthError, invalid_grant, missing, finish, exchange,
  reject_unusable_code, authorization_code,
}

-- The parameters that the request must have, and its client.
pub record IsComplete (server : Server) (input : TokenRequest) : Type 0 where
  pub code : Text
  pub redirect_uri : Text
  pub code_verifier : Text
  pub client : Client
  pub code_given : input.code ≡ some code
  pub redirect_given : input.redirect_uri ≡ some redirect_uri
  pub verifier_given : input.code_verifier ≡ some code_verifier
  pub client_known : get input.client_id server.clients ≡ some client

module _ (server : Server) (env : Env) (input : TokenRequest) (db : Db) where
  pub authorization_code_incomplete :
      IsComplete server input
      ⊎ ((e : OAuthError) × (authorization_code server env input db ≡ (err e, db)))
  unfolding authorization_code
  authorization_code_incomplete = elim (Option-cases input.code) [
    | inl n ↦ inr (missing (text "code"), rw n)
    | inr (code, c) ↦ elim (Option-cases input.redirect_uri) [
      | inl n ↦ inr (missing (text "redirect_uri"), rw (c, n))
      | inr (uri, u) ↦ elim (Option-cases input.code_verifier) [
        | inl n ↦ inr (missing (text "code_verifier"), rw (c, u, n))
        | inr (verifier, v) ↦ elim (Option-cases (get input.client_id server.clients)) [
          | inl n ↦ inr (bauth.OAuth.invalid_client, rw (c, u, v, n))
          | inr (client, k) ↦ inl (record {
            code = code;
            redirect_uri = uri;
            code_verifier = verifier;
            client = client;
            code_given = c;
            redirect_given = u;
            verifier_given = v;
            client_known = k;
          })
        ]
      ]
    ]
  ]

  module _ (r : IsComplete server input) where
    open r use {code, redirect_uri, code_verifier, client}

    abbrev pub code_hash : List ℕ
    code_hash = hash server.crypto code

    pub authorization_code_unusable :
        AuthorizationCodes.consume env.now code_hash db ≡ none
        → authorization_code server env input db ≡ (
          err (invalid_grant (text "code is invalid, expired or already used")),
          reject_unusable_code server env code_hash db,
        )
    unfolding authorization_code
    authorization_code_unusable n =
        rw (r.code_given, r.redirect_given, r.verifier_given, r.client_known, n)

    pub authorization_code_usable :
        (consumed : ConsumedCode) (tx : Db)
        → AuthorizationCodes.consume env.now code_hash db ≡ some (consumed, tx)
        → authorization_code server env input db
          ≡ finish db (exchange server env input redirect_uri code_verifier client consumed tx)
    unfolding authorization_code
    authorization_code_usable consumed tx s =
        rw (r.code_given, r.redirect_given, r.verifier_given, r.client_known, s)
