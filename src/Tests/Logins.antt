-- ===== src/Tests/Logins.antt =====
-- A login from its completion to the tokens, on the fixtures.
use bauth.Base.{ℕ, ◌≡◌, refl, ◌=?◌, none, some, ok, [], ◌∷◌, arith}
use bauth.Base.Text.{text}
use bauth.Base.Table.{find, update, exists, count}
use bauth.LoginFlow.{complete}
use bauth.OAuth.{TokenRequest, authorization_code}
use bauth.OAuth.Code.{IsComplete}
use bauth.OAuth.Completed.{completed}
use bauth.OAuth.Login
use bauth.Schema.{Db, LoginFlow}
use bauth.Server.{Env}
use bauth.Tests.Fixtures.{server, at, db, web, verifier, flow, exchange_request}

abbrev pending : LoginFlow
pending = record flow { completed_at = none }

abbrev pending_db : Db
pending_db = record db { login_flows = pending ∷ []; authorization_codes = [] }

abbrev completing : Env
completing = at 2_000_000 21 (text "c1")

abbrev exchanging : Env
exchanging = at 5_000_000 31 (text "r1")

abbrev request : TokenRequest
request = record exchange_request { code = some (text "c1") }

unfoldable request_complete : IsComplete server request
unfolding bauth.Clients.get find ◌=?◌
request_complete = record {
  code = text "c1";
  redirect_uri = text "https://app/cb";
  code_verifier = verifier;
  client = web;
  code_given = refl;
  redirect_given = refl;
  verifier_given = refl;
  client_known = refl;
}

complete-authorization_code_example :
    (authorization_code server exchanging request (completed server completing 10 1 pending_db)).0
    ≡ ok (record {
      access_token = text "jwt";
      token_type = text "Bearer";
      expires_in = 900;
      refresh_token = text "r1";
    })
unfolding request_complete find exists update count bauth.Token.generate ◌=?◌ complete
    bauth.Pkce.verify bauth.AccessToken.issue bauth.Queries.Users.find_by_id
    bauth.Queries.LoginFlows.complete bauth.Queries.AuthorizationCodes.create bauth.Base.Text.bytes
complete-authorization_code_example =
    Login.complete-authorization_code server completing exchanging 10 1 pending_db
      (completed server completing 10 1 pending_db) (text "c1") request request_complete pending
      (record { token = text "jwt"; expires_in = 900 }) refl refl refl refl refl refl (omega arith)
      refl refl refl refl
