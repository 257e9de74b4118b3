-- ===== src/Tests/Refreshes.antt =====
-- A retry within the grace period: the token gives a second child.
use bauth.Base.{ℕ, ◌≡◌, refl, ◌=?◌, some, ok}
use bauth.Base.Text.{text}
use bauth.OAuth.{TokenRequest, TokenResponse, refresh_token}
use bauth.OAuth.Refreshed
use bauth.OAuth.Refreshed.{IsRefreshed}
use bauth.Queries.RefreshTokens
use bauth.Server.{Env}
use bauth.Token.{hash}
use bauth.Tests.Fixtures.{server, at, db, refresh_request}

abbrev retrying : Env
retrying = at 20_000_000 43 (text "r9")

abbrev retry_request : TokenRequest
retry_request = record refresh_request { refresh_token = some (text "new") }

abbrev retried : TokenResponse
retried = record {
  access_token = text "jwt";
  token_type = text "Bearer";
  expires_in = 900;
  refresh_token = text "r9";
}

retry_answer : (refresh_token server retrying retry_request db).0 ≡ ok retried
unfolding refresh_token bauth.Clients.get bauth.Base.Table.find ◌=?◌ RefreshTokens.find_for_update
    bauth.Base.Table.exists bauth.Base.Table.update bauth.Base.Text.bytes hash RefreshTokens.create
    bauth.AccessToken.issue bauth.Sessions.new_refresh_token
retry_answer = refl

refresh_token_granted_example :
    IsRefreshed server retrying retry_request db retried
      (refresh_token server retrying retry_request db).1
refresh_token_granted_example =
    Refreshed.refresh_token_granted server retrying retry_request db retried retry_answer
