-- ===== src/Tests/Flows.antt =====
-- The token endpoint on the fixtures.
use bauth.Base.{
  ℕ, ◌≤◌, ◌≡◌, refl, sym, ◌∙◌, ◌↔◌, ◌=?◌, inl, inr, true, false, List, [], ◌∷◌, none, some, Option,
  ok, err, arith,
}
use bauth.Base.Text.{text}
use bauth.Base.Table.Laws.{All-find}
use bauth.OAuth.{TokenRequest, TokenResponse, authorization_code, refresh_token, invalid_grant}
use bauth.OAuth.Code.{IsComplete}
use bauth.OAuth.Refresh
use bauth.OAuth.Refresh.{IsStolen, IsPresented, IsKilled}
use bauth.OAuth.Replay
use bauth.OAuth.Replay.{IsGranted}
use bauth.Queries.AuthorizationCodes
use bauth.Queries.AuthorizationCodes.{ConsumedCode}
use bauth.Queries.RefreshTokens.{RefreshTokenWithSession, joined}
use bauth.Queries.RefreshTokens
use bauth.Schema.{Db}
use bauth.Server.{Env}
use bauth.Token.{hash}
use bauth.Tests.Fixtures.{
  server, plain_crypto, at, db, web, verifier, session, parent_token, exchange_request,
  refresh_request, code,
}

abbrev pub exchanging : Env
exchanging = at 5_000_000 31 (text "r1")

abbrev pub exchanged : TokenResponse
exchanged = record {
  access_token = text "jwt";
  token_type = text "Bearer";
  expires_in = 900;
  refresh_token = text "r1";
}

exchange_answer : (authorization_code server exchanging exchange_request db).0 ≡ ok exchanged
unfolding authorization_code bauth.Clients.get bauth.Base.Table.find ◌=?◌ AuthorizationCodes.consume
    bauth.Base.Table.exists bauth.Base.Table.update bauth.Base.Text.bytes
    bauth.Queries.Sessions.create hash bauth.Pkce.verify bauth.Sessions.open_session
    RefreshTokens.create bauth.AccessToken.issue
exchange_answer = refl

unfoldable pub exchange_complete : IsComplete server exchange_request
unfolding bauth.Clients.get bauth.Base.Table.find ◌=?◌
exchange_complete = record {
  code = text "code";
  redirect_uri = text "https://app/cb";
  code_verifier = verifier;
  client = web;
  code_given = refl;
  redirect_given = refl;
  verifier_given = refl;
  client_known = refl;
}

pub exchange_granted :
    IsGranted server exchanging exchange_request db exchanged
      (authorization_code server exchanging exchange_request db).1
exchange_granted =
    Replay.authorization_code_granted server exchanging exchange_request db exchanged
      exchange_answer

pub same_code : exchange_complete.code ≡ exchange_granted.request.code
unfolding exchange_complete
same_code =
    let given : exchange_request.code ≡ some exchange_granted.request.code =
      exchange_granted.request.code_given in
    ground arith

consumed_id : 20 ≡ exchange_granted.consumed.id
consumed_id =
    let c = exchange_granted.consumption in
    let row : c.code.id ≡ 20 =
      All-find (λ a. a.id ≡ 20) _ db.authorization_codes (refl, tt) c.found in
    sym (c.same_id ∙ row)

-- A second presentation, eleven seconds later.
authorization_code-replay_example :
    let again =
      authorization_code server
        (at 16_000_000 32 (text "r2"))
        exchange_request
        (authorization_code server exchanging exchange_request db).1 in
    (again.0 ≡ err (invalid_grant (text "code is invalid, expired or already used")))
    × IsKilled 31 again.1
authorization_code-replay_example =
    Replay.authorization_code-replay server exchanging (at 16_000_000 32 (text "r2"))
      exchange_request exchange_request db exchanged exchange_granted exchange_complete same_code
      (omega arith) ((λ hit. consumed_id), tt)

abbrev stolen_request : Env
stolen_request = at 60_000_000 42 (text "r3")

presented :
    IsPresented server stolen_request refresh_request db
      (text "old")
      web
      (joined parent_token session)
unfolding bauth.Clients.get bauth.Base.Table.find ◌=?◌ RefreshTokens.find_for_update hash
    bauth.Base.Text.bytes
presented = record {
  given = refl;
  known = refl;
  found = refl;
  owner = refl;
  unrevoked = refl;
  unexpired = omega arith;
}

stolen : IsStolen stolen_request 40 none (some 1) db
unfolding IsStolen RefreshTokens.has_used_successor bauth.Base.Table.exists
stolen = inr (1, refl, refl, omega arith, refl)

refresh_token-stolen_example :
    ((refresh_token server stolen_request refresh_request db).0
      ≡ err (invalid_grant (text "refresh token was already used")))
    × IsKilled 30 (refresh_token server stolen_request refresh_request db).1
refresh_token-stolen_example =
    Refresh.refresh_token-stolen server stolen_request refresh_request db (text "old") web
      (joined parent_token session) presented stolen

-- A verifier that does not match.
abbrev wrong_request : TokenRequest
wrong_request = record exchange_request { code_verifier = some (text "wrong") }

unfoldable wrong_complete : IsComplete server wrong_request
unfolding bauth.Clients.get bauth.Base.Table.find ◌=?◌
wrong_complete = record {
  code = text "code";
  redirect_uri = text "https://app/cb";
  code_verifier = text "wrong";
  client = web;
  code_given = refl;
  redirect_given = refl;
  verifier_given = refl;
  client_known = refl;
}

abbrev consumed : ConsumedCode
consumed = record {
  id = 20;
  user_id = 1;
  client_id = text "web";
  redirect_uri = text "https://app/cb";
  code_challenge = verifier;
}

abbrev consumed_db : Db
consumed_db = record db { authorization_codes = record code { consumed_at = some 5_000_000 } ∷ [] }

wrong_consumes :
    AuthorizationCodes.consume 5_000_000 (hash plain_crypto (text "code")) db
    ≡ some (consumed, consumed_db)
unfolding AuthorizationCodes.consume bauth.Base.Table.find bauth.Base.Table.update ◌=?◌ hash
    bauth.Base.Text.bytes
wrong_consumes = refl

wrong_answer :
    (authorization_code server exchanging wrong_request db).0
    ≡ err (invalid_grant (text "code_verifier does not match"))
unfolding authorization_code bauth.Clients.get bauth.Base.Table.find ◌=?◌ AuthorizationCodes.consume
    bauth.Base.Table.exists bauth.Base.Table.update bauth.Base.Text.bytes
    bauth.Queries.Sessions.create hash bauth.Pkce.verify bauth.Sessions.open_session
    RefreshTokens.create bauth.AccessToken.issue
wrong_answer = refl

authorization_code_refused_example : (authorization_code server exchanging wrong_request db).1 ≡ db
unfolding wrong_complete
authorization_code_refused_example =
    Replay.authorization_code_refused server exchanging wrong_request db wrong_complete consumed
      consumed_db wrong_consumes (invalid_grant (text "code_verifier does not match")) wrong_answer
