-- ===== src/OAuth/Replay.antt =====
-- `authorization_code` of bauth_server/src/routes/oauth.rs: what a success means, what a refusal
-- leaves, and what a replay does.
use bauth.Base.{
  ℕ, ◌+◌, ◌≤◌, ◌≡◌, refl, ◌∙◌, inl, inr, Bool, true, false, some, none, ok, err, All, All-map, List,
  ◌∷◌, ◌==◌, ==_refl, is_just, is_some, if◌then◌else◌, Option-cases, Option, arith,
}
use bauth.Base.Text.{text}
use bauth.Base.Table.{exists, update}
use bauth.Base.Table.Laws.{exists-update, All-update, All-exists_false}
use bauth.Schema.{Db, Session}
use bauth.Server.{Server, Env}
use bauth.Token.{hash}
use bauth.Sessions.{session_ttl}
use bauth.Queries.AuthorizationCodes
use bauth.Queries.AuthorizationCodes.{ConsumedCode}
use bauth.Queries.Sessions
use bauth.OAuth.{
  TokenRequest, TokenResponse, invalid_grant, finish, reject_unusable_code, authorization_code,
}
use bauth.OAuth.Refresh.{IsKilled}
use bauth.OAuth.Opened.{new_session, open_session_inv}
use bauth.OAuth.Exchange.{IsExchanged, exchange_cases}
use bauth.OAuth.Consume.{
  IsConsumed, consume_inv, consume_again, update_unusable, find_consumed-consume,
}
use bauth.OAuth.Code.{
  IsComplete, authorization_code_incomplete, authorization_code_unusable, authorization_code_usable,
}

-- A request that was answered with tokens: its parameters, the code that it consumed, and every
-- check of the exchange.
pub record IsGranted (server : Server) (env : Env) (input : TokenRequest) (db : Db)
    (answer : TokenResponse) (left : Db) : Type 0 where
  pub request : IsComplete server input
  pub consumed : ConsumedCode
  pub tx : Db
  pub consumption : IsConsumed env.now (hash server.crypto request.code) db consumed tx
  pub checks :
      IsExchanged server env input request.redirect_uri request.code_verifier request.client
        consumed tx answer left

module _ (server : Server) (env : Env) (input : TokenRequest) (db : Db) where
  -- If the code exchange answers with tokens, then the request was complete, the code was
  -- pending and not expired, its flow has the client and the redirect URI of the request, the
  -- code verifier passes the check against the challenge of the flow, the account is active, and
  -- the tokens are those of the session opened and of the access token issued.
  pub authorization_code_granted :
      (answer : TokenResponse)
      → (authorization_code server env input db).0 ≡ ok answer
      → IsGranted server env input db answer (authorization_code server env input db).1
  authorization_code_granted answer e = elim (authorization_code_incomplete server env input db) [
    | inr (bad, same) ↦ absurd (ground (arith, same))
    | inl r ↦
        elim (Option-cases (AuthorizationCodes.consume env.now (hash server.crypto r.code) db)) [
          | inl n ↦ absurd (ground (arith, authorization_code_unusable server env input db r n))
          | inr ((consumed, tx), s) ↦
              let here = authorization_code_usable server env input db r consumed tx s in
              elim (exchange_cases server env input r.redirect_uri r.code_verifier r.client consumed
                tx) [
                  | inl (bad, n) ↦ absurd (ground (arith, here))
                  | inr (given, left, done, checks) ↦
                      let same : given ≡ answer = ground (arith, here) in
                      let after : (authorization_code server env input db).1 ≡ left =
                        ground (arith, here) in
                      rw (after, ← same)
                        (record {
                          request = r;
                          consumed = consumed;
                          tx = tx;
                          consumption =
                              consume_inv env.now (hash server.crypto r.code) db consumed tx s;
                          checks = checks;
                        })
                ]
        ]
  ]

  -- When a complete request presents a code that is usable and is answered with an error, the
  -- database is left as it was, so the code stays usable.
  pub authorization_code_refused :
      (r : IsComplete server input) (consumed : ConsumedCode) (tx : Db)
      → AuthorizationCodes.consume env.now (hash server.crypto r.code) db ≡ some (consumed, tx)
      → (e : bauth.OAuth.OAuthError) → (authorization_code server env input db).0 ≡ err e
      → (authorization_code server env input db).1 ≡ db
  authorization_code_refused r consumed tx s e h =
      let here = authorization_code_usable server env input db r consumed tx s in
      elim (exchange_cases server env input r.redirect_uri r.code_verifier r.client consumed tx) [
        | inl (bad, n) ↦ ground (arith, here)
        | inr (given, left, done, checks) ↦ absurd (ground (arith, here))
      ]

-- What a grant leaves: the code is consumed, and a new session holds its id.
module _ (server : Server) (env : Env) (input : TokenRequest) (db : Db) (answer : TokenResponse)
    (left : Db) (g : IsGranted server env input db answer left) where
  pub opened_by_grant :
      (exists
          (λ s. if s.id == env.id then true else is_just s.authorization_code_id g.consumed.id)
          db.sessions
        ≡ false)
      × (left.sessions
          ≡ new_session env.now env.id g.consumed.user_id g.request.client.id g.consumed.id
              (env.now + session_ttl)
            ∷ db.sessions)
      × (update
            (AuthorizationCodes.is_usable env.now (hash server.crypto g.request.code))
            (AuthorizationCodes.mark_consumed env.now)
            db.authorization_codes
          ≡ left.authorization_codes)
  opened_by_grant =
      let (fresh, sid, plain, after) =
        open_session_inv server.crypto env g.consumed.user_id g.request.client.id g.consumed.id g.tx
          g.checks.opened in
      let before = g.consumption.left in (ground arith, ground arith, ground arith)

-- No row of the table has the id: so each of them keeps the claim of a kill, whatever is revoked.
untouched :
    (now sid code_id : ℕ) (p : Session → Bool) (rest : List Session)
    → exists (λ t. if t.id == sid then true else is_just t.authorization_code_id code_id) rest
      ≡ false
    → All (λ s. s.id ≡ sid → is_some s.revoked_at ≡ true) (update p (Sessions.set_revoked now) rest)
untouched now sid code_id p rest fresh =
    All-update (λ s. s.id ≡ sid → is_some s.revoked_at ≡ true) p (Sessions.set_revoked now)
      (λ a h k e. refl) rest
      (All-map
        (λ t. (if t.id == sid then true else is_just t.authorization_code_id code_id) ≡ false)
        (λ s. s.id ≡ sid → is_some s.revoked_at ≡ true) (λ t miss same. absurd (ground arith)) rest
        (All-exists_false _ rest fresh))

-- Revoking by the code kills the session that was opened with it.
revoke_by_code-IsKilled :
    (now sid code_id : ℕ) (db : Db) (s : Session) (rest : List Session)
    → db.sessions ≡ s ∷ rest
    → s.id ≡ sid
    → s.authorization_code_id ≡ some code_id
    → exists (λ t. if t.id == sid then true else is_just t.authorization_code_id code_id) rest
      ≡ false
    → IsKilled sid (Sessions.revoke_by_authorization_code now code_id db).0
unfolding Sessions.revoke_by_authorization_code exists update
revoke_by_code-IsKilled now sid code_id db s rest e ids opened fresh = (
  exists-update (λ t. t.id == sid) _ _ (λ a. refl) db.sessions ∙ rw e (ground (arith, ==_refl sid)),
  rw e (
    head s.revoked_at refl,
    untouched now sid code_id (Sessions.by_authorization_code code_id) rest fresh,
  ),
)
  where
    head :
        (o : Option ℕ)
        → s.revoked_at ≡ o
        → (if Sessions.by_authorization_code code_id s then Sessions.set_revoked now s else s).id
          ≡ sid
        → is_some
            (if Sessions.by_authorization_code code_id s
              then Sessions.set_revoked now s
              else s).revoked_at
          ≡ true
    head o r k = rw (opened, ==_refl code_id) (ground arith)

-- After an exchange that was granted, where all rows with the hash of the code have its id,
-- presenting the code again in a complete request, not before the exchange, is answered
-- `invalid_grant`, and revokes the session that the exchange opened.
pub authorization_code-replay :
    (server : Server) (env later : Env) (input input' : TokenRequest) (db : Db)
    (answer : TokenResponse)
    (g : IsGranted server env input db answer (authorization_code server env input db).1)
    (r : IsComplete server input')
    → r.code ≡ g.request.code
    → env.now ≤ later.now
    → All
        (λ c. c.code_hash ≡ hash server.crypto g.request.code → c.id ≡ g.consumed.id)
        db.authorization_codes
    → let again =
        authorization_code server later input' (authorization_code server env input db).1 in
      (again.0 ≡ err (invalid_grant (text "code is invalid, expired or already used")))
      × IsKilled env.id again.1
unfolding reject_unusable_code
authorization_code-replay server env later input input' db answer g r same le unique =
    let left : Db = (authorization_code server env input db).1 in
    let (fresh, sessions, codes) = opened_by_grant server env input db answer left g in
    let h : List ℕ = hash server.crypto g.request.code in
    let gone : AuthorizationCodes.consume later.now h left ≡ none =
      consume_again later.now h left (rw codes at (update_unusable env.now h db later.now le)) in
    let found : AuthorizationCodes.find_consumed h left ≡ some g.consumed.id =
      find_consumed-consume env.now h g.consumed.id db g.consumption.code left unique
        g.consumption.found codes in
    let whole = authorization_code_unusable server later input' left r (rw same gone) in
    rw (whole, same)
      (
        refl,
        rw (found, reject_unusable_code)
            (revoke_by_code-IsKilled later.now env.id g.consumed.id left _ db.sessions sessions refl
              refl fresh),
      )
