-- ===== src/System/Runs.antt =====
-- Runs of requests to the handlers of bauth_server/src/routes.
use bauth.Base.{
  ℕ, ◌+◌, ◌<◌, ◌≤◌, ◌≡◌, refl, ◌∙◌, inl, inr, true, false, List, [], ◌∷◌, none, err, All, All-map,
  ◌&&◌, ◌==◌, ◌=?◌, is_some, Option-cases, arith,
}
use bauth.Base.Text.{Text, text}
use bauth.Base.Table.{find, exists, sum}
use bauth.Base.Table.Laws.{All-find, find_sound, exists_of_find, exists_mono, exists-update}
use bauth.Handler.{App, Verdict}
use bauth.MagicLink.Budget.{IsBudgeted, IsBudgeted-later}
use bauth.OAuth.{TokenRequest, TokenResponse, invalid_grant, authorization_code}
use bauth.OAuth.Code.{IsComplete, authorization_code_unusable}
use bauth.OAuth.Consume.{consume_again, update_unusable}
use bauth.OAuth.Refresh.{IsKilled}
use bauth.OAuth.Replay.{IsGranted, opened_by_grant}
use bauth.Queries.AuthorizationCodes
use bauth.Queries.Sessions
use bauth.Schema.{Db}
use bauth.Server.{Server, Env}
use bauth.Token
use bauth.System.{
  Call, token, revoke, create, request_link, confirm_link, confirm_code, step, run, IsOrdered,
  last_now,
}
use bauth.System.Stable.{IsStable}
use bauth.System.Requests.{token_keeps, revoke_keeps}
use bauth.System.Logins.{create_flow_keeps, request_keeps, confirm_keeps, confirm_code_keeps}
use bauth.System.Killed.{IsKilled-IsStable}
use bauth.System.Links.{IsBudgeted-IsStable}
use bauth.System.Guessed.{IsGuessed-IsStable}
use bauth.MagicLink.Guesses.{
  IsGuessed, IsGuessed-later, IsGuessed-start, IsGuessed-day, wrong_codes, dead,
}
use bauth.MagicCode.{code_ttl}
use bauth.Base.Time.{days}
use bauth.System.Flows.{IsPaced, IsPaced-IsStable}
use bauth.System.Spent.{IsSpent, IsSpent-IsStable}

module _ (server : Server) (verdict : Verdict) where
  -- What every statement keeps, every request keeps.
  pub step_keeps :
      (P : Db → Type 0) (env : Env) (call : Call) (app : App)
      → IsStable server.lower env.now P
      → P app.db
      → P (step server verdict env call app).db
  unfolding step
  step_keeps P env (token input) app st h = token_keeps server env P st input app.db h
  step_keeps P env (revoke input) app st h = revoke_keeps server env P st input app.db h
  step_keeps P env (create input) app st h = create_flow_keeps server verdict env P st input app h
  step_keeps P env (request_link ip flow_id email) app st h =
      request_keeps server verdict env P st ip flow_id email app h
  step_keeps P env (confirm_link ip secret) app st h =
      confirm_keeps server verdict env P st ip secret app h
  step_keeps P env (confirm_code ip flow_id code) app st h =
      confirm_code_keeps server verdict env P st ip flow_id code app h

  run_keeps :
      (P : Db → Type 0)
      → ((now : ℕ) → IsStable server.lower now P)
      → (calls : List (Env × Call)) (app : App) → P app.db
      → P (run server verdict calls app).db
  unfolding run
  run_keeps P st [] app h = h
  run_keeps P st ((env, call) ∷ calls) app h =
      run_keeps P st calls _ (step_keeps P env call app (st env.now) h)

  -- If a session is in the table and revoked, then after whatever login, token and revocation
  -- requests, at whatever time, `find_authenticated` does not find it.
  pub find_authenticated-killed :
      (sid : ℕ) (calls : List (Env × Call)) (app : App)
      → IsKilled sid app.db
      → (now : ℕ) → Sessions.find_authenticated now sid (run server verdict calls app).db ≡ none
  unfolding Sessions.find_authenticated
  find_authenticated-killed sid calls app k now =
      let after : IsKilled sid (run server verdict calls app).db =
        run_keeps (IsKilled sid) (IsKilled-IsStable sid server.lower) calls app k in
      let rows = (run server verdict calls app).db.sessions in
      elim (Option-cases (find (λ s. (s.id == sid) && Sessions.is_live now s) rows)) [
        | inl n ↦ rw (n, Sessions.find_authenticated) refl
        | inr (s, found) ↦
            let hit : ((s.id == sid) && Sessions.is_live now s) ≡ true = find_sound _ rows found in
            let dead : s.id ≡ sid → is_some s.revoked_at ≡ true =
              All-find (λ t. t.id ≡ sid → is_some t.revoked_at ≡ true) _ rows after.1 found in
            absurd (ground arith)
      ]

  -- Along a run of login, token and revocation requests whose clock does not go back, from a
  -- database within the budget of wrong codes: link ids stay distinct, no email has more than
  -- five wrong codes and one with five is consumed, and the emails created for an address in the
  -- last day have no more than ten wrong codes together, at the time of the last request.
  pub run-IsBudgeted :
      (calls : List (Env × Call)) (now : ℕ) (app : App)
      → IsOrdered now calls
      → IsBudgeted now app.db.magic_links
      → IsBudgeted (last_now now calls) (run server verdict calls app).db.magic_links
  unfolding run
  run-IsBudgeted [] now app o b = b
  run-IsBudgeted ((env, call) ∷ calls) now app o b = run-IsBudgeted calls env.now _ o.1 (
      step_keeps (λ db. IsBudgeted env.now db.magic_links) env call app
        (IsBudgeted-IsStable server.lower env.now)
        (IsBudgeted-later now env.now app.db.magic_links o.0 b))

  run-IsGuessed :
      (start spent : ℕ) (email : Text) (calls : List (Env × Call)) (now : ℕ) (app : App)
      → start ≤ now
      → IsOrdered now calls
      → IsGuessed start spent email now app.db.magic_links
      → IsGuessed start spent email
          (last_now now calls)
          (run server verdict calls app).db.magic_links
  unfolding run
  run-IsGuessed start spent email [] now app s o g = g
  run-IsGuessed start spent email ((env, call) ∷ calls) now app s o g =
      let begun : start ≤ env.now = omega (arith, o.0) in
      run-IsGuessed start spent email calls env.now _ begun o.1 (
        step_keeps (λ db. IsGuessed start spent email env.now db.magic_links) env call app
          (IsGuessed-IsStable server.lower start spent email env.now begun)
          (IsGuessed-later start spent email now s env.now app.db.magic_links o.0 g))

  -- Along a run of login, token and revocation requests whose clock does not go back, and that
  -- ends less than a day after a start: if at the start the database is within the budget of
  -- wrong codes and no email expires later than 15 minutes after its creation, then the wrong
  -- codes of all emails of an address grow by no more than twenty.
  pub run-wrong_codes :
      (calls : List (Env × Call)) (start : ℕ) (app : App) (email : Text)
      → IsOrdered start calls
      → last_now start calls < start + days 1
      → IsBudgeted start app.db.magic_links
      → All (λ m. m.expires_at ≤ m.created_at + code_ttl) app.db.magic_links
      → sum
          (λ m. m.code_failures)
          (λ m. m.email =? email)
          (run server verdict calls app).db.magic_links
        ≤ sum (λ m. m.code_failures) (λ m. m.email =? email) app.db.magic_links + 20
  run-wrong_codes calls start app email ordered soon b timed =
      IsGuessed-day start (last_now start calls) email app.db.magic_links _ soon (
        run-IsGuessed start (wrong_codes (dead start email) app.db.magic_links) email calls start
          app (omega arith) ordered (IsGuessed-start start email app.db.magic_links b timed))

  -- Along a run of login, token and revocation requests, from a database where it holds: no
  -- login flow counts more than three emails, and each flow ends within 15 minutes of its
  -- creation and 15 minutes more for each email.
  pub run-IsPaced :
      (calls : List (Env × Call)) (app : App)
      → All IsPaced app.db.login_flows
      → All IsPaced (run server verdict calls app).db.login_flows
  run-IsPaced calls app h =
      run_keeps (λ db. All IsPaced db.login_flows) (IsPaced-IsStable server.lower) calls app h

  -- A spent code gives no tokens.
  spent_refused :
      (env : Env) (input : TokenRequest) (db : Db) (at : ℕ) (r : IsComplete server input)
      → IsSpent (Token.hash server.crypto r.code) at db
      → at ≤ env.now
      → (authorization_code server env input db).0
        ≡ err (invalid_grant (text "code is invalid, expired or already used"))
  spent_refused env input db at r spent le =
      let h = Token.hash server.crypto r.code in
      let gone : AuthorizationCodes.consume env.now h db ≡ none = consume_again env.now h db (
        All-map (λ c. AuthorizationCodes.is_usable at h c ≡ false)
          (λ c. AuthorizationCodes.is_usable env.now h c ≡ false) (λ c no. ground arith)
          db.authorization_codes spent.1) in
      rw (authorization_code_unusable server env input db r gone) refl

  IsSpent-by_grant :
      (env : Env) (input : TokenRequest) (db : Db) (answer : TokenResponse) (left : Db)
      (g : IsGranted server env input db answer left)
      → IsSpent (Token.hash server.crypto g.request.code) env.now left
  IsSpent-by_grant env input db answer left g =
      let h = Token.hash server.crypto g.request.code in
      let usable = AuthorizationCodes.is_usable env.now h in
      let there : exists usable db.authorization_codes ≡ true =
        exists_of_find usable db.authorization_codes g.consumption.found in
      let listed : exists (λ c. c.code_hash =? h) db.authorization_codes ≡ true =
        exists_mono usable (λ c. c.code_hash =? h) (λ c e. ground arith) db.authorization_codes
          there in
      rw (← (opened_by_grant server env input db answer left g).2) (
        exists-update (λ c. c.code_hash =? h) usable (AuthorizationCodes.mark_consumed env.now)
              (λ a. refl) db.authorization_codes
            ∙ listed,
        update_unusable env.now h db env.now (omega arith),
      )

  -- An authorization code that was exchanged for tokens is refused as `invalid_grant` after
  -- whatever login, token and revocation requests of whatever clients, for any complete request
  -- that presents it at a time not before the exchange.
  pub authorization_code-once :
      (env later : Env) (input input' : TokenRequest) (app : App) (answer : TokenResponse)
      (calls : List (Env × Call))
      (g : IsGranted server env input app.db answer (authorization_code server env input app.db).1)
      (r : IsComplete server input')
      → r.code ≡ g.request.code
      → env.now ≤ later.now
      → let left = record app { db = (authorization_code server env input app.db).1 } in
        (authorization_code server later input' (run server verdict calls left).db).0
        ≡ err (invalid_grant (text "code is invalid, expired or already used"))
  authorization_code-once env later input input' app answer calls g r same le =
      let left : App = record app { db = (authorization_code server env input app.db).1 } in
      let h = Token.hash server.crypto g.request.code in
      let spent : IsSpent h env.now left.db = IsSpent-by_grant env input app.db answer left.db g in
      let after : IsSpent h env.now (run server verdict calls left).db =
        run_keeps (IsSpent h env.now) (IsSpent-IsStable h env.now server.lower) calls left spent in
      spent_refused later input' _ env.now r (rw same after) le
