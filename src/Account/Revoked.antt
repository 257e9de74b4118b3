-- ===== src/Account/Revoked.antt =====
-- `DELETE /me/sessions/{id}` of bauth_server/src/routes/me.rs, and what comes after.
use bauth.Base.{
  ℕ, ◌≡◌, ◌≢◌, ◌==◌, refl, inl, inr, true, some, ok, is_some, List, All, All-map, Option,
  Bool-cases, arith, ◌∙◌,
}
use bauth.Base.Text.{Text}
use bauth.Base.Table.{exists, update, count}
use bauth.Base.Table.Laws.{
  exists_of_count, exists_mono, exists-update, find_of_exists, find_sound, All-find,
  All-update_both,
}
use bauth.Base.Table.Keys.{Distinct, All-Distinct}
use bauth.Account.{revoke_session}
use bauth.CurrentUser.{CurrentUser, Jwt, current_user}
use bauth.CurrentUser.Checked.{authenticated}
use bauth.Handler.{App, Verdict}
use bauth.OAuth.Refresh.{IsKilled}
use bauth.Queries.Sessions
use bauth.Queries.Sessions.{of_user, set_revoked}
use bauth.Schema.{Session}
use bauth.Server.{Server, Env}
use bauth.System.{Call, run}
use bauth.System.Runs

-- One row has the id, and it passes the test.
passes :
    (id user_id : ℕ) (rows : List Session)
    → Distinct (λ (s : Session). s.id) rows
    → exists (of_user id user_id) rows ≡ true
    → All (λ s. s.id ≡ id → of_user id user_id s ≡ true) rows
passes id user_id rows d e =
    let (a, found) = find_of_exists (of_user id user_id) rows e in
    let hit = find_sound (of_user id user_id) rows found in
    All-map _ (λ s. s.id ≡ id → of_user id user_id s ≡ true)
      (λ (s : Session) same mine. ground (arith, same, hit)) rows
      (All-find (λ (a : Session). All (λ b. b.id ≡ a.id → b ≡ a) rows) (of_user id user_id) rows
        (All-Distinct (λ (s : Session). s.id) rows d) found)

revoke_session-IsKilled :
    (now : ℕ) (user : CurrentUser) (session_id : ℕ) (app left : App)
    → Distinct (λ (s : Session). s.id) app.db.sessions
    → revoke_session now user session_id app ≡ (ok tt, left)
    → IsKilled session_id left.db
unfolding revoke_session Sessions.revoke_for_user
revoke_session-IsKilled now user session_id app left d e =
    let test = of_user session_id user.id in
    let rows : left.db.sessions ≡ update test (set_revoked now) app.db.sessions = ground arith in
    elim (Bool-cases (count test app.db.sessions == 1)) [
      | inr missed ↦ absurd (ground arith)
      | inl one ↦
          let hit = exists_of_count test app.db.sessions one in
          rw rows (
            exists-update (λ s. s.id == session_id) test (set_revoked now) (λ a. refl)
                  app.db.sessions
                ∙ exists_mono test (λ s. s.id == session_id) (λ s t. ground arith) app.db.sessions
                    hit,
            All-update_both (λ s. s.id ≡ session_id → test s ≡ true)
                (λ s. s.id ≡ session_id → is_some s.revoked_at ≡ true) test (set_revoked now)
                (λ s t h k. refl) (λ s t h k. absurd (ground arith)) app.db.sessions
                (passes session_id user.id app.db.sessions d hit),
          )
    ]

-- If session ids are distinct and a user revokes a session with success, then after whatever
-- login, token and revocation requests, at whatever time, no request is authenticated with this
-- session.
pub revoke_session-current_user :
    (server : Server) (verdict : Verdict) (jwt : Jwt) (now later : ℕ) (user next : CurrentUser)
    (session_id : ℕ) (app left : App) (calls : List (Env × Call)) (authorization : Option Text)
    → Distinct (λ (s : Session). s.id) app.db.sessions
    → revoke_session now user session_id app ≡ (ok tt, left)
    → current_user server jwt later authorization (run server verdict calls left).db ≡ ok next
    → next.session_id ≢ session_id
revoke_session-current_user server verdict jwt now later user next session_id app left calls
      authorization d e f same =
    let killed = revoke_session-IsKilled now user session_id app left d e in
    let a =
      authenticated server jwt later authorization (run server verdict calls left).db next f in
    let gone = Runs.find_authenticated-killed server verdict session_id calls left killed later in
    let here : a.claims.sid ≡ session_id = ground (arith, a.same) in
    let there : Sessions.find_authenticated later session_id (run server verdict calls left).db
        ≡ some a.session =
      rw (← here) a.live in
    ground (arith, gone, there)
