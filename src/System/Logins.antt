-- ===== src/System/Logins.antt =====
-- bauth_server/src/routes/login.rs and magic_link.rs, for a property that the statements keep.
use bauth.Base.{
  ℕ, ◌+◌, ◌≡◌, refl, inl, inr, not, ◌||◌, Option, none, some, Result, ok, err, Option-cases,
  Result-cases, guard, ok_or, ltb, ◌=?◌, is_none, arith,
}
use bauth.Base.Text.{Text, text}
use bauth.Clients.{Client, get, allows_redirect_uri}
use bauth.Email.{is_valid}
use bauth.Errors.{
  ApiError, invalid_client, invalid_email, invalid_token, invalid_code, account_disabled,
  flow_expired, invalid_redirect_uri, invalid_code_challenge, invalid_request,
}
use bauth.Handler.{
  App, Verdict, check, charge_address, charge_email_ip, charge_token_ip, email_per_address_quota,
  email_per_ip_quota, token_per_ip_quota, email_key,
}
use bauth.LoginFlow
use bauth.LoginFlow.{CreateFlowRequest, create_flow, is_too_long, flow_ttl}
use bauth.MagicCode
use bauth.MagicCode.{max_failures_per_code, max_failures_per_day, check_format}
use bauth.MagicLink.{
  Recipient, max_emails_per_flow, from_sql, flow_exhausted, recipient_of, user_of, send, sent,
  count_and_send, request, account_for, log_in, confirm_body, confirm, confirm_code_body,
  confirm_code,
}
use bauth.MagicLink.Budget.{IsCandidate, find_code_candidate_inv}
use bauth.Pkce.{is_valid_challenge}
use bauth.Schema.{Db, MagicLink}
use bauth.Server.{Server, Env}
use bauth.Token
use bauth.Queries.Users
use bauth.Queries.LoginFlows
use bauth.Queries.LoginFlows.{PendingMagicLinkFlow}
use bauth.Queries.MagicLinks
use bauth.Queries.AuthorizationCodes
use bauth.System.Stable.{IsStable}
use bauth.System.Keeps.{
  Keeps, map_err-eq-ok, ok_or-eq-ok, Keeps-bind, Keeps-ok, Keeps-if, transact_keeps, settle_keeps,
}

module _ (server : Server) (verdict : Verdict) (env : Env) (P : Db → Type 0)
    (st : IsStable server.lower env.now P) where
  pub create_flow_keeps :
      (input : CreateFlowRequest) (app : App) → P app.db → P (create_flow server env input app).1.db
  unfolding create_flow
  create_flow_keeps input app h = transact_keeps P app _ h (
      Keeps-bind P (ok_or (get input.client_id server.clients) invalid_client) _ λ client _.
        Keeps-bind P (guard (allows_redirect_uri client input.redirect_uri) invalid_redirect_uri) _
          λ _ _.
            Keeps-bind P
              (guard
                (not (
                  not (input.code_challenge_method =? text "S256")
                  || not (is_valid_challenge input.code_challenge)))
                invalid_code_challenge)
              _
              λ _ _.
                Keeps-bind P
                  (guard (not (is_too_long input.state))
                    (invalid_request (text "state must be at most 512 bytes")))
                  _
                  λ _ _.
                    Keeps-bind P
                      (from_sql (
                        LoginFlows.create env.now env.id client.id input.redirect_uri
                          input.code_challenge input.state (env.now + flow_ttl) app.db))
                      _
                      λ db made.
                        Keeps-ok P _ db
                          (st.create_flow _ _ _ _ _ app.db h (map_err-eq-ok _ _ made)))

  complete-Keeps :
      (flow_id user_id : ℕ) (db : Db)
      → P db
      → Keeps P (LoginFlow.complete server env flow_id user_id db)
  unfolding LoginFlow.complete
  complete-Keeps flow_id user_id db h =
      Keeps-if P (LoginFlows.complete env.now flow_id db).1 _ _
        (Keeps-bind P
          (AuthorizationCodes.create env.now env.id (Token.generate server.crypto env.random).hash
            flow_id user_id (env.now + LoginFlow.code_ttl)
            (LoginFlows.complete env.now flow_id db).0)
          _
          λ db₂ made.
            Keeps-ok P _ db₂ (st.create_code _ _ _ _ _ _ (st.complete_flow flow_id db h) made))
        (Keeps-ok P _ _ (st.complete_flow flow_id db h))

  account_for-Keeps :
      (user_id : Option ℕ) (email : Text) (db : Db)
      → P db
      → Keeps P (account_for server verdict env user_id email db)
  unfolding account_for
  account_for-Keeps (some id) email db h = Keeps-ok P _ db h
  account_for-Keeps none email db h =
      Keeps-bind P (from_sql (Users.create server.lower env.now env.other_id email db)) _
        λ made done.
          let kept : P made.1 = st.create_user _ _ db h (map_err-eq-ok _ _ done) in
          elim (Option-cases made.0) [
            | inl n ↦ rw n (Keeps-ok P _ made.1 kept)
            | inr (user, s) ↦ rw s (Keeps-ok P _ made.1 kept)
          ]

  log_in-Keeps :
      (flow_id : ℕ) (user_id : Option ℕ) (email : Text) (stale : ApiError) (db : Db)
      → P db
      → Keeps P (log_in server verdict env flow_id user_id email stale db)
  unfolding log_in
  log_in-Keeps flow_id user_id email stale db h =
      Keeps-bind P (account_for server verdict env user_id email db) _ λ found got.
        Keeps-bind P (ok_or found.0 stale) _ λ user _.
          Keeps-bind P (guard (is_none user.disabled_at) account_disabled) _ λ _ _.
            Keeps-bind P (guard (user.email =? email) stale) _ λ _ _.
              Keeps-bind P
                (from_sql (
                  LoginFlow.complete server env flow_id user.id
                    (Users.mark_email_verified env.now user.id user.email found.1)))
                _
                λ done came. Keeps-bind P (ok_or done.0 flow_expired) _ λ code _.
                  Keeps-ok P _ done.1 (
                    (complete-Keeps flow_id user.id _ (
                        st.mark_email_verified user.id user.email found.1
                          ((account_for-Keeps user_id email db h).holds found.0 found.1 got))).holds
                      done.0 done.1 (map_err-eq-ok _ _ came))

  pub confirm_keeps :
      (ip token : Text) (app : App) → P app.db → P (confirm server verdict env ip token app).1.db
  unfolding confirm confirm_body
  confirm_keeps ip token app h = transact_keeps P (charge_token_ip ip env.now app) _ h (
      Keeps-bind P (check verdict token_per_ip_quota ip env.now app.limits.token_per_ip) _ λ _ _.
        Keeps-bind P
          (ok_or (MagicLinks.consume env.now (Token.hash server.crypto token) app.db) invalid_token)
          _
          λ used found.
            Keeps-bind P
              (log_in server verdict env used.0.flow_id used.0.user_id used.0.email invalid_token
                used.1)
              _
              λ done came. Keeps-ok P _ done.1 (
                (log_in-Keeps used.0.flow_id used.0.user_id used.0.email invalid_token used.1
                    (st.consume_link _ app.db h (ok_or-eq-ok _ _ found))).holds
                  done.0 done.1 came))

  confirm_code_body-Keeps :
      (flow_id : ℕ) (code : Text) (link : MagicLink) (db : Db)
      → IsCandidate env.now flow_id db link
      → P db
      → Keeps P (confirm_code_body server verdict env flow_id code link db)
  unfolding confirm_code_body
  confirm_code_body-Keeps flow_id code link db c h =
      Keeps-if P
        (MagicCode.verify server.crypto server.code_keys.magic_link flow_id code link.code_hash) _ _
        (Keeps-bind P
          (log_in server verdict env flow_id link.user_id link.email invalid_code
            (MagicLinks.consume_by_id env.now link.id db))
          _
          λ done came. Keeps-ok P _ done.1 (
            (log_in-Keeps flow_id link.user_id link.email invalid_code _
                (st.consume_by_id link.id db h)).holds
              done.0 done.1 came))
        (Keeps-ok P _ _ (st.record_failure flow_id link db h c))

  pub confirm_code_keeps :
      (ip : Text) (flow_id : ℕ) (code : Text) (app : App)
      → P app.db
      → P (confirm_code server verdict env ip flow_id code app).1.db
  unfolding confirm_code
  confirm_code_keeps ip flow_id code app h = transact_keeps P (charge_token_ip ip env.now app) _ h (
      Keeps-bind P (check verdict token_per_ip_quota ip env.now app.limits.token_per_ip) _ λ _ _.
        Keeps-bind P (check_format code) _ λ _ _.
          Keeps-bind P
            (ok_or
              (MagicLinks.find_code_candidate env.now flow_id max_failures_per_code
                max_failures_per_day app.db)
              invalid_code)
            _
            λ link found.
              confirm_code_body-Keeps flow_id code link app.db
                (find_code_candidate_inv env.now flow_id app.db link (ok_or-eq-ok _ _ found)) h)

  send_keeps :
      (flow_id : ℕ) (email : Text) (client : Client) (to : Option Recipient) (app : App)
      {left : App}
      → P app.db
      → send server verdict env flow_id email client (env.now + MagicCode.code_ttl) to app ≡ ok left
      → P left.db
  unfolding send
  send_keeps flow_id email client none app {left} h e =
      let same : app ≡ left = ground arith in rw (← same) h
  send_keeps flow_id email client (some recipient) app {left} h e =
      let made =
        MagicLinks.create server.lower env.now env.id flow_id (user_of recipient) email
          (Token.generate server.crypto env.random).hash
          (MagicCode.generate server.crypto server.code_keys.magic_link flow_id env.number).hash
          (env.now + MagicCode.code_ttl) app.db in
      elim (Result-cases made) [
        | inl (given, done) ↦
            let same : given.1 ≡ left.db = ground arith in
            rw (← same) (st.create_link _ _ _ _ _ _ app.db h done)
        | inr (x, failed) ↦ absurd (ground arith)
      ]

  sent_keeps :
      (app : App) (flow_expires_at : ℕ) (r : Result ApiError App)
      → P app.db
      → ((left : App) → r ≡ ok left → P left.db)
      → P (sent server verdict env app flow_expires_at r).1.db
  sent_keeps app flow_expires_at (ok left) h k = k left refl
  sent_keeps app flow_expires_at (err e) h k = h

  count_and_send-Keeps :
      (flow_id : ℕ) (email : Text) (client : Client) (flow : PendingMagicLinkFlow) (app : App)
      → P app.db
      → Keeps (λ left. P left.db) (count_and_send server verdict env flow_id email client flow app)
  unfolding count_and_send
  count_and_send-Keeps flow_id email client flow app h =
      Keeps-bind (λ left. P left.db)
        (ok_or
          (LoginFlows.count_magic_link_request env.now flow_id max_emails_per_flow
            (env.now + MagicCode.code_ttl) app.db)
          (flow_exhausted flow.expires_at env.now))
        _
        λ counted found.
          let kept : P counted.1 = st.count_request flow_id app.db h (ok_or-eq-ok _ _ found) in
          let app₁ = record app { db = counted.1 } in
          let to =
            recipient_of (Users.find_by_email server.lower email counted.1) client.allow_signup in
          Keeps-ok (λ left. P left.db) _ _
            (sent_keeps app₁ counted.0
              (send server verdict env flow_id email client (env.now + MagicCode.code_ttl) to app₁)
              kept λ left done. send_keeps flow_id email client to app₁ kept done)

  pub request_keeps :
      (ip : Text) (flow_id : ℕ) (email : Text) (app : App)
      → P app.db
      → P (request server verdict env ip flow_id email app).1.db
  unfolding request
  request_keeps ip flow_id email app h = settle_keeps P (charge_email_ip ip env.now app) _ h (
      Keeps-bind (λ left. P left.db)
        (check verdict email_per_ip_quota ip env.now app.limits.email_per_ip) _
        λ _ _.
          Keeps-bind (λ left. P left.db) (guard (is_valid email) invalid_email) _
            λ _ _.
              Keeps-bind (λ left. P left.db)
                (ok_or (LoginFlows.find_pending_magic_link_flow env.now flow_id app.db)
                  flow_expired)
                _
                λ flow _.
                  Keeps-bind (λ left. P left.db)
                    (guard (ltb flow.requests max_emails_per_flow)
                      (flow_exhausted flow.expires_at env.now))
                    _
                    λ _ _.
                      Keeps-bind (λ left. P left.db)
                        (ok_or (get flow.client_id server.clients) invalid_client) _
                        λ client _.
                          let key = email_key server email in
                          let app₂ = charge_address key env.now (charge_email_ip ip env.now app) in
                          Keeps-ok (λ left. P left.db) _ _
                            (settle_keeps P app₂ _ h (
                              Keeps-bind (λ left. P left.db)
                                (check verdict email_per_address_quota key env.now
                                  app.limits.email_per_address)
                                _ λ _ _. count_and_send-Keeps flow_id email client flow app₂ h)))
