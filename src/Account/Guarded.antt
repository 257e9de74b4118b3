-- ===== src/Account/Guarded.antt =====
-- The handlers of bauth_server/src/routes/me.rs and the budget of wrong codes.
use bauth.Base.{
  ℕ, ◌+◌, ◌≡◌, refl, inl, inr, Bool, true, false, not, List, [], ◌∷◌, All, Option, none, some,
  Result, ok, err, guard, ok_or, ◌=?◌, Result-cases, arith,
}
use bauth.Base.Text.{Text, text}
use bauth.Account.{
  ConfirmationAction, change_email, delete_account, request_confirmation, send_confirmation, as_str,
  spend, check_candidate, check_code, send_change_link, change_email_of, delete_account_of, done,
  after, page,
}
use bauth.Account.Budget.{
  IsGuarded, IsCandidate, IsGuarded-later, IsGuarded-create, IsGuarded-consume_by_id,
  IsGuarded-record_code_failure, IsGuarded-delete, find_code_candidate_inv,
}
use bauth.Account.Calls.{Demand, ask, change, erase, Visit, answer, visits, IsOrdered, last_now}
use bauth.Clients.{get}
use bauth.CurrentUser.{CurrentUser}
use bauth.Email.{is_valid}
use bauth.Errors.{ApiError, invalid_request, invalid_email, invalid_code, invalid_client}
use bauth.Handler.{
  App, Verdict, check, charge_address, charge_email_ip, charge_token_ip, email_per_address_quota,
  email_per_ip_quota, token_per_ip_quota, email_key,
}
use bauth.MagicCode
use bauth.MagicCode.{code_ttl, max_failures_per_code, max_failures_per_day, check_format}
use bauth.Queries.Confirmations
use bauth.Queries.EmailChanges
use bauth.Queries.Users
use bauth.Schema.{Db, Confirmation, User}
use bauth.Server.{Server, Env}
use bauth.System.Keeps.{ok_or-eq-ok, Keeps-bind, Keeps-ok, transact_keeps, settle_keeps}

module _ (server : Server) (verdict : Verdict) (env : Env) (ip : Text) (user : CurrentUser)
    (owner : ℕ → ℕ) (own : user.id ≡ owner user.session_id) where
  abbrev Guarded : App → Type 0
  Guarded app = IsGuarded owner env.now app.db

  done_keeps :
      (app : App) (r : Result ApiError App)
      → Guarded app
      → ((left : App) → r ≡ ok left → Guarded left)
      → Guarded (done server verdict env ip user app r).1
  done_keeps app (err e) h k = h
  done_keeps app (ok left) h k = k left refl

  after_keeps :
      {A B : Type 0} (r : Result ApiError A × App) (rest : A → App → Result ApiError B × App)
      → Guarded r.1
      → ((a : A) → Guarded (rest a r.1).1)
      → Guarded (after r rest).1
  after_keeps (err e, app) rest h k = h
  after_keeps (ok a, app) rest h k = k a

  send_confirmation_keeps :
      (action : ConfirmationAction) (app left : App)
      → Guarded app
      → send_confirmation server verdict env ip user action app ≡ ok left
      → Guarded left
  unfolding send_confirmation
  send_confirmation_keeps action app left h e =
      let made =
        Confirmations.create env.now env.id user.id user.session_id (as_str action) user.email
          (MagicCode.generate server.crypto server.code_keys.confirmation user.session_id
            env.number).hash
          (env.now + code_ttl) app.db in
      elim (Result-cases made) [
        | inl (db, r) ↦
            let same : db ≡ left.db = ground arith in
            rw (← same)
              (IsGuarded-create owner env.now env.id user.id user.session_id _ _ _ _ app.db own h r)
        | inr (x, failed) ↦ absurd (ground arith)
      ]

  request_confirmation_keeps :
      (action : ConfirmationAction) (app : App)
      → Guarded app
      → Guarded (request_confirmation server verdict env ip user action app).1
  unfolding request_confirmation
  request_confirmation_keeps action app h =
      let key = email_key server user.email in
      let app₂ = charge_address key env.now (charge_email_ip ip env.now app) in
      settle_keeps (IsGuarded owner env.now) (charge_email_ip ip env.now app) _ h (
        Keeps-bind Guarded (check verdict email_per_ip_quota ip env.now app.limits.email_per_ip) _
          λ _ _. Keeps-ok Guarded _ _ (
            settle_keeps (IsGuarded owner env.now) app₂ _ h (
              Keeps-bind Guarded
                (check verdict email_per_address_quota key env.now app.limits.email_per_address) _
                λ _ _. Keeps-ok Guarded _ _ (
                  done_keeps app₂ (send_confirmation server verdict env ip user action app₂) h
                    λ left e. send_confirmation_keeps action app₂ left h e))))

  spend_keeps :
      (right : Bool) (action : ConfirmationAction) (row : Confirmation) (db : Db)
      → IsGuarded owner env.now db
      → IsCandidate env.now user.id user.session_id (as_str action) db row
      → IsGuarded owner env.now (spend server verdict env ip user right row db).1
  spend_keeps true action row db h c = IsGuarded-consume_by_id owner env.now row.id db h
  spend_keeps false action row db h c =
      IsGuarded-record_code_failure owner env.now user.id user.session_id (as_str action) db row own
        h c

  check_code_keeps :
      (action : ConfirmationAction) (code : Text) (app : App)
      → Guarded app
      → Guarded (check_code server verdict env ip user action code app).1
  unfolding check_code check_candidate
  check_code_keeps action code app h =
      let P = IsGuarded owner env.now in
      transact_keeps P (charge_token_ip ip env.now app) _ h (
        Keeps-bind P (check verdict token_per_ip_quota ip env.now app.limits.token_per_ip) _ λ _ _.
          Keeps-bind P (check_format code) _ λ _ _.
            Keeps-bind P
              (ok_or
                (Confirmations.find_code_candidate env.now user.id user.session_id (as_str action)
                  max_failures_per_code max_failures_per_day app.db)
                invalid_code)
              _
              λ row found. Keeps-bind P (guard (row.email =? user.email) invalid_code) _ λ _ _.
                Keeps-ok P _ _ (
                  spend_keeps
                    (MagicCode.verify server.crypto server.code_keys.confirmation user.session_id
                      code row.code_hash)
                    action row app.db h
                    (find_code_candidate_inv env.now user.id user.session_id (as_str action) app.db
                      row (ok_or-eq-ok _ _ found))))

  send_change_link_keeps :
      (new_email url : Text) (taken : Option User) (app left : App)
      → Guarded app
      → send_change_link server verdict env ip user new_email url taken app ≡ ok left
      → Guarded left
  unfolding send_change_link EmailChanges.create
  send_change_link_keeps new_email url (some _) app left h e =
      let same : app ≡ left = ground arith in rw (← same) h
  send_change_link_keeps new_email url none app left h e =
      let same : app.db.confirmations ≡ left.db.confirmations = ground arith in rw (← same) h

  change_email_keeps :
      (code new_email : Text) (app : App)
      → Guarded app
      → Guarded (change_email_of server verdict env ip user code new_email app).1
  unfolding change_email_of
  change_email_keeps code new_email app h =
      let key = email_key server new_email in
      let app₁ = charge_address key env.now app in
      settle_keeps (IsGuarded owner env.now) app _ h (
        Keeps-bind Guarded (guard (is_valid new_email) invalid_email) _ λ _ _.
          Keeps-bind Guarded
            (guard (not (key =? user.email))
              (invalid_request (text "new_email is the current address")))
            _
            λ _ _.
              Keeps-bind Guarded (ok_or (get user.client_id server.clients) invalid_client) _
                λ client _. Keeps-bind Guarded (page client) _ λ url _. Keeps-ok Guarded _ _ (
                  settle_keeps (IsGuarded owner env.now) app₁ _ h (
                    Keeps-bind Guarded
                      (check verdict email_per_address_quota key env.now
                        app.limits.email_per_address)
                      _
                      λ _ _. Keeps-ok Guarded _ _ (
                        after_keeps (check_code server verdict env ip user change_email code app₁) _
                          (check_code_keeps change_email code app₁ h)
                          λ _.
                            let app₂ =
                              (check_code server verdict env ip user change_email code app₁).1 in
                            done_keeps app₂
                              (send_change_link server verdict env ip user new_email url
                                (Users.find_by_email server.lower new_email app₂.db) app₂)
                              (check_code_keeps change_email code app₁ h)
                              λ left e.
                                send_change_link_keeps new_email url _ app₂ left
                                  (check_code_keeps change_email code app₁ h) e))))

  delete_account_keeps :
      (code : Text) (app : App)
      → Guarded app
      → Guarded (delete_account_of server verdict env ip user code app).1
  unfolding delete_account_of
  delete_account_keeps code app h =
      after_keeps (check_code server verdict env ip user delete_account code app) _
        (check_code_keeps delete_account code app h)
        λ _.
          IsGuarded-delete owner env.now user.id
            (check_code server verdict env ip user delete_account code app).1.db
            (check_code_keeps delete_account code app h)

  answer_keeps :
      (demand : Demand) (app : App)
      → Guarded app
      → Guarded (answer server verdict env ip user demand app)
  unfolding answer
  answer_keeps (ask action) app h = request_confirmation_keeps action app h
  answer_keeps (change code new_email) app h = change_email_keeps code new_email app h
  answer_keeps (erase code) app h = delete_account_keeps code app h

-- Along requests to the account endpoints that ask for a code, change the address or delete the
-- account, whose clock does not go back and whose users each own their session: from a database
-- within the budget of wrong codes, the confirmations stay within it. Their ids are distinct,
-- none has more than five wrong codes and one with five is consumed, the confirmations created
-- for an account in the last day have no more than ten wrong codes together, and each
-- confirmation belongs to the account of its session.
pub visits-IsGuarded :
    (server : Server) (verdict : Verdict) (owner : ℕ → ℕ) (vs : List Visit) (now : ℕ) (app : App)
    → IsOrdered now vs
    → All (λ v. v.user.id ≡ owner v.user.session_id) vs
    → IsGuarded owner now app.db
    → IsGuarded owner (last_now now vs) (visits server verdict vs app).db
unfolding visits
visits-IsGuarded server verdict owner [] now app o u h = h
visits-IsGuarded server verdict owner (v ∷ vs) now app o u h =
    visits-IsGuarded server verdict owner vs v.env.now _ o.1 u.1 (
      answer_keeps server verdict v.env v.ip v.user owner u.0 v.demand app
        (IsGuarded-later owner now v.env.now app.db o.0 h))
