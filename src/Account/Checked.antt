-- ===== src/Account/Checked.antt =====
-- The check of a confirmation code: `check_code` of bauth_server/src/routes/me.rs.
use bauth.Base.{
  ℕ, ◌≡◌, ◌≢◌, subst, ◌↔◌, ◌==◌, ==_refl, refl, inl, inr, true, some, ok, Result-cases,
  Option-cases, Bool-cases, =?_sound, =?_refl, ◌=?◌, arith,
}
use bauth.Base.Text.{Text}
use bauth.Account.{ConfirmationAction, as_str, check_candidate, check_code}
use bauth.Account.Budget.{IsCandidate, find_code_candidate_inv, find_code_candidate_lem}
use bauth.Base.Table.{select}
use bauth.Base.Table.Laws.{select-update, first_by-update}
use bauth.CurrentUser.{CurrentUser}
use bauth.Handler.{App, Verdict, check, charge_token_ip, token_per_ip_quota}
use bauth.MagicCode.{check_format, max_failures_per_code, max_failures_per_day, verify}
use bauth.Queries.Confirmations
use bauth.Schema.{Db, Confirmation}
use bauth.Server.{Server, Env}

module _ (server : Server) (verdict : Verdict) (env : Env) (ip : Text) (user : CurrentUser) where
  -- The row that a right code was sent for.
  pub record IsProof (action : ConfirmationAction) (code : Text) (app : App) (row : Confirmation)
      : Type 0 where
    pub free : check verdict token_per_ip_quota ip env.now app.limits.token_per_ip ≡ ok tt
    pub formed : check_format code ≡ ok tt
    pub candidate : IsCandidate env.now user.id user.session_id (as_str action) app.db row
    pub addressed : row.email ≡ user.email
    pub right :
        verify server.crypto server.code_keys.confirmation user.session_id code row.code_hash ≡ true

  -- What is left of the state once the code is used.
  abbrev pub used : App → Confirmation → App
  used app row = record (charge_token_ip ip env.now app) {
    db = Confirmations.consume_by_id env.now row.id app.db;
  }

  accepted :
      (action : ConfirmationAction) (code : Text) (app left : App)
      → check_code server verdict env ip user action code app ≡ (ok tt, left)
      → (row : Confirmation) × IsProof action code app row × (left ≡ used app row)
  unfolding check_code check_candidate
  accepted action code app left e =
      elim (Result-cases (check verdict token_per_ip_quota ip env.now app.limits.token_per_ip)) [
        | inr (x, failed) ↦ absurd (ground arith)
        | inl (tt, free) ↦ elim (Result-cases (check_format code)) [
          | inr (x, failed) ↦ absurd (ground arith)
          | inl (tt, formed) ↦
              elim (Option-cases (
                Confirmations.find_code_candidate env.now user.id user.session_id (as_str action)
                  max_failures_per_code max_failures_per_day app.db)) [
                    | inl n ↦ absurd (ground arith)
                    | inr (row, found) ↦ elim (Bool-cases (row.email =? user.email)) [
                      | inr other ↦ absurd (ground arith)
                      | inl same ↦
                          elim (Bool-cases (
                            verify server.crypto server.code_keys.confirmation user.session_id code
                              row.code_hash)) [
                                | inr wrong ↦ absurd (ground arith)
                                | inl right ↦ (
                                  row,
                                  record {
                                    free = free;
                                    formed = formed;
                                    candidate =
                                        find_code_candidate_inv env.now user.id user.session_id
                                          (as_str action) app.db row found;
                                    addressed = =?_sound row.email user.email same;
                                    right = right;
                                  },
                                  ground arith,
                                )
                              ]
                    ]
                  ]
        ]
      ]

  accepts :
      (action : ConfirmationAction) (code : Text) (app : App) (row : Confirmation)
      → IsProof action code app row
      → check_code server verdict env ip user action code app ≡ (ok tt, used app row)
  unfolding check_code check_candidate
  accepts action code app row p = rw p.free (
      rw p.formed (
        rw
          (find_code_candidate_lem env.now user.id user.session_id (as_str action) app.db row
            p.candidate)
          (rw p.addressed (rw (=?_refl user.email) (rw p.right refl)))))

  -- A confirmation code is accepted exactly when the rate limit lets the request pass, the code
  -- is six digits, and the newest confirmation of the session for the action is pending, not
  -- expired, under five wrong codes, of an account whose confirmations created in the last day
  -- have under ten of them together, was sent to the address that the account has, and has the
  -- hash of this code; the state that is left is the one with this row consumed and the check of
  -- the rate limit noted.
  pub check_code_iff :
      (action : ConfirmationAction) (code : Text) (app left : App)
      → check_code server verdict env ip user action code app ≡ (ok tt, left)
        ↔ ((row : Confirmation) × IsProof action code app row × (left ≡ used app row))
  check_code_iff action code app left =
      (accepted action code app left, λ (row, p, same). rw same (accepts action code app row p))

-- The row that comes first is the one that was used up.
newest_about-consume_by_id :
    (now session_id : ℕ) (action : Text) (db : Db) (row : Confirmation)
    → Confirmations.newest_about session_id action db ≡ some row
    → Confirmations.newest_about session_id action (Confirmations.consume_by_id now row.id db)
      ≡ some (Confirmations.set_consumed now row)
unfolding Confirmations.newest_about Confirmations.consume_by_id
newest_about-consume_by_id now session_id action db row e =
    let about = Confirmations.is_about session_id action in
    let mine = λ (c : Confirmation). c.id == row.id in
    let f = Confirmations.set_consumed now in
    rw (select-update about mine f (λ c. refl) db.confirmations) (
      let hit =
        first_by-update Confirmations.newer mine f (λ a b. refl) (λ a b. refl)
          (select about db.confirmations) e in
      ground (arith, hit, ==_refl row.id))

consumed :
    (now later user_id session_id : ℕ) (action : Text) (db : Db) (row next : Confirmation)
    → Confirmations.newest_about session_id action db ≡ some row
    → ¬ IsCandidate later user_id session_id action (Confirmations.consume_by_id now row.id db) next
consumed now later user_id session_id action db row next e c =
    let hit = newest_about-consume_by_id now session_id action db row e in
    ground (arith, hit, c.newest, c.pending)

-- Once a confirmation code was accepted, on the state that is left no code at all is accepted
-- for the same action of the same user, at whatever time.
pub check_code-once :
    (server : Server) (verdict : Verdict) (user : CurrentUser) (action : ConfirmationAction)
    (env later : Env) (ip other : Text) (code again : Text) (app left last : App)
    → check_code server verdict env ip user action code app ≡ (ok tt, left)
    → check_code server verdict later other user action again left ≢ (ok tt, last)
check_code-once server verdict user action env later ip other code again app left last e twice =
    let (row, p, same) = accepted server verdict env ip user action code app left e in
    let (next, q, _) = accepted server verdict later other user action again left last twice in
    consumed env.now later.now user.id user.session_id (as_str action) app.db row next
      p.candidate.newest
      (subst (λ (a : App). IsCandidate later.now user.id user.session_id (as_str action) a.db next)
        same q.candidate)
