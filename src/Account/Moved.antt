-- ===== src/Account/Moved.antt =====
-- The link of an email change: `confirm` of bauth_server/src/routes/email_change.rs.
use bauth.Base.{
  ℕ, ◌≤◌, ◌≡◌, ◌≢◌, ◌==◌, ◌=?◌, =?_sound, =?_refl, ◌&&◌, refl, inl, inr, true, false, not, some,
  none, ok, is_none, ◌∷◌, List, All, All-map, Bool-cases, Option-cases, Result-cases, arith,
}
use bauth.Base.Text.{Text}
use bauth.Base.Table.{exists, find, count, update}
use bauth.Base.Table.Laws.{
  find_sound, find-update, exists_of_count, All-exists_false, All-update_hit, All-find,
}
use bauth.Base.Table.Keys.{Distinct, find-passes}
use bauth.Account.{move_address, changed, confirm}
use bauth.Handler.{App, Verdict, check, token_per_ip_quota, email_changed}
use bauth.Queries.EmailChanges
use bauth.Queries.EmailChanges.{ConsumedEmailChange, is_usable, mark_used}
use bauth.Queries.Users
use bauth.Queries.Users.{uses}
use bauth.Schema.{Db, User, EmailChange}
use bauth.Server.{Server, Env}
use bauth.Token

-- The account that a change names had the old address, and has the new one, verified.
pub record IsMoved (now : ℕ) (hash : List ℕ) (change : EmailChange) (user : User) (db left : Db)
    : Type 0 where
  pub asked : find (is_usable now hash) db.email_changes ≡ some change
  pub account : Users.find_by_id change.user_id db ≡ some user
  pub active : user.disabled_at ≡ none
  pub from : user.email ≡ change.from_email
  pub to :
      Users.find_by_id change.user_id left
      ≡ some
          (record user { email = change.to_email; email_verified_at = some now; updated_at = now })
  pub alone : All (λ (u : User). u.email ≡ change.to_email → u.id ≡ change.user_id) db.users

change_email_inv :
    (now id : ℕ) (from_email to_email : Text) (user : User) (db left : Db)
    → Distinct (λ (u : User). u.id) db.users
    → Users.find_by_id id db ≡ some user
    → changed (Users.change_email now id from_email to_email db) ≡ ok left
    → (user.email ≡ from_email)
      × (Users.find_by_id id left
          ≡ some (record user { email = to_email; email_verified_at = some now; updated_at = now }))
      × All (λ (u : User). u.email ≡ to_email → u.id ≡ id) db.users
      × (left.email_changes ≡ db.email_changes)
unfolding changed Users.change_email Users.find_by_id
change_email_inv now id from_email to_email user db left d found e =
    elim (Bool-cases (count (uses id from_email) db.users == 1)) [
      | inr none_hit ↦ absurd (ground arith)
      | inl one ↦
          let hit = exists_of_count (uses id from_email) db.users one in
          let mine : (user.id == id) ≡ true =
            find_sound (λ (u : User). u.id == id) db.users found in
          let from : (user.email =? from_email) ≡ true =
            find-passes (λ (u : User). u.id) (λ u. u.email =? from_email) id db.users d found hit in
          let set : User → User =
            λ u. record u { email = to_email; email_verified_at = some now; updated_at = now } in
          let rows : Db.users left ≡ update (uses id from_email) set db.users = ground arith in
          let free : exists (λ (u : User). not (u.id == id) && (u.email =? to_email)) db.users
              ≡ false =
            ground arith in
          (
            =?_sound user.email from_email from,
            rw rows (
                ground (
                  arith,
                  mine,
                  from,
                  find-update (λ (u : User). u.id == id) (uses id from_email) set (λ a. refl)
                      db.users found,
                )),
            All-map _ (λ (u : User). u.email ≡ to_email → u.id ≡ id)
                (λ (u : User) h same. ground (arith, h, same, =?_refl to_email)) db.users
                (All-exists_false (λ (u : User). not (u.id == id) && (u.email =? to_email)) db.users
                  free),
            ground arith,
          )
    ]

account_id : (id : ℕ) (db : Db) (user : User) → Users.find_by_id id db ≡ some user → user.id ≡ id
unfolding Users.find_by_id
account_id id db user found =
    let hit = find_sound (λ (u : User). u.id == id) db.users found in ground arith

-- No link is usable with the hash of one that was used.
used_up :
    (now later : ℕ) (hash : List ℕ) (rows : List EmailChange)
    → now ≤ later
    → All (λ e. is_usable later hash e ≡ false) (update (is_usable now hash) (mark_used now) rows)
used_up now later hash rows le =
    All-update_hit (λ e. is_usable later hash e ≡ false) (is_usable now hash) (mark_used now)
      (λ e t. ground arith) (λ e t. ground arith) rows

abbrev Moved :
    (server : Server) (env : Env) (token : Text) (change : EmailChange) (db left : Db) → Type 0
Moved server env token change db left =
    ((user : User) × IsMoved env.now (Token.hash server.crypto token) change user db left)
    × (left.email_changes
        ≡ update (is_usable env.now (Token.hash server.crypto token)) (mark_used env.now)
            db.email_changes)

module _ (server : Server) (verdict : Verdict) (env : Env) (ip : Text) where
  move_address_inv :
      (token : Text) (db left : Db) (from_email to_email : Text)
      → Distinct (λ (u : User). u.id) db.users
      → move_address server verdict env ip token db ≡ ok ((from_email, to_email), left)
      → (change : EmailChange) × (from_email ≡ change.from_email)
        × (to_email ≡ change.to_email)
        × Moved server env token change db left
  unfolding move_address EmailChanges.consume Users.find_by_id
  move_address_inv token db left from_email to_email d e =
      let hash = Token.hash server.crypto token in
      elim (Option-cases (find (is_usable env.now hash) db.email_changes)) [
        | inl n ↦ absurd (ground arith)
        | inr (change, found) ↦
            let tx = record db {
              email_changes = update (is_usable env.now hash) (mark_used env.now) db.email_changes;
            } in
            elim (Option-cases (Users.find_by_id change.user_id tx)) [
              | inl n ↦ absurd (ground arith)
              | inr (user, account) ↦ elim (Bool-cases (is_none user.disabled_at)) [
                | inr disabled ↦ absurd (ground arith)
                | inl active ↦
                    let done =
                      changed
                        (Users.change_email env.now user.id change.from_email change.to_email tx) in
                    let same : user.id ≡ change.user_id =
                      account_id change.user_id tx user account in
                    elim (Result-cases done) [
                      | inr (x, failed) ↦ absurd (ground arith)
                      | inl (db₂, r) ↦
                          let last : db₂ ≡ left = ground arith in
                          let (from, to, alone, changes) =
                            change_email_inv env.now change.user_id change.from_email
                              change.to_email user tx left d account
                              (rw (← same) (rw (← last) r)) in
                          (
                            change,
                            ground arith,
                            ground arith,
                            (
                              (
                                user,
                                record {
                                  asked = found;
                                  account = account;
                                  active = ground arith;
                                  from = from;
                                  to = to;
                                  alone = alone;
                                },
                              ),
                              changes,
                            ),
                          )
                    ]
              ]
            ]
      ]

  confirm_inv :
      (token : Text) (app left : App)
      → Distinct (λ (u : User). u.id) app.db.users
      → confirm server verdict env ip token app ≡ (ok tt, left)
      → (change : EmailChange) × Moved server env token change app.db left.db
        × (left.outbox ≡ email_changed change.from_email change.to_email ∷ app.outbox)
  unfolding confirm
  confirm_inv token app left d e =
      elim (Result-cases (check verdict token_per_ip_quota ip env.now app.limits.token_per_ip)) [
        | inr (x, failed) ↦ absurd (ground arith)
        | inl (tt, free) ↦ elim (Result-cases (move_address server verdict env ip token app.db)) [
          | inr (x, failed) ↦ absurd (ground arith)
          | inl (((from_email, to_email), db), r) ↦
              let same : db ≡ left.db = ground arith in
              let (change, from, to, m) =
                move_address_inv token app.db left.db from_email to_email d (rw (← same) r) in
              (change, m, ground (arith, from, to))
        ]
      ]

  pub confirm_unusable :
      (token : Text) (app left : App)
      → All (λ e. is_usable env.now (Token.hash server.crypto token) e ≡ false) app.db.email_changes
      → confirm server verdict env ip token app ≢ (ok tt, left)
  unfolding confirm move_address EmailChanges.consume
  confirm_unusable token app left none_usable e =
      let usable = is_usable env.now (Token.hash server.crypto token) in
      elim (Result-cases (check verdict token_per_ip_quota ip env.now app.limits.token_per_ip)) [
        | inr (x, failed) ↦ absurd (ground arith)
        | inl (tt, free) ↦ elim (Option-cases (find usable app.db.email_changes)) [
          | inl n ↦ absurd (ground arith)
          | inr (change, found) ↦
              let no =
                All-find (λ e. usable e ≡ false) usable app.db.email_changes none_usable found in
              let yes = find_sound usable app.db.email_changes found in absurd (ground arith)
        ]
      ]

  -- If user ids are distinct and the link of an email change is confirmed, then the link was
  -- pending and not expired, its account was not disabled and still had the old address, no
  -- other account had the new one, the account now has the new address, verified now, with the
  -- rest of its row unchanged, and the message names both addresses.
  pub confirm-IsMoved :
      (token : Text) (app left : App)
      → Distinct (λ (u : User). u.id) app.db.users
      → confirm server verdict env ip token app ≡ (ok tt, left)
      → (change : EmailChange) × (user : User) × IsMoved env.now
          (Token.hash server.crypto token)
          change
          user
          app.db
          left.db
        × (left.outbox ≡ email_changed change.from_email change.to_email ∷ app.outbox)
  confirm-IsMoved token app left d e =
      let (change, ((user, m), rows), sent) = confirm_inv token app left d e in
      (change, user, m, sent)

-- If user ids are distinct and the link of an email change was confirmed, then the same link is
-- not confirmed again on the state that is left, at a time not before.
pub confirm-once :
    (server : Server) (verdict : Verdict) (env later : Env) (ip other : Text) (token : Text)
    (app left last : App)
    → Distinct (λ (u : User). u.id) app.db.users
    → env.now ≤ later.now
    → confirm server verdict env ip token app ≡ (ok tt, left)
    → confirm server verdict later other token left ≢ (ok tt, last)
confirm-once server verdict env later ip other token app left last d le e =
    let (change, (m, rows), sent) = confirm_inv server verdict env ip token app left d e in
    confirm_unusable server verdict later other token left last
      (rw rows (used_up env.now later.now (Token.hash server.crypto token) app.db.email_changes le))
