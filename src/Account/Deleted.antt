-- ===== src/Account/Deleted.antt =====
-- Deletion of an account: `DELETE /me` of bauth_server/src/routes/me.rs, with the rows that reference
-- the account in bauth_server/migrations.
use bauth.Base.{
  ℕ, ◌≡◌, ◌≢◌, ◌==◌, ==_refl, refl, inl, inr, Bool, true, false, some, ok, not, ◌&&◌, ◌||◌, sym,
  ◌∙◌, ◌∷◌, [], List, All, All-map, Bool-cases, arith, ap, subst, Result, err,
}
use bauth.Base.Text.{Text}
use bauth.Base.Table.{exists, delete, update}
use bauth.Base.Table.Laws.{All-select-true, All-exists_false, exists-update}
use bauth.Account.{delete_account, check_code, delete_account_of, after}
use bauth.Account.Checked.{IsProof, check_code_iff}
use bauth.CurrentUser.{CurrentUser}
use bauth.Errors.{ApiError}
use bauth.Handler.{App, Verdict, account_deleted}
use bauth.Queries.Cascades.{is_gone, is_gone_maybe, sweep_tokens, is_orphan, forget_code}
use bauth.Queries.Confirmations
use bauth.Queries.Users
use bauth.Schema.{Db, User, Session, RefreshToken, Confirmation}
use bauth.Server.{Server, Env}

-- Nothing of the account is left; its refresh tokens are those of its sessions before.
pub record IsErased (id : ℕ) (before : List Session) (left : Db) : Type 0 where
  pub users : All (λ u. u.id ≢ id) left.users
  pub sessions : All (λ s. s.user_id ≢ id) left.sessions
  pub codes : All (λ c. c.user_id ≢ id) left.authorization_codes
  pub links : All (λ m. m.user_id ≢ some id) left.magic_links
  pub email_changes : All (λ e. e.user_id ≢ id) left.email_changes
  pub confirmations : All (λ c. c.user_id ≢ id) left.confirmations
  pub tokens : All (λ r. All (λ s. s.id ≡ r.session_id → s.user_id ≢ id) before) left.refresh_tokens

module _ {A : Type 0} where
  -- The rows that a DELETE leaves.
  left_by_delete :
      (P : A → Type 0) (p : A → Bool)
      → ((a : A) → p a ≡ false → P a)
      → (xs : List A) → All P (delete p xs)
  left_by_delete P p keep xs =
      All-map _ P (λ a h. keep a (ground arith)) (delete p xs) (All-select-true (λ a. not (p a)) xs)

-- The account is among the deleted ones.
gone :
    (id : ℕ) (users : List User)
    → exists (λ u. u.id == id) users ≡ true
    → is_gone (λ u. u.id == id) (λ u. u.id) users id ≡ true
unfolding exists
gone id [] e = cc
gone id (u ∷ us) e = ground (arith, gone id us)

sweep_tokens-All :
    (p : ℕ → Bool) (rs : List RefreshToken) → All (λ r. p r.session_id ≡ false) (sweep_tokens p rs)
unfolding sweep_tokens
sweep_tokens-All p [] = tt
sweep_tokens-All p (r ∷ rs) =
    elim (Bool-cases (p r.session_id || is_orphan r.parent_id rs (sweep_tokens p rs))) [
      | inl t ↦ rw t (sweep_tokens-All p rs)
      | inr t ↦ rw t (ground arith, sweep_tokens-All p rs)
    ]

-- A session of the account is not the one that a token is left for.
unlinked :
    (id : ℕ) (before : List Session) (q : Session → Bool) (p : ℕ → Bool) (session_id : ℕ)
    → p id ≡ true
    → is_gone (λ s. p s.user_id) (λ s. s.id) (update q forget_code before) session_id ≡ false
    → All (λ s. s.id ≡ session_id → s.user_id ≢ id) before
unlinked id before q p session_id hit e =
    All-map _ (λ s. s.id ≡ session_id → s.user_id ≢ id)
      (λ (s : Session) h same mine.
        let there : p s.user_id ≡ true = rw mine hit in
        ground (arith, ==_refl session_id, h, there))
      before
      (All-exists_false (λ (s : Session). (s.id == session_id) && p s.user_id) before
        (sym (
            exists-update (λ (s : Session). (s.id == session_id) && p s.user_id) q forget_code
              (λ s. refl) before)
          ∙ e))

delete-IsErased :
    (id : ℕ) (db : Db)
    → exists (λ u. u.id == id) db.users ≡ true
    → IsErased id db.sessions (Users.delete id db)
unfolding Users.delete
delete-IsErased id db here =
    let p = is_gone (λ (u : User). u.id == id) (λ u. u.id) db.users in
    let hit : p id ≡ true = gone id db.users here in
    let miss : (k : ℕ) → p k ≡ false → k ≢ id =
      λ k out same. (let there : p k ≡ true = rw same hit in ground arith) in
    record {
      users = left_by_delete _ _ (λ u h e. ground (arith, ==_refl id)) db.users;
      sessions = left_by_delete _ _ (λ s h. miss s.user_id h) _;
      codes = left_by_delete _ _ (λ c h. miss c.user_id h) db.authorization_codes;
      links =
          left_by_delete _ _
            (λ m h e.
              (let there : is_gone_maybe (λ (u : User). u.id == id) (λ u. u.id) db.users m.user_id
                    ≡ true =
                  rw e hit in
                ground arith))
            db.magic_links;
      email_changes = left_by_delete _ _ (λ e h. miss e.user_id h) db.email_changes;
      confirmations = left_by_delete _ _ (λ c h. miss c.user_id h) _;
      tokens =
          All-map _ _ (λ (r : RefreshToken) h. unlinked id db.sessions _ p r.session_id hit h) _
            (sweep_tokens-All _ db.refresh_tokens);
    }

after-eq-ok :
    {A B : Type 0} (r : Result ApiError A × App) (rest : A → App → Result ApiError B × App) {b : B}
    {left : App}
    → after r rest ≡ (ok b, left)
    → (a : A) × (r ≡ (ok a, r.1)) × (rest a r.1 ≡ (ok b, left))
after-eq-ok (err e, app) rest h = absurd (ground arith)
after-eq-ok (ok a, app) rest h = (a, refl, h)

-- If the request to delete an account that exists succeeds, then its code was right, no user,
-- session, authorization code, magic link, email change or confirmation of the account is left,
-- nor any refresh token of a session that the account had, and the address is told of it.
pub delete_account_of-IsErased :
    (server : Server) (verdict : Verdict) (env : Env) (ip : Text) (user : CurrentUser) (code : Text)
    (app left : App)
    → exists (λ u. u.id == user.id) app.db.users ≡ true
    → delete_account_of server verdict env ip user code app ≡ (ok tt, left)
    → ((row : Confirmation) × IsProof server verdict env ip user delete_account code app row)
      × IsErased user.id app.db.sessions left.db
      × (left.outbox ≡ account_deleted user.email ∷ app.outbox)
unfolding delete_account_of Confirmations.consume_by_id
delete_account_of-IsErased server verdict env ip user code app left here e =
    let (tt, checked, rest) =
      after-eq-ok (check_code server verdict env ip user delete_account code app) _ e in
    let (row, p, same) =
      (check_code_iff server verdict env ip user delete_account code app _).0 checked in
    (
      (row, p),
      subst (λ (a : App). IsErased user.id app.db.sessions a.db)
          (ap (λ (a : Result ApiError (Unit {0}) × App). a.1) rest)
          (subst (λ (a : App). IsErased user.id app.db.sessions (Users.delete user.id a.db))
            (sym same)
            (delete-IsErased user.id (Confirmations.consume_by_id env.now row.id app.db) here)),
      sym (ap (λ (a : Result ApiError (Unit {0}) × App). a.1.outbox) rest)
          ∙ ap (λ (a : App). account_deleted user.email ∷ a.outbox) same,
    )
