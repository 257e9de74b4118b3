-- ===== src/Purge/Unchanged.antt =====
-- A deletion that no row passes changes nothing: the deletes of bauth_server/src/jobs/purge.rs.
use bauth.Base.{ℕ, ◌≡◌, refl, Bool, false, List, [], ◌∷◌, Option, none, some, arith, ap, ◌∙◌}
use bauth.Base.Table.{delete, update, exists, count}
use bauth.Purge.Rows.{count-delete_same}
use bauth.Queries.Cascades.{
  is_gone, is_gone_maybe, sweep_tokens, forget_code, delete_sessions, delete_codes, delete_flows,
  delete_users,
}
use bauth.Schema.{
  Db, RefreshToken, Session, AuthorizationCode, Confirmation, LoginFlow, MagicLink, User,
  EmailChange,
}

module _ {A : Type 0} where
  is_gone_none :
      (key : A → ℕ) (p : A → Bool) (xs : List A)
      → count p xs ≡ 0
      → (k : ℕ) → is_gone p key xs k ≡ false
  unfolding count exists
  is_gone_none key p [] e k = refl
  is_gone_none key p (x ∷ xs) e k =
      let rest : count p xs ≡ 0 → is_gone p key xs k ≡ false = λ h. is_gone_none key p xs h k in
      ground (arith, rest)

  is_gone_maybe_none :
      (key : A → ℕ) (p : A → Bool) (xs : List A)
      → count p xs ≡ 0
      → (k : Option ℕ) → is_gone_maybe p key xs k ≡ false
  is_gone_maybe_none key p xs e none = refl
  is_gone_maybe_none key p xs e (some k) = is_gone_none key p xs e k

  count-false : (p : A → Bool) → ((a : A) → p a ≡ false) → (xs : List A) → count p xs ≡ 0
  unfolding count
  count-false p h [] = refl
  count-false p h (x ∷ xs) = ground (arith, h x, count-false p h xs)

  delete-false : (p : A → Bool) → ((a : A) → p a ≡ false) → (xs : List A) → delete p xs ≡ xs
  delete-false p h xs = count-delete_same p xs (count-false p h xs)

  update-false :
      (p : A → Bool) (f : A → A) → ((a : A) → p a ≡ false) → (xs : List A) → update p f xs ≡ xs
  unfolding update
  update-false p f h [] = refl
  update-false p f h (x ∷ xs) = ground (arith, h x, update-false p f h xs)

sweep_false :
    (gone : ℕ → Bool)
    → ((k : ℕ) → gone k ≡ false)
    → (rs : List RefreshToken) → sweep_tokens gone rs ≡ rs
unfolding sweep_tokens
sweep_false gone h [] = refl
sweep_false gone h (r ∷ rs) = ground (arith, h r.session_id, sweep_false gone h rs)

delete_codes_none :
    (p : AuthorizationCode → Bool)
    → ((c : AuthorizationCode) → p c ≡ false)
    → (db : Db) → delete_codes p db ≡ db
unfolding delete_codes
delete_codes_none p h db = λ i. record db {
  authorization_codes = delete-false p h db.authorization_codes i;
  sessions =
      update-false
        (λ (s : Session).
          is_gone_maybe p (λ c. c.id) db.authorization_codes s.authorization_code_id)
        forget_code
        (λ s.
          is_gone_maybe_none (λ (c : AuthorizationCode). c.id) p db.authorization_codes
            (count-false p h db.authorization_codes) s.authorization_code_id)
        db.sessions i;
}

pub delete_sessions_none :
    (p : Session → Bool) (db : Db) → count p db.sessions ≡ 0 → delete_sessions p db ≡ db
unfolding delete_sessions
delete_sessions_none p db e =
    let gone = is_gone_none (λ (s : Session). s.id) p db.sessions e in
    λ i. record db {
      sessions = count-delete_same p db.sessions e i;
      refresh_tokens =
          sweep_false (is_gone p (λ (s : Session). s.id) db.sessions) gone db.refresh_tokens i;
      confirmations =
          delete-false (λ (c : Confirmation). is_gone p (λ s. s.id) db.sessions c.session_id)
            (λ c. gone c.session_id) db.confirmations i;
    }

pub delete_flows_none :
    (p : LoginFlow → Bool) (db : Db) → count p db.login_flows ≡ 0 → delete_flows p db ≡ db
unfolding delete_flows
delete_flows_none p db e =
    let gone = is_gone_none (λ (f : LoginFlow). f.id) p db.login_flows e in
    let codes =
      delete_codes_none (λ c. is_gone p (λ f. f.id) db.login_flows c.flow_id) (λ c. gone c.flow_id)
        db in
    λ i. record (codes i) {
      login_flows = count-delete_same p db.login_flows e i;
      magic_links =
          delete-false (λ (m : MagicLink). is_gone p (λ f. f.id) db.login_flows m.flow_id)
            (λ m. gone m.flow_id) db.magic_links i;
    }

pub delete_users_none : (p : User → Bool) (db : Db) → count p db.users ≡ 0 → delete_users p db ≡ db
unfolding delete_users
delete_users_none p db e =
    let gone = is_gone_none (λ (u : User). u.id) p db.users e in
    let maybe = is_gone_maybe_none (λ (u : User). u.id) p db.users e in
    let gp = is_gone p (λ u. u.id) db.users in
    let codes = delete_codes_none (λ c. gp c.user_id) (λ c. gone c.user_id) db in
    let left = delete_codes (λ c. gp c.user_id) db in
    let sessions =
      delete_sessions_none (λ s. gp s.user_id) left
        (count-false _ (λ (s : Session). gone s.user_id) left.sessions) in
    let both = sessions ∙ codes in
    λ i. record (both i) {
      users = count-delete_same p db.users e i;
      magic_links =
          delete-false (λ (m : MagicLink). is_gone_maybe p (λ u. u.id) db.users m.user_id)
            (λ m. maybe m.user_id) db.magic_links i;
      email_changes =
          delete-false (λ (c : EmailChange). gp c.user_id) (λ c. gone c.user_id) db.email_changes i;
      confirmations =
          (delete-false (λ (c : Confirmation). gp c.user_id) (λ c. gone c.user_id)
                (delete_sessions (λ s. gp s.user_id) left).confirmations
              ∙ ap (λ (d : Db). d.confirmations) both)
            i;
    }
