-- ===== src/Purge/Cascading.antt =====
-- A deletion of some rows and then of all of them, with what references them: the deletes of
-- bauth_server/src/jobs/purge.rs with the references of bauth_server/migrations.
use bauth.Base.{
  ℕ, ◌≡◌, refl, inl, inr, Bool, true, false, not, ◌&&◌, ◌||◌, List, [], ◌∷◌, Option, none, some,
  ◌==◌, if◌then◌else◌, Bool-cases, arith, ap, sym, ◌∙◌,
}
use bauth.Base.Table.{select, delete, update, exists}
use bauth.Base.Table.Laws.{select-update, exists-update}
use bauth.Purge.Rows.{delete-delete}
use bauth.Queries.Cascades.{
  is_gone, is_gone_maybe, is_orphan, sweep_tokens, forget_code, delete_sessions, delete_codes,
  delete_flows, delete_users,
}
use bauth.Queries.RefreshTokens.{has_parent}
use bauth.Schema.{
  Db, RefreshToken, Session, AuthorizationCode, Confirmation, LoginFlow, MagicLink, User,
  EmailChange,
}

-- The first test, or the second.
abbrev pub either : Bool → Bool → Bool
either a b = if a then true else b

module _ {A : Type 0} (key : A → ℕ) (p q r : A → Bool)
    (h : (a : A) → p a ≡ either (q a) (r a)) where
  pub gone-delete :
      (xs : List A) (k : ℕ)
      → is_gone p key xs k ≡ either (is_gone q key xs k) (is_gone r key (delete q xs) k)
  unfolding exists select
  gone-delete [] k = refl
  gone-delete (x ∷ xs) k = ground (arith, h x, gone-delete xs k)

  pub gone_maybe-delete :
      (xs : List A) (k : Option ℕ)
      → is_gone_maybe p key xs k
        ≡ either (is_gone_maybe q key xs k) (is_gone_maybe r key (delete q xs) k)
  gone_maybe-delete xs none = refl
  gone_maybe-delete xs (some k) = gone-delete xs k

module _ {A : Type 0} where
  -- An update of some rows, whose rows do not pass the next test, then of the others.
  pub update-update :
      (p q r : A → Bool) (f : A → A)
      → ((a : A) → p a ≡ either (q a) (r a))
      → ((a : A) → r (f a) ≡ false)
      → (xs : List A) → update r f (update q f xs) ≡ update p f xs
  unfolding update
  update-update p q r f h miss [] = refl
  update-update p q r f h miss (x ∷ xs) =
      ground (arith, h x, miss x, update-update p q r f h miss xs)

has_parent-sweep :
    (gone : ℕ → Bool) (rs : List RefreshToken) (k : Option ℕ)
    → has_parent k (sweep_tokens gone rs) ≡ true
    → has_parent k rs ≡ true
unfolding sweep_tokens exists
has_parent-sweep gone [] k e = e
has_parent-sweep gone (r ∷ rs) none e = refl
has_parent-sweep gone (r ∷ rs) (some k) e = ground (arith, has_parent-sweep gone rs (some k))

pub sweep-sweep :
    (p q r : ℕ → Bool)
    → ((k : ℕ) → p k ≡ either (q k) (r k))
    → (rs : List RefreshToken) → sweep_tokens r (sweep_tokens q rs) ≡ sweep_tokens p rs
unfolding sweep_tokens
sweep-sweep p q r h [] = refl
sweep-sweep p q r h (x ∷ xs) =
    let rest : sweep_tokens r (sweep_tokens q xs) ≡ sweep_tokens p xs = sweep-sweep p q r h xs in
    let down : has_parent x.parent_id (sweep_tokens p xs) ≡ true
        → has_parent x.parent_id (sweep_tokens q xs) ≡ true =
      λ e. has_parent-sweep r (sweep_tokens q xs) x.parent_id (rw rest e) in
    let up = has_parent-sweep q xs x.parent_id in
    elim (Bool-cases (q x.session_id || is_orphan x.parent_id xs (sweep_tokens q xs))) [
      | inl t ↦
          let gone : (p x.session_id || is_orphan x.parent_id xs (sweep_tokens p xs)) ≡ true =
            ground (arith, h x.session_id, down) in
          rw (t, gone) rest
      | inr t ↦
          let same : (r x.session_id
                || is_orphan x.parent_id (sweep_tokens q xs) (sweep_tokens p xs))
              ≡ (p x.session_id || is_orphan x.parent_id xs (sweep_tokens p xs)) =
            ground (arith, h x.session_id, down, up) in
          rw (t, rest, same) refl
    ]

-- Codes, then what is left of them.
pub delete_codes-delete_codes :
    (p q r : AuthorizationCode → Bool)
    → ((c : AuthorizationCode) → p c ≡ either (q c) (r c))
    → (db : Db) → delete_codes r (delete_codes q db) ≡ delete_codes p db
unfolding delete_codes
delete_codes-delete_codes p q r h db = λ i. record db {
  authorization_codes = delete-delete r q p h db.authorization_codes i;
  sessions =
      update-update
        (λ (s : Session).
          is_gone_maybe p (λ c. c.id) db.authorization_codes s.authorization_code_id)
        (λ s. is_gone_maybe q (λ c. c.id) db.authorization_codes s.authorization_code_id)
        (λ s. is_gone_maybe r (λ c. c.id) (delete q db.authorization_codes) s.authorization_code_id)
        forget_code
        (λ s.
          gone_maybe-delete (λ (c : AuthorizationCode). c.id) p q r h db.authorization_codes
            s.authorization_code_id)
        (λ s. refl) db.sessions i;
}

pub delete_sessions-delete_sessions :
    (p q r : Session → Bool)
    → ((s : Session) → p s ≡ either (q s) (r s))
    → (db : Db) → delete_sessions r (delete_sessions q db) ≡ delete_sessions p db
unfolding delete_sessions
delete_sessions-delete_sessions p q r h db =
    let gone = gone-delete (λ (s : Session). s.id) p q r h db.sessions in
    λ i. record db {
      sessions = delete-delete r q p h db.sessions i;
      refresh_tokens =
          sweep-sweep (is_gone p (λ (s : Session). s.id) db.sessions)
            (is_gone q (λ (s : Session). s.id) db.sessions)
            (is_gone r (λ (s : Session). s.id) (delete q db.sessions)) gone db.refresh_tokens i;
      confirmations =
          delete-delete
            (λ (c : Confirmation). is_gone r (λ s. s.id) (delete q db.sessions) c.session_id)
            (λ c. is_gone q (λ s. s.id) db.sessions c.session_id)
            (λ c. is_gone p (λ s. s.id) db.sessions c.session_id) (λ c. gone c.session_id)
            db.confirmations i;
    }

pub delete_flows-delete_flows :
    (p q r : LoginFlow → Bool)
    → ((f : LoginFlow) → p f ≡ either (q f) (r f))
    → (db : Db) → delete_flows r (delete_flows q db) ≡ delete_flows p db
unfolding delete_flows delete_codes
delete_flows-delete_flows p q r h db =
    let gone = gone-delete (λ (f : LoginFlow). f.id) p q r h db.login_flows in
    let codes =
      delete_codes-delete_codes (λ c. is_gone p (λ f. f.id) db.login_flows c.flow_id)
        (λ c. is_gone q (λ f. f.id) db.login_flows c.flow_id)
        (λ c. is_gone r (λ f. f.id) (delete q db.login_flows) c.flow_id) (λ c. gone c.flow_id) db in
    λ i. record (codes i) {
      login_flows = delete-delete r q p h db.login_flows i;
      magic_links =
          delete-delete
            (λ (m : MagicLink). is_gone r (λ f. f.id) (delete q db.login_flows) m.flow_id)
            (λ m. is_gone q (λ f. f.id) db.login_flows m.flow_id)
            (λ m. is_gone p (λ f. f.id) db.login_flows m.flow_id) (λ m. gone m.flow_id)
            db.magic_links i;
    }

-- Four deletions that are two.
delete_twice :
    {A : Type 0} (g₁ u₁ g₂ u₂ g u : A → Bool)
    → ((a : A) → g a ≡ either (g₁ a) (g₂ a))
    → ((a : A) → u a ≡ either (u₁ a) (u₂ a))
    → (xs : List A) → delete u₂ (delete g₂ (delete u₁ (delete g₁ xs))) ≡ delete u (delete g xs)
unfolding select
delete_twice g₁ u₁ g₂ u₂ g u h k [] = refl
delete_twice g₁ u₁ g₂ u₂ g u h k (x ∷ xs) =
    ground (arith, h x, k x, delete_twice g₁ u₁ g₂ u₂ g u h k xs)

module _ (p q r : User → Bool) (h : (u : User) → p u ≡ either (q u) (r u)) (db : Db) where
  abbrev gp : ℕ → Bool
  gp = is_gone p (λ u. u.id) db.users

  abbrev gq : ℕ → Bool
  gq = is_gone q (λ u. u.id) db.users

  abbrev gr : ℕ → Bool
  gr = is_gone r (λ u. u.id) (delete q db.users)

  gone : (k : ℕ) → gp k ≡ either (gq k) (gr k)
  gone = gone-delete (λ (u : User). u.id) p q r h db.users

  -- The sessions whose code goes, at once and in two steps.
  abbrev cp : Session → Bool
  cp s =
      is_gone_maybe (λ c. gp c.user_id) (λ c. c.id) db.authorization_codes s.authorization_code_id

  abbrev cq : Session → Bool
  cq s =
      is_gone_maybe (λ c. gq c.user_id) (λ c. c.id) db.authorization_codes s.authorization_code_id

  abbrev cr : Session → Bool
  cr s =
      is_gone_maybe (λ c. gr c.user_id) (λ c. c.id)
        (delete (λ c. gq c.user_id) db.authorization_codes) s.authorization_code_id

  code_gone : (s : Session) → cp s ≡ either (cq s) (cr s)
  code_gone s =
      gone_maybe-delete (λ (c : AuthorizationCode). c.id) (λ c. gp c.user_id) (λ c. gq c.user_id)
        (λ c. gr c.user_id) (λ c. gone c.user_id) db.authorization_codes s.authorization_code_id

  abbrev once : List Session
  once = delete (λ s. gq s.user_id) (update cq forget_code db.sessions)

  sessions_twice :
      delete (λ s. gr s.user_id) (update cr forget_code once)
      ≡ delete (λ s. gp s.user_id) (update cp forget_code db.sessions)
  sessions_twice =
      ap (delete (λ (s : Session). gr s.user_id)) (
        sym (
          select-update (λ (s : Session). not (gq s.user_id)) cr forget_code (λ s. refl)
            (update cq forget_code db.sessions)))
      ∙ (delete-delete (λ (s : Session). gr s.user_id) (λ s. gq s.user_id) (λ s. gp s.user_id)
            (λ s. gone s.user_id) (update cr forget_code (update cq forget_code db.sessions))
          ∙ ap (delete (λ (s : Session). gp s.user_id))
              (update-update cp cq cr forget_code code_gone (λ s. refl) db.sessions))

  session_gone :
      (k : ℕ)
      → is_gone (λ s. gp s.user_id) (λ s. s.id) (update cp forget_code db.sessions) k
        ≡ either
            (is_gone (λ s. gq s.user_id) (λ s. s.id) (update cq forget_code db.sessions) k)
            (is_gone (λ s. gr s.user_id) (λ s. s.id) (update cr forget_code once) k)
  session_gone k =
      let now : is_gone (λ s. gp s.user_id) (λ s. s.id) (update cp forget_code db.sessions) k
          ≡ is_gone (λ s. gp s.user_id) (λ s. s.id) (update cq forget_code db.sessions) k =
        exists-update (λ (s : Session). (s.id == k) && gp s.user_id) cp forget_code (λ s. refl)
          db.sessions
        ∙ sym (
            exists-update (λ (s : Session). (s.id == k) && gp s.user_id) cq forget_code (λ s. refl)
              db.sessions) in
      let later : is_gone (λ s. gr s.user_id) (λ s. s.id) (update cr forget_code once) k
          ≡ is_gone (λ s. gr s.user_id) (λ s. s.id) once k =
        exists-update (λ (s : Session). (s.id == k) && gr s.user_id) cr forget_code (λ s. refl)
          once in
      now
      ∙ (gone-delete (λ (s : Session). s.id) (λ s. gp s.user_id) (λ s. gq s.user_id)
            (λ s. gr s.user_id) (λ s. gone s.user_id) (update cq forget_code db.sessions) k
          ∙ ap
              (either (
                is_gone (λ (s : Session). gq s.user_id) (λ s. s.id)
                  (update cq forget_code db.sessions) k))
              (sym later))

  pub delete_users-delete_users : delete_users r (delete_users q db) ≡ delete_users p db
  unfolding delete_users delete_sessions delete_codes
  delete_users-delete_users = λ i. record db {
    users = delete-delete r q p h db.users i;
    authorization_codes =
        delete-delete (λ (c : AuthorizationCode). gr c.user_id) (λ c. gq c.user_id)
          (λ c. gp c.user_id) (λ c. gone c.user_id) db.authorization_codes i;
    sessions = sessions_twice i;
    refresh_tokens =
        sweep-sweep
          (is_gone (λ (s : Session). gp s.user_id) (λ s. s.id) (update cp forget_code db.sessions))
          (is_gone (λ (s : Session). gq s.user_id) (λ s. s.id) (update cq forget_code db.sessions))
          (is_gone (λ (s : Session). gr s.user_id) (λ s. s.id) (update cr forget_code once))
          session_gone db.refresh_tokens i;
    magic_links =
        delete-delete (λ (m : MagicLink). is_gone_maybe r (λ u. u.id) (delete q db.users) m.user_id)
          (λ m. is_gone_maybe q (λ u. u.id) db.users m.user_id)
          (λ m. is_gone_maybe p (λ u. u.id) db.users m.user_id)
          (λ m. gone_maybe-delete (λ (u : User). u.id) p q r h db.users m.user_id) db.magic_links i;
    email_changes =
        delete-delete (λ (e : EmailChange). gr e.user_id) (λ e. gq e.user_id) (λ e. gp e.user_id)
          (λ e. gone e.user_id) db.email_changes i;
    confirmations =
        delete_twice
          (λ (c : Confirmation).
            is_gone (λ s. gq s.user_id) (λ s. s.id) (update cq forget_code db.sessions)
              c.session_id)
          (λ c. gq c.user_id)
          (λ c. is_gone (λ s. gr s.user_id) (λ s. s.id) (update cr forget_code once) c.session_id)
          (λ c. gr c.user_id)
          (λ c.
            is_gone (λ s. gp s.user_id) (λ s. s.id) (update cp forget_code db.sessions)
              c.session_id)
          (λ c. gp c.user_id) (λ c. session_gone c.session_id) (λ c. gone c.user_id)
          db.confirmations i;
  }
