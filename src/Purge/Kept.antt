-- ===== src/Purge/Kept.antt =====
-- Who stays logged in after the purge of bauth_server/src/jobs/purge.rs.
use bauth.Base.{
  ℕ, ◌≡◌, refl, inl, inr, Bool, true, false, ◌&&◌, List, [], ◌∷◌, some, ◌==◌, is_some, is_none,
  if◌then◌else◌, Bool-cases, Option-cases, arith, ap, ◌∙◌,
}
use bauth.Base.Table.{find, delete, select, update}
use bauth.Base.Table.Laws.{find_sound, find-update, All-find, All-exists_false}
use bauth.Base.Table.Keys.{Distinct, find-passes}
use bauth.Purge.{
  old_flow, old_email_change, old_confirmation, old_session, old_user, delete_email_changes,
  delete_confirmations,
}
use bauth.Purge.Keyed.{IsKeyed}
use bauth.Purge.Laws.{purge_all}
use bauth.Queries.Cascades.{
  is_gone, is_gone_maybe, forget_code, delete_flows, delete_codes, delete_sessions, delete_users,
}
use bauth.Queries.Sessions
use bauth.Queries.Sessions.{AuthenticatedSession, is_live}
use bauth.Queries.Users
use bauth.Schema.{Db, Session, User}

find-delete :
    {A : Type 0} (p q : A → Bool) (xs : List A) {a : A}
    → find p xs ≡ some a
    → q a ≡ false
    → find p (delete q xs) ≡ some a
unfolding find select
find-delete p q [] e h = cc
find-delete p q (x ∷ xs) {a} e h = elim (Bool-cases (p x)) [
  | inl t ↦ let same : x ≡ a = ground arith in ground (arith, ap q same)
  | inr t ↦ ground (arith, find-delete p q xs {a = a})
]

-- The account of the row that a key finds is not among the deleted ones.
not_gone :
    (p : User → Bool) (id : ℕ) (users : List User) (u : User)
    → Distinct (λ (u : User). u.id) users
    → find (λ u. u.id == id) users ≡ some u
    → p u ≡ false
    → is_gone p (λ u. u.id) users id ≡ false
not_gone p id users u d e kept = elim (Bool-cases (is_gone p (λ u. u.id) users id)) [
  | inl t ↦ absurd (let hit = find-passes (λ (u : User). u.id) p id users d e t in ground arith)
  | inr t ↦ t
]

-- A session that is found and kept is found after the codes of some were forgotten.
find-forget :
    (test gone q : Session → Bool) (rows : List Session) (s : Session)
    → ((a : Session) → test (forget_code a) ≡ test a)
    → ((a : Session) → q (forget_code a) ≡ q a)
    → find test rows ≡ some s
    → q s ≡ false
    → (t : Session) × (find test (delete q (update gone forget_code rows)) ≡ some t)
      × (t.user_id ≡ s.user_id)
      × (t.expires_at ≡ s.expires_at)
      × (t.revoked_at ≡ s.revoked_at)
find-forget test gone q rows s same keep e h = (
  if gone s then forget_code s else s,
  find-delete test q (update gone forget_code rows) (find-update test gone forget_code same rows e)
      (ground (arith, keep s)),
  ground arith,
  ground arith,
  ground arith,
)

find_authenticated_of :
    (now id : ℕ) (db : Db) (s : Session) (v : User)
    → find (λ s. (s.id == id) && is_live now s) db.sessions ≡ some s
    → find (λ v. (v.id == s.user_id) && is_none v.disabled_at) db.users ≡ some v
    → Sessions.find_authenticated now id db ≡ some (record { user_id = s.user_id; email = v.email })
unfolding Sessions.find_authenticated
find_authenticated_of now id db s v e f = rw (e, Sessions.find_authenticated) (rw f refl)

-- If the ids of each table are distinct, a session that authenticates its account, whose address
-- was verified, still does so after the deletions of the purge, with the same account and
-- address.
pub purge_all-find_authenticated :
    (now id : ℕ) (db : Db) (a : AuthenticatedSession) (u : User)
    → IsKeyed db
    → Sessions.find_authenticated now id db ≡ some a
    → Users.find_by_id a.user_id db ≡ some u
    → is_some u.email_verified_at ≡ true
    → Sessions.find_authenticated now id (purge_all now db).1 ≡ some a
unfolding Sessions.find_authenticated Users.find_by_id purge_all delete_flows delete_codes
    delete_sessions delete_users
purge_all-find_authenticated now id db a u k e found verified =
    let test : Session → Bool = λ s. (s.id == id) && is_live now s in
    elim (Option-cases (find test db.sessions)) [
      | inl n ↦ absurd (ground arith)
      | inr (s, hit) ↦
          let active : User → Bool = λ v. (v.id == s.user_id) && is_none v.disabled_at in
          elim (Option-cases (find active db.users)) [
            | inl n ↦ absurd (ground arith)
            | inr (v, account) ↦
                let live : test s ≡ true = find_sound test db.sessions hit in
                let mine : s.user_id ≡ a.user_id = ground arith in
                let fresh : old_session now s ≡ false = ground arith in
                let row : find (λ (v : User). v.id == s.user_id) db.users ≡ some u =
                  rw mine found in
                let stays : is_gone (old_user now) (λ u. u.id) db.users s.user_id ≡ false =
                  not_gone (old_user now) s.user_id db.users u k.users row (ground arith) in
                let kept : ((v.id == s.user_id) && old_user now v) ≡ false =
                  All-find (λ (v : User). ((v.id == s.user_id) && old_user now v) ≡ false) active
                    db.users
                    (All-exists_false (λ (v : User). (v.id == s.user_id) && old_user now v) db.users
                      stays)
                    account in
                let its : active v ≡ true = find_sound active db.users account in
                let there : find active (delete (old_user now) db.users) ≡ some v =
                  find-delete active (old_user now) db.users account (ground arith) in
                let left =
                  delete_confirmations (old_confirmation now) (
                    delete_email_changes (old_email_change now) (delete_flows (old_flow now) db)) in
                let by_flow : Session → Bool = λ b.
                  is_gone_maybe (λ c. is_gone (old_flow now) (λ f. f.id) db.login_flows c.flow_id)
                    (λ c. c.id) db.authorization_codes b.authorization_code_id in
                let by_user : Session → Bool = λ b.
                  is_gone_maybe (λ c. is_gone (old_user now) (λ u. u.id) db.users c.user_id)
                    (λ c. c.id) left.authorization_codes b.authorization_code_id in
                let (s₁, hit₁, user₁, expiry₁, revoked₁) =
                  find-forget test by_flow (old_session now) db.sessions s (λ b. refl) (λ b. refl)
                    hit fresh in
                let (s₂, hit₂, user₂, expiry₂, revoked₂) =
                  find-forget test by_user
                    (λ b. is_gone (old_user now) (λ u. u.id) db.users b.user_id)
                    (delete (old_session now) left.sessions) s₁ (λ b. refl) (λ b. refl) hit₁
                    (rw user₁ stays) in
                let same : s₂.user_id ≡ s.user_id = user₂ ∙ user₁ in
                let there₂ : find (λ (v : User). (v.id == s₂.user_id) && is_none v.disabled_at)
                      (delete (old_user now) db.users)
                    ≡ some v =
                  rw same there in
                find_authenticated_of now id (purge_all now db).1 s₂ v hit₂ there₂
                ∙ ground (arith, same)
          ]
    ]
