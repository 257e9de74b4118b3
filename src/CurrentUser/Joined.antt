-- ===== src/CurrentUser/Joined.antt =====
-- The join of `find_authenticated` of bauth_server/src/queries/sessions.rs, by its rows.
use bauth.Base.{
  ◌≡◌, ◌<◌, ◌↔◌, ◌==◌, ◌&&◌, inl, inr, true, none, some, ℕ, Option, Option-cases, is_none, arith,
}
use bauth.Base.Table.{find}
use bauth.Base.Table.Keys.{Distinct, find-key_iff}
use bauth.Schema.{Db, User, Session}
use bauth.Queries.Sessions
use bauth.Queries.Sessions.{AuthenticatedSession, is_live}

live_iff :
    (now : ℕ) (s : Session)
    → (is_live now s ≡ true) ↔ ((s.revoked_at ≡ none) × (now < s.expires_at))
live_iff now s = (λ h. (ground arith, ground arith), λ h. ground (arith, h.0, h.1))

none_iff : (o : Option ℕ) → (is_none o ≡ true) ↔ (o ≡ none)
none_iff o = (λ h. ground arith, λ h. ground arith)

-- The rows of the join.
pub record IsJoined (now id : ℕ) (db : Db) (a : AuthenticatedSession) : Type 0 where
  pub session : Session
  pub account : User
  pub session_row : find (λ s. s.id == id) db.sessions ≡ some session
  pub unrevoked : session.revoked_at ≡ none
  pub unexpired : now < session.expires_at
  pub account_row : find (λ u. u.id == session.user_id) db.users ≡ some account
  pub enabled : account.disabled_at ≡ none
  pub owner : a.user_id ≡ session.user_id
  pub address : a.email ≡ account.email

module _ (now id : ℕ) (db : Db) (sessions : Distinct (λ (s : Session). s.id) db.sessions)
    (users : Distinct (λ (u : User). u.id) db.users) where
  pub find_authenticated_inv :
      (a : AuthenticatedSession)
      → Sessions.find_authenticated now id db ≡ some a
      → IsJoined now id db a
  unfolding Sessions.find_authenticated
  find_authenticated_inv a e =
      elim (Option-cases (find (λ s. (s.id == id) && is_live now s) db.sessions)) [
        | inl n ↦ absurd (ground arith)
        | inr (s, there) ↦
            elim (Option-cases
              (find (λ u. (u.id == s.user_id) && is_none u.disabled_at) db.users)) [
                | inl n ↦ absurd (ground arith)
                | inr (u, known) ↦
                    let (row, live) =
                      (find-key_iff (λ (t : Session). t.id) (is_live now) id db.sessions sessions).0
                        there in
                    let (account, enabled) =
                      (find-key_iff (λ (v : User). v.id) (λ v. is_none v.disabled_at) s.user_id
                          db.users users).0
                        known in
                    record {
                      session = s;
                      account = u;
                      session_row = row;
                      unrevoked = ((live_iff now s).0 live).0;
                      unexpired = ((live_iff now s).0 live).1;
                      account_row = account;
                      enabled = (none_iff u.disabled_at).0 enabled;
                      owner = ground arith;
                      address = ground arith;
                    }
              ]
      ]

  pub find_authenticated_of :
      (a : AuthenticatedSession)
      → IsJoined now id db a
      → Sessions.find_authenticated now id db ≡ some a
  unfolding Sessions.find_authenticated
  find_authenticated_of a j =
      let there =
        (find-key_iff (λ (t : Session). t.id) (is_live now) id db.sessions sessions).1
          (j.session_row, (live_iff now j.session).1 (j.unrevoked, j.unexpired)) in
      let known =
        (find-key_iff (λ (v : User). v.id) (λ v. is_none v.disabled_at) j.session.user_id db.users
            users).1
          (j.account_row, (none_iff j.account.disabled_at).1 j.enabled) in
      rw (there, Sessions.find_authenticated) (rw known (ground (arith, j.owner, j.address)))
