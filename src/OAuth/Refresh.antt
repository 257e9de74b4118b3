-- ===== src/OAuth/Refresh.antt =====
-- `refresh_token` of bauth_server/src/routes/oauth.rs: detection of a stolen refresh token.
use bauth.Base.{
  ℕ, ◌+◌, ◌<◌, ◌≡◌, refl, ◌∙◌, ◌↔◌, ◌⊎◌, inl, inr, true, false, List, Option, none, some, err, All,
  is_some, ◌==◌, ◌=?◌, =?_refl, ==_iff, Option-cases, arith, leb,
}
use bauth.Base.Text.{Text, text}
use bauth.Base.Table.{find, exists}
use bauth.Base.Table.Laws.{exists_of_find, exists-update, All-update_hit, find_sound}
use bauth.Clients.{Client, get}
use bauth.Schema.{Db, Session, RefreshToken}
use bauth.Server.{Server, Env}
use bauth.Token.{hash}
use bauth.Sessions.{refresh_reuse_grace}
use bauth.Queries.Sessions
use bauth.Queries.RefreshTokens
use bauth.Queries.RefreshTokens.{RefreshTokenWithSession, joined}
use bauth.OAuth.{TokenRequest, Reply, invalid_grant, check_reuse, refresh_checked, refresh_token}

-- The session exists, and is revoked.
abbrev pub IsKilled : ℕ → Db → Type 0
IsKilled sid db =
    (exists (λ s. s.id == sid) db.sessions ≡ true)
    × All (λ s. s.id ≡ sid → is_some s.revoked_at ≡ true) db.sessions

-- A token is a stolen copy if a retry of its parent replaced it, or if it was rotated more than
-- the grace period ago and a token rotated from it has been used.
unfoldable pub IsStolen : Env → ℕ → Option ℕ → Option ℕ → Db → Type 0
IsStolen env id superseded_at rotated_at db =
    (is_some superseded_at ≡ true)
    ⊎ ((at : ℕ) × (superseded_at ≡ none)
        × (rotated_at ≡ some at)
        × (at + refresh_reuse_grace < env.now)
        × (RefreshTokens.has_used_successor id db ≡ true))

-- The check for reuse says stolen exactly when a retry of its parent superseded the token, or it
-- was rotated longer ago than the grace period and a token rotated from it was itself rotated.
check_reuse_iff :
    (server : Server) (env : Env) (id : ℕ) (superseded_at rotated_at : Option ℕ) (db : Db)
    → ((check_reuse server env id superseded_at rotated_at db).0 ≡ true)
      ↔ IsStolen env id superseded_at rotated_at db
unfolding check_reuse IsStolen
check_reuse_iff server env id (some at) r db = ground arith
check_reuse_iff server env id none none db = ground arith
check_reuse_iff server env id none (some at) db =
    (λ h. inr (at, ground arith, ground arith, ground arith, ground arith), λ h. ground arith)

-- What a stolen token leaves alone.
check_reuse-stolen :
    (server : Server) (env : Env) (id : ℕ) (superseded_at rotated_at : Option ℕ) (db : Db)
    → (check_reuse server env id superseded_at rotated_at db).0 ≡ true
    → (check_reuse server env id superseded_at rotated_at db).1 ≡ db
unfolding check_reuse
check_reuse-stolen server env id (some at) r db h = refl
check_reuse-stolen server env id none none db h = ground arith
check_reuse-stolen server env id none (some at) db h = ground arith

pub find_for_update_inv :
    (h : List ℕ) (db : Db) (cur : RefreshTokenWithSession)
    → RefreshTokens.find_for_update h db ≡ some cur
    → (r : RefreshToken) × (s : Session) × (find (λ t. t.token_hash =? h) db.refresh_tokens
        ≡ some r)
      × (find (λ t. t.id == r.session_id) db.sessions ≡ some s)
      × (cur ≡ joined r s)
unfolding RefreshTokens.find_for_update
find_for_update_inv h db cur e =
    elim (Option-cases (find (λ t. t.token_hash =? h) db.refresh_tokens)) [
      | inl n ↦ absurd (ground arith)
      | inr (r, found) ↦ elim (Option-cases (find (λ t. t.id == r.session_id) db.sessions)) [
        | inl n ↦ absurd (ground arith)
        | inr (s, owner) ↦ (r, s, found, owner, ground arith)
      ]
    ]

pub present-find_for_update :
    (h : List ℕ) (db : Db) (cur : RefreshTokenWithSession)
    → RefreshTokens.find_for_update h db ≡ some cur
    → exists (λ s. s.id == cur.session_id) db.sessions ≡ true
present-find_for_update h db cur e =
    let (r, s, found, owner, same) = find_for_update_inv h db cur e in
    let ids : s.id ≡ r.session_id =
      (==_iff _ _).0 (find_sound (λ t. t.id == r.session_id) db.sessions owner) in
    rw same (rw ids (exists_of_find (λ t. t.id == r.session_id) db.sessions owner))

-- `revoke` kills the session that it names.
pub revoke-IsKilled :
    (now sid : ℕ) (db : Db)
    → exists (λ s. s.id == sid) db.sessions ≡ true
    → IsKilled sid (Sessions.revoke now sid db)
unfolding Sessions.revoke
revoke-IsKilled now sid db e = (
  exists-update (λ s. s.id == sid) _ _ (λ a. refl) db.sessions ∙ e,
  All-update_hit (λ s. s.id ≡ sid → is_some s.revoked_at ≡ true) (Sessions.by_id sid)
      (Sessions.set_revoked now) (λ a h k. refl) (λ a h k. ground arith) db.sessions,
)

module _ (server : Server) (env : Env) (input : TokenRequest) (db : Db) (plain : Text)
    (client : Client) (cur : RefreshTokenWithSession) where
  -- The token is presented by the client that it was issued to, on a session that is live.
  pub record IsPresented : Type 0 where
    pub given : input.refresh_token ≡ some plain
    pub known : get input.client_id server.clients ≡ some client
    pub found : RefreshTokens.find_for_update (hash server.crypto plain) db ≡ some cur
    pub owner : cur.client_id ≡ client.id
    pub unrevoked : cur.session_revoked_at ≡ none
    pub unexpired : env.now < cur.session_expires_at

  -- Then the handler is the check for reuse, and what follows it.
  pub refresh_token_lem :
      IsPresented
      → let (stolen, tx) = check_reuse server env cur.id cur.superseded_at cur.rotated_at db in
        refresh_token server env input db
        ≡ bauth.OAuth.finish db (refresh_checked server env client cur stolen tx)
  unfolding refresh_token
  refresh_token_lem p =
      let same : (cur.client_id =? client.id) ≡ true = rw p.owner (=?_refl client.id) in
      let live : leb cur.session_expires_at env.now ≡ false = ground arith in
      rw (p.given, p.known, p.found, same, p.unrevoked, live)

  -- A refresh token that its own client presents on a live session, and that is stolen (a retry
  -- of its parent superseded it, or it was rotated longer ago than the grace period and a token
  -- rotated from it was used), is answered `invalid_grant`, and its session is revoked in the
  -- database that the request leaves.
  pub refresh_token-stolen :
      IsPresented
      → IsStolen env cur.id cur.superseded_at cur.rotated_at db
      → ((refresh_token server env input db).0
          ≡ err (invalid_grant (text "refresh token was already used")))
        × IsKilled cur.session_id (refresh_token server env input db).1
  refresh_token-stolen p s =
      let stolen = (check_reuse_iff server env cur.id cur.superseded_at cur.rotated_at db).1 s in
      let same = check_reuse-stolen server env cur.id cur.superseded_at cur.rotated_at db stolen in
      rw (refresh_token_lem p, stolen, same)
        (unfold refresh_checked in
          (
            refl,
            revoke-IsKilled env.now cur.session_id db
                (present-find_for_update (hash server.crypto plain) db cur p.found),
          ))
