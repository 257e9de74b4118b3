-- ===== src/Queries/Cascades.antt =====
-- The deletes of bauth_server/src/queries and bauth_server/src/jobs/purge.rs, with what the references
-- of bauth_server/migrations say of them: ON DELETE CASCADE, and ON DELETE SET NULL.
use bauth.Base.{
  ℕ, Bool, false, not, ◌&&◌, ◌||◌, List, [], ◌∷◌, Option, none, some, ◌==◌, if◌then◌else◌,
}
use bauth.Base.Table.{delete, update, exists}
use bauth.Schema.{Db, User, LoginFlow, AuthorizationCode, Session, RefreshToken}
use bauth.Queries.RefreshTokens.{has_parent}

-- The row that a reference names is among the deleted ones.
abbrev pub is_gone : {A : Type 0} → (A → Bool) → (A → ℕ) → List A → ℕ → Bool
is_gone p key rows id = exists (λ a. (key a == id) && p a) rows

abbrev pub is_gone_maybe : {A : Type 0} → (A → Bool) → (A → ℕ) → List A → Option ℕ → Bool
is_gone_maybe p key rows none = false
is_gone_maybe p key rows (some id) = is_gone p key rows id

-- The parent was in the table, and is not any more.
abbrev pub is_orphan : Option ℕ → (before kept : List RefreshToken) → Bool
is_orphan parent_id before kept = has_parent parent_id before && not (has_parent parent_id kept)

-- A refresh token goes with its session and with its parent, which is older.
unfoldable pub sweep_tokens : (ℕ → Bool) → List RefreshToken → List RefreshToken
sweep_tokens gone [] = []
sweep_tokens gone (r ∷ rs) =
    let kept = sweep_tokens gone rs in
    if gone r.session_id || is_orphan r.parent_id rs kept then kept else r ∷ kept

unfoldable pub delete_sessions : (Session → Bool) → Db → Db
unfolding sweep_tokens
delete_sessions p db = record db {
  sessions = delete p db.sessions;
  refresh_tokens = sweep_tokens (is_gone p (λ s. s.id) db.sessions) db.refresh_tokens;
  confirmations = delete (λ c. is_gone p (λ s. s.id) db.sessions c.session_id) db.confirmations;
}

-- A session outlives the code that it was opened with.
abbrev pub forget_code : Session → Session
forget_code s = record s { authorization_code_id = none }

unfoldable pub delete_codes : (AuthorizationCode → Bool) → Db → Db
delete_codes p db = record db {
  authorization_codes = delete p db.authorization_codes;
  sessions =
      update (λ s. is_gone_maybe p (λ c. c.id) db.authorization_codes s.authorization_code_id)
        forget_code db.sessions;
}

unfoldable pub delete_flows : (LoginFlow → Bool) → Db → Db
unfolding delete_codes
delete_flows p db =
    let gone = is_gone p (λ f. f.id) db.login_flows in
    let left = delete_codes (λ c. gone c.flow_id) db in
    record left {
      login_flows = delete p db.login_flows;
      magic_links = delete (λ m. gone m.flow_id) db.magic_links;
    }

unfoldable pub delete_users : (User → Bool) → Db → Db
unfolding delete_codes delete_sessions
delete_users p db =
    let gone = is_gone p (λ u. u.id) db.users in
    let gone_maybe = is_gone_maybe p (λ u. u.id) db.users in
    let left = delete_sessions (λ s. gone s.user_id) (delete_codes (λ c. gone c.user_id) db) in
    record left {
      users = delete p db.users;
      magic_links = delete (λ m. gone_maybe m.user_id) db.magic_links;
      email_changes = delete (λ e. gone e.user_id) db.email_changes;
      confirmations = delete (λ c. gone c.user_id) left.confirmations;
    }
