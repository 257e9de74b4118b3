-- ===== src/System/Killed.antt =====
-- Revoked sessions (bauth_server/src/queries/sessions.rs) as a property of the database.
use bauth.Base.{
  ℕ, ◌+◌, ◌≡◌, refl, ◌∙◌, true, false, ok, ◌==◌, is_some, List, [], ◌∷◌, is_just, if◌then◌else◌,
  arith,
}
use bauth.Base.Text.{Text}
use bauth.Base.Table.{exists}
use bauth.Base.Table.Laws.{exists-update, All-update}
use bauth.OAuth.Opened.{create_session_inv}
use bauth.OAuth.Refresh.{IsKilled}
use bauth.Schema.{Db, Session}
use bauth.Queries.Users
use bauth.Queries.Sessions
use bauth.Queries.RefreshTokens
use bauth.Queries.LoginFlows
use bauth.Queries.MagicLinks
use bauth.LoginFlow.{flow_ttl}
use bauth.MagicCode.{code_ttl}
use bauth.MagicLink.{max_emails_per_flow}
use bauth.System.Stable.{IsStable}
use bauth.System.Frames.{
  create_user-writes, create_token-writes, create_code-writes, consume_code-writes,
  create_flow-writes, count_request-writes, create_link-writes, consume_link-writes,
}

create_session-IsKilled :
    (sid now id user_id : ℕ) (client_id : Text) (code_id expires_at : ℕ) (db : Db) {left : Db}
    → IsKilled sid db
    → Sessions.create now id user_id client_id code_id expires_at db ≡ ok left
    → IsKilled sid left
unfolding exists
create_session-IsKilled sid now id user_id client_id code_id expires_at db k e =
    let (fresh, same) = create_session_inv now id user_id client_id code_id expires_at db e in
    rw same
      (ground (arith, k.0), (λ hit. absurd (ground (arith, taken db.sessions fresh hit)), k.1))
  where
    -- The id of the new row is new.
    taken :
        (xs : List Session)
        → exists (λ s. if s.id == id then true else is_just s.authorization_code_id code_id) xs
          ≡ false
        → id ≡ sid
        → exists (λ s. s.id == sid) xs ≡ false
    taken [] f e = refl
    taken (x ∷ xs) f e = ground (arith, taken xs)

pub IsKilled-IsStable :
    (sid : ℕ) (lower : Text → Text) (now : ℕ) → IsStable lower now (IsKilled sid)
unfolding Users.mark_email_verified RefreshTokens.mark_rotated
    RefreshTokens.supersede_unused_successors LoginFlows.complete MagicLinks.consume_by_id
    MagicLinks.record_code_failure
IsKilled-IsStable sid lower now = record {
  create_user = λ id email db h e. rw (create_user-writes lower now id email db e) h;
  mark_email_verified = λ id email db h. h;
  create_session = λ id user_id client_id code_id expires_at db h e.
      create_session-IsKilled sid now id user_id client_id code_id expires_at db h e;
  revoke_where = λ p db h. (
    exists-update (λ s. s.id == sid) p (Sessions.set_revoked now) (λ a. refl) db.sessions ∙ h.0,
    All-update (λ s. s.id ≡ sid → is_some s.revoked_at ≡ true) p (Sessions.set_revoked now)
        (λ a hit k same. refl) db.sessions h.1,
  );
  create_token = λ id session_id hash parent_id db h e.
      rw (create_token-writes now id session_id hash parent_id db e) h;
  mark_rotated = λ id db h. h;
  supersede = λ id db h. h;
  create_code = λ id hash flow_id user_id expires_at db h e.
      rw (create_code-writes now id hash flow_id user_id expires_at db e) h;
  consume_code = λ hash db h e. rw (consume_code-writes now hash db e) h;
  create_flow = λ id client_id redirect_uri code_challenge state db h e.
      rw
        (create_flow-writes now id client_id redirect_uri code_challenge state (now + flow_ttl) db
          e)
        h;
  complete_flow = λ id db h. h;
  count_request =
      λ id db h e. rw (count_request-writes now id max_emails_per_flow (now + code_ttl) db e) h;
  create_link = λ id flow_id user_id email token_hash code_hash db h e.
      rw
        (create_link-writes lower now id flow_id user_id email token_hash code_hash (now + code_ttl)
          db e)
        h;
  consume_link = λ hash db h e. rw (consume_link-writes now hash db e) h;
  consume_by_id = λ id db h. h;
  record_failure = λ flow_id link db h c. h;
}
