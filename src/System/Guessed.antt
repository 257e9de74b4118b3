-- ===== src/System/Guessed.antt =====
-- The wrong codes typed from a start on (bauth_server/src/queries/magic_links.rs) as a property of the database.
use bauth.Base.{ℕ, ◌+◌, ◌≤◌, ◌==◌}
use bauth.Base.Text.{Text}
use bauth.MagicLink.Guesses.{
  IsGuessed, IsGuessed-create, IsGuessed-set_consumed, IsGuessed-record_code_failure,
}
use bauth.Queries.Users
use bauth.Queries.RefreshTokens
use bauth.Queries.LoginFlows
use bauth.Queries.MagicLinks
use bauth.LoginFlow.{flow_ttl}
use bauth.MagicCode.{code_ttl}
use bauth.MagicLink.{max_emails_per_flow}
use bauth.System.Stable.{IsStable}
use bauth.System.Frames.{
  create_user-writes, create_session-writes, create_token-writes, create_code-writes,
  consume_code-writes, create_flow-writes, count_request-writes, consume_link-writes,
}

pub IsGuessed-IsStable :
    (lower : Text → Text) (start spent : ℕ) (email : Text) (now : ℕ)
    → start ≤ now
    → IsStable lower now (λ db. IsGuessed start spent email now db.magic_links)
unfolding Users.mark_email_verified RefreshTokens.mark_rotated
    RefreshTokens.supersede_unused_successors LoginFlows.complete MagicLinks.consume_by_id
IsGuessed-IsStable lower start spent mine now started = record {
  create_user = λ id email db h e. rw (create_user-writes lower now id email db e) h;
  mark_email_verified = λ id email db h. h;
  create_session = λ id user_id client_id code_id expires_at db h e.
      rw (create_session-writes now id user_id client_id code_id expires_at db e) h;
  revoke_where = λ p db h. h;
  create_token = λ id session_id hash parent_id db h e.
      rw (create_token-writes now id session_id hash parent_id db e) h;
  mark_rotated = λ id db h. h;
  supersede = λ id db h. h;
  create_code = λ id hash flow_id user_id expires_at db h e.
      rw (create_code-writes now id hash flow_id user_id expires_at db e) h;
  consume_code = λ hash db h e. rw (consume_code-writes now hash db e) h;
  create_flow = λ id client_id redirect_uri code_challenge state db h e.
      rw
        (create_flow-writes now id client_id redirect_uri code_challenge state (now + flow_ttl) db
          e)
        h;
  complete_flow = λ id db h. h;
  count_request =
      λ id db h e. rw (count_request-writes now id max_emails_per_flow (now + code_ttl) db e) h;
  create_link = λ id flow_id user_id email token_hash code_hash db h e.
      IsGuessed-create start spent mine now started lower id flow_id user_id email token_hash
        code_hash db h e;
  consume_link = λ hash db h e. rw (consume_link-writes now hash db e) (
      IsGuessed-set_consumed start spent mine now started now (MagicLinks.is_usable now hash)
        db.magic_links h);
  consume_by_id = λ id db h.
      IsGuessed-set_consumed start spent mine now started now (λ m. m.id == id) db.magic_links h;
  record_failure = λ flow_id link db h c.
      IsGuessed-record_code_failure start spent mine now started flow_id link db h c;
}
