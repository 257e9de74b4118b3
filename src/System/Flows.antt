-- ===== src/System/Flows.antt =====
-- The bounds of login flows (bauth_server/src/queries/login_flows.rs) as a property of the database.
use bauth.Base.{ℕ, ◌+◌, ◌*◌, ◌≤◌, ◌≡◌, true, All, arith}
use bauth.Base.Text.{Text}
use bauth.Base.Table.Laws.{All-update}
use bauth.Schema.{LoginFlow}
use bauth.Queries.Users
use bauth.Queries.RefreshTokens
use bauth.Queries.LoginFlows
use bauth.Queries.MagicLinks
use bauth.LoginFlow.{flow_ttl}
use bauth.MagicCode.{code_ttl}
use bauth.MagicLink.{max_emails_per_flow}
use bauth.System.Stable.{IsStable}
use bauth.System.Frames.{
  create_user-writes, create_session-writes, create_token-writes, create_code-writes,
  consume_code-writes, create_flow-writes, count_request-writes, create_link-writes,
  consume_link-writes,
}

abbrev pub IsPaced : LoginFlow → Type 0
IsPaced f =
    (f.magic_link_requests ≤ max_emails_per_flow)
    × (f.expires_at ≤ f.created_at + flow_ttl + code_ttl * f.magic_link_requests)

-- Counting a request on a pending flow moves its end by less than the life of a link.
counted-IsPaced :
    (now id : ℕ) (f : LoginFlow)
    → LoginFlows.is_countable now id max_emails_per_flow f ≡ true
    → IsPaced f
    → IsPaced (LoginFlows.counted (now + code_ttl) f)
counted-IsPaced now id f hit h = (ground arith, ground arith)

pub IsPaced-IsStable :
    (lower : Text → Text) (now : ℕ) → IsStable lower now (λ db. All IsPaced db.login_flows)
unfolding Users.mark_email_verified RefreshTokens.mark_rotated
    RefreshTokens.supersede_unused_successors LoginFlows.complete MagicLinks.consume_by_id
    MagicLinks.record_code_failure
IsPaced-IsStable lower now = record {
  create_user = λ id email db h e. rw (create_user-writes lower now id email db e) h;
  mark_email_verified = λ id email db h. h;
  create_session = λ id user_id client_id code_id expires_at db h e.
      rw (create_session-writes now id user_id client_id code_id expires_at db e) h;
  revoke_where = λ p db h. h;
  create_token = λ id session_id hash parent_id db h e.
      rw (create_token-writes now id session_id hash parent_id db e) h;
  mark_rotated = λ id db h. h;
  supersede = λ id db h. h;
  create_code = λ id hash flow_id user_id expires_at db h e.
      rw (create_code-writes now id hash flow_id user_id expires_at db e) h;
  consume_code = λ hash db h e. rw (consume_code-writes now hash db e) h;
  create_flow = λ id client_id redirect_uri code_challenge state db h e.
      rw
        (create_flow-writes now id client_id redirect_uri code_challenge state (now + flow_ttl) db
          e)
        ((omega arith, omega arith), h);
  complete_flow = λ id db h.
      All-update IsPaced (LoginFlows.is_pending now id) (LoginFlows.set_completed now)
        (λ a hit k. k) db.login_flows h;
  count_request = λ id db h e.
      rw (count_request-writes now id max_emails_per_flow (now + code_ttl) db e)
        (All-update IsPaced _ _ (counted-IsPaced now id) db.login_flows h);
  create_link = λ id flow_id user_id email token_hash code_hash db h e.
      rw
        (create_link-writes lower now id flow_id user_id email token_hash code_hash (now + code_ttl)
          db e)
        h;
  consume_link = λ hash db h e. rw (consume_link-writes now hash db e) h;
  consume_by_id = λ id db h. h;
  record_failure = λ flow_id link db h c. h;
}
