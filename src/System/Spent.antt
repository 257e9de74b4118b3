-- ===== src/System/Spent.antt =====
-- Spent authorization codes (bauth_server/src/queries/authorization_codes.rs) as a property of the
-- database.
use bauth.Base.{
  ℕ, ◌+◌, ◌≡◌, inl, inr, refl, ◌∙◌, true, false, none, ok, List, [], ◌∷◌, All, ◌==◌, ◌=?◌, =?_sound,
  if◌then◌else◌, Bool-cases, arith,
}
use bauth.Base.Text.{Text}
use bauth.Base.Table.{exists}
use bauth.Base.Table.Laws.{All-update, exists-update}
use bauth.Schema.{Db, AuthorizationCode}
use bauth.Queries.Users
use bauth.Queries.RefreshTokens
use bauth.Queries.AuthorizationCodes
use bauth.Queries.LoginFlows
use bauth.Queries.MagicLinks
use bauth.LoginFlow.{flow_ttl}
use bauth.MagicCode.{code_ttl}
use bauth.MagicLink.{max_emails_per_flow}
use bauth.System.Stable.{IsStable}
use bauth.System.Frames.{
  create_user-writes, create_session-writes, create_token-writes, consume_code-writes,
  create_flow-writes, count_request-writes, create_link-writes, consume_link-writes,
}

-- The code is in the table, and used or expired.
abbrev pub IsSpent : List ℕ → ℕ → Db → Type 0
IsSpent hash at db =
    (exists (λ c. c.code_hash =? hash) db.authorization_codes ≡ true)
    × All (λ c. AuthorizationCodes.is_usable at hash c ≡ false) db.authorization_codes

-- The hash of a new code is new.
taken :
    (id flow_id : ℕ) (fresh hash : List ℕ) (xs : List AuthorizationCode)
    → exists
        (λ c.
          if c.id == id then true else if c.flow_id == flow_id then true else c.code_hash =? fresh)
        xs
      ≡ false
    → (fresh =? hash) ≡ true
    → exists (λ c. c.code_hash =? hash) xs ≡ false
unfolding exists
taken id flow_id fresh hash [] f e = refl
taken id flow_id fresh hash (x ∷ xs) f e =
    let same : fresh ≡ hash = =?_sound fresh hash e in
    ground (arith, taken id flow_id fresh hash xs)

create_code-IsSpent :
    (hash : List ℕ) (at now id : ℕ) (fresh : List ℕ) (flow_id user_id expires_at : ℕ) (db : Db)
    {left : Db}
    → IsSpent hash at db
    → AuthorizationCodes.create now id fresh flow_id user_id expires_at db ≡ ok left
    → IsSpent hash at left
unfolding exists AuthorizationCodes.create
create_code-IsSpent hash at now id fresh flow_id user_id expires_at db {left} h e =
    let row : AuthorizationCode = record {
      id = id;
      code_hash = fresh;
      flow_id = flow_id;
      user_id = user_id;
      expires_at = expires_at;
      consumed_at = none;
      created_at = now;
    } in
    let rows : left.authorization_codes ≡ row ∷ db.authorization_codes = ground arith in
    let unused : exists
          (λ c.
            if c.id == id
            then true
            else if c.flow_id == flow_id
            then true
            else c.code_hash =? fresh)
          db.authorization_codes
        ≡ false =
      ground arith in
    elim (Bool-cases (fresh =? hash)) [
      | inl t ↦
          absurd (ground (arith, h.0, taken id flow_id fresh hash db.authorization_codes unused t))
      | inr t ↦ rw rows (ground (arith, h.0), (ground arith, h.1))
    ]

pub IsSpent-IsStable :
    (hash : List ℕ) (at : ℕ) (lower : Text → Text) (now : ℕ) → IsStable lower now (IsSpent hash at)
unfolding Users.mark_email_verified RefreshTokens.mark_rotated
    RefreshTokens.supersede_unused_successors LoginFlows.complete MagicLinks.consume_by_id
    MagicLinks.record_code_failure
IsSpent-IsStable hash at lower now = record {
  create_user = λ id email db h e. rw (create_user-writes lower now id email db e) h;
  mark_email_verified = λ id email db h. h;
  create_session = λ id user_id client_id code_id expires_at db h e.
      rw (create_session-writes now id user_id client_id code_id expires_at db e) h;
  revoke_where = λ p db h. h;
  create_token = λ id session_id hash parent_id db h e.
      rw (create_token-writes now id session_id hash parent_id db e) h;
  mark_rotated = λ id db h. h;
  supersede = λ id db h. h;
  create_code = λ id fresh flow_id user_id expires_at db h e.
      create_code-IsSpent hash at now id fresh flow_id user_id expires_at db h e;
  consume_code = λ fresh db h e. rw (consume_code-writes now fresh db e) (
    exists-update (λ c. c.code_hash =? hash) (AuthorizationCodes.is_usable now fresh)
          (AuthorizationCodes.mark_consumed now) (λ a. refl) db.authorization_codes
        ∙ h.0,
    All-update (λ c. AuthorizationCodes.is_usable at hash c ≡ false)
        (AuthorizationCodes.is_usable now fresh) (AuthorizationCodes.mark_consumed now)
        (λ a hit k. ground arith) db.authorization_codes h.1,
  );
  create_flow = λ id client_id redirect_uri code_challenge state db h e.
      rw
        (create_flow-writes now id client_id redirect_uri code_challenge state (now + flow_ttl) db
          e)
        h;
  complete_flow = λ id db h. h;
  count_request =
      λ id db h e. rw (count_request-writes now id max_emails_per_flow (now + code_ttl) db e) h;
  create_link = λ id flow_id user_id email token_hash code_hash db h e.
      rw
        (create_link-writes lower now id flow_id user_id email token_hash code_hash (now + code_ttl)
          db e)
        h;
  consume_link = λ hash db h e. rw (consume_link-writes now hash db e) h;
  consume_by_id = λ id db h. h;
  record_failure = λ flow_id link db h c. h;
}
