-- ===== src/Queries/LoginFlows.antt =====
-- bauth_server/src/queries/login_flows.rs.
use bauth.Base.{
  ℕ, ◌+◌, max, Bool, ◌&&◌, Option, none, some, Result, ok, ◌>>=◌, true, ltb, ◌==◌, is_none,
}
use bauth.Base.Text.{Text}
use bauth.Base.Table.{find, update, count, exists}
use bauth.Schema.{Db, LoginFlow, SqlError, insert}

unfoldable pub create : ℕ → ℕ → Text → Text → Text → Option Text → ℕ → Db → Result SqlError Db
create now id client_id redirect_uri code_challenge state expires_at db = do
  rows ←
      insert (exists (λ f. f.id == id) db.login_flows) true
        (record {
          id = id;
          client_id = client_id;
          redirect_uri = redirect_uri;
          code_challenge = code_challenge;
          state = state;
          magic_link_requests = 0;
          expires_at = expires_at;
          completed_at = none;
          created_at = now;
        })
        db.login_flows
  ok (record db { login_flows = rows })

-- A flow still waiting for credentials.
abbrev pub is_pending : ℕ → ℕ → LoginFlow → Bool
is_pending now id f = (f.id == id) && (is_none f.completed_at && ltb now f.expires_at)

abbrev pub set_completed : ℕ → LoginFlow → LoginFlow
set_completed now f = record f { completed_at = some now }

unfoldable pub complete : ℕ → ℕ → Db → Db × Bool
complete now id db = (
  record db { login_flows = update (is_pending now id) (set_completed now) db.login_flows },
  count (is_pending now id) db.login_flows == 1,
)

pub record PendingMagicLinkFlow : Type 0 where
  pub client_id : Text
  pub requests : ℕ
  pub expires_at : ℕ

unfoldable pub find_pending_magic_link_flow : ℕ → ℕ → Db → Option PendingMagicLinkFlow
find_pending_magic_link_flow now id db = elim (find (is_pending now id) db.login_flows) [
  | none ↦ none
  | some f ↦ some (record {
    client_id = f.client_id;
    requests = f.magic_link_requests;
    expires_at = f.expires_at;
  })
]

-- The rows that the UPDATE of `count_magic_link_request` is about, and what it sets.
abbrev pub is_countable : ℕ → ℕ → ℕ → LoginFlow → Bool
is_countable now id limit f = is_pending now id f && ltb f.magic_link_requests limit

abbrev pub counted : ℕ → LoginFlow → LoginFlow
counted link_expires_at f = record f {
  magic_link_requests = f.magic_link_requests + 1;
  expires_at = max f.expires_at link_expires_at;
}

unfoldable pub count_magic_link_request : ℕ → ℕ → ℕ → ℕ → Db → Option (ℕ × Db)
count_magic_link_request now id limit link_expires_at db =
    elim (find (is_countable now id limit) db.login_flows) [
      | none ↦ none
      | some f ↦ some (
        (counted link_expires_at f).expires_at,
        record db {
          login_flows = update (is_countable now id limit) (counted link_expires_at) db.login_flows;
        },
      )
    ]
