-- ===== src/Purge.antt =====
-- bauth_server/src/jobs/purge.rs: the job that deletes rows that nothing will use. The rows that a
-- LIMIT lets pass are the database's choice, a parameter.
pub mod Batches
pub mod Rows
pub mod Cascading
pub mod Unchanged
pub mod Keyed
pub mod Laws
pub mod Kept
use bauth.Base.{
  and_then, ℕ, zero, suc, ◌+◌, Bool, true, false, ◌&&◌, ◌||◌, List, [], ◌∷◌, map, Option, none,
  some, ltb, is_none, if◌then◌else◌,
}
use bauth.Base.Table.{select, delete, count}
use bauth.Base.Time.{days}
use bauth.Queries.Cascades.{delete_flows, delete_sessions, delete_users}
use bauth.Schema.{Db, LoginFlow, EmailChange, Confirmation, Session, User, SigningKeyRow}

abbrev pub batch_size : ℕ
batch_size = 1000

pub record PurgeReport : Type 0 where
  pub login_flows : ℕ
  pub email_changes : ℕ
  pub confirmations : ℕ
  pub sessions : ℕ
  pub signing_keys : ℕ
  pub unverified_users : ℕ

-- The total, from that of a batch and that of the later ones.
abbrev pub added : {S : Type 0} → ℕ → Option (S × ℕ) → Option (S × ℕ)
added n none = none
added n (some (s, total)) = some (s, n + total)

-- The loop, on fuel: nothing when it runs out.
unfoldable pub in_batches : {S : Type 0} → (S → S × ℕ) → ℕ → S → Option (S × ℕ)
in_batches delete_batch zero s = none
in_batches delete_batch (suc fuel) s =
    let (left, deleted) = delete_batch s in
    let rest = in_batches delete_batch fuel left in
    if ltb deleted batch_size then some (left, deleted) else added deleted rest

-- `column < now() - interval`, and the same of a column that may be NULL.
abbrev pub is_past : ℕ → ℕ → ℕ → Bool
is_past now age at = ltb (at + age) now

abbrev pub is_past_maybe : ℕ → ℕ → Option ℕ → Bool
is_past_maybe now age none = false
is_past_maybe now age (some at) = is_past now age at

abbrev pub old_flow : ℕ → LoginFlow → Bool
old_flow now f = is_past now (days 1) f.expires_at

abbrev pub old_email_change : ℕ → EmailChange → Bool
old_email_change now e =
    is_past now (days 7) e.expires_at || is_past_maybe now (days 7) e.consumed_at

abbrev pub old_confirmation : ℕ → Confirmation → Bool
old_confirmation now c =
    is_past now (days 7) c.expires_at || is_past_maybe now (days 7) c.consumed_at

abbrev pub old_session : ℕ → Session → Bool
old_session now s = is_past now (days 30) s.expires_at || is_past_maybe now (days 30) s.revoked_at

abbrev pub old_user : ℕ → User → Bool
old_user now u = is_none u.email_verified_at && is_past now (days 7) u.created_at

abbrev pub old_key : ℕ → SigningKeyRow → Bool
old_key now k = is_past_maybe now (days 30) k.retired_at

abbrev pub delete_email_changes : (EmailChange → Bool) → Db → Db
delete_email_changes p db = record db { email_changes = delete p db.email_changes }

abbrev pub delete_confirmations : (Confirmation → Bool) → Db → Db
delete_confirmations p db = record db { confirmations = delete p db.confirmations }

abbrev pub delete_keys : (SigningKeyRow → Bool) → Db → Db
delete_keys p db = record db { signing_keys = delete p db.signing_keys }

-- Whether LIMIT lets an id pass, of those that the SELECT finds.
abbrev pub Choice : Type 0
Choice = ℕ → List ℕ → ℕ → Bool

-- `id IN (SELECT id … WHERE p LIMIT batch_size)`.
abbrev pub in_batch : {A : Type 0} → Choice → (A → ℕ) → (A → Bool) → List A → A → Bool
in_batch choice key p rows a = p a && choice batch_size (map key (select p rows)) (key a)

-- `DELETE … WHERE id IN (…)`, with `rows_affected`.
abbrev pub batch :
    {A : Type 0}
    → Choice
    → (A → ℕ)
    → (A → Bool)
    → (Db → List A)
    → ((A → Bool) → Db → Db)
    → Db
    → Db × ℕ
batch choice key p rows remove db =
    (remove (in_batch choice key p (rows db)) db, count (in_batch choice key p (rows db)) (rows db))

unfoldable pub purge : Choice → ℕ → ℕ → Db → Option (PurgeReport × Db)
unfolding in_batches
purge choice fuel now db =
    and_then
      (in_batches (batch choice (λ f. f.id) (old_flow now) Db.login_flows delete_flows) fuel db)
      λ (db₁, login_flows).
        and_then
          (in_batches
            (batch choice (λ e. e.id) (old_email_change now) Db.email_changes delete_email_changes)
            fuel db₁)
          λ (db₂, email_changes).
            and_then
              (in_batches
                (batch choice (λ c. c.id) (old_confirmation now) Db.confirmations
                  delete_confirmations)
                fuel db₂)
              λ (db₃, confirmations).
                and_then
                  (in_batches
                    (batch choice (λ s. s.id) (old_session now) Db.sessions delete_sessions) fuel
                    db₃)
                  λ (db₄, sessions).
                    and_then
                      (in_batches (batch choice (λ u. u.id) (old_user now) Db.users delete_users)
                        fuel db₄)
                      λ (db₅, unverified_users). some (
                        record {
                          login_flows = login_flows;
                          email_changes = email_changes;
                          confirmations = confirmations;
                          sessions = sessions;
                          signing_keys = count (old_key now) db₅.signing_keys;
                          unverified_users = unverified_users;
                        },
                        delete_keys (old_key now) db₅,
                      )

-- `locked` is the answer of the advisory lock.
unfoldable pub run : Choice → Bool → ℕ → ℕ → Db → Option (Option PurgeReport × Db)
unfolding purge
run choice false fuel now db = some (none, db)
run choice true fuel now db =
    and_then (purge choice fuel now db) λ (report, left). some (some report, left)
