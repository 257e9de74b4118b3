-- ===== src/Purge/Laws.antt =====
-- The purge of bauth_server/src/jobs/purge.rs and the deletions that it is made of.
use bauth.Base.{ℕ, ◌*◌, ◌<◌, ◌≡◌, refl, Bool, List, some, arith}
use bauth.Base.Table.{count, delete}
use bauth.Base.Table.Keys.{Distinct}
use bauth.Purge.{
  Choice, PurgeReport, batch, in_batch, batch_size, purge, old_flow, old_email_change,
  old_confirmation, old_session, old_user, old_key, delete_email_changes, delete_confirmations,
  delete_keys,
}
use bauth.Purge.Batches.{IsBatch, in_batches_lem}
use bauth.Purge.Rows.{IsLimit, count-in_batch, count-delete, delete-delete, count-delete_same}
use bauth.Purge.Cascading.{
  either, delete_flows-delete_flows, delete_sessions-delete_sessions, delete_users-delete_users,
}
use bauth.Purge.Unchanged.{delete_flows_none, delete_sessions_none, delete_users_none}
use bauth.Purge.Keyed.{
  IsKeyed, delete_flows-IsKeyed, delete_email_changes-IsKeyed, delete_confirmations-IsKeyed,
  delete_sessions-IsKeyed, delete_users-IsKeyed,
}
use bauth.Queries.Cascades.{delete_flows, delete_sessions, delete_users}
use bauth.Schema.{Db, LoginFlow, EmailChange, Confirmation, Session, User}

-- The purge as one DELETE for each table.
unfoldable pub purge_all : ℕ → Db → PurgeReport × Db
purge_all now db =
    let db₁ = delete_flows (old_flow now) db in
    let db₂ = delete_email_changes (old_email_change now) db₁ in
    let db₃ = delete_confirmations (old_confirmation now) db₂ in
    let db₄ = delete_sessions (old_session now) db₃ in
    let db₅ = delete_users (old_user now) db₄ in
    (
      record {
        login_flows = count (old_flow now) db.login_flows;
        email_changes = count (old_email_change now) db₁.email_changes;
        confirmations = count (old_confirmation now) db₂.confirmations;
        sessions = count (old_session now) db₃.sessions;
        signing_keys = count (old_key now) db₅.signing_keys;
        unverified_users = count (old_user now) db₄.users;
      },
      delete_keys (old_key now) db₅,
    )

-- A DELETE on a table with a primary key: of some rows and then of all of them, and of none.
record IsRemoval {A : Type 0} (key : A → ℕ) (p : A → Bool) (rows : Db → List A)
    (remove : (A → Bool) → Db → Db) : Type 0 where
  distinct : (db : Db) → IsKeyed db → Distinct key (rows db)
  keyed : (q : A → Bool) (db : Db) → IsKeyed db → IsKeyed (remove q db)
  own : (q : A → Bool) (db : Db) → rows (remove q db) ≡ delete q (rows db)
  twice :
      (q : A → Bool) (db : Db)
      → ((a : A) → p a ≡ either (q a) (p a))
      → remove p (remove q db) ≡ remove p db
  nothing : (db : Db) → count p (rows db) ≡ 0 → remove p db ≡ db

module _ (choice : Choice) (l : IsLimit choice) where
  batch-IsBatch :
      {A : Type 0} (key : A → ℕ) (p : A → Bool) (rows : Db → List A) (remove : (A → Bool) → Db → Db)
      → IsRemoval key p rows remove
      → IsBatch IsKeyed (λ db. count p (rows db)) (remove p) (batch choice key p rows remove)
  batch-IsBatch key p rows remove r = record {
    sized = λ db k. count-in_batch key choice l p (rows db) (r.distinct db k);
    kept = λ db k. r.keyed (in_batch choice key p (rows db)) db k;
    fewer = λ db k.
        rw (r.own (in_batch choice key p (rows db)) db)
          (count-delete p (in_batch choice key p (rows db)) (λ a t. ground arith) (rows db));
    same = λ db k. r.twice (in_batch choice key p (rows db)) db (λ a. ground arith);
    over = λ db e. r.nothing db e;
  }

flows-IsRemoval :
    (now : ℕ) → IsRemoval (λ (f : LoginFlow). f.id) (old_flow now) Db.login_flows delete_flows
unfolding delete_flows
flows-IsRemoval now = record {
  distinct = λ db k. k.login_flows;
  keyed = λ q db k. delete_flows-IsKeyed q db k;
  own = λ q db. refl;
  twice = λ q db h. delete_flows-delete_flows (old_flow now) q (old_flow now) h db;
  nothing = λ db e. delete_flows_none (old_flow now) db e;
}

email_changes-IsRemoval :
    (now : ℕ)
    → IsRemoval
        (λ (e : EmailChange). e.id)
        (old_email_change now)
        Db.email_changes
        delete_email_changes
email_changes-IsRemoval now = record {
  distinct = λ db k. k.email_changes;
  keyed = λ q db k. delete_email_changes-IsKeyed q db k;
  own = λ q db. refl;
  twice = λ q db h i. record db {
    email_changes =
        delete-delete (old_email_change now) q (old_email_change now) h db.email_changes i;
  };
  nothing = λ db e i. record db {
    email_changes = count-delete_same (old_email_change now) db.email_changes e i;
  };
}

confirmations-IsRemoval :
    (now : ℕ)
    → IsRemoval
        (λ (c : Confirmation). c.id)
        (old_confirmation now)
        Db.confirmations
        delete_confirmations
confirmations-IsRemoval now = record {
  distinct = λ db k. k.confirmations;
  keyed = λ q db k. delete_confirmations-IsKeyed q db k;
  own = λ q db. refl;
  twice = λ q db h i. record db {
    confirmations =
        delete-delete (old_confirmation now) q (old_confirmation now) h db.confirmations i;
  };
  nothing = λ db e i. record db {
    confirmations = count-delete_same (old_confirmation now) db.confirmations e i;
  };
}

sessions-IsRemoval :
    (now : ℕ) → IsRemoval (λ (s : Session). s.id) (old_session now) Db.sessions delete_sessions
unfolding delete_sessions
sessions-IsRemoval now = record {
  distinct = λ db k. k.sessions;
  keyed = λ q db k. delete_sessions-IsKeyed q db k;
  own = λ q db. refl;
  twice = λ q db h. delete_sessions-delete_sessions (old_session now) q (old_session now) h db;
  nothing = λ db e. delete_sessions_none (old_session now) db e;
}

users-IsRemoval : (now : ℕ) → IsRemoval (λ (u : User). u.id) (old_user now) Db.users delete_users
unfolding delete_users
users-IsRemoval now = record {
  distinct = λ db k. k.users;
  keyed = λ q db k. delete_users-IsKeyed q db k;
  own = λ q db. refl;
  twice = λ q db h. delete_users-delete_users (old_user now) q (old_user now) h db;
  nothing = λ db e. delete_users_none (old_user now) db e;
}

-- Each number of the report is below what the fuel's batches take.
pub record IsEnough (fuel : ℕ) (report : PurgeReport) : Type 0 where
  pub login_flows : report.login_flows < fuel * batch_size
  pub email_changes : report.email_changes < fuel * batch_size
  pub confirmations : report.confirmations < fuel * batch_size
  pub sessions : report.sessions < fuel * batch_size
  pub unverified_users : report.unverified_users < fuel * batch_size

-- If a LIMIT lets as many rows pass as it says when there are so many, whichever they are, the
-- ids of each table are distinct, and the fuel is enough for the numbers of rows to delete, then
-- the purge in batches ends, and is one DELETE of all the old rows for each table, with what
-- references them, and with the numbers of these rows as its report.
pub purge_lem :
    (choice : Choice) (fuel now : ℕ) (db : Db)
    → IsLimit choice
    → IsKeyed db
    → IsEnough fuel (purge_all now db).0
    → purge choice fuel now db ≡ some (purge_all now db)
unfolding purge purge_all
purge_lem choice fuel now db l k enough =
    let db₁ = delete_flows (old_flow now) db in
    let db₂ = delete_email_changes (old_email_change now) db₁ in
    let db₃ = delete_confirmations (old_confirmation now) db₂ in
    let db₄ = delete_sessions (old_session now) db₃ in
    let k₁ = delete_flows-IsKeyed (old_flow now) db k in
    let k₂ = delete_email_changes-IsKeyed (old_email_change now) db₁ k₁ in
    let k₃ = delete_confirmations-IsKeyed (old_confirmation now) db₂ k₂ in
    let k₄ = delete_sessions-IsKeyed (old_session now) db₃ k₃ in
    rw
      (in_batches_lem _ _ _ _ (batch-IsBatch choice l _ _ _ _ (flows-IsRemoval now)) fuel db k
        enough.login_flows)
      (rw
        (in_batches_lem _ _ _ _ (batch-IsBatch choice l _ _ _ _ (email_changes-IsRemoval now)) fuel
          db₁ k₁ enough.email_changes)
        (rw
          (in_batches_lem _ _ _ _ (batch-IsBatch choice l _ _ _ _ (confirmations-IsRemoval now))
            fuel db₂ k₂ enough.confirmations)
          (rw
            (in_batches_lem _ _ _ _ (batch-IsBatch choice l _ _ _ _ (sessions-IsRemoval now)) fuel
              db₃ k₃ enough.sessions)
            (rw
              (in_batches_lem _ _ _ _ (batch-IsBatch choice l _ _ _ _ (users-IsRemoval now)) fuel
                db₄ k₄ enough.unverified_users)
              refl))))
