-- ===== src/Purge/Keyed.antt =====
-- The primary keys of the tables that bauth_server/src/jobs/purge.rs deletes from.
use bauth.Base.{refl, Bool}
use bauth.Base.Table.Keys.{Distinct, Distinct-select, Distinct-update}
use bauth.Purge.{delete_email_changes, delete_confirmations}
use bauth.Queries.Cascades.{forget_code, delete_sessions, delete_codes, delete_flows, delete_users}
use bauth.Schema.{Db, LoginFlow, EmailChange, Confirmation, Session, User}

pub record IsKeyed (db : Db) : Type 0 where
  pub login_flows : Distinct (λ (f : LoginFlow). f.id) db.login_flows
  pub email_changes : Distinct (λ (e : EmailChange). e.id) db.email_changes
  pub confirmations : Distinct (λ (c : Confirmation). c.id) db.confirmations
  pub sessions : Distinct (λ (s : Session). s.id) db.sessions
  pub users : Distinct (λ (u : User). u.id) db.users

pub delete_flows-IsKeyed :
    (p : LoginFlow → Bool) (db : Db) → IsKeyed db → IsKeyed (delete_flows p db)
unfolding delete_flows delete_codes
delete_flows-IsKeyed p db k = record {
  login_flows = Distinct-select _ _ db.login_flows k.login_flows;
  email_changes = k.email_changes;
  confirmations = k.confirmations;
  sessions =
      Distinct-update (λ (s : Session). s.id) _ forget_code (λ s. refl) db.sessions k.sessions;
  users = k.users;
}

pub delete_email_changes-IsKeyed :
    (p : EmailChange → Bool) (db : Db) → IsKeyed db → IsKeyed (delete_email_changes p db)
delete_email_changes-IsKeyed p db k = record {
  login_flows = k.login_flows;
  email_changes = Distinct-select _ _ db.email_changes k.email_changes;
  confirmations = k.confirmations;
  sessions = k.sessions;
  users = k.users;
}

pub delete_confirmations-IsKeyed :
    (p : Confirmation → Bool) (db : Db) → IsKeyed db → IsKeyed (delete_confirmations p db)
delete_confirmations-IsKeyed p db k = record {
  login_flows = k.login_flows;
  email_changes = k.email_changes;
  confirmations = Distinct-select _ _ db.confirmations k.confirmations;
  sessions = k.sessions;
  users = k.users;
}

pub delete_sessions-IsKeyed :
    (p : Session → Bool) (db : Db) → IsKeyed db → IsKeyed (delete_sessions p db)
unfolding delete_sessions
delete_sessions-IsKeyed p db k = record {
  login_flows = k.login_flows;
  email_changes = k.email_changes;
  confirmations = Distinct-select _ _ db.confirmations k.confirmations;
  sessions = Distinct-select _ _ db.sessions k.sessions;
  users = k.users;
}

pub delete_users-IsKeyed : (p : User → Bool) (db : Db) → IsKeyed db → IsKeyed (delete_users p db)
unfolding delete_users delete_sessions delete_codes
delete_users-IsKeyed p db k = record {
  login_flows = k.login_flows;
  email_changes = Distinct-select _ _ db.email_changes k.email_changes;
  confirmations =
      Distinct-select _ _ _
        (Distinct-select (λ (c : Confirmation). c.id) _ db.confirmations k.confirmations);
  sessions =
      Distinct-select _ _ _
        (Distinct-update (λ (s : Session). s.id) _ forget_code (λ s. refl) db.sessions k.sessions);
  users = Distinct-select _ _ db.users k.users;
}
