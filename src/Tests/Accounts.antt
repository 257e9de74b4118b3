-- ===== src/Tests/Accounts.antt =====
-- The account endpoints on the fixtures.
use bauth.Base.{
  ℕ, ◌≤◌, ◌≡◌, ◌≢◌, ◌↔◌, ◌=?◌, ◌==◌, refl, List, [], ◌∷◌, ◌++◌, All, Option, none, some, ok, err,
  true, Bool, arith,
}
use bauth.Base.Text.{Text, text}
use bauth.Account.{
  change_email, delete_account, check_code, delete_account_of, confirm, revoke_session,
}
use bauth.Account.Budget.{IsGuarded}
use bauth.Account.Calls.{Visit, ask, change, erase, visits}
use bauth.Account.Checked
use bauth.Account.Checked.{IsProof, used}
use bauth.Account.Deleted
use bauth.Account.Deleted.{IsErased}
use bauth.Account.Guarded
use bauth.Account.Moved
use bauth.Account.Moved.{IsMoved}
use bauth.Account.Revoked
use bauth.CurrentUser.{CurrentUser, current_user}
use bauth.CurrentUser.Laws
use bauth.CurrentUser.Laws.{IsAuthenticated}
use bauth.Handler.{App, account_deleted, email_changed}
use bauth.MagicCode
use bauth.Schema.{Confirmation, EmailChange, User, Session}
use bauth.Server.{Server, Env}
use bauth.System.{Call, request_link, run}
use bauth.Token
use bauth.Tests.Fixtures.{jwt, plain_crypto, server, lenient, at, db, app, session}

abbrev me : CurrentUser
me = record { id = 1; email = text "a@b.c"; session_id = 30; client_id = text "web" }

abbrev confirmation : Confirmation
confirmation = record {
  id = 60;
  user_id = 1;
  session_id = 30;
  action = text "delete_account";
  email = text "a@b.c";
  code_hash = (MagicCode.generate plain_crypto server.code_keys.confirmation 30 123456).hash;
  code_failures = 4;
  expires_at = 900_000_000;
  consumed_at = none;
  created_at = 0;
}

abbrev moving : EmailChange
moving = record {
  id = 80;
  user_id = 1;
  from_email = text "a@b.c";
  to_email = text "n@b.c";
  token_hash = Token.hash plain_crypto (text "link");
  expires_at = 900_000_000;
  consumed_at = none;
  created_at = 0;
}

abbrev busy : App
busy = record app {
  db = record db { confirmations = confirmation ∷ []; email_changes = moving ∷ [] };
}

abbrev wrong_codes : List Visit
wrong_codes =
    record {
      env = at 6_000_000 90 (text "v1");
      ip = text "ip";
      user = me;
      demand = erase (text "000000");
    }
    ∷ record {
      env = at 7_000_000 91 (text "v2");
      ip = text "ip";
      user = me;
      demand = ask change_email;
    }
    ∷ record {
      env = at 8_000_000 92 (text "v3");
      ip = text "ip";
      user = me;
      demand = change (text "000000") (text "n@b.c");
    }
    ∷ []

guarded : IsGuarded (λ session_id. 1) 5_000_000 busy.db
unfolding bauth.Base.Table.exists bauth.Base.Table.sum
guarded = (
  record {
    distinct = (refl, tt);
    capped = ((omega arith, λ h. absurd (omega arith)), tt);
    budget = λ k. ground arith;
  },
  (refl, tt),
)

visits-IsGuarded_example :
    IsGuarded (λ session_id. 1) 8_000_000 (visits server lenient wrong_codes busy).db
visits-IsGuarded_example =
    Guarded.visits-IsGuarded server lenient (λ session_id. 1) wrong_codes 5_000_000 busy
      (omega arith, (omega arith, (omega arith, tt))) (refl, (refl, (refl, tt))) guarded

code_accepted :
    check_code server lenient
      (at 6_000_000 90 (text "v1"))
      (text "ip")
      me
      delete_account
      (text "123456")
      busy
    ≡ (ok tt, used server lenient (at 6_000_000 90 (text "v1")) (text "ip") me busy confirmation)
unfolding check_code bauth.Base.Text.bytes bauth.Queries.Confirmations.find_code_candidate
    bauth.Base.Table.first_by bauth.Base.Table.select ◌=?◌ bauth.Base.Table.sum MagicCode.verify
    bauth.Queries.Confirmations.consume_by_id MagicCode.code_keys MagicCode.generate
code_accepted = refl

check_code_iff_example :
    check_code server lenient
        (at 6_000_000 90 (text "v1"))
        (text "ip")
        me
        delete_account
        (text "123456")
        busy
      ≡ (ok tt, used server lenient (at 6_000_000 90 (text "v1")) (text "ip") me busy confirmation)
    ↔ ((row : Confirmation) × IsProof server lenient
          (at 6_000_000 90 (text "v1"))
          (text "ip")
          me
          delete_account
          (text "123456")
          busy
          row
        × (used server lenient (at 6_000_000 90 (text "v1")) (text "ip") me busy confirmation
            ≡ used server lenient (at 6_000_000 90 (text "v1")) (text "ip") me busy row))
check_code_iff_example =
    Checked.check_code_iff server lenient (at 6_000_000 90 (text "v1")) (text "ip") me
      delete_account (text "123456") busy
      (used server lenient (at 6_000_000 90 (text "v1")) (text "ip") me busy confirmation)

check_code-once_example :
    check_code server lenient
      (at 7_000_000 91 (text "v2"))
      (text "ip")
      me
      delete_account
      (text "123456")
      (used server lenient (at 6_000_000 90 (text "v1")) (text "ip") me busy confirmation)
    ≢ (ok tt, busy)
check_code-once_example =
    Checked.check_code-once server lenient me delete_account (at 6_000_000 90 (text "v1"))
      (at 7_000_000 91 (text "v2")) (text "ip") (text "ip") (text "123456") (text "123456") busy
      (used server lenient (at 6_000_000 90 (text "v1")) (text "ip") me busy confirmation) busy
      code_accepted

abbrev erased : App
erased =
    (delete_account_of server lenient (at 6_000_000 90 (text "v1")) (text "ip") me (text "123456")
      busy).1

account_deleted_ok :
    delete_account_of server lenient
      (at 6_000_000 90 (text "v1"))
      (text "ip")
      me
      (text "123456")
      busy
    ≡ (ok tt, erased)
unfolding delete_account_of bauth.Base.Text.bytes bauth.Queries.Confirmations.find_code_candidate
    bauth.Base.Table.first_by bauth.Base.Table.select ◌=?◌ bauth.Base.Table.sum MagicCode.verify
    MagicCode.code_keys MagicCode.generate
account_deleted_ok = refl

delete_account_of-IsErased_example :
    ((row : Confirmation) × IsProof server lenient
        (at 6_000_000 90 (text "v1"))
        (text "ip")
        me
        delete_account
        (text "123456")
        busy
        row)
    × IsErased 1 busy.db.sessions erased.db
    × (erased.outbox ≡ account_deleted (text "a@b.c") ∷ [])
unfolding bauth.Base.Table.exists
delete_account_of-IsErased_example =
    Deleted.delete_account_of-IsErased server lenient (at 6_000_000 90 (text "v1")) (text "ip") me
      (text "123456") busy erased refl account_deleted_ok

abbrev settled : App
settled = (confirm server lenient (at 6_000_000 90 (text "v1")) (text "ip") (text "link") busy).1

link_confirmed :
    confirm server lenient (at 6_000_000 90 (text "v1")) (text "ip") (text "link") busy
    ≡ (ok tt, settled)
unfolding confirm bauth.Queries.EmailChanges.consume bauth.Base.Table.find ◌=?◌
    bauth.Base.Text.bytes bauth.Queries.Users.find_by_id bauth.Queries.Users.change_email
    bauth.Base.Table.exists bauth.Base.Table.count
link_confirmed = refl

confirm-IsMoved_example :
    (change : EmailChange) × (user : User) × IsMoved 6_000_000
      (Token.hash plain_crypto (text "link"))
      change
      user
      busy.db
      settled.db
    × (settled.outbox ≡ email_changed change.from_email change.to_email ∷ [])
unfolding bauth.Base.Table.exists
confirm-IsMoved_example =
    Moved.confirm-IsMoved server lenient (at 6_000_000 90 (text "v1")) (text "ip") (text "link")
      busy settled (refl, tt) link_confirmed

confirm-once_example :
    confirm server lenient (at 7_000_000 91 (text "v2")) (text "ip") (text "link") settled
    ≢ (ok tt, busy)
unfolding bauth.Base.Table.exists
confirm-once_example =
    Moved.confirm-once server lenient (at 6_000_000 90 (text "v1")) (at 7_000_000 91 (text "v2"))
      (text "ip") (text "ip") (text "link") busy settled busy (refl, tt) (omega arith)
      link_confirmed

abbrev signed_server : Server
signed_server = record server {
  signing_keys = record (server.signing_keys) { jwks = record { key_id = 1; x = [] } ∷ [] };
}

is_me : current_user signed_server jwt 6_000_000 (some (text "Bearer t")) db ≡ ok me
unfolding current_user ◌=?◌ bauth.Base.Table.find bauth.Queries.Sessions.find_authenticated
is_me = refl

current_user_iff_example :
    (current_user signed_server jwt 6_000_000 (some (text "Bearer t")) db ≡ ok me)
    ↔ IsAuthenticated signed_server jwt 6_000_000 (some (text "Bearer t")) db me
unfolding bauth.Base.Table.exists
current_user_iff_example =
    Laws.current_user_iff signed_server jwt 6_000_000 (some (text "Bearer t")) db me (refl, tt)
      (refl, tt)

abbrev other_session : Session
other_session = record session { id = 31 }

-- The session 30 revokes the session 31, and goes on.
abbrev two_sessions : App
two_sessions = record app { db = record db { sessions = session ∷ other_session ∷ [] } }

abbrev one_left : App
one_left = (revoke_session 6_000_000 me 31 two_sessions).1

other_revoked : revoke_session 6_000_000 me 31 two_sessions ≡ (ok tt, one_left)
unfolding revoke_session bauth.Queries.Sessions.revoke_for_user bauth.Base.Table.count
other_revoked = refl

abbrev between : List (Env × Call)
between = (at 6_500_000 60 (text "r4"), request_link (text "ip") 10 (text "a@b.c")) ∷ []

still_me :
    current_user signed_server jwt 7_000_000
      (some (text "Bearer t"))
      (run signed_server lenient between one_left).db
    ≡ ok me
unfolding current_user ◌=?◌ bauth.Base.Table.find bauth.Queries.Sessions.find_authenticated run
    revoke_session bauth.Queries.Sessions.revoke_for_user bauth.Base.Table.update
    bauth.MagicLink.request bauth.Email.is_valid bauth.Base.Text.bytes
    bauth.Queries.LoginFlows.find_pending_magic_link_flow
still_me = refl

revoke_session-current_user_example : me.session_id ≢ other_session.id
unfolding bauth.Base.Table.exists
revoke_session-current_user_example =
    Revoked.revoke_session-current_user signed_server lenient jwt 6_000_000 7_000_000 me me 31
      two_sessions one_left between (some (text "Bearer t")) (refl, (refl, tt)) other_revoked
      still_me
