-- ===== src/Tests/Runs.antt =====
-- Runs of requests on the fixtures.
use bauth.Base.{ℕ, ◌≤◌, ◌+◌, ◌≡◌, ◌=?◌, refl, List, [], ◌∷◌, All, none, some, ok, err, arith}
use bauth.Base.Text.{text}
use bauth.Base.Table.{sum}
use bauth.Handler.{App}
use bauth.MagicLink.Budget.{IsBudgeted}
use bauth.OAuth.{authorization_code, invalid_grant}
use bauth.OAuth.Refresh.{IsKilled, revoke-IsKilled}
use bauth.Queries.Sessions
use bauth.Server.{Env}
use bauth.System.{Call, run, token, request_link, confirm_code}
use bauth.System.Flows.{IsPaced}
use bauth.System.Runs
use bauth.Tests.Fixtures.{server, lenient, at, db, app, exchange_request, refresh_request}
use bauth.Tests.Flows.{exchanging, exchanged, exchange_granted, exchange_complete, same_code}

abbrev calls : List (Env × Call)
calls =
    (at 6_000_000 60 (text "r4"), token refresh_request)
    ∷ (at 7_000_000 61 (text "r5"), request_link (text "ip") 10 (text "a@b.c"))
    ∷ (at 8_000_000 62 (text "r6"), confirm_code (text "ip") 10 (text "000000"))
    ∷ []

abbrev exchanged_app : App
exchanged_app = record app { db = (authorization_code server exchanging exchange_request db).1 }

authorization_code-once_example :
    (authorization_code server
      (at 16_000_000 32 (text "r2"))
      exchange_request
      (run server lenient calls exchanged_app).db).0
    ≡ err (invalid_grant (text "code is invalid, expired or already used"))
authorization_code-once_example =
    Runs.authorization_code-once server lenient exchanging (at 16_000_000 32 (text "r2"))
      exchange_request exchange_request app exchanged calls exchange_granted exchange_complete
      same_code (omega arith)

abbrev revoked_app : App
revoked_app = record app { db = Sessions.revoke 9 30 db }

killed : IsKilled 30 revoked_app.db
unfolding bauth.Base.Table.exists
killed = revoke-IsKilled 9 30 db refl

find_authenticated-killed_example :
    Sessions.find_authenticated 10_000_000 30 (run server lenient calls revoked_app).db ≡ none
find_authenticated-killed_example =
    Runs.find_authenticated-killed server lenient 30 calls revoked_app killed 10_000_000

budgeted : IsBudgeted 5_000_000 db.magic_links
unfolding bauth.Base.Table.exists bauth.Base.Table.sum
budgeted = record {
  distinct = (refl, tt);
  capped = ((omega arith, λ h. absurd (omega arith)), tt);
  budget = λ email. ground arith;
}

run-IsBudgeted_example : IsBudgeted 8_000_000 (run server lenient calls app).db.magic_links
run-IsBudgeted_example =
    Runs.run-IsBudgeted server lenient calls 5_000_000 app
      (omega arith, (omega arith, (omega arith, tt))) budgeted

run-IsPaced_example : All IsPaced (run server lenient calls app).db.login_flows
run-IsPaced_example = Runs.run-IsPaced server lenient calls app ((omega arith, omega arith), tt)

run-wrong_codes_example :
    sum
      (λ m. m.code_failures)
      (λ m. m.email =? text "a@b.c")
      (run server lenient calls app).db.magic_links
    ≤ sum (λ m. m.code_failures) (λ m. m.email =? text "a@b.c") db.magic_links + 20
run-wrong_codes_example =
    Runs.run-wrong_codes server lenient calls 5_000_000 app (text "a@b.c")
      (omega arith, (omega arith, (omega arith, tt))) (omega arith) budgeted (omega arith, tt)
