-- ===== src/Account/Calls.antt =====
-- Sequences of requests to the handlers of bauth_server/src/routes/me.rs that ask for a code or take one.
use bauth.Base.{ℕ, ◌≤◌, List, [], ◌∷◌}
use bauth.Base.Text.{Text}
use bauth.Account.{ConfirmationAction, request_confirmation, change_email_of, delete_account_of}
use bauth.CurrentUser.{CurrentUser}
use bauth.Handler.{App, Verdict}
use bauth.Server.{Server, Env}

pub data Demand : Type 0 where
  ask : ConfirmationAction → Demand
  change : Text → Text → Demand
  erase : Text → Demand

-- A request with what the extractors gave: the key of the client's address, and the user.
pub record Visit : Type 0 where
  pub env : Env
  pub ip : Text
  pub user : CurrentUser
  pub demand : Demand

module _ (server : Server) (verdict : Verdict) where
  unfoldable pub answer : Env → Text → CurrentUser → Demand → App → App
  answer env ip user (ask action) app =
      (request_confirmation server verdict env ip user action app).1
  answer env ip user (change code new_email) app =
      (change_email_of server verdict env ip user code new_email app).1
  answer env ip user (erase code) app = (delete_account_of server verdict env ip user code app).1

  unfoldable pub visits : List Visit → App → App
  unfolding answer
  visits [] app = app
  visits (v ∷ vs) app = visits vs (answer v.env v.ip v.user v.demand app)

-- The clock does not go back.
abbrev pub IsOrdered : ℕ → List Visit → Type 0
IsOrdered now [] = Unit {0}
IsOrdered now (v ∷ vs) = (now ≤ v.env.now) × IsOrdered v.env.now vs

abbrev pub last_now : ℕ → List Visit → ℕ
last_now now [] = now
last_now now (v ∷ vs) = last_now v.env.now vs
