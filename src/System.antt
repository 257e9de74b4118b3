-- ===== src/System.antt =====
-- The server as a whole: the requests that bauth_server/src/routes answers over one application
-- state, one after the other.
pub mod Frames
pub mod Stable
pub mod Keeps
pub mod Killed
pub mod Links
pub mod Guessed
pub mod Flows
pub mod Spent
pub mod Requests
pub mod Runs
pub mod Logins
use bauth.Base.{ℕ, ◌≤◌, List, [], ◌∷◌}
use bauth.Base.Text.{Text}
use bauth.Handler.{App, Verdict}
use bauth.LoginFlow.{CreateFlowRequest, create_flow}
use bauth.MagicLink
use bauth.OAuth.{TokenRequest, RevokeRequest}
use bauth.OAuth
use bauth.Schema.{Db}
use bauth.Server.{Server, Env}

-- A request with what its handler extracts; `ip` is the key of the client's address.
pub data Call : Type 0 where
  token : TokenRequest → Call
  revoke : RevokeRequest → Call
  create : CreateFlowRequest → Call
  request_link : Text → ℕ → Text → Call
  confirm_link : Text → Text → Call
  confirm_code : Text → ℕ → Text → Call

module _ (server : Server) (verdict : Verdict) where
  unfoldable pub step : Env → Call → App → App
  step env (token input) app = record app { db = (OAuth.token server env input app.db).1 }
  step env (revoke input) app = record app { db = (OAuth.revoke server env input app.db).1 }
  step env (create input) app = (create_flow server env input app).1
  step env (request_link ip flow_id email) app =
      (MagicLink.request server verdict env ip flow_id email app).1
  step env (confirm_link ip secret) app = (MagicLink.confirm server verdict env ip secret app).1
  step env (confirm_code ip flow_id code) app =
      (MagicLink.confirm_code server verdict env ip flow_id code app).1

  unfoldable pub run : List (Env × Call) → App → App
  unfolding step
  run [] app = app
  run ((env, call) ∷ calls) app = run calls (step env call app)

-- The clock does not go back.
abbrev pub IsOrdered : ℕ → List (Env × Call) → Type 0
IsOrdered now [] = Unit {0}
IsOrdered now ((env, call) ∷ calls) = (now ≤ env.now) × IsOrdered env.now calls

-- The time of the last request.
abbrev pub last_now : ℕ → List (Env × Call) → ℕ
last_now now [] = now
last_now now ((env, call) ∷ calls) = last_now env.now calls
