-- ===== src/Errors/Laws.antt =====
-- `retry_after_seconds` of bauth_server/src/errors.rs.
use bauth.Base.{ℕ, ◌*◌, ◌≤◌, ◌↔◌, arith}
use bauth.Errors.{retry_after_seconds}

-- A number of seconds reaches the `Retry-After` of a wait exactly when that many seconds, in
-- nanoseconds, reach the wait: the header is the wait rounded up to whole seconds.
pub retry_after_seconds_lem :
    (wait seconds : ℕ) → (retry_after_seconds wait ≤ seconds) ↔ (wait ≤ seconds * 1_000_000_000)
unfolding retry_after_seconds
retry_after_seconds_lem wait seconds = (λ h. ground arith, λ h. ground arith)
