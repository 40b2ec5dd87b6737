-- ===== src/Middleware/Response.antt =====
-- The `Retry-After` of packages/middleware-core/src/lock-metadata.ts.
use tslock.Prelude.{ℕ, ◌≤◌, ◌≡◌, ◌+◌, ◌-◌, ◌*◌, arith, String, Option}
use tslock.Middleware.{build_lock_failure_response, retry_after_seconds_of, LockedBody}

-- A client that waits for as long as it is told to comes back when the lock is over, and has waited
-- for less than a second longer than it had to; where the lock is over already it need not wait.
pub build_lock_failure_response-enough :
    {J : Type 0} (now status : ℕ) (body : Option (LockedBody J)) (lock_name locked_by : String)
    (lock_until : ℕ)
    → let wait =
        (build_lock_failure_response now status body lock_name locked_by lock_until).retry_after
        * 1000 in
      (lock_until ≤ now + wait) × (wait ≤ lock_until - now + 999) × (lock_until ≤ now → wait ≡ 0)
unfolding build_lock_failure_response retry_after_seconds_of
build_lock_failure_response-enough now status body lock_name locked_by lock_until =
    (omega arith, omega arith, λ h. omega (arith, h))
