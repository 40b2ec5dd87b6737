-- ===== src/Middleware/Lifecycle.antt =====
-- packages/middleware-core/src/middleware-lifecycle.ts: a request's handler runs under the lock of
-- the route, or the request is answered that it is locked. The handler and the answer act on what
-- the executor acts on; the caches of the configuration are beside that.
use tslock.Prelude.{
  ℕ, ◌+◌, Bool, true, false, String, Option, none, some, Exec, Result, pure, ◌>>=◌, ◌>>◌, continue,
}
use tslock.Core.Config.{LockConfiguration, create_lock_config}
use tslock.Core.Context.{Context}
use tslock.Core.Executor
use tslock.Core.Executor.{TaskResult, executed, not_executed, Event}
use tslock.Middleware.{
  LockedBody, DefaultLockedBody, default_locked_body, null_body, static_body, computed_body,
  LockFailureResponse, MiddlewareConfig, ResolvedRouteConfig, Route, Caches, millis,
  derive_lock_name, merge_route_config, build_lock_failure_response,
}

pub record LockRequestContext : Type 0 where
  pub method : String
  pub path : String

abbrev name_of : {J : Type 0} → Option (Route J) → Option String
name_of none = none
name_of (some route) = route.config.name

-- The body of the route, or `default_locked_body` where that is undefined or null.
abbrev pub body_or_default :
    {J : Type 0} → (DefaultLockedBody → J) → Option (LockedBody J) → Option (LockedBody J)
body_or_default to_json none = some (computed_body λ meta. to_json (default_locked_body meta))
body_or_default to_json (some null_body) =
    some (computed_body λ meta. to_json (default_locked_body meta))
body_or_default to_json (some (static_body j)) = some (static_body j)
body_or_default to_json (some (computed_body f)) = some (computed_body f)

-- What acts on `S`, in code that reads and writes the caches too.
abbrev pub beside_caches : {S C A : Type 0} → C → Result A × S → Result A × (C × S)
beside_caches c (r, s) = (r, (c, s))

abbrev pub on_caches : {S C A : Type 0} → S → Result A × C → Result A × (C × S)
on_caches s (r, c) = (r, (c, s))

-- The clock, for the lock, for the end that the answer tells and within the answer's making, and the
-- time that the task takes.
pub record Clock : Type 0 where
  pub created_at : ℕ
  pub refused_at : ℕ
  pub built_at : ℕ
  pub elapsed : ℕ

module _ {L W J : Type 0} (provider : LockConfiguration → Exec W (Option L))
    (unlock : L → Exec W (Unit {0})) (listener : Event → Exec W (Unit {0})) (control : ℕ → Bool)
    (hostname : String) (to_json : DefaultLockedBody → J) where
  module _ (handler : Exec (Context L × W) (Unit {0}))
      (send : LockFailureResponse J → Exec (Context L × W) (Unit {0})) where
    -- From the executor's result on: `wasExecuted`.
    unfoldable pub answer :
        Clock → ResolvedRouteConfig J → String → TaskResult (Unit {0}) → Exec (Context L × W) Bool
    answer clock resolved lock_name (executed u) = pure true
    answer clock resolved lock_name not_executed =
        send (
          build_lock_failure_response clock.built_at resolved.status
            (body_or_default to_json resolved.body) lock_name hostname
            (clock.refused_at + resolved.at_most_for))
        >> pure false

    unfoldable pub run_resolved : Clock → ResolvedRouteConfig J → String → Exec (Context L × W) Bool
    run_resolved clock resolved lock_name =
        continue
          (create_lock_config control clock.created_at lock_name (millis resolved.at_most_for)
            (some (millis resolved.at_least_for)))
          λ lock_config.
            Executor.execute_with_lock provider unlock listener clock.elapsed handler lock_config
            >>= answer clock resolved lock_name

    unfoldable pub execute_with_lock :
        Clock
        → ℕ
        → MiddlewareConfig J
        → LockRequestContext
        → Option (Route J)
        → Exec (Caches J × (Context L × W)) Bool
    execute_with_lock clock id config ctx route (caches, s) =
        continue (merge_route_config id config route caches).0
          (λ resolved (caches', s). beside_caches caches' (
            run_resolved clock resolved
              (derive_lock_name config.lock_name_strategy config.lock_name_prefix ctx.method
                ctx.path (name_of route))
              s))
          ((merge_route_config id config route caches).1, s)
