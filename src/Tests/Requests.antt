-- ===== src/Tests/Requests.antt =====
-- Concrete requests for the theorems on the middleware.
use tslock.Prelude.{
  ℕ, ◌≡◌, ◌≤◌, ◌+◌, ◌-◌, ◌*◌, refl, true, false, String, Option, none, some, Exec, ok, arith, suc,
}
use tslock.Core.Config.{LockConfiguration}
use tslock.Core.Context.{Context}
use tslock.Core.Executor.{Event}
use tslock.Middleware
use tslock.Middleware.{
  Caches, MiddlewareConfig, RouteLockConfig, Route, merge_route_config, millis, DefaultLockedBody,
  LockFailureResponse, build_lock_failure_response,
}
use tslock.Middleware.Merge.{AreTrue, reference, merge_route_config-reference}
use tslock.Middleware.Lifecycle.{Clock, LockRequestContext, execute_with_lock}
use tslock.Middleware.Handled.{Uncounted, Answered, execute_with_lock-Answered}
use tslock.Middleware.Response.{build_lock_failure_response-enough}

abbrev api : MiddlewareConfig String
api = record {
  lock_at_most_for = millis 30000;
  lock_at_least_for = millis 0;
  lock_name_prefix = "api";
  default_locked_status = 503;
  default_locked_body = none;
  lock_name_strategy = Middleware.method_path_strategy (λ s. s);
}

abbrev report : RouteLockConfig String
report = record {
  name = none;
  lock_at_most_for = some (millis 5000);
  lock_at_least_for = none;
  locked_status = some 423;
  locked_body = none;
}

abbrev frozen_report : Route String
frozen_report = record { id = 1; frozen = true; config = report }

abbrev no_caches : Caches String
no_caches = record { durations = λ id. none; routes = λ id route. none; globals = λ id. none }

no_caches-AreTrue : AreTrue (λ (id : ℕ). api) (λ (id : ℕ). report) no_caches
no_caches-AreTrue = record {
  durations = λ id d e. cc;
  globals = λ id r e. cc;
  routes = λ id route r e. cc;
}

merge_route_config-reference_example :
    ((merge_route_config 0 api (some frozen_report) no_caches).0 ≡ reference api (some report))
    × AreTrue
        (λ (id : ℕ). api)
        (λ (id : ℕ). report)
        (merge_route_config 0 api (some frozen_report) no_caches).1
merge_route_config-reference_example =
    merge_route_config-reference (λ (id : ℕ). api) (λ (id : ℕ). report) 0 (some frozen_report)
      no_caches (λ e. refl) no_caches-AreTrue

-- A provider that grants every lock, and a world that counts the handler's runs.
abbrev grant : LockConfiguration → Exec ℕ (Option ℕ)
grant c w = (ok (some 7), w)

abbrev let_go : ℕ → Exec ℕ (Unit {0})
let_go l w = (ok tt, w)

abbrev unheard : Event → Exec ℕ (Unit {0})
unheard e w = (ok tt, w)

abbrev handler : Exec (Context ℕ × ℕ) (Unit {0})
handler (c, w) = (ok tt, (c, suc w))

abbrev send : LockFailureResponse String → Exec (Context ℕ × ℕ) (Unit {0})
send r s = (ok tt, s)

abbrev no_context : Context ℕ
no_context = record { asserted = none; active = none }

abbrev clock : Clock
clock = record { created_at = 100; refused_at = 120; built_at = 121; elapsed = 10 }

abbrev get_report : LockRequestContext
get_report = record { method = "GET"; path = "/report" }

abbrev runs_of : ℕ → ℕ
runs_of w = w

abbrev start : Caches String × (Context ℕ × ℕ)
start = (no_caches, (no_context, 0))

abbrev runs_in : Caches String × (Context ℕ × ℕ) → ℕ
runs_in (k, (c, w)) = w

uncounted : Uncounted grant let_go unheard runs_of
uncounted = record { provides = λ c w. refl; unlocks = λ l w. refl; listens = λ e w. refl }

execute_with_lock-Answered_example : Answered grant let_go unheard runs_of runs_in 1 0 0 (
    execute_with_lock grant let_go unheard
      (λ c. false)
      "host"
      (λ (b : DefaultLockedBody). b.error)
      handler
      send
      clock
      0
      api
      get_report
      (some frozen_report)
      start)
execute_with_lock-Answered_example =
    execute_with_lock-Answered grant let_go unheard runs_of uncounted (λ c. false) "host"
      (λ (b : DefaultLockedBody). b.error) handler send 1 0 (λ s. omega arith) (λ r s. omega arith)
      clock 0 api get_report (some frozen_report) no_caches (no_context, 0)

abbrev no_body : Option (Middleware.LockedBody String)
no_body = none

build_lock_failure_response-enough_example :
    (1500
      ≤ 1000 + (build_lock_failure_response 1000 503 no_body "job" "host" 1500).retry_after * 1000)
    × ((build_lock_failure_response 1000 503 no_body "job" "host" 1500).retry_after * 1000
        ≤ 1500 - 1000 + 999)
    × (1500 ≤ 1000
        → (build_lock_failure_response 1000 503 no_body "job" "host" 1500).retry_after * 1000 ≡ 0)
build_lock_failure_response-enough_example =
    build_lock_failure_response-enough 1000 503 no_body "job" "host" 1500
