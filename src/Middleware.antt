-- ===== src/Middleware.antt =====
-- packages/middleware-core/src: the names of a request's lock, the configuration of a route with
-- its caches, and the life cycle that runs a handler under the lock or answers that it is locked.
-- A cache is a WeakMap keyed by an object; an object is known here by a number.
pub mod Merge
pub mod Lifecycle
pub mod Handled
pub mod Response
use Prim.Native.String.{◌++◌}
use tslock.Prelude.{
  ℕ, ◌+◌, ◌-◌, ◌/◌, Bool, true, false, String, Option, none, some, Exec, Result, ok, throw, pure,
  ◌>>=◌, ◌>>◌, continue, and_then, eqb, if◌then◌else◌, ◌==◌,
}
use tslock.Prelude.Int.{pos}
use tslock.Core.Duration.{DurationInput, number, finite, parse_duration}
use tslock.Backend.{or_else}

-- `J` is what a response's body may be.
pub record LockMetadata : Type 0 where
  pub lock_name : String
  pub locked_by : String
  pub lock_until : ℕ
  pub retry_after_seconds : ℕ

-- What `default_locked_body` gives; its `error` is the one text.
pub record DefaultLockedBody : Type 0 where
  pub error : String
  pub name : String
  pub holder : String
  pub retry_after : ℕ

pub default_locked_body : LockMetadata → DefaultLockedBody
default_locked_body meta = record {
  error = "Resource locked by another instance";
  name = meta.lock_name;
  holder = meta.locked_by;
  retry_after = meta.retry_after_seconds;
}

pub data LockedBody (J : Type 0) : Type 0 where
  null_body : LockedBody J
  static_body : J → LockedBody J
  computed_body : (LockMetadata → J) → LockedBody J

pub record LockFailureResponse (J : Type 0) : Type 0 where
  pub status : ℕ
  -- None where it is undefined or null.
  pub body : Option J
  pub retry_after : ℕ
  pub lock_name : String
  pub locked_by : String

-- `Math.max(0, Math.ceil((lock_until - now) / 1000))`
unfoldable pub retry_after_seconds_of : ℕ → ℕ → ℕ
retry_after_seconds_of lock_until now = (lock_until - now + 999) / 1000

module _ {J : Type 0} where
  abbrev body_of : Option (LockedBody J) → LockMetadata → Option J
  body_of none meta = none
  body_of (some null_body) meta = none
  body_of (some (static_body j)) meta = some j
  body_of (some (computed_body f)) meta = some (f meta)

  unfoldable pub build_lock_failure_response :
      ℕ → ℕ → Option (LockedBody J) → String → String → ℕ → LockFailureResponse J
  unfolding retry_after_seconds_of
  build_lock_failure_response now status body lock_name locked_by lock_until =
      let seconds = retry_after_seconds_of lock_until now in
      let meta : LockMetadata = record {
        lock_name = lock_name;
        locked_by = locked_by;
        lock_until = lock_until;
        retry_after_seconds = seconds;
      } in
      record {
        status = status;
        body = body_of body meta;
        retry_after = seconds;
        lock_name = lock_name;
        locked_by = locked_by;
      }

abbrev pub LockNameStrategy : Type 0
LockNameStrategy = String → String → String

-- `upper` is `toUpperCase`.
pub method_path_strategy : (String → String) → LockNameStrategy
method_path_strategy upper method path = upper method ++ (":" ++ path)

abbrev prefixed : String → String → String
prefixed prefix base = if prefix == "" then base else prefix ++ (":" ++ base)

abbrev unless_empty : String → String → String
unless_empty name derived = if name == "" then derived else name

unfoldable pub derive_lock_name :
    LockNameStrategy → String → String → String → Option String → String
derive_lock_name strategy prefix method path none = prefixed prefix (strategy method path)
derive_lock_name strategy prefix method path (some override_name) =
    unless_empty override_name (prefixed prefix (strategy method path))

pub record MiddlewareConfig (J : Type 0) : Type 0 where
  pub lock_at_most_for : DurationInput
  pub lock_at_least_for : DurationInput
  pub lock_name_prefix : String
  pub default_locked_status : ℕ
  pub default_locked_body : Option (LockedBody J)
  pub lock_name_strategy : LockNameStrategy

pub record RouteLockConfig (J : Type 0) : Type 0 where
  pub name : Option String
  pub lock_at_most_for : Option DurationInput
  pub lock_at_least_for : Option DurationInput
  pub locked_status : Option ℕ
  pub locked_body : Option (LockedBody J)

pub record ResolvedRouteConfig (J : Type 0) : Type 0 where
  pub at_most_for : ℕ
  pub at_least_for : ℕ
  pub status : ℕ
  pub body : Option (LockedBody J)

pub record ResolvedDurations : Type 0 where
  pub at_most_for : ℕ
  pub at_least_for : ℕ

-- The input of resolveMiddlewareConfig, less the provider.
pub record MiddlewareOptions (J : Type 0) : Type 0 where
  pub lock_at_most_for : Option DurationInput
  pub lock_at_least_for : Option DurationInput
  pub lock_name_prefix : Option String
  pub default_locked_status : Option ℕ
  pub default_locked_body : Option (LockedBody J)
  pub lock_name_strategy : Option LockNameStrategy

abbrev pub millis : ℕ → DurationInput
millis n = number (finite (pos n))

-- `??` on a body takes null for missing.
abbrev pub body_or_else :
    {J : Type 0} → Option (LockedBody J) → Option (LockedBody J) → Option (LockedBody J)
body_or_else none other = other
body_or_else (some null_body) other = other
body_or_else (some (static_body j)) other = some (static_body j)
body_or_else (some (computed_body f)) other = some (computed_body f)

-- The three WeakMaps of the module.
pub record Caches (J : Type 0) : Type 0 where
  pub durations : ℕ → Option ResolvedDurations
  pub routes : ℕ → ℕ → Option (ResolvedRouteConfig J)
  pub globals : ℕ → Option (ResolvedRouteConfig J)

abbrev pub set_at : {A : Type 0} → (ℕ → Option A) → ℕ → A → ℕ → Option A
set_at m id a other = if eqb id other then some a else m other

abbrev pub parsed_or : Option DurationInput → ℕ → Result ℕ
parsed_or none n = ok n
parsed_or (some d) n = parse_duration d

-- A route as it is handed in: which object it is, whether that is frozen, and what it holds.
pub record Route (J : Type 0) : Type 0 where
  pub id : ℕ
  pub frozen : Bool
  pub config : RouteLockConfig J

module _ {J : Type 0} where
  -- snapshotRouteConfig: a frozen copy, which is a new object.
  abbrev pub snapshot_route_config : ℕ → Option (RouteLockConfig J) → Option (Route J)
  snapshot_route_config fresh none = none
  snapshot_route_config fresh (some route) =
      some (record { id = fresh; frozen = true; config = route })

  pub parse_durations : MiddlewareConfig J → Result ResolvedDurations
  parse_durations config = and_then (parse_duration config.lock_at_most_for) λ most.
      and_then (parse_duration config.lock_at_least_for)
        λ least. ok (record { at_most_for = most; at_least_for = least })

  abbrev pub cache_durations : ℕ → ResolvedDurations → Caches J → Caches J
  cache_durations id d caches = record caches { durations = set_at caches.durations id d }

  abbrev pub with_defaults : (String → String) → MiddlewareOptions J → MiddlewareConfig J
  with_defaults upper input = record {
    lock_at_most_for = or_else input.lock_at_most_for (millis 30000);
    lock_at_least_for = or_else input.lock_at_least_for (millis 0);
    lock_name_prefix = or_else input.lock_name_prefix "";
    default_locked_status = or_else input.default_locked_status 503;
    default_locked_body = body_or_else input.default_locked_body none;
    lock_name_strategy = or_else input.lock_name_strategy (method_path_strategy upper);
  }

  unfoldable pub resolve_middleware_config :
      (String → String) → ℕ → MiddlewareOptions J → Exec (Caches J) (MiddlewareConfig J)
  resolve_middleware_config upper fresh input =
      let config = with_defaults upper input in
      continue (parse_durations config) λ d caches. (ok config, cache_durations fresh d caches)

  abbrev or_parsed :
      ℕ → MiddlewareConfig J → Option ResolvedDurations → Exec (Caches J) ResolvedDurations
  or_parsed id global (some cached) = pure cached
  or_parsed id global none =
      continue (parse_durations global) λ d caches. (ok d, cache_durations id d caches)

  unfoldable pub resolved_durations : ℕ → MiddlewareConfig J → Exec (Caches J) ResolvedDurations
  resolved_durations id global caches = or_parsed id global (caches.durations id) caches

  abbrev pub global_route : MiddlewareConfig J → ResolvedDurations → ResolvedRouteConfig J
  global_route global d = record {
    at_most_for = d.at_most_for;
    at_least_for = d.at_least_for;
    status = global.default_locked_status;
    body = global.default_locked_body;
  }

  unfoldable pub own_route :
      MiddlewareConfig J → RouteLockConfig J → ResolvedDurations → Result (ResolvedRouteConfig J)
  own_route global route d = and_then (parsed_or route.lock_at_most_for d.at_most_for) λ most.
      and_then (parsed_or route.lock_at_least_for d.at_least_for) λ least. ok (record {
        at_most_for = most;
        at_least_for = least;
        status = or_else route.locked_status global.default_locked_status;
        body = body_or_else route.locked_body global.default_locked_body;
      })

  abbrev pub cache_route : ℕ → Route J → ResolvedRouteConfig J → Caches J → Caches J
  cache_route id route r caches =
      if route.frozen
      then record caches {
        routes = λ other.
            if eqb id other then set_at (caches.routes id) route.id r else caches.routes other;
      }
      else caches

  abbrev pub cached_route : ℕ → Route J → Caches J → Option (ResolvedRouteConfig J)
  cached_route id route caches = if route.frozen then caches.routes id route.id else none

  abbrev or_global :
      ℕ
      → MiddlewareConfig J
      → Option (ResolvedRouteConfig J)
      → Exec (Caches J) (ResolvedRouteConfig J)
  or_global id global (some cached) = pure cached
  or_global id global none = resolved_durations id global >>= λ d caches. (
    ok (global_route global d),
    record caches { globals = set_at caches.globals id (global_route global d) },
  )

  abbrev or_own :
      ℕ
      → MiddlewareConfig J
      → Route J
      → Option (ResolvedRouteConfig J)
      → Exec (Caches J) (ResolvedRouteConfig J)
  or_own id global route (some cached) = pure cached
  or_own id global route none = resolved_durations id global >>= λ d.
      continue (own_route global route.config d) λ r caches. (ok r, cache_route id route r caches)

  unfoldable pub merge_route_config :
      ℕ → MiddlewareConfig J → Option (Route J) → Exec (Caches J) (ResolvedRouteConfig J)
  merge_route_config id global none caches = or_global id global (caches.globals id) caches
  merge_route_config id global (some route) caches =
      or_own id global route (cached_route id route caches) caches
