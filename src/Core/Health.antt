-- ===== src/Core/Health.antt =====
-- packages/core/src/lock-health.ts: the monitor that keeps the last events and the latest failures
-- of keep-alive locks. Texts are compared by `less`, as JavaScript's `<`; the error's class name
-- is an argument; the printed form of a snapshot is not modelled.
pub mod Laws
use tslock.Prelude.{
  ℕ, ◌+◌, ◌-◌, Bool, true, false, String, Option, none, some, List, [], ◌∷◌, ◌++◌, length, Result,
  ok, throw, Exception, ltb, if◌then◌else◌, max_failures_too_small,
}
use tslock.Core.Config.{LockConfiguration}
use tslock.Core.Tracking.{ActiveLockRecord}

pub record LockHealthEvent : Type 0 where
  pub name : String
  pub at : ℕ
  pub lock_at_most_for : ℕ
  pub lock_at_least_for : ℕ

pub record KeepAliveFailureRecord : Type 0 where
  pub event : LockHealthEvent
  pub error_type : String

abbrev pub event_from : LockConfiguration → ℕ → LockHealthEvent
event_from config at = record {
  name = config.name;
  at = at;
  lock_at_most_for = config.lock_at_most_for;
  lock_at_least_for = config.lock_at_least_for;
}

-- The variables of `createLockHealthMonitor`.
pub record Monitor : Type 0 where
  pub max_keep_alive_failures : ℕ
  pub last_acquired : Option LockHealthEvent
  pub last_skipped : Option LockHealthEvent
  pub keep_alive_failures : List KeepAliveFailureRecord

abbrev or_sixteen : Option ℕ → ℕ
or_sixteen none = 16
or_sixteen (some n) = n

unfoldable pub create_lock_health_monitor : Option ℕ → Result Monitor
create_lock_health_monitor max_failures =
    if ltb (or_sixteen max_failures) 1
    then throw max_failures_too_small
    else ok (record {
      max_keep_alive_failures = or_sixteen max_failures;
      last_acquired = none;
      last_skipped = none;
      keep_alive_failures = [];
    })

pub on_lock_acquired : ℕ → LockConfiguration → Monitor → Monitor
on_lock_acquired now config m = record m { last_acquired = some (event_from config now) }

pub on_lock_not_acquired : ℕ → LockConfiguration → Monitor → Monitor
on_lock_not_acquired now config m = record m { last_skipped = some (event_from config now) }

-- `while (keepAliveFailures.length > max) keepAliveFailures.shift()`
pub shift_down_to : ℕ → List KeepAliveFailureRecord → List KeepAliveFailureRecord
shift_down_to n [] = []
shift_down_to n (x ∷ xs) =
    let rest = shift_down_to n xs in if ltb n (length (x ∷ xs)) then rest else x ∷ xs

abbrev pub failure_from : ℕ → LockConfiguration → String → KeepAliveFailureRecord
failure_from now config error_type = record {
  event = event_from config now;
  error_type = error_type;
}

pub on_keep_alive_failure : ℕ → LockConfiguration → String → Monitor → Monitor
unfolding shift_down_to
on_keep_alive_failure now config error_type m = record m {
  keep_alive_failures =
      shift_down_to m.max_keep_alive_failures
        (m.keep_alive_failures ++ (failure_from now config error_type ∷ []));
}

pub record LockHealthSnapshot : Type 0 where
  pub taken_at : ℕ
  pub active_locks : List ActiveLockRecord
  pub last_acquired : Option LockHealthEvent
  pub last_skipped : Option LockHealthEvent
  pub recent_keep_alive_failures : List KeepAliveFailureRecord
  pub overdue_locks : List ActiveLockRecord

module _ (less : String → String → Bool) where
  -- `sort(compareByName)`, which is stable.
  pub insert_by_name : ActiveLockRecord → List ActiveLockRecord → List ActiveLockRecord
  insert_by_name r [] = r ∷ []
  insert_by_name r (x ∷ xs) =
      let rest = insert_by_name r xs in if less x.name r.name then x ∷ rest else r ∷ x ∷ xs

  pub sort_by_name : List ActiveLockRecord → List ActiveLockRecord
  unfolding insert_by_name
  sort_by_name [] = []
  sort_by_name (r ∷ rs) = insert_by_name r (sort_by_name rs)

  pub overdue : ℕ → List ActiveLockRecord → List ActiveLockRecord
  overdue taken_at [] = []
  overdue taken_at (r ∷ rs) =
      let rest = overdue taken_at rs in
      if ltb r.lock_at_most_for (taken_at - r.updated_at) then r ∷ rest else rest

  pub snapshot : ℕ → List ActiveLockRecord → Monitor → LockHealthSnapshot
  unfolding sort_by_name overdue
  snapshot taken_at records m = record {
    taken_at = taken_at;
    active_locks = sort_by_name records;
    last_acquired = m.last_acquired;
    last_skipped = m.last_skipped;
    recent_keep_alive_failures = m.keep_alive_failures;
    overdue_locks = overdue taken_at (sort_by_name records);
  }
