-- ===== src/Tests/Services.antt =====
-- Concrete inputs for the theorems on the tracking wrapper, the health monitor and the lock of a
-- Durable Object.
use tslock.Prelude.{
  ℕ, ◌+◌, ◌≡◌, ◌↔◌, ◌≤◌, ◌<◌, refl, Bool, true, false, String, Option, none, some, List, [], ◌∷◌,
  All, ◌≢◌, length, empty, Exec, ok, throw, arith, eq_iff, already_released,
}
use tslock.Core.Duration.{finite, parse_duration}
use tslock.Scheduler.{job_config, millis}
use tslock.Scheduler.Laws.{validated_job}
use tslock.Prelude.Int.{pos}
use tslock.Core.Config.{LockConfiguration}
use tslock.Core.Tracking
use tslock.Core.Tracking.{ActiveLockRecord, Tracker, TrackingLock}
use tslock.Core.Tracking.Laws.{IsTracking, operations-IsTracking}
use tslock.Core.Health.{Monitor, snapshot}
use tslock.Core.Health.Laws.{
  Failure, failures_of, report, latest, latest_failures, IsIn, snapshot-IsIn,
}
use tslock.Redis
use tslock.Redis.{Commands, RedisTemplate, RedisLock, run_script}
use tslock.Redis.Laws.{RunsScripts, Harmless, safe_update_lem, parse_key-build_key}
use tslock.CloudflareDo.{
  LockOp, lock_op, unlock_op, denied, is_held, memory_storage, apply_lock_op, still_held,
}
use tslock.CloudflareDo.Requests.{read_op, body_of, received, read_op-body_of}
use tslock.CloudflareDo.Owner.{BelongsTo, run, granted_term}

abbrev job : LockConfiguration
job = record { name = "job"; lock_at_most_for = 100; lock_at_least_for = 10; created_at = 5 }

abbrev job_record : ActiveLockRecord
job_record = record {
  name = "job";
  lock_at_most_for = 100;
  lock_at_least_for = 10;
  acquired_at = 5;
  updated_at = 5;
}

abbrev out : TrackingLock ℕ
out = record { id = 0; unlocked = false; delegate = 7; lock_record = job_record }

abbrev one_out : Tracker
one_out = record { next = 1; active_locks = 0 ∷ []; records = (0, job_record) ∷ [] }

abbrev give : LockConfiguration → Exec Bool (Option ℕ)
give c s = (ok (some 8), s)

abbrev fail_to_unlock : ℕ → Exec Bool (Unit {0})
fail_to_unlock l s = (throw already_released, s)

abbrev lengthen : ℕ → ℕ → ℕ → Exec Bool (Option ℕ)
lengthen l most least s = (ok (some 9), s)

-- The delegate's unlock throws.
operations-IsTracking_example :
    IsTracking (Tracking.lock give 6 job (one_out, true)).1.0
    × IsTracking (Tracking.extend lengthen 6 100 10 out (one_out, true)).1.0
    × IsTracking (Tracking.unlock fail_to_unlock out (one_out, true)).1.1.0
    × All (λ id. id ≢ 0) (Tracking.unlock fail_to_unlock out (one_out, true)).1.1.0.active_locks
    × ((Tracking.unlock fail_to_unlock out (one_out, true)).1.0.unlocked ≡ true)
operations-IsTracking_example =
    operations-IsTracking give fail_to_unlock lengthen 6 100 10 job out one_out true
      (record { same_locks = refl; given_out = (omega arith, tt) }) refl

abbrev watching : Monitor
watching = record {
  max_keep_alive_failures = 1;
  last_acquired = none;
  last_skipped = none;
  keep_alive_failures = [];
}

abbrev two_failures : List Failure
two_failures =
    record { at = 7; config = job; error_type = "Error" }
    ∷ record { at = 9; config = job; error_type = "Error" }
    ∷ []

latest_failures_example :
    ((report two_failures watching).keep_alive_failures ≡ latest 1 (failures_of two_failures))
    × (length (report two_failures watching).keep_alive_failures ≤ 1)
    × (1 ≤ 1)
unfolding tslock.Core.Health.create_lock_health_monitor
latest_failures_example = latest_failures (some 1) watching two_failures refl

snapshot-IsIn_example :
    (IsIn job_record (snapshot (λ a b. false) 106 (job_record ∷ []) watching).active_locks
      ↔ IsIn job_record (job_record ∷ []))
    × (IsIn job_record (snapshot (λ a b. false) 106 (job_record ∷ []) watching).overdue_locks
        ↔ (IsIn job_record (job_record ∷ []) × (5 + 100 < 106)))
snapshot-IsIn_example = snapshot-IsIn (λ a b. false) 106 (job_record ∷ []) watching job_record

abbrev asked_by : String → LockOp
asked_by token = record {
  op = lock_op;
  name = "job";
  lock_at_most_for = 100;
  lock_at_least_for = 10;
  created_at = finite (pos 5);
  locked_by = "host";
  token = token;
}

read_op-body_of_example : read_op (body_of (asked_by "a")) ≡ received (asked_by "a")
read_op-body_of_example = read_op-body_of (asked_by "a")

granted_term_example :
    (still_held memory_storage 50 none ≡ false)
    × BelongsTo "a" "job" (50 + 100) (
        run
          ((60, record (asked_by "b") { op = unlock_op }) ∷ [])
          (apply_lock_op memory_storage 50 (asked_by "a") empty).1)
    × ((apply_lock_op memory_storage 70 (asked_by "b") (
          run
            ((60, record (asked_by "b") { op = unlock_op }) ∷ [])
            (apply_lock_op memory_storage 50 (asked_by "a") empty).1)).0
        ≡ ok (denied is_held))
unfolding apply_lock_op
granted_term_example =
    granted_term 50 (asked_by "a") empty ((60, record (asked_by "b") { op = unlock_op }) ∷ []) 70
      (asked_by "b") refl refl (omega arith, (λ s e. ground (arith, eq_iff "b" "a")), tt) refl refl
      (λ e. ground (arith, eq_iff "b" "")) (omega arith)

-- A server with one key, which holds the text of the state.
abbrev one_key : Commands String
one_key = record {
  get_value = λ key w. (ok (some w), w);
  del = λ key w. (ok 1, "");
  pexpire = λ key ms w. (ok 1, w);
}

abbrev one_key_template : RedisTemplate String
one_key_template = record {
  set_if_absent = λ key value ms w. (ok true, value);
  set_if_present = λ key value ms w. (ok true, value);
  delete_key = λ key w. (ok tt, "");
  eval = run_script one_key;
}

one_key-RunsScripts : RunsScripts (λ w key. some w) one_key one_key_template
one_key-RunsScripts = record { reads = λ key w. (refl, refl); runs = λ s key value ms w. refl }

abbrev mine : RedisLock
mine = record { config = job; key = "job-lock:default:job"; value = "mine"; safe_update = true }

safe_update_lem_example :
    Harmless
      (λ w key. some w)
      one_key
      one_key_template
      one_key-RunsScripts
      tt
      "theirs"
      (Redis.do_unlock one_key_template 200 mine "theirs")
    × Harmless
        (λ w key. some w)
        one_key
        one_key_template
        one_key-RunsScripts
        none
        "theirs"
        (Redis.do_extend one_key_template 200 job mine "theirs")
safe_update_lem_example =
    safe_update_lem (λ w key. some w) one_key one_key_template one_key-RunsScripts 200 job mine
      "theirs" refl refl

parse_key-build_key_example :
    Redis.parse_key
      (Redis.build_key
        (record { key_prefix = some "jobs"; env = some "test"; safe_update = none })
        "job")
      "jobs"
      "test"
    ≡ "job"
parse_key-build_key_example = parse_key-build_key "jobs" "test" "job"

validated_job_example :
    (c : LockConfiguration) × (job_config
        (λ c. false)
        5
        (record { at_most_for = 5; at_least_for = 5 })
        (record {
          name = "job";
          lock_at_most_for = some (millis 100);
          lock_at_least_for = some (millis 10);
        })
      ≡ ok c)
    × (c.name ≡ "job")
    × (c.created_at ≡ 5)
    × (parse_duration (millis 100) ≡ ok c.lock_at_most_for)
    × (parse_duration (millis 10) ≡ ok c.lock_at_least_for)
unfolding tslock.Scheduler.validate_job_lock_options tslock.Core.Config.validate_lock_name
    tslock.Core.Config.any_code parse_duration
validated_job_example =
    validated_job (λ c. false) 5 (record { at_most_for = 5; at_least_for = 5 }) "job" (millis 100)
      (millis 10) refl
