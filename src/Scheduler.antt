-- ===== src/Scheduler.antt =====
-- packages/scheduler-core/src: the configuration of a scheduler, and jobs that run under a lock.
pub mod Laws
use tslock.Prelude.{
  ℕ, Bool, true, false, String, Option, none, some, Exec, Result, ok, throw, Exception, and_then,
  pure, raise, ◌>>=◌, continue, provider_required, at_most_for_required, job_name_required,
  at_least_above_at_most, ltb, if◌then◌else◌, ◌==◌,
}
use tslock.Prelude.Int.{pos}
use tslock.Core.Duration.{DurationInput, number, finite, parse_duration}
use tslock.Core.Config.{LockConfiguration, create_lock_config, validate_lock_name}
use tslock.Core.Executor.{TaskResult, executed, not_executed}
use tslock.Backend.{or_else}

-- `has_provider`: `lockProvider.lock` is a function.
pub record SchedulerLockConfig : Type 0 where
  pub has_provider : Bool
  pub default_lock_at_most_for : Option DurationInput
  pub default_lock_at_least_for : Option DurationInput

pub record ResolvedSchedulerLockConfig : Type 0 where
  pub at_most_for : ℕ
  pub at_least_for : ℕ

pub record JobLockOptions : Type 0 where
  pub name : String
  pub lock_at_most_for : Option DurationInput
  pub lock_at_least_for : Option DurationInput

abbrev pub millis : ℕ → DurationInput
millis n = number (finite (pos n))

abbrev pub checked_defaults : ℕ → ℕ → Result ResolvedSchedulerLockConfig
checked_defaults most least =
    if ltb most least
    then throw at_least_above_at_most
    else ok (record { at_most_for = most; at_least_for = least })

abbrev resolve_durations :
    Option DurationInput → Option DurationInput → Result ResolvedSchedulerLockConfig
resolve_durations none least = throw at_most_for_required
resolve_durations (some most) least =
    and_then (parse_duration most)
      λ m. and_then (parse_duration (or_else least (millis 0))) λ l. checked_defaults m l

unfoldable pub resolve_scheduler_lock_config :
    SchedulerLockConfig → Result ResolvedSchedulerLockConfig
resolve_scheduler_lock_config input =
    if input.has_provider
    then resolve_durations input.default_lock_at_most_for input.default_lock_at_least_for
    else throw provider_required

abbrev pub parse_optional : Option DurationInput → Result (Option ℕ)
parse_optional none = ok none
parse_optional (some d) = and_then (parse_duration d) λ n. ok (some n)

abbrev pub in_order : Option ℕ → Option ℕ → Result (Unit {0})
in_order (some most) (some least) = if ltb most least then throw at_least_above_at_most else ok tt
in_order (some most) none = ok tt
in_order none least = ok tt

unfoldable pub validate_job_lock_options : (ℕ → Bool) → JobLockOptions → Result (Unit {0})
validate_job_lock_options control job =
    if job.name == ""
    then throw job_name_required
    else and_then (validate_lock_name control job.name) λ _.
      and_then (parse_optional job.lock_at_most_for)
        λ most. and_then (parse_optional job.lock_at_least_for) λ least. in_order most least

-- The lock that a job runs under, made when it runs.
unfoldable pub job_config :
    (ℕ → Bool) → ℕ → ResolvedSchedulerLockConfig → JobLockOptions → Result LockConfiguration
job_config control now config job =
    create_lock_config control now job.name
      (or_else job.lock_at_most_for (millis config.at_most_for))
      (some (or_else job.lock_at_least_for (millis config.at_least_for)))

abbrev result_of {ℓ} : {A : Type ℓ} → TaskResult A → Option A
result_of (executed a) = some a
result_of not_executed = none

-- `execute` is the executor's `executeWithLock`.
module _ {ℓ} {S : Type 0} {A : Type ℓ} (execute : LockConfiguration → Exec S (TaskResult A)) where
  unfoldable pub run_under_lock :
      (ℕ → Bool) → ℕ → ResolvedSchedulerLockConfig → JobLockOptions → Exec S (Option A)
  run_under_lock control now config job =
      continue (job_config control now config job) λ c. execute c >>= λ r. pure (result_of r)

  unfoldable pub run :
      (ℕ → Bool) → ℕ → ResolvedSchedulerLockConfig → JobLockOptions → Exec S (Option A)
  unfolding run_under_lock
  run control now config job =
      continue (validate_job_lock_options control job) λ _. run_under_lock control now config job
