-- ===== src/Core/Executor/Outcome.antt =====
-- What a call of `executeWithLock` of packages/core/src/locking-task-executor.ts returns.
use tslock.Prelude.{
  ℕ, ◌≡◌, refl, Option, none, some, Exec, Result, ok, throw, true, false, continue, pure,
}
use tslock.Core.Config.{LockConfiguration}
use tslock.Core.Context.{Context, already_locked_by}
use tslock.Core.Executor.{
  TaskResult, executed, not_executed, Event, lock_attempt, lock_acquired, lock_not_acquired,
  task_started, execute_with_lock, with_lock,
}
use tslock.Core.Executor.Release.{
  safe_emit_lem, run_under_lock_lem, execute_task_lem, under, as_executed,
}

module _ {L W : Type 0} (provider : LockConfiguration → Exec W (Option L))
    (unlock : L → Exec W (Unit {0})) (listener : Event → Exec W (Unit {0})) where
  module _ {ℓ} {A : Type ℓ} (elapsed : ℕ) (task : Exec (Context L × W) A)
      (config : LockConfiguration) where
    -- What the provider is asked, after the listener has heard of the attempt.
    abbrev pub asked : W → Result (Option L) × W
    asked w = provider config (listener (lock_attempt config) w).1

    -- The result of the task as the lock `l` has it run.
    abbrev pub task_under : L → Context L → W → Result A
    task_under l c w =
        (task (
          under unlock listener config l c,
          (listener (task_started config) (listener (lock_acquired config) w).1).1,
        )).0

    -- The result that goes with what the provider answered.
    abbrev pub outcome : Context L → Result (Option L) × W → Result (TaskResult A)
    outcome c (ok (some l), w) = as_executed (task_under l c w)
    outcome c (ok none, w) = ok not_executed
    outcome c (throw e, w) = throw e

    with_lock-outcome :
        (c : Context L) (r : Result (Option L)) (w : W)
        → let (q, (c', v)) = continue r (with_lock unlock listener elapsed task config) (c, w) in
          (q ≡ outcome c (r, w)) × (c' ≡ c)
    unfolding with_lock
    with_lock-outcome c (ok none) w =
        rw (safe_emit_lem listener (lock_not_acquired config) c w) (refl, refl)
    with_lock-outcome c (ok (some l)) w = rw (safe_emit_lem listener (lock_acquired config) c w) (
        rw
          (run_under_lock_lem unlock listener elapsed task config l c
            (listener (lock_acquired config) w).1)
          (refl, refl))
    with_lock-outcome c (throw e) w = (refl, refl)

    -- A call for a name that the code does not hold yet returns the task's own result or passes on
    -- what it throws if the lock is granted, reports that nothing ran if it is refused, and passes
    -- on what the provider throws; what the unlock or the listener throws is never seen. On every
    -- branch the context is as it was.
    pub execute_with_lock-outcome :
        (c : Context L) (w : W)
        → already_locked_by c config.name ≡ false
        → let (q, (c', v)) =
            execute_with_lock provider unlock listener elapsed task config (c, w) in
          (q ≡ outcome c (asked w)) × (c' ≡ c)
    unfolding execute_with_lock
    execute_with_lock-outcome c w new = rw new (
        rw (safe_emit_lem listener (lock_attempt config) c w)
          (with_lock-outcome c (asked w).0 (asked w).1))

  -- Where the code does not hold the name yet and the provider refuses, the task is not run: any
  -- other task does the same.
  skipped_task {ℓ} :
      {A : Type ℓ} (elapsed : ℕ) (task other : Exec (Context L × W) A) (config : LockConfiguration)
      (c : Context L) (w : W)
      → already_locked_by c config.name ≡ false
      → (asked elapsed task config w).0 ≡ ok none
      → execute_with_lock provider unlock listener elapsed task config (c, w)
        ≡ execute_with_lock provider unlock listener elapsed other config (c, w)
  unfolding execute_with_lock with_lock
  skipped_task elapsed task other config c w new refuses =
      rw new (rw (safe_emit_lem listener (lock_attempt config) c w) (rw refuses refl))

result_of {ℓ} :
    {L W : Type 0} {A : Type ℓ} (r : Result A) (s : Context L × W)
    → (continue r (λ a. pure (executed a)) s).0 ≡ as_executed r
result_of (ok a) s = refl
result_of (throw e) s = refl

-- A call for a name that the running code is already under runs the task in the same context and
-- asks no provider: any other provider and unlock do the same.
pub nested_call {ℓ} :
    {L W : Type 0} {A : Type ℓ} (provider provider' : LockConfiguration → Exec W (Option L))
    (unlock unlock' : L → Exec W (Unit {0})) (listener : Event → Exec W (Unit {0})) (elapsed : ℕ)
    (task : Exec (Context L × W) A) (config : LockConfiguration) (c : Context L) (w : W)
    → already_locked_by c config.name ≡ true
    → (execute_with_lock provider unlock listener elapsed task config (c, w)
        ≡ execute_with_lock provider' unlock' listener elapsed task config (c, w))
      × ((execute_with_lock provider unlock listener elapsed task config (c, w)).0
          ≡ as_executed (task (c, (listener (task_started config) w).1)).0)
unfolding execute_with_lock
nested_call provider provider' unlock unlock' listener elapsed task config c w held =
    rw held (refl, rw (execute_task_lem listener elapsed task config c w) (result_of _ _))
