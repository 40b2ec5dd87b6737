-- ===== src/Core/Executor.antt =====
-- packages/core/src/locking-task-executor.ts and locking-task-executor-listener.ts: a task run
-- under a lock. The provider, the lock's `unlock` and the listener act on a state `W`; each may
-- throw. A task sees the context and `W`.
pub mod Release
pub mod Balance
pub mod Outcome
pub mod Extension
use tslock.Prelude.{
  ℕ, Bool, true, false, String, Option, none, some, List, [], ◌∷◌, Exec, Result, ok, throw, pure,
  ◌>>=◌, ◌>>◌, continue, try_catch, handle, Exception, if◌then◌else◌,
}
use tslock.Core.Config.{LockConfiguration}
use tslock.Core.Context.{
  Context, stack, includes, already_locked_by, first_or, assert_with_lock, extend_with_lock,
}

-- TaskResult: `wasExecuted`, and the result where there is one.
pub data TaskResult {ℓ} (A : Type ℓ) : Type ℓ where
  executed : A → TaskResult A
  not_executed : TaskResult A

-- The methods of LockingTaskExecutorListener.
pub data Event : Type 0 where
  lock_attempt lock_acquired lock_not_acquired task_started : LockConfiguration → Event
  task_finished : LockConfiguration → ℕ → Event
  unlock_error : LockConfiguration → Exception → Event

-- `try { return await m } finally { await f }`.
abbrev finish {ℓ} : {S : Type 0} {A : Type ℓ} → Result A → Result (Unit {0}) × S → Result A × S
finish r (ok u, s) = (r, s)
finish r (throw e, s) = (throw e, s)

abbrev try_finally {ℓ} : {S : Type 0} {A : Type ℓ} → Exec S A → Exec S (Unit {0}) → Exec S A
try_finally m f s = let (r, s') = m s in finish r (f s')

-- What acts on `W`, in code that sees the context too.
abbrev beside_context {ℓ} :
    {L W : Type 0} {A : Type ℓ} → Context L → Result A × W → Result A × (Context L × W)
beside_context c (r, w) = (r, (c, w))

abbrev pub on_world {ℓ} : {L W : Type 0} {A : Type ℓ} → Exec W A → Exec (Context L × W) A
on_world m (c, w) = beside_context c (m w)

module _ {L W : Type 0} (listener : Event → Exec W (Unit {0})) where
  -- `safeEmit`: what the listener throws is dropped.
  unfoldable pub safe_emit : Event → Exec (Context L × W) (Unit {0})
  safe_emit event = on_world (try_catch (listener event) (λ e. pure tt))

  -- `elapsed` is what the two reads of `performance.now` differ by.
  unfoldable pub execute_task {ℓ} :
      {A : Type ℓ} → ℕ → Exec (Context L × W) A → LockConfiguration → Exec (Context L × W) A
  execute_task elapsed task config =
      safe_emit (task_started config) >> try_finally task (safe_emit (task_finished config elapsed))

module _ {L W : Type 0} (unlock : L → Exec W (Unit {0}))
    (listener : Event → Exec W (Unit {0})) where
  -- The inner `try` of `run`: the active lock, which an extension may have replaced, is unlocked.
  unfoldable pub release : LockConfiguration → L → Exec (Context L × W) (Unit {0})
  release config lock (c, w) =
      try_catch (on_world (unlock (first_or (stack c.active) lock)))
        (λ e. safe_emit listener (unlock_error config e)) (c, w)

  unfoldable pub run_under_lock {ℓ} :
      {A : Type ℓ}
      → ℕ
      → Exec (Context L × W) A
      → LockConfiguration
      → L
      → Exec (Context L × W) (TaskResult A)
  run_under_lock elapsed task config lock = assert_with_lock config.name (
      extend_with_lock lock (
        try_finally (execute_task listener elapsed task config) (release config lock) >>= λ a.
        pure (executed a)))

  unfoldable pub with_lock {ℓ} :
      {A : Type ℓ}
      → ℕ
      → Exec (Context L × W) A
      → LockConfiguration
      → Option L
      → Exec (Context L × W) (TaskResult A)
  with_lock elapsed task config none =
      safe_emit listener (lock_not_acquired config) >> pure not_executed
  with_lock elapsed task config (some lock) =
      safe_emit listener (lock_acquired config) >> run_under_lock elapsed task config lock

module _ {L W : Type 0} (provider : LockConfiguration → Exec W (Option L))
    (unlock : L → Exec W (Unit {0})) (listener : Event → Exec W (Unit {0})) where
  unfoldable pub execute_with_lock {ℓ} :
      {A : Type ℓ}
      → ℕ
      → Exec (Context L × W) A
      → LockConfiguration
      → Exec (Context L × W) (TaskResult A)
  execute_with_lock elapsed task config (c, w) =
      if already_locked_by c config.name
      then (execute_task listener elapsed task config >>= λ a. pure (executed a)) (c, w)
      else (safe_emit listener (lock_attempt config)
            >> on_world (provider config)
            >>= with_lock unlock listener elapsed task config)
          (c, w)
