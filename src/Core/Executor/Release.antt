-- ===== src/Core/Executor/Release.antt =====
-- The executor of packages/core/src/locking-task-executor.ts gives back every lock that it takes.
use tslock.Prelude.{ℕ, ◌≡◌, refl, some, ◌∷◌, Exec, Result, ok, throw, pure, handle, continue}
use tslock.Core.Config.{LockConfiguration}
use tslock.Core.Context.{Context, stack, first_or, assert_with_lock, extend_with_lock}
use tslock.Core.Executor.{
  TaskResult, executed, Event, task_started, task_finished, unlock_error, execute_task,
  run_under_lock, release, safe_emit,
}

pub handle-pure :
    {W : Type 0} (r : Result (Unit {0})) (w : W) → handle r (λ e. pure tt) w ≡ (ok tt, w)
handle-pure (ok u) w = refl
handle-pure (throw e) w = refl

abbrev pub as_executed {ℓ} : {A : Type ℓ} → Result A → Result (TaskResult A)
as_executed (ok a) = ok (executed a)
as_executed (throw e) = throw e

module _ {L W : Type 0} (listener : Event → Exec W (Unit {0})) where
  -- `safeEmit` never throws, and leaves the context.
  pub safe_emit_lem :
      (e : Event) (c : Context L) (w : W)
      → safe_emit listener e (c, w) ≡ (ok tt, (c, (listener e w).1))
  unfolding safe_emit
  safe_emit_lem e c w = rw (handle-pure (listener e w).0 (listener e w).1)

  -- A task between its two events returns what it returns, in the state after the second event.
  pub execute_task_lem {ℓ} :
      {A : Type ℓ} (elapsed : ℕ) (task : Exec (Context L × W) A) (config : LockConfiguration)
      (c : Context L) (w : W)
      → let (r, (c', w')) = task (c, (listener (task_started config) w).1) in
        execute_task listener elapsed task config (c, w)
        ≡ (r, (c', (listener (task_finished config elapsed) w').1))
  unfolding execute_task
  execute_task_lem elapsed task config c w = rw (safe_emit_lem (task_started config) c w) (
      let (r, (c', w')) = task (c, (listener (task_started config) w).1) in
      rw (safe_emit_lem (task_finished config elapsed) c' w') refl)

module _ {L W : Type 0} (unlock : L → Exec W (Unit {0}))
    (listener : Event → Exec W (Unit {0})) where
  -- What the listener is told of an unlock.
  abbrev pub told : LockConfiguration → Result (Unit {0}) → W → W
  told config (ok u) w = w
  told config (throw e) w = (listener (unlock_error config e) w).1

  caught :
      (config : LockConfiguration) (c : Context L) (r : Result (Unit {0})) (w : W)
      → handle r (λ e. safe_emit listener (unlock_error config e)) (c, w)
        ≡ (ok tt, (c, told config r w))
  caught config c (ok u) w = refl
  caught config c (throw e) w = safe_emit_lem listener (unlock_error config e) c w

  -- The release never throws; it unlocks the first lock of the stack, and tells the listener if that threw.
  pub release_lem :
      (config : LockConfiguration) (lock : L) (c : Context L) (w : W)
      → let (r, w') = unlock (first_or (stack c.active) lock) w in
        release unlock listener config lock (c, w) ≡ (ok tt, (c, told config r w'))
  unfolding release
  release_lem config lock c w =
      let (r, w') = unlock (first_or (stack c.active) lock) w in caught config c r w'

  -- The context that the task of a lock starts in.
  abbrev pub under : LockConfiguration → L → Context L → Context L
  under config lock c = record {
    asserted = some (config.name ∷ stack c.asserted);
    active = some (lock ∷ stack c.active);
  }

  returned {ℓ} :
      {A : Type ℓ} (r : Result A) (c : Context L) (s : Context L × W)
      → ◌≡◌ {A = Result (TaskResult A) × (Context L × W)}
          (
            (continue r (λ a. pure (executed a)) s).0,
            (c, (continue r (λ a. pure (executed a)) s).1.1),
          )
          (as_executed r, (c, s.1))
  returned (ok a) c s = refl
  returned (throw e) c s = refl

  -- Under the lock the task runs, its lock or what replaced that is unlocked, and the context is
  -- as before; the result is the task's.
  pub run_under_lock_lem {ℓ} :
      {A : Type ℓ} (elapsed : ℕ) (task : Exec (Context L × W) A) (config : LockConfiguration)
      (lock : L) (c : Context L) (w : W)
      → let (r, (c', w')) = task (under config lock c, (listener (task_started config) w).1) in
        let w'' = (listener (task_finished config elapsed) w').1 in
        let (q, v) = unlock (first_or (stack c'.active) lock) w'' in
        run_under_lock unlock listener elapsed task config lock (c, w)
        ≡ (as_executed r, (c, told config q v))
  unfolding run_under_lock assert_with_lock extend_with_lock
  run_under_lock_lem elapsed task config lock c w =
      rw (execute_task_lem listener elapsed task config (under config lock c) w) (
        let (r, (c', w')) = task (under config lock c, (listener (task_started config) w).1) in
        rw (release_lem config lock c' (listener (task_finished config elapsed) w').1)
          (returned r c _))
