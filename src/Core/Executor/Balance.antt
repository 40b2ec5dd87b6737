-- ===== src/Core/Executor/Balance.antt =====
-- The executor of packages/core/src/locking-task-executor.ts gives back every lock that it takes.
use tslock.Prelude.{
  ℕ, ◌≡◌, Option, none, some, List, [], ◌∷◌, Exec, Result, ok, throw, false, continue,
}
use tslock.Core.Config.{LockConfiguration}
use tslock.Core.Context.{Context, stack, already_locked_by, first_or}
use tslock.Core.Executor.{
  Event, lock_attempt, lock_acquired, lock_not_acquired, task_started, task_finished, unlock_error,
  execute_with_lock, run_under_lock, with_lock,
}
use tslock.Core.Executor.Release.{safe_emit_lem, run_under_lock_lem, under, told}

module _ {L W : Type 0} (Free : W → Type 0) (Held : L → W → Type 0) where
  -- The first lock of the stack is held.
  abbrev pub Holds : List L → W → Type 0
  Holds [] w = ⊥
  Holds (l ∷ ls) w = Held l w

  -- A lock that is given is held; without one, none is.
  abbrev pub Given : Result (Option L) → W → Type 0
  Given (ok (some l)) w = Held l w
  Given (ok none) w = Free w
  Given (throw e) w = Free w

  -- Code under a lock that keeps the first lock of its stack held.
  abbrev pub Minds {ℓ} : {A : Type ℓ} → Exec (Context L × W) A → Type 0
  Minds task =
      (c : Context L) (w : W)
      → Holds (stack c.active) w
      → Holds (stack (task (c, w)).1.0.active) (task (c, w)).1.1

  -- What the executor relies on: the listener touches no lock, the provider says what it gives,
  -- and an unlock frees the lock even where it throws.
  pub record Accounts (provider : LockConfiguration → Exec W (Option L))
      (unlock : L → Exec W (Unit {0})) (listener : Event → Exec W (Unit {0})) : Type 0 where
    pub stays_free : (e : Event) (w : W) → Free w → Free (listener e w).1
    pub stays_held : (e : Event) (l : L) (w : W) → Held l w → Held l (listener e w).1
    pub gives : (c : LockConfiguration) (w : W) → Free w → Given (provider c w).0 (provider c w).1
    pub frees : (l : L) (w : W) → Held l w → Free (unlock l w).1

module _ {L W : Type 0} (Free : W → Type 0) (Held : L → W → Type 0)
    (provider : LockConfiguration → Exec W (Option L)) (unlock : L → Exec W (Unit {0}))
    (listener : Event → Exec W (Unit {0}))
    (accounts : Accounts Free Held provider unlock listener) where
  open accounts use {stays_free, stays_held, gives, frees}

  Holds-told :
      (e : Event) (ls : List L) (w : W) → Holds Free Held ls w → Holds Free Held ls (listener e w).1
  Holds-told e [] w h = h
  Holds-told e (l ∷ ls) w h = stays_held e l w h

  told-Free :
      (config : LockConfiguration) (r : Result (Unit {0})) (w : W)
      → Free w
      → Free (told unlock listener config r w)
  told-Free config (ok u) w h = h
  told-Free config (throw e) w h = stays_free (unlock_error config e) w h

  unlocked-Free :
      (ls : List L) (l : L) (w : W) → Holds Free Held ls w → Free (unlock (first_or ls l) w).1
  unlocked-Free [] l w h = absurd h
  unlocked-Free (x ∷ ls) l w h = frees x w h

  module _ {ℓ} {A : Type ℓ} (elapsed : ℕ) (task : Exec (Context L × W) A)
      (config : LockConfiguration) (minds : Minds Free Held task) where
    run-Free :
        (lock : L) (c : Context L) (w : W)
        → Held lock w
        → Free (run_under_lock unlock listener elapsed task config lock (c, w)).1.1
    run-Free lock c w h = rw (run_under_lock_lem unlock listener elapsed task config lock c w) (
        told-Free config _ _ (
          unlocked-Free (stack (task start).1.0.active) lock _ (
            Holds-told (task_finished config elapsed) _ _
              (minds start.0 start.1 (stays_held _ lock w h)))))
      where
        start : Context L × W
        start = (under unlock listener config lock c, (listener (task_started config) w).1)

    with_lock-Free :
        (r : Result (Option L)) (c : Context L) (w : W)
        → Given Free Held r w
        → Free (continue r (with_lock unlock listener elapsed task config) (c, w)).1.1
    unfolding with_lock
    with_lock-Free (ok none) c w h =
        rw (safe_emit_lem listener (lock_not_acquired config) c w) (stays_free _ w h)
    with_lock-Free (ok (some l)) c w h =
        rw (safe_emit_lem listener (lock_acquired config) c w) (run-Free l c _ (stays_held _ l w h))
    with_lock-Free (throw e) c w h = h

    -- Where provider, unlock and listener account for what is held, and the task keeps the active
    -- lock held: a call for a new name that starts with no lock held ends with none held: the lock was refused, or it and
    -- whatever extensions replaced it is free again, whether the task returned or threw and
    -- whatever the unlock and the listener did.
    pub execute_with_lock-Free :
        (c : Context L) (w : W)
        → already_locked_by c config.name ≡ false
        → Free w
        → Free (execute_with_lock provider unlock listener elapsed task config (c, w)).1.1
    unfolding execute_with_lock
    execute_with_lock-Free c w new h = rw new (
        rw (safe_emit_lem listener (lock_attempt config) c w)
          (with_lock-Free _ c _ (gives config _ (stays_free _ w h))))
