-- ===== src/Middleware/Handled.antt =====
-- What packages/middleware-core/src/middleware-lifecycle.ts runs: the handler, or the answer that
-- the request is locked. Each is followed by a count of its runs.
use tslock.Prelude.{
  ℕ, ◌≤◌, ◌≡◌, ◌+◌, max, refl, ap, ◌∙◌, arith, Bool, true, false, String, Option, none, some, Exec,
  Result, ok, throw, continue, ◌>>=◌, Bool-cases, inl, inr,
}
use tslock.Core.Config.{LockConfiguration}
use tslock.Core.Context.{Context, already_locked_by}
use tslock.Core.Executor
use tslock.Core.Executor.{
  TaskResult, executed, not_executed, Event, lock_attempt, lock_acquired, lock_not_acquired,
  task_started, task_finished, with_lock, run_under_lock,
}
use tslock.Core.Executor.Release.{
  safe_emit_lem, execute_task_lem, run_under_lock_lem, as_executed, told,
}
use tslock.Middleware.{
  DefaultLockedBody, LockFailureResponse, MiddlewareConfig, ResolvedRouteConfig, Route, Caches,
}
use tslock.Middleware.Lifecycle.{
  LockRequestContext, Clock, answer, run_resolved, execute_with_lock, beside_caches,
}

module _ {L W : Type 0} (provider : LockConfiguration → Exec W (Option L))
    (unlock : L → Exec W (Unit {0})) (listener : Event → Exec W (Unit {0})) (count : W → ℕ) where
  -- The lock's own calls are not counted.
  pub record Uncounted : Type 0 where
    pub provides : (c : LockConfiguration) (w : W) → count (provider c w).1 ≡ count w
    pub unlocks : (l : L) (w : W) → count (unlock l w).1 ≡ count w
    pub listens : (e : Event) (w : W) → count (listener e w).1 ≡ count w

  -- What a call that raises the count by `by` where it runs leaves of a count of `n`.
  abbrev pub Tallied : ℕ → ℕ → Result (TaskResult (Unit {0})) × (Context L × W) → Type 0
  Tallied by n (ok (executed u), s) = count s.1 ≡ by + n
  Tallied by n (ok not_executed, s) = count s.1 ≡ n
  Tallied by n (throw e, s) = count s.1 ≤ by + n

  module _ (uncounted : Uncounted) (elapsed by : ℕ) (task : Exec (Context L × W) (Unit {0}))
      (adds : (s : Context L × W) → count (task s).1.1 ≡ by + count s.1)
      (config : LockConfiguration) where
    open uncounted use {provides, unlocks, listens}

    told-count : (r : Result (Unit {0})) (w : W) → count (told unlock listener config r w) ≡ count w
    told-count (ok u) w = refl
    told-count (throw e) w = listens _ w

    as_executed-Tallied :
        (n : ℕ) (r : Result (Unit {0})) (s : Context L × W)
        → count s.1 ≡ by + n
        → Tallied by n (as_executed r, s)
    as_executed-Tallied n (ok u) s e = e
    as_executed-Tallied n (throw x) s e = omega (arith, e)

    run-Tallied :
        (n : ℕ) (l : L) (c : Context L) (w : W)
        → count w ≡ n
        → Tallied by n (run_under_lock unlock listener elapsed task config l (c, w))
    run-Tallied n l c w e = rw (run_under_lock_lem unlock listener elapsed task config l c w) (
        as_executed-Tallied n _ _ (
          told-count _ _
          ∙ (unlocks _ _ ∙ (listens _ _ ∙ (adds _ ∙ ap (λ n. by + n) (listens _ w ∙ e))))))

    with_lock-Tallied :
        (n : ℕ) (r : Result (Option L)) (c : Context L) (w : W)
        → count w ≡ n
        → Tallied by n (continue r (with_lock unlock listener elapsed task config) (c, w))
    unfolding with_lock
    with_lock-Tallied n (ok none) c w e =
        rw (safe_emit_lem listener (lock_not_acquired config) c w) (listens _ w ∙ e)
    with_lock-Tallied n (ok (some l)) c w e =
        rw (safe_emit_lem listener (lock_acquired config) c w)
          (run-Tallied n l c _ (listens _ w ∙ e))
    with_lock-Tallied n (throw x) c w e = omega (arith, e)

    after_task-Tallied :
        (n : ℕ) (r : Result (Unit {0})) (s : Context L × W)
        → count s.1 ≡ by + n
        → Tallied by n (continue r (λ a s. (ok (executed a), s)) s)
    after_task-Tallied n (ok u) s e = e
    after_task-Tallied n (throw x) s e = omega (arith, e)

    execute_with_lock-Tallied :
        (c : Context L) (w : W)
        → Tallied by
            (count w)
            (Executor.execute_with_lock provider unlock listener elapsed task config (c, w))
    unfolding Executor.execute_with_lock
    execute_with_lock-Tallied c w = elim (Bool-cases (already_locked_by c config.name)) [
      | inl held ↦
          rw (held, execute_task_lem listener elapsed task config c w)
            (after_task-Tallied (count w) _ _
              (listens _ _ ∙ (adds _ ∙ ap (λ n. by + n) (listens _ w))))
      | inr new ↦
          rw (new, safe_emit_lem listener (lock_attempt config) c w)
            (with_lock-Tallied (count w) _ c _ (provides _ _ ∙ listens _ w))
    ]

  -- What a request leaves of a count of `n` that running adds `ran` to, and answering `sent`.
  abbrev pub Answered : {S : Type 0} → (S → W) → ℕ → ℕ → ℕ → Result Bool × S → Type 0
  Answered world ran sent n (ok true, s) = count (world s) ≡ ran + n
  Answered world ran sent n (ok false, s) = count (world s) ≡ sent + n
  Answered world ran sent n (throw e, s) = count (world s) ≤ max ran sent + n

  module _ {J : Type 0} (uncounted : Uncounted) (control : ℕ → Bool) (hostname : String)
      (to_json : DefaultLockedBody → J) (handler : Exec (Context L × W) (Unit {0}))
      (send : LockFailureResponse J → Exec (Context L × W) (Unit {0})) (ran sent : ℕ)
      (runs : (s : Context L × W) → count (handler s).1.1 ≡ ran + count s.1)
      (sends : (r : LockFailureResponse J) (s : Context L × W)
        → count (send r s).1.1 ≡ sent + count s.1) where
    abbrev world : Context L × W → W
    world (c, w) = w

    sent-Answered :
        (n : ℕ) (r : Result (Unit {0})) (s : Context L × W)
        → count s.1 ≡ sent + n
        → Answered world ran sent n (continue r (λ u s. (ok false, s)) s)
    sent-Answered n (ok u) s e = e
    sent-Answered n (throw x) s e = omega (arith, e)

    answer-Answered :
        (clock : Clock) (resolved : ResolvedRouteConfig J) (name : String) (n : ℕ)
        (r : Result (TaskResult (Unit {0}))) (s : Context L × W)
        → Tallied ran n (r, s)
        → Answered world ran sent n (
            continue r
              (answer provider unlock listener control hostname to_json handler send clock resolved
                name)
              s)
    unfolding answer
    answer-Answered clock resolved name n (ok (executed u)) s e = e
    answer-Answered clock resolved name n (ok not_executed) s e =
        sent-Answered n _ _ (sends _ s ∙ ap (λ n. sent + n) e)
    answer-Answered clock resolved name n (throw x) s e = omega (arith, e)

    configured-Answered :
        (clock : Clock) (resolved : ResolvedRouteConfig J) (name : String)
        (q : Result LockConfiguration) (s : Context L × W)
        → Answered world ran sent (count s.1) (
            continue q
              (λ lock_config.
                Executor.execute_with_lock provider unlock listener clock.elapsed handler
                  lock_config
                >>= answer provider unlock listener control hostname to_json handler send clock
                    resolved name)
              s)
    configured-Answered clock resolved name (throw e) s = omega arith
    configured-Answered clock resolved name (ok c) s =
        answer-Answered clock resolved name (count s.1) _ _
          (execute_with_lock-Tallied uncounted clock.elapsed ran handler runs c s.0 s.1)

    abbrev world_of : Caches J × (Context L × W) → W
    world_of (k, (c, w)) = w

    beside-Answered :
        (n : ℕ) (k : Caches J) (r : Result Bool) (s : Context L × W)
        → Answered world ran sent n (r, s)
        → Answered world_of ran sent n (beside_caches k (r, s))
    beside-Answered n k (ok true) s h = h
    beside-Answered n k (ok false) s h = h
    beside-Answered n k (throw e) s h = h

    merged-Answered :
        (clock : Clock) (name : String) (q : Result (ResolvedRouteConfig J)) (k : Caches J)
        (s : Context L × W)
        → Answered world_of ran sent (count s.1) (
            continue q
              (λ resolved (caches', s). beside_caches caches' (
                run_resolved provider unlock listener control hostname to_json handler send clock
                  resolved name s))
              (k, s))
    unfolding run_resolved
    merged-Answered clock name (throw e) k s = omega arith
    merged-Answered clock name (ok resolved) k s =
        beside-Answered (count s.1) k _ _ (configured-Answered clock resolved name _ s)

    -- Where the lock's own calls are not counted, running the handler adds `ran` to the count and
    -- answering adds `sent`, whether they return or throw: a request that reports that the handler
    -- was executed has run it once and answered nothing, one that reports that it was not has
    -- answered once and run nothing, and one that throws has done one of the two once at most.
    pub execute_with_lock-Answered :
        (clock : Clock) (id : ℕ) (config : MiddlewareConfig J) (ctx : LockRequestContext)
        (route : Option (Route J)) (k : Caches J) (s : Context L × W)
        → Answered world_of ran sent (count s.1) (
            execute_with_lock provider unlock listener control hostname to_json handler send clock
              id config ctx route
              (k, s))
    unfolding execute_with_lock
    execute_with_lock-Answered clock id config ctx route k s = merged-Answered clock _ _ _ s
