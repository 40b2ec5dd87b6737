-- ===== src/Redis/Laws.antt =====
-- What the Redis provider of packages/redis-core/src does to locks that are not its own.
use Prim.Native.String
use Prim.Native.String.{◌++◌}
use text.Mathlib.TextPositions.{len-append}
use text.Mathlib.TextPositions.{slice-append_right}
use tslock.Prelude.{
  ℕ, ◌-◌, ◌≡◌, ◌⊎◌, refl, ap, ◌∙◌, true, false, String, Option, none, some, Result, ok, throw,
  Exception, inl, inr, Bool-cases, ltb,
}
use tslock.Core.Config.{LockConfiguration, lock_at_least_until, lock_at_most_until}
use tslock.Backend.{is_text}
use tslock.Redis.{
  Commands, Script, del_if_equals, extend_if_equals, keep_if_equals, run_script, RedisTemplate,
  RedisLock, keep, remove, do_unlock, do_extend, build_key, parse_key, full_prefix,
}

module _ {W : Type 0} (content : W → String → Option String) where
  -- A read answers with what is there, or fails; either way it changes nothing.
  abbrev pub Reads : W → W → String → Result (Option String) → Type 0
  Reads w w' key (ok v) = (w' ≡ w) × (v ≡ content w key)
  Reads w w' key (throw e) = w' ≡ w

  -- The server runs a script as one step, over its commands.
  pub record RunsScripts (commands : Commands W) (redis : RedisTemplate W) : Type 0 where
    pub reads :
        (key : String) (w : W)
        → Reads w (commands.get_value key w).1 key (commands.get_value key w).0
    pub runs :
        (s : Script) (key value : String) (ms : ℕ) (w : W)
        → redis.eval s key value ms w ≡ run_script commands s key value ms w

  module _ (commands : Commands W) (redis : RedisTemplate W)
      (laws : RunsScripts commands redis) where
    read_cases :
        (key : String) (w : W) (r : Result (Option String) × W)
        → Reads w r.1 key r.0
        → (r ≡ (ok (content w key), w)) ⊎ ((e : Exception) × (r ≡ (throw e, w)))
    read_cases key w (ok v, w') (same, at) = inl (ap (λ x. (ok v, x)) same ∙ ap (λ x. (ok x, w)) at)
    read_cases key w (throw e, w') same = inr (e, ap (λ x. (throw e, x)) same)

    -- A script on a key with another value answers 0 or fails, and changes nothing.
    foreign_script :
        (s : Script) (key value : String) (ms : ℕ) (w : W)
        → is_text (content w key) value ≡ false
        → (redis.eval s key value ms w ≡ (ok 0, w))
          ⊎ ((e : Exception) × (redis.eval s key value ms w ≡ (throw e, w)))
    foreign_script s key value ms w other =
        elim (read_cases key w (commands.get_value key w) (laws.reads key w)) [
          | inl e ↦ inl (laws.runs s key value ms w ∙ answered s e)
          | inr (x, e) ↦ inr (x, laws.runs s key value ms w ∙ failed s x e)
        ]
      where
        answered :
            (s : Script)
            → commands.get_value key w ≡ (ok (content w key), w)
            → run_script commands s key value ms w ≡ (ok 0, w)
        answered del_if_equals e = rw (e, other) refl
        answered extend_if_equals e = rw (e, other) refl
        answered keep_if_equals e = rw (e, other) refl

        failed :
            (s : Script) (x : Exception)
            → commands.get_value key w ≡ (throw x, w)
            → run_script commands s key value ms w ≡ (throw x, w)
        failed del_if_equals x e = rw e refl
        failed extend_if_equals x e = rw e refl
        failed keep_if_equals x e = rw e refl

    -- What a call that may fail gives, without having changed anything.
    abbrev pub Harmless {ℓ} : {A : Type ℓ} → A → W → Result A × W → Type ℓ
    Harmless a w r = (r ≡ (ok a, w)) ⊎ ((e : Exception) × (r ≡ (throw e, w)))

    -- On a server that runs the scripts as one step: where the key of a lock in safe mode is gone
    -- or holds another lock's value, its unlock, before or after the end of its minimum, and its
    -- extension change nothing, and the extension gives no lock.
    pub safe_update_lem :
        (now : ℕ) (new_config : LockConfiguration) (l : RedisLock) (w : W)
        → l.safe_update ≡ true
        → is_text (content w l.key) l.value ≡ false
        → Harmless tt w (do_unlock redis now l w)
          × Harmless none w (do_extend redis now new_config l w)
    unfolding do_unlock keep remove do_extend
    safe_update_lem now new_config l w safe other = (unlocked, extended)
      where
        unlocked : Harmless tt w (do_unlock redis now l w)
        unlocked = elim (Bool-cases (ltb now (lock_at_least_until l.config))) [
          | inl e ↦
              rw (e, safe)
                (elim (foreign_script keep_if_equals l.key l.value
                  (lock_at_least_until l.config - now) w other) [
                    | inl f ↦ rw f (inl refl)
                    | inr (x, f) ↦ rw f (inr (x, refl))
                  ])
          | inr e ↦
              rw (e, safe)
                (elim (foreign_script del_if_equals l.key l.value 0 w other) [
                  | inl f ↦ rw f (inl refl)
                  | inr (x, f) ↦ rw f (inr (x, refl))
                ])
        ]

        extended : Harmless none w (do_extend redis now new_config l w)
        extended =
            rw safe
              (elim (foreign_script extend_if_equals l.key l.value
                (lock_at_most_until new_config - now) w other) [
                  | inl f ↦ rw f (inl refl)
                  | inr (x, f) ↦ rw f (inr (x, refl))
                ])

-- A lock's name is read back from its key.
pub parse_key-build_key :
    (prefix env name : String)
    → parse_key
        (build_key (record { key_prefix = some prefix; env = some env; safe_update = none }) name)
        prefix
        env
      ≡ name
unfolding parse_key build_key full_prefix
parse_key-build_key prefix env name =
    ap
      (String.slice (((prefix ++ ":" ++ env) ++ ":") ++ name)
        (String.len ((prefix ++ ":" ++ env) ++ ":")))
      (len-append ((prefix ++ ":" ++ env) ++ ":") name)
    ∙ slice-append_right ((prefix ++ ":" ++ env) ++ ":") name
