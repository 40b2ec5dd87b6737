-- ===== src/Redis.antt =====
-- packages/redis-core/src: the Redis provider and its lock object over a template. The commands of
-- the server are parameters; the scripts of scripts.ts are written over them. A read of the clock
-- is an argument.
pub mod Laws
use Prim.Native.String
use Prim.Native.String.{◌++◌}
use tslock.Prelude.{
  ℕ, ◌+◌, ◌-◌, Bool, true, false, String, Option, none, some, Exec, Result, ok, throw, Exception,
  pure, ◌>>=◌, ◌>>◌, continue, ltb, eqb, if◌then◌else◌,
}
use tslock.Core.Config.{LockConfiguration, lock_at_most_until, lock_at_least_until}
use tslock.Backend.{is_text, or_else}

pub data Script : Type 0 where
  del_if_equals extend_if_equals keep_if_equals : Script

-- What a script calls: `redis.call` of `get`, `del` and `pexpire`.
pub record Commands (W : Type 0) : Type 0 where
  pub get_value : String → Exec W (Option String)
  pub del : String → Exec W ℕ
  pub pexpire : String → ℕ → Exec W ℕ

-- The scripts' texts, on one key, with the value and the milliseconds as arguments.
abbrev pub run_script : {W : Type 0} → Commands W → Script → String → String → ℕ → Exec W ℕ
run_script redis del_if_equals key value ms =
    redis.get_value key >>= λ v. if is_text v value then redis.del key else pure 0
run_script redis extend_if_equals key value ms =
    redis.get_value key >>= λ v. if is_text v value then redis.pexpire key ms else pure 0
run_script redis keep_if_equals key value ms =
    redis.get_value key >>= λ v. if is_text v value then redis.pexpire key ms else pure 0

pub record RedisTemplate (W : Type 0) : Type 0 where
  pub set_if_absent : String → String → ℕ → Exec W Bool
  pub set_if_present : String → String → ℕ → Exec W Bool
  pub delete_key : String → Exec W (Unit {0})
  pub eval : Script → String → String → ℕ → Exec W ℕ

pub record RedisLockProviderConfig : Type 0 where
  pub key_prefix : Option String
  pub env : Option String
  pub safe_update : Option Bool

pub record RedisLockValueParts : Type 0 where
  pub hostname : String
  pub iso_now : String
  pub random_id : String

-- RedisLock
pub record RedisLock : Type 0 where
  pub config : LockConfiguration
  pub key : String
  pub value : String
  pub safe_update : Bool

pub build_value : RedisLockValueParts → String
build_value parts = "ADDED:" ++ parts.iso_now ++ "@" ++ parts.hostname ++ ":" ++ parts.random_id

pub full_prefix : RedisLockProviderConfig → String
full_prefix config = or_else config.key_prefix "job-lock" ++ ":" ++ or_else config.env "default"

pub build_key : RedisLockProviderConfig → String → String
unfolding full_prefix
build_key config name = (full_prefix config ++ ":") ++ name

-- `substring` from the prefix's length on.
pub parse_key : String → String → String → String
parse_key key prefix env =
    String.slice key (String.len ((prefix ++ ":" ++ env) ++ ":")) (String.len key)

module _ {W : Type 0} (redis : RedisTemplate W) where
  abbrev drop_answer {ℓ} : {A : Type ℓ} → A → Exec W (Unit {0})
  drop_answer a = pure tt

  -- What is left of the minimum, where that is positive, is left on the key.
  unfoldable pub keep : RedisLock → ℕ → Exec W (Unit {0})
  keep l ms =
      if l.safe_update
      then (redis.eval keep_if_equals l.key l.value ms >>= drop_answer)
      else (redis.set_if_present l.key l.value ms >>= drop_answer)

  unfoldable pub remove : RedisLock → Exec W (Unit {0})
  remove l =
      if l.safe_update
      then (redis.eval del_if_equals l.key l.value 0 >>= drop_answer)
      else redis.delete_key l.key

  unfoldable pub do_unlock : ℕ → RedisLock → Exec W (Unit {0})
  do_unlock now l =
      if ltb now (lock_at_least_until l.config)
      then keep l (lock_at_least_until l.config - now)
      else remove l

  abbrev lock_if : RedisLock → LockConfiguration → Bool → Exec W (Option RedisLock)
  lock_if l new_config true = pure (some (record l { config = new_config }))
  lock_if l new_config false = pure none

  unfoldable pub do_extend : ℕ → LockConfiguration → RedisLock → Exec W (Option RedisLock)
  do_extend now new_config l =
      let expire_ms = lock_at_most_until new_config - now in
      (if l.safe_update
        then (redis.eval extend_if_equals l.key l.value expire_ms >>= λ result. pure (eqb result 1))
        else redis.set_if_present l.key l.value expire_ms)
      >>= lock_if l new_config

  abbrev lock_with : RedisLock → Bool → Exec W (Option RedisLock)
  lock_with l true = pure (some l)
  lock_with l false = pure none

  -- InternalRedisLockProvider.lock; `parts` has the host name, the lock's end as a date and
  -- `randomUUID()`.
  unfoldable pub lock :
      RedisLockProviderConfig
      → ℕ
      → RedisLockValueParts
      → LockConfiguration
      → Exec W (Option RedisLock)
  lock options now parts config =
      redis.set_if_absent (build_key options config.name) (build_value parts)
        (lock_at_most_until config - now)
      >>= lock_with (record {
        config = config;
        key = build_key options config.name;
        value = build_value parts;
        safe_update = or_else options.safe_update true;
      })
