-- ===== src/Core/Storage.antt =====
-- packages/core/src/storage-based-lock-provider.ts: the provider over a storage accessor, with the
-- registry of the names whose records it has seen created.
pub mod Contract
pub mod Laws
use tslock.Prelude.{
  ℕ, Bool, true, false, String, Option, none, some, Exec, Result, ok, throw, pure, raise, ◌>>=◌,
  ◌>>◌, ◌==◌, if◌then◌else◌,
}
use tslock.Core.Config.{LockConfiguration, lock_at_most_until}
use tslock.Core.Lock
use tslock.Core.Lock.{LockObject, new_lock}

-- The interface StorageAccessor. `T` is what one call reads of the clock and its surroundings.
pub record StorageAccessor (S T : Type 0) : Type 0 where
  pub insert_record : T → LockConfiguration → Exec S Bool
  pub update_record : T → LockConfiguration → Exec S Bool
  pub unlock : T → LockConfiguration → Exec S (Unit {0})
  pub extend : T → LockConfiguration → Option ℕ → Exec S Bool

-- LockRecordRegistry
abbrev pub Registry : Type 0
Registry = String → Bool

abbrev pub lock_record_recently_created : Registry → String → Bool
lock_record_recently_created records name = records name

abbrev pub add_record : Registry → String → Registry
add_record records name k = if name == k then true else records k

abbrev pub clear_cache : Registry → String → Registry
clear_cache records name k = if name == k then false else records k

module _ {S T : Type 0} (accessor : StorageAccessor S T) where
  abbrev pub Provider : Type 0
  Provider = Registry × S

  abbrev lock_if : LockConfiguration → Bool → Option LockObject
  lock_if config true = some (new_lock config)
  lock_if config false = none

  -- The `try` of `lock`: a throw forgets the name.
  abbrev updated :
      LockConfiguration → Registry → Result Bool × S → Result (Option LockObject) × (Registry × S)
  updated config records (ok b, s) = (ok (lock_if config b), (records, s))
  updated config records (throw e, s) = (throw e, (clear_cache records config.name, s))

  pub update : T → LockConfiguration → Registry × S → Result (Option LockObject) × (Registry × S)
  update t config (records, s) = updated config records (accessor.update_record t config s)

  -- After the insertion: `addRecord`, and the lock if it was inserted. A throw is passed on.
  pub inserted :
      T
      → LockConfiguration
      → Registry
      → Result Bool × S
      → Result (Option LockObject) × (Registry × S)
  unfolding update
  inserted t config records (ok true, s) =
      (ok (some (new_lock config)), (add_record records config.name, s))
  inserted t config records (ok false, s) = update t config (add_record records config.name, s)
  inserted t config records (throw e, s) = (throw e, (records, s))

  -- `t` is for the insertion, `u` for the update.
  unfoldable pub lock : T × T → LockConfiguration → Exec (Registry × S) (Option LockObject)
  unfolding update inserted
  lock (t, u) config (records, s) =
      if lock_record_recently_created records config.name
      then update u config (records, s)
      else inserted u config records (accessor.insert_record t config s)

  -- StorageLock
  unfoldable pub do_extend : T → LockConfiguration → LockConfiguration → Exec S (Option LockObject)
  do_extend t config new_config = do
    extended ← accessor.extend t new_config (some (lock_at_most_until config))
    pure (lock_if new_config extended)

  unfoldable pub unlock : (Bool → Bool) → T → Exec (LockObject × S) (Unit {0})
  unfolding Lock.unlock
  unlock meanwhile t = Lock.unlock meanwhile (accessor.unlock t)

  unfoldable pub extend : (Bool → Bool) → ℕ → T → ℕ → ℕ → Exec (LockObject × S) (Option LockObject)
  unfolding Lock.extend do_extend
  extend meanwhile created_at t = Lock.extend meanwhile (do_extend t) created_at
