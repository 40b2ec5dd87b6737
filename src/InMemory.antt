-- ===== src/InMemory.antt =====
-- packages/in-memory/src: the provider that keeps its locks in a Map, and its lock object.
pub mod Laws
use tslock.Prelude.{
  ℕ, ◌≤◌, Bool, true, false, String, Option, none, some, Table, put, remove, Exec, Result, ok, leb,
  ltb, eqb, if◌then◌else◌, ◌&&◌,
}
use tslock.Core.Config.{LockConfiguration, lock_at_most_until, lock_at_least_until}
use tslock.Core.Lock
use tslock.Core.Lock.{LockObject, new_lock}

-- The field `locks` of InMemoryLockProvider.
abbrev pub Locks : Type 0
Locks = Table ℕ

pub is_locked : ℕ → String → Exec Locks Bool
is_locked now name locks = elim (locks name) [
  | none ↦ (ok false, locks)
  | some until ↦ if leb until now then (ok false, remove locks name) else (ok true, locks)
]

abbrev take_unless : LockConfiguration → Result Bool × Locks → Result (Option LockObject) × Locks
take_unless config (ok true, locks) = (ok none, locks)
take_unless config (ok false, locks) =
    (ok (some (new_lock config)), put locks config.name (lock_at_most_until config))
take_unless config (Result.throw e, locks) = (Result.throw e, locks)

unfoldable pub lock : ℕ → LockConfiguration → Exec Locks (Option LockObject)
unfolding is_locked
lock now config locks = take_unless config (is_locked now config.name locks)

-- `this.provider.locks.get(this.config.name) === until`
pub is_owned : ℕ → Option ℕ → Bool
is_owned until none = false
is_owned until (some v) = eqb v until

pub do_unlock : LockConfiguration → Exec Locks (Unit {0})
unfolding is_owned
do_unlock config locks =
    if is_owned (lock_at_most_until config) (locks config.name)
    then (ok tt, put locks config.name (lock_at_least_until config))
    else (ok tt, locks)

pub do_extend : ℕ → LockConfiguration → LockConfiguration → Exec Locks (Option LockObject)
unfolding is_owned
do_extend now config new_config locks =
    let owned_until = lock_at_most_until config in
    if is_owned owned_until (locks config.name) && ltb now owned_until
    then (ok (some (new_lock new_config)), put locks config.name (lock_at_most_until new_config))
    else (ok none, locks)

-- InMemoryLock's inherited methods. `created_at` is the clock when `extend` is called, `now` when
-- its test is made.
unfoldable pub unlock : (Bool → Bool) → Exec (LockObject × Locks) (Unit {0})
unfolding do_unlock Lock.unlock
unlock meanwhile = Lock.unlock meanwhile do_unlock

unfoldable pub extend :
    (Bool → Bool) → ℕ → ℕ → ℕ → ℕ → Exec (LockObject × Locks) (Option LockObject)
unfolding do_extend Lock.extend
extend meanwhile created_at now = Lock.extend meanwhile (do_extend now) created_at
