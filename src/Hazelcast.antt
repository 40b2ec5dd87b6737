-- ===== src/Hazelcast.antt =====
-- packages/hazelcast/src: the accessor over a Hazelcast map, which reads and writes the record of a
-- name while it holds the map's own lock of that name. The map is a parameter; the clock is read
-- before the map's lock is asked for.
pub mod Laws
pub mod Release
use tslock.Prelude.{
  ℕ, ◌-◌, Bool, true, false, ◌&&◌, not, String, Option, none, some, Exec, Result, ok, throw,
  Exception, pure, ◌>>=◌, ◌>>◌, leb, if◌then◌else◌, ◌==◌,
}
use tslock.Prelude.Int.{ℤ, pos, negsuc}
use tslock.Core.Config.{LockConfiguration, lock_at_most_until, lock_at_least_until}
use tslock.Core.Lock.{LockObject, new_lock}
use tslock.Backend.{IsoDates, or_else, over_at}

pub record HazelcastLockRecord : Type 0 where
  pub lock_until : String
  pub locked_at : String
  pub locked_by : String

pub record HazelcastLockProviderOptions : Type 0 where
  pub lock_store_key_option : Option String
  pub lock_lease_time_option : Option ℕ

pub record ResolvedHazelcastOptions : Type 0 where
  pub lock_store_key : String
  pub lock_lease_time_ms : ℕ

pub resolve_options : HazelcastLockProviderOptions → ResolvedHazelcastOptions
resolve_options options = record {
  lock_store_key = or_else options.lock_store_key_option "shedlock_storage";
  lock_lease_time_ms = or_else options.lock_lease_time_option 30000;
}

-- The methods of the client's map; times are in milliseconds.
pub record Store (W : Type 0) : Type 0 where
  pub lock : String → ℤ → Exec W (Unit {0})
  pub get : String → Exec W (Option HazelcastLockRecord)
  pub put : String → HazelcastLockRecord → ℕ → Exec W (Unit {0})
  pub remove : String → Exec W (Unit {0})
  pub unlock : String → Exec W (Unit {0})

unfoldable pub same_acquisition : Option HazelcastLockRecord → HazelcastLockRecord → Bool
same_acquisition none expected = false
same_acquisition (some existing) expected =
    existing.locked_by == expected.locked_by
    && (existing.locked_at == expected.locked_at && existing.lock_until == expected.lock_until)

-- What acquiring gives: the lock object, and the record that its `unlock` expects.
pub record Acquired : Type 0 where
  pub object : LockObject
  pub record_of : HazelcastLockRecord

abbrev pub acquired : LockConfiguration → HazelcastLockRecord → Acquired
acquired config r = record { object = new_lock config; record_of = r }

-- `until - now`, which may be negative.
abbrev until_from : ℕ → ℕ → ℤ
until_from now until = if leb now until then pos (until - now) else negsuc (now - until - 1)

module _ {W : Type 0} (get_map : Exec W (Store W)) (dates : IsoDates) (hostname : String) where
  -- The `finally` of both methods: what the map's `unlock` throws is dropped.
  abbrev ended : {A : Type 0} → Result A → Result (Unit {0}) × W → Result A × W
  ended r (q, w) = (r, w)

  abbrev after_body : {A : Type 0} → Store W → String → Result A × W → Result A × W
  after_body store name (r, w) = ended r (store.unlock name w)

  abbrev after_lock :
      {A : Type 0} → Store W → String → Exec W A → Result (Unit {0}) × W → Result A × W
  after_lock store name body (throw e, w) = (throw e, w)
  after_lock store name body (ok u, w) = after_body store name (body w)

  unfoldable pub under_store_lock : {A : Type 0} → Store W → String → ℤ → Exec W A → Exec W A
  under_store_lock store name lease body w = after_lock store name body (store.lock name lease w)

  abbrev pub new_record : ℕ → LockConfiguration → HazelcastLockRecord
  new_record now config = record {
    lock_until = dates.to_iso_string (lock_at_most_until config);
    locked_at = dates.to_iso_string now;
    locked_by = hostname;
  }

  unfoldable pub put_new : Store W → ℕ → LockConfiguration → Exec W (Option Acquired)
  put_new store now config =
      store.put config.name (new_record now config) config.lock_at_most_for
      >> pure (some (acquired config (new_record now config)))

  unfoldable pub take_if_over :
      Store W → ℕ → LockConfiguration → Option HazelcastLockRecord → Exec W (Option Acquired)
  take_if_over store now config none w = put_new store now config w
  take_if_over store now config (some existing) w =
      if over_at (dates.parse existing.lock_until) now
      then put_new store now config w
      else (ok none, w)

  unfoldable pub lock : ℕ → LockConfiguration → Exec W (Option Acquired)
  lock now config = get_map >>= λ store.
      under_store_lock store config.name (until_from now (lock_at_most_until config))
        (store.get config.name >>= take_if_over store now config)

  abbrev pub kept_record : HazelcastLockRecord → ℕ → HazelcastLockRecord
  kept_record expected until = record expected { lock_until = dates.to_iso_string until }

  unfoldable pub release_if_same :
      Store W
      → ℕ
      → LockConfiguration
      → HazelcastLockRecord
      → Option HazelcastLockRecord
      → Exec W (Unit {0})
  release_if_same store now config expected existing w =
      if not (same_acquisition existing expected)
      then (ok tt, w)
      else if leb (lock_at_least_until config) now
      then store.remove config.name w
      else store.put config.name (kept_record expected (lock_at_least_until config))
          config.lock_at_least_for w

  unfoldable pub unlock : ℕ → ℕ → LockConfiguration → HazelcastLockRecord → Exec W (Unit {0})
  unlock lock_lease_time_ms now config expected = get_map >>= λ store.
      under_store_lock store config.name (pos lock_lease_time_ms)
        (store.get config.name >>= release_if_same store now config expected)
