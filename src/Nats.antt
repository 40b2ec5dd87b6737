-- ===== src/Nats.antt =====
-- packages/nats/src: the provider over a NATS key-value bucket, whose entries carry a revision, and
-- its lock object. The bucket's four methods are parameters. An entry holds eight bytes.
pub mod Bytes
pub mod Laws
use Prim.Native.Nat.{◌^◌}
use tslock.Prelude.{
  ℕ, zero, suc, ◌+◌, ◌*◌, ◌/◌, ◌%◌, Bool, true, false, ◌||◌, not, String, Option, none, some, List,
  [], ◌∷◌, ◌++◌, Exec, Result, ok, throw, Exception, DriverError, pure, ◌>>=◌, continue, ltb, leb,
  eqb, ◌-◌, and_then, if◌then◌else◌, ◌==◌, number_too_large,
}
use tslock.Prelude.Int.{ℤ, pos, negsuc}
use tslock.Core.Config.{LockConfiguration, lock_at_most_until, lock_at_least_until}
use tslock.Core.Lock.{LockObject, new_lock}
use tslock.Backend.{is_code, on_external, caught, ignored}

-- The digits of `n` to the base 256, `k` of them, the highest first.
unfoldable pub digits : ℕ → ℕ → List ℕ
digits zero n = []
digits (suc k) n = digits k (n / 256) ++ (n % 256 ∷ [])

-- The number that `k` bytes write after `acc`; a read past the end throws.
unfoldable pub read_digits : ℕ → ℕ → List ℕ → Result ℕ
read_digits zero acc bytes = ok acc
read_digits (suc k) acc [] = throw number_too_large
read_digits (suc k) acc (b ∷ bytes) = read_digits k (acc * 256 + b) bytes

-- `writeBigInt64BE`, which throws where the number is out of range.
unfoldable pub long_to_bytes : ℕ → Result (List ℕ)
long_to_bytes n = if ltb n (2 ^ 63) then ok (digits 8 n) else throw number_too_large

abbrev pub signed : ℕ → ℤ
signed n = if ltb n (2 ^ 63) then pos n else negsuc (2 ^ 64 - 1 - n)

-- `readBigInt64BE`
unfoldable pub bytes_to_long : List ℕ → Result ℤ
bytes_to_long bytes = and_then (read_digits 8 0 bytes) λ n. ok (signed n)

pub record Entry : Type 0 where
  pub operation : Option String
  pub value : List ℕ
  pub revision : ℕ

pub record Bucket (W : Type 0) : Type 0 where
  pub get : String → Exec W (Option Entry)
  pub create : String → List ℕ → Exec W (Unit {0})
  pub update : String → List ℕ → ℕ → Exec W (Unit {0})
  pub delete : String → ℕ → Exec W (Unit {0})
  -- `api_error.err_code` of an error, and `includes` of a text.
  pub api_error_code : DriverError → Option ℕ
  pub includes : String → String → Bool

abbrev is_put : Option String → Bool
is_put none = true
is_put (some operation) = operation == "PUT"

-- isDeletedEntry, of an entry that is there.
abbrev pub is_deleted_entry : Entry → Bool
is_deleted_entry entry = not (is_put entry.operation)

-- `bytes_to_long(value) > now`, `≤` being its negation.
abbrev pub long_later : ℤ → ℕ → Bool
long_later (pos until) now = ltb now until
long_later (negsuc n) now = false

abbrev pub is_long : ℤ → ℕ → Bool
is_long (pos m) n = eqb m n
is_long (negsuc m) n = false

module _ {W : Type 0} (kv : Bucket W) where
  unfoldable pub is_nats_conflict_error : Exception → Bool
  is_nats_conflict_error = on_external λ e.
      (is_code e.code 10071 || is_code (kv.api_error_code e) 10071)
      || (kv.includes e.message "stream name already in use"
          || kv.includes e.message "wrong last sequence")

  -- The `try` round a write of `lock`.
  abbrev pub taken : LockConfiguration → Result (Unit {0}) × W → Result (Option LockObject) × W
  taken config (ok u, w) = (ok (some (new_lock config)), w)
  taken config (throw e, w) = if is_nats_conflict_error e then (ok none, w) else (throw e, w)

  unfoldable pub update_unless_later :
      (W → W) → ℕ → LockConfiguration → List ℕ → Entry → ℤ → Exec W (Option LockObject)
  update_unless_later others now config value entry until w =
      if long_later until now
      then (ok none, w)
      else taken config (kv.update config.name value entry.revision (others w))

  unfoldable pub lock_entry :
      (W → W) → ℕ → LockConfiguration → List ℕ → Option Entry → Exec W (Option LockObject)
  lock_entry others now config value none w = taken config (kv.create config.name value (others w))
  lock_entry others now config value (some entry) w =
      if is_deleted_entry entry
      then taken config (kv.create config.name value (others w))
      else continue (bytes_to_long entry.value) (update_unless_later others now config value entry)
          w

  unfoldable pub lock : (W → W) → ℕ → LockConfiguration → Exec W (Option LockObject)
  lock others now config =
      continue (long_to_bytes (lock_at_most_until config))
        λ value. kv.get config.name >>= lock_entry others now config value

  abbrev unless_conflict : Result (Unit {0}) × W → Result (Unit {0}) × W
  unless_conflict (ok u, w) = (ok tt, w)
  unless_conflict (throw e, w) = if is_nats_conflict_error e then (ok tt, w) else (throw e, w)

  unfoldable pub release_if_same : (W → W) → ℕ → LockConfiguration → Entry → ℤ → Exec W (Unit {0})
  release_if_same others now config entry until w =
      if not (is_long until (lock_at_most_until config))
      then (ok tt, w)
      else unless_conflict (
          if ltb now (lock_at_least_until config)
          then continue (long_to_bytes (lock_at_least_until config))
              (λ value. kv.update config.name value entry.revision) (others w)
          else kv.delete config.name entry.revision (others w))

  unfoldable pub unlock_entry : (W → W) → ℕ → LockConfiguration → Option Entry → Exec W (Unit {0})
  unlock_entry others now config none w = (ok tt, w)
  unlock_entry others now config (some entry) w =
      if is_deleted_entry entry
      then (ok tt, w)
      else continue (bytes_to_long entry.value) (release_if_same others now config entry) w

  -- NatsLock
  unfoldable pub do_unlock : (W → W) → ℕ → LockConfiguration → Exec W (Unit {0})
  do_unlock others now config = kv.get config.name >>= unlock_entry others now config
