-- ===== src/S3.antt =====
-- packages/s3/src/s3-storage-accessor.ts and s3-errors.ts. The client's two commands and
-- `JSON.stringify` are parameters; `others` is what happens to the bucket between an operation's
-- read and its write.
pub mod Laws
use Prim.Native.String.{◌++◌}
use tslock.Prelude.{
  ℕ, Bool, true, false, ◌||◌, not, String, Option, none, some, Table, Exec, Result, ok, throw,
  Exception, pure, raise, ◌>>=◌, ◌>>◌, try_catch, handle, continue, DriverError, external,
  record_not_found, bucket_required, ◌==◌, corrupted_record, ◌==◌, ltb, leb, if◌then◌else◌,
}
use tslock.Core.Config.{LockConfiguration, lock_at_most_until, unlock_time}
use tslock.Core.Storage.{StorageAccessor}
use tslock.Backend.{
  IsoDates, parse_lock_text, or_else, differs, is_text, is_code, on_external, caught, ignored,
}

abbrev pub Metadata : Type 0
Metadata = Table String

pub record S3ProviderConfig : Type 0 where
  pub bucket : String
  pub prefix : String

pub create_s3_provider_config : String → Option String → Result S3ProviderConfig
create_s3_provider_config bucket prefix =
    if bucket == ""
    then throw bucket_required
    else ok (record { bucket = bucket; prefix = or_else prefix "shedlock/" })

-- The three entries that the accessor writes.
pub record LockRecord : Type 0 where
  pub lock_until : String
  pub locked_at : String
  pub locked_by : String

-- `PutObjectCommand`'s `IfNoneMatch: '*'` and `IfMatch: etag`.
pub data Condition : Type 0 where
  if_none_match : Condition
  if_match : String → Condition

pub record S3Client (W : Type 0) : Type 0 where
  pub head_object : String → Exec W (String × Metadata)
  pub put_object : String → String → LockRecord → Condition → Exec W (Unit {0})

-- `metadata[key] ?? metadata[key.toLowerCase()]`
pub get_metadata_value : Metadata → String → String → Option String
get_metadata_value metadata key lower = elim (metadata key) [
  | none ↦ metadata lower
  | some v ↦ some v
]

unfoldable pub lock_until_of : Metadata → Option String
unfolding get_metadata_value
lock_until_of m = get_metadata_value m "lockUntil" "lockuntil"

unfoldable pub locked_at_of : Metadata → Option String
unfolding get_metadata_value
locked_at_of m = get_metadata_value m "lockedAt" "lockedat"

unfoldable pub locked_by_of : Metadata → Option String
unfolding get_metadata_value
locked_by_of m = get_metadata_value m "lockedBy" "lockedby"

unfoldable pub is_not_found : Exception → Bool
is_not_found =
    on_external λ e. is_text e.name "NotFound" || is_text e.name "NoSuchKey" || is_code e.code 404

unfoldable pub is_conditional_write_failed : Exception → Bool
is_conditional_write_failed = on_external λ e.
    is_text e.name "PreconditionFailed"
    || is_text e.name "ConditionalRequestConflict"
    || is_text e.name "Conflict"
    || is_code e.code 412
    || is_code e.code 409

-- `body` is `JSON.stringify` of the record; `hostname` is `Utils.getHostname()`.
module _ {W : Type 0} (s3 : S3Client W) (dates : IsoDates) (body : LockRecord → String)
    (object_prefix hostname : String) where
  open dates use {to_iso_string}

  abbrev pub object_key : String → String
  object_key name = object_prefix ++ name

  -- `null` where the object is not there.
  abbrev pub headed : Result (String × Metadata) × W → Result (Option (String × Metadata)) × W
  headed (ok h, w) = (ok (some h), w)
  headed (throw e, w) = if is_not_found e then (ok none, w) else (throw e, w)

  unfoldable pub head_object : String → Exec W (Option (String × Metadata))
  head_object name w = headed (s3.head_object (object_key name) w)

  unfoldable pub parse_lock_until : Metadata → Result ℕ
  parse_lock_until metadata = parse_lock_text dates (lock_until_of metadata)

  abbrev pub build_metadata : LockConfiguration → LockRecord
  build_metadata config = record {
    lock_until = to_iso_string (lock_at_most_until config);
    locked_at = to_iso_string config.created_at;
    locked_by = hostname;
  }

  -- The record with a new end, and what is not in the metadata filled in.
  abbrev pub redated : ℕ → LockConfiguration → Metadata → LockRecord
  redated until config metadata = record {
    lock_until = to_iso_string until;
    locked_at = or_else (locked_at_of metadata) (to_iso_string config.created_at);
    locked_by = or_else (locked_by_of metadata) hostname;
  }

  unfoldable pub put_record : String → LockRecord → Condition → Exec W Bool
  put_record name r condition w =
      caught is_conditional_write_failed (s3.put_object (object_key name) (body r) r condition w)

  unfoldable pub insert_record : (W → W) → LockConfiguration → Exec W Bool
  insert_record others config = head_object config.name >>= λ head. elim head [
    | none ↦ λ w. put_record config.name (build_metadata config) if_none_match (others w)
    | some h ↦ pure false
  ]

  -- After the head of `updateRecord`, `unlock` and `extend`.
  unfoldable pub update_if_over : (W → W) → ℕ → LockConfiguration → String → Result ℕ → Exec W Bool
  update_if_over others now config etag (throw e) w = (throw e, w)
  update_if_over others now config etag (ok lock_until) w =
      if ltb now lock_until
      then (ok false, w)
      else put_record config.name (build_metadata config) (if_match etag) (others w)

  unfoldable pub update_record : (W → W) → ℕ → LockConfiguration → Exec W Bool
  update_record others now config = head_object config.name >>= λ head. elim head [
    | none ↦ raise record_not_found
    | some h ↦ update_if_over others now config h.0 (parse_lock_until h.1)
  ]

  unfoldable pub unlock_if_owned :
      (W → W) → ℕ → LockConfiguration → String → Metadata → Exec W (Unit {0})
  unlock_if_owned others now config etag metadata w =
      if not (is_text (locked_by_of metadata) hostname)
      then (ok tt, w)
      else if not (is_text (lock_until_of metadata) (to_iso_string (lock_at_most_until config)))
      then (ok tt, w)
      else ignored (
          put_record config.name (redated (unlock_time now config) config metadata) (if_match etag)
            (others w))

  unfoldable pub unlock : (W → W) → ℕ → LockConfiguration → Exec W (Unit {0})
  unlock others now config = head_object config.name >>= λ head. elim head [
    | none ↦ pure tt
    | some h ↦ unlock_if_owned others now config h.0 h.1
  ]

  unfoldable pub extend_if_owned :
      (W → W) → ℕ → LockConfiguration → Option ℕ → String → Metadata → Result ℕ → Exec W Bool
  extend_if_owned others now config previous etag metadata (throw e) w = (throw e, w)
  extend_if_owned others now config previous etag metadata (ok lock_until) w =
      if not (is_text (locked_by_of metadata) hostname)
      then (ok false, w)
      else if leb lock_until now
      then (ok false, w)
      else if differs dates previous (lock_until_of metadata)
      then (ok false, w)
      else put_record config.name (redated (lock_at_most_until config) config metadata)
          (if_match etag) (others w)

  unfoldable pub extend : (W → W) → ℕ → LockConfiguration → Option ℕ → Exec W Bool
  extend others now config previous = head_object config.name >>= λ head. elim head [
    | none ↦ pure false
    | some h ↦ extend_if_owned others now config previous h.0 h.1 (parse_lock_until h.1)
  ]
