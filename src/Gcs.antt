-- ===== src/Gcs.antt =====
-- packages/gcs/src/gcs-storage-accessor.ts and gcs-errors.ts. The client's calls on a file are
-- parameters; a version is the pair of generation and metageneration. `others` is what happens to
-- the bucket between an operation's read and its write.
pub mod Laws
use Prim.Native.String.{◌++◌}
use tslock.Prelude.{
  ℕ, Bool, true, false, not, String, Option, none, some, Exec, Result, ok, throw, Exception, pure,
  raise, ◌>>=◌, continue, record_not_found, bucket_required, ◌==◌, ltb, leb, if◌then◌else◌,
}
use tslock.Core.Config.{LockConfiguration, lock_at_most_until, unlock_time}
use tslock.Backend.{
  IsoDates, parse_lock_text, is_text, is_code, on_external, caught, ignored, or_else, differs,
}

pub record GcsProviderConfig : Type 0 where
  pub bucket : String
  pub prefix : String
  pub locked_by_name : String

-- The last argument is `Utils.getHostname()`.
pub create_gcs_provider_config :
    String → Option String → Option String → String → Result GcsProviderConfig
create_gcs_provider_config bucket prefix locked_by hostname =
    if bucket == ""
    then throw bucket_required
    else ok (record {
      bucket = bucket;
      prefix = or_else prefix "shedlock/";
      locked_by_name = or_else locked_by hostname;
    })

-- The object's own metadata.
pub record Metadata : Type 0 where
  pub lock_until : Option String
  pub locked_at : Option String
  pub locked_by : Option String
  pub lock_name : Option String

abbrev pub Version : Type 0
Version = ℕ × ℕ

-- `none` in `save` is `ifGenerationMatch: 0`, no object.
pub record GcsClient (W : Type 0) : Type 0 where
  pub exists : String → Exec W Bool
  pub get_metadata : String → Exec W (Version × Metadata)
  pub save : String → Metadata → Option Version → Exec W (Unit {0})
  pub set_metadata : String → Metadata → Version → Exec W (Unit {0})

unfoldable pub is_not_found : Exception → Bool
is_not_found = on_external λ e. is_code e.code 404

unfoldable pub is_precondition_failed : Exception → Bool
is_precondition_failed = on_external λ e. is_code e.code 412

-- `null` where the object is not there.
abbrev pub gotten :
    {W : Type 0} → Result (Version × Metadata) × W → Result (Option (Version × Metadata)) × W
gotten (ok h, w) = (ok (some h), w)
gotten (throw e, w) = if is_not_found e then (ok none, w) else (throw e, w)

-- `locked_by` is the configuration's own entry.
module _ {W : Type 0} (gcs : GcsClient W) (dates : IsoDates)
    (object_prefix locked_by : String) where
  open dates use {to_iso_string}

  abbrev pub object_key : String → String
  object_key name = object_prefix ++ name

  unfoldable pub get_with_metadata : String → Exec W (Option (Version × Metadata))
  get_with_metadata name w = gotten (gcs.get_metadata (object_key name) w)

  abbrev pub build_metadata : LockConfiguration → Metadata
  build_metadata config = record {
    lock_until = some (to_iso_string (lock_at_most_until config));
    locked_at = some (to_iso_string config.created_at);
    locked_by = some locked_by;
    lock_name = some config.name;
  }

  unfoldable pub save : String → Metadata → Option Version → Exec W Bool
  save name m condition w = caught is_precondition_failed (gcs.save (object_key name) m condition w)

  unfoldable pub set_metadata : String → Metadata → Version → Exec W Bool
  set_metadata name m version w =
      caught is_precondition_failed (gcs.set_metadata (object_key name) m version w)

  unfoldable pub insert_record : (W → W) → LockConfiguration → Exec W Bool
  insert_record others config = gcs.exists (object_key config.name) >>= λ exists. elim exists [
    | true ↦ pure false
    | false ↦ λ w. save config.name (build_metadata config) none (others w)
  ]

  -- After the reads of `updateRecord`, `unlock` and `extend`.
  unfoldable pub update_if_over : (W → W) → ℕ → LockConfiguration → Version → Result ℕ → Exec W Bool
  update_if_over others now config version (throw e) w = (throw e, w)
  update_if_over others now config version (ok lock_until) w =
      if ltb now lock_until
      then (ok false, w)
      else save config.name (build_metadata config) (some version) (others w)

  unfoldable pub update_record : (W → W) → ℕ → LockConfiguration → Exec W Bool
  update_record others now config = get_with_metadata config.name >>= λ current. elim current [
    | none ↦ raise record_not_found
    | some h ↦ update_if_over others now config h.0 (parse_lock_text dates h.1.lock_until)
  ]

  abbrev pub released : ℕ → LockConfiguration → Metadata → Metadata
  released until config m = record {
    lock_until = some (to_iso_string until);
    locked_at = some (or_else m.locked_at (to_iso_string config.created_at));
    locked_by = some (or_else m.locked_by locked_by);
    lock_name = some (or_else m.lock_name config.name);
  }

  unfoldable pub unlock_if_owned :
      (W → W) → ℕ → LockConfiguration → Version → Metadata → Exec W (Unit {0})
  unlock_if_owned others now config version m w =
      if not (is_text m.locked_by locked_by)
      then (ok tt, w)
      else if not (is_text m.lock_until (to_iso_string (lock_at_most_until config)))
      then (ok tt, w)
      else ignored
          (set_metadata config.name (released (unlock_time now config) config m) version (others w))

  unfoldable pub unlock : (W → W) → ℕ → LockConfiguration → Exec W (Unit {0})
  unlock others now config = get_with_metadata config.name >>= λ current. elim current [
    | none ↦ pure tt
    | some h ↦ unlock_if_owned others now config h.0 h.1
  ]

  unfoldable pub extend_if_owned :
      (W → W) → ℕ → LockConfiguration → Option ℕ → Version → Metadata → Result ℕ → Exec W Bool
  extend_if_owned others now config previous version m (throw e) w = (throw e, w)
  extend_if_owned others now config previous version m (ok lock_until) w =
      if not (is_text m.locked_by locked_by)
      then (ok false, w)
      else if leb lock_until now
      then (ok false, w)
      else if differs dates previous m.lock_until
      then (ok false, w)
      else set_metadata config.name
          (record m { lock_until = some (to_iso_string (lock_at_most_until config)) }) version
          (others w)

  unfoldable pub extend : (W → W) → ℕ → LockConfiguration → Option ℕ → Exec W Bool
  extend others now config previous = get_with_metadata config.name >>= λ current. elim current [
    | none ↦ pure false
    | some h ↦
        extend_if_owned others now config previous h.0 h.1 (parse_lock_text dates h.1.lock_until)
  ]
