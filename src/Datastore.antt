-- ===== src/Datastore.antt =====
-- packages/datastore/src: the configuration, and the accessor whose calls each run in a
-- transaction. The client is a parameter; the entity's kind and the names of its fields are fixed,
-- so a key is a lock's name and a field is a component.
pub mod Laws
use tslock.Prelude.{
  ℕ, Bool, true, false, ◌||◌, not, String, Option, none, some, Exec, Result, ok, throw, Exception,
  pure, raise, ◌>>=◌, if◌then◌else◌, ◌==◌, record_not_found, invalid_option,
}
use tslock.Core.Config.{LockConfiguration, lock_at_most_until, unlock_time}
use tslock.Backend.{IsoDates, or_else, is_text, is_code, on_external, later_than, over_at}
use tslock.Backend.Transactions.{RunTransaction}

pub data FieldValue : Type 0 where
  date : ℕ → FieldValue
  text : String → FieldValue

-- `E` is what an entity has beside the three fields.
pub record DatastoreEntity (E : Type 0) : Type 0 where
  pub lock_until : Option FieldValue
  pub locked_at : Option FieldValue
  pub locked_by : Option String
  pub rest : Option E

-- What a transaction does at a key.
pub record Transaction (W E : Type 0) : Type 0 where
  pub get : String → Exec W (Option (DatastoreEntity E))
  pub upsert : String → DatastoreEntity E → W → W
  -- The texts of `message` that stand for no entity: `not found`, `no entity`, `no matching`.
  pub says_not_found : String → Bool

-- `none` is undefined, which a caller may give in place of a name.
pub record DatastoreFieldNames : Type 0 where
  pub lock_until : Option String
  pub locked_at : Option String
  pub locked_by : Option String

-- `none` where the property is not there.
pub record FieldOptions : Type 0 where
  pub lock_until_name : Option (Option String)
  pub locked_at_name : Option (Option String)
  pub locked_by_name : Option (Option String)

pub record DatastoreConfiguration : Type 0 where
  pub entity_name : Option String
  pub field_names : FieldOptions
  pub locked_by_value : Option String
  pub use_date : Option Bool

pub record ResolvedDatastoreConfiguration : Type 0 where
  pub entity_name : String
  pub field_names : DatastoreFieldNames
  pub locked_by_value : String
  pub use_date : Bool

pub merge_field_names : FieldOptions → DatastoreFieldNames
merge_field_names names = record {
  lock_until = or_else names.lock_until_name (some "lockUntil");
  locked_at = or_else names.locked_at_name (some "lockedAt");
  locked_by = or_else names.locked_by_name (some "lockedBy");
}

unfoldable pub resolve_datastore_configuration :
    String → DatastoreConfiguration → Result ResolvedDatastoreConfiguration
unfolding merge_field_names
resolve_datastore_configuration hostname input =
    let entity_name = or_else input.entity_name "shedlock" in
    let merged = merge_field_names input.field_names in
    if entity_name == ""
    then throw invalid_option
    else if is_text merged.lock_until ""
        || (is_text merged.locked_at "" || is_text merged.locked_by "")
    then throw invalid_option
    else ok (record {
      entity_name = entity_name;
      field_names = merged;
      locked_by_value = or_else input.locked_by_value hostname;
      use_date = or_else input.use_date false;
    })

module _ {W E : Type 0} (run : RunTransaction W) (txn : Transaction W E) (dates : IsoDates)
    (locked_by_value : String) (use_date : Bool) where
  unfoldable pub is_not_found : Exception → Bool
  is_not_found = on_external λ e. is_code e.code 5 || txn.says_not_found e.message

  abbrev pub to_field_value : ℕ → FieldValue
  to_field_value epoch_millis =
      if use_date then date epoch_millis else text (dates.to_iso_string epoch_millis)

  -- `none` for NaN.
  abbrev pub parse_field_value : Option FieldValue → Option ℕ
  parse_field_value none = none
  parse_field_value (some (date ms)) = some ms
  parse_field_value (some (text s)) = dates.parse s

  abbrev pub to_data : ℕ → LockConfiguration → DatastoreEntity E
  to_data locked_at config = record {
    lock_until = some (to_field_value (lock_at_most_until config));
    locked_at = some (to_field_value locked_at);
    locked_by = some locked_by_value;
    rest = none;
  }

  abbrev absent_or_thrown :
      Result (Option (DatastoreEntity E)) × W → Result (Option (DatastoreEntity E)) × W
  absent_or_thrown (ok o, w) = (ok o, w)
  absent_or_thrown (throw e, w) = if is_not_found e then (ok none, w) else (throw e, w)

  unfoldable pub safe_get : String → Exec W (Option (DatastoreEntity E))
  safe_get key w = absent_or_thrown (txn.get key w)

  abbrev pub upsert : {A : Type 0} → String → DatastoreEntity E → A → Exec W A
  upsert key entity answer w = (ok answer, txn.upsert key entity w)

  unfoldable pub insert_if_absent : ℕ → LockConfiguration → Option (DatastoreEntity E) → Exec W Bool
  insert_if_absent locked_at config (some existing) = pure false
  insert_if_absent locked_at config none = upsert config.name (to_data locked_at config) true

  unfoldable pub insert_record : (W → W) → ℕ → LockConfiguration → Exec W Bool
  insert_record others locked_at config =
      run Bool others (safe_get config.name >>= insert_if_absent locked_at config)

  unfoldable pub update_if_over :
      ℕ → ℕ → LockConfiguration → Option (DatastoreEntity E) → Exec W Bool
  update_if_over now locked_at config none = raise record_not_found
  update_if_over now locked_at config (some existing) =
      if later_than (parse_field_value existing.lock_until) now
      then pure false
      else upsert config.name (to_data locked_at config) true

  unfoldable pub update_record : (W → W) → ℕ → ℕ → LockConfiguration → Exec W Bool
  update_record others now locked_at config =
      run Bool others (safe_get config.name >>= update_if_over now locked_at config)

  unfoldable pub unlock_if_owned :
      ℕ → LockConfiguration → Option (DatastoreEntity E) → Exec W (Unit {0})
  unlock_if_owned now config none = pure tt
  unlock_if_owned now config (some existing) =
      if not (is_text existing.locked_by locked_by_value)
      then pure tt
      else if not (is_code (parse_field_value existing.lock_until) (lock_at_most_until config))
      then pure tt
      else upsert config.name
          (record existing { lock_until = some (to_field_value (unlock_time now config)) }) tt

  unfoldable pub unlock : (W → W) → ℕ → LockConfiguration → Exec W (Unit {0})
  unlock others now config =
      run (Unit {0}) others (safe_get config.name >>= unlock_if_owned now config)

  unfoldable pub extend_if_owned :
      ℕ → LockConfiguration → ℕ → Option (DatastoreEntity E) → Exec W Bool
  extend_if_owned now config previous none = pure false
  extend_if_owned now config previous (some existing) =
      if not (is_text existing.locked_by locked_by_value)
      then pure false
      else if not (is_code (parse_field_value existing.lock_until) previous)
          || over_at (parse_field_value existing.lock_until) now
      then pure false
      else upsert config.name
          (record existing { lock_until = some (to_field_value (lock_at_most_until config)) }) true

  unfoldable pub extend : (W → W) → ℕ → LockConfiguration → Option ℕ → Exec W Bool
  extend others now config none = pure false
  extend others now config (some previous) =
      run Bool others (safe_get config.name >>= extend_if_owned now config previous)
