-- ===== src/Firestore.antt =====
-- packages/firestore/src: the configuration, and the accessor whose calls each run in a
-- transaction. The client is a parameter; the collection and the names of the fields are fixed,
-- so a reference is a lock's name and a field is a component.
pub mod Laws
use tslock.Prelude.{
  ℕ, Bool, true, false, ◌||◌, not, String, Option, none, some, Exec, Result, ok, throw, Exception,
  pure, raise, ◌>>=◌, if◌then◌else◌, ◌==◌, record_not_found, invalid_option,
}
use tslock.Core.Config.{LockConfiguration, lock_at_most_until, unlock_time}
use tslock.Backend.{IsoDates, or_else, is_text, is_code, on_external, later_than, over_at}
use tslock.Backend.Transactions.{RunTransaction}

pub data FieldValue : Type 0 where
  timestamp : ℕ → FieldValue
  text : String → FieldValue

-- `E` is what a document has beside the three fields.
pub record FirestoreDocument (E : Type 0) : Type 0 where
  pub lock_until : Option FieldValue
  pub locked_at : Option FieldValue
  pub locked_by : Option String
  pub rest : Option E

-- The fields that a call sets.
pub record FieldData : Type 0 where
  pub lock_until_value : FieldValue
  pub locked_at_value : Option FieldValue
  pub locked_by_text : Option String

-- What a transaction does at a reference; `get` gives nothing where the snapshot does not exist.
pub record Transaction (W E : Type 0) : Type 0 where
  pub get : String → Exec W (Option (FirestoreDocument E))
  pub create : String → FieldData → W → W
  pub update : String → FieldData → W → W

-- `none` is undefined, which a caller may give in place of a name.
pub record FirestoreFieldNames : Type 0 where
  pub lock_until : Option String
  pub locked_at : Option String
  pub locked_by : Option String

-- `none` where the property is not there.
pub record FieldOptions : Type 0 where
  pub lock_until_name : Option (Option String)
  pub locked_at_name : Option (Option String)
  pub locked_by_name : Option (Option String)

pub record FirestoreConfiguration : Type 0 where
  pub collection_name : Option String
  pub field_names : FieldOptions
  pub locked_by_value : Option String
  pub use_timestamps : Option Bool

pub record ResolvedFirestoreConfiguration : Type 0 where
  pub collection_name : String
  pub field_names : FirestoreFieldNames
  pub locked_by_value : String
  pub use_timestamps : Bool

pub merge_field_names : FieldOptions → FirestoreFieldNames
merge_field_names names = record {
  lock_until = or_else names.lock_until_name (some "lockUntil");
  locked_at = or_else names.locked_at_name (some "lockedAt");
  locked_by = or_else names.locked_by_name (some "lockedBy");
}

unfoldable pub resolve_firestore_configuration :
    String → FirestoreConfiguration → Result ResolvedFirestoreConfiguration
unfolding merge_field_names
resolve_firestore_configuration hostname input =
    let collection_name = or_else input.collection_name "shedlock" in
    let merged = merge_field_names input.field_names in
    if collection_name == ""
    then throw invalid_option
    else if is_text merged.lock_until ""
        || (is_text merged.locked_at "" || is_text merged.locked_by "")
    then throw invalid_option
    else ok (record {
      collection_name = collection_name;
      field_names = merged;
      locked_by_value = or_else input.locked_by_value hostname;
      use_timestamps = or_else input.use_timestamps false;
    })

module _ {W E : Type 0} (run : RunTransaction W) (txn : Transaction W E) (dates : IsoDates)
    (locked_by_value : String) (use_timestamps : Bool) where
  abbrev pub to_field_value : ℕ → FieldValue
  to_field_value epoch_millis =
      if use_timestamps then timestamp epoch_millis else text (dates.to_iso_string epoch_millis)

  -- `none` for NaN.
  abbrev pub to_millis : Option FieldValue → Option ℕ
  to_millis none = none
  to_millis (some (timestamp ms)) = some ms
  to_millis (some (text s)) = dates.parse s

  abbrev pub to_data : ℕ → LockConfiguration → FieldData
  to_data locked_at config = record {
    lock_until_value = to_field_value (lock_at_most_until config);
    locked_at_value = some (to_field_value locked_at);
    locked_by_text = some locked_by_value;
  }

  abbrev pub lock_until_data : ℕ → FieldData
  lock_until_data until = record {
    lock_until_value = to_field_value until;
    locked_at_value = none;
    locked_by_text = none;
  }

  unfoldable pub insert_if_absent :
      ℕ → LockConfiguration → Option (FirestoreDocument E) → Exec W Bool
  insert_if_absent locked_at config (some snap) w = (ok false, w)
  insert_if_absent locked_at config none w =
      (ok true, txn.create config.name (to_data locked_at config) w)

  unfoldable pub insert_record : (W → W) → ℕ → LockConfiguration → Exec W Bool
  insert_record others locked_at config =
      run Bool others (txn.get config.name >>= insert_if_absent locked_at config)

  unfoldable pub update_if_over :
      ℕ → ℕ → LockConfiguration → Option (FirestoreDocument E) → Exec W Bool
  update_if_over now locked_at config none w = (throw record_not_found, w)
  update_if_over now locked_at config (some snap) w =
      if later_than (to_millis snap.lock_until) now
      then (ok false, w)
      else (ok true, txn.update config.name (to_data locked_at config) w)

  unfoldable pub update_record : (W → W) → ℕ → ℕ → LockConfiguration → Exec W Bool
  update_record others now locked_at config =
      run Bool others (txn.get config.name >>= update_if_over now locked_at config)

  unfoldable pub unlock_if_owned :
      ℕ → LockConfiguration → Option (FirestoreDocument E) → Exec W (Unit {0})
  unlock_if_owned now config none w = (ok tt, w)
  unlock_if_owned now config (some snap) w =
      if not (is_text snap.locked_by locked_by_value)
      then (ok tt, w)
      else if not (is_code (to_millis snap.lock_until) (lock_at_most_until config))
      then (ok tt, w)
      else (ok tt, txn.update config.name (lock_until_data (unlock_time now config)) w)

  unfoldable pub unlock : (W → W) → ℕ → LockConfiguration → Exec W (Unit {0})
  unlock others now config =
      run (Unit {0}) others (txn.get config.name >>= unlock_if_owned now config)

  unfoldable pub extend_if_owned :
      ℕ → LockConfiguration → ℕ → Option (FirestoreDocument E) → Exec W Bool
  extend_if_owned now config previous none w = (ok false, w)
  extend_if_owned now config previous (some snap) w =
      if not (is_text snap.locked_by locked_by_value)
      then (ok false, w)
      else if not (is_code (to_millis snap.lock_until) previous)
          || over_at (to_millis snap.lock_until) now
      then (ok false, w)
      else (ok true, txn.update config.name (lock_until_data (lock_at_most_until config)) w)

  unfoldable pub extend : (W → W) → ℕ → LockConfiguration → Option ℕ → Exec W Bool
  extend others now config none = pure false
  extend others now config (some previous) =
      run Bool others (txn.get config.name >>= extend_if_owned now config previous)
