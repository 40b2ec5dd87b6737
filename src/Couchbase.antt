-- ===== src/Couchbase.antt =====
-- packages/couchbase/src: the accessor over a collection whose documents carry a CAS value. The
-- client's three calls and its error classes are parameters. A document has the four columns of
-- the options, and whatever else it had is `rest`. `others` is what happens to the collection
-- between an operation's read and its write.
pub mod Laws
use Prim.Native.String
use Prim.Native.String.{◌++◌}
use tslock.Prelude.{
  ℕ, Bool, true, false, ◌||◌, not, String, Option, none, some, Exec, Result, ok, throw, Exception,
  DriverError, pure, ◌>>=◌, continue, document_id_too_long, ltb, leb, eqb, if◌then◌else◌, ◌==◌,
}
use tslock.Core.Config.{LockConfiguration, lock_at_most_until, unlock_time}
use tslock.Backend.{later_than, over_at, or_else, is_text, is_code, on_external, caught, ignored}

-- `D` is what a document has beside the columns.
pub record Document (D : Type 0) : Type 0 where
  pub name : Option String
  pub lock_until : Option ℕ
  pub locked_at : Option ℕ
  pub locked_by : Option String
  pub rest : Option D

pub record Collection (W Cas D : Type 0) : Type 0 where
  pub insert : String → Document D → Exec W (Unit {0})
  pub get_document : String → Exec W (Cas × Document D)
  pub replace : String → Document D → Cas → Exec W (Unit {0})
  -- `instanceof` DocumentExistsError, CasMismatchError and DocumentNotFoundError.
  pub is_exists_error : DriverError → Bool
  pub is_cas_mismatch : DriverError → Bool
  pub is_not_found_error : DriverError → Bool

pub record CouchbaseColumnNames : Type 0 where
  pub name_column : Option String
  pub lock_until_column : Option String
  pub locked_at_column : Option String
  pub locked_by_column : Option String

pub record CouchbaseLockProviderOptions : Type 0 where
  pub document_id_prefix : Option String
  pub column_names : Option CouchbaseColumnNames
  pub locked_by_option : Option String

pub record ResolvedOptions : Type 0 where
  pub id_prefix : String
  pub name_col : String
  pub lock_until_col : String
  pub locked_at_col : String
  pub locked_by_col : String
  pub locked_by : String

abbrev no_names : CouchbaseColumnNames
no_names = record {
  name_column = none;
  lock_until_column = none;
  locked_at_column = none;
  locked_by_column = none;
}

-- The options with the defaults filled in.
pub resolve_options : CouchbaseLockProviderOptions → ResolvedOptions
resolve_options options =
    let c = or_else options.column_names no_names in
    record {
      id_prefix = or_else options.document_id_prefix "shedlock:";
      name_col = or_else c.name_column "name";
      lock_until_col = or_else c.lock_until_column "lockUntil";
      locked_at_col = or_else c.locked_at_column "lockedAt";
      locked_by_col = or_else c.locked_by_column "lockedBy";
      locked_by = or_else options.locked_by_option "unknown";
    }

-- The constructor's `lockedByValue`.
unfoldable pub locked_by_value : String → String → String
locked_by_value option hostname = if option == "unknown" then hostname else option

abbrev pub build_document_id : String → String → Result String
build_document_id prefix name =
    if ltb 250 (String.len (prefix ++ name))
    then throw document_id_too_long
    else ok (prefix ++ name)

abbrev pub is_number : Option ℕ → ℕ → Bool
is_number = is_code

module _ {W Cas D : Type 0} (collection : Collection W Cas D) (prefix locked_by : String) where
  abbrev pub doc_id : String → Result String
  doc_id name = build_document_id prefix name

  abbrev pub new_document : LockConfiguration → ℕ → Document D
  new_document config locked_at = record {
    name = some config.name;
    lock_until = some (lock_at_most_until config);
    locked_at = some locked_at;
    locked_by = some locked_by;
    rest = none;
  }

  unfoldable pub insert_record : ℕ → LockConfiguration → Exec W Bool
  insert_record locked_at config = continue (doc_id config.name) λ id w.
      caught (on_external collection.is_exists_error)
        (collection.insert id (new_document config locked_at) w)

  unfoldable pub replace : String → Document D → Cas → Exec W Bool
  replace id document cas w =
      caught (on_external collection.is_cas_mismatch) (collection.replace id document cas w)

  unfoldable pub update_if_over :
      (W → W) → ℕ → ℕ → LockConfiguration → String → Cas × Document D → Exec W Bool
  update_if_over others now locked_at config id (cas, existing) w =
      if later_than existing.lock_until now
      then (ok false, w)
      else replace id (new_document config locked_at) cas (others w)

  -- An absent document is an error here.
  unfoldable pub update_record : (W → W) → ℕ → ℕ → LockConfiguration → Exec W Bool
  update_record others now locked_at config =
      continue (doc_id config.name)
        λ id. collection.get_document id >>= update_if_over others now locked_at config id

  -- `none` where the document is not there.
  abbrev pub gotten : Result (Cas × Document D) × W → Result (Option (Cas × Document D)) × W
  gotten (ok h, w) = (ok (some h), w)
  gotten (throw e, w) =
      if on_external collection.is_not_found_error e then (ok none, w) else (throw e, w)

  unfoldable pub find : String → Exec W (Option (Cas × Document D))
  find id w = gotten (collection.get_document id w)

  unfoldable pub unlock_if_owned :
      (W → W) → ℕ → LockConfiguration → String → Cas × Document D → Exec W (Unit {0})
  unlock_if_owned others now config id (cas, existing) w =
      if not (is_text existing.locked_by locked_by)
      then (ok tt, w)
      else if not (is_number existing.lock_until (lock_at_most_until config))
      then (ok tt, w)
      else ignored (
          replace id (record existing { lock_until = some (unlock_time now config) }) cas
            (others w))

  abbrev unlock_found :
      (W → W) → ℕ → LockConfiguration → String → Option (Cas × Document D) → Exec W (Unit {0})
  unlock_found others now config id none = pure tt
  unlock_found others now config id (some h) = unlock_if_owned others now config id h

  unfoldable pub unlock : (W → W) → ℕ → LockConfiguration → Exec W (Unit {0})
  unlock others now config =
      continue (doc_id config.name) λ id. find id >>= unlock_found others now config id

  unfoldable pub extend_if_owned :
      (W → W) → ℕ → LockConfiguration → ℕ → String → Cas × Document D → Exec W Bool
  extend_if_owned others now config previous id (cas, existing) w =
      if not (is_text existing.locked_by locked_by)
      then (ok false, w)
      else if not (is_number existing.lock_until previous) || over_at existing.lock_until now
      then (ok false, w)
      else replace id (record existing { lock_until = some (lock_at_most_until config) }) cas
          (others w)

  abbrev extend_found :
      (W → W) → ℕ → LockConfiguration → ℕ → String → Option (Cas × Document D) → Exec W Bool
  extend_found others now config previous id none = pure false
  extend_found others now config previous id (some h) =
      extend_if_owned others now config previous id h

  unfoldable pub extend : (W → W) → ℕ → LockConfiguration → Option ℕ → Exec W Bool
  extend others now config none = pure false
  extend others now config (some previous) =
      continue (doc_id config.name) λ id. find id >>= extend_found others now config previous id
