-- ===== src/Tests/Accessors.antt =====
-- Concrete stores and clients for the theorems on the storage accessors.
use tslock.Core.Config.{LockConfiguration}
use tslock.Core.Contract.{Rely, Rely-refl}
use tslock.Core.Contract.Exclusion.{grants, Disjoint}
use tslock.Core.Storage.Laws.{provider_grants-Disjoint}
use tslock.Prelude.{
  List, [], ◌∷◌, empty, sym, ap, ◌∙◌, ℕ, ◌≡◌, refl, Bool, true, false, String, Option, none, some,
  Table, Exec, ok, arith, eqb, Exception, external, DriverError, ◌&&◌,
}
use tslock.Core.Storage.Contract.{AccessorContract}
use tslock.Core.Storage.Laws.{stored_until, decided_at}
use tslock.Core.Storage
use tslock.Backend.{Turn, Put, is_text}
use tslock.Couchbase
use tslock.Couchbase.Laws.{couchbase-AccessorContract, CollectionLaws}
use tslock.Gcs
use tslock.Gcs.Laws.{gcs-AccessorContract, GcsLaws}
use tslock.Tests.Versions.{
  object_in, get_in, insert_in, replace_in, get_in-Got, insert_in-Put, replace_in-Put,
}
use tslock.S3.Laws.{view, accessor, s3-AccessorContract}
use tslock.Tests.Memory.{tallies, Bucket, bucket, object, bucket-S3Laws}

abbrev until_in_bucket : Bucket → String → ℕ
until_in_bucket = view bucket tallies (λ r. "") "locks/" "host" object bucket-S3Laws

abbrev turn_now : Turn object (Rely until_in_bucket) → ℕ
turn_now t = t.now

abbrev bucket_accessor : Storage.StorageAccessor Bucket (Turn object (Rely until_in_bucket))
bucket_accessor =
    accessor bucket tallies (λ r. "") "locks/" "host" object bucket-S3Laws (Rely until_in_bucket)
      (Rely-refl until_in_bucket)

s3-AccessorContract_example : AccessorContract until_in_bucket turn_now bucket_accessor
s3-AccessorContract_example =
    s3-AccessorContract bucket tallies (λ r. "") "locks/" "host" object bucket-S3Laws
      (Rely until_in_bucket) (Rely-refl until_in_bucket)

abbrev one_version : Gcs.Version
one_version = (1, 1)

abbrev http : ℕ → Exception
http code = external (record { name = none; code = some code; message = "" })

abbrev is_first : Gcs.Version → Bool
is_first (g, m) = eqb g 1 && eqb m 1

is_first-eq : (x : Gcs.Version) → is_first x ≡ true → x ≡ (1, 1)
is_first-eq (g, m) h = ground arith

abbrev file_at : Table Gcs.Metadata → String → Option (Gcs.Version × Gcs.Metadata)
file_at = object_in one_version (http 412) (http 404)

abbrev save_file : String → Gcs.Metadata → Option Gcs.Version → Exec (Table Gcs.Metadata) (Unit {0})
save_file key m none = insert_in one_version (http 412) (http 404) key m
save_file key m (some x) = replace_in one_version (http 412) (http 404) is_first is_first-eq key m x

abbrev is_there : Option Gcs.Metadata → Bool
is_there none = false
is_there (some m) = true

abbrev files : Gcs.GcsClient (Table Gcs.Metadata)
files = record {
  exists = λ key w. (ok (is_there (w key)), w);
  get_metadata = get_in one_version (http 412) (http 404);
  save = save_file;
  set_metadata = λ key m x. save_file key m (some x);
}

save_file-Put :
    (key : String) (m : Gcs.Metadata) (condition : Option Gcs.Version) (w : Table Gcs.Metadata)
    → Put file_at Gcs.is_precondition_failed w
        (save_file key m condition w).1
        key
        condition
        m
        (save_file key m condition w).0
save_file-Put key m none w =
    insert_in-Put one_version (http 412) (http 404) Gcs.is_precondition_failed key m w
save_file-Put key m (some x) w =
    replace_in-Put one_version (http 412) (http 404) is_first is_first-eq Gcs.is_precondition_failed
      key m x w

files-GcsLaws : GcsLaws file_at files
files-GcsLaws = record {
  looks = λ key w. refl;
  gets = get_in-Got one_version (http 412) (http 404) Gcs.is_not_found;
  saves = save_file-Put;
  sets = λ key m x w. save_file-Put key m (some x) w;
}

abbrev until_in_files : Table Gcs.Metadata → String → ℕ
until_in_files = Gcs.Laws.view files tallies "locks/" "host" file_at files-GcsLaws

gcs-AccessorContract_example :
    AccessorContract until_in_files
      (λ (t : Turn file_at (Rely until_in_files)). t.now)
      (Gcs.Laws.accessor files tallies "locks/" "host" file_at files-GcsLaws
        (Rely until_in_files)
        (Rely-refl until_in_files))
gcs-AccessorContract_example =
    gcs-AccessorContract files tallies "locks/" "host" file_at files-GcsLaws (Rely until_in_files)
      (Rely-refl until_in_files)

-- A collection whose documents all have the CAS value 1.
abbrev is_class : String → DriverError → Bool
is_class name e = is_text e.name name

abbrev class : String → Exception
class name = external (record { name = some name; code = none; message = "" })

abbrev one_cas : ℕ
one_cas = 1

is_one-eq : (x : ℕ) → eqb x 1 ≡ true → x ≡ 1
is_one-eq x h = ground arith

abbrev documents : Couchbase.Collection (Table (Couchbase.Document String)) ℕ String
documents = record {
  insert = insert_in one_cas (class "DocumentExistsError") (class "DocumentNotFoundError");
  get_document = get_in one_cas (class "CasMismatchError") (class "DocumentNotFoundError");
  replace =
      replace_in one_cas (class "CasMismatchError") (class "DocumentNotFoundError") (λ x. eqb x 1)
        is_one-eq;
  is_exists_error = is_class "DocumentExistsError";
  is_cas_mismatch = is_class "CasMismatchError";
  is_not_found_error = is_class "DocumentNotFoundError";
}

abbrev document_at :
    Table (Couchbase.Document String) → String → Option (ℕ × Couchbase.Document String)
document_at = object_in one_cas (class "CasMismatchError") (class "DocumentNotFoundError")

documents-CollectionLaws : CollectionLaws document_at documents
documents-CollectionLaws = record {
  inserts_new =
      insert_in-Put one_cas (class "DocumentExistsError") (class "DocumentNotFoundError") _;
  gets = get_in-Got one_cas (class "CasMismatchError") (class "DocumentNotFoundError") _;
  replaces =
      replace_in-Put one_cas (class "CasMismatchError") (class "DocumentNotFoundError")
        (λ x. eqb x 1) is_one-eq _;
}

abbrev until_in_documents : Table (Couchbase.Document String) → String → ℕ
until_in_documents =
    Couchbase.Laws.view documents "shedlock:" "host" document_at documents-CollectionLaws

couchbase-AccessorContract_example :
    AccessorContract until_in_documents
      (Couchbase.Laws.instant_of documents "shedlock:" "host" document_at documents-CollectionLaws
        (Rely until_in_documents)
        (Rely-refl until_in_documents))
      (Couchbase.Laws.accessor documents "shedlock:" "host" document_at documents-CollectionLaws
        (Rely until_in_documents)
        (Rely-refl until_in_documents))
couchbase-AccessorContract_example =
    couchbase-AccessorContract documents "shedlock:" "host" document_at documents-CollectionLaws
      (Rely until_in_documents) (Rely-refl until_in_documents)

abbrev nightly : LockConfiguration
nightly = record { name = "job"; lock_at_most_for = 100; lock_at_least_for = 10; created_at = 5 }

abbrev alone : (now : ℕ) → Turn object (Rely until_in_bucket)
alone now = record {
  now = now;
  others = λ w. w;
  polite = λ w k. omega arith;
  identifies = λ w key v d d' e f. ap (λ x. x.1) (some_injective (sym e ∙ f));
}
  where
    some_injective : {A : Type 0} {a b : A} → some a ≡ some b → a ≡ b
    some_injective e = cc

abbrev two_calls :
    List (
      (Turn object (Rely until_in_bucket) × Turn object (Rely until_in_bucket)) × LockConfiguration)
two_calls = ((alone 5, alone 6), nightly) ∷ ((alone 50, alone 51), nightly) ∷ []

provider_grants-Disjoint_example : Disjoint (
    grants
      (stored_until until_in_bucket)
      (decided_at turn_now)
      (Storage.lock bucket_accessor)
      two_calls
      ((λ name. false), empty))
provider_grants-Disjoint_example =
    provider_grants-Disjoint until_in_bucket turn_now bucket_accessor
      (s3-AccessorContract bucket tallies (λ r. "") "locks/" "host" object bucket-S3Laws
        (Rely until_in_bucket) (Rely-refl until_in_bucket))
      two_calls 0 ((λ name. false), empty) (omega arith, (omega arith, tt))
