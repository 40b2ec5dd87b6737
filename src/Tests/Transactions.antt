-- ===== src/Tests/Transactions.antt =====
-- Databases with transactions held in memory, for the theorems on their accessors.
use tslock.Prelude.{
  ℕ, ◌≡◌, refl, sym, ◌∙◌, true, false, String, Option, none, some, Table, put, Result, ok, throw,
  inl, inr, ◌==◌, Bool-cases,
}
use tslock.Core.Contract.{Rely}
use tslock.Core.Storage.Contract.{AccessorContract}
use tslock.Backend
use tslock.Backend.{Writes, content_at}
use tslock.Backend.Transactions.{RunTransaction, TransactionLaws, Committed, Reading}
use tslock.Datastore
use tslock.Datastore.Laws.{DatastoreLaws, datastore-AccessorContract}
use tslock.Firestore
use tslock.Firestore.Laws.{FirestoreLaws, firestore-AccessorContract}
use tslock.Tests.Memory.{tallies}

module _ {V : Type 0} where
  abbrev unversioned : Option V → Option (Unit {0} × V)
  unversioned none = none
  unversioned (some d) = some (tt, d)

  abbrev stored : Table V → String → Option (Unit {0} × V)
  stored w key = unversioned (w key)

  content-unversioned : (o : Option V) → Backend.content stored (unversioned o) ≡ o
  content-unversioned none = refl
  content-unversioned (some d) = refl

  put-Writes : (key : String) (d : V) (w : Table V) → Writes stored w (put w key d) key d
  put-Writes key d w k = elim (Bool-cases (key == k)) [ inl e ↦ rw e refl | inr e ↦ rw e refl ]

module _ {W : Type 0} where
  -- A transaction that throws is rolled back.
  abbrev ended : {A : Type 0} → W → Result A × W → Result A × W
  ended b (ok a, w) = (ok a, w)
  ended b (throw e, w) = (throw e, b)

  abbrev run_once : RunTransaction W
  run_once A others body w = ended (others w) (body (others w))

  module _ {V Ver : Type 0} (object : W → String → Option (Ver × V)) where
    ended-Committed : {A : Type 0} (b : W) (r : Result A × W) → Committed object b r (ended b r)
    ended-Committed b (ok a, w) = inl (a, refl, refl, λ k. refl)
    ended-Committed b (throw e, w) = inr (e, refl, inl λ k. refl)

    run_once-TransactionLaws : TransactionLaws object run_once
    run_once-TransactionLaws A others body w = ended-Committed (others w) (body (others w))

abbrev Entities : Type 0
Entities = Table (Datastore.DatastoreEntity String)

abbrev entities : Datastore.Transaction Entities String
entities = record {
  get = λ key w. (ok (w key), w);
  upsert = λ key e w. put w key e;
  says_not_found = λ s. s == "not found";
}

entities-DatastoreLaws :
    DatastoreLaws stored (Datastore.is_not_found run_once entities tallies "host" true) entities
entities-DatastoreLaws = record {
  gets = λ key w. (refl, content-unversioned (w key));
  upserts = put-Writes;
}

abbrev entities_until : Entities → String → ℕ
entities_until =
    Datastore.Laws.view run_once entities tallies "host" true stored
      (run_once-TransactionLaws stored) entities-DatastoreLaws

datastore-AccessorContract_example :
    AccessorContract entities_until
      (λ (t : Reading (Rely entities_until)). t.now)
      (Datastore.Laws.accessor run_once entities tallies "host" true stored
        (run_once-TransactionLaws stored)
        entities-DatastoreLaws
        (Rely entities_until))
datastore-AccessorContract_example =
    datastore-AccessorContract run_once entities tallies "host" true stored
      (run_once-TransactionLaws stored) entities-DatastoreLaws (Rely entities_until)

abbrev Documents : Type 0
Documents = Table (Firestore.FirestoreDocument String)

abbrev patch_found :
    String
    → Firestore.FieldData
    → Documents
    → Option (Firestore.FirestoreDocument String)
    → Documents
patch_found key p w none = w
patch_found key p w (some d) = put w key (Firestore.Laws.patched d p)

abbrev documents : Firestore.Transaction Documents String
documents = record {
  get = λ key w. (ok (w key), w);
  create = λ key p w. put w key (Firestore.Laws.patched Firestore.Laws.blank p);
  update = λ key p w. patch_found key p w (w key);
}

patched-Writes :
    (key : String) (p : Firestore.FieldData) (d : Firestore.FirestoreDocument String)
    (w : Documents)
    → content_at stored w key ≡ some d
    → Writes stored w (documents.update key p w) key (Firestore.Laws.patched d p)
patched-Writes key p d w at =
    rw (sym (content-unversioned (w key)) ∙ at) (put-Writes key (Firestore.Laws.patched d p) w)

documents-FirestoreLaws : FirestoreLaws stored documents
documents-FirestoreLaws = record {
  gets = λ key w. (refl, content-unversioned (w key));
  creates = λ key p. put-Writes key (Firestore.Laws.patched Firestore.Laws.blank p);
  updates = patched-Writes;
}

abbrev documents_until : Documents → String → ℕ
documents_until =
    Firestore.Laws.view run_once documents tallies "host" false stored
      (run_once-TransactionLaws stored) documents-FirestoreLaws

firestore-AccessorContract_example :
    AccessorContract documents_until
      (λ (t : Reading (Rely documents_until)). t.now)
      (Firestore.Laws.accessor run_once documents tallies "host" false stored
        (run_once-TransactionLaws stored)
        documents-FirestoreLaws
        (Rely documents_until))
firestore-AccessorContract_example =
    firestore-AccessorContract run_once documents tallies "host" false stored
      (run_once-TransactionLaws stored) documents-FirestoreLaws (Rely documents_until)
