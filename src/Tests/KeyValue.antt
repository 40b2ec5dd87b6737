-- ===== src/Tests/KeyValue.antt =====
-- Concrete key-value stores for the theorems on the providers that store records as text.
use tslock.Prelude.{
  ℕ, suc, ◌≤◌, ◌≡◌, ◌+◌, refl, sym, eq_iff, ap, ◌∙◌, String, Option, none, some, Table, empty, put,
  ok, throw, Exception, external, arith, inl, inr, ◌==◌, Bool-cases, if◌then◌else◌,
}
use tslock.Core.Config.{LockConfiguration}
use tslock.Core.Contract.{Keeps, Rely, Rely-Joinable}
use tslock.Backend.{Writes, content_at}
use tslock.CloudFrontKvs
use tslock.CloudFrontKvs.Reads.{KvsLaws, Fair, view}
use tslock.CloudFrontKvs.Laws.{attempts_keep_contract, Extended, Released}
use tslock.CloudFrontKvs.Attempts.{Decided}
use tslock.CloudFrontKvs.Count.{Counted, writes_at_most_retries}
use tslock.Tests.Memory.{tallies}
use tslock.Tests.Packing.{pack, unpack, unpack-pack}

abbrev job : LockConfiguration
job = record { name = "job"; lock_at_most_for = 50; lock_at_least_for = 10; created_at = 100 }

abbrev renewed : LockConfiguration
renewed = record { name = "job"; lock_at_most_for = 80; lock_at_least_for = 10; created_at = 120 }

-- A store in memory whose tag is always "1"; the number counts the writes that were asked for.
abbrev Store : Type 0
Store = Table String × ℕ

abbrev fields_of : String × String → Option CloudFrontKvs.Parsed
fields_of (until, rest) =
    let (at, by) = unpack rest in some (CloudFrontKvs.fields (some until) (some at) (some by))

abbrev packed : CloudFrontKvs.Json
packed = record {
  stringify = λ r. pack r.lock_until (pack r.locked_at r.locked_by);
  parse = λ s. fields_of (unpack s);
  parse-stringify = λ r.
      ap fields_of (unpack-pack r.lock_until (pack r.locked_at r.locked_by))
      ∙ ap (λ x. some (CloudFrontKvs.fields (some r.lock_until) (some x.0) (some x.1)))
          (unpack-pack r.locked_at r.locked_by);
}

abbrev conflict : Exception
conflict = external (record { name = some "Conflict"; code = some 409; message = "" })

abbrev store : CloudFrontKvs.CloudFrontKeyValueStoreClient Store
store = record {
  describe = λ w. (ok (some "1"), w);
  get_key = λ key w. (ok (w.0 key), w);
  put_key = λ key value etag w.
      if etag == "1"
      then (ok tt, (put w.0 key value, suc w.1))
      else (throw conflict, (w.0, suc w.1));
}

abbrev provider : CloudFrontKvs.CloudFrontKvsLockProvider Store
provider = record {
  client = store;
  dates = tallies;
  json = packed;
  byte_length = λ s. 1;
  prefix = "tslock/";
  max_etag_retries = 3;
  hostname = "host";
}

abbrev store_tag : Store → String
store_tag w = "1"

abbrev tagged : Option String → Option (String × String)
tagged none = none
tagged (some v) = some ("1", v)

abbrev entry : Store → String → Option (String × String)
entry w key = tagged (w.0 key)

content-tagged : (o : Option String) → tslock.Backend.content entry (tagged o) ≡ o
content-tagged none = refl
content-tagged (some v) = refl

put-Writes :
    (key value : String) (n : ℕ) (w : Store) → Writes entry w (put w.0 key value, n) key value
put-Writes key value n w k = elim (Bool-cases (key == k)) [ inl e ↦ rw e refl | inr e ↦ rw e refl ]

store-KvsLaws : KvsLaws store_tag entry store
store-KvsLaws = record {
  describes = λ w. (refl, refl);
  gets = λ key w. (refl, content-tagged (w.0 key));
  puts = λ key value etag w. elim (Bool-cases (etag == "1")) [
    | inl e ↦ rw e (sym ((eq_iff etag "1").0 e), put-Writes key value (suc w.1) w)
    | inr e ↦ rw e (inl (λ k. refl), λ y k. refl)
  ];
}

abbrev still : ℕ → CloudFrontKvs.Attempt Store
still i = record { now = 110 + i; before = λ w. w; others = λ w. w }

abbrev until_in : Store → String → ℕ
until_in = view provider store_tag entry store-KvsLaws

still-Fair : (i : ℕ) → Fair store_tag entry (Rely until_in) (still i)
still-Fair i = record {
  polite_before = λ w k. omega arith;
  polite = λ w k. omega arith;
  identifies = λ w e k. refl;
}

abbrev attempt_time : ℕ → ℕ
attempt_time i = 110 + i

attempts_keep_contract_example :
    Decided until_in
      (λ now. Keeps until_in now job)
      (Rely until_in)
      (Rely-Joinable until_in)
      none
      (λ now b s' h. h)
      2
      attempt_time
      (empty, 0)
      (CloudFrontKvs.lock provider still job (empty, 0))
    × Decided until_in
        (Released provider store_tag entry store-KvsLaws
          (Rely until_in)
          (Rely-Joinable until_in)
          job)
        (Rely until_in)
        (Rely-Joinable until_in)
        tt
        (λ now b s' h. inl h)
        2
        attempt_time
        (empty, 0)
        (CloudFrontKvs.unlock provider still job (empty, 0))
    × Decided until_in
        (Extended provider store_tag entry store-KvsLaws
          (Rely until_in)
          (Rely-Joinable until_in)
          job
          150)
        (Rely until_in)
        (Rely-Joinable until_in)
        none
        (λ now b s' h. h)
        2
        attempt_time
        (empty, 0)
        (CloudFrontKvs.extend provider still job (some 150) (empty, 0))
attempts_keep_contract_example =
    attempts_keep_contract provider store_tag entry store-KvsLaws (Rely until_in)
      (Rely-Joinable until_in) 2 still job 150 (empty, 0) refl still-Fair (λ i. omega arith)

store-Counted : Counted (λ (w : Store). w.1) store
store-Counted = record {
  describes = λ w. refl;
  gets = λ key w. refl;
  puts = λ key value etag w. ground arith;
}

writes_at_most_retries_example :
    ((CloudFrontKvs.lock provider still job (empty, 0)).1.1 ≤ 3 + 0)
    × ((CloudFrontKvs.unlock provider still job (empty, 0)).1.1 ≤ 3 + 0)
    × ((CloudFrontKvs.extend provider still job (some 150) (empty, 0)).1.1 ≤ 3 + 0)
writes_at_most_retries_example =
    writes_at_most_retries (λ (w : Store). w.1) provider store-Counted still job (some 150)
      (λ i. record { before = λ w. refl; others = λ w. refl }) (empty, 0)
