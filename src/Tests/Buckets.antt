-- ===== src/Tests/Buckets.antt =====
-- A NATS bucket held in memory, in which every entry has the one revision 1.
use Prim.Native.Nat.{◌^◌}
use tslock.Prelude.{
  ℕ, ◌≡◌, refl, sym, ap, ◌∙◌, true, false, String, List, Option, none, some, Table, put, empty,
  Result, ok, throw, Exception, external, inl, inr, ◌==◌, Bool-cases, if◌then◌else◌, arith, eqb,
  ltb, and_then, number_too_large,
}
use tslock.Prelude.Int.{pos}
use tslock.Core.Config.{LockConfiguration}
use tslock.Core.Contract.{Within, Rely, Rely-refl, Keeps, Unlocks}
use tslock.Backend
use tslock.Backend.{Writes, Turn, content_at}
use tslock.Nats
use tslock.Nats.{Entry, Bucket, long_to_bytes, bytes_to_long}
use tslock.Nats.Bytes.{bytes_to_long-long_to_bytes}
use tslock.Nats.Laws.{Content, live, gone, BucketLaws, PutIf, Absent, Read, nats-Keeps, view}

abbrev Entries : Type 0
Entries = Table Content

abbrev entry_of : Content → Entry
entry_of (live value) = record { operation = some "PUT"; value = value; revision = 1 }
entry_of gone = record { operation = some "DEL"; value = List.[]; revision = 1 }

abbrev found : Option Content → Option Entry
found none = none
found (some d) = some (entry_of d)

abbrev revised : Option Content → Option (ℕ × Content)
revised none = none
revised (some d) = some (1, d)

abbrev stored : Entries → String → Option (ℕ × Content)
stored w key = revised (w key)

abbrev conflict : Exception
conflict = external (record { name = none; code = some 10071; message = "" })

abbrev created : String → List ℕ → Entries → Option Content → Result (Unit {0}) × Entries
created key value w none = (ok tt, put w key (live value))
created key value w (some gone) = (ok tt, put w key (live value))
created key value w (some (live old)) = (throw conflict, w)

abbrev replaced : String → Content → ℕ → Entries → Option Content → Result (Unit {0}) × Entries
replaced key d revision w none = (throw conflict, w)
replaced key d revision w (some old) =
    if eqb revision 1 then (ok tt, put w key d) else (throw conflict, w)

abbrev entries : Bucket Entries
entries = record {
  get = λ key w. (ok (found (w key)), w);
  create = λ key value w. created key value w (w key);
  update = λ key value revision w. replaced key (live value) revision w (w key);
  delete = λ key revision w. replaced key gone revision w (w key);
  api_error_code = λ e. none;
  includes = λ s t. false;
}

put-Writes : (key : String) (d : Content) (w : Entries) → Writes stored w (put w key d) key d
put-Writes key d w k = elim (Bool-cases (key == k)) [ inl e ↦ rw e refl | inr e ↦ rw e refl ]

created-PutIf :
    (key : String) (value : List ℕ) (w : Entries) (o : Option Content)
    → w key ≡ o
    → PutIf stored entries
        (Absent stored entries w key)
        w
        (created key value w o).1
        key
        (live value)
        (created key value w o).0
created-PutIf key value w none e =
    (inl (ap (λ o. Backend.content stored (revised o)) e), put-Writes key (live value) w)
created-PutIf key value w (some gone) e =
    (inr (ap (λ o. Backend.content stored (revised o)) e), put-Writes key (live value) w)
created-PutIf key value w (some (live old)) e = (inl (λ k. refl), λ x k. refl)

replaced-PutIf :
    (key : String) (d : Content) (revision : ℕ) (w : Entries) (o : Option Content)
    → w key ≡ o
    → PutIf stored entries
        (Backend.Expects stored w key (some revision))
        w
        (replaced key d revision w o).1
        key
        d
        (replaced key d revision w o).0
replaced-PutIf key d revision w none e = (inl (λ k. refl), λ x k. refl)
replaced-PutIf key d revision w (some old) e = elim (Bool-cases (eqb revision 1)) [
  | inr n ↦ rw n (inl (λ k. refl), λ x k. refl)
  | inl y ↦
      rw y ((old, ap revised e ∙ ap (λ r. some (r, old)) (one revision y)), put-Writes key d w)
]
  where
    one : (r : ℕ) → eqb r 1 ≡ true → ◌≡◌ {A = ℕ} 1 r
    one r h = ground arith

found-Read :
    (key : String) (w : Entries) (o : Option Content)
    → w key ≡ o
    → Read stored entries w w key (ok (found o))
found-Read key w none e = (refl, ap revised e)
found-Read key w (some (live value)) e = (refl, ap revised e)
found-Read key w (some gone) e = (refl, ap revised e)

entries-BucketLaws : BucketLaws stored entries
entries-BucketLaws = record {
  gets = λ key w. found-Read key w (w key) refl;
  creates = λ key value w. created-PutIf key value w (w key) refl;
  updates = λ key value revision w. replaced-PutIf key (live value) revision w (w key) refl;
  deletes = λ key revision w. replaced-PutIf key gone revision w (w key) refl;
}

abbrev until_in : Entries → String → ℕ
until_in = view stored entries entries-BucketLaws

some-injective : {A : Type 0} (a b : A) → some a ≡ some b → a ≡ b
some-injective a b e = cc

alone_identifies :
    (w : Entries) (key : String) (v : ℕ) (d d' : Content)
    → stored w key ≡ some (v, d)
    → stored w key ≡ some (v, d')
    → d ≡ d'
alone_identifies w key v d d' e f = ap (λ x. x.1) (some-injective (v, d) (v, d') (sym e ∙ f))

abbrev alone : Turn stored (Rely until_in)
alone = record {
  now = 120;
  others = λ w. w;
  polite = λ w k. omega arith;
  identifies = alone_identifies;
}

abbrev job : LockConfiguration
job = record { name = "job"; lock_at_most_for = 50; lock_at_least_for = 10; created_at = 100 }

nats-Keeps_example :
    Within until_in 120 empty (λ b.
      Keeps until_in 120 job b
        (Nats.lock entries (λ w. w) 120 job empty).1
        (Nats.lock entries (λ w. w) 120 job empty).0)
    × Within until_in 120 empty
        (λ b. Unlocks until_in 120 job b (Nats.do_unlock entries (λ w. w) 120 job empty).1)
nats-Keeps_example =
    nats-Keeps stored entries entries-BucketLaws (Rely until_in) (Rely-refl until_in) alone job
      empty

bytes_to_long-long_to_bytes_example :
    and_then (long_to_bytes 1700000000000) bytes_to_long
    ≡ (if ltb 1700000000000 (2 ^ 63) then ok (pos 1700000000000) else throw number_too_large)
bytes_to_long-long_to_bytes_example = bytes_to_long-long_to_bytes 1700000000000
