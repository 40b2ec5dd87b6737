-- ===== src/Tests/Memory.antt =====
-- A bucket held in memory, for the tests of the accessor of packages/s3/src: every object has the
-- one entity tag, and instants are written as tallies.
use Prim.Native.String
use Prim.Native.String.count
use tslock.Prelude.{
  ℕ, ◌≡◌, refl, sym, ap, ◌∙◌, zero, suc, if◌then◌else◌, String, Option, none, some, Table, empty,
  put, Result, ok, throw, Exception, external, inl, inr, ◌==◌, eq_iff, Bool-cases, Option-cases,
}
use tslock.Backend.{IsoDates, Put, Writes}
use tslock.S3.{
  Metadata, LockRecord, Condition, if_none_match, if_match, S3Client, is_not_found,
  is_conditional_write_failed,
}
use tslock.S3.Laws.{Fields, fields, written, expected, Heads, S3Laws}

unfoldable pub tally : ℕ → String
tally zero = ""
tally (suc n) = String.◌∷◌ "1" (tally n)

pub count-tally : (n : ℕ) → String.count (tally n) ≡ n
unfolding tally
count-tally zero = refl
count-tally (suc n) = count.cons "1" (tally n) ∙ ap suc (count-tally n)

abbrev pub tallies : IsoDates
tallies = record {
  to_iso_string = tally;
  parse = λ s. some (String.count s);
  parse-to_iso_string = λ n. ap some (count-tally n);
}

abbrev pub Bucket : Type 0
Bucket = Table Metadata

abbrev pub metadata_of : LockRecord → Metadata
metadata_of r =
    put (put (put empty "lockUntil" r.lock_until) "lockedAt" r.locked_at) "lockedBy" r.locked_by

abbrev refused : Exception
refused = external (record { name = some "PreconditionFailed"; code = some 412; message = "" })

abbrev not_there : Exception
not_there = external (record { name = some "NotFound"; code = some 404; message = "" })

abbrev answer_head : Bucket → Option Metadata → Result (String × Metadata) × Bucket
answer_head w none = (throw not_there, w)
answer_head w (some m) = (ok ("1", m), w)

abbrev answer_put :
    String → LockRecord → Bucket → Condition → Option Metadata → Result (Unit {0}) × Bucket
answer_put key r w if_none_match none = (ok tt, put w key (metadata_of r))
answer_put key r w if_none_match (some m) = (throw refused, w)
answer_put key r w (if_match etag) none = (throw refused, w)
answer_put key r w (if_match etag) (some m) =
    if etag == "1" then (ok tt, put w key (metadata_of r)) else (throw refused, w)

abbrev pub bucket : S3Client Bucket
bucket = record {
  head_object = λ key w. answer_head w (w key);
  put_object = λ key body r condition w. answer_put key r w condition (w key);
}

abbrev tagged : Option Metadata → Option (String × Fields)
tagged none = none
tagged (some m) = some ("1", fields m)

abbrev pub object : Bucket → String → Option (String × Fields)
object w key = tagged (w key)

heads :
    (key : String) (w : Bucket)
    → Heads object w (bucket.head_object key w).1 key (bucket.head_object key w).0
heads key w = elim (Option-cases (w key)) [
  | inl e ↦ rw e (refl, λ x. ap tagged e)
  | inr (m, e) ↦ rw e (refl, ap tagged e)
]

put-Writes :
    (key : String) (r : LockRecord) (w : Bucket)
    → Writes object w (put w key (metadata_of r)) key (written r)
unfolding tslock.S3.lock_until_of tslock.S3.locked_at_of tslock.S3.locked_by_of
put-Writes key r w k = elim (Bool-cases (key == k)) [ inl e ↦ rw e refl | inr e ↦ rw e refl ]

puts :
    (key : String) (r : LockRecord) (condition : Condition) (w : Bucket)
    → let (q, w') = bucket.put_object key "" r condition w in
      Put object is_conditional_write_failed w w' key (expected condition) (written r) q
puts key r if_none_match w = elim (Option-cases (w key)) [
  | inl e ↦ rw e (ap tagged e, put-Writes key r w)
  | inr (m, e) ↦ rw e (inl (λ k. refl), λ x k. refl)
]
puts key r (if_match etag) w = elim (Option-cases (w key)) [
  | inl e ↦ rw e (inl (λ k. refl), λ x k. refl)
  | inr (m, e) ↦ elim (Bool-cases (etag == "1")) [
    | inl f ↦
        rw (e, f)
          (
            (fields m, ap tagged e ∙ ap (λ t. some (t, fields m)) (sym ((eq_iff etag "1").0 f))),
            put-Writes key r w,
          )
    | inr f ↦ rw (e, f) (inl (λ k. refl), λ x k. refl)
  ]
]

pub bucket-S3Laws : S3Laws object bucket (λ r. "")
bucket-S3Laws = record { heads = heads; puts = puts }
