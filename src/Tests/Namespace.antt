-- ===== src/Tests/Namespace.antt =====
-- A Workers KV namespace held in memory, whose state counts the tokens that were made.
use tslock.Prelude.{
  ℕ, suc, ◌+◌, ◌*◌, ◌≤◌, ◌<◌, ◌≡◌, ◌⊎◌, refl, true, String, Option, some, Table, empty, put, remove,
  ok,
}
use tslock.Core.Config.{LockConfiguration}
use tslock.CloudflareKv
use tslock.CloudflareKv.{kv_expiration_ttl_seconds}
use tslock.CloudflareKv.Lifetime.{kv_expiration_ttl_seconds-outlives}
use tslock.CloudflareKv.Confirm.{Gives, ShownLast, handed_out-ShownLast}
use tslock.Tests.Memory.{tally, tallies}
use tslock.Tests.Packing.{pack, unpack}

abbrev Namespace : Type 0
Namespace = Table String × ℕ

abbrev kv : CloudflareKv.CloudflareKvNamespace Namespace
kv = record {
  get = λ key w. (ok (w.0 key), w);
  put = λ key value ttl w. (ok tt, (put w.0 key value, w.1));
  delete = λ key w. (ok tt, (remove w.0 key, w.1));
}

abbrev fields_of : String × String → Option CloudflareKv.Parsed
fields_of (until, rest) =
    let (at, others) = unpack rest in
    let (by, token) = unpack others in
    some (CloudflareKv.fields (tallies.parse until) (tallies.parse at) (some by) (some token))

abbrev packed : CloudflareKv.Json
packed = record {
  stringify = λ r. pack (tally r.lock_until) (pack (tally r.locked_at) (pack r.locked_by r.token));
  parse = λ s. fields_of (unpack s);
}

abbrev provider : CloudflareKv.CloudflareKvLockProvider Namespace
provider = record {
  kv = kv;
  config = record { key_prefix = "tslock:"; confirm_write = true };
  json = packed;
  byte_length = λ s. 10;
  new_token = λ w. (ok (tally w.1), (w.0, suc w.1));
  hostname = "host";
}

abbrev job : LockConfiguration
job = record { name = "job"; lock_at_most_for = 50; lock_at_least_for = 10; created_at = 100 }

abbrev start : Namespace
start = (empty, 1)

handed_out-ShownLast_example :
    Gives (ShownLast provider refl) (CloudflareKv.lock provider 120 job start)
    × Gives (ShownLast provider refl) (CloudflareKv.extend provider 120 job "1" start)
handed_out-ShownLast_example = handed_out-ShownLast provider refl 120 job "1" start

kv_expiration_ttl_seconds-outlives_example :
    (60 ≤ kv_expiration_ttl_seconds 205000 100000)
    × (205000 < 100000 + kv_expiration_ttl_seconds 205000 100000 * 1000)
    × ((kv_expiration_ttl_seconds 205000 100000 ≡ 60)
        ⊎ (100000 + kv_expiration_ttl_seconds 205000 100000 * 1000 ≤ 205000 + 1000))
kv_expiration_ttl_seconds-outlives_example = kv_expiration_ttl_seconds-outlives 205000 100000
