-- ===== src/CloudFrontKvs.antt =====
-- packages/cloudfront-kvs/src: the provider over a CloudFront key-value store. The store has one
-- entity tag for all its keys, and a write names the tag that it was decided by; a write that is
-- refused is decided anew, `max_etag_retries` times at most. The client's three calls, JSON and the
-- length of a text in bytes are parameters. `Attempt` is what one attempt reads of the clock and
-- what others do to the store before its read of the record and before its write.
pub mod Reads
pub mod Laws
pub mod Count
pub mod Attempts
use Prim.Native.String.{◌++◌}
use Prim.Native.String
use tslock.Prelude.{
  ℕ, zero, suc, ◌≡◌, Bool, true, false, ◌&&◌, ◌||◌, not, String, Option, none, some, Exec, Result,
  ok, throw, Exception, pure, raise, continue, ◌>>=◌, ltb, leb, eqb, if◌then◌else◌, ◌==◌,
  corrupted_record, storage_key_too_long, storage_key_empty, no_etag, invalid_option,
}
use tslock.Core.Config.{LockConfiguration, lock_at_most_until, unlock_time}
use tslock.Core.Lock.{LockObject, new_lock}
use tslock.Backend.{IsoDates, differs, is_code, is_text, on_external, or_else, later_than, over_at}

pub record CloudFrontKvsLockRecord : Type 0 where
  pub lock_until : String
  pub locked_at : String
  pub locked_by : String

-- What `JSON.parse` gives, as far as it is looked at: the three fields, where they are strings.
pub data Parsed : Type 0 where
  not_object : Parsed
  fields : Option String → Option String → Option String → Parsed

pub record Json : Type 0 where
  pub stringify : CloudFrontKvsLockRecord → String
  -- `none` where the text is no JSON.
  pub parse : String → Option Parsed
  pub parse-stringify :
      (r : CloudFrontKvsLockRecord)
      → parse (stringify r)
        ≡ some (fields (some r.lock_until) (some r.locked_at) (some r.locked_by))

pub record CloudFrontKeyValueStoreClient (W : Type 0) : Type 0 where
  pub describe : Exec W (Option String)
  pub get_key : String → Exec W (Option String)
  pub put_key : String → String → String → Exec W (Unit {0})

unfoldable pub is_conflict : Exception → Bool
is_conflict =
    on_external
      λ e. is_text e.name "ConflictException" || is_text e.name "Conflict" || is_code e.code 409

unfoldable pub is_not_found : Exception → Bool
is_not_found = on_external λ e.
    is_text e.name "ResourceNotFoundException" || is_text e.name "NotFound" || is_code e.code 404

module _ (dates : IsoDates) (json : Json) where
  unfoldable pub encode_lock_record : CloudFrontKvsLockRecord → String
  encode_lock_record r = json.stringify r

  abbrev pub is_nan : Option ℕ → Bool
  is_nan none = true
  is_nan (some ms) = false

  abbrev pub decode_strings :
      Option String → Option String → Option String → Result CloudFrontKvsLockRecord
  decode_strings (some until) (some at) (some by) =
      if is_nan (dates.parse until) || is_nan (dates.parse at)
      then throw corrupted_record
      else ok (record { lock_until = until; locked_at = at; locked_by = by })
  decode_strings (some until) (some at) none = throw corrupted_record
  decode_strings (some until) none by = throw corrupted_record
  decode_strings none at by = throw corrupted_record

  abbrev pub decode_parsed : Option Parsed → Result CloudFrontKvsLockRecord
  decode_parsed none = throw corrupted_record
  decode_parsed (some not_object) = throw corrupted_record
  decode_parsed (some (fields until at by)) = decode_strings until at by

  unfoldable pub decode_lock_record : String → Result CloudFrontKvsLockRecord
  decode_lock_record value = decode_parsed (json.parse value)

  abbrev pub build_lock_record : ℕ → ℕ → String → CloudFrontKvsLockRecord
  build_lock_record lock_until_ms locked_at_ms locked_by = record {
    lock_until = dates.to_iso_string lock_until_ms;
    locked_at = dates.to_iso_string locked_at_ms;
    locked_by = locked_by;
  }

  abbrev pub parse_lock_until_ms : CloudFrontKvsLockRecord → Option ℕ
  parse_lock_until_ms r = dates.parse r.lock_until

-- `Date.parse(text) || created_at`
abbrev pub or_created_at : Option ℕ → ℕ → ℕ
or_created_at none created_at = created_at
or_created_at (some ms) created_at = if eqb ms 0 then created_at else ms

pub record CloudFrontKvsLockProviderOptions : Type 0 where
  pub kvs_arn : String
  pub key_prefix : Option String
  pub max_etag_retries : Option ℕ

pub record CloudFrontKvsConfiguration : Type 0 where
  pub kvs_arn : String
  pub key_prefix : String
  pub max_etag_retries : ℕ

-- `trim`, `has_nul` and `byte_length` are the texts' own methods.
unfoldable pub resolve_cloudfront_kvs_configuration :
    (String → String)
    → (String → Bool)
    → (String → ℕ)
    → CloudFrontKvsLockProviderOptions
    → Result CloudFrontKvsConfiguration
resolve_cloudfront_kvs_configuration trim has_nul byte_length input =
    let key_prefix = or_else input.key_prefix "tslock/" in
    let max_etag_retries = or_else input.max_etag_retries 3 in
    if trim input.kvs_arn == ""
    then throw invalid_option
    else if has_nul key_prefix
    then throw invalid_option
    else if ltb 256 (byte_length key_prefix)
    then throw invalid_option
    else if ltb max_etag_retries 1
    then throw invalid_option
    else ok (record {
      kvs_arn = trim input.kvs_arn;
      key_prefix = key_prefix;
      max_etag_retries = max_etag_retries;
    })

unfoldable pub storage_key : (String → ℕ) → String → String → Result String
storage_key byte_length prefix name =
    let key = prefix ++ name in
    if ltb 512 (byte_length key)
    then throw storage_key_too_long
    else if ltb (String.len key) 1
    then throw storage_key_empty
    else ok key

-- The `for` of a method: the body gives `none` where it says `continue`, and `last` is returned
-- when no attempt is left.
module _ {W A : Type 0} where
  abbrev pub settle : Exec W A → Option A → Exec W A
  settle rest none = rest
  settle rest (some a) = pure a

  unfoldable pub for_attempts : ℕ → (ℕ → Exec W (Option A)) → A → Exec W A
  for_attempts zero body last = pure last
  for_attempts (suc n) body last =
      body 0 >>= settle (for_attempts n (λ attempt. body (suc attempt)) last)

pub record Attempt (W : Type 0) : Type 0 where
  pub now : ℕ
  pub before : W → W
  pub others : W → W

-- The provider's fields, with the host's name and what is a parameter.
pub record CloudFrontKvsLockProvider (W : Type 0) : Type 0 where
  pub client : CloudFrontKeyValueStoreClient W
  pub dates : IsoDates
  pub json : Json
  pub byte_length : String → ℕ
  pub prefix : String
  pub max_etag_retries : ℕ
  pub hostname : String

module _ {W : Type 0} (provider : CloudFrontKvsLockProvider W) where
  open provider use {client, dates, json, byte_length, prefix, max_etag_retries, hostname}

  abbrev pub tag_of : Option String → Result String
  tag_of none = throw no_etag
  tag_of (some etag) = if etag == "" then throw no_etag else ok etag

  unfoldable pub describe_etag : Exec W String
  describe_etag = client.describe >>= λ out. λ w. (tag_of out, w)

  abbrev pub present : {A : Type 0} → Result A → Result (Option A)
  present (ok r) = ok (some r)
  present (throw e) = throw e

  abbrev pub decoded : Option String → Result (Option CloudFrontKvsLockRecord)
  decoded none = ok none
  decoded (some value) = present (decode_lock_record dates json value)

  -- The `catch` of getRecord.
  abbrev pub absent_or_thrown :
      Result (Option CloudFrontKvsLockRecord) × W → Result (Option CloudFrontKvsLockRecord) × W
  absent_or_thrown (ok r, w) = (ok r, w)
  absent_or_thrown (throw e, w) = if is_not_found e then (ok none, w) else (throw e, w)

  unfoldable pub get_record : String → Exec W (Option CloudFrontKvsLockRecord)
  unfolding is_not_found
  get_record name w = absent_or_thrown (
      continue (storage_key byte_length prefix name)
        (λ key. client.get_key key >>= λ value. λ w. (decoded value, w)) w)

  unfoldable pub put_record : String → CloudFrontKvsLockRecord → String → Exec W (Unit {0})
  put_record name r etag =
      continue (storage_key byte_length prefix name)
        λ key. client.put_key key (encode_lock_record dates json r) etag

  -- The `try` round a write: `answer` once it is made, and another attempt on a conflict.
  abbrev pub unless_conflict : {A : Type 0} → A → Result (Unit {0}) × W → Result (Option A) × W
  unless_conflict answer (ok u, w) = (ok (some answer), w)
  unless_conflict answer (throw e, w) = if is_conflict e then (ok none, w) else (throw e, w)

  unfoldable pub put_or_again :
      {A : Type 0} → String → CloudFrontKvsLockRecord → String → A → Exec W (Option A)
  put_or_again name r etag answer w = unless_conflict answer (put_record name r etag w)

  abbrev pub reading : Attempt W → String → Exec W (Option CloudFrontKvsLockRecord)
  reading attempt name w = get_record name (attempt.before w)

  abbrev pub held_at : ℕ → Option CloudFrontKvsLockRecord → Bool
  held_at now none = false
  held_at now (some existing) = later_than (parse_lock_until_ms dates json existing) now

  unfoldable pub lock_decided :
      Attempt W
      → LockConfiguration
      → String
      → Option CloudFrontKvsLockRecord
      → Exec W (Option (Option LockObject))
  lock_decided attempt config etag existing w =
      if held_at attempt.now existing
      then (ok (some none), w)
      else put_or_again config.name
          (build_lock_record dates json (lock_at_most_until config) config.created_at hostname) etag
          (some (new_lock config)) (attempt.others w)

  abbrev pub lock_once : LockConfiguration → Attempt W → Exec W (Option (Option LockObject))
  lock_once config attempt =
      describe_etag >>= λ etag. reading attempt config.name >>= lock_decided attempt config etag

  unfoldable pub lock : (ℕ → Attempt W) → LockConfiguration → Exec W (Option LockObject)
  lock attempts config =
      for_attempts max_etag_retries (λ attempt. lock_once config (attempts attempt)) none

  unfoldable pub unlock_decided :
      Attempt W
      → LockConfiguration
      → String
      → Option CloudFrontKvsLockRecord
      → Exec W (Option (Unit {0}))
  unlock_decided attempt config etag none w = (ok (some tt), w)
  unlock_decided attempt config etag (some existing) w =
      if not (existing.locked_by == hostname)
      then (ok (some tt), w)
      else if not (existing.lock_until == dates.to_iso_string (lock_at_most_until config))
      then (ok (some tt), w)
      else put_or_again config.name
          (build_lock_record dates json (unlock_time attempt.now config)
            (or_created_at (dates.parse existing.locked_at) config.created_at) existing.locked_by)
          etag tt (attempt.others w)

  abbrev pub unlock_once : LockConfiguration → Attempt W → Exec W (Option (Unit {0}))
  unlock_once config attempt =
      describe_etag >>= λ etag. reading attempt config.name >>= unlock_decided attempt config etag

  unfoldable pub unlock : (ℕ → Attempt W) → LockConfiguration → Exec W (Unit {0})
  unlock attempts config =
      for_attempts max_etag_retries (λ attempt. unlock_once config (attempts attempt)) tt

  unfoldable pub extend_decided :
      Attempt W
      → LockConfiguration
      → Option ℕ
      → String
      → Option CloudFrontKvsLockRecord
      → Exec W (Option (Option LockObject))
  extend_decided attempt config previous etag none w = (ok (some none), w)
  extend_decided attempt config previous etag (some existing) w =
      if not (existing.locked_by == hostname)
      then (ok (some none), w)
      else if over_at (parse_lock_until_ms dates json existing) attempt.now
      then (ok (some none), w)
      else if differs dates previous (some existing.lock_until)
      then (ok (some none), w)
      else put_or_again config.name
          (build_lock_record dates json (lock_at_most_until config)
            (or_created_at (dates.parse existing.locked_at) config.created_at) hostname)
          etag (some (new_lock config)) (attempt.others w)

  abbrev pub extend_once :
      LockConfiguration → Option ℕ → Attempt W → Exec W (Option (Option LockObject))
  extend_once config previous attempt = describe_etag >>= λ etag.
      reading attempt config.name >>= extend_decided attempt config previous etag

  unfoldable pub extend :
      (ℕ → Attempt W) → LockConfiguration → Option ℕ → Exec W (Option LockObject)
  extend attempts config previous =
      for_attempts max_etag_retries (λ attempt. extend_once config previous (attempts attempt)) none

  -- CloudFrontKvsLock
  abbrev pub do_unlock : (ℕ → Attempt W) → LockConfiguration → Exec W (Unit {0})
  do_unlock attempts config = unlock attempts config

  abbrev pub do_extend :
      (ℕ → Attempt W) → LockConfiguration → LockConfiguration → Exec W (Option LockObject)
  do_extend attempts config new_config =
      extend attempts new_config (some (lock_at_most_until config))
