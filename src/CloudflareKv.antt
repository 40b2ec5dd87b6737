-- ===== src/CloudflareKv.antt =====
-- packages/cloudflare-kv/src: the provider over a Workers KV namespace, which has no conditional
-- write. The namespace, `crypto.randomUUID`, JSON and the length of a text in bytes are parameters;
-- `now` is what a method reads of the clock, and the unlock reads it twice. A lock object is the
-- core's with its token. A number of a record is taken to be a natural one.
pub mod Lifetime
pub mod Confirm
use Prim.Native.String.{◌++◌}
use tslock.Prelude.{
  ℕ, ◌+◌, ◌-◌, ◌/◌, max, Bool, true, false, ◌||◌, not, String, Option, none, some, Exec, Result, ok,
  throw, pure, continue, ◌>>=◌, ltb, leb, ◌==◌, if◌then◌else◌, corrupted_record,
  storage_key_too_long, invalid_option,
}
use tslock.Core.Config.{LockConfiguration, lock_at_most_until, unlock_time}
use tslock.Core.Lock.{LockObject, new_lock}
use tslock.Backend.{or_else, later_than, over_at}

unfoldable pub kv_expiration_ttl_seconds : ℕ → ℕ → ℕ
kv_expiration_ttl_seconds lock_until_ms now_ms = max 60 ((lock_until_ms - now_ms) / 1000 + 1)

pub record KvLockRecord : Type 0 where
  pub lock_until : ℕ
  pub locked_at : ℕ
  pub locked_by : String
  pub token : String

-- What `JSON.parse` gives, as far as it is looked at: the four fields, where they are of their type.
pub data Parsed : Type 0 where
  not_object : Parsed
  fields : Option ℕ → Option ℕ → Option String → Option String → Parsed

pub record Json : Type 0 where
  pub stringify : KvLockRecord → String
  -- `none` where the text is no JSON.
  pub parse : String → Option Parsed

abbrev pub decode_fields : Option ℕ → Option ℕ → Option String → Option String → Result KvLockRecord
decode_fields (some until) (some at) (some by) (some token) =
    if by == "" || token == ""
    then throw corrupted_record
    else ok (record { lock_until = until; locked_at = at; locked_by = by; token = token })
decode_fields (some until) (some at) (some by) none = throw corrupted_record
decode_fields (some until) (some at) none token = throw corrupted_record
decode_fields (some until) none by token = throw corrupted_record
decode_fields none at by token = throw corrupted_record

abbrev pub decode_parsed : Option Parsed → Result KvLockRecord
decode_parsed none = throw corrupted_record
decode_parsed (some not_object) = throw corrupted_record
decode_parsed (some (fields until at by token)) = decode_fields until at by token

unfoldable pub decode_lock_record : Json → String → Result KvLockRecord
decode_lock_record json raw = decode_parsed (json.parse raw)

pub record CloudflareKvLockProviderOptions : Type 0 where
  pub acknowledge_advisory_lock : Bool
  pub key_prefix : Option String
  pub confirm_write : Option Bool

pub record CloudflareKvConfiguration : Type 0 where
  pub key_prefix : String
  pub confirm_write : Bool

-- `has_nul` and `byte_length` are the texts' own methods.
unfoldable pub resolve_cloudflare_kv_configuration :
    (String → Bool)
    → (String → ℕ)
    → CloudflareKvLockProviderOptions
    → Result CloudflareKvConfiguration
resolve_cloudflare_kv_configuration has_nul byte_length input =
    let key_prefix = or_else input.key_prefix "tslock:" in
    if not input.acknowledge_advisory_lock
    then throw invalid_option
    else if has_nul key_prefix
    then throw invalid_option
    else if ltb 256 (byte_length key_prefix)
    then throw invalid_option
    else ok (record { key_prefix = key_prefix; confirm_write = or_else input.confirm_write true })

pub record CloudflareKvNamespace (W : Type 0) : Type 0 where
  pub get : String → Exec W (Option String)
  pub put : String → String → ℕ → Exec W (Unit {0})
  pub delete : String → Exec W (Unit {0})

-- The provider's configuration, with the host's name and what is a parameter.
pub record CloudflareKvLockProvider (W : Type 0) : Type 0 where
  pub kv : CloudflareKvNamespace W
  pub config : CloudflareKvConfiguration
  pub json : Json
  pub byte_length : String → ℕ
  pub new_token : Exec W String
  pub hostname : String

abbrev pub CloudflareKvLock : Type 0
CloudflareKvLock = LockObject × String

module _ {W : Type 0} (provider : CloudflareKvLockProvider W) where
  open provider use {kv, json, byte_length, new_token, hostname}

  unfoldable pub storage_key : String → Result String
  storage_key name =
      let key = provider.config.key_prefix ++ name in
      let size = byte_length key in
      if ltb size 1 || ltb 512 size then throw storage_key_too_long else ok key

  abbrev pub present : Result KvLockRecord → Result (Option KvLockRecord)
  present (ok r) = ok (some r)
  present (throw e) = throw e

  abbrev pub decoded : Option String → Result (Option KvLockRecord)
  decoded none = ok none
  decoded (some raw) = present (decode_lock_record json raw)

  unfoldable pub read : String → Exec W (Option KvLockRecord)
  read key = kv.get key >>= λ raw. λ w. (decoded raw, w)

  unfoldable pub write : String → KvLockRecord → ℕ → Exec W (Unit {0})
  write key r now = kv.put key (json.stringify r) (kv_expiration_ttl_seconds r.lock_until now)

  abbrev pub owned_by : String → Option KvLockRecord → Bool
  owned_by token none = false
  owned_by token (some r) = r.token == token

  -- The end of `lock` and of `extend`.
  unfoldable pub confirmed : String → LockConfiguration → String → Exec W (Option CloudflareKvLock)
  confirmed key config token =
      if provider.config.confirm_write
      then (read key >>= λ r.
          if owned_by token r then pure (some (new_lock config, token)) else pure none)
      else pure (some (new_lock config, token))

  abbrev pub held_at : ℕ → Option KvLockRecord → Bool
  held_at now none = false
  held_at now (some existing) = later_than (some existing.lock_until) now

  unfoldable pub lock_decided :
      ℕ → LockConfiguration → String → Option KvLockRecord → Exec W (Option CloudflareKvLock)
  lock_decided now config key existing =
      if held_at now existing
      then pure none
      else (new_token >>= λ token.
          write key
            (record {
              lock_until = lock_at_most_until config;
              locked_at = config.created_at;
              locked_by = hostname;
              token = token;
            })
            now
          >>= λ u. confirmed key config token)

  unfoldable pub lock : ℕ → LockConfiguration → Exec W (Option CloudflareKvLock)
  lock now config =
      continue (storage_key config.name) λ key. read key >>= lock_decided now config key

  unfoldable pub unlock_decided :
      ℕ → ℕ → LockConfiguration → String → String → Option KvLockRecord → Exec W (Unit {0})
  unlock_decided until_now now config token key none = pure tt
  unlock_decided until_now now config token key (some existing) =
      let until = unlock_time until_now config in
      if not (existing.token == token)
      then pure tt
      else if leb until now
      then kv.delete key
      else write key (record existing { lock_until = until; token = token }) now

  unfoldable pub unlock : ℕ → ℕ → LockConfiguration → String → Exec W (Unit {0})
  unlock until_now now config token =
      continue (storage_key config.name)
        λ key. read key >>= unlock_decided until_now now config token key

  unfoldable pub extend_decided :
      ℕ
      → LockConfiguration
      → String
      → String
      → Option KvLockRecord
      → Exec W (Option CloudflareKvLock)
  extend_decided now config token key none = pure none
  extend_decided now config token key (some existing) =
      if not (existing.token == token) || leb existing.lock_until now
      then pure none
      else (write key (record existing { lock_until = lock_at_most_until config; token = token })
            now
          >>= λ u. confirmed key config token)

  unfoldable pub extend : ℕ → LockConfiguration → String → Exec W (Option CloudflareKvLock)
  extend now config token =
      continue (storage_key config.name) λ key. read key >>= extend_decided now config token key

  -- CloudflareKvLock
  abbrev pub do_unlock : ℕ → ℕ → CloudflareKvLock → Exec W (Unit {0})
  do_unlock until_now now (l, token) = unlock until_now now l.config token

  abbrev pub do_extend : ℕ → CloudflareKvLock → LockConfiguration → Exec W (Option CloudflareKvLock)
  do_extend now (l, token) new_config = extend now new_config token
