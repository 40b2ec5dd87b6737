-- ===== src/CloudflareDo.antt =====
-- packages/cloudflare-do/src: the lock of one Durable Object (handle-lock-request.ts,
-- do-lock-storage.ts, protocol.ts) and the provider that sends it requests. Times are whole
-- milliseconds; a number of a request may be negative or not finite.
pub mod Owner
pub mod Requests
use Prim.Native.String
use Prim.Native.String.{◌++◌}
use tslock.Prelude.{
  ℕ, ◌+◌, max, Bool, true, false, ◌&&◌, ◌||◌, not, String, Option, none, some, Table, put, Exec,
  Result, ok, throw, Exception, pure, ◌>>=◌, continue, ◌==◌, ltb, leb, if◌then◌else◌,
  provider_required, external,
}
use tslock.Prelude.Int.{ℤ, pos, negsuc}
use tslock.Core.Duration.{Number, finite, not_finite}
use tslock.Core.Config.{LockConfiguration}

pub record DoLockRecord : Type 0 where
  pub lock_until : ℕ
  pub locked_at : ℕ
  pub locked_by : String
  pub token : Option String
  pub lock_at_least_until : Option ℕ

pub data Operation : Type 0 where
  lock_op unlock_op extend_op : Operation

pub record LockOp : Type 0 where
  pub op : Operation
  pub name : String
  pub lock_at_most_for : ℕ
  pub lock_at_least_for : ℕ
  pub created_at : Number
  pub locked_by : String
  pub token : String

pub data Reason : Type 0 where
  is_held not_owner expired missing : Reason

-- LockOpResult: `acquired` carries the token of the answer, empty where the answer has none.
pub data LockOpResult : Type 0 where
  done : LockOpResult
  acquired : String → LockOpResult
  extended : LockOpResult
  denied : Reason → LockOpResult

pub record DoLockStorage (W : Type 0) : Type 0 where
  pub get_record : String → Exec W (Option DoLockRecord)
  pub put_record : String → DoLockRecord → Exec W (Unit {0})

abbrev pub storage_key_for_lock : String → String
storage_key_for_lock name = "lock:" ++ name

-- createMemoryDoLockStorage
abbrev pub memory_storage : DoLockStorage (Table DoLockRecord)
memory_storage = record {
  get_record = λ key m. (ok (m key), m);
  put_record = λ key value m. (ok tt, put m key value);
}

abbrev pub stored_least_until : DoLockRecord → ℕ → ℕ
stored_least_until existing now = elim existing.lock_at_least_until [
  | none ↦ now
  | some until ↦ until
]

pub strict_future_deadline : ℕ → ℕ → Option ℕ
strict_future_deadline now duration =
    if leb (now + duration) now then none else some (now + duration)

abbrev owns_token : Option String → String → Bool
owns_token none token = false
owns_token (some t) token = not (token == "") && (not (t == "") && t == token)

abbrev pub owns : DoLockRecord → String → Bool
owns existing token = owns_token existing.token token

module _ {W : Type 0} (storage : DoLockStorage W) where
  -- From the read of the record on.
  abbrev store_and_answer : String → DoLockRecord → LockOpResult → Exec W LockOpResult
  store_and_answer key r answer = storage.put_record key r >>= λ _. pure answer

  abbrev pub still_held : ℕ → Option DoLockRecord → Bool
  still_held now none = false
  still_held now (some existing) = ltb now existing.lock_until

  pub apply_lock : ℕ → LockOp → String → Option DoLockRecord → Exec W LockOpResult
  unfolding strict_future_deadline
  apply_lock now body key existing =
      if still_held now existing
      then pure (denied is_held)
      else elim (strict_future_deadline now body.lock_at_most_for) [
        | none ↦ pure done
        | some lock_until ↦
            store_and_answer key
              (record {
                lock_until = lock_until;
                locked_at = now;
                locked_by = body.locked_by;
                token = some body.token;
                lock_at_least_until = some (now + body.lock_at_least_for);
              })
              (acquired body.token)
      ]

  pub apply_unlock : ℕ → LockOp → String → Option DoLockRecord → Exec W LockOpResult
  apply_unlock now body key none = pure done
  apply_unlock now body key (some existing) =
      if not (owns existing body.token)
      then pure done
      else store_and_answer key
          (record existing { lock_until = max now (stored_least_until existing now) }) done

  pub apply_extend : ℕ → LockOp → String → Option DoLockRecord → Exec W LockOpResult
  unfolding strict_future_deadline
  apply_extend now body key none = pure (denied missing)
  apply_extend now body key (some existing) =
      if not (owns existing body.token)
      then pure (denied not_owner)
      else if leb existing.lock_until now
      then pure (denied expired)
      else elim (strict_future_deadline now body.lock_at_most_for) [
        | none ↦ pure done
        | some lock_until ↦
            store_and_answer key
              (record existing {
                lock_until = lock_until;
                lock_at_least_until = some (
                    max (stored_least_until existing now) (max now (now + body.lock_at_least_for)));
              })
              extended
      ]

  abbrev pub apply_to : Operation → ℕ → LockOp → String → Option DoLockRecord → Exec W LockOpResult
  apply_to lock_op = apply_lock
  apply_to unlock_op = apply_unlock
  apply_to extend_op = apply_extend

  abbrev pub empty_token_refused : Operation → String → Bool
  empty_token_refused lock_op token = token == ""
  empty_token_refused unlock_op token = false
  empty_token_refused extend_op token = false

  unfoldable pub apply_lock_op : ℕ → LockOp → Exec W LockOpResult
  unfolding apply_lock apply_unlock apply_extend
  apply_lock_op now body =
      if empty_token_refused body.op body.token
      then pure (denied not_owner)
      else (storage.get_record (storage_key_for_lock body.name)
          >>= apply_to body.op now body (storage_key_for_lock body.name))
