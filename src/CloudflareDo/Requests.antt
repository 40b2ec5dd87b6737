-- ===== src/CloudflareDo/Requests.antt =====
-- `handleTslockLockRequest` of packages/cloudflare-do/src/handle-lock-request.ts, and the provider
-- of cloudflare-do-lock-provider.ts. A request's body is what `request.json()` gives; a field that
-- is neither text nor number is `other`.
use tslock.Prelude.{
  ℕ, Bool, true, false, ◌&&◌, not, String, Option, none, some, Table, put, empty, ◌≡◌, refl, Exec,
  Result, ok, throw, pure, raise, ◌>>=◌, ◌==◌, leb, if◌then◌else◌, request_failed,
  no_ownership_token,
}
use tslock.Prelude.Int.{pos, negsuc}
use tslock.Core.Duration.{Number, finite, not_finite}
use tslock.Core.Config.{LockConfiguration}
use tslock.Core.Lock
use tslock.Core.Lock.{LockObject}
use tslock.CloudflareDo.{
  Operation, lock_op, unlock_op, extend_op, LockOp, LockOpResult, done, acquired, extended, denied,
  DoLockStorage, apply_lock_op,
}

pub data Value : Type 0 where
  text : String → Value
  number : Number → Value
  other : Value

pub data Body : Type 0 where
  fields : Table Value → Body
  no_object : Body

pub record Request : Type 0 where
  pub method : String
  pub json : Result Body

pub data Response : Type 0 where
  error_response : ℕ → Response
  result_response : LockOpResult → Response

-- The fields of a body by their types, where all are there; `token` is not empty.
abbrev text_of : Option Value → Option String
text_of (some (text s)) = some s
text_of (some (number n)) = none
text_of (some other) = none
text_of none = none

abbrev number_of : Option Value → Option Number
number_of (some (text s)) = none
number_of (some (number n)) = some n
number_of (some other) = none
number_of none = none

abbrev pub operation_of : String → Option Operation
operation_of s =
    if s == "lock"
    then some lock_op
    else if s == "unlock"
    then some unlock_op
    else if s == "extend"
    then some extend_op
    else none

abbrev chain {ℓ κ} : {A : Type ℓ} {B : Type κ} → Option A → (A → Option B) → Option B
chain none f = none
chain (some a) f = f a

-- `durationsAreValid`, and the durations as they are then.
abbrev pub valid_durations : Number → Number → Option (ℕ × ℕ)
valid_durations (finite (pos most)) (finite (pos least)) =
    if leb least most then some (most, least) else none
valid_durations (finite (pos most)) (finite (negsuc n)) = none
valid_durations (finite (pos most)) not_finite = none
valid_durations (finite (negsuc m)) least = none
valid_durations not_finite least = none

abbrev with_durations : Operation → String → Number → String → String → ℕ × ℕ → LockOp
with_durations op name created_at locked_by token (most, least) = record {
  op = op;
  name = name;
  lock_at_most_for = most;
  lock_at_least_for = least;
  created_at = created_at;
  locked_by = locked_by;
  token = token;
}

pub read_op : Table Value → Option LockOp
read_op body = chain (chain (text_of (body "op")) operation_of) λ op.
    chain (text_of (body "name")) λ name. chain (number_of (body "lockAtMostFor")) λ most.
      chain (number_of (body "lockAtLeastFor")) λ least.
        chain (number_of (body "createdAt")) λ created_at.
          chain (text_of (body "lockedBy")) λ locked_by. chain (text_of (body "token")) λ token.
            if token == ""
            then none
            else chain (valid_durations most least)
                (λ d. some (with_durations op name created_at locked_by token d))

module _ {W : Type 0} (storage : DoLockStorage W) where
  abbrev answered : Result LockOpResult × W → Result Response × W
  answered (ok r, w) = (ok (result_response r), w)
  answered (throw e, w) = (throw e, w)

  abbrev apply_read : ℕ → Option LockOp → Exec W Response
  apply_read now none = pure (error_response 400)
  apply_read now (some op) = λ w. answered (apply_lock_op storage now op w)

  abbrev apply_body : ℕ → Result Body → Exec W Response
  apply_body now (throw e) = pure (error_response 400)
  apply_body now (ok no_object) = pure (error_response 400)
  apply_body now (ok (fields body)) = apply_read now (read_op body)

  pub handle_tslock_lock_request : ℕ → Request → Exec W Response
  unfolding read_op
  handle_tslock_lock_request now request =
      if not (request.method == "POST")
      then pure (error_response 405)
      else apply_body now request.json

-- The `fetch` adapter's answer: the status, and the body's result.
pub record Answer : Type 0 where
  pub status : ℕ
  pub result : LockOpResult

-- CloudflareDoLockProvider; `token` is `crypto.randomUUID()`, `hostname` `Utils.getHostname()`.
module _ {W : Type 0} (fetch : LockOp → Exec W Answer) (hostname : String) where
  abbrev answer_ok : Answer → Bool
  answer_ok a = leb 200 a.status && leb a.status 299

  pub call : LockOp → Exec W LockOpResult
  call op = fetch op >>= λ a. if answer_ok a then pure a.result else raise request_failed

  abbrev pub request_for : Operation → LockConfiguration → String → LockOp
  request_for op config token = record {
    op = op;
    name = config.name;
    lock_at_most_for = config.lock_at_most_for;
    lock_at_least_for = config.lock_at_least_for;
    created_at = finite (pos config.created_at);
    locked_by = hostname;
    token = token;
  }

  abbrev locked : LockConfiguration → LockOpResult → Exec W (Option (LockConfiguration × String))
  locked config (acquired token) =
      if token == "" then raise no_ownership_token else pure (some (config, token))
  locked config done = pure none
  locked config extended = pure none
  locked config (denied reason) = pure none

  -- The lock object is its configuration and its token.
  pub lock : String → LockConfiguration → Exec W (Option (LockConfiguration × String))
  unfolding call
  lock token config = call (request_for lock_op config token) >>= locked config

  pub unlock : LockConfiguration → String → Exec W (Unit {0})
  unfolding call
  unlock config token =
      if token == "" then pure tt else (call (request_for unlock_op config token) >>= λ r. pure tt)

  abbrev extension : LockConfiguration → String → LockOpResult → Option (LockConfiguration × String)
  extension config token extended = some (config, token)
  extension config token done = none
  extension config token (acquired t) = none
  extension config token (denied reason) = none

  pub extend : LockConfiguration → String → Exec W (Option (LockConfiguration × String))
  unfolding call
  extend config token =
      if token == ""
      then pure none
      else (call (request_for extend_op config token) >>= λ r. pure (extension config token r))

  -- CloudflareDoLock
  unfoldable pub unlock_object : (Bool → Bool) → String → Exec (LockObject × W) (Unit {0})
  unfolding unlock
  unlock_object meanwhile token = Lock.unlock meanwhile λ config. unlock config token

  unfoldable pub extend_object :
      (Bool → Bool)
      → String
      → ℕ
      → ℕ
      → ℕ
      → Exec (LockObject × W) (Option (LockConfiguration × String))
  unfolding extend
  extend_object meanwhile token created_at =
      Lock.extend meanwhile (λ config new_config. extend new_config token) created_at

abbrev operation_name : Operation → String
operation_name lock_op = "lock"
operation_name unlock_op = "unlock"
operation_name extend_op = "extend"

-- `JSON.stringify` writes null for a number that is not finite.
abbrev json_number : Number → Value
json_number (finite z) = number (finite z)
json_number not_finite = other

-- What `JSON.stringify(op)` writes, read back by `request.json()`.
abbrev pub body_of : LockOp → Table Value
body_of op =
    put
      (put
        (put
          (put
            (put (put (put empty "op" (text (operation_name op.op))) "name" (text op.name))
              "lockAtMostFor" (json_number (finite (pos op.lock_at_most_for))))
            "lockAtLeastFor" (json_number (finite (pos op.lock_at_least_for))))
          "createdAt" (json_number op.created_at))
        "lockedBy" (text op.locked_by))
      "token" (text op.token)

abbrev if_finite : Number → LockOp → Option LockOp
if_finite (finite z) op = some op
if_finite not_finite op = none

-- What is left of an operation that is sent.
abbrev pub received : LockOp → Option LockOp
received op =
    if op.token == ""
    then none
    else if leb op.lock_at_least_for op.lock_at_most_for
    then if_finite op.created_at op
    else none

passed_on :
    (t b : Bool) (d : ℕ × ℕ) (f : ℕ × ℕ → LockOp)
    → (if t then none else chain (if b then some d else none) (λ d. some (f d)))
      ≡ (if t then none else if b then some (f d) else none)
passed_on true b d f = refl
passed_on false true d f = refl
passed_on false false d f = refl

abbrev nothing : Option LockOp
nothing = none

refused : (t b : Bool) → nothing ≡ (if t then none else if b then none else none)
refused true b = refl
refused false true = refl
refused false false = refl

-- An operation that is sent is read as it is where it has a token, its durations are in order and
-- its `created_at` is finite; any other is refused.
pub read_op-body_of : (op : LockOp) → read_op (body_of op) ≡ received op
unfolding read_op
read_op-body_of op = go op.op op.created_at refl refl
  where
    go :
        (o : Operation) (n : Number)
        → op.op ≡ o
        → op.created_at ≡ n
        → read_op (body_of op) ≡ received op
    go lock_op (finite z) e f = rw (e, f) (passed_on _ _ _ _)
    go unlock_op (finite z) e f = rw (e, f) (passed_on _ _ _ _)
    go extend_op (finite z) e f = rw (e, f) (passed_on _ _ _ _)
    go lock_op not_finite e f = rw (e, f) (refused _ _)
    go unlock_op not_finite e f = rw (e, f) (refused _ _)
    go extend_op not_finite e f = rw (e, f) (refused _ _)
