-- ===== src/CloudFrontKvs/Count.antt =====
-- How often the methods of packages/cloudfront-kvs/src/cloudfront-kvs-lock-provider.ts write,
-- whatever the client answers.
use tslock.Prelude.{
  ap, ℕ, zero, suc, ◌≤◌, ◌≡◌, ◌+◌, refl, arith, String, Option, none, some, Exec, Result, ok, throw,
  continue, ◌>>=◌,
}
use tslock.Core.Config.{LockConfiguration, lock_at_most_until, unlock_time}
use tslock.Core.Lock.{new_lock}
use tslock.CloudFrontKvs.{
  CloudFrontKeyValueStoreClient, CloudFrontKvsLockProvider, CloudFrontKvsLockRecord, Attempt,
  for_attempts, settle, lock, unlock, extend, describe_etag, get_record, put_record, put_or_again,
  unless_conflict, absent_or_thrown, is_not_found, build_lock_record, or_created_at, storage_key,
  encode_lock_record, decoded, reading, lock_decided, unlock_decided, extend_decided,
}

module _ {W : Type 0} (writes : W → ℕ) where
  abbrev AtMost {ℓ} : {A : Type ℓ} → ℕ → Exec W A → Type 0
  AtMost n m = (w : W) → writes (m w).1 ≤ n + writes w

  -- What the client and other instances do to the count.
  pub record Counted (client : CloudFrontKeyValueStoreClient W) : Type 0 where
    pub describes : (w : W) → writes (client.describe w).1 ≡ writes w
    pub gets : (key : String) (w : W) → writes (client.get_key key w).1 ≡ writes w
    pub puts :
        (key value etag : String) (w : W)
        → writes (client.put_key key value etag w).1 ≤ 1 + writes w

  pub record Uncounted (attempt : Attempt W) : Type 0 where
    pub before : (w : W) → writes (attempt.before w) ≡ writes w
    pub others : (w : W) → writes (attempt.others w) ≡ writes w

  continue-AtMost {ℓ κ} :
      {A : Type ℓ} {B : Type κ} (n : ℕ) (r : Result A) (f : A → Exec W B)
      → ((a : A) → AtMost n (f a))
      → AtMost n (continue r f)
  continue-AtMost n (ok a) f h w = h a w
  continue-AtMost n (throw e) f h w = omega arith

  bind-AtMost {ℓ κ} :
      {A : Type ℓ} {B : Type κ} (n k : ℕ) (m : Exec W A) (f : A → Exec W B)
      → AtMost n m
      → ((a : A) → AtMost k (f a))
      → AtMost (k + n) (m >>= f)
  bind-AtMost n k m f g h w = omega (arith, continue-AtMost k (m w).0 f h (m w).1, g w)

  settle-AtMost :
      {A : Type 0} (n : ℕ) (rest : Exec W A) (o : Option A)
      → AtMost n rest
      → AtMost n (settle rest o)
  settle-AtMost n rest none h w = h w
  settle-AtMost n rest (some a) h w = omega arith

  for_attempts-AtMost :
      {A : Type 0} (n : ℕ) (body : ℕ → Exec W (Option A)) (last : A)
      → ((i : ℕ) → AtMost 1 (body i))
      → AtMost n (for_attempts n body last)
  unfolding for_attempts
  for_attempts-AtMost zero body last h w = omega arith
  for_attempts-AtMost (suc n) body last h w =
      let rest = for_attempts n (λ i. body (suc i)) last in
      let after =
        continue-AtMost n (body 0 w).0 (settle rest)
          (λ o.
            settle-AtMost n rest o
              (for_attempts-AtMost n (λ i. body (suc i)) last (λ i. h (suc i))))
          (body 0 w).1 in
      omega (arith, after, h 0 w)

  module _ (provider : CloudFrontKvsLockProvider W) (counted : Counted provider.client) where
    open provider use {client, dates, json, byte_length, prefix, max_etag_retries, hostname}

    unless_conflict-same :
        {A : Type 0} (a : A) (r : Result (Unit {0}) × W) → (unless_conflict provider a r).1 ≡ r.1
    unless_conflict-same a (ok u, w) = refl
    unless_conflict-same a (throw e, w) = ground arith

    absent_or_thrown-same :
        (r : Result (Option CloudFrontKvsLockRecord) × W) → (absent_or_thrown provider r).1 ≡ r.1
    absent_or_thrown-same (ok u, w) = refl
    absent_or_thrown-same (throw e, w) = ground arith

    abbrev writing : CloudFrontKvsLockRecord → String → String → Exec W (Unit {0})
    writing r etag key = client.put_key key (json.stringify r) etag

    put-AtMost :
        {A : Type 0} (name : String) (r : CloudFrontKvsLockRecord) (etag : String) (a : A)
        → AtMost 1 (put_or_again provider name r etag a)
    unfolding put_or_again put_record encode_lock_record
    put-AtMost name r etag a w =
        let key = storage_key byte_length prefix name in
        let done =
          continue-AtMost 1 key (writing r etag) (λ key. counted.puts key (json.stringify r) etag)
            w in
        omega (arith, ap writes (unless_conflict-same a (continue key (writing r etag) w)), done)

    abbrev fetched : String → Exec W (Option CloudFrontKvsLockRecord)
    fetched key = client.get_key key >>= λ value. λ w. (decoded provider value, w)

    fetched-AtMost : (key : String) → AtMost 0 (fetched key)
    fetched-AtMost key =
        bind-AtMost 0 0 (client.get_key key) (λ value w. (decoded provider value, w))
          (λ w. omega (arith, counted.gets key w)) (λ v w. omega arith)

    reading-AtMost :
        (attempt : Attempt W) (name : String)
        → Uncounted attempt
        → AtMost 0 (reading provider attempt name)
    unfolding get_record is_not_found
    reading-AtMost attempt name u w =
        let key = storage_key byte_length prefix name in
        let done = continue-AtMost 0 key fetched fetched-AtMost (attempt.before w) in
        omega (
          arith,
          u.before w,
          ap writes (absent_or_thrown-same (continue key fetched (attempt.before w))),
          done,
        )

    describe_etag-AtMost : AtMost 0 (describe_etag provider)
    unfolding describe_etag
    describe_etag-AtMost =
        bind-AtMost 0 0 client.describe _ (λ w. omega (arith, counted.describes w))
          (λ v w. omega arith)

    -- A method's attempt writes once at most if what it decides does.
    attempt-AtMost :
        {A : Type 0} (attempt : Attempt W) (name : String)
        (decide : String → Option CloudFrontKvsLockRecord → Exec W (Option A))
        → Uncounted attempt
        → ((etag : String) (o : Option CloudFrontKvsLockRecord) → AtMost 1 (decide etag o))
        → AtMost 1
            (describe_etag provider >>= λ etag. reading provider attempt name >>= decide etag)
    attempt-AtMost {A} attempt name decide u h =
        bind-AtMost 0 1 (describe_etag provider)
          (λ etag. reading provider attempt name >>= decide etag) describe_etag-AtMost
          λ etag.
            bind-AtMost 0 1 (reading provider attempt name) (decide etag)
              (reading-AtMost attempt name u) (h etag)

    lock_decided-AtMost :
        (attempt : Attempt W) (c : LockConfiguration)
        → Uncounted attempt
        → (etag : String) (o : Option CloudFrontKvsLockRecord)
        → AtMost 1 (lock_decided provider attempt c etag o)
    unfolding lock_decided
    lock_decided-AtMost attempt c u etag o w =
        let put =
          put-AtMost c.name
            (build_lock_record dates json (lock_at_most_until c) c.created_at hostname) etag
            (some (new_lock c)) (attempt.others w) in
        ground (arith, put, u.others w)

    unlock_decided-AtMost :
        (attempt : Attempt W) (c : LockConfiguration)
        → Uncounted attempt
        → (etag : String) (o : Option CloudFrontKvsLockRecord)
        → AtMost 1 (unlock_decided provider attempt c etag o)
    unfolding unlock_decided
    unlock_decided-AtMost attempt c u etag none w = omega arith
    unlock_decided-AtMost attempt c u etag (some e) w =
        let put =
          put-AtMost c.name
            (build_lock_record dates json (unlock_time attempt.now c)
              (or_created_at (dates.parse e.locked_at) c.created_at) e.locked_by)
            etag tt (attempt.others w) in
        ground (arith, put, u.others w)

    extend_decided-AtMost :
        (attempt : Attempt W) (c : LockConfiguration) (previous : Option ℕ)
        → Uncounted attempt
        → (etag : String) (o : Option CloudFrontKvsLockRecord)
        → AtMost 1 (extend_decided provider attempt c previous etag o)
    unfolding extend_decided
    extend_decided-AtMost attempt c previous u etag none w = omega arith
    extend_decided-AtMost attempt c previous u etag (some e) w =
        let put =
          put-AtMost c.name
            (build_lock_record dates json (lock_at_most_until c)
              (or_created_at (dates.parse e.locked_at) c.created_at) hostname)
            etag (some (new_lock c)) (attempt.others w) in
        ground (arith, put, u.others w)

    -- Whatever the client answers and others do in between, where the client's other calls are not
    -- writes, a call of `lock`, `unlock` or `extend` ends after `max_etag_retries` writes at most.
    pub writes_at_most_retries :
        (attempts : ℕ → Attempt W) (c : LockConfiguration) (previous : Option ℕ)
        → ((i : ℕ) → Uncounted (attempts i))
        → (w : W)
        → (writes (lock provider attempts c w).1 ≤ max_etag_retries + writes w)
          × (writes (unlock provider attempts c w).1 ≤ max_etag_retries + writes w)
          × (writes (extend provider attempts c previous w).1 ≤ max_etag_retries + writes w)
    unfolding lock unlock extend
    writes_at_most_retries attempts c previous u w = (
      for_attempts-AtMost max_etag_retries _ none
          (λ i.
            attempt-AtMost (attempts i) c.name (lock_decided provider (attempts i) c) (u i)
              (lock_decided-AtMost (attempts i) c (u i)))
          w,
      for_attempts-AtMost max_etag_retries _ tt
          (λ i.
            attempt-AtMost (attempts i) c.name (unlock_decided provider (attempts i) c) (u i)
              (unlock_decided-AtMost (attempts i) c (u i)))
          w,
      for_attempts-AtMost max_etag_retries _ none
          (λ i.
            attempt-AtMost (attempts i) c.name (extend_decided provider (attempts i) c previous)
              (u i) (extend_decided-AtMost (attempts i) c previous (u i)))
          w,
    )
