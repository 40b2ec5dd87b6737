-- ===== src/CloudflareKv/Confirm.antt =====
-- What the provider of packages/cloudflare-kv/src/cloudflare-kv-lock-provider.ts has read before it
-- hands out a lock.
use tslock.Prelude.{
  ℕ, ◌≡◌, refl, sym, subst, pure, if◌then◌else◌, true, ◌||◌, not, String, Option, none, some, Exec,
  Result, ok, throw, continue, ◌>>=◌, eq_iff, ◌==◌, leb, inl, inr, Bool-cases, arith,
}
use tslock.Core.Config.{LockConfiguration}
use tslock.Core.Lock.{new_lock}
use tslock.CloudflareKv.{
  CloudflareKvLockProvider, CloudflareKvLock, KvLockRecord, read, write, confirmed, lock, extend,
  lock_decided, extend_decided, storage_key, owned_by, held_at,
}

module _ {W : Type 0} {A : Type 0} (P : A → W → Type 0) where
  abbrev pub Gives : Result (Option A) × W → Type 0
  Gives (ok (some a), w) = P a w
  Gives (ok none, w) = Unit {0}
  Gives (throw e, w) = Unit {0}

  continue-Gives :
      {B : Type 0} (r : Result B) (w : W) (f : B → Exec W (Option A))
      → ((b : B) → r ≡ ok b → Gives (f b w))
      → Gives (continue r f w)
  continue-Gives (ok b) w f g = g b refl
  continue-Gives (throw e) w f g = tt

  then-Gives :
      {B : Type 0} (m : Exec W B) (f : B → Exec W (Option A)) (w : W)
      → ((b : B) (v : W) → m w ≡ (ok b, v) → Gives (f b v))
      → Gives ((m >>= f) w)
  then-Gives {B} m f w g = from (m w) refl
    where
      from : (r : Result B × W) → m w ≡ r → Gives (continue r.0 f r.1)
      from (ok b, v) e = g b v e
      from (throw x, v) e = tt

module _ {W : Type 0} (provider : CloudflareKvLockProvider W)
    (confirms : provider.config.confirm_write ≡ true) where
  -- The last that was done was a read of a key of the namespace, which showed the lock's token.
  abbrev pub ShownLast : CloudflareKvLock → W → Type 0
  ShownLast (l, token) w =
      (key : String) × (r : KvLockRecord) × (v : W) × (storage_key provider l.config.name ≡ ok key)
      × (read provider key v ≡ (ok (some r), w))
      × (r.token ≡ token)

  confirmed-Gives :
      (key : String) (config : LockConfiguration) (token : String) (w : W)
      → storage_key provider config.name ≡ ok key
      → Gives ShownLast (confirmed provider key config token w)
  unfolding confirmed
  confirmed-Gives key config token w at =
      subst (λ b. Gives ShownLast ((if b then (read provider key >>= answer) else pure granted) w))
        (sym confirms) (then-Gives ShownLast (read provider key) answer w shown)
    where
      granted : Option CloudflareKvLock
      granted = some (new_lock config, token)

      answer : Option KvLockRecord → Exec W (Option CloudflareKvLock)
      answer r = if owned_by provider token r then pure granted else pure none

      shown :
          (r : Option KvLockRecord) (v : W)
          → read provider key w ≡ (ok r, v)
          → Gives ShownLast (answer r v)
      shown none v e = tt
      shown (some r) v e = elim (Bool-cases (r.token == token)) [
        | inl y ↦ rw y (key, r, w, at, e, ground (arith, eq_iff r.token token))
        | inr n ↦ rw n tt
      ]

  written-Gives :
      (key : String) (config : LockConfiguration) (token : String) (r : KvLockRecord) (now : ℕ)
      (w : W)
      → storage_key provider config.name ≡ ok key
      → Gives ShownLast ((write provider key r now >>= λ u. confirmed provider key config token) w)
  written-Gives key config token r now w at =
      then-Gives ShownLast (write provider key r now) _ w
        (λ u v e. confirmed-Gives key config token v at)

  -- Where writes are confirmed, a lock that `lock` or `extend` hands out is one whose token the
  -- last operation, a read of the name's key, has found in the record there.
  pub handed_out-ShownLast :
      (now : ℕ) (config : LockConfiguration) (token : String) (w : W)
      → Gives ShownLast (lock provider now config w)
        × Gives ShownLast (extend provider now config token w)
  unfolding lock extend lock_decided extend_decided
  handed_out-ShownLast now config token w = (
    continue-Gives ShownLast (storage_key provider config.name) w _
        (λ key at. then-Gives ShownLast (read provider key) _ w (λ r v e. locked key at r v)),
    continue-Gives ShownLast (storage_key provider config.name) w _
        (λ key at. then-Gives ShownLast (read provider key) _ w (λ r v e. extended key at r v)),
  )
    where
      locked :
          (key : String)
          → storage_key provider config.name ≡ ok key
          → (r : Option KvLockRecord) (v : W)
          → Gives ShownLast (lock_decided provider now config key r v)
      locked key at r v = elim (Bool-cases (held_at provider now r)) [
        | inl y ↦ rw y tt
        | inr n ↦ rw n (
            then-Gives ShownLast provider.new_token _ v
              (λ made u e. written-Gives key config made _ now u at))
      ]

      extended :
          (key : String)
          → storage_key provider config.name ≡ ok key
          → (r : Option KvLockRecord) (v : W)
          → Gives ShownLast (extend_decided provider now config token key r v)
      extended key at none v = tt
      extended key at (some r) v =
          elim (Bool-cases (not (r.token == token) || leb r.lock_until now)) [
            | inl y ↦ rw y tt
            | inr n ↦ rw n (written-Gives key config token _ now v at)
          ]
