-- ===== src/Core/Storage/Contract.antt =====
-- What packages/core/src/storage-based-lock-provider.ts asks of a `StorageAccessor`, over a view
-- of its store: until when a name is held.
use tslock.Prelude.{ℕ, ◌≤◌, ◌<◌, ◌≡◌, ◌⊎◌, String, Bool, true, false, some, Result, ok, throw}
use tslock.Core.Config.{LockConfiguration, lock_at_most_until, lock_at_least_until}
use tslock.Core.Contract.{Puts, Same, Acquires, Amid, Rely}
use tslock.Core.Storage.{StorageAccessor}

module _ {S : Type 0} (view : S → String → ℕ) where
  -- `true` says that the lock was taken, `false` that nothing changed.
  abbrev pub Takes : ℕ → LockConfiguration → S → S → Result Bool → Type 0
  Takes now c s s' (ok true) = Acquires view now c s s'
  Takes now c s s' (ok false) = Same view s s'
  Takes now c s s' (throw e) = Same view s s' ⊎ Acquires view now c s s'

  -- The lock that ends at `previous` is still held, and ends with `c` from now on.
  abbrev pub Prolongs : ℕ → LockConfiguration → ℕ → S → S → Type 0
  Prolongs now c previous s s' =
      (view s c.name ≡ previous) × (now < previous) × Puts view s s' c.name (lock_at_most_until c)

  abbrev pub Extends : ℕ → LockConfiguration → ℕ → S → S → Result Bool → Type 0
  Extends now c previous s s' (ok true) = Prolongs now c previous s s'
  Extends now c previous s s' (ok false) = Same view s s'
  Extends now c previous s s' (throw e) = Same view s s' ⊎ Prolongs now c previous s s'

  -- Nothing happens, or the lock that ends with `c` is dated anew, to no earlier than the end of
  -- its minimum.
  abbrev pub Releases : LockConfiguration → S → S → Type 0
  Releases c s s' =
      Same view s s'
      ⊎ ((view s c.name ≡ lock_at_most_until c)
          × ((until : ℕ) × (lock_at_least_until c ≤ until) × Puts view s s' c.name until))

  pub record AccessorContractAmid {T : Type 0} (Others : ℕ → S → S → Type 0) (instant : T → ℕ)
      (accessor : StorageAccessor S T) : Type 0 where
    pub inserts :
        (t : T) (c : LockConfiguration) (s : S)
        → Amid view Others (instant t) s (λ b.
          Takes (instant t) c b (accessor.insert_record t c s).1 (accessor.insert_record t c s).0)
    pub updates :
        (t : T) (c : LockConfiguration) (s : S)
        → Amid view Others (instant t) s (λ b.
          Takes (instant t) c b (accessor.update_record t c s).1 (accessor.update_record t c s).0)
    pub releases :
        (t : T) (c : LockConfiguration) (s : S)
        → Amid view Others (instant t) s (λ b. Releases c b (accessor.unlock t c s).1)
    pub prolongs :
        (t : T) (c : LockConfiguration) (previous : ℕ) (s : S)
        → Amid view Others (instant t) s (λ b.
          Extends
            (instant t)
            c
            previous
            b
            (accessor.extend t c (some previous) s).1
            (accessor.extend t c (some previous) s).0)

  -- Others shorten no term that is not over.
  abbrev pub AccessorContract : {T : Type 0} → (T → ℕ) → StorageAccessor S T → Type 0
  AccessorContract = AccessorContractAmid (Rely view)
