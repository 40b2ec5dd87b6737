-- ===== src/Core/Lock.antt =====
-- packages/core/src/simple-lock.ts: the lock object, and the one that delegates. The subclasses'
-- `doUnlock` and `doExtend` are arguments; what they act on is a state `S` beside the object. They
-- are awaited: `meanwhile` is what overlapping calls of the same object make of its field `valid`
-- until then. `settle_unlock` and `settle_extend` are the methods from the `await` on.
pub mod Laws
use tslock.Prelude.{
  ℕ, Bool, true, false, Option, none, some, Exec, pure, raise, ◌>>=◌, ◌>>◌, Result, ok, throw,
  already_released, extend_not_supported,
}
use tslock.Core.Config.{LockConfiguration, lock_at_most_until}

-- AbstractSimpleLock
pub record LockObject : Type 0 where
  pub valid : Bool
  pub config : LockConfiguration

abbrev pub new_lock : LockConfiguration → LockObject
new_lock config = record { valid = true; config = config }

-- The configuration of an extension that is asked for at `created_at`.
abbrev pub extended_config : ℕ → ℕ → ℕ → LockConfiguration → LockConfiguration
extended_config created_at most least config = record config {
  lock_at_most_for = most;
  lock_at_least_for = least;
  created_at = created_at;
}

-- The optional `extend` of a DelegatingSimpleLock's delegate.
abbrev pub Delegate : Type 0 → Type 0
Delegate S = Option (LockConfiguration → ℕ → Exec S (Option LockObject))

module _ {S : Type 0} where
  -- What an awaited method does to the state beside the object.
  abbrev pub beside {ℓ} :
      {A : Type ℓ} → (Bool → Bool) → LockObject → Result A × S → Result A × (LockObject × S)
  beside meanwhile l (r, s) = (r, (record l { valid = meanwhile l.valid }, s))

  abbrev pub on_state {ℓ} :
      {A : Type ℓ} → (Bool → Bool) → (LockConfiguration → Exec S A) → Exec (LockObject × S) A
  on_state meanwhile m (l, s) = beside meanwhile l (m l.config s)

  unfoldable pub check_validity : Exec (LockObject × S) (Unit {0})
  check_validity (l, s) = elim l.valid [
    | true ↦ (ok tt, (l, s))
    | false ↦ (throw already_released, (l, s))
  ]

  pub invalidate : Exec (LockObject × S) (Unit {0})
  invalidate (l, s) = (ok tt, (record l { valid = false }, s))

  unfoldable pub settle_unlock :
      (Bool → Bool) → (LockConfiguration → Exec S (Unit {0})) → Exec (LockObject × S) (Unit {0})
  unfolding invalidate
  settle_unlock meanwhile do_unlock = on_state meanwhile do_unlock >> invalidate

  unfoldable pub unlock :
      (Bool → Bool) → (LockConfiguration → Exec S (Unit {0})) → Exec (LockObject × S) (Unit {0})
  unfolding check_validity settle_unlock
  unlock meanwhile do_unlock = check_validity >> settle_unlock meanwhile do_unlock

  -- `if (result !== undefined) this.valid = false; return result`
  pub keep_or_invalidate {ℓ} : {L : Type ℓ} → Option L → Exec (LockObject × S) (Option L)
  unfolding invalidate
  keep_or_invalidate none = pure none
  keep_or_invalidate (some l) = invalidate >> pure (some l)

  -- `doExtend` is given the lock's own configuration and the new one.
  unfoldable pub settle_extend {ℓ} :
      {L : Type ℓ}
      → (Bool → Bool)
      → (LockConfiguration → LockConfiguration → Exec S (Option L))
      → ℕ
      → ℕ
      → ℕ
      → Exec (LockObject × S) (Option L)
  unfolding keep_or_invalidate
  settle_extend meanwhile do_extend created_at most least =
      on_state meanwhile (λ config. do_extend config (extended_config created_at most least config))
      >>= keep_or_invalidate

  unfoldable pub extend {ℓ} :
      {L : Type ℓ}
      → (Bool → Bool)
      → (LockConfiguration → LockConfiguration → Exec S (Option L))
      → ℕ
      → ℕ
      → ℕ
      → Exec (LockObject × S) (Option L)
  unfolding check_validity settle_extend
  extend meanwhile do_extend created_at most least =
      check_validity >> settle_extend meanwhile do_extend created_at most least

  unfoldable pub delegating_do_extend :
      Delegate S → LockConfiguration → LockConfiguration → Exec S (Option LockObject)
  delegating_do_extend none config new_config = raise extend_not_supported
  delegating_do_extend (some f) config new_config = f new_config (lock_at_most_until config)
