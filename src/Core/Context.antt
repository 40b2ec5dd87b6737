-- ===== src/Core/Context.antt =====
-- packages/core/src/lock-assert.ts and lock-extender.ts: the locks that the running code is under.
-- Each AsyncLocalStorage is a field; `none` is no store. A store is a fresh object for each `run`,
-- so what is written in it is gone when the `run` returns.
use tslock.Prelude.{
  ℕ, Bool, false, String, Option, none, some, List, [], ◌∷◌, Exec, Result, ok, throw, ◌==◌, ◌||◌,
  not_locked, no_active_lock, can_not_be_extended,
}
use tslock.Core.Duration.{DurationInput, parse_duration}

-- `L` is the type of the locks.
pub record Context (L : Type 0) : Type 0 where
  pub asserted : Option (List String)
  pub active : Option (List L)

abbrev pub stack {ℓ} : {A : Type ℓ} → Option (List A) → List A
stack none = []
stack (some xs) = xs

unfoldable pub includes : List String → String → Bool
includes [] name = false
includes (x ∷ xs) name = x == name || includes xs name

module _ {L W : Type 0} where
  -- LockAssert.assertLocked
  unfoldable pub assert_locked : Exec (Context L × W) (Unit {0})
  assert_locked (c, w) = elim (stack c.asserted) [
    | [] ↦ (throw not_locked, (c, w))
    | n ∷ ns ↦ (ok tt, (c, w))
  ]

  -- LockAssert.runWithLock
  abbrev asserted_again {ℓ} :
      {A : Type ℓ} → Context L → Result A × (Context L × W) → Result A × (Context L × W)
  asserted_again c (r, (c', w)) = (r, (record c' { asserted = c.asserted }, w))

  unfoldable pub assert_with_lock {ℓ} :
      {A : Type ℓ} → String → Exec (Context L × W) A → Exec (Context L × W) A
  assert_with_lock name callback (c, w) =
      asserted_again c (callback (record c { asserted = some (name ∷ stack c.asserted) }, w))

  -- LockExtender.runWithLock
  abbrev active_again {ℓ} :
      {A : Type ℓ} → Context L → Result A × (Context L × W) → Result A × (Context L × W)
  active_again c (r, (c', w)) = (r, (record c' { active = c.active }, w))

  unfoldable pub extend_with_lock {ℓ} :
      {A : Type ℓ} → L → Exec (Context L × W) A → Exec (Context L × W) A
  extend_with_lock lock callback (c, w) =
      active_again c (callback (record c { active = some (lock ∷ stack c.active) }, w))

  -- LockExtender.extendActiveLock, where `extend` is the lock's own method.
  abbrev pub replaced :
      Context L → List L → Result (Option L) × W → Result (Unit {0}) × (Context L × W)
  replaced c rest (ok (some l), w) = (ok tt, (record c { active = some (l ∷ rest) }, w))
  replaced c rest (ok none, w) = (throw can_not_be_extended, (c, w))
  replaced c rest (throw e, w) = (throw e, (c, w))

  unfoldable pub extend_first :
      (L → ℕ → ℕ → Exec W (Option L))
      → L
      → List L
      → Result ℕ
      → Result ℕ
      → Context L × W
      → Result (Unit {0}) × (Context L × W)
  extend_first extend l rest (ok most) (ok least) (c, w) = replaced c rest (extend l most least w)
  extend_first extend l rest (ok most) (throw e) s = (throw e, s)
  extend_first extend l rest (throw e) r s = (throw e, s)

  unfoldable pub extend_active_lock :
      (L → ℕ → ℕ → Exec W (Option L))
      → DurationInput
      → DurationInput
      → Exec (Context L × W) (Unit {0})
  extend_active_lock extend most least (c, w) = elim (stack c.active) [
    | [] ↦ (throw no_active_lock, (c, w))
    | l ∷ rest ↦ extend_first extend l rest (parse_duration most) (parse_duration least) (c, w)
  ]

-- LockAssert.alreadyLockedBy
abbrev pub already_locked_by : {L : Type 0} → Context L → String → Bool
already_locked_by c name = includes (stack c.asserted) name

-- LockExtender.activeLock
abbrev pub first_or {ℓ} : {A : Type ℓ} → List A → A → A
first_or [] a = a
first_or (x ∷ xs) a = x
