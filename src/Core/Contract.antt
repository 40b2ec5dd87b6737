-- ===== src/Core/Contract.antt =====
-- What packages/core/src/lock-provider.ts promises of a `LockProvider`, as a specification over
-- a view of its store: the instant until which a name is held, 0 if it is not.
pub mod Exclusion
use tslock.Prelude.{
  ℕ, ◌≤◌, ◌≡◌, ◌⊎◌, max, arith, String, Option, none, some, Exec, Result, ok, throw, if◌then◌else◌,
  ◌==◌, refl, ◌∙◌,
}
use tslock.Core.Config.{LockConfiguration, lock_at_most_until, lock_at_least_until}

module _ {S : Type 0} (view : S → String → ℕ) where
  abbrev pub Puts : S → S → String → ℕ → Type 0
  Puts s s' name until = (k : String) → view s' k ≡ (if name == k then until else view s k)

  abbrev pub Same : S → S → Type 0
  Same s s' = (k : String) → view s' k ≡ view s k

  -- The name was free at the instant, and is then held until the configuration's end.
  abbrev pub Acquires : ℕ → LockConfiguration → S → S → Type 0
  Acquires now c s s' = (view s c.name ≤ now) × Puts s s' c.name (lock_at_most_until c)

  -- A call that is granted the lock acquires; one that is refused changes nothing that can be
  -- seen; one that throws has done the one or the other.
  abbrev pub Keeps {ℓ} : {L : Type ℓ} → ℕ → LockConfiguration → S → S → Result (Option L) → Type 0
  Keeps now c s s' (ok (some l)) = Acquires now c s s'
  Keeps now c s s' (ok none) = Same s s'
  Keeps now c s s' (throw e) = Same s s' ⊎ Acquires now c s s'

  -- An unlock at `now` leaves all names alone, or finds the name held to the end that the lock was
  -- taken for, and leaves it held for what is left of its minimum, if anything is.
  abbrev pub Unlocks : ℕ → LockConfiguration → S → S → Type 0
  Unlocks now c s s' =
      Same s s'
      ⊎ ((view s c.name ≡ lock_at_most_until c)
          × ((until : ℕ) × (lock_at_least_until c ≤ max now until) × Puts s s' c.name until))

  -- What other instances may do to the store while a call waits: no term that is not over at `now`
  -- is shortened.
  abbrev pub Rely : ℕ → S → S → Type 0
  Rely now s s' = (k : String) → view s k ≤ max now (view s' k)

  -- `P` holds of the store that others have left when the call takes effect; `Others` is what they
  -- may have done until then.
  abbrev pub Amid : (ℕ → S → S → Type 0) → ℕ → S → (S → Type 0) → Type 0
  Amid Others now s P = (s' : S) × Others now s s' × P s'

  abbrev pub Within : ℕ → S → (S → Type 0) → Type 0
  Within = Amid Rely

  -- `T` is what a call reads of the clock; `instant` is the reading that it decides by.
  abbrev pub ContractAmid :
      {T L : Type 0}
      → (ℕ → S → S → Type 0)
      → (T → ℕ)
      → (T → LockConfiguration → Exec S (Option L))
      → Type 0
  ContractAmid {T} Others instant lock =
      (t : T) (c : LockConfiguration) (s : S)
      → Amid Others (instant t) s (λ b. Keeps (instant t) c b (lock t c s).1 (lock t c s).0)

  abbrev pub LockContract :
      {T L : Type 0} → (T → ℕ) → (T → LockConfiguration → Exec S (Option L)) → Type 0
  LockContract = ContractAmid Rely

  -- Others may do nothing, and may go on after a call that changed nothing that can be seen.
  pub record Joinable (Others : ℕ → S → S → Type 0) : Type 0 where
    pub idle : (now : ℕ) (s : S) → Others now s s
    pub joins :
        (r s t u : S) {now later last : ℕ}
        → now ≤ last
        → later ≤ last
        → Others now r s
        → Same s t
        → Others later t u
        → Others last r u

  pub Rely-refl : (now : ℕ) (s : S) → Rely now s s
  Rely-refl now s k = omega arith

  -- A call that changed nothing, and one after it in the store that others have left then.
  pub Rely-trans :
      (r s t u : S) {now later last : ℕ}
      → now ≤ last
      → later ≤ last
      → Rely now r s
      → Same s t
      → Rely later t u
      → Rely last r u
  Rely-trans r s t u h g a same b k = omega (arith, a k, same k, b k)

  pub Rely-Joinable : Joinable Rely
  Rely-Joinable = record { idle = Rely-refl; joins = Rely-trans }

  -- Where no other instance acts.
  pub Same-Joinable : Joinable (λ now. Same)
  Same-Joinable = record {
    idle = λ now s k. refl;
    joins = λ r s t u h g a same b k. b k ∙ (same k ∙ a k);
  }

  pub Acquires-mono :
      (c : LockConfiguration) {r s : S} {now later : ℕ}
      → now ≤ later
      → Acquires now c r s
      → Acquires later c r s
  Acquires-mono c h a = (omega arith, a.1)
