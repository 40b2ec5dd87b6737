-- ===== src/Prelude/Effects.antt =====
-- Methods that read and write state and may throw. What was written before a throw stays written,
-- so the state comes back beside the exception too. An `await` is a bind.
use mathlib.Core.Option.{Option}
use Prim.Native.Nat.{ℕ}
use Prim.Native.String.{String}

-- What the code throws: its own exceptions, one constructor for each message or message template,
-- and those that come from outside, as a driver's error object reads: `name`, numeric `code` or
-- HTTP status, and `message`.
pub record DriverError : Type 0 where
  pub name : Option String
  pub code : Option ℕ
  pub message : String

pub data Exception : Type 0 where
  invalid_duration empty_duration invalid_duration_string : Exception
  empty_lock_name control_characters lock_name_too_long : Exception
  negative_at_most_for negative_at_least_for at_least_above_at_most : Exception
  already_released extend_not_supported : Exception
  not_locked no_active_lock can_not_be_extended : Exception
  keep_alive_lost keep_alive_too_short keep_alive_not_extensible keep_alive_no_extension : Exception
  max_failures_too_small : Exception
  record_not_found corrupted_record : Exception
  storage_key_too_long storage_key_empty no_etag invalid_option number_too_large : Exception
  request_failed no_ownership_token document_id_too_long bucket_required invalid_identifier :
      Exception
  provider_required at_most_for_required job_name_required : Exception
  external : DriverError → Exception

pub data Result {ℓ} (A : Type ℓ) : Type ℓ where
  ok : A → Result A
  throw : Exception → Result A

-- A method of an object or a store of type `S`.
abbrev pub Exec {ℓ} : Type 0 → Type ℓ → Type ℓ
Exec S A = S → Result A × S

module _ {S : Type 0} where
  abbrev pub pure {ℓ} : {A : Type ℓ} → A → Exec S A
  pure a s = (ok a, s)

  abbrev pub raise {ℓ} : {A : Type ℓ} → Exception → Exec S A
  raise e s = (throw e, s)

  abbrev pub continue {ℓ κ} :
      {A : Type ℓ} {B : Type κ} → Result A → (A → Exec S B) → S → Result B × S
  continue (ok a) f s = f a s
  continue (throw e) f s = (throw e, s)

  infixl 10 ◌>>=◌ ◌>>◌
  abbrev pub ◌>>=◌ {ℓ κ} : {A : Type ℓ} {B : Type κ} → Exec S A → (A → Exec S B) → Exec S B
  ◌>>=◌ m f s = let (r, s') = m s in continue r f s'

  abbrev pub ◌>>◌ {ℓ} : {B : Type ℓ} → Exec S (Unit {0}) → Exec S B → Exec S B
  m >> n = m >>= λ _. n

  -- `try { return await m } catch (e) { return await h(e) }`.
  abbrev pub handle {ℓ} : {A : Type ℓ} → Result A → (Exception → Exec S A) → S → Result A × S
  handle (ok a) h s = (ok a, s)
  handle (throw e) h s = h e s

  abbrev pub try_catch {ℓ} : {A : Type ℓ} → Exec S A → (Exception → Exec S A) → Exec S A
  try_catch m h s = let (r, s') = m s in handle r h s'

-- Results alone, for code that has no state.
abbrev pub and_then {ℓ κ} : {A : Type ℓ} {B : Type κ} → Result A → (A → Result B) → Result B
and_then (ok a) f = f a
and_then (throw e) f = throw e
