-- ===== src/Backend.antt =====
-- What the storage accessors of packages/*/src share: how instants are written as text, and what
-- the drivers of versioned stores document. Drivers are not part of the repository, so they are
-- parameters of the accessors, and this file's predicates are what is relied on.
pub mod Laws
pub mod Transactions
use tslock.Prelude.{
  ℕ, ◌≡◌, ◌⊎◌, Bool, true, false, ◌&&◌, ◌||◌, String, Option, none, some, Exec, Result, ok, throw,
  Exception, external, DriverError, not, corrupted_record, ◌==◌, eqb, ltb, leb, if◌then◌else◌,
}
use tslock.Core.Contract.{Rely}

-- `new Date(ms).toISOString()` and `Date.parse`, `none` for NaN.
pub record IsoDates : Type 0 where
  pub to_iso_string : ℕ → String
  pub parse : String → Option ℕ
  pub parse-to_iso_string : (ms : ℕ) → parse (to_iso_string ms) ≡ some ms

-- The `lockUntil` of a record as a number; an empty text counts as missing.
module _ (dates : IsoDates) where
  abbrev parsed_text : Option ℕ → Result ℕ
  parsed_text none = throw corrupted_record
  parsed_text (some ms) = ok ms

  abbrev pub parse_lock_text : Option String → Result ℕ
  parse_lock_text none = throw corrupted_record
  parse_lock_text (some raw) =
      if raw == "" then throw corrupted_record else parsed_text (dates.parse raw)

abbrev pub is_text : Option String → String → Bool
is_text none s = false
is_text (some t) s = t == s

abbrev pub is_code : Option ℕ → ℕ → Bool
is_code none n = false
is_code (some m) n = eqb m n

-- `until > now` and `until <= now`; a comparison with NaN, or with what is missing, is false.
abbrev pub later_than : Option ℕ → ℕ → Bool
later_than none now = false
later_than (some until) now = ltb now until

abbrev pub over_at : Option ℕ → ℕ → Bool
over_at none now = false
over_at (some until) now = leb until now

-- `previousLockAtMostUntil !== undefined && lockUntil !== toIsoString(previousLockAtMostUntil)`
abbrev pub differs : IsoDates → Option ℕ → Option String → Bool
differs dates none lock_until = false
differs dates (some previous) lock_until = not (is_text lock_until (dates.to_iso_string previous))

-- `??`
abbrev pub or_else {ℓ} : {A : Type ℓ} → Option A → A → A
or_else none b = b
or_else (some a) b = a

-- A test of the errors that drivers throw.
abbrev pub on_external : (DriverError → Bool) → Exception → Bool
on_external test (external e) = test e
on_external test e = false

-- The `try` round a conditional write: `true` if it was made, `false` if its condition failed.
abbrev pub caught : {W : Type 0} → (Exception → Bool) → Result (Unit {0}) × W → Result Bool × W
caught refused (ok u, w) = (ok true, w)
caught refused (throw e, w) = if refused e then (ok false, w) else (throw e, w)

-- The same where the method returns nothing.
abbrev pub ignored : {W : Type 0} → Result Bool × W → Result (Unit {0}) × W
ignored (ok b, w) = (ok tt, w)
ignored (throw e, w) = (throw e, w)

-- `W` is the store with all else that the driver acts on, `V` what the accessor reads of an
-- object, `Ver` the version, generation or tag that the store gives each write.
module _ {W V Ver : Type 0} (object : W → String → Option (Ver × V)) where
  abbrev pub content : Option (Ver × V) → Option V
  content none = none
  content (some (v, d)) = some d

  abbrev pub content_at : W → String → Option V
  content_at w k = content (object w k)

  abbrev pub Untouched : W → W → Type 0
  Untouched w w' = (k : String) → content_at w' k ≡ content_at w k

  abbrev pub Writes : W → W → String → V → Type 0
  Writes w w' key d = (k : String) → content_at w' k ≡ (if key == k then some d else content_at w k)

  -- The object that a write asks for: the version, or `none` for no object.
  abbrev pub Expects : W → String → Option Ver → Type 0
  Expects w key none = object w key ≡ none
  Expects w key (some v) = (d : V) × (object w key ≡ some (v, d))

  -- A conditional write that succeeds found what it expected, and wrote; one that is refused by
  -- its condition did nothing; after any other error it may have written or not.
  abbrev pub Put : (Exception → Bool) → W → W → String → Option Ver → V → Result (Unit {0}) → Type 0
  Put refused w w' key expected d (ok u) = Expects w key expected × Writes w w' key d
  Put refused w w' key expected d (throw e) =
      (Untouched w w' ⊎ (Expects w key expected × Writes w w' key d))
      × (refused e ≡ true → Untouched w w')

  -- A read changes nothing, finds what is there, and reports that there is no object only if so.
  abbrev pub Got : (Exception → Bool) → W → W → String → Result (Ver × V) → Type 0
  Got not_found w w' key (ok o) = (w' ≡ w) × (object w key ≡ some o)
  Got not_found w w' key (throw e) = (w' ≡ w) × (not_found e ≡ true → object w key ≡ none)

  -- What one call reads of the clock, and what other instances do to the store between its read
  -- and its write: `Others` is what they may do, and a version names one content.
  module _ (Others : ℕ → W → W → Type 0) where
    pub record Turn : Type 0 where
      pub now : ℕ
      pub others : W → W
      pub polite : (w : W) → Others now w (others w)
      pub identifies :
          (w : W) (key : String) (v : Ver) (d d' : V)
          → object w key ≡ some (v, d)
          → object (others w) key ≡ some (v, d')
          → d ≡ d'
