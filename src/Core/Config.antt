-- ===== src/Core/Config.antt =====
-- packages/core/src/lock-configuration.ts, utils.ts and validate-identifier.ts. Instants and
-- durations are whole milliseconds. A read of the clock is an argument, one for each read.
pub mod Laws
use Prim.Native.Char.{code}
use Prim.Native.String
use tslock.Prelude.{
  ℕ, ◌+◌, ◌/◌, max, Bool, true, false, ◌&&◌, ◌||◌, not, String, Option, none, some, List, [], ◌∷◌,
  Result, ok, throw, and_then, Exception, invalid_identifier, empty_lock_name, control_characters,
  lock_name_too_long, negative_at_most_for, negative_at_least_for, at_least_above_at_most, ltb, leb,
  eqb, if◌then◌else◌, ◌==◌,
}
use tslock.Prelude.Int.{pos}
use tslock.Core.Duration.{DurationInput, number, finite, parse_duration, is_digit}

pub record LockConfiguration : Type 0 where
  pub name : String
  pub lock_at_most_for : ℕ
  pub lock_at_least_for : ℕ
  pub created_at : ℕ

abbrev pub lock_at_most_until : LockConfiguration → ℕ
lock_at_most_until config = config.created_at + config.lock_at_most_for

abbrev pub lock_at_least_until : LockConfiguration → ℕ
lock_at_least_until config = config.created_at + config.lock_at_least_for

abbrev pub unlock_time : ℕ → LockConfiguration → ℕ
unlock_time now config = max now (lock_at_least_until config)

-- Utils.toTtlSeconds
pub to_ttl_seconds : ℕ → ℕ
to_ttl_seconds ms = ms / 1000 + 1

abbrev pub codes : String → List ℕ
codes String.[] = []
codes (String.◌∷◌ c s) = code c ∷ codes s

unfoldable pub any_code : (ℕ → Bool) → List ℕ → Bool
any_code p [] = false
any_code p (c ∷ cs) = p c || any_code p cs

-- `control` is the regular expression engine's `[\p{Cc}\p{Cf}]`.
unfoldable pub validate_lock_name : (ℕ → Bool) → String → Result (Unit {0})
unfolding any_code
validate_lock_name control name =
    if any_code control (codes name)
    then throw control_characters
    else if ltb 1024 (String.len name)
    then throw lock_name_too_long
    else ok tt

unfoldable pub check_durations : String → ℕ → ℕ → ℕ → Result LockConfiguration
check_durations name most least now =
    if ltb most 0
    then throw negative_at_most_for
    else if ltb least 0
    then throw negative_at_least_for
    else if ltb most least
    then throw at_least_above_at_most
    else ok (record {
      name = name;
      lock_at_most_for = most;
      lock_at_least_for = least;
      created_at = now;
    })

abbrev pub default_at_least_for : Option DurationInput → DurationInput
default_at_least_for none = number (finite (pos 0))
default_at_least_for (some d) = d

unfoldable pub create_lock_config :
    (ℕ → Bool) → ℕ → String → DurationInput → Option DurationInput → Result LockConfiguration
create_lock_config control now name most least =
    if name == ""
    then throw empty_lock_name
    else and_then (validate_lock_name control name) λ _.
      and_then (parse_duration most) λ m.
        and_then (parse_duration (default_at_least_for least)) λ l. check_durations name m l now

-- IDENTIFIER_RE
abbrev is_identifier_start : ℕ → Bool
is_identifier_start c = (leb b'A' c && leb c b'Z') || (leb b'a' c && leb c b'z') || eqb c b'_'

is_identifier_rest : List ℕ → Bool
is_identifier_rest [] = true
is_identifier_rest (c ∷ cs) = (is_identifier_start c || is_digit c) && is_identifier_rest cs

pub is_identifier : List ℕ → Bool
unfolding is_identifier_rest
is_identifier [] = false
is_identifier (c ∷ cs) = is_identifier_start c && is_identifier_rest cs

pub validate_identifier : List ℕ → Result (Unit {0})
unfolding is_identifier
validate_identifier value = if is_identifier value then ok tt else throw invalid_identifier
