-- ===== src/Core/Duration.antt =====
-- packages/core/src/duration.ts. Numbers are whole; texts are lists of code points.
pub mod Trim
pub mod Laws
use mathlib.Core.List.{reverse}
use tslock.Prelude.{
  ℕ, ◌+◌, ◌-◌, ◌*◌, Bool, true, false, ◌&&◌, ◌||◌, Option, none, some, List, [], ◌∷◌, Result, ok,
  throw, invalid_duration, empty_duration, invalid_duration_string, leb, eqb, if◌then◌else◌,
}
use tslock.Prelude.Int.{ℤ, pos, negsuc, ◌+ℤ◌, ◌*ℤ◌}

-- A number as `parseDuration` tells them apart.
pub data Number : Type 0 where
  finite : ℤ → Number
  not_finite : Number

pub data DurationInput : Type 0 where
  number : Number → DurationInput
  text : List ℕ → DurationInput
  parts : Option ℤ → Option ℤ → Option ℤ → Option ℤ → DurationInput

-- The white space and line terminators that `String.prototype.trim` removes.
pub is_space : ℕ → Bool
is_space c =
    (leb 9 c && leb c 13)
    || eqb c 32
    || eqb c 160
    || eqb c 0x1680
    || (leb 0x2000 c && leb c 0x200a)
    || eqb c 0x2028
    || eqb c 0x2029
    || eqb c 0x202f
    || eqb c 0x205f
    || eqb c 0x3000
    || eqb c 0xfeff

pub drop_spaces : List ℕ → List ℕ
drop_spaces [] = []
drop_spaces (c ∷ cs) = elim (is_space c) [ true ↦ drop_spaces cs | false ↦ c ∷ cs ]

pub trim : List ℕ → List ℕ
trim cs = reverse (drop_spaces (reverse (drop_spaces cs)))

-- `\d`
abbrev pub is_digit : ℕ → Bool
is_digit c = leb 48 c && leb c 57

-- The longest run of digits at the front, and the rest.
abbrev pub digit_cons : ℕ → List ℕ × List ℕ → List ℕ × List ℕ
digit_cons c (ds, rest) = (c ∷ ds, rest)

pub span_digits : List ℕ → List ℕ × List ℕ
span_digits [] = ([], [])
span_digits (c ∷ cs) = elim (is_digit c) [
  | true ↦ digit_cons c (span_digits cs)
  | false ↦ ([], c ∷ cs)
]

-- `Number(valueStr)`, digit by digit.
pub number_from : ℕ → List ℕ → ℕ
number_from acc [] = acc
number_from acc (c ∷ cs) = number_from (acc * 10 + (c - 48)) cs

abbrev pub number_of : List ℕ → ℕ
number_of = number_from 0

-- The rest of the text as `(ms|s|m|h|d)?$`, and `UNIT_MULTIPLIERS`; no unit is milliseconds.
pub multiplier : List ℕ → Option ℕ
multiplier [] = some 1
multiplier (c ∷ []) =
    if eqb c b's'
    then some 1000
    else if eqb c b'm'
    then some 60000
    else if eqb c b'h'
    then some 3600000
    else if eqb c b'd'
    then some 86400000
    else none
multiplier (c ∷ d ∷ []) = if eqb c b'm' && eqb d b's' then some 1 else none
multiplier (c ∷ d ∷ e ∷ cs) = none

-- `STRING_PATTERN` on a trimmed text that is split after its digits.
pub parse_split : List ℕ × List ℕ → Result ℕ
parse_split ([], rest) = throw invalid_duration_string
parse_split (d ∷ ds, rest) = elim (multiplier rest) [
  | none ↦ throw invalid_duration_string
  | some k ↦ ok (number_of (d ∷ ds) * k)
]

pub parse_trimmed : List ℕ → Result ℕ
parse_trimmed [] = throw empty_duration
parse_trimmed (c ∷ cs) = parse_split (span_digits (c ∷ cs))

-- `total < 0` throws.
abbrev pub non_negative : ℤ → Result ℕ
non_negative (pos n) = ok n
non_negative (negsuc n) = throw invalid_duration

abbrev pub or_zero : Option ℤ → ℤ
or_zero none = pos 0
or_zero (some z) = z

abbrev pub total : Option ℤ → Option ℤ → Option ℤ → Option ℤ → ℤ
total hours minutes seconds millis =
    or_zero hours *ℤ pos 3600000
    +ℤ or_zero minutes *ℤ pos 60000
    +ℤ or_zero seconds *ℤ pos 1000
    +ℤ or_zero millis

unfoldable pub parse_duration : DurationInput → Result ℕ
unfolding trim drop_spaces is_space parse_trimmed parse_split span_digits multiplier number_from
parse_duration (number not_finite) = throw invalid_duration
parse_duration (number (finite z)) = non_negative z
parse_duration (text cs) = parse_trimmed (trim cs)
parse_duration (parts hours minutes seconds millis) =
    non_negative (total hours minutes seconds millis)
