-- ===== src/Tests/Packing.antt =====
-- Texts that hold two texts, for the tests of the providers that store records as text.
use Prim.Native.Char.{code}
use Prim.Native.String
use Prim.Native.String.{◌++◌}
use text.Mathlib.TextLemmas.{nil-append, cons-append}
use text.Mathlib.TextPositions.{slice-append_left, slice-append_right, len-append}
use tslock.Prelude.{ℕ, zero, suc, ◌≡◌, ap, ◌∙◌, String, eqb, if◌then◌else◌}
use tslock.Tests.Memory.{tally}

abbrev counted : ℕ × String → ℕ × String
counted (n, s) = (suc n, s)

-- The number of ones that a text begins with, and what follows the next character.
pub read_tally : String → ℕ × String
read_tally String.[] = (0, String.[])
read_tally (String.◌∷◌ c s) = if eqb (code c) 49 then counted (read_tally s) else (0, s)

read_tally-tally : (n : ℕ) (s : String) → read_tally (tally n ++ (String.◌∷◌ "0" s)) ≡ (n, s)
unfolding read_tally tally
read_tally-tally zero s = ap read_tally (nil-append (String.◌∷◌ "0" s))
read_tally-tally (suc n) s =
    ap read_tally (cons-append "1" (tally n) (String.◌∷◌ "0" s)) ∙ ap counted (read_tally-tally n s)

abbrev pub pack : String → String → String
pack a b = tally (String.len a) ++ (String.◌∷◌ "0" (a ++ b))

abbrev split : ℕ × String → String × String
split (n, s) = (String.slice s 0 n, String.slice s n (String.len s))

abbrev pub unpack : String → String × String
unpack s = split (read_tally s)

pub unpack-pack : (a b : String) → unpack (pack a b) ≡ (a, b)
unpack-pack a b =
    ap split (read_tally-tally (String.len a) (a ++ b))
    ∙ (ap (λ x. (x, String.slice (a ++ b) (String.len a) (String.len (a ++ b))))
          (slice-append_left a b)
        ∙ ap (λ x. (a, x))
            (ap (String.slice (a ++ b) (String.len a)) (len-append a b) ∙ slice-append_right a b))
