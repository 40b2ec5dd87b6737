-- ===== src/Core/Duration/Laws.antt =====
-- The texts that `parseDuration` of packages/core/src/duration.ts accepts, and their values.
use tslock.Prelude.{
  ℕ, ◌≡◌, ◌*◌, ◌↔◌, refl, sym, ap, ◌∙◌, subst, true, false, List, [], ◌∷◌, ◌++◌, some, All,
  Bool-cases, Option-cases, inl, inr, arith, ok,
}
use tslock.Core.Duration.{
  is_space, is_digit, trim, span_digits, digit_cons, number_of, multiplier, parse_split,
  parse_trimmed, parse_duration, text,
}
use tslock.Core.Duration.Trim.{Spaces, Inked, All-append, trim_padded, trim_split}

abbrev pub Digits : List ℕ → Type 0
Digits = All (λ c. is_digit c ≡ true)

-- White space, one digit or more, a unit or none, white space; the value is the number in decimal
-- times the unit's milliseconds.
pub record Spells (cs : List ℕ) (n : ℕ) : Type 0 where
  pub before : List ℕ
  pub digit : ℕ
  pub digits : List ℕ
  pub unit : List ℕ
  pub after : List ℕ
  pub factor : ℕ
  pub shape : cs ≡ before ++ ((digit ∷ (digits ++ unit)) ++ after)
  pub spaces_before : Spaces before
  pub spaces_after : Spaces after
  pub all_digits : Digits (digit ∷ digits)
  pub a_unit : multiplier unit ≡ some factor
  pub value : n ≡ number_of (digit ∷ digits) * factor

digit_inked : (c : ℕ) → is_digit c ≡ true → is_space c ≡ false
unfolding is_space
digit_inked c h = ground arith

Digits-Inked : (ds : List ℕ) → Digits ds → Inked ds
Digits-Inked [] h = tt
Digits-Inked (d ∷ ds) h = (digit_inked d h.0, Digits-Inked ds h.1)

unit-Inked : (u : List ℕ) {k : ℕ} → multiplier u ≡ some k → Inked u
unfolding multiplier is_space
unit-Inked [] h = tt
unit-Inked (c ∷ []) h = ground arith
unit-Inked (c ∷ d ∷ []) h = ground arith
unit-Inked (c ∷ d ∷ e ∷ cs) h = cc

unit_no_digit : (u : List ℕ) {k : ℕ} → multiplier u ≡ some k → span_digits u ≡ ([], u)
unfolding multiplier span_digits
unit_no_digit [] h = refl
unit_no_digit (c ∷ []) h = ground arith
unit_no_digit (c ∷ d ∷ []) h = ground arith
unit_no_digit (c ∷ d ∷ e ∷ cs) h = cc

span_digits-append :
    (ds u : List ℕ) → Digits ds → span_digits u ≡ ([], u) → span_digits (ds ++ u) ≡ (ds, u)
unfolding span_digits
span_digits-append [] u h e = e
span_digits-append (d ∷ ds) u h e =
    rw (h.0, span_digits) (ap (digit_cons d) (span_digits-append ds u h.1 e))

span_digits_split :
    (cs : List ℕ) → (cs ≡ (span_digits cs).0 ++ (span_digits cs).1) × Digits (span_digits cs).0
unfolding span_digits
span_digits_split [] = (refl, tt)
span_digits_split (c ∷ cs) = elim (Bool-cases (is_digit c)) [
  | inl e ↦ rw (e, span_digits) (let (s, h) = span_digits_split cs in (ap (◌∷◌ c) s, (e, h)))
  | inr e ↦ rw (e, span_digits) (refl, tt)
]

parse_split-Digits :
    (ds u : List ℕ) {n : ℕ}
    → parse_split (ds, u) ≡ ok n
    → (d : ℕ) × (ds' : List ℕ) × (k : ℕ) × (ds ≡ d ∷ ds')
      × (multiplier u ≡ some k)
      × (n ≡ number_of (d ∷ ds') * k)
unfolding parse_split
parse_split-Digits [] u h = cc
parse_split-Digits (d ∷ ds) u h = elim (Option-cases (multiplier u)) [
  | inl e ↦ cc (rw (e, parse_split) at h)
  | inr (k, e) ↦ (d, ds, k, refl, e, ground arith)
]

parse_split_unit :
    (d : ℕ) (ds u : List ℕ) (k : ℕ)
    → multiplier u ≡ some k
    → parse_split (d ∷ ds, u) ≡ ok (number_of (d ∷ ds) * k)
unfolding parse_split
parse_split_unit d ds u k e = rw (e, parse_split)

parse_trimmed_spelled :
    (d : ℕ) (ds u : List ℕ) (k : ℕ)
    → Digits (d ∷ ds)
    → multiplier u ≡ some k
    → parse_trimmed (d ∷ (ds ++ u)) ≡ ok (number_of (d ∷ ds) * k)
unfolding parse_trimmed
parse_trimmed_spelled d ds u k h e =
    ap parse_split (span_digits-append (d ∷ ds) u h (unit_no_digit u e))
    ∙ parse_split_unit d ds u k e

parse_trimmed_split :
    (cs : List ℕ) {n : ℕ} → parse_trimmed cs ≡ ok n → parse_split (span_digits cs) ≡ ok n
unfolding parse_trimmed
parse_trimmed_split [] h = cc
parse_trimmed_split (c ∷ cs) h = h

spelled : (cs : List ℕ) {n : ℕ} → Spells cs n → parse_duration (text cs) ≡ ok n
unfolding parse_duration
spelled cs s =
    ap parse_trimmed (
      ap trim shape
      ∙ trim_padded before digit (digits ++ unit) after spaces_before inked spaces_after)
    ∙ parse_trimmed_spelled digit digits unit factor all_digits a_unit
    ∙ ap ok (sym value)
  where
    open s use {
      before, digit, digits, unit, after, factor, shape, spaces_before, spaces_after, all_digits,
      a_unit, value,
    }

    inked : Inked (digit ∷ (digits ++ unit))
    inked =
        All-append _ (digit ∷ digits) unit (Digits-Inked (digit ∷ digits) all_digits)
          (unit-Inked unit a_unit)

spells : (cs : List ℕ) {n : ℕ} → parse_duration (text cs) ≡ ok n → Spells cs n
unfolding parse_duration
spells cs h =
    let (p, q, e, hp, hq) = trim_split cs in
    let (t, ht) = span_digits_split (trim cs) in
    let (d, ds, k, f, m, v) = parse_split-Digits _ _ (parse_trimmed_split (trim cs) h) in
    record {
      before = p;
      digit = d;
      digits = ds;
      unit = (span_digits (trim cs)).1;
      after = q;
      factor = k;
      shape = e ∙ ap (λ m. p ++ (m ++ q)) (t ∙ ap (λ l. l ++ (span_digits (trim cs)).1) f);
      spaces_before = hp;
      spaces_after = hq;
      all_digits = subst Digits f ht;
      a_unit = m;
      value = v;
    }

-- A text is accepted exactly when it spells a duration, and then its value is the one spelt.
pub parse_duration-eq-ok_iff :
    (cs : List ℕ) (n : ℕ) → (parse_duration (text cs) ≡ ok n) ↔ Spells cs n
parse_duration-eq-ok_iff cs n = (spells cs, spelled cs)
