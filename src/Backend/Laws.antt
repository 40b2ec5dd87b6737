-- ===== src/Backend/Laws.antt =====
-- From what a driver documents to what a view of the store shows.
use tslock.Prelude.{
  refl, ◌∙◌, Option-cases, ◌==◌, ℕ, ◌≡◌, ◌≤◌, ◌<◌, ◌⊎◌, ap, Bool, true, false, String, Option, none,
  some, Result, ok, throw, Exception, arith, eq_iff, inl, inr, Bool-cases,
}
use tslock.Core.Config.{LockConfiguration, lock_at_most_until, lock_at_least_until}
use tslock.Core.Contract.{Puts, Same}
use tslock.Core.Storage.Contract.{Takes, Extends, Releases}
use tslock.Backend.{
  IsoDates, parse_lock_text, is_text, is_code, later_than, over_at, content, content_at, Untouched,
  Writes, Expects, Put, caught, ignored,
}

pub is_text-eq : (o : Option String) (s : String) → is_text o s ≡ true → o ≡ some s
is_text-eq none s e = ground arith
is_text-eq (some t) s e = ground (arith, eq_iff t s)

-- An end as a number, 0 where there is none.
abbrev pub until_of_number : Option ℕ → ℕ
until_of_number none = 0
until_of_number (some u) = u

pub over_unless_later :
    (o : Option ℕ) (now : ℕ) → later_than o now ≡ false → until_of_number o ≤ now
over_unless_later none now h = omega arith
over_unless_later (some u) now h = ground arith

pub is_code-number : (o : Option ℕ) (n : ℕ) → is_code o n ≡ true → until_of_number o ≡ n
is_code-number none n h = cc
is_code-number (some u) n h = ground arith

pub before_unless_over :
    (o : Option ℕ) (now previous : ℕ)
    → is_code o previous ≡ true
    → over_at o now ≡ false
    → now < previous
before_unless_over none now previous h n = cc
before_unless_over (some u) now previous h n = ground arith

module _ (dates : IsoDates) where
  abbrev pub until_of_parsed : Option ℕ → ℕ
  until_of_parsed = until_of_number

  -- The instant that a text says, 0 where it says none.
  abbrev pub until_of_text : Option String → ℕ
  until_of_text none = 0
  until_of_text (some t) = until_of_parsed (dates.parse t)

  pub parse_lock_text_cases :
      (raw : Option String)
      → ((e : Exception) × (parse_lock_text dates raw ≡ throw e))
        ⊎ (parse_lock_text dates raw ≡ ok (until_of_text raw))
  parse_lock_text_cases none = inl (_, refl)
  parse_lock_text_cases (some raw) = elim (Bool-cases (raw == "")) [
    | inl y ↦ rw y (inl (_, refl))
    | inr n ↦ rw n (elim (Option-cases (dates.parse raw)) [
      | inl p ↦ rw p (inl (_, refl))
      | inr (ms, p) ↦ rw p (inr refl)
    ])
  ]

  pub until_of_text-is_text :
      (raw : Option String) (until : ℕ)
      → is_text raw (dates.to_iso_string until) ≡ true
      → until_of_text raw ≡ until
  until_of_text-is_text raw until e =
      ap until_of_text (is_text-eq raw _ e) ∙ ap until_of_parsed (dates.parse-to_iso_string until)

module _ {W V Ver : Type 0} (object : W → String → Option (Ver × V)) (until_of : V → ℕ)
    (key : String → String) where
  -- Until when a name is held: what its object says, 0 without one.
  abbrev pub until_or_zero : Option V → ℕ
  until_or_zero none = 0
  until_or_zero (some d) = until_of d

  abbrev pub view : W → String → ℕ
  view w name = until_or_zero (content_at object w (key name))

module _ {W V Ver : Type 0} (object : W → String → Option (Ver × V)) (until_of : V → ℕ)
    (key : String → String) (key-injective : (m n : String) → key m ≡ key n → m ≡ n) where
  abbrev seen : W → String → ℕ
  seen = view object until_of key

  pub Untouched-Same : (w w' : W) → Untouched object w w' → Same seen w w'
  Untouched-Same w w' h name = ap (until_or_zero object until_of key) (h (key name))

  pub Writes-Puts :
      (w w' : W) (name : String) (d : V)
      → Writes object w w' (key name) d
      → Puts seen w w' name (until_of d)
  Writes-Puts w w' name d h k =
      ground (arith, h (key k), eq_iff (key name) (key k), eq_iff name k, key-injective name k)

  pub view_of :
      (w : W) (name : String) {v : Ver} {d : V}
      → object w (key name) ≡ some (v, d)
      → seen w name ≡ until_of d
  view_of w name e = ap (λ o. until_or_zero object until_of key (content object o)) e

  pub view_absent : (w : W) (name : String) → object w (key name) ≡ none → seen w name ≡ 0
  view_absent w name e = ap (λ o. until_or_zero object until_of key (content object o)) e

  -- What a caught write to the object of `name` comes to, for its condition and the new end.
  abbrev pub Wrote : W → W → String → Option Ver → ℕ → Type 0
  Wrote b w' name expected until = Expects object b (key name) expected × Puts seen b w' name until

  abbrev pub Outcome : W → W → String → Option Ver → ℕ → Result Bool → Type 0
  Outcome b w' name expected until (ok true) = Wrote b w' name expected until
  Outcome b w' name expected until (ok false) = Same seen b w'
  Outcome b w' name expected until (throw e) = Same seen b w' ⊎ Wrote b w' name expected until

  pub caught-Outcome :
      (refused : Exception → Bool) (b : W) (name : String) (expected : Option Ver) (d : V)
      (r : Result (Unit {0}) × W)
      → Put object refused b r.1 (key name) expected d r.0
      → Outcome b (caught refused r).1 name expected (until_of d) (caught refused r).0
  caught-Outcome refused b name expected d (ok u, w) h = (h.0, Writes-Puts b w name d h.1)
  caught-Outcome refused b name expected d (throw e, w) (h, same) = elim (Bool-cases (refused e)) [
    | inl yes_ ↦ rw yes_ (Untouched-Same b w (same yes_))
    | inr not_ ↦ rw not_ (elim h [
      | inl u ↦ inl (Untouched-Same b w u)
      | inr (x, p) ↦ inr (x, Writes-Puts b w name d p)
    ])
  ]

  pub Outcome-Takes :
      (now : ℕ) (c : LockConfiguration) (b w' : W) (expected : Option Ver) (until : ℕ)
      (q : Result Bool)
      → until ≡ lock_at_most_until c
      → (Expects object b (key c.name) expected → seen b c.name ≤ now)
      → Outcome b w' c.name expected until q
      → Takes seen now c b w' q
  Outcome-Takes now c b w' x u (ok true) e f h = (f h.0, rw (← e) h.1)
  Outcome-Takes now c b w' x u (ok false) e f h = h
  Outcome-Takes now c b w' x u (throw _) e f (inl h) = inl h
  Outcome-Takes now c b w' x u (throw _) e f (inr h) = inr (f h.0, rw (← e) h.1)

  pub Outcome-Extends :
      (now : ℕ) (c : LockConfiguration) (previous : ℕ) (b w' : W) (expected : Option Ver)
      (until : ℕ) (q : Result Bool)
      → until ≡ lock_at_most_until c
      → now < previous
      → (Expects object b (key c.name) expected → seen b c.name ≡ previous)
      → Outcome b w' c.name expected until q
      → Extends seen now c previous b w' q
  Outcome-Extends now c p b w' x u (ok true) e l f h = (f h.0, l, rw (← e) h.1)
  Outcome-Extends now c p b w' x u (ok false) e l f h = h
  Outcome-Extends now c p b w' x u (throw _) e l f (inl h) = inl h
  Outcome-Extends now c p b w' x u (throw _) e l f (inr h) = inr (f h.0, l, rw (← e) h.1)

  pub Outcome-Releases :
      (c : LockConfiguration) (b : W) (expected : Option Ver) (until : ℕ) (q : Result Bool × W)
      → lock_at_least_until c ≤ until
      → (Expects object b (key c.name) expected → seen b c.name ≡ lock_at_most_until c)
      → Outcome b q.1 c.name expected until q.0
      → Releases seen c b (ignored q).1
  Outcome-Releases c b x u (ok true, w) l f h = inr (f h.0, (u, l, h.1))
  Outcome-Releases c b x u (ok false, w) l f h = inl h
  Outcome-Releases c b x u (throw _, w) l f (inl h) = inl h
  Outcome-Releases c b x u (throw _, w) l f (inr h) = inr (f h.0, (u, l, h.1))
