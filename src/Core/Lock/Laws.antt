-- ===== src/Core/Lock/Laws.antt =====
-- How often a lock object of packages/core/src/simple-lock.ts is used up by calls that may overlap:
-- a call checks the object when it begins, and settles at any later time, in any order.
use tslock.Prelude.{
  ℕ, zero, suc, ◌+◌, ◌≤◌, ◌≡◌, refl, max, Bool, true, false, Option, none, some, List, [], ◌∷◌,
  Exec, Result, ok, throw, arith, eqb, ap, sym, subst, if◌then◌else◌,
}
use tslock.Core.Config.{LockConfiguration}
use tslock.Core.Lock.{LockObject, check_validity, settle_unlock, settle_extend}

pub data LockCall : Type 0 where
  unlocks : LockCall
  extends : ℕ → ℕ → ℕ → LockCall

-- `settles i` is of the call that is the i-th in flight, the latest first.
pub data LockEvent : Type 0 where
  begins : LockCall → LockEvent
  settles : ℕ → LockEvent

-- Whether a call used the lock up: an unlock that returned, an extension that gave a lock.
abbrev unlocked : Result (Unit {0}) → Bool
unlocked (ok u) = true
unlocked (throw e) = false

abbrev extended {ℓ} : {L : Type ℓ} → Result (Option L) → Bool
extended (ok (some l)) = true
extended (ok none) = false
extended (throw e) = false

abbrev one_if : Bool → ℕ
one_if true = 1
one_if false = 0

abbrev in_flight : {A : Type 0} → List A → ℕ
in_flight [] = 0
in_flight (x ∷ xs) = suc (in_flight xs)

abbrev and_first : {A : Type 0} → A → Option (A × List A) → Option (A × List A)
and_first x none = none
and_first x (some (y, ys)) = some (y, x ∷ ys)

pub take_out : {A : Type 0} → ℕ → List A → Option (A × List A)
take_out n [] = none
take_out zero (x ∷ xs) = some (x, xs)
take_out (suc n) (x ∷ xs) = and_first x (take_out n xs)

-- What is taken out leaves one less.
abbrev Shorter : {A : Type 0} → ℕ → Option (A × List A) → Type 0
Shorter n none = Unit
Shorter n (some (x, xs)) = suc (in_flight xs) ≡ n

and_first-Shorter :
    {A : Type 0} (x : A) (n : ℕ) (o : Option (A × List A))
    → Shorter n o
    → Shorter (suc n) (and_first x o)
and_first-Shorter x n none h = tt
and_first-Shorter x n (some (y, ys)) h = ap suc h

take_out-Shorter : {A : Type 0} (n : ℕ) (xs : List A) → Shorter (in_flight xs) (take_out n xs)
unfolding take_out
take_out-Shorter n [] = tt
take_out-Shorter zero (x ∷ xs) = refl
take_out-Shorter (suc n) (x ∷ xs) = and_first-Shorter x _ _ (take_out-Shorter n xs)

module _ {S L : Type 0} (do_unlock : LockConfiguration → Exec S (Unit {0}))
    (do_extend : LockConfiguration → LockConfiguration → Exec S (Option L)) where
  -- The calls in flight, the object, and what it locks.
  abbrev pub Flight : Type 0
  Flight = List LockCall × (LockObject × S)

  abbrev begun : LockCall → List LockCall → Result (Unit {0}) × (LockObject × S) → Flight
  begun c cs (ok u, o) = (c ∷ cs, o)
  begun c cs (throw e, o) = (cs, o)

  -- What overlaps a call is the other events, so nothing happens meanwhile within one.
  settle : LockCall → LockObject × S → Bool × (LockObject × S)
  settle unlocks o = let (r, o') = settle_unlock (λ v. v) do_unlock o in (unlocked r, o')
  settle (extends created_at most least) o =
      let (r, o') = settle_extend (λ v. v) do_extend created_at most least o in (extended r, o')

  abbrev settled : Flight → Option (LockCall × List LockCall) → Bool × Flight
  settled (cs, o) none = (false, (cs, o))
  settled (cs, o) (some (c, rest)) = let (b, o') = settle c o in (b, (rest, o'))

  -- Whether the event uses the lock up, and what is then.
  pub step : LockEvent → Flight → Bool × Flight
  step (begins c) (cs, o) = (false, begun c cs (check_validity o))
  step (settles i) (cs, o) = settled (cs, o) (take_out i cs)

  -- How many calls of a history use the lock up, what the history leaves behind, and how many
  -- calls are in flight at once at most.
  pub uses : List LockEvent → Flight → ℕ
  uses [] f = 0
  uses (e ∷ es) f = one_if (step e f).0 + uses es (step e f).1

  pub run : List LockEvent → Flight → Flight
  run [] f = f
  run (e ∷ es) f = run es (step e f).1

  pub peak : List LockEvent → Flight → ℕ
  peak [] f = in_flight f.0
  peak (e ∷ es) f = max (in_flight f.0) (peak es (step e f).1)

  -- What has used the object up has made it invalid, and anything else leaves that as it is.
  settle-valid :
      (c : LockCall) (l : LockObject) (s : S)
      → (settle c (l, s)).1.0.valid ≡ (if (settle c (l, s)).0 then false else l.valid)
  unfolding settle settle_unlock settle_extend
  settle-valid unlocks l s = ground arith
  settle-valid (extends t m n) l s = ground arith

  begin-refused :
      (c : LockCall) (cs : List LockCall) (l : LockObject) (s : S)
      → l.valid ≡ false
      → step (begins c) (cs, (l, s)) ≡ (false, (cs, (l, s)))
  unfolding step check_validity
  begin-refused c cs l s h = ground arith

  begin-allowed :
      (c : LockCall) (cs : List LockCall) (l : LockObject) (s : S)
      → l.valid ≡ true
      → step (begins c) (cs, (l, s)) ≡ (false, (c ∷ cs, (l, s)))
  unfolding step check_validity
  begin-allowed c cs l s h = ground arith

  -- What is to come after a step from an object that is used up, and from one that is not, with
  -- `n` calls in flight.
  abbrev Spends : List LockEvent → ℕ → Bool × Flight → Type 0
  Spends es n (b, f) = (one_if b + uses es f ≤ n) × ((run es f).1.0.valid ≡ false)

  abbrev Bounded : List LockEvent → ℕ → Bool × Flight → Type 0
  Bounded es n (b, f) =
      (one_if b + uses es f ≤ max n (peak es f))
      × ((run es f).1.0.valid ≡ eqb (one_if b + uses es f) 0)

  Spends-suc :
      (es : List LockEvent) (n : ℕ) (b : Bool) (f : Flight)
      → Spends es n (false, f)
      → Spends es (suc n) (b, f)
  Spends-suc es n true f (u, v) = (omega arith, v)
  Spends-suc es n false f (u, v) = (omega arith, v)

  settled-Spends :
      (es : List LockEvent) (cs : List LockCall) (l : LockObject) (s : S)
      (o : Option (LockCall × List LockCall))
      → l.valid ≡ false
      → ((cs : List LockCall) (l : LockObject) (s : S)
          → l.valid ≡ false
          → Spends es (in_flight cs) (false, (cs, (l, s))))
      → Shorter (in_flight cs) o
      → Spends es (in_flight cs) (settled (cs, (l, s)) o)
  settled-Spends es cs l s none h after d = after cs l s h
  settled-Spends es cs l s (some (c, rest)) h after d =
      subst (λ n. Spends es n (settled (cs, (l, s)) (some (c, rest)))) d
        (Spends-suc es (in_flight rest) _ _ (after rest _ _ (ground (arith, settle-valid c l s))))

  -- Once the object is used up, only calls that are in flight then can use it up again.
  spent :
      (es : List LockEvent) (cs : List LockCall) (l : LockObject) (s : S)
      → l.valid ≡ false
      → Spends es (in_flight cs) (false, (cs, (l, s)))
  unfolding uses run step
  spent [] cs l s h = (omega arith, h)
  spent (begins c ∷ es) cs l s h =
      let (u, v) =
        subst (Spends es (in_flight cs)) (sym (begin-refused c cs l s h)) (spent es cs l s h) in
      (omega arith, v)
  spent (settles i ∷ es) cs l s h =
      let (u, v) = settled-Spends es cs l s (take_out i cs) h (spent es) (take_out-Shorter i cs) in
      (omega arith, v)

  step-Bounded :
      (es : List LockEvent) (n : ℕ) (b : Bool) (f : Flight)
      → (b ≡ true → Spends es n (true, f))
      → (b ≡ false → (uses es f ≤ peak es f) × ((run es f).1.0.valid ≡ eqb (uses es f) 0))
      → Bounded es n (b, f)
  step-Bounded es n true f h k = let (u, v) = h refl in (omega arith, ground arith)
  step-Bounded es n false f h k = let (u, v) = k refl in (omega arith, ground arith)

  settled-Bounded :
      (es : List LockEvent) (cs : List LockCall) (l : LockObject) (s : S)
      (o : Option (LockCall × List LockCall))
      → l.valid ≡ true
      → ((cs : List LockCall) (l : LockObject) (s : S)
          → l.valid ≡ true
          → (uses es (cs, (l, s)) ≤ peak es (cs, (l, s)))
            × ((run es (cs, (l, s))).1.0.valid ≡ eqb (uses es (cs, (l, s))) 0))
      → Shorter (in_flight cs) o
      → Bounded es (in_flight cs) (settled (cs, (l, s)) o)
  settled-Bounded es cs l s none h after d =
      step-Bounded es (in_flight cs) false (cs, (l, s)) (λ e. cc) (λ e. after cs l s h)
  settled-Bounded es cs l s (some (c, rest)) h after d =
      step-Bounded es (in_flight cs) (settle c (l, s)).0 (rest, (settle c (l, s)).1)
        (λ e.
          subst (λ n. Spends es n (true, (rest, (settle c (l, s)).1))) d
            (Spends-suc es (in_flight rest) true _
              (spent es rest _ _ (ground (arith, settle-valid c l s)))))
        (λ e. after rest _ _ (ground (arith, settle-valid c l s)))

  -- However calls overlap and in whatever order they settle, and whatever the backend does: a
  -- fresh lock is used up at most as often as there are calls in flight at once, so at most once
  -- where no two overlap; and it is still valid afterwards exactly if no call has used it up.
  pub uses-le-peak :
      (es : List LockEvent) (cs : List LockCall) (l : LockObject) (s : S)
      → l.valid ≡ true
      → (uses es (cs, (l, s)) ≤ peak es (cs, (l, s)))
        × ((run es (cs, (l, s))).1.0.valid ≡ eqb (uses es (cs, (l, s))) 0)
  unfolding uses run peak step
  uses-le-peak [] cs l s h = (omega arith, h)
  uses-le-peak (begins c ∷ es) cs l s h =
      subst (Bounded es (in_flight cs)) (sym (begin-allowed c cs l s h)) (
        step-Bounded es (in_flight cs) false (c ∷ cs, (l, s)) (λ e. cc)
          (λ e. uses-le-peak es (c ∷ cs) l s h))
  uses-le-peak (settles i ∷ es) cs l s h =
      settled-Bounded es cs l s (take_out i cs) h (uses-le-peak es) (take_out-Shorter i cs)
