-- ===== src/Core/Contract/Exclusion.antt =====
-- Mutual exclusion over histories of calls of a provider that keeps the contract.
use tslock.Prelude.{
  ℕ, ◌≤◌, ◌≡◌, max, String, Option, none, some, List, [], ◌∷◌, All, Exec, Result, ok, throw, arith,
  eq_iff, inl, inr,
}
use native.Mathlib.Nat.{le_refl}
use tslock.Core.Config.{LockConfiguration, lock_at_most_until}
use tslock.Core.Contract.{LockContract, Keeps, Same, Acquires, Rely}

-- The instant at which a lock was granted, and its configuration.
pub record Grant : Type 0 where
  pub at : ℕ
  pub config : LockConfiguration

abbrev pub and_grant {ℓ} : {L : Type ℓ} → Result (Option L) → Grant → List Grant → List Grant
and_grant (ok (some l)) g gs = g ∷ gs
and_grant (ok none) g gs = gs
and_grant (throw e) g gs = gs

-- The second grant of a name comes when the first one's term is over.
abbrev pub After : Grant → Grant → Type 0
After g h = g.config.name ≡ h.config.name → lock_at_most_until g.config ≤ h.at

abbrev pub Disjoint : List Grant → Type 0
Disjoint [] = Unit
Disjoint (g ∷ gs) = All (After g) gs × Disjoint gs

module _ {S T L : Type 0} (view : S → String → ℕ) (instant : T → ℕ)
    (lock : T → LockConfiguration → Exec S (Option L)) where
  -- The locks that a history of attempts, by whatever instances, is granted.
  pub grants : List (T × LockConfiguration) → S → List Grant
  grants [] s = []
  grants ((t, c) ∷ h) s =
      let (r, s') = lock t c s in and_grant r (record { at = instant t; config = c }) (grants h s')

  -- The clock does not run backwards, from `now` on.
  abbrev pub Ascending : ℕ → List (T × LockConfiguration) → Type 0
  Ascending now [] = Unit
  Ascending now ((t, c) ∷ h) = (now ≤ instant t) × Ascending (instant t) h

  -- The grant's term is over by the clock, or the store still shows it.
  abbrev Covered : Grant → ℕ → S → Type 0
  Covered g now s = lock_at_most_until g.config ≤ max now (view s g.config.name)

  Covered-Rely :
      (g : Grant) (now at : ℕ) (s b : S)
      → now ≤ at
      → Covered g now s
      → Rely view at s b
      → Covered g at b
  Covered-Rely g now at s b a h k = omega (arith, k g.config.name)

  Covered-Same :
      (g : Grant) (now at : ℕ) (s s' : S)
      → now ≤ at
      → Covered g now s
      → Same view s s'
      → Covered g at s'
  Covered-Same g now at s s' a b k = omega (arith, k g.config.name)

  Covered-Acquires :
      (g : Grant) (now at : ℕ) (c : LockConfiguration) (s s' : S)
      → now ≤ at
      → Covered g now s
      → Acquires view at c s s'
      → Covered g at s'
  Covered-Acquires g now at c s s' a b k =
      ground (arith, k.1 g.config.name, eq_iff c.name g.config.name)

  After-Acquires :
      (g : Grant) (now at : ℕ) (c : LockConfiguration) (s s' : S)
      → now ≤ at
      → Covered g now s
      → Acquires view at c s s'
      → After g (record { at = at; config = c })
  After-Acquires g now at c s s' a b k same = ground arith

  module _ (contract : LockContract view instant lock) where
    -- Such a term is over at every later grant of the name.
    held-After :
        (h : List (T × LockConfiguration)) (g : Grant) (now : ℕ) (s : S)
        → Ascending now h
        → Covered g now s
        → All (After g) (grants h s)
    unfolding grants
    held-After [] g now s a v = tt
    held-After ((t, c) ∷ h) g now s a v =
        let (b, rely, keeps) = contract t c s in
        go b (Covered-Rely g now (instant t) s b a.0 v rely)
          (held-After h g (instant t) (lock t c s).1 a.1) (lock t c s).0 keeps
      where
        at : ℕ
        at = instant t

        s' : S
        s' = (lock t c s).1

        go :
            (b : S)
            → Covered g at b
            → (Covered g at s' → All (After g) (grants h s'))
            → (r : Result (Option L)) → Keeps view at c b s' r
            → All (After g) (and_grant r (record { at = at; config = c }) (grants h s'))
        go b v ih (ok (some l)) k = (
          After-Acquires g at at c b s' (le_refl at) v k,
          ih (Covered-Acquires g at at c b s' (le_refl at) v k),
        )
        go b v ih (ok none) k = ih (Covered-Same g at at b s' (le_refl at) v k)
        go b v ih (throw e) (inl k) = ih (Covered-Same g at at b s' (le_refl at) v k)
        go b v ih (throw e) (inr k) = ih (Covered-Acquires g at at c b s' (le_refl at) v k)

    and_grant-Disjoint :
        (r : Result (Option L)) (now : ℕ) (c : LockConfiguration) (s s' : S) (gs : List Grant)
        → Keeps view now c s s' r
        → Disjoint gs
        → ((g : Grant) → Covered g now s' → All (After g) gs)
        → Disjoint (and_grant r (record { at = now; config = c }) gs)
    and_grant-Disjoint (ok (some l)) now c s s' gs k d f =
        (f (record { at = now; config = c }) (ground (arith, k.1 c.name, eq_iff c.name c.name)), d)
    and_grant-Disjoint (ok none) now c s s' gs k d f = d
    and_grant-Disjoint (throw e) now c s s' gs k d f = d

    -- For a provider that keeps the contract, and calls whose readings of the clock do not
    -- decrease: of two locks of one name, the later is granted only when the earlier's term is
    -- over, whoever asks, and whatever other instances do that shorten no term that is not over.
    pub grants-Disjoint :
        (h : List (T × LockConfiguration)) (now : ℕ) (s : S)
        → Ascending now h
        → Disjoint (grants h s)
    unfolding grants
    grants-Disjoint [] now s a = tt
    grants-Disjoint ((t, c) ∷ h) now s a =
        and_grant-Disjoint (lock t c s).0 (instant t) c _ (lock t c s).1 _ (contract t c s).2
          (grants-Disjoint h (instant t) _ a.1) λ g v. held-After h g (instant t) _ a.1 v
