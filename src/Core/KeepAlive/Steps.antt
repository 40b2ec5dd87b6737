-- ===== src/Core/KeepAlive/Steps.antt =====
-- packages/core/src/keep-alive-lock-provider.ts as a transition system: the timer fires, awaited
-- extensions settle in any order, and the holder unlocks.
use tslock.Prelude.{ℕ, ◌+◌, ◌≤◌, Option, none, some, List, ◌∷◌, ◌++◌, Result, ok, throw}
use tslock.Core.KeepAlive.{KeepAliveLock, Inner, Renewal, begin_renewal, settle, do_unlock}

-- The lock, and the renewals that are awaited.
pub record System : Type 0 where
  pub lock : KeepAliveLock
  pub awaited : List Renewal

abbrev pub with_renewal : KeepAliveLock × Option Renewal → List Renewal → System
with_renewal (k, none) rs = record { lock = k; awaited = rs }
with_renewal (k, some r) rs = record { lock = k; awaited = r ∷ rs }

-- An extension that succeeded was asked of the store when the renewal had read the clock, or
-- later, for the base configuration's time.
abbrev pub IsExtension : KeepAliveLock → Renewal → Result (Option Inner) → Type 0
IsExtension k r (ok (some l)) = r.now + k.base_config.lock_at_most_for ≤ l.until
IsExtension k r (ok none) = Unit
IsExtension k r (throw e) = Unit

pub data Step : System → System → Type 0 where
  -- The timer is cleared when the lock is deactivated; a call that is due then does nothing.
  fire :
      (s : System) (checked_at now : ℕ)
      → Step s (with_renewal (begin_renewal checked_at now none s.lock) s.awaited)
  settles :
      (k : KeepAliveLock) (before : List Renewal) (r : Renewal) (after : List Renewal)
      (result : Result (Option Inner)) (checked_at now : ℕ)
      → IsExtension k r result
      → Step
          (record { lock = k; awaited = before ++ (r ∷ after) })
          (with_renewal (settle checked_at now r result k) (before ++ after))
  unlock : (s : System) → Step s (record s { lock = do_unlock s.lock })

pub data Reach (s : System) : System → Type 0 where
  here : Reach s s
  next : {t u : System} → Reach s t → Step t u → Reach s u
