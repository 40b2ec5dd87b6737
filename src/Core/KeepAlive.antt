-- ===== src/Core/KeepAlive.antt =====
-- packages/core/src/keep-alive-lock-provider.ts: the lock that a timer extends, and its provider.
-- The timer may fire while an earlier extension is still awaited, so a renewal is cut at its
-- `await`: `begin_renewal` runs up to it, `settle` from the promise's outcome on. What remains of
-- the minimum is counted in half milliseconds, since the code subtracts half of a whole number.
pub mod Steps
pub mod Invariant
pub mod Release
use tslock.Prelude.{
  ℕ, ◌+◌, ◌-◌, ◌*◌, ◌/◌, Bool, true, false, Option, none, some, List, [], ◌∷◌, ◌++◌, Exec, Result,
  ok, throw, Exception, ltb, eqb, not, ◌||◌, if◌then◌else◌, keep_alive_lost, keep_alive_too_short,
  keep_alive_not_extensible,
}
use tslock.Core.Config.{LockConfiguration, lock_at_most_until}

-- The lock of the wrapped provider: which object it is, and until when its store holds it.
pub record Inner : Type 0 where
  pub id : ℕ
  pub until : ℕ

pub record KeepAliveLock : Type 0 where
  pub base_config : LockConfiguration
  pub active : Bool
  pub lost : Bool
  pub released : Bool
  pub remaining_halves : ℕ
  pub current_lock_at_most_until : ℕ
  pub current_lock : Inner
  -- The calls of `onKeepAliveFailure` and of the wrapped locks' `unlock`, latest first.
  pub failures : List Exception
  pub unlocks : List Inner

pub min_lock_at_most_for : ℕ
min_lock_at_most_for = 30000

-- The period of the timer.
pub period : LockConfiguration → ℕ
period config = config.lock_at_most_for / 2

unfoldable pub new_keep_alive_lock : Inner → LockConfiguration → KeepAliveLock
new_keep_alive_lock initial_lock config = record {
  base_config = config;
  active = true;
  lost = false;
  released = false;
  remaining_halves = 2 * config.lock_at_least_for;
  current_lock_at_most_until = lock_at_most_until config;
  current_lock = initial_lock;
  failures = [];
  unlocks = [];
}

-- Also the timer is cleared.
abbrev pub deactivate : KeepAliveLock → KeepAliveLock
deactivate k = record k { active = false }

abbrev pub fail : Exception → KeepAliveLock → KeepAliveLock
fail e k = record k { active = false; failures = e ∷ k.failures }

-- What a renewal remembers across its `await`; `first_error` is there in the second attempt.
pub record Renewal : Type 0 where
  pub extended : Inner
  pub next_halves : ℕ
  pub now : ℕ
  pub first_error : Option Exception

-- `extendForNextPeriod` up to the call of `extend`, which is made if there is a renewal. The two
-- reads of the clock are arguments.
unfoldable pub begin_renewal :
    ℕ → ℕ → Option Exception → KeepAliveLock → KeepAliveLock × Option Renewal
begin_renewal checked_at now first_error k =
    if not k.active
    then (k, none)
    else if ltb k.current_lock_at_most_until checked_at
    then (fail keep_alive_lost (record k { lost = true }), none)
    else (
      k,
      some (record {
        extended = k.current_lock;
        next_halves = k.remaining_halves;
        now = now;
        first_error = first_error;
      }),
    )

-- From the `await` on.
pub extended_to : Renewal → Option Inner → KeepAliveLock → KeepAliveLock
extended_to r none k =
    if k.released
    then k
    else if not (eqb k.current_lock.id r.extended.id) || k.lost
    then k
    else fail keep_alive_lost (record k { lost = true })
extended_to r (some new_lock) k = if k.released then k else record k {
  lost = false;
  current_lock = new_lock;
  current_lock_at_most_until = r.now + k.base_config.lock_at_most_for;
  remaining_halves = r.next_halves - k.base_config.lock_at_most_for;
}

-- `safeExtendForNextPeriod`: the first rejection starts a second attempt, the second one stops the
-- timer. The reads of the clock are those of that second attempt.
pub rejected : ℕ → ℕ → Option Exception → Exception → KeepAliveLock → KeepAliveLock × Option Renewal
unfolding begin_renewal
rejected checked_at now none error k = begin_renewal checked_at now (some error) k
rejected checked_at now (some first_error) error k = (fail first_error k, none)

unfoldable pub settle :
    ℕ → ℕ → Renewal → Result (Option Inner) → KeepAliveLock → KeepAliveLock × Option Renewal
unfolding extended_to rejected
settle checked_at now r (ok result) k = (extended_to r result k, none)
settle checked_at now r (throw error) k = rejected checked_at now r.first_error error k

-- `doUnlock`, up to what the wrapped lock's `unlock` returns.
unfoldable pub do_unlock : KeepAliveLock → KeepAliveLock
do_unlock k =
    if k.lost
    then record k { released = true; active = false }
    else record k { released = true; active = false; unlocks = k.current_lock ∷ k.unlocks }

-- KeepAliveLockProvider: `extensible` is the mark that its constructor asks for.
pub create : Bool → Result (Unit {0})
create extensible = if extensible then ok tt else throw keep_alive_not_extensible

abbrev kept : LockConfiguration → Result (Option Inner) → Result (Option KeepAliveLock)
kept config (ok none) = ok none
kept config (ok (some l)) = ok (some (new_keep_alive_lock l config))
kept config (throw e) = throw e

abbrev kept_in :
    {S : Type 0} → LockConfiguration → Result (Option Inner) × S → Result (Option KeepAliveLock) × S
kept_in config (r, s) = (kept config r, s)

unfoldable pub lock :
    {S : Type 0}
    → (LockConfiguration → Exec S (Option Inner))
    → LockConfiguration
    → Exec S (Option KeepAliveLock)
unfolding min_lock_at_most_for new_keep_alive_lock
lock provider config s =
    if ltb config.lock_at_most_for min_lock_at_most_for
    then (throw keep_alive_too_short, s)
    else kept_in config (provider config s)
