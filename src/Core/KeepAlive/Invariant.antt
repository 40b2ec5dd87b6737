-- ===== src/Core/KeepAlive/Invariant.antt =====
-- What holds of packages/core/src/keep-alive-lock-provider.ts however its renewals interleave.
use tslock.Prelude.{
  ℕ, ◌≤◌, ◌≡◌, ◌≢◌, refl, true, false, Option, none, some, List, [], Result, ok, throw, arith,
  Exception, subst, sym, ◌++◌,
}
use tslock.Core.Config.{LockConfiguration, lock_at_most_until}
use tslock.Core.KeepAlive.{
  KeepAliveLock, Inner, Renewal, begin_renewal, settle, extended_to, rejected, do_unlock,
  new_keep_alive_lock,
}
use tslock.Core.KeepAlive.Steps.{
  System, Step, Reach, fire, settles, unlock, here, next, with_renewal, IsExtension,
}

-- A lock that is lost or released, or that has reported a failure, has its timer stopped, and
-- the lock never takes itself to be held for longer than the store holds it.
pub record IsSafe (k : KeepAliveLock) : Type 0 where
  pub lost_stops : k.lost ≡ true → k.active ≡ false
  pub released_stops : k.released ≡ true → k.active ≡ false
  pub failed_stops : k.failures ≢ [] → k.active ≡ false
  pub within_store : k.current_lock_at_most_until ≤ k.current_lock.until

begin_renewal-IsSafe :
    (checked_at now : ℕ) (e : Option Exception) (k : KeepAliveLock)
    → IsSafe k
    → IsSafe (begin_renewal checked_at now e k).0
unfolding begin_renewal
begin_renewal-IsSafe t n e k v = ground arith

extended_to-IsSafe :
    (r : Renewal) (result : Option Inner) (k : KeepAliveLock)
    → IsExtension k r (ok result)
    → IsSafe k
    → IsSafe (extended_to r result k)
unfolding extended_to
extended_to-IsSafe r none k x v = ground arith
extended_to-IsSafe r (some l) k x v = ground arith

do_unlock-IsSafe : (k : KeepAliveLock) → IsSafe k → IsSafe (do_unlock k)
unfolding do_unlock
do_unlock-IsSafe k v = ground arith

settle-IsSafe :
    (checked_at now : ℕ) (r : Renewal) (result : Result (Option Inner)) (k : KeepAliveLock)
    → IsExtension k r result
    → IsSafe k
    → IsSafe (settle checked_at now r result k).0
unfolding settle rejected
settle-IsSafe t n r (ok result) k x v = extended_to-IsSafe r result k x v
settle-IsSafe t n r (throw e) k x v = rejected-IsSafe r.first_error
  where
    rejected-IsSafe : (first : Option Exception) → IsSafe (rejected t n first e k).0
    rejected-IsSafe none = begin_renewal-IsSafe t n (some e) k v
    rejected-IsSafe (some first) = ground arith

pub with_renewal-lock :
    (p : KeepAliveLock × Option Renewal) (rs : List Renewal) → (with_renewal p rs).lock ≡ p.0
with_renewal-lock (k, none) rs = refl
with_renewal-lock (k, some r) rs = refl

Step-IsSafe : {s t : System} → Step s t → IsSafe s.lock → IsSafe t.lock
Step-IsSafe (fire s t n) v =
    subst IsSafe (sym (with_renewal-lock _ s.awaited)) (begin_renewal-IsSafe t n none s.lock v)
Step-IsSafe (settles k before r after result t n x) v =
    subst IsSafe (sym (with_renewal-lock _ (before ++ after))) (settle-IsSafe t n r result k x v)
Step-IsSafe (unlock s) v = do_unlock-IsSafe s.lock v

new_keep_alive_lock-IsSafe :
    (l : Inner) (config : LockConfiguration)
    → lock_at_most_until config ≤ l.until
    → IsSafe (new_keep_alive_lock l config)
unfolding new_keep_alive_lock
new_keep_alive_lock-IsSafe l config h = record {
  lost_stops = λ e. cc;
  released_stops = λ e. cc;
  failed_stops = λ e. absurd (e refl);
  within_store = h;
}

-- From a new lock that the store holds until the configuration's end or later, and in every
-- interleaving of timer calls, settled extensions and unlocks: once the lock is lost, released or
-- has reported a failure its timer is stopped, and the end that it counts with is never after the
-- end that the store has for the lock it then holds.
pub Reach-IsSafe :
    (l : Inner) (config : LockConfiguration) {s : System}
    → lock_at_most_until config ≤ l.until
    → Reach (record { lock = new_keep_alive_lock l config; awaited = [] }) s
    → IsSafe s.lock
Reach-IsSafe l config h here = new_keep_alive_lock-IsSafe l config h
Reach-IsSafe l config h (next r st) = Step-IsSafe st (Reach-IsSafe l config h r)
