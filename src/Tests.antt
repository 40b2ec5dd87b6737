-- ===== src/Tests.antt =====
-- Concrete inputs for the theorems.
mod Packing
mod Memory
mod Versions
mod Accessors
mod Services
mod KeyValue
mod Transactions
mod Requests
mod Maps
mod Buckets
mod Leases
mod Alone
mod Namespace
use tslock.Prelude.{
  ℕ, ◌≡◌, ◌↔◌, ◌≤◌, ◌<◌, ◌*◌, ◌+◌, refl, Bool, true, false, String, Option, none, some, List, [],
  ◌∷◌, Table, empty, put, Exec, Result, ok, throw, arith, if◌then◌else◌, eqb, leb, already_released,
  Exception, external, ◌&&◌,
}
use tslock.Core.Duration.{text, number, finite, parse_duration, DurationInput}
use tslock.Core.Duration.Laws.{parse_duration-eq-ok_iff, Spells}
use tslock.Prelude.Int.{pos}
use tslock.Core.Config.{
  LockConfiguration, create_lock_config, lock_at_most_until, lock_at_least_until, unlock_time,
  to_ttl_seconds,
}
use tslock.Core.Config.Laws.{
  create_lock_config-eq-ok_iff, Accepted, unlock_time_bounds, to_ttl_seconds_bounds,
}
use tslock.Core.Lock.{LockObject, new_lock}
use tslock.Core.Lock.Laws.{
  LockCall, unlocks, extends, LockEvent, begins, settles, uses, run, peak, uses-le-peak,
}
use tslock.Core.Contract.{LockContract, Within, Keeps}
use tslock.Core.Contract.Exclusion.{grants, Disjoint, grants-Disjoint}
use tslock.Core.Context.{stack, Context, already_locked_by, extend_active_lock, includes}
use tslock.Core.Executor.{Event, execute_with_lock, TaskResult, executed, not_executed}
use tslock.Core.Executor.Release.{as_executed}
use tslock.Core.Executor.Balance.{Accounts, Minds, execute_with_lock-Free}
use tslock.Core.Executor.Outcome.{execute_with_lock-outcome, nested_call, asked, outcome}
use tslock.Core.Executor.Extension.{
  extend_active_lock-Minds, extend_active_lock-TakesOver, TakesOver,
}
use tslock.Core.KeepAlive.{Inner, Renewal, settle, new_keep_alive_lock, do_unlock, begin_renewal}
use tslock.Core.KeepAlive.Steps.{System, Reach, fire, settles, unlock, here, next}
use tslock.Core.KeepAlive.Invariant.{IsSafe, Reach-IsSafe}
use tslock.Core.KeepAlive.Release.{IsReleased, release_is_final}
use tslock.Core.Storage.Contract.{AccessorContract}
use tslock.Core.Storage
use tslock.InMemory
use tslock.InMemory.{Locks}
use tslock.InMemory.Laws.{held_until, lock-Keeps, stale_holder}
use tslock.Backend.{Turn, Put}

abbrev first : LockConfiguration
first = record { name = "job"; lock_at_most_for = 100; lock_at_least_for = 10; created_at = 5 }

abbrev second : LockConfiguration
second = record { name = "job"; lock_at_most_for = 100; lock_at_least_for = 10; created_at = 200 }

stale_holder_example :
    ((InMemory.unlock
        (λ v. v)
        (new_lock first, (InMemory.lock 200 second (InMemory.lock 5 first empty).1).1)).1.1
      ≡ (InMemory.lock 200 second (InMemory.lock 5 first empty).1).1)
    × (InMemory.extend
          (λ v. v)
          210
          210
          100
          0
          (new_lock first, (InMemory.lock 200 second (InMemory.lock 5 first empty).1).1)
        ≡ (ok none, (new_lock first, (InMemory.lock 200 second (InMemory.lock 5 first empty).1).1)))
unfolding InMemory.lock
stale_holder_example =
    stale_holder (λ v. v) 200 first second (InMemory.lock 5 first empty).1 (new_lock second) 210 210
      100 0 refl (omega arith) (omega arith) refl

-- Seconds of a day, spelt out.
parse_duration-eq-ok_iff_example :
    (parse_duration (text (32 ∷ 49 ∷ 48 ∷ 115 ∷ [])) ≡ ok 10000)
    ↔ Spells (32 ∷ 49 ∷ 48 ∷ 115 ∷ []) 10000
parse_duration-eq-ok_iff_example = parse_duration-eq-ok_iff (32 ∷ 49 ∷ 48 ∷ 115 ∷ []) 10000

create_lock_config-eq-ok_iff_example :
    (create_lock_config
        (λ c. false)
        5
        "job"
        (number (finite (pos 100)))
        (some (number (finite (pos 10))))
      ≡ ok first)
    ↔ Accepted
        (λ c. false)
        5
        "job"
        (number (finite (pos 100)))
        (some (number (finite (pos 10))))
        first
create_lock_config-eq-ok_iff_example =
    create_lock_config-eq-ok_iff (λ c. false) 5 "job" (number (finite (pos 100)))
      (some (number (finite (pos 10)))) first

unlock_time_bounds_example :
    (50 ≤ unlock_time 50 first)
    × (lock_at_least_until first ≤ unlock_time 50 first)
    × (50 ≤ lock_at_most_until first → unlock_time 50 first ≤ lock_at_most_until first)
unlock_time_bounds_example = unlock_time_bounds 50 first (omega arith)

-- Two unlocks and an extension that all begin before the first of them settles.
abbrev overlapping : List LockEvent
overlapping =
    begins unlocks
    ∷ begins (extends 20 100 0)
    ∷ begins unlocks
    ∷ settles 0
    ∷ settles 1
    ∷ settles 0
    ∷ []

abbrev start : List LockCall × (LockObject × Locks)
start = ([], (new_lock first, (InMemory.lock 5 first empty).1))

uses-le-peak_example :
    (uses InMemory.do_unlock (InMemory.do_extend 20) overlapping start
      ≤ peak InMemory.do_unlock (InMemory.do_extend 20) overlapping start)
    × ((run InMemory.do_unlock (InMemory.do_extend 20) overlapping start).1.0.valid
        ≡ eqb (uses InMemory.do_unlock (InMemory.do_extend 20) overlapping start) 0)
uses-le-peak_example =
    uses-le-peak InMemory.do_unlock (InMemory.do_extend 20) overlapping [] (new_lock first)
      (InMemory.lock 5 first empty).1 refl

-- A store of one bit: whether the lock, a number, is held.
abbrev provide : LockConfiguration → Exec Bool (Option ℕ)
provide config true = (ok none, true)
provide config false = (ok (some 7), true)

abbrev refuse : LockConfiguration → Exec Bool (Option ℕ)
refuse config w = (ok none, w)

abbrev give_back : ℕ → Exec Bool (Unit {0})
give_back l w = (ok tt, false)

abbrev ignore : Event → Exec Bool (Unit {0})
ignore e w = (ok tt, w)

abbrev lengthen : ℕ → ℕ → ℕ → Exec Bool (Option ℕ)
lengthen l most least w = (ok (some 8), w)

abbrev outside : Context ℕ
outside = record { asserted = none; active = none }

abbrev inside : Context ℕ
inside = record { asserted = some ("job" ∷ []); active = some (7 ∷ []) }

abbrev IsFree : Bool → Type 0
IsFree w = w ≡ false

abbrev IsHeld : ℕ → Bool → Type 0
IsHeld l w = w ≡ true

abbrev ask_for_more : Exec (Context ℕ × Bool) (Unit {0})
ask_for_more = extend_active_lock lengthen (number (finite (pos 100))) (number (finite (pos 0)))

extend_active_lock-TakesOver_example :
    ((c : Context ℕ) (w : Bool)
      → TakesOver IsFree IsHeld lengthen
          (number (finite (pos 100)))
          (number (finite (pos 0)))
          c
          w
          (stack c.active)
          (ask_for_more (c, w)).0
          (ask_for_more (c, w)).1.0
          (ask_for_more (c, w)).1.1)
    × Minds IsFree IsHeld ask_for_more
extend_active_lock-TakesOver_example =
    extend_active_lock-TakesOver IsFree IsHeld lengthen (λ l most least w h. h)
      (number (finite (pos 100))) (number (finite (pos 0)))

one_bit : Accounts IsFree IsHeld provide give_back ignore
one_bit = record {
  stays_free = λ e w h. h;
  stays_held = λ e l w h. h;
  gives = λ c w h. rw h refl;
  frees = λ l w h. refl;
}

execute_with_lock-Free_example :
    IsFree (execute_with_lock provide give_back ignore 3 ask_for_more first (outside, false)).1.1
unfolding includes
execute_with_lock-Free_example =
    execute_with_lock-Free IsFree IsHeld provide give_back ignore one_bit 3 ask_for_more first
      (extend_active_lock-Minds IsFree IsHeld lengthen (λ l most least w h. h)
        (number (finite (pos 100))) (number (finite (pos 0))))
      outside false refl refl

execute_with_lock-outcome_example :
    ((execute_with_lock provide give_back ignore 3 ask_for_more first (outside, false)).0
      ≡ outcome provide give_back ignore 3 ask_for_more first outside
          (asked provide give_back ignore 3 ask_for_more first false))
    × ((execute_with_lock provide give_back ignore 3 ask_for_more first (outside, false)).1.0
        ≡ outside)
unfolding includes
execute_with_lock-outcome_example =
    execute_with_lock-outcome provide give_back ignore 3 ask_for_more first outside false refl

nested_call_example :
    (execute_with_lock provide give_back ignore 3 ask_for_more first (inside, true)
      ≡ execute_with_lock refuse give_back ignore 3 ask_for_more first (inside, true))
    × ((execute_with_lock provide give_back ignore 3 ask_for_more first (inside, true)).0
        ≡ as_executed (ask_for_more (inside, true)).0)
unfolding includes
nested_call_example =
    nested_call provide refuse give_back give_back ignore 3 ask_for_more first inside true refl

abbrev held : Inner
held = record { id = 0; until = 105 }

abbrev started : System
started = record { lock = new_keep_alive_lock held first; awaited = [] }

abbrev prolonged : Inner
prolonged = record { id = 1; until = 151 }

abbrev renewal : Renewal
renewal = record { extended = held; next_halves = 20; now = 50; first_error = none }

-- The timer fires, its extension succeeds, and the lock is released.
Reach-IsSafe_example :
    IsSafe
      (do_unlock (settle 52 52 renewal (ok (some prolonged)) (new_keep_alive_lock held first)).0)
unfolding begin_renewal new_keep_alive_lock settle
Reach-IsSafe_example = Reach-IsSafe held first (omega arith) (
    next
      (next (next here (fire started 50 50)) (
        settles (new_keep_alive_lock held first) [] renewal [] (ok (some prolonged)) 52 52
          (omega arith)))
      (unlock _))

release_is_final_example :
    ((do_unlock started.lock).unlocks ≡ (
      if started.lock.lost
      then started.lock.unlocks
      else started.lock.current_lock ∷ started.lock.unlocks))
    × IsReleased started.lock.current_lock started.lock.lost (do_unlock started.lock)
    × ((checked_at now : ℕ) (e : Option Exception)
        → begin_renewal checked_at now e (do_unlock started.lock) ≡ (do_unlock started.lock, none))
unfolding begin_renewal new_keep_alive_lock do_unlock
release_is_final_example =
    release_is_final started
      (next here (fire (record started { lock = do_unlock started.lock }) 50 50))

lock-Keeps_example :
    Keeps held_until 50 first
      (InMemory.lock 5 first empty).1
      (InMemory.lock 50 first (InMemory.lock 5 first empty).1).1
      (InMemory.lock 50 first (InMemory.lock 5 first empty).1).0
    × (held_until (InMemory.lock 5 first empty).1 "job" ≤ 50
        → (InMemory.lock 50 first (InMemory.lock 5 first empty).1).0 ≡ ok (some (new_lock first)))
    × (50 < held_until (InMemory.lock 5 first empty).1 "job"
        → InMemory.lock 50 first (InMemory.lock 5 first empty).1
          ≡ (ok none, (InMemory.lock 5 first empty).1))
lock-Keeps_example = lock-Keeps 50 first (InMemory.lock 5 first empty).1

to_ttl_seconds_bounds_example :
    (1500 < to_ttl_seconds 1500 * 1000) × (to_ttl_seconds 1500 * 1000 ≤ 1500 + 1000)
to_ttl_seconds_bounds_example = to_ttl_seconds_bounds 1500
