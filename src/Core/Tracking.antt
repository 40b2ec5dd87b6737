-- ===== src/Core/Tracking.antt =====
-- packages/core/src/tracking-lock-provider.ts: the wrapper that remembers the locks that are out.
-- Objects are compared by identity, so each wrapped lock has a number of its own. A Set and a Map
-- keep the order of insertion: both are lists. The wrapped locks act on a state `S` beside.
pub mod Laws
use tslock.Prelude.{
  ℕ, zero, suc, ◌+◌, Bool, true, false, String, Option, none, some, List, [], ◌∷◌, ◌++◌, Exec,
  Result, ok, throw, pure, ◌>>=◌, continue, eqb, if◌then◌else◌,
}
use tslock.Core.Config.{LockConfiguration}

pub record ActiveLockRecord : Type 0 where
  pub name : String
  pub lock_at_most_for : ℕ
  pub lock_at_least_for : ℕ
  pub acquired_at : ℕ
  pub updated_at : ℕ

-- The fields of TrackingLockProviderWrapper, and the number of the next wrapped lock.
pub record Tracker : Type 0 where
  pub next : ℕ
  pub active_locks : List ℕ
  pub records : List (ℕ × ActiveLockRecord)

-- TrackingSimpleLock
pub record TrackingLock (L : Type 0) : Type 0 where
  pub id : ℕ
  pub unlocked : Bool
  pub delegate : L
  pub lock_record : ActiveLockRecord

pub delete_id : ℕ → List ℕ → List ℕ
delete_id id [] = []
delete_id id (x ∷ xs) = let rest = delete_id id xs in if eqb x id then rest else x ∷ rest

pub delete_record : ℕ → List (ℕ × ActiveLockRecord) → List (ℕ × ActiveLockRecord)
delete_record id [] = []
delete_record id ((x, r) ∷ xs) =
    let rest = delete_record id xs in if eqb x id then rest else (x, r) ∷ rest

-- `activeLocks.delete(this)` and `records.delete(this)`.
abbrev pub forget : ℕ → Tracker → Tracker
forget id t = record t {
  active_locks = delete_id id t.active_locks;
  records = delete_record id t.records;
}

-- A new wrapped lock is added to both.
abbrev pub remember : ActiveLockRecord → Tracker → Tracker
remember r t = record {
  next = suc t.next;
  active_locks = t.active_locks ++ (t.next ∷ []);
  records = t.records ++ ((t.next, r) ∷ []);
}

abbrev pub wrap : {L : Type 0} → L → ActiveLockRecord → Tracker → TrackingLock L
wrap l r t = record { id = t.next; unlocked = false; delegate = l; lock_record = r }

module _ {S L : Type 0} where
  -- `now` is the clock after the delegate's lock.
  abbrev pub wrapped :
      ℕ
      → LockConfiguration
      → Tracker
      → Result (Option L) × S
      → Result (Option (TrackingLock L)) × (Tracker × S)
  wrapped now config t (ok none, s) = (ok none, (t, s))
  wrapped now config t (throw e, s) = (throw e, (t, s))
  wrapped now config t (ok (some l), s) =
      let r : ActiveLockRecord = record {
        name = config.name;
        lock_at_most_for = config.lock_at_most_for;
        lock_at_least_for = config.lock_at_least_for;
        acquired_at = now;
        updated_at = now;
      } in
      (ok (some (wrap l r t)), (remember r t, s))

  unfoldable pub lock :
      (LockConfiguration → Exec S (Option L))
      → ℕ
      → LockConfiguration
      → Exec (Tracker × S) (Option (TrackingLock L))
  lock provider now config (t, s) = wrapped now config t (provider config s)

  -- The object's flag and the tracker are written before the delegate is asked.
  unfoldable pub unlock :
      (L → Exec S (Unit {0}))
      → TrackingLock L
      → Tracker × S
      → Result (Unit {0}) × (TrackingLock L × (Tracker × S))
  unfolding delete_id delete_record
  unlock unlock_delegate l (t, s) =
      if l.unlocked
      then (ok tt, (l, (t, s)))
      else let (r, s') = unlock_delegate l.delegate s in
        (r, (record l { unlocked = true }, (forget l.id t, s')))

  abbrev pub renewed :
      ℕ
      → ℕ
      → ℕ
      → TrackingLock L
      → Tracker
      → Result (Option L) × S
      → Result (Option (TrackingLock L)) × (Tracker × S)
  renewed now most least l t (ok none, s) = (ok none, (t, s))
  renewed now most least l t (throw e, s) = (throw e, (t, s))
  renewed now most least l t (ok (some new_lock), s) =
      let r : ActiveLockRecord = record {
        name = l.lock_record.name;
        lock_at_most_for = most;
        lock_at_least_for = least;
        acquired_at = l.lock_record.acquired_at;
        updated_at = now;
      } in
      (ok (some (wrap new_lock r (forget l.id t))), (remember r (forget l.id t), s))

  unfoldable pub extend :
      (L → ℕ → ℕ → Exec S (Option L))
      → ℕ
      → ℕ
      → ℕ
      → TrackingLock L
      → Exec (Tracker × S) (Option (TrackingLock L))
  unfolding delete_id delete_record
  extend extend_delegate now most least l (t, s) =
      renewed now most least l t (extend_delegate l.delegate most least s)
