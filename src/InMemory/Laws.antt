-- ===== src/InMemory/Laws.antt =====
-- The in-memory provider of packages/in-memory/src keeps the contract of a lock provider.
use tslock.Prelude.{
  ℕ, Bool, ◌≤◌, ◌<◌, ◌≡◌, refl, String, Option, none, some, ok, arith, leb, if◌then◌else◌, ◌==◌,
  true, false, put, Option-cases, Bool-cases, leb→le, remove, inl, inr, ◌⊎◌, eq_refl,
}
use tslock.Core.Config.{LockConfiguration, lock_at_most_until, lock_at_least_until}
use tslock.Core.Lock.{LockObject, new_lock}
use tslock.Core.Contract.{LockContract, Keeps, Rely-refl}
use tslock.InMemory.{Locks, lock, unlock, extend, is_locked, is_owned}

abbrev pub until_of : Option ℕ → ℕ
until_of none = 0
until_of (some u) = u

-- Until when a name is held at `now`: an entry that has lapsed counts as none.
abbrev pub held_until : Locks → String → ℕ
held_until locks name = until_of (locks name)

-- The two outcomes of a call.
lock_cases :
    (now : ℕ) (c : LockConfiguration) (s : Locks)
    → ((lock now c s ≡ (ok none, s)) × (now < held_until s c.name))
      ⊎ ((s' : Locks) × (lock now c s ≡ (ok (some (new_lock c)), s'))
          × (held_until s c.name ≤ now)
          × ((k : String) → s' k ≡ (if c.name == k then some (lock_at_most_until c) else s k)))
unfolding lock
lock_cases now c s = elim (Option-cases (s c.name)) [
  | inl e ↦
      inr
        (put s c.name (lock_at_most_until c), rw (e, is_locked) refl, rw e (omega arith), λ k. refl)
  | inr (u, e) ↦ elim (Bool-cases (leb u now)) [
    | inl h ↦ inr (
      put (remove s c.name) c.name (lock_at_most_until c),
      rw (e, is_locked) (rw h refl),
      rw e (leb→le u now h),
      λ k. ground arith,
    )
    | inr h ↦ inl (rw (e, is_locked) (rw h refl), rw e (ground arith))
  ]
]

-- A name whose entry is over at the clock's reading is granted, with an entry until the
-- configuration's end and all other names as they were. A name whose entry is not over is refused,
-- and the Map is as it was.
pub lock-Keeps :
    (now : ℕ) (c : LockConfiguration) (s : Locks)
    → Keeps held_until now c s (lock now c s).1 (lock now c s).0
      × (held_until s c.name ≤ now → (lock now c s).0 ≡ ok (some (new_lock c)))
      × (now < held_until s c.name → lock now c s ≡ (ok none, s))
lock-Keeps now c s = elim (lock_cases now c s) [
  | inl (e, h) ↦ rw e (λ k. refl, λ over. absurd (omega arith), λ held. refl)
  | inr (s', e, h, p) ↦
      rw e ((h, λ k. ground (arith, p k)), λ over. refl, λ held. absurd (omega arith))
]

-- So it keeps the contract of a lock provider.
in_memory-LockContract : LockContract held_until (λ t. t) lock
in_memory-LockContract t c s = (s, Rely-refl held_until t s, (lock-Keeps t c s).0)

-- An unlock by a valid lock object whose term the store shows dates the entry back to the end of its
-- minimum; by any other it changes nothing. Either way the object is used up.
unlock_lem :
    (meanwhile : Bool → Bool) (l : LockObject) (s : Locks)
    → l.valid ≡ true
    → unlock meanwhile (l, s) ≡ (
      ok tt,
      (
        record l { valid = false },
        (if is_owned (lock_at_most_until l.config) (s l.config.name)
            then put s l.config.name (lock_at_least_until l.config)
            else s),
      ),
    )
unfolding unlock
unlock_lem meanwhile l s h = ground arith

-- A lock object whose term the store does not show changes nothing.
foreign :
    (meanwhile : Bool → Bool) (later : ℕ) (c : LockConfiguration) (s : Locks)
    (created_at most least : ℕ)
    → is_owned (lock_at_most_until c) (s c.name) ≡ false
    → ((unlock meanwhile (new_lock c, s)).1.1 ≡ s)
      × (extend meanwhile created_at later most least (new_lock c, s)
          ≡ (ok none, (record (new_lock c) { valid = meanwhile true }, s)))
unfolding unlock extend
foreign meanwhile later c s t m n h = (ground arith, ground arith)

-- When a lock of the name is granted after the first one's term, for a term that is not over then,
-- the first holder's late unlock and late extension leave the later holder's entry alone, whatever
-- overlapping calls make of the first holder's object meanwhile.
pub stale_holder :
    (meanwhile : Bool → Bool) (now : ℕ) (c d : LockConfiguration) (s : Locks) (l : LockObject)
    (created_at later most least : ℕ)
    → c.name ≡ d.name
    → lock_at_most_until c ≤ now
    → now < lock_at_most_until d
    → (lock now d s).0 ≡ ok (some l)
    → ((unlock meanwhile (new_lock c, (lock now d s).1)).1.1 ≡ (lock now d s).1)
      × ((extend meanwhile created_at later most least (new_lock c, (lock now d s).1))
          ≡ (ok none, (record (new_lock c) { valid = meanwhile true }, (lock now d s).1)))
unfolding is_owned
stale_holder meanwhile now c d s l t u m n same over ahead got = elim (lock_cases now d s) [
  | inl (e, h) ↦ cc (rw e at got)
  | inr (s', e, h, p) ↦
      rw e (foreign meanwhile u c s' t m n (ground (arith, p c.name, eq_refl c.name)))
]
