-- ===== src/Core/Tracking/Laws.antt =====
-- What packages/core/src/tracking-lock-provider.ts remembers.
use mathlib.Core.List.{List, map}
use tslock.Prelude.{
  ℕ, suc, ◌<◌, ◌≡◌, ◌≢◌, refl, ap, ◌∙◌, true, false, Option, none, some, [], ◌∷◌, ◌++◌, All, Result,
  ok, throw, Exec, arith, eqb, Bool-cases, inl, inr,
}
use tslock.Core.Config.{LockConfiguration}
use tslock.Core.Tracking.{
  ActiveLockRecord, Tracker, TrackingLock, delete_id, delete_record, forget, remember, lock, unlock,
  extend, wrapped, renewed,
}

-- Set and Map have the same locks in the same order, and no lock has a number not yet given out.
pub record IsTracking (t : Tracker) : Type 0 where
  pub same_locks : map (λ p. p.0) t.records ≡ t.active_locks
  pub given_out : All (λ id. id < t.next) t.active_locks

keys_deleted :
    (id : ℕ) (rs : List (ℕ × ActiveLockRecord))
    → map (λ p. p.0) (delete_record id rs) ≡ delete_id id (map (λ p. p.0) rs)
unfolding delete_id delete_record
keys_deleted id [] = refl
keys_deleted id ((x, r) ∷ rs) = elim (Bool-cases (eqb x id)) [
  | inl e ↦ rw e (keys_deleted id rs)
  | inr e ↦ rw e (ap (◌∷◌ x) (keys_deleted id rs))
]

All-deleted : (n id : ℕ) (ids : List ℕ) → All (λ i. i < n) ids → All (λ i. i < n) (delete_id id ids)
unfolding delete_id
All-deleted n id [] h = tt
All-deleted n id (x ∷ xs) h = elim (Bool-cases (eqb x id)) [
  | inl e ↦ rw e (All-deleted n id xs h.1)
  | inr e ↦ rw e (h.0, All-deleted n id xs h.1)
]

deleted : (id : ℕ) (ids : List ℕ) → All (λ i. i ≢ id) (delete_id id ids)
unfolding delete_id
deleted id [] = tt
deleted id (x ∷ xs) = elim (Bool-cases (eqb x id)) [
  | inl e ↦ rw e (deleted id xs)
  | inr e ↦ rw e ((λ p. ground arith), deleted id xs)
]

keys_appended :
    (rs : List (ℕ × ActiveLockRecord)) (id : ℕ) (r : ActiveLockRecord)
    → map (λ p. p.0) (rs ++ ((id, r) ∷ [])) ≡ map (λ p. p.0) rs ++ (id ∷ [])
keys_appended [] id r = refl
keys_appended (x ∷ rs) id r = ap (◌∷◌ x.0) (keys_appended rs id r)

All-appended :
    (n : ℕ) (ids : List ℕ) → All (λ i. i < n) ids → All (λ i. i < suc n) (ids ++ (n ∷ []))
All-appended n [] h = (omega arith, tt)
All-appended n (x ∷ xs) h = (omega (arith, h.0), All-appended n xs h.1)

forget-IsTracking : (id : ℕ) (t : Tracker) → IsTracking t → IsTracking (forget id t)
forget-IsTracking id t v = record {
  same_locks = keys_deleted id t.records ∙ ap (delete_id id) v.same_locks;
  given_out = All-deleted t.next id t.active_locks v.given_out;
}

remember-IsTracking :
    (r : ActiveLockRecord) (t : Tracker) → IsTracking t → IsTracking (remember r t)
remember-IsTracking r t v = record {
  same_locks = keys_appended t.records t.next r ∙ ap (λ ids. ids ++ (t.next ∷ [])) v.same_locks;
  given_out = All-appended t.next t.active_locks v.given_out;
}

module _ {S L : Type 0} where
  wrapped-IsTracking :
      (now : ℕ) (c : LockConfiguration) (t : Tracker) (r : Result (Option L) × S)
      → IsTracking t
      → IsTracking (wrapped now c t r).1.0
  wrapped-IsTracking now c t (ok none, s) v = v
  wrapped-IsTracking now c t (ok (some l), s) v = remember-IsTracking _ t v
  wrapped-IsTracking now c t (throw e, s) v = v

  renewed-IsTracking :
      (now most least : ℕ) (l : TrackingLock L) (t : Tracker) (r : Result (Option L) × S)
      → IsTracking t
      → IsTracking (renewed now most least l t r).1.0
  renewed-IsTracking now most least l t (ok none, s) v = v
  renewed-IsTracking now most least l t (ok (some l'), s) v =
      remember-IsTracking _ (forget l.id t) (forget-IsTracking l.id t v)
  renewed-IsTracking now most least l t (throw e, s) v = v

  -- Whatever the wrapped provider and its locks do, each operation keeps Set and Map in step, and
  -- an unlock that is the object's first leaves it in neither, also where the delegate throws.
  pub operations-IsTracking :
      (provider : LockConfiguration → Exec S (Option L)) (unlock_delegate : L → Exec S (Unit {0}))
      (extend_delegate : L → ℕ → ℕ → Exec S (Option L)) (now most least : ℕ) (c : LockConfiguration)
      (l : TrackingLock L) (t : Tracker) (s : S)
      → IsTracking t
      → l.unlocked ≡ false
      → IsTracking (lock provider now c (t, s)).1.0
        × IsTracking (extend extend_delegate now most least l (t, s)).1.0
        × IsTracking (unlock unlock_delegate l (t, s)).1.1.0
        × All (λ id. id ≢ l.id) (unlock unlock_delegate l (t, s)).1.1.0.active_locks
        × ((unlock unlock_delegate l (t, s)).1.0.unlocked ≡ true)
  unfolding lock extend unlock
  operations-IsTracking provider unlock_delegate extend_delegate now most least c l t s v fresh =
      rw fresh (
        wrapped-IsTracking now c t (provider c s) v,
        renewed-IsTracking now most least l t (extend_delegate l.delegate most least s) v,
        forget-IsTracking l.id t v,
        deleted l.id t.active_locks,
        refl,
      )
