-- ===== src/Core/Storage/Laws.antt =====
-- The provider of packages/core/src/storage-based-lock-provider.ts keeps the contract of a lock
-- provider over any accessor that keeps its own.
use tslock.Prelude.{
  List, ℕ, ◌≤◌, refl, max, String, Bool, true, false, Result, ok, throw, inl, inr, arith,
  Bool-cases,
}
use tslock.Core.Config.{LockConfiguration}
use tslock.Core.Contract.{
  Amid, ContractAmid, Joinable, Keeps, Same, Rely, Rely-Joinable, Acquires-mono,
}
use tslock.Core.Contract.Exclusion.{grants, Ascending, Disjoint, grants-Disjoint}
use tslock.Core.Storage.{StorageAccessor, Registry, lock, update, inserted, updated}
use tslock.Core.Storage.Contract.{AccessorContract, AccessorContractAmid, Takes}

-- The provider's store, seen through the accessor's.
abbrev pub stored_until : {S : Type 0} → (S → String → ℕ) → Registry × S → String → ℕ
stored_until view p = view p.1

-- The later of the two instants.
abbrev pub decided_at : {T : Type 0} → (T → ℕ) → T × T → ℕ
decided_at instant (t, u) = max (instant t) (instant u)

-- What others may do to the accessor's store.
abbrev pub InStore : {S : Type 0} → (ℕ → S → S → Type 0) → ℕ → Registry × S → Registry × S → Type 0
InStore Others now p q = Others now p.1 q.1

module _ {S T : Type 0} (view : S → String → ℕ) (instant : T → ℕ)
    (accessor : StorageAccessor S T) where
  updated-Keeps :
      (now later : ℕ) (c : LockConfiguration) (new : Registry) (b : S) (r : Result Bool × S)
      → now ≤ later
      → Takes view now c b r.1 r.0
      → Keeps view later c b (updated accessor c new r).1.1 (updated accessor c new r).0
  updated-Keeps now later c new b (ok true, s') h k = Acquires-mono view c h k
  updated-Keeps now later c new b (ok false, s') h k = k
  updated-Keeps now later c new b (throw e, s') h (inl k) = inl k
  updated-Keeps now later c new b (throw e, s') h (inr k) = inr (Acquires-mono view c h k)

  module _ (Others : ℕ → S → S → Type 0) (joinable : Joinable view Others)
      (contract : AccessorContractAmid view Others instant accessor) where
    open joinable use {idle, joins}

    -- What others do until one instant they may do until a later one.
    later_on : (r s : S) {now later : ℕ} → now ≤ later → Others now r s → Others later r s
    later_on r s {now} {later} h a = joins r s s s h (omega arith) a (λ k. refl) (idle later s)

    -- An update after a call that started in `s`, was met by others, and changed nothing.
    update-Keeps :
        (u : T) (now later : ℕ) (c : LockConfiguration) (new records : Registry) (s b s' : S)
        → now ≤ later
        → instant u ≤ later
        → Others now s b
        → Same view b s'
        → Amid
            (stored_until view)
            (InStore Others)
            later
            (records, s)
            (λ p.
              Keeps
                (stored_until view)
                later
                c
                p
                (update accessor u c (new, s')).1
                (update accessor u c (new, s')).0)
    unfolding update
    update-Keeps u now later c new records s b s' h g before same =
        let (b', after, takes) = contract.updates u c s' in
        (
          (records, b'),
          joins s b s' b' h g before same after,
          updated-Keeps (instant u) later c new b' (accessor.update_record u c s') g takes,
        )

    inserted-Keeps :
        (t u : T) (c : LockConfiguration) (records : Registry) (s b : S) (r : Result Bool × S)
        → Others (instant t) s b
        → Takes view (instant t) c b r.1 r.0
        → Amid
            (stored_until view)
            (InStore Others)
            (decided_at instant (t, u))
            (records, s)
            (λ p.
              Keeps
                (stored_until view)
                (decided_at instant (t, u))
                c
                p
                (inserted accessor u c records r).1
                (inserted accessor u c records r).0)
    unfolding inserted
    inserted-Keeps t u c records s b (ok true, s') before k =
        ((records, b), later_on s b (omega arith) before, Acquires-mono view c (omega arith) k)
    inserted-Keeps t u c records s b (ok false, s') before k =
        update-Keeps u (instant t) _ c _ records s b s' (omega arith) (omega arith) before k
    inserted-Keeps t u c records s b (throw e, s') before (inl k) =
        ((records, b), later_on s b (omega arith) before, inl k)
    inserted-Keeps t u c records s b (throw e, s') before (inr k) = (
      (records, b),
      later_on s b (omega arith) before,
      inr (Acquires-mono view c (omega arith) k),
    )

    -- Over an accessor that keeps its contract amid whatever others may do, so also where no other
    -- instance acts, the provider does so too: it grants a lock only where the accessor's store
    -- shows the name free, and a call that grants none itself changes nothing that the store
    -- shows, whatever the registry remembers.
    pub lock-LockContract :
        ContractAmid (stored_until view) (InStore Others) (decided_at instant) (lock accessor)
    unfolding lock
    lock-LockContract (t, u) c (records, s) = elim (Bool-cases (records c.name)) [
      | inl seen ↦ rw seen (
          update-Keeps u (instant u) _ c records records s s s (omega arith) (omega arith)
            (idle (instant u) s) (λ j. refl))
      | inr new ↦
          let (b, before, takes) = contract.inserts t c s in
          rw new (inserted-Keeps t u c records s b (accessor.insert_record t c s) before takes)
    ]

  -- Over an accessor that keeps its contract, and for calls whose readings of the clock do not
  -- decrease: of two locks of one name that the provider grants, the later is granted only when
  -- the earlier's term is over, whatever other instances do that shorten no term that is not over.
  pub provider_grants-Disjoint :
      AccessorContract view instant accessor
      → (h : List ((T × T) × LockConfiguration)) (now : ℕ) (p : Registry × S)
      → Ascending (stored_until view) (decided_at instant) (lock accessor) now h
      → Disjoint (grants (stored_until view) (decided_at instant) (lock accessor) h p)
  provider_grants-Disjoint contract h now p a =
      grants-Disjoint (stored_until view) (decided_at instant) (lock accessor)
        (lock-LockContract (Rely view) (Rely-Joinable view) contract) h now p a
