-- ===== src/Firestore/Laws.antt =====
-- The accessor of packages/firestore/src keeps the contract that the storage-based provider asks
-- for, over a database that other instances write to at the same time.
use tslock.Prelude.{
  ℕ, ◌≡◌, ◌⊎◌, refl, ap, ◌∙◌, subst, String, Option, none, some, ◌>>=◌, Result, ok, throw,
  Exception, arith, inl, inr, Bool, Bool-cases,
}
use tslock.Core.Config.{LockConfiguration, lock_at_most_until, unlock_time}
use tslock.Core.Contract.{Same, Puts}
use tslock.Core.Storage.{StorageAccessor}
use tslock.Core.Storage.Contract.{AccessorContractAmid, Takes, Extends, Releases}
use tslock.Backend.{IsoDates, Writes, Untouched, content_at, is_text, is_code, later_than, over_at}
use tslock.Backend.Laws
use tslock.Backend.Laws.{
  Untouched-Same, Writes-Puts, until_of_number, over_unless_later, is_code-number,
  before_unless_over,
}
use tslock.Backend.Transactions.{
  RunTransaction, TransactionLaws, Reading, committed-Takes, committed-Extends, committed-Releases,
}
use tslock.Firestore.{
  FirestoreDocument, Transaction, to_field_value, to_millis, FieldData, insert_record,
  insert_if_absent, update_record, update_if_over, unlock, unlock_if_owned, extend, extend_if_owned,
}

abbrev pub set_if_given : {A : Type 0} → Option A → Option A → Option A
set_if_given none old = old
set_if_given (some a) old = some a

-- A document with the fields of a call set.
abbrev pub patched : {E : Type 0} → FirestoreDocument E → FieldData → FirestoreDocument E
patched d p = record d {
  lock_until = some p.lock_until_value;
  locked_at = set_if_given p.locked_at_value d.locked_at;
  locked_by = set_if_given p.locked_by_text d.locked_by;
}

abbrev pub blank : {E : Type 0} → FirestoreDocument E
blank = record { lock_until = none; locked_at = none; locked_by = none; rest = none }

module _ {W E : Type 0} (object : W → String → Option (Unit {0} × FirestoreDocument E)) where
  abbrev Read : W → W → String → Result (Option (FirestoreDocument E)) → Type 0
  Read w w' key (ok o) = (w' ≡ w) × (content_at object w key ≡ o)
  Read w w' key (throw e) = w' ≡ w

  -- What the client documents of a transaction's read and writes.
  pub record FirestoreLaws (txn : Transaction W E) : Type 0 where
    pub gets : (key : String) (w : W) → Read w (txn.get key w).1 key (txn.get key w).0
    pub creates :
        (key : String) (p : FieldData) (w : W)
        → Writes object w (txn.create key p w) key (patched blank p)
    pub updates :
        (key : String) (p : FieldData) (d : FirestoreDocument E) (w : W)
        → content_at object w key ≡ some d
        → Writes object w (txn.update key p w) key (patched d p)

module _ {W E : Type 0} (run : RunTransaction W) (txn : Transaction W E) (dates : IsoDates)
    (locked_by_value : String) (use_timestamps : Bool)
    (object : W → String → Option (Unit {0} × FirestoreDocument E))
    (runs : TransactionLaws object run) (laws : FirestoreLaws object txn) where
  abbrev until_of : FirestoreDocument E → ℕ
  until_of e = until_of_number (to_millis run txn dates locked_by_value use_timestamps e.lock_until)

  abbrev same_key : String → String
  same_key name = name

  abbrev pub view : W → String → ℕ
  view = Laws.view object until_of same_key

  -- `Others` is what other instances may do.
  module _ (Others : ℕ → W → W → Type 0) where
    abbrev pub accessor : StorageAccessor W (Reading Others)
    accessor = record {
      insert_record =
          λ t c. insert_record run txn dates locked_by_value use_timestamps t.others t.locked_at c;
      update_record = λ t c.
          update_record run txn dates locked_by_value use_timestamps t.others t.now t.locked_at c;
      unlock = λ t c. unlock run txn dates locked_by_value use_timestamps t.others t.now c;
      extend = λ t c p. extend run txn dates locked_by_value use_timestamps t.others t.now c p;
    }

    shown : (w w' : W) → Untouched object w w' → Same view w w'
    shown = Untouched-Same object until_of same_key (λ m n e. e)

    created :
        (w : W) (name : String) (p : FieldData) (until : ℕ)
        → until_of (patched blank p) ≡ until
        → Puts view w (txn.create name p w) name until
    created w name p until x = subst (Puts view w (txn.create name p w) name) x (
        Writes-Puts object until_of same_key (λ m n x. x) w (txn.create name p w) name
          (patched blank p) (laws.creates name p w))

    written :
        (w : W) (name : String) (d : FirestoreDocument E) (p : FieldData) (until : ℕ)
        → content_at object w name ≡ some d
        → until_of (patched d p) ≡ until
        → Puts view w (txn.update name p w) name until
    written w name d p until at x = subst (Puts view w (txn.update name p w) name) x (
        Writes-Puts object until_of same_key (λ m n x. x) w (txn.update name p w) name (patched d p)
          (laws.updates name p d w at))

    until-to_field_value :
        (ms : ℕ)
        → until_of_number (
            to_millis run txn dates locked_by_value use_timestamps
              (some (to_field_value run txn dates locked_by_value use_timestamps ms)))
          ≡ ms
    until-to_field_value ms = elim (Bool-cases use_timestamps) [
      | inl d ↦ rw d refl
      | inr t ↦ rw t (ap until_of_number (dates.parse-to_iso_string ms))
    ]

    -- What a read in a transaction comes to.
    abbrev Found : String → W → Result (Option (FirestoreDocument E)) × W → Type 0
    Found key w r =
        ((d : FirestoreDocument E) × (r ≡ (ok (some d), w)) × (content_at object w key ≡ some d))
        ⊎ (((r ≡ (ok none, w)) × (view w key ≡ 0)) ⊎ ((x : Exception) × (r ≡ (throw x, w))))

    seen_from :
        (key : String) (w : W) (o : Option (FirestoreDocument E))
        → content_at object w key ≡ o
        → view w key ≡ Laws.until_or_zero object until_of same_key o
    seen_from key w o e = ap (Laws.until_or_zero object until_of same_key) e

    Read-Found :
        (key : String) (w : W) (r : Result (Option (FirestoreDocument E)) × W)
        → Read object w r.1 key r.0
        → Found key w r
    Read-Found key w (ok (some d), w') (same, at) = inl (d, ap (λ x. (ok (some d), x)) same, at)
    Read-Found key w (ok none, w') (same, at) =
        inr (inl (ap (λ x. (ok none, x)) same, seen_from key w _ at))
    Read-Found key w (throw x, w') same = inr (inr (x, ap (λ y. (throw x, y)) same))

    inserted :
        (t : Reading Others) (c : LockConfiguration) (b : W)
        → let r =
            (txn.get c.name
                >>= insert_if_absent run txn dates locked_by_value use_timestamps t.locked_at c)
              b in
          Takes view t.now c b r.1 r.0
    unfolding insert_if_absent
    inserted t c b = elim (Read-Found c.name b (txn.get c.name b) (laws.gets c.name b)) [
      | inl (e, f, s) ↦ rw f (λ k. refl)
      | inr (inl (f, s)) ↦
          rw f
            (omega (arith, s), created b c.name _ _ (until-to_field_value (lock_at_most_until c)))
      | inr (inr (x, f)) ↦ rw f (inl λ k. refl)
    ]

    updated :
        (t : Reading Others) (c : LockConfiguration) (b : W)
        → let r =
            (txn.get c.name
                >>= update_if_over run txn dates locked_by_value use_timestamps t.now t.locked_at c)
              b in
          Takes view t.now c b r.1 r.0
    unfolding update_if_over
    updated t c b = elim (Read-Found c.name b (txn.get c.name b) (laws.gets c.name b)) [
      | inr (inl (f, s)) ↦ rw f (inl λ k. refl)
      | inr (inr (x, f)) ↦ rw f (inl λ k. refl)
      | inl (e, f, at) ↦
          rw f
            (elim (Bool-cases (
              later_than (to_millis run txn dates locked_by_value use_timestamps e.lock_until)
                t.now)) [
                  | inl held ↦ rw held (λ k. refl)
                  | inr over ↦ rw over (
                    omega (arith, seen_from c.name b (some e) at, over_unless_later _ t.now over),
                    written b c.name e _ _ at (until-to_field_value (lock_at_most_until c)),
                  )
                ])
    ]

    released :
        (t : Reading Others) (c : LockConfiguration) (b : W)
        → let r =
            (txn.get c.name
                >>= unlock_if_owned run txn dates locked_by_value use_timestamps t.now c)
              b in
          Releases view c b r.1
    unfolding unlock_if_owned
    released t c b = elim (Read-Found c.name b (txn.get c.name b) (laws.gets c.name b)) [
      | inr (inl (f, s)) ↦ rw f (inl λ k. refl)
      | inr (inr (x, f)) ↦ rw f (inl λ k. refl)
      | inl (e, f, at) ↦ rw f (elim (Bool-cases (is_text e.locked_by locked_by_value)) [
        | inr p ↦ rw p (inl λ k. refl)
        | inl p ↦
            rw p
              (elim (Bool-cases (
                is_code (to_millis run txn dates locked_by_value use_timestamps e.lock_until)
                  (lock_at_most_until c))) [
                    | inr other ↦ rw other (inl λ k. refl)
                    | inl same ↦ rw same (
                        inr (
                          seen_from c.name b (some e) at ∙ is_code-number _ _ same,
                          (
                            unlock_time t.now c,
                            omega arith,
                            written b c.name e _ _ at (until-to_field_value (unlock_time t.now c)),
                          ),
                        ))
                  ])
      ])
    ]

    prolonged :
        (t : Reading Others) (c : LockConfiguration) (previous : ℕ) (b : W)
        → let r =
            (txn.get c.name
                >>= extend_if_owned run txn dates locked_by_value use_timestamps t.now c previous)
              b in
          Extends view t.now c previous b r.1 r.0
    unfolding extend_if_owned
    prolonged t c previous b = elim (Read-Found c.name b (txn.get c.name b) (laws.gets c.name b)) [
      | inr (inl (f, s)) ↦ rw f (λ k. refl)
      | inr (inr (x, f)) ↦ rw f (inl λ k. refl)
      | inl (e, f, at) ↦ rw f (elim (Bool-cases (is_text e.locked_by locked_by_value)) [
        | inr p ↦ rw p (λ k. refl)
        | inl p ↦
            rw p
              (elim (Bool-cases (
                is_code (to_millis run txn dates locked_by_value use_timestamps e.lock_until)
                  previous)) [
                    | inr other ↦ rw other (λ k. refl)
                    | inl same ↦
                        rw same
                          (elim (Bool-cases (
                            over_at
                              (to_millis run txn dates locked_by_value use_timestamps e.lock_until)
                              t.now)) [
                                | inl over ↦ rw over (λ k. refl)
                                | inr held ↦ rw held (
                                  seen_from c.name b (some e) at ∙ is_code-number _ _ same,
                                  before_unless_over _ t.now previous same held,
                                  written b c.name e _ _ at
                                      (until-to_field_value (lock_at_most_until c)),
                                )
                              ])
                  ])
      ])
    ]

    -- Where a transaction does as the client documents, the Firestore accessor keeps the contract
    -- that the storage-based provider asks for, amid whatever other instances may do before it;
    -- where it answers false it has itself changed nothing.
    pub firestore-AccessorContract :
        AccessorContractAmid view Others (λ (t : Reading Others). t.now) accessor
    unfolding insert_record update_record unlock extend
    firestore-AccessorContract = record {
      inserts = λ t c w. (
        t.others w,
        t.polite w,
        committed-Takes view object shown t.now c (t.others w) _ _ (runs _ t.others _ w)
            (inserted t c (t.others w)),
      );
      updates = λ t c w. (
        t.others w,
        t.polite w,
        committed-Takes view object shown t.now c (t.others w) _ _ (runs _ t.others _ w)
            (updated t c (t.others w)),
      );
      releases = λ t c w. (
        t.others w,
        t.polite w,
        committed-Releases view object shown c (t.others w) _ _ (runs _ t.others _ w)
            (released t c (t.others w)),
      );
      prolongs = λ t c p w. (
        t.others w,
        t.polite w,
        committed-Extends view object shown t.now c p (t.others w) _ _ (runs _ t.others _ w)
            (prolonged t c p (t.others w)),
      );
    }
