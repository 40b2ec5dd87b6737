-- ===== src/Datastore/Laws.antt =====
-- The accessor of packages/datastore/src keeps the contract that the storage-based provider asks
-- for, over a database that other instances write to at the same time.
use tslock.Prelude.{
  ℕ, ◌≡◌, ◌⊎◌, refl, ap, ◌∙◌, subst, true, String, Option, none, some, ◌>>=◌, Result, ok, throw,
  Exception, arith, inl, inr, Bool, Bool-cases,
}
use tslock.Core.Config.{LockConfiguration, lock_at_most_until, unlock_time}
use tslock.Core.Contract.{Same, Puts}
use tslock.Core.Storage.{StorageAccessor}
use tslock.Core.Storage.Contract.{AccessorContractAmid, Takes, Extends, Releases}
use tslock.Backend.{IsoDates, Writes, Untouched, content_at, is_text, is_code, later_than, over_at}
use tslock.Backend.Laws
use tslock.Backend.Laws.{
  Untouched-Same, Writes-Puts, until_of_number, over_unless_later, is_code-number,
  before_unless_over,
}
use tslock.Backend.Transactions.{
  RunTransaction, TransactionLaws, Reading, committed-Takes, committed-Extends, committed-Releases,
}
use tslock.Datastore.{
  DatastoreEntity, Transaction, is_not_found, to_field_value, parse_field_value, safe_get,
  insert_record, insert_if_absent, update_record, update_if_over, unlock, unlock_if_owned, extend,
  extend_if_owned, absent_or_thrown,
}

module _ {W E : Type 0} (object : W → String → Option (Unit {0} × DatastoreEntity E)) where
  -- What the client documents of a transaction's read and write.
  abbrev Read : (Exception → Bool) → W → W → String → Result (Option (DatastoreEntity E)) → Type 0
  Read test w w' key (ok o) = (w' ≡ w) × (content_at object w key ≡ o)
  Read test w w' key (throw e) = (w' ≡ w) × (test e ≡ true → content_at object w key ≡ none)

  pub record DatastoreLaws (test : Exception → Bool) (txn : Transaction W E) : Type 0 where
    pub gets : (key : String) (w : W) → Read test w (txn.get key w).1 key (txn.get key w).0
    pub upserts :
        (key : String) (e : DatastoreEntity E) (w : W) → Writes object w (txn.upsert key e w) key e

module _ {W E : Type 0} (run : RunTransaction W) (txn : Transaction W E) (dates : IsoDates)
    (locked_by_value : String) (use_date : Bool)
    (object : W → String → Option (Unit {0} × DatastoreEntity E))
    (runs : TransactionLaws object run)
    (laws : DatastoreLaws object (is_not_found run txn dates locked_by_value use_date) txn) where
  abbrev until_of : DatastoreEntity E → ℕ
  until_of e =
      until_of_number (parse_field_value run txn dates locked_by_value use_date e.lock_until)

  abbrev same_key : String → String
  same_key name = name

  abbrev pub view : W → String → ℕ
  view = Laws.view object until_of same_key

  -- `Others` is what other instances may do.
  module _ (Others : ℕ → W → W → Type 0) where
    abbrev pub accessor : StorageAccessor W (Reading Others)
    accessor = record {
      insert_record =
          λ t c. insert_record run txn dates locked_by_value use_date t.others t.locked_at c;
      update_record =
          λ t c. update_record run txn dates locked_by_value use_date t.others t.now t.locked_at c;
      unlock = λ t c. unlock run txn dates locked_by_value use_date t.others t.now c;
      extend = λ t c p. extend run txn dates locked_by_value use_date t.others t.now c p;
    }

    shown : (w w' : W) → Untouched object w w' → Same view w w'
    shown = Untouched-Same object until_of same_key (λ m n e. e)

    written :
        (w : W) (name : String) (e : DatastoreEntity E) (until : ℕ)
        → until_of e ≡ until
        → Puts view w (txn.upsert name e w) name until
    written w name e until x = subst (Puts view w (txn.upsert name e w) name) x (
        Writes-Puts object until_of same_key (λ m n x. x) w (txn.upsert name e w) name e
          (laws.upserts name e w))

    until-to_field_value :
        (ms : ℕ)
        → until_of_number (
            parse_field_value run txn dates locked_by_value use_date
              (some (to_field_value run txn dates locked_by_value use_date ms)))
          ≡ ms
    until-to_field_value ms = elim (Bool-cases use_date) [
      | inl d ↦ rw d refl
      | inr t ↦ rw t (ap until_of_number (dates.parse-to_iso_string ms))
    ]

    -- What a read in a transaction comes to.
    abbrev Found : String → W → Result (Option (DatastoreEntity E)) × W → Type 0
    Found key w r =
        ((e : DatastoreEntity E) × (r ≡ (ok (some e), w)) × (view w key ≡ until_of e))
        ⊎ (((r ≡ (ok none, w)) × (view w key ≡ 0)) ⊎ ((x : Exception) × (r ≡ (throw x, w))))

    seen_from :
        (key : String) (w : W) (o : Option (DatastoreEntity E))
        → content_at object w key ≡ o
        → view w key ≡ Laws.until_or_zero object until_of same_key o
    seen_from key w o e = ap (Laws.until_or_zero object until_of same_key) e

    Read-Found :
        (key : String) (w : W) (r : Result (Option (DatastoreEntity E)) × W)
        → Read object (is_not_found run txn dates locked_by_value use_date) w r.1 key r.0
        → Found key w (absent_or_thrown run txn dates locked_by_value use_date r)
    Read-Found key w (ok (some e), w') (same, at) = rw same (inl (e, refl, seen_from key w _ at))
    Read-Found key w (ok none, w') (same, at) = rw same (inr (inl (refl, seen_from key w _ at)))
    Read-Found key w (throw x, w') (same, at) =
        elim (Bool-cases (is_not_found run txn dates locked_by_value use_date x)) [
          | inl y ↦ rw (same, y) (inr (inl (refl, seen_from key w _ (at y))))
          | inr n ↦ rw (same, n) (inr (inr (x, refl)))
        ]

    safe_get-Found :
        (key : String) (w : W) → Found key w (safe_get run txn dates locked_by_value use_date key w)
    unfolding safe_get
    safe_get-Found key w = Read-Found key w (txn.get key w) (laws.gets key w)

    inserted :
        (t : Reading Others) (c : LockConfiguration) (b : W)
        → let r =
            (safe_get run txn dates locked_by_value use_date c.name
                >>= insert_if_absent run txn dates locked_by_value use_date t.locked_at c)
              b in
          Takes view t.now c b r.1 r.0
    unfolding insert_if_absent
    inserted t c b = elim (safe_get-Found c.name b) [
      | inl (e, f, s) ↦ rw f (λ k. refl)
      | inr (inl (f, s)) ↦
          rw f
            (omega (arith, s), written b c.name _ _ (until-to_field_value (lock_at_most_until c)))
      | inr (inr (x, f)) ↦ rw f (inl λ k. refl)
    ]

    updated :
        (t : Reading Others) (c : LockConfiguration) (b : W)
        → let r =
            (safe_get run txn dates locked_by_value use_date c.name
                >>= update_if_over run txn dates locked_by_value use_date t.now t.locked_at c)
              b in
          Takes view t.now c b r.1 r.0
    unfolding update_if_over
    updated t c b = elim (safe_get-Found c.name b) [
      | inr (inl (f, s)) ↦ rw f (inl λ k. refl)
      | inr (inr (x, f)) ↦ rw f (inl λ k. refl)
      | inl (e, f, s) ↦
          rw f
            (elim (Bool-cases (
              later_than (parse_field_value run txn dates locked_by_value use_date e.lock_until)
                t.now)) [
                  | inl held ↦ rw held (λ k. refl)
                  | inr over ↦ rw over (
                    omega (arith, s, over_unless_later _ t.now over),
                    written b c.name _ _ (until-to_field_value (lock_at_most_until c)),
                  )
                ])
    ]

    released :
        (t : Reading Others) (c : LockConfiguration) (b : W)
        → let r =
            (safe_get run txn dates locked_by_value use_date c.name
                >>= unlock_if_owned run txn dates locked_by_value use_date t.now c)
              b in
          Releases view c b r.1
    unfolding unlock_if_owned
    released t c b = elim (safe_get-Found c.name b) [
      | inr (inl (f, s)) ↦ rw f (inl λ k. refl)
      | inr (inr (x, f)) ↦ rw f (inl λ k. refl)
      | inl (e, f, s) ↦ rw f (elim (Bool-cases (is_text e.locked_by locked_by_value)) [
        | inr p ↦ rw p (inl λ k. refl)
        | inl p ↦
            rw p
              (elim (Bool-cases (
                is_code (parse_field_value run txn dates locked_by_value use_date e.lock_until)
                  (lock_at_most_until c))) [
                    | inr other ↦ rw other (inl λ k. refl)
                    | inl same ↦ rw same (
                        inr (
                          s ∙ is_code-number _ _ same,
                          (
                            unlock_time t.now c,
                            omega arith,
                            written b c.name _ _ (until-to_field_value (unlock_time t.now c)),
                          ),
                        ))
                  ])
      ])
    ]

    prolonged :
        (t : Reading Others) (c : LockConfiguration) (previous : ℕ) (b : W)
        → let r =
            (safe_get run txn dates locked_by_value use_date c.name
                >>= extend_if_owned run txn dates locked_by_value use_date t.now c previous)
              b in
          Extends view t.now c previous b r.1 r.0
    unfolding extend_if_owned
    prolonged t c previous b = elim (safe_get-Found c.name b) [
      | inr (inl (f, s)) ↦ rw f (λ k. refl)
      | inr (inr (x, f)) ↦ rw f (inl λ k. refl)
      | inl (e, f, s) ↦ rw f (elim (Bool-cases (is_text e.locked_by locked_by_value)) [
        | inr p ↦ rw p (λ k. refl)
        | inl p ↦
            rw p
              (elim (Bool-cases (
                is_code (parse_field_value run txn dates locked_by_value use_date e.lock_until)
                  previous)) [
                    | inr other ↦ rw other (λ k. refl)
                    | inl same ↦
                        rw same
                          (elim (Bool-cases (
                            over_at
                              (parse_field_value run txn dates locked_by_value use_date
                                e.lock_until)
                              t.now)) [
                                | inl over ↦ rw over (λ k. refl)
                                | inr held ↦ rw held (
                                  s ∙ is_code-number _ _ same,
                                  before_unless_over _ t.now previous same held,
                                  written b c.name _ _
                                      (until-to_field_value (lock_at_most_until c)),
                                )
                              ])
                  ])
      ])
    ]

    -- Where a transaction does as the client documents, the Datastore accessor keeps the contract
    -- that the storage-based provider asks for, amid whatever other instances may do before it;
    -- where it answers false it has itself changed nothing.
    pub datastore-AccessorContract :
        AccessorContractAmid view Others (λ (t : Reading Others). t.now) accessor
    unfolding insert_record update_record unlock extend
    datastore-AccessorContract = record {
      inserts = λ t c w. (
        t.others w,
        t.polite w,
        committed-Takes view object shown t.now c (t.others w) _ _ (runs _ t.others _ w)
            (inserted t c (t.others w)),
      );
      updates = λ t c w. (
        t.others w,
        t.polite w,
        committed-Takes view object shown t.now c (t.others w) _ _ (runs _ t.others _ w)
            (updated t c (t.others w)),
      );
      releases = λ t c w. (
        t.others w,
        t.polite w,
        committed-Releases view object shown c (t.others w) _ _ (runs _ t.others _ w)
            (released t c (t.others w)),
      );
      prolongs = λ t c p w. (
        t.others w,
        t.polite w,
        committed-Extends view object shown t.now c p (t.others w) _ _ (runs _ t.others _ w)
            (prolonged t c p (t.others w)),
      );
    }
