-- ===== src/Couchbase/Laws.antt =====
-- The accessor of packages/couchbase/src keeps the contract that the storage-based provider asks
-- for, over a collection that other instances write to at the same time.
use Prim.Native.String.{◌++◌}
use Prim.Native.String
use text.Mathlib.TextLemmas.{append_cancel_left}
use tslock.Prelude.{
  ℕ, ◌<◌, ◌≡◌, ◌⊎◌, refl, sym, ap, ◌∙◌, true, false, String, Option, none, some, Result, ok, throw,
  Exception, arith, inl, inr, Bool-cases, ltb,
}
use tslock.Core.Config.{LockConfiguration, lock_at_most_until}
use tslock.Core.Contract.{Amid}
use tslock.Core.Storage.{StorageAccessor}
use tslock.Core.Storage.Contract.{AccessorContractAmid, Takes, Extends, Releases}
use tslock.Backend.{Turn, Put, Got, Expects, is_text, on_external, later_than, over_at}
use tslock.Backend.Laws
use tslock.Backend.Laws.{
  Outcome, Outcome-Takes, Outcome-Extends, Outcome-Releases, caught-Outcome, view_absent, view_of,
  until_of_number, over_unless_later, is_code-number, before_unless_over,
}
use tslock.Couchbase.{
  Collection, Document, doc_id, new_document, is_number, insert_record, update_record, unlock,
  extend, replace, find, update_if_over, unlock_if_owned, extend_if_owned,
}

-- What the client documents of its three calls.
pub record CollectionLaws {W Cas D : Type 0} (object : W → String → Option (Cas × Document D))
    (collection : Collection W Cas D) : Type 0 where
  pub inserts_new :
      (id : String) (d : Document D) (w : W)
      → let (q, w') = collection.insert id d w in
        Put object (on_external collection.is_exists_error) w w' id none d q
  pub gets :
      (id : String) (w : W)
      → Got object
          (on_external collection.is_not_found_error)
          w
          (collection.get_document id w).1
          id
          (collection.get_document id w).0
  pub replaces :
      (id : String) (d : Document D) (cas : Cas) (w : W)
      → let (q, w') = collection.replace id d cas w in
        Put object (on_external collection.is_cas_mismatch) w w' id (some cas) d q

abbrev pub until_of : {D : Type 0} → Document D → ℕ
until_of d = until_of_number d.lock_until

held_unless_over :
    (o : Option ℕ) (now previous : ℕ)
    → is_number o previous ≡ true
    → over_at o now ≡ false
    → (now < previous) × (until_of_number o ≡ previous)
held_unless_over o now previous h n =
    (before_unless_over o now previous h n, is_code-number o previous h)

module _ {W Cas D : Type 0} (collection : Collection W Cas D) (prefix locked_by : String)
    (object : W → String → Option (Cas × Document D))
    (laws : CollectionLaws object collection) where
  abbrev key_of : String → String
  key_of name = prefix ++ name

  abbrev pub view : W → String → ℕ
  view = Laws.view object until_of key_of

  -- `Others` is what other instances may do, nothing among it.
  module _ (Others : ℕ → W → W → Type 0) (idle : (now : ℕ) (w : W) → Others now w w) where
    -- A turn, and the clock as `lockedAt` reads it.
    abbrev pub Reading : Type 0
    Reading = Turn object Others × ℕ

    abbrev pub instant_of : Reading → ℕ
    instant_of (t, locked_at) = t.now

    abbrev pub accessor : StorageAccessor W Reading
    accessor = record {
      insert_record = λ t c. insert_record collection prefix locked_by t.1 c;
      update_record = λ t c. update_record collection prefix locked_by t.0.others t.0.now t.1 c;
      unlock = λ t c. unlock collection prefix locked_by t.0.others t.0.now c;
      extend = λ t c p. extend collection prefix locked_by t.0.others t.0.now c p;
    }

    -- The id of a name is the key, or too long.
    id_cases :
        (name : String)
        → (doc_id collection prefix locked_by name ≡ ok (key_of name))
          ⊎ ((e : Exception) × (doc_id collection prefix locked_by name ≡ throw e))
    id_cases name = elim (Bool-cases (ltb 250 (String.len (prefix ++ name)))) [
      | inl e ↦ rw e (inr (_, refl))
      | inr e ↦ rw e (inl refl)
    ]

    result_cases :
        (id : String) (w : W) (r : Result (Cas × Document D) × W)
        → Got object (on_external collection.is_not_found_error) w r.1 id r.0
        → ((h : Cas × Document D) × (r ≡ (ok h, w)) × (object w id ≡ some h))
          ⊎ ((e : Exception) × (r ≡ (throw e, w)))
    result_cases id w (ok h, w') (same, at) = inl (h, ap (λ x. (ok h, x)) same, at)
    result_cases id w (throw e, w') (same, at) = inr (e, ap (λ x. (throw e, x)) same)

    key-injective : (m n : String) → key_of m ≡ key_of n → m ≡ n
    key-injective m n e = append_cancel_left prefix m n e

    replace-Outcome :
        (name : String) (d : Document D) (cas : Cas) (b : W)
        → let (q, w') = replace collection prefix locked_by (key_of name) d cas b in
          Outcome object until_of key_of key-injective b w' name (some cas) (until_of d) q
    unfolding replace
    replace-Outcome name d cas b =
        caught-Outcome object until_of key_of key-injective (on_external collection.is_cas_mismatch)
          b name (some cas) d _ (laws.replaces _ d cas b)

    -- What a conditional write finds is what was read.
    read_back :
        (t : Turn object Others) (w : W) (name : String) (h : Cas × Document D)
        → object w (key_of name) ≡ some h
        → Expects object (t.others w) (key_of name) (some h.0)
        → view (t.others w) name ≡ until_of h.1
    read_back t w name h at (d, found) =
        view_of object until_of key_of key-injective (t.others w) name found
        ∙ ap until_of (sym (t.identifies w _ h.0 h.1 d at found))

    inserts :
        (t : Reading) (c : LockConfiguration) (w : W)
        → Amid view Others (instant_of t) w (λ b.
          Takes view
            (instant_of t)
            c
            b
            (accessor.insert_record t c w).1
            (accessor.insert_record t c w).0)
    unfolding insert_record
    inserts (t, at) c w = elim (id_cases c.name) [
      | inr (x, e) ↦ rw e (w, idle t.now w, inl λ k. refl)
      | inl e ↦ rw e (
        w,
        idle t.now w,
        Outcome-Takes object until_of key_of key-injective t.now c w _ none _ _ refl
            (λ x. omega (arith, view_absent object until_of key_of key-injective w c.name x))
            (caught-Outcome object until_of key_of key-injective
              (on_external collection.is_exists_error) w c.name none _ _
              (laws.inserts_new (key_of c.name) (new_document collection prefix locked_by c at) w)),
      )
    ]

    updates :
        (t : Reading) (c : LockConfiguration) (w : W)
        → Amid view Others (instant_of t) w (λ b.
          Takes view
            (instant_of t)
            c
            b
            (accessor.update_record t c w).1
            (accessor.update_record t c w).0)
    unfolding update_record update_if_over
    updates (t, at_) c w = elim (id_cases c.name) [
      | inr (x, e) ↦ rw e (w, idle t.now w, inl λ k. refl)
      | inl e ↦
          rw e
            (elim (result_cases _ w (collection.get_document (key_of c.name) w) (laws.gets _ w)) [
              | inr (x, f) ↦ rw f (w, idle t.now w, inl λ k. refl)
              | inl (h, f, at) ↦ rw f (elim (Bool-cases (later_than h.1.lock_until t.now)) [
                | inl held ↦ rw held (w, idle t.now w, λ k. refl)
                | inr over ↦ rw over (
                  t.others w,
                  t.polite w,
                  Outcome-Takes object until_of key_of key-injective t.now c (t.others w) _
                      (some h.0) _ _ refl
                      (λ x. omega (
                        arith,
                        read_back t w c.name h at x,
                        over_unless_later h.1.lock_until t.now over,
                      ))
                      (replace-Outcome c.name _ h.0 (t.others w)),
                )
              ])
            ])
    ]

    found_cases :
        (id : String) (w : W)
        → ((h : Cas × Document D) × (find collection prefix locked_by id w ≡ (ok (some h), w))
            × (object w id ≡ some h))
          ⊎ ((find collection prefix locked_by id w ≡ (ok none, w))
              ⊎ ((e : Exception) × (find collection prefix locked_by id w ≡ (throw e, w))))
    unfolding find
    found_cases id w = elim (result_cases id w (collection.get_document id w) (laws.gets id w)) [
      | inl (h, e, at) ↦ inl (h, rw e refl, at)
      | inr (x, e) ↦ elim (Bool-cases (on_external collection.is_not_found_error x)) [
        | inl y ↦ inr (inl (rw (e, y) refl))
        | inr n ↦ inr (inr (x, rw (e, n) refl))
      ]
    ]

    releases :
        (t : Reading) (c : LockConfiguration) (w : W)
        → Amid view Others (instant_of t) w (λ b. Releases view c b (accessor.unlock t c w).1)
    unfolding unlock unlock_if_owned
    releases (t, at_) c w = elim (id_cases c.name) [
      | inr (x, e) ↦ rw e (w, idle t.now w, inl λ k. refl)
      | inl e ↦ rw e (elim (found_cases (key_of c.name) w) [
        | inr (inl f) ↦ rw f (w, idle t.now w, inl λ k. refl)
        | inr (inr (x, f)) ↦ rw f (w, idle t.now w, inl λ k. refl)
        | inl (h, f, at) ↦ rw f (elim (Bool-cases (is_text h.1.locked_by locked_by)) [
          | inr p ↦ rw p (w, idle t.now w, inl λ k. refl)
          | inl p ↦ rw p (elim (Bool-cases (is_number h.1.lock_until (lock_at_most_until c))) [
            | inr other ↦ rw other (w, idle t.now w, inl λ k. refl)
            | inl same ↦ rw same (
              t.others w,
              t.polite w,
              Outcome-Releases object until_of key_of key-injective c (t.others w) (some h.0) _ _
                  (omega arith)
                  (λ x. read_back t w c.name h at x ∙ is_code-number h.1.lock_until _ same)
                  (replace-Outcome c.name _ h.0 (t.others w)),
            )
          ])
        ])
      ])
    ]

    prolongs :
        (t : Reading) (c : LockConfiguration) (previous : ℕ) (w : W)
        → Amid view Others (instant_of t) w (λ b.
          Extends view
            (instant_of t)
            c
            previous
            b
            (accessor.extend t c (some previous) w).1
            (accessor.extend t c (some previous) w).0)
    unfolding extend extend_if_owned
    prolongs (t, at_) c previous w = elim (id_cases c.name) [
      | inr (x, e) ↦ rw e (w, idle t.now w, inl λ k. refl)
      | inl e ↦ rw e (elim (found_cases (key_of c.name) w) [
        | inr (inl f) ↦ rw f (w, idle t.now w, λ k. refl)
        | inr (inr (x, f)) ↦ rw f (w, idle t.now w, inl λ k. refl)
        | inl (h, f, at) ↦ rw f (elim (Bool-cases (is_text h.1.locked_by locked_by)) [
          | inr p ↦ rw p (w, idle t.now w, λ k. refl)
          | inl p ↦ rw p (elim (Bool-cases (is_number h.1.lock_until previous)) [
            | inr other ↦ rw other (w, idle t.now w, λ k. refl)
            | inl same ↦ rw same (elim (Bool-cases (over_at h.1.lock_until t.now)) [
              | inl over ↦ rw over (w, idle t.now w, λ k. refl)
              | inr held ↦
                  let (ahead, number) = held_unless_over h.1.lock_until t.now previous same held in
                  rw held (
                    t.others w,
                    t.polite w,
                    Outcome-Extends object until_of key_of key-injective t.now c previous
                        (t.others w) _ (some h.0) _ _ refl ahead
                        (λ x. read_back t w c.name h at x ∙ number)
                        (replace-Outcome c.name _ h.0 (t.others w)),
                  )
            ])
          ])
        ])
      ])
    ]

    -- Where the client's calls do as it documents, a CAS value of a document names one content, and
    -- amid whatever other instances may do between an operation's read and its write, the Couchbase
    -- accessor keeps the contract that the storage-based provider asks for; where it answers false
    -- it has itself changed nothing.
    pub couchbase-AccessorContract : AccessorContractAmid view Others instant_of accessor
    couchbase-AccessorContract = record {
      inserts = inserts;
      updates = updates;
      releases = releases;
      prolongs = prolongs;
    }
