-- ===== src/Gcs/Laws.antt =====
-- The accessor of packages/gcs/src/gcs-storage-accessor.ts keeps the contract that the
-- storage-based provider asks for, over a bucket that other instances write to at the same time.
use text.Mathlib.TextLemmas.{append_cancel_left}
use tslock.Prelude.{
  ℕ, ◌≡◌, ◌⊎◌, refl, sym, ap, ◌∙◌, true, false, Bool, String, Option, none, some, Result, ok, throw,
  Exception, arith, inl, inr, Bool-cases, leb, ltb,
}
use tslock.Core.Config.{LockConfiguration, lock_at_most_until, unlock_time}
use tslock.Core.Contract.{Amid}
use tslock.Core.Storage.{StorageAccessor}
use tslock.Core.Storage.Contract.{AccessorContractAmid, Takes, Extends, Releases}
use tslock.Backend.{IsoDates, Turn, Put, Got, Expects, is_text}
use tslock.Backend.Laws
use tslock.Backend.Laws.{
  until_of_text, until_of_parsed, parse_lock_text_cases, until_of_text-is_text, Outcome,
  Outcome-Takes, Outcome-Extends, Outcome-Releases, caught-Outcome, view_absent, view_of,
}
use tslock.Gcs.{
  GcsClient, Metadata, Version, is_not_found, is_precondition_failed, gotten, object_key,
  get_with_metadata, save, set_metadata, insert_record, update_record, unlock, extend,
  update_if_over, unlock_if_owned, extend_if_owned,
}

-- What the client documents of its four calls on a file.
pub record GcsLaws {W : Type 0} (object : W → String → Option (Version × Metadata))
    (gcs : GcsClient W) : Type 0 where
  pub looks : (key : String) (w : W) → (gcs.exists key w).1 ≡ w
  pub gets :
      (key : String) (w : W)
      → Got object is_not_found w (gcs.get_metadata key w).1 key (gcs.get_metadata key w).0
  pub saves :
      (key : String) (m : Metadata) (condition : Option Version) (w : W)
      → let (q, w') = gcs.save key m condition w in
        Put object is_precondition_failed w w' key condition m q
  pub sets :
      (key : String) (m : Metadata) (version : Version) (w : W)
      → let (q, w') = gcs.set_metadata key m version w in
        Put object is_precondition_failed w w' key (some version) m q

abbrev pub until_of : IsoDates → Metadata → ℕ
until_of dates m = until_of_text dates m.lock_until

module _ {W : Type 0} (gcs : GcsClient W) (dates : IsoDates) (object_prefix locked_by : String)
    (object : W → String → Option (Version × Metadata)) (laws : GcsLaws object gcs) where
  abbrev key_of : String → String
  key_of = object_key gcs dates object_prefix locked_by

  abbrev pub view : W → String → ℕ
  view = Laws.view object (until_of dates) (object_key gcs dates object_prefix locked_by)

  -- `Others` is what other instances may do, nothing among it.
  module _ (Others : ℕ → W → W → Type 0) (idle : (now : ℕ) (w : W) → Others now w w) where
    abbrev pub accessor : StorageAccessor W (Turn object Others)
    accessor = record {
      insert_record = λ t c. insert_record gcs dates object_prefix locked_by t.others c;
      update_record = λ t c. update_record gcs dates object_prefix locked_by t.others t.now c;
      unlock = λ t c. unlock gcs dates object_prefix locked_by t.others t.now c;
      extend = λ t c p. extend gcs dates object_prefix locked_by t.others t.now c p;
    }

    abbrev GottenBy : String → W → Result (Option (Version × Metadata)) × W → Type 0
    GottenBy key w r =
        (r ≡ (ok none, w))
        ⊎ (((h : Version × Metadata) × (r ≡ (ok (some h), w)) × (object w key ≡ some h))
            ⊎ ((e : Exception) × (r ≡ (throw e, w))))

    gotten_cases :
        (key : String) (w : W) (r : Result (Version × Metadata) × W)
        → Got object is_not_found w r.1 key r.0
        → GottenBy key w (gotten r)
    gotten_cases key w (ok h, w') (same, at) = inr (inl (h, ap (λ x. (ok (some h), x)) same, at))
    gotten_cases key w (throw e, w') (same, at) = elim (Bool-cases (is_not_found e)) [
      | inl y ↦ inl (rw (y, same) refl)
      | inr n ↦ inr (inr (e, rw (n, same) refl))
    ]

    get_cases :
        (name : String) (w : W)
        → GottenBy (key_of name) w (get_with_metadata gcs dates object_prefix locked_by name w)
    unfolding get_with_metadata
    get_cases name w = gotten_cases _ w (gcs.get_metadata (key_of name) w) (laws.gets _ w)

    key-injective : (m n : String) → key_of m ≡ key_of n → m ≡ n
    key-injective m n e = append_cancel_left object_prefix m n e

    save-Outcome :
        (name : String) (m : Metadata) (condition : Option Version) (b : W)
        → let (q, w') = save gcs dates object_prefix locked_by name m condition b in
          Outcome object
            (until_of dates)
            key_of
            key-injective
            b
            w'
            name
            condition
            (until_of dates m)
            q
    unfolding save
    save-Outcome name m condition b =
        caught-Outcome object (until_of dates) _ key-injective is_precondition_failed b name
          condition m _ (laws.saves _ m condition b)

    set-Outcome :
        (name : String) (m : Metadata) (version : Version) (b : W)
        → let (q, w') = set_metadata gcs dates object_prefix locked_by name m version b in
          Outcome object
            (until_of dates)
            key_of
            key-injective
            b
            w'
            name
            (some version)
            (until_of dates m)
            q
    unfolding set_metadata
    set-Outcome name m version b =
        caught-Outcome object (until_of dates) _ key-injective is_precondition_failed b name
          (some version) m _ (laws.sets _ m version b)

    -- What a conditional write finds is what was read.
    read_back :
        (t : Turn object Others) (w : W) (name : String) (h : Version × Metadata)
        → object w (key_of name) ≡ some h
        → Expects object (t.others w) (key_of name) (some h.0)
        → view (t.others w) name ≡ until_of dates h.1
    read_back t w name h at (d, found) =
        view_of object (until_of dates) _ key-injective (t.others w) name found
        ∙ ap (until_of dates) (sym (t.identifies w _ h.0 h.1 d at found))

    exists_cases :
        (key : String) (w : W) (r : Result Bool × W)
        → r.1 ≡ w
        → (r ≡ (ok false, w)) ⊎ ((r ≡ (ok true, w)) ⊎ ((e : Exception) × (r ≡ (throw e, w))))
    exists_cases key w (ok true, w') h = inr (inl (ap (λ x. (ok true, x)) h))
    exists_cases key w (ok false, w') h = inl (ap (λ x. (ok false, x)) h)
    exists_cases key w (throw e, w') h = inr (inr (e, ap (λ x. (throw e, x)) h))

    inserts :
        (t : Turn object Others) (c : LockConfiguration) (w : W)
        → Amid view Others t.now w (λ b.
          Takes view t.now c b (accessor.insert_record t c w).1 (accessor.insert_record t c w).0)
    unfolding insert_record
    inserts t c w =
        elim (exists_cases (key_of c.name) w (gcs.exists (key_of c.name) w) (laws.looks _ w)) [
          | inl e ↦ rw e (
            t.others w,
            t.polite w,
            Outcome-Takes object (until_of dates) _ key-injective t.now c (t.others w) _ none _ _
                (ap (until_of_parsed dates) (dates.parse-to_iso_string _))
                (λ x. omega (
                  arith,
                  view_absent object (until_of dates) _ key-injective (t.others w) c.name x,
                ))
                (save-Outcome c.name _ none (t.others w)),
          )
          | inr (inl e) ↦ rw e (w, idle t.now w, λ k. refl)
          | inr (inr (x, e)) ↦ rw e (w, idle t.now w, inl λ k. refl)
        ]

    updates :
        (t : Turn object Others) (c : LockConfiguration) (w : W)
        → Amid view Others t.now w (λ b.
          Takes view t.now c b (accessor.update_record t c w).1 (accessor.update_record t c w).0)
    unfolding update_record update_if_over
    updates t c w = elim (get_cases c.name w) [
      | inl e ↦ rw e (w, idle t.now w, inl λ k. refl)
      | inr (inl (h, e, at)) ↦ rw e (elim (parse_lock_text_cases dates h.1.lock_until) [
        | inl (x, p) ↦ rw p (w, idle t.now w, inl λ k. refl)
        | inr p ↦ rw p (elim (Bool-cases (ltb t.now (until_of dates h.1))) [
          | inl held ↦ rw held (w, idle t.now w, λ k. refl)
          | inr over ↦ rw over (
            t.others w,
            t.polite w,
            Outcome-Takes object (until_of dates) _ key-injective t.now c (t.others w) _ (some h.0)
                _ _ (ap (until_of_parsed dates) (dates.parse-to_iso_string _))
                (λ x. ground (arith, read_back t w c.name h at x))
                (save-Outcome c.name _ (some h.0) (t.others w)),
          )
        ])
      ])
      | inr (inr (x, e)) ↦ rw e (w, idle t.now w, inl λ k. refl)
    ]

    releases :
        (t : Turn object Others) (c : LockConfiguration) (w : W)
        → Amid view Others t.now w (λ b. Releases view c b (accessor.unlock t c w).1)
    unfolding unlock unlock_if_owned
    releases t c w = elim (get_cases c.name w) [
      | inl e ↦ rw e (w, idle t.now w, inl λ k. refl)
      | inr (inl (h, e, at)) ↦ rw e (elim (Bool-cases (is_text h.1.locked_by locked_by)) [
        | inr p ↦ rw p (w, idle t.now w, inl λ k. refl)
        | inl p ↦
            rw p
              (elim (Bool-cases
                (is_text h.1.lock_until (dates.to_iso_string (lock_at_most_until c)))) [
                  | inr other ↦ rw other (w, idle t.now w, inl λ k. refl)
                  | inl same ↦ rw same (
                    t.others w,
                    t.polite w,
                    Outcome-Releases object (until_of dates) _ key-injective c (t.others w)
                        (some h.0) _ _
                        (rw (dates.parse-to_iso_string (unlock_time t.now c)) (omega arith))
                        (λ x.
                          read_back t w c.name h at x
                          ∙ until_of_text-is_text dates h.1.lock_until _ same)
                        (set-Outcome c.name _ h.0 (t.others w)),
                  )
                ])
      ])
      | inr (inr (x, e)) ↦ rw e (w, idle t.now w, inl λ k. refl)
    ]

    prolongs :
        (t : Turn object Others) (c : LockConfiguration) (previous : ℕ) (w : W)
        → Amid view Others t.now w (λ b.
          Extends view t.now c previous b
            (accessor.extend t c (some previous) w).1
            (accessor.extend t c (some previous) w).0)
    unfolding extend extend_if_owned
    prolongs t c previous w = elim (get_cases c.name w) [
      | inl e ↦ rw e (w, idle t.now w, λ k. refl)
      | inr (inl (h, e, at)) ↦ rw e (elim (parse_lock_text_cases dates h.1.lock_until) [
        | inl (x, p) ↦ rw p (w, idle t.now w, inl λ k. refl)
        | inr p ↦ rw p (elim (Bool-cases (is_text h.1.locked_by locked_by)) [
          | inr q ↦ rw q (w, idle t.now w, λ k. refl)
          | inl q ↦ rw q (elim (Bool-cases (leb (until_of dates h.1) t.now)) [
            | inl over ↦ rw over (w, idle t.now w, λ k. refl)
            | inr held ↦
                rw held (elim (Bool-cases (is_text h.1.lock_until (dates.to_iso_string previous))) [
                  | inr other ↦ rw other (w, idle t.now w, λ k. refl)
                  | inl same ↦ rw same (
                    t.others w,
                    t.polite w,
                    Outcome-Extends object (until_of dates) _ key-injective t.now c previous
                        (t.others w) _ (some h.0) _ _
                        (ap (until_of_parsed dates) (dates.parse-to_iso_string _))
                        (ground (arith, until_of_text-is_text dates h.1.lock_until _ same))
                        (λ x.
                          read_back t w c.name h at x
                          ∙ until_of_text-is_text dates h.1.lock_until _ same)
                        (set-Outcome c.name _ h.0 (t.others w)),
                  )
                ])
          ])
        ])
      ])
      | inr (inr (x, e)) ↦ rw e (w, idle t.now w, inl λ k. refl)
    ]

    -- Where the client's calls do as it documents, a version of an object names one content, and
    -- amid whatever other instances may do between an operation's read and its conditional write,
    -- the accessor for Google Cloud Storage keeps the contract that the storage-based provider asks
    -- for; where it answers false it has itself changed nothing.
    pub gcs-AccessorContract :
        AccessorContractAmid view Others (λ (t : Turn object Others). t.now) accessor
    gcs-AccessorContract = record {
      inserts = inserts;
      updates = updates;
      releases = releases;
      prolongs = prolongs;
    }
