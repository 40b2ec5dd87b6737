-- ===== src/S3/Laws.antt =====
-- The accessor of packages/s3/src/s3-storage-accessor.ts keeps the contract that the storage-based
-- provider asks for, over a bucket that other instances write to at the same time.
use text.Mathlib.TextLemmas.{append_cancel_left}
use tslock.Prelude.{
  ℕ, ◌≡◌, ◌⊎◌, refl, sym, ap, ◌∙◌, true, String, Option, none, some, Result, ok, throw, Exception,
  arith, inl, inr, Bool-cases, leb, ltb,
}
use tslock.Core.Config.{LockConfiguration, lock_at_most_until, unlock_time}
use tslock.Core.Contract.{Amid}
use tslock.Core.Storage.{StorageAccessor}
use tslock.Core.Storage.Contract.{AccessorContractAmid, Takes, Extends, Releases}
use tslock.Backend.{IsoDates, Turn, Put, Expects, is_text}
use tslock.Backend.Laws
use tslock.Backend.Laws.{
  until_of_text, until_of_parsed, parse_lock_text_cases, until_of_text-is_text, is_text-eq, Outcome,
  Outcome-Takes, Outcome-Extends, Outcome-Releases, caught-Outcome, view_absent, view_of,
}
use tslock.S3.{
  S3Client, Metadata, LockRecord, Condition, if_none_match, if_match, lock_until_of, locked_at_of,
  locked_by_of, is_not_found, is_conditional_write_failed, object_key, head_object,
  parse_lock_until, put_record, insert_record, update_record, unlock, extend, headed,
  update_if_over, unlock_if_owned, extend_if_owned,
}

-- The metadata as the accessor reads it.
pub record Fields : Type 0 where
  pub lock_until : Option String
  pub locked_at : Option String
  pub locked_by : Option String

abbrev pub fields : Metadata → Fields
fields m = record {
  lock_until = lock_until_of m;
  locked_at = locked_at_of m;
  locked_by = locked_by_of m;
}

abbrev pub written : LockRecord → Fields
written r = record {
  lock_until = some r.lock_until;
  locked_at = some r.locked_at;
  locked_by = some r.locked_by;
}

abbrev pub expected : Condition → Option String
expected if_none_match = none
expected (if_match etag) = some etag

module _ {W : Type 0} (object : W → String → Option (String × Fields)) where
  abbrev pub Heads : W → W → String → Result (String × Metadata) → Type 0
  Heads w w' key (ok h) = (w' ≡ w) × (object w key ≡ some (h.0, fields h.1))
  Heads w w' key (throw e) = (w' ≡ w) × (is_not_found e ≡ true → object w key ≡ none)

  -- What S3 documents of the two commands.
  pub record S3Laws (s3 : S3Client W) (body : LockRecord → String) : Type 0 where
    pub heads :
        (key : String) (w : W) → Heads w (s3.head_object key w).1 key (s3.head_object key w).0
    pub puts :
        (key : String) (r : LockRecord) (condition : Condition) (w : W)
        → let (q, w') = s3.put_object key (body r) r condition w in
          Put object is_conditional_write_failed w w' key (expected condition) (written r) q

abbrev pub until_of : IsoDates → Fields → ℕ
until_of dates f = until_of_text dates f.lock_until

module _ {W : Type 0} (s3 : S3Client W) (dates : IsoDates) (body : LockRecord → String)
    (object_prefix hostname : String) (object : W → String → Option (String × Fields))
    (laws : S3Laws object s3 body) where
  abbrev pub view : W → String → ℕ
  view = Laws.view object (until_of dates) (object_key s3 dates body object_prefix hostname)

  -- `Others` is what other instances may do, nothing among it.
  module _ (Others : ℕ → W → W → Type 0) (idle : (now : ℕ) (w : W) → Others now w w) where
    abbrev pub accessor : StorageAccessor W (Turn object Others)
    accessor = record {
      insert_record = λ t c. insert_record s3 dates body object_prefix hostname t.others c;
      update_record = λ t c. update_record s3 dates body object_prefix hostname t.others t.now c;
      unlock = λ t c. unlock s3 dates body object_prefix hostname t.others t.now c;
      extend = λ t c p. extend s3 dates body object_prefix hostname t.others t.now c p;
    }

    abbrev HeadedBy : String → W → Type 0
    HeadedBy name w =
        ((head_object s3 dates body object_prefix hostname name w ≡ (ok none, w))
          × (object w (object_key s3 dates body object_prefix hostname name) ≡ none))
        ⊎ (((h : String × Metadata) × (head_object s3 dates body object_prefix hostname name w
                ≡ (ok (some h), w))
              × (object w (object_key s3 dates body object_prefix hostname name)
                  ≡ some (h.0, fields h.1)))
            ⊎ ((e : Exception) × (head_object s3 dates body object_prefix hostname name w
                  ≡ (throw e, w))))

    headed_cases :
        (key : String) (w : W) (r : Result (String × Metadata) × W)
        → Heads object w r.1 key r.0
        → ((headed s3 dates body object_prefix hostname r ≡ (ok none, w)) × (object w key ≡ none))
          ⊎ (((h : String × Metadata) × (headed s3 dates body object_prefix hostname r
                  ≡ (ok (some h), w))
                × (object w key ≡ some (h.0, fields h.1)))
              ⊎ ((e : Exception) × (headed s3 dates body object_prefix hostname r ≡ (throw e, w))))
    headed_cases key w (ok h, w') (same, at) = inr (inl (h, ap (λ x. (ok (some h), x)) same, at))
    headed_cases key w (throw e, w') (same, at) = elim (Bool-cases (is_not_found e)) [
      | inl y ↦ inl (rw (y, same) refl, at y)
      | inr n ↦ inr (inr (e, rw (n, same) refl))
    ]

    head_cases : (name : String) (w : W) → HeadedBy name w
    unfolding head_object
    head_cases name w =
        headed_cases _ w (s3.head_object (object_key s3 dates body object_prefix hostname name) w)
          (laws.heads _ w)

    key-injective :
        (m n : String)
        → object_key s3 dates body object_prefix hostname m
          ≡ object_key s3 dates body object_prefix hostname n
        → m ≡ n
    key-injective m n e = append_cancel_left object_prefix m n e

    put-Outcome :
        (name : String) (r : LockRecord) (condition : Condition) (b : W)
        → let (q, w') = put_record s3 dates body object_prefix hostname name r condition b in
          Outcome object
            (until_of dates)
            (object_key s3 dates body object_prefix hostname)
            key-injective
            b
            w'
            name
            (expected condition)
            (until_of dates (written r))
            q
    unfolding put_record
    put-Outcome name r condition b =
        caught-Outcome object (until_of dates) _ key-injective is_conditional_write_failed b name
          (expected condition) (written r) _ (laws.puts _ r condition b)

    inserts :
        (t : Turn object Others) (c : LockConfiguration) (w : W)
        → Amid view Others t.now w (λ b.
          Takes view t.now c b (accessor.insert_record t c w).1 (accessor.insert_record t c w).0)
    unfolding insert_record
    inserts t c w = elim (head_cases c.name w) [
      | inl (e, at) ↦ rw e (
        t.others w,
        t.polite w,
        Outcome-Takes object (until_of dates) _ key-injective t.now c (t.others w) _ none _ _
            (ap (until_of_parsed dates) (dates.parse-to_iso_string _))
            (λ x.
              omega
                (arith, view_absent object (until_of dates) _ key-injective (t.others w) c.name x))
            (put-Outcome c.name _ if_none_match (t.others w)),
      )
      | inr (inl (h, e, at)) ↦ rw e (w, idle t.now w, λ k. refl)
      | inr (inr (x, e)) ↦ rw e (w, idle t.now w, inl λ k. refl)
    ]

    parse_cases :
        (m : Metadata)
        → ((e : Exception) × (parse_lock_until s3 dates body object_prefix hostname m ≡ throw e))
          ⊎ (parse_lock_until s3 dates body object_prefix hostname m
              ≡ ok (until_of dates (fields m)))
    unfolding parse_lock_until
    parse_cases m = parse_lock_text_cases dates (lock_until_of m)

    -- What a conditional write finds is what was read.
    read_back :
        (t : Turn object Others) (w : W) (name : String) (h : String × Metadata)
        → object w (object_key s3 dates body object_prefix hostname name) ≡ some (h.0, fields h.1)
        → Expects object
            (t.others w)
            (object_key s3 dates body object_prefix hostname name)
            (some h.0)
        → view (t.others w) name ≡ until_of dates (fields h.1)
    read_back t w name h at (d, found) =
        view_of object (until_of dates) _ key-injective (t.others w) name found
        ∙ ap (until_of dates) (sym (t.identifies w _ h.0 _ d at found))

    updates :
        (t : Turn object Others) (c : LockConfiguration) (w : W)
        → Amid view Others t.now w (λ b.
          Takes view t.now c b (accessor.update_record t c w).1 (accessor.update_record t c w).0)
    unfolding update_record update_if_over
    updates t c w = elim (head_cases c.name w) [
      | inl (e, at) ↦ rw e (w, idle t.now w, inl λ k. refl)
      | inr (inl (h, e, at)) ↦ rw e (elim (parse_cases h.1) [
        | inl (x, p) ↦ rw p (w, idle t.now w, inl λ k. refl)
        | inr p ↦ rw p (elim (Bool-cases (ltb t.now (until_of dates (fields h.1)))) [
          | inl held ↦ rw held (w, idle t.now w, λ k. refl)
          | inr over ↦ rw over (
            t.others w,
            t.polite w,
            Outcome-Takes object (until_of dates) _ key-injective t.now c (t.others w) _ (some h.0)
                _ _ (ap (until_of_parsed dates) (dates.parse-to_iso_string _))
                (λ x. ground (arith, read_back t w c.name h at x))
                (put-Outcome c.name _ (if_match h.0) (t.others w)),
          )
        ])
      ])
      | inr (inr (x, e)) ↦ rw e (w, idle t.now w, inl λ k. refl)
    ]

    releases :
        (t : Turn object Others) (c : LockConfiguration) (w : W)
        → Amid view Others t.now w (λ b. Releases view c b (accessor.unlock t c w).1)
    unfolding unlock unlock_if_owned
    releases t c w = elim (head_cases c.name w) [
      | inl (e, at) ↦ rw e (w, idle t.now w, inl λ k. refl)
      | inr (inl (h, e, at)) ↦ rw e (elim (Bool-cases (is_text (locked_by_of h.1) hostname)) [
        | inr p ↦ rw p (w, idle t.now w, inl λ k. refl)
        | inl p ↦
            rw p
              (elim (Bool-cases
                (is_text (lock_until_of h.1) (dates.to_iso_string (lock_at_most_until c)))) [
                  | inr other ↦ rw other (w, idle t.now w, inl λ k. refl)
                  | inl same ↦ rw same (
                    t.others w,
                    t.polite w,
                    Outcome-Releases object (until_of dates) _ key-injective c (t.others w)
                        (some h.0) _ _
                        (rw (dates.parse-to_iso_string (unlock_time t.now c)) (omega arith))
                        (λ x.
                          read_back t w c.name h at x
                          ∙ until_of_text-is_text dates (lock_until_of h.1) _ same)
                        (put-Outcome c.name _ (if_match h.0) (t.others w)),
                  )
                ])
      ])
      | inr (inr (x, e)) ↦ rw e (w, idle t.now w, inl λ k. refl)
    ]

    prolongs :
        (t : Turn object Others) (c : LockConfiguration) (previous : ℕ) (w : W)
        → Amid view Others t.now w (λ b.
          Extends view t.now c previous b
            (accessor.extend t c (some previous) w).1
            (accessor.extend t c (some previous) w).0)
    unfolding extend extend_if_owned
    prolongs t c previous w = elim (head_cases c.name w) [
      | inl (e, at) ↦ rw e (w, idle t.now w, λ k. refl)
      | inr (inl (h, e, at)) ↦ rw e (elim (parse_cases h.1) [
        | inl (x, p) ↦ rw p (w, idle t.now w, inl λ k. refl)
        | inr p ↦ rw p (elim (Bool-cases (is_text (locked_by_of h.1) hostname)) [
          | inr q ↦ rw q (w, idle t.now w, λ k. refl)
          | inl q ↦ rw q (elim (Bool-cases (leb (until_of dates (fields h.1)) t.now)) [
            | inl over ↦ rw over (w, idle t.now w, λ k. refl)
            | inr held ↦
                rw held
                  (elim (Bool-cases (is_text (lock_until_of h.1) (dates.to_iso_string previous))) [
                    | inr other ↦ rw other (w, idle t.now w, λ k. refl)
                    | inl same ↦ rw same (
                      t.others w,
                      t.polite w,
                      Outcome-Extends object (until_of dates) _ key-injective t.now c previous
                          (t.others w) _ (some h.0) _ _
                          (ap (until_of_parsed dates) (dates.parse-to_iso_string _))
                          (ground (arith, until_of_text-is_text dates (lock_until_of h.1) _ same))
                          (λ x.
                            read_back t w c.name h at x
                            ∙ until_of_text-is_text dates (lock_until_of h.1) _ same)
                          (put-Outcome c.name _ (if_match h.0) (t.others w)),
                    )
                  ])
          ])
        ])
      ])
      | inr (inr (x, e)) ↦ rw e (w, idle t.now w, inl λ k. refl)
    ]

    -- Where the two commands do as S3 documents, a version of an object names one content, and
    -- amid whatever other instances may do between an operation's read and its conditional write,
    -- the accessor keeps the contract that the storage-based provider asks for: it takes, extends
    -- and releases only what the contract lets it, and where it answers false it has itself
    -- changed nothing.
    pub s3-AccessorContract :
        AccessorContractAmid view Others (λ (t : Turn object Others). t.now) accessor
    s3-AccessorContract = record {
      inserts = inserts;
      updates = updates;
      releases = releases;
      prolongs = prolongs;
    }
