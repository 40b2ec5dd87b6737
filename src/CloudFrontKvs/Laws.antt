-- ===== src/CloudFrontKvs/Laws.antt =====
-- The provider of packages/cloudfront-kvs/src keeps what a lock provider promises, over a store
-- that other instances write to between its calls.
use tslock.Prelude.{
  ℕ, suc, ◌≤◌, ◌<◌, ◌≡◌, ◌⊎◌, refl, sym, ap, subst, ◌∙◌, ◌>>=◌, Exec, false, String, Option, none,
  some, Result, ok, throw, Exception, arith, inl, inr, Bool-cases, eq_iff, ◌==◌,
}
use tslock.Core.Config.{LockConfiguration, lock_at_most_until, unlock_time}
use tslock.Core.Lock.{LockObject}
use tslock.Core.Contract.{Same, Amid, Joinable, Keeps, Puts}
use tslock.Core.Storage.Contract.{Prolongs, Releases}
use tslock.Backend.{later_than, over_at}
use tslock.Backend.Laws
use tslock.Backend.Laws.{Untouched-Same, Writes-Puts}
use tslock.CloudFrontKvs
use tslock.CloudFrontKvs.{
  CloudFrontKeyValueStoreClient, CloudFrontKvsLockProvider, CloudFrontKvsLockRecord, Parsed,
  not_object, fields, is_nan, Json, Attempt, decode_lock_record, build_lock_record,
  parse_lock_until_ms, lock, extend, unlock, lock_once, unlock_once, extend_once, describe_etag,
  put_or_again, is_conflict, is_not_found, storage_key, get_record, held_at,
}
use tslock.CloudFrontKvs.Attempts.{Tried, Decided, for_attempts-Decided}
use tslock.CloudFrontKvs.Reads.{
  KvsLaws, Fair, Stored, until_of, until-build, view, Says, key_of, key-injective,
  storage_key_cases, describe_cases, get_record-Read,
}

or_map : {A B C : Type 0} → A ⊎ B → (B → C) → A ⊎ C
or_map (inl a) f = inl a
or_map (inr b) f = inr (f b)

module _ {W : Type 0} (provider : CloudFrontKvsLockProvider W) (tag : W → String)
    (object : W → String → Option (String × String))
    (laws : KvsLaws tag object provider.client) where
  open provider use {client, dates, json, byte_length, prefix, max_etag_retries, hostname}

  abbrev held_until : W → String → ℕ
  held_until = view provider tag object laws

  -- A write for `name` that ends at `until`, by the tag that was read.
  abbrev Wrote : W → W → String → String → ℕ → Type 0
  Wrote b w' name etag until = (tag b ≡ etag) × Puts held_until b w' name until

  module _ {A : Type 0} (P : ℕ → W → W → Result A → Type 0) where
    unless_conflict-Tried :
        (now : ℕ) (name etag value : String) (answer : A) (b : W) (q : Result (Unit {0}) × W)
        → Stored tag object b q.1 etag ((key_of provider tag object laws) name) value q.0
        → let until = until_of dates json value in
          ((w' : W) → Wrote b w' name etag until → P now b w' (ok answer))
          → ((w' : W) (e : Exception)
              → Same held_until b w' ⊎ Wrote b w' name etag until
              → P now b w' (throw e))
          → let r = CloudFrontKvs.unless_conflict provider answer q in
            Tried held_until P now b r.1 r.0
    unless_conflict-Tried now name etag value answer b (ok u, w') (t, h) f g = f w' (
      t,
      Writes-Puts object (until_of dates json) (key_of provider tag object laws)
          (key-injective provider tag object laws) b w' name value h,
    )
    unless_conflict-Tried now name etag value answer b (throw e, w') (h, same) f g =
        elim (Bool-cases (is_conflict e)) [
          | inl y ↦ rw y (
              Untouched-Same object (until_of dates json) (key_of provider tag object laws)
                (key-injective provider tag object laws) b w' (same y))
          | inr n ↦ rw n (
              g w' e (elim h [
                | inl u ↦ inl (
                    Untouched-Same object (until_of dates json) (key_of provider tag object laws)
                      (key-injective provider tag object laws) b w' u)
                | inr (t, x) ↦ inr (
                  t,
                  Writes-Puts object (until_of dates json) (key_of provider tag object laws)
                      (key-injective provider tag object laws) b w' name value x,
                )
              ]))
        ]

    put_or_again-Tried :
        (now until at : ℕ) (name by etag : String) (answer : A) (b : W)
        → ((w' : W) → Wrote b w' name etag until → P now b w' (ok answer))
        → ((w' : W) (e : Exception)
            → Same held_until b w' ⊎ Wrote b w' name etag until
            → P now b w' (throw e))
        → let r =
            put_or_again provider name (build_lock_record dates json until at by) etag answer b in
          Tried held_until P now b r.1 r.0
    unfolding put_or_again CloudFrontKvs.put_record CloudFrontKvs.encode_lock_record
    put_or_again-Tried now until at name by etag answer b f g =
        elim (storage_key_cases provider tag object laws name) [
          | inl e ↦ rw e (
              unless_conflict-Tried now name etag
                (json.stringify (build_lock_record dates json until at by)) answer b _
                (laws.puts _ _ etag b)
                (λ w' h. f w' (h.0, rw (← until-build dates json until at by) h.1))
                (λ w' x h. g w' x (rw (← until-build dates json until at by) h)))
          | inr (x, e, _, n) ↦ rw (e, n) (g b x (inl λ k. refl))
        ]

  -- `Others` is what other instances may do.
  module _ (Others : ℕ → W → W → Type 0) (joinable : Joinable held_until Others) where
    -- The store that an attempt writes to is that of its read, where the tag has stayed.
    read_back :
        (t : Attempt W) (w : W) (name etag : String)
        → Fair tag object Others t
        → tag w ≡ etag
        → tag (t.others (t.before w)) ≡ etag
        → held_until (t.others (t.before w)) name ≡ held_until (t.before w) name
    read_back t w name etag fair e f =
        Untouched-Same object (until_of dates json) (key_of provider tag object laws)
          (key-injective provider tag object laws) (t.before w) (t.others (t.before w))
          (fair.identifies w (f ∙ sym e)) name

    polite_until_write :
        (t : Attempt W) (w : W) → Fair tag object Others t → Others t.now w (t.others (t.before w))
    polite_until_write t w fair =
        joinable.joins w (t.before w) (t.before w) (t.others (t.before w)) (omega arith)
          (omega arith) (fair.polite_before w) (λ k. refl) (fair.polite (t.before w))

    module _ {A : Type 0} (P : ℕ → W → W → Result A → Type 0)
        (harmless : (now : ℕ) (w : W) (e : Exception) → P now w w (throw e)) where
      attempt-Tried :
          (t : Attempt W) (name : String)
          (decide : String → Option CloudFrontKvsLockRecord → Exec W (Option A))
          → Fair tag object Others t
          → ((w : W) (etag : String) (o : Option CloudFrontKvsLockRecord)
              → tag w ≡ etag
              → Says provider tag object laws (t.before w) name o
              → Amid held_until Others t.now w (λ b.
                Tried held_until P t.now b
                  (decide etag o (t.before w)).1
                  (decide etag o (t.before w)).0))
          → (w : W)
          → let r =
              (describe_etag provider >>= λ etag.
              CloudFrontKvs.reading provider t name >>= decide etag)
                w in
            Amid held_until Others t.now w (λ b. Tried held_until P t.now b r.1 r.0)
      attempt-Tried t name decide fair h w = elim (describe_cases provider tag object laws w) [
        | inr (x, e) ↦ rw e (w, joinable.idle t.now w, harmless t.now w x)
        | inl (etag, e, tagged) ↦
            rw e (elim (get_record-Read provider tag object laws (t.before w) name) [
              | inr (x, f) ↦ rw f (t.before w, fair.polite_before w, harmless t.now (t.before w) x)
              | inl (o, f, says) ↦ rw f (h w etag o tagged says)
            ])
      ]

    free_unless_held :
        (now : ℕ) (name : String) (w : W) (o : Option CloudFrontKvsLockRecord)
        → Says provider tag object laws w name o
        → CloudFrontKvs.held_at provider now o ≡ false
        → held_until w name ≤ now
    free_unless_held now name w none s e = omega (arith, s)
    free_unless_held now name w (some r) s e =
        subst (λ v. v ≤ now) (sym s) (numbered (parse_lock_until_ms dates json r) e)
      where
        numbered : (u : Option ℕ) → later_than u now ≡ false → Laws.until_of_parsed dates u ≤ now
        numbered none h = omega arith
        numbered (some u) h = ground arith

    lock_decided-Tried :
        (t : Attempt W) (c : LockConfiguration)
        → Fair tag object Others t
        → (w : W) (etag : String) (o : Option CloudFrontKvsLockRecord) → tag w ≡ etag
        → Says provider tag object laws (t.before w) c.name o
        → let r = CloudFrontKvs.lock_decided provider t c etag o (t.before w) in
          Amid held_until Others t.now w
            (λ b. Tried held_until (λ now. Keeps held_until now c) t.now b r.1 r.0)
    unfolding CloudFrontKvs.lock_decided
    lock_decided-Tried t c fair w etag o tagged says =
        elim (Bool-cases (CloudFrontKvs.held_at provider t.now o)) [
          | inl held ↦ rw held (t.before w, fair.polite_before w, λ k. refl)
          | inr free ↦
              let taken : tag (t.others (t.before w)) ≡ etag
                  → held_until (t.others (t.before w)) c.name ≤ t.now =
                λ e.
                  subst (λ v. v ≤ t.now) (sym (read_back t w c.name etag fair tagged e))
                    (free_unless_held t.now c.name (t.before w) o says free) in
              rw free (
                t.others (t.before w),
                polite_until_write t w fair,
                put_or_again-Tried (λ now. Keeps held_until now c) t.now _ _ c.name _ etag _ _
                    (λ w' h. (taken h.0, h.1)) (λ w' e h. or_map h λ x. (taken x.0, x.1)),
              )
        ]

    -- An unlock leaves the name alone, or dates its lock anew where it ends as the lock's does.
    abbrev pub Released : LockConfiguration → ℕ → W → W → Result (Unit {0}) → Type 0
    Released c now b w' q = Releases held_until c b w'

    unlock_decided-Tried :
        (t : Attempt W) (c : LockConfiguration)
        → Fair tag object Others t
        → (w : W) (etag : String) (o : Option CloudFrontKvsLockRecord) → tag w ≡ etag
        → Says provider tag object laws (t.before w) c.name o
        → let r = CloudFrontKvs.unlock_decided provider t c etag o (t.before w) in
          Amid held_until Others t.now w (λ b. Tried held_until (Released c) t.now b r.1 r.0)
    unfolding CloudFrontKvs.unlock_decided
    unlock_decided-Tried t c fair w etag none tagged says =
        (t.before w, fair.polite_before w, inl λ k. refl)
    unlock_decided-Tried t c fair w etag (some r) tagged says =
        elim (Bool-cases (r.locked_by == hostname)) [
          | inr other ↦ rw other (t.before w, fair.polite_before w, inl λ k. refl)
          | inl mine ↦
              rw mine
                (elim (Bool-cases (r.lock_until == dates.to_iso_string (lock_at_most_until c))) [
                  | inr moved ↦ rw moved (t.before w, fair.polite_before w, inl λ k. refl)
                  | inl same ↦
                      let released : (w' : W)
                          → Wrote (t.others (t.before w)) w' c.name etag (unlock_time t.now c)
                          → Released c t.now (t.others (t.before w)) w' (ok tt) =
                        λ w' h. inr (
                          read_back t w c.name etag fair tagged h.0
                              ∙ says
                              ∙ Laws.until_of_text-is_text dates (some r.lock_until) _ same,
                          (unlock_time t.now c, omega arith, h.1),
                        ) in
                      rw same (
                        t.others (t.before w),
                        polite_until_write t w fair,
                        put_or_again-Tried (Released c) t.now _ _ c.name _ etag _ _ released
                            (λ w' e h. elim h [ inl s ↦ inl s | inr x ↦ released w' x ]),
                      )
                ])
        ]

    before_unless_over : (now previous : ℕ) → over_at (some previous) now ≡ false → now < previous
    before_unless_over now previous h = ground arith

    abbrev pub Extended : LockConfiguration → ℕ → ℕ → W → W → Result (Option LockObject) → Type 0
    Extended c previous now b w' (ok (some l)) = Prolongs held_until now c previous b w'
    Extended c previous now b w' (ok none) = Same held_until b w'
    Extended c previous now b w' (throw e) =
        Same held_until b w' ⊎ Prolongs held_until now c previous b w'

    extend_decided-Tried :
        (t : Attempt W) (c : LockConfiguration) (previous : ℕ)
        → Fair tag object Others t
        → (w : W) (etag : String) (o : Option CloudFrontKvsLockRecord) → tag w ≡ etag
        → Says provider tag object laws (t.before w) c.name o
        → let r = CloudFrontKvs.extend_decided provider t c (some previous) etag o (t.before w) in
          Amid held_until Others t.now w
            (λ b. Tried held_until (Extended c previous) t.now b r.1 r.0)
    unfolding CloudFrontKvs.extend_decided
    extend_decided-Tried t c previous fair w etag none tagged says =
        (t.before w, fair.polite_before w, λ k. refl)
    extend_decided-Tried t c previous fair w etag (some r) tagged says =
        elim (Bool-cases (r.locked_by == hostname)) [
          | inr other ↦ rw other (t.before w, fair.polite_before w, λ k. refl)
          | inl mine ↦
              rw mine (elim (Bool-cases (over_at (parse_lock_until_ms dates json r) t.now)) [
                | inl over ↦ rw over (t.before w, fair.polite_before w, λ k. refl)
                | inr held ↦
                    rw held (elim (Bool-cases (r.lock_until == dates.to_iso_string previous)) [
                      | inr moved ↦ rw moved (t.before w, fair.polite_before w, λ k. refl)
                      | inl same ↦
                          let number =
                            Laws.until_of_text-is_text dates (some r.lock_until) previous same in
                          let parsed : parse_lock_until_ms dates json r ≡ some previous =
                            ap dates.parse ((eq_iff r.lock_until _).0 same)
                            ∙ dates.parse-to_iso_string previous in
                          let ahead : t.now < previous =
                            before_unless_over t.now previous (rw parsed at held) in
                          let prolonged : tag (t.others (t.before w)) ≡ etag
                              → (held_until (t.others (t.before w)) c.name ≡ previous)
                                × (t.now < previous) =
                            λ e. (read_back t w c.name etag fair tagged e ∙ says ∙ number, ahead) in
                          rw same (
                            t.others (t.before w),
                            polite_until_write t w fair,
                            put_or_again-Tried (Extended c previous) t.now _ _ c.name _ etag _ _
                                (λ w' h. let (p, q) = prolonged h.0 in (p, q, h.1))
                                (λ w' e h. or_map h λ x. let (p, q) = prolonged x.0 in (p, q, x.1)),
                          )
                    ])
              ])
        ]

    -- Of attempts whose clock does not go back, one of the loop's decides, and what `lock` answers is
    -- what a lock provider promises at that attempt's reading; what `unlock` does is to nothing or to
    -- the lock it is given; and what `extend` answers is so only while the lock that it is given
    -- lasts. This is amid whatever other instances may do to the store between the client's calls,
    -- where these do as the client documents and the store's tag changes with its content.
    pub attempts_keep_contract :
        (n : ℕ) (attempts : ℕ → Attempt W) (c : LockConfiguration) (previous : ℕ) (w : W)
        → max_etag_retries ≡ suc n
        → ((i : ℕ) → Fair tag object Others (attempts i))
        → ((i : ℕ) → (attempts i).now ≤ (attempts (suc i)).now)
        → let now = λ (i : ℕ). (attempts i).now in
          Decided held_until
            (λ now. Keeps held_until now c)
            Others
            joinable
            none
            (λ now b s' h. h)
            n
            now
            w
            (lock provider attempts c w)
          × Decided held_until
              (Released c)
              Others
              joinable
              tt
              (λ now b s' h. inl h)
              n
              now
              w
              (unlock provider attempts c w)
          × Decided held_until
              (Extended c previous)
              Others
              joinable
              none
              (λ now b s' h. h)
              n
              now
              w
              (extend provider attempts c (some previous) w)
    unfolding lock unlock extend
    attempts_keep_contract n attempts c previous w e fair ticks = (
      for_attempts-Decided held_until (λ now. Keeps held_until now c) Others joinable none
          (λ now b s' h. h) max_etag_retries n (λ i. (attempts i).now)
          (λ i. lock_once provider c (attempts i)) w e ticks
          (λ i.
            attempt-Tried (λ now. Keeps held_until now c) (λ now w e. inl λ k. refl) (attempts i)
              c.name (CloudFrontKvs.lock_decided provider (attempts i) c) (fair i)
              (lock_decided-Tried (attempts i) c (fair i))),
      for_attempts-Decided held_until (Released c) Others joinable tt (λ now b s' h. inl h)
          max_etag_retries n (λ i. (attempts i).now) (λ i. unlock_once provider c (attempts i)) w e
          ticks
          (λ i.
            attempt-Tried (Released c) (λ now w e. inl λ k. refl) (attempts i) c.name
              (CloudFrontKvs.unlock_decided provider (attempts i) c) (fair i)
              (unlock_decided-Tried (attempts i) c (fair i))),
      for_attempts-Decided held_until (Extended c previous) Others joinable none (λ now b s' h. h)
          max_etag_retries n (λ i. (attempts i).now)
          (λ i. extend_once provider c (some previous) (attempts i)) w e ticks
          (λ i.
            attempt-Tried (Extended c previous) (λ now w e. inl λ k. refl) (attempts i) c.name
              (CloudFrontKvs.extend_decided provider (attempts i) c (some previous)) (fair i)
              (extend_decided-Tried (attempts i) c previous (fair i))),
    )
