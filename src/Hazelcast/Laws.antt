-- ===== src/Hazelcast/Laws.antt =====
-- The accessor of packages/hazelcast/src does what a lock provider promises, over a map that other
-- clients write to while it waits for the map's lock.
use tslock.Prelude.{
  ℕ, ◌≤◌, ◌≡◌, ◌⊎◌, refl, sym, ap, ◌∙◌, subst, String, Option, none, some, Exec, Result, ok, throw,
  continue, Exception, inl, inr, Bool-cases, true, leb, ◌>>=◌, ◌==◌, arith, eq_iff, if◌then◌else◌,
}
use tslock.Prelude.Int.{ℤ}
use tslock.Core.Config.{LockConfiguration, lock_at_least_until, lock_at_most_until}
use tslock.Core.Contract.{Same, Keeps, Puts, Unlocks, Amid}
use tslock.Backend.{IsoDates, over_at, Untouched, Writes, content_at}
use tslock.Backend.Laws
use tslock.Backend.Laws.{Untouched-Same, Writes-Puts, until_of_number}
use tslock.Hazelcast.{
  Store, HazelcastLockRecord, Acquired, acquired, under_store_lock, lock, unlock, put_new,
  take_if_over, release_if_same, same_acquisition, after_lock, new_record, kept_record,
}

module _ {W : Type 0} (object : W → String → Option (Unit {0} × HazelcastLockRecord)) where
  abbrev Read : W → W → String → Result (Option HazelcastLockRecord) → Type 0
  Read w w' key (ok o) = (w' ≡ w) × (content_at object w key ≡ o)
  Read w w' key (throw e) = w' ≡ w

  -- A write is made, or not if it throws.
  abbrev Made : (W → W → Type 0) → W → Result (Unit {0}) × W → Type 0
  Made P w (ok u, w') = P w w'
  Made P w (throw e, w') = Untouched object w w' ⊎ P w w'

  abbrev pub Erases : String → W → W → Type 0
  Erases key w w' =
      (k : String) → content_at object w' k ≡ (if key == k then none else content_at object w k)

  -- What the client documents of the map's methods while the map's lock of the name is held.
  pub record StoreLaws (store : Store W) : Type 0 where
    pub gets : (key : String) (w : W) → Read w (store.get key w).1 key (store.get key w).0
    pub puts :
        (key : String) (r : HazelcastLockRecord) (ttl : ℕ) (w : W)
        → Made (λ w w'. Writes object w w' key r) w (store.put key r ttl w)
    pub removes : (key : String) (w : W) → Made (Erases key) w (store.remove key w)
    pub unlocks : (key : String) (w : W) → Untouched object w (store.unlock key w).1

module _ {W : Type 0} (get_map : Exec W (Store W)) (dates : IsoDates) (hostname : String)
    (object : W → String → Option (Unit {0} × HazelcastLockRecord)) (store : Store W)
    (laws : StoreLaws object store) where
  abbrev pub Mapped : W → Result (Store W) × W → Type 0
  Mapped w (ok s, w') = (s ≡ store) × (w' ≡ w)
  Mapped w (throw e, w') = w' ≡ w

  abbrev until_of : HazelcastLockRecord → ℕ
  until_of r = until_of_number (dates.parse r.lock_until)

  abbrev same_key : String → String
  same_key name = name

  abbrev pub view : W → String → ℕ
  view = Laws.view object until_of same_key

  -- `Others` is what other instances may do, nothing among it.
  module _ (Others : ℕ → W → W → Type 0) (idle : (now : ℕ) (w : W) → Others now w w) where
    -- The clock as a method reads it, before it waits for the map's lock, and what others do until
    -- the lock is there.
    pub record Waiting : Type 0 where
      pub now : ℕ
      pub polite : (name : String) (lease : ℤ) (w : W) → Others now w (store.lock name lease w).1

    abbrev pub instant : Waiting → ℕ
    instant t = t.now

    shown : (w w' : W) → Untouched object w w' → Same view w w'
    shown = Untouched-Same object until_of same_key (λ m n e. e)

    seen :
        (w : W) (name : String) (o : Option HazelcastLockRecord)
        → content_at object w name ≡ o
        → view w name ≡ Laws.until_or_zero object until_of same_key o
    seen w name o e = ap (Laws.until_or_zero object until_of same_key) e

    written :
        (w w' : W) (name : String) (r : HazelcastLockRecord) (until : ℕ)
        → r.lock_until ≡ dates.to_iso_string until
        → Writes object w w' name r
        → Puts view w w' name until
    written w w' name r until e h =
        subst (Puts view w w' name)
          (ap (λ t. until_of_number (dates.parse t)) e
            ∙ ap until_of_number (dates.parse-to_iso_string until))
          (Writes-Puts object until_of same_key (λ m n x. x) w w' name r h)

    erased : (w w' : W) (name : String) → Erases object name w w' → Puts view w w' name 0
    erased w w' name h k = ground (arith, h k)

    -- `P` is what is said of the state that a body leaves and of its result, in words of the view.
    module _ {A : Type 0} (name : String) (lease : ℤ) (body : Exec W A)
        (P : W → W → Result A → Type 0)
        (seen_only : (b w w' : W) (q : Result A) → Same view w w' → P b w q → P b w' q)
        (harmless : (b : W) (e : Exception) → P b b (throw e))
        (does : (b : W) → P b (body b).1 (body b).0) where
      under_store_lock-Amid :
          (t : Waiting) (w : W)
          → Amid view Others t.now w (λ b.
            P b
              (under_store_lock get_map dates hostname store name lease body w).1
              (under_store_lock get_map dates hostname store name lease body w).0)
      unfolding under_store_lock
      under_store_lock-Amid t w = from (store.lock name lease w) (t.polite name lease w)
        where
          from :
              (r : Result (Unit {0}) × W)
              → Others t.now w r.1
              → let q = after_lock get_map dates hostname store name body r in
                Amid view Others t.now w (λ b. P b q.1 q.0)
          from (throw e, v) a = (v, a, harmless v e)
          from (ok u, v) a =
              (v, a, seen_only v (body v).1 _ (body v).0 (shown _ _ (laws.unlocks name _)) (does v))

    module _ {A : Type 0} (name : String) (lease : ℤ) (body : Store W → Exec W A)
        (P : W → W → Result A → Type 0)
        (seen_only : (b w w' : W) (q : Result A) → Same view w w' → P b w q → P b w' q)
        (harmless : (b : W) (e : Exception) → P b b (throw e))
        (does : (b : W) → P b (body store b).1 (body store b).0) where
      in_map-Amid :
          (t : Waiting) (w : W) (r : Result (Store W) × W)
          → Mapped w r
          → let q =
              continue r.0
                (λ s. under_store_lock get_map dates hostname s name lease (body s))
                r.1 in
            Amid view Others t.now w (λ b. P b q.1 q.0)
      in_map-Amid t w (throw e, v) same = rw same (w, idle t.now w, harmless w e)
      in_map-Amid t w (ok s, v) (e, same) =
          rw (e, same) (under_store_lock-Amid name lease (body store) P seen_only harmless does t w)

    Keeps-seen :
        (now : ℕ) (c : LockConfiguration) (b w w' : W) (q : Result (Option Acquired))
        → Same view w w'
        → Keeps view now c b w q
        → Keeps view now c b w' q
    Keeps-seen now c b w w' (ok none) s h = λ k. s k ∙ h k
    Keeps-seen now c b w w' (ok (some l)) s h = (h.0, λ k. s k ∙ h.1 k)
    Keeps-seen now c b w w' (throw e) s (inl h) = inl (λ k. s k ∙ h k)
    Keeps-seen now c b w w' (throw e) s (inr h) = inr (h.0, λ k. s k ∙ h.1 k)

    put_new-Keeps :
        (now : ℕ) (c : LockConfiguration) (b : W)
        → view b c.name ≤ now
        → Keeps view now c b
            (put_new get_map dates hostname store now c b).1
            (put_new get_map dates hostname store now c b).0
    unfolding put_new
    put_new-Keeps now c b free =
        from (store.put c.name (new_record get_map dates hostname now c) c.lock_at_most_for b)
          (laws.puts c.name (new_record get_map dates hostname now c) c.lock_at_most_for b)
      where
        from :
            (r : Result (Unit {0}) × W)
            → Made object
                (λ w w'. Writes object w w' c.name (new_record get_map dates hostname now c))
                b
                r
            → let q =
                continue r.0
                  (λ u w. (ok (some (acquired c (new_record get_map dates hostname now c))), w))
                  r.1 in
              Keeps view now c b q.1 q.0
        from (ok u, w') h = (free, written b w' c.name _ _ refl h)
        from (throw e, w') (inl h) = inl (shown b w' h)
        from (throw e, w') (inr h) = inr (free, written b w' c.name _ _ refl h)

    take_if_over-Keeps :
        (now : ℕ) (c : LockConfiguration) (b : W) (r : Result (Option HazelcastLockRecord) × W)
        → Read object b r.1 c.name r.0
        → let q = continue r.0 (take_if_over get_map dates hostname store now c) r.1 in
          Keeps view now c b q.1 q.0
    unfolding take_if_over
    take_if_over-Keeps now c b (throw e, w) same = rw same (inl λ k. refl)
    take_if_over-Keeps now c b (ok none, w) (same, at) =
        rw same (put_new-Keeps now c b (omega (arith, seen b c.name none at)))
    take_if_over-Keeps now c b (ok (some old), w) (same, at) =
        elim (Bool-cases (over_at (dates.parse old.lock_until) now)) [
          | inr n ↦ rw (same, n) (λ k. refl)
          | inl y ↦
              rw (same, y)
                (put_new-Keeps now c b (
                  subst (λ v. v ≤ now) (sym (seen b c.name (some old) at))
                    (over (dates.parse old.lock_until) y)))
        ]
      where
        over : (o : Option ℕ) → over_at o now ≡ true → until_of_number o ≤ now
        over none h = cc
        over (some u) h = ground arith

    Unlocked-seen :
        (now : ℕ) (c : LockConfiguration) (b w w' : W)
        → Same view w w'
        → Unlocks view now c b w
        → Unlocks view now c b w'
    Unlocked-seen now c b w w' s (inl h) = inl (λ k. s k ∙ h k)
    Unlocked-seen now c b w w' s (inr (h, (u, l, p))) = inr (h, (u, l, λ k. s k ∙ p k))

    -- The end that the expected record says is where the lock ends.
    same_acquisition-view :
        (o : Option HazelcastLockRecord) (expected : HazelcastLockRecord) (b : W)
        (c : LockConfiguration)
        → expected.lock_until ≡ dates.to_iso_string (lock_at_most_until c)
        → content_at object b c.name ≡ o
        → same_acquisition o expected ≡ true
        → view b c.name ≡ lock_at_most_until c
    unfolding same_acquisition
    same_acquisition-view none expected b c e at h = cc
    same_acquisition-view (some r) expected b c e at h =
        seen b c.name (some r) at
        ∙ (ap (λ t. until_of_number (dates.parse t)) (same_until ∙ e)
            ∙ ap until_of_number (dates.parse-to_iso_string (lock_at_most_until c)))
      where
        same_until : r.lock_until ≡ expected.lock_until
        same_until = (eq_iff r.lock_until expected.lock_until).0 (ground arith)

    release_if_same-Unlocks :
        (now : ℕ) (c : LockConfiguration) (expected : HazelcastLockRecord) (b : W)
        (r : Result (Option HazelcastLockRecord) × W)
        → expected.lock_until ≡ dates.to_iso_string (lock_at_most_until c)
        → Read object b r.1 c.name r.0
        → let q = continue r.0 (release_if_same get_map dates hostname store now c expected) r.1 in
          Unlocks view now c b q.1
    unfolding release_if_same
    release_if_same-Unlocks now c expected b (throw e, w) x same = rw same (inl λ k. refl)
    release_if_same-Unlocks now c expected b (ok o, w) x (same, at) =
        elim (Bool-cases (same_acquisition o expected)) [
          | inr n ↦ rw (same, n) (inl λ k. refl)
          | inl y ↦
              let ends = same_acquisition-view o expected b c x at y in
              elim (Bool-cases (leb (lock_at_least_until c) now)) [
                | inl z ↦ rw (same, y, z) (removed ends z _ (laws.removes c.name b))
                | inr z ↦ rw (same, y, z) (kept ends _ (laws.puts c.name _ c.lock_at_least_for b))
              ]
        ]
      where
        removed :
            view b c.name ≡ lock_at_most_until c
            → leb (lock_at_least_until c) now ≡ true
            → (r : Result (Unit {0}) × W) → Made object (Erases object c.name) b r
            → Unlocks view now c b r.1
        removed ends z (ok u, w') h = inr (ends, (0, ground arith, erased b w' c.name h))
        removed ends z (throw e, w') (inl h) = inl (shown b w' h)
        removed ends z (throw e, w') (inr h) = inr (ends, (0, ground arith, erased b w' c.name h))

        kept :
            view b c.name ≡ lock_at_most_until c
            → (r : Result (Unit {0}) × W)
            → Made object
                (λ w w'.
                  Writes object w w' c.name
                    (kept_record get_map dates hostname expected (lock_at_least_until c)))
                b
                r
            → Unlocks view now c b r.1
        kept ends (ok u, w') h =
            inr (ends, (lock_at_least_until c, omega arith, written b w' c.name _ _ refl h))
        kept ends (throw e, w') (inl h) = inl (shown b w' h)
        kept ends (throw e, w') (inr h) =
            inr (ends, (lock_at_least_until c, omega arith, written b w' c.name _ _ refl h))

    -- Where the map does as the client documents, `lock` does what a lock provider promises at its
    -- reading of the clock, and `unlock`, given a record that ends where the lock does, leaves all
    -- names alone or leaves the lock's name held for what is left of its minimum, in the state that
    -- others have left when the map's lock is there, whatever they may do.
    pub hazelcast-Keeps :
        (maps : (w : W) → Mapped w (get_map w)) (lease : ℕ) (t : Waiting) (c : LockConfiguration)
        (expected : HazelcastLockRecord) (w : W)
        → expected.lock_until ≡ dates.to_iso_string (lock_at_most_until c)
        → Amid view Others t.now w (λ b.
          Keeps view t.now c b
            (lock get_map dates hostname t.now c w).1
            (lock get_map dates hostname t.now c w).0)
          × Amid view Others t.now w (λ b.
            Unlocks view t.now c b (unlock get_map dates hostname lease t.now c expected w).1)
    unfolding lock unlock
    hazelcast-Keeps maps lease t c expected w e = (
      in_map-Amid c.name _ (λ s. s.get c.name >>= take_if_over get_map dates hostname s t.now c)
          (Keeps view t.now c) (Keeps-seen t.now c) (λ b e. inl λ k. refl)
          (λ b. take_if_over-Keeps t.now c b (store.get c.name b) (laws.gets c.name b)) t w
          (get_map w) (maps w),
      in_map-Amid c.name _
          (λ s. s.get c.name >>= release_if_same get_map dates hostname s t.now c expected)
          (λ b w' q. Unlocks view t.now c b w') (λ b w w' q. Unlocked-seen t.now c b w w')
          (λ b e. inl λ k. refl)
          (λ b.
            release_if_same-Unlocks t.now c expected b (store.get c.name b) e (laws.gets c.name b))
          t w (get_map w) (maps w),
    )
