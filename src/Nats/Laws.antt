-- ===== src/Nats/Laws.antt =====
-- The provider of packages/nats/src does what a lock provider promises, over a bucket that other
-- instances write to between its read and its write.
use Prim.Native.Nat.{◌^◌}
use tslock.Prelude.{
  ℕ, ◌≤◌, ◌≡◌, ◌⊎◌, refl, sym, ap, ◌∙◌, subst, String, List, Option, none, some, Result, ok, throw,
  continue, Exception, inl, inr, Bool-cases, true, false, ltb, arith, if◌then◌else◌, and_then, max,
}
use tslock.Prelude.Int.{ℤ, pos, negsuc}
use tslock.Core.Config.{LockConfiguration, lock_at_least_until, lock_at_most_until}
use tslock.Core.Contract.{Same, Keeps, Puts, Unlocks, Amid}
use tslock.Backend.{Untouched, Writes, Expects, Turn, content_at}
use tslock.Backend.Laws
use tslock.Backend.Laws.{Untouched-Same, Writes-Puts, view_of, view_absent}
use tslock.Nats.{
  Bucket, Entry, is_deleted_entry, is_nats_conflict_error, long_to_bytes, bytes_to_long, long_later,
  is_long, taken, lock, lock_entry, update_unless_later, do_unlock, unlock_entry, release_if_same,
  unless_conflict,
}
use tslock.Nats.Bytes.{bytes_to_long-long_to_bytes}

-- What a revision of a key holds: bytes, or that the key was deleted.
pub data Content : Type 0 where
  live : List ℕ → Content
  gone : Content

abbrev pub content_of : Entry → Content
content_of entry = if is_deleted_entry entry then gone else live entry.value

module _ {W : Type 0} (object : W → String → Option (ℕ × Content)) (kv : Bucket W) where
  abbrev pub Read : W → W → String → Result (Option Entry) → Type 0
  Read w w' key (ok none) = (w' ≡ w) × (object w key ≡ none)
  Read w w' key (ok (some e)) = (w' ≡ w) × (object w key ≡ some (e.revision, content_of e))
  Read w w' key (throw e) = w' ≡ w

  -- A write that succeeds found what it asks for; one that is in conflict did nothing; after any
  -- other error it may have written or not.
  abbrev pub PutIf : Type 0 → W → W → String → Content → Result (Unit {0}) → Type 0
  PutIf guard w w' key d (ok u) = guard × Writes object w w' key d
  PutIf guard w w' key d (throw e) =
      (Untouched object w w' ⊎ (guard × Writes object w w' key d))
      × (is_nats_conflict_error kv e ≡ true → Untouched object w w')

  -- `create` asks for no entry, or for one that was deleted.
  abbrev pub Absent : W → String → Type 0
  Absent w key = (content_at object w key ≡ none) ⊎ (content_at object w key ≡ some gone)

  -- What the client documents of the bucket's methods.
  pub record BucketLaws : Type 0 where
    pub gets : (key : String) (w : W) → Read w (kv.get key w).1 key (kv.get key w).0
    pub creates :
        (key : String) (value : List ℕ) (w : W)
        → PutIf
            (Absent w key)
            w
            (kv.create key value w).1
            key
            (live value)
            (kv.create key value w).0
    pub updates :
        (key : String) (value : List ℕ) (revision : ℕ) (w : W)
        → PutIf
            (Expects object w key (some revision))
            w
            (kv.update key value revision w).1
            key
            (live value)
            (kv.update key value revision w).0
    pub deletes :
        (key : String) (revision : ℕ) (w : W)
        → PutIf
            (Expects object w key (some revision))
            w
            (kv.delete key revision w).1
            key
            gone
            (kv.delete key revision w).0

abbrev until_of_long : Result ℤ → ℕ
until_of_long (ok (pos n)) = n
until_of_long (ok (negsuc n)) = 0
until_of_long (throw e) = 0

abbrev pub until_of : Content → ℕ
until_of (live value) = until_of_long (bytes_to_long value)
until_of gone = 0

written_until : (n : ℕ) (value : List ℕ) → long_to_bytes n ≡ ok value → until_of (live value) ≡ n
unfolding long_to_bytes
written_until n value e = elim (Bool-cases (ltb n (2 ^ 63))) [
  | inr large ↦ cc (rw large at e)
  | inl small ↦
      ap until_of_long (ap (λ r. and_then r bytes_to_long) (sym e) ∙ bytes_to_long-long_to_bytes n)
      ∙ rw small refl
]

module _ {W : Type 0} (object : W → String → Option (ℕ × Content)) (kv : Bucket W)
    (laws : BucketLaws object kv) where
  abbrev same_key : String → String
  same_key name = name

  abbrev pub view : W → String → ℕ
  view = Laws.view object until_of same_key

  shown : (w w' : W) → Untouched object w w' → Same view w w'
  shown = Untouched-Same object until_of same_key (λ m n e. e)

  puts :
      (w w' : W) (name : String) (d : Content)
      → Writes object w w' name d
      → Puts view w w' name (until_of d)
  puts w w' name d h = Writes-Puts object until_of same_key (λ m n e. e) w w' name d h

  Absent-view : (w : W) (name : String) → Absent object kv w name → view w name ≡ 0
  Absent-view w name (inl e) = ap (Laws.until_or_zero object until_of same_key) e
  Absent-view w name (inr e) = ap (Laws.until_or_zero object until_of same_key) e

  -- A write of the bytes that `lock` writes, where what it asks for says that the name is free.
  taken-Keeps :
      (now : ℕ) (c : LockConfiguration) (value : List ℕ) (b : W) (guard : Type 0)
      (r : Result (Unit {0}) × W)
      → long_to_bytes (lock_at_most_until c) ≡ ok value
      → (guard → view b c.name ≤ now)
      → PutIf object kv guard b r.1 c.name (live value) r.0
      → Keeps view now c b (taken kv c r).1 (taken kv c r).0
  taken-Keeps now c value b guard (ok u, w') e free (g, h) =
      (free g, subst (Puts view b w' c.name) (written_until _ value e) (puts b w' c.name _ h))
  taken-Keeps now c value b guard (throw x, w') e free (h, same) =
      elim (Bool-cases (is_nats_conflict_error kv x)) [
        | inl y ↦ rw y (shown b w' (same y))
        | inr n ↦ rw n (elim h [
          | inl u ↦ inl (shown b w' u)
          | inr (g, p) ↦ inr (
            free g,
            subst (Puts view b w' c.name) (written_until _ value e) (puts b w' c.name _ p),
          )
        ])
      ]

  -- `Others` is what other instances may do, nothing among it.
  module _ (Others : ℕ → W → W → Type 0) (idle : (now : ℕ) (w : W) → Others now w w) where
    abbrev pub instant : Turn object Others → ℕ
    instant t = t.now

    -- The entry that an update asks for is the one that was read.
    read_back :
        (t : Turn object Others) (w : W) (name : String) (e : Entry)
        → object w name ≡ some (e.revision, content_of e)
        → Expects object (t.others w) name (some e.revision)
        → view (t.others w) name ≡ until_of (content_of e)
    read_back t w name e at (d, found) =
        view_of object until_of same_key (λ m n x. x) (t.others w) name found
        ∙ ap until_of (sym (t.identifies w name e.revision (content_of e) d at found))

    bytes_cases :
        (q : Result ℤ) (value : List ℕ)
        → bytes_to_long value ≡ q
        → ((z : ℤ) × (bytes_to_long value ≡ ok z))
          ⊎ ((e : Exception) × (bytes_to_long value ≡ throw e))
    bytes_cases (ok z) value e = inl (z, e)
    bytes_cases (throw x) value e = inr (x, e)

    not_later : (z : ℤ) (now : ℕ) → long_later z now ≡ false → until_of_long (ok z) ≤ now
    not_later (pos n) now h = ground arith
    not_later (negsuc n) now h = omega arith

    entry_until :
        (x : Entry) (z : ℤ)
        → is_deleted_entry x ≡ false
        → bytes_to_long x.value ≡ ok z
        → until_of (content_of x) ≡ until_of_long (ok z)
    entry_until x z n f = rw n (ap until_of_long f)

    lock_entry-Keeps :
        (t : Turn object Others) (c : LockConfiguration) (value : List ℕ) (w : W) (o : Option Entry)
        → long_to_bytes (lock_at_most_until c) ≡ ok value
        → Read object kv w w c.name (ok o)
        → Amid view Others t.now w (λ b.
          Keeps view t.now c b
            (lock_entry kv t.others t.now c value o w).1
            (lock_entry kv t.others t.now c value o w).0)
    unfolding lock_entry update_unless_later
    lock_entry-Keeps t c value w none e at = (
      t.others w,
      t.polite w,
      taken-Keeps t.now c value (t.others w) (Absent object kv (t.others w) c.name) _ e
          (λ a. omega (arith, Absent-view (t.others w) c.name a))
          (laws.creates c.name value (t.others w)),
    )
    lock_entry-Keeps t c value w (some x) e (same, at) = elim (Bool-cases (is_deleted_entry x)) [
      | inl y ↦ rw y (
        t.others w,
        t.polite w,
        taken-Keeps t.now c value (t.others w) (Absent object kv (t.others w) c.name) _ e
            (λ a. omega (arith, Absent-view (t.others w) c.name a))
            (laws.creates c.name value (t.others w)),
      )
      | inr n ↦ rw n (elim (bytes_cases (bytes_to_long x.value) x.value refl) [
        | inr (err, f) ↦ rw f (w, idle t.now w, inl λ k. refl)
        | inl (z, f) ↦ rw f (elim (Bool-cases (long_later z t.now)) [
          | inl held ↦ rw held (w, idle t.now w, λ k. refl)
          | inr over ↦ rw over (
            t.others w,
            t.polite w,
            taken-Keeps t.now c value (t.others w)
                (Expects object (t.others w) c.name (some x.revision)) _ e
                (λ g.
                  subst (λ v. v ≤ t.now) (sym (read_back t w c.name x at g ∙ entry_until x z n f))
                    (not_later z t.now over))
                (laws.updates c.name value x.revision (t.others w)),
          )
        ])
      ])
    ]

    -- A write of `unlock`, where what it asks for says that the name is held to the lock's end.
    unless_conflict-Unlocks :
        (now until : ℕ) (c : LockConfiguration) (d : Content) (b : W) (guard : Type 0)
        (r : Result (Unit {0}) × W)
        → until_of d ≡ until
        → lock_at_least_until c ≤ max now until
        → (guard → view b c.name ≡ lock_at_most_until c)
        → PutIf object kv guard b r.1 c.name d r.0
        → Unlocks view now c b (unless_conflict kv r).1
    unless_conflict-Unlocks now until c d b guard (ok u, w') e least held (g, h) =
        inr (held g, (until, least, subst (Puts view b w' c.name) e (puts b w' c.name d h)))
    unless_conflict-Unlocks now until c d b guard (throw x, w') e least held (h, same) =
        elim (Bool-cases (is_nats_conflict_error kv x)) [
          | inl y ↦ rw y (inl (shown b w' (same y)))
          | inr n ↦ rw n (elim h [
            | inl u ↦ inl (shown b w' u)
            | inr (g, p) ↦
                inr (held g, (until, least, subst (Puts view b w' c.name) e (puts b w' c.name d p)))
          ])
        ]

    is_long-until : (z : ℤ) (n : ℕ) → is_long z n ≡ true → until_of_long (ok z) ≡ n
    is_long-until (pos m) n h = ground arith
    is_long-until (negsuc m) n h = cc

    kept-Unlocks :
        (now : ℕ) (c : LockConfiguration) (x : Entry) (b : W) (q : Result (List ℕ))
        → long_to_bytes (lock_at_least_until c) ≡ q
        → (Expects object b c.name (some x.revision) → view b c.name ≡ lock_at_most_until c)
        → Unlocks view now c b
            (unless_conflict kv (continue q (λ value. kv.update c.name value x.revision) b)).1
    kept-Unlocks now c x b (ok value) e held =
        unless_conflict-Unlocks now (lock_at_least_until c) c (live value) b
          (Expects object b c.name (some x.revision)) _ (written_until _ value e) (omega arith) held
          (laws.updates c.name value x.revision b)
    kept-Unlocks now c x b (throw err) e held = elim (Bool-cases (is_nats_conflict_error kv err)) [
      | inl y ↦ rw y (inl λ k. refl)
      | inr n ↦ rw n (inl λ k. refl)
    ]

    release_if_same-Unlocks :
        (t : Turn object Others) (c : LockConfiguration) (x : Entry) (z : ℤ) (w : W)
        → object w c.name ≡ some (x.revision, content_of x)
        → is_deleted_entry x ≡ false
        → bytes_to_long x.value ≡ ok z
        → Amid view Others t.now w
            (λ b. Unlocks view t.now c b (release_if_same kv t.others t.now c x z w).1)
    unfolding release_if_same
    release_if_same-Unlocks t c x z w at n f =
        elim (Bool-cases (is_long z (lock_at_most_until c))) [
          | inr other ↦ rw other (w, idle t.now w, inl λ k. refl)
          | inl same ↦
              let held : Expects object (t.others w) c.name (some x.revision)
                  → view (t.others w) c.name ≡ lock_at_most_until c =
                λ g. read_back t w c.name x at g ∙ (entry_until x z n f ∙ is_long-until z _ same) in
              rw same (elim (Bool-cases (ltb t.now (lock_at_least_until c))) [
                | inl early ↦ rw early (
                  t.others w,
                  t.polite w,
                  kept-Unlocks t.now c x (t.others w) (long_to_bytes (lock_at_least_until c)) refl
                      held,
                )
                | inr late ↦ rw late (
                  t.others w,
                  t.polite w,
                  unless_conflict-Unlocks t.now 0 c gone (t.others w)
                      (Expects object (t.others w) c.name (some x.revision)) _ refl (ground arith)
                      held (laws.deletes c.name x.revision (t.others w)),
                )
              ])
        ]

    unlock_entry-Unlocks :
        (t : Turn object Others) (c : LockConfiguration) (w : W) (o : Option Entry)
        → Read object kv w w c.name (ok o)
        → Amid view Others t.now w
            (λ b. Unlocks view t.now c b (unlock_entry kv t.others t.now c o w).1)
    unfolding unlock_entry
    unlock_entry-Unlocks t c w none at = (w, idle t.now w, inl λ k. refl)
    unlock_entry-Unlocks t c w (some x) (same, at) = elim (Bool-cases (is_deleted_entry x)) [
      | inl y ↦ rw y (w, idle t.now w, inl λ k. refl)
      | inr n ↦ rw n (elim (bytes_cases (bytes_to_long x.value) x.value refl) [
        | inr (err, f) ↦ rw f (w, idle t.now w, inl λ k. refl)
        | inl (z, f) ↦ rw f (release_if_same-Unlocks t c x z w at n f)
      ])
    ]

    reading_cases :
        (w : W) (name : String) (r : Result (Option Entry) × W)
        → Read object kv w r.1 name r.0
        → ((o : Option Entry) × (r ≡ (ok o, w)) × Read object kv w w name (ok o))
          ⊎ ((e : Exception) × (r ≡ (throw e, w)))
    reading_cases w name (ok none, w') (same, at) =
        inl (none, ap (λ x. (ok none, x)) same, (refl, at))
    reading_cases w name (ok (some e), w') (same, at) =
        inl (some e, ap (λ x. (ok (some e), x)) same, (refl, at))
    reading_cases w name (throw e, w') same = inr (e, ap (λ x. (throw e, x)) same)

    value_cases :
        (q : Result (List ℕ)) (n : ℕ)
        → long_to_bytes n ≡ q
        → ((v : List ℕ) × (long_to_bytes n ≡ ok v))
          ⊎ ((e : Exception) × (long_to_bytes n ≡ throw e))
    value_cases (ok v) n e = inl (v, e)
    value_cases (throw x) n e = inr (x, e)

    -- Where the bucket does as the client documents, `lock` does what a lock provider promises, and
    -- `do_unlock` leaves all names alone or leaves the lock's name held for what is left of its
    -- minimum, amid whatever other instances may do between a method's read and its write, where a
    -- revision of an entry names one content.
    pub nats-Keeps :
        (t : Turn object Others) (c : LockConfiguration) (w : W)
        → Amid view Others t.now w (λ b.
          Keeps view t.now c b (lock kv t.others t.now c w).1 (lock kv t.others t.now c w).0)
          × Amid view Others t.now w
              (λ b. Unlocks view t.now c b (do_unlock kv t.others t.now c w).1)
    unfolding lock do_unlock
    nats-Keeps t c w = elim (reading_cases w c.name (kv.get c.name w) (laws.gets c.name w)) [
      | inr (x, f) ↦ elim (value_cases (long_to_bytes (lock_at_most_until c)) _ refl) [
        | inr (y, e) ↦
            rw (e, f) ((w, idle t.now w, inl λ k. refl), (w, idle t.now w, inl λ k. refl))
        | inl (v, e) ↦
            rw (e, f) ((w, idle t.now w, inl λ k. refl), (w, idle t.now w, inl λ k. refl))
      ]
      | inl (o, f, at) ↦ elim (value_cases (long_to_bytes (lock_at_most_until c)) _ refl) [
        | inr (y, e) ↦ rw (e, f) ((w, idle t.now w, inl λ k. refl), unlock_entry-Unlocks t c w o at)
        | inl (v, e) ↦ rw (e, f) (lock_entry-Keeps t c v w o e at, unlock_entry-Unlocks t c w o at)
      ]
    ]
