-- ===== src/Hazelcast/Release.antt =====
-- The map's lock of a name, in the two methods of packages/hazelcast/src/hazelcast-accessor.ts.
use tslock.Prelude.{
  ℕ, String, Option, none, some, Exec, Result, ok, throw, continue, inl, inr, Bool-cases, leb,
  ◌>>=◌,
}
use tslock.Prelude.Int.{ℤ}
use tslock.Core.Config.{LockConfiguration, lock_at_least_until}
use tslock.Backend.{IsoDates, over_at}
use tslock.Hazelcast.{
  Store, HazelcastLockRecord, under_store_lock, lock, unlock, put_new, take_if_over,
  release_if_same, same_acquisition, after_lock,
}

-- Whether the map's lock of a name is held by this client, and what the client documents of that.
module _ {W : Type 0} (Free Held : String → W → Type 0) where
  abbrev LockedBy : String → Result (Unit {0}) × W → Type 0
  LockedBy name (ok u, w) = Held name w
  LockedBy name (throw e, w) = Free name w

  pub record Holds (store : Store W) : Type 0 where
    pub locks :
        (name : String) (lease : ℤ) (w : W) → Free name w → LockedBy name (store.lock name lease w)
    pub gets : (name : String) (w : W) → Held name w → Held name (store.get name w).1
    pub puts :
        (name : String) (r : HazelcastLockRecord) (ttl : ℕ) (w : W)
        → Held name w
        → Held name (store.put name r ttl w).1
    pub removes : (name : String) (w : W) → Held name w → Held name (store.remove name w).1
    pub unlocks : (name : String) (w : W) → Held name w → Free name (store.unlock name w).1

  abbrev Gives : (W → Type 0) → Result (Store W) × W → Type 0
  Gives P (ok store, w) = Holds store × P w
  Gives P (throw e, w) = P w

  module _ (get_map : Exec W (Store W)) (dates : IsoDates) (hostname : String)
      (maps : (name : String) (w : W) → Free name w → Gives (Free name) (get_map w)) where
    under_store_lock-Free :
        {A : Type 0} (store : Store W) (name : String) (lease : ℤ) (body : Exec W A) (w : W)
        → Holds store
        → ((w : W) → Held name w → Held name (body w).1)
        → Free name w
        → Free name (under_store_lock get_map dates hostname store name lease body w).1
    unfolding under_store_lock
    under_store_lock-Free store name lease body w holds keeps free =
        from (store.lock name lease w) (holds.locks name lease w free)
      where
        from :
            (r : Result (Unit {0}) × W)
            → LockedBy name r
            → Free name (after_lock get_map dates hostname store name body r).1
        from (ok u, v) h = holds.unlocks name _ (keeps v h)
        from (throw e, v) h = h

    -- A read, and what follows it, keep what is held where what follows it does.
    then_keeps :
        {A B : Type 0} (name : String) (r : Result A) (f : A → Exec W B) (w : W)
        → ((a : A) (w : W) → Held name w → Held name (f a w).1)
        → Held name w
        → Held name (continue r f w).1
    then_keeps name (ok a) f w h held = h a w held
    then_keeps name (throw e) f w h held = held

    put_new-Held :
        (store : Store W) (now : ℕ) (c : LockConfiguration) (w : W)
        → Holds store
        → Held c.name w
        → Held c.name (put_new get_map dates hostname store now c w).1
    unfolding put_new
    put_new-Held store now c w holds h =
        then_keeps c.name _ _ _ (λ u w h. h) (holds.puts c.name _ _ w h)

    take_if_over-Held :
        (store : Store W) (now : ℕ) (c : LockConfiguration) (o : Option HazelcastLockRecord) (w : W)
        → Holds store
        → Held c.name w
        → Held c.name (take_if_over get_map dates hostname store now c o w).1
    unfolding take_if_over
    take_if_over-Held store now c none w holds h = put_new-Held store now c w holds h
    take_if_over-Held store now c (some r) w holds h =
        elim (Bool-cases (over_at (dates.parse r.lock_until) now)) [
          | inl y ↦ rw y (put_new-Held store now c w holds h)
          | inr n ↦ rw n h
        ]

    release_if_same-Held :
        (store : Store W) (now : ℕ) (c : LockConfiguration) (expected : HazelcastLockRecord)
        (o : Option HazelcastLockRecord) (w : W)
        → Holds store
        → Held c.name w
        → Held c.name (release_if_same get_map dates hostname store now c expected o w).1
    unfolding release_if_same
    release_if_same-Held store now c expected o w holds h =
        elim (Bool-cases (same_acquisition o expected)) [
          | inr n ↦ rw n h
          | inl y ↦ rw y (elim (Bool-cases (leb (lock_at_least_until c) now)) [
            | inl z ↦ rw z (holds.removes c.name w h)
            | inr z ↦ rw z (holds.puts c.name _ _ w h)
          ])
        ]

    in_map-Free :
        {A : Type 0} (name : String) (lease : ℤ) (body : Store W → Exec W A)
        (r : Result (Store W) × W)
        → ((store : Store W) (w : W) → Holds store → Held name w → Held name (body store w).1)
        → Gives (Free name) r
        → Free name
            (continue r.0
              (λ store. under_store_lock get_map dates hostname store name lease (body store))
              r.1).1
    in_map-Free name lease body (ok store, w) keeps (holds, free) =
        under_store_lock-Free store name lease (body store) w holds (λ w. keeps store w holds) free
    in_map-Free name lease body (throw e, w) keeps free = free

    -- Where the client holds a name's map lock from a `lock` that returns to the next `unlock`,
    -- however that ends, neither method leaves it held: not where the record is not theirs to
    -- change, and not where a read or a write of the map throws.
    pub methods-Free :
        (lease now : ℕ) (c : LockConfiguration) (expected : HazelcastLockRecord) (w : W)
        → Free c.name w
        → Free c.name (lock get_map dates hostname now c w).1
          × Free c.name (unlock get_map dates hostname lease now c expected w).1
    unfolding lock unlock
    methods-Free lease now c expected w free = (
      in_map-Free c.name _
          (λ store. store.get c.name >>= take_if_over get_map dates hostname store now c)
          (get_map w)
          (λ store w holds h.
            then_keeps c.name _ _ _ (λ o w h. take_if_over-Held store now c o w holds h)
              (holds.gets c.name w h))
          (maps c.name w free),
      in_map-Free c.name _
          (λ store.
            store.get c.name >>= release_if_same get_map dates hostname store now c expected)
          (get_map w)
          (λ store w holds h.
            then_keeps c.name _ _ _ (λ o w h. release_if_same-Held store now c expected o w holds h)
              (holds.gets c.name w h))
          (maps c.name w free),
    )
