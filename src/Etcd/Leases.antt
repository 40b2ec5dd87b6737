-- ===== src/Etcd/Leases.antt =====
-- What becomes of the leases of packages/etcd/src/etcd-accessor.ts: none is left to the server's
-- clock unless a key is bound to it.
use tslock.Prelude.{
  ℕ, ◌≡◌, ◌⊎◌, ◌-◌, refl, sym, subst, String, Option, none, Result, ok, throw, Exception, inl, inr,
  Bool, true, false, Bool-cases, continue, handle, pure, raise, ◌>>=◌, try_catch, leb,
}
use tslock.Core.Config.{LockConfiguration, lock_at_least_until, to_ttl_seconds}
use tslock.Etcd.{
  Etcd, EtcdLock, lock, unlock, keep_or_revoke, settle_leases, keep_for, revoke_and_rethrow,
  lock_key, lock_value,
}

-- `Made`: the lease object was made; `Asked`: its revocation was asked for; `Bound`: a transaction
-- that put a key under it has succeeded.
module _ {W Lease LeaseId : Type 0} (client : Etcd W Lease LeaseId)
    (Made Asked Bound : Lease → W → Type 0) where
  -- A state that follows another keeps what is so of a lease, and makes no lease.
  pub record Follows (w w' : W) : Type 0 where
    pub made : (l : Lease) → Made l w' → Made l w
    pub asked : (l : Lease) → Asked l w → Asked l w'
    pub bound : (l : Lease) → Bound l w → Bound l w'

  Follows-refl : (w : W) → Follows w w
  Follows-refl w = record { made = λ l h. h; asked = λ l h. h; bound = λ l h. h }

  -- Every lease of a state is one of an earlier state, or is settled.
  abbrev pub Settled : W → W → Type 0
  Settled w w' = (l : Lease) → Made l w' → Made l w ⊎ (Asked l w' ⊎ Bound l w')

  abbrev OneMore : W → Result Lease × W → Type 0
  OneMore w (ok l, w') =
      ((k : Lease) → Made k w' → Made k w ⊎ (k ≡ l))
      × ((k : Lease) → Asked k w → Asked k w')
      × ((k : Lease) → Bound k w → Bound k w')
  OneMore w (throw e, w') = Follows w w'

  abbrev Put : Lease → W → Result Bool × W → Type 0
  Put l w (ok true, w') = Follows w w' × Bound l w'
  Put l w (ok false, w') = Follows w w'
  Put l w (throw e, w') = Follows w w'

  -- What the client's calls do to leases.
  pub record Accounts : Type 0 where
    pub leases : (ttl : ℕ) (w : W) → OneMore w (client.lease ttl w)
    pub grants : (l : Lease) (w : W) → Follows w (client.grant l w).1
    pub revokes :
        (l : Lease) (w : W) → Follows w (client.revoke l w).1 × Asked l (client.revoke l w).1
    pub puts_new :
        (key value : String) (l : Lease) (w : W) → Put l w (client.put_if_new key value l w)
    pub puts_leased :
        (key : String) (id : LeaseId) (value : String) (l : Lease) (w : W)
        → Put l w (client.put_if_leased key id value l w)

  Follows-trans : (u v w : W) → Follows u v → Follows v w → Follows u w
  Follows-trans u v w f g = record {
    made = λ l h. f.made l (g.made l h);
    asked = λ l h. g.asked l (f.asked l h);
    bound = λ l h. g.bound l (f.bound l h);
  }

  Follows-Settled : (w w' : W) → Follows w w' → Settled w w'
  Follows-Settled w w' f l h = inl (f.made l h)

  -- A lease's end: a later state, in which it is settled.
  abbrev Ends : Lease → W → W → Type 0
  Ends l w w' = Follows w w' × (Asked l w' ⊎ Bound l w')

  Ends-before : (l : Lease) (u v w : W) → Follows u v → Ends l v w → Ends l u w
  Ends-before l u v w f (g, e) = (Follows-trans u v w f g, e)

  Ends-after : (l : Lease) (u v w : W) → Ends l u v → Follows v w → Ends l u w
  Ends-after l u v w (f, inl a) g = (Follows-trans u v w f g, inl (g.asked l a))
  Ends-after l u v w (f, inr b) g = (Follows-trans u v w f g, inr (g.bound l b))

  Ends-Settled : (l : Lease) (w w' w'' : W) → OneMore w (ok l, w') → Ends l w' w'' → Settled w w''
  Ends-Settled l w w' w'' (more, asks, binds) (f, e) k h = elim (more k (f.made k h)) [
    | inl old ↦ inl old
    | inr new ↦ inr (subst (λ k. Asked k w'' ⊎ Bound k w'') (sym new) e)
  ]

  module _ (accounts : Accounts) (to_iso_string : ℕ → String) (hostname env : String) where
    open accounts use {leases, grants, revokes, puts_new, puts_leased}

    rethrow-same :
        (A : Type 0) (e : Exception) (r : Result (Unit {0}) × W)
        → (continue {B = A}
            (handle r.0 (λ x. pure tt) r.1).0
            (λ u. raise e)
            (handle r.0 (λ x. pure tt) r.1).1).1
          ≡ r.1
    rethrow-same A e (ok u, w) = refl
    rethrow-same A e (throw x, w) = refl

    rethrow-Ends :
        (A : Type 0) (l : Lease) (e : Exception) (w : W)
        → Ends l w (revoke_and_rethrow client to_iso_string hostname env {A = A} l e w).1
    rethrow-Ends A l e w =
        subst (Ends l w) (sym (rethrow-same A e (client.revoke l w)))
          ((revokes l w).0, inl (revokes l w).1)

    -- The `try` of `lock`, from the transaction's answer on.
    keep_or_revoke-Ends :
        (l : Lease) (c : LockConfiguration) (w : W) (r : Result Bool × W)
        → Put l w r
        → let (q, v) = continue r.0 (keep_or_revoke client to_iso_string hostname env c l) r.1 in
          Ends l w (handle q (revoke_and_rethrow client to_iso_string hostname env l) v).1
    unfolding keep_or_revoke
    keep_or_revoke-Ends l c w (ok true, v) (f, b) = (f, inr b)
    keep_or_revoke-Ends l c w (throw e, v) f =
        Ends-before l w v _ f (rethrow-Ends (Option (EtcdLock Lease)) l e v)
    keep_or_revoke-Ends l c w (ok false, v) f =
        Ends-before l w v _ f (from (client.revoke l v) (revokes l v))
      where
        from :
            (r : Result (Unit {0}) × W)
            → Follows v r.1 × Asked l r.1
            → let (q, x) = continue r.0 (λ u. pure none) r.1 in
              Ends l v
                (handle q
                  (revoke_and_rethrow client to_iso_string hostname env
                    {A = Option (EtcdLock Lease)} l)
                  x).1
        from (ok u, x) (g, a) = (g, inl a)
        from (throw e, x) (g, a) =
            Ends-before l v x _ g (rethrow-Ends (Option (EtcdLock Lease)) l e x)

    lock-Settled :
        (now : ℕ) (c : LockConfiguration) (w : W)
        → Settled w (lock client to_iso_string hostname env now c w).1
    unfolding lock
    lock-Settled now c w = from (client.lease (to_ttl_seconds c.lock_at_most_for) w) (leases _ w)
      where
        from :
            (r : Result Lease × W)
            → OneMore w r
            → Settled w
                (continue r.0
                  (λ lease.
                    try_catch
                      (client.put_if_new
                          (lock_key client to_iso_string hostname env c)
                          (lock_value client to_iso_string hostname env now)
                          lease
                        >>= keep_or_revoke client to_iso_string hostname env c lease)
                      (revoke_and_rethrow client to_iso_string hostname env lease))
                  r.1).1
        from (throw e, v) f = Follows-Settled w v f
        from (ok l, v) more =
            Ends-Settled l w v _ more (keep_or_revoke-Ends l c v _ (puts_new _ _ l v))

    -- The end of `unlock`, from its transaction's answer on.
    settle_leases-Ends :
        (l new_lease : Lease) (w : W) (r : Result Bool × W)
        → Put new_lease w r
        → let (q, v) =
            handle r.0 (revoke_and_rethrow client to_iso_string hostname env new_lease) r.1 in
          Ends new_lease w
            (continue q (settle_leases client to_iso_string hostname env l new_lease) v).1
    unfolding settle_leases
    settle_leases-Ends l n w (ok true, v) (f, b) = Ends-after n w v _ (f, inr b) (revokes l v).0
    settle_leases-Ends l n w (ok false, v) f =
        Ends-before n w v _ f (from (client.revoke n v) (revokes n v))
      where
        from :
            (r : Result (Unit {0}) × W)
            → Follows v r.1 × Asked n r.1
            → Ends n v (continue r.0 (λ u. client.revoke l) r.1).1
        from (ok u, x) (g, a) = Ends-after n v x _ (g, inl a) (revokes l x).0
        from (throw e, x) (g, a) = (g, inl a)
    settle_leases-Ends l n w (throw e, v) f =
        Ends-before n w v _ f (thrown (client.revoke n v) (revokes n v))
      where
        thrown :
            (r : Result (Unit {0}) × W)
            → Follows v r.1 × Asked n r.1
            → let (h, x) = handle r.0 (λ y. pure tt) r.1 in
              let (q, z) = continue {B = Bool} h (λ u. raise e) x in
              Ends n v (continue q (settle_leases client to_iso_string hostname env l n) z).1
        thrown (ok u, x) (g, a) = (g, inl a)
        thrown (throw y, x) (g, a) = (g, inl a)

    leased-Settled :
        (now remaining : ℕ) (c : LockConfiguration) (l : Lease) (id : LeaseId) (w : W)
        (r : Result Lease × W)
        → OneMore w r
        → Settled w
            (continue r.0
              (λ new_lease.
                try_catch
                  (client.put_if_leased
                    (lock_key client to_iso_string hostname env c)
                    id
                    (lock_value client to_iso_string hostname env now)
                    new_lease)
                  (revoke_and_rethrow client to_iso_string hostname env new_lease)
                >>= settle_leases client to_iso_string hostname env l new_lease)
              r.1).1
    leased-Settled now remaining c l id w (throw e, v) f = Follows-Settled w v f
    leased-Settled now remaining c l id w (ok n, v) more =
        Ends-Settled n w v _ more (settle_leases-Ends l n v _ (puts_leased _ id _ n v))

    Settled-before : (u v w : W) → Follows u v → Settled v w → Settled u w
    Settled-before u v w f s k h = elim (s k h) [ inl m ↦ inl (f.made k m) | inr e ↦ inr e ]

    keep_for-Settled :
        (now remaining : ℕ) (c : LockConfiguration) (l : Lease) (w : W)
        → Settled w (keep_for client to_iso_string hostname env now remaining c l w).1
    unfolding keep_for
    keep_for-Settled now remaining c l w = from (client.grant l w) (grants l w)
      where
        from :
            (r : Result LeaseId × W)
            → Follows w r.1
            → Settled w
                (continue r.0
                  (λ id. client.lease (to_ttl_seconds remaining) >>= λ new_lease.
                    try_catch
                      (client.put_if_leased
                        (lock_key client to_iso_string hostname env c)
                        id
                        (lock_value client to_iso_string hostname env now)
                        new_lease)
                      (revoke_and_rethrow client to_iso_string hostname env new_lease)
                    >>= settle_leases client to_iso_string hostname env l new_lease)
                  r.1).1
        from (throw e, v) f = Follows-Settled w v f
        from (ok id, v) f =
            Settled-before w v _ f (leased-Settled now remaining c l id v _ (leases _ v))

    -- Where the client makes one lease object at a time, and its other calls make none and keep
    -- what is so of one: every lease that `lock` or `unlock` makes has, when the call is over, a
    -- key that was put under it, or its revocation has been asked for. That is so whether the call
    -- returns or throws, and whichever of the client's calls throw on the way.
    pub leases-Settled :
        (now : ℕ) (c : LockConfiguration) (l : Lease) (w : W)
        → Settled w (lock client to_iso_string hostname env now c w).1
          × Settled w (unlock client to_iso_string hostname env now c l w).1
    unfolding unlock
    leases-Settled now c l w = (
      lock-Settled now c w,
      elim (Bool-cases (leb c.lock_at_least_for 0)) [
        | inl y ↦ rw y (Follows-Settled w _ (revokes l w).0)
        | inr n ↦ rw n (elim (Bool-cases (leb (lock_at_least_until c) now)) [
          | inl y ↦ rw y (Follows-Settled w _ (revokes l w).0)
          | inr m ↦ rw m (keep_for-Settled now (lock_at_least_until c - now) c l w)
        ])
      ],
    )
