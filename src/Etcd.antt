-- ===== src/Etcd.antt =====
-- packages/etcd/src: the accessor, which keeps a lock as a key bound to a lease of the server, and
-- its lock object. The client's calls are parameters: a lease object, its grant and its revocation,
-- and the two transactions that put a key under a lease which they have granted.
pub mod Leases
use Prim.Native.String.{◌++◌}
use tslock.Prelude.{
  ℕ, ◌+◌, ◌-◌, Bool, true, false, String, Option, none, some, Exec, Result, ok, throw, Exception,
  pure, raise, ◌>>=◌, ◌>>◌, try_catch, leb, if◌then◌else◌,
}
use tslock.Core.Config.{LockConfiguration, lock_at_least_until, to_ttl_seconds}
use tslock.Core.Lock.{LockObject, new_lock}
use tslock.Backend.{or_else}

-- `Lease` is the client's lease object, `LeaseId` what the server names a granted one by.
pub record Etcd (W Lease LeaseId : Type 0) : Type 0 where
  pub lease : ℕ → Exec W Lease
  pub grant : Lease → Exec W LeaseId
  pub revoke : Lease → Exec W (Unit {0})
  -- `if(key, 'Version', '==', 0)` and `if(key, 'Lease', '==', id)`, then the put; what they answer
  -- is `succeeded`.
  pub put_if_new : String → String → Lease → Exec W Bool
  pub put_if_leased : String → LeaseId → String → Lease → Exec W Bool

pub resolve_options : Option String → String
resolve_options env = or_else env "default"

-- EtcdLock
pub record EtcdLock (Lease : Type 0) : Type 0 where
  pub object : LockObject
  pub lease : Lease

module _ {W Lease LeaseId : Type 0} (client : Etcd W Lease LeaseId) (to_iso_string : ℕ → String)
    (hostname env : String) where
  abbrev pub lock_key : LockConfiguration → String
  lock_key config = "shedlock:" ++ (env ++ (":" ++ config.name))

  abbrev pub lock_value : ℕ → String
  lock_value now = "ADDED:" ++ (to_iso_string now ++ ("@" ++ hostname))

  -- The `catch` of both methods: the lease is revoked, whatever comes of that, and the error thrown.
  abbrev pub revoke_and_rethrow : {A : Type 0} → Lease → Exception → Exec W A
  revoke_and_rethrow lease e = try_catch (client.revoke lease) (λ x. pure tt) >> raise e

  unfoldable pub keep_or_revoke :
      LockConfiguration → Lease → Bool → Exec W (Option (EtcdLock Lease))
  keep_or_revoke config lease true w =
      (ok (some (record { object = new_lock config; lease = lease })), w)
  keep_or_revoke config lease false w = (client.revoke lease >> pure none) w

  unfoldable pub lock : ℕ → LockConfiguration → Exec W (Option (EtcdLock Lease))
  lock now config = client.lease (to_ttl_seconds config.lock_at_most_for) >>= λ lease.
      try_catch
        (client.put_if_new (lock_key config) (lock_value now) lease >>= keep_or_revoke config lease)
        (revoke_and_rethrow lease)

  unfoldable pub settle_leases : Lease → Lease → Bool → Exec W (Unit {0})
  settle_leases lease new_lease true = client.revoke lease
  settle_leases lease new_lease false = client.revoke new_lease >> client.revoke lease

  -- From the remaining time on, which is positive.
  unfoldable pub keep_for : ℕ → ℕ → LockConfiguration → Lease → Exec W (Unit {0})
  keep_for now remaining_ms config lease = client.grant lease >>= λ lease_id.
      client.lease (to_ttl_seconds remaining_ms) >>= λ new_lease.
      try_catch (client.put_if_leased (lock_key config) lease_id (lock_value now) new_lease)
        (revoke_and_rethrow new_lease)
      >>= settle_leases lease new_lease

  unfoldable pub unlock : ℕ → LockConfiguration → Lease → Exec W (Unit {0})
  unlock now config lease =
      if leb config.lock_at_least_for 0
      then client.revoke lease
      else if leb (lock_at_least_until config) now
      then client.revoke lease
      else keep_for now (lock_at_least_until config - now) config lease
