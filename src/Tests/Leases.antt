-- ===== src/Tests/Leases.antt =====
-- A client of etcd in memory: lease objects are numbered, and two flags of each say whether its
-- revocation was asked for and whether a key was put under it.
use tslock.Prelude.{
  ℕ, suc, ◌<◌, ◌≡◌, ◌⊎◌, refl, Bool, true, false, ok, inl, inr, arith, eqb, if◌then◌else◌,
  Bool-cases,
}
use tslock.Core.Config.{LockConfiguration}
use tslock.Etcd
use tslock.Etcd.Leases.{Accounts, Settled, leases-Settled}
use tslock.Tests.Memory.{tally}

pub record Server : Type 0 where
  pub next : ℕ
  pub asked : ℕ → Bool
  pub bound : ℕ → Bool

abbrev flagged : (ℕ → Bool) → ℕ → ℕ → Bool
flagged f l k = if eqb l k then true else f k

abbrev server : Etcd.Etcd Server ℕ ℕ
server = record {
  lease = λ ttl w. (ok w.next, record w { next = suc w.next });
  grant = λ l w. (ok l, w);
  revoke = λ l w. (ok tt, record w { asked = flagged w.asked l });
  put_if_new = λ key value l w. (ok true, record w { bound = flagged w.bound l });
  put_if_leased = λ key id value l w. (ok false, w);
}

abbrev IsMade : ℕ → Server → Type 0
IsMade l w = l < w.next

abbrev IsAsked : ℕ → Server → Type 0
IsAsked l w = w.asked l ≡ true

abbrev IsBound : ℕ → Server → Type 0
IsBound l w = w.bound l ≡ true

flagged_before : (f : ℕ → Bool) (l k : ℕ) → f k ≡ true → flagged f l k ≡ true
flagged_before f l k h = elim (Bool-cases (eqb l k)) [ inl y ↦ rw y refl | inr n ↦ rw n h ]

flagged_self : (f : ℕ → Bool) (l : ℕ) → flagged f l l ≡ true
flagged_self f l = ground arith

server-Accounts : Accounts server IsMade IsAsked IsBound
server-Accounts = record {
  leases = λ ttl w. (λ k h. made w.next k h, λ k h. h, λ k h. h);
  grants = λ l w. record { made = λ k h. h; asked = λ k h. h; bound = λ k h. h };
  revokes = λ l w. (
    record { made = λ k h. h; asked = λ k h. flagged_before w.asked l k h; bound = λ k h. h },
    flagged_self w.asked l,
  );
  puts_new = λ key value l w. (
    record { made = λ k h. h; asked = λ k h. h; bound = λ k h. flagged_before w.bound l k h },
    flagged_self w.bound l,
  );
  puts_leased = λ key id value l w. record { made = λ k h. h; asked = λ k h. h; bound = λ k h. h };
}
  where
    made : (n k : ℕ) → k < suc n → (k < n) ⊎ (k ≡ n)
    made n k h = ground arith

abbrev start : Server
start = record { next = 1; asked = λ l. false; bound = λ l. false }

abbrev job : LockConfiguration
job = record { name = "job"; lock_at_most_for = 50; lock_at_least_for = 30; created_at = 100 }

leases-Settled_example :
    Settled server IsMade IsAsked IsBound start
      (Etcd.lock server tally "host" "default" 110 job start).1
    × Settled server IsMade IsAsked IsBound start
        (Etcd.unlock server tally "host" "default" 110 job 0 start).1
leases-Settled_example =
    leases-Settled server IsMade IsAsked IsBound server-Accounts tally "host" "default" 110 job 0
      start
