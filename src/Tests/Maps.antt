-- ===== src/Tests/Maps.antt =====
-- A Hazelcast map held in memory, with the map's lock of all names as one flag.
use tslock.Prelude.{
  ℕ, ◌≡◌, refl, Bool, true, false, String, Option, none, some, Table, put, remove, empty, Exec, ok,
  inl, inr, ◌==◌, Bool-cases, arith,
}
use tslock.Core.Config.{LockConfiguration}
use tslock.Core.Contract.{Within, Rely, Rely-refl, Keeps, Unlocks}
use tslock.Backend
use tslock.Backend.{Writes, content_at}
use tslock.Hazelcast
use tslock.Hazelcast.{Store, HazelcastLockRecord}
use tslock.Hazelcast.Laws.{StoreLaws, Waiting, hazelcast-Keeps, view, Erases}
use tslock.Hazelcast.Release.{Holds, methods-Free}
use tslock.Tests.Memory.{tallies, tally}

abbrev Map : Type 0
Map = Table HazelcastLockRecord × Bool

abbrev in_memory : Store Map
in_memory = record {
  lock = λ name lease w. (ok tt, (w.0, true));
  get = λ name w. (ok (w.0 name), w);
  put = λ name r ttl w. (ok tt, (put w.0 name r, w.1));
  remove = λ name w. (ok tt, (remove w.0 name, w.1));
  unlock = λ name w. (ok tt, (w.0, false));
}

abbrev get_map : Exec Map (Store Map)
get_map w = (ok in_memory, w)

abbrev IsFree : String → Map → Type 0
IsFree name w = w.1 ≡ false

abbrev IsHeld : String → Map → Type 0
IsHeld name w = w.1 ≡ true

in_memory-Holds : Holds IsFree IsHeld in_memory
in_memory-Holds = record {
  locks = λ name lease w f. refl;
  gets = λ name w h. h;
  puts = λ name r ttl w h. h;
  removes = λ name w h. h;
  unlocks = λ name w h. refl;
}

abbrev job : LockConfiguration
job = record { name = "job"; lock_at_most_for = 50; lock_at_least_for = 10; created_at = 100 }

abbrev taken : HazelcastLockRecord
taken = record { lock_until = tally 150; locked_at = tally 100; locked_by = "host" }

abbrev nothing : Map
nothing = (empty, false)

methods-Free_example :
    IsFree "job" (Hazelcast.lock get_map tallies "host" 120 job nothing).1
    × IsFree "job" (Hazelcast.unlock get_map tallies "host" 30000 120 job taken nothing).1
methods-Free_example =
    methods-Free IsFree IsHeld get_map tallies "host" (λ name w f. (in_memory-Holds, f)) 30000 120
      job taken nothing refl

abbrev unversioned : Option HazelcastLockRecord → Option (Unit {0} × HazelcastLockRecord)
unversioned none = none
unversioned (some d) = some (tt, d)

abbrev stored : Map → String → Option (Unit {0} × HazelcastLockRecord)
stored w key = unversioned (w.0 key)

content-unversioned : (o : Option HazelcastLockRecord) → Backend.content stored (unversioned o) ≡ o
content-unversioned none = refl
content-unversioned (some d) = refl

put-Writes :
    (key : String) (d : HazelcastLockRecord) (w : Map) → Writes stored w (put w.0 key d, w.1) key d
put-Writes key d w k = elim (Bool-cases (key == k)) [ inl e ↦ rw e refl | inr e ↦ rw e refl ]

remove-Erases : (key : String) (w : Map) → Erases stored key w (remove w.0 key, w.1)
remove-Erases key w k = elim (Bool-cases (key == k)) [ inl e ↦ rw e refl | inr e ↦ rw e refl ]

in_memory-StoreLaws : StoreLaws stored in_memory
in_memory-StoreLaws = record {
  gets = λ name w. (refl, content-unversioned (w.0 name));
  puts = λ name r ttl w. put-Writes name r w;
  removes = remove-Erases;
  unlocks = λ name w k. refl;
}

abbrev until_in : Map → String → ℕ
until_in = view get_map tallies "host" stored in_memory in_memory-StoreLaws

abbrev waiting :
    Waiting get_map tallies "host" stored in_memory in_memory-StoreLaws
      (Rely until_in)
      (Rely-refl until_in)
waiting = record { now = 120; polite = λ name lease w k. omega arith }

hazelcast-Keeps_example :
    Within until_in 120 nothing (λ b.
      Keeps until_in 120 job b
        (Hazelcast.lock get_map tallies "host" 120 job nothing).1
        (Hazelcast.lock get_map tallies "host" 120 job nothing).0)
    × Within until_in 120 nothing (λ b.
      Unlocks until_in 120 job b
        (Hazelcast.unlock get_map tallies "host" 30000 120 job taken nothing).1)
hazelcast-Keeps_example =
    hazelcast-Keeps get_map tallies "host" stored in_memory in_memory-StoreLaws (Rely until_in)
      (Rely-refl until_in) (λ w. (refl, refl)) 30000 waiting job taken nothing refl
