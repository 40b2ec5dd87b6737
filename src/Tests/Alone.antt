-- ===== src/Tests/Alone.antt =====
-- A storage accessor over a table in memory on which no other instance acts.
use tslock.Prelude.{
  ℕ, refl, true, false, none, some, put, ok, arith, leb, leb→le, inl, inr, Bool-cases, Option-cases,
  if◌then◌else◌,
}
use tslock.Core.Config.{LockConfiguration, lock_at_most_until}
use tslock.Core.Contract.{ContractAmid, Same, Same-Joinable, Amid}
use tslock.Core.Storage
use tslock.Core.Storage.Contract.{AccessorContractAmid, Takes}
use tslock.Core.Storage.Laws.{stored_until, decided_at, InStore, lock-LockContract}
use tslock.InMemory.{Locks}
use tslock.InMemory.Laws.{held_until}

abbrev table_accessor : Storage.StorageAccessor Locks ℕ
table_accessor = record {
  insert_record = λ now c s. elim (s c.name) [
    | none ↦ (ok true, put s c.name (lock_at_most_until c))
    | some until ↦ (ok false, s)
  ];
  update_record = λ now c s.
      if leb (held_until s c.name) now
      then (ok true, put s c.name (lock_at_most_until c))
      else (ok false, s);
  unlock = λ now c s. (ok tt, s);
  extend = λ now c previous s. (ok false, s);
}

abbrev Idle : ℕ → Locks → Locks → Type 0
Idle now = Same held_until

inserts :
    (now : ℕ) (c : LockConfiguration) (s : Locks)
    → Amid held_until Idle now s (λ b.
      Takes held_until now c b
        (table_accessor.insert_record now c s).1
        (table_accessor.insert_record now c s).0)
inserts now c s = elim (Option-cases (s c.name)) [
  | inl e ↦ rw e (s, λ k. refl, (rw e (omega arith), λ k. ground arith))
  | inr (u, e) ↦ rw e (s, λ k. refl, λ k. refl)
]

updates :
    (now : ℕ) (c : LockConfiguration) (s : Locks)
    → Amid held_until Idle now s (λ b.
      Takes held_until now c b
        (table_accessor.update_record now c s).1
        (table_accessor.update_record now c s).0)
updates now c s = elim (Bool-cases (leb (held_until s c.name) now)) [
  | inl h ↦ rw h (s, λ k. refl, (leb→le _ _ h, λ k. ground arith))
  | inr h ↦ rw h (s, λ k. refl, λ k. refl)
]

table_accessor-Contract : AccessorContractAmid held_until Idle (λ t. t) table_accessor
table_accessor-Contract = record {
  inserts = inserts;
  updates = updates;
  releases = λ now c s. (s, λ k. refl, inl λ k. refl);
  prolongs = λ now c previous s. (s, λ k. refl, λ k. refl);
}

lock-LockContract_example :
    ContractAmid
      (stored_until held_until)
      (InStore Idle)
      (decided_at (λ t. t))
      (Storage.lock table_accessor)
lock-LockContract_example =
    lock-LockContract held_until (λ t. t) table_accessor Idle (Same-Joinable held_until)
      table_accessor-Contract
