-- ===== src/CloudflareDo/Owner.antt =====
-- The record of packages/cloudflare-do/src/handle-lock-request.ts belongs to the token that it was
-- granted to, over the memory storage of do-lock-storage.ts.
use tslock.Prelude.{
  ℕ, ◌≡◌, ◌≢◌, ◌<◌, refl, subst, sym, ◌+◌, ap, ◌∙◌, true, false, String, Option, none, some, List,
  [], ◌∷◌, Table, ok, arith, Bool-cases, inl, inr, eq_iff, eq_refl, ==-eq_false, ◌==◌, leb, lt→ltb,
}
use text.Mathlib.TextLemmas.{append_cancel_left}
use tslock.CloudflareDo.{
  DoLockRecord, LockOp, Operation, lock_op, unlock_op, extend_op, acquired, denied, is_held,
  memory_storage, apply_lock_op, storage_key_for_lock, apply_to, apply_lock, apply_unlock,
  apply_extend, owns, still_held, empty_token_refused, strict_future_deadline,
}

abbrev pub Records : Type 0
Records = Table DoLockRecord

-- The record of a name is there, with the token, for a term that is not over at `now`.
abbrev pub BelongsTo : String → String → ℕ → Records → Type 0
BelongsTo token name until m =
    (r : DoLockRecord) × (m (storage_key_for_lock name) ≡ some r)
    × (r.token ≡ some token)
    × (r.lock_until ≡ until)

-- Requests with the server's time.
pub run : List (ℕ × LockOp) → Records → Records
run [] m = m
run ((now, body) ∷ h) m = run h (apply_lock_op memory_storage now body m).1

-- Each request is made before `until`, and is not by the holder of the token for the name.
abbrev pub ByOthers : String → String → ℕ → List (ℕ × LockOp) → Type 0
ByOthers token name until [] = Unit
ByOthers token name until ((now, body) ∷ h) =
    (now < until) × (body.name ≡ name → body.token ≢ token) × ByOthers token name until h

owns_other :
    (r : DoLockRecord) (token other : String)
    → r.token ≡ some token
    → other ≢ token
    → owns r other ≡ false
owns_other r token other e n = rw e (ground (arith, eq_iff token other, eq_iff other ""))

-- A request writes at its own key only, and not at all where another's term is not over.
other_key :
    (op : Operation) (now : ℕ) (body : LockOp) (key k : String) (existing : Option DoLockRecord)
    (m : Records)
    → (key == k) ≡ false
    → (apply_to memory_storage op now body key existing m).1 k ≡ m k
unfolding apply_lock apply_unlock apply_extend strict_future_deadline
other_key lock_op now body key k existing m n = ground arith
other_key unlock_op now body key k none m n = ground arith
other_key unlock_op now body key k (some r) m n = ground arith
other_key extend_op now body key k none m n = ground arith
other_key extend_op now body key k (some r) m n = ground arith

other_token :
    (op : Operation) (now : ℕ) (body : LockOp) (key : String) (r : DoLockRecord) (m : Records)
    → now < r.lock_until
    → owns r body.token ≡ false
    → (apply_to memory_storage op now body key (some r) m).1 ≡ m
unfolding apply_lock apply_unlock apply_extend strict_future_deadline
other_token lock_op now body key r m h n = rw (lt→ltb _ _ h) refl
other_token unlock_op now body key r m h n = rw n refl
other_token extend_op now body key r m h n = rw n refl

same_name : (m n : String) → (storage_key_for_lock m == storage_key_for_lock n) ≡ true → m ≡ n
same_name m n e = append_cancel_left "lock:" m n ((eq_iff _ _).0 e)

same_record :
    (token name : String) (now : ℕ) (body : LockOp) (m : Records) (r : DoLockRecord)
    → m (storage_key_for_lock name) ≡ some r
    → r.token ≡ some token
    → now < r.lock_until
    → (body.name ≡ name → body.token ≢ token)
    → (apply_lock_op memory_storage now body m).1 (storage_key_for_lock name) ≡ some r
unfolding apply_lock_op
same_record token name now body m r at tok before other =
    elim (Bool-cases (empty_token_refused memory_storage body.op body.token)) [
      | inl e ↦ rw e at
      | inr e ↦
          rw e (elim (Bool-cases (storage_key_for_lock body.name == storage_key_for_lock name)) [
            | inr n ↦ other_key body.op now body _ _ (m (storage_key_for_lock body.name)) m n ∙ at
            | inl s ↦
                let found =
                  ap (λ n. m (storage_key_for_lock n)) (same_name body.name name s) ∙ at in
                rw found (
                  ap (λ x. x (storage_key_for_lock name))
                    (other_token body.op now body _ r m before
                      (owns_other r token body.token tok (other (same_name body.name name s))))
                  ∙ at)
          ])
    ]

run-BelongsTo :
    (token name : String) (until : ℕ) (h : List (ℕ × LockOp)) (m : Records)
    → ByOthers token name until h
    → BelongsTo token name until m
    → BelongsTo token name until (run h m)
unfolding run
run-BelongsTo token name until [] m o b = b
run-BelongsTo token name until ((now, body) ∷ h) m (before, other, rest) (r, at, tok, term) =
    run-BelongsTo token name until h _ rest (
      r,
      same_record token name now body m r at tok (subst (λ u. now < u) (sym term) before) other,
      tok,
      term,
    )

-- A lock that is granted is stored under its token, until the end of its duration.
apply_lock-granted :
    (now : ℕ) (body : LockOp) (key t : String) (existing : Option DoLockRecord) (m : Records)
    → (apply_lock memory_storage now body key existing m).0 ≡ ok (acquired t)
    → (r : DoLockRecord) × ((apply_lock memory_storage now body key existing m).1 key ≡ some r)
      × (r.token ≡ some body.token)
      × (r.lock_until ≡ now + body.lock_at_most_for)
      × (still_held memory_storage now existing ≡ false)
unfolding apply_lock strict_future_deadline
apply_lock-granted now body key t existing m h =
    elim (Bool-cases (still_held memory_storage now existing)) [
      | inl e ↦ cc (rw e at h)
      | inr e ↦ elim (Bool-cases (leb (now + body.lock_at_most_for) now)) [
        | inl f ↦ cc (rw (e, f) at h)
        | inr f ↦
            rw (e, f)
              (
                record {
                  lock_until = now + body.lock_at_most_for;
                  locked_at = now;
                  locked_by = body.locked_by;
                  token = some body.token;
                  lock_at_least_until = some (now + body.lock_at_least_for);
                },
                rw (eq_refl key) refl,
                refl,
                refl,
                refl,
              )
      ]
    ]

granted-BelongsTo :
    (now : ℕ) (body : LockOp) (m : Records)
    → body.op ≡ lock_op
    → (apply_lock_op memory_storage now body m).0 ≡ ok (acquired body.token)
    → BelongsTo body.token body.name
        (now + body.lock_at_most_for)
        (apply_lock_op memory_storage now body m).1
      × (still_held memory_storage now (m (storage_key_for_lock body.name)) ≡ false)
unfolding apply_lock_op
granted-BelongsTo now body m is_lock e =
    elim (Bool-cases (empty_token_refused memory_storage body.op body.token)) [
      | inl none_ ↦ cc (rw none_ at e)
      | inr some_ ↦
          let (r, at, tok, term, free) =
            apply_lock-granted now body (storage_key_for_lock body.name) body.token _ m
              (rw (some_, is_lock) at e) in
          rw (some_, is_lock) ((r, at, tok, term), free)
    ]

denied_while_held :
    (token name : String) (until later : ℕ) (other : LockOp) (m : Records)
    → other.op ≡ lock_op
    → other.name ≡ name
    → other.token ≢ ""
    → later < until
    → BelongsTo token name until m
    → (apply_lock_op memory_storage later other m).0 ≡ ok (denied is_held)
unfolding apply_lock_op apply_lock
denied_while_held token name until later other m is_lock same not_empty before (r, at, tok, term) =
    rw (is_lock, same, ==-eq_false other.token "" not_empty, at)
      (rw (lt→ltb later r.lock_until (subst (λ u. later < u) (sym term) before)) refl)

-- A lock request that is answered with its token was made where no term was running. Until its
-- duration has passed on the server's clock, and whatever requests come that are not by the holder
-- of the token for that name, the record stays under the token and to the same end, and any other
-- lock request for the name that has a token is answered `held`.
pub granted_term :
    (now : ℕ) (body : LockOp) (m : Records) (h : List (ℕ × LockOp)) (later : ℕ) (other : LockOp)
    → body.op ≡ lock_op
    → (apply_lock_op memory_storage now body m).0 ≡ ok (acquired body.token)
    → ByOthers body.token body.name (now + body.lock_at_most_for) h
    → other.op ≡ lock_op
    → other.name ≡ body.name
    → other.token ≢ ""
    → later < now + body.lock_at_most_for
    → (still_held memory_storage now (m (storage_key_for_lock body.name)) ≡ false)
      × BelongsTo body.token body.name
          (now + body.lock_at_most_for)
          (run h (apply_lock_op memory_storage now body m).1)
      × ((apply_lock_op memory_storage later other
            (run h (apply_lock_op memory_storage now body m).1)).0
          ≡ ok (denied is_held))
granted_term now body m h later other is_lock got others is_lock' same not_empty before =
    let (owned, free) = granted-BelongsTo now body m is_lock got in
    let kept = run-BelongsTo body.token body.name _ h _ others owned in
    (
      free,
      kept,
      denied_while_held body.token body.name _ later other _ is_lock' same not_empty before kept,
    )
