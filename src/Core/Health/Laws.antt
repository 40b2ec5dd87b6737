-- ===== src/Core/Health/Laws.antt =====
-- What the monitor of packages/core/src/lock-health.ts shows.
use mathlib.Core.List.{List, append_assoc, append-nil}
use tslock.Prelude.{
  ℕ, zero, suc, ◌+◌, ◌-◌, ◌≤◌, ◌<◌, ◌≡◌, ◌⊎◌, ◌↔◌, refl, ap, sym, subst, ◌∙◌, Bool, true, false,
  Option, none, some, ok, String, [], ◌∷◌, ◌++◌, length, length-append, arith, ltb, Bool-cases, inl,
  inr,
}
use tslock.Core.Config.{LockConfiguration}
use tslock.Core.Tracking.{ActiveLockRecord}
use tslock.Core.Health.{
  create_lock_health_monitor, Monitor, KeepAliveFailureRecord, shift_down_to, failure_from,
  on_keep_alive_failure, insert_by_name, sort_by_name, overdue, snapshot,
}

-- The list without its first `n` elements.
abbrev pub drop {ℓ} : {A : Type ℓ} → ℕ → List A → List A
drop zero xs = xs
drop (suc n) [] = []
drop (suc n) (x ∷ xs) = drop n xs

pub record Failure : Type 0 where
  pub at : ℕ
  pub config : LockConfiguration
  pub error_type : String

pub failures_of : List Failure → List KeepAliveFailureRecord
failures_of [] = []
failures_of (f ∷ fs) = failure_from f.at f.config f.error_type ∷ failures_of fs

pub report : List Failure → Monitor → Monitor
report [] m = m
report (f ∷ fs) m = report fs (on_keep_alive_failure f.at f.config f.error_type m)

drop-nil {ℓ} : {A : Type ℓ} (n : ℕ) → drop {A = A} n [] ≡ []
drop-nil zero = refl
drop-nil (suc n) = refl

drop-drop {ℓ} :
    {A : Type ℓ} (k j : ℕ) (xs ys : List A)
    → k ≤ length xs
    → drop j (drop k xs ++ ys) ≡ drop (k + j) (xs ++ ys)
drop-drop zero j xs ys h = ap (λ k. drop k (xs ++ ys)) (omega arith)
drop-drop (suc k) j [] ys h = absurd (omega (arith, h))
drop-drop (suc k) j (x ∷ xs) ys h =
    drop-drop k j xs ys (omega (arith, h)) ∙ ap (λ n. drop n (x ∷ (xs ++ ys))) (suc_add k j)
  where
    suc_add : (k j : ℕ) → suc (k + j) ≡ suc k + j
    suc_add k j = omega arith

length-drop {ℓ} : {A : Type ℓ} (k : ℕ) (xs : List A) → length (drop k xs) ≡ length xs - k
length-drop zero xs = omega arith
length-drop (suc k) [] = omega arith
length-drop (suc k) (x ∷ xs) = length-drop k xs ∙ omega arith

shift_down_to-drop :
    (n : ℕ) (xs : List KeepAliveFailureRecord) → shift_down_to n xs ≡ drop (length xs - n) xs
unfolding shift_down_to
shift_down_to-drop n [] = sym (drop-nil (0 - n))
shift_down_to-drop n (x ∷ xs) = elim (Bool-cases (ltb n (length (x ∷ xs)))) [
  | inl e ↦ rw e (shift_down_to-drop n xs ∙ ap (λ k. drop k (x ∷ xs)) (more n (length xs) e))
  | inr e ↦ rw e (ap (λ k. drop k (x ∷ xs)) (less n (length xs) e))
]
  where
    more : (n l : ℕ) → ltb n (suc l) ≡ true → suc (l - n) ≡ suc l - n
    more n l e = ground arith

    less : (n l : ℕ) → ltb n (suc l) ≡ false → 0 ≡ suc l - n
    less n l e = ground arith

-- The latest `n` of all.
abbrev pub latest : ℕ → List KeepAliveFailureRecord → List KeepAliveFailureRecord
latest n xs = drop (length xs - n) xs

latest-latest :
    (n : ℕ) (xs ys : List KeepAliveFailureRecord)
    → latest n (latest n xs ++ ys) ≡ latest n (xs ++ ys)
latest-latest n xs ys =
    ap (λ j. drop j (latest n xs ++ ys))
      (ap (λ l. l - n)
        (length-append (latest n xs) ys ∙ ap (λ l. l + length ys) (length-drop (length xs - n) xs)))
    ∙ drop-drop (length xs - n) _ xs ys (omega arith)
    ∙ ap (λ k. drop k (xs ++ ys)) (omega (arith, length-append xs ys))

report_from :
    (fs : List Failure) (ys : List KeepAliveFailureRecord) (m : Monitor)
    → m.keep_alive_failures ≡ latest m.max_keep_alive_failures ys
    → (report fs m).keep_alive_failures ≡ latest m.max_keep_alive_failures (ys ++ failures_of fs)
unfolding report failures_of on_keep_alive_failure
report_from [] ys m h = h ∙ ap (latest m.max_keep_alive_failures) (sym (append-nil ys))
report_from (f ∷ fs) ys m h =
    report_from fs (ys ++ (failure_from f.at f.config f.error_type ∷ []))
      (on_keep_alive_failure f.at f.config f.error_type m)
      (shift_down_to-drop m.max_keep_alive_failures _
        ∙ ap
            (λ zs.
              latest m.max_keep_alive_failures
                (zs ++ (failure_from f.at f.config f.error_type ∷ [])))
            h
        ∙ latest-latest m.max_keep_alive_failures ys _)
    ∙ ap (latest m.max_keep_alive_failures)
        (append_assoc ys (failure_from f.at f.config f.error_type ∷ []) (failures_of fs))

new_monitor :
    (most : Option ℕ) (m : Monitor)
    → create_lock_health_monitor most ≡ ok m
    → (m.keep_alive_failures ≡ []) × (1 ≤ m.max_keep_alive_failures)
unfolding create_lock_health_monitor
new_monitor none m h = (ground arith, ground arith)
new_monitor (some n) m h = (ground arith, ground arith)

-- A new monitor that has been told of any failures shows the latest of them, at most as many as it
-- was made for, in the order they came in.
pub latest_failures :
    (most : Option ℕ) (m : Monitor) (fs : List Failure)
    → create_lock_health_monitor most ≡ ok m
    → ((report fs m).keep_alive_failures ≡ latest m.max_keep_alive_failures (failures_of fs))
      × (length (report fs m).keep_alive_failures ≤ m.max_keep_alive_failures)
      × (1 ≤ m.max_keep_alive_failures)
latest_failures most m fs made =
    let (empty_, positive) = new_monitor most m made in
    let kept = report_from fs [] m (empty_ ∙ sym (drop-nil (0 - m.max_keep_alive_failures))) in
    (
      kept,
      subst (λ xs. length xs ≤ m.max_keep_alive_failures) (sym kept)
          (latest-short m.max_keep_alive_failures (failures_of fs)),
      positive,
    )
  where
    latest-short : (n : ℕ) (xs : List KeepAliveFailureRecord) → length (latest n xs) ≤ n
    latest-short n xs = omega (arith, length-drop (length xs - n) xs)

abbrev pub IsIn : ActiveLockRecord → List ActiveLockRecord → Type 0
IsIn r [] = ⊥
IsIn r (x ∷ xs) = (x ≡ r) ⊎ IsIn r xs

insert_by_name-IsIn :
    (less : String → String → Bool) (r x : ActiveLockRecord) (xs : List ActiveLockRecord)
    → IsIn r (insert_by_name less x xs) ↔ IsIn r (x ∷ xs)
unfolding insert_by_name
insert_by_name-IsIn less r x [] = (λ h. h, λ h. h)
insert_by_name-IsIn less r x (y ∷ ys) = elim (Bool-cases (less y.name x.name)) [
  | inl e ↦ let (f, g) = insert_by_name-IsIn less r x ys in rw e (swap f, unswap g)
  | inr e ↦ rw e (λ h. h, λ h. h)
]
  where
    swap : {A B C D : Type 0} → (A → B ⊎ C) → D ⊎ A → B ⊎ (D ⊎ C)
    swap f (inl d) = inr (inl d)
    swap f (inr a) = elim (f a) [ inl b ↦ inl b | inr c ↦ inr (inr c) ]

    unswap : {A B C D : Type 0} → (B ⊎ C → A) → B ⊎ (D ⊎ C) → D ⊎ A
    unswap g (inl b) = inr (g (inl b))
    unswap g (inr (inl d)) = inl d
    unswap g (inr (inr c)) = inr (g (inr c))

sort_by_name-IsIn :
    (less : String → String → Bool) (r : ActiveLockRecord) (rs : List ActiveLockRecord)
    → IsIn r (sort_by_name less rs) ↔ IsIn r rs
unfolding sort_by_name
sort_by_name-IsIn less r [] = (λ h. h, λ h. h)
sort_by_name-IsIn less r (x ∷ xs) =
    let (f, g) = insert_by_name-IsIn less r x (sort_by_name less xs) in
    let (h, k) = sort_by_name-IsIn less r xs in (λ i. map_right h (f i), λ i. g (map_right k i))
  where
    map_right : {A B C : Type 0} → (A → B) → C ⊎ A → C ⊎ B
    map_right f (inl c) = inl c
    map_right f (inr a) = inr (f a)

abbrev pub IsLate : ℕ → ActiveLockRecord → Type 0
IsLate taken_at r = r.updated_at + r.lock_at_most_for < taken_at

overdue-IsIn :
    (less : String → String → Bool) (taken_at : ℕ) (r : ActiveLockRecord)
    (rs : List ActiveLockRecord)
    → IsIn r (overdue less taken_at rs)
      ↔ (IsIn r rs × (r.updated_at + r.lock_at_most_for < taken_at))
unfolding overdue
overdue-IsIn less taken_at r [] = (λ h. absurd h, λ h. absurd h.0)
overdue-IsIn less taken_at r (x ∷ xs) =
    let ih = overdue-IsIn less taken_at r xs in
    elim (Bool-cases (ltb x.lock_at_most_for (taken_at - x.updated_at))) [
      | inl e ↦ rw e (
        λ i. elim i [
          | inl s ↦ (inl s, subst (IsLate taken_at) s (late x e))
          | inr j ↦ (inr (ih.0 j).0, (ih.0 j).1)
        ],
        λ i. elim i.0 [ inl s ↦ inl s | inr j ↦ inr (ih.1 (j, i.1)) ],
      )
      | inr e ↦ rw e (
        λ i. (inr (ih.0 i).0, (ih.0 i).1),
        λ i. elim i.0 [
          | inl s ↦ absurd (in_time x e (subst (IsLate taken_at) (sym s) i.1))
          | inr j ↦ ih.1 (j, i.1)
        ],
      )
    ]
  where
    late :
        (x : ActiveLockRecord)
        → ltb x.lock_at_most_for (taken_at - x.updated_at) ≡ true
        → IsLate taken_at x
    late x e = ground arith

    in_time :
        (x : ActiveLockRecord)
        → ltb x.lock_at_most_for (taken_at - x.updated_at) ≡ false
        → ¬ IsLate taken_at x
    in_time x e = ground arith

-- A snapshot lists exactly the locks that are out, and as overdue exactly those of them whose
-- longest duration has passed since they were last taken or extended.
pub snapshot-IsIn :
    (less : String → String → Bool) (taken_at : ℕ) (rs : List ActiveLockRecord) (m : Monitor)
    (r : ActiveLockRecord)
    → (IsIn r (snapshot less taken_at rs m).active_locks ↔ IsIn r rs)
      × (IsIn r (snapshot less taken_at rs m).overdue_locks
          ↔ (IsIn r rs × (r.updated_at + r.lock_at_most_for < taken_at)))
unfolding snapshot
snapshot-IsIn less taken_at rs m r =
    let (f, g) = sort_by_name-IsIn less r rs in
    let (h, k) = overdue-IsIn less taken_at r (sort_by_name less rs) in
    ((f, g), (λ i. (f (h i).0, (h i).1), λ i. k (g i.0, i.1)))
