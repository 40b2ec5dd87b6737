-- ===== src/Scheduler/Laws.antt =====
-- What packages/scheduler-core/src/scheduler-lock-config.ts accepts is a lock at run time.
use tslock.Prelude.{
  ℕ, ◌≤◌, ◌≡◌, refl, Bool, false, String, Option, none, some, Result, ok, throw, and_then, arith,
  ◌==◌, Bool-cases, inl, inr,
}
use tslock.Core.Duration.{DurationInput, parse_duration}
use tslock.Core.Config.{LockConfiguration, create_lock_config, check_durations, validate_lock_name}
use tslock.Scheduler.{
  ResolvedSchedulerLockConfig, JobLockOptions, validate_job_lock_options, job_config,
  parse_optional, in_order,
}

and_then-ok {ℓ κ} :
    {A : Type ℓ} {B : Type κ} (r : Result A) (f : A → Result B) {b : B}
    → and_then r f ≡ ok b
    → (a : A) × (r ≡ ok a) × (f a ≡ ok b)
and_then-ok (ok a) f h = (a, refl, h)
and_then-ok (throw e) f h = cc

ordered-check :
    (name : String) (most least now : ℕ)
    → least ≤ most
    → check_durations name most least now
      ≡ ok (record {
        name = name;
        lock_at_most_for = most;
        lock_at_least_for = least;
        created_at = now;
      })
unfolding check_durations
ordered-check name most least now h = ground arith

in_order-le :
    (most least : Option ℕ) (m l : ℕ)
    → ◌≡◌ {A = Result (Option ℕ)} (ok (some m)) (ok most)
    → ◌≡◌ {A = Result (Option ℕ)} (ok (some l)) (ok least)
    → in_order most least ≡ ok tt
    → l ≤ m
in_order-le none least m l e f h = cc
in_order-le (some most) none m l e f h = cc
in_order-le (some most) (some least) m l e f h = ground arith

module _ (control : ℕ → Bool) (name : String) (most least : DurationInput) where
  abbrev own_durations : JobLockOptions
  own_durations = record {
    name = name;
    lock_at_most_for = some most;
    lock_at_least_for = some least;
  }

  validated :
      validate_job_lock_options control own_durations ≡ ok tt
      → (m : ℕ) × (l : ℕ) × ((name == "") ≡ false)
        × (validate_lock_name control name ≡ ok tt)
        × (parse_duration most ≡ ok m)
        × (parse_duration least ≡ ok l)
        × (l ≤ m)
  unfolding validate_job_lock_options
  validated h = elim (Bool-cases (name == "")) [
    | inl e ↦ cc (rw e at h)
    | inr ne ↦
        let (u, v, h1) = and_then-ok (validate_lock_name control name) _ (rw ne at h) in
        let (m, pm, h2) = and_then-ok (parse_optional (some most)) _ h1 in
        let (l, pl, h3) = and_then-ok (parse_optional (some least)) _ h2 in
        let (m', qm, fm) = and_then-ok (parse_duration most) _ pm in
        let (l', ql, fl) = and_then-ok (parse_duration least) _ pl in
        (m', l', ne, v, qm, ql, in_order-le m l m' l' fm fl h3)
  ]

  configured :
      (now : ℕ) (config : ResolvedSchedulerLockConfig) (m l : ℕ)
      → (name == "") ≡ false
      → validate_lock_name control name ≡ ok tt
      → parse_duration most ≡ ok m
      → parse_duration least ≡ ok l
      → l ≤ m
      → job_config control now config own_durations
        ≡ ok (record { name = name; lock_at_most_for = m; lock_at_least_for = l; created_at = now })
  unfolding job_config create_lock_config
  configured now config m l ne v pm pl h = rw (ne, v, pm, pl) (ordered-check name m l now h)

-- A job with both durations of its own that passes the validation has a lock at every time it
-- runs, with its name and those durations, whatever the scheduler's defaults are.
pub validated_job :
    (control : ℕ → Bool) (now : ℕ) (config : ResolvedSchedulerLockConfig) (name : String)
    (most least : DurationInput)
    → validate_job_lock_options control
        (record { name = name; lock_at_most_for = some most; lock_at_least_for = some least })
      ≡ ok tt
    → (c : LockConfiguration) × (job_config control now config
          (record { name = name; lock_at_most_for = some most; lock_at_least_for = some least })
        ≡ ok c)
      × (c.name ≡ name)
      × (c.created_at ≡ now)
      × (parse_duration most ≡ ok c.lock_at_most_for)
      × (parse_duration least ≡ ok c.lock_at_least_for)
validated_job control now config name most least h =
    let (m, l, ne, v, pm, pl, le) = validated control name most least h in
    (
      record { name = name; lock_at_most_for = m; lock_at_least_for = l; created_at = now },
      configured control name most least now config m l ne v pm pl le,
      refl,
      refl,
      pm,
      pl,
    )
