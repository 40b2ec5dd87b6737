-- ===== src/Core/Config/Laws.antt =====
-- What `createLockConfig` of packages/core/src/lock-configuration.ts accepts, and what it makes.
use Prim.Native.String
use tslock.Prelude.{
  ℕ, ◌≤◌, ◌<◌, ◌≡◌, ◌≢◌, ◌↔◌, ◌+◌, ◌*◌, refl, ap, false, Bool, String, Option, Result, ok, throw,
  Bool-cases, inl, inr, arith, ==-eq_false, eq_iff, ◌==◌, and_then,
}
use tslock.Core.Duration.{DurationInput, parse_duration}
use tslock.Core.Config.{
  LockConfiguration, create_lock_config, check_durations, validate_lock_name, any_code, codes,
  default_at_least_for, lock_at_most_until, lock_at_least_until, unlock_time, to_ttl_seconds,
}

-- The name is not empty, has no control character and at most 1024 bytes; both durations parse,
-- and the lower is not above the upper.
pub record Accepted (control : ℕ → Bool) (now : ℕ) (name : String) (most : DurationInput)
    (least : Option DurationInput) (c : LockConfiguration) : Type 0 where
  pub same_name : c.name ≡ name
  pub not_empty : name ≢ ""
  pub clean : any_code control (codes name) ≡ false
  pub short : String.len name ≤ 1024
  pub most_parses : parse_duration most ≡ ok c.lock_at_most_for
  pub least_parses : parse_duration (default_at_least_for least) ≡ ok c.lock_at_least_for
  pub ordered : c.lock_at_least_for ≤ c.lock_at_most_for
  pub made_now : c.created_at ≡ now

and_then-eq-ok {ℓ κ} :
    {A : Type ℓ} {B : Type κ} (r : Result A) (f : A → Result B) {b : B}
    → and_then r f ≡ ok b
    → (a : A) × (r ≡ ok a) × (f a ≡ ok b)
and_then-eq-ok (ok a) f h = (a, refl, h)
and_then-eq-ok (throw e) f h = cc

validate_lock_name_iff :
    (control : ℕ → Bool) (name : String)
    → (validate_lock_name control name ≡ ok tt)
      ↔ ((any_code control (codes name) ≡ false) × (String.len name ≤ 1024))
unfolding validate_lock_name
validate_lock_name_iff control name = ground arith

check_durations_iff :
    (name : String) (most least now : ℕ) (c : LockConfiguration)
    → (check_durations name most least now ≡ ok c) ↔ (
        (least ≤ most)
        × (c ≡ record {
          name = name;
          lock_at_most_for = most;
          lock_at_least_for = least;
          created_at = now;
        }))
unfolding check_durations
check_durations_iff name most least now c = ground arith

module _ (control : ℕ → Bool) (now : ℕ) (name : String) (most : DurationInput)
    (least : Option DurationInput) (c : LockConfiguration) where
  made :
      create_lock_config control now name most least ≡ ok c → Accepted control now name most least c
  unfolding create_lock_config
  made h = elim (Bool-cases (name == "")) [
    | inl e ↦ cc (rw e at h)
    | inr ne ↦
        let (u, v, h1) = and_then-eq-ok (validate_lock_name control name) _ (rw ne at h) in
        let (m, pm, h2) = and_then-eq-ok (parse_duration most) _ h1 in
        let (l, pl, h3) = and_then-eq-ok (parse_duration (default_at_least_for least)) _ h2 in
        let (le, eq) = (check_durations_iff name m l now c).0 h3 in
        let (clean, short) = (validate_lock_name_iff control name).0 v in
        record {
          same_name = ap (λ (d : LockConfiguration). d.name) eq;
          not_empty = λ e. ground (arith, eq_iff name "");
          clean = clean;
          short = short;
          most_parses = ground arith;
          least_parses = ground arith;
          ordered = ground arith;
          made_now = ap (λ (d : LockConfiguration). d.created_at) eq;
        }
  ]

  accepted :
      Accepted control now name most least c → create_lock_config control now name most least ≡ ok c
  unfolding create_lock_config
  accepted a = rw (==-eq_false name "" a.not_empty) (
      rw ((validate_lock_name_iff control name).1 (a.clean, a.short)) (
        rw a.most_parses
          (rw a.least_parses ((check_durations_iff _ _ _ now c).1 (a.ordered, ground arith)))))

  -- A configuration is made exactly when name and durations are acceptable, and carries them.
  pub create_lock_config-eq-ok_iff :
      (create_lock_config control now name most least ≡ ok c)
      ↔ Accepted control now name most least c
  create_lock_config-eq-ok_iff = (made, accepted)

-- Where the lower duration is not above the upper: a release is never dated before the clock or
-- the lock's lower end; released by its upper end, it is never dated past it.
pub unlock_time_bounds :
    (now : ℕ) (c : LockConfiguration)
    → c.lock_at_least_for ≤ c.lock_at_most_for
    → (now ≤ unlock_time now c)
      × (lock_at_least_until c ≤ unlock_time now c)
      × (now ≤ lock_at_most_until c → unlock_time now c ≤ lock_at_most_until c)
unlock_time_bounds now c h = omega arith

-- A TTL in whole seconds is longer than the milliseconds it was made from, by a second at most.
pub to_ttl_seconds_bounds :
    (ms : ℕ) → (ms < to_ttl_seconds ms * 1000) × (to_ttl_seconds ms * 1000 ≤ ms + 1000)
unfolding to_ttl_seconds
to_ttl_seconds_bounds ms = omega arith
