-- ===== src/CloudFrontKvs/Attempts.antt =====
-- The `for` that packages/cloudfront-kvs/src/cloudfront-kvs-lock-provider.ts writes in each of its
-- methods: what one attempt keeps, the loop keeps.
use tslock.Prelude.{
  subst, sym, ℕ, zero, suc, ◌≤◌, ◌≡◌, arith, String, Option, none, some, Exec, Result, ok, throw,
  continue,
}
use tslock.Core.Contract.{Same, Amid, Joinable}
use tslock.CloudFrontKvs.{for_attempts, settle}

-- `P` is what a settled attempt has done; one that is to be tried again has changed nothing.
module _ {S A : Type 0} (view : S → String → ℕ) (P : ℕ → S → S → Result A → Type 0) where
  abbrev pub Tried : ℕ → S → S → Result (Option A) → Type 0
  Tried now b s' (ok none) = Same view b s'
  Tried now b s' (ok (some a)) = P now b s' (ok a)
  Tried now b s' (throw e) = P now b s' (throw e)

  -- `Others` is what other instances may do meanwhile.
  module _ (Others : ℕ → S → S → Type 0) (joinable : Joinable view Others) (last : A)
      (exhausted : (now : ℕ) (b s' : S) → Same view b s' → P now b s' (ok last)) where
    -- The attempt that decided is one of the loop's, `now i` its reading of the clock.
    abbrev pub Decided : ℕ → (ℕ → ℕ) → S → Result A × S → Type 0
    Decided n now s (q, s') = (i : ℕ) × (i ≤ n) × Amid view Others (now i) s (λ b. P (now i) b s' q)

    abbrev LaterThanFirst : (ℕ → ℕ) → Type 0
    LaterThanFirst now = (i : ℕ) → now i ≤ now (suc i)

    first_is_least : (now : ℕ → ℕ) → LaterThanFirst now → (i : ℕ) → now 0 ≤ now i
    first_is_least now ticks zero = omega arith
    first_is_least now ticks (suc i) = omega (arith, first_is_least now ticks i, ticks i)

    -- From the first attempt's outcome on.
    from_first :
        (n : ℕ) (now : ℕ → ℕ) (s b : S) (rest : Exec S A) (q : Result (Option A)) (s' : S)
        → LaterThanFirst now
        → Others (now 0) s b
        → Tried (now 0) b s' q
        → (Same view b s' → Decided n now s (rest s'))
        → Decided n now s ((continue q (settle rest)) s')
    from_first n now s b rest (ok none) s' ticks a h f = f h
    from_first n now s b rest (ok (some x)) s' ticks a h f = (0, omega arith, (b, a, h))
    from_first n now s b rest (throw e) s' ticks a h f = (0, omega arith, (b, a, h))

    later :
        (n : ℕ) (now : ℕ → ℕ) (s b s' : S) (r : Result A × S)
        → LaterThanFirst now
        → Others (now 0) s b
        → Same view b s'
        → Decided n (λ i. now (suc i)) s' r
        → Decided (suc n) now s r
    later n now s b s' r ticks a same (i, le, (b', a', p)) = (
      suc i,
      omega (arith, le),
      (b', joinable.joins s b s' b' (first_is_least now ticks (suc i)) (omega arith) a same a', p),
    )

    for_attempts_suc :
        (n : ℕ) (now : ℕ → ℕ) (body : ℕ → Exec S (Option A)) (s : S)
        → ((i : ℕ) → now i ≤ now (suc i))
        → ((i : ℕ) (r : S)
            → Amid view Others (now i) r (λ b. Tried (now i) b (body i r).1 (body i r).0))
        → Decided n now s (for_attempts (suc n) body last s)
    unfolding for_attempts
    for_attempts_suc zero now body s ticks once =
        let (b, a, h) = once 0 s in
        from_first zero now s b (λ x. (ok last, x)) _ _ ticks a h
          λ same. (0, omega arith, (b, a, exhausted (now 0) b _ same))
    for_attempts_suc (suc n) now body s ticks once =
        let (b, a, h) = once 0 s in
        from_first (suc n) now s b _ _ _ ticks a h λ same. later n now s b _ _ ticks a same (
          for_attempts_suc n (λ i. now (suc i)) (λ i. body (suc i)) _ (λ i. ticks (suc i))
            (λ i. once (suc i)))

    pub for_attempts-Decided :
        (m n : ℕ) (now : ℕ → ℕ) (body : ℕ → Exec S (Option A)) (s : S)
        → m ≡ suc n
        → ((i : ℕ) → now i ≤ now (suc i))
        → ((i : ℕ) (r : S)
            → Amid view Others (now i) r (λ b. Tried (now i) b (body i r).1 (body i r).0))
        → Decided n now s (for_attempts m body last s)
    for_attempts-Decided m n now body s e ticks once =
        subst (λ k. Decided n now s (for_attempts k body last s)) (sym e)
          (for_attempts_suc n now body s ticks once)
