-- ===== src/Core/Executor/Extension.antt =====
-- packages/core/src/lock-extender.ts: what an extension of the active lock leaves in the context.
use tslock.Prelude.{
  ℕ, ◌≡◌, refl, subst, Option, none, some, List, [], ◌∷◌, Exec, no_active_lock, Result, ok, throw,
  inl, inr, List-cases,
}
use tslock.Core.Context.{Context, stack, extend_active_lock, extend_first, replaced}
use tslock.Core.Duration.{DurationInput, parse_duration}
use tslock.Core.Executor.Balance.{Holds, Minds}

module _ {L W : Type 0} (Free : W → Type 0) (Held : L → W → Type 0)
    (extend : L → ℕ → ℕ → Exec W (Option L)) where
  -- A lock that is extended hands over to its extension; one that is not stays held.
  abbrev pub Hands : L → Result (Option L) → W → Type 0
  Hands l (ok (some l')) w = Held l' w
  Hands l (ok none) w = Held l w
  Hands l (throw e) w = Held l w

  module _
      (hands : (l : L) (most least : ℕ) (w : W)
        → Held l w
        → Hands l (extend l most least w).0 (extend l most least w).1) where
    replaced-Holds :
        (c : Context L) (l : L) (rest : List L) (r : Result (Option L)) (w : W)
        → stack c.active ≡ l ∷ rest
        → Hands l r w
        → let (q, (c', w')) = replaced c rest (r, w) in Holds Free Held (stack c'.active) w'
    replaced-Holds c l rest (ok (some l')) w e h = h
    replaced-Holds c l rest (ok none) w e h = rw e h
    replaced-Holds c l rest (throw x) w e h = rw e h

    extend_first-Holds :
        (c : Context L) (l : L) (rest : List L) (m n : Result ℕ) (w : W)
        → stack c.active ≡ l ∷ rest
        → Held l w
        → let (q, (c', w')) = extend_first extend l rest m n (c, w) in
          Holds Free Held (stack c'.active) w'
    unfolding extend_first
    extend_first-Holds c l rest (ok m) (ok n) w e h =
        replaced-Holds c l rest _ _ e (hands l m n w h)
    extend_first-Holds c l rest (ok m) (throw x) w e h = rw e h
    extend_first-Holds c l rest (throw x) r w e h = rw e h

    pub extend_active_lock-Minds :
        (most least : DurationInput) → Minds Free Held (extend_active_lock extend most least)
    unfolding extend_active_lock
    extend_active_lock-Minds most least c w h = elim (List-cases (stack c.active)) [
      | inl e ↦ absurd (subst (λ ls. Holds Free Held ls w) e h)
      | inr (l, rest, e) ↦
          rw (e, extend_active_lock)
            (extend_first-Holds c l rest (parse_duration most) (parse_duration least) w e
              (subst (λ ls. Holds Free Held ls w) e h))
    ]

  -- What a call in the context `c` and the world `w` has done when it ends as `r` with `c'` and
  -- `w'`.
  abbrev pub TakesOver :
      DurationInput
      → DurationInput
      → Context L
      → W
      → List L
      → Result (Unit {0})
      → Context L
      → W
      → Type 0
  TakesOver most least c w [] r c' w' = (r ≡ throw no_active_lock) × (c' ≡ c) × (w' ≡ w)
  TakesOver most least c w (l ∷ rest) (throw e) c' w' = c' ≡ c
  TakesOver most least c w (l ∷ rest) (ok u) c' w' =
      (m : ℕ) × (n : ℕ) × (l' : L) × (parse_duration most ≡ ok m)
      × (parse_duration least ≡ ok n)
      × (extend l m n w ≡ (ok (some l'), w'))
      × (c' ≡ record c { active = some (l' ∷ rest) })

  replaced-TakesOver :
      (most least : DurationInput) (c : Context L) (w : W) (l : L) (rest : List L) (m n : ℕ)
      (q : Result (Option L) × W)
      → parse_duration most ≡ ok m
      → parse_duration least ≡ ok n
      → extend l m n w ≡ q
      → let (r, (c', w')) = replaced c rest q in TakesOver most least c w (l ∷ rest) r c' w'
  replaced-TakesOver most least c w l rest m n (ok (some l'), w') f g e = (m, n, l', f, g, e, refl)
  replaced-TakesOver most least c w l rest m n (ok none, w') f g e = refl
  replaced-TakesOver most least c w l rest m n (throw x, w') f g e = refl

  extend_first-TakesOver :
      (most least : DurationInput) (c : Context L) (w : W) (l : L) (rest : List L) (m n : Result ℕ)
      → parse_duration most ≡ m
      → parse_duration least ≡ n
      → let (r, (c', w')) = extend_first extend l rest m n (c, w) in
        TakesOver most least c w (l ∷ rest) r c' w'
  unfolding extend_first
  extend_first-TakesOver most least c w l rest (ok m) (ok n) f g =
      replaced-TakesOver most least c w l rest m n _ f g refl
  extend_first-TakesOver most least c w l rest (ok m) (throw e) f g = refl
  extend_first-TakesOver most least c w l rest (throw e) n f g = refl

  -- `LockExtender.extendActiveLock` throws and does nothing where no lock is active. Otherwise,
  -- where it returns, the first lock's extension by the two durations takes that lock's place and
  -- nothing else of the context changes; where it throws, the context is as it was. And where an
  -- extension that gives a lock gives a held one, and any other leaves the old one held, the first
  -- lock of the context is held afterwards.
  pub extend_active_lock-TakesOver :
      ((l : L) (most least : ℕ) (w : W)
        → Held l w
        → Hands l (extend l most least w).0 (extend l most least w).1)
      → (most least : DurationInput)
      → ((c : Context L) (w : W)
          → let (r, (c', w')) = extend_active_lock extend most least (c, w) in
            TakesOver most least c w (stack c.active) r c' w')
        × Minds Free Held (extend_active_lock extend most least)
  unfolding extend_active_lock
  extend_active_lock-TakesOver hands most least =
      (λ c w. takes c w, extend_active_lock-Minds hands most least)
    where
      takes :
          (c : Context L) (w : W)
          → let (r, (c', w')) = extend_active_lock extend most least (c, w) in
            TakesOver most least c w (stack c.active) r c' w'
      takes c w = elim (List-cases (stack c.active)) [
        | inl e ↦ rw (e, extend_active_lock) (refl, refl, refl)
        | inr (l, rest, e) ↦
            rw (e, extend_active_lock) (extend_first-TakesOver most least c w l rest _ _ refl refl)
      ]
