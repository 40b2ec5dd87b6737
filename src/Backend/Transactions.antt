-- ===== src/Backend/Transactions.antt =====
-- What the drivers of databases with transactions document of `runTransaction`, and what follows
-- for the accessors that run their reads and writes in one. `others` is what other instances do to
-- the database before the transaction that is committed.
use tslock.Prelude.{
  ℕ, ◌≡◌, ◌⊎◌, ◌∙◌, sym, subst, Bool, true, false, String, Option, Exec, Result, ok, throw,
  Exception, inl, inr,
}
use tslock.Core.Config.{LockConfiguration}
use tslock.Core.Contract.{Puts, Same}
use tslock.Core.Storage.Contract.{Takes, Extends, Releases}
use tslock.Backend.{Untouched}

abbrev pub RunTransaction : Type 0 → Type 1
RunTransaction W = (A : Type 0) → (W → W) → Exec W A → Exec W A

module _ {W V Ver : Type 0} (object : W → String → Option (Ver × V)) where
  -- A transaction that returns has been made, all of it, and returns what its function does; one
  -- that throws may have been made all the same, if its function did not throw.
  abbrev pub Committed : {A : Type 0} → W → Result A × W → Result A × W → Type 0
  Committed {A} b body r =
      ((a : A) × (body.0 ≡ ok a) × (r.0 ≡ ok a) × Untouched object body.1 r.1)
      ⊎ ((e : Exception) × (r.0 ≡ throw e)
          × (Untouched object b r.1 ⊎ ((a : A) × (body.0 ≡ ok a) × Untouched object body.1 r.1)))

  abbrev pub TransactionLaws : RunTransaction W → Type 1
  TransactionLaws run =
      (A : Type 0) (others : W → W) (body : Exec W A) (w : W)
      → Committed (others w) (body (others w)) (run A others body w)

-- What a call reads of the clock, in its guards and for `lockedAt`, and what others do before it
-- takes effect, which is what `Others` allows.
pub record Reading {W : Type 0} (Others : ℕ → W → W → Type 0) : Type 0 where
  pub now : ℕ
  pub locked_at : ℕ
  pub others : W → W
  pub polite : (w : W) → Others now w (others w)

module _ {W : Type 0} (view : W → String → ℕ) where
  Puts-Same :
      (b w w' : W) (name : String) (until : ℕ)
      → Same view w w'
      → Puts view b w name until
      → Puts view b w' name until
  Puts-Same b w w' name until same h k = same k ∙ h k

  -- What is said of a call's outcome: it is by what can be seen, and an error says that nothing has
  -- happened or what a return would have said.
  record Outcome {A : Type 0} (b : W) (P : W → Result A → Type 0) : Type 0 where
    seen : (w w' : W) (q : Result A) → Same view w w' → P w q → P w' q
    undone : (w : W) (e : Exception) → Same view b w → P w (throw e)
    unknown : (w : W) (a : A) (e : Exception) → P w (ok a) → P w (throw e)

  Takes-Outcome : (now : ℕ) (c : LockConfiguration) (b : W) → Outcome b (Takes view now c b)
  Takes-Outcome now c b = record { seen = moved; undone = λ w e h. inl h; unknown = lost }
    where
      moved :
          (w w' : W) (q : Result Bool)
          → Same view w w'
          → Takes view now c b w q
          → Takes view now c b w' q
      moved w w' (ok true) s h = (h.0, Puts-Same b w w' _ _ s h.1)
      moved w w' (ok false) s h = λ k. s k ∙ h k
      moved w w' (throw e) s (inl h) = inl (λ k. s k ∙ h k)
      moved w w' (throw e) s (inr h) = inr (h.0, Puts-Same b w w' _ _ s h.1)

      lost :
          (w : W) (a : Bool) (e : Exception)
          → Takes view now c b w (ok a)
          → Takes view now c b w (throw e)
      lost w true e h = inr h
      lost w false e h = inl h

  Extends-Outcome :
      (now : ℕ) (c : LockConfiguration) (p : ℕ) (b : W) → Outcome b (Extends view now c p b)
  Extends-Outcome now c p b = record { seen = moved; undone = λ w e h. inl h; unknown = lost }
    where
      moved :
          (w w' : W) (q : Result Bool)
          → Same view w w'
          → Extends view now c p b w q
          → Extends view now c p b w' q
      moved w w' (ok true) s h = (h.0, h.1, Puts-Same b w w' _ _ s h.2)
      moved w w' (ok false) s h = λ k. s k ∙ h k
      moved w w' (throw e) s (inl h) = inl (λ k. s k ∙ h k)
      moved w w' (throw e) s (inr h) = inr (h.0, h.1, Puts-Same b w w' _ _ s h.2)

      lost :
          (w : W) (a : Bool) (e : Exception)
          → Extends view now c p b w (ok a)
          → Extends view now c p b w (throw e)
      lost w true e h = inr h
      lost w false e h = inl h

  abbrev Released : LockConfiguration → W → W → Result (Unit {0}) → Type 0
  Released c b w q = Releases view c b w

  Released-Outcome : (c : LockConfiguration) (b : W) → Outcome b (Released c b)
  Released-Outcome c b = record {
    seen = λ w w' q. moved w w';
    undone = λ w e h. inl h;
    unknown = λ w a e h. h;
  }
    where
      moved : (w w' : W) → Same view w w' → Releases view c b w → Releases view c b w'
      moved w w' s (inl h) = inl (λ k. s k ∙ h k)
      moved w w' s (inr (h, (u, l, p))) = inr (h, (u, l, Puts-Same b w w' _ _ s p))

  module _ {V Ver : Type 0} (object : W → String → Option (Ver × V))
      (shown : (w w' : W) → Untouched object w w' → Same view w w') where
    committed :
        {A : Type 0} (b : W) (P : W → Result A → Type 0) (body r : Result A × W)
        → Outcome b P
        → Committed object b body r
        → P body.1 body.0
        → P r.1 r.0
    committed b P body r o (inl (a, e, f, u)) h =
        subst (P r.1) (sym f) (o.seen body.1 r.1 (ok a) (shown body.1 r.1 u) (subst (P body.1) e h))
    committed b P body r o (inr (x, f, inl u)) h =
        subst (P r.1) (sym f) (o.undone r.1 x (shown b r.1 u))
    committed b P body r o (inr (x, f, inr (a, e, u))) h =
        subst (P r.1) (sym f)
          (o.unknown r.1 a x (o.seen body.1 r.1 (ok a) (shown body.1 r.1 u) (subst (P body.1) e h)))

    pub committed-Takes :
        (now : ℕ) (c : LockConfiguration) (b : W) (body r : Result Bool × W)
        → Committed object b body r
        → Takes view now c b body.1 body.0
        → Takes view now c b r.1 r.0
    committed-Takes now c b body r = committed b (Takes view now c b) body r (Takes-Outcome now c b)

    pub committed-Extends :
        (now : ℕ) (c : LockConfiguration) (p : ℕ) (b : W) (body r : Result Bool × W)
        → Committed object b body r
        → Extends view now c p b body.1 body.0
        → Extends view now c p b r.1 r.0
    committed-Extends now c p b body r =
        committed b (Extends view now c p b) body r (Extends-Outcome now c p b)

    pub committed-Releases :
        (c : LockConfiguration) (b : W) (body r : Result (Unit {0}) × W)
        → Committed object b body r
        → Releases view c b body.1
        → Releases view c b r.1
    committed-Releases c b body r = committed b (Released c b) body r (Released-Outcome c b)
