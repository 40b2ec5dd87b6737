-- ===== src/Core/KeepAlive/Release.antt =====
-- packages/core/src/keep-alive-lock-provider.ts: nothing that settles after the release undoes it.
use tslock.Prelude.{
  ℕ, ◌≡◌, Bool, true, false, Option, none, some, ◌∷◌, ◌++◌, Result, ok, throw, arith, Exception,
  subst, sym, if◌then◌else◌,
}
use tslock.Core.KeepAlive.{
  KeepAliveLock, Inner, Renewal, begin_renewal, settle, extended_to, rejected, do_unlock,
}
use tslock.Core.KeepAlive.Steps.{System, Step, Reach, fire, settles, unlock, here, next}
use tslock.Core.KeepAlive.Invariant.{with_renewal-lock}

-- Released, with the timer stopped, and holding what it held.
pub record IsReleased (l : Inner) (lost : Bool) (k : KeepAliveLock) : Type 0 where
  pub is_released : k.released ≡ true
  pub stopped : k.active ≡ false
  pub same_lock : k.current_lock ≡ l
  pub same_lost : k.lost ≡ lost

module _ (l : Inner) (lost : Bool) where
  settle-IsReleased :
      (checked_at now : ℕ) (r : Renewal) (result : Result (Option Inner)) (k : KeepAliveLock)
      → IsReleased l lost k
      → IsReleased l lost (settle checked_at now r result k).0
  unfolding settle rejected extended_to begin_renewal
  settle-IsReleased t n r (ok none) k v = ground arith
  settle-IsReleased t n r (ok (some l')) k v = ground arith
  settle-IsReleased t n r (throw e) k v = rejected-IsReleased r.first_error
    where
      rejected-IsReleased :
          (first : Option Exception) → IsReleased l lost (rejected t n first e k).0
      rejected-IsReleased none = ground arith
      rejected-IsReleased (some first) = ground arith

  begin_renewal-IsReleased :
      (checked_at now : ℕ) (e : Option Exception) (k : KeepAliveLock)
      → IsReleased l lost k
      → begin_renewal checked_at now e k ≡ (k, none)
  unfolding begin_renewal
  begin_renewal-IsReleased t n e k v = ground arith

  Step-IsReleased : {s t : System} → Step s t → IsReleased l lost s.lock → IsReleased l lost t.lock
  unfolding do_unlock
  Step-IsReleased (fire s t n) v = rw (begin_renewal-IsReleased t n none s.lock v) v
  Step-IsReleased (settles k before r after result t n x) v =
      subst (IsReleased l lost) (sym (with_renewal-lock _ (before ++ after)))
        (settle-IsReleased t n r result k v)
  Step-IsReleased (unlock s) v = ground arith

  Reach-IsReleased :
      {s t : System} → IsReleased l lost s.lock → Reach s t → IsReleased l lost t.lock
  Reach-IsReleased v here = v
  Reach-IsReleased v (next r st) = Step-IsReleased st (Reach-IsReleased v r)

-- An unlock hands back the lock that is then current, unless that is lost, and stops the timer;
-- and whatever renewals settle or fire later, in any order, the lock stays released, holds no
-- other lock than the one handed back, and asks for no further extension.
pub release_is_final :
    (s : System) {t : System}
    → Reach (record s { lock = do_unlock s.lock }) t
    → ((do_unlock s.lock).unlocks
        ≡ (if s.lock.lost then s.lock.unlocks else s.lock.current_lock ∷ s.lock.unlocks))
      × IsReleased s.lock.current_lock s.lock.lost t.lock
      × ((checked_at now : ℕ) (e : Option Exception)
          → begin_renewal checked_at now e t.lock ≡ (t.lock, none))
unfolding do_unlock
release_is_final s r =
    let v = Reach-IsReleased s.lock.current_lock s.lock.lost start r in
    (ground arith, v, λ c n e. begin_renewal-IsReleased _ _ c n e _ v)
  where
    start : IsReleased s.lock.current_lock s.lock.lost (do_unlock s.lock)
    start = ground arith
