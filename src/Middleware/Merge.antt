-- ===== src/Middleware/Merge.antt =====
-- The caches of packages/middleware-core/src/middleware-config.ts.
use tslock.Prelude.{
  ℕ, ◌≡◌, refl, sym, ap, subst, ◌∙◌, ◌⊎◌, true, Option, none, some, Result, ok, throw, continue,
  and_then, eqb, Bool-cases, Option-cases, inl, inr, arith,
}
use tslock.Middleware
use tslock.Middleware.{
  Caches, MiddlewareConfig, RouteLockConfig, Route, ResolvedRouteConfig, ResolvedDurations,
  parse_durations, resolved_durations, own_route, global_route, merge_route_config, cached_route,
  cache_route, cache_durations, resolve_middleware_config, with_defaults, MiddlewareOptions,
}

eqb-eq : (m n : ℕ) → eqb m n ≡ true → m ≡ n
eqb-eq m n e = ground arith

some-injective : {A : Type 0} (a x : A) → some a ≡ some x → a ≡ x
some-injective a x e = cc

set_at_cases :
    {A : Type 0} (m : ℕ → Option A) (id other : ℕ) (a x : A)
    → Middleware.set_at m id a other ≡ some x
    → ((id ≡ other) × (a ≡ x)) ⊎ (m other ≡ some x)
set_at_cases m id other a x h = elim (Bool-cases (eqb id other)) [
  | inl y ↦ let h' = rw y at h in inl (eqb-eq id other y, some-injective a x h')
  | inr n ↦ inr (rw n at h)
]

set_at-true :
    {A : Type 0} (P : ℕ → A → Type 0) (m : ℕ → Option A) (id : ℕ) (a : A)
    → P id a
    → ((other : ℕ) (x : A) → m other ≡ some x → P other x)
    → (other : ℕ) (x : A) → Middleware.set_at m id a other ≡ some x
    → P other x
set_at-true P m id a p h other x e = elim (set_at_cases m id other a x e) [
  | inl (i, j) ↦ subst (λ n. P n x) i (subst (P id) j p)
  | inr f ↦ h other x f
]

module _ {J : Type 0} where
  -- What a configuration comes to with no caches.
  pub reference : MiddlewareConfig J → Option (RouteLockConfig J) → Result (ResolvedRouteConfig J)
  reference global none = and_then (parse_durations global) λ d. ok (global_route global d)
  reference global (some route) = and_then (parse_durations global) (own_route global route)

  -- The caches hold what the objects come to, where `a_global` and `a_route` are what the objects
  -- that are known by a number hold.
  module _ (a_global : ℕ → MiddlewareConfig J) (a_route : ℕ → RouteLockConfig J) where
    pub record AreTrue (caches : Caches J) : Type 0 where
      pub durations :
          (id : ℕ) (d : ResolvedDurations)
          → caches.durations id ≡ some d
          → parse_durations (a_global id) ≡ ok d
      pub globals :
          (id : ℕ) (r : ResolvedRouteConfig J)
          → caches.globals id ≡ some r
          → reference (a_global id) none ≡ ok r
      pub routes :
          (id route : ℕ) (r : ResolvedRouteConfig J)
          → caches.routes id route ≡ some r
          → reference (a_global id) (some (a_route route)) ≡ ok r

    durations-AreTrue :
        (id : ℕ) (d : ResolvedDurations) (caches : Caches J)
        → parse_durations (a_global id) ≡ ok d
        → AreTrue caches
        → AreTrue (cache_durations id d caches)
    durations-AreTrue id d caches e t = record {
      durations =
          set_at-true (λ n x. parse_durations (a_global n) ≡ ok x) caches.durations id d e
            t.durations;
      globals = t.globals;
      routes = t.routes;
    }

    globals-AreTrue :
        (id : ℕ) (r : ResolvedRouteConfig J) (caches : Caches J)
        → reference (a_global id) none ≡ ok r
        → AreTrue caches
        → AreTrue (record caches { globals = Middleware.set_at caches.globals id r })
    globals-AreTrue id r caches e t = record {
      durations = t.durations;
      globals =
          set_at-true (λ n x. reference (a_global n) none ≡ ok x) caches.globals id r e t.globals;
      routes = t.routes;
    }

    routes-AreTrue :
        (id : ℕ) (route : Route J) (r : ResolvedRouteConfig J) (caches : Caches J)
        → (route.frozen ≡ true → route.config ≡ a_route route.id)
        → reference (a_global id) (some route.config) ≡ ok r
        → AreTrue caches
        → AreTrue (cache_route id route r caches)
    routes-AreTrue id route r caches same e t = elim (Bool-cases route.frozen) [
      | inr n ↦ rw n t
      | inl y ↦ rw y (record {
        durations = t.durations;
        globals = t.globals;
        routes = λ other. elim (Bool-cases (eqb id other)) [
          | inr n ↦ rw n (t.routes other)
          | inl e' ↦ rw e' (
              subst
                (λ o.
                  (n : ℕ) (x : ResolvedRouteConfig J)
                  → Middleware.set_at (caches.routes id) route.id r n ≡ some x
                  → reference (a_global o) (some (a_route n)) ≡ ok x)
                (eqb-eq id other e')
                (set_at-true (λ n x. reference (a_global id) (some (a_route n)) ≡ ok x)
                  (caches.routes id) route.id r
                  (subst (λ c. reference (a_global id) (some c) ≡ ok r) (same y) e) (t.routes id)))
        ];
      })
    ]

    -- What a step through the caches keeps.
    abbrev Right : {A : Type 0} → Result A → Result A × Caches J → Type 0
    Right expected r = (r.0 ≡ expected) × AreTrue r.1

    parsed-Right :
        (id : ℕ) (caches : Caches J) (q : Result ResolvedDurations)
        → parse_durations (a_global id) ≡ q
        → AreTrue caches
        → Right q (continue q (λ d caches. (ok d, cache_durations id d caches)) caches)
    parsed-Right id caches (ok d) e t = (refl, durations-AreTrue id d caches e t)
    parsed-Right id caches (throw x) e t = (refl, t)

    resolved_durations-Right :
        (id : ℕ) (caches : Caches J)
        → AreTrue caches
        → Right (parse_durations (a_global id)) (resolved_durations id (a_global id) caches)
    unfolding resolved_durations
    resolved_durations-Right id caches t = elim (Option-cases (caches.durations id)) [
      | inr (d, at) ↦ rw at (sym (t.durations id d at), t)
      | inl at ↦ rw at (parsed-Right id caches (parse_durations (a_global id)) refl t)
    ]

    global-Right :
        (id : ℕ) (q : Result ResolvedDurations) (caches : Caches J)
        → parse_durations (a_global id) ≡ q
        → AreTrue caches
        → Right (reference (a_global id) none) (
            continue q
              (λ d caches. (
                ok (global_route (a_global id) d),
                record caches {
                  globals = Middleware.set_at caches.globals id (global_route (a_global id) d);
                },
              ))
              caches)
    unfolding reference
    global-Right id (ok d) caches e t = (
      ap (λ x. and_then x λ d. ok (global_route (a_global id) d)) (sym e),
      globals-AreTrue id _ caches (ap (λ x. and_then x λ d. ok (global_route (a_global id) d)) e) t,
    )
    global-Right id (throw x) caches e t =
        (ap (λ x. and_then x λ d. ok (global_route (a_global id) d)) (sym e), t)

    own-Right :
        (id : ℕ) (route : Route J) (q : Result (ResolvedRouteConfig J)) (caches : Caches J)
        → (route.frozen ≡ true → route.config ≡ a_route route.id)
        → reference (a_global id) (some route.config) ≡ q
        → AreTrue caches
        → Right q (continue q (λ r caches. (ok r, cache_route id route r caches)) caches)
    own-Right id route (ok r) caches same e t = (refl, routes-AreTrue id route r caches same e t)
    own-Right id route (throw x) caches same e t = (refl, t)

    after-Right :
        (id : ℕ) (route : Route J) (q : Result ResolvedDurations) (caches : Caches J)
        → (route.frozen ≡ true → route.config ≡ a_route route.id)
        → parse_durations (a_global id) ≡ q
        → AreTrue caches
        → Right (reference (a_global id) (some route.config)) (
            continue q
              (λ d.
                continue
                  (own_route (a_global id) route.config d)
                  λ r caches. (ok r, cache_route id route r caches))
              caches)
    unfolding reference
    after-Right id route (ok d) caches same e t =
        let by_own = ap (λ x. and_then x (own_route (a_global id) route.config)) e in
        let (r, kept) =
          own-Right id route (own_route (a_global id) route.config d) caches same by_own t in
        (r ∙ sym by_own, kept)
    after-Right id route (throw x) caches same e t =
        (sym (ap (λ y. and_then y (own_route (a_global id) route.config)) e), t)

    abbrev config_of : Option (Route J) → Option (RouteLockConfig J)
    config_of none = none
    config_of (some route) = some route.config

    -- A route that is frozen still holds what it held when it was made.
    abbrev StaysFrozen : Option (Route J) → Type 0
    StaysFrozen none = Unit {0}
    StaysFrozen (some route) = route.frozen ≡ true → route.config ≡ a_route route.id

    -- Where what the caches hold is right and a frozen route has not changed, a merge gives what
    -- the configuration and the route come to with no caches, whether that is a result or an
    -- error, and what the caches hold is right again.
    pub merge_route_config-reference :
        (id : ℕ) (route : Option (Route J)) (caches : Caches J)
        → StaysFrozen route
        → AreTrue caches
        → let (r, caches') = merge_route_config id (a_global id) route caches in
          (r ≡ reference (a_global id) (config_of route)) × AreTrue caches'
    unfolding merge_route_config
    merge_route_config-reference id none caches same t = elim (Option-cases (caches.globals id)) [
      | inr (r, at) ↦ rw at (sym (t.globals id r at), t)
      | inl at ↦
          let (e, kept) = resolved_durations-Right id caches t in
          rw at (global-Right id _ _ (sym e) kept)
    ]
    merge_route_config-reference id (some route) caches same t =
        elim (Option-cases (cached_route id route caches)) [
          | inr (r, at) ↦ rw at (sym (found r at), t)
          | inl at ↦
              let (e, kept) = resolved_durations-Right id caches t in
              rw at (after-Right id route _ _ same (sym e) kept)
        ]
      where
        found :
            (r : ResolvedRouteConfig J)
            → cached_route id route caches ≡ some r
            → reference (a_global id) (some route.config) ≡ ok r
        found r at = elim (Bool-cases route.frozen) [
          | inl y ↦
              subst (λ c. reference (a_global id) (some c) ≡ ok r) (sym (same y))
                (t.routes id route.id r (rw y at at))
          | inr n ↦ cc (rw n at at)
        ]

    -- A configuration that was resolved has its durations at hand, and a fresh one makes no cached
    -- one wrong.
    pub resolve_middleware_config-AreTrue :
        (upper : Middleware.String → Middleware.String) (id : ℕ) (input : MiddlewareOptions J)
        (caches : Caches J)
        → a_global id ≡ with_defaults upper input
        → AreTrue caches
        → AreTrue (resolve_middleware_config upper id input caches).1
    unfolding resolve_middleware_config
    resolve_middleware_config-AreTrue upper id input caches e t =
        from (parse_durations (with_defaults upper input)) refl
      where
        from :
            (q : Result ResolvedDurations)
            → parse_durations (with_defaults upper input) ≡ q
            → AreTrue
                (continue q
                  (λ d caches. (ok (with_defaults upper input), cache_durations id d caches))
                  caches).1
        from (ok d) f = durations-AreTrue id d caches (ap parse_durations e ∙ f) t
        from (throw x) f = t
