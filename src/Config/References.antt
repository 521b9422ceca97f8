-- ===== src/Config/References.antt =====
-- The sections of an accepted configuration: their names, and the references of the routes.
use gorp.Prelude.{
  ℕ, suc, ◌≡◌, refl, ◌≢◌, String, true, not, List, [], ◌∷◌, map, some, ◌⊎◌, inl, inr, All, All-map,
  Bool-cases, str_eq_iff, one_of, is_empty, ◌&&◌,
}
use gorp.Config.{Config, Route}
use gorp.Config.Check.{
  Library, Place, Problem, report, is_unset, root, element, member, no_backends,
  service_and_backends, unknown_listener, unknown_service,
}
use gorp.Config.Validate.{
  check_listeners, check_services, check_routes, check_route, validate, problems_of, accepted,
  verdict_of, listener_types,
}
use gorp.Config.Names.{clean-All, clean_report, clean_name, Fresh, Fresh-AreNames, AreNames, Listed}
use gorp.Config.Sections.{
  clean_not, clean_references, left_false, report-false, filled, emptied, Collected,
  listeners-Collected, services-Collected, clean_listeners, clean_services,
}

module _ (lib : Library) where
  -- What an accepted route says, for the names of the listeners and of the services.
  abbrev pub IsRoute : List String → List String → Route → Type 0
  IsRoute listeners services r =
      All (λ n. one_of n listeners ≡ true) r.endpoints
      × ((r.service ≡ "") × (r.backends ≢ [])
          ⊎ (one_of r.service services ≡ true) × (r.backends ≡ []))

  clean_pool :
      (p : Place) (services : List String) (r : Route)
      → report
          (not (is_unset r.service) && not (one_of r.service services))
          (member "service" p)
          (unknown_service r.service)
        ≡ []
      → report (not (is_unset r.service) && not (is_empty r.backends)) p service_and_backends ≡ []
      → report (is_empty r.backends && is_unset r.service) p no_backends ≡ []
      → (r.service ≡ "") × (r.backends ≢ [])
        ⊎ (one_of r.service services ≡ true) × (r.backends ≡ [])
  clean_pool p services r known one some_backend = elim (Bool-cases (is_unset r.service)) [
    | inl e ↦ inl (
      (str_eq_iff r.service "").0 e,
      filled r.backends p (
          rw
            (left_false (is_empty r.backends) (is_unset r.service)
              (clean_report (is_empty r.backends && is_unset r.service) p no_backends some_backend)
              e)
            (report-false p no_backends)),
    )
    | inr e ↦ inr (
      clean_not (one_of r.service services) (member "service" p) (unknown_service r.service)
          (rw e at known),
      emptied r.backends p (rw e at one),
    )
  ]

  clean_route :
      (p : Place) (listeners services : List String) (r : Route)
      → check_route lib p listeners services r ≡ []
      → IsRoute listeners services r
  unfolding check_route
  clean_route p listeners services r h =
      let (_, (_, (_, (endpoints, (known, (one, (pool, _))))))) = clean-All _ h in
      (
        clean_references unknown_listener (member "endpoints" p) listeners r.endpoints endpoints,
        clean_pool p services r known one pool,
      )

  clean_routes :
      (i : ℕ) (taken listeners services : List String) (rs : List Route)
      → check_routes lib i taken listeners services rs ≡ []
      → Fresh taken (map (λ r. r.name) rs) × All (IsRoute listeners services) rs
  unfolding check_routes
  clean_routes i taken listeners services [] h = (tt, tt)
  clean_routes i taken listeners services (r ∷ rs) h =
      let p = element "routes" i root in
      let (name, (route, (rest, _))) = clean-All _ h in
      let others = clean_routes (suc i) (r.name ∷ taken) listeners services rs rest in
      let (set, new) = clean_name p r.name taken name in
      ((set, new, others.0), (clean_route p listeners services r route, others.1))

  -- The references by what they lead to.
  abbrev pub Resolves : Config → Route → Type 0
  Resolves cfg r =
      All (λ n. Listed n (map (λ l. l.name) cfg.listeners)) r.endpoints
      × ((r.service ≡ "") × (r.backends ≢ [])
          ⊎ Listed r.service (map (λ x. x.name) cfg.services) × (r.backends ≡ []))

  Collected-first : (s : String) (names : List String) → Collected s names [] → Listed s names
  Collected-first s names (inl h) = h
  Collected-first s names (inr h) = cc h

  pool_resolves :
      (cfg : Config) (r : Route)
      → ((r.service ≡ "") × (r.backends ≢ [])
          ⊎ (one_of r.service (check_services lib 0 [] cfg.services).1 ≡ true) × (r.backends ≡ []))
      → ((r.service ≡ "") × (r.backends ≢ [])
          ⊎ Listed r.service (map (λ x. x.name) cfg.services) × (r.backends ≡ []))
  pool_resolves cfg r (inl h) = inl h
  pool_resolves cfg r (inr (known, e)) = inr (
    Collected-first r.service (map (λ x. x.name) cfg.services)
        (services-Collected lib 0 [] cfg.services r.service known),
    e,
  )

  route-Resolves :
      (cfg : Config) (r : Route)
      → IsRoute
          (check_listeners lib 0 [] [] cfg.listeners).1.0
          (check_services lib 0 [] cfg.services).1
          r
      → Resolves cfg r
  route-Resolves cfg r (endpoints, pool) = (
    All-map r.endpoints
        (λ n known.
          Collected-first n (map (λ l. l.name) cfg.listeners)
            (listeners-Collected lib 0 [] [] cfg.listeners n known))
        endpoints,
    pool_resolves cfg r pool,
  )

  no_problem : (ps : List Problem) → verdict_of ps ≡ accepted → ps ≡ []
  no_problem [] h = refl
  no_problem (p ∷ ps) h = cc h

  -- A configuration that Validate accepts has set and distinct names in each of its sections, no
  -- service without a backend, listeners of the supported types only, and routes each of which
  -- refers to listeners of the configuration and takes its backends from one place: its own list, or
  -- else a service of the configuration.
  pub validate-Resolves :
      (cfg : Config)
      → validate lib (some cfg) ≡ accepted
      → AreNames (map (λ l. l.name) cfg.listeners)
        × AreNames (map (λ x. x.name) cfg.services)
        × AreNames (map (λ r. r.name) cfg.routes)
        × All (λ x. x.backends ≢ []) cfg.services
        × All (λ l. one_of l.type listener_types ≡ true) cfg.listeners
        × All (Resolves cfg) cfg.routes
  unfolding validate problems_of
  validate-Resolves cfg h =
      let (listeners, (services, (routes, _))) = clean-All _ (no_problem (problems_of lib cfg) h) in
      let (l_fresh, l_types) = clean_listeners lib 0 [] [] cfg.listeners listeners in
      let (s_fresh, s_filled) = clean_services lib 0 [] cfg.services services in
      let (r_fresh, r_good) =
        clean_routes 0 [] (check_listeners lib 0 [] [] cfg.listeners).1.0
          (check_services lib 0 [] cfg.services).1 cfg.routes routes in
      (
        Fresh-AreNames [] (map (λ l. l.name) cfg.listeners) l_fresh,
        Fresh-AreNames [] (map (λ x. x.name) cfg.services) s_fresh,
        Fresh-AreNames [] (map (λ r. r.name) cfg.routes) r_fresh,
        s_filled,
        l_types,
        All-map cfg.routes (λ r. route-Resolves cfg r) r_good,
      )
