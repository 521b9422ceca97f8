-- ===== src/Server/Build/Pools.antt =====
-- The backends that Build makes: every route of an accepted configuration has some, and none of them has
-- a limit on its connections.
use mathlib.Core.Option.{some_inj}
use gorp.Prelude.{
  ℕ, ◌≡◌, ◌≢◌, refl, sym, ap, ◌∙◌, String, Bool, true, false, List, [], ◌∷◌, Option, none, some,
  ◌⊎◌, inl, inr, ℤ, pos, leb_ℤ, is_empty, str_eq, str_eq_iff, Bool-cases, Option-cases, value_of,
  assign, value_of-assign, All, All-map, map, All-assign, All-value_of, All-get_elem?, is_some,
  get_elem?, zero, suc, value_of-assign_other,
}
use gorp.Config.{Service, Config}
use gorp.Config as C
use gorp.Config.Check as Check
use gorp.Config.Names.{AreNames, Listed}
use gorp.Config.References.{validate-Resolves}
use gorp.Config.Validate.{validate, accepted}
use gorp.Backend.{try_acquire}
use gorp.Backend as B
use gorp.Transport.{TransportConfig, Transport, ProxyUrl, new_transport}
use gorp.Server.Build.{
  Built, Refusal, with_host, with_transport, build_backend, health_path, transport_config,
  services_by_name, backends_config,
}

limit_of : Refusal ⊎ Built → ℤ
limit_of (inl e) = pos 0
limit_of (inr built) = built.backend.max_connections

unlimited_lem : (b : B.Backend) → b.max_connections ≡ pos 0 → try_acquire b ≡ (b, true)
unfolding try_acquire
unlimited_lem b e =
    let free : leb_ℤ b.max_connections (pos 0) ≡ true = ap (λ x. leb_ℤ x (pos 0)) e in rw free refl

started-max_connections :
    (path : Option String) (b : B.Backend)
    → (B.start_health path b).max_connections ≡ b.max_connections
unfolding B.start_health
started-max_connections none b = refl
started-max_connections (some path) b = refl

module _ (parse_duration : String → Option ℤ) (parse_host : String → Option String)
    (tls_config : TransportConfig → Bool) (parse_proxy : String → Option ProxyUrl) where
  with_host-unlimited :
      (b : C.Backend) (t : Transport) (o : Option String) (built : Built)
      → with_host parse_duration parse_host tls_config parse_proxy b t o ≡ inr built
      → built.backend.max_connections ≡ pos 0
  unfolding B.new limit_of
  with_host-unlimited b t none built h = absurd (cc h)
  with_host-unlimited b t (some host) built h =
      ap limit_of (sym h)
      ∙ started-max_connections (health_path b.health_check) (B.new b.name (some host))

  with_transport-unlimited :
      (b : C.Backend) (t : gorp.Transport.Failure ⊎ Transport) (built : Built)
      → with_transport parse_duration parse_host tls_config parse_proxy b t ≡ inr built
      → built.backend.max_connections ≡ pos 0
  with_transport-unlimited b (inl e) built h = absurd (cc h)
  with_transport-unlimited b (inr t) built h = with_host-unlimited b t (parse_host b.url) built h

  -- Whatever max_connections a backend is configured with, the backend that is built of it has no limit:
  -- TryAcquire grants every request, however many it serves already.
  pub build_backend-unlimited :
      (b : C.Backend) (built : Built) (active : ℕ)
      → build_backend parse_duration parse_host tls_config parse_proxy b ≡ inr built
      → try_acquire (record built.backend { active = active })
        ≡ (record built.backend { active = active }, true)
  unfolding build_backend
  build_backend-unlimited b built active h =
      unlimited_lem (record built.backend { active = active })
        (with_transport-unlimited b
          (new_transport tls_config parse_proxy (transport_config parse_duration b)) built h)

Has : String → List (String × List C.Backend) → Type 0
Has k m = is_some (value_of k m) ≡ true

Has-assign :
    (k j : String) (bs : List C.Backend) (m : List (String × List C.Backend))
    → Has k m
    → Has k (assign j bs m)
unfolding Has
Has-assign k j bs m h = elim (Bool-cases (str_eq j k)) [
  | inl same ↦
      ap is_some
        (ap (λ i. value_of k (assign i bs m)) ((str_eq_iff j k).0 same) ∙ value_of-assign k bs m)
  | inr other ↦ ap is_some (value_of-assign_other k j bs m other) ∙ h
]

Has-services_by_name :
    (k : String) (m : List (String × List C.Backend)) (ss : List Service)
    → Has k m
    → Has k (services_by_name m ss)
unfolding services_by_name
Has-services_by_name k m [] h = h
Has-services_by_name k m (s ∷ ss) h =
    Has-services_by_name k (assign s.name s.backends m) ss (Has-assign k s.name s.backends m h)

listed-Has :
    (k : String) (m : List (String × List C.Backend)) (ss : List Service) (i : ℕ)
    → get_elem? (map (λ s. s.name) ss) i ≡ some k
    → Has k (services_by_name m ss)
unfolding services_by_name Has
listed-Has k m [] i h = cc h
listed-Has k m (s ∷ ss) zero h =
    let same : s.name ≡ k = some_inj.0 h in
    Has-services_by_name k (assign s.name s.backends m) ss (
      ap is_some
        (ap (λ n. value_of k (assign n s.backends m)) same ∙ value_of-assign k s.backends m))
listed-Has k m (s ∷ ss) (suc i) h = listed-Has k (assign s.name s.backends m) ss i h

listed-some :
    (k : String) (ss : List Service) (i : ℕ)
    → get_elem? (map (λ s. s.name) ss) i ≡ some k
    → is_some (value_of k (services_by_name [] ss)) ≡ true
unfolding Has
listed-some k ss i at = listed-Has k [] ss i at

filled_services :
    (m : List (String × List C.Backend)) (ss : List Service)
    → All (λ x. x.1 ≢ []) m
    → All (λ s. s.backends ≢ []) ss
    → All (λ x. x.1 ≢ []) (services_by_name m ss)
unfolding services_by_name
filled_services m [] all filled = all
filled_services m (s ∷ ss) all (first, filled) =
    filled_services (assign s.name s.backends m) ss (All-assign _ s.name s.backends m first all)
      filled

filled_own :
    (r : C.Route) (known : List (String × List C.Backend)) (bs : List C.Backend)
    → r.backends ≡ bs
    → bs ≢ []
    → backends_config known r ≢ []
unfolding backends_config
filled_own r known [] e filled = absurd (filled refl)
filled_own r known (b ∷ bs) e filled =
    let some_own : is_empty r.backends ≡ false = ap is_empty e in
    let own : backends_config known r ≡ r.backends = rw some_own refl in
    λ none_left. absurd (filled (sym e ∙ sym own ∙ none_left))

filled_service :
    (r : C.Route) (known : List (String × List C.Backend)) (bs : List C.Backend)
    → r.backends ≡ []
    → str_eq r.service "" ≡ false
    → value_of r.service known ≡ some bs
    → bs ≢ []
    → backends_config known r ≢ []
unfolding backends_config
filled_service r known bs e set found filled =
    let no_own : is_empty r.backends ≡ true = ap is_empty e in
    let pool : backends_config known r ≡ bs = rw (no_own, set, found) refl in
    λ none_left. absurd (filled (sym pool ∙ none_left))

filled_route :
    (cfg : Config) (r : C.Route)
    → AreNames (map (λ x. x.name) cfg.services)
    → All (λ x. x.backends ≢ []) cfg.services
    → ((r.service ≡ "") × (r.backends ≢ [])
        ⊎ Listed r.service (map (λ x. x.name) cfg.services) × (r.backends ≡ []))
    → backends_config (services_by_name [] cfg.services) r ≢ []
filled_route cfg r names filled (inl (unset, own)) = filled_own r _ r.backends refl own
filled_route cfg r names filled (inr ((i, at), e)) =
    let known = services_by_name [] cfg.services in
    let set_name : r.service ≢ "" =
      All-get_elem? (λ n. n ≢ "") (map (λ x. x.name) cfg.services) i r.service names.0 at in
    elim (Option-cases (value_of r.service known)) [
      | inl missing ↦
          absurd (cc (sym (listed-some r.service cfg.services i at) ∙ ap is_some missing))
      | inr (bs, found) ↦ elim (Bool-cases (str_eq r.service "")) [
        | inl unset ↦ absurd (set_name ((str_eq_iff r.service "").0 unset))
        | inr set ↦ filled_service r known bs e set found (
            All-value_of (λ x. x.1 ≢ []) r.service bs known found
              (filled_services [] cfg.services tt filled))
      ]
    ]

-- Where Validate accepts the configuration, every route gets at least one backend, its own or those of
-- the service that it names, so that Build never fails on a route without backends.
pub backends_config-filled :
    (lib : Check.Library) (cfg : Config)
    → validate lib (some cfg) ≡ accepted
    → All (λ r. backends_config (services_by_name [] cfg.services) r ≢ []) cfg.routes
backends_config-filled lib cfg valid =
    let (listeners, services, routes, filled, types, good) = validate-Resolves lib cfg valid in
    All-map cfg.routes (λ r (endpoints, pool). filled_route cfg r services filled pool) good
