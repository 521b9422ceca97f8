-- ===== src/Server/Build/Backed.antt =====
-- Build never fails on an accepted configuration for want of backends.
use gorp.Prelude.{
  ◌≡◌, ◌≢◌, refl, sym, ap, ◌∙◌, String, Bool, List, [], ◌∷◌, Option, none, some, ◌⊎◌, inl, inr, All,
}
use gorp.Config.{Config, MiddlewareConfig}
use gorp.Config as C
use gorp.Config.Check as Check
use gorp.Config.Validate.{validate, accepted}
use gorp.Selector.Factory.{Env}
use gorp.Transport.{TransportConfig, Transport, ProxyUrl, new_transport}
use gorp.Server.Build.{
  Refusal, no_backends, Built, with_transport, build_backend, and_backend, build_backends,
  transport_config, services_by_name, backends_config,
}
use gorp.Server.Build.Middlewares.{Builtin, Modifier, Compilers, build_middleware_for_route}
use gorp.Server.Build.Pools.{backends_config-filled}
use gorp.Server.Build.Routes.{
  BuiltRoute, with_backends, with_modifiers, build_route, and_route, build_routes_from,
  build_routes,
}
use gorp.Server.Build.Refusals.{
  want_of, Fine, build_middleware_for_route-Fine, build_middleware_for_response-Fine,
}

module _ (lib : Check.Library) (compilers : Compilers) (env : Env)
    (parse_host : String → Option String) (tls_config : TransportConfig → Bool)
    (parse_proxy : String → Option ProxyUrl) where
  with_transport-Fine :
      (b : C.Backend) (t : gorp.Transport.Failure ⊎ Transport) (o : Option String)
      → parse_host b.url ≡ o
      → Fine (with_transport lib.parse_duration parse_host tls_config parse_proxy b t)
  with_transport-Fine b (inl e) o at = refl
  with_transport-Fine b (inr t) none at = rw at refl
  with_transport-Fine b (inr t) (some host) at = rw at tt

  and_backend-Fine :
      (b : Refusal ⊎ Built) (rest : Refusal ⊎ List Built)
      → Fine b
      → Fine rest
      → Fine (and_backend lib.parse_duration parse_host tls_config parse_proxy b rest)
  and_backend-Fine (inl e) rest h k = h
  and_backend-Fine (inr b) (inl e) h k = k
  and_backend-Fine (inr b) (inr bs) h k = tt

  build_backends-Fine :
      (bs : List C.Backend)
      → Fine (build_backends lib.parse_duration parse_host tls_config parse_proxy bs)
  unfolding build_backends build_backend
  build_backends-Fine [] = tt
  build_backends-Fine (b ∷ bs) =
      and_backend-Fine _ _
        (with_transport-Fine b
          (new_transport tls_config parse_proxy (transport_config lib.parse_duration b))
          (parse_host b.url) refl)
        (build_backends-Fine bs)

  with_backends-Fine :
      (r : C.Route) (ms : List Modifier) (o : Refusal ⊎ List Built) (m : Refusal ⊎ List Builtin)
      → build_middleware_for_route lib compilers r.middlewares ≡ m
      → Fine m
      → Fine o
      → Fine (with_backends lib compilers env parse_host tls_config parse_proxy r ms o)
  with_backends-Fine r ms (inl e) m at h k = k
  with_backends-Fine r ms (inr bs) (inl e) at h k = rw at h
  with_backends-Fine r ms (inr bs) (inr middleware) at h k = rw at tt

  with_modifiers-Fine :
      (r : C.Route) (bs : List C.Backend) (o : Refusal ⊎ List Modifier)
      → bs ≢ []
      → Fine o
      → Fine (with_modifiers lib compilers env parse_host tls_config parse_proxy r bs o)
  with_modifiers-Fine r bs (inl e) filled h = h
  with_modifiers-Fine r [] (inr ms) filled h = absurd (filled refl)
  with_modifiers-Fine r (b ∷ bs) (inr ms) filled h =
      with_backends-Fine r ms _ _ refl (build_middleware_for_route-Fine lib compilers r.middlewares)
        (build_backends-Fine (b ∷ bs))

  and_route-Fine :
      (r : Refusal ⊎ BuiltRoute) (rest : Refusal ⊎ List BuiltRoute)
      → Fine r
      → Fine rest
      → Fine (and_route lib compilers env parse_host tls_config parse_proxy r rest)
  and_route-Fine (inl e) rest h k = h
  and_route-Fine (inr r) (inl e) h k = k
  and_route-Fine (inr r) (inr rs) h k = tt

  build_routes_from-Fine :
      (known : List (String × List C.Backend)) (rs : List C.Route)
      → All (λ r. backends_config known r ≢ []) rs
      → Fine (build_routes_from lib compilers env parse_host tls_config parse_proxy known rs)
  unfolding build_routes_from build_route
  build_routes_from-Fine known [] all = tt
  build_routes_from-Fine known (r ∷ rs) (filled, all) =
      and_route-Fine _ _
        (with_modifiers-Fine r (backends_config known r) _ filled
          (build_middleware_for_response-Fine lib compilers r.middlewares))
        (build_routes_from-Fine known rs all)

  not_for_want : (o : Refusal ⊎ List BuiltRoute) → Fine o → o ≢ inl no_backends
  not_for_want (inl e) h = λ same. absurd (cc (sym h ∙ ap want_of same))
  not_for_want (inr rs) h = λ same. absurd (cc same)

  -- Where Validate accepts the configuration, the build of the routes does not fail with the error that a
  -- route has no backends and its service is not found.
  pub build_routes-backed :
      (cfg : Config)
      → validate lib (some cfg) ≡ accepted
      → build_routes lib compilers env parse_host tls_config parse_proxy cfg ≢ inl no_backends
  unfolding build_routes
  build_routes-backed cfg valid = not_for_want _ (
      build_routes_from-Fine (services_by_name [] cfg.services) cfg.routes
        (backends_config-filled lib cfg valid))
