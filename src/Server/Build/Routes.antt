-- ===== src/Server/Build/Routes.antt =====
-- builder.go of pkg/server: buildRoutesWithHealthChecks and Build. A configuration that is nil is
-- refused by Validate before.
use gorp.Prelude.{
  ℕ, suc, String, Bool, List, [], ◌∷◌, Option, ◌⊎◌, inl, inr, if◌then◌else◌, is_some, map,
}
use gorp.Config.{Config}
use gorp.Config as C
use gorp.Config.Check as Check
use gorp.Selector.Factory.{Env, Selector}
use gorp.Selector.Factory as Factory
use gorp.Transport.{TransportConfig, ProxyUrl}
use gorp.Server.Build.{
  Refusal, no_backends, Built, build_backends, services_by_name, backends_config,
}
use gorp.Server.Build.Middlewares.{
  Builtin, Modifier, affinity, Compilers, build_middleware_for_route, build_middleware_for_response,
}

-- What a backend does to its responses: the header of its index, or a modifier.
pub data ModifyResponse : Type 0 where
  set_backend_affinity : String → ℕ → ModifyResponse
  modifies : Modifier → ModifyResponse

abbrev pub for_backend : ℕ → Modifier → ModifyResponse
for_backend i (affinity header) = set_backend_affinity header i
for_backend i m = modifies m

pub record BuiltRoute : Type 0 where
  pub name : String
  pub prefix : String
  pub strip_prefix : Bool
  pub hosts : List String
  pub paths : List String
  pub endpoints : List String
  pub selector : Selector
  pub middleware : List Builtin
  -- of each backend
  pub modify_response : List (List ModifyResponse)
  pub backends : List Built

unfoldable pub modify_responses : ℕ → List Modifier → List Built → List (List ModifyResponse)
modify_responses i ms [] = []
modify_responses i ms (b ∷ bs) = map (for_backend i) ms ∷ modify_responses (suc i) ms bs

unfoldable pub health_checked : List Built → List Built
health_checked [] = []
health_checked (b ∷ bs) =
    let rest = health_checked bs in if is_some b.health then b ∷ rest else rest

module _ (lib : Check.Library) (compilers : Compilers) (env : Env)
    (parse_host : String → Option String) (tls_config : TransportConfig → Bool)
    (parse_proxy : String → Option ProxyUrl) where
  abbrev pub with_middleware :
      C.Route → List Modifier → List Built → Refusal ⊎ List Builtin → Refusal ⊎ BuiltRoute
  with_middleware r ms bs (inl e) = inl e
  with_middleware r ms bs (inr middleware) = inr record {
    name = r.name;
    prefix = r.prefix;
    strip_prefix = r.strip_prefix;
    hosts = r.hosts;
    paths = r.paths;
    endpoints = r.endpoints;
    selector = Factory.new env r.selector.type r.selector.config (map (λ b. b.backend) bs);
    middleware = middleware;
    modify_response = modify_responses 0 ms bs;
    backends = bs;
  }

  abbrev pub with_backends : C.Route → List Modifier → Refusal ⊎ List Built → Refusal ⊎ BuiltRoute
  with_backends r ms (inl e) = inl e
  with_backends r ms (inr bs) =
      with_middleware r ms bs (build_middleware_for_route lib compilers r.middlewares)

  abbrev pub with_modifiers :
      C.Route → List C.Backend → Refusal ⊎ List Modifier → Refusal ⊎ BuiltRoute
  with_modifiers r bs (inl e) = inl e
  with_modifiers r [] (inr ms) = inl no_backends
  with_modifiers r (b ∷ bs) (inr ms) =
      with_backends r ms
        (build_backends lib.parse_duration parse_host tls_config parse_proxy (b ∷ bs))

  unfoldable pub build_route : List (String × List C.Backend) → C.Route → Refusal ⊎ BuiltRoute
  build_route known r =
      with_modifiers r (backends_config known r)
        (build_middleware_for_response lib compilers r.middlewares)

  abbrev pub and_route :
      Refusal ⊎ BuiltRoute → Refusal ⊎ List BuiltRoute → Refusal ⊎ List BuiltRoute
  and_route (inl e) rest = inl e
  and_route (inr r) (inl e) = inl e
  and_route (inr r) (inr rs) = inr (r ∷ rs)

  unfoldable pub build_routes_from :
      List (String × List C.Backend) → List C.Route → Refusal ⊎ List BuiltRoute
  build_routes_from known [] = inr []
  build_routes_from known (r ∷ rs) = and_route (build_route known r) (build_routes_from known rs)

  unfoldable pub build_routes : Config → Refusal ⊎ List BuiltRoute
  build_routes cfg = build_routes_from (services_by_name [] cfg.services) cfg.routes
