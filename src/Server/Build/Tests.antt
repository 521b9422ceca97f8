-- ===== src/Server/Build/Tests.antt =====
-- Runs of the builder, and its theorems at concrete inputs.
use gorp.Prelude.{◌≡◌, ◌≢◌, refl, true, false, [], ◌∷◌, none, some, inl, inr, pos, is_some}
use gorp.Value.{end, field, text, lookup, parse_string_or_default}
use gorp.Config.{Backend}
use gorp.Config.Check.{Library, root}
use gorp.Config.Tests.{lib, backend, config, config_accepted}
use gorp.Config.Middleware.{is_known_middleware, is_response_middleware, validate_middleware}
use gorp.Backend.{try_acquire}
use gorp.Backend as B
use gorp.Transport.{new_transport}
use gorp.Selector.Factory.{Env}
use gorp.Server.Build.{
  Built, no_backends, unknown_middleware, build_backend, transport_config, timeout_or,
  parse_duration_or_default,
}
use gorp.Server.Build.Middlewares.{
  add_prefix, cors, adds, rate_limit_simple, Compilers, cases, response_cases, case_of, build_case,
  route_step, build_middleware_for_route,
}
use gorp.Server.Build.Cases.{is_known_middleware-case_of}
use gorp.Server.Build.Counts.{limiter, limiter-validate-route_step}
use gorp.Server.Build.Pools.{build_backend-unlimited}
use gorp.Server.Build.Routes.{build_routes}
use gorp.Server.Build.Backed.{build_routes-backed}

abbrev compilers : Compilers
compilers = record {
  request_code = λ s. true;
  response_code = λ s. true;
  document = λ s. true;
  issuer_keys = λ s. none;
}

abbrev env : Env
env = record {
  now = 0;
  rand = λ k n. 0;
  sum32 = λ s. 0;
  itoa = λ n. "";
  atoi = λ s. none;
  cookie = λ s r. none;
  header = λ s r. "";
  query = λ s r. "";
  split_host = λ s. none;
  to_lower = λ s. s;
}

build_routes-backed_example :
    build_routes lib compilers env (λ s. some s) (λ c. true) (λ s. none) config ≢ inl no_backends
build_routes-backed_example =
    build_routes-backed lib compilers env (λ s. some s) (λ c. true) (λ s. none) config
      config_accepted

-- max_requests: 5 and window: 1m in a JSON file, where every duration is read as a minute
abbrev minutes : Library
minutes = record lib { parse_duration = λ s. some (pos 60000000000) }

limiter-validate-route_step_example :
    (validate_middleware minutes root (limiter 4 "1m") false ≡ [])
    × (route_step minutes compilers (limiter 4 "1m")
        ≡ adds (rate_limit_simple (pos 100) (pos 60000000000)))
limiter-validate-route_step_example =
    limiter-validate-route_step minutes 4 59999999999 "1m" refl refl refl compilers root false

-- A limit of one, for a backend that serves five requests.
abbrev one_at_a_time : Backend
one_at_a_time = record backend { max_connections = pos 1 }

abbrev built : Built
built = record {
  backend = record {
    name = "b";
    url_host = some "http://local";
    max_connections = pos 0;
    health_check_path = "";
    active = 0;
    healthy = true;
    retry_after = 0;
    failure_count = 0;
    breaker = B.closed;
  };
  transport = record {
    dial_timeout = pos 30000000000;
    response_header_timeout = pos 30000000000;
    idle_conn_timeout = pos 90000000000;
    disable_compression = true;
    proxy = none;
    auth = none;
    retry = some (pos 2, pos 100000000);
  };
  health = none;
}

build_backend-unlimited_example :
    try_acquire (record (built.backend) { active = 5 })
    ≡ (record (built.backend) { active = 5 }, true)
unfolding build_backend new_transport transport_config timeout_or parse_duration_or_default B.new
    B.start_health
build_backend-unlimited_example =
    build_backend-unlimited (λ s. none) (λ s. some s) (λ c. true) (λ s. none) one_at_a_time built 5
      refl

is_known_middleware-case_of_example :
    (is_known_middleware lib "cors" ≡ is_some (case_of "cors" cases))
    × (is_response_middleware lib "cors" ≡ is_some (case_of "cors" response_cases))
is_known_middleware-case_of_example = is_known_middleware-case_of lib "cors"

-- A middleware with an empty prefix is left out, and an unknown one is refused.
route_middlewares :
    build_middleware_for_route lib compilers (
      record { name = "cors"; config = end }
      ∷ record { name = "add_prefix"; config = field "prefix" (text "") end }
      ∷ record { name = "add_prefix"; config = field "prefix" (text "/api") end }
      ∷ [])
    ≡ inr (cors ∷ add_prefix "/api" ∷ [])
unfolding build_middleware_for_route route_step case_of build_case parse_string_or_default lookup
route_middlewares = refl

unknown_refused :
    build_middleware_for_route lib compilers (record { name = "gzip"; config = end } ∷ [])
    ≡ inl unknown_middleware
unfolding build_middleware_for_route route_step case_of
unknown_refused = refl
