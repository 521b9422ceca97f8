-- ===== src/Config/Tests.antt =====
-- Runs of Validate, and its theorems at concrete inputs.
use gorp.Config.Sorting.{insertion_sort}
use gorp.Prelude.{
  leb_ℤ, ◌≡◌, ◌≢◌, refl, String, true, false, List, [], ◌∷◌, map, Option, none, some, pos, All,
  one_of, has_prefix,
}
use gorp.Value.{end}
use gorp.Config.{Config, TlsConfig, Backend, Listener, Service, Route}
use gorp.Config.Usable.{IsDuration, schemes, validate_backend-IsUsable}
use gorp.Config.Check.{
  Url, incomplete, Library, root, report, all_of, validate_duration, validate_patterns,
  validate_tls, validate_backend_url, validate_backend_proxy, validate_auth, validate_health_check,
  validate_backend, validate_proxy,
}
use gorp.Config.Key.{cut_bar, split_key}
use gorp.Config.Address.{
  listener_network, holders, hold, clashes, conflicting, hosts_conflict, validate_network_address,
  claim_address,
}
use gorp.Config.Validate.{
  validate, problems_of, check_listeners, check_services, check_routes, check_admin, check_route,
  check_listener, check_address, check_name, check_references, check_backends, check_middlewares,
  check_selector_fields, check_tcp_route, over, accepted, listener_types,
}
use gorp.Config.Names.{AreNames}
use gorp.Config.Load.{len, longer}
use gorp.Config.References.{Resolves, validate-Resolves}

-- Every address is local:80, every URL http://local, and every pattern is one.
abbrev pub lib : Library
lib = record {
  to_lower = λ s. s;
  to_upper = λ s. s;
  replace_all = λ s old new. s;
  contains = λ s part. false;
  parse_url = λ s. some (record { scheme = "http"; host = "local"; hostname = "local"; port = "" });
  split_host_port = λ s. some ("local", "80");
  parse_ip = λ s. none;
  atoi = λ s. some (pos 80);
  itoa = λ n. "80";
  parse_duration = λ s. none;
  is_pattern = λ s. true;
}

abbrev tls : TlsConfig
tls = record {
  cert_file = "";
  key_file = "";
  key_passphrase = "";
  min_version = "";
  ca_file = "";
  crl_file = "";
  ocsp_url = "";
}

abbrev pub backend : Backend
backend = record {
  name = "b";
  url = "http://local";
  timeout = "";
  connect_timeout = "";
  headers_timeout = "";
  idle_timeout = "";
  max_connections = pos 0;
  retries = pos 2;
  retry_backoff = "";
  health_check = none;
  compression = false;
  force_tls = false;
  tls = record {
    insecure = false;
    ca_file = "";
    server_name = "";
    cert_file = "";
    key_file = "";
    key_passphrase = "";
  };
  auth = none;
  proxy = none;
}

abbrev listener : String → Listener
listener name = record {
  name = name;
  type = "http";
  address = "local:80";
  read_header_timeout = "";
  write_timeout = "";
  idle_timeout = "";
  max_connections = pos 0;
  max_request_body_size = pos 0;
  tls = tls;
  users = [];
  log = false;
  proxy = none;
  backends = [];
  routes = [];
  initial_bytes = [];
  middlewares = [];
}

abbrev route : Route
route = record {
  name = "r";
  prefix = "/";
  strip_prefix = false;
  preserve_host = false;
  selector = record { type = ""; config = end };
  hosts = [];
  paths = [];
  endpoints = "web" ∷ [];
  service = "s";
  backends = [];
  middlewares = [];
}

abbrev pub config : Config
config = record {
  admin = record { address = ""; enabled = false; tls = tls; middlewares = [] };
  listeners = listener "web" ∷ [];
  services = record { name = "s"; backends = backend ∷ [] } ∷ [];
  routes = route ∷ [];
  directory = "";
}

pub config_accepted : validate lib (some config) ≡ accepted
unfolding validate problems_of check_listeners check_services check_routes check_admin check_route
    check_listener check_address check_name check_references check_backends check_middlewares
    check_selector_fields check_tcp_route over report all_of validate_duration validate_patterns
    validate_tls validate_backend_url validate_backend_proxy validate_auth validate_health_check
    validate_backend validate_proxy cut_bar split_key listener_network holders hold clashes
    conflicting hosts_conflict validate_network_address claim_address has_prefix
config_accepted = refl

validate-Resolves_example :
    AreNames ("web" ∷ [])
    × AreNames ("s" ∷ [])
    × AreNames ("r" ∷ [])
    × All (λ (x : Service). x.backends ≢ []) config.services
    × All (λ (l : Listener). one_of l.type listener_types ≡ true) config.listeners
    × All (Resolves lib config) config.routes
validate-Resolves_example = validate-Resolves lib config config_accepted

abbrev at : String → Route
at prefix = record route { prefix = prefix }

abbrev nothing : Config
nothing = record config { listeners = []; services = []; routes = [] }

-- A document of services and one of routes.
abbrev documents : List (Option Config)
documents =
    some (record config { listeners = []; routes = [] })
    ∷ some (record config { services = [] })
    ∷ []

-- The longer prefix comes first.
sorted_prefixes :
    map (λ (r : Route). r.prefix) (insertion_sort longer (at "/" ∷ at "/api/v1" ∷ at "/api" ∷ []))
    ≡ "/api/v1" ∷ "/api" ∷ "/" ∷ []
unfolding longer len
sorted_prefixes = refl

backend_accepted : validate_backend lib root backend false ≡ []
unfolding validate_backend report all_of validate_duration validate_tls validate_backend_url
    validate_backend_proxy validate_auth validate_health_check
backend_accepted = refl

validate_backend-IsUsable_example :
    (backend.name ≢ "")
    × ((u : Url) × (lib.parse_url backend.url ≡ some u)
        × (incomplete u ≡ false)
        × (one_of u.scheme (schemes false) ≡ true))
    × (leb_ℤ (pos 0) backend.max_connections ≡ true)
    × (leb_ℤ (pos 0) backend.retries ≡ true)
    × (leb_ℤ backend.retries (pos 5) ≡ true)
    × IsDuration lib backend.timeout
    × IsDuration lib backend.connect_timeout
    × IsDuration lib backend.headers_timeout
    × IsDuration lib backend.idle_timeout
    × IsDuration lib backend.retry_backoff
validate_backend-IsUsable_example =
    validate_backend-IsUsable lib root backend false backend_accepted
