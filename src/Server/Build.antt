-- ===== src/Server/Build.antt =====
-- pkg/server/builder.go: the middlewares, the backends and the routes that Build makes of a
-- configuration. A middleware is the constructor of its kind with its settings, and each switch on a
-- name is a table of its cases. time.ParseDuration, strings.ToLower, url.Parse, the TLS settings, the
-- keys of an OpenID issuer and the compilers of dynamic and OpenAPI middlewares are parameters.
pub mod Backed
pub mod Cases
pub mod Counts
pub mod Pools
pub mod Routes
pub mod Refusals
pub mod Middlewares
mod Tests
use gorp.Prelude.{
  ℕ, zero, suc, ◌*◌, String, Bool, true, false, not, List, [], ◌∷◌, ◌++◌, Option, none, some, ◌⊎◌,
  inl, inr, ℤ, pos, leb_ℤ, if◌then◌else◌, is_empty, str_eq, one_of, value_of, assign, map,
}
use gorp.Config.{HealthCheckConfig, BackendProxy, BackendAuth, Service, Config, SelectorConfig}
use gorp.Config as C
use gorp.Backend.{second}
use gorp.Backend as B
use gorp.Transport.{ProxyConfig, AuthConfig, TransportConfig, Transport, ProxyUrl, new_transport}
use gorp.Selector.Factory as F

abbrev pub or_else : ℤ → Option ℤ → ℤ
or_else d none = d
or_else d (some t) = t

abbrev pub positive_or : ℤ → Option ℤ → ℤ
positive_or fallback none = fallback
positive_or fallback (some d) = if leb_ℤ d (pos 0) then fallback else d

module _ (parse_duration : String → Option ℤ) where
  unfoldable pub parse_duration_or_default : String → ℤ → ℤ
  parse_duration_or_default value fallback =
      if str_eq value "" then fallback else positive_or fallback (parse_duration value)

  -- A timeout that is set and parses, else the default
  unfoldable pub timeout_or : String → ℤ → ℤ
  timeout_or value default =
      if str_eq value "" then default else or_else default (parse_duration value)

  abbrev pub auth_config : Option BackendAuth → Option AuthConfig
  auth_config none = none
  auth_config (some a) = some (record {
    type = a.type;
    username = a.username;
    password = a.password;
    token = a.token;
    header = a.header;
    prefix = a.prefix;
    access_key_id = a.access_key_id;
    secret_access_key = a.secret_access_key;
    region = a.region;
    service = a.service;
  })

  abbrev pub proxy_config : Option BackendProxy → Option ProxyConfig
  proxy_config none = none
  proxy_config (some p) =
      if str_eq p.url ""
      then none
      else some (record { url = p.url; username = p.username; password = p.password })

  unfoldable pub transport_config : C.Backend → TransportConfig
  transport_config b =
      let base = timeout_or b.timeout (pos (30 * second)) in
      record {
        timeout = base;
        connect_timeout = timeout_or b.connect_timeout base;
        headers_timeout = timeout_or b.headers_timeout base;
        idle_timeout = timeout_or b.idle_timeout (pos (90 * second));
        retries = b.retries;
        retry_backoff = parse_duration_or_default b.retry_backoff (pos 100000000);
        compression = b.compression;
        insecure = b.tls.insecure;
        ca_file = b.tls.ca_file;
        cert_file = b.tls.cert_file;
        key_file = b.tls.key_file;
        key_passphrase = b.tls.key_passphrase;
        server_name = b.tls.server_name;
        proxy = proxy_config b.proxy;
        auth = auth_config b.auth;
      }

-- A backend with its transport and the interval and timeout of its health checks, where it has them.
pub record Built : Type 0 where
  pub backend : B.Backend
  pub transport : Transport
  pub health : Option (ℤ × ℤ)

pub data Refusal : Type 0 where
  no_configuration no_backends bad_transport bad_url : Refusal
  unknown_middleware unknown_response_middleware : Refusal
  no_users no_tokens no_keys no_path bad_code bad_document : Refusal

abbrev pub health_path : Option HealthCheckConfig → Option String
health_path none = none
health_path (some h) = some h.path

-- The configured backends of a route
unfoldable pub services_by_name :
    List (String × List C.Backend) → List Service → List (String × List C.Backend)
services_by_name known [] = known
services_by_name known (s ∷ ss) = services_by_name (assign s.name s.backends known) ss

abbrev pub or_no_backends : Option (List C.Backend) → List C.Backend
or_no_backends none = []
or_no_backends (some bs) = bs

unfoldable pub backends_config : List (String × List C.Backend) → C.Route → List C.Backend
backends_config known r =
    if is_empty r.backends
    then (if str_eq r.service "" then [] else or_no_backends (value_of r.service known))
    else r.backends

module _ (parse_duration : String → Option ℤ) (parse_host : String → Option String)
    (tls_config : TransportConfig → Bool) (parse_proxy : String → Option ProxyUrl) where
  abbrev pub health_of : Option HealthCheckConfig → Option (ℤ × ℤ)
  health_of none = none
  health_of (some h) = some (
    parse_duration_or_default parse_duration h.interval (pos (10 * second)),
    parse_duration_or_default parse_duration h.timeout (pos (2 * second)),
  )

  abbrev pub with_host : C.Backend → Transport → Option String → Refusal ⊎ Built
  with_host b transport none = inl bad_url
  with_host b transport (some host) = inr record {
    backend = B.start_health (health_path b.health_check) (B.new b.name (some host));
    transport = transport;
    health = health_of b.health_check;
  }

  abbrev pub with_transport : C.Backend → ◌⊎◌ gorp.Transport.Failure Transport → Refusal ⊎ Built
  with_transport b (inl e) = inl bad_transport
  with_transport b (inr transport) = with_host b transport (parse_host b.url)

  -- New of pkg/backend leaves MaxConnections at zero, and nothing sets it here.
  unfoldable pub build_backend : C.Backend → Refusal ⊎ Built
  build_backend b =
      with_transport b (new_transport tls_config parse_proxy (transport_config parse_duration b))

  abbrev pub and_backend : Refusal ⊎ Built → Refusal ⊎ List Built → Refusal ⊎ List Built
  and_backend (inl e) rest = inl e
  and_backend (inr b) (inl e) = inl e
  and_backend (inr b) (inr bs) = inr (b ∷ bs)

  unfoldable pub build_backends : List C.Backend → Refusal ⊎ List Built
  build_backends [] = inr []
  build_backends (b ∷ bs) = and_backend (build_backend b) (build_backends bs)
