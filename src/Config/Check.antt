-- ===== src/Config/Check.antt =====
-- validate.go of pkg/config, its single checks: durations, patterns, TLS settings, proxies, network
-- addresses and backends. Each returns the problems it appends; the text of a problem is a message
-- at a place, without its formatting. What the checks call of the Go library is a parameter.
use gorp.Prelude.{
  ℕ, String, Bool, true, false, ◌&&◌, ◌||◌, not, List, [], ◌∷◌, ◌++◌, Option, none, some, ℤ, pos,
  ltb_ℤ, leb_ℤ, if◌then◌else◌, is_empty, is_some, str_eq, one_of, has_prefix,
}
use gorp.Config.{TlsConfig, BackendProxy, BackendAuth, HealthCheckConfig, Backend}

-- `url.Parse`, with the results of Hostname and Port; the URL is absolute where it has a scheme.
pub record Url : Type 0 where
  pub scheme : String
  pub host : String
  pub hostname : String
  pub port : String

-- `net.ParseIP`, with the results of String and IsUnspecified.
pub record Ip : Type 0 where
  pub text : String
  pub unspecified : Bool

pub record Library : Type 0 where
  pub to_lower : String → String
  pub to_upper : String → String
  -- strings.ReplaceAll(s, old, new) and strings.Contains(s, part)
  pub replace_all : String → String → String → String
  pub contains : String → String → Bool
  pub parse_url : String → Option Url
  -- (host, port)
  pub split_host_port : String → Option (String × String)
  pub parse_ip : String → Option Ip
  pub atoi : String → Option ℤ
  pub itoa : ℤ → String
  pub parse_duration : String → Option ℤ
  -- filepath.Match(pattern, "") returns no error
  pub is_pattern : String → Bool

-- Where a problem stands in the configuration.
pub data Place : Type 0 where
  root : Place
  member : String → Place → Place
  element : String → ℕ → Place → Place

pub data Message : Type 0 where
  required duplicated not_supported negative : Message
  conflicts : String → Message
  bad_address bad_port bad_duration bad_pattern bad_url bad_scheme : Message
  no_hostname no_valid_port bad_retries bad_health_path : Message
  http_only tcp_only proxy_only listener_only route_only : Message
  certificate_and_key invalid_version : Message
  basic_incomplete token_missing aws_incomplete : Message
  unknown_listener unknown_service : String → Message
  service_and_backends no_backends no_match : Message
  unsupported_field : String → Message
  not_a_string not_a_string_map not_a_string_list not_a_boolean : Message
  keys_or_issuer not_positive not_a_duration : Message

abbrev pub Problem : Type 0
Problem = Place × Message

unfoldable pub report : Bool → Place → Message → List Problem
report true p m = (p, m) ∷ []
report false p m = []

-- What the steps of a check append, in their order.
unfoldable pub all_of : List (List Problem) → List Problem
all_of [] = []
all_of (ps ∷ rest) = ps ++ all_of rest

abbrev pub is_unset : String → Bool
is_unset s = str_eq s ""

-- !parsed.IsAbs() || parsed.Host == ""
abbrev pub incomplete : Url → Bool
incomplete u = is_unset u.host || is_unset u.scheme

module _ (lib : Library) where
  abbrev pub duration_bad : Bool → Option ℤ → Bool
  duration_bad must_be_positive none = true
  duration_bad must_be_positive (some d) = ltb_ℤ d (pos 0) || must_be_positive && leb_ℤ d (pos 0)

  unfoldable pub validate_duration : Place → String → Bool → List Problem
  unfolding report
  validate_duration p value must_be_positive =
      if is_unset value
      then []
      else report (duration_bad must_be_positive (lib.parse_duration value)) p bad_duration

  unfoldable pub validate_patterns : Place → List String → List Problem
  unfolding report
  validate_patterns p [] = []
  validate_patterns p (s ∷ ss) =
      report (not (lib.is_pattern s)) p bad_pattern ++ validate_patterns p ss

  abbrev pub tls_versions : List String
  tls_versions = "TLS1.0" ∷ "TLS1.1" ∷ "TLS1.2" ∷ "TLS1.3" ∷ "1.0" ∷ "1.1" ∷ "1.2" ∷ "1.3" ∷ []

  abbrev pub version_of : String → String
  version_of s = lib.to_upper (lib.replace_all s "TLSV" "TLS")

  -- The two tests on the pair of files, then the one on the version.
  unfoldable pub validate_tls : Place → String → String → String → Bool → List Problem
  unfolding report
  validate_tls p cert_file key_file min_version needed =
      (if needed && (is_unset cert_file || is_unset key_file)
        then (p, certificate_and_key) ∷ []
        else report
            (is_unset cert_file && not (is_unset key_file)
              || not (is_unset cert_file) && is_unset key_file)
            p certificate_and_key)
      ++ report (not (is_unset min_version) && not (one_of (version_of min_version) tls_versions))
          (member "min_version" p) invalid_version

  abbrev pub validate_tls_config : Place → TlsConfig → Bool → List Problem
  unfolding validate_tls
  validate_tls_config p tls needed =
      validate_tls p tls.cert_file tls.key_file tls.min_version needed

  abbrev pub validate_proxy_url : Place → Option Url → List Problem
  unfolding report
  validate_proxy_url p none = (p, bad_url) ∷ []
  validate_proxy_url p (some u) =
      if incomplete u
      then (p, bad_url) ∷ []
      else report (not (one_of u.scheme ("http" ∷ "https" ∷ "socks5" ∷ []))) p bad_scheme

  unfoldable pub validate_proxy : Place → String → List String → List String → List Problem
  unfolding validate_patterns
  validate_proxy p raw_url hosts no_proxy =
      if is_unset raw_url
      then (member "url" p, required) ∷ []
      else validate_proxy_url (member "url" p) (lib.parse_url raw_url)
        ++ validate_patterns (member "hosts" p) hosts
        ++ validate_patterns (member "no_proxy" p) no_proxy

  abbrev bad_backend_port : Option ℤ → Bool
  bad_backend_port none = true
  bad_backend_port (some n) = ltb_ℤ n (pos 1) || ltb_ℤ (pos 65535) n

  -- The port of a tcp URL is split off its host, else it is the URL's.
  abbrev split_port : Option (String × String) → Option ℤ
  split_port none = none
  split_port (some (host, port)) = lib.atoi port

  abbrev port_number : Bool → Url → Option ℤ
  port_number true u = split_port (lib.split_host_port u.host)
  port_number false u = lib.atoi u.port

  unfoldable pub validate_backend_url : Place → Option Url → Bool → List Problem
  unfolding report
  validate_backend_url p none tcp = (p, bad_url) ∷ []
  validate_backend_url p (some u) tcp =
      if incomplete u
      then (p, bad_url) ∷ []
      else if tcp && not (str_eq u.scheme "tcp")
      then (p, bad_scheme) ∷ []
      else if not tcp && not (one_of u.scheme ("http" ∷ "https" ∷ []))
      then (p, bad_scheme) ∷ []
      else report (is_unset u.hostname) p no_hostname
        ++ report ((tcp || not (is_unset u.port)) && bad_backend_port (port_number tcp u)) p
            no_valid_port

  unfoldable pub validate_auth : Place → Option BackendAuth → List Problem
  unfolding report
  validate_auth p none = []
  validate_auth p (some auth) =
      let type = lib.to_lower auth.type in
      report (not (one_of type ("basic" ∷ "token" ∷ "aws" ∷ []))) (member "type" p) not_supported
      ++ report (str_eq type "basic" && (is_unset auth.username || is_unset auth.password)) p
          basic_incomplete
      ++ report (str_eq type "token" && is_unset auth.token) p token_missing
      ++ report
          (str_eq type "aws"
            && (is_unset auth.access_key_id
                || is_unset auth.secret_access_key
                || is_unset auth.region
                || is_unset auth.service))
          p aws_incomplete

  unfoldable pub validate_health_check : Place → Option HealthCheckConfig → List Problem
  unfolding report validate_duration
  validate_health_check p none = []
  validate_health_check p (some check) =
      report
        (not (is_unset check.path)
          && (not (has_prefix check.path "/")
              || lib.contains check.path "?"
              || lib.contains check.path "#"))
        (member "path" p) bad_health_path
      ++ validate_duration (member "interval" p) check.interval true
      ++ validate_duration (member "timeout" p) check.timeout true

  unfoldable pub validate_backend_proxy : Place → Option BackendProxy → List Problem
  unfolding report validate_proxy
  validate_backend_proxy p none = []
  validate_backend_proxy p (some proxy) =
      report (not (is_empty proxy.hosts) || not (is_empty proxy.no_proxy)) p listener_only
      ++ validate_proxy p proxy.url [] []

  unfoldable pub validate_backend : Place → Backend → Bool → List Problem
  unfolding report validate_backend_url validate_duration validate_tls validate_backend_proxy
      validate_auth validate_health_check
  validate_backend p b tcp = all_of (
      report (is_unset b.name) (member "name" p) required
      ∷ validate_backend_url (member "url" p) (lib.parse_url b.url) tcp
      ∷ report (ltb_ℤ b.max_connections (pos 0)) (member "max_connections" p) negative
      ∷ report (ltb_ℤ b.retries (pos 0) || ltb_ℤ (pos 5) b.retries) (member "retries" p) bad_retries
      ∷ validate_duration (member "timeout" p) b.timeout false
      ∷ validate_duration (member "connect_timeout" p) b.connect_timeout false
      ∷ validate_duration (member "headers_timeout" p) b.headers_timeout false
      ∷ validate_duration (member "idle_timeout" p) b.idle_timeout false
      ∷ validate_duration (member "retry_backoff" p) b.retry_backoff true
      ∷ validate_tls (member "tls" p) b.tls.cert_file b.tls.key_file "" false
      ∷ report (tcp && is_some b.health_check) (member "health_check" p) http_only
      ∷ report (tcp && (ltb_ℤ (pos 0) b.retries || not (is_unset b.retry_backoff)))
          (member "retries" p) http_only
      ∷ validate_backend_proxy (member "proxy" p) b.proxy
      ∷ validate_auth (member "auth" p) b.auth
      ∷ validate_health_check (member "health_check" p) b.health_check
      ∷ [])
