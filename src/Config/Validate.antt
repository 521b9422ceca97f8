-- ===== src/Config/Validate.antt =====
-- validate.go of pkg/config: Validate over the listeners, the services, the routes and the admin
-- endpoint. The sets of names are lists, the latest name first.
use gorp.Prelude.{
  ℕ, suc, String, Bool, true, false, ◌&&◌, ◌||◌, not, List, [], ◌∷◌, ◌++◌, Option, none, some, pos,
  ltb_ℤ, if◌then◌else◌, is_empty, is_some, str_eq, one_of,
}
use gorp.Value.{Value, text, Fields, end, field}
use gorp.Config.{
  Config, AdminConfig, Listener, Service, Route, Backend, TcpRoute, BackendProxy, TlsConfig,
  MiddlewareConfig,
}
use gorp.Config.Check.{
  Place, root, member, element, Message, Problem, report, Library, is_unset, validate_duration,
  validate_patterns, validate_tls_config, validate_proxy, validate_backend, all_of, required,
  duplicated, not_supported, negative, tcp_only, proxy_only, unknown_listener, unknown_service,
  service_and_backends, no_backends, no_match, unsupported_field, not_a_string,
}
use gorp.Config.Middleware.{validate_middleware}
use gorp.Config.Address.{
  Addresses, claim_address, validate_network_address, conflicting, conflict_with,
}

abbrev pub listener_types : List String
listener_types =
    "http" ∷ "https" ∷ "dynamic" ∷ "http3" ∷ "httpmulti" ∷ "multi" ∷ "tcp" ∷ "unix" ∷ "unix_tcp"
    ∷ "proxy" ∷ "proxy_tls" ∷ "socks5" ∷ []

abbrev pub selector_types : List String
selector_types =
    "round-robin" ∷ "roundrobin" ∷ "rr" ∷ "random" ∷ "rand" ∷ "first-alive" ∷ "first" ∷ "alive"
    ∷ "header" ∷ "cookie" ∷ "ip" ∷ "source-ip" ∷ "sourceip" ∷ "ip-hash" ∷ "iphash"
    ∷ "leastconnection" ∷ "leastconnections" ∷ "least-connection" ∷ "least-connections"
    ∷ "power-of-two" ∷ "poweroftwo" ∷ "p2c" ∷ "query" ∷ "query-param" ∷ "queryparam" ∷ []

abbrev pub tls_listeners : List String
tls_listeners = "https" ∷ "http3" ∷ "httpmulti" ∷ "multi" ∷ "proxy_tls" ∷ "dynamic" ∷ []

abbrev pub tcp_listeners : List String
tcp_listeners = "tcp" ∷ "unix_tcp" ∷ []

abbrev pub proxy_listeners : List String
proxy_listeners = "proxy" ∷ "proxy_tls" ∷ "socks5" ∷ []

-- A loop `for i, x := range xs` that appends what `f i x` finds.
unfoldable pub over {ℓ} : {A : Type ℓ} → (ℕ → A → List Problem) → ℕ → List A → List Problem
over f i [] = []
over f i (x ∷ xs) = f i x ++ over f (suc i) xs

-- A name is required and not taken.
unfoldable pub check_name : Place → String → List String → List Problem
unfolding report
check_name p name taken =
    if is_unset name
    then (member "name" p, required) ∷ []
    else report (one_of name taken) (member "name" p) duplicated

unfoldable pub check_references :
    (String → Message) → Place → List String → List String → List Problem
unfolding report
check_references message p known [] = []
check_references message p known (name ∷ names) =
    report (not (one_of name known)) p (message name) ++ check_references message p known names

abbrev pub accepts_name : String → Bool
accepts_name type = one_of type ("header" ∷ "cookie" ∷ "query" ∷ "query-param" ∷ "queryparam" ∷ [])

abbrev pub check_selector_name : Place → Value → List Problem
check_selector_name p (text s) = []
check_selector_name p _ = (member "name" p, not_a_string) ∷ []

unfoldable pub check_selector_fields : Place → String → Fields → List Problem
check_selector_fields p type end = []
check_selector_fields p type (field k v fs) =
    (if not (str_eq k "name") || not (accepts_name type)
      then (p, unsupported_field k) ∷ []
      else check_selector_name p v)
    ++ check_selector_fields p type fs

-- The error of Validate: none, the one for a nil pointer, or the list of problems.
pub data Verdict : Type 0 where
  accepted nil_config : Verdict
  rejected : List Problem → Verdict

abbrev pub verdict_of : List Problem → Verdict
verdict_of [] = accepted
verdict_of (p ∷ ps) = rejected (p ∷ ps)

module _ (lib : Library) where
  unfoldable pub check_middlewares : Place → Bool → List MiddlewareConfig → List Problem
  unfolding over validate_middleware
  check_middlewares p on_route =
      over (λ i m. validate_middleware lib (element "middlewares" i p) m on_route) 0

  unfoldable pub check_backends : Place → Bool → List Backend → List Problem
  unfolding over validate_backend
  check_backends p tcp = over (λ i b. validate_backend lib (element "backends" i p) b tcp) 0

  abbrev pub optional_tls : Place → Option TlsConfig → List Problem
  optional_tls p none = []
  optional_tls p (some tls) = validate_tls_config lib p tls false

  unfoldable pub check_tcp_route : Place → TcpRoute → List Problem
  unfolding report validate_patterns check_backends
  check_tcp_route p r = all_of (
      report (is_unset r.name) (member "name" p) required
      ∷ report (is_empty r.hosts) (member "hosts" p) no_match
      ∷ validate_patterns lib (member "hosts" p) r.hosts
      ∷ optional_tls (member "tls" p) r.tls
      ∷ check_backends p true r.backends
      ∷ [])

  abbrev pub optional_proxy : Place → Option BackendProxy → List Problem
  unfolding validate_proxy
  optional_proxy p none = []
  optional_proxy p (some x) = validate_proxy lib p x.url x.hosts x.no_proxy

  -- What follows the listener's address.
  unfoldable pub check_listener : Place → Listener → List Problem
  unfolding report validate_duration check_middlewares check_tcp_route check_backends over
  check_listener p l = all_of (
      report (ltb_ℤ l.max_connections (pos 0) || ltb_ℤ l.max_request_body_size (pos 0)) p negative
      ∷ validate_duration lib (member "read_header_timeout" p) l.read_header_timeout false
      ∷ validate_duration lib (member "write_timeout" p) l.write_timeout false
      ∷ validate_duration lib (member "idle_timeout" p) l.idle_timeout false
      ∷ validate_tls_config lib (member "tls" p) l.tls (one_of l.type tls_listeners)
      ∷ report (not (is_empty l.backends) && not (one_of l.type tcp_listeners))
          (member "backends" p) tcp_only
      ∷ report (not (is_empty l.routes) && not (one_of l.type tcp_listeners)) (member "routes" p)
          tcp_only
      ∷ report
          ((is_some l.proxy || not (is_empty l.users) || l.log)
            && not (one_of l.type proxy_listeners))
          p proxy_only
      ∷ optional_proxy (member "proxy" p) l.proxy
      ∷ check_middlewares p false l.middlewares
      ∷ over (λ j r. check_tcp_route (element "routes" j p) r) 0 l.routes
      ∷ check_backends p true l.backends
      ∷ [])

  -- A listener without an address holds none.
  unfoldable pub check_address : Place → Listener → Addresses → List Problem × Addresses
  unfolding claim_address
  check_address p l addresses =
      if is_unset l.address
      then ((member "address" p, required) ∷ [], addresses)
      else claim_address lib (member "address" p) l.name l.type l.address addresses

  -- One turn of the loop over the listeners, and the loop: the problems, the names and the
  -- addresses.
  unfoldable pub check_listeners :
      ℕ → List String → Addresses → List Listener → List Problem × (List String × Addresses)
  check_listeners i names addresses [] = ([], (names, addresses))
  check_listeners i names addresses (l ∷ ls) =
      let p = element "listeners" i root in
      let claimed = check_address p l addresses in
      let rest = check_listeners (suc i) (l.name ∷ names) claimed.1 ls in
      (
        all_of (
            check_name p l.name names
            ∷ report (not (one_of l.type listener_types)) (member "type" p) not_supported
            ∷ claimed.0
            ∷ check_listener p l
            ∷ rest.0
            ∷ []),
        rest.1,
      )

  unfoldable pub check_services : ℕ → List String → List Service → List Problem × List String
  check_services i names [] = ([], names)
  check_services i names (s ∷ ss) =
      let p = element "services" i root in
      let rest = check_services (suc i) (s.name ∷ names) ss in
      (
        all_of (
            check_name p s.name names
            ∷ report (is_empty s.backends) (member "backends" p) no_backends
            ∷ check_backends p false s.backends
            ∷ rest.0
            ∷ []),
        rest.1,
      )

  -- What follows the route's name.
  unfoldable pub check_route : Place → List String → List String → Route → List Problem
  check_route p listeners services r =
      let type = lib.to_lower r.selector.type in
      all_of (
        report (is_unset r.prefix && is_empty r.hosts && is_empty r.paths) p no_match
        ∷ validate_patterns lib (member "hosts" p) r.hosts
        ∷ validate_patterns lib (member "paths" p) r.paths
        ∷ check_references unknown_listener (member "endpoints" p) listeners r.endpoints
        ∷ report (not (is_unset r.service) && not (one_of r.service services)) (member "service" p)
            (unknown_service r.service)
        ∷ report (not (is_unset r.service) && not (is_empty r.backends)) p service_and_backends
        ∷ report (is_empty r.backends && is_unset r.service) p no_backends
        ∷ report (not (is_unset r.selector.type) && not (one_of type selector_types))
            (member "type" (member "selector" p)) not_supported
        ∷ check_selector_fields (member "config" (member "selector" p)) type r.selector.config
        ∷ check_middlewares p true r.middlewares
        ∷ check_backends p false r.backends
        ∷ [])

  unfoldable pub check_routes :
      ℕ → List String → List String → List String → List Route → List Problem
  check_routes i names listeners services [] = []
  check_routes i names listeners services (r ∷ rs) =
      let p = element "routes" i root in
      let rest = check_routes (suc i) (r.name ∷ names) listeners services rs in
      all_of (check_name p r.name names ∷ check_route p listeners services r ∷ rest ∷ [])

  abbrev pub admin_conflict :
      Place → Addresses → List Problem × Option (String × String) → List Problem
  unfolding conflicting
  admin_conflict p addresses (ps, none) = ps
  admin_conflict p addresses (ps, some (host, port)) =
      if str_eq port "0" then ps else conflict_with p (conflicting "tcp" host port addresses)

  unfoldable pub check_admin : AdminConfig → Addresses → List Problem
  check_admin a addresses =
      let p = member "admin" root in
      let address = member "address" p in
      check_middlewares p false a.middlewares
      ++ (if a.enabled
          then validate_tls_config lib (member "tls" p) a.tls false
            ++ (if is_unset a.address
                then (address, required) ∷ []
                else admin_conflict address addresses
                    (validate_network_address lib address a.address))
          else [])

  unfoldable pub problems_of : Config → List Problem
  problems_of cfg =
      let listeners = check_listeners 0 [] [] cfg.listeners in
      let services = check_services 0 [] cfg.services in
      all_of (
        listeners.0
        ∷ services.0
        ∷ check_routes 0 [] listeners.1.0 services.1 cfg.routes
        ∷ check_admin cfg.admin listeners.1.1
        ∷ [])

  unfoldable pub validate : Option Config → Verdict
  validate none = nil_config
  validate (some cfg) = verdict_of (problems_of cfg)
