-- ===== src/Listener/Tcp/Checked.antt =====
-- What a TCP connection comes to: which backend, and which bytes it is sent.
use gorp.Prelude.{
  ℕ, ◌≡◌, ◌⊎◌, refl, sym, ap, ◌∙◌, String, Bool, true, false, ◌&&◌, List, [], ◌∷◌, Option, none,
  some, arith, is_empty, Bool-cases, Option-cases, inl, inr, length, ltb, take, take-append-drop,
  get_elem?, str_eq, trim_prefix,
}
use mathlib.Core.Option.{some_inj}
use gorp.Config.{Backend, TcpRoute, TcpByteCheck, TlsConfig}
use gorp.Listener.Tcp.{
  is_checked, check_bytes, validate_initial_bytes, serves_host, select_tcp_route,
  select_tcp_backends, Outcome, dropped, tunnels, connect, pick, proxy_connection, route_tls,
  secured, handle_tcp_connection,
}

-- Each check has its byte.
abbrev pub Matches : List ℕ → List TcpByteCheck → Type 0
Matches input [] = Unit
Matches [] (check ∷ checks) = ⊥
Matches (byte ∷ input) (check ∷ checks) = (is_checked byte check ≡ true) × Matches input checks

both : (a b : Bool) → (a && b) ≡ true → (a ≡ true) × (b ≡ true)
both true b h = (refl, h)
both false b h = absurd (cc h)

check_bytes-Matches :
    (input : List ℕ) (checks : List TcpByteCheck)
    → ltb (length input) (length checks) ≡ false
    → check_bytes (take (length checks) input) checks ≡ true
    → Matches input checks
unfolding check_bytes
check_bytes-Matches input [] long h = tt
check_bytes-Matches [] (check ∷ checks) long h = let bad : ⊥ = ground (arith, long) in absurd bad
check_bytes-Matches (byte ∷ input) (check ∷ checks) long h =
    let (first, rest) = both (is_checked byte check) _ h in
    (first, check_bytes-Matches input checks (ground (arith, long)) rest)

validate_initial_bytes-Matches :
    (input : List ℕ) (checks : List TcpByteCheck) (sent : List ℕ)
    → validate_initial_bytes input checks ≡ some sent
    → (sent ≡ input) × Matches input checks
unfolding validate_initial_bytes
validate_initial_bytes-Matches input checks sent h =
    elim (Bool-cases (ltb (length input) (length checks))) [
      | inl short ↦ absurd (cc (rw short at h))
      | inr long ↦ elim (Bool-cases (check_bytes (take (length checks) input) checks)) [
        | inr other ↦ absurd (cc (rw (long, other) at h))
        | inl good ↦ (
          sym (some_inj.0 (rw (long, good) at h)) ∙ take-append-drop (length checks) input,
          check_bytes-Matches input checks long good,
        )
      ]
    ]

tunnel_backend : Backend → Outcome → Backend
tunnel_backend d dropped = d
tunnel_backend d (tunnels b addr sent) = b

tunnel_addr : Outcome → String
tunnel_addr dropped = ""
tunnel_addr (tunnels b addr sent) = addr

tunnel_sent : List ℕ → Outcome → List ℕ
tunnel_sent d dropped = d
tunnel_sent d (tunnels b addr sent) = sent

pair_path : {A B : Type 0} {a c : A} {b d : B} → a ≡ c → b ≡ d → ◌≡◌ {A = A × B} (a, b) (c, d)
pair_path p q = cc (p, q)

module _ (match_wildcard : String → String → Bool) (to_lower : String → String) where
  abbrev pub backends_or : List Backend → Option TcpRoute → List Backend
  backends_or fallback none = fallback
  backends_or fallback (some route) = route.backends

  select_tcp_backends-route :
      (server_name : String) (fallback : List Backend) (routes : List TcpRoute)
      → select_tcp_backends match_wildcard to_lower server_name fallback routes
        ≡ backends_or fallback (select_tcp_route match_wildcard to_lower server_name routes)
  unfolding select_tcp_backends select_tcp_route
  select_tcp_backends-route server_name fallback [] = refl
  select_tcp_backends-route server_name fallback (route ∷ routes) =
      elim (Bool-cases (serves_host match_wildcard to_lower server_name route)) [
        | inl serves ↦ rw (serves) refl
        | inr other ↦ rw (other) (select_tcp_backends-route server_name fallback routes)
      ]

  module _ (draw : ℕ → ℕ) (connects : Backend → String → Bool) where
    -- A tunnel to one of the backends, that answered under its address, for this stream
    pub record IsTunnel (pool : List Backend) (checks : List TcpByteCheck) (stream : List ℕ)
        (b : Backend) (addr : String) (sent : List ℕ) : Type 0 where
      pub chosen : get_elem? pool (draw (length pool)) ≡ some b
      pub address : addr ≡ trim_prefix b.url "tcp://"
      pub connected : connects b addr ≡ true
      pub whole : sent ≡ stream
      pub matches : Matches stream checks

    connect-IsTunnel :
        (pool : List Backend) (checks : List TcpByteCheck) (stream : List ℕ) (c b : Backend)
        (addr : String) (sent : List ℕ)
        → get_elem? pool (draw (length pool)) ≡ some c
        → Matches stream checks
        → connect match_wildcard to_lower draw connects c (trim_prefix c.url "tcp://") stream
          ≡ tunnels b addr sent
        → IsTunnel pool checks stream b addr sent
    unfolding tunnel_backend tunnel_addr tunnel_sent
    connect-IsTunnel pool checks stream c b addr sent chosen matches h =
        elim (Bool-cases (str_eq (trim_prefix c.url "tcp://") "")) [
          | inl unset ↦ absurd (cc (rw unset at h))
          | inr set ↦ elim (Bool-cases (connects c (trim_prefix c.url "tcp://"))) [
            | inr failed ↦ absurd (cc (rw (set, failed) at h))
            | inl connected ↦
                let e : tunnels c (trim_prefix c.url "tcp://") stream ≡ tunnels b addr sent =
                  rw (set, connected) at h in
                let same : c ≡ b = ap (tunnel_backend c) e in
                let at_addr : trim_prefix c.url "tcp://" ≡ addr = ap tunnel_addr e in
                record {
                  chosen = chosen ∙ ap some same;
                  address = sym at_addr ∙ ap (λ x. trim_prefix x.url "tcp://") same;
                  connected = sym (ap (λ x. connects x.0 x.1) (pair_path same at_addr)) ∙ connected;
                  whole = sym (ap (tunnel_sent stream) e);
                  matches = matches;
                }
          ]
        ]

    pick-IsTunnel :
        (pool : List Backend) (checks : List TcpByteCheck) (stream : List ℕ) (b : Backend)
        (addr : String) (sent : List ℕ)
        → Matches stream checks
        → pick match_wildcard to_lower draw connects pool stream ≡ tunnels b addr sent
        → IsTunnel pool checks stream b addr sent
    pick-IsTunnel pool checks stream b addr sent matches h = elim (Bool-cases (is_empty pool)) [
      | inl nothing ↦ absurd (cc (rw nothing at h))
      | inr some_pool ↦ elim (Option-cases (get_elem? pool (draw (length pool)))) [
        | inl missing ↦ absurd (cc (rw (some_pool, missing) at h))
        | inr (c, chosen) ↦
            connect-IsTunnel pool checks stream c b addr sent chosen matches
              (rw (some_pool, chosen) at h)
      ]
    ]

    proxy_connection-IsTunnel :
        (pool : List Backend) (checks : List TcpByteCheck) (stream : List ℕ) (b : Backend)
        (addr : String) (sent : List ℕ)
        → proxy_connection match_wildcard to_lower draw connects pool checks stream
          ≡ tunnels b addr sent
        → IsTunnel pool checks stream b addr sent
    unfolding proxy_connection
    proxy_connection-IsTunnel pool [] stream b addr sent h =
        pick-IsTunnel pool [] stream b addr sent tt h
    proxy_connection-IsTunnel pool (check ∷ checks) stream b addr sent h =
        elim (Option-cases (validate_initial_bytes stream (check ∷ checks))) [
          | inl refused ↦ absurd (cc (rw refused at h))
          | inr (kept, valid) ↦
              let (same, matches) =
                validate_initial_bytes-Matches stream (check ∷ checks) kept valid in
              pick-IsTunnel pool (check ∷ checks) stream b addr sent matches
                (ap (pick match_wildcard to_lower draw connects pool) (sym same) ∙ rw valid at h)
        ]

    module _ (handshake : Option TlsConfig → Option (List ℕ)) where
      abbrev pub run_tcp :
          Bool → List Backend → List TcpRoute → List TcpByteCheck → Option String → List ℕ → Outcome
      run_tcp = handle_tcp_connection match_wildcard to_lower draw connects handshake

      -- The backends that a connection may come to, and the stream that is read from it: those of the
      -- listener and what the client sends, or those of the route and what the handshake makes readable.
      abbrev pub IsOffered :
          Bool
          → List Backend
          → List TcpRoute
          → Option String
          → List ℕ
          → List Backend
          → List ℕ
          → Type 0
      IsOffered has_tls backends routes hello stream pool readable =
          ((has_tls ≡ false) × (pool ≡ backends) × (readable ≡ stream))
          ⊎ ((has_tls ≡ true)
              × (server_name : String) × (hello ≡ some server_name)
              × (pool
                  ≡ backends_or backends
                      (select_tcp_route match_wildcard to_lower server_name routes))
              × (handshake (
                    route_tls match_wildcard to_lower draw connects
                      (select_tcp_route match_wildcard to_lower server_name routes))
                  ≡ some readable))

      secured-IsTunnel :
          (backends : List Backend) (routes : List TcpRoute) (checks : List TcpByteCheck)
          (hello : Option String) (stream : List ℕ) (b : Backend) (addr : String) (sent : List ℕ)
          → secured match_wildcard to_lower draw connects handshake backends routes checks hello
            ≡ tunnels b addr sent
          → (pool : List Backend) × (readable : List ℕ) × IsOffered true backends routes hello
              stream pool readable
            × IsTunnel pool checks readable b addr sent
      secured-IsTunnel backends routes checks none stream b addr sent h = absurd (cc h)
      secured-IsTunnel backends routes checks (some server_name) stream b addr sent h =
          let pool = select_tcp_backends match_wildcard to_lower server_name backends routes in
          let own =
            route_tls match_wildcard to_lower draw connects
              (select_tcp_route match_wildcard to_lower server_name routes) in
          elim (Bool-cases (is_empty pool)) [
            | inl nothing ↦ absurd (cc (rw nothing at h))
            | inr some_pool ↦ elim (Option-cases (handshake own)) [
              | inl failed ↦ absurd (cc (rw (some_pool, failed) at h))
              | inr (readable, done) ↦ (
                pool,
                readable,
                inr (
                  refl,
                  server_name,
                  refl,
                  select_tcp_backends-route server_name backends routes,
                  done,
                ),
                proxy_connection-IsTunnel pool checks readable b addr sent
                    (rw (some_pool, done) at h),
              )
            ]
          ]

      -- A connection that comes to a tunnel comes to one of the backends that it may, which answered under
      -- its own address, and the tunnel has every byte of the stream to send, those that the checks read
      -- included, each of which its check allows. Without TLS these are the listener's backends and the
      -- client's bytes; with TLS the certificate and the backends are those of one route, the first that
      -- serves the server name, or the listener's where none does.
      pub handle_tcp_connection-IsTunnel :
          (has_tls : Bool) (backends : List Backend) (routes : List TcpRoute)
          (checks : List TcpByteCheck) (hello : Option String) (stream : List ℕ) (b : Backend)
          (addr : String) (sent : List ℕ)
          → run_tcp has_tls backends routes checks hello stream ≡ tunnels b addr sent
          → (pool : List Backend) × (readable : List ℕ) × IsOffered has_tls backends routes hello
              stream pool readable
            × IsTunnel pool checks readable b addr sent
      unfolding handle_tcp_connection
      handle_tcp_connection-IsTunnel true backends routes checks hello stream b addr sent h =
          secured-IsTunnel backends routes checks hello stream b addr sent h
      handle_tcp_connection-IsTunnel false backends routes checks hello stream b addr sent h = (
        backends,
        stream,
        inl (refl, refl, refl),
        proxy_connection-IsTunnel backends checks stream b addr sent h,
      )
