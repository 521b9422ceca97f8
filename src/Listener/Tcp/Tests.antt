-- ===== src/Listener/Tcp/Tests.antt =====
-- Runs of the TCP listener, and its theorem at a concrete input.
use gorp.Prelude.{
  ℕ, ◌≡◌, refl, Bool, true, false, List, [], ◌∷◌, none, some, str_eq, trim_prefix, cut_prefix,
}
use gorp.Config.{Backend, TcpRoute, TcpByteCheck}
use gorp.Config.Tests.{backend}
use gorp.Listener.Tcp.{
  Outcome, dropped, tunnels, check_bytes, validate_initial_bytes, select_tcp_route,
  select_tcp_backends, proxy_connection, handle_tcp_connection,
}
use gorp.Listener.Tcp.Checked.{run_tcp, IsOffered, IsTunnel, handle_tcp_connection-IsTunnel}

abbrev far : Backend
far = record backend { url = "tcp://far:1" }

abbrev routes : List TcpRoute
routes = record { name = "r"; hosts = "site" ∷ []; tls = none; backends = far ∷ [] } ∷ []

-- Any byte, and then 1 or 2.
abbrev checks : List TcpByteCheck
checks = record { any = true; values = [] } ∷ record { any = false; values = 1 ∷ 2 ∷ [] } ∷ []

abbrev ran : Bool → List ℕ → Outcome
ran has_tls =
    run_tcp (λ p s. str_eq p s) (λ s. s) (λ n. 0) (λ b a. true) (λ c. some (9 ∷ 2 ∷ 5 ∷ [])) has_tls
      (backend ∷ []) routes checks (some "site")

by_name : ran true [] ≡ tunnels far "far:1" (9 ∷ 2 ∷ 5 ∷ [])
unfolding handle_tcp_connection select_tcp_backends select_tcp_route proxy_connection
    validate_initial_bytes check_bytes trim_prefix cut_prefix
by_name = refl

third_value : ran false (9 ∷ 3 ∷ []) ≡ dropped
unfolding handle_tcp_connection proxy_connection validate_initial_bytes check_bytes
third_value = refl

handle_tcp_connection-IsTunnel_example :
    (pool : List Backend) × (readable : List ℕ) × IsOffered
      (λ p s. str_eq p s)
      (λ s. s)
      (λ n. 0)
      (λ b a. true)
      (λ c. some (9 ∷ 2 ∷ 5 ∷ []))
      true
      (backend ∷ [])
      routes
      (some "site")
      []
      pool
      readable
    × IsTunnel
        (λ p s. str_eq p s)
        (λ s. s)
        (λ n. 0)
        (λ b a. true)
        pool
        checks
        readable
        far
        "far:1"
        (9 ∷ 2 ∷ 5 ∷ [])
handle_tcp_connection-IsTunnel_example =
    handle_tcp_connection-IsTunnel (λ p s. str_eq p s) (λ s. s) (λ n. 0) (λ b a. true)
      (λ c. some (9 ∷ 2 ∷ 5 ∷ [])) true (backend ∷ []) routes checks (some "site") [] far "far:1"
      (9 ∷ 2 ∷ 5 ∷ []) by_name
