-- ===== src/Listener/Tcp.antt =====
-- tcp.go of pkg/listener: the check of the first bytes, the choice of a route and its backends by the
-- server name, and what becomes of a connection. A byte is a number. The read of the ClientHello, the
-- handshake, the dial and rand.Intn are parameters; deadlines, logs and the copying of the tunnel are
-- left out.
pub mod Checked
mod Tests
use gorp.Prelude.{
  ℕ, zero, suc, ◌==◌, String, Bool, true, false, ◌&&◌, ◌||◌, not, List, [], ◌∷◌, ◌++◌, Option, none,
  some, if◌then◌else◌, is_empty, is_some, any, length, ltb, take, drop, get_elem?, str_eq,
  trim_prefix,
}
use gorp.Config.{Backend, TcpRoute, TcpByteCheck, TlsConfig}

abbrev pub is_checked : ℕ → TcpByteCheck → Bool
is_checked byte check = check.any || any (λ value. byte == value) check.values

-- The loop over the checks, with the bytes that were read
unfoldable pub check_bytes : List ℕ → List TcpByteCheck → Bool
check_bytes initial [] = true
check_bytes [] (check ∷ checks) = true
check_bytes (byte ∷ initial) (check ∷ checks) = is_checked byte check && check_bytes initial checks

-- The stream that is left to read: the bytes that were read, and what follows them. `none` is an error.
unfoldable pub validate_initial_bytes : List ℕ → List TcpByteCheck → Option (List ℕ)
validate_initial_bytes input checks =
    if ltb (length input) (length checks)
    then none
    else if check_bytes (take (length checks) input) checks
    then some (take (length checks) input ++ drop (length checks) input)
    else none

pub data Outcome : Type 0 where
  dropped : Outcome
  -- the backend and its address, and the bytes that the tunnel has to send to it
  tunnels : Backend → String → List ℕ → Outcome

module _ (match_wildcard : String → String → Bool) (to_lower : String → String) where
  abbrev pub serves_host : String → TcpRoute → Bool
  serves_host server_name route =
      any (λ host. match_wildcard (to_lower host) (to_lower server_name)) route.hosts

  unfoldable pub select_tcp_route : String → List TcpRoute → Option TcpRoute
  select_tcp_route server_name [] = none
  select_tcp_route server_name (route ∷ routes) =
      let rest = select_tcp_route server_name routes in
      if serves_host server_name route then some route else rest

  unfoldable pub select_tcp_backends : String → List Backend → List TcpRoute → List Backend
  select_tcp_backends server_name fallback [] = fallback
  select_tcp_backends server_name fallback (route ∷ routes) =
      let rest = select_tcp_backends server_name fallback routes in
      if serves_host server_name route then route.backends else rest

  -- The index that rand.Intn draws below a bound, and whether a backend answers.
  module _ (draw : ℕ → ℕ) (connects : Backend → String → Bool) where
    abbrev pub connect : Backend → String → List ℕ → Outcome
    connect b addr stream =
        if str_eq addr ""
        then dropped
        else if connects b addr
        then tunnels b addr stream
        else dropped

    abbrev pub picked : List ℕ → Option Backend → Outcome
    picked stream none = dropped
    picked stream (some b) = connect b (trim_prefix b.url "tcp://") stream

    abbrev pub pick : List Backend → List ℕ → Outcome
    pick backends stream =
        if is_empty backends
        then dropped
        else picked stream (get_elem? backends (draw (length backends)))

    abbrev pub pick_checked : List Backend → Option (List ℕ) → Outcome
    pick_checked backends none = dropped
    pick_checked backends (some stream) = pick backends stream

    -- From the checks of the first bytes on
    unfoldable pub proxy_connection : List Backend → List TcpByteCheck → List ℕ → Outcome
    proxy_connection backends checks stream =
        if is_empty checks
        then pick backends stream
        else pick_checked backends (validate_initial_bytes stream checks)

    abbrev pub has_certificate : Option TlsConfig → Bool
    has_certificate none = false
    has_certificate (some tls) = not (str_eq tls.cert_file "") && not (str_eq tls.key_file "")

    abbrev pub route_tls : Option TcpRoute → Option TlsConfig
    route_tls none = none
    route_tls (some route) = if has_certificate route.tls then route.tls else none

    abbrev pub after_handshake : List Backend → List TcpByteCheck → Option (List ℕ) → Outcome
    after_handshake backends checks none = dropped
    after_handshake backends checks (some stream) = proxy_connection backends checks stream

    -- `hello` is the server name of the ClientHello, on a listener with TLS; `handshake` gives the stream
    -- that the handshake with a certificate, the listener's where it is `none`, makes readable.
    module _ (handshake : Option TlsConfig → Option (List ℕ)) where
      abbrev pub secured :
          List Backend → List TcpRoute → List TcpByteCheck → Option String → Outcome
      secured backends routes checks none = dropped
      secured backends routes checks (some server_name) =
          let chosen = select_tcp_backends server_name backends routes in
          if is_empty chosen
          then dropped
          else after_handshake chosen checks
              (handshake (route_tls (select_tcp_route server_name routes)))

      unfoldable pub handle_tcp_connection :
          Bool → List Backend → List TcpRoute → List TcpByteCheck → Option String → List ℕ → Outcome
      handle_tcp_connection has_tls backends routes checks hello stream =
          if has_tls
          then secured backends routes checks hello
          else proxy_connection backends checks stream
