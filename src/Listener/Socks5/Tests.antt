-- ===== src/Listener/Socks5/Tests.antt =====
-- Runs of the SOCKS5 listener, and its theorems at concrete inputs.
use gorp.Prelude.{ℕ, ◌≡◌, refl, [], ◌∷◌, ◌++◌, Option, none, some}
use gorp.Listener.Socks5.{
  Bytes, Conn, tunnel, closed, Target, ipv4, Users, handle_connection, negotiate,
  authenticate_user_pass, read_connect_request, read_host, read_full, write, write_reply,
  reply_bytes, and_then, contains, bytes_eq, password_of, after_request,
}
use gorp.Listener.Socks5.Client.{
  conn, greeting, credentials, request, handle_connection-credentials,
}
use gorp.Listener.Socks5.Secure.{Opens, handle_connection-Opens}
use gorp.Listener.Socks5.Requests.{after_request-denied}

abbrev dial : Target → Option (Option (Bytes × ℕ))
dial target = some (some (10 ∷ 0 ∷ 0 ∷ 1 ∷ [], 4660))

abbrev users : Users
users = (b'a' ∷ [], b'p' ∷ b'w' ∷ []) ∷ []

abbrev client : Conn
client =
    conn
      (5 ∷ 1 ∷ 2 ∷ 1 ∷ 1 ∷ b'a' ∷ 2 ∷ b'p' ∷ b'w' ∷ 5 ∷ 1 ∷ 0 ∷ 1 ∷ 127 ∷ 0 ∷ 0 ∷ 1 ∷ 0 ∷ 80 ∷ 33
        ∷ [])
      [] 9

abbrev served : Conn
served =
    conn (33 ∷ [])
      ((5 ∷ 2 ∷ []) ∷ (1 ∷ 0 ∷ []) ∷ (5 ∷ 0 ∷ 0 ∷ 1 ∷ 10 ∷ 0 ∷ 0 ∷ 1 ∷ 18 ∷ 52 ∷ []) ∷ []) 6

open_tunnel :
    handle_connection dial users client ≡ (served, tunnel (ipv4 (127 ∷ 0 ∷ 0 ∷ 1 ∷ []), 80))
unfolding handle_connection negotiate authenticate_user_pass read_connect_request read_host
    read_full write write_reply reply_bytes and_then contains bytes_eq password_of
open_tunnel = refl

wrong_password :
    (handle_connection dial users (conn (5 ∷ 1 ∷ 2 ∷ 1 ∷ 1 ∷ b'a' ∷ 1 ∷ b'p' ∷ []) [] 9)).1 ≡ closed
unfolding handle_connection negotiate authenticate_user_pass read_full write and_then contains
    bytes_eq password_of
wrong_password = refl

handle_connection-Opens_example :
    (d : Conn) × Opens users client.input d.input
    × (handle_connection dial users client ≡ after_request dial (read_connect_request d))
handle_connection-Opens_example =
    handle_connection-Opens dial users client served (ipv4 (127 ∷ 0 ∷ 0 ∷ 1 ∷ []), 80) refl
      open_tunnel

abbrev host : Bytes
host = 127 ∷ 0 ∷ 0 ∷ 1 ∷ []

abbrev local_address : Option (Bytes × ℕ)
local_address = some (10 ∷ 0 ∷ 0 ∷ 1 ∷ [], 4660)

handle_connection-credentials_example :
    handle_connection dial users (
      conn
        (greeting (2 ∷ [])
          ++ (credentials (b'a' ∷ []) (b'p' ∷ b'w' ∷ []) ++ (request 0 (ipv4 host) 80 ++ 33 ∷ [])))
        []
        4)
    ≡ (
      conn (33 ∷ []) ((5 ∷ 2 ∷ []) ∷ (1 ∷ 0 ∷ []) ∷ reply_bytes 0 local_address ∷ []) 1,
      tunnel (ipv4 host, 80),
    )
unfolding contains password_of bytes_eq
handle_connection-credentials_example =
    handle_connection-credentials dial (2 ∷ []) (33 ∷ []) 0 (ipv4 host) 80 1 local_address refl refl
      users (b'a' ∷ []) (b'p' ∷ b'w' ∷ []) refl refl

-- BIND
after_request-denied_example :
    after_request dial (read_connect_request (conn (5 ∷ 2 ∷ 0 ∷ 1 ∷ []) [] 4))
    ≡ (conn [] (reply_bytes 7 none ∷ reply_bytes 1 none ∷ []) 2, closed)
after_request-denied_example = after_request-denied dial 5 2 0 1 2 [] [] refl
