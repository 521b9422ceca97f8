-- ===== src/Listener/Socks5/Client.antt =====
-- A SOCKS5 client that keeps to the protocol: its bytes, and what it gets.
use gorp.Prelude.{
  ℕ, suc, ◌+◌, ◌*◌, ◌/◌, ◌%◌, ◌<◌, ◌≡◌, refl, true, false, List, [], ◌∷◌, ◌++◌, Option, some, arith,
  is_empty, ==_iff, length, length-append, ltb, take-length-append, drop-length-append,
}
use mathlib.Core.List.{append_assoc}
use gorp.Listener.Socks5.{
  Bytes, Conn, ok, read_full, write, contains, negotiate, write_reply, reply_bytes, Host, ipv4,
  domain, ipv6, Target, read_host, read_connect_request, tunnel, handle_connection,
  authenticate_user_pass, and_then, Users, password_of, bytes_eq,
}

abbrev pub conn : Bytes → List Bytes → ℕ → Conn
conn input output room = record { input = input; output = output; room = room }

not_short : (bs rest : Bytes) → ltb (length (bs ++ rest)) (length bs) ≡ false
not_short bs rest = ground (arith, length-append bs rest)

pub read_full-append :
    (bs rest : Bytes) (o : List Bytes) (r : ℕ)
    → read_full (length bs) (conn (bs ++ rest) o r) ≡ (conn rest o r, ok bs)
unfolding read_full
read_full-append bs rest o r =
    rw (not_short bs rest, take-length-append bs rest, drop-length-append bs rest) refl

pub write_lem :
    (bs i : Bytes) (o : List Bytes) (r : ℕ)
    → write bs (conn i o (suc r)) ≡ (conn i (o ++ bs ∷ []) r, ok tt)
unfolding write
write_lem bs i o r = refl

-- The greeting with these methods.
abbrev pub greeting : Bytes → Bytes
greeting methods = 5 ∷ length methods ∷ methods

negotiate_open :
    (methods rest : Bytes) (o : List Bytes) (r : ℕ)
    → contains 0 methods ≡ true
    → negotiate [] (conn (greeting methods ++ rest) o (suc r))
      ≡ (conn rest (o ++ (5 ∷ 0 ∷ []) ∷ []) r, ok tt)
unfolding negotiate and_then
negotiate_open methods rest o r h =
    rw
      (
        read_full-append (5 ∷ length methods ∷ []) (methods ++ rest) o (suc r),
        read_full-append methods rest o (suc r),
        h,
        write_lem (5 ∷ 0 ∷ []) rest o r,
      )
      refl

bytes_eq_refl : (bs : Bytes) → bytes_eq bs bs ≡ true
unfolding bytes_eq
bytes_eq_refl [] = refl
bytes_eq_refl (b ∷ bs) = rw ((==_iff b b).1 refl) (bytes_eq_refl bs)

-- The user's name and password.
abbrev pub credentials : Bytes → Bytes → Bytes
credentials user password = 1 ∷ length user ∷ (user ++ (length password ∷ password))

authenticate_known :
    (users : Users) (user password rest : Bytes) (o : List Bytes) (r : ℕ)
    → password_of user users ≡ some password
    → authenticate_user_pass users (conn (credentials user password ++ rest) o (suc r))
      ≡ (conn rest (o ++ (1 ∷ 0 ∷ []) ∷ []) r, ok tt)
unfolding authenticate_user_pass and_then
authenticate_known users user password rest o r known =
    rw
      (
        append_assoc user (length password ∷ password) rest,
        read_full-append (1 ∷ length user ∷ []) (user ++ (length password ∷ (password ++ rest))) o
            (suc r),
        read_full-append user (length password ∷ (password ++ rest)) o (suc r),
        read_full-append (length password ∷ []) (password ++ rest) o (suc r),
        read_full-append password rest o (suc r),
        known,
        bytes_eq_refl password,
        write_lem (1 ∷ 0 ∷ []) rest o r,
      )
      refl

negotiate_user :
    (users : Users) (methods user password rest : Bytes) (o : List Bytes) (r : ℕ)
    → is_empty users ≡ false
    → contains 2 methods ≡ true
    → password_of user users ≡ some password
    → negotiate users
        (conn (greeting methods ++ (credentials user password ++ rest)) o (suc (suc r)))
      ≡ (conn rest ((o ++ (5 ∷ 2 ∷ []) ∷ []) ++ (1 ∷ 0 ∷ []) ∷ []) r, ok tt)
unfolding negotiate and_then
negotiate_user users methods user password rest o r some_user h known =
    let after = credentials user password ++ rest in
    rw
      (
        read_full-append (5 ∷ length methods ∷ []) (methods ++ after) o (suc (suc r)),
        read_full-append methods after o (suc (suc r)),
        some_user,
        h,
        write_lem (5 ∷ 2 ∷ []) after o (suc r),
        authenticate_known users user password rest (o ++ (5 ∷ 2 ∷ []) ∷ []) r known,
      )
      refl

abbrev pub IsHost : Host → Type 0
IsHost (ipv4 a) = length a ≡ 4
IsHost (domain a) = length a < 256
IsHost (ipv6 a) = length a ≡ 16

abbrev pub host_type : Host → ℕ
host_type (ipv4 a) = 1
host_type (domain a) = 3
host_type (ipv6 a) = 4

abbrev pub host_bytes : Host → Bytes
host_bytes (ipv4 a) = a
host_bytes (domain a) = length a ∷ a
host_bytes (ipv6 a) = a

read_host-host_bytes :
    (h : Host) (rest : Bytes) (o : List Bytes) (r : ℕ)
    → IsHost h
    → read_host (host_type h) (conn (host_bytes h ++ rest) o r) ≡ (conn rest o r, ok h)
unfolding read_host and_then
read_host-host_bytes (ipv4 a) rest o r size = rw (← size) (rw (read_full-append a rest o r) refl)
read_host-host_bytes (domain a) rest o r size =
    rw (read_full-append (length a ∷ []) (a ++ rest) o r, read_full-append a rest o r) refl
read_host-host_bytes (ipv6 a) rest o r size = rw (← size) (rw (read_full-append a rest o r) refl)

-- The request of a connection; the third byte is reserved.
abbrev pub request : ℕ → Host → ℕ → Bytes
request reserved h port =
    5 ∷ 1 ∷ reserved ∷ host_type h ∷ (host_bytes h ++ (port / 256) ∷ (port % 256) ∷ [])

read_connect_request-request :
    (reserved : ℕ) (h : Host) (port : ℕ) (rest : Bytes) (o : List Bytes) (r : ℕ)
    → IsHost h
    → read_connect_request (conn (request reserved h port ++ rest) o r)
      ≡ (conn rest o r, ok (h, port))
unfolding read_connect_request and_then
read_connect_request-request reserved h port rest o r fits =
    let whole : (port / 256) * 256 + port % 256 ≡ port = omega arith in
    let after : Bytes = (port / 256) ∷ (port % 256) ∷ rest in
    rw
      (
        append_assoc (host_bytes h) ((port / 256) ∷ (port % 256) ∷ []) rest,
        read_full-append (5 ∷ 1 ∷ reserved ∷ host_type h ∷ []) (host_bytes h ++ after) o r,
        read_host-host_bytes h after o r fits,
        read_full-append ((port / 256) ∷ (port % 256) ∷ []) rest o r,
        whole,
      )
      refl

some_user :
    (user p : Bytes) (users : Users) → password_of user users ≡ some p → is_empty users ≡ false
unfolding password_of
some_user user p [] h = cc h
some_user user p (u ∷ us) h = refl

module _ (dial : Target → Option (Option (Bytes × ℕ))) (methods rest : Bytes) (reserved : ℕ)
    (h : Host) (port r : ℕ) (address : Option (Bytes × ℕ)) (fits : IsHost h)
    (reached : dial (h, port) ≡ some address) where
  -- Where the listener has no users, a client that keeps to the protocol, offers the method 0 and
  -- names a target that the dial reaches gets its tunnel to that target, with every byte that it sent
  -- after the request still unread, and was sent the chosen method and the reply 0 with the address
  -- of the connection, and nothing else.
  pub handle_connection-request :
      contains 0 methods ≡ true
      → handle_connection dial []
          (conn (greeting methods ++ (request reserved h port ++ rest)) [] (suc (suc r)))
        ≡ (conn rest ((5 ∷ 0 ∷ []) ∷ reply_bytes 0 address ∷ []) r, tunnel (h, port))
  unfolding handle_connection write_reply
  handle_connection-request m =
      rw
        (
          negotiate_open methods (request reserved h port ++ rest) [] (suc r) m,
          read_connect_request-request reserved h port rest ((5 ∷ 0 ∷ []) ∷ []) (suc r) fits,
          reached,
          write_lem (reply_bytes 0 address) rest ((5 ∷ 0 ∷ []) ∷ []) r,
        )
        refl

  -- Where the listener has users, a client that keeps to the protocol, offers the method 2, sends the
  -- name and the password of a user and names a target that the dial reaches gets its tunnel to that
  -- target, with every byte that it sent after the request still unread, and was sent the chosen
  -- method, the status 0 of the authentication and the reply 0 with the address of the connection,
  -- and nothing else.
  pub handle_connection-credentials :
      (users : Users) (user password : Bytes)
      → contains 2 methods ≡ true
      → password_of user users ≡ some password
      → handle_connection dial users (
          conn
            (greeting methods ++ (credentials user password ++ (request reserved h port ++ rest)))
            []
            (suc (suc (suc r))))
        ≡ (conn rest ((5 ∷ 2 ∷ []) ∷ (1 ∷ 0 ∷ []) ∷ reply_bytes 0 address ∷ []) r, tunnel (h, port))
  unfolding handle_connection write_reply
  handle_connection-credentials users user password m known =
      let sent : List Bytes = (5 ∷ 2 ∷ []) ∷ (1 ∷ 0 ∷ []) ∷ [] in
      rw
        (
          negotiate_user users methods user password (request reserved h port ++ rest) [] (suc r)
              (some_user user password users known) m known,
          read_connect_request-request reserved h port rest sent (suc r) fits,
          reached,
          write_lem (reply_bytes 0 address) rest sent r,
        )
        refl
