-- ===== src/Listener/Socks5.antt =====
-- socks5.go of pkg/listener: one client connection, from its greeting to the tunnel. A byte is a
-- number; the connection holds the bytes that the client sends before it closes, the writes to it so
-- far and the number of writes that still succeed. Deadlines and the copying of the tunnel are left
-- out. net.IP.String, net.JoinHostPort and the dial are outside: a target is an address and a port.
pub mod Client
pub mod Requests
pub mod Secure
mod Tests
use gorp.Prelude.{
  ℕ, zero, suc, ◌+◌, ◌*◌, ◌/◌, ◌%◌, ◌==◌, Bool, true, false, ◌&&◌, ◌||◌, not, List, [], ◌∷◌, ◌++◌,
  Option, none, some, if◌then◌else◌, is_empty, length, ltb, take, drop,
}

abbrev pub Bytes : Type 0
Bytes = List ℕ

pub record Conn : Type 0 where
  pub input : Bytes
  pub output : List Bytes
  pub room : ℕ

pub data Failure : Type 0 where
  short_read write_failed bad_version no_method bad_credentials bad_command bad_address : Failure

pub data Result (A : Type 0) : Type 0 where
  ok : A → Result A
  err : Failure → Result A

abbrev pub M : Type 0 → Type 0
M A = Conn → Conn × Result A

unfoldable pub and_then : {A B : Type 0} → Conn × Result A → (A → M B) → Conn × Result B
and_then (c, ok a) f = f a c
and_then (c, err e) f = (c, err e)

infixl 5 ◌>>=◌ ◌>>◌
abbrev pub ◌>>=◌ : {A B : Type 0} → M A → (A → M B) → M B
◌>>=◌ m f c = and_then (m c) f

abbrev pub ◌>>◌ : {A B : Type 0} → M A → M B → M B
m >> k = m >>= λ _. k

abbrev pub pure : {A : Type 0} → A → M A
pure a c = (c, ok a)

abbrev pub fail : {A : Type 0} → Failure → M A
fail e c = (c, err e)

abbrev pub guard : Bool → Failure → M (Unit {0})
guard true e = pure tt
guard false e = fail e

-- io.ReadFull: a short read takes what there is.
unfoldable pub read_full : ℕ → M Bytes
read_full n c =
    if ltb (length c.input) n
    then (record c { input = [] }, err short_read)
    else (record c { input = drop n c.input }, ok (take n c.input))

abbrev pub written : Bytes → Conn → ℕ → Conn × Result (Unit {0})
written bs c zero = (c, err write_failed)
written bs c (suc room) = (record c { output = c.output ++ bs ∷ []; room = room }, ok tt)

unfoldable pub write : Bytes → M (Unit {0})
write bs c = written bs c c.room

-- A write whose error is dropped
abbrev pub try_write : Bytes → Conn → Conn
try_write bs c = (write bs c).0

-- buffer[i], where the buffer was filled
abbrev pub byte_at : ℕ → Bytes → ℕ
byte_at i [] = 0
byte_at zero (b ∷ bs) = b
byte_at (suc i) (b ∷ bs) = byte_at i bs

unfoldable pub bytes_eq : Bytes → Bytes → Bool
bytes_eq [] [] = true
bytes_eq [] (b ∷ bs) = false
bytes_eq (a ∷ as') [] = false
bytes_eq (a ∷ as') (b ∷ bs) = a == b && bytes_eq as' bs

unfoldable pub contains : ℕ → Bytes → Bool
contains n [] = false
contains n (b ∷ bs) = b == n || contains n bs

-- The map of users, by the bytes of the names and passwords.
abbrev pub Users : Type 0
Users = List (Bytes × Bytes)

unfoldable pub password_of : Bytes → Users → Option Bytes
password_of name [] = none
password_of name ((n, p) ∷ users) = if bytes_eq n name then some p else password_of name users

abbrev pub is_password : Bytes → Option Bytes → Bool
is_password given none = false
is_password given (some expected) = bytes_eq expected given

unfoldable pub authenticate_user_pass : Users → M (Unit {0})
authenticate_user_pass users = do
  header ← read_full 2
  guard (byte_at 0 header == 1) bad_version
  username ← read_full (byte_at 1 header)
  password_length ← read_full 1
  password ← read_full (byte_at 0 password_length)
  let valid = is_password password (password_of username users)
  write (1 ∷ (if valid then 0 else 255) ∷ [])
  guard valid bad_credentials

-- The methods 0 and 2 are those without authentication and with user and password.
unfoldable pub negotiate : Users → M (Unit {0})
negotiate users = do
  header ← read_full 2
  guard (byte_at 0 header == 5) bad_version
  methods ← read_full (byte_at 1 header)
  if is_empty users
      then (if contains 0 methods then write (5 ∷ 0 ∷ []) else λ c.
          (try_write (5 ∷ 255 ∷ []) c, err no_method))
      else (if contains 2 methods then write (5 ∷ 2 ∷ []) >> authenticate_user_pass users else λ c.
          (try_write (5 ∷ 255 ∷ []) c, err no_method))

-- net.IP.To4
abbrev pub mapped : Bytes → Option Bytes
mapped bs =
    if bytes_eq (take 12 bs) (0 ∷ 0 ∷ 0 ∷ 0 ∷ 0 ∷ 0 ∷ 0 ∷ 0 ∷ 0 ∷ 0 ∷ 255 ∷ 255 ∷ [])
    then some (drop 12 bs)
    else none

abbrev pub to4 : Bytes → Option Bytes
unfolding bytes_eq
to4 bs = if length bs == 4 then some bs else if length bs == 16 then mapped bs else none

-- uint16, big endian
abbrev pub port_bytes : ℕ → Bytes
port_bytes port = ((port / 256) % 256) ∷ (port % 256) ∷ []

abbrev pub address_bytes : Bytes → Option Bytes → Bytes
address_bytes ip (some v4) = 1 ∷ v4
address_bytes ip none = 4 ∷ ip

-- The reply with this status; `none` is an address that is no *net.TCPAddr, and an IP of no bytes
-- is nil.
unfoldable pub reply_bytes : ℕ → Option (Bytes × ℕ) → Bytes
unfolding bytes_eq
reply_bytes status none = 5 ∷ status ∷ 0 ∷ 1 ∷ 0 ∷ 0 ∷ 0 ∷ 0 ∷ 0 ∷ 0 ∷ []
reply_bytes status (some ([], port)) = 5 ∷ status ∷ 0 ∷ 1 ∷ 0 ∷ 0 ∷ 0 ∷ 0 ∷ port_bytes port
reply_bytes status (some (b ∷ bs, port)) =
    5 ∷ status ∷ 0 ∷ (address_bytes (b ∷ bs) (to4 (b ∷ bs)) ++ port_bytes port)

unfoldable pub write_reply : ℕ → Option (Bytes × ℕ) → M (Unit {0})
write_reply status address = write (reply_bytes status address)

pub data Host : Type 0 where
  ipv4 domain ipv6 : Bytes → Host

abbrev pub Target : Type 0
Target = Host × ℕ

unfoldable pub read_host : ℕ → M Host
read_host type =
    if type == 1
    then (do address ← read_full 4; pure (ipv4 address))
    else if type == 3
    then (do size ← read_full 1; address ← read_full (byte_at 0 size); pure (domain address))
    else if type == 4
    then (do address ← read_full 16; pure (ipv6 address))
    else fail bad_address

unfoldable pub read_connect_request : M Target
read_connect_request = do
  header ← read_full 4
  if byte_at 0 header == 5 && byte_at 1 header == 1
      then (do
        host ← read_host (byte_at 3 header)
        port ← read_full 2
        pure (host, byte_at 0 port * 256 + byte_at 1 port))
      else λ c. ((write_reply 7 none c).0, err bad_command)

-- What the connection comes to.
pub data Outcome : Type 0 where
  closed : Outcome
  tunnel : Target → Outcome

-- `dial` gives the local address of the connection to the target.
module _ (dial : Target → Option (Option (Bytes × ℕ))) where
  abbrev pub after_reply : Target → Conn × Result (Unit {0}) → Conn × Outcome
  after_reply target (c, ok _) = (c, tunnel target)
  after_reply target (c, err e) = (c, closed)

  abbrev pub after_dial : Target → Conn → Option (Option (Bytes × ℕ)) → Conn × Outcome
  after_dial target c none = ((write_reply 1 none c).0, closed)
  after_dial target c (some address) = after_reply target (write_reply 0 address c)

  abbrev pub after_request : Conn × Result Target → Conn × Outcome
  after_request (c, err e) = ((write_reply 1 none c).0, closed)
  after_request (c, ok target) = after_dial target c (dial target)

  abbrev pub after_negotiation : Conn × Result (Unit {0}) → Conn × Outcome
  after_negotiation (c, err e) = (c, closed)
  after_negotiation (c, ok _) = after_request (read_connect_request c)

  unfoldable pub handle_connection : Users → Conn → Conn × Outcome
  handle_connection users c = after_negotiation (negotiate users c)
