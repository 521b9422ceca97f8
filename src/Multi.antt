-- ===== src/Multi.antt =====
-- pkg/httpmulti: Conn, SplitListener and New of main.go, and cidr.go. What the listener and the
-- connections answer is a sequence of events; a byte is a number. netip.ParsePrefix with Contains,
-- netip.ParseAddr, net.SplitHostPort and strings.Contains are parameters. The logs and the deadlines
-- are left out.
pub mod Accept
pub mod BlockList
pub mod Stream
mod Tests
use Prim.Native.String.{◌++◌ as text_append}
use gorp.Prelude.{
  ℕ, zero, suc, ◌==◌, String, Bool, true, false, ◌&&◌, ◌||◌, not, List, [], ◌∷◌, ◌++◌, Option, none,
  some, if◌then◌else◌, is_empty, is_some, any, str_eq, take, drop, leb, ltb, cut_at, ℤ, pos,
}

-- A connection: its name, the bytes that its client has still to send, the first byte with the error of
-- its read, whether that byte is still to be handed out, and whether the connection was closed.
pub record Conn : Type 0 where
  pub id : ℕ
  pub input : List ℕ
  pub b : ℕ
  pub e : Bool
  pub f : Bool
  pub closed : Bool

abbrev pub smaller : ℕ → ℕ → ℕ
smaller n m = if leb n m then n else m

-- A read of the connection below with room for n bytes: the bytes, the connection, and whether it
-- ends in an error. When m + 1 bytes have arrived it gives what has room, and at the end of the input
-- io.EOF; `none` is any other error, and then it gives nothing.
unfoldable pub read_below : ℕ → Option ℕ → Conn → List ℕ × Conn × Bool
read_below n none c = ([], c, true)
read_below n (some m) c = (
  take (smaller n (suc m)) c.input,
  record c { input = drop (smaller n (suc m)) c.input },
  is_empty c.input,
)

abbrev pub after_first : ℕ → List ℕ × Conn × Bool → List ℕ × Conn × Bool
after_first b (bytes, c, ended) =
    (b ∷ bytes, if ended then record c { closed = true } else c, ended)

-- The first read is given the byte that Accept has read; without room for it, it panics.
unfoldable pub read : ℕ → Option ℕ → Conn → Option (List ℕ × Conn × Bool)
unfolding read_below
read zero m c = if c.f then none else some (read_below zero m c)
read (suc n) m c =
    if c.f
    then (if ltb 0 n && not c.e
        then some (after_first c.b (read_below n m (record c { f = false })))
        else some (c.b ∷ [], record c { f = false }, c.e))
    else some (read_below (suc n) m c)

-- An error of a read or of the listener.
pub record Failure : Type 0 where
  pub eof : Bool
  pub temporary : Bool
  pub text : String

-- What the read of the first byte answers.
pub data FirstRead : Type 0 where
  got : ℕ → FirstRead
  failed : Failure → FirstRead

pub record Arrival : Type 0 where
  pub id : ℕ
  pub remote_addr : String
  pub first : FirstRead
  -- what follows the first byte
  pub rest : List ℕ

pub data Event : Type 0 where
  arrives : Arrival → Event
  accept_fails : Failure → Event

pub data Accepted : Type 0 where
  -- all events are used up
  waits : Accepted
  closed_listener : Accepted
  read_error : Accepted
  plain tls : Conn → Accepted

module _ {Addr : Type 0} (parse_prefix : String → Option (Addr → Bool)) where
  abbrev pub Prefixes : Type 0
  Prefixes = List (Addr → Bool)

  abbrev pub add_prefix : Option (Addr → Bool) → Option Prefixes → Option Prefixes
  add_prefix (some p) (some ps) = some (p ∷ ps)
  add_prefix _ _ = none

  unfoldable pub new_cidr_matcher : List String → Option Prefixes
  new_cidr_matcher [] = some []
  new_cidr_matcher (c ∷ cs) = add_prefix (parse_prefix c) (new_cidr_matcher cs)

unfoldable pub match_addr : {Addr : Type 0} → List (Addr → Bool) → Addr → Bool
match_addr prefixes addr = any (λ p. p addr) prefixes

unfoldable pub is_ignored : (String → String → Bool) → Failure → Bool
is_ignored contains e =
    e.eof
    || contains e.text "i/o timeout"
    || contains e.text "reset by peer"
    || contains e.text "connection aborted"

-- One turn of the loop: it goes on or ends, and closes some connections.
pub data Turn : Type 0 where
  goes_on : List ℕ → Turn
  ends : Accepted → List ℕ → Turn

abbrev pub new_conn : Arrival → ℕ → Conn
new_conn a b = record { id = a.id; input = a.rest; b = b; e = false; f = true; closed = false }

-- The host of net.SplitHostPort, and netip.ParseAddr of it.
module _ {Addr : Type 0} (split_host : String → Option String)
    (parse_addr : String → Option Addr) where
  abbrev pub match_parsed : List (Addr → Bool) → Option Addr → Bool
  match_parsed prefixes none = false
  match_parsed prefixes (some addr) = match_addr prefixes addr

  abbrev pub match_host : List (Addr → Bool) → Option String → Bool
  match_host prefixes none = false
  match_host prefixes (some host) = match_parsed prefixes (parse_addr host)

  unfoldable pub match_conn : List (Addr → Bool) → String → Bool
  match_conn prefixes remote_addr = match_host prefixes (split_host remote_addr)

  -- A nil matcher blocks nothing.
  unfoldable pub is_blocked : Option (List (Addr → Bool)) → String → Bool
  is_blocked none remote_addr = false
  is_blocked (some prefixes) remote_addr = match_conn prefixes remote_addr

  module _ (contains : String → String → Bool) (matcher : Option (List (Addr → Bool)))
      (has_tls force_secure : Bool) where
    unfoldable pub after_read : Arrival → FirstRead → Turn
    after_read a (failed e) =
        if is_ignored contains e then goes_on (a.id ∷ []) else ends read_error (a.id ∷ [])
    after_read a (got b) =
        if b == 22 && has_tls
        then ends (tls (new_conn a b)) []
        else if force_secure
        then goes_on (a.id ∷ [])
        else ends (plain (new_conn a b)) []

    unfoldable pub turn : Event → Turn
    turn (accept_fails e) =
        if e.temporary
        then goes_on []
        else if contains e.text "use of closed network connection"
        then ends closed_listener []
        else goes_on []
    turn (arrives a) =
        if is_blocked matcher a.remote_addr then goes_on (a.id ∷ []) else after_read a a.first

    -- What Accept returns, the connections that it closed, and the events that are left.
    abbrev pub Result : Type 0
    Result = Accepted × List ℕ × List Event

    abbrev pub and_then : Turn → List Event → Result → Result
    and_then (goes_on ids) events (accepted, closed, left) = (accepted, ids ++ closed, left)
    and_then (ends accepted ids) events rest = (accepted, ids, events)

    unfoldable pub accept : List Event → Result
    accept [] = (waits, [], [])
    accept (event ∷ events) = and_then (turn event) events (accept events)

-- The listener that Serve makes of the given one; `none` for the matcher is the nil of Go.
pub record SplitListener (Addr : Type 0) : Type 0 where
  pub read_timeout : ℤ
  pub matcher : Option (List (Addr → Bool))
  pub has_tls : Bool

-- The error of NewCIDRMatcher, here `none`, leaves the listener without a matcher.
unfoldable pub split_listener :
    {Addr : Type 0} → ℤ → Option (List (Addr → Bool)) → Bool → SplitListener Addr
split_listener read_timeout none has_tls = record {
  read_timeout = read_timeout;
  matcher = none;
  has_tls = has_tls;
}
split_listener read_timeout (some prefixes) has_tls = record {
  read_timeout = read_timeout;
  matcher = some prefixes;
  has_tls = has_tls;
}

-- Half a second where no timeout is set
unfoldable pub read_timeout_or : ℤ → ℤ
read_timeout_or (pos zero) = pos 500000000
read_timeout_or t = t

-- Serve up to its call of Serve of net/http: whether the pair and the authority load, and whether the
-- server has a TLS configuration of its own; `none` is an error of the certificates.
unfoldable pub serve :
    {Addr : Type 0}
    → (String → Option (Addr → Bool))
    → (String → String → Bool)
    → Bool
    → ℤ
    → List String
    → String
    → String
    → Option (SplitListener Addr)
serve parse_prefix loads own_tls read_timeout block_list cert_file key_file =
    let matcher = new_cidr_matcher parse_prefix block_list in
    let timeout = read_timeout_or read_timeout in
    if not (str_eq cert_file "") && not (str_eq key_file "")
    then (if loads cert_file key_file then some (split_listener timeout matcher true) else none)
    else some (split_listener timeout matcher own_tls)

-- The address of New.
unfoldable pub new_addr : String → String
new_addr addr =
    let given = if str_eq addr "" then ":80" else addr in
    if not (is_some (cut_at b':' given)) then text_append ":" given else given
