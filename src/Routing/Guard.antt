-- ===== src/Routing/Guard.antt =====
-- The middlewares of pkg/routing that may refuse a request: builtin_auth_basic.go,
-- builtin_auth_token.go, and CORS and IPWhitelist of builtin_middleware.go. A middleware is a function
-- from the request and the headers of the response so far to an outcome. The bodies of the answers
-- and the logs are left out; net/http's BasicAuth and the packages strings and net are parameters.
pub mod Credentials
pub mod Digest
pub mod Params
pub mod Secure
mod Tests
use Prim.Native.String.{◌++◌ as text_append}
use gorp.Prelude.{
  ℕ, String, Bool, true, false, ◌||◌, List, [], ◌∷◌, Option, none, some, if◌then◌else◌, str_eq,
  one_of, has_prefix, trim_prefix, value_of, any,
}
use gorp.Http.{Header, Request, get, set}

-- The request goes to the next handler, or is answered with a status; with the headers of the
-- response so far.
pub data Outcome : Type 0 where
  passes : Request → Header → Outcome
  answers : ℕ → Header → Outcome

abbrev pub or_default : String → String → String
or_default d s = if str_eq s "" then d else s

abbrev pub is_password : String → Option String → Bool
is_password given none = false
is_password given (some expected) = str_eq given expected

abbrev pub quoted : String → String → String
quoted kind realm = text_append kind (text_append " realm=\"" (text_append realm "\""))

abbrev pub Users : Type 0
Users = List (String × String)

abbrev pub knows : Users → Option (String × String) → Bool
knows users none = false
knows users (some (username, password)) = is_password password (value_of username users)

abbrev pub has_token : List String → String → String → Bool
has_token tokens prefix value =
    if has_prefix value prefix then one_of (trim_prefix value prefix) tokens else false

module _ (canonical : String → String) where
  -- The refusal of the three authentications.
  abbrev pub unauthorized : String → Header → Outcome
  unauthorized challenge w = answers 401 (set canonical "WWW-Authenticate" challenge w)

  unfoldable pub basic_auth :
      (Request → Option (String × String)) → String → Users → Request → Header → Outcome
  basic_auth credentials realm users r w =
      if knows users (credentials r)
      then passes r w
      else unauthorized (quoted "Basic" (or_default "Restricted" realm)) w

  unfoldable pub token_auth : String → List String → String → String → Request → Header → Outcome
  token_auth realm tokens header prefix r w =
      if has_token tokens (or_default "Bearer " prefix)
        (get canonical (or_default "Authorization" header) r.header)
      then passes r w
      else unauthorized (quoted "Bearer" (or_default "Restricted" realm)) w

  -- The preflight request is answered.
  unfoldable pub cors : Request → Header → Outcome
  cors r w =
      let allowed = set canonical "Access-Control-Allow-Credentials" "true" (
        set canonical "Access-Control-Allow-Headers" "Content-Type, Authorization, X-Requested-With"
          (set canonical "Access-Control-Allow-Methods" "GET, POST, PUT, DELETE, OPTIONS"
            (set canonical "Access-Control-Allow-Origin" "*" w))) in
      if str_eq r.method "OPTIONS" then answers 200 allowed else passes r allowed

-- net.ParseCIDR with the test of its network, net.ParseIP, and the host of net.SplitHostPort, which is
-- empty on an error.
module _ {Ip : Type 0} (parse_cidr : String → Option (Ip → Bool)) (parse_ip : String → Option Ip)
    (split_host : String → String) where
  abbrev pub add_network : Option (Ip → Bool) → List (Ip → Bool) → List (Ip → Bool)
  add_network none networks = networks
  add_network (some network) networks = network ∷ networks

  unfoldable pub networks_of : List String → List (Ip → Bool)
  networks_of [] = []
  networks_of (cidr ∷ cidrs) = add_network (parse_cidr cidr) (networks_of cidrs)

  abbrev pub first_some : Option Ip → Option Ip → Option Ip
  first_some (some ip) o = some ip
  first_some none o = o

  abbrev pub contains_ip : List (Ip → Bool) → Option Ip → Bool
  contains_ip networks none = false
  contains_ip networks (some ip) = any (λ network. network ip) networks

  unfoldable pub ip_whitelist : List String → Request → Header → Outcome
  unfolding networks_of
  ip_whitelist cidrs r w =
      if contains_ip (networks_of cidrs)
        (first_some (parse_ip (split_host r.remote_addr)) (parse_ip r.remote_addr))
      then passes r w
      else answers 403 w
