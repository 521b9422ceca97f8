-- ===== src/Listener/Proxy.antt =====
-- proxy.go of pkg/listener: the authentication of the forward proxy, the choice of the upstream proxy
-- and what becomes of a request. base64, path.Match, net.SplitHostPort, url.Parse and the functions of
-- strings on white space and case are parameters, and so is whether a dial or a hijack succeeds. The
-- logs, the copying of a tunnel and the exchange with the upstream proxy are left out.
pub mod Served
mod Tests
use Prim.Native.Char.{code}
use Prim.Native.String.{[] as empty, ◌∷◌ as push}
use gorp.Prelude.{
  ℕ, ◌==◌, String, Bool, true, false, ◌&&◌, ◌||◌, not, List, [], ◌∷◌, ◌++◌, Option, none, some, ℤ,
  if◌then◌else◌, is_empty, any, str_eq, one_of, has_prefix, trim_prefix, value_of, cut_at, is_some,
}
use gorp.Http.{Header, Request, get, set, del}

pub record Url : Type 0 where
  pub scheme : String
  pub host : String
  pub user : Option (String × String)

-- CascadeProxy
pub record Settings : Type 0 where
  pub url : String
  pub username : String
  pub password : String
  pub hosts : List String
  pub no_proxy : List String

-- cascadeProxy, without its timeout
pub record Cascade : Type 0 where
  pub url : Url
  pub username : String
  pub password : String
  pub hosts : List String
  pub no_proxy : List String

pub record Library : Type 0 where
  pub to_lower : String → String
  pub trim_space : String → String
  -- strings.Trim with "[]"
  pub trim_brackets : String → String
  pub decode : String → Option String
  -- path.Match; `none` is a bad pattern
  pub path_match : String → String → Option Bool
  pub split_host : String → Option String
  pub parse_url : String → Option Url

-- strings.TrimSuffix with "."
unfoldable pub trim_dot : String → String
trim_dot empty = ""
trim_dot (push c s) =
    let rest = trim_dot s in if code c == b'.' && str_eq s "" then "" else push c rest

abbrev pub is_match : Option Bool → Bool
is_match none = false
is_match (some b) = b

module _ (lib : Library) where
  -- An error, no cascade, or a cascade
  abbrev pub with_user : Settings → Url → Url
  with_user s u =
      if not (is_some u.user) && not (str_eq s.username "")
      then record u { user = some (s.username, s.password) }
      else u

  abbrev pub cascade_of : Settings → Option Url → Option (Option Cascade)
  cascade_of s none = none
  cascade_of s (some u) =
      if str_eq u.host ""
        || not (one_of (lib.to_lower u.scheme) ("http" ∷ "https" ∷ "socks5" ∷ []))
        || any (λ p. not (is_some (lib.path_match p ""))) (s.hosts ++ s.no_proxy)
      then none
      else some (
          some (record {
            url = with_user s u;
            username = s.username;
            password = s.password;
            hosts = s.hosts;
            no_proxy = s.no_proxy;
          }))

  unfoldable pub new_cascade_proxy : Settings → Option (Option Cascade)
  new_cascade_proxy s = if str_eq s.url "" then some none else cascade_of s (lib.parse_url s.url)

  unfoldable pub match_hostname : String → String → Bool
  match_hostname pattern host = is_match (lib.path_match (lib.to_lower pattern) host)

  abbrev pub host_or : String → Option String → String
  host_or address none = lib.trim_brackets address
  host_or address (some host) = host

  unfoldable pub host_from_address : String → String
  host_from_address address = host_or address (lib.split_host address)

  unfoldable pub matches_cascade : Option Cascade → String → Bool
  matches_cascade none given = false
  matches_cascade (some c) given =
      let host = trim_dot (lib.to_lower (lib.trim_space given)) in
      if any (λ p. match_hostname p host) c.no_proxy
      then false
      else if is_empty c.hosts
      then true
      else any (λ p. match_hostname p host) c.hosts

  pub data Dial : Type 0 where
    direct : Dial
    by_socks5 by_http : Cascade → Dial

  abbrev pub by_scheme : Option Cascade → Dial
  by_scheme none = direct
  by_scheme (some c) = if str_eq c.url.scheme "socks5" then by_socks5 c else by_http c

  unfoldable pub dial_cascade : Option Cascade → String → Dial
  dial_cascade c target =
      if matches_cascade c (host_from_address target) then by_scheme c else direct

  abbrev pub decoded_credentials : Option String → Option (String × String)
  decoded_credentials none = none
  decoded_credentials (some credentials) = cut_at b':' credentials

  unfoldable pub parse_proxy_basic_auth : String → Option (String × String)
  parse_proxy_basic_auth value =
      if has_prefix value "Basic "
      then decoded_credentials (lib.decode (trim_prefix value "Basic "))
      else none

  abbrev pub is_password : String → Option String → Bool
  is_password given none = false
  is_password given (some expected) = str_eq expected given

  abbrev pub is_user : List (String × String) → Option (String × String) → Bool
  is_user users none = false
  is_user users (some (username, password)) = is_password password (value_of username users)

  -- An error status with the headers of the response, a tunnel, a request that the Director hands to
  -- httputil.ReverseProxy, whose own edits of it are not in the model, or nothing
  pub data Reply : Type 0 where
    errors : ℕ → Header → Reply
    tunnels : Dial → String → Reply
    forwards : Request → Reply
    aborts : Reply

  module _ (canonical : String → String) (users : List (String × String))
      (cascade : Option Cascade) where
    -- Whether a dial to a target succeeds, whether the response can be hijacked, and whether it is.
    module _ (connects : Dial → String → Bool) (is_hijacker hijacks : Bool) where
      unfoldable pub serve_connect : Request → Header → Reply
      serve_connect r w =
          if str_eq r.host ""
          then errors 400 w
          else if not (connects (dial_cascade cascade r.host) r.host)
          then errors 502 w
          else if not is_hijacker
          then errors 501 w
          else if not hijacks
          then aborts
          else tunnels (dial_cascade cascade r.host) r.host

      unfoldable pub authenticate_proxy : Request → Bool
      authenticate_proxy r =
          is_user users (parse_proxy_basic_auth (get canonical "Proxy-Authorization" r.header))

      -- `absolute` says whether the URL of the request has a scheme and a host.
      unfoldable pub serve_http : Bool → Request → Header → Reply
      serve_http absolute r w =
          if not (is_empty users) && not (authenticate_proxy r)
          then errors 407 (set canonical "Proxy-Authenticate" "Basic realm=\"proxy\"" w)
          else if str_eq r.method "CONNECT"
          then serve_connect r w
          else if not absolute
          then errors 400 w
          else forwards (record r { header = del canonical "Proxy-Authorization" r.header })
