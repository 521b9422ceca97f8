-- ===== src/Transport.antt =====
-- pkg/backend/transport.go: the settings of a backend's transport, its retries and its
-- authentication. TLS settings, url.Parse, base64, the signature of AWS requests and the underlying
-- http.Transport are parameters. A time.Duration is in nanoseconds.
pub mod Delay
pub mod Retry
mod Tests
use Prim.Native.String.{◌++◌ as text_append}
use gorp.Prelude.{
  ℕ, zero, suc, ◌+◌, ◌*◌, ◌==◌, String, Bool, true, false, ◌&&◌, ◌||◌, not, List, [], ◌∷◌, ◌++◌,
  Option, none, some, ◌⊎◌, inl, inr, ℤ, pos, ltb, ltb_ℤ, leb_ℤ, if◌then◌else◌, str_eq, one_of,
}
use gorp.Http.{Header, Request, set}
use gorp.Backend.{second}

pub record ProxyConfig : Type 0 where
  pub url : String
  pub username : String
  pub password : String

pub record AuthConfig : Type 0 where
  pub type : String
  pub username : String
  pub password : String
  pub token : String
  pub header : String
  pub prefix : String
  pub access_key_id : String
  pub secret_access_key : String
  pub region : String
  pub service : String

pub record TransportConfig : Type 0 where
  pub timeout : ℤ
  pub connect_timeout : ℤ
  pub headers_timeout : ℤ
  pub idle_timeout : ℤ
  pub retries : ℤ
  pub retry_backoff : ℤ
  pub compression : Bool
  pub insecure : Bool
  pub ca_file : String
  pub cert_file : String
  pub key_file : String
  pub key_passphrase : String
  pub server_name : String
  pub proxy : Option ProxyConfig
  pub auth : Option AuthConfig

-- A proxy's URL and the user that it names
abbrev pub ProxyUrl : Type 0
ProxyUrl = String × Option (String × String)

pub record Transport : Type 0 where
  pub dial_timeout : ℤ
  pub response_header_timeout : ℤ
  pub idle_conn_timeout : ℤ
  pub disable_compression : Bool
  pub proxy : Option ProxyUrl
  -- authTransport, where there is one, and around it retryTransport: its retries and its backoff
  pub auth : Option AuthConfig
  pub retry : Option (ℤ × ℤ)

pub data Failure : Type 0 where
  bad_retries bad_backoff bad_tls bad_proxy_url : Failure

abbrev pub or_positive : ℤ → ℤ → ℤ
or_positive d e = if leb_ℤ d (pos 0) then e else d

abbrev pub default_backoff : ℤ → ℤ → ℤ
default_backoff retries backoff =
    if ltb_ℤ (pos 0) retries && (leb_ℤ backoff (pos 0) && not (ltb_ℤ backoff (pos 0)))
    then pos 100000000
    else backoff

abbrev pub with_user : ProxyConfig → ProxyUrl → ProxyUrl
with_user c (u, some user) = (u, some user)
with_user c (u, none) =
    if str_eq c.username "" then (u, none) else (u, some (c.username, c.password))

abbrev pub auth_set : Option AuthConfig → Option AuthConfig
auth_set none = none
auth_set (some a) = if str_eq a.type "" then none else some a

-- `tls_config` says whether helper.BuildTLSConfigForUpstream succeeds.
module _ (tls_config : TransportConfig → Bool) (parse : String → Option ProxyUrl) where
  abbrev pub parsed_user : ProxyConfig → Option ProxyUrl → Failure ⊎ Option ProxyUrl
  parsed_user p none = inl bad_proxy_url
  parsed_user p (some u) = inr (some (with_user p u))

  abbrev pub proxy_of : Option ProxyConfig → Failure ⊎ Option ProxyUrl
  proxy_of none = inr none
  proxy_of (some p) = if str_eq p.url "" then inr none else parsed_user p (parse p.url)

  abbrev pub assemble : TransportConfig → Failure ⊎ Option ProxyUrl → Failure ⊎ Transport
  assemble cfg (inl e) = inl e
  assemble cfg (inr proxy) = inr record {
    dial_timeout = or_positive cfg.connect_timeout (or_positive cfg.timeout (pos (30 * second)));
    response_header_timeout =
        or_positive cfg.headers_timeout (or_positive cfg.timeout (pos (30 * second)));
    idle_conn_timeout = or_positive cfg.idle_timeout (pos (90 * second));
    disable_compression = not cfg.compression;
    proxy = proxy;
    auth = auth_set cfg.auth;
    retry =
        if ltb_ℤ (pos 0) cfg.retries
        then some (cfg.retries, default_backoff cfg.retries cfg.retry_backoff)
        else none;
  }

  unfoldable pub new_transport : TransportConfig → Failure ⊎ Transport
  new_transport cfg =
      if ltb_ℤ cfg.retries (pos 0) || ltb_ℤ (pos 5) cfg.retries
      then inl bad_retries
      else if ltb_ℤ cfg.retry_backoff (pos 0)
      then inl bad_backoff
      else if not (tls_config cfg)
      then inl bad_tls
      else assemble cfg (proxy_of cfg.proxy)

-- What a round trip answers: a response, by its status, no response without an error, or an error.
pub data Answer : Type 0 where
  responded : ℕ → Answer
  no_response failed : Answer
  cancelled body_lost exhausted : Answer

pub data Event : Type 0 where
  sent waited : ℕ → Event

unfoldable pub retryable_response : Answer → Bool
retryable_response (responded status) = status == 502 || status == 503 || status == 504
retryable_response no_response = false
retryable_response _ = true

-- The delay after the attempt: the inner loop, `n` turns of it left.
unfoldable pub grow : ℕ → ℕ → ℕ
grow zero delay = delay
grow (suc n) delay =
    let rest = grow n (if ltb 500000000 delay then second else delay * 2) in
    if ltb delay second then rest else delay

unfoldable pub delay_of : ℕ → ℕ → ℕ
unfolding grow
delay_of backoff attempt = grow attempt (if ltb second backoff then second else backoff)

-- A request, with what the base transport answers to each attempt, whether its body can be had
-- again for it, and whether the context is cancelled when it returns or in the delay after it.
pub record Exchange : Type 0 where
  pub method : String
  pub has_body : Bool
  pub has_get_body : Bool
  pub cancelled_first : Bool
  pub base : ℕ → Answer
  pub body_again : ℕ → Bool
  pub cancelled_after : ℕ → Bool
  pub cancelled_waiting : ℕ → Bool

abbrev pub before : List Event → List Event × Answer → List Event × Answer
before es (fs, a) = (es ++ fs, a)

module _ (x : Exchange) (backoff : ℕ) where
  -- `left` attempts are left, of which the next one has the number `attempt`.
  unfoldable pub attempt_from : ℕ → ℕ → List Event × Answer
  unfolding retryable_response delay_of
  attempt_from zero attempt = ([], exhausted)
  attempt_from (suc left) attempt =
      let rest = attempt_from left (suc attempt) in
      let delay = delay_of backoff attempt in
      if ltb 0 attempt && x.has_body && not (x.body_again attempt)
      then ([], body_lost)
      else if left == 0 || not (retryable_response (x.base attempt))
      then (sent attempt ∷ [], x.base attempt)
      else if x.cancelled_after attempt
      then (sent attempt ∷ [], cancelled)
      else if delay == 0
      then before (sent attempt ∷ []) rest
      else if x.cancelled_waiting attempt
      then (sent attempt ∷ [], cancelled)
      else before (sent attempt ∷ waited delay ∷ []) rest

  abbrev pub attempts_of : ℕ → ℕ
  attempts_of retries = if not x.has_body || x.has_get_body then suc retries else 1

  unfoldable pub round_trip : ℕ → List Event × Answer
  unfolding attempt_from
  round_trip retries =
      if not (one_of x.method ("GET" ∷ "HEAD" ∷ []))
      then (sent 0 ∷ [], x.base 0)
      else if x.cancelled_first
      then ([], cancelled)
      else attempt_from (attempts_of retries) 0

-- authTransport on the request's headers; the AWS signer may fail.
module _ (canonical : String → String) (to_lower base64 : String → String)
    (sign : AuthConfig → Header → Option Header) where
  abbrev pub or_text : String → String → String
  or_text s d = if str_eq s "" then d else s

  unfoldable pub authenticate : AuthConfig → Header → Option Header
  unfolding set
  authenticate auth h =
      let type = to_lower auth.type in
      if str_eq type "basic"
      then some (
          set canonical "Authorization"
            (text_append "Basic "
              (base64 (text_append auth.username (text_append ":" auth.password))))
            h)
      else if str_eq type "token"
      then some (
          set canonical (or_text auth.header "Authorization")
            (text_append (or_text auth.prefix "Bearer ") auth.token) h)
      else if str_eq type "aws"
      then sign auth h
      else some h
