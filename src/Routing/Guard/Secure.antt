-- ===== src/Routing/Guard/Secure.antt =====
-- builtin_secure.go of pkg/routing. Times are nanoseconds since the Unix epoch. The HMAC in hexadecimal,
-- the raw URL base64, the decimal numbers of fmt and strconv and the user agent, cookie and TLS state of
-- a request are parameters; the nonce is `none` where crypto/rand fails. Of a cookie only what varies is
-- kept, and of an answer its status and whether it is a redirect.
pub mod Session
use Prim.Native.String.{◌++◌}
use gorp.Prelude.{
  ℕ, ◌/◌, String, Bool, true, false, Option, none, some, ℤ, pos, leb_ℤ, if◌then◌else◌, str_eq, not,
  cut_at,
}
use gorp.Http.{Header, Request, set, add}
use gorp.Routing.RateLimiter.{add_time}

-- The cookie "access"; one without a value has a negative Max-Age.
pub record Cookie : Type 0 where
  pub value : String
  pub secure : Bool

pub data Reply : Type 0 where
  passes : Request → Reply
  answers : ℕ → Reply
  redirects : String → Reply

-- time.Time.Unix
abbrev pub unix : ℕ → ℕ
unix t = t / 1000000000

pub record Library : Type 0 where
  pub hmac : String → String → String
  pub encode : String → String
  pub decode : String → Option String
  pub itoa : ℕ → String
  pub parse_decimal : String → Option ℤ

module _ (lib : Library) (secret : String) where
  abbrev pub payload : ℤ → ℕ → String → String
  payload ttl now nonce = lib.itoa (unix (add_time now ttl)) ++ ("|" ++ nonce)

  abbrev pub signature : String → String → String
  signature encoded user_agent = lib.hmac secret (encoded ++ ("|" ++ user_agent))

  abbrev pub signed : String → String → String
  signed encoded user_agent = encoded ++ (":" ++ signature encoded user_agent)

  unfoldable pub generate_cookie : String → ℤ → ℕ → Option String → Option String
  generate_cookie user_agent ttl now none = none
  generate_cookie user_agent ttl now (some nonce) =
      some (signed (lib.encode (payload ttl now nonce)) user_agent)

  abbrev pub not_expired : ℕ → Option ℤ → Bool
  not_expired now none = false
  not_expired now (some expire) = leb_ℤ (pos (unix now)) expire

  abbrev pub valid_fields : ℕ → Option (String × String) → Bool
  valid_fields now none = false
  valid_fields now (some (expire, nonce)) = not_expired now (lib.parse_decimal expire)

  abbrev pub valid_payload : ℕ → Option String → Bool
  valid_payload now none = false
  valid_payload now (some text) = valid_fields now (cut_at b'|' text)

  abbrev pub valid_parts : String → ℕ → Option (String × String) → Bool
  valid_parts user_agent now none = false
  valid_parts user_agent now (some (encoded, given)) =
      if not (str_eq (signature encoded user_agent) given)
      then false
      else valid_payload now (lib.decode encoded)

  unfoldable pub validate_cookie : String → String → ℕ → Bool
  validate_cookie value user_agent now = valid_parts user_agent now (cut_at b':' value)

  module _ (canonical : String → String) (user_agent : Request → String)
      (cookie : Request → Option String) (tls : Request → Bool) (path redirect : String)
      (ttl : ℤ) where
    -- The reply, the headers of the response and the cookie that it sets.
    abbrev pub Result : Type 0
    Result = Reply × Header × Option Cookie

    abbrev pub uncached : Header → Header
    uncached w =
        set canonical "Cache-Control" "no-cache,no-store,max-age=0,s-max-age=0,must-revalidate" w

    abbrev pub grant : Request → Header → Option String → Result
    grant r w none = (answers 500, w, none)
    grant r w (some token) =
        let access : Cookie = record { value = token; secure = tls r } in
        if not (str_eq redirect "")
        then (redirects redirect, uncached w, some access)
        else (answers 200, uncached (add canonical "Content-Type" "text/plain" w), some access)

    abbrev pub renew : Request → Header → Option String → Result
    renew r w none = (answers 500, w, none)
    renew r w (some token) = (passes r, w, some (record { value = token; secure = tls r }))

    abbrev pub check_cookie : Request → Header → ℕ → Option String → Option String → Result
    check_cookie r w now fresh none = (answers 410, uncached w, none)
    check_cookie r w now fresh (some value) =
        if not (validate_cookie value (user_agent r) now)
        then (answers 410, uncached w, some (record { value = ""; secure = tls r }))
        else renew r w (generate_cookie (user_agent r) ttl now fresh)

    unfoldable pub secure_access : Request → Header → ℕ → Option String → Result
    secure_access r w now fresh =
        if str_eq r.path path
        then grant r w (generate_cookie (user_agent r) (pos 15000000000) now fresh)
        else check_cookie r w now fresh (cookie r)
