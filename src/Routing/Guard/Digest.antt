-- ===== src/Routing/Guard/Digest.antt =====
-- builtin_auth_digest.go of pkg/routing. The nonces are an association list of their expiries; the
-- mutex makes each access to them one step, and a request is handled at one reading of the clock. The
-- hash, the tokens of crypto/rand and strings.TrimSpace are parameters.
pub mod Challenge
pub mod Nonces
use Prim.Native.String.{◌++◌}
use gorp.Prelude.{
  ℕ, ◌+◌, String, Bool, true, false, ◌||◌, not, List, [], ◌∷◌, Option, none, some, ltb,
  if◌then◌else◌, str_eq, has_prefix, trim_prefix, ℤ, pos, suc, value_of, assign, remove,
}
use gorp.Http.{Header, Request, get}
use gorp.Routing.Guard.Params.{parse_digest_params}
use gorp.Routing.Guard.{Outcome, passes, Users, or_default, unauthorized}

abbrev pub Nonces : Type 0
Nonces = List (String × ℕ)

abbrev pub joined : List String → String
joined [] = ""
joined (s ∷ []) = s
joined (s ∷ (t ∷ ts)) = s ++ (":" ++ joined (t ∷ ts))

-- params[name]
abbrev pub or_empty : Option String → String
or_empty none = ""
or_empty (some s) = s

unfoldable pub param : String → List (String × String) → String
param name params = or_empty (value_of name params)

abbrev pub checked : String → Nonces → ℕ → Option ℕ → Nonces × Bool
checked value nonces now none = (nonces, false)
checked value nonces now (some expiry) =
    if ltb expiry now then (remove value nonces, false) else (nonces, true)

unfoldable pub is_valid_nonce : String → ℕ → Nonces → Nonces × Bool
is_valid_nonce value now nonces = checked value nonces now (value_of value nonces)

unfoldable pub response_of :
    (String → String) → String → String → String → List (String × String) → String
response_of md5 realm password method params =
    let hA1 = md5 (joined (param "username" params ∷ realm ∷ password ∷ [])) in
    let hA2 = md5 (joined (method ∷ param "uri" params ∷ [])) in
    md5 (
      joined (
        hA1
        ∷ param "nonce" params
        ∷ param "nc" params
        ∷ param "cnonce" params
        ∷ param "qop" params
        ∷ hA2
        ∷ []))

-- The defaults of DigestAuth: a realm, and five minutes
unfoldable pub realm_of : String → String
realm_of realm = or_default "Restricted" realm

unfoldable pub timeout_of : ℤ → ℕ
timeout_of (pos (suc n)) = suc n
timeout_of _ = 300000000000

unfoldable pub is_complete : String → List (String × String) → Bool
is_complete realm params = not (
    str_eq (param "username" params) ""
    || not (str_eq (param "realm" params) realm)
    || str_eq (param "nonce" params) ""
    || str_eq (param "uri" params) ""
    || str_eq (param "response" params) ""
    || not (str_eq (param "qop" params) "auth")
    || str_eq (param "nc" params) ""
    || str_eq (param "cnonce" params) "")

module _ (canonical md5 : String → String) (trim_space : String → String) (realm : String)
    (timeout : ℤ) where
  unfoldable pub challenge_text : String → String → String
  challenge_text nonce opaque =
      "Digest realm=\""
      ++ (realm_of realm
          ++ ("\", nonce=\""
              ++ (nonce ++ ("\", opaque=\"" ++ (opaque ++ "\", algorithm=MD5, qop=\"auth\"")))))

  -- The nonces with the new one, the answer, and the nonce of the challenge.
  abbrev pub Result : Type 0
  Result = Nonces × Outcome × Option String

  unfoldable pub challenge : ℕ → String → String → Header → Nonces → Result
  challenge now nonce opaque w nonces = (
    assign nonce (now + timeout_of timeout) nonces,
    unauthorized canonical (challenge_text nonce opaque) w,
    some nonce,
  )

  abbrev pub compare_response : Option String → Request → List (String × String) → Bool
  compare_response none r params = false
  compare_response (some password) r params =
      str_eq (response_of md5 (realm_of realm) password r.method params) (param "response" params)

  abbrev pub check_nonce :
      Users
      → ℕ
      → String
      → String
      → Request
      → Header
      → List (String × String)
      → Nonces × Bool
      → Result
  check_nonce users now fresh opaque r w params (left, false) = challenge now fresh opaque w left
  check_nonce users now fresh opaque r w params (left, true) =
      if compare_response (value_of (param "username" params) users) r params
      then (left, passes r w, none)
      else challenge now fresh opaque w left

  -- `fresh` and `opaque` are the tokens that the request may need.
  unfoldable pub digest_auth : Users → ℕ → String → String → Request → Header → Nonces → Result
  digest_auth users now fresh opaque r w nonces =
      let header = get canonical "Authorization" r.header in
      if str_eq header "" || not (has_prefix header "Digest ")
      then challenge now fresh opaque w nonces
      else (let params = parse_digest_params trim_space (trim_prefix header "Digest ") in
          if not (is_complete (realm_of realm) params)
          then challenge now fresh opaque w nonces
          else check_nonce users now fresh opaque r w params
              (is_valid_nonce (param "nonce" params) now nonces))
