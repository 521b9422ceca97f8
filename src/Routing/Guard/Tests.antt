-- ===== src/Routing/Guard/Tests.antt =====
-- Runs of the middlewares that may refuse a request, and their theorems at concrete inputs.
use mathlib.Core.List.{Mem}
use gorp.Prelude.{
  ℕ, ◌+◌, ◌==◌, str_eq, ◌≡◌, ◌≢◌, ◌≤◌, refl, String, false, List, [], ◌∷◌, Option, none, some, ℤ,
  pos, arith, cut_at, cut_prefix, has_prefix, trim_prefix, value_of, assign, if◌then◌else◌,
}
use gorp.Http.{Request, get, raw_values}
use gorp.Routing.Guard.{passes, unauthorized, quoted, token_auth}
use gorp.Routing.Guard.Credentials.{HasToken, Decides, token_auth-Decides}
use gorp.Routing.Guard.Params.{parse_digest_params, trim_left, split_any, turn, loop, size}
use gorp.Routing.Guard.Params.Print.{print, assign_all, parse_digest_params-print}
use gorp.Routing.Guard.Secure.{
  Library, passes as lets_pass, validate_cookie, generate_cookie, secure_access,
}
use gorp.Routing.Guard.Secure.Session.{
  access, IsAccepted, secure_access-session, secure_access-IsAccepted,
}
use gorp.Routing.Guard.Digest.{
  Nonces, param, is_valid_nonce, response_of, is_complete, realm_of, timeout_of, challenge,
  digest_auth,
}
use gorp.Routing.Guard.Digest.Challenge.{digest_auth-challenge}
use gorp.Routing.Guard.Digest.Nonces.{
  auth, params_of, here, handles, HasPassed, digest_auth-HasPassed,
}

abbrev same : String → String
same s = s

abbrev users : List (String × String)
users = ("u", "p") ∷ []

abbrev request : String → Request
request authorization = record {
  method = "GET";
  path = "/";
  host = "h";
  remote_addr = "1.2.3.4:5";
  header = ("Authorization", authorization ∷ []) ∷ [];
}

abbrev digest : String
digest =
    "Digest username=\"u\", realm=\"Restricted\", nonce=\"n\", uri=\"/\", response=\"u:Restricted:p:n:1:c:auth:GET:/\", qop=auth, nc=1, cnonce=\"c\""

-- The realm and the timeout are the defaults: the configured ones are empty and zero.
abbrev challenged : Nonces
challenged = ("n", 300000000005) ∷ []

abbrev issued : List (String × ℕ)
issued = ("n", 5) ∷ []

digest_auth-challenge_example :
    auth same same same "" (pos 0) users 12 "m" "o" (request digest) [] challenged
    ≡ (challenged, passes (request digest) [], none)
unfolding has_prefix cut_prefix trim_prefix get raw_values parse_digest_params turn loop size
    trim_left split_any cut_at param value_of assign is_complete response_of challenge realm_of
    timeout_of
digest_auth-challenge_example =
    digest_auth-challenge same same same "" (pos 0) users 5 12 "n" "m" "o" "o" "p" (request digest)
      [] [] [] refl refl refl refl refl (omega arith)

digest_auth-HasPassed_example :
    (request digest ≡ request digest)
    × ((auth same same same "" (pos 0) users 12 "m" "o" (request digest) [] challenged).0
        ≡ challenged)
    × HasPassed same same same "" (pos 0) users 12 challenged (request digest)
    × ((t : ℕ) × Mem
          (param "nonce" (params_of same same same "" (pos 0) users (request digest)), t)
          issued
        × (12 ≤ t + 300000000000))
unfolding has_prefix cut_prefix trim_prefix get raw_values parse_digest_params turn loop size
    trim_left split_any cut_at param value_of assign is_complete response_of digest_auth challenge
    is_valid_nonce realm_of timeout_of
digest_auth-HasPassed_example =
    digest_auth-HasPassed same same same "" (pos 0) users 12 "m" "o" (request digest)
      (request digest) [] [] (handles 5 "n" "o" (request "") [] here) refl

parse_digest_params-print_example :
    parse_digest_params same (print (("nonce", "n=1, 2") ∷ ("nc", "1") ∷ []))
    ≡ assign_all (("nonce", "n=1, 2") ∷ ("nc", "1") ∷ []) []
unfolding split_any cut_at
parse_digest_params-print_example =
    parse_digest_params-print same (("nonce", "n=1, 2") ∷ ("nc", "1") ∷ []) (
      record { bare = refl; no_end = refl; trimmed = refl; no_quote = refl },
      (record { bare = refl; no_end = refl; trimmed = refl; no_quote = refl }, tt),
    )

-- A key without a value is passed over, and a quote that is not closed ends the text.
parsed : parse_digest_params same "x, a=1,b = \"2\", c=\"3" ≡ ("a", "1") ∷ ("b ", "2") ∷ []
unfolding parse_digest_params turn loop size trim_left split_any cut_at assign
parsed = refl

token_auth-Decides_example :
    Decides
      (HasToken ("t" ∷ []) "Bearer " (get same "Authorization" (request "Bearer t").header))
      (request "Bearer t")
      []
      (unauthorized same (quoted "Bearer" "Restricted") [])
      (token_auth same "" ("t" ∷ []) "" "" (request "Bearer t") [])
token_auth-Decides_example = token_auth-Decides same "" ("t" ∷ []) "" "" (request "Bearer t") []

token_granted :
    token_auth same "" ("t" ∷ []) "" "" (request "Bearer t") [] ≡ passes (request "Bearer t") []
unfolding token_auth get raw_values has_prefix cut_prefix trim_prefix
token_granted = refl

-- The numbers, the encoding and the signature stand for themselves.
abbrev two_digits : ℕ → String
two_digits n = if n == 15 then "15" else "20"

abbrev read_digits : String → Option ℤ
read_digits s = if str_eq s "15" then some (pos 15) else some (pos 20)

abbrev lib : Library
lib = record {
  hmac = λ secret s. s;
  encode = same;
  decode = λ s. some s;
  itoa = two_digits;
  parse_decimal = read_digits;
}

abbrev visit : Request
visit = record (request "") { path = "/open" }

abbrev cookie_of : Request → Option String
cookie_of r = if str_eq r.path "/" then some "15|ab:15|ab|" else none

secure_access-session_example :
    ((access lib "k" same
        (λ r. "")
        cookie_of
        (λ r. false)
        "/open"
        ""
        (pos 5)
        visit
        []
        0
        (some "ab")).2
      ≡ some (record { value = "15|ab:15|ab|"; secure = false }))
    × (access lib "k" same
          (λ r. "")
          cookie_of
          (λ r. false)
          "/open"
          ""
          (pos 5)
          (request "")
          []
          15000000001
          (some "cd")
        ≡ (lets_pass (request ""), [], some (record { value = "15|cd:15|cd|"; secure = false })))
unfolding cut_at
secure_access-session_example =
    secure_access-session lib "k" same (λ r. "") cookie_of (λ r. false) "/open" "" (pos 5) visit
      (request "") [] [] 0 15000000001 "ab" "cd" refl refl refl refl (omega arith) refl refl refl
      refl

secure_access-IsAccepted_example :
    ((request "").path ≢ "/open")
    × ((value : String) × (cookie_of (request "") ≡ some value)
        × IsAccepted lib "k" value "" 15000000001)
unfolding cut_at secure_access validate_cookie generate_cookie
secure_access-IsAccepted_example =
    secure_access-IsAccepted lib "k" same (λ r. "") cookie_of (λ r. false) "/open" "" (pos 5)
      (request "") (request "") [] [] 15000000001 (some "cd")
      (some (record { value = "15|cd:15|cd|"; secure = false })) refl
