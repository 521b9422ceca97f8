-- ===== src/Server/Build/Middlewares.antt =====
-- builder.go of pkg/server, the switches on the names of the middlewares. The compilers of the dynamic
-- and OpenAPI middlewares and the keys of an issuer are parameters.
use gorp.Prelude.{
  String, Bool, true, false, not, List, [], ◌∷◌, Option, none, some, ◌⊎◌, inl, inr, ℤ, pos, ltb_ℤ,
  if◌then◌else◌, str_eq, one_of, ◌*◌,
}
use gorp.Value.{
  Fields, parse_string_or_default, parse_string_map, parse_string_slice, parse_int, parse_duration,
  parse_bool,
}
use gorp.Config.{MiddlewareConfig}
use gorp.Config.Check as Check
use gorp.Config.Middleware.{is_known_middleware, is_response_middleware}
use gorp.Backend.{second}
use gorp.Server.Build.{
  Refusal, unknown_middleware, unknown_response_middleware, no_users, no_tokens, no_keys, no_path,
  bad_code, bad_document, or_else,
}

abbrev pub Headers : Type 0
Headers = List (String × String)

-- A middleware of pkg/routing with its settings
pub data Builtin : Type 0 where
  add_prefix : String → Builtin
  ip_whitelist : List String → Builtin
  delay : ℤ → Builtin
  add_request_headers set_request_header modify_request_headers : Headers → Builtin
  remove_request_headers : List String → Builtin
  correlation_id : String → Builtin
  distributed_tracing cors logging : Builtin
  rate_limit_extensions : ℤ → ℤ → List String → Builtin
  rate_limit_simple : ℤ → ℤ → Builtin
  basic_auth : String → Headers → Builtin
  token_auth : String → List String → String → String → Builtin
  openid_auth : String → String → String → String → String → List String → Bool → Builtin
  digest_auth : String → Headers → ℤ → Builtin
  secure : String → String → String → ℤ → Builtin
  dynamic_request openapi : String → Builtin

pub data Modifier : Type 0 where
  add_response_headers set_response_headers modify_response_headers : Headers → Modifier
  remove_response_headers : List String → Modifier
  add_response_location_prefix set_response_location_host : String → Modifier
  dynamic_response affinity : String → Modifier

-- The cases of the two switches, and their names
pub data Case : Type 0 where
  prefixing whitelisting delaying adding setting modifying removing correlating tracing sharing :
      Case
  logs limiting basic token openid digest securing dynamic validating ignored : Case

pub data ResponseCase : Type 0 where
  adding setting modifying removing prefixing hosting dynamic affine : ResponseCase

abbrev pub cases : List (List String × Case)
cases =
    ("add_prefix" ∷ "addprefix" ∷ [], prefixing)
    ∷ ("ip_allow_list" ∷ "ipallowlist" ∷ "ip_white_list" ∷ "ipwhitelist" ∷ [], whitelisting)
    ∷ ("delay" ∷ [], delaying)
    ∷ ("add_request_headers" ∷ [], Case.adding)
    ∷ ("set_request_headers" ∷ [], Case.setting)
    ∷ ("modify_request_headers" ∷ [], Case.modifying)
    ∷ ("remove_request_headers" ∷ [], Case.removing)
    ∷ ("correlation_id" ∷ [], correlating)
    ∷ ("distributed_tracing" ∷ "tracing" ∷ "trace_context" ∷ [], tracing)
    ∷ ("cors" ∷ [], sharing)
    ∷ ("log" ∷ "logger" ∷ "logging" ∷ [], logs)
    ∷ ("rate" ∷ "rate_limit" ∷ "rate_limiter" ∷ [], limiting)
    ∷ ("basic_auth" ∷ "auth_basic" ∷ [], basic)
    ∷ ("token_auth" ∷ "auth_token" ∷ [], token)
    ∷ ("auth_openid" ∷ "openid_auth" ∷ "auth_oidc" ∷ "oidc_auth" ∷ [], openid)
    ∷ ("digest_auth" ∷ "auth_digest" ∷ [], digest)
    ∷ ("secure_access" ∷ "secureaccess" ∷ "access_secure" ∷ [], securing)
    ∷ ("dynamic_request" ∷ "request_dynamic" ∷ [], Case.dynamic)
    ∷ ("openapi" ∷ "openapi_validate" ∷ "openapi_validation" ∷ [], validating)
    ∷ (
      "add_response_headers" ∷ "set_response_headers" ∷ "modify_response_headers"
          ∷ "remove_response_headers" ∷ "add_location_prefix" ∷ "add_response_location_prefix"
          ∷ "set_location_host" ∷ "replace_location_host" ∷ "set_response_location_host"
          ∷ "dynamic_response" ∷ "response_dynamic" ∷ "response_affinity" ∷ [],
      ignored,
    )
    ∷ []

abbrev pub response_cases : List (List String × ResponseCase)
response_cases =
    ("add_response_headers" ∷ [], ResponseCase.adding)
    ∷ ("set_response_headers" ∷ [], ResponseCase.setting)
    ∷ ("modify_response_headers" ∷ [], ResponseCase.modifying)
    ∷ ("remove_response_headers" ∷ [], ResponseCase.removing)
    ∷ ("add_location_prefix" ∷ "add_response_location_prefix" ∷ [], ResponseCase.prefixing)
    ∷ ("set_location_host" ∷ "replace_location_host" ∷ "set_response_location_host" ∷ [], hosting)
    ∷ ("dynamic_response" ∷ "response_dynamic" ∷ [], ResponseCase.dynamic)
    ∷ ("response_affinity" ∷ [], affine)
    ∷ []

unfoldable pub case_of : {A : Type 0} → String → List (List String × A) → Option A
case_of name [] = none
case_of name ((names, a) ∷ rest) = if one_of name names then some a else case_of name rest

-- A middleware is left out, added or refused.
pub data Step (A : Type 0) : Type 0 where
  skips : Step A
  adds : A → Step A
  refuses : Refusal → Step A

abbrev pub when_text : {A : Type 0} → (String → A) → String → Step A
when_text make s = if str_eq s "" then skips else adds (make s)

abbrev pub when_list : {A B : Type 0} → (List A → B) → Step B → Option (List A) → Step B
when_list make otherwise none = otherwise
when_list make otherwise (some []) = otherwise
when_list make otherwise (some (x ∷ xs)) = adds (make (x ∷ xs))

abbrev pub when_positive : {A : Type 0} → (ℤ → A) → Option ℤ → Step A
when_positive make none = skips
when_positive make (some d) = if ltb_ℤ (pos 0) d then adds (make d) else skips

abbrev pub when_keys : (List String → Builtin) → Option (List String) → Step Builtin
when_keys make none = refuses no_keys
when_keys make (some keys) = adds (make keys)

abbrev pub when_compiled : {A : Type 0} → Refusal → A → Bool → Step A
when_compiled e a true = adds a
when_compiled e a false = refuses e

abbrev pub or_list :
    List String → Option (List String) → Option (List String) → Option (List String)
or_list d none fetched = fetched
or_list d (some []) fetched = fetched
or_list d (some (k ∷ ks)) fetched = some (k ∷ ks)

-- What compiles, and the keys that an issuer publishes
pub record Compilers : Type 0 where
  pub request_code : String → Bool
  pub response_code : String → Bool
  pub document : String → Bool
  pub issuer_keys : String → Option (List String)

module _ (lib : Check.Library) (compilers : Compilers) where
  abbrev pub word : Fields → String → String → String
  word = parse_string_or_default

  abbrev pub time : Fields → String → ℤ → Option ℤ
  time = parse_duration lib.parse_duration

  unfoldable pub build_case : Case → Fields → Step Builtin
  build_case prefixing c = when_text add_prefix (word c "prefix" "")
  build_case whitelisting c = when_list ip_whitelist skips (parse_string_slice c "sources")
  build_case delaying c = when_positive delay (time c "duration" (pos 0))
  build_case Case.adding c = when_list add_request_headers skips (parse_string_map c "headers")
  build_case Case.setting c = when_list set_request_header skips (parse_string_map c "headers")
  build_case Case.modifying c =
      when_list modify_request_headers skips (parse_string_map c "headers")
  build_case Case.removing c =
      when_list remove_request_headers skips (parse_string_slice c "headers")
  build_case correlating c = adds (correlation_id (word c "type" ""))
  build_case tracing c = adds distributed_tracing
  build_case sharing c = adds cors
  build_case logs c = adds logging
  build_case limiting c =
      let max_requests = parse_int c "max_requests" (pos 100) in
      let window = or_else (pos (60 * second)) (time c "window" (pos (60 * second))) in
      when_list (rate_limit_extensions max_requests window)
        (adds (rate_limit_simple max_requests window)) (parse_string_slice c "extensions")
  build_case basic c =
      when_list (basic_auth (word c "realm" "Restricted")) (refuses no_users)
        (parse_string_map c "users")
  build_case token c =
      when_list
        (λ tokens.
          token_auth (word c "realm" "Restricted") tokens (word c "header" "Authorization")
            (word c "prefix" "Bearer "))
        (refuses no_tokens) (parse_string_slice c "tokens")
  build_case openid c =
      let issuer = word c "issuer" "" in
      when_keys
        (λ keys.
          openid_auth issuer (word c "audience" "") (word c "header" "Authorization")
            (word c "prefix" "Bearer ") (word c "algorithm" "RS256") keys
            (parse_bool lib.to_lower c "remove_header" false))
        (or_list [] (parse_string_slice c "keys") (compilers.issuer_keys issuer))
  -- an error of ParseDuration comes with the duration 0
  build_case digest c =
      when_list
        (λ users.
          digest_auth (word c "realm" "Restricted") users
            (or_else (pos 0) (time c "nonce_timeout" (pos (300 * second)))))
        (refuses no_users) (parse_string_map c "users")
  build_case securing c =
      if str_eq (word c "path" "") ""
      then refuses no_path
      else adds (
          secure (word c "path" "") (word c "key" "this-is-a-very-secure-key")
            (word c "redirect" "/")
            (or_else (pos (900 * second)) (time c "duration" (pos (900 * second)))))
  build_case Case.dynamic c =
      let source = word c "code" "" in
      when_compiled bad_code (dynamic_request source) (compilers.request_code source)
  build_case validating c =
      let filename = word c "file" "" in
      when_compiled bad_document (openapi filename) (compilers.document filename)
  build_case ignored c = skips

  unfoldable pub build_response_case : ResponseCase → Fields → Step Modifier
  build_response_case ResponseCase.adding c =
      when_list add_response_headers skips (parse_string_map c "headers")
  build_response_case ResponseCase.setting c =
      when_list set_response_headers skips (parse_string_map c "headers")
  build_response_case ResponseCase.modifying c =
      when_list modify_response_headers skips (parse_string_map c "headers")
  build_response_case ResponseCase.removing c =
      when_list remove_response_headers skips (parse_string_slice c "headers")
  build_response_case ResponseCase.prefixing c =
      when_text add_response_location_prefix (word c "prefix" "")
  build_response_case hosting c = when_text set_response_location_host (word c "host" "")
  build_response_case ResponseCase.dynamic c =
      let source = word c "code" "" in
      when_compiled bad_code (dynamic_response source) (compilers.response_code source)
  build_response_case affine c =
      let header = word c "header" "X-Gorp-Backend-Affinity" in
      adds (affinity (if str_eq header "" then "X-Gorp-Backend-Affinity" else header))

  abbrev pub step_of : Fields → Option Case → Step Builtin
  step_of c none = refuses unknown_middleware
  step_of c (some k) = build_case k c

  abbrev pub response_step_of : Fields → Option ResponseCase → Step Modifier
  response_step_of c none = refuses unknown_response_middleware
  response_step_of c (some k) = build_response_case k c

  -- A name that is not of a response is passed over, where it is known.
  unfoldable pub response_step : MiddlewareConfig → Step Modifier
  response_step m =
      if not (is_response_middleware lib m.name)
      then (if is_known_middleware lib m.name then skips else refuses unknown_response_middleware)
      else response_step_of m.config (case_of (lib.to_lower m.name) response_cases)

  unfoldable pub route_step : MiddlewareConfig → Step Builtin
  route_step m = step_of m.config (case_of (lib.to_lower m.name) cases)

  abbrev pub and_step : {A : Type 0} → Step A → Refusal ⊎ List A → Refusal ⊎ List A
  and_step (refuses e) rest = inl e
  and_step skips rest = rest
  and_step (adds a) (inl e) = inl e
  and_step (adds a) (inr as') = inr (a ∷ as')

  -- Also buildMiddlewareForListener
  unfoldable pub build_middleware_for_route : List MiddlewareConfig → Refusal ⊎ List Builtin
  build_middleware_for_route [] = inr []
  build_middleware_for_route (m ∷ ms) = and_step (route_step m) (build_middleware_for_route ms)

  unfoldable pub build_middleware_for_response : List MiddlewareConfig → Refusal ⊎ List Modifier
  build_middleware_for_response [] = inr []
  build_middleware_for_response (m ∷ ms) =
      and_step (response_step m) (build_middleware_for_response ms)
