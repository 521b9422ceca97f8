-- ===== src/Config/Tables.antt =====
-- validate.go of pkg/config, its tables of middlewares.
use gorp.Prelude.{String, List, [], ◌∷◌, Option, none, some, if◌then◌else◌, one_of}

-- Groups of names and what each name of a group has.
abbrev pub Table : Type 0
Table = List (List String × List String)

unfoldable pub find : String → Table → Option (List String)
find name [] = none
find name ((names, fields) ∷ rest) = if one_of name names then some fields else find name rest

abbrev pub openid : List String
openid = "auth_openid" ∷ "openid_auth" ∷ "auth_oidc" ∷ "oidc_auth" ∷ []

abbrev pub limiters : List String
limiters = "rate" ∷ "rate_limit" ∷ "rate_limiter" ∷ []

abbrev pub middleware_fields : Table
middleware_fields =
    ("add_prefix" ∷ "addprefix" ∷ [], "prefix" ∷ [])
    ∷ ("ip_allow_list" ∷ "ipallowlist" ∷ "ip_white_list" ∷ "ipwhitelist" ∷ [], "sources" ∷ [])
    ∷ ("delay" ∷ [], "duration" ∷ [])
    ∷ (
      "add_request_headers" ∷ "set_request_headers" ∷ "modify_request_headers" ∷ [],
      "headers" ∷ [],
    )
    ∷ ("remove_request_headers" ∷ [], "headers" ∷ [])
    ∷ ("correlation_id" ∷ [], "type" ∷ [])
    ∷ ("distributed_tracing" ∷ "tracing" ∷ "trace_context" ∷ "cors" ∷ [], [])
    ∷ ("log" ∷ "logger" ∷ "logging" ∷ [], [])
    ∷ (limiters, "max_requests" ∷ "window" ∷ "extensions" ∷ [])
    ∷ ("basic_auth" ∷ "auth_basic" ∷ [], "realm" ∷ "users" ∷ [])
    ∷ ("token_auth" ∷ "auth_token" ∷ [], "realm" ∷ "tokens" ∷ "header" ∷ "prefix" ∷ [])
    ∷ (
      openid,
      "issuer" ∷ "audience" ∷ "header" ∷ "prefix" ∷ "algorithm" ∷ "remove_header" ∷ "keys" ∷ [],
    )
    ∷ ("digest_auth" ∷ "auth_digest" ∷ [], "realm" ∷ "users" ∷ "nonce_timeout" ∷ [])
    ∷ (
      "secure_access" ∷ "secureaccess" ∷ "access_secure" ∷ [],
      "path" ∷ "key" ∷ "redirect" ∷ "duration" ∷ [],
    )
    ∷ ("dynamic_request" ∷ "request_dynamic" ∷ [], "code" ∷ [])
    ∷ ("openapi" ∷ "openapi_validate" ∷ "openapi_validation" ∷ [], "file" ∷ [])
    ∷ (
      "add_response_headers" ∷ "set_response_headers" ∷ "modify_response_headers" ∷ [],
      "headers" ∷ [],
    )
    ∷ ("remove_response_headers" ∷ [], "headers" ∷ [])
    ∷ ("add_location_prefix" ∷ "add_response_location_prefix" ∷ [], "prefix" ∷ [])
    ∷ (
      "set_location_host" ∷ "replace_location_host" ∷ "set_response_location_host" ∷ [],
      "host" ∷ [],
    )
    ∷ ("dynamic_response" ∷ "response_dynamic" ∷ [], "code" ∷ [])
    ∷ ("response_affinity" ∷ [], "header" ∷ [])
    ∷ []

abbrev pub response_middlewares : List String
response_middlewares =
    "add_response_headers" ∷ "set_response_headers" ∷ "modify_response_headers"
    ∷ "remove_response_headers" ∷ "add_location_prefix" ∷ "add_response_location_prefix"
    ∷ "set_location_host" ∷ "replace_location_host" ∷ "set_response_location_host"
    ∷ "dynamic_response" ∷ "response_dynamic" ∷ "response_affinity" ∷ []

abbrev pub required_middleware_fields : Table
required_middleware_fields =
    ("basic_auth" ∷ "auth_basic" ∷ "digest_auth" ∷ "auth_digest" ∷ [], "users" ∷ [])
    ∷ ("token_auth" ∷ "auth_token" ∷ [], "tokens" ∷ [])
    ∷ ("add_prefix" ∷ "addprefix" ∷ [], "prefix" ∷ [])
    ∷ ("ip_allow_list" ∷ "ipallowlist" ∷ "ip_white_list" ∷ "ipwhitelist" ∷ [], "sources" ∷ [])
    ∷ ("delay" ∷ [], "duration" ∷ [])
    ∷ (
      "add_request_headers" ∷ "set_request_headers" ∷ "modify_request_headers"
          ∷ "remove_request_headers" ∷ [],
      "headers" ∷ [],
    )
    ∷ (
      "add_response_headers" ∷ "set_response_headers" ∷ "modify_response_headers"
          ∷ "remove_response_headers" ∷ [],
      "headers" ∷ [],
    )
    ∷ ("add_location_prefix" ∷ "add_response_location_prefix" ∷ [], "prefix" ∷ [])
    ∷ (
      "set_location_host" ∷ "replace_location_host" ∷ "set_response_location_host" ∷ [],
      "host" ∷ [],
    )
    ∷ ("secure_access" ∷ "secureaccess" ∷ "access_secure" ∷ [], "path" ∷ [])
    ∷ (
      "dynamic_request" ∷ "request_dynamic" ∷ "dynamic_response" ∷ "response_dynamic" ∷ [],
      "code" ∷ [],
    )
    ∷ ("openapi" ∷ "openapi_validate" ∷ "openapi_validation" ∷ [], "file" ∷ [])
    ∷ []
