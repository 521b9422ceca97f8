-- ===== src/Config/Middleware.antt =====
-- validate.go of pkg/config, the checks on the settings of the middlewares.
use gorp.Prelude.{
  ℕ, suc, String, Bool, true, false, ◌&&◌, ◌||◌, not, List, [], ◌∷◌, ◌++◌, Option, none, some, ℤ,
  pos, negsuc, leb, leb_ℤ, if◌then◌else◌, is_some, str_eq, one_of, ◌-◌,
}
use gorp.Value.{
  Value, null, text, int, int64, uint64, float64, flag, items, table, Values, nil, cons, Fields,
  end, field, lookup,
}
use gorp.Config.{MiddlewareConfig}
use gorp.Config.Tables.{
  find, openid, limiters, middleware_fields, response_middlewares, required_middleware_fields,
}
use gorp.Config.Check.{
  Place, member, element, Problem, report, all_of, Library, validate_duration, required,
  not_supported, route_only, unsupported_field, not_a_string, not_a_string_map, not_a_string_list,
  not_a_boolean, keys_or_issuer, not_positive, not_a_duration,
}

abbrev pub string_fields : List String
string_fields =
    "prefix" ∷ "type" ∷ "realm" ∷ "header" ∷ "algorithm" ∷ "issuer" ∷ "audience" ∷ "key"
    ∷ "redirect" ∷ "path" ∷ "code" ∷ "file" ∷ "host" ∷ []

-- A missing field reads as nil.
abbrev pub empty_value : Option Value → Bool
empty_value none = true
empty_value (some null) = true
empty_value (some (text s)) = str_eq s ""
empty_value (some (items nil)) = true
empty_value (some (table end)) = true
empty_value (some _) = false

abbrev pub is_text : Value → Bool
is_text (text s) = true
is_text _ = false

abbrev pub is_flag : Value → Bool
is_flag (flag b) = true
is_flag _ = false

-- int64(typed) of a uint64 wraps at 2^64.
abbrev pub wrap_uint64 : ℕ → ℤ
wrap_uint64 n = if leb n 9223372036854775807 then pos n else negsuc (18446744073709551615 - n)

unfoldable pub integer_value : Value → ℤ × Bool
integer_value (int n) = (n, true)
integer_value (int64 n) = (n, true)
integer_value (uint64 n) = (wrap_uint64 n, leb n 9223372036854775807)
integer_value (float64 n exact) = (n, exact)
integer_value _ = (pos 0, false)

-- number, valid := ...; !valid || number <= 0
abbrev pub not_a_count : ℤ × Bool → Bool
not_a_count (n, valid) = not valid || leb_ℤ n (pos 0)

unfoldable pub check_texts : Place → Fields → List Problem
unfolding report
check_texts p end = []
check_texts p (field k v fs) =
    report (not (is_text v)) (member k p) not_a_string ++ check_texts p fs

unfoldable pub check_items : Place → String → ℕ → Values → List Problem
unfolding report
check_items p key i nil = []
check_items p key i (cons v vs) =
    report (not (is_text v)) (element key i p) not_a_string ++ check_items p key (suc i) vs

abbrev pub check_map : Place → String → Value → List Problem
unfolding check_texts
check_map p key (table fs) = check_texts (member key p) fs
check_map p key _ = (member key p, not_a_string_map) ∷ []

abbrev pub check_list : Place → String → Value → List Problem
unfolding check_items
check_list p key (items vs) = check_items p key 0 vs
check_list p key _ = (member key p, not_a_string_list) ∷ []

-- The switch on the key, for the middleware with this name.
unfoldable pub check_field : Place → String → String → Value → List Problem
unfolding report
check_field p name key v =
    if one_of key string_fields
    then report (not (is_text v)) (member key p) not_a_string
    else if str_eq key "users"
        || str_eq key "headers"
          && not (one_of name ("remove_request_headers" ∷ "remove_response_headers" ∷ []))
    then check_map p key v
    else if one_of key ("sources" ∷ "tokens" ∷ "keys" ∷ "extensions" ∷ "headers" ∷ [])
    then check_list p key v
    else if str_eq key "remove_header"
    then report (not (is_flag v)) (member key p) not_a_boolean
    else []

unfoldable pub check_fields : Place → String → List String → Fields → List Problem
unfolding report check_field
check_fields p name allowed end = []
check_fields p name allowed (field k v fs) =
    report (not (one_of k allowed)) p (unsupported_field k)
    ++ check_field p name k v
    ++ check_fields p name allowed fs

unfoldable pub check_required : Place → Fields → List String → List Problem
unfolding report lookup
check_required p config [] = []
check_required p config (f ∷ fs) =
    report (empty_value (lookup f config)) (member f p) required ++ check_required p config fs

abbrev pub or_none : Option (List String) → List String
or_none none = []
or_none (some fs) = fs

unfoldable pub check_count : Place → Option Value → List Problem
unfolding report integer_value
check_count p none = []
check_count p (some v) = report (not_a_count (integer_value v)) p not_positive

module _ (lib : Library) where
  unfoldable pub check_time : Place → Option Value → List Problem
  unfolding validate_duration
  check_time p none = []
  check_time p (some (text s)) = validate_duration lib p s true
  check_time p (some _) = (p, not_a_duration) ∷ []

  unfoldable pub check_times : Place → Fields → List String → List Problem
  unfolding lookup check_time
  check_times p config [] = []
  check_times p config (f ∷ fs) =
      check_time (member f p) (lookup f config) ++ check_times p config fs

  unfoldable pub is_known_middleware : String → Bool
  unfolding find
  is_known_middleware name = is_some (find (lib.to_lower name) middleware_fields)

  unfoldable pub is_response_middleware : String → Bool
  is_response_middleware name = one_of (lib.to_lower name) response_middlewares

  -- What follows the lookup of the name, with the fields it allows.
  unfoldable pub validate_known : Place → String → Fields → Bool → List String → List Problem
  unfolding report check_fields check_required check_times is_response_middleware find lookup
  validate_known p name config allow_response allowed =
      let settings = member "config" p in
      all_of (
        report (is_response_middleware name && not allow_response) (member "name" p) route_only
        ∷ check_fields settings name allowed config
        ∷ check_required settings config (or_none (find name required_middleware_fields))
        ∷ report
            (one_of name openid
              && empty_value (lookup "keys" config)
              && empty_value (lookup "issuer" config))
            settings keys_or_issuer
        ∷ (if one_of name limiters
            then check_count (member "max_requests" settings) (lookup "max_requests" config)
            else [])
        ∷ check_times settings config ("duration" ∷ "window" ∷ "nonce_timeout" ∷ [])
        ∷ [])

  abbrev pub if_known : Place → String → Fields → Bool → Option (List String) → List Problem
  unfolding validate_known
  if_known p name config allow_response none = (member "name" p, not_supported) ∷ []
  if_known p name config allow_response (some allowed) =
      validate_known p name config allow_response allowed

  unfoldable pub validate_middleware : Place → MiddlewareConfig → Bool → List Problem
  unfolding find
  validate_middleware p middleware allow_response =
      let name = lib.to_lower middleware.name in
      if_known p name middleware.config allow_response (find name middleware_fields)
