-- ===== src/Server/Build/Counts.antt =====
-- A max_requests of a JSON file: what Validate says of it and what the builder makes of it.
use gorp.Prelude.{ℕ, suc, ◌+◌, String, some, leb, ltb, arith, ◌≡◌, refl, Bool, true, false, [], pos}
use gorp.Value.{end, field, text, float64, lookup, parse_int, parse_duration, parse_string_slice}
use gorp.Config.{MiddlewareConfig}
use gorp.Config.Check as Check
use gorp.Config.Check.{Place, report, is_unset, validate_duration}
use gorp.Config.Tables.{find}
use gorp.Config.Middleware.{
  check_count, integer_value, validate_middleware, validate_known, check_fields, check_field,
  check_required, check_times, check_time, is_response_middleware,
}
use gorp.Server.Build.Middlewares.{
  Compilers, adds, rate_limit_simple, build_case, case_of, route_step,
}

abbrev pub limiter : ℕ → String → MiddlewareConfig
limiter n window = record {
  name = "rate_limit";
  config = field "max_requests" (float64 (pos (suc n)) true) (field "window" (text window) end);
}

module _ (lib : Check.Library) (n d : ℕ) (window : String)
    (lower : lib.to_lower "rate_limit" ≡ "rate_limit") (given : is_unset window ≡ false)
    (read : lib.parse_duration window ≡ some (pos (suc d))) where
  limiter-validate :
      (p : Place) (allow_response : Bool)
      → validate_middleware lib p (limiter n window) allow_response ≡ []
  unfolding validate_middleware find validate_known report check_fields check_field check_required
      check_times check_time validate_duration is_response_middleware lookup check_count
      integer_value Check.all_of
  limiter-validate p allow_response =
      let not_below : leb (suc n + 0) 0 ≡ false = ground arith in
      let positive : leb (suc d + 0) 0 ≡ false = ground arith in
      let nonnegative : ltb (suc d + 0) 0 ≡ false = ground arith in
      rw (lower, not_below, lower, given, read, positive, nonnegative) refl

  limiter-route_step :
      (compilers : Compilers)
      → route_step lib compilers (limiter n window)
        ≡ adds (rate_limit_simple (pos 100) (pos (suc d)))
  unfolding route_step build_case parse_int parse_duration parse_string_slice lookup case_of
  limiter-route_step compilers = rw (lower, read) refl

  -- A rate limiter with a window and a positive whole number of requests that is a float64, as every
  -- number of a JSON file, is accepted by Validate, and is built for that window but for a hundred
  -- requests, whatever the number is; where the name in lower case is itself and the window is a
  -- positive duration.
  pub limiter-validate-route_step :
      (compilers : Compilers) (p : Place) (allow_response : Bool)
      → (validate_middleware lib p (limiter n window) allow_response ≡ [])
        × (route_step lib compilers (limiter n window)
            ≡ adds (rate_limit_simple (pos 100) (pos (suc d))))
  limiter-validate-route_step compilers p allow_response =
      (limiter-validate p allow_response, limiter-route_step compilers)
