-- ===== src/Routing.antt =====
-- pkg/routing: route.go, router.go, wildcard.go and middleware.go, and the order of the routes that
-- pkg/config/loader.go sets. filepath.Match, path.Base and http.ServeFile are parameters; a handler
-- is a function from the request to an answer of any type.
pub mod Chain
pub mod First
pub mod Guard
pub mod Headers
pub mod RateLimiter
pub mod Strip
mod Tests
use Prim.Native.String.{◌++◌ as text_append}
use gorp.Prelude.{
  ℕ, zero, suc, String, Bool, true, false, ◌&&◌, ◌||◌, not, List, [], ◌∷◌, ◌++◌, Option, none, some,
  if◌then◌else◌, length, is_empty, get_elem?, any, str_eq, one_of, has_prefix, trim_prefix,
}
use gorp.Http.{Request}
use gorp.Selector.{Pick, chosen, no_backend, no_valid_backend, panics}

abbrev pub Handler : Type 0 → Type 0
Handler A = Request → A

abbrev pub Middleware : Type 0 → Type 0
Middleware A = Handler A → Handler A

abbrev pub wrap_with {ℓ} : {H : Type ℓ} → Option (H → H) → H → H
wrap_with none h = h
wrap_with (some m) h = m h

-- The loop from the last index down: i indices are left.
unfoldable pub wrap_below {ℓ} : {H : Type ℓ} → List (H → H) → ℕ → H → H
wrap_below ms zero h = h
wrap_below ms (suc i) h = wrap_below ms i (wrap_with (get_elem? ms i) h)

unfoldable pub chain_middleware {ℓ} : {H : Type ℓ} → H → List (H → H) → H
unfolding wrap_below
chain_middleware h ms = wrap_below ms (length ms) h

pub record Route (A : Type 0) : Type 0 where
  pub name : String
  pub prefix : String
  pub strip_prefix : Bool
  pub hosts : List String
  pub paths : List String
  pub endpoints : List String
  pub select : Request → Pick
  pub middleware : List (Middleware A)

pub record Router (A : Type 0) : Type 0 where
  pub routes : List (Route A)
  pub directory : String

-- The path that the backend gets.
unfoldable pub stripped_path : Bool → String → String → String
stripped_path strip prefix path =
    if strip && not (str_eq prefix "")
    then (if has_prefix (trim_prefix path prefix) "/"
        then trim_prefix path prefix
        else text_append "/" (trim_prefix path prefix))
    else path

unfoldable pub match_endpoint : {A : Type 0} → Route A → String → Bool
match_endpoint r endpoint = is_empty r.endpoints || one_of endpoint r.endpoints

module _ {A : Type 0} where
  unfoldable pub find_first : (Route A → Bool) → List (Route A) → Option (Route A)
  find_first p [] = none
  find_first p (r ∷ rs) = if p r then some r else find_first p rs

  abbrev pub or_else : Option (Route A) → Option (Route A) → Option (Route A)
  or_else (some r) o = some r
  or_else none o = o

module _ (glob : String → String → Option Bool) (base : String → String) where
  abbrev pub or_false : Option Bool → Bool
  or_false none = false
  or_false (some b) = b

  unfoldable pub match_wildcard : String → String → Bool
  match_wildcard pattern value = or_false (glob pattern value)

  -- Also matchesAnyPath of the rate limiter.
  unfoldable pub matches_any_path : List String → String → Bool
  unfolding match_wildcard
  matches_any_path patterns path =
      any (λ p. match_wildcard p path || match_wildcard p (base path)) patterns

  module _ {A : Type 0} where
    unfoldable pub match_path : Route A → Request → Bool
    unfolding matches_any_path
    match_path r req = matches_any_path r.paths req.path

    unfoldable pub match_request : Route A → Request → Bool
    unfolding match_path match_wildcard
    match_request r req =
        match_path r req
        || not (str_eq r.prefix "") && has_prefix req.path r.prefix
        || str_eq req.method "CONNECT" && str_eq r.prefix "/"
        || any (λ host. match_wildcard host req.host) r.hosts

    -- The loop over the paths, then the loop over every rule.
    unfoldable pub route_for : List (Route A) → Request → String → Option (Route A)
    unfolding find_first match_endpoint match_path match_request
    route_for routes req endpoint =
        or_else (find_first (λ r. match_endpoint r endpoint && match_path r req) routes)
          (find_first (λ r. match_endpoint r endpoint && match_request r req) routes)

    -- http.Error with a status; the tunnel of backend i, where it opens; its proxy; http.ServeFile
    -- of a name, and http.NotFound.
    module _ (error : ℕ → A) (connect : ℕ → Request → Option A) (proxy : ℕ → Request → A)
        (serve_file : String → Request → A) (not_found : Request → A) where
      abbrev pub or_unavailable : Option A → A
      or_unavailable none = error 502
      or_unavailable (some a) = a

      -- The innermost handler.
      abbrev pub to_backend : ℕ → Handler A
      to_backend i req =
          if str_eq req.method "CONNECT" then or_unavailable (connect i req) else proxy i req

      -- A selector that answers no error answers a backend, so the test on nil is not reached.
      unfoldable pub forward : Route A → Request → Pick → Option A
      unfolding stripped_path chain_middleware
      forward r req (chosen i) = some (
          chain_middleware (to_backend i) r.middleware
            (record req { path = stripped_path r.strip_prefix r.prefix req.path }))
      forward r req no_backend = some (error 502)
      forward r req no_valid_backend = some (error 502)
      -- a panic is no answer
      forward r req panics = none

      unfoldable pub serve_route : Route A → Request → Option A
      unfolding forward
      serve_route r req = forward r req (r.select req)

      abbrev pub serve_found : String → Request → Option (Route A) → Option A
      unfolding serve_route
      serve_found directory req (some r) = serve_route r req
      serve_found directory req none =
          if str_eq directory ""
          then some (not_found req)
          else some (serve_file (text_append directory req.path) req)

      unfoldable pub serve_http_for_endpoint : Router A → Request → String → Option A
      unfolding route_for
      serve_http_for_endpoint router req endpoint =
          serve_found router.directory req (route_for router.routes req endpoint)
