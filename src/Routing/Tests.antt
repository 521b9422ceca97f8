-- ===== src/Routing/Tests.antt =====
-- Runs of pkg/routing, and its theorems at concrete inputs.
use gorp.Prelude.{
  ℕ, ◌+◌, ◌-◌, ◌≡◌, refl, str_eq, ◌&&◌, Bool, true, List, [], ◌∷◌, Option, some, arith, pos, String,
  has_prefix,
}
use gorp.Http.{Request}
use gorp.Selector.{chosen}
use gorp.Routing.{
  Route, route_for, find_first, match_endpoint, match_path, match_request, matches_any_path,
  match_wildcard,
}
use gorp.Routing.First.{IsRouteFor, route_for-IsRouteFor}
use gorp.Routing.RateLimiter.{Limiter, new_rate_limiter, find, delete_expired}
use gorp.Routing.RateLimiter.Window.{allowed, asked, min, allowed-window}

-- Only the pattern `*.js` matches anything, and that is `/app.js`.
abbrev glob : String → String → Option Bool
glob pattern path = some (str_eq pattern "*.js" && str_eq path "/app.js")

abbrev base : String → String
base s = s

abbrev route : String → List String → Route ℕ
route prefix paths = record {
  name = prefix;
  prefix = prefix;
  strip_prefix = true;
  hosts = [];
  paths = paths;
  endpoints = [];
  select = λ req. chosen 0;
  middleware = [];
}

abbrev routes : List (Route ℕ)
routes = route "/" [] ∷ route "/x" ("*.js" ∷ []) ∷ []

abbrev req : Request
req = record {
  method = "GET";
  path = "/app.js";
  host = "h";
  remote_addr = "10.0.0.9:1";
  header = [];
}

path_first : route_for glob base routes req "web" ≡ some (route "/x" ("*.js" ∷ []))
unfolding route_for find_first match_endpoint match_path match_request matches_any_path
    match_wildcard has_prefix
path_first = refl

route_for-IsRouteFor_example :
    IsRouteFor glob base routes req "web" (route_for glob base routes req "web")
route_for-IsRouteFor_example = route_for-IsRouteFor glob base routes req "web"

abbrev limiter : Limiter
unfolding new_rate_limiter
limiter = new_rate_limiter (pos 2) (pos 100)

-- Four requests of one client within the window, and one of another.
abbrev others : List (String × ℕ)
others = ("a", 10) ∷ ("b", 11) ∷ ("a", 20) ∷ ("a", 99) ∷ []

allowed-window_example :
    allowed "a" limiter (("a", 5) ∷ others) ≡ min (1 + asked "a" others) (1 + (2 - 1))
unfolding new_rate_limiter find delete_expired
allowed-window_example =
    allowed-window "a" 5 limiter others refl
      (omega arith, (omega arith, (omega arith, (omega arith, tt))))
