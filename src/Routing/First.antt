-- ===== src/Routing/First.antt =====
-- The route that the router takes for a request: its place among the routes.
use gorp.Prelude.{
  ℕ, zero, suc, ◌<◌, ◌≡◌, refl, String, Bool, true, false, ◌&&◌, List, [], ◌∷◌, Option, none, some,
  ◌⊎◌, inl, inr, arith, get_elem?, All, Bool-cases,
}
use gorp.Http.{Request}
use gorp.Routing.{Route, find_first, or_else, route_for, match_endpoint, match_path, match_request}

module _ {A : Type 0} where
  -- The route at an index where the test says yes for the first time.
  abbrev pub IsFirst : (Route A → Bool) → List (Route A) → Route A → Type 0
  IsFirst p rs r =
      (i : ℕ) × (get_elem? rs i ≡ some r)
      × (p r ≡ true)
      × ((j : ℕ) (s : Route A) → j < i → get_elem? rs j ≡ some s → p s ≡ false)

  abbrev pub Nowhere : (Route A → Bool) → List (Route A) → Type 0
  Nowhere p rs = All (λ r. p r ≡ false) rs

  abbrev pub Finds : (Route A → Bool) → List (Route A) → Option (Route A) → Type 0
  Finds p rs none = Nowhere p rs
  Finds p rs (some r) = IsFirst p rs r

  earlier :
      (p : Route A → Bool) (r : Route A) (rs : List (Route A)) (i : ℕ)
      → p r ≡ false
      → ((j : ℕ) (s : Route A) → j < i → get_elem? rs j ≡ some s → p s ≡ false)
      → (j : ℕ) (s : Route A) → j < suc i
      → get_elem? (r ∷ rs) j ≡ some s
      → p s ≡ false
  earlier p r rs i none_here before zero s h e = cc (none_here, e)
  earlier p r rs i none_here before (suc j) s h e = before j s (omega arith) e

  Finds-cons :
      (p : Route A → Bool) (r : Route A) (rs : List (Route A)) (o : Option (Route A))
      → p r ≡ false
      → Finds p rs o
      → Finds p (r ∷ rs) o
  Finds-cons p r rs none none_here all = (none_here, all)
  Finds-cons p r rs (some s) none_here (i, at, yes_here, before) =
      (suc i, at, yes_here, earlier p r rs i none_here before)

  pub find_first-Finds : (p : Route A → Bool) (rs : List (Route A)) → Finds p rs (find_first p rs)
  unfolding find_first
  find_first-Finds p [] = tt
  find_first-Finds p (r ∷ rs) = elim (Bool-cases (p r)) [
    | inl e ↦ rw e (zero, refl, e, λ j s h k. absurd (omega (arith, h)))
    | inr e ↦ rw e (Finds-cons p r rs (find_first p rs) e (find_first-Finds p rs))
  ]

module _ (glob : String → String → Option Bool) (base : String → String) {A : Type 0} where
  abbrev pub by_path : Request → String → Route A → Bool
  unfolding match_endpoint match_path
  by_path req endpoint r = match_endpoint r endpoint && match_path glob base r req

  abbrev pub by_rule : Request → String → Route A → Bool
  unfolding match_endpoint match_request
  by_rule req endpoint r = match_endpoint r endpoint && match_request glob base r req

  -- A path pattern outranks the rules of every other route.
  abbrev pub IsRouteFor : List (Route A) → Request → String → Option (Route A) → Type 0
  IsRouteFor rs req endpoint none = Nowhere (by_rule req endpoint) rs
  IsRouteFor rs req endpoint (some r) =
      IsFirst (by_path req endpoint) rs r
      ⊎ (Nowhere (by_path req endpoint) rs × IsFirst (by_rule req endpoint) rs r)

  or_else-IsRouteFor :
      (rs : List (Route A)) (req : Request) (endpoint : String) (o u : Option (Route A))
      → Finds (by_path req endpoint) rs o
      → Finds (by_rule req endpoint) rs u
      → IsRouteFor rs req endpoint (or_else o u)
  or_else-IsRouteFor rs req endpoint none none f g = g
  or_else-IsRouteFor rs req endpoint none (some r) f g = inr (f, g)
  or_else-IsRouteFor rs req endpoint (some r) u f g = inl f

  -- The router takes the first route of the listener one of whose path patterns matches the
  -- request; only where there is none, the first one of the listener that matches by a path, its
  -- prefix, a CONNECT request or a host; and it takes none exactly where no route does.
  pub route_for-IsRouteFor :
      (rs : List (Route A)) (req : Request) (endpoint : String)
      → IsRouteFor rs req endpoint (route_for glob base rs req endpoint)
  unfolding route_for
  route_for-IsRouteFor rs req endpoint =
      or_else-IsRouteFor rs req endpoint (find_first (by_path req endpoint) rs)
        (find_first (by_rule req endpoint) rs) (find_first-Finds (by_path req endpoint) rs)
        (find_first-Finds (by_rule req endpoint) rs)
