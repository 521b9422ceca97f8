-- ===== src/Server/Build/Refusals.antt =====
-- No middleware is refused for want of backends.
use gorp.Prelude.{
  ◌≡◌, refl, String, Bool, true, false, List, [], ◌∷◌, Option, none, some, ◌⊎◌, inl, inr, ℤ, pos,
  ltb_ℤ, str_eq, Bool-cases, Option-cases,
}
use gorp.Value.{Fields}
use gorp.Config.{MiddlewareConfig}
use gorp.Config.Check as Check
use gorp.Config.Middleware.{is_known_middleware, is_response_middleware}
use gorp.Server.Build.{Refusal, no_backends}
use gorp.Server.Build.Middlewares.{
  Builtin, Case, prefixing, whitelisting, delaying, correlating, tracing, sharing, logs, limiting,
  basic, token, openid, digest, securing, validating, ignored, cases, ResponseCase, hosting, affine,
  response_cases, case_of, Step, skips, adds, refuses, when_text, when_list, when_positive,
  when_keys, when_compiled, Compilers, word, build_case, build_response_case, response_step_of,
  response_step, route_step, and_step, build_middleware_for_route, build_middleware_for_response,
}

abbrev pub is_want : Refusal → Bool
is_want no_backends = true
is_want _ = false

abbrev pub want_of : {A : Type 0} → Refusal ⊎ A → Bool
want_of (inl e) = is_want e
want_of (inr a) = false

abbrev pub Fine : {A : Type 0} → Refusal ⊎ A → Type 0
Fine (inl e) = is_want e ≡ false
Fine (inr a) = Unit

abbrev FineStep : {A : Type 0} → Step A → Type 0
FineStep (refuses e) = is_want e ≡ false
FineStep _ = Unit

when_text-FineStep : {A : Type 0} (make : String → A) (s : String) → FineStep (when_text make s)
when_text-FineStep make s = elim (Bool-cases (str_eq s "")) [
  | inl empty ↦ rw empty tt
  | inr set ↦ rw set tt
]

when_list-FineStep :
    {A B : Type 0} (make : List A → B) (otherwise : Step B) (o : Option (List A))
    → FineStep otherwise
    → FineStep (when_list make otherwise o)
when_list-FineStep make otherwise none h = h
when_list-FineStep make otherwise (some []) h = h
when_list-FineStep make otherwise (some (x ∷ xs)) h = tt

when_positive-FineStep :
    {A : Type 0} (make : ℤ → A) (o : Option ℤ) → FineStep (when_positive make o)
when_positive-FineStep make none = tt
when_positive-FineStep make (some d) = elim (Bool-cases (ltb_ℤ (pos 0) d)) [
  | inl positive ↦ rw positive tt
  | inr other ↦ rw other tt
]

when_keys-FineStep :
    (make : List String → Builtin) (o : Option (List String)) → FineStep (when_keys make o)
when_keys-FineStep make none = refl
when_keys-FineStep make (some keys) = tt

when_compiled-FineStep :
    {A : Type 0} (e : Refusal) (a : A) (b : Bool)
    → is_want e ≡ false
    → FineStep (when_compiled e a b)
when_compiled-FineStep e a true h = tt
when_compiled-FineStep e a false h = h

and_step-Fine :
    (lib : Check.Library) (compilers : Compilers) {A : Type 0} (s : Step A)
    (rest : Refusal ⊎ List A)
    → FineStep s
    → Fine rest
    → Fine (and_step lib compilers s rest)
and_step-Fine lib compilers (refuses e) rest h k = h
and_step-Fine lib compilers skips rest h k = k
and_step-Fine lib compilers (adds a) (inl e) h k = k
and_step-Fine lib compilers (adds a) (inr as') h k = tt

module _ (lib : Check.Library) (compilers : Compilers) where
  build_case-FineStep : (k : Case) (c : Fields) → FineStep (build_case lib compilers k c)
  unfolding build_case
  build_case-FineStep prefixing c = search when_text-FineStep
  build_case-FineStep whitelisting c = search (when_list-FineStep, tt)
  build_case-FineStep delaying c = search when_positive-FineStep
  build_case-FineStep Case.adding c = search (when_list-FineStep, tt)
  build_case-FineStep Case.setting c = search (when_list-FineStep, tt)
  build_case-FineStep Case.modifying c = search (when_list-FineStep, tt)
  build_case-FineStep Case.removing c = search (when_list-FineStep, tt)
  build_case-FineStep correlating c = tt
  build_case-FineStep tracing c = tt
  build_case-FineStep sharing c = tt
  build_case-FineStep logs c = tt
  build_case-FineStep limiting c = search (when_list-FineStep, tt)
  build_case-FineStep basic c = search when_list-FineStep
  build_case-FineStep token c = search when_list-FineStep
  build_case-FineStep openid c = search when_keys-FineStep
  build_case-FineStep digest c = search when_list-FineStep
  build_case-FineStep securing c = elim (Bool-cases (str_eq (word lib compilers c "path" "") "")) [
    | inl empty ↦ rw empty refl
    | inr set ↦ rw set tt
  ]
  build_case-FineStep Case.dynamic c = search when_compiled-FineStep
  build_case-FineStep validating c = search when_compiled-FineStep
  build_case-FineStep ignored c = tt

  build_response_case-FineStep :
      (k : ResponseCase) (c : Fields) → FineStep (build_response_case lib compilers k c)
  unfolding build_response_case
  build_response_case-FineStep ResponseCase.adding c = search (when_list-FineStep, tt)
  build_response_case-FineStep ResponseCase.setting c = search (when_list-FineStep, tt)
  build_response_case-FineStep ResponseCase.modifying c = search (when_list-FineStep, tt)
  build_response_case-FineStep ResponseCase.removing c = search (when_list-FineStep, tt)
  build_response_case-FineStep ResponseCase.prefixing c = search when_text-FineStep
  build_response_case-FineStep hosting c = search when_text-FineStep
  build_response_case-FineStep ResponseCase.dynamic c = search when_compiled-FineStep
  build_response_case-FineStep affine c = tt

  route_step-FineStep : (m : MiddlewareConfig) → FineStep (route_step lib compilers m)
  unfolding route_step
  route_step-FineStep m = elim (Option-cases (case_of (lib.to_lower m.name) cases)) [
    | inl unknown ↦ rw unknown refl
    | inr (k, known) ↦ rw known (build_case-FineStep k m.config)
  ]

  response_step_of-FineStep :
      (c : Fields) (o : Option ResponseCase) → FineStep (response_step_of lib compilers c o)
  response_step_of-FineStep c none = refl
  response_step_of-FineStep c (some k) = build_response_case-FineStep k c

  response_step-FineStep : (m : MiddlewareConfig) → FineStep (response_step lib compilers m)
  unfolding response_step
  response_step-FineStep m = elim (Bool-cases (is_response_middleware lib m.name)) [
    | inl response ↦
        rw response
          (response_step_of-FineStep m.config (case_of (lib.to_lower m.name) response_cases))
    | inr other ↦ elim (Bool-cases (is_known_middleware lib m.name)) [
      | inl known ↦ rw (other, known) tt
      | inr unknown ↦ rw (other, unknown) refl
    ]
  ]

  pub build_middleware_for_route-Fine :
      (ms : List MiddlewareConfig) → Fine (build_middleware_for_route lib compilers ms)
  unfolding build_middleware_for_route
  build_middleware_for_route-Fine [] = tt
  build_middleware_for_route-Fine (m ∷ ms) =
      and_step-Fine lib compilers (route_step lib compilers m) _ (route_step-FineStep m)
        (build_middleware_for_route-Fine ms)

  pub build_middleware_for_response-Fine :
      (ms : List MiddlewareConfig) → Fine (build_middleware_for_response lib compilers ms)
  unfolding build_middleware_for_response
  build_middleware_for_response-Fine [] = tt
  build_middleware_for_response-Fine (m ∷ ms) =
      and_step-Fine lib compilers (response_step lib compilers m) _ (response_step-FineStep m)
        (build_middleware_for_response-Fine ms)
