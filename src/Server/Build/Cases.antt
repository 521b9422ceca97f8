-- ===== src/Server/Build/Cases.antt =====
-- The names that Validate knows are those that the builder has a case for.
use gorp.Prelude.{
  ◌≡◌, refl, sym, ◌∙◌, String, Bool, true, ◌||◌, ◌&&◌, List, [], ◌∷◌, ◌++◌, Bool-cases, inl, inr,
  is_some, str_eq, str_eq_iff, one_of, subst,
}
use gorp.Config.Check as Check
use gorp.Config.Tables.{Table, find, middleware_fields, response_middlewares}
use gorp.Config.Middleware.{is_known_middleware, is_response_middleware}
use gorp.Server.Build.Middlewares.{cases, response_cases, case_of}

-- All names of a switch or a table
abbrev pub names_of {ℓ} : {A : Type ℓ} → List (List String × A) → List String
names_of [] = []
names_of ((names, a) ∷ rest) = names ++ names_of rest

one_of-append :
    (n : String) (xs ys : List String) → one_of n (xs ++ ys) ≡ (one_of n xs || one_of n ys)
one_of-append n [] ys = refl
one_of-append n (x ∷ xs) ys = elim (Bool-cases (str_eq n x)) [
  | inl same ↦ rw same refl
  | inr other ↦ rw other (one_of-append n xs ys)
]

case_of-names_of :
    {A : Type 0} (n : String) (t : List (List String × A))
    → is_some (case_of n t) ≡ one_of n (names_of t)
unfolding case_of
case_of-names_of n [] = refl
case_of-names_of n ((names, a) ∷ rest) = elim (Bool-cases (one_of n names)) [
  | inl listed ↦ rw (one_of-append n names (names_of rest), listed) refl
  | inr other ↦ rw (one_of-append n names (names_of rest), other) (case_of-names_of n rest)
]

find-names_of : (n : String) (t : Table) → is_some (find n t) ≡ one_of n (names_of t)
unfolding find
find-names_of n [] = refl
find-names_of n ((names, a) ∷ rest) = elim (Bool-cases (one_of n names)) [
  | inl listed ↦ rw (one_of-append n names (names_of rest), listed) refl
  | inr other ↦ rw (one_of-append n names (names_of rest), other) (find-names_of n rest)
]

included : List String → List String → Bool
included [] ys = true
included (x ∷ xs) ys = one_of x ys && included xs ys

one_of-included :
    (n : String) (xs ys : List String)
    → included xs ys ≡ true
    → one_of n xs ≡ true
    → one_of n ys ≡ true
unfolding included
one_of-included n [] ys all h = absurd (cc h)
one_of-included n (x ∷ xs) ys all h = elim (Bool-cases (one_of x ys)) [
  | inr missing ↦ absurd (cc (rw missing at all))
  | inl there ↦ elim (Bool-cases (str_eq n x)) [
    | inl same ↦ subst (λ y. one_of y ys ≡ true) (sym ((str_eq_iff n x).0 same)) there
    | inr other ↦ one_of-included n xs ys (rw there at all) (rw other at h)
  ]
]

same_names :
    (n : String) (xs ys : List String)
    → included xs ys ≡ true
    → included ys xs ≡ true
    → one_of n xs ≡ one_of n ys
same_names n xs ys there back = elim (Bool-cases (one_of n xs)) [
  | inl listed ↦ listed ∙ sym (one_of-included n xs ys there listed)
  | inr other ↦ elim (Bool-cases (one_of n ys)) [
    | inl listed ↦ absurd (cc (sym other ∙ one_of-included n ys xs back listed))
    | inr missing ↦ other ∙ sym missing
  ]
]

-- Validate knows a middleware exactly where the switch of the routes has a case for its name, and takes
-- it for one of the responses exactly where the switch of the responses has one.
pub is_known_middleware-case_of :
    (lib : Check.Library) (name : String)
    → (is_known_middleware lib name ≡ is_some (case_of (lib.to_lower name) cases))
      × (is_response_middleware lib name ≡ is_some (case_of (lib.to_lower name) response_cases))
unfolding is_known_middleware is_response_middleware included
is_known_middleware-case_of lib name =
    let n = lib.to_lower name in
    (
      find-names_of n middleware_fields
          ∙ same_names n (names_of middleware_fields) (names_of cases) refl refl
          ∙ sym (case_of-names_of n cases),
      same_names n response_middlewares (names_of response_cases) refl refl
          ∙ sym (case_of-names_of n response_cases),
    )
