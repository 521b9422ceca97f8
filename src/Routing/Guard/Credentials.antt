-- ===== src/Routing/Guard/Credentials.antt =====
-- Who gets through the basic and the token authentication and the IP whitelist.
use Prim.Native.String.{◌++◌}
use mathlib.Core.Option.{some_inj}
use gorp.Prelude.{
  ◌≡◌, ◌↔◌, ◌⊎◌, refl, sym, subst, ap, ◌∙◌, String, Bool, true, false, List, Option, none, some,
  if◌then◌else◌, Bool-cases, inl, inr, str_eq_iff, one_of, has_prefix, has_prefix-append,
  has_prefix-split, trim_prefix, trim_prefix-append, ℕ, value_of,
}
use gorp.Http.{Header, Request, get}
use gorp.Routing.Guard.{
  Outcome, passes, answers, or_default, is_password, knows, quoted, Users, unauthorized, basic_auth,
  has_token, token_auth,
}

-- The outcome lets the request through unchanged, where P holds, or is the refusal, where it does not.
abbrev pub Decides : Type 0 → Request → Header → Outcome → Outcome → Type 0
Decides P r w refusal o = (P × (o ≡ passes r w)) ⊎ ((¬ P) × (o ≡ refusal))

Decides-if :
    {P : Type 0} (r : Request) (w : Header) (status : ℕ) (h : Header) (b : Bool)
    → ((b ≡ true) ↔ P)
    → Decides P r w (answers status h) (if b then passes r w else answers status h)
Decides-if r w status h true (to, from) = inl (to refl, refl)
Decides-if r w status h false (to, from) = inr (λ p. absurd (cc (from p)), refl)

-- The request has the name and the password of a user.
abbrev pub HasPassword : Users → Option (String × String) → Type 0
HasPassword users given =
    (username : String) × (password : String) × (given ≡ some (username, password))
    × (value_of username users ≡ some password)

is_password_iff :
    (given : String) (o : Option String) → (is_password given o ≡ true) ↔ (o ≡ some given)
is_password_iff given none = (λ h. absurd (cc h), λ h. absurd (cc h))
is_password_iff given (some expected) = (
  λ h. ap some (sym ((str_eq_iff given expected).0 h)),
  λ h. (str_eq_iff given expected).1 (sym (some_inj.0 h)),
)

knows_iff :
    (users : Users) (o : Option (String × String)) → (knows users o ≡ true) ↔ HasPassword users o
knows_iff users none = (λ h. absurd (cc h), λ (u, p, given, h). absurd (cc given))
knows_iff users (some (username, password)) = (
  λ h. (username, password, refl, (is_password_iff password (value_of username users)).0 h),
  λ (u, p, given, h).
      (is_password_iff password (value_of username users)).1
        (subst (λ x. value_of x.0 users ≡ some x.1) (sym (some_inj.0 given)) h),
)

-- The basic authentication lets a request through, unchanged, exactly where its credentials are those of
-- a user, and else answers 401 with the challenge of the realm, or of "Restricted" where that is empty.
pub basic_auth-Decides :
    (canonical : String → String) (credentials : Request → Option (String × String))
    (realm : String) (users : Users) (r : Request) (w : Header)
    → Decides
        (HasPassword users (credentials r))
        r
        w
        (unauthorized canonical (quoted "Basic" (or_default "Restricted" realm)) w)
        (basic_auth canonical credentials realm users r w)
unfolding basic_auth
basic_auth-Decides canonical credentials realm users r w =
    Decides-if r w 401 _ (knows users (credentials r)) (knows_iff users (credentials r))

-- The value is the prefix and then one of the tokens.
abbrev pub HasToken : List String → String → String → Type 0
HasToken tokens prefix value =
    (token : String) × (value ≡ prefix ++ token) × (one_of token tokens ≡ true)

has_token_iff :
    (tokens : List String) (prefix value : String)
    → (has_token tokens prefix value ≡ true) ↔ HasToken tokens prefix value
has_token_iff tokens prefix value = elim (Bool-cases (has_prefix value prefix)) [
  | inl begins ↦ (
    λ h. (trim_prefix value prefix, has_prefix-split value prefix begins, rw begins at h),
    λ (token, whole, listed). rw begins (
        ap (λ v. one_of (trim_prefix v prefix) tokens) whole
        ∙ ap (λ t. one_of t tokens) (trim_prefix-append prefix token)
        ∙ listed),
  )
  | inr other ↦ (
    λ h. absurd (cc (rw other at h)),
    λ (token, whole, listed).
        absurd
          (cc (sym other ∙ ap (λ v. has_prefix v prefix) whole ∙ has_prefix-append prefix token)),
  )
]

-- The token authentication lets a request through, unchanged, exactly where its header, by default
-- "Authorization", is the prefix, by default "Bearer ", and then one of the tokens; and else it answers
-- 401 with the challenge of the realm.
pub token_auth-Decides :
    (canonical : String → String) (realm : String) (tokens : List String) (header prefix : String)
    (r : Request) (w : Header)
    → Decides
        (HasToken tokens
          (or_default "Bearer " prefix)
          (get canonical (or_default "Authorization" header) r.header))
        r
        w
        (unauthorized canonical (quoted "Bearer" (or_default "Restricted" realm)) w)
        (token_auth canonical realm tokens header prefix r w)
unfolding token_auth
token_auth-Decides canonical realm tokens header prefix r w = Decides-if r w 401 _ _ (
    has_token_iff tokens (or_default "Bearer " prefix)
      (get canonical (or_default "Authorization" header) r.header))
