-- ===== src/Config/Usable.antt =====
-- What validateBackend promises of a backend on which it reports nothing.
use gorp.Prelude.{
  ◌≡◌, ◌≢◌, refl, String, Bool, true, false, ◌&&◌, ◌||◌, List, [], ◌∷◌, Option, none, some, ◌⊎◌,
  inl, inr, arith, ℤ, pos, ltb_ℤ, leb_ℤ, Bool-cases, str_eq, str_eq_iff, one_of,
}
use gorp.Config.{Backend}
use gorp.Config.Check.{
  Library, Place, Url, is_unset, incomplete, member, required, negative, bad_retries, bad_duration,
  validate_backend, validate_backend_url, validate_duration, duration_bad,
}
use gorp.Config.Names.{clean-All, clean_report}

-- The schemes of a backend of a TCP listener, and of a service or a route.
abbrev pub schemes : Bool → List String
schemes true = "tcp" ∷ []
schemes false = "http" ∷ "https" ∷ []

-- A duration that is left out, or is at least 0.
abbrev pub IsDuration : Library → String → Type 0
IsDuration lib s = (s ≡ "") ⊎ ((d : ℤ) × (lib.parse_duration s ≡ some d) × (leb_ℤ (pos 0) d ≡ true))

or_left : (a b : Bool) → (a || b) ≡ false → a ≡ false
or_left true b h = cc h
or_left false b h = refl

or_right : (a b : Bool) → (a || b) ≡ false → b ≡ false
or_right true b h = cc h
or_right false b h = h

not_below : (a b : ℤ) → ltb_ℤ a b ≡ false → leb_ℤ b a ≡ true
not_below a b h = ground arith

module _ (lib : Library) where
  parsed_duration :
      (positive : Bool) (o : Option ℤ)
      → duration_bad lib positive o ≡ false
      → (d : ℤ) × (o ≡ some d) × (leb_ℤ (pos 0) d ≡ true)
  parsed_duration positive none h = cc h
  parsed_duration positive (some d) h =
      (d, refl, not_below d (pos 0) (or_left (ltb_ℤ d (pos 0)) (positive && leb_ℤ d (pos 0)) h))

  clean-IsDuration :
      (p : Place) (s : String) (positive : Bool)
      → validate_duration lib p s positive ≡ []
      → IsDuration lib s
  unfolding validate_duration
  clean-IsDuration p s positive h = elim (Bool-cases (is_unset s)) [
    | inl e ↦ inl ((str_eq_iff s "").0 e)
    | inr e ↦ inr (
        parsed_duration positive (lib.parse_duration s) (
          clean_report (duration_bad lib positive (lib.parse_duration s)) p bad_duration
            (rw e at h)))
  ]

  clean_url :
      (p : Place) (o : Option Url) (tcp : Bool)
      → validate_backend_url lib p o tcp ≡ []
      → (u : Url) × (o ≡ some u) × (incomplete u ≡ false) × (one_of u.scheme (schemes tcp) ≡ true)
  unfolding validate_backend_url
  clean_url p none tcp h = cc h
  clean_url p (some u) true h = elim (Bool-cases (incomplete u)) [
    | inl e ↦ cc (rw e at h)
    | inr e ↦ elim (Bool-cases (str_eq u.scheme "tcp")) [
      | inl f ↦ (u, refl, e, rw f refl)
      | inr f ↦ cc (rw (e, f) at h)
    ]
  ]
  clean_url p (some u) false h = elim (Bool-cases (incomplete u)) [
    | inl e ↦ cc (rw e at h)
    | inr e ↦ elim (Bool-cases (one_of u.scheme ("http" ∷ "https" ∷ []))) [
      | inl f ↦ (u, refl, e, f)
      | inr f ↦ cc (rw (e, f) at h)
    ]
  ]

  -- A backend on which validateBackend reports nothing has a name, an absolute URL with a host and a
  -- scheme of its kind, limits that are not negative, at most five retries, and durations that can
  -- be parsed and are not negative.
  pub validate_backend-IsUsable :
      (p : Place) (b : Backend) (tcp : Bool)
      → validate_backend lib p b tcp ≡ []
      → (b.name ≢ "")
        × ((u : Url) × (lib.parse_url b.url ≡ some u)
            × (incomplete u ≡ false)
            × (one_of u.scheme (schemes tcp) ≡ true))
        × (leb_ℤ (pos 0) b.max_connections ≡ true)
        × (leb_ℤ (pos 0) b.retries ≡ true)
        × (leb_ℤ b.retries (pos 5) ≡ true)
        × IsDuration lib b.timeout
        × IsDuration lib b.connect_timeout
        × IsDuration lib b.headers_timeout
        × IsDuration lib b.idle_timeout
        × IsDuration lib b.retry_backoff
  unfolding validate_backend
  validate_backend-IsUsable p b tcp h =
      let (name, (url, (limit, (retries, (timeout, (connect, (headers, (idle, (backoff, _))))))))) =
        clean-All _ h in
      let range =
        clean_report (ltb_ℤ b.retries (pos 0) || ltb_ℤ (pos 5) b.retries) (member "retries" p)
          bad_retries retries in
      (
        λ e. cc (
          (str_eq_iff b.name "").1 e,
          clean_report (is_unset b.name) (member "name" p) required name,
        ),
        clean_url (member "url" p) (lib.parse_url b.url) tcp url,
        not_below b.max_connections (pos 0) (
            clean_report (ltb_ℤ b.max_connections (pos 0)) (member "max_connections" p) negative
              limit),
        not_below b.retries (pos 0)
            (or_left (ltb_ℤ b.retries (pos 0)) (ltb_ℤ (pos 5) b.retries) range),
        not_below (pos 5) b.retries
            (or_right (ltb_ℤ b.retries (pos 0)) (ltb_ℤ (pos 5) b.retries) range),
        clean-IsDuration (member "timeout" p) b.timeout false timeout,
        clean-IsDuration (member "connect_timeout" p) b.connect_timeout false connect,
        clean-IsDuration (member "headers_timeout" p) b.headers_timeout false headers,
        clean-IsDuration (member "idle_timeout" p) b.idle_timeout false idle,
        clean-IsDuration (member "retry_backoff" p) b.retry_backoff true backoff,
      )
