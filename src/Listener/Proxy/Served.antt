-- ===== src/Listener/Proxy/Served.antt =====
-- Whom the forward proxy serves, and what it hands on.
use Prim.Native.String.{◌++◌ as text_append}
use gorp.Prelude.{
  ◌≡◌, ◌≢◌, ◌⊎◌, refl, sym, ap, ◌∙◌, String, Bool, true, false, ◌&&◌, not, List, [], ◌∷◌, Option,
  none, some, is_empty, str_eq, str_eq_iff, Bool-cases, inl, inr, value_of, has_prefix-append,
  trim_prefix-append, cut_at, cut_at-between,
}
use gorp.Http.{Header, Request, get, raw_values, raw_delete, first_or_empty, set, del}
use gorp.Listener.Proxy.{
  Library, Cascade, Dial, dial_cascade, parse_proxy_basic_auth, is_password, is_user, Reply, errors,
  tunnels, forwards, aborts, serve_connect, authenticate_proxy, serve_http,
}

raw_values-raw_delete : (k : String) (h : Header) → raw_values k (raw_delete k h) ≡ []
unfolding raw_values raw_delete
raw_values-raw_delete k [] = refl
raw_values-raw_delete k ((j, vs) ∷ h) = elim (Bool-cases (str_eq j k)) [
  | inl same ↦ rw same (raw_values-raw_delete k h)
  | inr other ↦ rw other (rw other (raw_values-raw_delete k h))
]

raw_values-raw_delete-other :
    (k j : String) (h : Header) → k ≢ j → raw_values k (raw_delete j h) ≡ raw_values k h
unfolding raw_values raw_delete
raw_values-raw_delete-other k j [] apart = refl
raw_values-raw_delete-other k j ((i, vs) ∷ h) apart = elim (Bool-cases (str_eq i j)) [
  | inr other ↦ rw (other, raw_values-raw_delete-other k j h apart) refl
  | inl same ↦ elim (Bool-cases (str_eq i k)) [
    | inl here ↦ absurd (apart (sym ((str_eq_iff i k).0 here) ∙ (str_eq_iff i j).0 same))
    | inr there ↦ rw (same, there, raw_values-raw_delete-other k j h apart) refl
  ]
]

module _ (lib : Library) where
  is_password_sound :
      (given : String) (o : Option String) → is_password lib given o ≡ true → o ≡ some given
  is_password_sound given none h = absurd (cc h)
  is_password_sound given (some expected) h = ap some ((str_eq_iff expected given).0 h)

  -- The credentials of a user
  abbrev pub Knows : List (String × String) → Option (String × String) → Type 0
  Knows users given =
      (username : String) × (password : String) × (given ≡ some (username, password))
      × (value_of username users ≡ some password)

  is_user_sound :
      (users : List (String × String)) (o : Option (String × String))
      → is_user lib users o ≡ true
      → Knows users o
  is_user_sound users none h = absurd (cc h)
  is_user_sound users (some (username, password)) h =
      (username, password, refl, is_password_sound password (value_of username users) h)

  module _ (canonical : String → String) (users : List (String × String)) (cascade : Option Cascade)
      (connects : Dial lib → String → Bool) (is_hijacker hijacks : Bool) where
    -- What a reply that serves the request has in common
    abbrev pub Served : Request → Reply lib → Type 0
    Served r (errors status w) = Unit
    Served r aborts = Unit
    Served r (tunnels dial target) =
        (r.method ≡ "CONNECT")
        × (target ≡ r.host)
        × (dial ≡ dial_cascade lib cascade r.host)
        × (connects dial target ≡ true)
        × ((is_empty users ≡ true)
            ⊎ Knows users
                (parse_proxy_basic_auth lib (get canonical "Proxy-Authorization" r.header)))
    Served r (forwards r') =
        (r.method ≢ "CONNECT")
        × (r' ≡ record r { header = r'.header })
        × (get canonical "Proxy-Authorization" r'.header ≡ "")
        × ((k : String)
            → k ≢ canonical "Proxy-Authorization"
            → raw_values k r'.header ≡ raw_values k r.header)
        × ((is_empty users ≡ true)
            ⊎ Knows users
                (parse_proxy_basic_auth lib (get canonical "Proxy-Authorization" r.header)))

    abbrev Allowed : Request → Type 0
    Allowed r =
        (is_empty users ≡ true)
        ⊎ Knows users (parse_proxy_basic_auth lib (get canonical "Proxy-Authorization" r.header))

    serve_connect-Served :
        (r : Request) (w : Header)
        → r.method ≡ "CONNECT"
        → Allowed r
        → Served r (serve_connect lib canonical users cascade connects is_hijacker hijacks r w)
    unfolding serve_connect
    serve_connect-Served r w connect allowed = elim (Bool-cases (str_eq r.host "")) [
      | inl unset ↦ rw unset tt
      | inr set ↦ elim (Bool-cases (connects (dial_cascade lib cascade r.host) r.host)) [
        | inr failed ↦ rw (set, failed) tt
        | inl connected ↦ elim (Bool-cases is_hijacker) [
          | inr unable ↦ rw (set, connected, unable) tt
          | inl able ↦ elim (Bool-cases hijacks) [
            | inr fails ↦ rw (set, connected, able, fails) tt
            | inl hijacked ↦
                rw (set, connected, able, hijacked) (connect, refl, refl, connected, allowed)
          ]
        ]
      ]
    ]

    authenticate_proxy-Knows :
        (r : Request)
        → authenticate_proxy lib canonical users cascade connects is_hijacker hijacks r ≡ true
        → Allowed r
    unfolding authenticate_proxy
    authenticate_proxy-Knows r h = inr (is_user_sound users _ h)

    Served-from :
        (absolute : Bool) (r : Request) (w : Header)
        → Allowed r
        → (not (is_empty users)
            && not (authenticate_proxy lib canonical users cascade connects is_hijacker hijacks r))
          ≡ false
        → Served r
            (serve_http lib canonical users cascade connects is_hijacker hijacks absolute r w)
    unfolding serve_http get del
    Served-from absolute r w allowed passed = elim (Bool-cases (str_eq r.method "CONNECT")) [
      | inl connect ↦
          rw (passed, connect)
            (serve_connect-Served r w ((str_eq_iff r.method "CONNECT").0 connect) allowed)
      | inr other ↦ elim (Bool-cases absolute) [
        | inr relative ↦ rw (passed, other, relative) tt
        | inl whole ↦
            rw (passed, other, whole)
              (
                λ e. absurd (cc (sym other ∙ (str_eq_iff r.method "CONNECT").1 e)),
                refl,
                ap first_or_empty
                    (raw_values-raw_delete (canonical "Proxy-Authorization") r.header),
                λ k apart.
                    raw_values-raw_delete-other k (canonical "Proxy-Authorization") r.header apart,
                allowed,
              )
      ]
    ]

    -- Where the proxy has users, it opens a tunnel or hands on a request only for the name and the password of
    -- one of them. A tunnel is opened for CONNECT alone, to the host of the request, over the upstream
    -- that is chosen for that host and answered the dial. Any other request is handed to the transfer of
    -- the reverse proxy as the client sent it, but that it has no Proxy-Authorization: every other
    -- header keeps its values.
    pub serve_http-Served :
        (absolute : Bool) (r : Request) (w : Header)
        → Served r
            (serve_http lib canonical users cascade connects is_hijacker hijacks absolute r w)
    unfolding serve_http get del
    serve_http-Served absolute r w = elim (Bool-cases (is_empty users)) [
      | inl everyone ↦ Served-from absolute r w (inl everyone) (rw everyone refl)
      | inr some_users ↦
          elim (Bool-cases
            (authenticate_proxy lib canonical users cascade connects is_hijacker hijacks r)) [
              | inr refused ↦ rw (some_users, refused) tt
              | inl known ↦
                  Served-from absolute r w (authenticate_proxy-Knows r known)
                    (rw (some_users, known) refl)
            ]
    ]

-- What a client of the proxy sends is read back: a user without a colon, and any password.
pub parse_proxy_basic_auth-credentials :
    (lib : Library) (user password encoded : String)
    → cut_at b':' user ≡ none
    → lib.decode encoded ≡ some (text_append user (text_append ":" password))
    → parse_proxy_basic_auth lib (text_append "Basic " encoded) ≡ some (user, password)
unfolding parse_proxy_basic_auth
parse_proxy_basic_auth-credentials lib user password encoded bare decoded =
    rw (has_prefix-append "Basic " encoded, trim_prefix-append "Basic " encoded, decoded)
      (cut_at-between ":" user password bare)
