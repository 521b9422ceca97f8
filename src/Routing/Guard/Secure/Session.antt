-- ===== src/Routing/Guard/Secure/Session.antt =====
-- A session of the access cookie, and what a request must have to pass.
use gorp.Prelude.{
  ℕ, ◌≡◌, ◌≢◌, refl, sym, ap, ◌∙◌, ◌≤◌, arith, String, Bool, true, false, Option, none, some, ℤ,
  pos, leb_ℤ, Bool-cases, Option-cases, inl, inr, str_eq, str_eq_iff, cut_at, cut_at-between,
}
use gorp.Http.{Header, Request}
use gorp.Routing.RateLimiter.{add_time}
use gorp.Routing.Guard.Secure.{
  Cookie, Reply, passes, unix, Library, payload, signature, signed, generate_cookie, valid_fields,
  not_expired, valid_parts, validate_cookie, grant, check_cookie, secure_access,
}

in_time : (a b : ℕ) → a ≤ b → leb_ℤ (pos a) (pos b) ≡ true
in_time a b h = ground (arith, h)

module _ (lib : Library) (secret : String) where
  -- A cookie made at one time is valid later exactly until the second of its end, for the same user
  -- agent, where the number, the nonce and the encoding can be read back.
  pub validate_cookie-generate :
      (user_agent nonce : String) (ttl : ℤ) (now later : ℕ)
      → cut_at b'|' (lib.itoa (unix (add_time now ttl))) ≡ none
      → lib.parse_decimal (lib.itoa (unix (add_time now ttl)))
        ≡ some (pos (unix (add_time now ttl)))
      → cut_at b':' (lib.encode (payload lib secret ttl now nonce)) ≡ none
      → lib.decode (lib.encode (payload lib secret ttl now nonce))
        ≡ some (payload lib secret ttl now nonce)
      → validate_cookie lib secret
          (signed lib secret (lib.encode (payload lib secret ttl now nonce)) user_agent)
          user_agent
          later
        ≡ leb_ℤ (pos (unix later)) (pos (unix (add_time now ttl)))
  unfolding validate_cookie
  validate_cookie-generate user_agent nonce ttl now later bar read colon decoded =
      let encoded = lib.encode (payload lib secret ttl now nonce) in
      rw
        (
          cut_at-between ":" encoded (signature lib secret encoded user_agent) colon,
          (str_eq_iff (signature lib secret encoded user_agent) _).1 refl,
          decoded,
          cut_at-between "|" (lib.itoa (unix (add_time now ttl))) nonce bar,
          read,
        )
        refl

  -- What a cookie needs: the signature over what it holds and the user agent, and an end to come.
  pub record IsAccepted (value user_agent : String) (now : ℕ) : Type 0 where
    pub encoded : String
    pub text : String
    pub expire_text : String
    pub nonce : String
    pub expire : ℤ
    pub parts : cut_at b':' value ≡ some (encoded, signature lib secret encoded user_agent)
    pub readable : lib.decode encoded ≡ some text
    pub fields : cut_at b'|' text ≡ some (expire_text, nonce)
    pub number : lib.parse_decimal expire_text ≡ some expire
    pub live : leb_ℤ (pos (unix now)) expire ≡ true

  not_expired_sound :
      (now : ℕ) (o : Option ℤ)
      → not_expired lib secret now o ≡ true
      → (expire : ℤ) × (o ≡ some expire) × (leb_ℤ (pos (unix now)) expire ≡ true)
  not_expired_sound now none h = absurd (cc h)
  not_expired_sound now (some expire) h = (expire, refl, h)

  valid_fields_sound :
      (now : ℕ) (o : Option (String × String))
      → valid_fields lib secret now o ≡ true
      → (expire_text : String) × (nonce : String) × (expire : ℤ) × (o ≡ some (expire_text, nonce))
        × (lib.parse_decimal expire_text ≡ some expire)
        × (leb_ℤ (pos (unix now)) expire ≡ true)
  valid_fields_sound now none h = absurd (cc h)
  valid_fields_sound now (some (expire_text, nonce)) h =
      let (expire, number, live) = not_expired_sound now (lib.parse_decimal expire_text) h in
      (expire_text, nonce, expire, refl, number, live)

  IsAccepted-parts :
      (value user_agent : String) (now : ℕ) (o : Option (String × String))
      → cut_at b':' value ≡ o
      → valid_parts lib secret user_agent now o ≡ true
      → IsAccepted value user_agent now
  IsAccepted-parts value user_agent now none parts h = absurd (cc h)
  IsAccepted-parts value user_agent now (some (encoded, given)) parts h =
      elim (Bool-cases (str_eq (signature lib secret encoded user_agent) given)) [
        | inr other ↦ absurd (cc (rw other at h))
        | inl same ↦ elim (Option-cases (lib.decode encoded)) [
          | inl missing ↦ absurd (cc (rw (same, missing) at h))
          | inr (text, readable) ↦
              let valid : valid_fields lib secret now (cut_at b'|' text) ≡ true =
                rw (same, readable) at h in
              let (expire_text, nonce, expire, fields, number, live) =
                valid_fields_sound now (cut_at b'|' text) valid in
              record {
                encoded = encoded;
                text = text;
                expire_text = expire_text;
                nonce = nonce;
                expire = expire;
                readable = readable;
                parts = parts ∙ ap (λ g. some (encoded, g)) (sym ((str_eq_iff _ given).0 same));
                fields = fields;
                number = number;
                live = live;
              }
        ]
      ]

  module _ (canonical : String → String) (user_agent : Request → String)
      (cookie : Request → Option String) (tls : Request → Bool) (path redirect : String)
      (ttl : ℤ) where
    abbrev pub access : Request → Header → ℕ → Option String → Reply × Header × Option Cookie
    access = secure_access lib secret canonical user_agent cookie tls path redirect ttl

    -- No reply of the access page lets a request pass.
    granted_none :
        (r r' : Request) (w w' : Header) (c : Option Cookie) (o : Option String)
        → grant lib secret canonical user_agent cookie tls path redirect ttl r w o
          ≡ (passes r', w', c)
        → ⊥
    granted_none r r' w w' c none h = cc (ap (λ x. x.0) h)
    granted_none r r' w w' c (some token) h = elim (Bool-cases (str_eq redirect "")) [
      | inl empty ↦ absurd (cc (rw empty at h))
      | inr other ↦ absurd (cc (rw other at h))
    ]

    checked_cookie :
        (r r' : Request) (w w' : Header) (now : ℕ) (fresh : Option String) (c : Option Cookie)
        (o : Option String)
        → check_cookie lib secret canonical user_agent cookie tls path redirect ttl r w now fresh o
          ≡ (passes r', w', c)
        → (value : String) × (o ≡ some value)
          × (validate_cookie lib secret value (user_agent r) now ≡ true)
    checked_cookie r r' w w' now fresh c none h = absurd (cc (ap (λ x. x.0) h))
    checked_cookie r r' w w' now fresh c (some value) h =
        elim (Bool-cases (validate_cookie lib secret value (user_agent r) now)) [
          | inl valid ↦ (value, refl, valid)
          | inr other ↦ absurd (cc (ap (λ x. x.0) (rw other at h)))
        ]

    -- A request passes only away from the access page, and with a cookie that was signed with the secret
    -- for its user agent, and whose text holds a number of seconds that is not before the second of the
    -- request.
    pub secure_access-IsAccepted :
        (r r' : Request) (w w' : Header) (now : ℕ) (fresh : Option String) (c : Option Cookie)
        → access r w now fresh ≡ (passes r', w', c)
        → (r.path ≢ path)
          × ((value : String) × (cookie r ≡ some value) × IsAccepted value (user_agent r) now)
    unfolding secure_access validate_cookie
    secure_access-IsAccepted r r' w w' now fresh c h = elim (Bool-cases (str_eq r.path path)) [
      | inl same ↦ absurd (granted_none r r' w w' c _ (rw same at h))
      | inr other ↦
          let (value, given, valid) =
            checked_cookie r r' w w' now fresh c (cookie r) (rw other at h) in
          (
            λ e. absurd (cc (sym other ∙ (str_eq_iff r.path path).1 e)),
            (
              value,
              given,
              IsAccepted-parts value (user_agent r) now (cut_at b':' value) refl valid,
            ),
          )
    ]

    granted :
        (r : Request) (w : Header) (token : String)
        → (grant lib secret canonical user_agent cookie tls path redirect ttl r w (some token)).2
          ≡ some (record { value = token; secure = tls r })
    granted r w token = elim (Bool-cases (str_eq redirect "")) [
      | inl empty ↦ rw empty refl
      | inr other ↦ rw other refl
    ]

    -- A visit of the access page gives a cookie with which a later request of the same user agent to
    -- another page passes until the second fifteen seconds after the visit, unchanged; and the answer to
    -- it has a new cookie, made at its own time with the ttl.
    pub secure_access-session :
        (r0 r : Request) (w0 w : Header) (now later : ℕ) (nonce fresh : String)
        → r0.path ≡ path
        → str_eq r.path path ≡ false
        → (let made = payload lib secret (pos 15000000000) now nonce in
            cookie r ≡ some (signed lib secret (lib.encode made) (user_agent r0)))
        → user_agent r ≡ user_agent r0
        → unix later ≤ unix (add_time now (pos 15000000000))
        → cut_at b'|' (lib.itoa (unix (add_time now (pos 15000000000)))) ≡ none
        → lib.parse_decimal (lib.itoa (unix (add_time now (pos 15000000000))))
          ≡ some (pos (unix (add_time now (pos 15000000000))))
        → cut_at b':' (lib.encode (payload lib secret (pos 15000000000) now nonce)) ≡ none
        → lib.decode (lib.encode (payload lib secret (pos 15000000000) now nonce))
          ≡ some (payload lib secret (pos 15000000000) now nonce)
        → ((access r0 w0 now (some nonce)).2
            ≡ some (record {
              value =
                  signed lib secret
                    (lib.encode (payload lib secret (pos 15000000000) now nonce))
                    (user_agent r0);
              secure = tls r0;
            }))
          × (access r w later (some fresh) ≡ (
            passes r,
            w,
            some (record {
              value =
                  signed lib secret
                    (lib.encode (payload lib secret ttl later fresh))
                    (user_agent r);
              secure = tls r;
            }),
          ))
    unfolding secure_access generate_cookie
    secure_access-session r0 r w0 w now later nonce fresh visits elsewhere given same soon bar read
          colon decoded =
        let value =
          signed lib secret (lib.encode (payload lib secret (pos 15000000000) now nonce))
            (user_agent r0) in
        let valid : validate_cookie lib secret value (user_agent r) later ≡ true =
          ap (λ u. validate_cookie lib secret value u later) same
          ∙ validate_cookie-generate (user_agent r0) nonce (pos 15000000000) now later bar read
              colon decoded
          ∙ in_time (unix later) (unix (add_time now (pos 15000000000))) soon in
        (
          rw ((str_eq_iff r0.path path).1 visits) (granted r0 w0 value),
          rw (elsewhere, given, valid) refl,
        )
