-- ===== src/Routing/Guard/Digest/Nonces.antt =====
-- A digest passes only with a live nonce that the middleware gave out.
use mathlib.Core.List.{Mem, mem-cons_self, mem-cons_of_mem}
use gorp.Prelude.{
  ℕ, ℤ, ◌+◌, ◌≤◌, ◌⊎◌, ◌≡◌, refl, sym, subst, ap, ◌∙◌, arith, String, true, false, ◌||◌, not, List,
  [], ◌∷◌, Option, none, some, ltb, Bool-cases, Option-cases, inl, inr, str_eq, str_eq_iff,
  has_prefix, trim_prefix, value_of, remove, All, All-map, All-assign, All-remove, All-value_of,
}
use gorp.Http.{Header, Request, get}
use gorp.Routing.Guard.{Outcome, passes, answers, Users}
use gorp.Routing.Guard.Params.{parse_digest_params}
use gorp.Routing.Guard.Digest.{
  Nonces, param, is_valid_nonce, realm_of, timeout_of, checked, response_of, is_complete, challenge,
  compare_response, digest_auth, check_nonce,
}

-- The nonces given out, with their times, the latest first.
abbrev pub Issued : Type 0
Issued = List (String × ℕ)

abbrev pub issue : ℕ → Option String → Issued → Issued
issue now none issued = issued
issue now (some nonce) issued = (nonce, now) ∷ issued

module _ (canonical md5 trim_space : String → String) (realm : String) (timeout : ℤ)
    (users : Users) where
  abbrev pub auth :
      ℕ → String → String → Request → Header → Nonces → Nonces × Outcome × Option String
  auth = digest_auth canonical md5 trim_space realm timeout users

  -- Any sequence of requests, with the nonces given out on the way.
  pub data Reach : Issued → Nonces → Type 0 where
    here : Reach [] []
    handles :
        {issued : Issued} {nonces : Nonces} (now : ℕ) (fresh opaque : String) (r : Request)
        (w : Header)
        → Reach issued nonces
        → Reach
            (issue now (auth now fresh opaque r w nonces).2 issued)
            (auth now fresh opaque r w nonces).0

  abbrev pub params_of : Request → List (String × String)
  params_of r =
      parse_digest_params trim_space
        (trim_prefix (get canonical "Authorization" r.header) "Digest ")

  abbrev Given : Issued → String × ℕ → Type 0
  Given issued (nonce, expiry) = (t : ℕ) × Mem (nonce, t) issued × (expiry ≡ t + timeout_of timeout)

  -- What a request that passes has shown.
  pub record HasPassed (now : ℕ) (nonces : Nonces) (r : Request) : Type 0 where
    pub expiry : ℕ
    pub password : String
    pub known : value_of (param "nonce" (params_of r)) nonces ≡ some expiry
    pub live : now ≤ expiry
    pub user : value_of (param "username" (params_of r)) users ≡ some password
    pub proof :
        response_of md5 (realm_of realm) password r.method (params_of r)
        ≡ param "response" (params_of r)

  -- The nonces, less one that was found expired.
  abbrev Left : Nonces → Nonces → Type 0
  Left nonces left = (left ≡ nonces) ⊎ ((k : String) × (left ≡ remove k nonces))

  is_valid_nonce_cases :
      (k : String) (now : ℕ) (nonces : Nonces)
      → ((is_valid_nonce k now nonces ≡ (nonces, true))
          × (e : ℕ) × (value_of k nonces ≡ some e)
          × (now ≤ e))
        ⊎ ((left : Nonces) × Left nonces left × (is_valid_nonce k now nonces ≡ (left, false)))
  unfolding is_valid_nonce
  is_valid_nonce_cases k now nonces = elim (Option-cases (value_of k nonces)) [
    | inl missing ↦ inr (nonces, inl refl, ap (checked k nonces now) missing)
    | inr (e, found) ↦ elim (Bool-cases (ltb e now)) [
      | inl late ↦ inr (remove k nonces, inr (k, refl), rw (found, late) refl)
      | inr early ↦ inl (rw (found, early) refl, e, found, ground (arith, early))
    ]
  ]

  compare_response_sound :
      (o : Option String) (r : Request) (params : List (String × String))
      → compare_response canonical md5 trim_space realm timeout o r params ≡ true
      → (password : String) × (o ≡ some password)
        × (response_of md5 (realm_of realm) password r.method params ≡ param "response" params)
  compare_response_sound none r params h = absurd (cc h)
  compare_response_sound (some password) r params h = (password, refl, (str_eq_iff _ _).0 h)

  -- A request passes and changes no nonce, or it gets a new nonce.
  abbrev Passes : ℕ → Nonces → Request → Header → Nonces × Outcome × Option String → Type 0
  Passes now nonces r w result = HasPassed now nonces r × (result ≡ (nonces, passes r w, none))

  abbrev Challenged :
      ℕ → String → String → Header → Nonces → Nonces × Outcome × Option String → Type 0
  Challenged now fresh opaque w nonces result =
      (left : Nonces) × Left nonces left
      × (result ≡ challenge canonical md5 trim_space realm timeout now fresh opaque w left)

  check_nonce_cases :
      (now : ℕ) (fresh opaque : String) (r : Request) (w : Header) (nonces : Nonces)
      → (let result =
            check_nonce canonical md5 trim_space realm timeout users now fresh opaque r w
              (params_of r)
              (is_valid_nonce (param "nonce" (params_of r)) now nonces) in
          Passes now nonces r w result ⊎ Challenged now fresh opaque w nonces result)
  check_nonce_cases now fresh opaque r w nonces =
      elim (is_valid_nonce_cases (param "nonce" (params_of r)) now nonces) [
        | inr (left, kept, invalid) ↦ inr (
          left,
          kept,
          ap
              (check_nonce canonical md5 trim_space realm timeout users now fresh opaque r w
                (params_of r))
              invalid,
        )
        | inl (valid, expiry, known, live) ↦
            let user = value_of (param "username" (params_of r)) users in
            elim (Bool-cases
              (compare_response canonical md5 trim_space realm timeout user r (params_of r))) [
                | inl same ↦
                    let (password, found, proof) =
                      compare_response_sound user r (params_of r) same in
                    inl (
                      record {
                        expiry = expiry;
                        password = password;
                        known = known;
                        live = live;
                        user = found;
                        proof = proof;
                      },
                      rw (valid, same) refl,
                    )
                | inr other ↦ inr (nonces, inl refl, rw (valid, other) refl)
              ]
      ]

  auth_cases :
      (now : ℕ) (fresh opaque : String) (r : Request) (w : Header) (nonces : Nonces)
      → Passes now nonces r w (auth now fresh opaque r w nonces)
        ⊎ Challenged now fresh opaque w nonces (auth now fresh opaque r w nonces)
  unfolding digest_auth
  auth_cases now fresh opaque r w nonces =
      let header = get canonical "Authorization" r.header in
      elim (Bool-cases (str_eq header "" || not (has_prefix header "Digest "))) [
        | inl none_given ↦ rw none_given (inr (nonces, inl refl, refl))
        | inr given ↦ elim (Bool-cases (not (is_complete (realm_of realm) (params_of r)))) [
          | inl partial ↦ rw (given, partial) (inr (nonces, inl refl, refl))
          | inr complete ↦ rw (given, complete) (check_nonce_cases now fresh opaque r w nonces)
        ]
      ]

  All-Left :
      (P : String × ℕ → Type 0) (nonces left : Nonces)
      → Left nonces left
      → All P nonces
      → All P left
  All-Left P nonces left (inl same) all = subst (All P) (sym same) all
  All-Left P nonces left (inr (k, removed)) all =
      subst (All P) (sym removed) (All-remove P k nonces all)

  later_Given :
      (now : ℕ) (fresh : String) (issued : Issued) (nonces : Nonces)
      → All (Given issued) nonces
      → All (Given ((fresh, now) ∷ issued)) nonces
  later_Given now fresh issued nonces =
      All-map nonces λ (k, e) (t, given, at). (t, mem-cons_of_mem (fresh, now) given, at)

  challenge-Given :
      (now : ℕ) (fresh opaque : String) (w : Header) (issued : Issued) (left : Nonces)
      → All (Given ((fresh, now) ∷ issued)) left
      → (let result = challenge canonical md5 trim_space realm timeout now fresh opaque w left in
          All (Given (issue now result.2 issued)) result.0)
  unfolding challenge
  challenge-Given now fresh opaque w issued left all =
      All-assign (Given ((fresh, now) ∷ issued)) fresh (now + timeout_of timeout) left
        (now, mem-cons_self, refl) all

  -- Each stored nonce was given out, and expires the timeout after.
  Reach-Given :
      {issued : Issued} {nonces : Nonces} → Reach issued nonces → All (Given issued) nonces
  Reach-Given here = tt
  Reach-Given (handles {issued} {nonces} now fresh opaque r w before) =
      elim (auth_cases now fresh opaque r w nonces) [
        | inl (_, same) ↦
            subst (λ result. All (Given (issue now result.2 issued)) result.0) (sym same)
              (Reach-Given before)
        | inr (left, kept, same) ↦
            subst (λ result. All (Given (issue now result.2 issued)) result.0) (sym same)
              (challenge-Given now fresh opaque w issued left (
                All-Left (Given ((fresh, now) ∷ issued)) nonces left kept
                  (later_Given now fresh issued nonces (Reach-Given before))))
      ]

  abbrev passed_on : Request → Outcome → Request
  passed_on d (passes r w) = r
  passed_on d (answers status w) = d

  -- After any sequence of requests, a request goes to the next handler only if its parameters name a user
  -- and a nonce that a challenge gave out at most the timeout ago, five minutes where the configured
  -- one is not positive, and its response is the hash over the realm, Restricted where it is empty, the
  -- user's password, that nonce and its own method; it goes there unchanged, and the nonces stay as
  -- they are.
  pub digest_auth-HasPassed :
      {issued : Issued} {nonces : Nonces} (now : ℕ) (fresh opaque : String) (r r' : Request)
      (w w' : Header)
      → Reach issued nonces
      → (auth now fresh opaque r w nonces).1 ≡ passes r' w'
      → (r' ≡ r)
        × ((auth now fresh opaque r w nonces).0 ≡ nonces)
        × HasPassed now nonces r
        × ((t : ℕ) × Mem (param "nonce" (params_of r), t) issued × (now ≤ t + timeout_of timeout))
  unfolding challenge
  digest_auth-HasPassed {issued} {nonces} now fresh opaque r r' w w' reached h =
      elim (auth_cases now fresh opaque r w nonces) [
        | inl (passed, same) ↦
            let (t, given, at) =
              All-value_of (Given issued) (param "nonce" (params_of r)) passed.expiry nonces
                passed.known (Reach-Given reached) in
            (
              ap (passed_on r) (sym h ∙ ap (λ result. result.1) same),
              ap (λ result. result.0) same,
              passed,
              (t, given, omega (arith, passed.live, at)),
            )
        | inr (left, kept, same) ↦ absurd (cc (sym h ∙ ap (λ result. result.1) same))
      ]
