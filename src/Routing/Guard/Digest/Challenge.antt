-- ===== src/Routing/Guard/Digest/Challenge.antt =====
-- The nonce of a challenge serves until its end.
use gorp.Prelude.{
  ℕ, ℤ, ◌+◌, ◌≤◌, ◌≡◌, refl, sym, ap, ◌∙◌, arith, String, true, false, ◌||◌, not, none, some, ltb,
  Bool-cases, inl, inr, str_eq, str_eq_iff, has_prefix, has_prefix-nil, value_of, assign,
  value_of-assign,
}
use gorp.Http.{Header, Request, get}
use gorp.Routing.Guard.{passes, Users}
use gorp.Routing.Guard.Digest.{
  Nonces, param, is_valid_nonce, realm_of, timeout_of, response_of, is_complete, challenge,
  digest_auth,
}
use gorp.Routing.Guard.Digest.Nonces.{auth, params_of, HasPassed}

digest_given :
    (header : String)
    → has_prefix header "Digest " ≡ true
    → (str_eq header "" || not (has_prefix header "Digest ")) ≡ false
digest_given header digest = elim (Bool-cases (str_eq header "")) [
  | inl empty ↦
      let none_there : has_prefix "" "Digest " ≡ false = has_prefix-nil "D" "igest " in
      let there : has_prefix "" "Digest " ≡ true =
        ap (λ h. has_prefix h "Digest ") (sym ((str_eq_iff header "").0 empty)) ∙ digest in
      absurd (cc (sym none_there ∙ there))
  | inr other ↦ rw (other, digest) refl
]

not_late : (expiry now : ℕ) → now ≤ expiry → ltb expiry now ≡ false
not_late expiry now live = ground (arith, live)

module _ (canonical md5 trim_space : String → String) (realm : String) (timeout : ℤ)
    (users : Users) where
  -- A complete digest header that has shown what it must
  HasPassed-passes :
      (now : ℕ) (fresh opaque : String) (r : Request) (w : Header) (nonces : Nonces)
      → has_prefix (get canonical "Authorization" r.header) "Digest " ≡ true
      → is_complete (realm_of realm) (params_of canonical md5 trim_space realm timeout users r)
        ≡ true
      → HasPassed canonical md5 trim_space realm timeout users now nonces r
      → auth canonical md5 trim_space realm timeout users now fresh opaque r w nonces
        ≡ (nonces, passes r w, none)
  unfolding digest_auth is_valid_nonce
  HasPassed-passes now fresh opaque r w nonces digest complete passed =
      rw
        (
          digest_given (get canonical "Authorization" r.header) digest,
          complete,
          passed.known,
          not_late passed.expiry now passed.live,
          passed.user,
          (str_eq_iff _ _).1 passed.proof,
        )
        refl

  -- The nonce of a challenge serves until the timeout has passed, five minutes where the configured one is
  -- not positive: a request with all the parameters, the realm (Restricted where it is empty), that
  -- nonce, the name of a user and the right response goes to the next handler, whatever the state was
  -- before the challenge; and the nonces stay as they are, so that the same request passes again.
  pub digest_auth-challenge :
      (now later : ℕ) (fresh fresh' opaque opaque' password : String) (r : Request) (w w' : Header)
      (nonces : Nonces)
      → has_prefix (get canonical "Authorization" r.header) "Digest " ≡ true
      → is_complete (realm_of realm) (params_of canonical md5 trim_space realm timeout users r)
        ≡ true
      → param "nonce" (params_of canonical md5 trim_space realm timeout users r) ≡ fresh
      → value_of (param "username" (params_of canonical md5 trim_space realm timeout users r)) users
        ≡ some password
      → response_of md5
          (realm_of realm)
          password
          r.method
          (params_of canonical md5 trim_space realm timeout users r)
        ≡ param "response" (params_of canonical md5 trim_space realm timeout users r)
      → later ≤ now + timeout_of timeout
      → (let nonces' =
            (challenge canonical md5 trim_space realm timeout now fresh opaque w nonces).0 in
          auth canonical md5 trim_space realm timeout users later fresh' opaque' r w' nonces'
          ≡ (nonces', passes r w', none))
  unfolding challenge
  digest_auth-challenge now later fresh fresh' opaque opaque' password r w w' nonces digest complete
        same user proof soon =
      HasPassed-passes later fresh' opaque' r w' (assign fresh (now + timeout_of timeout) nonces)
        digest complete
        (record {
          expiry = now + timeout_of timeout;
          password = password;
          known =
              ap (λ k. value_of k (assign fresh (now + timeout_of timeout) nonces)) same
              ∙ value_of-assign fresh (now + timeout_of timeout) nonces;
          live = soon;
          user = user;
          proof = proof;
        })
