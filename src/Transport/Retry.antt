-- ===== src/Transport/Retry.antt =====
-- How often a request is sent, and what is answered.
use gorp.Prelude.{
  ℕ, zero, suc, ◌+◌, ◌≤◌, ◌<◌, ◌==◌, ◌≡◌, refl, ap, subst, ◌∙◌, Bool, true, false, ◌&&◌, ◌||◌, not,
  List, [], ◌∷◌, ◌⊎◌, inl, inr, ltb, arith, Bool-cases, if◌then◌else◌, one_of,
}
use gorp.Transport.{
  Answer, Event, sent, waited, cancelled, body_lost, Exchange, retryable_response, delay_of, before,
  attempt_from, round_trip,
}

-- The attempts that were sent.
abbrev pub sends : List Event → ℕ
sends [] = 0
sends (sent i ∷ es) = suc (sends es)
sends (waited d ∷ es) = sends es

-- Nothing but the answers decides.
abbrev pub Undisturbed : Exchange → Type 0
Undisturbed x =
    (x.cancelled_first ≡ false)
    × ((i : ℕ) → x.body_again i ≡ true)
    × ((i : ℕ) → x.cancelled_after i ≡ false)
    × ((i : ℕ) → x.cancelled_waiting i ≡ false)

-- Of the attempts from number i on, the one k later was answered; the ones before it ask for a
-- retry, and it does not, or it is the last of `n`.
abbrev pub IsAnswer : Exchange → ℕ → ℕ → List Event × Answer → Type 0
IsAnswer x i n r =
    (k : ℕ) × (r.1 ≡ x.base (i + k))
    × (sends r.0 ≡ suc k)
    × (k < n)
    × ((suc k ≡ n) ⊎ (retryable_response (x.base (i + k)) ≡ false))
    × ((j : ℕ) → j < k → retryable_response (x.base (i + j)) ≡ true)

if_case {ℓ κ} :
    {A : Type ℓ} (P : A → Type κ) (b : Bool) (t e : A)
    → (b ≡ true → P t)
    → (b ≡ false → P e)
    → P (if b then t else e)
if_case P true t e h k = h refl
if_case P false t e h k = k refl

right_not : (a c : Bool) → (a && not c) ≡ true → c ≡ false
right_not true true h = cc
right_not false c h = cc
right_not a false h = refl

last_or_not : (n : ℕ) (r : Bool) → (n == 0 || not r) ≡ true → (n ≡ 0) ⊎ (r ≡ false)
last_or_not n false h = inr refl
last_or_not n true h = inl (ground arith)

neither : (n : ℕ) (r : Bool) → (n == 0 || not r) ≡ false → (0 < n) × (r ≡ true)
neither n true h = (ground arith, refl)
neither n false h = absurd (ground arith)

module _ (x : Exchange) (backoff : ℕ) where
  -- Attempt i, by the ways in which it ends.
  attempt_cases {κ} :
      (P : List Event × Answer → Type κ) (left i : ℕ)
      → (x.body_again i ≡ false → P ([], body_lost))
      → ((left ≡ 0) ⊎ (retryable_response (x.base i) ≡ false) → P (sent i ∷ [], x.base i))
      → ((x.cancelled_after i ≡ true) ⊎ (x.cancelled_waiting i ≡ true) → P (sent i ∷ [], cancelled))
      → (0 < left
          → retryable_response (x.base i) ≡ true
          → P (before (sent i ∷ []) (attempt_from x backoff left (suc i))))
      → (0 < left
          → retryable_response (x.base i) ≡ true
          → P (
              before
                (sent i ∷ waited (delay_of backoff i) ∷ [])
                (attempt_from x backoff left (suc i))))
      → P (attempt_from x backoff (suc left) i)
  unfolding attempt_from
  attempt_cases P left i lost answered stopped again later =
      let retry = retryable_response (x.base i) in
      if_case P _ _ _ (λ e. lost (right_not (ltb 0 i && x.has_body) (x.body_again i) e))
        λ _.
          if_case P _ _ _ (λ e. answered (last_or_not left retry e))
            λ e.
              let (more, yes_retry) = neither left retry e in
              if_case P _ _ _ (λ f. stopped (inl f))
                λ _.
                  if_case P _ _ _ (λ _. again more yes_retry)
                    λ _. if_case P _ _ _ (λ f. stopped (inr f)) λ _. later more yes_retry

  before-sends :
      (i d : ℕ) (r : List Event × Answer)
      → (sends (before (sent i ∷ []) r).0 ≡ suc (sends r.0))
        × (sends (before (sent i ∷ waited d ∷ []) r).0 ≡ suc (sends r.0))
  before-sends i d (es, a) = (refl, refl)

  before-answer : (es : List Event) (r : List Event × Answer) → (before es r).1 ≡ r.1
  before-answer es (fs, a) = refl

  answered_here :
      (left i : ℕ)
      → (left ≡ 0) ⊎ (retryable_response (x.base i) ≡ false)
      → IsAnswer x i (suc left) (sent i ∷ [], x.base i)
  answered_here left i last =
      let here : i ≡ i + 0 = omega arith in
      (
        zero,
        ap (λ m. x.base m) here,
        refl,
        omega arith,
        elim last [
          | inl e ↦ inl (omega (arith, e))
          | inr e ↦ inr (subst (λ m. retryable_response (x.base m) ≡ false) here e)
        ],
        λ j h. absurd (omega (arith, h)),
      )

  retry_before :
      (i k : ℕ)
      → retryable_response (x.base i) ≡ true
      → ((j : ℕ) → j < k → retryable_response (x.base (suc i + j)) ≡ true)
      → (j : ℕ) → j < suc k
      → retryable_response (x.base (i + j)) ≡ true
  retry_before i k again earlier zero h =
      let here : i ≡ i + 0 = omega arith in
      subst (λ m. retryable_response (x.base m) ≡ true) here again
  retry_before i k again earlier (suc j) h =
      let next : suc i + j ≡ i + suc j = omega arith in
      subst (λ m. retryable_response (x.base m) ≡ true) next (earlier j (omega (arith, h)))

  retried :
      (left i : ℕ) (es : List Event) (r : List Event × Answer)
      → retryable_response (x.base i) ≡ true
      → sends (before es r).0 ≡ suc (sends r.0)
      → IsAnswer x (suc i) left r
      → IsAnswer x i (suc left) (before es r)
  retried left i es r again one (k, a, count, below, last, earlier) =
      let next : suc i + k ≡ i + suc k = omega arith in
      (
        suc k,
        before-answer es r ∙ a ∙ ap (λ m. x.base m) next,
        one ∙ ap suc count,
        omega (arith, below),
        elim last [
          | inl e ↦ inl (ap suc e)
          | inr e ↦ inr (subst (λ m. retryable_response (x.base m) ≡ false) next e)
        ],
        retry_before i k again earlier,
      )

  interrupted :
      (i : ℕ) → Undisturbed x → ¬ ((x.cancelled_after i ≡ true) ⊎ (x.cancelled_waiting i ≡ true))
  interrupted i u (inl h) = cc (u.2 i, h)
  interrupted i u (inr h) = cc (u.3 i, h)

  Undisturbed-from :
      (left i : ℕ) → Undisturbed x → IsAnswer x i (suc left) (attempt_from x backoff (suc left) i)
  Undisturbed-from zero i u =
      attempt_cases (IsAnswer x i 1) zero i (λ h. absurd (cc (u.1 i, h))) (answered_here zero i)
        (λ h. absurd (interrupted i u h)) (λ h e. absurd (omega (arith, h)))
        λ h e. absurd (omega (arith, h))
  Undisturbed-from (suc left) i u =
      let others = Undisturbed-from left (suc i) u in
      let rest = attempt_from x backoff (suc left) (suc i) in
      attempt_cases (IsAnswer x i (suc (suc left))) (suc left) i (λ h. absurd (cc (u.1 i, h)))
        (answered_here (suc left) i) (λ h. absurd (interrupted i u h))
        (λ h e. retried (suc left) i (sent i ∷ []) rest e (before-sends i 0 rest).0 others)
        λ h e.
          retried (suc left) i (sent i ∷ waited (delay_of backoff i) ∷ []) rest e
            (before-sends i (delay_of backoff i) rest).1 others

  -- A GET or HEAD request whose context is never cancelled and whose body, if it has one, can be
  -- had again, is sent until an answer asks for no retry, at most `retries + 1` times in all, and
  -- that answer, or the last one, is the result.
  pub round_trip-IsAnswer :
      (retries : ℕ)
      → one_of x.method ("GET" ∷ "HEAD" ∷ []) ≡ true
      → (not x.has_body || x.has_get_body) ≡ true
      → Undisturbed x
      → IsAnswer x 0 (suc retries) (round_trip x backoff retries)
  unfolding round_trip
  round_trip-IsAnswer retries get again u = rw (get, u.0, again) (Undisturbed-from retries 0 u)

  bounded_from : (left i : ℕ) → sends (attempt_from x backoff left i).0 ≤ left
  unfolding attempt_from
  bounded_from zero i = omega arith
  bounded_from (suc left) i =
      let others = bounded_from left (suc i) in
      let rest = attempt_from x backoff left (suc i) in
      attempt_cases (λ r. sends r.0 ≤ suc left) left i (λ h. omega arith) (λ h. omega arith)
        (λ h. omega arith) (λ h e. omega (arith, (before-sends i 0 rest).0, others))
        λ h e. omega (arith, (before-sends i (delay_of backoff i) rest).1, others)

  -- Whatever is answered, cancelled or lost, a GET or HEAD request without a body, or with one that can
  -- be had again, is sent at most `retries + 1` times, and any other request at most once.
  pub round_trip-sends :
      (retries : ℕ)
      → sends (round_trip x backoff retries).0 ≤ (
          if one_of x.method ("GET" ∷ "HEAD" ∷ []) && (not x.has_body || x.has_get_body)
          then suc retries
          else 1)
  unfolding round_trip
  round_trip-sends retries = elim (Bool-cases (one_of x.method ("GET" ∷ "HEAD" ∷ []))) [
    | inl e ↦ elim (Bool-cases (not x.has_body || x.has_get_body)) [
      | inl g ↦ elim (Bool-cases x.cancelled_first) [
        | inl f ↦ rw (e, f, g) (omega arith)
        | inr f ↦ rw (e, f, g) (bounded_from (suc retries) 0)
      ]
      | inr g ↦ elim (Bool-cases x.cancelled_first) [
        | inl f ↦ rw (e, f, g) (omega arith)
        | inr f ↦ rw (e, f, g) (bounded_from 1 0)
      ]
    ]
    | inr e ↦ rw e (omega arith)
  ]
