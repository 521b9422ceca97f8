-- ===== src/Backend/Circuit.antt =====
-- The circuit breaker of pkg/backend/backend.go over histories of calls.
use gorp.Prelude.{
  ℤ, String, ℕ, ◌+◌, ◌<◌, none, some, ◌≡◌, refl, sym, ap, ◌∙◌, if◌then◌else◌, str_eq, is_some, ltb,
  ◌&&◌, Bool, ◌⊎◌, inl, inr, true, false, not, List, [], ◌∷◌, Option, arith, pos, leb_ℤ, Bool-cases,
  Option-cases, leb,
}
use gorp.Http.{Response}
use gorp.Backend.{
  Backend, State, opened, breaker_eq, available, state, state_of, Modifier, Exchange, answered,
  failed, handle, serve, Checked, status, check_health, record_failure, record_success,
  modify_response, run_modifiers, new, start_health, is_passive, closed, half_open, state_closed,
  state_open,
}

-- The calls that change a backend: Available, a proxied request, a health check.
pub data Event : Type 0 where
  asked : ℕ → Event
  served : List Modifier → ℕ → Exchange → Event
  checked : Checked → Event

pub step : Event → Backend → Backend
step (asked now) b = (available now b).0
step (served fs now x) b = (serve fs now x b).0
step (checked c) b = check_health c b

pub run : List Event → Backend → Backend
run [] b = b
run (e ∷ es) b = run es (step e b)

-- Without health checks `healthy` tells an open breaker; with them a healthy backend has a closed
-- breaker, and no breaker is half open. The failures stay below the threshold, and an unlimited
-- backend counts no connection.
pub record IsCoherent (b : Backend) : Type 0 where
  pub agree : is_passive b ≡ true → b.healthy ≡ not (breaker_eq b.breaker opened)
  pub trusted : is_passive b ≡ false → b.healthy ≡ true → b.breaker ≡ closed
  pub never_half : is_passive b ≡ false → breaker_eq b.breaker half_open ≡ false
  pub below : b.failure_count < 5
  pub uncounted : leb_ℤ b.max_connections (pos 0) ≡ true → b.active ≡ 0

available-IsCoherent : (now : ℕ) (b : Backend) → IsCoherent b → IsCoherent (available now b).0
unfolding available
available-IsCoherent now b v = ground arith

check_health-IsCoherent : (c : Checked) (b : Backend) → IsCoherent b → IsCoherent (check_health c b)
unfolding check_health
check_health-IsCoherent c b v = ground arith

record_failure-IsCoherent :
    (now : ℕ) (b : Backend) → IsCoherent b → IsCoherent (record_failure now b)
unfolding record_failure
record_failure-IsCoherent now b v = ground arith

record_success-IsCoherent : (b : Backend) → IsCoherent b → IsCoherent (record_success b)
unfolding record_success
record_success-IsCoherent b v = ground arith

-- What the bookkeeping of a request leaves alone.
record_failure-active :
    (now : ℕ) (b : Backend)
    → ((record_failure now b).active ≡ b.active)
      × ((record_failure now b).max_connections ≡ b.max_connections)
unfolding record_failure
record_failure-active now b = ground arith

record_success-active :
    (b : Backend)
    → ((record_success b).active ≡ b.active)
      × ((record_success b).max_connections ≡ b.max_connections)
unfolding record_success
record_success-active b = ground arith

-- The three outcomes of a request that was admitted.
handle_cases {ℓ} :
    (P : Backend × ℕ → Type ℓ) (fs : List Modifier) (now : ℕ) (x : Exchange) (b : Backend)
    → ((r : Response) → r.status < 500 → P (record_success b, r.status))
    → ((s : ℕ) → (s ≡ 502) ⊎ (s ≡ 504) → P (record_failure now b, s))
    → P (handle fs now x b)
unfolding handle
handle_cases P fs now (failed true) b good bad = bad 504 (inr refl)
handle_cases P fs now (failed false) b good bad = bad 502 (inl refl)
handle_cases P fs now (answered r) b good bad = elim (Option-cases (run_modifiers fs r)) [
  | inl e ↦ rw (e, modify_response) (bad 502 (inl refl))
  | inr (r', e) ↦ elim (Bool-cases (leb 500 r'.status)) [
    | inl big ↦ rw (e, modify_response, big) (bad 502 (inl refl))
    | inr small ↦ rw (e, modify_response, small) (good r' (ground arith))
  ]
]

handle-IsCoherent :
    (fs : List Modifier) (now : ℕ) (x : Exchange) (b : Backend)
    → IsCoherent b
    → IsCoherent (handle fs now x b).0
handle-IsCoherent fs now x b v =
    handle_cases (λ p. IsCoherent p.0) fs now x b (λ r h. record_success-IsCoherent b v)
      (λ s h. record_failure-IsCoherent now b v)

pub handle-active :
    (fs : List Modifier) (now : ℕ) (x : Exchange) (b : Backend)
    → ((handle fs now x b).0.active ≡ b.active)
      × ((handle fs now x b).0.max_connections ≡ b.max_connections)
handle-active fs now x b =
    handle_cases (λ p. (p.0.active ≡ b.active) × (p.0.max_connections ≡ b.max_connections)) fs now x
      b (λ r h. record_success-active b) (λ s h. record_failure-active now b)

serve-IsCoherent :
    (fs : List Modifier) (now : ℕ) (x : Exchange) (b : Backend)
    → IsCoherent b
    → IsCoherent (serve fs now x b).0
unfolding serve
serve-IsCoherent fs now x b v = ground (
  arith,
  handle-IsCoherent fs now x b v,
  handle-active fs now x b,
  handle-IsCoherent fs now x (record b { active = b.active + 1 }),
  handle-active fs now x (record b { active = b.active + 1 }),
)

step-IsCoherent : (e : Event) (b : Backend) → IsCoherent b → IsCoherent (step e b)
unfolding step
step-IsCoherent (asked now) b v = available-IsCoherent now b v
step-IsCoherent (served fs now x) b v = serve-IsCoherent fs now x b v
step-IsCoherent (checked c) b v = check_health-IsCoherent c b v

run-IsCoherent : (es : List Event) (b : Backend) → IsCoherent b → IsCoherent (run es b)
unfolding run
run-IsCoherent [] b v = v
run-IsCoherent (e ∷ es) b v = run-IsCoherent es (step e b) (step-IsCoherent e b v)

state_passive : (b : Backend) → IsCoherent b → is_passive b ≡ true → state b ≡ state_of b.breaker
unfolding state state_of
state_passive b v p = ground (arith, v.agree p)

state_checked :
    (b : Backend)
    → IsCoherent b
    → is_passive b ≡ false
    → state b ≡ (if b.healthy then state_closed else state_open)
unfolding state state_of
state_checked b v p = ground (arith, v.trusted p)

-- What State reports: the breaker, or the last health check.
abbrev pub reported : Backend → State
reported b =
    if is_passive b then state_of b.breaker else if b.healthy then state_closed else state_open

state-reported : (b : Backend) → IsCoherent b → state b ≡ reported b
state-reported b v = elim (Bool-cases (is_passive b)) [
  | inl p ↦ rw p (state_passive b v p)
  | inr p ↦ rw p (state_checked b v p)
]

-- What a health check finds: a status of success from a host.
abbrev pub passed : Checked → Bool
passed (status n) = leb 200 n && ltb n 300
passed _ = false

-- The last health check of a history, or what was before it.
abbrev pub last_check : Option String → Bool → List Event → Bool
last_check host before [] = before
last_check host before (asked now ∷ es) = last_check host before es
last_check host before (served fs now x ∷ es) = last_check host before es
last_check host before (checked c ∷ es) = last_check host (is_some host && passed c) es

abbrev Same : Backend → Backend → Type 0
Same b b' =
    (b'.healthy ≡ b.healthy)
    × (b'.health_check_path ≡ b.health_check_path)
    × (b'.url_host ≡ b.url_host)

available-Same : (now : ℕ) (b : Backend) → is_passive b ≡ false → Same b (available now b).0
unfolding available
available-Same now b p = ground (arith, p)

record_success-Same : (b : Backend) → is_passive b ≡ false → Same b (record_success b)
unfolding record_success
record_success-Same b p = ground (arith, p)

record_failure-Same : (now : ℕ) (b : Backend) → is_passive b ≡ false → Same b (record_failure now b)
unfolding record_failure
record_failure-Same now b p = ground (arith, p)

handle-Same :
    (fs : List Modifier) (now : ℕ) (x : Exchange) (b : Backend)
    → is_passive b ≡ false
    → Same b (handle fs now x b).0
handle-Same fs now x b p =
    handle_cases (λ q. Same b q.0) fs now x b (λ r h. record_success-Same b p)
      (λ s h. record_failure-Same now b p)

serve-Same :
    (fs : List Modifier) (now : ℕ) (x : Exchange) (b : Backend)
    → is_passive b ≡ false
    → Same b (serve fs now x b).0
unfolding serve
serve-Same fs now x b p =
    ground
      (arith, handle-Same fs now x b p, handle-Same fs now x (record b { active = b.active + 1 }) p)

check_health-kept :
    (c : Checked) (b : Backend)
    → ((check_health c b).healthy ≡ (is_some b.url_host && passed c))
      × ((check_health c b).health_check_path ≡ b.health_check_path)
      × ((check_health c b).url_host ≡ b.url_host)
unfolding check_health
check_health-kept c b = ground arith

-- What a backend is before its first call: made by New, with the health check that the builder stores
-- in it, if any, and a limit.
abbrev pub start : String → Option String → Option String → ℤ → Backend
start name host path max = record (start_health path (new name host)) { max_connections = max }

never_passive : (path : String) → str_eq (if str_eq path "" then "/health" else path) "" ≡ false
never_passive path = elim (Bool-cases (str_eq path "")) [ inl e ↦ rw e refl | inr e ↦ rw e e ]

start-IsCoherent :
    (name : String) (host path : Option String) (max : ℤ) → IsCoherent (start name host path max)
unfolding new start_health
start-IsCoherent name host none max = record {
  agree = λ p. refl;
  trusted = λ p h. refl;
  never_half = λ p. refl;
  below = omega arith;
  uncounted = λ h. refl;
}
start-IsCoherent name host (some path) max = record {
  agree = λ p. absurd (cc (sym (never_passive path) ∙ p));
  trusted = λ p h. refl;
  never_half = λ p. refl;
  below = omega arith;
  uncounted = λ h. refl;
}

still_checked :
    (b b' : Backend)
    → b'.health_check_path ≡ b.health_check_path
    → is_passive b ≡ false
    → is_passive b' ≡ false
still_checked b b' path p = ap (λ s. str_eq s "") path ∙ p

-- The rest of a history, after a step that keeps the flag.
abbrev Follows : List Event → Type 0
Follows es =
    (b : Backend) → is_passive b ≡ false → (run es b).healthy ≡ last_check b.url_host b.healthy es

next_checked :
    (es : List Event) (b b' : Backend)
    → Follows es
    → is_passive b ≡ false
    → Same b b'
    → (run es b').healthy ≡ last_check b.url_host b.healthy es
next_checked es b b' rest p (healthy, path, host) =
    rest b' (still_checked b b' path p)
    ∙ ap (λ h. last_check h b'.healthy es) host
    ∙ ap (λ v. last_check b.url_host v es) healthy

last_checked : (es : List Event) → Follows es
unfolding run step
last_checked [] b p = refl
last_checked (asked now ∷ es) b p =
    next_checked es b (available now b).0 (last_checked es) p (available-Same now b p)
last_checked (served fs now x ∷ es) b p =
    next_checked es b (serve fs now x b).0 (last_checked es) p (serve-Same fs now x b p)
last_checked (checked c ∷ es) b p =
    let (healthy, path, host) = check_health-kept c b in
    last_checked es (check_health c b) (still_checked b (check_health c b) path p)
    ∙ ap (λ h. last_check h (check_health c b).healthy es) host
    ∙ ap (λ v. last_check b.url_host v es) healthy

-- With a health check, the flag is the last check, and false before the first.
abbrev pub HasLastCheck : Option String → Option String → List Event → Backend → Type 0
HasLastCheck host none es b = Unit
HasLastCheck host (some path) es b = b.healthy ≡ last_check host false es

run-start-HasLastCheck :
    (name : String) (host path : Option String) (max : ℤ) (es : List Event)
    → HasLastCheck host path es (run es (start name host path max))
unfolding new start_health
run-start-HasLastCheck name host none max es = tt
run-start-HasLastCheck name host (some path) max es =
    last_checked es (start name host (some path) max) (never_passive path)

-- After any history of calls on a new backend, with a health check or without one, and with any limit:
-- without a health check, `healthy` is true exactly when the breaker is not open, and State reports the
-- breaker; with one, `healthy` is whether the last check met a status of success, and false before
-- the first check, the breaker is never half open, it is closed where `healthy` is true, and State
-- reports `healthy`. In both cases fewer than five failures are counted, and without a limit no
-- connection is counted.
pub run-new-IsCoherent :
    (name : String) (host path : Option String) (max : ℤ) (es : List Event)
    → let b = run es (start name host path max) in
      IsCoherent b × HasLastCheck host path es b × (state b ≡ reported b)
run-new-IsCoherent name host path max es =
    let v = run-IsCoherent es (start name host path max) (start-IsCoherent name host path max) in
    (v, run-start-HasLastCheck name host path max es, state-reported _ v)
