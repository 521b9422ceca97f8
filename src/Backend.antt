-- ===== src/Backend.antt =====
-- pkg/backend/backend.go: a backend's counters, its circuit breaker and its health checks.
-- Each method is one step on the record; the atomic fields are its mutable part. Times are
-- nanoseconds and enter as arguments.
pub mod Answers
pub mod Capacity
pub mod Circuit
mod Tests
pub mod Trips
use gorp.Prelude.{
  ℕ, ◌+◌, ◌-◌, ◌*◌, String, ◌≡◌, refl, Bool, true, false, ◌||◌, not, List, [], ◌∷◌, Option, none,
  some, ltb, leb, if◌then◌else◌, ℤ, pos, leb_ℤ, str_eq,
}
use gorp.Http.{Response}

-- breakerState; only these three values are ever stored.
pub data Breaker : Type 0 where
  closed half_open opened : Breaker

abbrev pub breaker_eq : Breaker → Breaker → Bool
breaker_eq closed closed = true
breaker_eq opened opened = true
breaker_eq half_open half_open = true
breaker_eq _ _ = false

pub record Backend : Type 0 where
  pub name : String
  -- b.URL.Host, where b.URL is not nil
  pub url_host : Option String
  pub max_connections : ℤ
  pub health_check_path : String
  pub active : ℕ
  pub healthy : Bool
  pub retry_after : ℕ
  pub failure_count : ℕ
  pub breaker : Breaker

abbrev pub is_passive : Backend → Bool
is_passive b = str_eq b.health_check_path ""

abbrev pub second : ℕ
second = 1000000000

-- breakerState.CompareAndSwap
unfoldable pub compare_and_swap : Breaker → Breaker → Backend → Backend × Bool
compare_and_swap old new b =
    if breaker_eq b.breaker old then (record b { breaker = new }, true) else (b, false)

-- TryAcquire, run without interference (Backend/Capacity has its interleavings)
unfoldable pub try_acquire : Backend → Backend × Bool
try_acquire b =
    if leb_ℤ b.max_connections (pos 0)
    then (b, true)
    else if leb_ℤ b.max_connections (pos b.active)
    then (b, false)
    else (record b { active = b.active + 1 }, true)

unfoldable pub release : Backend → Backend
release b = if ltb 0 b.active then record b { active = b.active - 1 } else b

unfoldable pub open_circuit : ℕ → Backend → Backend
open_circuit now b = record b {
  healthy = false;
  failure_count = 0;
  retry_after = now + 30 * second;
  breaker = opened;
}

-- the branch of Available on an open breaker
unfoldable pub probe : ℕ → Backend → Backend × Bool
unfolding compare_and_swap
probe now b =
    if ltb now b.retry_after
    then (b, false)
    else let (b', swapped) = compare_and_swap opened half_open b in
      if swapped then (record b' { healthy = true }, true) else (b', false)

available_in : Breaker → ℕ → Backend → Backend × Bool
available_in closed now b = (b, b.healthy)
available_in opened now b = probe now b
available_in half_open now b = (b, false)

-- Available, and Retry, which calls it
unfoldable pub available : ℕ → Backend → Backend × Bool
unfolding available_in probe
available now b = if not (is_passive b) then (b, b.healthy) else available_in b.breaker now b

pub data State : Type 0 where
  state_open state_half_open state_closed : State

pub state_of : Breaker → State
state_of opened = state_open
state_of half_open = state_half_open
state_of closed = state_closed

-- State
unfoldable pub state : Backend → State
unfolding state_of
state b = if not b.healthy then state_open else state_of b.breaker

-- What a response modifier returns: the response that it leaves, or an error.
abbrev pub Modifier : Type 0
Modifier = Response → Option Response

-- the loop over b.ModifyResponse
unfoldable pub run_modifiers : List Modifier → Response → Option Response
run_modifiers [] r = some r
run_modifiers (f ∷ fs) r = elim (f r) [ none ↦ none | some r' ↦ run_modifiers fs r' ]

recovered : Backend × Bool → Backend
recovered (b, true) = record b { healthy = true; retry_after = 0 }
recovered (b, false) = b

-- the end of ModifyResponse, on a response below 500
unfoldable pub record_success : Backend → Backend
unfolding compare_and_swap recovered
record_success b =
    let cleared = record b { failure_count = 0 } in
    if is_passive b then recovered (compare_and_swap half_open closed cleared) else cleared

-- ModifyResponse: the response is passed on, or `none` stands for the error that it returns.
unfoldable pub modify_response : List Modifier → Response → Backend → Backend × Option Response
unfolding run_modifiers record_success
modify_response fs r b = elim (run_modifiers fs r) [
  | none ↦ (b, none)
  | some r' ↦ if leb 500 r'.status then (b, none) else (record_success b, some r')
]

fail_in : Breaker → ℕ → Backend → Backend
fail_in half_open now b = open_circuit now b
fail_in closed now b =
    let counted = record b { failure_count = b.failure_count + 1 } in
    if leb 5 counted.failure_count then open_circuit now counted else counted
fail_in opened now b = b

-- the bookkeeping of ErrorHandler
unfoldable pub record_failure : ℕ → Backend → Backend
unfolding fail_in open_circuit
record_failure now b = if is_passive b then fail_in b.breaker now b else b

-- What the transport gives back: a response, or an error that is a timeout or not.
pub data Exchange : Type 0 where
  answered : Response → Exchange
  failed : Bool → Exchange

abbrev pub error_status : Bool → ℕ
error_status timeout = if timeout then 504 else 502

-- httputil.ReverseProxy with the two hooks: the state left, and the status of the answer.
finish : ℕ → Backend × Option Response → Backend × ℕ
finish now (b, some r) = (b, r.status)
finish now (b, none) = (record_failure now b, error_status false)

unfoldable pub handle : List Modifier → ℕ → Exchange → Backend → Backend × ℕ
unfolding modify_response record_failure finish
handle fs now (failed timeout) b = (record_failure now b, error_status timeout)
handle fs now (answered r) b = finish now (modify_response fs r b)

released : Backend × ℕ → Backend × ℕ
released (b, n) = (release b, n)

admit : List Modifier → ℕ → Exchange → Backend × Bool → Backend × ℕ
admit fs now x (b, true) = released (handle fs now x b)
admit fs now x (b, false) = (b, 503)

-- b.Proxy: acquire, handle, release
unfoldable pub serve : List Modifier → ℕ → Exchange → Backend → Backend × ℕ
unfolding try_acquire handle release released admit
serve fs now x b = admit fs now x (try_acquire b)

-- setHealth
unfoldable pub set_health : Bool → Backend → Backend
set_health true b = record b {
  healthy = true;
  failure_count = 0;
  retry_after = 0;
  breaker = closed;
}
set_health false b = record b { healthy = false; breaker = opened }

-- What a health probe meets: no request could be made, the exchange failed, or a status.
pub data Checked : Type 0 where
  no_request no_response : Checked
  status : ℕ → Checked

verdict : Checked → Bool
verdict no_request = false
verdict no_response = false
verdict (status n) = not (ltb n 200 || leb 300 n)

-- checkHealth
unfoldable pub check_health : Checked → Backend → Backend
unfolding set_health verdict
check_health c b = elim b.url_host [ none ↦ set_health false b | some _ ↦ set_health (verdict c) b ]

-- New
unfoldable pub new : String → Option String → Backend
new name url_host = record {
  name = name;
  url_host = url_host;
  max_connections = pos 0;
  health_check_path = "";
  active = 0;
  healthy = true;
  retry_after = 0;
  failure_count = 0;
  breaker = closed;
}

-- What the builder stores in a new backend whose health check is configured with this path: it is
-- unhealthy until its first check, with a closed breaker.
unfoldable pub start_health : Option String → Backend → Backend
start_health none b = b
start_health (some path) b = record b {
  health_check_path = if str_eq path "" then "/health" else path;
  healthy = false;
}
