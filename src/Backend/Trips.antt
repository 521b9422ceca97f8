-- ===== src/Backend/Trips.antt =====
-- When the passive circuit breaker of pkg/backend/backend.go opens, and how it closes again.
use gorp.Prelude.{
  ℕ, ◌+◌, ◌*◌, ◌≤◌, ◌<◌, ◌≡◌, refl, ap, ◌∙◌, true, false, List, [], ◌∷◌, arith, length,
}
use gorp.Backend.{
  Backend, closed, half_open, opened, is_passive, second, available, record_failure, record_success,
}

-- Failed exchanges, at the given times.
pub fail_all : List ℕ → Backend → Backend
fail_all [] b = b
fail_all (t ∷ ts) b = fail_all ts (record_failure t b)

-- What a failure below the threshold leaves.
abbrev Counts : ℕ → Backend → Backend → Type 0
Counts n b b' =
    (b'.breaker ≡ closed)
    × (b'.failure_count ≡ b.failure_count + n)
    × (b'.healthy ≡ b.healthy)
    × (is_passive b' ≡ true)

record_failure-Counts :
    (t : ℕ) (b : Backend)
    → is_passive b ≡ true
    → b.breaker ≡ closed
    → b.failure_count + 1 < 5
    → Counts 1 b (record_failure t b)
unfolding record_failure
record_failure-Counts t b p c h = ground arith

fail_below :
    (ts : List ℕ) (b : Backend)
    → is_passive b ≡ true
    → b.breaker ≡ closed
    → b.failure_count + length ts < 5
    → Counts (length ts) b (fail_all ts b)
unfolding fail_all
fail_below [] b p c h = (c, omega arith, refl, p)
fail_below (t ∷ ts) b p c h =
    let (c', n, k, p') = record_failure-Counts t b p c (omega arith) in
    let (c'', m, j, p'') = fail_below ts (record_failure t b) p' c' (omega (arith, n)) in
    (c'', omega (arith, n, m), j ∙ k, p'')

record_failure_trips :
    (t : ℕ) (b : Backend)
    → is_passive b ≡ true
    → b.breaker ≡ closed
    → b.failure_count ≡ 4
    → ((record_failure t b).breaker ≡ opened)
      × ((record_failure t b).retry_after ≡ t + 30 * second)
      × (is_passive (record_failure t b) ≡ true)
unfolding record_failure
record_failure_trips t b p c h = ground arith

refuses :
    (now : ℕ) (b : Backend)
    → is_passive b ≡ true
    → b.breaker ≡ opened
    → now < b.retry_after
    → available now b ≡ (b, false)
unfolding available
refuses now b p o h = ground arith

-- A closed breaker of a backend without health checks stays closed over the first four failed
-- exchanges, the counter kept; the fifth one opens it, and then the backend is refused at every time
-- less than thirty seconds after that failure.
pub five_failures_trip :
    (ts : List ℕ) (last now : ℕ) (b : Backend)
    → is_passive b ≡ true
    → b.breaker ≡ closed
    → b.failure_count + length ts ≡ 4
    → now < last + 30 * second
    → ((fail_all ts b).breaker ≡ closed)
      × ((record_failure last (fail_all ts b)).breaker ≡ opened)
      × ((available now (record_failure last (fail_all ts b))).1 ≡ false)
five_failures_trip ts last now b p c h k =
    let (c', n, _, p') = fail_below ts b p c (omega arith) in
    let (o, r, p'') = record_failure_trips last (fail_all ts b) p' c' (omega (arith, n)) in
    (c', o, ap (λ x. x.1) (refuses now _ p'' o (omega (arith, r))))

pub half_open_refuses :
    (now : ℕ) (b : Backend)
    → is_passive b ≡ true
    → b.breaker ≡ half_open
    → available now b ≡ (b, false)
unfolding available
half_open_refuses now b p o = ground arith

pub probe_granted :
    (now : ℕ) (b : Backend)
    → is_passive b ≡ true
    → b.breaker ≡ opened
    → b.retry_after ≤ now
    → ((available now b).1 ≡ true)
      × ((available now b).0.breaker ≡ half_open)
      × (is_passive (available now b).0 ≡ true)
unfolding available
probe_granted now b p o h = ground arith

record_failure_reopens :
    (t : ℕ) (b : Backend)
    → is_passive b ≡ true
    → b.breaker ≡ half_open
    → ((record_failure t b).breaker ≡ opened) × ((record_failure t b).retry_after ≡ t + 30 * second)
unfolding record_failure
record_failure_reopens t b p o = ground arith

record_success_closes :
    (b : Backend)
    → is_passive b ≡ true
    → b.breaker ≡ half_open
    → ((record_success b).breaker ≡ closed)
      × ((record_success b).healthy ≡ true)
      × ((record_success b).failure_count ≡ 0)
unfolding record_success
record_success_closes b p o = ground arith

-- Of a backend without health checks whose open breaker has waited its time, the first call of
-- Available says yes and half-opens the breaker; every later call says no and changes nothing. A
-- failed exchange then opens it for another thirty seconds, and a success closes it, healthy and
-- with no failure counted.
pub probe_once :
    (now later t : ℕ) (b : Backend)
    → is_passive b ≡ true
    → b.breaker ≡ opened
    → b.retry_after ≤ now
    → let b' = (available now b).0 in
      ((available now b).1 ≡ true)
      × (available later b' ≡ (b', false))
      × ((record_failure t b').breaker ≡ opened)
      × ((record_failure t b').retry_after ≡ t + 30 * second)
      × ((record_success b').breaker ≡ closed)
      × ((record_success b').healthy ≡ true)
      × ((record_success b').failure_count ≡ 0)
probe_once now later t b p o h =
    let (said, half, p') = probe_granted now b p o h in
    let (reopened, until) = record_failure_reopens t _ p' half in
    let (shut, well, none_left) = record_success_closes _ p' half in
    (said, half_open_refuses later _ p' half, reopened, until, shut, well, none_left)
