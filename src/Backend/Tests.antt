-- ===== src/Backend/Tests.antt =====
-- Runs of pkg/backend, and its theorems at concrete inputs.
use gorp.Prelude.{◌+◌, ◌*◌, ◌≡◌, refl, ◌⊎◌, true, false, List, [], ◌∷◌, some, arith, pos, leb_ℤ}
use gorp.Backend.{
  Backend, closed, opened, second, available, state, failed, serve, status, new, start_health,
  record_failure, record_success,
}
use gorp.Backend.Answers.{Answers, IsFull, serve_balanced}
use gorp.Backend.Circuit.{
  Event, asked, served, checked, run, IsCoherent, HasLastCheck, run-new-IsCoherent,
  start as new_backend, reported,
}
use gorp.Backend.Trips.{fail_all, five_failures_trip, probe_once}
use gorp.Backend.Capacity
use gorp.Backend.Capacity.{holders, start, run-start-within}

abbrev api : Backend
api = record {
  name = "api";
  url_host = some "10.0.0.1:80";
  max_connections = pos 2;
  health_check_path = "";
  active = 0;
  healthy = true;
  retry_after = 0;
  failure_count = 0;
  breaker = closed;
}

abbrev tripped : Backend
tripped = record api { healthy = false; breaker = opened; retry_after = 100 }

abbrev failures : List Event
failures =
    served [] 1 (failed true) ∷ served [] 2 (failed false) ∷ asked 3 ∷ checked (status 200) ∷ []

api-IsCoherent : IsCoherent api
api-IsCoherent = record {
  agree = λ p. refl;
  trusted = λ p h. refl;
  never_half = λ p. refl;
  below = omega arith;
  uncounted = λ h. refl;
}

serve_timeout : (serve [] 5 (failed true) api).1 ≡ 504
unfolding serve
serve_timeout = refl

run-new-IsCoherent_example :
    let b = run failures (new_backend "api" (some "h") (some "/ready") (pos 2)) in
    IsCoherent b × HasLastCheck (some "h") (some "/ready") failures b × (state b ≡ reported b)
run-new-IsCoherent_example = run-new-IsCoherent "api" (some "h") (some "/ready") (pos 2) failures

-- A backend with health checks is not available before its first check.
unavailable_at_first : (available 3 (new_backend "api" (some "h") (some "") (pos 0))).1 ≡ false
unfolding available new start_health
unavailable_at_first = refl

serve_balanced_example :
    ((serve [] 5 (failed true) api).0.active ≡ 0)
    × ((¬ (IsFull api) × Answers [] (failed true) (serve [] 5 (failed true) api).1)
        ⊎ (((serve [] 5 (failed true) api).1 ≡ 503)
            × IsFull api
            × ((serve [] 5 (failed true) api).0 ≡ api)))
serve_balanced_example = serve_balanced [] 5 (failed true) api api-IsCoherent

five_failures_trip_example :
    ((fail_all (1 ∷ 2 ∷ 3 ∷ 4 ∷ []) api).breaker ≡ closed)
    × ((record_failure 9 (fail_all (1 ∷ 2 ∷ 3 ∷ 4 ∷ []) api)).breaker ≡ opened)
    × ((available 20 (record_failure 9 (fail_all (1 ∷ 2 ∷ 3 ∷ 4 ∷ []) api))).1 ≡ false)
five_failures_trip_example =
    five_failures_trip (1 ∷ 2 ∷ 3 ∷ 4 ∷ []) 9 20 api refl refl refl (omega arith)

probe_once_example :
    let b' = (available 100 tripped).0 in
    ((available 100 tripped).1 ≡ true)
    × (available 101 b' ≡ (b', false))
    × ((record_failure 102 b').breaker ≡ opened)
    × ((record_failure 102 b').retry_after ≡ 102 + 30 * second)
    × ((record_success b').breaker ≡ closed)
    × ((record_success b').healthy ≡ true)
    × ((record_success b').failure_count ≡ 0)
probe_once_example = probe_once 100 101 102 tripped refl refl (omega arith)

run-start-within_example :
    let s = Capacity.run (0 ∷ 1 ∷ 0 ∷ 1 ∷ 1 ∷ 0 ∷ []) (start (pos 1) true 2) in
    (s.active ≡ pos (holders s.threads)) × (leb_ℤ s.active (pos 1) ≡ true)
run-start-within_example = run-start-within (pos 1) true 2 (0 ∷ 1 ∷ 0 ∷ 1 ∷ 1 ∷ 0 ∷ []) refl
