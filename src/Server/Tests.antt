-- ===== src/Server/Tests.antt =====
-- Runs of the limits of pkg/server, and their theorem at a concrete input.
use gorp.Prelude.{◌≡◌, refl, ◌+◌, List, some, none, true, false, [], ◌∷◌, pos}
use gorp.Server.Lifecycle.{
  Instance, Server, http, tcp, returned, new, register, append_to, registered, begin_shutdown,
  finish_shutdown, Reach, here, next, registers, fails, fail, offer, begins, finishes,
}
use gorp.Server.Lifecycle.Closed.{Reach-closed}
use gorp.Server.Lifecycle.Counts.{count, open_ones}
use gorp.Server.Lifecycle.Orderly.{WhenReturned}
use gorp.Server.Lifecycle.Ends.{Ends, Steps, by_failure, now, after, run-Ends, run_forgets}
use gorp.Server.{Event, calls, arrives, leaves, start, run, IsExact, run-IsExact}

-- The second inner Accept fails, and the third call of Accept meets a limit of two.
abbrev accepts : List Event
accepts = calls ∷ arrives true ∷ calls ∷ arrives false ∷ calls ∷ calls ∷ arrives true ∷ leaves ∷ []

run-IsExact_example : IsExact (pos 2) (run accepts (start (pos 2)))
run-IsExact_example = run-IsExact 1 accepts

-- A TCP listener that registers and fails before Shutdown, and an HTTP server that comes too late.
abbrev first : Server
unfolding new register append_to
first = (register tcp 1 new).0

abbrev failed : Server
unfolding fail offer
failed = fail "lost" first

abbrev second : Server
unfolding begin_shutdown
second = begin_shutdown failed

abbrev third : Server
unfolding finish_shutdown registered
third = finish_shutdown second

abbrev fourth : Server
unfolding register
fourth = (register http 2 third).0

abbrev both : List Instance
both = (tcp, 1) ∷ (http, 2) ∷ []

reached : Reach ((tcp, 1) ∷ (http, 2) ∷ []) fourth
unfolding new register append_to begin_shutdown finish_shutdown registered fail offer
reached =
    next
      (next (next (next (next here (registers tcp 1)) (fails "lost")) (begins refl refl))
        (finishes refl refl))
      (registers http 2)

both_closed : fourth.closed ≡ (tcp, 1) ∷ (http, 2) ∷ []
unfolding new register append_to begin_shutdown finish_shutdown registered fail offer
both_closed = refl

Reach-closed_example :
    (count (λ x. true) both
      ≡ count (λ x. true) fourth.closed + count (λ x. true) (open_ones fourth))
    × WhenReturned fourth.phase (
        (count (λ x. true) both ≡ count (λ x. true) fourth.closed)
        × (fourth.stopped ≡ true)
        × (fourth.cancelled ≡ true))
Reach-closed_example = Reach-closed reached (λ x. true)

-- The failure of the listener, and then the registration of a server before Shutdown.
run-Ends_example : Ends 4 (register http 2 (fail "lost" first)).0
run-Ends_example =
    run-Ends {s = first} {u = fail "lost" first} (by_failure "lost") (after now (registers http 2))

run_forgets_example :
    (t : Server) × Steps 5 first t × (t.phase ≡ returned none) × (t.errch ≡ some "port in use")
unfolding new register append_to
run_forgets_example = run_forgets first "port in use" refl refl refl refl
