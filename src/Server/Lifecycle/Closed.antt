-- ===== src/Server/Lifecycle/Closed.antt =====
-- Every server and listener is closed once and no later than Run returns.
use mathlib.Core.List.{append-nil}
use gorp.Prelude.{
  subst, sym, ◌∙◌, ◌+◌, ◌≡◌, refl, ap, Bool, true, false, List, [], ◌++◌, none, some, arith,
}
use gorp.Server.Lifecycle.{
  Instance, Phase, starting, waiting, stopping, returned, Server, new, registered, offer,
  begin_shutdown, finish_shutdown, Step, registers, fail, signal, take_error, fails, signals,
  admin_stops, cancels, begins, finishes, waits, selects_done, selects_error, returns, Reach, here,
  next,
}
use gorp.Server.Lifecycle.Counts.{count, count-append, open_ones}
use gorp.Server.Lifecycle.Orderly.{
  ReturnsLate, Follows, WhenReturned, IsOrderly, open_before, open_after, register-IsOrderly,
}

finish-once_each :
    (given : List Instance) (s : Server)
    → s.stopped ≡ false
    → IsOrderly given s
    → (p : Instance → Bool) → count p given ≡ count p (s.closed ++ registered s) + 0
finish-once_each given s e o p =
    omega
      (arith, o.once_each p, ap (count p) (open_before s e), count-append p s.closed (registered s))

same-Follows : (b c : Bool) → b ≡ false → Follows b c
same-Follows true c h = cc h
same-Follows false c h = tt

Follows-true : (b : Bool) → Follows b true
Follows-true true = refl
Follows-true false = tt

ReturnsLate-kept : (f : Phase) (b c : Bool) → b ≡ c → ReturnsLate f b → ReturnsLate f c
ReturnsLate-kept f b c e h = subst (ReturnsLate f) e h

ReturnsLate-true : (f : Phase) → ReturnsLate f true
ReturnsLate-true starting = tt
ReturnsLate-true waiting = tt
ReturnsLate-true (stopping e) = tt
ReturnsLate-true (returned e) = refl

unchanged : (given : List Instance) (s : Server) → IsOrderly given s → IsOrderly (given ++ []) s
unchanged given s o = rw (append-nil given) o

Step-IsOrderly :
    {given more : List Instance} {s t : Server}
    → IsOrderly given s
    → Step s more t
    → IsOrderly (given ++ more) t
unfolding begin_shutdown finish_shutdown fail signal take_error
Step-IsOrderly {given} {s = s} o (registers k i) = register-IsOrderly k i given s o
Step-IsOrderly {given} {s = s} o (fails e) =
    unchanged given (record s { errch = offer e s.errch; asked = true })
      (record {
        once_each = o.once_each;
        done_stopped = o.done_stopped;
        done_once = o.done_once;
        once_cancelled = o.once_cancelled;
        returns_late = o.returns_late;
      })
Step-IsOrderly {given} {s = s} o (signals h) =
    unchanged given (record s { watching = false; asked = true })
      (record {
        once_each = o.once_each;
        done_stopped = o.done_stopped;
        done_once = o.done_once;
        once_cancelled = o.once_cancelled;
        returns_late = o.returns_late;
      })
Step-IsOrderly {given} {s = s} o admin_stops =
    unchanged given (record s { asked = true })
      (record {
        once_each = o.once_each;
        done_stopped = o.done_stopped;
        done_once = o.done_once;
        once_cancelled = o.once_cancelled;
        returns_late = o.returns_late;
      })
Step-IsOrderly {given} {s = s} o (cancels h) =
    unchanged given (record s { cancelled = true })
      (record {
        once_each = o.once_each;
        done_stopped = o.done_stopped;
        done_once = o.done_once;
        once_cancelled = Follows-true s.shutdown_once;
        returns_late = o.returns_late;
      })
Step-IsOrderly {given} {s = s} o (begins h fresh) =
    unchanged given (record s { shutdown_once = true; cancelled = true; ready = false })
      (record {
        once_each = o.once_each;
        done_stopped = o.done_stopped;
        done_once = Follows-true s.done;
        once_cancelled = refl;
        returns_late = o.returns_late;
      })
Step-IsOrderly {given} {s = s} o (finishes once undone) =
    unchanged given (record s { stopped = true; closed = s.closed ++ registered s; done = true })
      (record {
        once_each = finish-once_each given s (sym o.done_stopped ∙ undone) o;
        done_stopped = refl;
        done_once = once;
        once_cancelled = o.once_cancelled;
        returns_late = ReturnsLate-true s.phase;
      })
Step-IsOrderly {given} {s = s} o (waits h) =
    unchanged given (record s { watching = true; ready = true; phase = waiting })
      (record {
        once_each = o.once_each;
        done_stopped = o.done_stopped;
        done_once = o.done_once;
        once_cancelled = o.once_cancelled;
        returns_late = tt;
      })
Step-IsOrderly {given} {s = s} o (selects_done h d) =
    unchanged given (record s { phase = returned none })
      (record {
        once_each = o.once_each;
        done_stopped = o.done_stopped;
        done_once = o.done_once;
        once_cancelled = o.once_cancelled;
        returns_late = d;
      })
Step-IsOrderly {given} {s = s} o (selects_error e h d) =
    unchanged given (record s { errch = none; asked = true; phase = stopping e })
      (record {
        once_each = o.once_each;
        done_stopped = o.done_stopped;
        done_once = o.done_once;
        once_cancelled = o.once_cancelled;
        returns_late = tt;
      })
Step-IsOrderly {given} {s = s} o (returns e h d) =
    unchanged given (record s { phase = returned (some e) })
      (record {
        once_each = o.once_each;
        done_stopped = o.done_stopped;
        done_once = o.done_once;
        once_cancelled = o.once_cancelled;
        returns_late = d;
      })

Reach-IsOrderly : {given : List Instance} {s : Server} → Reach given s → IsOrderly given s
unfolding new registered
Reach-IsOrderly here = record {
  once_each = λ p. refl;
  done_stopped = refl;
  done_once = tt;
  once_cancelled = tt;
  returns_late = tt;
}
Reach-IsOrderly (next r step) = Step-IsOrderly (Reach-IsOrderly r) step

when_returned :
    (given : List Instance) (s : Server) (p : Instance → Bool) (f : Phase)
    → ReturnsLate f s.done
    → IsOrderly given s
    → WhenReturned f
        ((count p given ≡ count p s.closed) × (s.stopped ≡ true) × (s.cancelled ≡ true))
when_returned given s p starting h o = tt
when_returned given s p waiting h o = tt
when_returned given s p (stopping e) h o = tt
when_returned given s p (returned e) h o =
    let stopped : s.stopped ≡ true = sym o.done_stopped ∙ h in
    let once : s.shutdown_once ≡ true = subst (λ b. Follows b s.shutdown_once) h o.done_once in
    (
      omega (arith, o.once_each p, ap (count p) (open_after s stopped)),
      stopped,
      subst (λ b. Follows b s.cancelled) once o.once_cancelled,
    )

-- However the registrations, the failures, the signal and Shutdown interleave, and whatever test
-- picks out the instances: as many were closed or are still registered as were handed over, so that
-- none is lost or closed twice; and once Run has returned, all of them are closed, the context is
-- cancelled, and the server is stopped.
pub Reach-closed :
    {given : List Instance} {s : Server}
    → Reach given s
    → (p : Instance → Bool)
    → (count p given ≡ count p s.closed + count p (open_ones s))
      × WhenReturned s.phase
          ((count p given ≡ count p s.closed) × (s.stopped ≡ true) × (s.cancelled ≡ true))
Reach-closed {given} {s} r p =
    let o = Reach-IsOrderly r in (o.once_each p, when_returned given s p s.phase o.returns_late o)
