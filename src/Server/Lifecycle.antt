-- ===== src/Server/Lifecycle.antt =====
-- pkg/server/server.go: New, the registration of servers and listeners, Shutdown, and what Run
-- waits for; startListeners has no error to return. Each constructor of `Step` is one step that some goroutine may take, so a sequence of
-- steps is an interleaving. The mutex makes a registration and the body of Shutdown one step each.
pub mod Closed
pub mod Counts
pub mod Ends
pub mod Orderly
use gorp.Prelude.{
  ℕ, ◌≡◌, String, Bool, true, false, List, [], ◌∷◌, ◌++◌, map, Option, none, some, if◌then◌else◌,
}

pub data Kind : Type 0 where
  http http3 httpmulti tcp : Kind

abbrev pub Instance : Type 0
Instance = Kind × ℕ

-- Where Run stands: before its select, in it, in the shutdown after an error, or returned, with the
-- error or without one.
pub data Phase : Type 0 where
  starting waiting : Phase
  stopping : String → Phase
  returned : Option String → Phase

pub record Server : Type 0 where
  pub http_servers : List ℕ
  pub http3_servers : List ℕ
  pub httpmulti_servers : List ℕ
  pub tcp_listeners : List ℕ
  -- what was shut down or closed, in this order
  pub closed : List Instance
  -- the context is cancelled; shutdownOnce was taken; stopped; the channel done is closed
  pub cancelled : Bool
  pub shutdown_once : Bool
  pub stopped : Bool
  pub done : Bool
  -- some goroutine is on its way to Shutdown; waitForShutdown waits for a signal
  pub asked : Bool
  pub watching : Bool
  -- the channel of one error
  pub errch : Option String
  pub ready : Bool
  pub phase : Phase

unfoldable pub new : Server
new = record {
  http_servers = [];
  http3_servers = [];
  httpmulti_servers = [];
  tcp_listeners = [];
  closed = [];
  cancelled = false;
  shutdown_once = false;
  stopped = false;
  done = false;
  asked = false;
  watching = false;
  errch = none;
  ready = false;
  phase = starting;
}

unfoldable pub append_to : Kind → ℕ → Server → Server
append_to http i s = record s { http_servers = s.http_servers ++ i ∷ [] }
append_to http3 i s = record s { http3_servers = s.http3_servers ++ i ∷ [] }
append_to httpmulti i s = record s { httpmulti_servers = s.httpmulti_servers ++ i ∷ [] }
append_to tcp i s = record s { tcp_listeners = s.tcp_listeners ++ i ∷ [] }

-- registerHTTPServer, registerHTTP3Server, registerHTTPMultiServer and registerTCPListener
unfoldable pub register : Kind → ℕ → Server → Server × Bool
unfolding append_to
register k i s =
    if s.stopped
    then (record s { closed = s.closed ++ (k, i) ∷ [] }, false)
    else (append_to k i s, true)

-- In the order of the loops of Shutdown; the goroutines may finish in any other.
unfoldable pub registered : Server → List Instance
registered s =
    map (λ i. (http, i)) s.http_servers
    ++ map (λ i. (httpmulti, i)) s.httpmulti_servers
    ++ map (λ i. (http3, i)) s.http3_servers
    ++ map (λ i. (tcp, i)) s.tcp_listeners

-- Shutdown up to its lock, and under it.
unfoldable pub begin_shutdown : Server → Server
begin_shutdown s = record s { shutdown_once = true; cancelled = true; ready = false }

unfoldable pub finish_shutdown : Server → Server
unfolding registered
finish_shutdown s = record s { stopped = true; closed = s.closed ++ registered s; done = true }

-- The send of runWithRecovery, which drops the error where one is waiting.
unfoldable pub offer : String → Option String → Option String
offer e none = some e
offer e (some first) = some first

-- What leads to a call of Shutdown: runWithRecovery after a failure, waitForShutdown after a signal,
-- and Run after it has taken an error.
unfoldable pub fail : String → Server → Server
unfolding offer
fail e s = record s { errch = offer e s.errch; asked = true }

unfoldable pub signal : Server → Server
signal s = record s { watching = false; asked = true }

unfoldable pub take_error : String → Server → Server
take_error e s = record s { errch = none; asked = true; phase = stopping e }

-- A step, with the instances that it hands over.
pub data Step (s : Server) : List Instance → Server → Type 0 where
  registers : (k : Kind) (i : ℕ) → Step s ((k, i) ∷ []) (register k i s).0
  fails : (e : String) → Step s [] (fail e s)
  signals : s.watching ≡ true → Step s [] (signal s)
  -- a client of the admin listener calls Shutdown
  admin_stops : Step s [] (record s { asked = true })
  -- of waitForShutdown or initiateCriticalShutdown, before their call of Shutdown
  cancels : s.asked ≡ true → Step s [] (record s { cancelled = true })
  -- the first call of Shutdown, and the end of its body
  begins : s.asked ≡ true → s.shutdown_once ≡ false → Step s [] (begin_shutdown s)
  finishes : s.shutdown_once ≡ true → s.done ≡ false → Step s [] (finish_shutdown s)
  -- Run starts waitForShutdown and comes to its select
  waits :
      s.phase ≡ starting → Step s [] (record s { watching = true; ready = true; phase = waiting })
  -- the two cases of the select
  selects_done : s.phase ≡ waiting → s.done ≡ true → Step s [] (record s { phase = returned none })
  selects_error : (e : String) → s.phase ≡ waiting → s.errch ≡ some e → Step s [] (take_error e s)
  -- Shutdown returns when the one call of its body has ended
  returns :
      (e : String)
      → s.phase ≡ stopping e
      → s.done ≡ true
      → Step s [] (record s { phase = returned (some e) })

-- The states that a new server comes to, with the instances handed over on the way.
pub data Reach : List Instance → Server → Type 0 where
  here : Reach [] new
  next :
      {given more : List Instance} {s t : Server}
      → Reach given s
      → Step s more t
      → Reach (given ++ more) t
