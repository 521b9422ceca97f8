-- ===== src/Server/Lifecycle/Ends.antt =====
-- How Run comes to its end.
use gorp.Prelude.{
  ℕ, suc, ◌≤◌, ◌≡◌, List, ◌∷◌, ◌++◌, Bool, if◌then◌else◌, ◌∙◌, refl, ap, String, true, false, [],
  Option, none, some, arith, Bool-cases, inl, inr,
}
use gorp.Server.Lifecycle.{
  Phase, starting, waiting, stopping, returned, Server, begin_shutdown, finish_shutdown, offer,
  Kind, http, http3, httpmulti, tcp, Instance, append_to, register, fail, signal, take_error,
  registers, signals, admin_stops, cancels, selects_error, Step, fails, begins, finishes, waits,
  selects_done, returns,
}

-- So many steps that hand over no instance.
pub data Steps : ℕ → Server → Server → Type 0 where
  stay : {s : Server} → Steps 0 s s
  step : {n : ℕ} {s t u : Server} → Step s [] t → Steps n t u → Steps (suc n) s u

abbrev pub Ends : ℕ → Server → Type 0
Ends n s =
    (m : ℕ) × (t : Server) × (e : Option String) × (m ≤ n) × Steps m s t × (t.phase ≡ returned e)

one_more : (n : ℕ) (s t : Server) → Step s [] t → Ends n t → Ends (suc n) s
one_more n s t first (m, u, e, below, rest, end) =
    (suc m, u, e, omega (arith, below), step first rest, end)

-- Where Shutdown has ended, by the phase of Run.
Ends-done : (s : Server) (f : Phase) → s.phase ≡ f → s.done ≡ true → Ends 2 s
Ends-done s starting p d =
    one_more 1 s (record s { watching = true; ready = true; phase = waiting }) (waits p)
      (
        1,
        record s { watching = true; ready = true; phase = returned none },
        none,
        omega arith,
        step (selects_done refl d) stay,
        refl,
      )
Ends-done s waiting p d =
    (1, record s { phase = returned none }, none, omega arith, step (selects_done p d) stay, refl)
Ends-done s (stopping e) p d = (
  1,
  record s { phase = returned (some e) },
  some e,
  omega arith,
  step (returns e p d) stay,
  refl,
)
Ends-done s (returned e) p d = (0, s, e, omega arith, stay, p)

Ends-once : (s : Server) → s.shutdown_once ≡ true → Ends 3 s
unfolding finish_shutdown
Ends-once s once = elim (Bool-cases s.done) [
  | inl d ↦
      let (m, t, e, below, steps, end) = Ends-done s s.phase refl d in
      (m, t, e, omega (arith, below), steps, end)
  | inr d ↦
      one_more 2 s (finish_shutdown s) (finishes once d)
        (Ends-done (finish_shutdown s) s.phase refl refl)
]

Ends-asked : (s : Server) → s.asked ≡ true → Ends 4 s
unfolding begin_shutdown
Ends-asked s called = elim (Bool-cases s.shutdown_once) [
  | inl once ↦
      let (m, t, e, below, steps, end) = Ends-once s once in
      (m, t, e, omega (arith, below), steps, end)
  | inr fresh ↦
      one_more 3 s (begin_shutdown s) (begins called fresh) (Ends-once (begin_shutdown s) refl)
]

-- The causes of a shutdown within the server, with the state after each.
pub data Causes (s : Server) : Server → Type 0 where
  by_failure : (e : String) → Causes s (fail e s)
  by_signal : s.watching ≡ true → Causes s (signal s)
  by_error : (e : String) → s.phase ≡ waiting → s.errch ≡ some e → Causes s (take_error e s)

-- Any further steps of any goroutine, registrations included.
pub data Later (s : Server) : Server → Type 0 where
  now : Later s s
  after : {more : List Instance} {t u : Server} → Later s t → Step t more u → Later s u

append_to-asked : (k : Kind) (i : ℕ) (s : Server) → (append_to k i s).asked ≡ s.asked
unfolding append_to
append_to-asked http i s = refl
append_to-asked http3 i s = refl
append_to-asked httpmulti i s = refl
append_to-asked tcp i s = refl

either-asked :
    (k : Kind) (i : ℕ) (s : Server) (late : Bool)
    → (let after_it : Server × Bool =
          if late
          then (record s { closed = s.closed ++ (k, i) ∷ [] }, false)
          else (append_to k i s, true) in
        after_it.0.asked ≡ s.asked)
either-asked k i s true = refl
either-asked k i s false = append_to-asked k i s

register-asked : (k : Kind) (i : ℕ) (s : Server) → (register k i s).0.asked ≡ s.asked
unfolding register
register-asked k i s = either-asked k i s s.stopped

Causes-asked : {s t : Server} → Causes s t → t.asked ≡ true
unfolding fail signal take_error
Causes-asked (by_failure e) = refl
Causes-asked (by_signal h) = refl
Causes-asked (by_error e h f) = refl

-- Once Shutdown is called, it stays called.
Step-asked : {more : List Instance} {s t : Server} → Step s more t → s.asked ≡ true → t.asked ≡ true
unfolding fail signal take_error begin_shutdown finish_shutdown
Step-asked {s = s} (registers k i) h = register-asked k i s ∙ h
Step-asked (fails e) h = refl
Step-asked (signals w) h = refl
Step-asked admin_stops h = refl
Step-asked (cancels a) h = h
Step-asked (begins a f) h = h
Step-asked (finishes a f) h = h
Step-asked (waits a) h = h
Step-asked (selects_done a f) h = h
Step-asked (selects_error e a f) h = refl
Step-asked (returns e a f) h = h

Later-asked : {s t : Server} → Later s t → s.asked ≡ true → t.asked ≡ true
Later-asked now h = h
Later-asked (after steps last) h = Step-asked last (Later-asked steps h)

-- After a listener has failed, after a signal, and after Run has taken an error from its channel, no
-- interleaving of further registrations, failures and steps keeps Run from its end: in every state that
-- follows, it can come to its return by at most four steps of its own and of Shutdown, without a further
-- registration.
pub run-Ends : {s u t : Server} → Causes s u → Later u t → Ends 4 t
run-Ends {t = t} cause steps = Ends-asked t (Later-asked steps (Causes-asked cause))

-- A listener that fails while Run is still starting the others may be shut down, with the whole
-- server, before Run waits; then the select may take the case of the closed channel, and Run returns
-- no error although the error of the listener is in its channel.
pub run_forgets :
    (s : Server) (e : String)
    → s.phase ≡ starting
    → s.errch ≡ none
    → s.shutdown_once ≡ false
    → s.done ≡ false
    → (t : Server) × Steps 5 s t × (t.phase ≡ returned none) × (t.errch ≡ some e)
unfolding fail begin_shutdown finish_shutdown
run_forgets s e at_start empty fresh running =
    let failed = fail e s in
    let begun = begin_shutdown failed in
    let finished = finish_shutdown begun in
    let selecting = record finished { watching = true; ready = true; phase = waiting } in
    (
      record selecting { phase = returned none },
      step (fails e) (
          step (begins refl fresh) (
            step (finishes refl running)
              (step (waits at_start) (step (selects_done refl refl) stay)))),
      refl,
      ap (offer e) empty,
    )
