-- ===== src/Server/Lifecycle/Orderly.antt =====
-- The invariant of the server, and that a registration keeps it.
use gorp.Prelude.{
  subst, sym, ◌∙◌, ℕ, ◌+◌, ◌≡◌, refl, ap, Bool, true, false, List, [], ◌∷◌, ◌++◌, arith,
  if◌then◌else◌, Bool-cases, inl, inr,
}
use gorp.Server.Lifecycle.{
  Kind, http, http3, httpmulti, tcp, Instance, Phase, returned, Server, append_to, register,
  registered,
}
use gorp.Server.Lifecycle.Counts.{count, count-append, open_ones, count-registered-append_to}

-- Run has returned only where Shutdown has ended.
abbrev pub ReturnsLate : Phase → Bool → Type 0
ReturnsLate (returned e) done = done ≡ true
ReturnsLate _ done = Unit

abbrev pub Follows : Bool → Bool → Type 0
Follows true b = b ≡ true
Follows false b = Unit

abbrev pub WhenReturned : Phase → Type 0 → Type 0
WhenReturned (returned e) P = P
WhenReturned _ P = Unit

pub record IsOrderly (given : List Instance) (s : Server) : Type 0 where
  pub once_each : (p : Instance → Bool) → count p given ≡ count p s.closed + count p (open_ones s)
  pub done_stopped : s.done ≡ s.stopped
  pub done_once : Follows s.done s.shutdown_once
  pub once_cancelled : Follows s.shutdown_once s.cancelled
  pub returns_late : ReturnsLate s.phase s.done

pub open_before : (s : Server) → s.stopped ≡ false → open_ones s ≡ registered s
open_before s e = ap (λ b. if b then [] else registered s) e

pub open_after : (s : Server) → s.stopped ≡ true → open_ones s ≡ []
open_after s e = ap (λ b. if b then [] else registered s) e

-- What a registration leaves alone
append_to-rest :
    (k : Kind) (i : ℕ) (s : Server)
    → ((append_to k i s).closed ≡ s.closed)
      × ((append_to k i s).stopped ≡ s.stopped)
      × ((append_to k i s).done ≡ s.done)
      × ((append_to k i s).shutdown_once ≡ s.shutdown_once)
      × ((append_to k i s).cancelled ≡ s.cancelled)
      × ((append_to k i s).phase ≡ s.phase)
unfolding append_to
append_to-rest http i s = (refl, refl, refl, refl, refl, refl)
append_to-rest http3 i s = (refl, refl, refl, refl, refl, refl)
append_to-rest httpmulti i s = (refl, refl, refl, refl, refl, refl)
append_to-rest tcp i s = (refl, refl, refl, refl, refl, refl)

appended-IsOrderly :
    (k : Kind) (i : ℕ) (given : List Instance) (s : Server)
    → s.stopped ≡ false
    → IsOrderly given s
    → IsOrderly (given ++ (k, i) ∷ []) (append_to k i s)
appended-IsOrderly k i given s e o =
    let (closed, stopped, done, once, cancelled, phase) = append_to-rest k i s in
    record {
      once_each = λ p. omega (
        arith,
        o.once_each p,
        ap (count p) (open_before s e),
        ap (count p) (open_before (append_to k i s) (stopped ∙ e)),
        ap (count p) closed,
        count-append p given ((k, i) ∷ []),
        count-registered-append_to p k i s,
      );
      done_stopped = rw (done, stopped) o.done_stopped;
      done_once = rw (done, once) o.done_once;
      once_cancelled = rw (once, cancelled) o.once_cancelled;
      returns_late = rw (phase, done) o.returns_late;
    }

late-IsOrderly :
    (x : Instance) (given : List Instance) (s : Server)
    → s.stopped ≡ true
    → IsOrderly given s
    → IsOrderly (given ++ x ∷ []) (record s { closed = s.closed ++ x ∷ [] })
late-IsOrderly x given s e o = record {
  once_each = λ p. omega (
    arith,
    o.once_each p,
    ap (count p) (open_after s e),
    ap (count p) (open_after (record s { closed = s.closed ++ x ∷ [] }) e),
    count-append p given (x ∷ []),
    count-append p s.closed (x ∷ []),
  );
  done_stopped = o.done_stopped;
  done_once = o.done_once;
  once_cancelled = o.once_cancelled;
  returns_late = o.returns_late;
}

pub register-IsOrderly :
    (k : Kind) (i : ℕ) (given : List Instance) (s : Server)
    → IsOrderly given s
    → IsOrderly (given ++ (k, i) ∷ []) (register k i s).0
unfolding register
register-IsOrderly k i given s o = elim (Bool-cases s.stopped) [
  | inl e ↦ subst Keeps (sym (ap outcome e)) (late-IsOrderly (k, i) given s e o)
  | inr e ↦ subst Keeps (sym (ap outcome e)) (appended-IsOrderly k i given s e o)
]
  where
    Keeps : Server → Type 0
    Keeps = IsOrderly (given ++ (k, i) ∷ [])

    outcome : Bool → Server
    outcome stopped =
        let after : Server × Bool =
          if stopped
          then (record s { closed = s.closed ++ (k, i) ∷ [] }, false)
          else (append_to k i s, true) in
        after.0
