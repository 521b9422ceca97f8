-- ===== src/Backend/Capacity.antt =====
-- TryAcquire and Release of pkg/backend/backend.go, and the same counter in the listener's
-- connectionLimiter of pkg/server/server.go, with the atomic operations of many requests
-- interleaved. Each request is a thread; one step of the system is one atomic operation of one
-- thread. The counter is an integer, so that a decrement below zero would show.
use gorp.Prelude.{
  ℕ, zero, suc, ◌+◌, ◌≤◌, ◌≡◌, refl, sym, ap, ◌∙◌, Bool, true, false, List, [], ◌∷◌, none, some,
  arith, if◌then◌else◌, ◌==◌, get_elem?, set, ℤ, pos, negsuc, ltb_ℤ, leb_ℤ, Option-cases, pos_part,
  inl, inr,
}

-- Where a request stands.
pub data Thread : Type 0 where
  -- before Load
  idle : Thread
  -- after Load, with the value read, before CompareAndSwap
  loaded : ℤ → Thread
  -- between acquiring and releasing
  holding : Thread
  -- Release has read a positive count and is about to add -1
  leaving : Thread
  done refused : Thread

pub record System : Type 0 where
  -- MaxConnections, or the listener's limit
  pub limit : ℤ
  -- Release tests the count first; the listener's deferred Add(-1) does not.
  pub tested : Bool
  pub active : ℤ
  pub threads : List Thread

abbrev int_eq : ℤ → ℤ → Bool
int_eq (pos a) (pos b) = a == b
int_eq (negsuc a) (negsuc b) = a == b
int_eq (pos a) (negsuc b) = false
int_eq (negsuc a) (pos b) = false

-- a + 1 and a - 1
abbrev incr : ℤ → ℤ
incr (pos n) = pos (suc n)
incr (negsuc zero) = pos 0
incr (negsuc (suc n)) = negsuc n

abbrev decr : ℤ → ℤ
decr (pos zero) = negsuc 0
decr (pos (suc n)) = pos n
decr (negsuc n) = negsuc (suc n)

-- The next atomic operation of a thread: the counter and the thread after it.
advance : ℤ → Bool → ℤ → Thread → ℤ × Thread
advance limit tested active idle = (active, loaded active)
advance limit tested active (loaded current) =
    if leb_ℤ limit current
    then (active, refused)
    else if int_eq active current
    then (incr active, holding)
    else (active, idle)
advance limit true active holding =
    if ltb_ℤ (pos 0) active then (active, leaving) else (active, done)
advance limit false active holding = (decr active, done)
advance limit tested active leaving = (decr active, done)
advance limit tested active done = (active, done)
advance limit tested active refused = (active, refused)

-- One step of the thread with the given number; a number that no thread has does nothing.
pub step : ℕ → System → System
unfolding advance
step i s = elim (get_elem? s.threads i) [
  | none ↦ s
  | some t ↦
      let (active, t') = advance s.limit s.tested s.active t in
      record s { active = active; threads = set s.threads i t' }
]

pub run : List ℕ → System → System
run [] s = s
run (i ∷ is) s = run is (step i s)

-- Whether a thread is counted.
abbrev weight : Thread → ℕ
weight holding = 1
weight leaving = 1
weight _ = 0

abbrev pub holders : List Thread → ℕ
holders [] = 0
holders (t ∷ ts) = weight t + holders ts

pub record IsCounted (s : System) : Type 0 where
  pub exact : s.active ≡ pos (holders s.threads)
  pub within : leb_ℤ (pos (holders s.threads)) s.limit ≡ true

holders-set :
    (ts : List Thread) (i : ℕ) (t t' : Thread)
    → get_elem? ts i ≡ some t
    → holders (set ts i t') + weight t ≡ holders ts + weight t'
holders-set [] i t t' e = cc
holders-set (u ∷ ts) zero t t' e = ground arith
holders-set (u ∷ ts) (suc i) t t' e = omega (arith, holders-set ts i t t' e)

holders-ge :
    (ts : List Thread) (i : ℕ) (t : Thread) → get_elem? ts i ≡ some t → weight t ≤ holders ts
holders-ge [] i t e = cc
holders-ge (u ∷ ts) zero t e = ground arith
holders-ge (u ∷ ts) (suc i) t e = omega (arith, holders-ge ts i t e)

-- An atomic operation keeps the counter in step with the thread's weight, and below the limit.
abbrev Follows : ℤ → ℕ → Thread → ℤ × Thread → Type 0
Follows limit n t (active, t') =
    (active ≡ pos (pos_part active))
    × (pos_part active + weight t ≡ n + weight t')
    × (leb_ℤ (pos (pos_part active)) limit ≡ true)

advance-Follows :
    (limit : ℤ) (tested : Bool) (n : ℕ) (t : Thread)
    → weight t ≤ n
    → leb_ℤ (pos n) limit ≡ true
    → Follows limit n t (advance limit tested (pos n) t)
unfolding advance
advance-Follows limit tested n idle h k = (refl, refl, k)
advance-Follows limit tested n (loaded (negsuc c)) h k = ground arith
advance-Follows limit tested n (loaded (pos c)) h k = ground arith
advance-Follows limit true n holding h k = ground arith
advance-Follows limit false (suc n) holding h k = (refl, omega arith, ground arith)
advance-Follows limit false zero holding h k = absurd (omega arith)
advance-Follows limit tested (suc n) leaving h k = (refl, omega arith, ground arith)
advance-Follows limit tested zero leaving h k = absurd (omega arith)
advance-Follows limit tested n done h k = (refl, refl, k)
advance-Follows limit tested n refused h k = (refl, refl, k)

step-IsCounted : (i : ℕ) (s : System) → IsCounted s → IsCounted (step i s)
unfolding step
step-IsCounted i s v = elim (Option-cases (get_elem? s.threads i)) [
  | inl e ↦ rw (e, step) v
  | inr (t, e) ↦
      let moved = advance s.limit s.tested s.active t in
      let f : Follows s.limit (holders s.threads) t moved =
        rw v.exact (advance-Follows s.limit s.tested _ t (holders-ge s.threads i t e) v.within) in
      let n : holders (set s.threads i moved.1) ≡ pos_part moved.0 =
        omega (arith, holders-set s.threads i t moved.1 e, f.1) in
      rw (e, step) (record { exact = rw n f.0; within = rw n f.2 })
]

-- `n` requests, none of which has begun.
pub fresh : ℕ → List Thread
fresh zero = []
fresh (suc n) = idle ∷ fresh n

holders-fresh : (n : ℕ) → holders (fresh n) ≡ 0
unfolding fresh
holders-fresh zero = refl
holders-fresh (suc n) = omega (arith, holders-fresh n)

pub start : ℤ → Bool → ℕ → System
start limit tested n = record { limit = limit; tested = tested; active = pos 0; threads = fresh n }

run-IsCounted : (is : List ℕ) (s : System) → IsCounted s → IsCounted (run is s)
unfolding run
run-IsCounted [] s v = v
run-IsCounted (i ∷ is) s v = run-IsCounted is (step i s) (step-IsCounted i s v)

step-limit : (i : ℕ) (s : System) → (step i s).limit ≡ s.limit
unfolding step
step-limit i s = elim (Option-cases (get_elem? s.threads i)) [
  | inl e ↦ rw (e, step)
  | inr (t, e) ↦ rw (e, step)
]

run-limit : (is : List ℕ) (s : System) → (run is s).limit ≡ s.limit
unfolding run
run-limit [] s = refl
run-limit (i ∷ is) s = run-limit is (step i s) ∙ step-limit i s

-- However the loads, swaps and decrements of any number of requests interleave, the counter is the
-- number of requests that hold a connection, so it is never negative, and it never exceeds a limit
-- that is positive. This holds with and without the test of Release.
pub run-start-within :
    (limit : ℤ) (tested : Bool) (n : ℕ) (is : List ℕ)
    → leb_ℤ limit (pos 0) ≡ false
    → ((run is (start limit tested n)).active
        ≡ pos (holders (run is (start limit tested n)).threads))
      × (leb_ℤ (run is (start limit tested n)).active limit ≡ true)
unfolding start
run-start-within limit tested n is h =
    let begun : IsCounted (start limit tested n) = record {
      exact = ap pos (sym (holders-fresh n));
      within = rw (holders-fresh n) (ground arith);
    } in
    let v = run-IsCounted is (start limit tested n) begun in
    (v.exact, rw v.exact (rw (run-limit is (start limit tested n)) at v.within))
