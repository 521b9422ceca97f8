-- ===== src/Server.antt =====
-- pkg/server/server.go: the limits on connections and request bodies. The load and the swap of a
-- counter are one step here, and the wait of an Accept stands between its two steps; Backend/Capacity has the same loop with its operations interleaved.
pub mod Build
pub mod Lifecycle
mod Tests
use gorp.Prelude.{
  ℕ, zero, suc, ◌+◌, ◌≡◌, refl, ap, sym, subst, ◌∙◌, inl, inr, Bool, true, false, List, [], ◌∷◌,
  Option, none, some, ℤ, pos, negsuc, leb_ℤ, ltb_ℤ, if◌then◌else◌, arith, Bool-cases,
}

abbrev succ_ℤ : ℤ → ℤ
succ_ℤ (pos n) = pos (suc n)
succ_ℤ (negsuc zero) = pos 0
succ_ℤ (negsuc (suc n)) = negsuc n

abbrev pred_ℤ : ℤ → ℤ
pred_ℤ (pos zero) = negsuc 0
pred_ℤ (pos (suc n)) = pos n
pred_ℤ (negsuc n) = negsuc (suc n)

-- requestBodyLimiter.ServeHTTP with its constructor: `none` is a request without a body, and a
-- length of -1 an unknown one. The answer is whether the request is passed on.
unfoldable pub passes_body : ℤ → Option ℤ → Bool
passes_body limit none = true
passes_body limit (some content_length) =
    if leb_ℤ limit (pos 0) then true else leb_ℤ content_length limit

-- connectionLimiter.ServeHTTP: the counter while the next handler runs, or `none` for a 503.
unfoldable pub enter : ℤ → ℤ → Option ℤ
enter limit active =
    if leb_ℤ limit (pos 0)
    then some active
    else if leb_ℤ limit active
    then none
    else some (succ_ℤ active)

pub record LimitedListener : Type 0 where
  pub limit : ℤ
  pub active : ℤ

-- limitedListener.Accept up to its wait: it counts a connection, or ends with an error at the limit.
unfoldable pub reserve : LimitedListener → Option LimitedListener
reserve l = if leb_ℤ l.limit l.active then none else some (record l { active = succ_ℤ l.active })

-- The rest of Accept, once the inner Accept has given a connection or failed.
unfoldable pub settle : Bool → LimitedListener → LimitedListener
settle true l = l
settle false l = record l { active = pred_ℤ l.active }

-- limitedConn.Close, each time it is called
unfoldable pub close : LimitedListener → LimitedListener
close l = record l { active = pred_ℤ l.active }

-- A call of Accept, the end of an inner Accept, or the one close of a connection that is open.
pub data Event : Type 0 where
  calls : Event
  arrives : Bool → Event
  leaves : Event

-- A listener, with its waiting calls of Accept and its open connections.
pub record Served : Type 0 where
  pub listener : LimitedListener
  pub waiting : ℕ
  pub count : ℕ

abbrev pub reserved : Served → Option LimitedListener → Served
reserved s none = s
reserved s (some l) = record s { listener = l; waiting = suc s.waiting }

abbrev pub settled : Bool → LimitedListener → ℕ → ℕ → Served
settled ok l zero count = record { listener = l; waiting = 0; count = count }
settled ok l (suc waiting) count = record {
  listener = settle ok l;
  waiting = waiting;
  count = if ok then suc count else count;
}

abbrev pub closed : LimitedListener → ℕ → ℕ → Served
closed l waiting zero = record { listener = l; waiting = waiting; count = 0 }
closed l waiting (suc count) = record { listener = close l; waiting = waiting; count = count }

-- No Accept ends where none waits, and no connection is closed where none is open.
pub step : Event → Served → Served
unfolding reserve
step calls s = reserved s (reserve s.listener)
step (arrives ok) s = settled ok s.listener s.waiting s.count
step leaves s = closed s.listener s.waiting s.count

pub run : List Event → Served → Served
unfolding step
run [] s = s
run (e ∷ es) s = run es (step e s)

-- The counter is the number of open connections and of waiting calls, and within the limit.
abbrev pub IsExact : ℤ → Served → Type 0
IsExact limit s =
    (s.listener.limit ≡ limit)
    × (s.listener.active ≡ pos (s.waiting + s.count))
    × (leb_ℤ (pos (s.waiting + s.count)) limit ≡ true)

abbrev pub start : ℤ → Served
start limit = record { listener = record { limit = limit; active = pos 0 }; waiting = 0; count = 0 }

more :
    (count : ℕ) (limit : ℤ) → leb_ℤ limit (pos count) ≡ false → leb_ℤ (pos (suc count)) limit ≡ true
more count limit h = ground arith

fewer :
    (count : ℕ) (limit : ℤ) → leb_ℤ (pos (suc count)) limit ≡ true → leb_ℤ (pos count) limit ≡ true
fewer count limit h = ground arith

reserve_full : (l : LimitedListener) → leb_ℤ l.limit l.active ≡ true → reserve l ≡ none
unfolding reserve
reserve_full l full = simp full refl

reserve_free :
    (l : LimitedListener)
    → leb_ℤ l.limit l.active ≡ false
    → reserve l ≡ some (record l { active = succ_ℤ l.active })
unfolding reserve
reserve_free l free = simp free refl

calls-IsExact : (limit : ℤ) (s : Served) → IsExact limit s → IsExact limit (step calls s)
unfolding step reserve
calls-IsExact limit s (same, exact, within) =
    elim (Bool-cases (leb_ℤ s.listener.limit s.listener.active)) [
      | inl full ↦
          subst (λ o. IsExact limit (reserved s o)) (sym (reserve_full s.listener full))
            (same, exact, within)
      | inr free ↦
          let one : suc (s.waiting + s.count) ≡ suc s.waiting + s.count = omega arith in
          let room : leb_ℤ limit (pos (s.waiting + s.count)) ≡ false =
            ap (λ n. leb_ℤ limit n) (sym exact)
            ∙ ap (λ n. leb_ℤ n s.listener.active) (sym same)
            ∙ free in
          subst (λ o. IsExact limit (reserved s o)) (sym (reserve_free s.listener free))
            (
              same,
              ap succ_ℤ exact ∙ ap pos one,
              subst (λ n. leb_ℤ (pos n) limit ≡ true) one (more (s.waiting + s.count) limit room),
            )
    ]

settled-IsExact :
    (limit : ℤ) (ok : Bool) (l : LimitedListener) (waiting count : ℕ)
    → IsExact limit (record { listener = l; waiting = waiting; count = count })
    → IsExact limit (settled ok l waiting count)
unfolding settle
settled-IsExact limit ok l zero count h = h
settled-IsExact limit true l (suc waiting) count (same, exact, within) =
    let moved : suc waiting + count ≡ waiting + suc count = omega arith in
    (same, exact ∙ ap pos moved, subst (λ n. leb_ℤ (pos n) limit ≡ true) moved within)
settled-IsExact limit false l (suc waiting) count (same, exact, within) =
    let one : suc waiting + count ≡ suc (waiting + count) = omega arith in
    (
      same,
      ap pred_ℤ (exact ∙ ap pos one),
      fewer (waiting + count) limit (subst (λ n. leb_ℤ (pos n) limit ≡ true) one within),
    )

closed-IsExact :
    (limit : ℤ) (l : LimitedListener) (waiting count : ℕ)
    → IsExact limit (record { listener = l; waiting = waiting; count = count })
    → IsExact limit (closed l waiting count)
unfolding close
closed-IsExact limit l waiting zero h = h
closed-IsExact limit l waiting (suc count) (same, exact, within) =
    let one : waiting + suc count ≡ suc (waiting + count) = omega arith in
    (
      same,
      ap pred_ℤ (exact ∙ ap pos one),
      fewer (waiting + count) limit (subst (λ n. leb_ℤ (pos n) limit ≡ true) one within),
    )

step-IsExact : (limit : ℤ) (e : Event) (s : Served) → IsExact limit s → IsExact limit (step e s)
unfolding step
step-IsExact limit calls s h = calls-IsExact limit s h
step-IsExact limit (arrives ok) s h = settled-IsExact limit ok s.listener s.waiting s.count h
step-IsExact limit leaves s h = closed-IsExact limit s.listener s.waiting s.count h

run-IsExact_from :
    (limit : ℤ) (es : List Event) (s : Served) → IsExact limit s → IsExact limit (run es s)
unfolding run
run-IsExact_from limit [] s h = h
run-IsExact_from limit (e ∷ es) s h =
    run-IsExact_from limit es (step e s) (step-IsExact limit e s h)

-- A limited listener with a positive limit, after any calls of Accept, inner Accepts that end well or
-- fail, and closes, each of them the one close of an open connection: its counter is exactly the
-- open connections and the calls that wait for one, and there are never more of them than the limit.
pub run-IsExact :
    (limit : ℕ) (es : List Event) → IsExact (pos (suc limit)) (run es (start (pos (suc limit))))
run-IsExact limit es =
    run-IsExact_from (pos (suc limit)) es (start (pos (suc limit))) (refl, refl, ground arith)
