-- ===== src/Multi/Accept.antt =====
-- What Accept hands out, and what it closes.
use mathlib.Core.List.{append_assoc}
use gorp.Prelude.{
  ℕ, ◌==◌, ◌≡◌, refl, sym, ap, ◌∙◌, String, Bool, true, false, ◌&&◌, List, [], ◌∷◌, ◌++◌, Option,
  Bool-cases, inl, inr, ==_iff,
}
use gorp.Multi.{
  Conn, Failure, FirstRead, got, failed, Arrival, Event, arrives, accept_fails, Accepted, waits,
  closed_listener, read_error, plain, tls, is_blocked, is_ignored, Turn, goes_on, ends, new_conn,
  after_read, turn, and_then, accept,
}

both : (a b : Bool) → (a && b) ≡ true → (a ≡ true) × (b ≡ true)
both true b h = (refl, h)
both false b h = absurd (cc h)

-- The connections that came, in their order.
abbrev pub arrived : List Event → List ℕ
arrived [] = []
arrived (arrives a ∷ events) = a.id ∷ arrived events
arrived (accept_fails e ∷ events) = arrived events

abbrev pub served : Accepted → List ℕ
served (plain c) = c.id ∷ []
served (tls c) = c.id ∷ []
served _ = []

module _ {Addr : Type 0} (split_host : String → Option String) (parse_addr : String → Option Addr)
    (contains : String → String → Bool) (matcher : Option (List (Addr → Bool)))
    (has_tls force_secure : Bool) where
  -- An arrival whose first byte was read and that no prefix of the block list has
  abbrev pub Comes : Arrival → ℕ → Conn → Type 0
  Comes a b c =
      (a.first ≡ got b)
      × (c ≡ new_conn a b)
      × (is_blocked split_host parse_addr matcher a.remote_addr ≡ false)

  -- Why a turn, on this event, ended with this.
  abbrev pub Because : Accepted → Event → Type 0
  Because (plain c) (arrives a) =
      (b : ℕ) × Comes a b c × (force_secure ≡ false) × ((b == 22 && has_tls) ≡ false)
  Because (tls c) (arrives a) = Comes a 22 c × (has_tls ≡ true)
  Because closed_listener (accept_fails e) =
      contains e.text "use of closed network connection" ≡ true
  Because read_error (arrives a) =
      (e : Failure) × (a.first ≡ failed e) × (is_ignored contains e ≡ false)
  Because _ _ = ⊥

  abbrev pub Accounts : Event → Turn → Type 0
  Accounts event (goes_on ids) = arrived (event ∷ []) ≡ ids
  Accounts event (ends accepted ids) =
      (arrived (event ∷ []) ≡ ids ++ served accepted) × Because accepted event

  after_read-Accounts :
      (a : Arrival) (first : FirstRead)
      → a.first ≡ first
      → is_blocked split_host parse_addr matcher a.remote_addr ≡ false
      → Accounts
          (arrives a)
          (after_read split_host parse_addr contains matcher has_tls force_secure a first)
  unfolding after_read
  after_read-Accounts a (failed e) read free = elim (Bool-cases (is_ignored contains e)) [
    | inl ignored ↦ rw ignored refl
    | inr fatal ↦ rw fatal (refl, (e, read, fatal))
  ]
  after_read-Accounts a (got b) read free = elim (Bool-cases (b == 22 && has_tls)) [
    | inl secure ↦
        let (hello, able) = both (b == 22) has_tls secure in
        let same : b ≡ 22 = (==_iff b 22).0 hello in
        rw secure (refl, ((read ∙ ap got same, ap (new_conn a) same, free), able))
    | inr clear ↦ elim (Bool-cases force_secure) [
      | inl forced ↦ rw (clear, forced) refl
      | inr open_to_all ↦ rw (clear, open_to_all) (refl, (b, (read, refl, free), refl, clear))
    ]
  ]

  turn-Accounts :
      (event : Event)
      → Accounts event (turn split_host parse_addr contains matcher has_tls force_secure event)
  unfolding turn
  turn-Accounts (accept_fails e) = elim (Bool-cases e.temporary) [
    | inl temporary ↦ rw temporary refl
    | inr lasting ↦ elim (Bool-cases (contains e.text "use of closed network connection")) [
      | inl closed ↦ rw (lasting, closed) (refl, closed)
      | inr other ↦ rw (lasting, other) refl
    ]
  ]
  turn-Accounts (arrives a) =
      elim (Bool-cases (is_blocked split_host parse_addr matcher a.remote_addr)) [
        | inl blocked ↦ rw blocked refl
        | inr free ↦ rw free (after_read-Accounts a a.first refl free)
      ]

  -- The last event that was used explains the result; without a result, all are used.
  abbrev pub EndsWith : Accepted → List Event → List Event → Type 0
  EndsWith waits used left = left ≡ []
  EndsWith accepted used left =
      (before : List Event) × (event : Event) × (used ≡ before ++ event ∷ [])
      × Because accepted event

  pub record IsResult (events : List Event) (accepted : Accepted) (closed : List ℕ)
      (left : List Event) : Type 0 where
    pub used : List Event
    pub split : events ≡ used ++ left
    pub each_once : arrived used ≡ closed ++ served accepted
    pub explained : EndsWith accepted used left

  later_EndsWith :
      (accepted : Accepted) (event : Event) (used left : List Event)
      → EndsWith accepted used left
      → EndsWith accepted (event ∷ used) left
  later_EndsWith waits event used left h = h
  later_EndsWith closed_listener event used left (before, last, split, because) =
      (event ∷ before, last, ap (λ es. event ∷ es) split, because)
  later_EndsWith read_error event used left (before, last, split, because) =
      (event ∷ before, last, ap (λ es. event ∷ es) split, because)
  later_EndsWith (plain c) event used left (before, last, split, because) =
      (event ∷ before, last, ap (λ es. event ∷ es) split, because)
  later_EndsWith (tls c) event used left (before, last, split, because) =
      (event ∷ before, last, ap (λ es. event ∷ es) split, because)

  Because-EndsWith :
      (accepted : Accepted) (event : Event) (left : List Event)
      → Because accepted event
      → EndsWith accepted (event ∷ []) left
  Because-EndsWith waits event left h = absurd h
  Because-EndsWith closed_listener event left h = ([], event, refl, h)
  Because-EndsWith read_error event left h = ([], event, refl, h)
  Because-EndsWith (plain c) event left h = ([], event, refl, h)
  Because-EndsWith (tls c) event left h = ([], event, refl, h)

  arrived-cons :
      (event : Event) (events : List Event)
      → arrived (event ∷ events) ≡ arrived (event ∷ []) ++ arrived events
  arrived-cons (arrives a) events = refl
  arrived-cons (accept_fails e) events = refl

  and_then-IsResult :
      (event : Event) (events left : List Event) (closed : List ℕ) (accepted : Accepted) (t : Turn)
      → Accounts event t
      → IsResult events accepted closed left
      → (let result =
            and_then split_host parse_addr contains matcher has_tls force_secure t events
              (accepted, closed, left) in
          IsResult (event ∷ events) result.0 result.1 result.2)
  and_then-IsResult event events left closed accepted (goes_on ids) all r = record {
    used = event ∷ r.used;
    split = ap (λ es. event ∷ es) r.split;
    each_once =
        arrived-cons event r.used
        ∙ ap (λ xs. xs ++ arrived r.used) all
        ∙ ap (λ xs. ids ++ xs) r.each_once
        ∙ sym (append_assoc ids closed (served accepted));
    explained = later_EndsWith accepted event r.used left r.explained;
  }
  and_then-IsResult event events left closed accepted (ends last ids) (all, because) r = record {
    used = event ∷ [];
    split = refl;
    each_once = all;
    explained = Because-EndsWith last event events because;
  }

  -- Whatever the listener and the clients answer, Accept uses up some first part of the events, and of the
  -- connections in it each one is closed, or returned, once and in their order. It returns a plain
  -- connection only where the block list lets it in, TLS is not forced and it does not begin as TLS
  -- that the server could serve; a TLS connection only where the block list lets it in, its first byte is 22
  -- and the server has TLS; and an error only where the listener is closed or the read of a first byte
  -- fails with an error that is not ignored. Each is due to the last event that was used.
  pub accept-IsResult :
      (events : List Event)
      → (let result = accept split_host parse_addr contains matcher has_tls force_secure events in
          IsResult events result.0 result.1 result.2)
  unfolding accept
  accept-IsResult [] = record { used = []; split = refl; each_once = refl; explained = refl }
  accept-IsResult (event ∷ events) =
      let result = accept split_host parse_addr contains matcher has_tls force_secure events in
      and_then-IsResult event events result.2 result.1 result.0
        (turn split_host parse_addr contains matcher has_tls force_secure event)
        (turn-Accounts event) (accept-IsResult events)
