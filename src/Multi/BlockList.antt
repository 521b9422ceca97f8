-- ===== src/Multi/BlockList.antt =====
-- What the block list of the server blocks: Serve of main.go with a list that does not parse.
use gorp.Prelude.{
  ℕ, ℤ, not, ◌&&◌, true, str_eq, Bool-cases, Option-cases, inl, inr, ◌≡◌, refl, ap, ◌∙◌, String,
  Bool, false, List, [], ◌∷◌, ◌++◌, Option, none, some,
}
use gorp.Multi.{
  new_cidr_matcher, add_prefix, is_blocked, match_conn, match_addr, turn, after_read, accept, Event,
  arrives, accept_fails, Accepted, SplitListener, split_listener, read_timeout_or, serve,
}

add_prefix-none :
    {Addr : Type 0} (parse_prefix : String → Option (Addr → Bool)) (o : Option (Addr → Bool))
    → add_prefix parse_prefix o none ≡ none
add_prefix-none parse_prefix none = refl
add_prefix-none parse_prefix (some p) = refl

invalid-new_cidr_matcher :
    {Addr : Type 0} (parse_prefix : String → Option (Addr → Bool)) (before after : List String)
    (c : String)
    → parse_prefix c ≡ none
    → new_cidr_matcher parse_prefix (before ++ c ∷ after) ≡ none
unfolding new_cidr_matcher
invalid-new_cidr_matcher parse_prefix [] after c h = rw h refl
invalid-new_cidr_matcher parse_prefix (d ∷ before) after c h =
    ap (add_prefix parse_prefix (parse_prefix d))
      (invalid-new_cidr_matcher parse_prefix before after c h)
    ∙ add_prefix-none parse_prefix (parse_prefix d)

-- An empty list of prefixes blocks as little as no matcher.
match_conn-nil :
    {Addr : Type 0} (split_host : String → Option String) (parse_addr : String → Option Addr)
    (remote_addr : String)
    → match_conn split_host parse_addr [] remote_addr ≡ false
unfolding match_conn match_addr
match_conn-nil split_host parse_addr remote_addr = elim (Option-cases (split_host remote_addr)) [
  | inl missing ↦ rw missing refl
  | inr (host, found) ↦ elim (Option-cases (parse_addr host)) [
    | inl bad ↦ rw (found, bad) refl
    | inr (addr, read) ↦ rw (found, read) refl
  ]
]

module _ {Addr : Type 0} (split_host : String → Option String) (parse_addr : String → Option Addr)
    (contains : String → String → Bool) (force_secure : Bool) where
  turn-nil :
      (has_tls : Bool) (event : Event)
      → turn split_host parse_addr contains none has_tls force_secure event
        ≡ turn split_host parse_addr contains (some []) has_tls force_secure event
  unfolding turn is_blocked after_read
  turn-nil has_tls (accept_fails e) = refl
  turn-nil has_tls (arrives a) = rw (match_conn-nil split_host parse_addr a.remote_addr) refl

  accept-nil :
      (has_tls : Bool) (events : List Event)
      → accept split_host parse_addr contains none has_tls force_secure events
        ≡ accept split_host parse_addr contains (some []) has_tls force_secure events
  unfolding accept
  accept-nil has_tls [] = refl
  accept-nil has_tls (event ∷ events) = rw (turn-nil has_tls event, accept-nil has_tls events) refl

  -- What an Accept of the listener of Serve gives for the events, where Serve comes so far.
  abbrev pub serve_accept :
      Option (SplitListener Addr) → List Event → Option (Accepted × List ℕ × List Event)
  serve_accept none events = none
  serve_accept (some l) events =
      some (accept split_host parse_addr contains l.matcher l.has_tls force_secure events)

  served-nil :
      (timeout : ℤ) (has_tls : Bool) (events : List Event)
      → serve_accept (some (split_listener timeout none has_tls)) events
        ≡ serve_accept (some (split_listener timeout (some []) has_tls)) events
  unfolding split_listener
  served-nil timeout has_tls events = ap some (accept-nil has_tls events)

  -- Where one entry of the block list is no prefix, Serve goes on, and every Accept does what it does with
  -- an empty block list, whatever the other entries are: no connection is blocked. With certificates
  -- that do not load both end in the error of Serve.
  pub serve-invalid :
      (parse_prefix : String → Option (Addr → Bool)) (loads : String → String → Bool)
      (own_tls : Bool) (read_timeout : ℤ) (before after : List String)
      (c cert_file key_file : String) (events : List Event)
      → parse_prefix c ≡ none
      → serve_accept
          (serve parse_prefix loads own_tls read_timeout (before ++ c ∷ after) cert_file key_file)
          events
        ≡ serve_accept (serve parse_prefix loads own_tls read_timeout [] cert_file key_file) events
  unfolding serve new_cidr_matcher
  serve-invalid parse_prefix loads own_tls read_timeout before after c cert_file key_file events
        bad =
      let invalid = invalid-new_cidr_matcher parse_prefix before after c bad in
      let t = read_timeout_or read_timeout in
      elim (Bool-cases (not (str_eq cert_file "") && not (str_eq key_file ""))) [
        | inr plain ↦ rw (invalid, plain) (served-nil t own_tls events)
        | inl paired ↦ elim (Bool-cases (loads cert_file key_file)) [
          | inl loaded ↦ rw (invalid, paired, loaded) (served-nil t true events)
          | inr broken ↦ rw (invalid, paired, broken) refl
        ]
      ]
