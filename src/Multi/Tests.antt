-- ===== src/Multi/Tests.antt =====
-- Runs of pkg/httpmulti, and its theorems at concrete inputs.
use gorp.Prelude.{
  ℕ, ◌≡◌, refl, String, Bool, true, false, List, [], ◌∷◌, ◌++◌, Option, none, some, str_eq, map,
  pos, cut_at, if◌then◌else◌, suc,
}
use gorp.Multi.{
  Conn, Failure, got, Event, arrives, accept_fails, Accepted, tls, match_addr, match_conn,
  is_blocked, is_ignored, after_read, turn, accept, serve, new_addr,
}
use gorp.Multi.Accept.{IsResult, accept-IsResult}
use gorp.Multi.BlockList.{serve_accept, serve-invalid}
use gorp.Multi.Stream.{pending, reads, reads-pending}

-- The address is the text, and a prefix blocks itself alone.
abbrev parse_prefix : String → Option (String → Bool)
parse_prefix c = if str_eq c "bad" then none else some (λ a. str_eq a c)

abbrev timed_out : Failure
timed_out = record { eof = false; temporary = true; text = "i/o timeout" }

abbrev from : ℕ → String → ℕ → Event
from i remote_addr b =
    arrives (record { id = i; remote_addr = remote_addr; first = got b; rest = 7 ∷ [] })

abbrev events : List Event
events = accept_fails timed_out ∷ from 1 "x" 22 ∷ from 2 "y" 71 ∷ from 3 "y" 22 ∷ from 4 "y" 22 ∷ []

abbrev matcher : Option (List (String → Bool))
matcher = some ((λ a. str_eq a "x") ∷ [])

abbrev third : Accepted
third = tls (record { id = 3; input = 7 ∷ []; b = 22; e = false; f = true; closed = false })

-- One is blocked, one is not TLS, and the third is served.
accepted :
    accept (λ s. some s) (λ s. some s) (λ s t. str_eq s t) matcher true true events
    ≡ (third, 1 ∷ 2 ∷ [], from 4 "y" 22 ∷ [])
unfolding accept turn after_read is_blocked match_conn match_addr is_ignored
accepted = refl

accept-IsResult_example :
    IsResult
      (λ s. some s)
      (λ s. some s)
      (λ s t. str_eq s t)
      matcher
      true
      true
      events
      third
      (1 ∷ 2 ∷ [])
      (from 4 "y" 22 ∷ [])
unfolding accept turn after_read is_blocked match_conn match_addr is_ignored
accept-IsResult_example =
    accept-IsResult (λ s. some s) (λ s. some s) (λ s t. str_eq s t) matcher true true events

-- The first connection would be blocked without the entry that is no prefix.
serve-invalid_example :
    serve_accept
      (λ s. some s)
      (λ s. some s)
      (λ s t. str_eq s t)
      true
      (serve parse_prefix (λ c k. true) false (pos 0) ("x" ∷ "bad" ∷ []) "c" "k")
      events
    ≡ serve_accept
        (λ s. some s)
        (λ s. some s)
        (λ s t. str_eq s t)
        true
        (serve parse_prefix (λ c k. true) false (pos 0) [] "c" "k")
        events
serve-invalid_example =
    serve-invalid (λ s. some s) (λ s. some s) (λ s t. str_eq s t) true parse_prefix (λ c k. true)
      false (pos 0) ("x" ∷ []) [] "bad" "c" "k" events refl

abbrev hello : Conn
hello = record { id = 3; input = 3 ∷ 1 ∷ 0 ∷ 5 ∷ []; b = 22; e = false; f = true; closed = false }

reads-pending_example :
    (bytes : List ℕ) × (c' : Conn) × (reads
        (map (λ (s : ℕ × Option ℕ). (suc s.0, s.1)) ((2, some 0) ∷ (2, none) ∷ (3, some 9) ∷ []))
        hello
      ≡ some (bytes, c'))
    × (bytes ++ pending c' ≡ pending hello)
reads-pending_example = reads-pending ((2, some 0) ∷ (2, none) ∷ (3, some 9) ∷ []) hello

port_only : new_addr "8080" ≡ ":8080"
unfolding new_addr cut_at
port_only = refl
