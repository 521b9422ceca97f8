-- ===== src/Backend/Answers.antt =====
-- What a proxied request of pkg/backend/backend.go is answered with, and what it leaves.
use gorp.Prelude.{
  ℕ, ◌+◌, ◌<◌, ◌≤◌, ◌≡◌, ◌⊎◌, inl, inr, true, false, none, some, List, arith, pos, leb_ℤ, leb,
  Bool-cases, Option-cases,
}
use gorp.Http.{Response}
use gorp.Backend.{
  Backend, Modifier, Exchange, answered, failed, handle, serve, modify_response, run_modifiers,
}
use gorp.Backend.Circuit.{IsCoherent, handle-active}

-- The status that an admitted request is answered with, by what the transport gave back.
pub data Answers (fs : List Modifier) : Exchange → ℕ → Type 0 where
  times_out : Answers fs (failed true) 504
  breaks : Answers fs (failed false) 502
  modifier_fails : (r : Response) → run_modifiers fs r ≡ none → Answers fs (answered r) 502
  fails_above :
      (r r' : Response)
      → run_modifiers fs r ≡ some r'
      → 500 ≤ r'.status
      → Answers fs (answered r) 502
  passes_on :
      (r r' : Response)
      → run_modifiers fs r ≡ some r'
      → r'.status < 500
      → Answers fs (answered r) r'.status

-- The backend is at its limit.
abbrev pub IsFull : Backend → Type 0
IsFull b =
    (leb_ℤ b.max_connections (pos 0) ≡ false) × (leb_ℤ b.max_connections (pos b.active) ≡ true)

handle-Answers :
    (fs : List Modifier) (now : ℕ) (x : Exchange) (b : Backend) → Answers fs x (handle fs now x b).1
unfolding handle
handle-Answers fs now (failed true) b = times_out
handle-Answers fs now (failed false) b = breaks
handle-Answers fs now (answered r) b = elim (Option-cases (run_modifiers fs r)) [
  | inl e ↦ rw (e, modify_response) (modifier_fails r e)
  | inr (r', e) ↦ elim (Bool-cases (leb 500 r'.status)) [
    | inl big ↦ rw (e, modify_response, big) (fails_above r r' e (ground (arith, big)))
    | inr small ↦ rw (e, modify_response, small) (passes_on r r' e (ground (arith, small)))
  ]
]

-- On a coherent backend, as every history of calls leaves it, a proxied request ends with as many
-- connections counted as it began with. Below the limit it is answered by what the transport gave
-- back: 504 for a timeout and 502 for another error, 502 where a modifier fails or leaves a status of
-- 500 or more, and else the status that the modifiers leave. At the limit it is answered 503, and
-- the backend is as it was.
pub serve_balanced :
    (fs : List Modifier) (now : ℕ) (x : Exchange) (b : Backend)
    → IsCoherent b
    → ((serve fs now x b).0.active ≡ b.active)
      × ((¬ (IsFull b) × Answers fs x (serve fs now x b).1)
          ⊎ (((serve fs now x b).1 ≡ 503) × IsFull b × ((serve fs now x b).0 ≡ b)))
unfolding serve
serve_balanced fs now x b v = ground (
  arith,
  handle-active fs now x b,
  handle-active fs now x (record b { active = b.active + 1 }),
  handle-Answers fs now x b,
  handle-Answers fs now x (record b { active = b.active + 1 }),
)
