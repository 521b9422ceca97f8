-- ===== src/Selector/Sound.antt =====
-- What a selection of pkg/selector may answer, whatever its strategy.
use mathlib.Core.Path.{Σ_path}
use gorp.Prelude.{
  ℕ, suc, ◌+◌, ◌≡◌, refl, sym, subst, ◌≢◌, Bool, true, false, List, [], ◌∷◌, some, arith, get_elem?,
  All, All-map,
}
use gorp.Backend.{Backend, available}
use gorp.Selector.{Pick, chosen, no_backend, no_valid_backend, panics, collect, collected, pick_of}

-- The backend with index i says yes, and is then as given.
abbrev pub Admits : ℕ → List Backend → ℕ → Backend → Type 0
Admits now pool i b' = (b : Backend) × (get_elem? pool i ≡ some b) × (available now b ≡ (b', true))

abbrev pub NoneAvailable : ℕ → List Backend → Type 0
NoneAvailable now = All λ b. (available now b).1 ≡ false

-- A chosen backend is one of the pool and says yes; each error is given in its case only; no index
-- is out of range.
abbrev pub IsSound : ℕ → List Backend → Pick → Type 0
IsSound now pool (chosen i) = (b : Backend) × Admits now pool i b
IsSound now pool no_backend = pool ≡ []
IsSound now pool no_valid_backend = (pool ≢ []) × NoneAvailable now pool
IsSound now pool panics = ⊥

-- A backend that says no is left as it was.
pub available_no : (now : ℕ) (b : Backend) → (available now b).1 ≡ false → (available now b).0 ≡ b
unfolding available
available_no now b h = ground arith

abbrev pub Found : ℕ → ℕ → List Backend → ℕ × Backend → Type 0
Found now i pool p = (j : ℕ) × (p.0 ≡ i + j) × Admits now pool j p.1

Found-cons :
    (now i : ℕ) (b : Backend) (pool : List Backend) (p : ℕ × Backend)
    → Found now (suc i) pool p
    → Found now i (b ∷ pool) p
Found-cons now i b pool p (j, e, a) = (suc j, omega arith, a)

collected-All {κ} :
    (P : ℕ × Backend → Type κ) (i : ℕ) (answer : Backend × Bool)
    (rest : List Backend × List (ℕ × Backend))
    → (answer.1 ≡ true → P (i, answer.0))
    → All P rest.1
    → All P (collected i answer rest).1
unfolding collected
collected-All P i (b, true) (pool, found) p h = (p refl, h)
collected-All P i (b, false) (pool, found) p h = h

pub collect-Found :
    (now i : ℕ) (pool : List Backend) → All (Found now i pool) (collect now i pool).1
unfolding collect
collect-Found now i [] = tt
collect-Found now i (b ∷ pool) =
    collected-All (Found now i (b ∷ pool)) i (available now b) (collect now (suc i) pool)
      (λ e. (0, omega arith, (b, refl, Σ_path refl e)))
      (All-map _ (Found-cons now i b pool) (collect-Found now (suc i) pool))

collected_none :
    (i : ℕ) (answer : Backend × Bool) (rest : List Backend × List (ℕ × Backend))
    → (collected i answer rest).1 ≡ []
    → (answer.1 ≡ false) × (rest.1 ≡ [])
unfolding collected
collected_none i (b, true) (pool, found) e = cc
collected_none i (b, false) (pool, found) e = (refl, e)

pub collect_none :
    (now i : ℕ) (pool : List Backend) → (collect now i pool).1 ≡ [] → NoneAvailable now pool
unfolding collect
collect_none now i [] e = tt
collect_none now i (b ∷ pool) e =
    let (no_b, rest) = collected_none i (available now b) (collect now (suc i) pool) e in
    (no_b, collect_none now (suc i) pool rest)

-- From what was collected to what was chosen.
pub IsSound-of_Found :
    (now : ℕ) (pool : List Backend) (c : ℕ × Backend)
    → Found now 0 pool c
    → IsSound now pool (pick_of (some c))
IsSound-of_Found now pool (i, b) (j, e, a) =
    let same : i ≡ j = omega arith in (b, subst (λ k. Admits now pool k b) (sym same) a)

-- The common shape of the strategies over the available backends.
pub collected-IsSound :
    (now : ℕ) (pool : List Backend) (choose : List (ℕ × Backend) → Pick)
    → pool ≢ []
    → choose [] ≡ no_valid_backend
    → ((c : ℕ × Backend) (cs : List (ℕ × Backend))
        → All (Found now 0 pool) (c ∷ cs)
        → IsSound now pool (choose (c ∷ cs)))
    → IsSound now pool (choose (collect now 0 pool).1)
collected-IsSound now pool choose some_left none_found pick =
    go (collect now 0 pool).1 (collect-Found now 0 pool) (collect_none now 0 pool)
  where
    go :
        (found : List (ℕ × Backend))
        → All (Found now 0 pool) found
        → (found ≡ [] → NoneAvailable now pool)
        → IsSound now pool (choose found)
    go [] h k = rw none_found (some_left, k refl)
    go (c ∷ cs) h k = pick c cs h
