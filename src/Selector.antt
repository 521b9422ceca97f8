-- ===== src/Selector.antt =====
-- pkg/selector: the strategies that choose a backend of a route. A backend of the slice is named by
-- its index. Asking a backend whether it is available may half-open its breaker, so a selection
-- returns the pool that it leaves. One reading of the clock serves a whole selection, in which each
-- backend is asked at most once. rand.Intn is the parameter `rand`: its k-th call in the selection
-- with the bound n gives `rand k n`. Cookies, the URL's query and net.SplitHostPort are parameters
-- too.
pub mod Factory
pub mod Least
pub mod Next
pub mod Cyclic
pub mod Select
pub mod Sound
pub mod Stuck
mod Tests
pub mod Strategies
use gorp.Prelude.{
  ℕ, zero, suc, ◌+◌, ◌-◌, ◌%◌, ◌^◌, String, Bool, true, false, List, [], ◌∷◌, ◌++◌, Option, none,
  some, ltb, leb, ◌==◌, if◌then◌else◌, length, is_empty, get_elem?, set,
}
use gorp.Backend.{Backend, available}

pub data Pick : Type 0 where
  chosen : ℕ → Pick
  no_backend no_valid_backend : Pick
  -- an index out of range
  panics : Pick

collected :
    ℕ → Backend × Bool → List Backend × List (ℕ × Backend) → List Backend × List (ℕ × Backend)
collected i (b, true) (pool, found) = (b ∷ pool, (i, b) ∷ found)
collected i (b, false) (pool, found) = (b ∷ pool, found)

-- `available` of helpers.go, from the index i on: the pool it leaves, and the available backends.
unfoldable pub collect : ℕ → ℕ → List Backend → List Backend × List (ℕ × Backend)
unfolding collected
collect now i [] = ([], [])
collect now i (b ∷ bs) = collected i (available now b) (collect now (suc i) bs)

abbrev pub pick_of : Option (ℕ × Backend) → Pick
pick_of none = panics
pick_of (some (i, b)) = chosen i

-- What a strategy makes of the available backends; the pool is as asking left it.
abbrev pub choosing :
    (List (ℕ × Backend) → Pick) → List Backend × List (ℕ × Backend) → List Backend × Pick
choosing choose (pool, found) = (pool, choose found)

first_of : List (ℕ × Backend) → Pick
first_of [] = no_valid_backend
first_of (c ∷ cs) = pick_of (some c)

unfoldable pub first_alive : ℕ → List Backend → List Backend × Pick
unfolding first_of collect
first_alive now pool =
    if is_empty pool then (pool, no_backend) else choosing first_of (collect now 0 pool)

-- The least-connections loop: the best load so far and those that have it.
pub consider : ℕ × List (ℕ × Backend) → ℕ × Backend → ℕ × List (ℕ × Backend)
consider (best, candidates) (i, b) =
    if ltb b.active best
    then (b.active, (i, b) ∷ [])
    else if b.active == best
    then (best, candidates ++ (i, b) ∷ [])
    else (best, candidates)

pub least : ℕ × List (ℕ × Backend) → List (ℕ × Backend) → ℕ × List (ℕ × Backend)
unfolding consider
least acc [] = acc
least acc (c ∷ cs) = least (consider acc c) cs

abbrev pub max_int64 : ℕ
max_int64 = 2 ^ 63 - 1

-- The less loaded of two, the first at equal loads.
lighter : Option (ℕ × Backend) → Option (ℕ × Backend) → Pick
lighter (some (i, a)) (some (j, b)) = if leb a.active b.active then chosen i else chosen j
lighter _ _ = panics

module _ (rand : ℕ → ℕ → ℕ) where
  -- `candidates[rand.Intn(len(candidates))]`, after the test for an empty slice
  pub draw : List (ℕ × Backend) → Pick
  draw [] = no_valid_backend
  draw (c ∷ cs) = pick_of (get_elem? (c ∷ cs) (rand 0 (length (c ∷ cs))))

  unfoldable pub random : ℕ → List Backend → List Backend × Pick
  unfolding draw collect
  random now pool = if is_empty pool then (pool, no_backend) else choosing draw (collect now 0 pool)

  least_of : List (ℕ × Backend) → Pick
  unfolding draw least
  least_of [] = no_valid_backend
  least_of (c ∷ cs) = draw (least (max_int64, []) (c ∷ cs)).1

  unfoldable pub least_connections : ℕ → List Backend → List Backend × Pick
  unfolding least_of collect
  least_connections now pool =
      if is_empty pool then (pool, no_backend) else choosing least_of (collect now 0 pool)

  -- The two indices that are drawn among n, of which the second skips the first.
  unfoldable pub two_of : ℕ → ℕ × ℕ
  two_of n = let i = rand 0 n in let j = rand 1 (n - 1) in (i, if leb i j then j + 1 else j)

  choose_two : List (ℕ × Backend) → Pick
  unfolding two_of lighter
  choose_two [] = no_valid_backend
  choose_two (c ∷ []) = pick_of (some c)
  choose_two (c ∷ d ∷ cs) =
      let (i, j) = two_of (length (c ∷ d ∷ cs)) in
      lighter (get_elem? (c ∷ d ∷ cs) i) (get_elem? (c ∷ d ∷ cs) j)

  unfoldable pub power_of_two_choices : ℕ → List Backend → List Backend × Pick
  unfolding choose_two collect
  power_of_two_choices now pool =
      if is_empty pool then (pool, no_backend) else choosing choose_two (collect now 0 pool)

-- Asking the backend with the given index.
told : List Backend → ℕ → Backend × Bool → List Backend × Option Bool
told pool i (b, answer) = (set pool i b, some answer)

unfoldable pub ask : ℕ → List Backend → ℕ → List Backend × Option Bool
unfolding told
ask now pool i = elim (get_elem? pool i) [
  | none ↦ (pool, none)
  | some b ↦ told pool i (available now b)
]

-- The end of a round: the answer decides between returning and the rounds left.
scanned :
    ℕ → (List Backend → List Backend × Pick) → List Backend × Option Bool → List Backend × Pick
scanned i rest (pool, none) = (pool, panics)
scanned i rest (pool, some true) = (pool, chosen i)
scanned i rest (pool, some false) = rest pool

-- The loop of AffinitySelector.Select, with `rounds` rounds left of n.
pub scan : ℕ → ℕ → ℕ → ℕ → ℕ → List Backend → List Backend × Pick
unfolding scanned
scan now n home offset zero pool = (pool, no_valid_backend)
scan now n home offset (suc rounds) pool =
    let i = (home + offset) % n in scanned i (scan now n home (offset + 1) rounds) (ask now pool i)

-- AffinitySelector.Select, once the index is known
unfoldable pub affinity : ℕ → ℕ → List Backend → List Backend × Pick
affinity now home pool =
    if is_empty pool then (pool, no_backend) else scan now (length pool) home 0 (length pool) pool

-- `r.index++` with its reset
abbrev pub next_index : ℕ → ℕ → ℕ
next_index n index = if leb n (index + 1) then 0 else index + 1

rotated :
    ℕ
    → ℕ
    → (List Backend → ℕ × List Backend × Pick)
    → List Backend × Option Bool
    → ℕ × List Backend × Pick
rotated n index rest (pool, none) = (index, pool, panics)
rotated n index rest (pool, some true) = (next_index n index, pool, chosen index)
rotated n index rest (pool, some false) = rest pool

-- The loop of RoundRobinSelector.Select: the index and the pool it leaves.
pub rotate : ℕ → ℕ → ℕ → ℕ → List Backend → ℕ × List Backend × Pick
unfolding rotated
rotate now n zero index pool = (index, pool, no_valid_backend)
rotate now n (suc rounds) index pool =
    rotated n index (rotate now n rounds (next_index n index)) (ask now pool index)

unfoldable pub round_robin : ℕ → ℕ → List Backend → ℕ × List Backend × Pick
round_robin now index pool =
    if is_empty pool
    then (index, pool, no_backend)
    else rotate now (length pool) (length pool) index pool
