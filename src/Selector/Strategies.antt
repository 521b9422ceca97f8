-- ===== src/Selector/Strategies.antt =====
-- Every strategy of pkg/selector over the available backends answers soundly.
use gorp.Prelude.{
  ℕ, ◌-◌, ◌≤◌, ◌<◌, refl, ◌≢◌, inl, inr, List, [], ◌∷◌, some, arith, length, All, All-get_elem?,
  get_elem?-lt, Bool-cases, leb,
}
use gorp.Backend.{Backend}
use gorp.Selector.{
  first_alive, first_of, random, draw, power_of_two_choices, choose_two, two_of, lighter,
}
use gorp.Selector.Sound.{IsSound, Found, IsSound-of_Found, collected-IsSound}

pub first_alive-IsSound :
    (now : ℕ) (pool : List Backend) → IsSound now pool (first_alive now pool).1
unfolding first_alive
first_alive-IsSound now [] = refl
first_alive-IsSound now (b ∷ bs) =
    collected-IsSound now (b ∷ bs) first_of (λ e. cc) refl
      (λ c cs h. IsSound-of_Found now (b ∷ bs) c h.0)

lighter-IsSound :
    (now : ℕ) (pool : List Backend) (c d : ℕ × Backend)
    → Found now 0 pool c
    → Found now 0 pool d
    → IsSound now pool (lighter (some c) (some d))
unfolding lighter
lighter-IsSound now pool (i, a) (j, b) p q = elim (Bool-cases (leb a.active b.active)) [
  | inl e ↦ rw e (IsSound-of_Found now pool (i, a) p)
  | inr e ↦ rw e (IsSound-of_Found now pool (j, b) q)
]

-- rand.Intn answers below its bound.
abbrev pub IsRandom : (ℕ → ℕ → ℕ) → Type 0
IsRandom rand = (k n : ℕ) → 0 < n → rand k n < n

module _ (rand : ℕ → ℕ → ℕ) (fair : IsRandom rand) where
  pub draw-IsSound :
      (now : ℕ) (pool : List Backend) (c : ℕ × Backend) (cs : List (ℕ × Backend))
      → All (Found now 0 pool) (c ∷ cs)
      → IsSound now pool (draw rand (c ∷ cs))
  unfolding draw
  draw-IsSound now pool c cs h =
      let n = length (c ∷ cs) in
      let (d, e) = get_elem?-lt (c ∷ cs) (rand 0 n) (fair 0 n (omega arith)) in
      rw (e, draw) (IsSound-of_Found now pool d (All-get_elem? _ (c ∷ cs) _ d h e))

  pub random-IsSound : (now : ℕ) (pool : List Backend) → IsSound now pool (random rand now pool).1
  unfolding random
  random-IsSound now [] = refl
  random-IsSound now (b ∷ bs) =
      collected-IsSound now (b ∷ bs) (draw rand) (λ e. cc) refl (draw-IsSound now (b ∷ bs))

  -- Two draws of one selection name two backends.
  two_of_distinct :
      (n : ℕ)
      → 2 ≤ n
      → ((two_of rand n).0 < n) × ((two_of rand n).1 < n) × ((two_of rand n).0 ≢ (two_of rand n).1)
  unfolding two_of
  two_of_distinct n h = ground (arith, fair 0 n, fair 1 (n - 1))

  choose_two-IsSound :
      (now : ℕ) (pool : List Backend) (c : ℕ × Backend) (cs : List (ℕ × Backend))
      → All (Found now 0 pool) (c ∷ cs)
      → IsSound now pool (choose_two rand (c ∷ cs))
  unfolding choose_two
  choose_two-IsSound now pool c [] h = IsSound-of_Found now pool c h.0
  choose_two-IsSound now pool c (d ∷ cs) h =
      let found = c ∷ d ∷ cs in
      let (below_i, below_j, _) = two_of_distinct (length found) (omega arith) in
      let (x, e) = get_elem?-lt found (two_of rand (length found)).0 below_i in
      let (y, f) = get_elem?-lt found (two_of rand (length found)).1 below_j in
      rw (e, f)
        (lighter-IsSound now pool x y (All-get_elem? _ found _ x h e)
          (All-get_elem? _ found _ y h f))

  pub power_of_two_choices-IsSound :
      (now : ℕ) (pool : List Backend) → IsSound now pool (power_of_two_choices rand now pool).1
  unfolding power_of_two_choices
  power_of_two_choices-IsSound now [] = refl
  power_of_two_choices-IsSound now (b ∷ bs) =
      collected-IsSound now (b ∷ bs) (choose_two rand) (λ e. cc) refl
        (choose_two-IsSound now (b ∷ bs))
