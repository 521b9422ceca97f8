-- ===== src/Selector/Least.antt =====
-- LeastConnections and PowerOfTwoChoices of pkg/selector pick by load.
use gorp.Prelude.{
  ℕ, zero, suc, ◌+◌, ◌≤◌, ◌≡◌, refl, ap, ◌∙◌, sym, subst, ◌≢◌, ◌⊎◌, inl, inr, Bool, true, false,
  List, [], ◌∷◌, ◌++◌, some, arith, length, All, All-append, All-get_elem?, get_elem?-lt,
  Bool-cases, ltb, ◌==◌,
}
use gorp.Backend.{Backend, available}
use gorp.Selector.{
  Pick, chosen, collect, collected, pick_of, draw, least, consider, least_connections, max_int64,
  least_of,
}
use gorp.Selector.Sound.{IsSound, Found, Admits, collect-Found, collect_none}
use gorp.Selector.Strategies.{IsRandom}

-- The candidates of the loop have the best load.
abbrev Leaders : List Backend → ℕ → ℕ × List (ℕ × Backend) → Type 0
Leaders pool now (best, cands) = All (λ c. Found now 0 pool c × (c.1.active ≡ best)) cands

concat-ne-nil {ℓ} : {A : Type ℓ} (xs : List A) (x : A) → xs ++ x ∷ [] ≢ []
concat-ne-nil [] x e = cc
concat-ne-nil (y ∷ xs) x e = cc

-- A candidate is kept once there is one, or when the new backend is no more loaded.
consider-ne-nil :
    (acc : ℕ × List (ℕ × Backend)) (c : ℕ × Backend)
    → (c.1.active ≤ acc.0) ⊎ (acc.1 ≢ [])
    → (consider acc c).1 ≢ []
unfolding consider
consider-ne-nil (best, cands) (i, b) (inl h) = ground (arith, concat-ne-nil {0} cands (i, b))
consider-ne-nil (best, cands) (i, b) (inr h) = ground (arith, concat-ne-nil {0} cands (i, b))

consider-le :
    (acc : ℕ × List (ℕ × Backend)) (c : ℕ × Backend)
    → ((consider acc c).0 ≤ acc.0) × ((consider acc c).0 ≤ c.1.active)
unfolding consider
consider-le (best, cands) (i, b) = ground arith

module _ (now : ℕ) (pool : List Backend) where
  consider-Leaders :
      (acc : ℕ × List (ℕ × Backend)) (c : ℕ × Backend)
      → Leaders pool now acc
      → Found now 0 pool c
      → Leaders pool now (consider acc c)
  unfolding consider
  consider-Leaders (best, cands) (i, b) h p = elim (Bool-cases (ltb b.active best)) [
    | inl e ↦ rw e ((p, refl), tt)
    | inr e ↦ elim (Bool-cases (b.active == best)) [
      | inl f ↦ rw (e, f) (All-append _ cands ((i, b) ∷ []) h ((p, ground arith), tt))
      | inr f ↦ rw (e, f) h
    ]
  ]

  least-Leaders :
      (acc : ℕ × List (ℕ × Backend)) (cs : List (ℕ × Backend))
      → Leaders pool now acc
      → All (Found now 0 pool) cs
      → Leaders pool now (least acc cs)
  unfolding least
  least-Leaders acc [] h p = h
  least-Leaders acc (c ∷ cs) h (q, p) =
      least-Leaders (consider acc c) cs (consider-Leaders acc c h q) p

least-ne-nil :
    (acc : ℕ × List (ℕ × Backend)) (cs : List (ℕ × Backend)) → acc.1 ≢ [] → (least acc cs).1 ≢ []
unfolding least
least-ne-nil acc [] h = h
least-ne-nil acc (c ∷ cs) h = least-ne-nil (consider acc c) cs (consider-ne-nil acc c (inr h))

least-le : (acc : ℕ × List (ℕ × Backend)) (cs : List (ℕ × Backend)) → (least acc cs).0 ≤ acc.0
unfolding least
least-le acc [] = omega arith
least-le acc (c ∷ cs) = omega (arith, least-le (consider acc c) cs, consider-le acc c)

-- The best load is no greater than any load.
least-lower :
    (acc : ℕ × List (ℕ × Backend)) (cs : List (ℕ × Backend))
    → All (λ c. (least acc cs).0 ≤ c.1.active) cs
unfolding least
least-lower acc [] = tt
least-lower acc (c ∷ cs) = (
  omega (arith, least-le (consider acc c) cs, consider-le acc c),
  least-lower (consider acc c) cs,
)

-- What holds of all that was collected holds of every backend that says yes.
collected-head :
    (Q : ℕ × Backend → Type 0) (i : ℕ) (b : Backend) (rest : List Backend × List (ℕ × Backend))
    → All Q (collected i (b, true) rest).1
    → Q (i, b) × All Q rest.1
unfolding collected
collected-head Q i b (pool, found) h = h

collected-tail :
    (Q : ℕ × Backend → Type 0) (i : ℕ) (answer : Backend × Bool)
    (rest : List Backend × List (ℕ × Backend))
    → All Q (collected i answer rest).1
    → All Q rest.1
unfolding collected
collected-tail Q i (b, true) (pool, found) h = h.1
collected-tail Q i (b, false) (pool, found) h = h

All-Admits :
    (Q : ℕ × Backend → Type 0) (now i : ℕ) (pool : List Backend) (j : ℕ) (b : Backend)
    → All Q (collect now i pool).1
    → Admits now pool j b
    → Q (i + j, b)
unfolding collect
All-Admits Q now i [] j b h (c, e, a) = cc
All-Admits Q now i (x ∷ pool) zero b h (c, e, a) =
    let same_c : x ≡ c = cc in
    let here : available now x ≡ (b, true) = ap (available now) same_c ∙ a in
    let same : i ≡ i + 0 = omega arith in
    subst (λ k. Q (k, b)) same (collected-head Q i b (collect now (suc i) pool) (rw here at h)).0
All-Admits Q now i (x ∷ pool) (suc j) b h a =
    let same : suc i + j ≡ i + suc j = omega arith in
    subst (λ k. Q (k, b)) same
      (All-Admits Q now (suc i) pool j b
        (collected-tail Q i (available now x) (collect now (suc i) pool) h) a)

-- As IsSound, and the chosen backend has the least load of those that say yes.
abbrev pub IsLeast : ℕ → List Backend → Pick → Type 0
IsLeast now pool (chosen i) =
    (b : Backend) × Admits now pool i b
    × ((j : ℕ) (b' : Backend) → Admits now pool j b' → b.active ≤ b'.active)
IsLeast now pool p = IsSound now pool p

IsLeast-of_leader :
    (now best : ℕ) (pool : List Backend) (c : ℕ × Backend)
    → Found now 0 pool c × (c.1.active ≡ best)
    → All (λ d. best ≤ d.1.active) (collect now 0 pool).1
    → IsLeast now pool (pick_of (some c))
IsLeast-of_leader now best pool (i, b) ((j, e, a), load) lower =
    let same : i ≡ j = omega arith in
    (
      b,
      subst (λ k. Admits now pool k b) (sym same) a,
      λ k b' a'.
          subst (λ t. t ≤ b'.active) (sym load)
            (All-Admits (λ d. best ≤ d.1.active) now 0 pool k b' lower a'),
    )

-- Asking a backend does not change its load.
pub available-active : (now : ℕ) (b : Backend) → (available now b).0.active ≡ b.active
unfolding available
available-active now b = ground arith

Found-small :
    (now : ℕ) (pool : List Backend) (c : ℕ × Backend)
    → Found now 0 pool c
    → All (λ b. b.active ≤ max_int64) pool
    → c.1.active ≤ max_int64
Found-small now pool (i, b) (j, _, (b', e, a)) small =
    let load : b'.active ≤ max_int64 = All-get_elem? _ pool j b' small e in
    subst (λ t. t ≤ max_int64) (sym (available-active now b') ∙ ap (λ p. p.0.active) a) load

module _ (rand : ℕ → ℕ → ℕ) (fair : IsRandom rand) where
  draw-IsLeast :
      (now best : ℕ) (pool : List Backend) (cands : List (ℕ × Backend))
      → cands ≢ []
      → Leaders pool now (best, cands)
      → All (λ d. best ≤ d.1.active) (collect now 0 pool).1
      → IsLeast now pool (draw rand cands)
  unfolding draw
  draw-IsLeast now best pool [] some_left h lower = absurd (some_left refl)
  draw-IsLeast now best pool (c ∷ cs) some_left h lower =
      let n = length (c ∷ cs) in
      let (d, e) = get_elem?-lt (c ∷ cs) (rand 0 n) (fair 0 n (omega arith)) in
      rw (e, draw) (IsLeast-of_leader now best pool d (All-get_elem? _ (c ∷ cs) _ d h e) lower)

  least_of-IsLeast :
      (now : ℕ) (pool : List Backend) (found : List (ℕ × Backend))
      → found ≡ (collect now 0 pool).1
      → pool ≢ []
      → All (λ b. b.active ≤ max_int64) pool
      → IsLeast now pool (least_of rand found)
  unfolding least_of
  least_of-IsLeast now pool [] e some_left small = (some_left, collect_none now 0 pool (sym e))
  least_of-IsLeast now pool (c ∷ cs) e some_left small =
      let found = rw (← e) at (collect-Found now 0 pool) in
      draw-IsLeast now (least (max_int64, []) (c ∷ cs)).0 pool (least (max_int64, []) (c ∷ cs)).1
        (unfold least in
          least-ne-nil (consider (max_int64, []) c) cs
            (consider-ne-nil (max_int64, []) c (inl (Found-small now pool c found.0 small))))
        (least-Leaders now pool (max_int64, []) (c ∷ cs) tt found)
        (rw (← e) (least-lower (max_int64, []) (c ∷ cs)))

  -- LeastConnections chooses a backend that says yes and whose load is the least of all that do; it
  -- fails only on an empty pool or when every backend says no. Loads are int64 values.
  pub least_connections-IsLeast :
      (now : ℕ) (pool : List Backend)
      → All (λ b. b.active ≤ max_int64) pool
      → IsLeast now pool (least_connections rand now pool).1
  unfolding least_connections
  least_connections-IsLeast now [] small = refl
  least_connections-IsLeast now (b ∷ bs) small =
      least_of-IsLeast now (b ∷ bs) (collect now 0 (b ∷ bs)).1 refl (λ e. cc) small
