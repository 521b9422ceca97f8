-- ===== src/Selector/Cyclic.antt =====
-- The two loops of pkg/selector that walk round the pool: affinity and round robin.
use native.Mathlib.Nat.{mod-lt}
use mathlib.Core.Path.{fun_ext}
use gorp.Prelude.{
  ℕ, zero, suc, ◌+◌, ◌%◌, ◌<◌, ◌≡◌, refl, ap, ◌∙◌, sym, subst, Bool, true, false, List, [], ◌∷◌,
  Option, some, arith, length, get_elem?, set, get_elem?-lt,
}
use gorp.Backend.{Backend, available}
use gorp.Selector.{
  Pick, chosen, no_backend, no_valid_backend, panics, ask, scan, rotate, next_index, told, scanned,
  rotated,
}
use gorp.Selector.Sound.{Admits, available_no}

-- Writing back what stands there changes nothing.
set_same {ℓ} :
    {A : Type ℓ} (xs : List A) (i : ℕ) (a : A) → get_elem? xs i ≡ some a → set xs i a ≡ xs
set_same [] i a e = refl
set_same (x ∷ xs) zero a e = cc
set_same (x ∷ xs) (suc i) a e = cc (set_same xs i a e)

-- The answers of `ask` at an index in range: yes, or no and an unchanged pool.
ask_cases {κ} :
    (P : List Backend × Option Bool → Type κ) (now : ℕ) (pool : List Backend) (i : ℕ)
    → i < length pool
    → ((b b' : Backend)
        → get_elem? pool i ≡ some b
        → available now b ≡ (b', true)
        → P (set pool i b', some true))
    → ((b : Backend)
        → get_elem? pool i ≡ some b
        → (available now b).1 ≡ false
        → P (pool, some false))
    → P (ask now pool i)
unfolding ask
ask_cases P now pool i h granted denied = go (get_elem?-lt pool i h)
  where
    answered :
        (b : Backend)
        → get_elem? pool i ≡ some b
        → (r : Backend × Bool) → available now b ≡ r
        → P (told pool i r)
    answered b e (b', true) f = granted b b' e f
    answered b e (b', false) f =
        let denial : (available now b).1 ≡ false = ap (λ r. r.1) f in
        let same : b ≡ b' = sym (available_no now b denial) ∙ ap (λ r. r.0) f in
        subst (λ p. P (p, some false)) (sym (set_same pool i b' (e ∙ ap some same)))
          (denied b e denial)

    go : (b : Backend) × (get_elem? pool i ≡ some b) → P (ask now pool i)
    go (b, e) = rw (e, ask) (answered b e (available now b) refl)

abbrev pub Refused : ℕ → List Backend → ℕ → Type 0
Refused now pool i = (b : Backend) → get_elem? pool i ≡ some b → (available now b).1 ≡ false

-- The first position of the walk `at` whose backend says yes, or a refusal at each of its rounds.
abbrev pub FirstFrom : ℕ → List Backend → (ℕ → ℕ) → ℕ → Pick → Type 0
FirstFrom now pool at rounds (chosen i) =
    (k : ℕ) × (k < rounds)
    × (i ≡ at k)
    × ((b : Backend) × Admits now pool i b)
    × ((m : ℕ) → m < k → Refused now pool (at m))
FirstFrom now pool at rounds no_valid_backend = (m : ℕ) → m < rounds → Refused now pool (at m)
FirstFrom now pool at rounds _ = ⊥

-- The index of the round-robin loop in its round m.
unfoldable pub walk : ℕ → ℕ → ℕ → ℕ
walk n index zero = index
walk n index (suc m) = walk n (next_index n index) m

module _ (now : ℕ) (pool : List Backend) where
  Refused-first :
      (at : ℕ → ℕ) (k : ℕ)
      → Refused now pool (at 0)
      → ((m : ℕ) → m < k → Refused now pool (at (suc m)))
      → (m : ℕ) → m < suc k
      → Refused now pool (at m)
  Refused-first at k first later zero h = first
  Refused-first at k first later (suc m) h = later m (omega arith)

  FirstFrom-next :
      (at : ℕ → ℕ) (rounds : ℕ) (p : Pick)
      → Refused now pool (at 0)
      → FirstFrom now pool (λ m. at (suc m)) rounds p
      → FirstFrom now pool at (suc rounds) p
  FirstFrom-next at rounds (chosen i) first (k, below, e, a, later) =
      (suc k, omega arith, e, a, Refused-first at k first later)
  FirstFrom-next at rounds no_valid_backend first later = Refused-first at rounds first later
  FirstFrom-next at rounds no_backend first h = absurd h
  FirstFrom-next at rounds panics first h = absurd h

  Refused-of :
      (i : ℕ) (b : Backend)
      → get_elem? pool i ≡ some b
      → (available now b).1 ≡ false
      → Refused now pool i
  Refused-of i b e denied b' e' =
      let same : b ≡ b' = cc in subst (λ c. (available now c).1 ≡ false) same denied

  -- The position of the affinity loop in its round m, counted from the round `offset`.
  abbrev pub around : ℕ → ℕ → ℕ → ℕ → ℕ
  around n home offset m = (home + (offset + m)) % n

  around-suc :
      (n home offset : ℕ) → around n home (offset + 1) ≡ (λ m. around n home offset (suc m))
  around-suc n home offset = fun_ext (λ m. ap (λ t. (home + t) % n) (omega arith))

  around-zero : (n home offset : ℕ) → around n home offset 0 ≡ (home + offset) % n
  around-zero n home offset = ap (λ t. (home + t) % n) (omega arith)

  pub scan-FirstFrom :
      (n home offset rounds : ℕ)
      → n ≡ length pool
      → 0 < n
      → FirstFrom now pool (around n home offset) rounds (scan now n home offset rounds pool).1
  unfolding scan
  scan-FirstFrom n home offset zero e h = λ m lt. elim lt [ ]
  scan-FirstFrom n home offset (suc rounds) e h =
      let rest =
        subst (λ at. FirstFrom now pool at rounds (scan now n home (offset + 1) rounds pool).1)
          (around-suc n home offset) (scan-FirstFrom n home (offset + 1) rounds e h) in
      ask_cases
        (λ r.
          FirstFrom now pool (around n home offset) (suc rounds)
            (scanned ((home + offset) % n) (scan now n home (offset + 1) rounds) r).1)
        now pool ((home + offset) % n) (rw (← e) (mod-lt (home + offset) h))
        (λ b b' e f.
          (0, omega arith, sym (around-zero n home offset), (b', (b, e, f)), λ m lt. elim lt [ ]))
        (λ b e f.
          FirstFrom-next (around n home offset) rounds _
            (subst (Refused now pool) (sym (around-zero n home offset)) (Refused-of _ b e f)) rest)

  pub rotate-FirstFrom :
      (n rounds index : ℕ)
      → n ≡ length pool
      → index < n
      → FirstFrom now pool (walk n index) rounds (rotate now n rounds index pool).2
  unfolding rotate walk
  rotate-FirstFrom n zero index e h = λ m lt. elim lt [ ]
  rotate-FirstFrom n (suc rounds) index e h =
      let rest = rotate-FirstFrom n rounds (next_index n index) e (ground arith) in
      ask_cases
        (λ r.
          FirstFrom now pool (walk n index) (suc rounds)
            (rotated n index (rotate now n rounds (next_index n index)) r).2)
        now pool index (rw (← e) h)
        (λ b b' e f. (0, omega arith, refl, (b', (b, e, f)), λ m lt. elim lt [ ]))
        (λ b e f. FirstFrom-next (walk n index) rounds _ (Refused-of _ b e f) rest)
