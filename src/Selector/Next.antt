-- ===== src/Selector/Next.antt =====
-- Affinity and round robin of pkg/selector choose the next backend that says yes.
use native.Mathlib.Nat.{mod-eq_of_lt, add-mod_left, add-mod_right}
use mathlib.Core.Path.{fun_ext}
use gorp.Prelude.{
  ℕ, zero, suc, ◌+◌, ◌-◌, ◌%◌, ◌<◌, ◌≡◌, refl, ap, ◌∙◌, sym, subst, ◌≢◌, inl, inr, Bool, true,
  false, List, [], ◌∷◌, Option, none, some, arith, length, get_elem?, leb, if◌then◌else◌,
  All-get_elem?, Bool-cases,
}
use gorp.Backend.{Backend, available}
use gorp.Selector.{
  Pick, chosen, no_backend, no_valid_backend, panics, ask, scan, affinity, rotate, round_robin,
  next_index, rotated,
}
use gorp.Selector.Cyclic.{Refused, FirstFrom, scan-FirstFrom, rotate-FirstFrom, walk}
use gorp.Selector.Sound.{IsSound, Admits, NoneAvailable}

walk_mod : (n index m : ℕ) → index < n → walk n index m ≡ (index + m) % n
unfolding walk
walk_mod n index zero h = ap (λ t. t) (sym (mod-eq_of_lt h)) ∙ ap (λ t. t % n) (omega arith)
walk_mod n index (suc m) h = elim (Bool-cases (leb n (index + 1))) [
  | inl e ↦
      let full : n + m ≡ index + suc m = ground arith in
      rw e (
        walk_mod n 0 m (omega arith)
        ∙ (ap (λ t. t % n) (omega arith) ∙ (sym (add-mod_left n m) ∙ ap (λ t. t % n) full)))
  | inr e ↦ rw e (walk_mod n (index + 1) m (ground arith) ∙ ap (λ t. t % n) (omega arith))
]

-- Every index is met in one round of the pool.
turn : ℕ → ℕ → ℕ → ℕ
turn n start i = if leb start i then i - start else i + n - start

turn_lem :
    (n start i : ℕ) → start < n → i < n → ((start + turn n start i) % n ≡ i) × (turn n start i < n)
unfolding turn
turn_lem n start i h k = elim (Bool-cases (leb start i)) [
  | inl e ↦
      let same : start + (i - start) ≡ i = ground arith in
      rw e (ap (λ t. t % n) same ∙ mod-eq_of_lt k, omega arith)
  | inr e ↦
      let same : start + (i + n - start) ≡ i + n = omega arith in
      rw e (ap (λ t. t % n) same ∙ (add-mod_right i n ∙ mod-eq_of_lt k), ground arith)
]

All-of_Refused :
    (now : ℕ) (pool : List Backend)
    → ((i : ℕ) → i < length pool → Refused now pool i)
    → NoneAvailable now pool
All-of_Refused now [] h = tt
All-of_Refused now (b ∷ pool) h =
    (h 0 (omega arith) b refl, All-of_Refused now pool (λ i k. h (suc i) (omega arith)))

-- A refusal at each position of a full round is a refusal of every backend.
NoneAvailable-of_round :
    (now start : ℕ) (pool : List Backend)
    → start < length pool
    → ((m : ℕ) → m < length pool → Refused now pool ((start + m) % length pool))
    → NoneAvailable now pool
NoneAvailable-of_round now start pool h refused = All-of_Refused now pool λ i k.
    let (same, below) = turn_lem (length pool) start i h k in
    subst (Refused now pool) same (refused (turn (length pool) start i) below)

-- The chosen backend is the first one, from `start` on round the pool, that says yes.
abbrev pub IsNext : ℕ → List Backend → ℕ → Pick → Type 0
IsNext now pool start (chosen i) =
    (k : ℕ) × (k < length pool)
    × (i ≡ (start + k) % length pool)
    × ((b : Backend) × Admits now pool i b)
    × ((m : ℕ) → m < k → Refused now pool ((start + m) % length pool))
IsNext now pool start p = IsSound now pool p

IsNext-of_FirstFrom :
    (now start : ℕ) (pool : List Backend) (p : Pick)
    → pool ≢ []
    → start < length pool
    → FirstFrom now pool (λ m. (start + m) % length pool) (length pool) p
    → IsNext now pool start p
IsNext-of_FirstFrom now start pool (chosen i) some_left h f = f
IsNext-of_FirstFrom now start pool no_valid_backend some_left h f =
    (some_left, NoneAvailable-of_round now start pool h f)
IsNext-of_FirstFrom now start pool no_backend some_left h f = absurd f
IsNext-of_FirstFrom now start pool panics some_left h f = absurd f

-- Affinity chooses the home backend if it says yes, and else the first one after it, round the pool,
-- that does. It fails only on an empty pool or when every backend says no.
pub affinity-IsNext :
    (now home : ℕ) (pool : List Backend)
    → home < length pool
    → IsNext now pool home (affinity now home pool).1
unfolding affinity
affinity-IsNext now home [] h = elim h [ ]
affinity-IsNext now home (b ∷ bs) h =
    let n = length (b ∷ bs) in
    IsNext-of_FirstFrom now home (b ∷ bs) _ (λ e. cc) h
      (subst (λ at. FirstFrom now (b ∷ bs) at n (scan now n home 0 n (b ∷ bs)).1)
        (fun_ext (λ m. ap (λ t. (home + t) % n) (omega arith)))
        (scan-FirstFrom now (b ∷ bs) n home 0 n refl (omega arith)))

home_said_yes :
    (now start : ℕ) (pool : List Backend) (b b' : Backend) (p : Pick)
    → start < length pool
    → get_elem? pool start ≡ some b
    → available now b ≡ (b', true)
    → IsNext now pool start p
    → p ≡ chosen start
home_said_yes now start pool b b' (chosen i) h g a (zero, below, at, _, refused) =
    let here : i ≡ start = at ∙ (ap (λ t. t % length pool) (omega arith) ∙ mod-eq_of_lt h) in
    ap chosen here
home_said_yes now start pool b b' (chosen i) h g a (suc k, below, at, _, refused) =
    let here : (start + 0) % length pool ≡ start =
      ap (λ t. t % length pool) (omega arith) ∙ mod-eq_of_lt h in
    let denied = refused 0 (omega arith) b (ap (get_elem? pool) here ∙ g) in cc (a, denied)
home_said_yes now start pool b b' no_backend h g a e =
    let none_left : length pool ≡ 0 = ap length e in absurd (omega arith)
home_said_yes now start pool b b' no_valid_backend h g a (_, none_left) =
    let denied = All-get_elem? _ pool start b none_left g in cc (a, denied)
home_said_yes now start pool b b' panics h g a e = absurd e

-- A home backend that says yes is the one that affinity chooses.
pub affinity_home :
    (now start : ℕ) (pool : List Backend) (b b' : Backend)
    → start < length pool
    → get_elem? pool start ≡ some b
    → available now b ≡ (b', true)
    → (affinity now start pool).1 ≡ chosen start
affinity_home now start pool b b' h g a =
    home_said_yes now start pool b b' _ h g a (affinity-IsNext now start pool h)

-- Where round robin will start next.
abbrev pub Advanced : ℕ → ℕ → Pick → Type 0
Advanced n index (chosen i) = index ≡ next_index n i
Advanced n index p = index < n

rotated-Advanced :
    (n index : ℕ) (rest : List Backend → ℕ × List Backend × Pick) (r : List Backend × Option Bool)
    → index < n
    → ((p : List Backend) → Advanced n (rest p).0 (rest p).2)
    → Advanced n (rotated n index rest r).0 (rotated n index rest r).2
unfolding rotated
rotated-Advanced n index rest (p, none) h k = h
rotated-Advanced n index rest (p, some true) h k = refl
rotated-Advanced n index rest (p, some false) h k = k p

rotate-Advanced :
    (now n rounds index : ℕ) (pool : List Backend)
    → index < n
    → Advanced n (rotate now n rounds index pool).0 (rotate now n rounds index pool).2
unfolding rotate
rotate-Advanced now n zero index pool h = h
rotate-Advanced now n (suc rounds) index pool h =
    rotated-Advanced n index (rotate now n rounds (next_index n index)) (ask now pool index) h
      (λ p. rotate-Advanced now n rounds (next_index n index) p (ground arith))

-- Round robin chooses the first backend from its index on, round the pool, that says yes, and will
-- start behind it the next time. It fails only on an empty pool or when every backend says no, and
-- keeps its index in the pool.
pub round_robin-IsNext :
    (now index : ℕ) (pool : List Backend)
    → index < length pool
    → IsNext now pool index (round_robin now index pool).2
      × Advanced (length pool) (round_robin now index pool).0 (round_robin now index pool).2
unfolding round_robin
round_robin-IsNext now index [] h = elim h [ ]
round_robin-IsNext now index (b ∷ bs) h =
    let n = length (b ∷ bs) in
    (
      IsNext-of_FirstFrom now index (b ∷ bs) _ (λ e. cc) h
          (subst (λ at. FirstFrom now (b ∷ bs) at n (rotate now n n index (b ∷ bs)).2)
            (fun_ext (λ m. walk_mod n index m h)) (rotate-FirstFrom now (b ∷ bs) n n index refl h)),
      rotate-Advanced now n n index (b ∷ bs) h,
    )
