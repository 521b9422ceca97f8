-- ===== src/Selector/Stuck.antt =====
-- What happens in pkg/selector to a backend that is asked for a probe and is not chosen.
use gorp.Prelude.{
  ℕ, zero, suc, ◌≤◌, ◌≡◌, refl, sym, ap, subst, ◌∙◌, ◌≢◌, Bool, true, false, List, [], ◌∷◌, some,
  arith, get_elem?, All, ◌<◌, length,
}
use gorp.Http.{Request}
use gorp.Backend.{Backend, half_open, opened, is_passive, available}
use gorp.Backend.Trips.{half_open_refuses, probe_granted}
use gorp.Selector.{
  Pick, chosen, collect, collected, max_int64, first_alive, random, least_connections,
  power_of_two_choices,
}
use gorp.Selector.Factory.{
  Env, Kind, first_one, least_loaded, two_choices, at_random, Selector, select, by_kind,
}
use gorp.Selector.Sound.{IsSound}
use gorp.Selector.Least.{available-active}
use mathlib.Core.Path.{subst₂}
use gorp.Selector.Strategies.{IsRandom}
use gorp.Selector.Select.{IsValid, select-IsSound}

-- The types whose Select asks every backend before it chooses.
abbrev pub asks_all : Kind → Bool
asks_all first_one = true
asks_all least_loaded = true
asks_all two_choices = true
asks_all at_random = true
asks_all _ = false

-- The j-th backend has no health check and a half-open breaker.
abbrev pub IsProbing : ℕ → List Backend → Type 0
IsProbing j pool =
    (b : Backend) × (get_elem? pool j ≡ some b) × (is_passive b ≡ true) × (b.breaker ≡ half_open)

collected-pool :
    (i : ℕ) (answer : Backend × Bool) (rest : List Backend × List (ℕ × Backend))
    → (collected i answer rest).0 ≡ answer.0 ∷ rest.0
unfolding collected
collected-pool i (b, true) (pool, found) = refl
collected-pool i (b, false) (pool, found) = refl

get_elem?-collect :
    (now i j : ℕ) (pool : List Backend) (b : Backend)
    → get_elem? pool j ≡ some b
    → get_elem? (collect now i pool).0 j ≡ some (available now b).0
unfolding collect
get_elem?-collect now i j [] b e = cc
get_elem?-collect now i zero (c ∷ pool) b e =
    let same : c ≡ b = cc in
    rw (collected-pool i (available now c) (collect now (suc i) pool))
      (ap (λ x. some (available now x).0) same)
get_elem?-collect now i (suc j) (c ∷ pool) b e =
    rw (collected-pool i (available now c) (collect now (suc i) pool))
      (get_elem?-collect now (suc i) j pool b e)

strategy_pools :
    (rand : ℕ → ℕ → ℕ) (now : ℕ) (pool : List Backend)
    → ((first_alive now pool).0 ≡ (collect now 0 pool).0)
      × ((random rand now pool).0 ≡ (collect now 0 pool).0)
      × ((least_connections rand now pool).0 ≡ (collect now 0 pool).0)
      × ((power_of_two_choices rand now pool).0 ≡ (collect now 0 pool).0)
unfolding first_alive random least_connections power_of_two_choices
strategy_pools rand now [] = (refl, refl, refl, refl)
strategy_pools rand now (b ∷ bs) = (refl, refl, refl, refl)

module _ (e : Env) (req : Request) (s : Selector) where
  by_kind_pool :
      (k : Kind)
      → asks_all k ≡ true
      → ((by_kind e k req s).0.backends ≡ (collect e.now 0 s.backends).0)
        × ((by_kind e k req s).0.kind ≡ s.kind)
  unfolding by_kind
  by_kind_pool first_one a = ((strategy_pools e.rand e.now s.backends).0, refl)
  by_kind_pool at_random a = ((strategy_pools e.rand e.now s.backends).1, refl)
  by_kind_pool least_loaded a = ((strategy_pools e.rand e.now s.backends).2, refl)
  by_kind_pool two_choices a = ((strategy_pools e.rand e.now s.backends).3, refl)
  by_kind_pool k a = cc

  -- Such a Select leaves every backend as asking left it, and its own type.
  asked_all :
      (j : ℕ) (b : Backend)
      → asks_all s.kind ≡ true
      → get_elem? s.backends j ≡ some b
      → (get_elem? (select e req s).0.backends j ≡ some (available e.now b).0)
        × ((select e req s).0.kind ≡ s.kind)
  unfolding select
  asked_all j b a g =
      let (pools, kinds) = by_kind_pool s.kind a in
      (ap (λ p. get_elem? p j) pools ∙ get_elem?-collect e.now 0 j s.backends b g, kinds)

-- Calls of Select on the same selector, each in its own environment: the selector they leave, and
-- the picks.
pub picks : List (Env × Request) → Selector → List Pick
picks [] s = []
picks ((e, req) ∷ rest) s = (select e req s).1 ∷ picks rest (select e req s).0

IsProbing-kept :
    (e : Env) (req : Request) (s : Selector) (j : ℕ)
    → asks_all s.kind ≡ true
    → IsProbing j s.backends
    → IsProbing j (select e req s).0.backends × (asks_all (select e req s).0.kind ≡ true)
IsProbing-kept e req s j a (b, g, p, h) =
    let (g', k') = asked_all e req s j b a g in
    ((b, g' ∙ ap (λ r. some r.0) (half_open_refuses e.now b p h), p, h), ap asks_all k' ∙ a)

collect-length : (now i : ℕ) (pool : List Backend) → length (collect now i pool).0 ≡ length pool
unfolding collect
collect-length now i [] = refl
collect-length now i (b ∷ pool) =
    rw (collected-pool i (available now b) (collect now (suc i) pool))
      (ap suc (collect-length now (suc i) pool))

collect-small :
    (now i : ℕ) (pool : List Backend)
    → All (λ b. b.active ≤ max_int64) pool
    → All (λ b. b.active ≤ max_int64) (collect now i pool).0
unfolding collect
collect-small now i [] h = tt
collect-small now i (b ∷ pool) (p, h) =
    rw (collected-pool i (available now b) (collect now (suc i) pool))
      (omega (arith, available-active now b), collect-small now (suc i) pool h)

by_kind_index :
    (e : Env) (req : Request) (s : Selector) (k : Kind)
    → asks_all k ≡ true
    → (by_kind e k req s).0.index ≡ s.index
unfolding by_kind
by_kind_index e req s first_one a = refl
by_kind_index e req s at_random a = refl
by_kind_index e req s least_loaded a = refl
by_kind_index e req s two_choices a = refl
by_kind_index e req s k a = cc

select-IsValid :
    (e : Env) (req : Request) (s : Selector)
    → asks_all s.kind ≡ true
    → IsValid s
    → IsValid (select e req s).0
unfolding select
select-IsValid e req s a v =
    let pools = (by_kind_pool e req s s.kind a).0 in
    let size : length (by_kind e s.kind req s).0.backends ≡ length s.backends =
      ap length pools ∙ collect-length e.now 0 s.backends in
    record {
      inside = λ some_left.
          subst₂ (λ i n. i < n) (sym (by_kind_index e req s s.kind a)) (sym size)
            (v.inside (λ none_left.
              some_left (pools ∙ ap (λ p. (collect e.now 0 p).0) none_left ∙ collect_nil e.now)));
      small =
          subst (All (λ b. b.active ≤ max_int64)) (sym pools)
            (collect-small e.now 0 s.backends v.small);
    }
  where
    collect_nil : (now : ℕ) → (collect now 0 []).0 ≡ []
    collect_nil now = unfold collect in refl

probing_not_chosen :
    (e : Env) (req : Request) (s : Selector) (j : ℕ)
    → IsRandom e.rand
    → IsValid s
    → IsProbing j s.backends
    → (select e req s).1 ≢ chosen j
probing_not_chosen e req s j fair v (b, g, p, h) picked =
    let (b', (c, g', a)) =
      subst (IsSound e.now s.backends) picked (select-IsSound e fair req s v) in
    let same : c ≡ b = cc in cc (ap (available e.now) same, half_open_refuses e.now b p h, a)

probing_never_chosen :
    (calls : List (Env × Request)) (s : Selector) (j : ℕ)
    → All (λ c. IsRandom c.0.rand) calls
    → asks_all s.kind ≡ true
    → IsValid s
    → IsProbing j s.backends
    → All (λ p. p ≢ chosen j) (picks calls s)
unfolding picks
probing_never_chosen [] s j fair a v p = tt
probing_never_chosen ((e, req) ∷ calls) s j (f, fair) a v p =
    let (p', a') = IsProbing-kept e req s j a p in
    (
      probing_not_chosen e req s j f v p,
      probing_never_chosen calls (select e req s).0 j fair a' (select-IsValid e req s a v) p',
    )

-- A backend without health checks, whose open breaker has waited its time, is half-opened by every
-- Select of the first-alive, random, least-connections and power-of-two types, also by one that
-- chooses another backend. From then on no sequence of calls of Select chooses it, at whatever
-- times, so long as no request sent to it ends.
pub unchosen_probe_lost :
    (e : Env) (req : Request) (s : Selector) (j : ℕ) (b : Backend) (calls : List (Env × Request))
    → asks_all s.kind ≡ true
    → IsValid s
    → get_elem? s.backends j ≡ some b
    → is_passive b ≡ true
    → b.breaker ≡ opened
    → b.retry_after ≤ e.now
    → All (λ c. IsRandom c.0.rand) calls
    → IsProbing j (select e req s).0.backends
      × All (λ p. p ≢ chosen j) (picks calls (select e req s).0)
unchosen_probe_lost e req s j b calls a v g p o h fair =
    let (g', k') = asked_all e req s j b a g in
    let (_, half, p') = probe_granted e.now b p o h in
    let probing : IsProbing j (select e req s).0.backends = ((available e.now b).0, g', p', half) in
    (
      probing,
      probing_never_chosen calls (select e req s).0 j fair (ap asks_all k' ∙ a)
          (select-IsValid e req s a v) probing,
    )
