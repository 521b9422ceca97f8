-- ===== src/Selector/Select.antt =====
-- What Select of every selector type in pkg/selector answers, and where affinity leads.
use Prim.Native.String.{String}
use gorp.Prelude.{
  ℕ, ◌≤◌, ◌<◌, ◌≡◌, refl, ◌≢◌, true, List, [], ◌∷◌, some, arith, pos, length, get_elem?,
  get_elem?-below, All, trim_prefix-append, has_prefix-append,
}
use native.Mathlib.Nat.{mod-lt}
use gorp.Http.{Request}
use gorp.Backend.{Backend, available}
use gorp.Selector.{
  Pick, chosen, no_backend, no_valid_backend, panics, affinity, round_robin, max_int64,
}
use gorp.Selector.Factory.{
  Env, Kind, by_cookie, by_header, by_query, by_ip, first_one, least_loaded, two_choices, at_random,
  in_turn, Selector, select, home, hash_index, by_kind, backend_index, backend_affinity_key,
  affinity_prefix,
}
use gorp.Selector.Sound.{IsSound}
use gorp.Selector.Strategies.{
  IsRandom, first_alive-IsSound, random-IsSound, power_of_two_choices-IsSound,
}
use gorp.Selector.Least.{IsLeast, least_connections-IsLeast}
use gorp.Selector.Next.{IsNext, affinity-IsNext, affinity_home, round_robin-IsNext}

IsSound-of_IsLeast :
    (now : ℕ) (pool : List Backend) (p : Pick) → IsLeast now pool p → IsSound now pool p
IsSound-of_IsLeast now pool (chosen i) (b, a, _) = (b, a)
IsSound-of_IsLeast now pool no_backend h = h
IsSound-of_IsLeast now pool no_valid_backend h = h
IsSound-of_IsLeast now pool panics h = h

IsSound-of_IsNext :
    (now start : ℕ) (pool : List Backend) (p : Pick) → IsNext now pool start p → IsSound now pool p
IsSound-of_IsNext now start pool (chosen i) (_, _, _, a, _) = a
IsSound-of_IsNext now start pool no_backend h = h
IsSound-of_IsNext now start pool no_valid_backend h = h
IsSound-of_IsNext now start pool panics h = h

-- The index of a round-robin selector stays inside a pool that is not empty.
pub record IsValid (s : Selector) : Type 0 where
  pub inside : s.backends ≢ [] → s.index < length s.backends
  pub small : All (λ b. b.active ≤ max_int64) s.backends

module _ (e : Env) where
  hash_index-lt : (key : String) (n : ℕ) → 0 < n → hash_index e key n < n
  unfolding hash_index
  hash_index-lt key n h = ground (arith, mod-lt (e.sum32 key) h)

  backend_index-lt : (n : ℕ) (value : String) (i : ℕ) → backend_index e n value ≡ some i → i < n
  unfolding backend_index
  backend_index-lt n value i h = ground arith

  home-lt : (k : Kind) (n : ℕ) (req : Request) → 0 < n → home e k n req < n
  unfolding home
  home-lt (by_cookie name) n req h = hash_index-lt _ n h
  home-lt (by_header name) n req h = ground (
    arith,
    hash_index-lt (e.header name req) n h,
    hash_index-lt (e.itoa (e.rand 0 n)) n h,
    backend_index-lt n (e.header name req),
  )
  home-lt (by_query name) n req h = hash_index-lt _ n h
  home-lt by_ip n req h = hash_index-lt _ n h
  home-lt k n req h = h

  affinity-IsSound :
      (k : Kind) (req : Request) (pool : List Backend)
      → IsSound e.now pool (affinity e.now (home e k (length pool) req) pool).1
  affinity-IsSound k req [] = unfold affinity in refl
  affinity-IsSound k req (b ∷ bs) =
      IsSound-of_IsNext e.now _ (b ∷ bs) _
        (affinity-IsNext e.now _ (b ∷ bs) (home-lt k (length (b ∷ bs)) req (omega arith)))

  -- Whatever its type, Select chooses a backend of the route that says it is available, or answers
  -- ErrNoBackend exactly for a route with no backend, or ErrNoValidBackend where there are backends
  -- and each says no; and it never indexes out of range. rand.Intn answers below its bound, the loads
  -- are int64 values, and the round-robin index stands in the pool.
  pub select-IsSound :
      IsRandom e.rand
      → (req : Request) (s : Selector) → IsValid s
      → IsSound e.now s.backends (select e req s).1
  unfolding select
  select-IsSound fair req s v = go s.kind
    where
      rr :
          (pool : List Backend)
          → (pool ≢ [] → s.index < length pool)
          → IsSound e.now pool (round_robin e.now s.index pool).2
      rr [] h = unfold round_robin in refl
      rr (b ∷ bs) h =
          IsSound-of_IsNext e.now s.index (b ∷ bs) _
            (round_robin-IsNext e.now s.index (b ∷ bs) (h (λ q. cc))).0

      go : (k : Kind) → IsSound e.now s.backends (by_kind e k req s).1
      go first_one = first_alive-IsSound e.now s.backends
      go least_loaded =
          IsSound-of_IsLeast e.now s.backends _
            (least_connections-IsLeast e.rand fair e.now s.backends v.small)
      go two_choices = power_of_two_choices-IsSound e.rand fair e.now s.backends
      go at_random = random-IsSound e.rand fair e.now s.backends
      go in_turn = rr s.backends v.inside
      go k = affinity-IsSound k req s.backends

  backend_index-key :
      (n i : ℕ)
      → e.atoi (e.itoa i) ≡ some (pos i)
      → i < n
      → backend_index e n (backend_affinity_key e i) ≡ some i
  unfolding backend_index backend_affinity_key
  backend_index-key n i back h =
      rw
        (
          has_prefix-append affinity_prefix (e.itoa i),
          trim_prefix-append affinity_prefix (e.itoa i),
          back,
        )
        (ground arith)

  -- A header selector sends a request whose header holds the key that response_affinity made for the
  -- i-th backend to that backend, if it is available, whatever the hash and the random numbers.
  -- strconv.Atoi reads back what strconv.Itoa wrote for i.
  pub select-backend_affinity_key :
      (name : String) (req : Request) (s : Selector) (i : ℕ) (b b' : Backend)
      → s.kind ≡ by_header name
      → e.header name req ≡ backend_affinity_key e i
      → e.atoi (e.itoa i) ≡ some (pos i)
      → get_elem? s.backends i ≡ some b
      → available e.now b ≡ (b', true)
      → (select e req s).1 ≡ chosen i
  unfolding select home
  select-backend_affinity_key name req s i b b' k held back g a =
      let below = get_elem?-below s.backends i b g in
      let direct = backend_index-key (length s.backends) i back below in
      rw (k, by_kind, held, direct) (affinity_home e.now i s.backends b b' below g a)
