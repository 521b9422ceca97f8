-- ===== src/Selector/Tests.antt =====
-- Runs of pkg/selector, and its theorems at concrete inputs.
use gorp.Prelude.{
  ℕ, ◌≡◌, ◌≢◌, refl, true, false, List, [], ◌∷◌, none, some, arith, pos, String, All,
}
use gorp.Http.{Request}
use gorp.Backend.{Backend, closed, opened, half_open, available}
use gorp.Selector.{chosen, round_robin, least_connections, first_alive}
use gorp.Selector.Factory.{
  Env, by_header, first_one, Selector, select, backend_affinity_key, new, in_turn,
}
use gorp.Value.{end}
use gorp.Selector.Sound.{IsSound}
use gorp.Selector.Strategies.{IsRandom}
use gorp.Selector.Least.{IsLeast, least_connections-IsLeast}
use gorp.Selector.Next.{IsNext, Advanced, round_robin-IsNext}
use gorp.Selector.Select.{IsValid, select-IsSound, select-backend_affinity_key}
use gorp.Selector.Stuck.{IsProbing, picks, unchosen_probe_lost}

abbrev backend : String → ℕ → Backend
backend name active = record {
  name = name;
  url_host = some name;
  max_connections = pos 9;
  health_check_path = "";
  active = active;
  healthy = true;
  retry_after = 0;
  failure_count = 0;
  breaker = closed;
}

abbrev down : Backend
down = record (backend "down" 0) { healthy = false; breaker = opened; retry_after = 50 }

abbrev pool : List Backend
pool = backend "a" 3 ∷ down ∷ backend "c" 1 ∷ []

abbrev dice : ℕ → ℕ → ℕ
dice k n = 0

dice-IsRandom : IsRandom dice
dice-IsRandom k n h = h

abbrev env : Env
env = record {
  now = 60;
  rand = dice;
  sum32 = λ s. 7;
  itoa = λ n. "1";
  atoi = λ s. some (pos 1);
  cookie = λ name req. none;
  header = λ name req. "__gorp_backend_index:1";
  query = λ name req. "";
  split_host = λ s. none;
  to_lower = λ s. s;
}

abbrev req : Request
req = record { method = "GET"; path = "/"; host = "h"; remote_addr = "10.0.0.9:1"; header = [] }

abbrev first : Selector
first = record { kind = first_one; backends = pool; index = 0 }

first-IsValid : IsValid first
first-IsValid = record { inside = λ h. omega arith; small = omega arith }

kind_default : (new env "RR" end pool).kind ≡ in_turn
unfolding new
kind_default = refl

round_robin-IsNext_example :
    IsNext 20 pool 2 (round_robin 20 2 pool).2
    × Advanced 3 (round_robin 20 2 pool).0 (round_robin 20 2 pool).2
round_robin-IsNext_example = round_robin-IsNext 20 2 pool (omega arith)

least_connections-IsLeast_example : IsLeast 20 pool (least_connections dice 20 pool).1
least_connections-IsLeast_example =
    least_connections-IsLeast dice dice-IsRandom 20 pool first-IsValid.small

select-IsSound_example : IsSound 60 pool (select env req first).1
select-IsSound_example = select-IsSound env dice-IsRandom req first first-IsValid

select-backend_affinity_key_example :
    (select env req (record first { kind = by_header "Affinity" })).1 ≡ chosen 1
unfolding backend_affinity_key available
select-backend_affinity_key_example =
    select-backend_affinity_key env "Affinity" req (record first { kind = by_header "Affinity" }) 1
      down (record down { healthy = true; breaker = half_open }) refl refl refl refl refl

unchosen_probe_lost_example :
    IsProbing 1 (select env req first).0.backends
    × All (λ p. p ≢ chosen 1) (picks ((env, req) ∷ (env, req) ∷ []) (select env req first).0)
unchosen_probe_lost_example =
    unchosen_probe_lost env req first 1 down ((env, req) ∷ (env, req) ∷ []) refl first-IsValid refl
      refl refl (omega arith) (dice-IsRandom, (dice-IsRandom, tt))

-- The first backend is chosen, and the second one is left half-open.
first_alive_skips : (select env req first).1 ≡ chosen 0
unfolding select available first_alive
first_alive_skips = refl
