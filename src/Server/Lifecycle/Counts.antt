-- ===== src/Server/Lifecycle/Counts.antt =====
-- How many instances are registered and closed.
use gorp.Prelude.{ℕ, ◌+◌, ◌≡◌, Bool, List, [], ◌∷◌, ◌++◌, map, arith, if◌then◌else◌}
use gorp.Server.Lifecycle.{
  Kind, http, http3, httpmulti, tcp, Instance, Server, append_to, registered,
}

-- How many pass the test. Two lists that agree on every test are permutations of each other.
abbrev pub count {ℓ} : {A : Type ℓ} → (A → Bool) → List A → ℕ
count p [] = 0
count p (x ∷ xs) = (if p x then 1 else 0) + count p xs

pub count-append {ℓ} :
    {A : Type ℓ} (p : A → Bool) (xs ys : List A) → count p (xs ++ ys) ≡ count p xs + count p ys
count-append p [] ys = omega arith
count-append p (x ∷ xs) ys = omega (arith, count-append p xs ys)

count-map-append :
    (p : Instance → Bool) (k : Kind) (xs : List ℕ) (i : ℕ)
    → count p (map (λ j. (k, j)) (xs ++ i ∷ []))
      ≡ count p (map (λ j. (k, j)) xs) + count p ((k, i) ∷ [])
count-map-append p k [] i = omega arith
count-map-append p k (x ∷ xs) i = omega (arith, count-map-append p k xs i)

count-registered :
    (p : Instance → Bool) (s : Server)
    → count p (registered s)
      ≡ count p (map (λ i. (http, i)) s.http_servers)
        + count p (map (λ i. (httpmulti, i)) s.httpmulti_servers)
        + count p (map (λ i. (http3, i)) s.http3_servers)
        + count p (map (λ i. (tcp, i)) s.tcp_listeners)
unfolding registered
count-registered p s = simp (count-append)

-- What is still open.
abbrev pub open_ones : Server → List Instance
open_ones s = if s.stopped then [] else registered s

pub count-registered-append_to :
    (p : Instance → Bool) (k : Kind) (i : ℕ) (s : Server)
    → count p (registered (append_to k i s)) ≡ count p (registered s) + count p ((k, i) ∷ [])
unfolding append_to
count-registered-append_to p http i s = omega (
  arith,
  count-registered p (append_to http i s),
  count-registered p s,
  count-map-append p http s.http_servers i,
)
count-registered-append_to p http3 i s = omega (
  arith,
  count-registered p (append_to http3 i s),
  count-registered p s,
  count-map-append p http3 s.http3_servers i,
)
count-registered-append_to p httpmulti i s = omega (
  arith,
  count-registered p (append_to httpmulti i s),
  count-registered p s,
  count-map-append p httpmulti s.httpmulti_servers i,
)
count-registered-append_to p tcp i s = omega (
  arith,
  count-registered p (append_to tcp i s),
  count-registered p s,
  count-map-append p tcp s.tcp_listeners i,
)
