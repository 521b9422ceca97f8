-- ===== src/Selector/Factory.antt =====
-- factory.go of pkg/selector and the affinity selectors' keys: a selector of each type, built from
-- its configuration and run on a request.
use Prim.Native.String
use gorp.Prelude.{
  ℕ, ◌%◌, String, List, [], ◌∷◌, Option, none, some, ltb, ◌==◌, ℤ, pos, negsuc, if◌then◌else◌,
  length, one_of, str_eq, has_prefix, trim_prefix,
}
use gorp.Http.{Request}
use gorp.Value.{Fields, parse_string_or_default}
use gorp.Backend.{Backend}
use gorp.Selector.{
  Pick, first_alive, random, least_connections, power_of_two_choices, affinity, round_robin,
}

-- What a selection takes from outside: the clock, rand.Intn, the FNV-1a sum of a key, strconv, the
-- request's cookie, header and query values, net.SplitHostPort and strings.ToLower.
pub record Env : Type 0 where
  pub now : ℕ
  pub rand : ℕ → ℕ → ℕ
  pub sum32 : String → ℕ
  pub itoa : ℕ → String
  pub atoi : String → Option ℤ
  pub cookie : String → Request → Option String
  pub header : String → Request → String
  pub query : String → Request → String
  pub split_host : String → Option String
  pub to_lower : String → String

pub data Kind : Type 0 where
  by_cookie by_header by_query : String → Kind
  by_ip first_one least_loaded two_choices at_random in_turn : Kind

pub record Selector : Type 0 where
  pub kind : Kind
  pub backends : List Backend
  -- of RoundRobinSelector only
  pub index : ℕ

unfoldable pub kind_of : String → Fields → Kind
kind_of type config =
    if str_eq type "cookie"
    then by_cookie (parse_string_or_default config "name" "SESSIONID")
    else if one_of type ("first-alive" ∷ "first" ∷ "alive" ∷ [])
    then first_one
    else if str_eq type "header"
    then by_header (parse_string_or_default config "name" "Affinity")
    else if one_of type ("ip" ∷ "source-ip" ∷ "sourceip" ∷ "ip-hash" ∷ "iphash" ∷ [])
    then by_ip
    else if one_of type
        ("leastconnection" ∷ "leastconnections" ∷ "least-connection" ∷ "least-connections" ∷ [])
    then least_loaded
    else if one_of type ("power-of-two" ∷ "poweroftwo" ∷ "p2c" ∷ [])
    then two_choices
    else if one_of type ("query" ∷ "query-param" ∷ "queryparam" ∷ [])
    then by_query (parse_string_or_default config "name" "SESSIONID")
    else if one_of type ("rand" ∷ "random" ∷ [])
    then at_random
    else in_turn

abbrev pub affinity_prefix : String
affinity_prefix = "__gorp_backend_index:"

module _ (e : Env) where
  -- New
  unfoldable pub new : String → Fields → List Backend → Selector
  unfolding kind_of
  new type config backends = record {
    kind = kind_of (e.to_lower type) config;
    backends = backends;
    index = 0;
  }

  -- hashIndex; `int` has 64 bits
  unfoldable pub hash_index : String → ℕ → ℕ
  hash_index key n = if n == 1 then 0 else e.sum32 key % n

  -- BackendAffinityKey
  unfoldable pub backend_affinity_key : ℕ → String
  backend_affinity_key index = String.◌++◌ affinity_prefix (e.itoa index)

  -- A key that is missing or empty is replaced by a random one.
  abbrev key_or_random : ℕ → String → String
  key_or_random n value = if str_eq value "" then e.itoa (e.rand 0 n) else value

  abbrev cookie_value : Option String → String
  cookie_value none = ""
  cookie_value (some v) = v

  abbrev host_or : String → Option String → String
  host_or address none = address
  host_or address (some host) = host

  direct_index : ℕ → Option ℤ → Option ℕ
  direct_index n none = none
  direct_index n (some (negsuc i)) = none
  direct_index n (some (pos i)) = if ltb i n then some i else none

  -- backendIndex of the header selector
  unfoldable pub backend_index : ℕ → String → Option ℕ
  unfolding direct_index
  backend_index n value =
      if has_prefix value affinity_prefix
      then direct_index n (e.atoi (trim_prefix value affinity_prefix))
      else none

  abbrev index_or : ℕ → Option ℕ → ℕ
  index_or i none = i
  index_or i (some direct) = direct

  -- The index at which an affinity selector over n backends begins.
  unfoldable pub home : Kind → ℕ → Request → ℕ
  unfolding hash_index backend_index
  home (by_cookie name) n req = hash_index (key_or_random n (cookie_value (e.cookie name req))) n
  home (by_header name) n req =
      index_or (hash_index (key_or_random n (e.header name req)) n)
        (backend_index n (e.header name req))
  home (by_query name) n req = hash_index (key_or_random n (e.query name req)) n
  home by_ip n req = hash_index (host_or req.remote_addr (e.split_host req.remote_addr)) n
  home _ n req = 0

  abbrev keep : Selector → List Backend × Pick → Selector × Pick
  keep s (pool, pick) = (record s { backends = pool }, pick)

  abbrev keep_index : Selector → ℕ × List Backend × Pick → Selector × Pick
  keep_index s (index, pool, pick) = (record s { backends = pool; index = index }, pick)

  unfoldable pub by_kind : Kind → Request → Selector → Selector × Pick
  by_kind first_one req s = keep s (first_alive e.now s.backends)
  by_kind least_loaded req s = keep s (least_connections e.rand e.now s.backends)
  by_kind two_choices req s = keep s (power_of_two_choices e.rand e.now s.backends)
  by_kind at_random req s = keep s (random e.rand e.now s.backends)
  by_kind in_turn req s = keep_index s (round_robin e.now s.index s.backends)
  by_kind kind req s = keep s (affinity e.now (home kind (length s.backends) req) s.backends)

  -- Select
  unfoldable pub select : Request → Selector → Selector × Pick
  unfolding by_kind
  select req s = by_kind s.kind req s
