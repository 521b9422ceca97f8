-- ===== src/Routing/RateLimiter.antt =====
-- builtin_rate_limiter.go of pkg/routing. The buckets are an association list; the mutex makes each
-- call of `allow` one step. Times are nanoseconds since a start, so a reset before the start is
-- the start itself, which has passed as well.
pub mod Window
use gorp.Prelude.{
  ℕ, suc, ◌+◌, ◌-◌, String, Bool, true, false, ◌&&◌, ◌||◌, not, List, [], ◌∷◌, Option, none, some,
  ltb, leb, ℤ, pos, leb_ℤ, ltb_ℤ, pos_part, neg_part, if◌then◌else◌, is_empty, str_eq,
}
use gorp.Http.{Request}
use gorp.Routing.{Handler, Middleware, matches_any_path}

pub record Bucket : Type 0 where
  pub count : ℕ
  pub reset_time : ℕ

abbrev pub Buckets : Type 0
Buckets = List (String × Bucket)

pub record Limiter : Type 0 where
  pub buckets : Buckets
  pub window : ℤ
  pub max_requests : ℤ
  -- none is the zero time
  pub next_cleanup : Option ℕ
  pub cleanup_interval : ℤ

abbrev pub minute : ℤ
minute = pos 60000000000

unfoldable pub new_rate_limiter : ℤ → ℤ → Limiter
new_rate_limiter max_requests window = record {
  buckets = [];
  window = window;
  max_requests = max_requests;
  next_cleanup = none;
  cleanup_interval = if leb_ℤ window (pos 0) || ltb_ℤ minute window then minute else window;
}

-- now.Add(d)
abbrev pub add_time : ℕ → ℤ → ℕ
add_time now d = (now + pos_part d) - neg_part d

-- now.Before(bucket.resetTime)
abbrev pub is_live : ℕ → Bucket → Bool
is_live now b = ltb now b.reset_time

unfoldable pub delete_expired : ℕ → Buckets → Buckets
delete_expired now [] = []
delete_expired now ((k, b) ∷ rest) =
    let kept = delete_expired now rest in if is_live now b then (k, b) ∷ kept else kept

unfoldable pub find : String → Buckets → Option Bucket
find key [] = none
find key ((k, b) ∷ rest) = if str_eq k key then some b else find key rest

unfoldable pub put : String → Bucket → Buckets → Buckets
put key b [] = (key, b) ∷ []
put key b ((k, c) ∷ rest) = if str_eq k key then (k, b) ∷ rest else (k, c) ∷ put key b rest

abbrev pub is_due : ℕ → Option ℕ → Bool
is_due now none = true
is_due now (some t) = leb t now

unfoldable pub clean_up : ℕ → Limiter → Limiter
unfolding delete_expired
clean_up now l =
    if is_due now l.next_cleanup
    then record l {
      buckets = delete_expired now l.buckets;
      next_cleanup = some (add_time now l.cleanup_interval);
    }
    else l

abbrev pub new_bucket : ℕ → Limiter → Bucket
new_bucket now l = record { count = 1; reset_time = add_time now l.window }

-- The bucket of the key after the call, and the answer.
unfoldable pub count_in : ℕ → Limiter → Option Bucket → Bucket × Bool
count_in now l none = (new_bucket now l, true)
count_in now l (some b) =
    if is_live now b
    then (record b { count = suc b.count }, leb_ℤ (pos (suc b.count)) l.max_requests)
    else (new_bucket now l, true)

unfoldable pub allow : Limiter → String → ℕ → Limiter × Bool
unfolding clean_up count_in find put
allow l key now =
    let cleaned = clean_up now l in
    let counted = count_in now cleaned (find key cleaned.buckets) in
    (record cleaned { buckets = put key counted.0 cleaned.buckets }, counted.1)

abbrev pub host_or : (String → String) → String → Option String → String
host_or trim_space remote none = trim_space remote
host_or trim_space remote (some host) = host

-- The host of net.SplitHostPort, else the text without its outer white space.
unfoldable pub client_ip : (String → Option String) → (String → String) → String → String
client_ip split_host trim_space remote = host_or trim_space remote (split_host remote)

-- The middleware on one request: the limiter after it and the answer.
module _ (glob : String → String → Option Bool) (base : String → String)
    (split_host : String → Option String) (trim_space : String → String) {A : Type 0}
    (error : ℕ → A) where
  abbrev pub answer : Handler A → Request → Limiter × Bool → Limiter × A
  answer next req (l, true) = (l, next req)
  answer next req (l, false) = (l, error 429)

  unfoldable pub rate_limit : List String → Handler A → ℕ → Limiter → Request → Limiter × A
  unfolding matches_any_path allow client_ip
  rate_limit patterns next now l req =
      if not (is_empty patterns) && not (matches_any_path glob base patterns req.path)
      then (l, next req)
      else answer next req (allow l (client_ip split_host trim_space req.remote_addr) now)
