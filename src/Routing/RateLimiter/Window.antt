-- ===== src/Routing/RateLimiter/Window.antt =====
-- The quota of a client over one window of the rate limiter, whoever else sends requests.
use gorp.Prelude.{
  ℕ, suc, ◌+◌, ◌-◌, ◌<◌, ◌≡◌, refl, String, Bool, true, false, ◌&&◌, List, [], ◌∷◌, Option, none,
  some, inl, inr, leb, ℤ, pos, pos_part, leb_ℤ, if◌then◌else◌, arith, str_eq, str_eq_iff,
  Bool-cases, All,
}
use gorp.Routing.RateLimiter.{
  Bucket, Buckets, Limiter, allow, clean_up, count_in, find, put, delete_expired, is_live,
  new_bucket, add_time, is_due,
}

str_eq_refl : (s : String) → str_eq s s ≡ true
str_eq_refl s = (str_eq_iff s s).1 refl

pub find-put : (k : String) (b : Bucket) (bs : Buckets) → find k (put k b bs) ≡ some b
unfolding find put
find-put k b [] = rw (str_eq_refl k) refl
find-put k b ((j, c) ∷ bs) = elim (Bool-cases (str_eq j k)) [
  | inl e ↦ rw (e, e) refl
  | inr e ↦ rw (e, e) (find-put k b bs)
]

pub find-put-other :
    (k j : String) (b : Bucket) (bs : Buckets)
    → str_eq j k ≡ false
    → find k (put j b bs) ≡ find k bs
unfolding find put
find-put-other k j b [] h = rw h refl
find-put-other k j b ((i, c) ∷ bs) h = elim (Bool-cases (str_eq i j)) [
  | inl e ↦ let same : i ≡ j = (str_eq_iff i j).0 e in rw (e, same, h) refl
  | inr e ↦ rw (e, find-put-other k j b bs h) refl
]

-- The clean-up keeps a live bucket.
find-delete_expired :
    (k : String) (now : ℕ) (b : Bucket) (bs : Buckets)
    → find k bs ≡ some b
    → is_live now b ≡ true
    → find k (delete_expired now bs) ≡ some b
unfolding find delete_expired
find-delete_expired k now b [] h live = cc
find-delete_expired k now b ((j, c) ∷ bs) h live = elim (Bool-cases (str_eq j k)) [
  | inl e ↦
      let same : c ≡ b = cc (rw e at h) in
      let kept : is_live now c ≡ true = rw same live in rw (kept, e) (cc same)
  | inr e ↦ elim (Bool-cases (is_live now c)) [
    | inl kept ↦ rw (kept, e) (find-delete_expired k now b bs (rw e at h) live)
    | inr gone ↦ rw gone (find-delete_expired k now b bs (rw e at h) live)
  ]
]

-- No live bucket of the client is there.
abbrev pub IsFree : String → ℕ → Buckets → Type 0
IsFree k now bs = find k (delete_expired now bs) ≡ none

abbrev IsExpired : ℕ → Option Bucket → Type 0
IsExpired now none = Unit
IsExpired now (some b) = is_live now b ≡ false

IsFree-IsExpired :
    (k : String) (now : ℕ) (bs : Buckets) → IsFree k now bs → IsExpired now (find k bs)
unfolding find delete_expired
IsFree-IsExpired k now [] h = tt
IsFree-IsExpired k now ((j, c) ∷ bs) h = elim (Bool-cases (is_live now c)) [
  | inl kept ↦ elim (Bool-cases (str_eq j k)) [
    | inl e ↦ absurd (cc (rw (kept, e) at h))
    | inr e ↦ rw e (IsFree-IsExpired k now bs (rw (kept, e) at h))
  ]
  | inr gone ↦ elim (Bool-cases (str_eq j k)) [
    | inl e ↦ rw e gone
    | inr e ↦ rw e (IsFree-IsExpired k now bs (rw gone at h))
  ]
]

clean_up-IsExpired :
    (k : String) (now : ℕ) (l : Limiter)
    → IsFree k now l.buckets
    → IsExpired now (find k (clean_up now l).buckets)
unfolding clean_up find
clean_up-IsExpired k now l h = elim (Bool-cases (is_due now l.next_cleanup)) [
  | inl e ↦ rw (e, h) tt
  | inr e ↦ rw e (IsFree-IsExpired k now l.buckets h)
]

find-clean_up :
    (k : String) (now : ℕ) (b : Bucket) (l : Limiter)
    → find k l.buckets ≡ some b
    → is_live now b ≡ true
    → find k (clean_up now l).buckets ≡ some b
unfolding clean_up
find-clean_up k now b l h live = elim (Bool-cases (is_due now l.next_cleanup)) [
  | inl e ↦ rw e (find-delete_expired k now b l.buckets h live)
  | inr e ↦ rw e h
]

clean_up-limits :
    (now : ℕ) (l : Limiter)
    → ((clean_up now l).window ≡ l.window) × ((clean_up now l).max_requests ≡ l.max_requests)
unfolding clean_up
clean_up-limits now l = elim (Bool-cases (is_due now l.next_cleanup)) [
  | inl e ↦ rw e (refl, refl)
  | inr e ↦ rw e (refl, refl)
]

-- One call on a live bucket counts, and one on a free key opens a bucket.
allow-live :
    (k : String) (now : ℕ) (b : Bucket) (l : Limiter)
    → find k l.buckets ≡ some b
    → is_live now b ≡ true
    → (find k (allow l k now).0.buckets ≡ some (record b { count = suc b.count }))
      × ((allow l k now).1 ≡ leb_ℤ (pos (suc b.count)) l.max_requests)
unfolding allow count_in
allow-live k now b l h live =
    rw (find-clean_up k now b l h live, live)
      (
        find-put k (record b { count = suc b.count }) (clean_up now l).buckets,
        rw (clean_up-limits now l).1 refl,
      )

opened_bucket :
    (now : ℕ) (c : Limiter) (o : Option Bucket)
    → IsExpired now o
    → count_in now c o ≡ (new_bucket now c, true)
unfolding count_in
opened_bucket now c none h = refl
opened_bucket now c (some b) h = rw h refl

allow-free :
    (k : String) (now : ℕ) (l : Limiter)
    → IsFree k now l.buckets
    → (find k (allow l k now).0.buckets ≡ some (new_bucket now l)) × ((allow l k now).1 ≡ true)
unfolding allow
allow-free k now l h =
    let opens =
      opened_bucket now (clean_up now l) (find k (clean_up now l).buckets)
        (clean_up-IsExpired k now l h) in
    rw (opens, find-put k (new_bucket now (clean_up now l)) (clean_up now l).buckets)
      (rw (clean_up-limits now l).0 refl, refl)

allow-other :
    (k j : String) (now : ℕ) (b : Bucket) (l : Limiter)
    → str_eq j k ≡ false
    → find k l.buckets ≡ some b
    → is_live now b ≡ true
    → find k (allow l j now).0.buckets ≡ some b
unfolding allow
allow-other k j now b l other h live =
    rw
      (find-put-other k j (count_in now (clean_up now l) (find j (clean_up now l).buckets)).0
        (clean_up now l).buckets other)
      (find-clean_up k now b l h live)

allow-max : (k : String) (now : ℕ) (l : Limiter) → (allow l k now).0.max_requests ≡ l.max_requests
unfolding allow
allow-max k now l = (clean_up-limits now l).1

-- Of the requests, each a client and a time: how many the client k sends, and how many of those
-- are allowed.
abbrev pub one_if : Bool → ℕ
one_if true = 1
one_if false = 0

pub asked : String → List (String × ℕ) → ℕ
asked k [] = 0
asked k ((j, now) ∷ rest) = one_if (str_eq j k) + asked k rest

pub allowed : String → Limiter → List (String × ℕ) → ℕ
unfolding allow
allowed k l [] = 0
allowed k l ((j, now) ∷ rest) =
    one_if (str_eq j k && (allow l j now).1) + allowed k (allow l j now).0 rest

abbrev pub min : ℕ → ℕ → ℕ
min a b = if leb a b then a else b

abbrev pub IsBefore : ℕ → List (String × ℕ) → Type 0
IsBefore end = All λ r. r.1 < end

one_more :
    (c n : ℕ) (m : ℤ)
    → one_if (leb_ℤ (pos (suc c)) m) + min n (pos_part m - suc c) ≡ min (1 + n) (pos_part m - c)
one_more c n (pos m) = ground arith
one_more c n (ℤ.negsuc m) = ground arith

allowed-live :
    (k : String) (b : Bucket) (l : Limiter) (rs : List (String × ℕ))
    → find k l.buckets ≡ some b
    → IsBefore b.reset_time rs
    → allowed k l rs ≡ min (asked k rs) (pos_part l.max_requests - b.count)
unfolding allowed asked
allowed-live k b l [] h before = ground arith
allowed-live k b l ((j, now) ∷ rs) h (first, before) =
    let live : is_live now b ≡ true = ground arith in
    elim (Bool-cases (str_eq j k)) [
      | inl e ↦
          let same : j ≡ k = (str_eq_iff j k).0 e in
          let step = allow-live k now b l h live in
          let rest =
            allowed-live k (record b { count = suc b.count }) (allow l k now).0 rs step.0 before in
          rw (same, str_eq_refl k, step.1, rest, allow-max k now l)
            (one_more b.count (asked k rs) l.max_requests)
      | inr e ↦
          rw
            (
              e,
              allowed-live k b (allow l j now).0 rs (allow-other k j now b l e h live) before,
              allow-max j now l,
            )
            (ground arith)
    ]

-- From the first request of a client that has no live bucket, over any requests of any clients at
-- times before the end of the window that it opens, the client is allowed every request until its
-- quota is reached and none after it. The quota is max_requests, and one where that is below one.
pub allowed-window :
    (k : String) (start : ℕ) (l : Limiter) (rs : List (String × ℕ))
    → IsFree k start l.buckets
    → IsBefore (add_time start l.window) rs
    → allowed k l ((k, start) ∷ rs) ≡ min (1 + asked k rs) (1 + (pos_part l.max_requests - 1))
unfolding allowed
allowed-window k start l rs free before =
    let opens = allow-free k start l free in
    rw
      (
        str_eq_refl k,
        opens.1,
        allowed-live k (new_bucket start l) (allow l k start).0 rs opens.0 before,
        allow-max k start l,
      )
      (ground arith)
