-- ===== src/Config/Names.antt =====
-- What an accepted configuration says about names: they are set, they differ, and every reference
-- leads to one.
use gorp.Prelude.{
  ℕ, zero, suc, ◌≡◌, refl, ap, ◌≢◌, String, Bool, true, false, List, [], ◌∷◌, ◌++◌, some, inl, inr,
  get_elem?, All, Bool-cases, str_eq, str_eq_iff, one_of,
}
use gorp.Config.Check.{Place, Message, Problem, report, all_of, is_unset, member}
use gorp.Config.Validate.{check_name}

pub clean-append : {A : Type 0} (xs ys : List A) → xs ++ ys ≡ [] → (xs ≡ []) × (ys ≡ [])
clean-append [] ys h = (refl, h)
clean-append (x ∷ xs) ys h = cc

pub clean-All : (pss : List (List Problem)) → all_of pss ≡ [] → All (λ ps. ps ≡ []) pss
unfolding all_of
clean-All [] h = tt
clean-All (ps ∷ rest) h =
    let (first, others) = clean-append ps (all_of rest) h in (first, clean-All rest others)

pub clean_report : (c : Bool) (p : Place) (m : Message) → report c p m ≡ [] → c ≡ false
unfolding report
clean_report true p m h = cc
clean_report false p m h = refl

-- A text is a member of the list.
abbrev pub Listed : String → List String → Type 0
Listed s names = (i : ℕ) × (get_elem? names i ≡ some s)

pub one_of-Listed : (s : String) (names : List String) → one_of s names ≡ true → Listed s names
one_of-Listed s [] h = cc
one_of-Listed s (n ∷ ns) h = elim (Bool-cases (str_eq s n)) [
  | inl e ↦ let same : s ≡ n = (str_eq_iff s n).0 e in (zero, cc same)
  | inr e ↦ let (i, at) = one_of-Listed s ns (rw e at h) in (suc i, at)
]

pub Listed-one_of :
    (s : String) (names : List String) (i : ℕ) → get_elem? names i ≡ some s → one_of s names ≡ true
Listed-one_of s [] i h = cc
Listed-one_of s (n ∷ ns) zero h = let same : s ≡ n = cc in rw ((str_eq_iff s n).1 same) refl
Listed-one_of s (n ∷ ns) (suc i) h = elim (Bool-cases (str_eq s n)) [
  | inl e ↦ rw e refl
  | inr e ↦ rw e (Listed-one_of s ns i h)
]

-- No name is empty and no two are the same.
abbrev pub AreNames : List String → Type 0
AreNames names =
    All (λ n. n ≢ "") names
    × ((i j : ℕ) (n : String) → get_elem? names i ≡ some n → get_elem? names j ≡ some n → i ≡ j)

-- The names that the loop of a section passes, `taken` before them.
abbrev pub Fresh : List String → List String → Type 0
Fresh taken [] = Unit
Fresh taken (n ∷ ns) = (n ≢ "") × (one_of n taken ≡ false) × Fresh (n ∷ taken) ns

pub clean_name :
    (p : Place) (name : String) (taken : List String)
    → check_name p name taken ≡ []
    → (name ≢ "") × (one_of name taken ≡ false)
unfolding check_name
clean_name p name taken h = elim (Bool-cases (is_unset name)) [
  | inl e ↦ cc (rw e at h)
  | inr e ↦ (
    λ same. cc (e, (str_eq_iff name "").1 same),
    clean_report (one_of name taken) (member "name" p) Message.duplicated (rw e at h),
  )
]

Fresh-taken :
    (taken names : List String) (i : ℕ) (n : String)
    → Fresh taken names
    → get_elem? names i ≡ some n
    → one_of n taken ≡ false
Fresh-taken taken [] i n f h = cc
Fresh-taken taken (m ∷ ms) zero n (set, new, f) h = let same : m ≡ n = cc in rw same at new
Fresh-taken taken (m ∷ ms) (suc i) n (set, new, f) h = elim (Bool-cases (str_eq n m)) [
  | inl e ↦ cc (rw e at (Fresh-taken (m ∷ taken) ms i n f h))
  | inr e ↦ rw e at (Fresh-taken (m ∷ taken) ms i n f h)
]

not_later :
    (n : String) (taken ns : List String) (i : ℕ) → Fresh (n ∷ taken) ns → get_elem? ns i ≢ some n
not_later n taken ns i f h =
    cc (Listed-one_of n (n ∷ taken) zero refl, Fresh-taken (n ∷ taken) ns i n f h)

distinct :
    (taken names : List String) (i j : ℕ) (n : String)
    → Fresh taken names
    → get_elem? names i ≡ some n
    → get_elem? names j ≡ some n
    → i ≡ j
distinct taken [] i j n f h k = cc
distinct taken (m ∷ ms) zero zero n f h k = refl
distinct taken (m ∷ ms) zero (suc j) n (set, new, f) h k =
    let same : m ≡ n = cc in absurd (not_later m taken ms j f (cc (k, same)))
distinct taken (m ∷ ms) (suc i) zero n (set, new, f) h k =
    let same : m ≡ n = cc in absurd (not_later m taken ms i f (cc (h, same)))
distinct taken (m ∷ ms) (suc i) (suc j) n (set, new, f) h k =
    ap suc (distinct (m ∷ taken) ms i j n f h k)

All-set : (taken names : List String) → Fresh taken names → All (λ n. n ≢ "") names
All-set taken [] f = tt
All-set taken (n ∷ ns) (set, new, f) = (set, All-set (n ∷ taken) ns f)

pub Fresh-AreNames : (taken names : List String) → Fresh taken names → AreNames names
Fresh-AreNames taken names f =
    (All-set taken names f, λ i j n h k. distinct taken names i j n f h k)
