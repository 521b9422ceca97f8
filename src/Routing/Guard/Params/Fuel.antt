-- ===== src/Routing/Guard/Params/Fuel.antt =====
-- The loop of the parser ends: the size of the text is enough.
use Prim.Native.Char.{Char, code}
use Prim.Native.String.{[], ◌∷◌}
use gorp.Prelude.{
  ℕ, zero, suc, ◌≤◌, ◌<◌, ◌≡◌, refl, ◌==◌, String, Bool, Option, none, some, arith, Bool-cases, inl,
  inr, cut_at, before_first,
}
use gorp.Routing.Guard.Params.{
  trim_left, split_any, put_before, is_space, is_space_or_comma, is_key_end, Values, take_quoted,
  take_plain, take_value, take_key, turn, loop, size,
}

size-trim_left : (p : ℕ → Bool) (s : String) → size (trim_left p s) ≤ size s
unfolding trim_left size
size-trim_left p [] = omega arith
size-trim_left p (c ∷ s) = elim (Bool-cases (p (code c))) [
  | inl t ↦ rw t (omega (arith, size-trim_left p s))
  | inr f ↦ rw f (omega arith)
]

-- What is behind a split is shorter.
abbrev Shorter : {A : Type 0} → (A → String) → ℕ → Option A → Type 0
Shorter rest n none = Unit
Shorter rest n (some a) = size (rest a) < n

put_before-Shorter :
    (c : Char) (n : ℕ) (o : Option (String × ℕ × String))
    → Shorter (λ r. r.2) n o
    → Shorter (λ r. r.2) (suc n) (put_before c o)
put_before-Shorter c n none h = tt
put_before-Shorter c n (some r) h = omega (arith, h)

split_any-Shorter : (p : ℕ → Bool) (s : String) → Shorter (λ r. r.2) (size s) (split_any p s)
unfolding split_any size
split_any-Shorter p [] = tt
split_any-Shorter p (c ∷ s) = elim (Bool-cases (p (code c))) [
  | inl t ↦ rw t (omega arith)
  | inr f ↦ rw f (put_before-Shorter c (size s) (split_any p s) (split_any-Shorter p s))
]

before_first-Shorter :
    (c : Char) (n : ℕ) (o : Option (String × String))
    → Shorter (λ r. r.1) n o
    → Shorter (λ r. r.1) (suc n) (before_first c o)
before_first-Shorter c n none h = tt
before_first-Shorter c n (some r) h = omega (arith, h)

cut_at-Shorter : (sep : ℕ) (s : String) → Shorter (λ r. r.1) (size s) (cut_at sep s)
unfolding cut_at size
cut_at-Shorter sep [] = tt
cut_at-Shorter sep (c ∷ s) = elim (Bool-cases (code c == sep)) [
  | inl t ↦ rw t (omega arith)
  | inr f ↦ rw f (before_first-Shorter c (size s) (cut_at sep s) (cut_at-Shorter sep s))
]

module _ (trim_space : String → String) where
  -- Two continuations that agree on the texts of at most n characters
  module _ (k l : String → Values → Values) (n : ℕ)
      (agree : (h : String) (v : Values) → size h ≤ n → k h v ≡ l h v) where
    agree_after :
        (p : ℕ → Bool) (h : String) (v : Values)
        → size h ≤ n
        → k (trim_left p h) v ≡ l (trim_left p h) v
    agree_after p h v small = agree (trim_left p h) v (omega (arith, small, size-trim_left p h))

    agree_quoted :
        (key : String) (v : Values) (m : ℕ) (o : Option (String × String))
        → m ≤ n
        → Shorter (λ r. r.1) m o
        → take_quoted trim_space k key v o ≡ take_quoted trim_space l key v o
    agree_quoted key v m none below h = refl
    agree_quoted key v m (some (value, rest)) below h =
        agree_after is_space_or_comma rest _ (omega (arith, h, below))

    agree_plain :
        (key header : String) (v : Values) (m : ℕ) (o : Option (String × String))
        → m ≤ n
        → Shorter (λ r. r.1) m o
        → take_plain trim_space k key header v o ≡ take_plain trim_space l key header v o
    unfolding size
    agree_plain key header v m none below h = agree [] _ (omega arith)
    agree_plain key header v m (some (value, rest)) below h =
        agree_after is_space_or_comma rest _ (omega (arith, h, below))

    agree_value :
        (key s : String) (v : Values)
        → size s ≤ n
        → take_value trim_space k key s v ≡ take_value trim_space l key s v
    unfolding size
    agree_value key [] v h = agree_plain key [] v 0 none (omega arith) tt
    agree_value key (c ∷ s) v h = elim (Bool-cases (code c == b'"')) [
      | inl quote ↦
          rw quote
            (agree_quoted key v (size s) (cut_at b'"' s) (omega (arith, h)) (cut_at-Shorter b'"' s))
      | inr other ↦ rw other (
          agree_plain key (c ∷ s) v (size (c ∷ s)) (cut_at b',' (c ∷ s)) h
            (cut_at-Shorter b',' (c ∷ s)))
    ]

    agree_key :
        (v : Values) (m : ℕ) (o : Option (String × ℕ × String))
        → m ≤ suc n
        → Shorter (λ r. r.2) m o
        → take_key trim_space k v o ≡ take_key trim_space l v o
    agree_key v m none below h = refl
    agree_key v m (some (before, sep, after)) below h = elim (Bool-cases (sep == b'=')) [
      | inl value ↦ rw value (
          agree_value (trim_space before) (trim_left is_space after) v
            (omega (arith, h, below, size-trim_left is_space after)))
      | inr other ↦ rw other (agree_after is_space_or_comma after v (omega (arith, h, below)))
    ]

    turn-agree :
        (h : String) (v : Values) → size h ≤ suc n → turn trim_space k h v ≡ turn trim_space l h v
    unfolding turn
    turn-agree h v small =
        agree_key v (size (trim_left is_space h)) (split_any is_key_end (trim_left is_space h))
          (omega (arith, small, size-trim_left is_space h))
          (split_any-Shorter is_key_end (trim_left is_space h))

  loop_enough :
      (n m : ℕ) (h : String) (v : Values)
      → size h ≤ n
      → size h ≤ m
      → loop trim_space n h v ≡ loop trim_space m h v
  unfolding loop size
  loop_enough n m [] v a b = refl
  loop_enough zero m (c ∷ s) v a b = elim a [ ]
  loop_enough (suc n) zero (c ∷ s) v a b = elim b [ ]
  loop_enough (suc n) (suc m) (c ∷ s) v a b =
      turn-agree (loop trim_space n) (loop trim_space m) (size s)
        (λ h w small. loop_enough n m h w (omega (arith, small, a)) (omega (arith, small, b)))
        (c ∷ s) v (omega arith)

  -- The loop with the fuel that a text needs
  abbrev pub run : String → Values → Values
  run h v = loop trim_space (size h) h v

  -- With the size of the text as fuel, the loop is the loop without a bound: it stops on the empty text,
  -- and on any other it does one turn and goes on in the same way with what the turn leaves.
  pub run-turn :
      (c : Char) (s : String) (v : Values) → run (c ∷ s) v ≡ turn trim_space run (c ∷ s) v
  unfolding loop size
  run-turn c s v =
      turn-agree (loop trim_space (size s)) run (size s)
        (λ h w small. loop_enough (size s) (size h) h w small (omega arith)) (c ∷ s) v (omega arith)
