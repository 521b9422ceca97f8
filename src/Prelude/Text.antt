-- ===== src/Prelude/Text.antt =====
-- Tests on texts. A Go string is modelled by the native `String`.
use Prim.Native.Char.{Char, code}
use Prim.Native.Nat.{ℕ}
use Prim.Native.String.{String, [], ◌∷◌, ◌++◌}
use mathlib.Core.Path.{◌≡◌, refl, ap}
use mathlib.Core.Bool.{Bool, true, false, ◌||◌}
use mathlib.Core.List.{List}
use mathlib.Core.Option.{Option, none, some}
use mathlib.Core.Logic.{inl, inr, ◌↔◌}
use text.Mathlib.Text.{◌==◌ as text_eq}
use text.Mathlib.TextEquality.{Char-path, eq_iff}
use text.Mathlib.TextLemmas.{nil-append, cons-append}
use gorp.Prelude.Tests.{◌==◌, if◌then◌else◌, is_some, Bool-cases, Option-cases, ==_iff}

-- `a == b` on strings.
abbrev pub str_eq : String → String → Bool
str_eq a b = text_eq a b

pub str_eq_iff : (a b : String) → (str_eq a b ≡ true) ↔ (a ≡ b)
str_eq_iff = eq_iff

-- Membership in a `map[string]bool` literal or in a `case` list.
abbrev pub one_of : String → List String → Bool
one_of s List.[] = false
one_of s (List.◌∷◌ t ts) = str_eq s t || one_of s ts

-- strings.CutPrefix: what follows the prefix, where the text has it.
unfoldable pub cut_prefix : String → String → Option String
cut_prefix [] s = some s
cut_prefix (c ∷ p) [] = none
cut_prefix (c ∷ p) (d ∷ s) = if code c == code d then cut_prefix p s else none

-- strings.HasPrefix(s, p)
unfoldable pub has_prefix : String → String → Bool
has_prefix s p = is_some (cut_prefix p s)

abbrev or_whole : String → Option String → String
or_whole s none = s
or_whole s (some r) = r

-- strings.TrimPrefix(s, p)
unfoldable pub trim_prefix : String → String → String
trim_prefix s p = or_whole s (cut_prefix p s)

pub cut_prefix-append : (p s : String) → cut_prefix p (p ++ s) ≡ some s
unfolding cut_prefix
cut_prefix-append [] s = ap some (nil-append s)
cut_prefix-append (c ∷ p) s =
    rw (cons-append c p s, cut_prefix)
      (rw ((==_iff (code c) (code c)).1 refl) (cut_prefix-append p s))

pub cut_prefix-eq-some : (p s r : String) → cut_prefix p s ≡ some r → s ≡ p ++ r
unfolding cut_prefix
cut_prefix-eq-some [] s r e = cc (nil-append r)
cut_prefix-eq-some (c ∷ p) [] r e = cc
cut_prefix-eq-some (c ∷ p) (d ∷ s) r e = elim (Bool-cases (code c == code d)) [
  | inl same ↦
      let first : c ≡ d = Char-path c d ((==_iff (code c) (code d)).0 same) in
      let rest : s ≡ p ++ r = cut_prefix-eq-some p s r (rw same at e) in cc (cons-append c p r)
  | inr other ↦ absurd (cc (rw other at e))
]

pub trim_prefix-append : (p s : String) → trim_prefix (p ++ s) p ≡ s
unfolding trim_prefix
trim_prefix-append p s = rw (cut_prefix-append p s)

pub has_prefix-append : (p s : String) → has_prefix (p ++ s) p ≡ true
unfolding has_prefix
has_prefix-append p s = rw (cut_prefix-append p s)

abbrev pub before_first : Char → Option (String × String) → Option (String × String)
before_first c none = none
before_first c (some (a, b)) = some (c ∷ a, b)

-- strings.SplitN(s, sep, 2) at a separator of one character: the two parts, where the text has it.
unfoldable pub cut_at : ℕ → String → Option (String × String)
cut_at sep [] = none
cut_at sep (c ∷ s) =
    let rest = cut_at sep s in if code c == sep then some ([], s) else before_first c rest

not_cut : (d : Char) (o : Option (String × String)) → before_first d o ≡ none → o ≡ none
not_cut d none h = refl
not_cut d (some p) h = absurd (cc h)

-- A text without the separator, then the separator.
pub cut_at-append :
    (c : Char) (a s : String)
    → cut_at (code c) a ≡ none
    → cut_at (code c) (a ++ (c ∷ s)) ≡ some (a, s)
unfolding cut_at
cut_at-append c [] s h = rw (nil-append (c ∷ s), (==_iff (code c) (code c)).1 refl) refl
cut_at-append c (d ∷ a) s h = elim (Bool-cases (code d == code c)) [
  | inl same ↦ absurd (cc (rw same at h))
  | inr other ↦
      let none_left = not_cut d (cut_at (code c) a) (rw other at h) in
      rw (cons-append d a (c ∷ s), cut_at, other, cut_at-append c a s none_left) refl
]

pub has_prefix-nil : (c : Char) (p : String) → has_prefix [] (c ∷ p) ≡ false
unfolding has_prefix cut_prefix
has_prefix-nil c p = refl

pub cut_at-between :
    (c : Char) (a s : String)
    → cut_at (code c) a ≡ none
    → cut_at (code c) (a ++ ((c ∷ []) ++ s)) ≡ some (a, s)
cut_at-between c a s h = rw (cons-append c [] s, nil-append s) (cut_at-append c a s h)

pub has_prefix-split : (s p : String) → has_prefix s p ≡ true → s ≡ p ++ trim_prefix s p
unfolding has_prefix trim_prefix
has_prefix-split s p h = elim (Option-cases (cut_prefix p s)) [
  | inl missing ↦ absurd (cc (rw missing at h))
  | inr (r, cut) ↦ rw cut (cut_prefix-eq-some p s r cut)
]
