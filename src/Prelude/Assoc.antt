-- ===== src/Prelude/Assoc.antt =====
-- Maps with texts as keys, as association lists.
use Prim.Native.String.{String}
use mathlib.Core.Bool.{false}
use mathlib.Core.Path.{◌≡◌, refl, ap, ◌∙◌, subst}
use mathlib.Core.List.{List, [], ◌∷◌}
use mathlib.Core.Logic.{inl, inr}
use mathlib.Core.Option.{Option, none, some, some_inj}
use gorp.Prelude.Lists.{All}
use gorp.Prelude.Tests.{if◌then◌else◌, Bool-cases}
use gorp.Prelude.Text.{str_eq, str_eq_iff}

module _ {ℓ} {A : Type ℓ} where
  -- value, ok := m[key]
  unfoldable pub value_of : String → List (String × A) → Option A
  value_of k [] = none
  value_of k ((j, a) ∷ m) = if str_eq j k then some a else value_of k m

  -- m[key] = value
  unfoldable pub assign : String → A → List (String × A) → List (String × A)
  assign k a [] = (k, a) ∷ []
  assign k a ((j, b) ∷ m) = if str_eq j k then (k, a) ∷ m else (j, b) ∷ assign k a m

  -- delete(m, key)
  unfoldable pub remove : String → List (String × A) → List (String × A)
  remove k [] = []
  remove k ((j, b) ∷ m) = let rest = remove k m in if str_eq j k then rest else (j, b) ∷ rest

  pub value_of-assign :
      (k : String) (a : A) (m : List (String × A)) → value_of k (assign k a m) ≡ some a
  unfolding value_of assign
  value_of-assign k a [] = rw ((str_eq_iff k k).1 refl) refl
  value_of-assign k a ((j, b) ∷ m) = elim (Bool-cases (str_eq j k)) [
    | inl same ↦ rw same (rw ((str_eq_iff k k).1 refl) refl)
    | inr other ↦ rw other (rw other (value_of-assign k a m))
  ]

  pub value_of-assign_other :
      (k j : String) (a : A) (m : List (String × A))
      → str_eq j k ≡ false
      → value_of k (assign j a m) ≡ value_of k m
  unfolding value_of assign
  value_of-assign_other k j a [] apart = rw apart refl
  value_of-assign_other k j a ((i, b) ∷ m) apart = elim (Bool-cases (str_eq i j)) [
    | inl same ↦
        let far : str_eq i k ≡ false = ap (λ x. str_eq x k) ((str_eq_iff i j).0 same) ∙ apart in
        rw (same, far) (rw apart refl)
    | inr other ↦ elim (Bool-cases (str_eq i k)) [
      | inl here ↦ rw other (rw here refl)
      | inr there ↦ rw other (rw there (value_of-assign_other k j a m apart))
    ]
  ]

  module _ {κ} (P : String × A → Type κ) where
    pub All-assign :
        (k : String) (a : A) (m : List (String × A)) → P (k, a) → All P m → All P (assign k a m)
    unfolding assign
    All-assign k a [] p all = (p, tt)
    All-assign k a ((j, b) ∷ m) p (q, all) = elim (Bool-cases (str_eq j k)) [
      | inl same ↦ rw same (p, all)
      | inr other ↦ rw other (q, All-assign k a m p all)
    ]

    pub All-remove : (k : String) (m : List (String × A)) → All P m → All P (remove k m)
    unfolding remove
    All-remove k [] all = tt
    All-remove k ((j, b) ∷ m) (q, all) = elim (Bool-cases (str_eq j k)) [
      | inl same ↦ rw same (All-remove k m all)
      | inr other ↦ rw other (q, All-remove k m all)
    ]

    pub All-value_of :
        (k : String) (a : A) (m : List (String × A)) → value_of k m ≡ some a → All P m → P (k, a)
    unfolding value_of
    All-value_of k a [] h all = absurd (cc h)
    All-value_of k a ((j, b) ∷ m) h (q, all) = elim (Bool-cases (str_eq j k)) [
      | inl same ↦
          let found : b ≡ a = some_inj.0 (rw same at h) in
          subst (λ i. P (i, a)) ((str_eq_iff j k).0 same) (subst (λ x. P (j, x)) found q)
      | inr other ↦ All-value_of k a m (rw other at h) all
    ]
