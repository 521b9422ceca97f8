-- ===== src/Config/Sorting.antt =====
-- An instance of sort.Slice for the runs of the loader: the insertion sort.
use mathlib.Core.List.{Perm}
use mathlib.Core.List.Perm
use gorp.Prelude.{
  ◌≡◌, Bool, true, false, List, [], ◌∷◌, Bool-cases, inl, inr, if◌then◌else◌, All, All-map, arith,
}
use gorp.Config.{Route}
use gorp.Config.Load.{longer, Ordered, Sorts}

abbrev insert : (Route → Route → Bool) → Route → List Route → List Route
insert less r [] = r ∷ []
insert less r (r' ∷ rs) =
    let rest = insert less r rs in if less r r' then r ∷ (r' ∷ rs) else r' ∷ rest

abbrev pub insertion_sort : (Route → Route → Bool) → List Route → List Route
insertion_sort less [] = []
insertion_sort less (r ∷ rs) = insert less r (insertion_sort less rs)

insert-perm : (r : Route) (rs : List Route) → Perm (insert longer r rs) (r ∷ rs)
insert-perm r [] = Perm.rfl
insert-perm r (r' ∷ rs) = elim (Bool-cases (longer r r')) [
  | inl before ↦ rw before Perm.rfl
  | inr after ↦ rw after (Perm.trans (Perm.cons r' (insert-perm r rs)) (Perm.swap r r' rs))
]

All-insert :
    (P : Route → Type 0) (r : Route) (rs : List Route) → P r → All P rs → All P (insert longer r rs)
All-insert P r [] h hs = (h, tt)
All-insert P r (r' ∷ rs) h (h', hs) = elim (Bool-cases (longer r r')) [
  | inl before ↦ rw before (h, (h', hs))
  | inr after ↦ rw after (h', All-insert P r rs h hs)
]

longer_asymmetric : (r r' : Route) → longer r r' ≡ true → longer r' r ≡ false
unfolding longer
longer_asymmetric r r' h = ground (arith, h)

longer_after :
    (r r' r'' : Route) → longer r r' ≡ true → longer r'' r' ≡ false → longer r'' r ≡ false
unfolding longer
longer_after r r' r'' h h' = ground (arith, h, h')

insert-Ordered :
    (r : Route) (rs : List Route) → Ordered longer rs → Ordered longer (insert longer r rs)
insert-Ordered r [] h = (tt, tt)
insert-Ordered r (r' ∷ rs) (below, rest) = elim (Bool-cases (longer r r')) [
  | inl before ↦ rw before (
    (longer_asymmetric r r' before, All-map rs (λ r'' h. longer_after r r' r'' before h) below),
    (below, rest),
  )
  | inr after ↦
      rw after
        (All-insert (λ r''. longer r'' r' ≡ false) r rs after below, insert-Ordered r rs rest)
]

pub insertion_sort-Sorts : Sorts insertion_sort
insertion_sort-Sorts [] = (Perm.rfl, tt)
insertion_sort-Sorts (r ∷ rs) =
    let (kept, ordered) = insertion_sort-Sorts rs in
    (
      Perm.trans (insert-perm r (insertion_sort longer rs)) (Perm.cons r kept),
      insert-Ordered r (insertion_sort longer rs) ordered,
    )
