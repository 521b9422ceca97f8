-- ===== src/Config/Sections.antt =====
-- The loops of Validate over the sections, where they report nothing.
use gorp.Prelude.{
  ℕ, zero, suc, ◌≡◌, refl, ◌≢◌, String, Bool, true, false, not, List, [], ◌∷◌, map, ◌⊎◌, inl, inr,
  All, Bool-cases, str_eq, str_eq_iff, one_of, is_empty, ◌&&◌,
}
use gorp.Config.{Listener, Service}
use gorp.Config.Check.{
  Library, Place, Message, report, root, element, member, not_supported, no_backends,
  service_and_backends,
}
use gorp.Config.Address.{Addresses}
use gorp.Config.Validate.{
  check_references, check_listeners, check_services, check_address, listener_types,
}
use gorp.Config.Names.{clean-All, clean-append, clean_report, clean_name, Fresh, Listed}

pub listener_names : List Listener → List String
listener_names = map λ l. l.name

pub clean_not : (b : Bool) (p : Place) (m : Message) → report (not b) p m ≡ [] → b ≡ true
clean_not true p m h = refl
clean_not false p m h = cc (clean_report true p m h)

pub clean_references :
    (message : String → Message) (p : Place) (known names : List String)
    → check_references message p known names ≡ []
    → All (λ n. one_of n known ≡ true) names
unfolding check_references
clean_references message p known [] h = tt
clean_references message p known (n ∷ ns) h =
    let (first, rest) =
      clean-append (report (not (one_of n known)) p (message n))
        (check_references message p known ns) h in
    (clean_not (one_of n known) p (message n) first, clean_references message p known ns rest)

pub left_false : (a b : Bool) → (a && b) ≡ false → b ≡ true → a ≡ false
left_false true b h k = cc
left_false false b h k = refl

pub report-false : (p : Place) (m : Message) → report false p m ≡ []
unfolding report
report-false p m = refl

pub filled :
    {A : Type 0} (xs : List A) (p : Place) → report (is_empty xs) p no_backends ≡ [] → xs ≢ []
filled [] p h = cc (clean_report true p no_backends h)
filled (x ∷ xs) p h = λ e. cc e

pub emptied :
    {A : Type 0} (xs : List A) (p : Place)
    → report (not (is_empty xs)) p service_and_backends ≡ []
    → xs ≡ []
emptied [] p h = refl
emptied (x ∷ xs) p h = cc (clean_report true p service_and_backends h)

-- A name that the loop collects is one of its section, or was there before.
abbrev pub Collected : String → List String → List String → Type 0
Collected s names taken = Listed s names ⊎ (one_of s taken ≡ true)

pub Collected-cons :
    (s n : String) (names taken : List String)
    → Collected s names (n ∷ taken)
    → Collected s (n ∷ names) taken
Collected-cons s n names taken (inl (i, at)) = inl (suc i, at)
Collected-cons s n names taken (inr h) = elim (Bool-cases (str_eq s n)) [
  | inl e ↦ let same : s ≡ n = (str_eq_iff s n).0 e in inl (zero, cc same)
  | inr e ↦ inr (rw e at h)
]

module _ (lib : Library) where
  pub listeners-Collected :
      (i : ℕ) (taken : List String) (a : Addresses) (ls : List Listener) (s : String)
      → one_of s (check_listeners lib i taken a ls).1.0 ≡ true
      → Collected s (map (λ l. l.name) ls) taken
  unfolding check_listeners
  listeners-Collected i taken a [] s h = inr h
  listeners-Collected i taken a (l ∷ ls) s h =
      Collected-cons s l.name (map (λ m. m.name) ls) taken (
        listeners-Collected (suc i) (l.name ∷ taken)
          (check_address lib (element "listeners" i root) l a).1 ls s h)

  pub services-Collected :
      (i : ℕ) (taken : List String) (ss : List Service) (s : String)
      → one_of s (check_services lib i taken ss).1 ≡ true
      → Collected s (map (λ x. x.name) ss) taken
  unfolding check_services
  services-Collected i taken [] s h = inr h
  services-Collected i taken (x ∷ ss) s h =
      Collected-cons s x.name (map (λ m. m.name) ss) taken
        (services-Collected (suc i) (x.name ∷ taken) ss s h)

  pub clean_listeners :
      (i : ℕ) (taken : List String) (a : Addresses) (ls : List Listener)
      → (check_listeners lib i taken a ls).0 ≡ []
      → Fresh taken (map (λ l. l.name) ls) × All (λ l. one_of l.type listener_types ≡ true) ls
  unfolding check_listeners
  clean_listeners i taken a [] h = (tt, tt)
  clean_listeners i taken a (l ∷ ls) h =
      let p = element "listeners" i root in
      let claimed = check_address lib p l a in
      let (name, (type, (_, (_, (rest, _))))) = clean-All _ h in
      let others = clean_listeners (suc i) (l.name ∷ taken) claimed.1 ls rest in
      let (set, new) = clean_name p l.name taken name in
      let supported =
        clean_not (one_of l.type listener_types) (member "type" p) not_supported type in
      ((set, new, others.0), (supported, others.1))

  pub clean_services :
      (i : ℕ) (taken : List String) (ss : List Service)
      → (check_services lib i taken ss).0 ≡ []
      → Fresh taken (map (λ x. x.name) ss) × All (λ x. x.backends ≢ []) ss
  unfolding check_services
  clean_services i taken [] h = (tt, tt)
  clean_services i taken (x ∷ ss) h =
      let p = element "services" i root in
      let (name, (pool, (_, (rest, _)))) = clean-All _ h in
      let others = clean_services (suc i) (x.name ∷ taken) ss rest in
      let (set, new) = clean_name p x.name taken name in
      ((set, new, others.0), (filled x.backends (member "backends" p) pool, others.1))
