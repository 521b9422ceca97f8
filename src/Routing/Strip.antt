-- ===== src/Routing/Strip.antt =====
-- The path that a route with strip_prefix hands on.
use Prim.Native.String.{◌++◌}
use gorp.Prelude.{
  ◌≡◌, refl, String, true, false, ◌≢◌, inl, inr, str_eq, str_eq_iff, has_prefix, trim_prefix,
  trim_prefix-append, has_prefix-append, Bool-cases, if◌then◌else◌,
}
use gorp.Routing.{stripped_path}

abbrev pub IsRooted : String → Type 0
IsRooted s = has_prefix s "/" ≡ true

IsRooted-or_added : (s : String) → IsRooted (if has_prefix s "/" then s else ("/" ++ s))
IsRooted-or_added s = elim (Bool-cases (has_prefix s "/")) [
  | inl e ↦ rw e e
  | inr e ↦ rw e (has_prefix-append "/" s)
]

is_set : (s : String) → s ≢ "" → str_eq s "" ≡ false
is_set s h = elim (Bool-cases (str_eq s "")) [
  | inl e ↦ absurd (h ((str_eq_iff s "").0 e))
  | inr e ↦ e
]

-- A route that strips a prefix hands on a path that begins with a slash, whatever the prefix and
-- the path are. A path that is the prefix and then a rest loses the prefix, and the rest gets a
-- slash only where it has none.
pub stripped_path-IsRooted :
    (prefix path rest : String)
    → prefix ≢ ""
    → IsRooted (stripped_path true prefix path)
      × (stripped_path true prefix (prefix ++ rest)
          ≡ (if has_prefix rest "/" then rest else ("/" ++ rest)))
unfolding stripped_path
stripped_path-IsRooted prefix path rest set =
    rw (is_set prefix set)
      (IsRooted-or_added (trim_prefix path prefix), rw (trim_prefix-append prefix rest) refl)
