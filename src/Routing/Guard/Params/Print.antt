-- ===== src/Routing/Guard/Params/Print.antt =====
-- The parser reads what a client writes: keys with values between quotes, separated by commas.
use Prim.Native.Char.{Char, code}
use Prim.Native.String.{[], ◌∷◌, ◌++◌}
use mathlib.Core.List.{[] as nil, ◌∷◌ as cons}
use text.Mathlib.TextLemmas.{nil-append, cons-append}
use gorp.Prelude.{
  ℕ, ◌≡◌, refl, ap, sym, ◌∙◌, String, Bool, true, false, not, Option, none, some, Bool-cases, inl,
  inr, cut_at, cut_at-append, assign,
}
use gorp.Routing.Guard.Params.{
  trim_left, split_any, put_before, is_space, is_space_or_comma, is_key_end, Values, turn, loop,
  size, parse_digest_params,
}
use gorp.Routing.Guard.Params.Fuel.{run, run-turn}

-- key="value" and the text behind it
abbrev pub print_field : String → String → String → String
print_field key value rest = key ++ ("=" ∷ ("\"" ∷ (value ++ ("\"" ∷ rest))))

abbrev pub after_field : String → String
after_field [] = []
after_field (c ∷ s) = "," ∷ (" " ∷ (c ∷ s))

abbrev pub print : Values → String
print nil = []
print (cons (key, value) fields) = print_field key value (after_field (print fields))

abbrev pub assign_all : Values → Values → Values
assign_all nil values = values
assign_all (cons (key, value) fields) values = assign_all fields (assign key value values)

-- The key is not empty, begins with no space and has no comma and no equals sign; the value has no quote.
abbrev pub begins_bare : String → Bool
begins_bare [] = false
begins_bare (c ∷ s) = not (is_space_or_comma (code c))

module _ (trim_space : String → String) where
  pub record IsField (key value : String) : Type 0 where
    pub bare : begins_bare key ≡ true
    pub no_end : split_any is_key_end key ≡ none
    pub trimmed : trim_space key ≡ key
    pub no_quote : cut_at b'"' value ≡ none

  abbrev pub AreFields : Values → Type 0
  AreFields nil = Unit
  AreFields (cons (key, value) fields) = IsField key value × AreFields fields

not_put : (c : Char) (o : Option (String × ℕ × String)) → put_before c o ≡ none → o ≡ none
not_put c none h = refl
not_put c (some r) h = absurd (cc h)

split_any-append :
    (p : ℕ → Bool) (k : String) (c : Char) (s : String)
    → split_any p k ≡ none
    → p (code c) ≡ true
    → split_any p (k ++ (c ∷ s)) ≡ some (k, code c, s)
unfolding split_any
split_any-append p [] c s h t = rw (nil-append (c ∷ s), t) refl
split_any-append p (d ∷ k) c s h t = elim (Bool-cases (p (code d))) [
  | inl same ↦ absurd (cc (rw same at h))
  | inr other ↦
      let left = not_put d (split_any p k) (rw other at h) in
      rw (cons-append d k (c ∷ s), split_any, other, split_any-append p k c s left t) refl
]

bare_char :
    (c : ℕ)
    → not (is_space_or_comma c) ≡ true
    → (is_space c ≡ false) × (is_space_or_comma c ≡ false)
bare_char c h = elim (Bool-cases (is_space_or_comma c)) [
  | inl t ↦ absurd (cc (rw t at h))
  | inr f ↦ elim (Bool-cases (is_space c)) [ inl t ↦ absurd (cc (rw t at f)) | inr g ↦ (g, f) ]
]

trim_left-bare :
    (p : ℕ → Bool) (c : Char) (s : String) → p (code c) ≡ false → trim_left p (c ∷ s) ≡ c ∷ s
unfolding trim_left
trim_left-bare p c s h = rw h refl

-- One turn takes one field.
turn-field :
    (trim_space : String → String) (next : String → Values → Values) (c : Char)
    (k value rest : String) (values : Values)
    → IsField trim_space (c ∷ k) value
    → turn trim_space next (c ∷ (k ++ ("=" ∷ ("\"" ∷ (value ++ ("\"" ∷ rest)))))) values
      ≡ next (trim_left is_space_or_comma rest) (assign (c ∷ k) value values)
unfolding turn
turn-field trim_space next c k value rest values f =
    let tail = "\"" ∷ (value ++ ("\"" ∷ rest)) in
    let split : split_any is_key_end (c ∷ (k ++ ("=" ∷ tail))) ≡ some (c ∷ k, b'=', tail) =
      ap (split_any is_key_end) (sym (cons-append c k ("=" ∷ tail)))
      ∙ split_any-append is_key_end (c ∷ k) "=" tail f.no_end refl in
    rw
      (
        trim_left-bare is_space c (k ++ ("=" ∷ tail)) (bare_char (code c) f.bare).0,
        split,
        f.trimmed,
        trim_left-bare is_space "\"" (value ++ ("\"" ∷ rest)) refl,
        cut_at-append "\"" value rest f.no_quote,
      )
      refl

-- A turn leaves the next field.
after_field-trim_left :
    (trim_space : String → String) (fields : Values)
    → AreFields trim_space fields
    → trim_left is_space_or_comma (after_field (print fields)) ≡ print fields
unfolding trim_left
after_field-trim_left trim_space nil ok = refl
after_field-trim_left trim_space (cons ([], value) fields) (f, ok) = absurd (cc f.bare)
after_field-trim_left trim_space (cons (c ∷ k, value) fields) (f, ok) =
    let rest = "=" ∷ ("\"" ∷ (value ++ ("\"" ∷ after_field (print fields)))) in
    rw (cons-append c k rest)
      (trim_left-bare is_space_or_comma c (k ++ rest) (bare_char (code c) f.bare).1)

run-print :
    (trim_space : String → String) (fields values : Values)
    → AreFields trim_space fields
    → run trim_space (print fields) values ≡ assign_all fields values
unfolding loop size
run-print trim_space nil values ok = refl
run-print trim_space (cons ([], value) fields) values (f, ok) = absurd (cc f.bare)
run-print trim_space (cons (c ∷ k, value) fields) values (f, ok) =
    let rest = "=" ∷ ("\"" ∷ (value ++ ("\"" ∷ after_field (print fields)))) in
    ap (λ h. run trim_space h values) (cons-append c k rest)
    ∙ run-turn trim_space c (k ++ rest) values
    ∙ turn-field trim_space (run trim_space) c k value (after_field (print fields)) values f
    ∙ ap (λ h. run trim_space h (assign (c ∷ k) value values))
        (after_field-trim_left trim_space fields ok)
    ∙ run-print trim_space fields (assign (c ∷ k) value values) ok

-- From a text of keys and quoted values, separated by a comma and a space, where every key is bare and
-- no value has a quote, the parser makes the map that assigns these values to these keys in turn.
pub parse_digest_params-print :
    (trim_space : String → String) (fields : Values)
    → AreFields trim_space fields
    → parse_digest_params trim_space (print fields) ≡ assign_all fields nil
unfolding parse_digest_params
parse_digest_params-print trim_space fields ok = run-print trim_space fields nil ok
