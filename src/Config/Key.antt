-- ===== src/Config/Key.antt =====
-- validate.go of pkg/config, the texts that are the keys of the map of addresses.
use Prim.Native.Char.{code}
use Prim.Native.String.{[], ◌∷◌, ◌++◌}
use gorp.Prelude.{String, Option, none, some, if◌then◌else◌, ◌==◌}

abbrev pub push_char : String → Option (String × String) → Option (String × String)
push_char c none = none
push_char c (some (a, b)) = some (c ++ a, b)

-- strings.Cut at the first bar.
unfoldable pub cut_bar : String → Option (String × String)
cut_bar [] = none
cut_bar (c ∷ s) =
    let rest = cut_bar s in if code c == 124 then some ("", s) else push_char (c ∷ []) rest

abbrev pub with_first : String → Option (String × String) → Option (String × (String × String))
with_first a none = none
with_first a (some (b, c)) = some (a, (b, c))

abbrev pub split_rest : Option (String × String) → Option (String × (String × String))
unfolding cut_bar
split_rest none = none
split_rest (some (a, rest)) = with_first a (cut_bar rest)

-- strings.SplitN(key, "|", 3), where it gives three parts.
unfoldable pub split_key : String → Option (String × (String × String))
unfolding cut_bar
split_key key = split_rest (cut_bar key)

abbrev pub address_key : String → String → String → String
address_key network host port = network ++ "|" ++ host ++ "|" ++ port

abbrev pub unix_key : String → String → String
unix_key network address = network ++ "|" ++ address
