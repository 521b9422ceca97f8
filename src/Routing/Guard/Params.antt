-- ===== src/Routing/Guard/Params.antt =====
-- parseDigestParams of pkg/routing/builtin_auth_digest.go. The loop runs on the size of the text that
-- is left, which every turn makes smaller. strings.TrimSpace is a parameter.
pub mod Fuel
pub mod Print
use Prim.Native.Char.{Char, code}
use Prim.Native.String.{[], ◌∷◌}
use gorp.Prelude.{
  ℕ, zero, suc, ◌==◌, String, Bool, true, false, ◌||◌, List, Option, none, some, if◌then◌else◌,
  cut_at, assign,
}

-- strings.TrimLeft with these characters
unfoldable pub trim_left : (ℕ → Bool) → String → String
trim_left p [] = []
trim_left p (c ∷ s) = let rest = trim_left p s in if p (code c) then rest else (c ∷ s)

-- The text before the first of these characters, the character, and the text behind it.
abbrev pub put_before : Char → Option (String × ℕ × String) → Option (String × ℕ × String)
put_before c none = none
put_before c (some (before, sep, after)) = some (c ∷ before, sep, after)

unfoldable pub split_any : (ℕ → Bool) → String → Option (String × ℕ × String)
split_any p [] = none
split_any p (c ∷ s) =
    let rest = split_any p s in if p (code c) then some ([], code c, s) else put_before c rest

abbrev pub is_space : ℕ → Bool
is_space c = c == b' '

abbrev pub is_space_or_comma : ℕ → Bool
is_space_or_comma c = c == b' ' || c == b','

abbrev pub is_key_end : ℕ → Bool
is_key_end c = c == b'=' || c == b','

abbrev pub Values : Type 0
Values = List (String × String)

unfoldable pub size : String → ℕ
size [] = 0
size (c ∷ s) = suc (size s)

module _ (trim_space : String → String) where
  module _ (next : String → Values → Values) where
    -- A value between quotes, of which the first is taken.
    abbrev pub take_quoted : String → Values → Option (String × String) → Values
    take_quoted key values none = values
    take_quoted key values (some (value, rest)) =
        next (trim_left is_space_or_comma rest) (assign key value values)

    abbrev pub take_plain : String → String → Values → Option (String × String) → Values
    take_plain key header values none = next [] (assign key (trim_space header) values)
    take_plain key header values (some (value, rest)) =
        next (trim_left is_space_or_comma rest) (assign key (trim_space value) values)

    abbrev pub take_value : String → String → Values → Values
    take_value key [] values = take_plain key [] values none
    take_value key (c ∷ s) values =
        if code c == b'"'
        then take_quoted key values (cut_at b'"' s)
        else take_plain key (c ∷ s) values (cut_at b',' (c ∷ s))

    abbrev pub take_key : Values → Option (String × ℕ × String) → Values
    take_key values none = values
    take_key values (some (before, sep, after)) =
        if sep == b'='
        then take_value (trim_space before) (trim_left is_space after) values
        else next (trim_left is_space_or_comma after) values

    -- One turn of the loop, and the rest of the loop.
    unfoldable pub turn : String → Values → Values
    turn header values = take_key values (split_any is_key_end (trim_left is_space header))

  unfoldable pub loop : ℕ → String → Values → Values
  loop n [] values = values
  loop zero (c ∷ s) values = values
  loop (suc n) (c ∷ s) values = turn (loop n) (c ∷ s) values

  unfoldable pub parse_digest_params : String → Values
  unfolding loop size
  parse_digest_params header = loop (size header) header List.[]
