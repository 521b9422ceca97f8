-- ===== src/Value.antt =====
-- pkg/helper/parser.go: reading typed fields out of a decoded configuration map. A value that YAML
-- or JSON decodes into `any` is a `Value`; time.ParseDuration and strings.ToLower are parameters.
use gorp.Prelude.{
  ℕ, String, Bool, true, false, List, [], ◌∷◌, Option, none, some, if◌then◌else◌, ℤ, str_eq, one_of,
}

mutual
  pub data Value : Type 0 where
    null : Value
    text : String → Value
    int int64 : ℤ → Value
    uint64 : ℕ → Value
    -- a float64, by its integer part and whether it is that integer
    float64 : ℤ → Bool → Value
    flag : Bool → Value
    items : Values → Value
    table : Fields → Value

  pub data Values : Type 0 where
    nil : Values
    cons : Value → Values → Values

  pub data Fields : Type 0 where
    end : Fields
    field : String → Value → Fields → Fields

-- `config[key]`: the zero value `nil` where the key is missing, and whether it is there.
unfoldable pub lookup : String → Fields → Option Value
lookup key end = none
lookup key (field k v fs) = if str_eq k key then some v else lookup key fs

abbrev string_or : String → Option Value → String
string_or d (some (text s)) = s
string_or d _ = d

unfoldable pub parse_string_or_default : Fields → String → String → String
unfolding lookup
parse_string_or_default config key default = string_or default (lookup key config)

abbrev int_or : ℤ → Option Value → ℤ
int_or d (some (int n)) = n
int_or d _ = d

unfoldable pub parse_int : Fields → String → ℤ → ℤ
unfolding lookup
parse_int config key default = int_or default (lookup key config)

abbrev keep_pair :
    String → Value → Option (List (String × String)) → Option (List (String × String))
keep_pair k (text s) (some rest) = some ((k, s) ∷ rest)
keep_pair _ _ _ = none

string_fields : Fields → Option (List (String × String))
string_fields end = some []
string_fields (field k v fs) = keep_pair k v (string_fields fs)

abbrev map_or : Option Value → Option (List (String × String))
map_or (some (table fs)) = string_fields fs
map_or _ = none

-- `none` is the error.
unfoldable pub parse_string_map : Fields → String → Option (List (String × String))
unfolding lookup string_fields
parse_string_map config key = map_or (lookup key config)

abbrev keep_item : Value → Option (List String) → Option (List String)
keep_item (text s) (some rest) = some (s ∷ rest)
keep_item _ _ = none

string_items : Values → Option (List String)
string_items nil = some []
string_items (cons v vs) = keep_item v (string_items vs)

abbrev slice_or : Option Value → Option (List String)
slice_or (some (items vs)) = string_items vs
slice_or _ = none

unfoldable pub parse_string_slice : Fields → String → Option (List String)
unfolding lookup string_items
parse_string_slice config key = slice_or (lookup key config)

module _ (parse : String → Option ℤ) where
  abbrev duration_or : ℤ → Option Value → Option ℤ
  duration_or d (some (text s)) = parse s
  duration_or d _ = some d

  unfoldable pub parse_duration : Fields → String → ℤ → Option ℤ
  unfolding lookup
  parse_duration config key default = duration_or default (lookup key config)

module _ (to_lower : String → String) where
  abbrev word_or : Bool → String → Bool
  word_or d w =
      if one_of w ("true" ∷ "yes" ∷ "on" ∷ [])
      then true
      else if one_of w ("false" ∷ "no" ∷ "off" ∷ [])
      then false
      else d

  abbrev flag_or : Bool → Option Value → Bool
  flag_or d (some (flag b)) = b
  flag_or d (some (text s)) = word_or d (to_lower s)
  flag_or d _ = d

  unfoldable pub parse_bool : Fields → String → Bool → Bool
  unfolding lookup
  parse_bool config key default = flag_or default (lookup key config)
