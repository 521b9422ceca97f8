-- ===== src/Http.antt =====
-- The parts of net/http that the program's handlers read and write: header maps, requests and
-- responses. Header keys are canonicalised by `canonical` (textproto.CanonicalMIMEHeaderKey), which
-- is a parameter; a direct map access, as in `delete(r.Header, name)`, does not go through it.
use gorp.Prelude.{ℕ, String, List, [], ◌∷◌, ◌++◌, if◌then◌else◌, str_eq}

-- http.Header: canonical keys with their values.
abbrev pub Header : Type 0
Header = List (String × List String)

-- Direct access to the map, by the key as it is written.
unfoldable pub raw_values : String → Header → List String
raw_values k [] = []
raw_values k ((j, vs) ∷ h) = if str_eq j k then vs else raw_values k h

unfoldable pub raw_delete : String → Header → Header
raw_delete k [] = []
raw_delete k ((j, vs) ∷ h) =
    let rest = raw_delete k h in if str_eq j k then rest else (j, vs) ∷ rest

unfoldable pub raw_put : String → List String → Header → Header
raw_put k vs [] = (k, vs) ∷ []
raw_put k vs ((j, ws) ∷ h) = if str_eq j k then (j, vs) ∷ h else (j, ws) ∷ raw_put k vs h

abbrev pub first_or_empty : List String → String
first_or_empty [] = ""
first_or_empty (v ∷ vs) = v

module _ (canonical : String → String) where
  -- Header.Get, Header.Set, Header.Add and Header.Del
  unfoldable pub get : String → Header → String
  unfolding raw_values
  get k h = first_or_empty (raw_values (canonical k) h)

  unfoldable pub set : String → String → Header → Header
  unfolding raw_put
  set k v h = raw_put (canonical k) (v ∷ []) h

  unfoldable pub add : String → String → Header → Header
  unfolding raw_put raw_values
  add k v h = raw_put (canonical k) (raw_values (canonical k) h ++ v ∷ []) h

  unfoldable pub del : String → Header → Header
  unfolding raw_delete
  del k h = raw_delete (canonical k) h

pub record Request : Type 0 where
  pub method : String
  pub path : String
  pub host : String
  pub remote_addr : String
  pub header : Header

pub record Response : Type 0 where
  pub status : ℕ
  pub header : Header
