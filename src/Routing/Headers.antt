-- ===== src/Routing/Headers.antt =====
-- The middlewares of pkg/routing that edit requests and responses: builtin_request_headers.go,
-- builtin_response_headers.go, and CorrelationID and AddPrefix of builtin_middleware.go. The maps of
-- headers are lists, in the order in which Go happens to go through them. strings.EqualFold, url.Parse
-- with URL.String and the new identifiers are parameters.
pub mod Removed
mod Tests
use Prim.Native.Char.{code}
use Prim.Native.String.{◌++◌ as text_append, [] as empty, ◌∷◌ as push}
use gorp.Prelude.{
  ℕ, ◌==◌, String, Bool, true, false, ◌&&◌, not, List, [], ◌∷◌, Option, none, some, if◌then◌else◌,
  any, str_eq, has_prefix,
}
use gorp.Http.{Header, Request, Response, get, set, add, del, raw_delete}
use gorp.Routing.Guard.Params.{trim_left}
use gorp.Selector.Factory.{Env, backend_affinity_key}

abbrev pub Headers : Type 0
Headers = List (String × String)

module _ (canonical : String → String) where
  unfoldable pub add_all : Headers → Header → Header
  add_all [] h = h
  add_all ((key, value) ∷ rest) h = add_all rest (add canonical key value h)

  unfoldable pub set_all : Headers → Header → Header
  set_all [] h = h
  set_all ((key, value) ∷ rest) h = set_all rest (set canonical key value h)

  unfoldable pub del_all : List String → Header → Header
  del_all [] h = h
  del_all (name ∷ names) h = del_all names (del canonical name h)

  abbrev pub edited : (Header → Header) → Request → Request
  edited f r = record r { header = f r.header }

  unfoldable pub add_request_headers : Headers → Request → Request
  add_request_headers headers = edited (add_all headers)

  -- Also ModifyRequestHeaders
  unfoldable pub set_request_header : Headers → Request → Request
  set_request_header headers = edited (set_all headers)

  abbrev pub answered : (Header → Header) → Response → Response
  answered f resp = record resp { header = f resp.header }

  unfoldable pub add_response_headers : Headers → Response → Response
  add_response_headers headers = answered (add_all headers)

  -- Also ModifyResponseHeaders
  unfoldable pub set_response_headers : Headers → Response → Response
  set_response_headers headers = answered (set_all headers)

  unfoldable pub remove_response_headers : List String → Response → Response
  remove_response_headers names = answered (del_all names)

  -- A header of the backend stays, in whatever case it is written.
  unfoldable pub set_backend_affinity_header :
      Env → (String → String → Bool) → String → ℕ → Response → Response
  set_backend_affinity_header env equal_fold header index resp =
      if any (λ x. equal_fold x.0 header) resp.header
      then resp
      else answered (set canonical header (backend_affinity_key env index)) resp

  -- The request and the headers of the response
  unfoldable pub correlation_id : String → Request → Header → Request × Header
  correlation_id fresh r w =
      let given = get canonical "X-Correlation-Id" r.header in
      let id = if str_eq given "" then fresh else given in
      (edited (set canonical "X-Correlation-Id" id) r, set canonical "X-Correlation-Id" id w)

-- delete(r.Header, name), which does not make the name canonical
unfoldable pub delete_all : List String → Header → Header
delete_all [] h = h
delete_all (name ∷ names) h = delete_all names (raw_delete name h)

unfoldable pub remove_request_headers : List String → Request → Request
unfolding delete_all
remove_request_headers names r = record r { header = delete_all names r.header }

unfoldable pub add_prefix : String → Request → Request
add_prefix prefix r =
    let rooted = if not (has_prefix prefix "/") then text_append "/" prefix else prefix in
    record r { path = text_append rooted r.path }

-- strings.TrimRight with these characters
unfoldable pub trim_right : (ℕ → Bool) → String → String
trim_right p empty = ""
trim_right p (push c s) =
    let rest = trim_right p s in if str_eq rest "" && p (code c) then "" else push c rest

abbrev pub is_slash : ℕ → Bool
is_slash c = c == b'/'

unfoldable pub prefix_location_path : String → String → String
prefix_location_path prefix path =
    if str_eq prefix ""
    then path
    else if str_eq path ""
    then prefix
    else if str_eq prefix "/"
    then text_append "/" (trim_left is_slash path)
    else text_append (trim_right is_slash prefix) (text_append "/" (trim_left is_slash path))
