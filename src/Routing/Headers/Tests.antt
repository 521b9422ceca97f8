-- ===== src/Routing/Headers/Tests.antt =====
-- Runs of the middlewares that edit headers, and their theorem at a concrete input.
use gorp.Prelude.{
  ◌≡◌, ◌≢◌, refl, String, [], ◌∷◌, if◌then◌else◌, str_eq, str_eq_iff, has_prefix, cut_prefix,
}
use gorp.Http.{Request, get, set, raw_values, raw_put, raw_delete}
use gorp.Routing.Guard.Params.{trim_left}
use gorp.Routing.Headers.{
  set_all, set_request_header, delete_all, remove_request_headers, add_prefix, trim_right,
  prefix_location_path,
}
use gorp.Routing.Headers.Removed.{remove_request_headers-other}

abbrev canonical : String → String
canonical s = if str_eq s "x-secret" then "X-Secret" else s

abbrev request : Request
request = record {
  method = "GET";
  path = "/a";
  host = "";
  remote_addr = "";
  header = ("X-Secret", "1" ∷ []) ∷ [];
}

not_canonical : canonical "x-secret" ≢ "x-secret"
not_canonical = λ e. absurd (cc ((str_eq_iff "X-Secret" "x-secret").1 e))

remove_request_headers-other_example : remove_request_headers ("x-secret" ∷ []) request ≡ request
remove_request_headers-other_example =
    remove_request_headers-other canonical ("x-secret" ∷ []) request (not_canonical, tt) (refl, tt)

removed : (remove_request_headers ("X-Secret" ∷ []) request).header ≡ []
unfolding remove_request_headers delete_all raw_delete
removed = refl

replaced :
    get canonical "X-Secret" (set_request_header canonical (("x-secret", "2") ∷ []) request).header
    ≡ "2"
unfolding set_request_header set_all set get raw_values raw_put
replaced = refl

prefixed : (add_prefix "api" request).path ≡ "/api/a"
unfolding add_prefix has_prefix cut_prefix
prefixed = refl

relocated : prefix_location_path "/api/" "//a" ≡ "/api/a"
unfolding prefix_location_path trim_left trim_right
relocated = refl
