-- ===== src/Routing/Headers/Removed.antt =====
-- What the removal of request headers removes.
use gorp.Prelude.{
  ◌≡◌, ◌≢◌, refl, sym, ap, ◌∙◌, String, List, [], ◌∷◌, str_eq, str_eq_iff, Bool-cases, inl, inr,
  All,
}
use gorp.Http.{Header, Request, raw_delete}
use gorp.Routing.Headers.{delete_all, remove_request_headers}

raw_delete-other :
    (canonical : String → String) (name : String) (h : Header)
    → canonical name ≢ name
    → All (λ x. canonical x.0 ≡ x.0) h
    → raw_delete name h ≡ h
unfolding raw_delete
raw_delete-other canonical name [] odd all = refl
raw_delete-other canonical name ((j, vs) ∷ h) odd (plain, all) = elim (Bool-cases (str_eq j name)) [
  | inl same ↦
      let e : j ≡ name = (str_eq_iff j name).0 same in
      absurd (odd (ap canonical (sym e) ∙ plain ∙ e))
  | inr other ↦ rw other (ap (λ rest. (j, vs) ∷ rest) (raw_delete-other canonical name h odd all))
]

delete_all-other :
    (canonical : String → String) (names : List String) (h : Header)
    → All (λ n. canonical n ≢ n) names
    → All (λ x. canonical x.0 ≡ x.0) h
    → delete_all names h ≡ h
unfolding delete_all
delete_all-other canonical [] h odd all = refl
delete_all-other canonical (name ∷ names) h (first, odd) all =
    ap (delete_all names) (raw_delete-other canonical name h first all)
    ∙ delete_all-other canonical names h odd all

-- From a request whose headers have canonical names, as net/http reads them, the removal of names that are
-- not written canonically removes nothing.
pub remove_request_headers-other :
    (canonical : String → String) (names : List String) (r : Request)
    → All (λ n. canonical n ≢ n) names
    → All (λ x. canonical x.0 ≡ x.0) r.header
    → remove_request_headers names r ≡ r
unfolding remove_request_headers
remove_request_headers-other canonical names r odd all =
    ap (λ h. record r { header = h }) (delete_all-other canonical names r.header odd all)
