-- ===== src/Config/Load.antt =====
-- loader.go of pkg/config, loadConfigBytes: the documents of a file, or of the files of a directory,
-- are merged into one configuration. The decoders and sort.Slice are parameters: a document is what
-- the decoder gives for it, `none` where it is an error, and sort.Slice takes the comparison of the
-- elements that the two indices stand for.
use Prim.Native.String.{[] as no_text, ◌∷◌ as push}
use Prim.Native.Char.{code}
use mathlib.Core.List.{Perm}
use gorp.Prelude.{
  ℕ, ◌+◌, ◌≤◌, String, ltb, All, ◌≡◌, Bool, false, ◌&&◌, ◌||◌, not, List, [], ◌∷◌, ◌++◌, Option,
  none, some, if◌then◌else◌, is_empty,
}
use gorp.Config.{Config, AdminConfig, Route}
use gorp.Config.Check.{is_unset}

unfoldable pub is_blank : Config → Bool
is_blank doc =
    is_empty doc.listeners
    && is_empty doc.services
    && is_empty doc.routes
    && is_unset doc.admin.address
    && not doc.admin.enabled
    && is_unset doc.directory

unfoldable pub sets_admin : AdminConfig → Bool
sets_admin a =
    not (is_unset a.address)
    || a.enabled
    || not (is_unset a.tls.cert_file)
    || not (is_unset a.tls.key_file)
    || not (is_unset a.tls.ca_file)
    || not (is_unset a.tls.crl_file)
    || not (is_unset a.tls.ocsp_url)
    || not (is_empty a.middlewares)

unfoldable pub merge : Config → Config → Config
unfolding is_blank sets_admin
merge cfg doc = if is_blank doc then cfg else record {
  admin = if sets_admin doc.admin then doc.admin else cfg.admin;
  listeners = cfg.listeners ++ doc.listeners;
  services = cfg.services ++ doc.services;
  routes = cfg.routes ++ doc.routes;
  directory = if is_unset doc.directory then cfg.directory else doc.directory;
}

unfoldable pub merge_all : Config → List (Option Config) → Option Config
unfolding merge
merge_all cfg [] = some cfg
merge_all cfg (none ∷ docs) = none
merge_all cfg (some doc ∷ docs) = merge_all (merge cfg doc) docs

-- No listener, route, admin endpoint or directory; services do not count.
unfoldable pub is_useless : Config → Bool
is_useless cfg =
    is_empty cfg.listeners
    && is_empty cfg.routes
    && is_unset cfg.admin.address
    && not cfg.admin.enabled
    && is_unset cfg.directory

-- The bytes of a character in UTF-8, and the built-in len of a text.
abbrev pub bytes_of : ℕ → ℕ
bytes_of c = if ltb c 128 then 1 else if ltb c 2048 then 2 else if ltb c 65536 then 3 else 4

unfoldable pub len : String → ℕ
len no_text = 0
len (push c s) = bytes_of (code c) + len s

-- The comparison of sortRoutesByPrefixLength: longer prefixes first
unfoldable pub longer : Route → Route → Bool
longer r r' = ltb (len r'.prefix) (len r.prefix)

module _ (sort_slice : (Route → Route → Bool) → List Route → List Route) where
  unfoldable pub sort_routes_by_prefix_length : Config → Config
  sort_routes_by_prefix_length cfg = record cfg { routes = sort_slice longer cfg.routes }

  unfoldable pub finish : Option Config → Option Config
  finish none = none
  finish (some cfg) = if is_useless cfg then none else some (sort_routes_by_prefix_length cfg)

  unfoldable pub load_yaml : Config → List (Option Config) → Option Config
  load_yaml empty docs = finish (merge_all empty docs)

  -- One value, and nothing after it.
  unfoldable pub load_json : Option Config → Bool → Option Config
  unfolding sort_routes_by_prefix_length
  load_json none at_end = none
  load_json (some cfg) at_end = if at_end then some (sort_routes_by_prefix_length cfg) else none

-- What every document holds, one after the other.
abbrev pub gather {ℓ} : {A : Type ℓ} → (Config → List A) → List (Option Config) → List A
gather f [] = []
gather f (none ∷ docs) = gather f docs
gather f (some doc ∷ docs) = f doc ++ gather f docs

abbrev Holds : Config → Config → Config → Type 0
Holds cfg doc c =
    (c.listeners ≡ cfg.listeners ++ doc.listeners)
    × (c.services ≡ cfg.services ++ doc.services)
    × (c.routes ≡ cfg.routes ++ doc.routes)

abbrev Gathers : Config → List (Option Config) → Config → Type 0
Gathers cfg docs c =
    (c.listeners ≡ cfg.listeners ++ gather (λ d. d.listeners) docs)
    × (c.services ≡ cfg.services ++ gather (λ d. d.services) docs)
    × (c.routes ≡ cfg.routes ++ gather (λ d. d.routes) docs)

-- Every document is there.
abbrev pub Decodes : List (Option Config) → Type 0
Decodes [] = Unit
Decodes (none ∷ docs) = ⊥
Decodes (some doc ∷ docs) = Decodes docs

-- What sort.Slice promises for a comparison: the same elements, and none before one that is less.
abbrev pub Ordered : (Route → Route → Bool) → List Route → Type 0
Ordered less [] = Unit
Ordered less (r ∷ rs) = All (λ r'. less r' r ≡ false) rs × Ordered less rs

abbrev pub Sorts : ((Route → Route → Bool) → List Route → List Route) → Type 0
Sorts sort_slice =
    (rs : List Route) → Perm (sort_slice longer rs) rs × Ordered longer (sort_slice longer rs)

-- No prefix is longer than one before it.
abbrev pub Descends : List Route → Type 0
Descends [] = Unit
Descends (r ∷ rs) = All (λ r'. len r'.prefix ≤ len r.prefix) rs × Descends rs
