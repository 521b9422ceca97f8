-- ===== src/Routing/Chain.antt =====
-- ChainMiddleware: the loop over the indices is the fold from the right.
use gorp.Prelude.{ℕ, zero, suc, ◌≡◌, refl, ap, ◌∙◌, List, [], ◌∷◌, length, get_elem?}
use gorp.Routing.{wrap_with, wrap_below, chain_middleware}

module _ {ℓ} {H : Type ℓ} where
  -- The first one is outermost.
  abbrev pub nest : List (H → H) → H → H
  nest [] h = h
  nest (m ∷ ms) h = m (nest ms h)

  wrap_below-cons :
      (m : H → H) (ms : List (H → H)) (i : ℕ) (h : H)
      → wrap_below (m ∷ ms) (suc i) h ≡ m (wrap_below ms i h)
  unfolding wrap_below
  wrap_below-cons m ms zero h = refl
  wrap_below-cons m ms (suc i) h = wrap_below-cons m ms i (wrap_with (get_elem? ms i) h)

  -- A handler wrapped by middlewares runs them in the order of the list: the first middleware is
  -- the outermost, and the handler stands inside the last one.
  pub chain_middleware-nest : (h : H) (ms : List (H → H)) → chain_middleware h ms ≡ nest ms h
  unfolding chain_middleware wrap_below
  chain_middleware-nest h [] = refl
  chain_middleware-nest h (m ∷ ms) =
      wrap_below-cons m ms (length ms) h ∙ ap m (chain_middleware-nest h ms)
