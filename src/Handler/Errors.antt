-- ===== src/Handler/Errors.antt =====
-- handler/error.go: which handler serves an error. The handler of a kind is of any type; the update
-- of the context of the access log, for a handler that is an endpoint, is left out.
use couper.Base.{
  ◌≡◌, refl, ap, List, [], ◌∷◌, ◌++◌, Option, none, some, arith, Str, codes, lookup, All,
}
use couper.Errors.{Error, kinds}

abbrev pub wildcard : Str
wildcard = codes "*"

pub data Served (H : Type 0) : Type 0 where
  server_error : Served H
  template_error : Error → Served H
  handler : H → Served H

module _ {H : Type 0} where
  -- The loop over the kinds.
  unfoldable pub find_kind : List (Str × H) → List Str → Option H
  find_kind handlers [] = none
  find_kind handlers (kind ∷ kinds) = elim (lookup kind handlers) [
    | none ↦ find_kind handlers kinds
    | some h ↦ some h
  ]

  -- ServeHTTP. The error of the context is `none` if it is of another type, and the handlers are
  -- `none` if the map is nil.
  unfoldable pub serve_http : Option Error → Option (List (Str × H)) → Served H
  serve_http none handlers = server_error
  serve_http (some err) none = template_error err
  serve_http (some err) (some handlers) = elim (find_kind handlers (kinds err)) [
    | some h ↦ handler h
    | none ↦ elim (lookup wildcard handlers) [ some h ↦ handler h | none ↦ template_error err ]
  ]

  find_kind-append :
      (handlers : List (Str × H)) (before after : List Str)
      → All (λ k. lookup k handlers ≡ none) before
      → find_kind handlers (before ++ after) ≡ find_kind handlers after
  unfolding find_kind
  find_kind-append handlers [] after h = refl
  find_kind-append handlers (k ∷ before) after (e, h) =
      ground (arith, e, find_kind-append handlers before after h)

  -- The handler of a kind serves the error if no kind before it in the order of Kinds has a
  -- handler.
  pub serve_http-kind :
      (err : Error) (handlers : List (Str × H)) (before after : List Str) (kind : Str) (h : H)
      → kinds err ≡ before ++ kind ∷ after
      → All (λ k. lookup k handlers ≡ none) before
      → lookup kind handlers ≡ some h
      → serve_http (some err) (some handlers) ≡ handler h
  unfolding serve_http find_kind
  serve_http-kind err handlers before after kind h e none_before found = ground (
    arith,
    found,
    ap (find_kind handlers) e,
    find_kind-append handlers before (kind ∷ after) none_before,
  )

  find_kind-none :
      (handlers : List (Str × H)) (ks : List Str)
      → All (λ k. lookup k handlers ≡ none) ks
      → find_kind handlers ks ≡ none
  unfolding find_kind
  find_kind-none handlers [] h = refl
  find_kind-none handlers (k ∷ ks) (e, h) = ground (arith, e, find_kind-none handlers ks h)

  -- With no handler for any of its kinds the error goes to the handler of the wildcard, and to the
  -- template only if there is none either.
  pub serve_http-fallback :
      (err : Error) (handlers : List (Str × H))
      → All (λ k. lookup k handlers ≡ none) (kinds err)
      → serve_http (some err) (some handlers)
        ≡ elim (lookup wildcard handlers) [ some h ↦ handler h | none ↦ template_error err ]
  unfolding serve_http
  serve_http-fallback err handlers h = ground (arith, find_kind-none handlers (kinds err) h)
