-- ===== src/Access/List/Laws.antt =====
-- Who serves a request behind a list of access controls.
use couper.Base.{
  ◌≡◌, ◌↔◌, ◌⊎◌, inl, inr, refl, Bool, true, not, ◌&&◌, List, [], ◌∷◌, ◌++◌, Option, none, some,
  arith, if◌then◌else◌,
}
use couper.Errors.{Error}
use couper.Access.List.{
  ListItem, item_error, is_disabled, error_handler, protected, validate_item, serve_http,
}

result_cases :
    {S : Type 0} (p : Option Error × S)
    → ((t : S) × (p ≡ (none, t))) ⊎ ((err : Error) × (t : S) × (p ≡ (some err, t)))
result_cases (none, t) = inl (t, refl)
result_cases (some err, t) = inr (err, t, refl)

module _ {S H : Type 0} (base : Error) (with_client_request : S → S) where
  -- Each control in turn accepts the request, in the context that the ones before it leave.
  abbrev pub Accepts : List (ListItem S H) → S → S → Type 0
  Accepts [] s s' = s ≡ s'
  Accepts (item ∷ acl) s s' =
      (t : S) × (item.validate s ≡ (none, t)) × Accepts acl (with_client_request t) s'

  private_after : Bool → Bool → ListItem S H → Bool
  private_after is_response private item =
      if is_response && not (is_disabled item.disable_private_caching) then true else private

  serve_accepted :
      (is_response private : Bool) (item : ListItem S H) (acl : List (ListItem S H)) (s t : S)
      → item.validate s ≡ (none, t)
      → serve_http base with_client_request is_response (item ∷ acl) s private
        ≡ serve_http base with_client_request is_response acl
            (with_client_request t)
            (private_after is_response private item)
  unfolding serve_http private_after validate_item
  serve_accepted is_response private item acl s t e = ground (arith, e)

  serve_refused :
      (is_response private : Bool) (item : ListItem S H) (acl : List (ListItem S H)) (s t : S)
      (err : Error)
      → item.validate s ≡ (some err, t)
      → serve_http base with_client_request is_response (item ∷ acl) s private ≡ (
        error_handler item.control_err_handler (item_error base item.kind item.label err),
        private_after is_response private item,
        t,
      )
  unfolding serve_http private_after validate_item
  serve_refused is_response private item acl s t err e = ground (arith, e)

  protected-Accepts :
      (is_response private : Bool) (acl : List (ListItem S H)) (s : S)
      → (serve_http base with_client_request is_response acl s private).0 ≡ protected
      → (s' : S) × Accepts acl s s'
  protected-Accepts is_response private [] s h = (s, refl)
  protected-Accepts is_response private (item ∷ acl) s h = elim (result_cases (item.validate s)) [
    | inl (t, e) ↦
        let (s', a) =
          protected-Accepts is_response (private_after is_response private item) acl
            (with_client_request t) (rw (serve_accepted is_response private item acl s t e) at h) in
        (s', (t, e, a))
    | inr (err, t, e) ↦
        absurd (refused (rw (serve_refused is_response private item acl s t err e) at h))
  ]
    where
      refused : {h : H} {err : Error} → error_handler h err ≡ protected → ⊥
      refused p = cc

  Accepts-protected :
      (is_response private : Bool) (acl : List (ListItem S H)) (s s' : S)
      → Accepts acl s s'
      → (serve_http base with_client_request is_response acl s private).0 ≡ protected
  Accepts-protected is_response private [] s s' a = unfold serve_http in refl
  Accepts-protected is_response private (item ∷ acl) s s' (t, e, a) =
      rw (serve_accepted is_response private item acl s t e) (
        Accepts-protected is_response (private_after is_response private item) acl
          (with_client_request t) s' a)

  -- The protected handler serves a request exactly when the Validate of each control of the list
  -- returns no error, in the context that the controls before it leave, each followed by the client
  -- request.
  pub protected_iff :
      (is_response private : Bool) (acl : List (ListItem S H)) (s : S)
      → ((serve_http base with_client_request is_response acl s private).0 ≡ protected)
        ↔ ((s' : S) × Accepts acl s s')
  protected_iff is_response private acl s = (
    protected-Accepts is_response private acl s,
    λ (s', a). Accepts-protected is_response private acl s s' a,
  )

  -- If the controls before one accept the request and that one does not, then the error handler of
  -- that one serves the request, with its error.
  pub first_refusal :
      (is_response private : Bool) (before after : List (ListItem S H)) (item : ListItem S H)
      (s t u : S) (err : Error)
      → Accepts before s t
      → item.validate t ≡ (some err, u)
      → (serve_http base with_client_request is_response (before ++ item ∷ after) s private).0
        ≡ error_handler item.control_err_handler (item_error base item.kind item.label err)
  first_refusal is_response private [] after item s t u err a e =
      rw (serve_refused is_response private item after s u err (rw a e))
  first_refusal is_response private (b ∷ before) after item s t u err (r, f, a) e =
      rw (serve_accepted is_response private b (before ++ item ∷ after) s r f) (
        first_refusal is_response (private_after is_response private b) before after item
          (with_client_request r) t u err a e)
