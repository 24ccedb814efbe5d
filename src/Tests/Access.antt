-- ===== src/Tests/Access.antt =====
-- Access controls on small inputs.
use couper.Base.{
  ℕ, ◌+◌, ◌≡◌, ◌≢◌, ◌↔◌, refl, Bool, true, false, List, [], ◌∷◌, ◌++◌, none, some, Str, codes,
  eq_str, to_lower, trim, trim_left, mem_str, lookup, insert, In, ok, err, if◌then◌else◌,
}
use couper.Errors.{foreign, nil}
use couper.Access.List.{ListItem, protected, validate_item, serve_http}
use couper.Access.List.Laws.{Accepts, protected_iff}
use couper.Access.Permissions.{
  method_not_allowed, PermissionMap, set_all, override, permission_map, new_required_permissions,
  get_permission, check_granted, validate,
}
use couper.Access.Permissions.Laws.{validate_iff}
use couper.Access.TokenSource.{get_bearer}
use couper.Access.TokenSource.Laws.{get_bearer-append}

-- A control that counts in the context and accepts below a bound.
abbrev control : ℕ → (ℕ → Bool) → ListItem ℕ ℕ
control h accepts = record {
  validate = λ s. ((if accepts s then none else some (foreign (codes "no"))), s + 1);
  disable_private_caching = some false;
  control_err_handler = h;
  kind = codes "basic_auth";
  label = codes "ac";
}

abbrev yes_control : ListItem ℕ ℕ
yes_control = control 1 (λ s. true)

abbrev no_control : ListItem ℕ ℕ
no_control = control 2 (λ s. false)

list_runs :
    serve_http nil (λ (s : ℕ). s) true (yes_control ∷ yes_control ∷ []) 5 false
    ≡ (protected, true, 7)
unfolding serve_http validate_item
list_runs = refl

protected_iff_example :
    ((serve_http nil (λ (s : ℕ). s) true (yes_control ∷ []) 5 false).0 ≡ protected)
    ↔ ((s' : ℕ) × Accepts nil (λ s. s) (yes_control ∷ []) 5 s')
protected_iff_example = protected_iff nil (λ s. s) true false (yes_control ∷ []) 5

permission_ops : Unit {0}
unfolding get_permission new_required_permissions permission_map override set_all lookup insert
    eq_str mem_str validate check_granted
permission_ops = tt

abbrev by_method : PermissionMap
by_method = (codes "GET", codes "read") ∷ (codes "*", codes "write") ∷ []

trace_refused :
    get_permission (new_required_permissions [] (some by_method)) (codes "TRACE")
    ≡ err method_not_allowed
unfolding permission_ops
trace_refused = refl

required_read :
    get_permission (new_required_permissions [] (some by_method)) (codes "GET") ≡ ok (codes "read")
unfolding permission_ops
required_read = refl

read_ne_empty : codes "read" ≢ []
read_ne_empty = cc

validate_iff_example :
    (validate (some (ok ([], some by_method))) (codes "GET") (some (codes "read" ∷ []))
      ≡ ok (some (codes "read")))
    ↔ ((gp : List Str) × (some (codes "read" ∷ []) ≡ some gp) × In (codes "read") gp)
validate_iff_example =
    validate_iff [] (codes "GET") (codes "read") (some by_method) (some (codes "read" ∷ []))
      required_read read_ne_empty

get_bearer-append_example : get_bearer (codes "BeArEr " ++ codes "t0k en") ≡ ok (codes "t0k en")
unfolding to_lower trim_left
get_bearer-append_example = get_bearer-append (codes "BeArEr ") (codes "t0k en") refl (refl, refl)

bearer_spaces : get_bearer (codes "Bearer   x  ") ≡ ok (codes "x")
unfolding get_bearer trim
bearer_spaces = refl
