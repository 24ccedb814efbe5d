-- ===== src/Access/Permissions/Laws.antt =====
-- Which permission a method requires, and who gets through.
use couper.Base.{
  ◌≡◌, ◌≢◌, ◌↔◌, inl, inr, Option-cases, refl, ◌∙◌, true, false, List, [], ◌∷◌, Option, none, some,
  arith, Str, eq_str, eq_str_iff, mem_str, lookup, insert, lookup-insert, HasDistinctKeys,
  lookup-IsAbsent, ok, err, In, if◌then◌else◌,
}
use couper.Access.Permissions.{
  method_not_allowed, star, default_endpoint_allowed_methods, PermissionMap, set_all, override,
  permission_map, new_required_permissions, get_permission, check_granted, validate,
}

lookup-set_all :
    (methods : List Str) (p method : Str) (m : PermissionMap)
    → lookup method (set_all methods p m)
      ≡ (if mem_str method methods then some p else lookup method m)
unfolding set_all mem_str
lookup-set_all [] p method m = refl
lookup-set_all (x ∷ methods) p method m =
    lookup-set_all methods p method (insert x p m) ∙ ground (arith, lookup-insert x method p m)

lookup-override :
    (given : PermissionMap) (method : Str) (m : PermissionMap)
    → HasDistinctKeys given
    → lookup method (override given m) ≡ (
        if eq_str method star
        then lookup method m
        else elim (lookup method given) [ some p ↦ some p | none ↦ lookup method m ])
unfolding override lookup
lookup-override [] method m d = ground arith
lookup-override ((x, p) ∷ rest) method m (a, d) =
    lookup-override rest method (if eq_str x star then m else insert x p m) d
    ∙ ground (
      arith,
      lookup-insert x method p m,
      eq_str_iff x star,
      eq_str_iff method star,
      eq_str_iff x method,
      lookup-IsAbsent x rest a,
    )

lookup-permission_map :
    (given : PermissionMap) (method : Str)
    → HasDistinctKeys given
    → eq_str method star ≡ false
    → lookup method (permission_map given) ≡ elim (lookup method given) [
      | some p ↦ some p
      | none ↦ if mem_str method default_endpoint_allowed_methods then lookup star given else none
    ]
unfolding permission_map
lookup-permission_map given method d ns = elim (Option-cases (lookup star given)) [
  | inl e ↦ ground (arith, e, ns, lookup-override given method [] d, nothing)
  | inr (other, e) ↦ ground (
    arith,
    e,
    ns,
    lookup-override given method (set_all default_endpoint_allowed_methods other []) d,
    lookup-set_all default_endpoint_allowed_methods other method [],
    nothing,
  )
]
  where
    nothing : lookup {V = Str} method [] ≡ none
    nothing = unfold lookup in refl

-- For a map whose keys are different and a method other than "*", the permission for the method
-- itself wins over the one for "*"; the latter stands for the default methods only, and a method
-- with neither is not allowed.
pub get_permission_lem :
    (permission method : Str) (given : PermissionMap)
    → HasDistinctKeys given
    → eq_str method star ≡ false
    → get_permission (new_required_permissions permission (some given)) method
      ≡ elim (lookup method given) [
        | some p ↦ ok p
        | none ↦
            if mem_str method default_endpoint_allowed_methods
            then elim (lookup star given) [ some other ↦ ok other | none ↦ err method_not_allowed ]
            else err method_not_allowed
      ]
unfolding get_permission new_required_permissions
get_permission_lem permission method given d ns =
    ground (arith, lookup-permission_map given method d ns)

mem_str-In : (s : Str) (ts : List Str) → mem_str s ts ≡ true → In s ts
unfolding mem_str
mem_str-In s [] h = ground (arith, h)
mem_str-In s (t ∷ ts) h = ground (arith, eq_str_iff t s, mem_str-In s ts)

In-mem_str : (s : Str) (ts : List Str) → In s ts → mem_str s ts ≡ true
unfolding mem_str
In-mem_str s [] h = absurd h
In-mem_str s (t ∷ ts) h = ground (arith, eq_str_iff t s, In-mem_str s ts)

-- Where a method requires a permission that is not empty, the request passes, with that permission
-- in its context, exactly when the granted permissions hold it.
pub validate_iff :
    (permission method required : Str) (given : Option PermissionMap) (granted : Option (List Str))
    → get_permission (new_required_permissions permission given) method ≡ ok required
    → required ≢ []
    → (validate (some (ok (permission, given))) method granted ≡ ok (some required))
      ↔ ((gp : List Str) × (granted ≡ some gp) × In required gp)
unfolding validate check_granted
validate_iff permission method required given none e ne =
    (λ p. ground (arith, p, e, eq_str_iff required []), λ p. ground (arith, p.1))
validate_iff permission method required given (some gp) e ne = (
  λ p. (gp, refl, mem_str-In required gp (ground (arith, p, e, ne, eq_str_iff required []))),
  λ p. let m = In-mem_str required p.0 p.2 in ground (arith, e, ne, m, p.1, eq_str_iff required []),
)
