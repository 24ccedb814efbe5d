-- ===== src/Access/Permissions.antt =====
-- accesscontrol/permissions.go, with DefaultEndpointAllowedMethods of
-- handler/middleware/allowed_methods.go. The evaluation of the expression and its conversion,
-- eval.Value and seetie.ValueToPermission, come as their result.
pub mod Laws
use couper.Base.{
  Bool, true, false, ◌||◌, List, [], ◌∷◌, Option, none, some, Str, codes, eq_str, mem_str, lookup,
  insert, Result, ok, err, if◌then◌else◌,
}

pub data Failure : Type 0 where
  evaluation method_not_allowed no_permissions_granted permission_not_granted : Failure

abbrev pub star : Str
star = codes "*"

abbrev pub default_endpoint_allowed_methods : List Str
default_endpoint_allowed_methods =
    codes "GET"
    ∷ codes "HEAD"
    ∷ codes "POST"
    ∷ codes "PUT"
    ∷ codes "PATCH"
    ∷ codes "DELETE"
    ∷ codes "OPTIONS"
    ∷ []

-- A nil map is `none`.
abbrev pub PermissionMap : Type 0
PermissionMap = List (Str × Str)

pub record RequiredPermissions : Type 0 where
  pub permission : Str
  pub permissions : Option PermissionMap

unfoldable pub set_all : List Str → Str → PermissionMap → PermissionMap
set_all [] p m = m
set_all (method ∷ methods) p m = set_all methods p (insert method p m)

unfoldable pub override : PermissionMap → PermissionMap → PermissionMap
unfolding eq_str
override [] m = m
override ((method, permission) ∷ rest) m =
    override rest (if eq_str method star then m else insert method permission m)

unfoldable pub permission_map : PermissionMap → PermissionMap
permission_map given = override given (elim (lookup star given) [
  | none ↦ []
  | some other ↦ set_all default_endpoint_allowed_methods other []
])

unfoldable pub new_required_permissions : Str → Option PermissionMap → RequiredPermissions
new_required_permissions permission none = record { permission = permission; permissions = none }
new_required_permissions permission (some given) = record {
  permission = [];
  permissions = some (permission_map given);
}

unfoldable pub get_permission : RequiredPermissions → Str → Result Failure Str
get_permission rp method = elim rp.permissions [
  | none ↦ ok rp.permission
  | some m ↦ elim (lookup method m) [ none ↦ err method_not_allowed | some p ↦ ok p ]
]

-- The check of the granted permissions against a required one. `some` of the result is the value
-- that the context then holds as required permission.
unfoldable pub check_granted : Option (List Str) → Str → Result Failure (Option Str)
unfolding eq_str
check_granted granted required = if eq_str required [] then ok none else elim granted [
  | none ↦ err no_permissions_granted
  | some gp ↦ if mem_str required gp then ok (some required) else err permission_not_granted
]

-- Validate; `none` is a control with no expression.
unfoldable pub validate :
    Option (Result Failure (Str × Option PermissionMap))
    → (method : Str) → (granted : Option (List Str)) → Result Failure (Option Str)
validate none method granted = ok none
validate (some (err e)) method granted = err evaluation
validate (some (ok (permission, given))) method granted =
    elim (get_permission (new_required_permissions permission given) method) [
      | err e ↦ err e
      | ok required ↦ check_granted granted required
    ]
