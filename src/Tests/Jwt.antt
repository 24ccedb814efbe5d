-- ===== src/Tests/Jwt.antt =====
-- A token with the permission "read", in a configuration that maps permissions in a cycle.
use couper.Base.{
  ◌≡◌, ◌↔◌, refl, Bool, true, [], ◌∷◌, List, some, none, Str, codes, mem_str, ok, eq_str,
  trim_space,
}
use couper.Access.Jwt.{
  Jwt, Value, string, ClaimMap, NameMap, RequestContext, Parsed, valid, expired,
  get_granted_permissions, claimed_permissions, mapped_values, validate, accept,
}
use couper.Access.Jwt.Closure.{Derives, are_clean, get_granted_permissions_iff}
use couper.Access.Jwt.Claims.{validate-accepts_iff, Accepted}

abbrev read : Str
read = codes "read"

abbrev write : Str
write = codes "write"

abbrev mapping : NameMap
mapping = (read, write ∷ []) ∷ (write, read ∷ codes "log" ∷ []) ∷ []

abbrev control : Jwt
control = record {
  name = codes "jwt";
  claims_required = codes "sub" ∷ [];
  roles_claim = [];
  roles_map = none;
  permissions_claim = codes "scope";
  permissions_map = some mapping;
}

abbrev claims : ClaimMap
claims = (codes "sub", string (codes "me")) ∷ (codes "scope", string (codes "read  read")) ∷ []

granting : Unit {0}
unfolding are_clean mapped_values trim_space eq_str
granting = tt

get_granted_permissions_iff_example :
    (granted : List Str) × (get_granted_permissions control claims ≡ some granted)
    × ((p : Str)
        → (mem_str p granted ≡ true) ↔ Derives mapping (claimed_permissions control claims) p)
unfolding granting
get_granted_permissions_iff_example = get_granted_permissions_iff control claims mapping refl refl

abbrev differ : Value → Value → Bool
differ v w = true

abbrev parse : Str → Str → Str → Parsed
parse audience issuer token = if_valid audience
  where
    if_valid : Str → Parsed
    if_valid [] = expired
    if_valid s = valid claims

abbrev ctx : RequestContext
ctx = record { access_controls = []; granted_permissions = [] }

abbrev expected : ClaimMap
expected = (codes "aud", string (codes "us")) ∷ []

validate-accepts_iff_example :
    (validate differ parse control ctx (some (codes "token")) (ok (some expected))
      ≡ some (ok (accept control claims ctx (read ∷ []))))
    ↔ Accepted differ parse control ctx
        (accept control claims ctx (read ∷ []))
        (some (codes "token"))
        (ok (some expected))
validate-accepts_iff_example =
    validate-accepts_iff differ parse control ctx (accept control claims ctx (read ∷ []))
      (some (codes "token")) (ok (some expected))
