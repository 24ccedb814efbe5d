-- ===== src/Access/Jwt.antt =====
-- accesscontrol/jwt.go: which claims a token must have, and which permissions it grants. The
-- evaluation of the expected claims, the choice of the token and its parsing with the check of its
-- signature, issuer and audience come as their results; what is logged is left out. Claims are a map
-- from names to values of any type, of which the code looks at texts and arrays.
pub mod Mapped
pub mod Closure
pub mod Claims
use couper.Base.{
  ℕ, zero, suc, Bool, true, false, not, ◌&&◌, ◌||◌, List, [], ◌∷◌, ◌++◌, Option, none, some, Str,
  codes, eq_str, mem_str, trim_space, split, lookup, insert, length, Result, ok, err, if◌then◌else◌,
}

-- The elements of an array that are no texts are `none`. Any other value has a number, which stands
-- for what cmp.Diff compares.
pub data Value : Type 0 where
  string : Str → Value
  array : List (Option Str) → Value
  other : ℕ → Value

abbrev pub ClaimMap : Type 0
ClaimMap = List (Str × Value)

-- The maps of the configuration are nil if they are not given.
abbrev pub NameMap : Type 0
NameMap = List (Str × List Str)

pub record Jwt : Type 0 where
  pub name : Str
  pub claims_required : List Str
  pub roles_claim : Str
  pub roles_map : Option NameMap
  pub permissions_claim : Str
  pub permissions_map : Option NameMap

unfoldable pub add_permission : List Str → Str → List Str × Bool
unfolding trim_space
add_permission permissions permission =
    let p = trim_space permission in
    if eq_str p []
    then (permissions, false)
    else if mem_str p permissions
    then (permissions, false)
    else (permissions ++ (p ∷ []), true)

-- A loop that does not ask whether a value was added.
unfoldable pub add_all : List Str → List Str → List Str
add_all permissions [] = permissions
add_all permissions (p ∷ ps) = add_all (add_permission permissions p).0 ps

-- The values of an array, if all of them are texts.
unfoldable pub all_texts : List (Option Str) → Option (List Str)
all_texts [] = some []
all_texts (none ∷ vs) = none
all_texts (some v ∷ vs) = elim (all_texts vs) [ none ↦ none | some ps ↦ some (v ∷ ps) ]

-- getRoleValues, which the permissions claim is read like: `none` for an invalid type.
unfoldable pub texts_of : Value → Option (List Str)
unfolding split
texts_of (string s) = some (split b' ' s)
texts_of (array vs) = all_texts vs
texts_of (other n) = none

unfoldable pub claim_texts : Option Value → List Str
claim_texts none = []
claim_texts (some v) = elim (texts_of v) [ none ↦ [] | some ps ↦ ps ]

unfoldable pub add_permissions_from_permissions_claim : Jwt → ClaimMap → List Str → List Str
add_permissions_from_permissions_claim j token_claims permissions =
    if eq_str j.permissions_claim []
    then permissions
    else add_all permissions (claim_texts (lookup j.permissions_claim token_claims))

abbrev pub entry : Option (List Str) → List Str
entry none = []
entry (some ps) = ps

unfoldable pub add_roles : NameMap → List Str → List Str → List Str
add_roles roles permissions [] = permissions
add_roles roles permissions (r ∷ rs) =
    add_roles roles (add_all permissions (entry (lookup r roles))) rs

abbrev pub star : Str
star = codes "*"

-- The part for a claim that the token has.
unfoldable pub add_role_values : NameMap → List Str → Option Value → List Str
add_role_values roles permissions none = permissions
add_role_values roles permissions (some v) =
    add_all (add_roles roles permissions (claim_texts (some v))) (entry (lookup star roles))

unfoldable pub add_permissions_from_roles : Jwt → ClaimMap → List Str → List Str
add_permissions_from_roles j token_claims permissions = elim j.roles_map [
  | none ↦ permissions
  | some roles ↦
      if eq_str j.roles_claim []
      then permissions
      else add_role_values roles permissions (lookup j.roles_claim token_claims)
]

-- The inner loop: the new target, and `l`, the mapped values that were added.
unfoldable pub add_new : List Str → List Str → List Str × List Str
add_new [] target = (target, [])
add_new (mv ∷ mvs) target =
    let (target', added) = add_permission target mv in
    let (target'', l) = add_new mvs target' in (target'', (if added then mv ∷ l else l))

-- `none` means that the fuel, which each level of the recursion takes, ran out.
unfoldable pub add_mapped_permissions : ℕ → NameMap → List Str → List Str → Option (List Str)
add_mapped_permissions fuel m [] target = some target
add_mapped_permissions zero m (val ∷ source) target = none
add_mapped_permissions (suc fuel) m (val ∷ source) target = elim (lookup val m) [
  | none ↦ add_mapped_permissions (suc fuel) m source target
  | some mapped ↦
      elim (add_mapped_permissions fuel m (add_new mapped target).1 (add_new mapped target).0) [
        | none ↦ none
        | some target' ↦ add_mapped_permissions (suc fuel) m source target'
      ]
]

unfoldable pub mapped_values : NameMap → List Str
mapped_values [] = []
mapped_values ((k, vs) ∷ m) = vs ++ mapped_values m

-- The permissions of the two claims, without the mapped ones.
unfoldable pub claimed_permissions : Jwt → ClaimMap → List Str
claimed_permissions j token_claims =
    add_permissions_from_roles j token_claims
      (add_permissions_from_permissions_claim j token_claims [])

-- The fuel is one more than there are mapped values.
unfoldable pub get_granted_permissions : Jwt → ClaimMap → Option (List Str)
get_granted_permissions j token_claims =
    let granted = claimed_permissions j token_claims in
    elim j.permissions_map [
      | none ↦ some granted
      | some m ↦ add_mapped_permissions (suc (length (mapped_values m))) m granted granted
    ]

-- The first required claim that is missing, or an unexpected value; `differ` is cmp.Diff.
unfoldable pub has_required : List Str → ClaimMap → Bool
has_required [] token_claims = true
has_required (key ∷ keys) token_claims = elim (lookup key token_claims) [
  | none ↦ false
  | some v ↦ has_required keys token_claims
]

abbrev pub is_parsed_claim : Str → Bool
is_parsed_claim k = eq_str k (codes "iss") || eq_str k (codes "aud")

unfoldable pub has_expected : (differ : Value → Value → Bool) → ClaimMap → ClaimMap → Bool
has_expected differ [] token_claims = true
has_expected differ ((k, v) ∷ expected) token_claims =
    let rest = has_expected differ expected token_claims in
    elim (lookup k token_claims) [
      | none ↦ false
      | some val ↦ if is_parsed_claim k then rest else if differ v val then false else rest
    ]

-- Whether validateClaims returns no error.
unfoldable pub validate_claims : (differ : Value → Value → Bool) → Jwt → ClaimMap → ClaimMap → Bool
validate_claims differ j token_claims expected_claims =
    has_required j.claims_required token_claims && has_expected differ expected_claims token_claims

pub data Error : Type 0 where
  jwt_token_missing jwt_token_expired jwt_token_invalid : Error
  configuration evaluation : Error

abbrev pub is_text : Option Value → Bool
is_text none = true
is_text (some (string s)) = true
is_text (some v) = false

-- getConfiguredClaims, on the claims that the expression gives; `none` is a null value.
unfoldable pub get_configured_claims : Result Error (Option ClaimMap) → Result Error ClaimMap
get_configured_claims (err e) = err e
get_configured_claims (ok none) = ok []
get_configured_claims (ok (some claims)) =
    if not (is_text (lookup (codes "iss") claims))
    then err configuration
    else if not (is_text (lookup (codes "aud") claims))
    then err configuration
    else ok claims

-- The parts of a request's context that Validate changes.
pub record RequestContext : Type 0 where
  pub access_controls : List (Str × ClaimMap)
  pub granted_permissions : List Str

pub data Parsed : Type 0 where
  expired invalid : Parsed
  valid : ClaimMap → Parsed

abbrev pub text_of : Option Value → Str
text_of (some (string s)) = s
text_of v = []

unfoldable pub accept : Jwt → ClaimMap → RequestContext → List Str → RequestContext
accept j token_claims ctx granted = record {
  access_controls = insert j.name token_claims ctx.access_controls;
  granted_permissions = ctx.granted_permissions ++ granted;
}

module _ (differ : Value → Value → Bool) (parse : (audience issuer token : Str) → Parsed) where
  -- Validate, from the parsed token on.
  unfoldable pub validate_token :
      Jwt → RequestContext → ClaimMap → Parsed → Option (Result Error RequestContext)
  validate_token j ctx expected_claims expired = some (err jwt_token_expired)
  validate_token j ctx expected_claims invalid = some (err jwt_token_invalid)
  validate_token j ctx expected_claims (valid token_claims) =
      if validate_claims differ j token_claims expected_claims
      then elim (get_granted_permissions j token_claims) [
        | none ↦ none
        | some granted ↦ some (ok (accept j token_claims ctx granted))
      ]
      else some (err jwt_token_invalid)

  -- Validate; `token` is `none` if the source has no token.
  unfoldable pub validate :
      Jwt
      → RequestContext
      → (token : Option Str) → Result Error (Option ClaimMap)
      → Option (Result Error RequestContext)
  validate j ctx none claims = some (err jwt_token_missing)
  validate j ctx (some token) claims = elim (get_configured_claims claims) [
    | err e ↦ some (err e)
    | ok expected ↦ validate_token j ctx expected (
        parse (text_of (lookup (codes "aud") expected)) (text_of (lookup (codes "iss") expected))
          token)
  ]
