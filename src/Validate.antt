-- ===== src/Validate.antt =====
-- The blocks of a definitions block in validateBody of config/configload/validate.go, with checkAC,
-- checkJWTSigningProfiles, validLabel and validateBackendTLS. The blocks of the library hclsyntax are
-- read through parameters. An error carries its summary, without the range.
pub mod Fresh
pub mod Unique
pub mod Patterns
use couper.Base.{
  ◌==◌, leb, if◌then◌else◌, Bool, true, false, not, ◌&&◌, ◌||◌, List, [], ◌∷◌, Str, codes, eq_str,
  has_prefix, trim_space, mem_str, Result, ok, err,
}

-- Which case of the switch a type of a block is.
pub data Kind : Type 0 where
  backend access_control jwt jwt_signing_profile proxy other : Kind

unfoldable pub kind : Str → Kind
unfolding eq_str
kind t =
    if eq_str t (codes "backend")
    then backend
    else if eq_str t (codes "basic_auth")
        || eq_str t (codes "beta_oauth2")
        || eq_str t (codes "oidc")
        || eq_str t (codes "saml")
    then access_control
    else if eq_str t (codes "jwt")
    then jwt
    else if eq_str t (codes "jwt_signing_profile")
    then jwt_signing_profile
    else if eq_str t (codes "proxy")
    then proxy
    else other

-- The summaries; `no_label_panic` is the index 0 of no labels.
pub data Refusal : Type 0 where
  missing_label no_label_panic label_is_empty label_contains_invalid_characters : Refusal
  label_starts_with_anonymous backend_not_unique disabled_validation_with_ca : Refusal
  access_control_requires_label access_control_uses_reserved_name : Refusal
  access_control_not_unique signing_profile_not_unique proxy_not_unique : Refusal

-- The maps of the labels that were seen.
pub record Labels : Type 0 where
  pub backends : List Str
  pub access_controls : List Str
  pub signing_profiles : List Str
  pub proxies : List Str

abbrev pub no_labels : Labels
no_labels = record { backends = []; access_controls = []; signing_profiles = []; proxies = [] }

-- ^[a-zA-Z0-9_]+$
unfoldable pub label_characters : Str → Bool
label_characters [] = true
label_characters (c ∷ cs) =
    ((leb b'a' c && leb c b'z')
      || (leb b'A' c && leb c b'Z')
      || (leb b'0' c && leb c b'9')
      || (c == b'_'))
    && label_characters cs

unfoldable pub valid_label : Str → Result Refusal (Unit {0})
valid_label [] = err label_is_empty
valid_label (c ∷ cs) =
    if label_characters (c ∷ cs) then ok tt else err label_contains_invalid_characters

unfoldable pub is_reserved_context_name : Str → Bool
is_reserved_context_name name =
    eq_str name (codes "granted_permissions") || eq_str name (codes "required_permission")

unfoldable pub check_ac : (after_merge : Bool) → Str → Labels → Result Refusal Labels
check_ac after_merge label s =
    if not after_merge && eq_str label []
    then err access_control_requires_label
    else if not after_merge && is_reserved_context_name label
    then err access_control_uses_reserved_name
    else if mem_str label s.access_controls
    then err access_control_not_unique
    else ok (record s { access_controls = label ∷ s.access_controls })

unfoldable pub check_jwt_signing_profiles : Str → Labels → Result Refusal Labels
check_jwt_signing_profiles label s =
    if mem_str label s.signing_profiles
    then err signing_profile_not_unique
    else ok (record s { signing_profiles = label ∷ s.signing_profiles })

module _ {B : Type 0} (type_of : B → Str) (labels : B → List Str) (has_attribute : B → Str → Bool)
    (blocks : B → List B) where
  unfoldable pub blocks_of_type : Str → List B → List B
  blocks_of_type t [] = []
  blocks_of_type t (b ∷ bs) =
      let rest = blocks_of_type t bs in if eq_str (type_of b) t then b ∷ rest else rest

  -- For the tls blocks of a backend.
  abbrev pub names_ca : List B → Bool
  names_ca [] = false
  names_ca (tls ∷ _) =
      has_attribute tls (codes "server_ca_certificate")
      || has_attribute tls (codes "server_ca_certificate_file")

  unfoldable pub validate_backend_tls : B → Result Refusal (Unit {0})
  validate_backend_tls b =
      if has_attribute b (codes "disable_certificate_validation")
        && names_ca (blocks_of_type (codes "tls") (blocks b))
      then err disabled_validation_with_ca
      else ok tt

  unfoldable pub check_backend : (after_merge : Bool) → B → Str → Labels → Result Refusal Labels
  check_backend after_merge b label s = elim (if after_merge then ok tt else valid_label label) [
    | err e ↦ err e
    | ok _ ↦
        if not after_merge && has_prefix label (codes "anonymous_")
        then err label_starts_with_anonymous
        else if not after_merge && mem_str label s.backends
        then err backend_not_unique
        else elim (validate_backend_tls b) [
          | err e ↦ err e
          | ok _ ↦
              ok (record s { backends = if after_merge then s.backends else label ∷ s.backends })
        ]
  ]

  unfoldable pub check_jwt : (after_merge : Bool) → B → Str → Labels → Result Refusal Labels
  check_jwt after_merge b label s = elim (check_ac after_merge label s) [
    | err e ↦ err e
    | ok s' ↦
        if has_attribute b (codes "signing_ttl") then check_jwt_signing_profiles label s' else ok s'
  ]

  unfoldable pub check_kind : (after_merge : Bool) → Kind → B → Str → Labels → Result Refusal Labels
  check_kind after_merge backend b label s = check_backend after_merge b label s
  check_kind after_merge access_control b label s = check_ac after_merge label s
  check_kind after_merge jwt b label s = check_jwt after_merge b label s
  check_kind after_merge jwt_signing_profile b label s = check_jwt_signing_profiles label s
  check_kind after_merge proxy b label s =
      if after_merge
      then ok s
      else if mem_str label s.proxies
      then err proxy_not_unique
      else ok (record s { proxies = label ∷ s.proxies })
  check_kind after_merge other b label s = ok s

  unfoldable pub check_definition : (after_merge : Bool) → B → Labels → Result Refusal Labels
  check_definition after_merge b s = elim (labels b) [
    | [] ↦ err (if after_merge then no_label_panic else missing_label)
    | label ∷ _ ↦ check_kind after_merge (kind (type_of b)) b (trim_space label) s
  ]

  unfoldable pub check_definitions : (after_merge : Bool) → List B → Labels → Result Refusal Labels
  check_definitions after_merge [] s = ok s
  check_definitions after_merge (b ∷ bs) s = elim (check_definition after_merge b s) [
    | err e ↦ err e
    | ok s' ↦ check_definitions after_merge bs s'
  ]
