-- ===== src/Tests/Validate.antt =====
-- Small configurations, valid ones and others.
use couper.Base.{
  ◌≡◌, refl, Bool, true, false, List, [], ◌∷◌, Str, codes, eq_str, mem_str, has_prefix, has_suffix,
  trim_prefix, split, trim_space, trim, err,
}
use couper.Sequence.Resolve.{distinct}
use couper.Validate.{
  no_labels, backend_not_unique, signing_profile_not_unique, disabled_validation_with_ca, kind,
  label_characters, valid_label, is_reserved_context_name, check_ac, check_jwt_signing_profiles,
  blocks_of_type, validate_backend_tls, check_backend, check_jwt, check_kind, check_definition,
  check_definitions,
}
use couper.Validate.Unique.{
  is_accepted, first_label, any_label, all_fit, labels_where, check_definitions-accepts,
}
use couper.Validate.Patterns.{
  duplicate_endpoint, dot_segment, register_endpoints, register_endpoint_pattern, check_pattern,
  has_dot_segment, join_openapi_path, without_last_slash, add_elements, add_element,
  replace_variables, is_variable, has_byte,
}

record Block : Type 0 where
  type_of : Str
  labels : List Str
  attributes : List Str

abbrev has_attribute : Block → Str → Bool
has_attribute b name = mem_str name b.attributes

-- The tls block of each backend that disables the validation.
abbrev blocks : Block → List Block
blocks b =
    record {
      type_of = codes "tls";
      labels = [];
      attributes = codes "server_ca_certificate_file" ∷ [];
    }
    ∷ []

abbrev named : Str → Str → Block
named t l = record { type_of = t; labels = l ∷ []; attributes = [] }

abbrev jwt_block : Str → Block
jwt_block l = record {
  type_of = codes "jwt";
  labels = l ∷ [];
  attributes = codes "signing_ttl" ∷ [];
}

validating : Unit {0}
unfolding kind label_characters valid_label is_reserved_context_name check_ac
    check_jwt_signing_profiles blocks_of_type validate_backend_tls check_backend check_jwt
    check_kind check_definition check_definitions eq_str mem_str has_prefix trim_space trim
validating = tt

abbrev accepted : List Block
accepted =
    named (codes "backend") (codes "be")
    ∷ named (codes "proxy") (codes "be")
    ∷ jwt_block (codes " token ")
    ∷ named (codes "basic_auth") (codes "be")
    ∷ []

twice :
    check_definitions
      (λ b. b.type_of)
      (λ b. b.labels)
      has_attribute
      blocks
      false
      (named (codes "backend") (codes "be") ∷ named (codes "backend") (codes " be") ∷ [])
      no_labels
    ≡ err backend_not_unique
unfolding validating
twice = refl

profile_of_jwt :
    check_definitions
      (λ b. b.type_of)
      (λ b. b.labels)
      has_attribute
      blocks
      true
      (jwt_block (codes "token") ∷ named (codes "jwt_signing_profile") (codes "token") ∷ [])
      no_labels
    ≡ err signing_profile_not_unique
unfolding validating
profile_of_jwt = refl

unchecked :
    check_definitions
      (λ b. b.type_of)
      (λ b. b.labels)
      has_attribute
      blocks
      false
      (record {
        type_of = codes "backend";
        labels = codes "be" ∷ [];
        attributes = codes "disable_certificate_validation" ∷ [];
      }
        ∷ [])
      no_labels
    ≡ err disabled_validation_with_ca
unfolding validating
unchecked = refl

check_definitions-accepts_example :
    is_accepted (
      check_definitions
        (λ b. b.type_of)
        (λ b. b.labels)
        has_attribute
        blocks
        false
        accepted
        no_labels)
    ≡ true
unfolding validating first_label any_label all_fit labels_where distinct
check_definitions-accepts_example =
    check_definitions-accepts (λ b. b.type_of) (λ b. b.labels) has_attribute blocks false accepted

registering : Unit {0}
unfolding register_endpoints register_endpoint_pattern check_pattern has_dot_segment
    join_openapi_path without_last_slash add_elements add_element replace_variables is_variable
    has_byte has_prefix has_suffix trim_prefix split eq_str mem_str
registering = tt

-- The second pattern is the first one but for the name of its variable and the base path.
abbrev endpoints : List (Str × Str)
endpoints = (codes "/", codes "/api/{id}/x") ∷ (codes "/api", codes "/{name}/x") ∷ []

duplicate : register_endpoints false endpoints [] ≡ err duplicate_endpoint
unfolding registering
duplicate = refl

upwards : register_endpoints false ((codes "/", codes "/a/../b") ∷ []) [] ≡ err dot_segment
unfolding registering
upwards = refl
