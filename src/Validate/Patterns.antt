-- ===== src/Validate/Patterns.antt =====
-- The endpoints of a server in validateBody of config/configload/validate.go, with
-- registerEndpointPattern, checkPathSegments and JoinOpenAPIPath of utils/path.go. The base paths,
-- joined by path.Join, are inputs.
use couper.Base.{
  ℕ, ◌==◌, if◌then◌else◌, ◌≡◌, ◌∙◌, refl, Bool, true, false, not, ◌&&◌, ◌||◌, List, [], ◌∷◌, ◌++◌,
  Str, codes, eq_str, has_prefix, has_suffix, trim_prefix, split, mem_str, Result, ok, err, arith,
  Bool-cases,
}
use couper.Sequence.Resolve.{distinct}
use couper.Validate.Fresh.{fresh, fresh_nil}

pub data PatternRefusal : Type 0 where
  must_start_with_slash dot_segment duplicate_endpoint : PatternRefusal

abbrev slash : Str
slash = b'/' ∷ []

unfoldable pub has_dot_segment : List Str → Bool
has_dot_segment [] = false
has_dot_segment (segment ∷ segments) =
    (eq_str segment (codes ".") || eq_str segment (codes "..")) || has_dot_segment segments

-- The elements without a last one that is "/".
unfoldable pub without_last_slash : List Str → List Str
without_last_slash [] = []
without_last_slash (e ∷ []) = if eq_str e slash then [] else e ∷ []
without_last_slash (e ∷ f ∷ es) = e ∷ without_last_slash (f ∷ es)

unfoldable pub add_element : Str → Str → Str
add_element result [] =
    if not (eq_str result []) && has_suffix result slash then result else result ++ slash
add_element result (c ∷ cs) =
    if has_prefix (c ∷ cs) slash && not (not (eq_str result []) && has_suffix result slash)
    then (result ++ slash) ++ trim_prefix (c ∷ cs) slash
    else result ++ trim_prefix (c ∷ cs) slash

unfoldable pub add_elements : Str → List Str → Str
add_elements result [] = result
add_elements result (e ∷ es) = add_elements (add_element result e) es

unfoldable pub join_openapi_path : List Str → Str
join_openapi_path es = add_elements [] (without_last_slash es)

unfoldable pub has_byte : ℕ → Str → Bool
has_byte c [] = false
has_byte c (d ∷ s) = (d == c) || has_byte c s

-- Whether {([^}]+)} matches a brace and this text behind it.
unfoldable pub is_variable : Str → Bool
is_variable [] = false
is_variable (c ∷ s) = not (c == b'}') && has_byte b'}' s

-- reCleanPattern.ReplaceAllString(pattern, "{}"); the flag says that a match has begun.
unfoldable pub replace_variables : (in_variable : Bool) → Str → Str
replace_variables in_variable [] = []
replace_variables true (c ∷ s) =
    if c == b'}' then c ∷ replace_variables false s else replace_variables true s
replace_variables false (c ∷ s) =
    if (c == b'{') && is_variable s
    then c ∷ replace_variables true s
    else c ∷ replace_variables false s

abbrev pub clean_pattern : (base_path pattern : Str) → Str
clean_pattern base_path pattern =
    replace_variables false (join_openapi_path (base_path ∷ pattern ∷ []))

unfoldable pub check_pattern : Str → Result PatternRefusal (Unit {0})
check_pattern pattern =
    if not (has_prefix pattern slash)
    then err must_start_with_slash
    else if has_dot_segment (split b'/' pattern)
    then err dot_segment
    else ok tt

unfoldable pub register_endpoint_pattern :
    (after_merge : Bool) → (base_path pattern : Str) → List Str → Result PatternRefusal (List Str)
register_endpoint_pattern after_merge base_path pattern seen =
    elim (if after_merge then ok tt else check_pattern pattern) [
      | err e ↦ err e
      | ok _ ↦
          if mem_str (clean_pattern base_path pattern) seen
          then err duplicate_endpoint
          else ok (clean_pattern base_path pattern ∷ seen)
    ]

-- The endpoints of a server and of its APIs, each with its base path.
unfoldable pub register_endpoints :
    (after_merge : Bool) → List (Str × Str) → List Str → Result PatternRefusal (List Str)
register_endpoints after_merge [] seen = ok seen
register_endpoints after_merge ((base_path, pattern) ∷ es) seen =
    elim (register_endpoint_pattern after_merge base_path pattern seen) [
      | err e ↦ err e
      | ok seen' ↦ register_endpoints after_merge es seen'
    ]

abbrev pub is_registered : Result PatternRefusal (List Str) → Bool
is_registered (ok s) = true
is_registered (err e) = false

unfoldable pub all_valid : (after_merge : Bool) → List (Str × Str) → Bool
all_valid after_merge [] = true
all_valid after_merge ((base_path, pattern) ∷ es) =
    (after_merge || has_prefix pattern slash && not (has_dot_segment (split b'/' pattern)))
    && all_valid after_merge es

unfoldable pub clean_patterns : List (Str × Str) → List Str
clean_patterns [] = []
clean_patterns ((base_path, pattern) ∷ es) = clean_pattern base_path pattern ∷ clean_patterns es

register_endpoints_lem :
    (after_merge : Bool) (es : List (Str × Str)) (seen : List Str)
    → is_registered (register_endpoints after_merge es seen)
      ≡ (all_valid after_merge es && fresh seen (clean_patterns es))
unfolding register_endpoints register_endpoint_pattern check_pattern all_valid clean_patterns fresh
register_endpoints_lem after_merge [] seen = refl
register_endpoints_lem after_merge ((base_path, pattern) ∷ es) seen = ground (
  arith,
  register_endpoints_lem after_merge es (clean_pattern base_path pattern ∷ seen),
  Bool-cases after_merge,
  Bool-cases (has_prefix pattern slash),
  Bool-cases (has_dot_segment (split b'/' pattern)),
  Bool-cases (mem_str (clean_pattern base_path pattern) seen),
  Bool-cases (all_valid after_merge es),
)

-- The endpoints of a server and of its APIs are accepted exactly when, before the merge, each
-- pattern starts with a slash and has no segment "." or "..", and no two of them have the same
-- path, joined from base path and pattern, where each variable is replaced by "{}".
pub register_endpoints-accepts :
    (after_merge : Bool) (es : List (Str × Str))
    → is_registered (register_endpoints after_merge es [])
      ≡ (all_valid after_merge es && distinct (clean_patterns es))
register_endpoints-accepts after_merge es =
    register_endpoints_lem after_merge es [] ∙ rw (fresh_nil (clean_patterns es)) refl
