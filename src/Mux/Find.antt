-- ===== src/Mux/Find.antt =====
-- Registration and choice of handlers: mustAddRoute, RegisterConfigured, FindHandler of
-- server/mux.go. The router of gorilla/mux is a parameter: what its Match returns for the routes
-- that were added, in the order of their registration. So is what the file handlers answer.
use couper.Base.{
  All, ◌-◌, ◌≡◌, ◌↔◌, Bool, true, false, List, [], ◌∷◌, ◌++◌, Option, none, some, arith, Str, codes,
  eq_str, has_suffix, trim_prefix, trim_suffix, replace_first, lookup, insert, length, take,
  if◌then◌else◌,
}
use couper.Mux.Paths.{api_error, LiesIn, api_error-none, slash}

-- root.Path or root.PathPrefix; the name "**" marks a wildcard.
pub data Pattern : Type 0 where
  exact prefix : Str → Pattern

pub record Route (H : Type 0) : Type 0 where
  pub pattern : Pattern
  pub wild : Bool
  pub handler : H

abbrev pub wildcard_search : Str
wildcard_search = codes "/**"

module _ {H : Type 0} where
  -- The routes of a path that ends in "/**", without this end.
  unfoldable pub wildcard_routes : Str → H → List (Route H)
  wildcard_routes path h =
      if eq_str path []
      then record { pattern = prefix slash; wild = true; handler = h } ∷ []
      else record { pattern = exact path; wild = true; handler = h }
        ∷ record {
          pattern = prefix (if has_suffix path slash then path else path ++ slash);
          wild = true;
          handler = h;
        }
        ∷ []

  -- The routes of any other path, registered with and without a slash at the end if asked for.
  unfoldable pub plain_routes : Str → H → Bool → List (Route H)
  plain_routes path h trailing_slash =
      let at_least = (if eq_str path [] then slash else path) in
      let bare = trim_suffix at_least slash in
      let slashed : List (Route H) =
        record { pattern = exact (bare ++ slash); wild = false; handler = h } ∷ [] in
      if trailing_slash
      then (if eq_str bare []
          then slashed
          else record { pattern = exact bare; wild = false; handler = h } ∷ slashed)
      else record { pattern = exact at_least; wild = false; handler = h } ∷ []

  -- What mustAddRoute adds to a router.
  unfoldable pub must_add_route : Str → H → Bool → List (Route H)
  must_add_route path h trailing_slash =
      if has_suffix path wildcard_search
      then wildcard_routes (take (length path - length wildcard_search) path) h
      else plain_routes path h trailing_slash

  -- One of the loops of RegisterConfigured: the routes of a map of handlers, in the order of their
  -- paths. `join` is what the loop makes of a path.
  unfoldable pub register : (join : Str → Str) → Bool → List (Str × H) → List Str → List (Route H)
  register join trailing_slash handlers [] = []
  register join trailing_slash handlers (path ∷ paths) = elim (lookup path handlers) [
    | none ↦ register join trailing_slash handlers paths
    | some h ↦
        must_add_route (join path) h trailing_slash ++ register join trailing_slash handlers paths
  ]

pub record RouteMatch (H : Type 0) : Type 0 where
  pub route : Route H
  pub vars : List (Str × Str)

pub record Mux (H A : Type 0) : Type 0 where
  pub endpoint_root : List (Route H)
  pub file_root : List (Route H)
  pub spa_root : List (Route H)
  pub api_base_paths : List (A × Str)
  pub spa_base_paths : List Str
  pub files_base_paths : List Str

-- What FindHandler returns: a route not found in an API or in the server, the handler of a files
-- block, or the handler of a route with what goes into the context.
pub data Found (H A : Type 0) : Type 0 where
  api_not_found : A → Found H A
  server_not_found : Found H A
  file_handler : H → Found H A
  routed : H → (params : List (Str × Str)) → (wildcard : Option Str) → Found H A

-- The keys of the path parameters.
unfoldable pub path_params : List (Str × Str) → List (Str × Str) → List (Str × Str)
path_params [] params = params
path_params ((k, value) ∷ vars) params =
    path_params vars (insert (trim_suffix (trim_suffix k (codes "*")) (codes "|.+")) value params)

unfoldable pub fill_template : List (Str × Str) → Str → Str
fill_template [] p = p
fill_template ((k, v) ∷ vars) p =
    fill_template vars (replace_first p ((codes "{" ++ k) ++ codes "}") v)

abbrev pub template : Pattern → Str
template (exact p) = p
template (prefix p) = p

unfoldable pub wildcard_of : {H : Type 0} → RouteMatch H → Str → Str
unfolding fill_template
wildcard_of m req =
    trim_prefix (trim_prefix req (fill_template m.vars (template m.route.pattern))) (codes "/")

abbrev pub answers : Option Bool → Bool
answers (some b) = b
answers none = false

module _ {H A : Type 0} (match : List (Route H) → Str → Option (RouteMatch H))
    (file_response : H → Option Bool) where
  -- The part of FindHandler behind the choice of a route.
  unfoldable pub routed_to : RouteMatch H → Str → Found H A
  routed_to m req =
      routed m.route.handler (path_params m.vars [])
        (if m.route.wild then some (wildcard_of m req) else none)

  -- hasFileResponse: the handler of the matching files block, if any, and whether it, or the handler
  -- that it protects, is a file handler that has a response.
  unfoldable pub has_file_response : Mux H A → Str → Option H × Bool
  has_file_response mux req = elim (match mux.file_root req) [
    | none ↦ (none, false)
    | some m ↦ (some m.route.handler, answers (file_response m.route.handler))
  ]

  -- The last part, where neither an API nor a file answers.
  unfoldable pub spa_or_fallback : Mux H A → Str → Option H → Found H A
  spa_or_fallback mux req files = elim (match mux.spa_root req) [
    | some m ↦ routed_to m req
    | none ↦ elim files [ some h ↦ file_handler h | none ↦ server_not_found ]
  ]

  unfoldable pub file_or_spa : Mux H A → Str → Option H × Bool → Found H A
  file_or_spa mux req (some h, true) = file_handler h
  file_or_spa mux req (files, exists) = spa_or_fallback mux req files

  unfoldable pub find_handler : Mux H A → Str → Found H A
  find_handler mux req = elim (match mux.endpoint_root req) [
    | some m ↦ routed_to m req
    | none ↦ elim (api_error mux.api_base_paths mux.spa_base_paths mux.files_base_paths req) [
      | some api ↦ api_not_found api
      | none ↦ file_or_spa mux req (has_file_response mux req)
    ]
  ]

  -- The server's own error is left exactly for the requests for which no endpoint and neither a
  -- files block nor a spa matches, and which lie in no API: none has a base path that the request
  -- matches and that is neither the only one of the spa blocks nor the only one of the files
  -- blocks, where the empty path stands for no such block.
  pub server_not_found_iff :
      (mux : Mux H A) (req : Str)
      → (find_handler mux req ≡ server_not_found) ↔ (
          (match mux.endpoint_root req ≡ none)
          × All
              (λ api. LiesIn api.1 mux.spa_base_paths mux.files_base_paths req → ⊥)
              mux.api_base_paths
          × (match mux.file_root req ≡ none)
          × (match mux.spa_root req ≡ none))
  unfolding find_handler file_or_spa spa_or_fallback has_file_response routed_to
  server_not_found_iff mux req =
      let (f, g) = api_error-none mux.api_base_paths mux.spa_base_paths mux.files_base_paths req in
      (
        λ h. (ground (arith, h), f (ground (arith, h)), ground (arith, h), ground (arith, h)),
        λ (e, outside, no_file, no_spa). ground (arith, e, g outside, no_file, no_spa),
      )
