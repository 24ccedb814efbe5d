-- ===== src/Tests/Middleware.antt =====
-- The middleware on small inputs.
use couper.Base.{
  mem_str, not, ◌&&◌, ◌||◌, ◌≡◌, refl, true, [], ◌∷◌, none, some, codes, eq_str, to_lower, to_upper,
  lookup, insert, delete, if◌then◌else◌,
}
use couper.Middleware.AllowedMethods.{
  collect, effective, new_allowed_methods, default_file_spa_allowed_methods,
}
use couper.Middleware.Cors.{
  CorsOptions, Request, get, set, add, clear, allows_any, allows_origin, matches_origin, preflight,
  answer_origin, set_cors_resp_headers, is_cors_request, is_cors_preflight_request, allow_origin,
  allow_credentials, origin,
}
use couper.Middleware.Cors.Safety.{allowed_origin_lem}

methods_run :
    new_allowed_methods
      (some (codes "put" ∷ codes "*" ∷ []))
      (some default_file_spa_allowed_methods)
    ≡ codes "PUT" ∷ codes "GET" ∷ codes "HEAD" ∷ []
unfolding new_allowed_methods collect effective to_upper
methods_run = refl

abbrev options : CorsOptions
options = record {
  allowed_origins = codes "https://a.example" ∷ [];
  allow_credentials = true;
  max_age = [];
  method_allowed = none;
}

abbrev request : Request
request = record {
  method = codes "GET";
  header = (codes "Origin", codes "https://A.example" ∷ []) ∷ [];
}

cors_ops : Unit {0}
unfolding set_cors_resp_headers answer_origin preflight is_cors_request is_cors_preflight_request
    allows_any allows_origin matches_origin clear get set add lookup insert delete eq_str to_lower
cors_ops = tt

cors_runs :
    set_cors_resp_headers options request ((allow_origin, codes "*" ∷ []) ∷ [])
    ≡ (codes "Vary", codes "Origin" ∷ [])
      ∷ (allow_origin, codes "https://A.example" ∷ [])
      ∷ (allow_credentials, codes "true" ∷ [])
      ∷ []
unfolding cors_ops
cors_runs = refl

allowed_origin_lem_example : lookup allow_origin (set_cors_resp_headers options request []) ≡ (
    if mem_str (codes "*") options.allowed_origins && not options.allow_credentials
    then some (codes "*" ∷ [])
    else if not (eq_str (get origin request.header) [])
        && (mem_str (to_lower (get origin request.header)) options.allowed_origins
            || mem_str (codes "*") options.allowed_origins)
    then some (get origin request.header ∷ [])
    else none)
allowed_origin_lem_example = allowed_origin_lem options request []
