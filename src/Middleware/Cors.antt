-- ===== src/Middleware/Cors.antt =====
-- handler/middleware/cors.go. A header is a map from canonical names to values. The test on the
-- methods of the endpoint is a parameter, `none` for a nil function.
pub mod Safety
use couper.Base.{
  ℕ, Bool, true, false, not, ◌&&◌, ◌||◌, List, [], ◌∷◌, ◌++◌, Option, none, some, Str, codes,
  eq_str, to_lower, map, lookup, insert, delete, if◌then◌else◌,
}

abbrev pub Header : Type 0
Header = List (Str × List Str)

-- The field names.
abbrev pub allow_origin : Str
allow_origin = codes "Access-Control-Allow-Origin"

abbrev pub allow_credentials : Str
allow_credentials = codes "Access-Control-Allow-Credentials"

abbrev pub allow_headers : Str
allow_headers = codes "Access-Control-Allow-Headers"

abbrev pub allow_methods : Str
allow_methods = codes "Access-Control-Allow-Methods"

abbrev pub max_age : Str
max_age = codes "Access-Control-Max-Age"

abbrev pub request_method : Str
request_method = codes "Access-Control-Request-Method"

abbrev pub request_headers : Str
request_headers = codes "Access-Control-Request-Headers"

abbrev pub origin : Str
origin = codes "Origin"

abbrev pub vary : Str
vary = codes "Vary"

abbrev pub first : Option (List Str) → Str
first none = []
first (some []) = []
first (some (v ∷ vs)) = v

-- The methods of http.Header, at canonical names.
unfoldable pub get : Str → Header → Str
get k h = first (lookup k h)

unfoldable pub set : Str → Str → Header → Header
set k v h = insert k (v ∷ []) h

abbrev pub values : Option (List Str) → List Str
values none = []
values (some vs) = vs

unfoldable pub add : Str → Str → Header → Header
add k v h = insert k (values (lookup k h) ++ (v ∷ [])) h

pub record CorsOptions : Type 0 where
  pub allowed_origins : List Str
  pub allow_credentials : Bool
  pub max_age : Str
  pub method_allowed : Option (Str → Bool)

-- The options of a configuration: the origins in lower case. `age` is the result of reading max_age.
unfoldable pub new_cors_options :
    (origins : List Str) (credentials : Bool) (age : Str) → Option (Str → Bool) → CorsOptions
unfolding to_lower
new_cors_options origins credentials age methods = record {
  allowed_origins = map to_lower origins;
  allow_credentials = credentials;
  max_age = age;
  method_allowed = methods;
}

-- The loop of AllowsOrigin.
unfoldable pub matches_origin : List Str → Str → Bool
unfolding eq_str
matches_origin [] o = false
matches_origin (a ∷ rest) o =
    (eq_str a (to_lower o) || eq_str a (codes "*")) || matches_origin rest o

-- AllowsOrigin; the options may be nil.
unfoldable pub allows_origin : Option CorsOptions → Str → Bool
allows_origin none o = false
allows_origin (some c) o = matches_origin c.allowed_origins o

pub record Request : Type 0 where
  pub method : Str
  pub header : Header

unfoldable pub is_cors_request : Request → Bool
is_cors_request req = not (eq_str (get origin req.header) [])

unfoldable pub is_cors_preflight_request : Request → Bool
is_cors_preflight_request req =
    eq_str req.method (codes "OPTIONS")
    && (not (eq_str (get request_method req.header) [])
        || not (eq_str (get request_headers req.header) []))

abbrev pub permits : Option (Str → Bool) → Str → Bool
permits none m = true
permits (some f) m = f m

abbrev pub when : Bool → (Header → Header) → Header → Header
when true f h = f h
when false f h = h

-- The five calls of Del.
unfoldable pub clear : Header → Header
clear h =
    delete max_age (
      delete allow_methods
        (delete allow_headers (delete allow_credentials (delete allow_origin h))))

-- Whether the wildcard may be answered; otherwise the answer depends on the origin.
unfoldable pub allows_any : CorsOptions → Bool
allows_any c = allows_origin (some c) (codes "*") && not c.allow_credentials

-- The part for a preflight request.
unfoldable pub preflight : CorsOptions → Request → Header → Header
preflight c req h =
    let acrm = get request_method req.header in
    let acrh = get request_headers req.header in
    when (not (eq_str c.max_age [])) (set max_age c.max_age) (
      when (not (eq_str acrh [])) (λ h. add vary request_headers (set allow_headers acrh h))
        (when (not (eq_str acrm []))
          (λ h.
            add vary request_method
              (when (permits c.method_allowed acrm) (set allow_methods acrm) h))
          h))

-- The part from the check of the origin on.
unfoldable pub answer_origin : CorsOptions → Request → Header → Header
answer_origin c req h =
    let o = get origin req.header in
    if not (allows_origin (some c) o)
    then h
    else when (is_cors_preflight_request req) (preflight c req) (
        when c.allow_credentials (set allow_credentials (codes "true"))
          (when (not (allows_any c)) (set allow_origin o) h))

unfoldable pub set_cors_resp_headers : CorsOptions → Request → Header → Header
set_cors_resp_headers c req h =
    let h' =
      (if allows_any c
        then set allow_origin (codes "*") (clear h)
        else add vary origin (clear h)) in
    if not (is_cors_request req) then h' else answer_origin c req h'

pub data Answer : Type 0 where
  no_content next_handler : Answer

-- ServeNextHTTP: who answers; the header modifier is `set_cors_resp_headers`.
unfoldable pub serve_next_http : Request → Answer
serve_next_http req = if is_cors_preflight_request req then no_content else next_handler
