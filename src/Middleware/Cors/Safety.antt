-- ===== src/Middleware/Cors/Safety.antt =====
-- Which origins the response of the CORS middleware names.
use couper.Base.{
  List, Str, ◌||◌, mem_str, to_lower, Bool-cases, ◌≡◌, refl, ◌∙◌, Bool, true, false, not, ◌&&◌, [],
  ◌∷◌, none, some, arith, codes, eq_str, eq_str_refl, lookup, lookup-insert, lookup-delete,
  if◌then◌else◌,
}
use couper.Middleware.Cors.{
  Header, CorsOptions, Request, get, set, add, allow_origin, allow_credentials, allow_headers,
  allow_methods, max_age, vary, request_method, request_headers, origin, clear, permits, when,
  matches_origin, allows_any, allows_origin, preflight, answer_origin, set_cors_resp_headers,
  is_cors_request, is_cors_preflight_request,
}

lookup-set :
    (k j v : Str) (h : Header)
    → lookup j (set k v h) ≡ (if eq_str k j then some (v ∷ []) else lookup j h)
unfolding set
lookup-set k j v h = lookup-insert k j (v ∷ []) h

lookup-add : (k j v : Str) (h : Header) → eq_str k j ≡ false → lookup j (add k v h) ≡ lookup j h
unfolding add
lookup-add k j v h ne = rw (lookup-insert, ne)

-- The names that `preflight` writes are others.
record IsKept (k : Str) : Type 0 where
  not_age : eq_str max_age k ≡ false
  not_headers : eq_str allow_headers k ≡ false
  not_methods : eq_str allow_methods k ≡ false
  not_vary : eq_str vary k ≡ false

lookup-when :
    (k : Str) (b : Bool) (f : Header → Header) (h : Header)
    → lookup k (f h) ≡ lookup k h
    → lookup k (when b f h) ≡ lookup k h
lookup-when k true f h e = e
lookup-when k false f h e = refl

pub lookup-set_ne :
    (k j v : Str) (h : Header) → eq_str k j ≡ false → lookup j (set k v h) ≡ lookup j h
lookup-set_ne k j v h ne = rw (lookup-set, ne)

lookup-preflight :
    (k : Str) (c : CorsOptions) (req : Request) (h : Header)
    → IsKept k
    → lookup k (preflight c req h) ≡ lookup k h
unfolding preflight
lookup-preflight k c req h v =
    lookup-when k (not (eq_str c.max_age [])) (set max_age c.max_age) with_headers
      (lookup-set_ne max_age k c.max_age with_headers v.not_age)
    ∙ lookup-when k (not (eq_str acrh []))
        (λ h. add vary request_headers (set allow_headers acrh h)) with_methods
        (lookup-add vary k request_headers (set allow_headers acrh with_methods) v.not_vary
          ∙ lookup-set_ne allow_headers k acrh with_methods v.not_headers)
    ∙ lookup-when k (not (eq_str acrm [])) (λ h. add vary request_method (reflect_method h)) h
        (lookup-add vary k request_method (reflect_method h) v.not_vary
          ∙ lookup-when k (permits c.method_allowed acrm) (set allow_methods acrm) h
              (lookup-set_ne allow_methods k acrm h v.not_methods))
  where
    acrm : Str
    acrm = get request_method req.header

    acrh : Str
    acrh = get request_headers req.header

    reflect_method : Header → Header
    reflect_method h = when (permits c.method_allowed acrm) (set allow_methods acrm) h

    with_methods : Header
    with_methods = when (not (eq_str acrm [])) (λ h. add vary request_method (reflect_method h)) h

    with_headers : Header
    with_headers =
        when (not (eq_str acrh [])) (λ h. add vary request_headers (set allow_headers acrh h))
          with_methods

IsKept-allow_origin : IsKept allow_origin
unfolding eq_str
IsKept-allow_origin = record {
  not_age = refl;
  not_headers = refl;
  not_methods = refl;
  not_vary = refl;
}

IsKept-allow_credentials : IsKept allow_credentials
unfolding eq_str
IsKept-allow_credentials = record {
  not_age = refl;
  not_headers = refl;
  not_methods = refl;
  not_vary = refl;
}

lookup-clear_origin : (h : Header) → lookup allow_origin (clear h) ≡ none
unfolding clear eq_str
lookup-clear_origin h = simp lookup-delete

lookup-clear_credentials : (h : Header) → lookup allow_credentials (clear h) ≡ none
unfolding clear eq_str
lookup-clear_credentials h = simp lookup-delete

-- The header before the origin of the request is looked at.
abbrev opened : CorsOptions → Header → Header
opened c h =
    if allows_any c then set allow_origin (codes "*") (clear h) else add vary origin (clear h)

opened_origin :
    (c : CorsOptions) (h : Header)
    → lookup allow_origin (opened c h) ≡ (if allows_any c then some (codes "*" ∷ []) else none)
opened_origin c h = ground (
  arith,
  lookup-set allow_origin allow_origin (codes "*") (clear h),
  eq_str_refl allow_origin,
  lookup-add vary allow_origin origin (clear h) IsKept-allow_origin.not_vary,
  lookup-clear_origin h,
)

opened_credentials : (c : CorsOptions) (h : Header) → lookup allow_credentials (opened c h) ≡ none
opened_credentials c h = ground (
  arith,
  lookup-set_ne allow_origin allow_credentials (codes "*") (clear h) differ,
  lookup-add vary allow_credentials origin (clear h) IsKept-allow_credentials.not_vary,
  lookup-clear_credentials h,
)
  where
    differ : eq_str allow_origin allow_credentials ≡ false
    differ = unfold eq_str in refl

matches_origin-mem_str :
    (origins : List Str) (o : Str)
    → matches_origin origins o ≡ (mem_str (to_lower o) origins || mem_str (codes "*") origins)
unfolding matches_origin mem_str
matches_origin-mem_str [] o = refl
matches_origin-mem_str (a ∷ rest) o = ground (
  arith,
  matches_origin-mem_str rest o,
  Bool-cases (eq_str a (to_lower o)),
  Bool-cases (eq_str a (codes "*")),
)

matches_origin-star :
    (origins : List Str) → matches_origin origins (codes "*") ≡ mem_str (codes "*") origins
unfolding to_lower
matches_origin-star origins =
    matches_origin-mem_str origins (codes "*")
    ∙ ground (arith, Bool-cases (mem_str (codes "*") origins))

module _ (c : CorsOptions) (req : Request) (h : Header) where
  abbrev the_origin : Str
  the_origin = get origin req.header

  -- The request comes from another origin, which is allowed.
  abbrev pub is_granted : Bool
  is_granted = is_cors_request req && allows_origin (some c) (get origin req.header)

  abbrev named : Header → Header
  named g =
      when c.allow_credentials (set allow_credentials (codes "true"))
        (when (not (allows_any c)) (set allow_origin (get origin req.header)) g)

  lookup-answer :
      (k : Str) (g : Header)
      → IsKept k
      → lookup k (answer_origin c req g)
        ≡ (if allows_origin (some c) the_origin then lookup k (named g) else lookup k g)
  unfolding answer_origin
  lookup-answer k g v = ground (
    arith,
    lookup-when k (is_cors_preflight_request req) (preflight c req) (named g)
        (lookup-preflight k c req (named g) v),
  )

  named_origin :
      (g : Header)
      → lookup allow_origin (named g)
        ≡ (if allows_any c then lookup allow_origin g else some (the_origin ∷ []))
  named_origin g =
      lookup-when allow_origin c.allow_credentials (set allow_credentials (codes "true")) inner
        (lookup-set_ne allow_credentials allow_origin (codes "true") inner differ)
      ∙ ground (arith, lookup-set allow_origin allow_origin the_origin g, eq_str_refl allow_origin)
    where
      inner : Header
      inner = when (not (allows_any c)) (set allow_origin the_origin) g

      differ : eq_str allow_credentials allow_origin ≡ false
      differ = unfold eq_str in refl

  named_credentials :
      (g : Header)
      → lookup allow_credentials (named g)
        ≡ (if c.allow_credentials then some (codes "true" ∷ []) else lookup allow_credentials g)
  named_credentials g = ground (
    arith,
    lookup-set allow_credentials allow_credentials (codes "true") inner,
    eq_str_refl allow_credentials,
    lookup-when allow_credentials (not (allows_any c)) (set allow_origin the_origin) g
        (lookup-set_ne allow_origin allow_credentials the_origin g differ),
  )
    where
      inner : Header
      inner = when (not (allows_any c)) (set allow_origin the_origin) g

      differ : eq_str allow_origin allow_credentials ≡ false
      differ = unfold eq_str in refl

  allowed_origin : lookup allow_origin (set_cors_resp_headers c req h) ≡ (
      if allows_any c
      then some (codes "*" ∷ [])
      else if is_granted
      then some (the_origin ∷ [])
      else none)
  unfolding set_cors_resp_headers
  allowed_origin = ground (
    arith,
    opened_origin c h,
    named_origin (opened c h),
    lookup-answer allow_origin (opened c h) IsKept-allow_origin,
  )

  -- Whatever the header held before, the response names as allowed origin "*" if this is one of the
  -- configured origins and credentials are not allowed, otherwise the origin of the request if it
  -- has one and this in lower case or "*" is one of the configured origins, and otherwise none.
  pub allowed_origin_lem : lookup allow_origin (set_cors_resp_headers c req h) ≡ (
      if mem_str (codes "*") c.allowed_origins && not c.allow_credentials
      then some (codes "*" ∷ [])
      else if not (eq_str the_origin [])
          && (mem_str (to_lower the_origin) c.allowed_origins
              || mem_str (codes "*") c.allowed_origins)
      then some (the_origin ∷ [])
      else none)
  unfolding allows_any allows_origin is_cors_request
  allowed_origin_lem = ground (
    arith,
    allowed_origin,
    matches_origin-mem_str c.allowed_origins the_origin,
    matches_origin-star c.allowed_origins,
  )

  -- Whatever the header held before, the response allows credentials exactly when they are
  -- configured and a CORS request comes from an allowed origin.
  pub allowed_credentials_lem :
      lookup allow_credentials (set_cors_resp_headers c req h)
      ≡ (if is_granted && c.allow_credentials then some (codes "true" ∷ []) else none)
  unfolding set_cors_resp_headers
  allowed_credentials_lem = ground (
    arith,
    opened_credentials c h,
    named_credentials (opened c h),
    lookup-answer allow_credentials (opened c h) IsKept-allow_credentials,
  )
