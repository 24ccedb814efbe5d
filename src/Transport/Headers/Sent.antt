-- ===== src/Transport/Headers/Sent.antt =====
-- Which fields of a request reach an origin, about handler/transport/backend.go.
use couper.Base.{
  inl, inr, ◌≡◌, refl, ap, ◌∙◌, Bool, true, false, not, ◌&&◌, ◌||◌, List, [], ◌∷◌, ◌++◌, Option,
  none, some, Str, codes, eq_str, eq_str_iff, mem_str, mem_str-append, trim_space, split, lookup,
  delete, lookup-delete, arith, Bool-cases, if◌then◌else◌,
}
use couper.Middleware.Cors.{Header, get, values, first}
use couper.Middleware.Cors.Safety.{lookup-set_ne}
use couper.Writer.Gzip.{accept_encoding_header, gzip_name, modify_accept_encoding}
use couper.Transport.Headers.{
  connection, upgrade, hop_headers, remove_parts, remove_fields, remove_connection_headers,
  is_dropped, remove_hop, remove_hop_headers, RequestContext, with_xff, set_user_agent, outgoing,
  with_basic_auth, without_hops, without_upgrade,
}

-- The hop-by-hop headers of RFC 2616, and Proxy-Connection.
abbrev pub hop_names : List Str
hop_names =
    codes "Connection"
    ∷ codes "Proxy-Connection"
    ∷ codes "Keep-Alive"
    ∷ codes "Proxy-Authenticate"
    ∷ codes "Proxy-Authorization"
    ∷ codes "Te"
    ∷ codes "Trailer"
    ∷ codes "Transfer-Encoding"
    ∷ codes "Upgrade"
    ∷ []

-- A hop header with this first value does not go on.
abbrev pub is_removed : (name value : Str) → Bool
is_removed name value =
    if eq_str value []
    then false
    else if eq_str name (codes "Te")
    then not (eq_str value (codes "trailers"))
    else true

module _ (canonical : Str → Str) where
  -- The canonical names among some parts.
  abbrev pub names : List Str → List Str
  names [] = []
  names (part ∷ parts) =
      if eq_str (trim_space part) [] then names parts else canonical (trim_space part) ∷ names parts

  -- The names that some values of the field Connection list.
  abbrev pub listed : List Str → List Str
  listed [] = []
  listed (f ∷ fs) = names (split b',' f) ++ listed fs

  -- Whether a field is for the next hop only: it is listed in Connection or one of the hop headers.
  abbrev pub is_hop : (name : Str) → Header → Bool
  is_hop name h =
      mem_str name (listed (values (lookup (codes "Connection") h)))
      || (mem_str name hop_names && is_removed name (get name h))

  lookup-remove_parts :
      (name : Str) (parts : List Str) (h : Header)
      → lookup name (remove_parts canonical parts h)
        ≡ (if mem_str name (names parts) then none else lookup name h)
  unfolding remove_parts mem_str
  lookup-remove_parts name [] h = refl
  lookup-remove_parts name (part ∷ parts) h =
      let sf = trim_space part in
      ground (
        arith,
        lookup-remove_parts name parts h,
        lookup-remove_parts name parts (delete (canonical sf) h),
        lookup-delete (canonical sf) name h,
        Bool-cases (eq_str sf []),
        Bool-cases (eq_str (canonical sf) name),
      )

  lookup-remove_fields :
      (name : Str) (fs : List Str) (h : Header)
      → lookup name (remove_fields canonical fs h)
        ≡ (if mem_str name (listed fs) then none else lookup name h)
  unfolding remove_fields mem_str
  lookup-remove_fields name [] h = refl
  lookup-remove_fields name (f ∷ fs) h = ground (
    arith,
    lookup-remove_fields name fs (remove_parts canonical (split b',' f) h),
    lookup-remove_parts name (split b',' f) h,
    mem_str-append name (names (split b',' f)) (listed fs),
    Bool-cases (mem_str name (listed fs)),
  )

is_dropped-is_removed : (name value : Str) → is_dropped name value ≡ is_removed name value
is_dropped-is_removed name value = ground (
  arith,
  Bool-cases (eq_str value []),
  Bool-cases (eq_str name (codes "Te")),
  Bool-cases (eq_str value (codes "trailers")),
)

lookup-remove_hop :
    (name : Str) (hs : List Str) (h : Header)
    → lookup name (remove_hop hs h)
      ≡ (if mem_str name hs && is_dropped name (get name h) then none else lookup name h)
unfolding remove_hop mem_str get
lookup-remove_hop name [] h = refl
lookup-remove_hop name (j ∷ hs) h = elim (Bool-cases (eq_str j name)) [
  | inl e ↦
      let same = ap (λ k. is_dropped k (get k h)) ((eq_str_iff j name).0 e) in
      ground (
        arith,
        e,
        same,
        lookup-remove_hop name hs h,
        lookup-remove_hop name hs (delete j h),
        lookup-delete j name h,
        Bool-cases (is_dropped j (get j h)),
      )
  | inr e ↦ ground (
    arith,
    e,
    lookup-remove_hop name hs h,
    lookup-remove_hop name hs (delete j h),
    lookup-delete j name h,
    Bool-cases (is_dropped j (get j h)),
  )
]

-- The fields that RoundTrip sets itself.
abbrev pub own_fields : List Str
own_fields =
    codes "Accept-Encoding"
    ∷ codes "X-Forwarded-For"
    ∷ codes "Authorization"
    ∷ codes "User-Agent"
    ∷ []

lookup-gone :
    (k name : Str) (h : Header) → eq_str k name ≡ false → lookup name (delete k h) ≡ lookup name h
lookup-gone k name h ne = ground (arith, ne, lookup-delete k name h)

lookup-set_user_agent :
    (name : Str) (h : Header)
    → eq_str (codes "User-Agent") name ≡ false
    → lookup name (set_user_agent h) ≡ lookup name h
unfolding set_user_agent
lookup-set_user_agent name h ne = ground (arith, lookup-set_ne (codes "User-Agent") name [] h ne)

lookup-with_xff :
    (xff : Option Str) (name : Str) (h : Header)
    → eq_str (codes "X-Forwarded-For") name ≡ false
    → lookup name (with_xff xff h) ≡ lookup name h
lookup-with_xff none name h ne = refl
lookup-with_xff (some xff) name h ne = ground (
  arith,
  lookup-set_ne (codes "X-Forwarded-For") name xff h ne,
  lookup-gone (codes "X-Forwarded-For") name h ne,
)

lookup-modify_accept_encoding :
    (b : Bool) (name : Str) (h : Header)
    → eq_str accept_encoding_header name ≡ false
    → lookup name (modify_accept_encoding b h) ≡ lookup name h
unfolding modify_accept_encoding
lookup-modify_accept_encoding true name h ne =
    lookup-set_ne accept_encoding_header name gzip_name h ne
lookup-modify_accept_encoding false name h ne = lookup-gone accept_encoding_header name h ne

or_false : {a b : Bool} → (a || b) ≡ false → (a ≡ false) × (b ≡ false)
or_false {a = true} e = ground (arith, e)
or_false {a = false} e = (refl, e)

apart :
    (name : Str)
    → mem_str name own_fields ≡ false
    → (eq_str accept_encoding_header name ≡ false)
      × (eq_str (codes "X-Forwarded-For") name ≡ false)
      × (eq_str (codes "Authorization") name ≡ false)
      × (eq_str (codes "User-Agent") name ≡ false)
unfolding mem_str
apart name other =
    let (e, rest) = or_false other in
    let (x, rest') = or_false rest in
    let (a, rest'') = or_false rest' in (e, x, a, (or_false rest'').0)

both_tests :
    {A : Type 0} {x y : Option A} (z : Option A) (a b : Bool)
    → x ≡ (if a then none else y)
    → y ≡ (if b then none else z)
    → x ≡ (if a || b then none else z)
both_tests z true b p q = p
both_tests z false b p q = p ∙ q

module _ (canonical encode : Str → Str) (supports : Str → Bool) where
  lookup-without_hops :
      (name : Str) (is_proxy_req : Bool) (h : Header)
      → lookup name (without_hops canonical encode supports is_proxy_req h)
        ≡ (if not is_proxy_req && is_hop canonical name h then none else lookup name h)
  unfolding remove_hop_headers remove_connection_headers get
  lookup-without_hops name true h = refl
  lookup-without_hops name false h =
      let fs = values (lookup connection h) in
      let at = lookup-remove_fields canonical name fs h in
      ground (
        arith,
        at,
        ap (λ o. is_dropped name (first o)) at,
        is_dropped-is_removed name (get name h),
        hops,
        lookup-remove_hop name hop_headers (remove_fields canonical fs h),
        Bool-cases (mem_str name (listed canonical fs)),
      )
    where
      hops : mem_str name hop_headers ≡ mem_str name hop_names
      hops = refl

  lookup-with_basic_auth :
      (credentials name : Str) (h : Header)
      → eq_str (codes "Authorization") name ≡ false
      → lookup name (with_basic_auth canonical encode supports credentials h) ≡ lookup name h
  lookup-with_basic_auth credentials name h ne = ground (
    arith,
    lookup-set_ne (codes "Authorization") name (codes "Basic " ++ encode credentials) h ne,
  )

  lookup-without_upgrade :
      (name : Str) (websockets_allowed : Bool) (h : Header)
      → lookup name (without_upgrade canonical encode supports websockets_allowed h) ≡ (
          if not websockets_allowed && mem_str name (connection ∷ upgrade ∷ [])
          then none
          else lookup name h)
  unfolding mem_str
  lookup-without_upgrade name true h = refl
  lookup-without_upgrade name false h = ground (
    arith,
    lookup-delete upgrade name (delete connection h),
    lookup-delete connection name h,
    Bool-cases (eq_str connection name),
    Bool-cases (eq_str upgrade name),
  )

  -- The steps between leave the other fields.
  lookup-filled :
      (c : RequestContext) (b : Bool) (name : Str) (h : Header)
      → mem_str name own_fields ≡ false
      → lookup name (
          set_user_agent (
            with_basic_auth canonical encode supports c.credentials
              (with_xff c.xff (modify_accept_encoding b h))))
        ≡ lookup name h
  lookup-filled c b name h other =
      let (e, x, a, u) = apart name other in
      let h1 = modify_accept_encoding b h in
      let h2 = with_xff c.xff h1 in
      lookup-set_user_agent name (with_basic_auth canonical encode supports c.credentials h2) u
      ∙ (lookup-with_basic_auth c.credentials name h2 a
          ∙ (lookup-with_xff c.xff name h1 x ∙ lookup-modify_accept_encoding b name h e))

  -- Except for Accept-Encoding, X-Forwarded-For, Authorization and User-Agent, a field of a request
  -- reaches the origin with all its values or not at all. It is kept back exactly if it is
  -- Connection or Upgrade and websockets are not allowed, or, in a request that is not that of a
  -- proxy, if a value of the field Connection lists it, or if it is a hop header (Connection,
  -- Proxy-Connection, Keep-Alive, Proxy-Authenticate, Proxy-Authorization, Te, Trailer,
  -- Transfer-Encoding or Upgrade) whose first value is not empty, other than Te with the first
  -- value trailers.
  pub lookup-outgoing :
      (c : RequestContext) (name : Str) (h : Header)
      → mem_str name own_fields ≡ false
      → lookup name (outgoing canonical encode supports c h) ≡ (
          if (not c.websockets_allowed && mem_str name (codes "Connection" ∷ codes "Upgrade" ∷ []))
            || (not c.is_proxy_req && is_hop canonical name h)
          then none
          else lookup name h)
  unfolding outgoing
  lookup-outgoing c name h other =
      let h' = without_hops canonical encode supports c.is_proxy_req h in
      let b = supports (get accept_encoding_header h') in
      both_tests (lookup name h)
        (not c.websockets_allowed && mem_str name (codes "Connection" ∷ codes "Upgrade" ∷ []))
        (not c.is_proxy_req && is_hop canonical name h)
        (lookup-without_upgrade name c.websockets_allowed (
          set_user_agent (
            with_basic_auth canonical encode supports c.credentials
              (with_xff c.xff (modify_accept_encoding b h')))))
        (lookup-filled c b name h' other ∙ lookup-without_hops name c.is_proxy_req h)
