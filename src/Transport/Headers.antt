-- ===== src/Transport/Headers.antt =====
-- The header that Backend.RoundTrip of handler/transport/backend.go sends to an origin:
-- RemoveConnectionHeaders, RemoveHopHeaders, and what RoundTrip does with them. The canonical form of
-- a field name, the regular expression for Accept-Encoding and the base64 encoding are parameters.
pub mod Sent
use couper.Base.{
  ℕ, ◌≡◌, refl, Bool, true, false, not, ◌&&◌, ◌||◌, List, [], ◌∷◌, ◌++◌, Option, none, some, Str,
  codes, eq_str, eq_str_iff, mem_str, trim_space, split, lookup, insert, delete, lookup-delete,
  lookup-insert, arith, Bool-cases, if◌then◌else◌,
}
use couper.Middleware.Cors.{Header, get, set, values, first}
use couper.Writer.Gzip.{accept_encoding_header, modify_accept_encoding}

abbrev pub connection : Str
connection = codes "Connection"

abbrev pub upgrade : Str
upgrade = codes "Upgrade"

abbrev pub te : Str
te = codes "Te"

abbrev pub hop_headers : List Str
hop_headers =
    connection
    ∷ codes "Proxy-Connection"
    ∷ codes "Keep-Alive"
    ∷ codes "Proxy-Authenticate"
    ∷ codes "Proxy-Authorization"
    ∷ te
    ∷ codes "Trailer"
    ∷ codes "Transfer-Encoding"
    ∷ upgrade
    ∷ []

module _ (canonical : Str → Str) where
  -- The parts of one value of the field Connection.
  unfoldable pub remove_parts : List Str → Header → Header
  remove_parts [] h = h
  remove_parts (part ∷ parts) h =
      let sf = trim_space part in
      remove_parts parts (if eq_str sf [] then h else delete (canonical sf) h)

  unfoldable pub remove_fields : List Str → Header → Header
  unfolding remove_parts
  remove_fields [] h = h
  remove_fields (f ∷ fs) h = remove_fields fs (remove_parts (split b',' f) h)

  unfoldable pub remove_connection_headers : Header → Header
  unfolding remove_fields
  remove_connection_headers h = remove_fields (values (lookup connection h)) h

abbrev pub is_dropped : (name value : Str) → Bool
is_dropped name value =
    not (eq_str value []) && not (eq_str name te && eq_str value (codes "trailers"))

unfoldable pub remove_hop : List Str → Header → Header
unfolding get
remove_hop [] header = header
remove_hop (h ∷ hs) header =
    remove_hop hs (if is_dropped h (get h header) then delete h header else header)

unfoldable pub remove_hop_headers : Header → Header
unfolding remove_hop
remove_hop_headers header = remove_hop hop_headers header

-- What RoundTrip reads from the context of the request, and the value of the attribute basic_auth.
pub record RequestContext : Type 0 where
  pub is_proxy_req : Bool
  pub xff : Option Str
  pub credentials : Str
  pub websockets_allowed : Bool

abbrev pub with_xff : Option Str → Header → Header
with_xff none h = h
with_xff (some xff) h =
    if eq_str xff []
    then delete (codes "X-Forwarded-For") h
    else set (codes "X-Forwarded-For") xff h

unfoldable pub set_user_agent : Header → Header
set_user_agent h =
    if eq_str (get (codes "User-Agent") h) [] then set (codes "User-Agent") [] h else h

module _ (canonical encode : Str → Str) (supports : Str → Bool) where
  abbrev pub with_basic_auth : (credentials : Str) → Header → Header
  with_basic_auth credentials h =
      if eq_str credentials []
      then h
      else set (codes "Authorization") (codes "Basic " ++ encode credentials) h

  abbrev pub without_hops : Bool → Header → Header
  without_hops is_proxy_req h =
      if is_proxy_req then h else remove_hop_headers (remove_connection_headers canonical h)

  abbrev pub without_upgrade : Bool → Header → Header
  without_upgrade websockets_allowed h =
      if websockets_allowed then h else delete upgrade (delete connection h)

  -- The header that is sent, if no step before fails.
  unfoldable pub outgoing : RequestContext → Header → Header
  unfolding modify_accept_encoding set_user_agent remove_hop_headers remove_connection_headers
  outgoing c h =
      let h' = without_hops c.is_proxy_req h in
      without_upgrade c.websockets_allowed (
        set_user_agent (
          with_basic_auth c.credentials (
            with_xff c.xff (modify_accept_encoding (supports (get accept_encoding_header h')) h'))))
