-- ===== src/Writer/Response.antt =====
-- server/writer/response.go and cookies.go. The inner writer is its header and the calls made of it,
-- in their order; whether a call to write fails is an input. The reader of textproto and
-- strconv.Atoi are parameters: what the buffered bytes hold as a header, and the number of a text.
-- The modifiers of the configuration are functions on the header.
pub mod Count
pub mod Body
use couper.Base.{
  ℕ, ◌+◌, ◌-◌, Bool, true, false, not, ◌&&◌, ◌||◌, List, [], ◌∷◌, ◌++◌, Option, none, some, Str,
  codes, eq_str, to_lower, has_prefix, has_suffix, trim_space, split, lookup, insert, delete,
  length, take, drop, ltb, ◌==◌, if◌then◌else◌,
}
use couper.Middleware.Cors.{Header, get, set, add, values}

-- The two characters of the end of a line, twice.
abbrev pub end_of_line : Str
end_of_line = 13 ∷ 10 ∷ []

abbrev pub end_of_header : Str
end_of_header = 13 ∷ 10 ∷ 13 ∷ 10 ∷ []

-- bytes.Index
unfoldable pub index : Str → Str → Option ℕ
unfolding has_prefix
index [] p = if has_prefix [] p then some 0 else none
index (c ∷ s) p =
    let rest = index s p in
    if has_prefix (c ∷ s) p then some 0 else elim rest [ none ↦ none | some i ↦ some (i + 1) ]

-- The cookies of a header value: the parts between semicolons, without the secure flag, and whether
-- it was there.
unfoldable pub cookie_parts : List Str → List Str × Bool
unfolding trim_space to_lower
cookie_parts [] = ([], false)
cookie_parts (m ∷ ms) =
    let (parts, is_secure) = cookie_parts ms in
    if eq_str m []
    then (parts, is_secure)
    else if eq_str (to_lower (trim_space m)) (codes "secure")
    then (parts, true)
    else (trim_space m ∷ parts, is_secure)

unfoldable pub parse_set_cookie_header : Str → List Str × Bool
unfolding split cookie_parts
parse_set_cookie_header set_cookie = cookie_parts (split b';' set_cookie)

unfoldable pub join_parts : List Str → Str
join_parts [] = []
join_parts (p ∷ []) = p
join_parts (p ∷ q ∷ ps) = p ++ (codes "; " ++ join_parts (q ∷ ps))

abbrev pub set_cookie_header : Str
set_cookie_header = codes "Set-Cookie"

unfoldable pub stripped : Str → Str
unfolding parse_set_cookie_header join_parts
stripped original =
    let (parts, is_secure) = parse_set_cookie_header original in
    if not is_secure then original else join_parts parts

unfoldable pub add_cookies : List Str → Header → Header
unfolding stripped
add_cookies [] header = header
add_cookies (original ∷ list) header =
    add_cookies list (add set_cookie_header (stripped original) header)

unfoldable pub strip_secure_cookies : Header → Header
unfolding add_cookies
strip_secure_cookies header =
    add_cookies (values (lookup set_cookie_header header)) (delete set_cookie_header header)

pub data Call : Type 0 where
  sent_header : ℕ → Header → Call
  sent_to_connection : ℕ → Header → Call
  wrote : Str → Call
  flushed : Call

pub record Response : Type 0 where
  pub hijacked : Bool
  pub http_header_buffer : Str
  pub secure_cookies : Str
  pub status_written : Bool
  pub status_code : ℕ
  pub raw_bytes_written : ℕ
  pub bytes_written : ℕ
  pub modifiers : List (Header → Header)
  pub header_modifiers : List (Header → Header)
  pub add_private_cc : Bool
  pub header : Header
  pub calls : List Call

unfoldable pub new_response_writer : Header → Str → Response
new_response_writer header secure_cookies = record {
  hijacked = false;
  http_header_buffer = [];
  secure_cookies = secure_cookies;
  status_written = false;
  status_code = 0;
  raw_bytes_written = 0;
  bytes_written = 0;
  modifiers = [];
  header_modifiers = [];
  add_private_cc = false;
  header = header;
  calls = [];
}

unfoldable pub configure_header : Str → Header → Header
unfolding strip_secure_cookies
configure_header secure_cookies header =
    let h = set (codes "Server") (codes "couper.io") header in
    if eq_str secure_cookies (codes "strip") then strip_secure_cookies h else h

unfoldable pub apply_modifiers : List (Header → Header) → Header → Header
apply_modifiers [] header = header
apply_modifiers (m ∷ ms) header = apply_modifiers ms (m header)

-- errors.HeaderErrorCode and the text and status of errors.Server
abbrev pub server_error : Header → Header
server_error header = set (codes "Couper-Error") (codes "internal server error") header

-- The header as WriteHeader leaves it.
unfoldable pub final_header : Response → ℕ → Header
final_header r status_code =
    let h1 = apply_modifiers r.header_modifiers (configure_header r.secure_cookies r.header) in
    let h2 = apply_modifiers r.modifiers h1 in
    let h3 = (if r.add_private_cc then add (codes "Cache-Control") (codes "private") h2 else h2) in
    if status_code == 0 then server_error h3 else h3

abbrev pub or_internal : ℕ → ℕ
or_internal code = if code == 0 then 500 else code

abbrev pub header_call : (hijacked : Bool) → ℕ → Header → Call
header_call true = sent_to_connection
header_call false = sent_header

unfoldable pub write_header : ℕ → Response → Response
write_header status_code r =
    if r.status_written
    then r
    else let header = final_header r status_code in
      let code = or_internal status_code in
      record r {
        status_written = true;
        status_code = code;
        header = header;
        calls = r.calls ++ (header_call r.hijacked code header ∷ []);
      }

pub data Error : Type 0 where
  write_failed no_hijacker : Error

-- A call to write of the inner writer: its result, and the bytes it wrote.
abbrev pub count : Option ℕ → ℕ → ℕ × Option Error
count none n = (n, none)
count (some k) n = (k, some write_failed)

unfoldable pub pass : Option ℕ → Str → Response → (ℕ × Option Error) × Response
pass failure p r =
    let result = count failure (length p) in
    (
      result,
      record r { bytes_written = r.bytes_written + result.0; calls = r.calls ++ (wrote p ∷ []) },
    )

unfoldable pub merge_header : Header → Header → Header
merge_header [] header = header
merge_header ((k, vs) ∷ parsed) header = merge_header parsed (insert k vs header)

-- Write on the bytes that complete the header at this index.
unfoldable pub write_rest : Option ℕ → (l idx : ℕ) → Response → (ℕ × Option Error) × Response
write_rest failure l idx r =
    if not (has_suffix r.http_header_buffer end_of_line)
      && ltb (idx + 4) (length r.http_header_buffer)
    then (let (result, r') = pass failure (drop (idx + 4) r.http_header_buffer) r in
        ((l, result.1), r'))
    else ((l, none), r)

module _ (read_line : Str → Str) (read_header : Str → Header) (atoi : Str → ℕ) where
  unfoldable pub parse_status_code : Str → ℕ
  parse_status_code p = if ltb (length p) 12 then 0 else atoi (take 3 (drop 9 p))

  unfoldable pub flush_header : Response → Response
  flush_header r =
      write_header (parse_status_code (read_line r.http_header_buffer))
        (record r { header = merge_header (read_header r.http_header_buffer) r.header })

  unfoldable pub write : Option ℕ → Str → Response → (ℕ × Option Error) × Response
  write failure p r =
      let r1 = record r { raw_bytes_written = r.raw_bytes_written + length p } in
      if r1.status_written
      then pass failure p r1
      else let r2 = record r1 { http_header_buffer = r1.http_header_buffer ++ p } in
        elim (index r2.http_header_buffer end_of_header) [
          | none ↦ ((length p, none), r2)
          | some idx ↦ write_rest failure (length p) idx (flush_header r2)
        ]

-- A connection is only kept if the inner writer can be hijacked and gives one.
unfoldable pub hijack : (hijacker : Bool) → Response → Option Error × Response
hijack hijacker r =
    if not hijacker then (some no_hijacker, r) else (none, record r { hijacked = true })

unfoldable pub flush : (flusher : Bool) → Response → Response
flush flusher r = if flusher then record r { calls = r.calls ++ (flushed ∷ []) } else r

unfoldable pub set_private_cc : Response → Response
set_private_cc r = record r { add_private_cc = true }

unfoldable pub add_modifier : List (Header → Header) → Response → Response
add_modifier ms r = record r { modifiers = r.modifiers ++ ms }

unfoldable pub add_header_modifier : (Header → Header) → Response → Response
add_header_modifier m r = record r { header_modifiers = r.header_modifiers ++ (m ∷ []) }
