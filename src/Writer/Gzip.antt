-- ===== src/Writer/Gzip.antt =====
-- server/writer/gzip.go. The inner writer is its header and the calls made of it and of the gzip
-- writer on top of it, in their order. Whether a call to write fails is an input, with the number
-- of bytes it wrote then. The field writeErr is left out, as nothing sets it, and so are the
-- values that Hijack passes on from the inner writer.
pub mod Run
pub mod Body
pub mod Calls
pub mod Phases
pub mod Encoding
pub mod Result
use couper.Base.{
  ℕ, ◌-◌, Bool, true, false, not, ◌&&◌, List, [], ◌∷◌, ◌++◌, Option, none, some, Str, codes, eq_str,
  delete, length, ltb, leb, ◌==◌, if◌then◌else◌,
}
use couper.Middleware.Cors.{Header, get, set, add}

abbrev pub accept_encoding_header : Str
accept_encoding_header = codes "Accept-Encoding"

abbrev pub content_encoding_header : Str
content_encoding_header = codes "Content-Encoding"

abbrev pub content_length_header : Str
content_length_header = codes "Content-Length"

abbrev pub gzip_name : Str
gzip_name = codes "gzip"

abbrev pub vary_header : Str
vary_header = codes "Vary"

abbrev pub min_compress_body_length : ℕ
min_compress_body_length = 60

pub data Call : Type 0 where
  sent_header : ℕ → Call
  wrote gzip_wrote : Str → Call
  flushed gzip_flushed gzip_closed : Call

pub record ResponseWriter : Type 0 where
  pub header : Header
  pub calls : List Call

-- A status code is positive, or 0 for none.
pub record Gzip : Type 0 where
  pub buffer : Str
  pub enabled : Bool
  pub hijacked : Bool
  pub header_sent : Bool
  pub status_code : ℕ
  pub rw : ResponseWriter

pub data Error : Type 0 where
  write_failed invalid_write_result close_failed no_hijacker : Error

-- `supports` is the test of the header Accept-Encoding by the regular expression.
unfoldable pub new_gzip_writer : (supports : Bool) → Header → Gzip
new_gzip_writer supports header = record {
  buffer = [];
  enabled = supports;
  hijacked = false;
  header_sent = false;
  status_code = 0;
  rw = record { header = header; calls = [] };
}

abbrev pub call : Call → ResponseWriter → ResponseWriter
call c rw = record rw { calls = rw.calls ++ (c ∷ []) }

-- The method write.
unfoldable pub pass : Option ℕ → Str → Gzip → (ℕ × Option Error) × Gzip
pass failure p g =
    let g' = record g { rw = call (if g.enabled then gzip_wrote p else wrote p) g.rw } in
    elim failure [ none ↦ ((length p, none), g') | some n ↦ ((n, some write_failed), g') ]

-- The parts of writeHeader.
unfoldable pub varied : Gzip → Header
varied g =
    if leb min_compress_body_length (length g.buffer)
    then add vary_header accept_encoding_header g.rw.header
    else g.rw.header

unfoldable pub still_enabled : Gzip → Bool
still_enabled g =
    if eq_str (get content_encoding_header (varied g)) gzip_name then false else g.enabled

unfoldable pub encoded : Gzip → Header
encoded g =
    if still_enabled g
    then set content_encoding_header gzip_name (delete content_length_header (varied g))
    else varied g

unfoldable pub status_calls : Gzip → List Call
status_calls g =
    if not g.hijacked && ltb 0 g.status_code
    then g.rw.calls ++ (sent_header g.status_code ∷ [])
    else g.rw.calls

-- The method writeHeader.
unfoldable pub send_header : Gzip → Gzip
send_header g = if g.header_sent then g else record g {
  enabled = still_enabled g;
  header_sent = true;
  rw = record { header = encoded g; calls = status_calls g };
}

unfoldable pub write_header : ℕ → Gzip → Gzip
write_header status_code g = record g { status_code = status_code }

-- The end of Write, on the result of the method write.
abbrev pub checked : (bytes_len buf_len : ℕ) → (ℕ × Option Error) × Gzip → (ℕ × Option Error) × Gzip
checked bytes_len buf_len ((n, some e), g) = ((n, some e), g)
checked bytes_len buf_len ((n, none), g) =
    if ltb buf_len min_compress_body_length && not (bytes_len == (n - buf_len))
    then ((0, some invalid_write_result), g)
    else ((bytes_len, none), g)

unfoldable pub fill : Str → Gzip → Gzip
fill p g = record g { buffer = g.buffer ++ p }

unfoldable pub write : Option ℕ → Str → Gzip → (ℕ × Option Error) × Gzip
write failure p g =
    let buf_len = length g.buffer in
    if ltb buf_len min_compress_body_length
    then (if ltb (length p) (min_compress_body_length - buf_len)
        then ((length p, none), fill p g)
        else checked (length p) buf_len (pass failure (g.buffer ++ p) (send_header (fill p g))))
    else checked (length p) buf_len (pass failure p (send_header g))

-- The end of Close; `fails` is the failure of the Close of the gzip writer.
unfoldable pub close_gzip : (fails : Bool) → Gzip → Option Error × Gzip
close_gzip fails g =
    let g' = send_header g in
    if g'.enabled
    then ((if fails then some close_failed else none), record g' { rw = call gzip_closed g'.rw })
    else (none, g')

abbrev pub unless_failed : (fails : Bool) → (ℕ × Option Error) × Gzip → Option Error × Gzip
unless_failed fails ((n, some e), g) = (some e, g)
unless_failed fails ((n, none), g) = close_gzip fails g

unfoldable pub close : Option ℕ → (fails : Bool) → Gzip → Option Error × Gzip
close failure fails g =
    if ltb (length g.buffer) min_compress_body_length
    then unless_failed fails (pass failure g.buffer (send_header (record g { enabled = false })))
    else close_gzip fails g

-- `flusher` says whether the inner writer can flush.
unfoldable pub flush : (flusher : Bool) → Gzip → Gzip
flush flusher g =
    if ltb (length g.buffer) min_compress_body_length
    then g
    else let g1 = send_header g in
      let g2 = (if g1.enabled then record g1 { rw = call gzip_flushed g1.rw } else g1) in
      if flusher then record g2 { rw = call flushed g2.rw } else g2

-- `hijacker` says whether the inner writer can be hijacked.
unfoldable pub hijack : (hijacker : Bool) → Gzip → Option Error × Gzip
hijack hijacker g =
    if not hijacker
    then (some no_hijacker, g)
    else (none, record g { enabled = false; hijacked = true })

-- ModifyAcceptEncoding
unfoldable pub modify_accept_encoding : (supports : Bool) → Header → Header
modify_accept_encoding supports header =
    if supports
    then set accept_encoding_header gzip_name header
    else delete accept_encoding_header header
