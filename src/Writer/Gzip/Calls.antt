-- ===== src/Writer/Gzip/Calls.antt =====
-- What the single calls of the gzip writer do, and the calls of which a response is made.
use couper.Base.{
  ℕ, ◌<◌, ◌≤◌, ◌+◌, Bool, true, false, not, ◌&&◌, List, [], ◌∷◌, ◌++◌, ◌≡◌, refl, ap, ◌∙◌, Str,
  arith, length, ltb, ◌==◌, if◌then◌else◌, Bool-cases, none, eq_str, eq_str_refl, ◌⊎◌, inl, inr,
  lookup, delete, lookup-insert,
}
use couper.Middleware.Cors.{Header, get, set, add, values}
use couper.Writer.Gzip.{
  Gzip, Call, call, min_compress_body_length, write, pass, fill, send_header, status_calls, flush,
  close_gzip, varied, still_enabled, encoded, sent_header, wrote, gzip_wrote, flushed, gzip_flushed,
  gzip_closed, content_encoding_header, content_length_header, accept_encoding_header, vary_header,
  gzip_name,
}
use couper.Writer.Gzip.Body.{checked_lem}

-- The calls after the header of a response that is compressed, or is not.
unfoldable pub fits : Bool → Call → Bool
fits e (sent_header code) = false
fits e (wrote p) = not e
fits e (gzip_wrote p) = e
fits e flushed = true
fits e gzip_flushed = e
fits e gzip_closed = e

unfoldable pub all_fit : Bool → List Call → Bool
unfolding fits
all_fit e [] = true
all_fit e (c ∷ cs) = fits e c && all_fit e cs

-- The status goes first, once, and every call after it fits.
unfoldable pub is_response : ℕ → Bool → List Call → Bool
is_response code e (sent_header c ∷ cs) = (c == code) && all_fit e cs
is_response code e _ = false

all_fit-append :
    (e : Bool) (cs : List Call) (c : Call)
    → fits e c ≡ true
    → all_fit e cs ≡ true
    → all_fit e (cs ++ (c ∷ [])) ≡ true
unfolding all_fit
all_fit-append e [] c f h = ground (arith, f)
all_fit-append e (d ∷ cs) c f h = ground (arith, h, all_fit-append e cs c f)

pub is_response-append :
    (code : ℕ) (e : Bool) (cs : List Call) (c : Call)
    → fits e c ≡ true
    → is_response code e cs ≡ true
    → is_response code e (cs ++ (c ∷ [])) ≡ true
unfolding is_response
is_response-append code e [] c f h = ground (arith, h)
is_response-append code e (sent_header d ∷ cs) c f h = ground (arith, h, all_fit-append e cs c f)
is_response-append code e (wrote p ∷ cs) c f h = ground (arith, h)
is_response-append code e (gzip_wrote p ∷ cs) c f h = ground (arith, h)
is_response-append code e (flushed ∷ cs) c f h = ground (arith, h)
is_response-append code e (gzip_flushed ∷ cs) c f h = ground (arith, h)
is_response-append code e (gzip_closed ∷ cs) c f h = ground (arith, h)

vary_apart : eq_str vary_header content_encoding_header ≡ false
unfolding eq_str
vary_apart = refl

length_apart : eq_str content_length_header content_encoding_header ≡ false
unfolding eq_str
length_apart = refl

get-add : (k j v : Str) (h : Header) → eq_str k j ≡ false → get j (add k v h) ≡ get j h
unfolding get add
get-add k j v h ne = ground (arith, ne, lookup-insert k j (values (lookup k h) ++ (v ∷ [])) h)

pub get-set : (k v : Str) (h : Header) → get k (set k v h) ≡ v
unfolding get set
get-set k v h = ground (arith, eq_str_refl k, lookup-insert k k (v ∷ []) h)

get-varied :
    (g : Gzip) → get content_encoding_header (varied g) ≡ get content_encoding_header g.rw.header
unfolding varied
get-varied g = ground (
  arith,
  get-add vary_header content_encoding_header accept_encoding_header g.rw.header vary_apart,
)

pub get-encoded :
    (g : Gzip)
    → get content_encoding_header (encoded g)
      ≡ (if still_enabled g then gzip_name else get content_encoding_header g.rw.header)
unfolding encoded
get-encoded g = ground (
  arith,
  get-varied g,
  get-set content_encoding_header gzip_name (delete content_length_header (varied g)),
)

pub still_enabled_lem :
    (g : Gzip)
    → still_enabled g
      ≡ (g.enabled && not (eq_str (get content_encoding_header g.rw.header) gzip_name))
unfolding still_enabled
still_enabled_lem g =
    ground (arith, ap (λ s. eq_str s gzip_name) (get-varied g), Bool-cases g.enabled)

pub fresh_response :
    (code s : ℕ) (e : Bool) (cs : List Call)
    → s ≡ code
    → cs ≡ sent_header s ∷ []
    → is_response code e cs ≡ true
unfolding is_response all_fit
fresh_response code s e cs same fresh = ap (is_response code e) fresh ∙ ground (arith, same)

pub status_calls_lem :
    (g : Gzip)
    → 0 < g.status_code
    → g.hijacked ≡ false
    → g.rw.calls ≡ []
    → status_calls g ≡ sent_header g.status_code ∷ []
unfolding status_calls
status_calls_lem g positive free silent =
    ground (arith, positive, free, ap (λ cs. cs ++ (sent_header g.status_code ∷ [])) silent)

pub write_short :
    (p : Str) (g : Gzip)
    → length g.buffer + length p < min_compress_body_length
    → (write none p g).1 ≡ fill p g
unfolding write
write_short p g short = ground (arith, short)

pub write_full :
    (p : Str) (g : Gzip)
    → length g.buffer < min_compress_body_length
    → min_compress_body_length ≤ length g.buffer + length p
    → (write none p g).1 ≡ (pass none (g.buffer ++ p) (send_header (fill p g))).1
unfolding write
write_full p g short full = ground (
  arith,
  short,
  full,
  checked_lem (length p) (length g.buffer) (pass none (g.buffer ++ p) (send_header (fill p g))),
)

pub write_on :
    (p : Str) (g : Gzip)
    → min_compress_body_length ≤ length g.buffer
    → (write none p g).1 ≡ (pass none p (send_header g)).1
unfolding write
write_on p g full =
    ground (arith, full, checked_lem (length p) (length g.buffer) (pass none p (send_header g)))

abbrev pub calls_if : Bool → Call → Gzip → Gzip
calls_if true c g = record g { rw = call c g.rw }
calls_if false c g = g

abbrev pub flushed_by : Bool → Gzip → Gzip
flushed_by flusher g = calls_if flusher flushed (calls_if g.enabled gzip_flushed g)

pub flush_short :
    (flusher : Bool) (g : Gzip) → length g.buffer < min_compress_body_length → flush flusher g ≡ g
unfolding flush
flush_short flusher g short = ground (arith, short)

pub flush_full :
    (flusher : Bool) (g : Gzip)
    → min_compress_body_length ≤ length g.buffer
    → flush flusher g ≡ flushed_by flusher (send_header g)
unfolding flush
flush_full flusher g full = ground (arith, full)

pub close_gzip_lem :
    (g : Gzip) → g.header_sent ≡ true → (close_gzip false g).1 ≡ calls_if g.enabled gzip_closed g
unfolding close_gzip send_header
close_gzip_lem g again = ground (arith, again)

pub short_or_full : (n : ℕ) → (n < min_compress_body_length) ⊎ (min_compress_body_length ≤ n)
short_or_full n = elim (Bool-cases (ltb n min_compress_body_length)) [
  | inl e ↦ inl (ground (arith, e))
  | inr e ↦ inr (ground (arith, e))
]
