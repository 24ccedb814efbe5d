-- ===== src/Writer/Gzip/Body.antt =====
-- What the inner writer gets of a body.
use couper.Base.{
  ℕ, ◌<◌, Bool, false, List, [], ◌∷◌, ◌++◌, ◌≡◌, refl, sym, ap, ◌∙◌, Str, arith, length,
  length-append, ltb, if◌then◌else◌, none, some, Option,
}
use mathlib.Core.List.{append_assoc, append-nil}
use couper.Middleware.Cors.{Header}
use couper.Writer.Gzip.{
  Gzip, min_compress_body_length, write, pass, fill, send_header, status_calls, write_header, flush,
  hijack, close, close_gzip, checked, Error, sent_header, wrote, gzip_wrote, flushed, gzip_flushed,
  gzip_closed, new_gzip_writer, unless_failed,
}
use couper.Writer.Gzip.Run.{
  Use, writes, flushes, hijacks, sets_status, changes_header, step, run, closed, bytes, written,
  body, body-append,
}

-- All bytes that were written so far: those of the buffer as long as it is short.
unfoldable pub so_far : Gzip → Str
unfolding body
so_far g = if ltb (length g.buffer) min_compress_body_length then g.buffer else body g.rw.calls

-- As long as the buffer is short, nothing of the body is handed on.
abbrev IsSound : Gzip → Type 0
IsSound g = length g.buffer < min_compress_body_length → body g.rw.calls ≡ []

body-send_header : (g : Gzip) → body (send_header g).rw.calls ≡ body g.rw.calls
unfolding send_header status_calls
body-send_header g =
    ground (arith, body-append g.rw.calls (sent_header g.status_code), append-nil (body g.rw.calls))

pub buffer-send_header : (g : Gzip) → (send_header g).buffer ≡ g.buffer
unfolding send_header
buffer-send_header g = ground arith

pub body-pass : (p : Str) (g : Gzip) → body (pass none p g).1.rw.calls ≡ body g.rw.calls ++ p
unfolding pass
body-pass p g =
    ground (arith, body-append g.rw.calls (gzip_wrote p), body-append g.rw.calls (wrote p))

buffer-pass : (p : Str) (g : Gzip) → (pass none p g).1.buffer ≡ g.buffer
unfolding pass
buffer-pass p g = refl

abbrev Adds : Gzip → Str → Gzip → Type 0
Adds g p g' = IsSound g' × (so_far g' ≡ so_far g ++ p)

pub checked_lem : (m n : ℕ) (r : (ℕ × Option Error) × Gzip) → (checked m n r).1 ≡ r.1
checked_lem m n ((k, some e), g) = refl
checked_lem m n ((k, none), g) = ground arith

write-Adds : (p : Str) (g : Gzip) → IsSound g → Adds g p (write none p g).1
unfolding write so_far fill
write-Adds p g sound =
    let g1 = fill p g in
    ground (
      arith,
      sound,
      length-append g.buffer p,
      checked_lem (length p) (length g.buffer) (pass none p (send_header g)),
      checked_lem (length p) (length g.buffer) (pass none (g.buffer ++ p) (send_header g1)),
      body-pass p (send_header g),
      buffer-pass p (send_header g),
      body-send_header g,
      buffer-send_header g,
      body-pass (g.buffer ++ p) (send_header g1),
      buffer-pass (g.buffer ++ p) (send_header g1),
      body-send_header g1,
      buffer-send_header g1,
    )

flush-Adds : (flusher : Bool) (g : Gzip) → IsSound g → Adds g [] (flush flusher g)
unfolding flush so_far
flush-Adds flusher g sound = ground (
  arith,
  sound,
  body-send_header g,
  buffer-send_header g,
  append-nil g.buffer,
  append-nil (body g.rw.calls),
  body-append (send_header g).rw.calls gzip_flushed,
  body-append (send_header g).rw.calls flushed,
  append-nil (body (send_header g).rw.calls),
  body-append ((send_header g).rw.calls ++ (gzip_flushed ∷ [])) flushed,
  append-nil (body ((send_header g).rw.calls ++ (gzip_flushed ∷ []))),
)

step-Adds : (u : Use) (g : Gzip) → IsSound g → Adds g (bytes u) (step u g)
unfolding step hijack write_header so_far
step-Adds (writes p) g sound = write-Adds p g sound
step-Adds (flushes flusher) g sound = flush-Adds flusher g sound
step-Adds (hijacks hijacker) g sound =
    ground (arith, sound, append-nil g.buffer, append-nil (body g.rw.calls))
step-Adds (sets_status code) g sound =
    ground (arith, sound, append-nil g.buffer, append-nil (body g.rw.calls))
step-Adds (changes_header f) g sound =
    ground (arith, sound, append-nil g.buffer, append-nil (body g.rw.calls))

pub run-Adds : (us : List Use) (g : Gzip) → IsSound g → Adds g (written us) (run us g)
unfolding run written
run-Adds [] g sound = (sound, sym (append-nil (so_far g)))
run-Adds (u ∷ us) g sound =
    let (sound', e) = step-Adds u g sound in
    let (done, e') = run-Adds us (step u g) sound' in
    (done, e' ∙ ap (λ s. s ++ written us) e ∙ append_assoc (so_far g) (bytes u) (written us))

close_gzip-body : (fails : Bool) (g : Gzip) → body (close_gzip fails g).1.rw.calls ≡ body g.rw.calls
unfolding close_gzip
close_gzip-body fails g = ground (
  arith,
  body-send_header g,
  body-append (send_header g).rw.calls gzip_closed,
  append-nil (body (send_header g).rw.calls),
)

unless_failed-body :
    (fails : Bool) (n : ℕ) (g : Gzip)
    → (body (unless_failed fails ((n, none), g)).1.rw.calls) ≡ body g.rw.calls
unless_failed-body fails n g = close_gzip-body fails g

close-body : (fails : Bool) (g : Gzip) → IsSound g → body (close none fails g).1.rw.calls ≡ so_far g
unfolding close so_far pass
close-body fails g sound =
    let g1 = record g { enabled = false } in
    ground (
      arith,
      sound,
      close_gzip-body fails g,
      body-send_header g1,
      body-pass g.buffer (send_header g1),
      close_gzip-body fails (pass none g.buffer (send_header g1)).1,
    )

-- Whatever is called on a new writer, in any order, if the writers below accept each write then the
-- body that is handed on, once the writer is closed, is what was written, in order.
pub closed-body :
    (supports : Bool) (header : Header) (us : List Use)
    → body (closed us (new_gzip_writer supports header)).rw.calls ≡ written us
unfolding closed new_gzip_writer so_far
closed-body supports header us =
    let g = new_gzip_writer supports header in
    let (sound, e) = run-Adds us g (λ short. refl) in close-body false (run us g) sound ∙ e
