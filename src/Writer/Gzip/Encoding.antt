-- ===== src/Writer/Gzip/Encoding.antt =====
-- Whether a response is compressed, and that its header says so.
use couper.Base.{
  ℕ, ◌<◌, ◌≤◌, Bool, true, false, List, ◌≡◌, refl, sym, ◌∙◌, arith, length, if◌then◌else◌,
  Bool-cases, none, All, inl, inr,
}
use mathlib.Core.Path.{subst}
use couper.Middleware.Cors.{Header, get}
use couper.Writer.Gzip.{
  Gzip, min_compress_body_length, pass, send_header, write_header, close, close_gzip, gzip_closed,
  new_gzip_writer, content_encoding_header, gzip_name,
}
use couper.Writer.Gzip.Run.{Use, run, closed, written}
use couper.Writer.Gzip.Body.{so_far, run-Adds}
use couper.Writer.Gzip.Calls.{fits, is_response, close_gzip_lem}
use couper.Writer.Gzip.Phases.{
  IsOutput, is_compressed, compressed, IsSending, send_header-IsSending, pass-IsSending, IsFull,
  IsFree, IsStarted, calls_if-IsLed, run-IsStarted,
}

so_far-run :
    (supports : Bool) (header : Header) (code : ℕ) (us : List Use)
    → so_far (run us (write_header code (new_gzip_writer supports header))) ≡ written us
unfolding so_far write_header new_gzip_writer
so_far-run supports header code us =
    (run-Adds us (write_header code (new_gzip_writer supports header)) (λ short. refl)).1

module _ (supports : Bool) (header : Header) (code : ℕ) where
  close_gzip-IsSending :
      (e : Bool) (g : Gzip)
      → IsSending supports header code e g
      → IsSending supports header code e (close_gzip false g).1
  unfolding close_gzip fits
  close_gzip-IsSending e g (again, on, r, kept) =
      subst (IsSending supports header code e) (sym (close_gzip_lem g again)) (
        calls_if-IsLed supports header code g.enabled gzip_closed e g (λ h. sym on ∙ h)
          (again, on, r, kept))

  close_short :
      (g : Gzip)
      → length g.buffer < min_compress_body_length
      → (close none false g).1
        ≡ (close_gzip false (pass none g.buffer (send_header (record g { enabled = false }))).1).1
  unfolding close pass
  close_short g short = ground (arith, short)

  close_full :
      (g : Gzip)
      → min_compress_body_length ≤ length g.buffer
      → (close none false g).1 ≡ (close_gzip false g).1
  unfolding close
  close_full g full = ground (arith, full)

  close-IsSending :
      (g : Gzip)
      → 0 < code
      → IsFree supports header code g
      → IsStarted supports header code g
      → IsSending supports header code
          (is_compressed supports header (so_far g))
          (close none false g).1
  unfolding IsStarted IsFull IsFree is_compressed so_far
  close-IsSending g positive free (inl (short, unsent, silent, on, same)) =
      let g0 = record g { enabled = false } in
      subst (IsSending supports header code (is_compressed supports header (so_far g)))
        (sym (close_short g short))
        (subst
          (λ e.
            IsSending supports header code e
              (close_gzip false (pass none g.buffer (send_header g0)).1).1)
          (ground (arith, short, Bool-cases (compressed supports header code)))
          (close_gzip-IsSending false (pass none g.buffer (send_header g0)).1 (
            pass-IsSending supports header code false g.buffer (send_header g0) (
              send_header-IsSending supports header code g0 positive free.0 free.1 unsent silent
                same))))
  close-IsSending g positive free (inr ((full, handed), sending)) =
      subst (IsSending supports header code (is_compressed supports header (so_far g)))
        (sym (close_full g full))
        (subst (λ e. IsSending supports header code e (close_gzip false g).1)
          (ground (arith, full, handed, Bool-cases (compressed supports header code)))
          (close_gzip-IsSending (compressed supports header code) g sending))

  -- A new writer with a positive status.
  abbrev opened : Gzip
  opened = write_header code (new_gzip_writer supports header)

  opened-IsStarted : IsFree supports header code opened × IsStarted supports header code opened
  unfolding IsFree IsStarted write_header new_gzip_writer
  opened-IsStarted = ((refl, refl), inl (omega arith, refl, refl, refl, refl))

-- After WriteHeader with a positive status and any writes and flushes, all accepted, Close leaves a
-- response whose status went out once and first, and which is compressed in all its parts or in
-- none: it is exactly if the client supports it, the body has 60 bytes or more and the header did
-- not name gzip as its encoding before. Then the header names gzip, and otherwise what it did.
pub closed-encoding :
    (supports : Bool) (header : Header) (code : ℕ) (us : List Use)
    → 0 < code
    → All IsOutput us
    → (is_response code
          (is_compressed supports header (written us))
          (closed us (write_header code (new_gzip_writer supports header))).rw.calls
        ≡ true)
      × (get content_encoding_header
            (closed us (write_header code (new_gzip_writer supports header))).rw.header
          ≡ (if is_compressed supports header (written us)
              then gzip_name
              else get content_encoding_header header))
unfolding closed
closed-encoding supports header code us positive output =
    let g = write_header code (new_gzip_writer supports header) in
    let (free, started) = opened-IsStarted supports header code in
    let (free', started') = run-IsStarted supports header code us g positive output free started in
    let (again, on, r, kept) =
      subst
        (λ s.
          IsSending supports header code (is_compressed supports header s)
            (close none false (run us g)).1)
        (so_far-run supports header code us)
        (close-IsSending supports header code (run us g) positive free' started') in
    (r, kept)
