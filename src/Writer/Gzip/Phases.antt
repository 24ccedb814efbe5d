-- ===== src/Writer/Gzip/Phases.antt =====
-- The two phases of the gzip writer: waiting for enough bytes, and sending.
use couper.Base.{
  ℕ, ◌<◌, ◌≤◌, ◌+◌, Bool, true, false, not, ◌&&◌, List, [], ◌∷◌, ◌++◌, ◌≡◌, refl, sym, ap, ◌∙◌, Str,
  arith, length, length-append, leb, if◌then◌else◌, none, eq_str, All, ◌⊎◌, inl, inr,
}
use mathlib.Core.Path.{subst}
use couper.Middleware.Cors.{Header, get}
use couper.Writer.Gzip.{
  Gzip, Call, min_compress_body_length, write, pass, fill, send_header, status_calls, flush,
  still_enabled, wrote, gzip_wrote, flushed, gzip_flushed, content_encoding_header, gzip_name,
}
use couper.Writer.Gzip.Run.{
  Use, writes, flushes, hijacks, sets_status, changes_header, step, run, sent, body, body-append,
}
use couper.Writer.Gzip.Body.{body-pass, buffer-send_header}
use couper.Writer.Gzip.Calls.{
  fits, is_response, is_response-append, get-encoded, still_enabled_lem, fresh_response,
  status_calls_lem, write_short, write_full, write_on, calls_if, flushed_by, flush_short,
  flush_full, short_or_full,
}

-- A write or a flush.
abbrev pub IsOutput : Use → Type 0
IsOutput (writes p) = Unit
IsOutput (flushes b) = Unit
IsOutput _ = ⊥

-- Whether a response that is not short is compressed.
abbrev pub compresses : Bool → Header → Bool
compresses supports header = supports && not (eq_str (get content_encoding_header header) gzip_name)

-- Whether a response with this body is compressed.
unfoldable pub is_compressed : Bool → Header → Str → Bool
is_compressed supports header text =
    compresses supports header && leb min_compress_body_length (length text)

module _ (supports : Bool) (header : Header) (code : ℕ) where
  abbrev pub compressed : Bool
  compressed = compresses supports header

  abbrev IsWaiting : Gzip → Type 0
  IsWaiting g =
      (length g.buffer < min_compress_body_length)
      × (g.header_sent ≡ false)
      × (g.rw.calls ≡ [])
      × (g.enabled ≡ supports)
      × (get content_encoding_header g.rw.header ≡ get content_encoding_header header)

  abbrev pub IsSending : Bool → Gzip → Type 0
  IsSending e g =
      (g.header_sent ≡ true)
      × (g.enabled ≡ e)
      × (is_response code e g.rw.calls ≡ true)
      × (get content_encoding_header g.rw.header
          ≡ (if e then gzip_name else get content_encoding_header header))

  pub sends :
      (g : Gzip)
      → 0 < code
      → g.hijacked ≡ false
      → g.status_code ≡ code
      → g.header_sent ≡ false
      → g.rw.calls ≡ []
      → get content_encoding_header g.rw.header ≡ get content_encoding_header header
      → IsSending (still_enabled g) (send_header g)
  unfolding send_header
  sends g positive free status unsent silent same = (
    ground (arith, unsent),
    ground (arith, unsent),
    ground (
      arith,
      unsent,
      fresh_response code g.status_code (still_enabled g) (status_calls g) status
          (status_calls_lem g (omega (arith, positive, status)) free silent),
    ),
    ground (arith, unsent, get-encoded g, same),
  )

  pub send_header-IsSending :
      (g : Gzip)
      → 0 < code
      → g.hijacked ≡ false
      → g.status_code ≡ code
      → g.header_sent ≡ false
      → g.rw.calls ≡ []
      → get content_encoding_header g.rw.header ≡ get content_encoding_header header
      → IsSending
          (g.enabled && not (eq_str (get content_encoding_header header) gzip_name))
          (send_header g)
  send_header-IsSending g positive free status unsent silent same =
      subst (λ e. IsSending e (send_header g))
        (still_enabled_lem g ∙ ap (λ s. g.enabled && not (eq_str s gzip_name)) same)
        (sends g positive free status unsent silent same)

  sent_again : (g : Gzip) → g.header_sent ≡ true → send_header g ≡ g
  unfolding send_header
  sent_again g h = ground (arith, h)

  pub pass-IsSending :
      (e : Bool) (p : Str) (g : Gzip) → IsSending e g → IsSending e (pass none p g).1
  unfolding pass fits
  pass-IsSending e p g (h, en, r, c) = (
    h,
    en,
    is_response-append code e g.rw.calls (if g.enabled then gzip_wrote p else wrote p)
        (ground (arith, en)) r,
    c,
  )

  fill-IsOpen :
      (p : Str) (g : Gzip)
      → 0 < code
      → g.hijacked ≡ false
      → g.status_code ≡ code
      → IsWaiting g
      → IsSending compressed (pass none (g.buffer ++ p) (send_header (fill p g))).1
  unfolding fill
  fill-IsOpen p g positive free status (short, unsent, silent, on, same) =
      pass-IsSending compressed (g.buffer ++ p) (send_header (fill p g)) (
        subst
          (λ b.
            IsSending (b && not (eq_str (get content_encoding_header header) gzip_name))
              (send_header (fill p g)))
          on (send_header-IsSending (fill p g) positive free status unsent silent same))

  unfoldable pub IsFull : Gzip → Type 0
  IsFull g =
      (min_compress_body_length ≤ length g.buffer)
      × (min_compress_body_length ≤ length (body g.rw.calls))

  pass-IsFull :
      (p : Str) (g : Gzip)
      → min_compress_body_length ≤ length g.buffer
      → min_compress_body_length ≤ length (body g.rw.calls) + length p
      → IsFull (pass none p g).1
  unfolding IsFull pass
  pass-IsFull p g full handed =
      (full, ground (arith, handed, body-pass p g, length-append (body g.rw.calls) p))

  -- What writes leave alone.
  unfoldable pub IsFree : Gzip → Type 0
  IsFree g = (g.hijacked ≡ false) × (g.status_code ≡ code)

  write-IsFree : (p : Str) (g : Gzip) → IsFree g → IsFree (write none p g).1
  unfolding IsFree write pass send_header fill
  write-IsFree p g free = ground (arith, free)

  flush-IsFree : (flusher : Bool) (g : Gzip) → IsFree g → IsFree (flush flusher g)
  unfolding IsFree flush send_header
  flush-IsFree flusher g free = ground (arith, free)

  unfoldable pub IsStarted : Gzip → Type 0
  unfolding IsFull
  IsStarted g = IsWaiting g ⊎ (IsFull g × IsSending compressed g)

  fill-IsWaiting :
      (p : Str) (g : Gzip)
      → IsWaiting g
      → length g.buffer + length p < min_compress_body_length
      → IsWaiting (fill p g)
  unfolding fill
  fill-IsWaiting p g waiting short = ground (arith, waiting, short, length-append g.buffer p)

  filled-IsFull :
      (p : Str) (g : Gzip)
      → IsWaiting g
      → min_compress_body_length ≤ length g.buffer + length p
      → IsFull (pass none (g.buffer ++ p) (send_header (fill p g))).1
  unfolding fill
  filled-IsFull p g waiting full =
      pass-IsFull (g.buffer ++ p) (send_header (fill p g))
        (ground (arith, full, buffer-send_header (fill p g), length-append g.buffer p))
        (ground (arith, full, length-append g.buffer p))

  write-IsStarted :
      (p : Str) (g : Gzip) → 0 < code → IsFree g → IsStarted g → IsStarted (write none p g).1
  unfolding IsStarted IsFull IsFree
  write-IsStarted p g positive free (inr ((full, handed), sending)) =
      subst IsStarted
        (sym (write_on p g full ∙ ap (λ g. (pass none p g).1) (sent_again g sending.0)))
        (inr (pass-IsFull p g full (omega (arith, handed)), pass-IsSending compressed p g sending))
  write-IsStarted p g positive free (inl waiting) =
      elim (short_or_full (length g.buffer + length p)) [
        | inl short ↦
            subst IsStarted (sym (write_short p g short)) (inl (fill-IsWaiting p g waiting short))
        | inr full ↦
            subst IsStarted (sym (write_full p g waiting.0 full))
              (inr (filled-IsFull p g waiting full, fill-IsOpen p g positive free.0 free.1 waiting))
      ]

  calls_if-IsSending :
      (b : Bool) (c : Call) (g : Gzip)
      → (b ≡ true → fits compressed c ≡ true)
      → IsFull g × IsSending compressed g
      → IsFull (calls_if b c g) × IsSending compressed (calls_if b c g)
  unfolding IsFull
  calls_if-IsSending false c g fit h = h
  calls_if-IsSending true c g fit ((full, handed), (again, on, r, kept)) = (
    (
      full,
      ground (arith, handed, body-append g.rw.calls c, length-append (body g.rw.calls) (sent c)),
    ),
    (again, on, is_response-append code compressed g.rw.calls c (fit refl) r, kept),
  )

  flush-IsStarted : (flusher : Bool) (g : Gzip) → IsStarted g → IsStarted (flush flusher g)
  unfolding IsStarted IsFull fits
  flush-IsStarted flusher g (inl waiting) =
      subst IsStarted (sym (flush_short flusher g waiting.0)) (inl waiting)
  flush-IsStarted flusher g (inr (full, sending)) =
      subst IsStarted
        (sym (flush_full flusher g full.0 ∙ ap (flushed_by flusher) (sent_again g sending.0)))
        (inr (
          calls_if-IsSending flusher flushed (calls_if g.enabled gzip_flushed g) (λ e. refl)
            (calls_if-IsSending g.enabled gzip_flushed g (λ e. sym sending.1 ∙ e) (full, sending))))

  pub calls_if-IsLed :
      (b : Bool) (c : Call) (e : Bool) (g : Gzip)
      → (b ≡ true → fits e c ≡ true)
      → IsSending e g
      → IsSending e (calls_if b c g)
  calls_if-IsLed false c e g fit h = h
  calls_if-IsLed true c e g fit (again, on, r, kept) =
      (again, on, is_response-append code e g.rw.calls c (fit refl) r, kept)

  step-IsStarted :
      (u : Use) (g : Gzip)
      → 0 < code
      → IsOutput u
      → IsFree g
      → IsStarted g
      → IsFree (step u g) × IsStarted (step u g)
  unfolding step
  step-IsStarted (writes p) g positive output free started =
      (write-IsFree p g free, write-IsStarted p g positive free started)
  step-IsStarted (flushes flusher) g positive output free started =
      (flush-IsFree flusher g free, flush-IsStarted flusher g started)
  step-IsStarted (hijacks _) g positive output free started = elim output [ ]
  step-IsStarted (sets_status _) g positive output free started = elim output [ ]
  step-IsStarted (changes_header _) g positive output free started = elim output [ ]

  pub run-IsStarted :
      (us : List Use) (g : Gzip)
      → 0 < code
      → All IsOutput us
      → IsFree g
      → IsStarted g
      → IsFree (run us g) × IsStarted (run us g)
  unfolding run
  run-IsStarted [] g positive output free started = (free, started)
  run-IsStarted (u ∷ us) g positive output free started =
      let (free', started') = step-IsStarted u g positive output.0 free started in
      run-IsStarted us (step u g) positive output.1 free' started'
