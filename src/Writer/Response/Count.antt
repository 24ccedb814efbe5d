-- ===== src/Writer/Response/Count.antt =====
-- What is counted, and that the header goes out once and first.
use couper.Base.{
  ℕ, ◌+◌, ◌≡◌, refl, sym, ap, ◌∙◌, Bool, true, false, List, [], ◌∷◌, ◌++◌, none, some, arith, Str,
  length, length-append, drop, Bool-cases, Option-cases, inl, inr,
}
use mathlib.Core.Path.{subst}
use mathlib.Core.List.{append_assoc, append-nil}
use couper.Middleware.Cors.{Header}
use couper.Writer.Response.{
  Response, Call, sent_header, sent_to_connection, wrote, flushed, new_response_writer,
  write_header, pass, write, write_rest, flush_header, merge_header, parse_status_code, index,
  end_of_header, hijack, flush, header_call, or_internal, final_header, set_private_cc,
  add_modifier, add_header_modifier,
}

abbrev pub sent : Call → Str
sent (wrote p) = p
sent c = []

-- The body that was handed on.
unfoldable pub body : List Call → Str
body [] = []
body (c ∷ cs) = sent c ++ body cs

abbrev pub is_header : Call → ℕ
is_header (sent_header code h) = 1
is_header (sent_to_connection code h) = 1
is_header c = 0

-- How many headers were sent.
unfoldable pub headers : List Call → ℕ
headers [] = 0
headers (c ∷ cs) = is_header c + headers cs

pub body-append : (cs : List Call) (c : Call) → body (cs ++ (c ∷ [])) ≡ body cs ++ sent c
unfolding body
body-append [] c = append-nil (sent c)
body-append (d ∷ cs) c =
    ap (λ s. sent d ++ s) (body-append cs c) ∙ sym (append_assoc (sent d) (body cs) (sent c))

headers-append : (cs : List Call) (c : Call) → headers (cs ++ (c ∷ [])) ≡ headers cs + is_header c
unfolding headers
headers-append [] c = omega arith
headers-append (d ∷ cs) c = omega (arith, headers-append cs c)

-- The calls of a response writer; a write has the result of the inner one.
pub data Use : Type 0 where
  writes : Str → Use
  flushes hijacks : Bool → Use
  writes_header : ℕ → Use
  marks_private : Use
  modifies : List (Header → Header) → Use
  modifies_header : (Header → Header) → Use

abbrev pub one_if : Bool → ℕ
one_if true = 1
one_if false = 0

pub record IsCounted (r : Response) : Type 0 where
  pub bytes : r.bytes_written ≡ length (body r.calls)
  pub once : headers r.calls ≡ one_if r.status_written
  pub no_body : r.status_written ≡ false → body r.calls ≡ []

pub header_call_lem :
    (hijacked : Bool) (code : ℕ) (h : Header)
    → (sent (header_call hijacked code h) ≡ []) × (is_header (header_call hijacked code h) ≡ 1)
header_call_lem true code h = (refl, refl)
header_call_lem false code h = (refl, refl)

module _ (read_line : Str → Str) (read_header : Str → Header) (atoi : Str → ℕ) (p : Str)
    (r : Response) where
  pub write_on :
      r.status_written ≡ true
      → (pass none p (record r { raw_bytes_written = r.raw_bytes_written + length p })).1
        ≡ (write read_line read_header atoi none p r).1
  unfolding write
  write_on w = ground (arith, w)

  abbrev pub received : Response
  received = record r {
    raw_bytes_written = r.raw_bytes_written + length p;
    http_header_buffer = r.http_header_buffer ++ p;
  }

  pub write_buffered :
      r.status_written ≡ false
      → index (r.http_header_buffer ++ p) end_of_header ≡ none
      → received ≡ (write read_line read_header atoi none p r).1
  unfolding write
  write_buffered w e = ground (arith, w, e)

  pub write_completed :
      (idx : ℕ)
      → r.status_written ≡ false
      → index (r.http_header_buffer ++ p) end_of_header ≡ some idx
      → (write_rest none (length p) idx (flush_header read_line read_header atoi received)).1
        ≡ (write read_line read_header atoi none p r).1
  unfolding write
  write_completed idx w e = ground (arith, w, e)

module _ (read_line : Str → Str) (read_header : Str → Header) (atoi : Str → ℕ) where
  unfoldable pub step : Use → Response → Response
  step (writes p) r = (write read_line read_header atoi none p r).1
  step (flushes flusher) r = flush flusher r
  step (hijacks hijacker) r = (hijack hijacker r).1
  step (writes_header code) r = write_header code r
  step marks_private r = set_private_cc r
  step (modifies ms) r = add_modifier ms r
  step (modifies_header m) r = add_header_modifier m r

  unfoldable pub run : List Use → Response → Response
  run [] r = r
  run (u ∷ us) r = run us (step u r)

  pass-IsCounted :
      (p : Str) (r : Response) → r.status_written ≡ true → IsCounted r → IsCounted (pass none p r).1
  unfolding pass
  pass-IsCounted p r w c = ground (
    arith,
    w,
    c,
    body-append r.calls (wrote p),
    headers-append r.calls (wrote p),
    ap length (body-append r.calls (wrote p)),
    length-append (body r.calls) p,
  )

  write_header-IsCounted :
      (code : ℕ) (r : Response)
      → IsCounted r
      → IsCounted (write_header code r) × ((write_header code r).status_written ≡ true)
  unfolding write_header
  write_header-IsCounted code r c =
      let call = header_call r.hijacked (or_internal code) (final_header r code) in
      let (silent, one) = header_call_lem r.hijacked (or_internal code) (final_header r code) in
      ground (
        arith,
        c,
        body-append r.calls call,
        headers-append r.calls call,
        ap length (body-append r.calls call),
        ap length (append-nil (body r.calls)),
        silent,
        one,
        ap (λ s. length (body r.calls ++ s)) silent,
      )

  flush_header-IsCounted :
      (r : Response)
      → IsCounted r
      → IsCounted (flush_header read_line read_header atoi r)
        × ((flush_header read_line read_header atoi r).status_written ≡ true)
  unfolding flush_header
  flush_header-IsCounted r c =
      write_header-IsCounted
        (parse_status_code read_line read_header atoi (read_line r.http_header_buffer))
        (record r { header = merge_header (read_header r.http_header_buffer) r.header })
        (record { bytes = c.bytes; once = c.once; no_body = c.no_body })

  write_rest-IsCounted :
      (l idx : ℕ) (r : Response)
      → r.status_written ≡ true
      → IsCounted r
      → IsCounted (write_rest none l idx r).1
  unfolding write_rest
  write_rest-IsCounted l idx r w c =
      ground (arith, c, pass-IsCounted (drop (idx + 4) r.http_header_buffer) r w c)

  write-IsCounted :
      (p : Str) (r : Response)
      → IsCounted r
      → IsCounted (write read_line read_header atoi none p r).1
  unfolding write
  write-IsCounted p r c =
      let r1 = record r { raw_bytes_written = r.raw_bytes_written + length p } in
      let c1 : IsCounted r1 = record { bytes = c.bytes; once = c.once; no_body = c.no_body } in
      let r2 = record r1 { http_header_buffer = r.http_header_buffer ++ p } in
      let c2 : IsCounted r2 = record { bytes = c.bytes; once = c.once; no_body = c.no_body } in
      let (c3, w3) = flush_header-IsCounted r2 c2 in
      elim (Bool-cases r.status_written) [
        | inl w ↦
            subst IsCounted (write_on read_line read_header atoi p r w) (pass-IsCounted p r1 w c1)
        | inr w ↦ elim (Option-cases (index (r.http_header_buffer ++ p) end_of_header)) [
          | inl e ↦ subst IsCounted (write_buffered read_line read_header atoi p r w e) c2
          | inr (idx, e) ↦
              subst IsCounted (write_completed read_line read_header atoi p r idx w e) (
                write_rest-IsCounted (length p) idx (flush_header read_line read_header atoi r2) w3
                  c3)
        ]
      ]

  step-IsCounted : (u : Use) (r : Response) → IsCounted r → IsCounted (step u r)
  unfolding step flush hijack set_private_cc add_modifier add_header_modifier
  step-IsCounted (writes p) r c = write-IsCounted p r c
  step-IsCounted (flushes flusher) r c = ground (
    arith,
    c,
    body-append r.calls flushed,
    headers-append r.calls flushed,
    append-nil (body r.calls),
    ap length (body-append r.calls flushed),
    ap length (append-nil (body r.calls)),
  )
  step-IsCounted (hijacks hijacker) r c = ground (arith, c)
  step-IsCounted (writes_header code) r c = (write_header-IsCounted code r c).0
  step-IsCounted marks_private r c = ground (arith, c)
  step-IsCounted (modifies ms) r c = ground (arith, c)
  step-IsCounted (modifies_header m) r c = ground (arith, c)

  run-keeps : (us : List Use) (r : Response) → IsCounted r → IsCounted (run us r)
  unfolding run
  run-keeps [] r c = c
  run-keeps (u ∷ us) r c = run-keeps us (step u r) (step-IsCounted u r c)

  -- After any calls of a new writer whose writes the inner writer accepts, the counted bytes are
  -- those of the body that was handed on, the header was sent once if the status is written and
  -- else not at all, and no body was handed on before.
  pub run-IsCounted :
      (us : List Use) (header : Header) (secure_cookies : Str)
      → IsCounted (run us (new_response_writer header secure_cookies))
  unfolding new_response_writer body headers
  run-IsCounted us header secure_cookies =
      run-keeps us (new_response_writer header secure_cookies)
        (record { bytes = refl; once = refl; no_body = λ w. refl })
