-- ===== src/Writer/Response/Body.antt =====
-- What becomes of the bytes behind the header.
use couper.Base.{
  ℕ, zero, suc, ◌+◌, ◌≡◌, refl, sym, ap, ◌∙◌, true, false, not, [], ◌∷◌, ◌++◌, none, some, arith,
  ◌⊎◌, ◌≤◌, ltb, inl, inr, Str, length, drop, take, has_prefix, has_suffix, prefix_rest, reverse,
  Bool-cases, Option-cases, if◌then◌else◌,
}
use mathlib.Core.List.{append_assoc, append-nil, reverse-append}
use couper.Middleware.Cors.{Header}
use couper.Writer.Response.{
  Response, wrote, write_header, pass, write, write_rest, final_header, or_internal, header_call,
  flush_header, merge_header, parse_status_code, index, end_of_header, end_of_line,
}
use couper.Writer.Response.Count.{body, body-append, header_call_lem, write_completed, received}

drop-append : (p s : Str) → drop (length p) (p ++ s) ≡ s
drop-append [] s = refl
drop-append (c ∷ p) s = drop-append p s

-- Where a part is found, the text goes on with it.
at_front : (s p : Str) → has_prefix s p ≡ true → s ≡ p ++ drop (length p) s
at_front s p h =
    let (rest, e) = prefix_rest s p h in
    e ∙ ap (λ t. p ++ t) (sym (ap (drop (length p)) e ∙ drop-append p rest))

index_lem : (s p : Str) (i : ℕ) → index s p ≡ some i → s ≡ take i s ++ (p ++ drop (i + length p) s)
unfolding index
index_lem [] p zero h =
    at_front [] p (ground (arith, h, Bool-cases (has_prefix [] p)))
    ∙ ap (λ n. p ++ drop n []) (omega arith)
index_lem [] p (suc i) h = absurd (ground (arith, h, Bool-cases (has_prefix [] p)))
index_lem (c ∷ s) p zero h =
    at_front (c ∷ s) p
      (ground (arith, h, Bool-cases (has_prefix (c ∷ s) p), Option-cases (index s p)))
    ∙ ap (λ n. p ++ drop n (c ∷ s)) (omega arith)
index_lem (c ∷ s) p (suc i) h = ap (◌∷◌ c) (
    index_lem s p i (ground (arith, h, Bool-cases (has_prefix (c ∷ s) p), Option-cases (index s p)))
    ∙ ap (λ n. take i s ++ (p ++ n)) (ap (λ n. drop n (c ∷ s)) (next i (length p))))
  where
    next : (i n : ℕ) → suc (i + n) ≡ suc i + n
    next i n = omega arith

-- A text that goes on with the end of a header, read backwards.
last_two :
    (c : ℕ) (w rest : Str)
    → has_prefix ((c ∷ w) ++ (10 ∷ rest)) (10 ∷ 13 ∷ []) ≡ has_prefix (c ∷ w) (10 ∷ 13 ∷ [])
unfolding has_prefix
last_two c [] rest = ground arith
last_two c (d ∷ w) rest = refl

backwards :
    (head b : Str) (c : ℕ)
    → reverse (head ++ (end_of_header ++ (b ++ (c ∷ []))))
      ≡ (c ∷ reverse b) ++ (10 ∷ (13 ∷ 10 ∷ 13 ∷ reverse head))
backwards head b c =
    reverse-append head (end_of_header ++ (b ++ (c ∷ [])))
    ∙ ap (λ w. w ++ reverse head)
        (reverse-append end_of_header (b ++ (c ∷ []))
          ∙ ap (λ w. w ++ reverse end_of_header) (reverse-append b (c ∷ [])))
    ∙ append_assoc (c ∷ reverse b) (10 ∷ 13 ∷ 10 ∷ 13 ∷ []) (reverse head)

ends_line :
    (head b : Str) (c : ℕ)
    → has_suffix (head ++ (end_of_header ++ (b ++ (c ∷ [])))) end_of_line
      ≡ has_suffix (b ++ (c ∷ [])) end_of_line
unfolding has_suffix
ends_line head b c =
    ap (λ w. has_prefix w (10 ∷ 13 ∷ [])) (backwards head b c)
    ∙ last_two c (reverse b) (13 ∷ 10 ∷ 13 ∷ reverse head)
    ∙ sym (ap (λ w. has_prefix w (10 ∷ 13 ∷ [])) (reverse-append b (c ∷ [])))

-- What a text ends in: nothing, or a last byte.
ends : (b : Str) → (b ≡ []) ⊎ ((a : Str) × (c : ℕ) × (b ≡ a ++ (c ∷ [])))
ends [] = inl refl
ends (c ∷ b) = elim (ends b) [
  | inl e ↦ inr ([], c, ap (◌∷◌ c) e)
  | inr (a, d, e) ↦ inr (c ∷ a, d, ap (◌∷◌ c) e)
]

drop_all : (n : ℕ) (s : Str) → length s ≤ n → drop n s ≡ []
drop_all zero [] h = refl
drop_all zero (c ∷ s) h = absurd (omega arith)
drop_all (suc n) [] h = refl
drop_all (suc n) (c ∷ s) h = drop_all n s (omega arith)

-- A body, if it does not end in the end of a line.
abbrev pub unless_line : Str → Str
unless_line b = if has_suffix b end_of_line then [] else b

abbrev not_ending : ℕ → Str → Str
not_ending idx s = if not (has_suffix s end_of_line) then drop (idx + 4) s else []

write_rest_lem :
    (l idx : ℕ) (r : Response)
    → ((write_rest none l idx r).0 ≡ (l, none))
      × (body (write_rest none l idx r).1.calls
          ≡ body r.calls ++ not_ending idx r.http_header_buffer)
unfolding write_rest pass
write_rest_lem l idx r =
    let s = r.http_header_buffer in
    (
      ground arith,
      elim (Bool-cases (ltb (idx + 4) (length s))) [
        | inl more ↦
            ground (
              arith,
              more,
              body-append r.calls (wrote (drop (idx + 4) s)),
              append-nil (body r.calls),
            )
        | inr over ↦ ground (
          arith,
          over,
          append-nil (body r.calls),
          ap (λ t. body r.calls ++ t) (drop_all (idx + 4) s (ground (arith, over))),
        )
      ],
    )

not_ending_lem :
    (idx : ℕ) (s : Str)
    → index s end_of_header ≡ some idx
    → not_ending idx s ≡ unless_line (drop (idx + 4) s)
not_ending_lem idx s e = elim (ends (drop (idx + 4) s)) [
  | inl none_left ↦ ground (arith, none_left, ap (λ t. unless_line t) none_left)
  | inr (a, c, last) ↦
      let shape : s ≡ take idx s ++ (end_of_header ++ (a ++ (c ∷ []))) =
        index_lem s end_of_header idx e ∙ ap (λ t. take idx s ++ (end_of_header ++ t)) last in
      let same : has_suffix s end_of_line ≡ has_suffix (drop (idx + 4) s) end_of_line =
        ap (λ t. has_suffix t end_of_line) shape
        ∙ (ends_line (take idx s) a c ∙ ap (λ t. has_suffix t end_of_line) (sym last)) in
      ground (arith, same)
]

module _ (read_line : Str → Str) (read_header : Str → Header) (atoi : Str → ℕ) where
  body-write_header : (code : ℕ) (r : Response) → body (write_header code r).calls ≡ body r.calls
  unfolding write_header
  body-write_header code r = ground (
    arith,
    body-append r.calls (header_call r.hijacked (or_internal code) (final_header r code)),
    (header_call_lem r.hijacked (or_internal code) (final_header r code)).0,
    append-nil (body r.calls),
  )

  buffer-write_header :
      (code : ℕ) (r : Response) → (write_header code r).http_header_buffer ≡ r.http_header_buffer
  unfolding write_header
  buffer-write_header code r = ground arith

  body-flush_header :
      (r : Response) → body (flush_header read_line read_header atoi r).calls ≡ body r.calls
  unfolding flush_header
  body-flush_header r =
      body-write_header
        (parse_status_code read_line read_header atoi (read_line r.http_header_buffer))
        (record r { header = merge_header (read_header r.http_header_buffer) r.header })

  buffer-flush_header :
      (r : Response)
      → (flush_header read_line read_header atoi r).http_header_buffer ≡ r.http_header_buffer
  unfolding flush_header
  buffer-flush_header r =
      buffer-write_header
        (parse_status_code read_line read_header atoi (read_line r.http_header_buffer))
        (record r { header = merge_header (read_header r.http_header_buffer) r.header })

  -- A write that completes the buffered header, where the inner writer accepts what it gets,
  -- returns its own length without an error, and what it hands on of the body is all that stands
  -- behind the end of the header, but nothing if that ends in the end of a line.
  pub write-body :
      (p : Str) (r : Response) (idx : ℕ)
      → r.status_written ≡ false
      → index (r.http_header_buffer ++ p) end_of_header ≡ some idx
      → ((write read_line read_header atoi none p r).0 ≡ (length p, none))
        × (body (write read_line read_header atoi none p r).1.calls
            ≡ body r.calls ++ unless_line (drop (idx + 4) (r.http_header_buffer ++ p)))
  unfolding write
  write-body p r idx w e =
      let r2 = received read_line read_header atoi p r in
      let r3 = flush_header read_line read_header atoi r2 in
      (
        ground (arith, w, e, (write_rest_lem (length p) idx r3).0),
        ap (λ (t : Response). body t.calls)
              (sym (write_completed read_line read_header atoi p r idx w e))
            ∙ ((write_rest_lem (length p) idx r3).1
                ∙ (ap (λ s. s ++ not_ending idx r3.http_header_buffer) (body-flush_header r2)
                    ∙ ap (λ s. body r.calls ++ s)
                        (ap (not_ending idx) (buffer-flush_header r2)
                          ∙ not_ending_lem idx (r.http_header_buffer ++ p) e))),
      )
