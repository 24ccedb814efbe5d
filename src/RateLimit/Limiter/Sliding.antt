-- ===== src/RateLimit/Limiter/Sliding.antt =====
-- The promise of a sliding window: no more than `per_period` requests start in any interval of the
-- length of the period, over every run of the limiter's loop.
use couper.Base.{
  ℕ, zero, suc, ◌+◌, ◌-◌, ◌≤◌, ◌<◌, ◌≡◌, ◌≢◌, refl, sym, ap, ◌∙◌, List, [], ◌∷◌, some, arith,
  get_elem?,
}
use couper.RateLimit.Ring.{Time, RingBuffer}
use couper.RateLimit.Ring.Recent.{Recent, get_oldest, put-Recent}
use couper.RateLimit.Limiter.{
  dummy, window_sliding, RateLimit, Verdict, wait_for, check_sliding, check_capacity, count_request,
  count_requests, Limiter, Trip, Reply, transport, done, admit, slow_trip,
}

-- A time in the log and the one that was logged `n` requests before it are a period apart.
abbrev pub IsSpaced : ℕ → ℕ → List Time → Type 0
IsSpaced n period log =
    (i : ℕ) (later earlier : Time)
    → get_elem? log i ≡ some later
    → get_elem? log (i + n) ≡ some earlier
    → earlier + period ≤ later

IsSpaced-cons :
    (n period : ℕ) (log : List Time) (t : Time)
    → 0 < n
    → IsSpaced n period log
    → ((latest : Time) → get_elem? log (n - 1) ≡ some latest → latest + period ≤ t)
    → IsSpaced n period (t ∷ log)
IsSpaced-cons zero period log t pos spaced h i later earlier p q = elim pos [ ]
IsSpaced-cons (suc n) period log t pos spaced h zero later earlier p q =
    let same : t ≡ later = ground arith in
    let old : get_elem? log n ≡ some earlier =
      sym (at_index (0 + suc n) (suc n) (omega arith)) ∙ q in
    let far : earlier + period ≤ t = h earlier (at_index' (suc n - 1) n (omega arith) ∙ old) in
    omega arith
  where
    at_index : (j k : ℕ) → j ≡ k → get_elem? (t ∷ log) j ≡ get_elem? (t ∷ log) k
    at_index j k e = ap (get_elem? (t ∷ log)) e

    at_index' : (j k : ℕ) → j ≡ k → get_elem? log j ≡ get_elem? log k
    at_index' j k e = ap (get_elem? log) e
IsSpaced-cons (suc n) period log t pos spaced h (suc i) later earlier p q =
    spaced i later earlier p (sym (ap (get_elem? (t ∷ log)) shift) ∙ q)
  where
    shift : suc i + suc n ≡ suc (i + suc n)
    shift = omega arith

-- The runs of the loop, with the times at which requests were counted, newest first. A request is
-- counted after time.After has let at least the computed wait pass.
pub data Run (start : Limiter) : Limiter → List Time → Type 0 where
  begin : Run start start []
  refused :
      {l l' : Limiter} {log : List Time} (trip : Trip) (reply : Reply)
      → Run start l log
      → slow_trip l trip ≡ done l' reply
      → reply ≢ transport
      → Run start l' log
  sent :
      {l l' : Limiter} {log : List Time} (trip : Trip)
      → Run start l log
      → slow_trip l trip ≡ done l' transport
      → ((limits : List RateLimit) (v : Verdict)
          → check_capacity trip.now l.limits (dummy, 0) ≡ some (limits, v)
          → trip.now + v.1 ≤ trip.clock 0)
      → Run start l' (trip.clock 0 ∷ log)

-- A limiter of one limit with a sliding window of `n` requests in `period`.
pub record IsSliding (n period : ℕ) (l : Limiter) (log : List Time) : Type 0 where
  pub limit : RateLimit
  pub buffer : RingBuffer
  pub only : l.limits ≡ limit ∷ []
  pub sliding : limit.window ≡ window_sliding
  pub period_is : limit.period ≡ period
  pub buffer_is : limit.ring_buffer ≡ some buffer
  pub len_is : buffer.len ≡ n
  pub recent : Recent buffer log

module _ {n period : ℕ} {l : Limiter} {log : List Time} (v : IsSliding n period l log) where
  abbrev the_verdict : Time → Verdict
  the_verdict now = wait_for now v.limit (dummy, 0) (get_elem? log (n - 1))

  check_capacity-sliding :
      (now : Time) → check_capacity now l.limits (dummy, 0) ≡ some (v.limit ∷ [], the_verdict now)
  unfolding check_capacity check_sliding
  check_capacity-sliding now = rw v.only (ground (arith, v, get_oldest v.buffer log v.recent))

  count_requests-sliding :
      (clock : ℕ → Time)
      → (b' : RingBuffer) × (b'.len ≡ n)
        × Recent b' (clock 0 ∷ log)
        × (count_requests clock 0 (v.limit ∷ [])
            ≡ some (record v.limit { ring_buffer = some b' } ∷ []))
  unfolding count_requests count_request
  count_requests-sliding clock =
      let (b', put_is, len_is, recent) = put-Recent v.buffer log v.recent (clock 0) in
      (b', len_is ∙ v.len_is, recent, ground (arith, v, put_is))

  -- A round that sends a request keeps the limiter, with the new time in its log.
  sent-IsSliding :
      {l' : Limiter} (trip : Trip)
      → slow_trip l trip ≡ done l' transport
      → IsSliding n period l' (trip.clock 0 ∷ log)
  unfolding slow_trip admit
  sent-IsSliding trip e =
      let (b', len_is, recent, counted) = count_requests-sliding trip.clock in
      record {
        limit = record v.limit { ring_buffer = some b' };
        buffer = b';
        only = ground (arith, check_capacity-sliding trip.now, counted, e);
        sliding = v.sliding;
        period_is = v.period_is;
        buffer_is = refl;
        len_is = len_is;
        recent = recent;
      }

  refused-IsSliding :
      {l' : Limiter} (trip : Trip) (reply : Reply)
      → slow_trip l trip ≡ done l' reply
      → reply ≢ transport
      → IsSliding n period l' log
  unfolding slow_trip admit
  refused-IsSliding trip reply e ne = record {
    limit = v.limit;
    buffer = v.buffer;
    only = ground (arith, check_capacity-sliding trip.now, v.only, e, ne);
    sliding = v.sliding;
    period_is = v.period_is;
    buffer_is = v.buffer_is;
    len_is = v.len_is;
    recent = v.recent;
  }

  -- The wait ends a period after the time that the ring buffer returned.
  wait_covers :
      (now t : Time) (latest : Time)
      → now + (the_verdict now).1 ≤ t
      → get_elem? log (n - 1) ≡ some latest
      → latest + period ≤ t
  wait_covers now t latest h e = ground (arith, v, e, h)

module _ {n period : ℕ} {start : Limiter} (v : IsSliding n period start []) where
  Run-IsSliding : {l : Limiter} {log : List Time} → Run start l log → IsSliding n period l log
  Run-IsSliding begin = v
  Run-IsSliding (refused trip reply run e ne) =
      refused-IsSliding (Run-IsSliding run) trip reply e ne
  Run-IsSliding (sent trip run e _) = sent-IsSliding (Run-IsSliding run) trip e

  -- Over every run of the loop of a limiter whose only limit has a sliding window of n requests in
  -- a period, with n at least one, and where a request that has to wait is counted no sooner than
  -- its wait has passed, each counted time lies at least a period behind the one counted n requests
  -- earlier.
  pub Run-IsSpaced :
      {l : Limiter} {log : List Time} → 0 < n → Run start l log → IsSpaced n period log
  Run-IsSpaced pos begin = λ i later earlier p q. absurd (elim_none p)
    where
      elim_none : {x : Time} → get_elem? {A = Time} [] 0 ≡ some x → ⊥
      elim_none p = cc
  Run-IsSpaced pos (refused trip reply run e ne) = Run-IsSpaced pos run
  Run-IsSpaced pos (sent {log = log} trip run e timely) =
      let w = Run-IsSliding run in
      IsSpaced-cons n period log (trip.clock 0) pos (Run-IsSpaced pos run) (λ latest.
        wait_covers w trip.now (trip.clock 0) latest
          (timely _ _ (check_capacity-sliding w trip.now)))
