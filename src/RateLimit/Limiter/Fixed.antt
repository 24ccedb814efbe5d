-- ===== src/RateLimit/Limiter/Fixed.antt =====
-- Fixed windows: the period that a time falls in, what a full period answers, and which limit of
-- several decides.
use couper.Base.{
  ℕ, ◌+◌, ◌-◌, ◌*◌, ◌/◌, ◌%◌, ◌≤◌, ◌<◌, ◌≡◌, inl, inr, Option-cases, false, List, [], ◌∷◌, ◌++◌,
  some, arith, ltb, if◌then◌else◌,
}
use couper.RateLimit.Ring.{Time, uint_mod, RingBuffer, get}
use couper.RateLimit.Limiter.{
  mode_block, mode_wait, window_fixed, window_sliding, RateLimit, Verdict, update_period,
  check_fixed, check_sliding, check_limit, check_capacity, count_request, count_requests, Trip,
  rate_limit_exceeded, transport, done, blocks, admit, slow_trip,
}

-- The period that `now` falls in starts whole periods after the old start; the count goes on in the
-- same period and starts again in a later one.
pub record IsCurrent (now : Time) (rl rl' : RateLimit) : Type 0 where
  pub rounds : ℕ
  pub aligned : rl'.period_start ≡ rl.period_start + rl.period * rounds
  pub begun : rl'.period_start ≤ now
  pub ends : now < rl'.period_start + rl'.period
  pub counted : rl'.count ≡ (if ltb 0 rounds then 0 else rl.count)
  pub same_per_period : rl'.per_period ≡ rl.per_period
  pub same_period : rl'.period ≡ rl.period
  pub same_mode : rl'.mode ≡ rl.mode
  pub same_window : rl'.window ≡ rl.window

-- From a period that has begun, the update ends in the period that holds the time now, with a count
-- of 0 if that is another period, and with the count as it was otherwise.
pub update_period-IsCurrent :
    (now : Time) (rl : RateLimit)
    → 0 < rl.period
    → rl.period_start ≤ now
    → IsCurrent now rl (update_period now rl)
unfolding update_period
update_period-IsCurrent now rl pos begun = record {
  rounds = (now - rl.period_start) / rl.period;
  aligned = ground arith;
  begun = ground arith;
  ends = ground arith;
  counted = ground arith;
  same_per_period = ground arith;
  same_period = ground arith;
  same_mode = ground arith;
  same_window = ground arith;
}

-- A limiter of one limit with a fixed window that blocks.
pub record IsFixedBlock (rl : RateLimit) : Type 0 where
  pub fixed : rl.window ≡ window_fixed
  pub block : rl.mode ≡ mode_block
  pub positive : 0 < rl.period
  pub small : rl.per_period < uint_mod

-- With one limit of a fixed window in block mode and a free mutex, from a period that has begun, a
-- trip that is not cancelled leaves a limit whose period holds its time, whole periods after the
-- old one, and whose count goes on in the same period and starts at 0 in a later one: the trip is
-- sent exactly when that count is below the limit, and is counted then; otherwise it is refused and
-- the count stays.
pub slow_trip-fixed :
    (rl : RateLimit) (trip : Trip)
    → IsFixedBlock rl
    → rl.period_start ≤ trip.now
    → trip.canceled ≡ false
    → trip.canceled_waiting ≡ false
    → (current : RateLimit) × IsCurrent trip.now rl current
      × (slow_trip (record { limits = rl ∷ []; locked = false }) trip ≡ (
          if ltb current.count rl.per_period
          then done
              (record {
                limits = record current { count = current.count + 1 } ∷ [];
                locked = false;
              })
              transport
          else done (record { limits = current ∷ []; locked = false }) rate_limit_exceeded))
unfolding slow_trip check_capacity check_fixed admit blocks count_requests count_request
slow_trip-fixed rl trip v begun live stays =
    let c = update_period-IsCurrent trip.now rl v.positive begun in
    (update_period trip.now rl, c, ground (arith, v, c))

-- The limit is used up at `now` and asks for the wait `t`. A fixed window counts the requests of the
-- `n`-th period from its start on, `n` being 0 for the one of its count, and waits for the end of
-- that period; a sliding window waits until the oldest of the counted times is a period ago.
pub data IsExhausted (now : Time) (rl : RateLimit) (t : ℕ) : Type 0 where
  in_fixed :
      rl.window ≡ window_fixed
      → 0 < rl.period
      → (let n = (now - rl.period_start) / rl.period in
          (rl.per_period ≤ (if ltb 0 n then 0 else rl.count))
          × (t ≡ (rl.period_start + rl.period * n) + rl.period - now))
      → IsExhausted now rl t
  in_sliding :
      (b : RingBuffer) (oldest : Time)
      → rl.window ≡ window_sliding
      → rl.ring_buffer ≡ some b
      → get b ≡ some (some oldest)
      → now < oldest + rl.period
      → t ≡ oldest + rl.period - now
      → IsExhausted now rl t

-- An exhausted limit sets both results, whatever they were.
check_limit-IsExhausted :
    (now : Time) (rl : RateLimit) (t : ℕ) (v : Verdict)
    → IsExhausted now rl t
    → (rl' : RateLimit) × (check_limit rl.window now rl v ≡ some (rl', (rl.mode, t)))
unfolding check_fixed check_sliding update_period
check_limit-IsExhausted now rl t v (in_fixed w pos (full, wait)) =
    (update_period now rl, ground (arith, w, pos, full, wait))
check_limit-IsExhausted now rl t v (in_sliding b oldest w r g early wait) =
    (rl, ground (arith, w, r, g, early, wait))

-- If checkCapacity returns and the last limit is used up, then the mode and the wait that it
-- returns are those of that limit, whatever the limits before it ask for: a limit with a fixed
-- window is used up if the requests counted in the period of the time reach the limit, and waits
-- for the end of that period; one with a sliding window is used up if the time that its ring buffer
-- returns is less than a period ago, and waits until it is a period ago.
pub check_capacity-last :
    (now : Time) (before : List RateLimit) (rl : RateLimit) (t : ℕ) (v w : Verdict)
    {limits : List RateLimit}
    → IsExhausted now rl t
    → check_capacity now (before ++ rl ∷ []) v ≡ some (limits, w)
    → w ≡ (rl.mode, t)
unfolding check_capacity
check_capacity-last now [] rl t v w h e =
    let (rl', p) = check_limit-IsExhausted now rl t v h in ground (arith, p, e)
check_capacity-last now (b ∷ before) rl t v w h e =
    elim (Option-cases (check_limit b.window now b v)) [
      | inl p ↦ ground (arith, p)
      | inr ((b', u), p) ↦ elim (Option-cases (check_capacity now (before ++ rl ∷ []) u)) [
        | inl q ↦ ground (arith, p, q)
        | inr ((rest, x), q) ↦
            let ih = check_capacity-last now before rl t u x h q in ground (arith, p, q, ih, e)
      ]
    ]

restarts :
    (now : Time) (rl : RateLimit)
    → 0 < rl.period
    → rl.period_start + rl.period ≤ now
    → (update_period now rl).count ≡ 0
unfolding update_period
restarts now rl pos ended = ground (arith, at_least_one (now - rl.period_start) rl.period)
  where
    at_least_one : (a b : ℕ) → 0 < b → b ≤ a → 0 < a / b
    at_least_one a b h k = grind arith

-- A request that waits for the end of a full fixed period is sent, and at every later time from the
-- end of that period on the count starts at 0: the request is not counted in the period in which it
-- was sent.
pub slow_trip-uncounted :
    (rl : RateLimit) (trip : Trip) (later : Time)
    → rl.window ≡ window_fixed
    → rl.mode ≡ mode_wait
    → 0 < rl.period
    → rl.period_start ≤ trip.now
    → trip.canceled ≡ false
    → trip.canceled_waiting ≡ false
    → (update_period trip.now rl).per_period ≤ (update_period trip.now rl).count
    → (update_period trip.now rl).period_start + rl.period ≤ later
    → (rl' : RateLimit) × (slow_trip (record { limits = rl ∷ []; locked = false }) trip
        ≡ done (record { limits = rl' ∷ []; locked = false }) transport)
      × ((update_period later rl').count ≡ 0)
unfolding slow_trip check_capacity check_fixed admit blocks count_requests count_request
slow_trip-uncounted rl trip later fixed wait pos begun live stays full ended =
    let current = update_period trip.now rl in
    let c = update_period-IsCurrent trip.now rl pos begun in
    let rl' = record current { count = (current.count + 1) % uint_mod } in
    (
      rl',
      ground (arith, c),
      restarts later rl' (omega (arith, c.same_period)) (omega (arith, c.same_period)),
    )
