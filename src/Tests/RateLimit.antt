-- ===== src/Tests/RateLimit.antt =====
-- The rate limiter on small inputs.
use couper.Base.{
  ltb, ◌+◌, ℕ, ◌≡◌, refl, true, false, List, [], ◌∷◌, Option, none, some, arith, All, codes, ℤ, pos,
  Str, ok, err, eq_str, if◌then◌else◌,
}
use couper.RateLimit.Ring.{RingBuffer, new_ring_buffer, put, get}
use couper.RateLimit.Ring.Recent.{Recent, new_ring_buffer-Recent, put-Recent}
use couper.RateLimit.Limiter.{
  Mode, dummy, mode_block, mode_wait, window_fixed, window_sliding, RateLimit, Verdict, Limiter,
  Trip, context_error, rate_limit_exceeded, transport, done, stuck, update_period, check_fixed,
  check_sliding, check_capacity, count_request, count_requests, blocks, admit, slow_trip,
}
use couper.RateLimit.Limiter.Sliding.{IsSpaced, Run, begin, sent, IsSliding, Run-IsSpaced}
use couper.RateLimit.Limiter.Fixed.{
  IsCurrent, slow_trip-fixed, IsExhausted, in_fixed, check_capacity-last, slow_trip-uncounted,
}
use couper.RateLimit.Limiter.Queue.{slow_trip-stuck}
use couper.RateLimit.Limiter.Safety.{IsRunnable, IsFit, slow_trip-IsFit}
use couper.RateLimit.Config.{
  RateLimitBlock, duplicate_period, configure_rate_limits, configure_from, configure_one,
  parse_duration, window_of, mode_of, contains, sort_desc,
}
use couper.RateLimit.Config.Laws.{IsReady, IsDescending, configure_rate_limits-IsReady}

-- everything that a round of the loop calls
loop : Unit {0}
unfolding slow_trip admit blocks check_capacity check_fixed check_sliding update_period
    count_requests count_request put get new_ring_buffer
loop = tt

configuring : Unit {0}
unfolding configure_rate_limits configure_from configure_one parse_duration window_of mode_of
    contains sort_desc eq_str
configuring = tt

abbrev sliding : RateLimit
sliding = record {
  count = 0;
  mode = mode_wait;
  period = 100;
  period_start = 0;
  per_period = 2;
  ring_buffer = some (new_ring_buffer 2);
  window = window_sliding;
}

abbrev one_sliding : Limiter
one_sliding = record { limits = sliding ∷ []; locked = false }

abbrev fixed : Mode → RateLimit
fixed mode = record {
  count = 2;
  mode = mode;
  period = 100;
  period_start = 1000;
  per_period = 2;
  ring_buffer = none;
  window = window_fixed;
}

abbrev trip_at : ℕ → ℕ → Trip
trip_at now counted = record {
  canceled = false;
  now = now;
  canceled_waiting = false;
  clock = λ k. counted;
}

abbrev after_one : Limiter
after_one = record {
  limits =
      record sliding {
        ring_buffer = some (record { buf = some 7 ∷ none ∷ []; len = 2; r = 1; w = 0 });
      }
      ∷ [];
  locked = false;
}

first_round : slow_trip one_sliding (trip_at 5 7) ≡ done after_one transport
unfolding loop
first_round = refl

one_sliding-IsSliding : IsSliding 2 100 one_sliding []
one_sliding-IsSliding = record {
  limit = sliding;
  buffer = new_ring_buffer 2;
  only = refl;
  sliding = refl;
  period_is = refl;
  buffer_is = refl;
  len_is = unfold new_ring_buffer in refl;
  recent = new_ring_buffer-Recent 2 (omega arith) (omega arith);
}

one_round : Run one_sliding after_one (7 ∷ [])
unfolding loop
one_round = sent (trip_at 5 7) begin first_round (λ limits v e. ground (arith, e))

Run-IsSpaced_example : IsSpaced 2 100 (7 ∷ [])
Run-IsSpaced_example = Run-IsSpaced one_sliding-IsSliding (omega arith) one_round

put-Recent_example :
    (b' : RingBuffer) × (put (new_ring_buffer 3) 9 ≡ some b')
    × (b'.len ≡ (new_ring_buffer 3).len)
    × Recent b' (9 ∷ [])
put-Recent_example =
    put-Recent (new_ring_buffer 3) [] (new_ring_buffer-Recent 3 (omega arith) (omega arith)) 9

-- The period that holds 1250 is a new one: its count starts again, and the trip is sent.
slow_trip-fixed_example :
    (current : RateLimit) × IsCurrent 1250 (fixed mode_block) current
    × (slow_trip (record { limits = fixed mode_block ∷ []; locked = false }) (trip_at 1250 1250) ≡ (
        if ltb current.count (fixed mode_block).per_period
        then done
            (record { limits = record current { count = current.count + 1 } ∷ []; locked = false })
            transport
        else done (record { limits = current ∷ []; locked = false }) rate_limit_exceeded))
slow_trip-fixed_example =
    slow_trip-fixed (fixed mode_block) (trip_at 1250 1250)
      (record { fixed = refl; block = refl; positive = omega arith; small = omega arith })
      (omega arith) refl refl

slow_trip_full :
    slow_trip (record { limits = fixed mode_block ∷ []; locked = false }) (trip_at 1050 1050)
    ≡ done (record { limits = fixed mode_block ∷ []; locked = false }) rate_limit_exceeded
unfolding loop
slow_trip_full = refl

slow_trip-uncounted_example :
    (rl' : RateLimit) × (slow_trip
        (record { limits = fixed mode_wait ∷ []; locked = false })
        (trip_at 1050 1101)
      ≡ done (record { limits = rl' ∷ []; locked = false }) transport)
    × ((update_period 1110 rl').count ≡ 0)
unfolding update_period
slow_trip-uncounted_example =
    slow_trip-uncounted (fixed mode_wait) (trip_at 1050 1101) 1110 refl refl (omega arith)
      (omega arith) refl refl (omega arith) (omega arith)

-- A limit of a long period that wants a wait of 9950, and after it one that wants 50.
abbrev long : RateLimit
long = record (fixed mode_block) { period = 10000 }

abbrev short : RateLimit
short = fixed mode_wait

short-IsExhausted : IsExhausted 1050 short 50
short-IsExhausted = in_fixed refl (omega arith) (omega arith, refl)

two_limits :
    check_capacity 1050 (long ∷ short ∷ []) (dummy, 0) ≡ some (long ∷ short ∷ [], (mode_wait, 50))
unfolding loop
two_limits = refl

check_capacity-last_example : ◌≡◌ {A = Verdict} (mode_wait, 50) (short.mode, 50)
check_capacity-last_example =
    check_capacity-last 1050 (long ∷ []) short 50 (dummy, 0) (mode_wait, 50) short-IsExhausted
      two_limits

abbrev canceled_trip : Trip
canceled_trip = record { canceled = false; now = 1050; canceled_waiting = true; clock = λ k. 1050 }

one_fixed :
    check_capacity 1050 (fixed mode_wait ∷ []) (dummy, 0)
    ≡ some (fixed mode_wait ∷ [], (mode_wait, 50))
unfolding loop
one_fixed = refl

slow_trip-stuck_example :
    (l' : Limiter) × (slow_trip
        (record { limits = fixed mode_wait ∷ []; locked = false })
        canceled_trip
      ≡ done l' context_error)
    × (slow_trip l' (trip_at 2000 2000) ≡ stuck)
unfolding blocks
slow_trip-stuck_example =
    slow_trip-stuck (record { limits = fixed mode_wait ∷ []; locked = false }) canceled_trip
      (trip_at 2000 2000) (fixed mode_wait ∷ []) (mode_wait, 50) refl refl one_fixed refl refl refl

two-IsRunnable : All IsRunnable (long ∷ sliding ∷ [])
two-IsRunnable = (
  record { period_pos = omega arith; ring = tt },
  (
    record {
      period_pos = omega arith;
      ring = (new_ring_buffer 2, [], refl, new_ring_buffer-Recent 2 (omega arith) (omega arith));
    },
    tt,
  ),
)

slow_trip-IsFit_example :
    IsFit (slow_trip (record { limits = long ∷ sliding ∷ []; locked = false }) (trip_at 1050 1060))
slow_trip-IsFit_example =
    slow_trip-IsFit (record { limits = long ∷ sliding ∷ []; locked = false }) (trip_at 1050 1060)
      two-IsRunnable

-- A parser of durations that knows "1s" and "1m".
abbrev parse : Str → Option ℤ
parse s =
    if eq_str s (codes "1s")
    then some (pos 1_000_000_000)
    else if eq_str s (codes "1m")
    then some (pos 60_000_000_000)
    else none

abbrev block : Str → RateLimitBlock
block period = record { mode = []; period = period; per_period = 3; period_window = codes "fixed" }

abbrev limit_of : ℕ → RateLimit
limit_of period = record {
  count = 0;
  mode = mode_wait;
  period = period;
  period_start = 0;
  per_period = 3;
  ring_buffer = none;
  window = window_fixed;
}

abbrev sorted : List RateLimit
sorted = limit_of 60_000_000_000 ∷ limit_of 1_000_000_000 ∷ []

configured : configure_rate_limits parse (block (codes "1s") ∷ block (codes "1m") ∷ []) ≡ ok sorted
unfolding configuring
configured = refl

configured_twice :
    configure_rate_limits parse (block (codes "1s") ∷ block (codes "1s") ∷ [])
    ≡ err duplicate_period
unfolding configuring
configured_twice = refl

configure_rate_limits-IsReady_example : All IsReady sorted × IsDescending sorted
configure_rate_limits-IsReady_example =
    configure_rate_limits-IsReady parse (block (codes "1s") ∷ block (codes "1m") ∷ []) configured

abbrev started : Limiter
started = record { limits = sorted; locked = false }
