-- ===== src/RateLimit/Limiter.antt =====
-- handler/ratelimit/limiter.go and the method countRequest of config.go. Times are nanoseconds, and
-- each call of time.Now is an input. A difference of times that Go lets go negative only ever fails
-- the test that follows it, as the truncated one does. `none` is a panic of the runtime, which
-- slowTripper logs and raises again.
pub mod Sliding
pub mod Fixed
pub mod Queue
pub mod Safety
use couper.Base.{
  ℕ, zero, suc, ◌+◌, ◌-◌, ◌*◌, ◌/◌, ◌%◌, Bool, true, false, ◌&&◌, List, [], ◌∷◌, Option, none, some,
  ltb, leb, ◌==◌, if◌then◌else◌, ◌>>=◌,
}
use couper.RateLimit.Ring.{Time, uint_mod, RingBuffer, put, get}

pub data Mode : Type 0 where
  dummy mode_block mode_wait : Mode

pub data Window : Type 0 where
  window_fixed window_sliding : Window

-- The ring buffer is a nil pointer in a limit with a fixed window.
pub record RateLimit : Type 0 where
  pub count : ℕ
  pub mode : Mode
  pub period : ℕ
  pub period_start : Time
  pub per_period : ℕ
  pub ring_buffer : Option RingBuffer
  pub window : Window

-- The named results of checkCapacity, as they stand between two rounds of its loop.
abbrev pub Verdict : Type 0
Verdict = Mode × ℕ

unfoldable pub update_period : Time → RateLimit → RateLimit
update_period now rl =
    let multiplicator = (now - rl.period_start) / rl.period in
    if ltb 0 multiplicator
    then record rl { period_start = rl.period_start + rl.period * multiplicator; count = 0 }
    else rl

unfoldable pub check_fixed : Time → RateLimit → Verdict → Option (RateLimit × Verdict)
check_fixed now rl v =
    if rl.period == 0
    then none
    else let rl' = update_period now rl in
      some (
        rl',
        (if leb rl'.per_period rl'.count
            then (rl'.mode, rl'.period_start + rl'.period - now)
            else v),
      )

-- `latest` is the entry that the ring buffer returns; `none` is the zero time.
abbrev pub wait_for : Time → RateLimit → Verdict → Option Time → Verdict
wait_for now rl v none = v
wait_for now rl v (some latest) =
    if ltb now (latest + rl.period) then (rl.mode, latest + rl.period - now) else v

unfoldable pub check_sliding : Time → RateLimit → Verdict → Option (RateLimit × Verdict)
check_sliding now rl v = do b ← rl.ring_buffer; latest ← get b; some (rl, wait_for now rl v latest)

-- One round of the loop of checkCapacity.
abbrev pub check_limit : Window → Time → RateLimit → Verdict → Option (RateLimit × Verdict)
check_limit window_fixed = check_fixed
check_limit window_sliding = check_sliding

unfoldable pub check_capacity : Time → List RateLimit → Verdict → Option (List RateLimit × Verdict)
check_capacity now [] v = some ([], v)
check_capacity now (rl ∷ rest) v = elim (check_limit rl.window now rl v) [
  | none ↦ none
  | some (rl', v') ↦ elim (check_capacity now rest v') [
    | none ↦ none
    | some (rest', v'') ↦ some (rl' ∷ rest', v'')
  ]
]

-- The method of RateLimit; `now` is read for a sliding window only.
abbrev pub count_in : Window → Time → RateLimit → Option RateLimit
count_in window_fixed now rl = some (record rl { count = (rl.count + 1) % uint_mod })
count_in window_sliding now rl = do
  b ← rl.ring_buffer
  b' ← put b now
  some (record rl { ring_buffer = some b' })

unfoldable pub count_request : Time → RateLimit → Option RateLimit
count_request now rl = count_in rl.window now rl

-- The method of Limiter; `clock k` is the reading that limit number `k` takes.
unfoldable pub count_requests : (ℕ → Time) → ℕ → List RateLimit → Option (List RateLimit)
count_requests clock k [] = some []
count_requests clock k (rl ∷ rest) = elim (count_request (clock k) rl) [
  | none ↦ none
  | some rl' ↦ elim (count_requests clock (k + 1) rest) [
    | none ↦ none
    | some rest' ↦ some (rl' ∷ rest')
  ]
]

-- What the loop shares: the limits, and whether the mutex `mu` is held.
pub record Limiter : Type 0 where
  pub limits : List RateLimit
  pub locked : Bool

-- One trip that the loop takes from its channel, with what its surroundings do meanwhile: whether
-- its request is cancelled before the loop gets to it, the clock, and which case the second select
-- takes.
pub record Trip : Type 0 where
  pub canceled : Bool
  pub now : Time
  pub canceled_waiting : Bool
  pub clock : ℕ → Time

pub data Reply : Type 0 where
  context_error rate_limit_exceeded transport : Reply

-- `stuck` is a call of mu.Lock that does not return.
pub data Round : Type 0 where
  done : Limiter → Reply → Round
  stuck : Round
  panicked : Round

is_blocked : Verdict → Bool
is_blocked (mode_block, t) = ltb 0 t
is_blocked (_, t) = false

unfoldable pub blocks : Verdict → Bool
unfolding is_blocked
blocks v = is_blocked v

-- After checkCapacity: the reply to a full block, the wait, and the count. The branch that leaves
-- the second select by the cancelled context goes on with the mutex held.
unfoldable pub admit : Trip → List RateLimit → Verdict → Round
admit trip limits v =
    if blocks v
    then done (record { limits = limits; locked = false }) rate_limit_exceeded
    else if trip.canceled_waiting
    then done (record { limits = limits; locked = true }) context_error
    else elim (count_requests trip.clock 0 limits) [
      | none ↦ panicked
      | some counted ↦ done (record { limits = counted; locked = false }) transport
    ]

-- One round of slowTripper with a trip. Its select reads a channel of the first limit, which
-- a limiter that NewLimiter made always has.
unfoldable pub slow_trip : Limiter → Trip → Round
slow_trip l trip =
    if trip.canceled
    then done l context_error
    else if l.locked
    then stuck
    else elim (check_capacity trip.now l.limits (dummy, 0)) [
      | none ↦ panicked
      | some (limits, v) ↦ admit trip limits v
    ]

-- NewLimiter; `now k` is the reading for limit number `k`. No limiter is made for no limits.
unfoldable pub start_periods : (ℕ → Time) → ℕ → List RateLimit → List RateLimit
start_periods now k [] = []
start_periods now k (rl ∷ rest) =
    record rl { period_start = now k } ∷ start_periods now (k + 1) rest

unfoldable pub new_limiter : (ℕ → Time) → List RateLimit → Option Limiter
unfolding start_periods
new_limiter now [] = none
new_limiter now (rl ∷ rest) =
    some (record { limits = start_periods now 0 (rl ∷ rest); locked = false })
