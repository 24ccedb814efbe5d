-- ===== src/RateLimit/Limiter/Safety.antt =====
-- No round of the loop panics, and the limits of a configuration stay fit to run with.
use couper.Base.{
  ℕ, ◌+◌, ◌-◌, ◌%◌, get_elem?, ◌<◌, ◌≡◌, refl, List, [], ◌∷◌, Option, none, some, arith, All, Str,
  ℤ, ok, leb, if◌then◌else◌,
}
use couper.RateLimit.Config.{ring_for, RateLimitBlock, configure_rate_limits}
use couper.RateLimit.Config.Laws.{IsReady, configure_rate_limits-IsReady}
use mathlib.Core.Path.{subst, subst⁻¹}
use couper.RateLimit.Ring.{Time, uint_mod, RingBuffer, new_ring_buffer, get}
use couper.RateLimit.Ring.Recent.{Recent, new_ring_buffer-Recent, get_oldest, put-Recent}
use couper.RateLimit.Limiter.{
  dummy, Window, window_sliding, window_fixed, RateLimit, Verdict, wait_for, update_period,
  check_limit, check_fixed, check_sliding, check_capacity, count_in, count_request, count_requests,
  Limiter, Trip, Round, done, stuck, panicked, admit, slow_trip, start_periods, new_limiter,
}

abbrev HasRing : Window → Option RingBuffer → Type 0
HasRing window_fixed o = Unit
HasRing window_sliding o = (b : RingBuffer) × (log : List Time) × (o ≡ some b) × Recent b log

-- The period is positive, and a sliding window has a ring buffer of the last times.
pub record IsRunnable (rl : RateLimit) : Type 0 where
  pub period_pos : 0 < rl.period
  pub ring : HasRing rl.window rl.ring_buffer

update_period-IsRunnable :
    (now : Time) (rl : RateLimit) → IsRunnable rl → IsRunnable (update_period now rl)
unfolding update_period
update_period-IsRunnable now rl v = ground (arith, v)

-- What a round of checkCapacity returns, for a limit of window `k`.
checked : Window → Time → RateLimit → Verdict → Option Time → RateLimit × Verdict
checked window_fixed now rl v latest =
    let rl' = update_period now rl in
    (
      rl',
      (if leb rl'.per_period rl'.count then (rl'.mode, rl'.period_start + rl'.period - now) else v),
    )
checked window_sliding now rl v latest = (rl, wait_for now rl v latest)

check_sliding_lem :
    (now : Time) (rl : RateLimit) (v : Verdict) (b : RingBuffer) (latest : Option Time)
    → rl.ring_buffer ≡ some b
    → get b ≡ some latest
    → check_sliding now rl v ≡ some (rl, wait_for now rl v latest)
unfolding check_sliding
check_sliding_lem now rl v b latest has oldest = ground arith

check_limit_total :
    (k : Window) (now : Time) (rl : RateLimit) (v : Verdict)
    → rl.window ≡ k
    → IsRunnable rl
    → (latest : Option Time) × (check_limit k now rl v ≡ some (checked k now rl v latest))
      × IsRunnable (checked k now rl v latest).0
unfolding checked check_fixed
check_limit_total window_fixed now rl v e r =
    (none, ground (arith, r), update_period-IsRunnable now rl r)
check_limit_total window_sliding now rl v e r =
    let (b, log, has, recent) = subst (λ k. HasRing k rl.ring_buffer) e r.ring in
    (get_elem? log (b.len - 1), check_sliding_lem now rl v b _ has (get_oldest b log recent), r)

check_capacity_total :
    (now : Time) (limits : List RateLimit) (v : Verdict)
    → All IsRunnable limits
    → (limits' : List RateLimit) × (v' : Verdict) × (check_capacity now limits v
        ≡ some (limits', v'))
      × All IsRunnable limits'
unfolding check_capacity
check_capacity_total now [] v h = ([], v, refl, tt)
check_capacity_total now (rl ∷ rest) v (r, h) =
    let (latest, first, r') = check_limit_total rl.window now rl v refl r in
    let (rl', v') = checked rl.window now rl v latest in
    let (rest', v'', others, h') = check_capacity_total now rest v' h in
    (rl' ∷ rest', v'', rw (first, check_capacity) (rw (others, check_capacity)), (r', h'))

count_in_total :
    (k : Window) (now : Time) (rl : RateLimit)
    → rl.window ≡ k
    → IsRunnable rl
    → (rl' : RateLimit) × (count_in k now rl ≡ some rl') × IsRunnable rl'
count_in_total window_fixed now rl e r = (
  record rl { count = (rl.count + 1) % uint_mod },
  refl,
  record { period_pos = r.period_pos; ring = r.ring },
)
count_in_total window_sliding now rl e r =
    let (b, log, has, recent) = subst (λ k. HasRing k rl.ring_buffer) e r.ring in
    let (b', put_is, _, recent') = put-Recent b log recent now in
    (
      record rl { ring_buffer = some b' },
      rw has (rw put_is),
      record {
        period_pos = r.period_pos;
        ring = subst⁻¹ (λ k. HasRing k (some b')) e (b', now ∷ log, refl, recent');
      },
    )

count_requests_total :
    (clock : ℕ → Time) (k : ℕ) (limits : List RateLimit)
    → All IsRunnable limits
    → (limits' : List RateLimit) × (count_requests clock k limits ≡ some limits')
      × All IsRunnable limits'
unfolding count_requests count_request
count_requests_total clock k [] h = ([], refl, tt)
count_requests_total clock k (rl ∷ rest) (r, h) =
    let (rl', first, r') = count_in_total rl.window (clock k) rl refl r in
    let (rest', others, h') = count_requests_total clock (k + 1) rest h in
    (rl' ∷ rest', rw (first, count_requests) (rw (others, count_requests)), (r', h'))

abbrev pub IsFit : Round → Type 0
IsFit (done l reply) = All IsRunnable l.limits
IsFit stuck = Unit
IsFit panicked = ⊥

-- No round of the loop over runnable limits panics, however many limits there are, and the limits
-- stay runnable.
pub slow_trip-IsFit :
    (l : Limiter) (trip : Trip) → All IsRunnable l.limits → IsFit (slow_trip l trip)
unfolding slow_trip admit
slow_trip-IsFit l trip h =
    let (limits, v, checked_is, h') = check_capacity_total trip.now l.limits (dummy, 0) h in
    let (counted, counted_is, h'') = count_requests_total trip.clock 0 limits h' in
    ground (arith, checked_is, counted_is, h, h', h'')

IsReady-IsRunnable : (rl : RateLimit) → IsReady rl × (rl.per_period < uint_mod) → IsRunnable rl
IsReady-IsRunnable rl (r, small) = record {
  period_pos = r.period_pos;
  ring = ring_is rl.window rl.ring_buffer r.ring;
}
  where
    ring_is : (k : Window) (o : Option RingBuffer) → o ≡ ring_for k rl.per_period → HasRing k o
    ring_is window_fixed o e = tt
    ring_is window_sliding o e = (
      new_ring_buffer rl.per_period,
      [],
      e,
      new_ring_buffer-Recent rl.per_period r.per_period_pos small,
    )

start_periods-IsRunnable :
    (now : ℕ → Time) (k : ℕ) (limits : List RateLimit)
    → All IsReady limits
    → All (λ rl. rl.per_period < uint_mod) limits
    → All IsRunnable (start_periods now k limits)
unfolding start_periods
start_periods-IsRunnable now k [] h s = tt
start_periods-IsRunnable now k (rl ∷ rest) (r, h) (small, s) = (
  record { period_pos = r.period_pos; ring = (IsReady-IsRunnable rl (r, small)).ring },
  start_periods-IsRunnable now (k + 1) rest h s,
)

-- The limiter that is made from the limits of a configuration without error, whose numbers are
-- within the range of uint, has runnable limits.
pub new_limiter-IsRunnable :
    (parse : Str → Option ℤ) (blocks : List RateLimitBlock) (now : ℕ → Time)
    {limits : List RateLimit} {l : Limiter}
    → configure_rate_limits parse blocks ≡ ok limits
    → All (λ rl. rl.per_period < uint_mod) limits
    → new_limiter now limits ≡ some l
    → All IsRunnable l.limits
unfolding new_limiter
new_limiter-IsRunnable parse blocks now {limits = []} e small made = ground (arith, made)
new_limiter-IsRunnable parse blocks now {limits = rl ∷ rest} {l} e small made =
    let same : start_periods now 0 (rl ∷ rest) ≡ l.limits = ground (arith, made) in
    rw (← same) (
      start_periods-IsRunnable now 0 (rl ∷ rest) (configure_rate_limits-IsReady parse blocks e).0
        small)
