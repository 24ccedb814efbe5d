-- ===== src/RateLimit/Limiter/Queue.antt =====
-- The mutex of the limiter over the rounds of its loop.
use couper.Base.{◌≡◌, true, false, List, some, arith}
use couper.RateLimit.Limiter.{
  dummy, RateLimit, Verdict, check_capacity, Limiter, Trip, Reply, context_error, done, stuck,
  blocks, admit, slow_trip,
}

-- A round that ends, from a free mutex, without the cancellation of a waiting request leaves the
-- mutex free.
pub slow_trip-unlocked :
    (l l' : Limiter) (trip : Trip) (reply : Reply)
    → l.locked ≡ false
    → trip.canceled_waiting ≡ false
    → slow_trip l trip ≡ done l' reply
    → l'.locked ≡ false
unfolding slow_trip admit
slow_trip-unlocked l l' trip reply free stays e = ground arith

-- When the context of a request ends while the loop waits for it, the loop goes on with the mutex
-- held: the next request that is not cancelled before its turn gets stuck at the lock.
pub slow_trip-stuck :
    (l : Limiter) (trip next : Trip) (limits : List RateLimit) (v : Verdict)
    → l.locked ≡ false
    → trip.canceled ≡ false
    → check_capacity trip.now l.limits (dummy, 0) ≡ some (limits, v)
    → blocks v ≡ false
    → trip.canceled_waiting ≡ true
    → next.canceled ≡ false
    → (l' : Limiter) × (slow_trip l trip ≡ done l' context_error) × (slow_trip l' next ≡ stuck)
unfolding slow_trip admit
slow_trip-stuck l trip next limits v free live checked passes waiting live' =
    (record { limits = limits; locked = true }, ground arith, ground arith)
