-- ===== src/RateLimit/Ring.antt =====
-- handler/ratelimit/ring_buffer.go. A time is a number of nanoseconds, and `none` is Go's zero
-- time. The mutex of the buffer is left out: each method holds it from its first statement to its
-- last. `uint` is 64 bits wide. `none` as a result is a panic of the runtime: the division by a
-- zero length, or an index out of range.
pub mod Recent
use couper.Base.{
  ℕ, ◌+◌, ◌-◌, ◌%◌, ◌^◌, List, Option, none, some, ltb, ◌==◌, if◌then◌else◌, length, get_elem?, set,
  replicate,
}

abbrev pub Time : Type 0
Time = ℕ

abbrev pub uint_mod : ℕ
uint_mod = 2 ^ 64

pub record RingBuffer : Type 0 where
  pub buf : List (Option Time)
  pub len : ℕ
  pub r : ℕ
  pub w : ℕ

unfoldable pub new_ring_buffer : ℕ → RingBuffer
new_ring_buffer len = record {
  buf = replicate len none;
  len = len;
  r = 0;
  w = (len + uint_mod - 1) % uint_mod;
}

-- `x++` and `x %= len`
abbrev pub rotate : ℕ → ℕ → ℕ
rotate x len = (x + 1) % uint_mod % len

unfoldable pub put : RingBuffer → Time → Option RingBuffer
put b t =
    if b.len == 0
    then none
    else if ltb (rotate b.w b.len) (length b.buf)
    then some (record b {
      buf = set b.buf (rotate b.w b.len) (some t);
      r = rotate b.r b.len;
      w = rotate b.w b.len;
    })
    else none

unfoldable pub get : RingBuffer → Option (Option Time)
get b = get_elem? b.buf b.r
