-- ===== src/RateLimit/Config.antt =====
-- handler/ratelimit/config.go, with config/rate_limit.go and config/duration.go. The parser of
-- durations, time.ParseDuration, is a parameter: `none` is its error.
pub mod Laws
use couper.Base.{
  ℕ, ◌≡◌, Bool, true, false, ◌||◌, List, [], ◌∷◌, Option, none, some, ℤ, pos, negsuc, Result, ok,
  err, Str, codes, eq_str, ltb, ◌==◌, if◌then◌else◌,
}
use couper.RateLimit.Ring.{RingBuffer, new_ring_buffer}
use couper.RateLimit.Limiter.{
  Mode, mode_block, mode_wait, Window, window_fixed, window_sliding, RateLimit,
}

pub data Error : Type 0 where
  invalid_duration negative_duration : Error
  zero_period zero_per_period duplicate_period unsupported_window unsupported_mode : Error

-- The block of the configuration: config.RateLimit.
pub record RateLimitBlock : Type 0 where
  pub mode : Str
  pub period : Str
  pub per_period : ℕ
  pub period_window : Str

unfoldable pub window_of : Str → Result Error Window
window_of s =
    if eq_str s []
    then ok window_sliding
    else if eq_str s (codes "sliding")
    then ok window_sliding
    else if eq_str s (codes "fixed")
    then ok window_fixed
    else err unsupported_window

unfoldable pub mode_of : Str → Result Error Mode
mode_of s =
    if eq_str s []
    then ok mode_wait
    else if eq_str s (codes "wait")
    then ok mode_wait
    else if eq_str s (codes "block")
    then ok mode_block
    else err unsupported_mode

abbrev pub ring_for : Window → ℕ → Option RingBuffer
ring_for window_fixed n = none
ring_for window_sliding n = some (new_ring_buffer n)

unfoldable pub contains : List ℕ → ℕ → Bool
contains [] d = false
contains (u ∷ us) d = (u == d) || contains us d

-- sort.Slice with the order of descending periods, as an insertion sort. The periods are all
-- different, so every sort gives this list.
unfoldable pub insert_desc : RateLimit → List RateLimit → List RateLimit
insert_desc rl [] = rl ∷ []
insert_desc rl (s ∷ rest) =
    if ltb s.period rl.period then rl ∷ s ∷ rest else s ∷ insert_desc rl rest

unfoldable pub sort_desc : List RateLimit → List RateLimit
unfolding insert_desc
sort_desc [] = []
sort_desc (rl ∷ rest) = insert_desc rl (sort_desc rest)

module _ (parse : Str → Option ℤ) where
  -- config.ParseDuration, with the default 0
  unfoldable pub parse_duration : Str → Result Error ℕ
  parse_duration value = if eq_str value [] then ok 0 else elim (parse value) [
    | none ↦ err invalid_duration
    | some (negsuc d) ↦ err negative_duration
    | some (pos d) ↦ ok d
  ]

  -- The checks of one round, up to the limit that the round appends.
  unfoldable pub configure_one : List ℕ → RateLimitBlock → Result Error RateLimit
  configure_one unique limit = elim (parse_duration limit.period) [
    | err e ↦ err e
    | ok d ↦
        if d == 0
        then err zero_period
        else if limit.per_period == 0
        then err zero_per_period
        else if contains unique d
        then err duplicate_period
        else elim (window_of limit.period_window) [
          | err e ↦ err e
          | ok window ↦ elim (mode_of limit.mode) [
            | err e ↦ err e
            | ok mode ↦ ok (record {
              count = 0;
              mode = mode;
              period = d;
              period_start = 0;
              per_period = limit.per_period;
              ring_buffer = ring_for window limit.per_period;
              window = window;
            })
          ]
        ]
  ]

  unfoldable pub configure_from : List ℕ → List RateLimitBlock → Result Error (List RateLimit)
  configure_from unique [] = ok []
  configure_from unique (limit ∷ limits) = elim (configure_one unique limit) [
    | err e ↦ err e
    | ok rl ↦ elim (configure_from (rl.period ∷ unique) limits) [
      | err e ↦ err e
      | ok rls ↦ ok (rl ∷ rls)
    ]
  ]

  unfoldable pub configure_rate_limits : List RateLimitBlock → Result Error (List RateLimit)
  configure_rate_limits limits = elim (configure_from [] limits) [
    | err e ↦ err e
    | ok rls ↦ ok (sort_desc rls)
  ]
