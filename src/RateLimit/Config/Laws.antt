-- ===== src/RateLimit/Config/Laws.antt =====
-- What ConfigureRateLimits promises of the limits that it returns.
use couper.Base.{
  ℕ, ◌<◌, ◌≡◌, ◌≢◌, false, List, [], ◌∷◌, Option, ℤ, ok, Str, arith, All, All-map, ltb, Bool-cases,
  inl, inr, ltb→lt, Result-cases,
}
use couper.RateLimit.Limiter.{RateLimit}
use couper.RateLimit.Config.{
  RateLimitBlock, ring_for, contains, insert_desc, sort_desc, configure_one, configure_from,
  configure_rate_limits,
}

-- A limit that the loop can run with: a positive period and number, and the ring buffer of a
-- sliding window.
pub record IsReady (rl : RateLimit) : Type 0 where
  pub period_pos : 0 < rl.period
  pub per_period_pos : 0 < rl.per_period
  pub count_zero : rl.count ≡ 0
  pub ring : rl.ring_buffer ≡ ring_for rl.window rl.per_period

abbrev pub IsDescending : List RateLimit → Type 0
IsDescending [] = Unit
IsDescending (rl ∷ rest) = All (λ s. s.period < rl.period) rest × IsDescending rest

abbrev IsDistinct : List RateLimit → Type 0
IsDistinct [] = Unit
IsDistinct (rl ∷ rest) = All (λ s. s.period ≢ rl.period) rest × IsDistinct rest

module _ (P : RateLimit → Type 0) where
  insert_desc-All :
      (rl : RateLimit) (rest : List RateLimit) → P rl → All P rest → All P (insert_desc rl rest)
  unfolding insert_desc
  insert_desc-All rl [] p h = (p, tt)
  insert_desc-All rl (s ∷ rest) p h = ground (arith, insert_desc-All rl rest p)

  sort_desc-All : (rls : List RateLimit) → All P rls → All P (sort_desc rls)
  unfolding sort_desc
  sort_desc-All [] h = tt
  sort_desc-All (rl ∷ rest) (p, h) = insert_desc-All rl (sort_desc rest) p (sort_desc-All rest h)

insert_desc-IsDescending :
    (rl : RateLimit) (rest : List RateLimit)
    → All (λ s. s.period ≢ rl.period) rest
    → IsDescending rest
    → IsDescending (insert_desc rl rest)
unfolding insert_desc
insert_desc-IsDescending rl [] ne d = (tt, tt)
insert_desc-IsDescending rl (s ∷ rest) (ne, nes) (below, d) =
    elim (Bool-cases (ltb s.period rl.period)) [
      | inl e ↦ rw e (
        (
          ltb→lt _ _ e,
          All-map (λ u. u.period < s.period) (λ u. u.period < rl.period)
              (λ u h. omega (arith, ltb→lt s.period rl.period e)) rest below,
        ),
        (below, d),
      )
      | inr e ↦ rw e (
        insert_desc-All (λ u. u.period < s.period) rl rest (ground arith) below,
        insert_desc-IsDescending rl rest nes d,
      )
    ]

sort_desc-IsDescending : (rls : List RateLimit) → IsDistinct rls → IsDescending (sort_desc rls)
unfolding sort_desc
sort_desc-IsDescending [] d = tt
sort_desc-IsDescending (rl ∷ rest) (ne, d) =
    insert_desc-IsDescending rl (sort_desc rest) (sort_desc-All (λ s. s.period ≢ rl.period) rest ne)
      (sort_desc-IsDescending rest d)

contains_tail :
    (unique : List ℕ) (p q : ℕ) → contains (p ∷ unique) q ≡ false → contains unique q ≡ false
unfolding contains
contains_tail unique p q h = ground arith

contains_head_ne : (unique : List ℕ) (p q : ℕ) → contains (p ∷ unique) q ≡ false → q ≢ p
unfolding contains
contains_head_ne unique p q h = ground arith

module _ (parse : Str → Option ℤ) where
  configure_one-IsReady :
      (unique : List ℕ) (limit : RateLimitBlock) {rl : RateLimit}
      → configure_one parse unique limit ≡ ok rl
      → IsReady rl × (contains unique rl.period ≡ false)
  unfolding configure_one
  configure_one-IsReady unique limit e = ground arith

  configure_from-IsDistinct :
      (unique : List ℕ) (limits : List RateLimitBlock) {rls : List RateLimit}
      → configure_from parse unique limits ≡ ok rls
      → All IsReady rls × All (λ s. contains unique s.period ≡ false) rls × IsDistinct rls
  unfolding configure_from
  configure_from-IsDistinct unique [] e = ground arith
  configure_from-IsDistinct unique (limit ∷ limits) {rls} e =
      elim (Result-cases (configure_one parse unique limit)) [
        | inr (x, p) ↦ ground (arith, p)
        | inl (rl, p) ↦ elim (Result-cases (configure_from parse (rl.period ∷ unique) limits)) [
          | inr (x, q) ↦ ground (arith, p, q)
          | inl (rest, q) ↦
              let (ready, fresh) = configure_one-IsReady unique limit p in
              let (readies, news, distinct) =
                configure_from-IsDistinct (rl.period ∷ unique) limits q in
              let same : rl ∷ rest ≡ rls = ground (arith, p, q, e) in
              rw (← same) (
                (ready, readies),
                (fresh, All-map _ _ (λ s. contains_tail unique rl.period s.period) rest news),
                (All-map _ _ (λ s. contains_head_ne unique rl.period s.period) rest news, distinct),
              )
        ]
      ]

  -- What ConfigureRateLimits returns without an error are limits with a positive period and number,
  -- a count of 0 and the ring buffer of their window, in the order of strictly descending periods.
  pub configure_rate_limits-IsReady :
      (limits : List RateLimitBlock) {rls : List RateLimit}
      → configure_rate_limits parse limits ≡ ok rls
      → All IsReady rls × IsDescending rls
  unfolding configure_rate_limits
  configure_rate_limits-IsReady limits {rls} e =
      elim (Result-cases (configure_from parse [] limits)) [
        | inr (x, p) ↦ ground (arith, p)
        | inl (found, p) ↦
            let (ready, _, distinct) = configure_from-IsDistinct [] limits p in
            let same : sort_desc found ≡ rls = ground (arith, p, e) in
            rw (← same) (sort_desc-All IsReady found ready, sort_desc-IsDescending found distinct)
      ]
