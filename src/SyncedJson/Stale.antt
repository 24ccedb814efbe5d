-- ===== src/SyncedJson/Stale.antt =====
-- Which object a request for the data gets.
use couper.Base.{
  ℕ, suc, ◌+◌, ◌*◌, ◌≤◌, ◌<◌, ◌≡◌, refl, ap, ◌∙◌, sym, ◌==◌, Bool, true, false, not, List, [], ◌∷◌,
  Option, none, some, Str, arith, Bool-cases, Option-cases,
}
use couper.SyncedJson.{
  second, Answer, transport_error, response, FetchError, no_response, status, SyncedJson, Event,
  expires, invalidates, data_request, fetch, start, after_fetch, step, run, answer_request,
}
use couper.SyncedJson.Pace.{
  pause_after, pause_after_le, failures, fails, after_fetch-backoff, run-backoff,
}
use mathlib.Core.Path.{subst}

module _ {D E : Type 0} (max_stale ttl : ℕ) (unmarshal : Str → Option D × Option E) where
  -- The timer has fired, and no other one before.
  abbrev pub IsDue : SyncedJson D E → Event E → Type 0
  IsDue s (expires now answer) =
      (s.expired ≤ now) × ((t : ℕ) → s.invalidated ≡ some t → s.expired ≤ t)
  IsDue s (invalidates now) = (t : ℕ) × (s.invalidated ≡ some t) × (t ≤ now) × (t ≤ s.expired)
  IsDue s (data_request now) = Unit

  -- An answer of which nothing is read.
  unfoldable pub is_unread : Answer E → Bool
  is_unread (transport_error e) = true
  is_unread (response status_code body) = not (status_code == 200)

  -- Rounds in the order of the timers, in which every fetch fails.
  abbrev pub Fails : SyncedJson D E → List (Event E) → Type 0
  Fails s [] = Unit
  Fails s (expires now answer ∷ es) =
      IsDue s (expires now answer)
      × (is_unread answer ≡ true)
      × Fails (step max_stale ttl unmarshal s (expires now answer)) es
  Fails s (invalidates now ∷ es) =
      IsDue s (invalidates now) × Fails (step max_stale ttl unmarshal s (invalidates now)) es
  Fails s (data_request now ∷ es) = Fails s es

  -- Between failures: the next fetch stands before the end of the stale object.
  abbrev IsWaiting : ℕ → SyncedJson D E → Type 0
  IsWaiting n s = (s.backoff ≡ pause_after n) × ((t : ℕ) → s.invalidated ≡ some t → s.expired < t)

  unread-fetch :
      (answer : Answer E) (stored : Option D)
      → is_unread answer ≡ true
      → (e : FetchError E) × (fetch max_stale ttl unmarshal answer stored ≡ (stored, some e))
  unfolding is_unread fetch
  unread-fetch (transport_error e) stored u = (no_response e, refl)
  unread-fetch (response c body) stored u = (status c, ground (arith, u, Bool-cases (c == 200)))

  fail-IsWaiting :
      (n now : ℕ) (s : SyncedJson D E) (stored : Option D) (e : FetchError E)
      → 64 * second < max_stale
      → s.backoff ≡ pause_after n
      → IsWaiting (suc n) (after_fetch max_stale ttl unmarshal now s (stored, some e))
  fail-IsWaiting n now s stored e long b = (
    after_fetch-backoff max_stale ttl unmarshal n now s (stored, some e) b,
    λ t h. ground (arith, h, b, pause_after_le n),
  )

  Fails-stored :
      (n : ℕ) (s : SyncedJson D E) (es : List (Event E))
      → 64 * second < max_stale
      → IsWaiting n s
      → Fails s es
      → (run max_stale ttl unmarshal s es).stored ≡ s.stored
  unfolding run step
  Fails-stored n s [] long w f = refl
  Fails-stored n s (expires now answer ∷ es) long w (due, unread, f) =
      let (e, same) = unread-fetch answer s.stored unread in
      let s' = step max_stale ttl unmarshal s (expires now answer) in
      let r = ap (after_fetch max_stale ttl unmarshal now s) same in
      Fails-stored (suc n) s' es long
        (subst (IsWaiting (suc n)) (sym r) (fail-IsWaiting n now s s.stored e long w.0)) f
      ∙ ap (λ u. u.stored) r
  Fails-stored n s (invalidates now ∷ es) long w ((t, e, _, before), f) =
      absurd (omega (arith, w.1 t e))
  Fails-stored n s (data_request now ∷ es) long w f = Fails-stored n s es long w f

  -- If max_stale is longer than 64 seconds and no timer of an earlier failure runs, then, as long
  -- as the timers are served in their order and no fetch gets a response with status 200, the
  -- stored object is kept, however often and long the fetches fail.
  pub stale-stored :
      (began ended : ℕ) (initial : Answer E) (es₀ es : List (Event E))
      → 64 * second < max_stale
      → (run max_stale ttl unmarshal
          (start max_stale ttl unmarshal began ended initial)
          es₀).invalidated
        ≡ none
      → Fails
          (run max_stale ttl unmarshal (start max_stale ttl unmarshal began ended initial) es₀)
          es
      → (run max_stale ttl unmarshal
          (run max_stale ttl unmarshal (start max_stale ttl unmarshal began ended initial) es₀)
          es).stored
        ≡ (run max_stale ttl unmarshal
            (start max_stale ttl unmarshal began ended initial)
            es₀).stored
  unfolding start
  stale-stored began ended initial es₀ es long calm f =
      let s₀ = start max_stale ttl unmarshal began ended initial in
      Fails-stored (failures max_stale ttl unmarshal 0 es₀) (run max_stale ttl unmarshal s₀ es₀) es
        long (run-backoff max_stale ttl unmarshal 0 s₀ es₀ refl, λ t h. ground (arith, h, calm)) f

  read-fetch :
      (answer : Answer E) (stored : Option D)
      → fails max_stale ttl unmarshal answer ≡ false
      → (d : Option D) × (fetch max_stale ttl unmarshal answer stored ≡ (d, none))
        × (fetch max_stale ttl unmarshal answer none ≡ (d, none))
  unfolding fails fetch
  read-fetch (transport_error e) stored f = absurd (ground (arith, f))
  read-fetch (response c none) stored f = absurd (ground (arith, f))
  read-fetch (response c (some raw)) stored f = (
    (unmarshal raw).0,
    ground (arith, f, Bool-cases (c == 200), Option-cases (unmarshal raw).1),
    ground (arith, f, Bool-cases (c == 200), Option-cases (unmarshal raw).1),
  )

  -- If a fetch that gets no response with status 200 is followed by a good one, and the failure
  -- lies no more than the time to live less max_stale before it, then requests get the new object,
  -- but the timer of the failure still runs and is the first one to fire; after that requests get
  -- no object and no error, and the next fetch stays planned for the time to live after the good
  -- one.
  pub recovered-lost :
      (s : SyncedJson D E) (failing good : Answer E) (failed_at read_at now : ℕ)
      → is_unread failing ≡ true
      → fails max_stale ttl unmarshal good ≡ false
      → failed_at + max_stale ≤ read_at + ttl
      → failed_at + max_stale ≤ now
      → let t =
          step max_stale ttl unmarshal
            (step max_stale ttl unmarshal s (expires failed_at failing))
            (expires read_at good) in
        (answer_request max_stale ttl unmarshal t
          ≡ ((fetch max_stale ttl unmarshal good none).0, none))
        × IsDue t (invalidates now)
        × (answer_request max_stale ttl unmarshal (step max_stale ttl unmarshal t (invalidates now))
            ≡ (none, none))
        × ((step max_stale ttl unmarshal t (invalidates now)).expired ≡ read_at + ttl)
  unfolding step
  recovered-lost s failing good failed_at read_at now u f early late =
      let (e, same) = unread-fetch failing s.stored u in
      let (d, read, fresh) = read-fetch good s.stored f in
      rw (same)
        (rw (read) (rw (fresh) (refl, (failed_at + max_stale, refl, late, early), refl, refl)))
