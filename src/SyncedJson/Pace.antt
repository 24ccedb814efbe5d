-- ===== src/SyncedJson/Pace.antt =====
-- When the data are fetched again.
use couper.Base.{
  ℕ, zero, suc, ◌+◌, ◌*◌, ◌^◌, ◌≤◌, ◌≡◌, refl, ap, ◌∙◌, ◌==◌, ltb, Bool, true, false, List, [], ◌∷◌,
  Option, none, some, Str, arith, if◌then◌else◌, Bool-cases, Option-cases,
}
use couper.SyncedJson.{
  second, minute, Answer, transport_error, response, FetchError, SyncedJson, Event, expires,
  invalidates, data_request, fetch, start, after_fetch, step, run,
}

-- The pause after a failed fetch that n others follow one another before.
abbrev pub pause_after : ℕ → ℕ
pause_after n = if ltb n 6 then 2 ^ n * second else 64 * second

pause_after-suc :
    (n : ℕ)
    → (if ltb (pause_after n) minute then pause_after n * 2 else pause_after n)
      ≡ pause_after (suc n)
pause_after-suc zero = refl
pause_after-suc (suc zero) = refl
pause_after-suc (suc (suc zero)) = refl
pause_after-suc (suc (suc (suc zero))) = refl
pause_after-suc (suc (suc (suc (suc zero)))) = refl
pause_after-suc (suc (suc (suc (suc (suc zero))))) = refl
pause_after-suc (suc (suc (suc (suc (suc (suc n)))))) = ground arith

pub pause_after_le : (n : ℕ) → pause_after n ≤ 64 * second
pause_after_le zero = omega arith
pause_after_le (suc zero) = omega arith
pause_after_le (suc (suc zero)) = omega arith
pause_after_le (suc (suc (suc zero))) = omega arith
pause_after_le (suc (suc (suc (suc zero)))) = omega arith
pause_after_le (suc (suc (suc (suc (suc zero))))) = omega arith
pause_after_le (suc (suc (suc (suc (suc (suc n)))))) = ground arith

abbrev pub failed {ℓ} : {A : Type ℓ} → Option A → Bool
failed none = false
failed (some e) = true

module _ {D E : Type 0} (max_stale ttl : ℕ) (unmarshal : Str → Option D × Option E) where
  -- Whether an answer is no new object.
  unfoldable pub fails : Answer E → Bool
  fails (transport_error e) = true
  fails (response status_code none) = true
  fails (response status_code (some raw)) =
      if status_code == 200 then (elim (unmarshal raw).1 [ none ↦ false | some e ↦ true ]) else true

  -- The number of failed fetches after the last good one.
  unfoldable pub failures : ℕ → List (Event E) → ℕ
  failures n [] = n
  failures n (expires now answer ∷ es) = failures (if fails answer then suc n else 0) es
  failures n (invalidates now ∷ es) = failures n es
  failures n (data_request now ∷ es) = failures n es

  pub fetch-fails :
      (answer : Answer E) (stored : Option D)
      → failed (fetch max_stale ttl unmarshal answer stored).1 ≡ fails answer
  unfolding fetch fails
  fetch-fails (transport_error e) stored = refl
  fetch-fails (response c none) stored = ground (arith, Bool-cases (c == 200))
  fetch-fails (response c (some raw)) stored =
      ground (arith, Bool-cases (c == 200), Option-cases (unmarshal raw).1)

  pub after_fetch-backoff :
      (n now : ℕ) (s : SyncedJson D E) (r : Option D × Option (FetchError E))
      → s.backoff ≡ pause_after n
      → (after_fetch max_stale ttl unmarshal now s r).backoff
        ≡ pause_after (if failed r.1 then suc n else 0)
  after_fetch-backoff n now s (stored, some e) b =
      ap (λ (t : ℕ). if ltb t minute then t * 2 else t) b ∙ pause_after-suc n
  after_fetch-backoff n now s (stored, none) b = refl

  after_fetch-expired :
      (n now : ℕ) (s : SyncedJson D E) (r : Option D × Option (FetchError E))
      → s.backoff ≡ pause_after n
      → (after_fetch max_stale ttl unmarshal now s r).expired
        ≡ now + (if failed r.1 then pause_after n else ttl)
  after_fetch-expired n now s (stored, some e) b = ap (λ (t : ℕ). now + t) b
  after_fetch-expired n now s (stored, none) b = refl

  pub run-backoff :
      (n : ℕ) (s : SyncedJson D E) (es : List (Event E))
      → s.backoff ≡ pause_after n
      → (run max_stale ttl unmarshal s es).backoff ≡ pause_after (failures n es)
  unfolding run step failures
  run-backoff n s [] b = b
  run-backoff n s (expires now answer ∷ es) b =
      let r = fetch max_stale ttl unmarshal answer s.stored in
      run-backoff (if fails answer then suc n else 0) (after_fetch max_stale ttl unmarshal now s r)
        es
        (after_fetch-backoff n now s r b
          ∙ ap (λ t. pause_after (if t then suc n else 0)) (fetch-fails answer s.stored))
  run-backoff n s (invalidates now ∷ es) b =
      run-backoff n (record s { stored = none; invalidated = none }) es b
  run-backoff n s (data_request now ∷ es) b = run-backoff n s es b

  -- In every run of the loop, a failed fetch is followed by the next one after 2 ^ n seconds, where
  -- n is the number of failed fetches since the last good one, and 64 seconds from the seventh on;
  -- a good one after the time to live. The initial fetch does not count.
  pub run-expired :
      (began ended : ℕ) (initial : Answer E) (es : List (Event E)) (now : ℕ) (answer : Answer E)
      → (step max_stale ttl unmarshal
          (run max_stale ttl unmarshal (start max_stale ttl unmarshal began ended initial) es)
          (expires now answer)).expired
        ≡ now + (if fails answer then pause_after (failures 0 es) else ttl)
  unfolding step start
  run-expired began ended initial es now answer =
      let s = run max_stale ttl unmarshal (start max_stale ttl unmarshal began ended initial) es in
      after_fetch-expired (failures 0 es) now s (fetch max_stale ttl unmarshal answer s.stored)
        (run-backoff 0 (start max_stale ttl unmarshal began ended initial) es refl)
      ∙ ap (λ t. now + (if t then pause_after (failures 0 es) else ttl))
          (fetch-fails answer s.stored)
