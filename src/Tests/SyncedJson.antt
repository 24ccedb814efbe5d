-- ===== src/Tests/SyncedJson.antt =====
-- Fetches that fail and recover.
use couper.Base.{ℕ, ◌+◌, ◌*◌, ◌≡◌, refl, [], ◌∷◌, Option, none, some, Str, codes, arith}
use couper.SyncedJson.{
  second, Answer, response, unmarshal_error, SyncedJson, expires, invalidates, data_request, fetch,
  start, step, run, answer_request, file, new_synced_json, refused,
}
use couper.SyncedJson.Pace.{fails, failures, run-expired}
use couper.SyncedJson.Stale.{IsDue, is_unread, stale-stored, recovered-lost}

-- A text is its first byte, and an error if there is none.
abbrev unmarshal : Str → Option ℕ × Option Str
unmarshal [] = (some 0, some (codes "end of input"))
unmarshal (c ∷ cs) = (some c, none)

abbrev hour : ℕ
hour = 3_600 * second

abbrev good : Answer Str
good = response 200 (some (codes "a"))

abbrev bad : Answer Str
bad = response 503 (some [])

syncing : Unit {0}
unfolding fetch start step run fails failures is_unread new_synced_json
syncing = tt

abbrev begin : SyncedJson ℕ Str
begin = start hour hour unmarshal 0 5 good

-- The third failure in a row, and the pause before the fourth fetch.
third_pause :
    (run hour hour unmarshal begin (
      expires hour bad
      ∷ expires (hour + 1 * second) bad
      ∷ expires (hour + 3 * second) bad
      ∷ [])).expired
    ≡ hour + 7 * second
unfolding syncing
third_pause = refl

-- A body that is no object replaces the stored one.
emptied :
    answer_request hour hour unmarshal
      (step hour hour unmarshal begin (expires hour (response 200 (some []))))
    ≡ (some 0, some (unmarshal_error (codes "end of input")))
unfolding syncing
emptied = refl

unreadable : new_synced_json hour hour unmarshal (file (some [])) ≡ refused
unfolding syncing
unreadable = refl

run-expired_example :
    (step hour hour unmarshal
      (run hour hour unmarshal begin (expires hour bad ∷ []))
      (expires (hour + second) bad)).expired
    ≡ hour + second + 2 * second
unfolding syncing
run-expired_example =
    run-expired hour hour unmarshal 0 5 good (expires hour bad ∷ []) (hour + second) bad

stale-stored_example :
    (run hour hour unmarshal
      (run hour hour unmarshal begin [])
      (expires hour bad ∷ data_request hour ∷ expires (hour + second) bad ∷ [])).stored
    ≡ some b'a'
unfolding syncing
stale-stored_example =
    stale-stored hour hour unmarshal 0 5 good []
      (expires hour bad ∷ data_request hour ∷ expires (hour + second) bad ∷ []) (omega arith) refl
      (
        (omega arith, λ t h. absurd (ground (arith, h))),
        refl,
        ((omega arith, λ t h. ground (arith, h)), refl, tt),
      )

recovered-lost_example :
    let t =
      step hour hour unmarshal
        (step hour hour unmarshal begin (expires hour bad))
        (expires (hour + second) good) in
    (answer_request hour hour unmarshal t ≡ (some b'a', none))
    × IsDue hour hour unmarshal t (invalidates (hour + hour))
    × (answer_request hour hour unmarshal (step hour hour unmarshal t (invalidates (hour + hour)))
        ≡ (none, none))
    × ((step hour hour unmarshal t (invalidates (hour + hour))).expired ≡ hour + second + hour)
unfolding syncing
recovered-lost_example =
    recovered-lost hour hour unmarshal begin bad good hour (hour + second) (hour + hour) refl refl
      (omega arith) (omega arith)
