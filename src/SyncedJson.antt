-- ===== src/SyncedJson.antt =====
-- json/synced_json.go: data that a goroutine fetches again and again, and the requests for it. The
-- timers are the nanoseconds at which they fire, `none` for a channel that is nil or was read. A
-- step is one round of the loop of sync, which the select chooses.
pub mod Pace
pub mod Stale
use couper.Base.{
  ℕ, ◌+◌, ◌*◌, ◌≤◌, ◌<◌, ◌≡◌, ◌==◌, ltb, Bool, true, false, List, [], ◌∷◌, Option, none, some, Str,
  if◌then◌else◌,
}

abbrev pub second : ℕ
second = 1_000_000_000

abbrev pub minute : ℕ
minute = 60 * second

-- What the transport gives for the request of fetch.
pub data Answer (E : Type 0) : Type 0 where
  transport_error : E → Answer E
  response : (status_code : ℕ) → (body : Option Str) → Answer E

-- Why fetch fails: the error of the transport, a status, a body that cannot be read, and the error of
-- the unmarshaller.
pub data FetchError (E : Type 0) : Type 0 where
  no_response unmarshal_error : E → FetchError E
  status : ℕ → FetchError E
  reading : FetchError E

pub record SyncedJson (D E : Type 0) : Type 0 where
  pub stored : Option D
  pub error : Option (FetchError E)
  pub expired : ℕ
  pub invalidated : Option ℕ
  pub backoff : ℕ

-- What NewSyncedJSON is given: the content of a file, `none` where it cannot be read, or a transport.
pub data Source : Type 0 where
  file : Option Str → Source
  transport : (dry_run : Bool) → Source
  missing : Source

-- What it makes of that: an object that Data always gives, the goroutine, or none, so that Data waits.
pub data Created (D : Type 0) : Type 0 where
  refused syncing idle : Created D
  in_file_mode : Option D → Created D

pub data Event (E : Type 0) : Type 0 where
  expires : (now : ℕ) → Answer E → Event E
  invalidates data_request : (now : ℕ) → Event E

-- The time at which a round begins to wait again.
abbrev pub time_of : {E : Type 0} → Event E → ℕ
time_of (expires now answer) = now
time_of (invalidates now) = now
time_of (data_request now) = now

module _ {D E : Type 0} (max_stale ttl : ℕ) (unmarshal : Str → Option D × Option E) where
  unfoldable pub new_synced_json : Source → Created D
  new_synced_json (file none) = refused
  new_synced_json (file (some raw)) = elim (unmarshal raw).1 [
    | none ↦ in_file_mode (unmarshal raw).0
    | some e ↦ refused
  ]
  new_synced_json (transport true) = idle
  new_synced_json (transport false) = syncing
  new_synced_json missing = refused

  -- The stored object afterwards and the error of fetch.
  unfoldable pub fetch : Answer E → Option D → Option D × Option (FetchError E)
  fetch (transport_error e) stored = (stored, some (no_response e))
  fetch (response status_code body) stored =
      if status_code == 200
      then elim body [
        | none ↦ (stored, some reading)
        | some raw ↦ elim (unmarshal raw).1 [
          | none ↦ ((unmarshal raw).0, none)
          | some e ↦ ((unmarshal raw).0, some (unmarshal_error e))
        ]
      ]
      else (stored, some (status status_code))

  -- The head of sync, up to the loop, with the initial fetch that ends at `now`.
  unfoldable pub start : (began now : ℕ) → Answer E → SyncedJson D E
  unfolding fetch
  start began now answer = record {
    stored = (fetch answer none).0;
    error = (fetch answer none).1;
    expired = elim (fetch answer none).1 [ none ↦ began + ttl | some e ↦ now ];
    invalidated = none;
    backoff = second;
  }

  abbrev pub after_fetch :
      (now : ℕ) → SyncedJson D E → Option D × Option (FetchError E) → SyncedJson D E
  after_fetch now s (stored, some e) = record {
    stored = stored;
    error = some e;
    expired = now + s.backoff;
    invalidated = some (now + max_stale);
    backoff = if ltb s.backoff minute then s.backoff * 2 else s.backoff;
  }
  after_fetch now s (stored, none) = record {
    stored = stored;
    error = none;
    expired = now + ttl;
    invalidated = s.invalidated;
    backoff = second;
  }

  unfoldable pub step : SyncedJson D E → Event E → SyncedJson D E
  unfolding fetch
  step s (expires now answer) = after_fetch now s (fetch answer s.stored)
  step s (invalidates now) = record s { stored = none; invalidated = none }
  step s (data_request now) = s

  -- Data, as the loop answers it.
  abbrev pub answer_request : SyncedJson D E → Option D × Option (FetchError E)
  answer_request s = (s.stored, s.error)

  unfoldable pub run : SyncedJson D E → List (Event E) → SyncedJson D E
  unfolding step
  run s [] = s
  run s (e ∷ es) = run (step s e) es
