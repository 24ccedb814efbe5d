-- ===== src/Transport/Probe.antt =====
-- handler/transport/probe.go: the loop that checks the health of a backend. Each round takes the
-- result of its request: a transport error, or a response with its status and the text of its body.
-- The texts of the messages and the log are left out, but for which kind of message goes out.
pub mod Health
use couper.Base.{
  ℕ, zero, suc, ◌+◌, ◌%◌, ◌^◌, Bool, true, false, not, ◌&&◌, ◌||◌, List, [], ◌∷◌, Option, none,
  some, Str, eq_str, has_prefix, ltb, ◌==◌, if◌then◌else◌,
}

pub data State : Type 0 where
  invalid healthy failing down : State

-- What a round finds: the cases in which `p.failure` grows, and the text that the listener gets.
pub data Outcome : Type 0 where
  transport_error unexpected_status unexpected_text expected : Outcome

pub data Result : Type 0 where
  error : Result
  response : (status : ℕ) (body : Str) → Result

pub record Options : Type 0 where
  pub expected_status : ℕ → Bool
  pub expected_text : Str
  pub failure_threshold : ℕ

-- The two counters are `uint`.
pub record Probe : Type 0 where
  pub counter : ℕ
  pub failure : ℕ
  pub state : State
  pub status : ℕ

abbrev pub uint_mod : ℕ
uint_mod = 2 ^ 64

-- strings.Contains
unfoldable pub contains_text : Str → Str → Bool
contains_text [] text = has_prefix [] text
contains_text (c ∷ body) text = has_prefix (c ∷ body) text || contains_text body text

unfoldable pub contains : Str → Str → Bool
contains body text = if eq_str text [] then true else contains_text body text

unfoldable pub outcome : Options → Result → Outcome
outcome opts error = transport_error
outcome opts (response status body) =
    if not (opts.expected_status status)
    then unexpected_status
    else if not (contains body opts.expected_text)
    then unexpected_text
    else expected

abbrev pub status_of : Result → ℕ
status_of error = 0
status_of (response status body) = status

abbrev pub is_state : State → State → Bool
is_state invalid invalid = true
is_state healthy healthy = true
is_state failing failing = true
is_state down down = true
is_state _ _ = false

-- HealthInfo, with the outcome in place of the text of the error.
pub record HealthInfo : Type 0 where
  pub error : Outcome
  pub healthy : Bool
  pub state : State

abbrev pub failed : Options → ℕ → State
failed opts failure = if ltb failure opts.failure_threshold then failing else down

-- The new counters and the new state.
unfoldable pub update : Options → Probe → Result → Outcome → Probe
update opts p res expected = record {
  counter = (p.counter + 1) % uint_mod;
  failure = 0;
  state = healthy;
  status = status_of res;
}
update opts p res bad = record {
  counter = (p.counter + 1) % uint_mod;
  failure = (p.failure + 1) % uint_mod;
  state = failed opts ((p.failure + 1) % uint_mod);
  status = status_of res;
}

-- One round of the loop: the probe afterwards, and what its listener is told, if anything.
unfoldable pub round : Options → Probe → Result → Probe × Option HealthInfo
round opts p res =
    let o = outcome opts res in
    let p' = update opts p res o in
    (
      p',
      (if is_state p.state p'.state
          then none
          else some
              (record { error = o; healthy = not (is_state p'.state down); state = p'.state })),
    )

-- The probe before its first round.
abbrev pub new_probe : Probe
new_probe = record { counter = 0; failure = 0; state = invalid; status = 0 }

-- The probe after the rounds with these results, the last one first.
unfoldable pub rounds : Options → List Result → Probe
rounds opts [] = new_probe
rounds opts (res ∷ before) = (round opts (rounds opts before) res).0
