-- ===== src/Transport/Probe/Health.antt =====
-- The health that a probe reports, in terms of the results of its rounds.
use couper.Base.{
  ℕ, suc, ◌≤◌, ◌<◌, ◌≡◌, ◌≢◌, ap, ◌∙◌, ◌⊎◌, ◌↔◌, inl, inr, refl, Bool, true, false, ◌&&◌, leb,
  if◌then◌else◌, List, [], ◌∷◌, Option, none, some, arith, length, Bool-cases,
}
use couper.Transport.Probe.{
  State, invalid, healthy, failing, down, Outcome, expected, transport_error, unexpected_status,
  unexpected_text, Result, error, response, contains, Options, Probe, uint_mod, outcome, is_state,
  HealthInfo, update, round, rounds,
}

-- The response has the status and the text that are expected.
abbrev pub is_expected : Options → Result → Bool
is_expected opts error = false
is_expected opts (response status body) =
    opts.expected_status status && contains body opts.expected_text

-- The number of results since the last expected one.
abbrev pub failures_since : Options → List Result → ℕ
failures_since opts [] = 0
failures_since opts (res ∷ before) =
    if is_expected opts res then 0 else suc (failures_since opts before)

-- The state that a count of failures and the existence of a round stand for.
abbrev pub state_for : Options → List Result → State
state_for opts [] = invalid
state_for opts (res ∷ before) =
    if is_expected opts res
    then healthy
    else if leb opts.failure_threshold (failures_since opts (res ∷ before))
    then down
    else failing

outcome_iff :
    (opts : Options) (res : Result) → (outcome opts res ≡ expected) ↔ (is_expected opts res ≡ true)
unfolding outcome
outcome_iff opts error = (λ h. ground (arith, h), λ h. ground (arith, h))
outcome_iff opts (response status body) = (λ h. ground (arith, h), λ h. ground (arith, h))

update_bad :
    (opts : Options) (p : Probe) (res : Result) (o : Outcome)
    → o ≢ expected
    → suc p.failure < uint_mod
    → ((update opts p res o).failure ≡ suc p.failure)
      × ((update opts p res o).state
          ≡ (if leb opts.failure_threshold (suc p.failure) then down else failing))
unfolding update
update_bad opts p res expected ne h = absurd (ne refl)
update_bad opts p res transport_error ne h = (ground arith, ground arith)
update_bad opts p res unexpected_status ne h = (ground arith, ground arith)
update_bad opts p res unexpected_text ne h = (ground arith, ground arith)

-- After any results, fewer than the range of uint, the count of the probe is that of the failures
-- since the last expected result, and its state is invalid before the first round, healthy after an
-- expected result, and else failing below the threshold and down from it on. A result is expected
-- if it is a response with an expected status and a body that contains the expected text.
pub rounds_lem :
    (opts : Options) (results : List Result)
    → length results < uint_mod
    → ((rounds opts results).failure ≡ failures_since opts results)
      × (failures_since opts results ≤ length results)
      × ((rounds opts results).state ≡ state_for opts results)
unfolding rounds round update
rounds_lem opts [] h = (refl, omega arith, refl)
rounds_lem opts (res ∷ before) h =
    let (same, le, _) = rounds_lem opts before (omega arith) in
    elim (Bool-cases (is_expected opts res)) [
      | inl e ↦ rw (e, (outcome_iff opts res).1 e) (refl, omega arith, refl)
      | inr e ↦
          let (f, st) =
            update_bad opts (rounds opts before) res (outcome opts res)
              (λ o. ground (arith, e, (outcome_iff opts res).0 o)) (omega (arith, same, le, h)) in
          rw e (
            f ∙ ap suc same,
            omega (arith, le),
            st ∙ ap (λ n. if leb opts.failure_threshold (suc n) then down else failing) same,
          )
    ]

is_state_iff : (s t : State) → (is_state s t ≡ true) ↔ (s ≡ t)
is_state_iff s t = (λ h. ground (arith, h), λ h. ground (arith, h))

-- What the listener is told of a new state.
abbrev pub Tells : Option HealthInfo → State → Type 0
Tells none s = Unit
Tells (some info) s = (info.state ≡ s) × ((info.healthy ≡ true) ↔ (s ≢ down))

-- The listener is told nothing exactly when the state stays; otherwise it is told the new state,
-- and that the backend is healthy in every state but down.
pub round-Tells :
    (opts : Options) (p : Probe) (res : Result)
    → (((round opts p res).1 ≡ none) ↔ (p.state ≡ (round opts p res).0.state))
      × Tells (round opts p res).1 (round opts p res).0.state
unfolding round
round-Tells opts p res =
    let s = (update opts p res (outcome opts res)).state in
    let same = is_state_iff p.state s in
    let is_down = is_state_iff s down in
    (
      (λ h. ground (arith, h, same), λ h. ground (arith, h, same)),
      told (Bool-cases (is_state p.state s)),
    )
  where
    told :
        ((is_state p.state (update opts p res (outcome opts res)).state ≡ true)
          ⊎ (is_state p.state (update opts p res (outcome opts res)).state ≡ false))
        → Tells (round opts p res).1 (round opts p res).0.state
    told (inl e) = rw e tt
    told (inr e) = rw e (
      refl,
      (
        λ h. ground (arith, h, is_state_iff (update opts p res (outcome opts res)).state down),
        λ h. ground (arith, h, is_state_iff (update opts p res (outcome opts res)).state down),
      ),
    )
