-- ===== src/Errors/Log.antt =====
-- LogError writes into the errors that it walks over.
use couper.Base.{
  ◌≡◌, ◌∙◌, inl, inr, refl, [], ◌∷◌, none, some, Str, arith, Option-cases, if◌then◌else◌,
}
use couper.Errors.{
  Fields, Error, nil, foreign, diagnostics, couper_error, equals, get_diags, dedupe, own_text,
  log_error, kinds, append_msg, http_status, text,
}

dedupe_idem : (e g : Fields) → dedupe e (dedupe e g) ≡ dedupe e g
unfolding dedupe
dedupe_idem e g = ground arith

get_diags-log_error :
    (e : Fields) (inner : Error) → get_diags (log_error e inner).1 ≡ get_diags inner
unfolding get_diags log_error
get_diags-log_error e nil = refl
get_diags-log_error e (foreign s) = refl
get_diags-log_error e (diagnostics d) = refl
get_diags-log_error e (couper_error g inner) =
    ground (arith, get_diags-log_error (dedupe e g) inner)

log_error_clean :
    (e g : Fields) (inner : Error)
    → get_diags inner ≡ none
    → log_error e (couper_error g inner) ≡ (
      append_msg (own_text e) ((log_error (dedupe e g) inner).0 ∷ []),
      couper_error (dedupe e g) (log_error (dedupe e g) inner).1,
    )
unfolding log_error
log_error_clean e g inner p = ground (arith, p)

log_error_diags :
    (e g : Fields) (inner : Error) (d : Str)
    → get_diags inner ≡ some d
    → log_error e (couper_error g inner) ≡ (d, couper_error g inner)
unfolding log_error
log_error_diags e g inner d p = ground (arith, p)

-- The text of LogError is the same when it is asked for a second time, although the first call
-- changes the chain of errors.
pub log_error-log_error :
    (e : Fields) (inner : Error) → (log_error e (log_error e inner).1).0 ≡ (log_error e inner).0
log_error-log_error e nil = unfold log_error in refl
log_error-log_error e (foreign s) = unfold log_error in refl
log_error-log_error e (diagnostics d) = unfold log_error in refl
log_error-log_error e (couper_error g inner) = elim (Option-cases (get_diags inner)) [
  | inr (d, p) ↦ rw (log_error_diags e g inner d p) (rw (log_error_diags e g inner d p))
  | inl p ↦
      let rest = (log_error (dedupe e g) inner).1 in
      rw (log_error_clean e g inner p) (
        rw (log_error_clean e (dedupe e g) rest (get_diags-log_error (dedupe e g) inner ∙ p))
          (rw (dedupe_idem e g) (rw (log_error-log_error (dedupe e g) inner))))
]

kinds-log_error : (e : Fields) (inner : Error) → kinds (log_error e inner).1 ≡ kinds inner
unfolding log_error kinds dedupe
kinds-log_error e nil = refl
kinds-log_error e (foreign s) = refl
kinds-log_error e (diagnostics d) = refl
kinds-log_error e (couper_error g inner) = ground (arith, kinds-log_error (dedupe e g) inner)

-- For a chain that does not end in diagnostics LogError keeps the kinds of the wrapped error and
-- its status; the synopsis of the wrapped error is erased if it has the synopsis and the joined
-- kinds of the outer error, and stays otherwise.
pub log_error-keeps :
    (e g : Fields) (inner : Error)
    → get_diags inner ≡ none
    → (kinds (log_error e (couper_error g inner)).1 ≡ kinds (couper_error g inner))
      × (http_status (log_error e (couper_error g inner)).1 ≡ http_status (couper_error g inner))
      × (text (log_error e (couper_error g inner)).1 ≡ (if equals e g then [] else g.synopsis))
unfolding dedupe http_status
log_error-keeps e g inner clean = (
  kinds-log_error e (couper_error g inner),
  ground (arith, log_error_clean e g inner clean),
  ground (arith, log_error_clean e g inner clean),
)
