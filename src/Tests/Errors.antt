-- ===== src/Tests/Errors.antt =====
-- Errors and their handlers on small inputs.
use couper.Base.{ℕ, ◌≡◌, refl, false, List, [], ◌∷◌, ◌++◌, Str, codes, if◌then◌else◌}
use couper.Errors.{
  Fields, Error, nil, foreign, couper_error, equals, get_diags, dedupe, log_error, append_msg,
  kinds, http_status, text,
}
use couper.Errors.Log.{log_error-keeps}

abbrev backend : Fields
backend = record {
  http_status = 502;
  is_parent = false;
  kinds = codes "backend" ∷ [];
  label = [];
  message = [];
  synopsis = codes "backend error";
  contexts = [];
}

abbrev named : Fields
named = record backend { label = codes "be" }

abbrev inner : Error
inner = couper_error backend (foreign (codes "refused"))

log_runs : log_error named inner ≡ (
  codes "backend error: be: refused",
  couper_error (record backend { synopsis = [] }) (foreign (codes "refused")),
)
unfolding log_error get_diags dedupe equals append_msg
log_runs = refl

log_error-keeps_example :
    (kinds (log_error named inner).1 ≡ kinds inner)
    × (http_status (log_error named inner).1 ≡ http_status inner)
    × (text (log_error named inner).1
        ≡ (if equals named backend then [] else codes "backend error"))
unfolding get_diags
log_error-keeps_example = log_error-keeps named backend (foreign (codes "refused")) refl

abbrev handlers : List (Str × ℕ)
handlers = (codes "*", 1) ∷ (codes "backend", 2) ∷ []

abbrev timeout : Error
timeout =
    couper_error (record backend { kinds = codes "backend_timeout" ∷ codes "backend" ∷ [] }) nil

kinds_of_timeout : kinds timeout ≡ (codes "backend_timeout" ∷ []) ++ codes "backend" ∷ []
unfolding kinds
kinds_of_timeout = refl
