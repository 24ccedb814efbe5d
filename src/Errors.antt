-- ===== src/Errors.antt =====
-- errors/error.go. An error of couper is a chain: the fields of each error and the error that it
-- wraps. `foreign` is an error of any other type, with its text, and `diagnostics` the one type of
-- these that the code looks for. What LogError writes into the chain is part of its result.
pub mod Log
use couper.Base.{
  ℕ, Bool, true, false, ◌&&◌, not, List, [], ◌∷◌, ◌++◌, Option, none, some, Str, codes, eq_str,
  concat, ◌==◌, if◌then◌else◌,
}

pub record Fields : Type 0 where
  pub http_status : ℕ
  pub is_parent : Bool
  pub kinds : List Str
  pub label : Str
  pub message : Str
  pub synopsis : Str
  pub contexts : List Str

pub data Error : Type 0 where
  nil : Error
  foreign : Str → Error
  diagnostics : Str → Error
  couper_error : Fields → Error → Error

-- Equals, at two errors of couper.
unfoldable pub equals : Fields → Fields → Bool
unfolding eq_str concat
equals a b = eq_str a.synopsis b.synopsis && eq_str (concat a.kinds) (concat b.kinds)

-- The methods that derive an error from a copy; at errors of other types they do not exist.
abbrev pub on_fields : (Fields → Fields) → Error → Error
on_fields f (couper_error e inner) = couper_error (f e) inner
on_fields f e = e

unfoldable pub status : ℕ → Error → Error
status s = on_fields (λ e. record e { http_status = s })

-- The copy; that the receiver becomes a parent is in `kind_receiver`.
unfoldable pub kind : Str → Error → Error
kind name = on_fields (λ e. record e { is_parent = false; kinds = name ∷ e.kinds })

unfoldable pub kind_receiver : Error → Error
kind_receiver = on_fields (λ e. record e { is_parent = true })

unfoldable pub context : Str → Error → Error
context name = on_fields (λ e. record e { contexts = e.contexts ++ (name ∷ []) })

unfoldable pub label : Str → Error → Error
label name = on_fields (λ e. record e { label = name })

unfoldable pub message : Str → Error → Error
message msg = on_fields (λ e. record e { message = msg })

-- With
unfoldable pub wrap : Error → Error → Error
wrap nil e = e
wrap inner (couper_error e _) = couper_error e inner
wrap inner e = e

-- Kinds
unfoldable pub kinds : Error → List Str
kinds (couper_error e inner) = kinds inner ++ e.kinds
kinds e = []

abbrev pub unwrap : Error → Error
unwrap (couper_error e inner) = inner
unwrap e = nil

-- Error
abbrev pub text : Error → Str
text nil = []
text (foreign s) = s
text (diagnostics s) = s
text (couper_error e inner) = e.synopsis

-- HTTPStatus
unfoldable pub http_status : Error → ℕ
http_status (couper_error e inner) = if e.http_status == 0 then 500 else e.http_status
http_status e = 500

-- AppendMsg
unfoldable pub append_msg : Str → List Str → Str
unfolding eq_str
append_msg result [] = result
append_msg result (m ∷ messages) =
    append_msg
      ((if not (eq_str result []) && not (eq_str m []) then result ++ codes ": " else result) ++ m)
      messages

-- getDiags of an error that wraps the given one.
unfoldable pub get_diags : Error → Option Str
get_diags (diagnostics d) = some d
get_diags (couper_error e inner) = get_diags inner
get_diags e = none

-- The inner error loses its synopsis if it equals the outer one.
unfoldable pub dedupe : Fields → Fields → Fields
dedupe e inner = if equals e inner then record inner { synopsis = [] } else inner

abbrev pub own_text : Fields → Str
own_text e = append_msg e.synopsis (e.label ∷ e.message ∷ [])

-- LogError of an error with these fields that wraps `inner`: the text, and `inner` afterwards.
unfoldable pub log_error : Fields → Error → Str × Error
log_error e nil = (own_text e, nil)
log_error e (foreign s) = (append_msg (own_text e) (s ∷ []), foreign s)
log_error e (diagnostics d) = (d, diagnostics d)
log_error e (couper_error g inner) =
    let rest = log_error (dedupe e g) inner in
    elim (get_diags inner) [
      | some d ↦ (d, couper_error g inner)
      | none ↦ (append_msg (own_text e) (rest.0 ∷ []), couper_error (dedupe e g) rest.1)
    ]
