-- ===== src/Access/List.antt =====
-- accesscontrol/ac.go and handler/access_control.go. `S` is what the controls may change about the
-- request: its context. `H` are handlers.
pub mod Laws
use couper.Base.{
  Bool, true, false, not, ◌&&◌, List, [], ◌∷◌, Option, none, some, Str, if◌then◌else◌,
}
use couper.Errors
use couper.Errors.{Error, nil, couper_error, wrap, label, kind}

-- A ListItem: the control, whether it disables private caching (a control without this method
-- does), and the rest of the struct. The kind is that of TypeToSnake.
pub record ListItem (S H : Type 0) : Type 0 where
  pub validate : S → Option Error × S
  pub disable_private_caching : Option Bool
  pub control_err_handler : H
  pub kind : Str
  pub label : Str

-- The error that the Validate of an item returns, from that of its control; `base` is
-- errors.AccessControl.
unfoldable pub item_error : (base : Error) (kind_name label_name : Str) → Error → Error
item_error base k l (couper_error e inner) = label l (couper_error e inner)
item_error base k l err = wrap err (kind k (label l base))

abbrev pub is_disabled : Option Bool → Bool
is_disabled (some b) = b
is_disabled none = true

pub data Handled (H : Type 0) : Type 0 where
  error_handler : H → Error → Handled H
  protected : Handled H

module _ {S H : Type 0} (base : Error) (with_client_request : S → S) where
  -- ListItem.Validate
  unfoldable pub validate_item : ListItem S H → S → Option Error × S
  validate_item item s = elim (item.validate s).0 [
    | some err ↦ (some (item_error base item.kind item.label err), (item.validate s).1)
    | none ↦ (none, with_client_request (item.validate s).1)
  ]

  -- AccessControl.ServeHTTP: who serves the request, whether the response is marked private, and
  -- the context of the request. `is_response` is the test on the type of the writer.
  unfoldable pub serve_http :
      (is_response : Bool) → List (ListItem S H) → S → Bool → Handled H × Bool × S
  serve_http is_response [] s private = (protected, private, s)
  serve_http is_response (item ∷ acl) s private =
      let private' =
        if is_response && not (is_disabled item.disable_private_caching) then true else private in
      let (result, s') = validate_item item s in
      let rest = serve_http is_response acl s' private' in
      elim result [
        | some err ↦ (error_handler item.control_err_handler err, private', s')
        | none ↦ rest
      ]
