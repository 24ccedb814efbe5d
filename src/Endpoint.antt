-- ===== src/Endpoint.antt =====
-- produce of handler/endpoint.go: the producers of an endpoint, each in a goroutine that first takes
-- the results of the items it depends on from its channels. As a channel gives a result only when
-- the item at its other end is done, the goroutines are run one after the other, in an order in
-- which each item stands behind those it depends on. A failed result is passed on as it is: several
-- items share the Result of the item in which it arose, whose error drainInputChannels changes.
pub mod Known
pub mod Order
use couper.Base.{
  Bool, true, false, not, ◌&&◌, ◌||◌, List, [], ◌∷◌, ◌++◌, Option, none, some, Str, codes, eq_str,
  mem_str, if◌then◌else◌,
}
use couper.Errors
use couper.Errors.{Error, couper_error, kinds, wrap}
use couper.Sequence.{Store, deps}

-- The error of a result. `other` is an error of another type than errors.Error, or a panic, which the
-- goroutine recovers; `sequence_of_nil` is errors.Sequence with a nil pointer as inner error.
pub data ResultError : Type 0 where
  fine other sequence_of_nil : ResultError
  own : Error → ResultError

abbrev pub is_fine : ResultError → Bool
is_fine fine = true
is_fine e = false

unfoldable pub has_sequence_kind : Error → Bool
unfolding mem_str kinds
has_sequence_kind e = mem_str (codes "sequence") (kinds e)

-- What drainInputChannels makes of an error; `none` is a panic, since Kinds follows the nil pointer.
unfoldable pub mark : (sequence : Error) → ResultError → Option ResultError
unfolding has_sequence_kind
mark sequence fine = some fine
mark sequence other = some sequence_of_nil
mark sequence sequence_of_nil = none
mark sequence (own e) = some (own (if has_sequence_kind e then e else wrap e sequence))

abbrev pub update {ℓ} : {A : Type ℓ} → (Str → A) → Str → A → Str → A
update f k v q = if eq_str k q then v else f q

-- Where the result of an item arose, the error of the result that arose in an item, and the items
-- whose request was sent.
pub record Results : Type 0 where
  pub origin : Str → Str
  pub error : Str → ResultError
  pub sent : List Str

abbrev pub start : Results
start = record { origin = λ n. n; error = λ n. fine; sent = [] }

abbrev pub error_at : Results → Str → ResultError
error_at r n = r.error (r.origin n)

-- The first input whose result has an error.
unfoldable pub first_failed : Results → List Str → Option Str
first_failed r [] = none
first_failed r (from ∷ rest) =
    let later = first_failed r rest in if is_fine (error_at r from) then later else some from

-- The failed result of an input is passed on, or the goroutine panics.
abbrev pub pass_on : Results → Str → Str → Option ResultError → Results
pass_on r n from (some e) = record r {
  origin = update r.origin n (r.origin from);
  error = update r.error (r.origin from) e;
}
pass_on r n from none = record r { origin = update r.origin n n; error = update r.error n other }

module _ (sequence : Error) (produce : Str → ResultError) (h : Store) where
  -- The request is sent, and the result is new.
  abbrev pub send : Results → Str → Results
  send r n = record {
    origin = update r.origin n n;
    error = update r.error n (produce n);
    sent = r.sent ++ (n ∷ []);
  }

  -- The goroutine of one item.
  unfoldable pub run_item : Results → Str → Results
  run_item r n = elim (first_failed r (deps h n)) [
    | none ↦ send r n
    | some from ↦ pass_on r n from (mark sequence (error_at r from))
  ]

  unfoldable pub run_items : Results → List Str → Results
  run_items r [] = r
  run_items r (n ∷ ns) = run_items (run_item r n) ns
