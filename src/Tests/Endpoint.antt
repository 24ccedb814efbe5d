-- ===== src/Tests/Endpoint.antt =====
-- An endpoint with three requests, of which the first fails.
use couper.Base.{
  ◌≡◌, refl, true, false, ◌&&◌, [], ◌∷◌, some, none, Str, codes, lookup, eq_str, mem_str, all_mem,
  if◌then◌else◌,
}
use couper.Errors.{Error, couper_error, nil, kinds, wrap}
use couper.Sequence.{Store, deps, item}
use couper.Sequence.Resolve.{distinct, ordered}
use couper.Endpoint.{
  ResultError, fine, other, own, sequence_of_nil, is_fine, has_sequence_kind, mark, start, error_at,
  first_failed, run_item, run_items,
}
use couper.Endpoint.Order.{all_succeeded, run_items_iff}

abbrev a : Str
a = codes "a"

abbrev b : Str
b = codes "b"

abbrev c : Str
c = codes "c"

-- a refers to b and c, and b to c.
abbrev chain : Store
chain =
    (a, record { deps = b ∷ c ∷ []; parent = none })
    ∷ (b, record { deps = c ∷ []; parent = some a })
    ∷ (c, record { deps = []; parent = some b })
    ∷ []

abbrev sequence : Error
sequence =
    couper_error
      (record {
        http_status = 502;
        is_parent = false;
        kinds = codes "sequence" ∷ [];
        label = [];
        message = [];
        synopsis = codes "sequence error";
        contexts = [];
      })
      nil

abbrev refused : Error
refused =
    couper_error
      (record {
        http_status = 502;
        is_parent = false;
        kinds = codes "backend" ∷ [];
        label = [];
        message = [];
        synopsis = codes "backend error";
        contexts = [];
      })
      nil

-- The request of c fails with an error of couper's own, or with another one.
abbrev refuse : Str → ResultError
refuse n = if eq_str n c then own refused else fine

abbrev panic : Str → ResultError
panic n = if eq_str n c then other else fine

order_lem : (distinct (c ∷ b ∷ a ∷ []) ≡ true) × (ordered chain [] (c ∷ b ∷ a ∷ []) ≡ true)
unfolding distinct ordered deps item lookup eq_str mem_str all_mem
order_lem = (refl, refl)

refused_sent : (run_items sequence refuse chain start (c ∷ b ∷ a ∷ [])).sent ≡ c ∷ []
unfolding run_items run_item first_failed mark has_sequence_kind kinds wrap deps item lookup eq_str
    mem_str
refused_sent = refl

-- The result of c, which a, b and c share.
refused_error :
    error_at (run_items sequence refuse chain start (c ∷ b ∷ a ∷ [])) a
    ≡ own (wrap refused sequence)
unfolding run_items run_item first_failed mark has_sequence_kind kinds wrap deps item lookup eq_str
    mem_str
refused_error = refl

-- The error of c is lost, and the goroutine of a panics.
panic_error : error_at (run_items sequence panic chain start (c ∷ b ∷ [])) b ≡ sequence_of_nil
unfolding run_items run_item first_failed mark deps item lookup eq_str mem_str
panic_error = refl

panic_again : error_at (run_items sequence panic chain start (c ∷ b ∷ a ∷ [])) a ≡ other
unfolding run_items run_item first_failed mark deps item lookup eq_str mem_str
panic_again = refl

a_known : mem_str a (c ∷ b ∷ a ∷ []) ≡ true
unfolding mem_str eq_str
a_known = refl

run_items_iff_example :
    (mem_str a (run_items sequence refuse chain start (c ∷ b ∷ a ∷ [])).sent
      ≡ all_succeeded sequence refuse chain
          (run_items sequence refuse chain start (c ∷ b ∷ a ∷ []))
          (deps chain a))
    × (is_fine (error_at (run_items sequence refuse chain start (c ∷ b ∷ a ∷ [])) a) ≡ (
        mem_str a (run_items sequence refuse chain start (c ∷ b ∷ a ∷ [])).sent
        && is_fine (refuse a)))
run_items_iff_example =
    run_items_iff sequence refuse chain (c ∷ b ∷ a ∷ []) a order_lem.0 order_lem.1 a_known
