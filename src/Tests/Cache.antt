-- ===== src/Tests/Cache.antt =====
-- The memory store on small inputs.
use couper.Base.{
  List, arith, ℕ, ◌≡◌, refl, [], ◌∷◌, some, pos, codes, eq_str, has_prefix, lookup, insert,
}
use couper.Cache.{MemoryStore, get, get_all_with_prefix, set, gc}
use couper.Cache.Expiry.{Operation, sets, dels, collects, run, get-run}

store_ops : Unit {0}
unfolding get set gc get_all_with_prefix lookup insert eq_str has_prefix
store_ops = tt

abbrev stored : MemoryStore ℕ
stored =
    (codes "a", record { value = 7; exp_at = 150 })
    ∷ (codes "ab", record { value = 8; exp_at = 90 })
    ∷ []

set_runs :
    set (codes "ab") 9 (pos 100000) 10 stored
    ≡ (codes "a", record { value = 7; exp_at = 150 })
      ∷ (codes "ab", record { value = 9; exp_at = 86410 })
      ∷ []
unfolding store_ops
set_runs = refl

gc_runs : gc 100 stored ≡ (codes "a", record { value = 7; exp_at = 150 }) ∷ []
unfolding store_ops
gc_runs = refl

-- A value is set, the store collected, and another key deleted.
abbrev history : List (Operation ℕ)
history = dels (codes "c") ∷ collects 50 ∷ sets (codes "b") 1 (pos 50) 20 ∷ []

get-run_example : get (codes "b") 60 (run history) ≡ some 1
unfolding eq_str
get-run_example = get-run (codes "b") 60 history (omega arith, (omega arith, tt))
