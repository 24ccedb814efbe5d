-- ===== src/Middleware/AllowedMethods.antt =====
-- handler/middleware/allowed_methods.go. Slices that may be nil are options, the set of methods is
-- the list of its members. Case and white space are those of ASCII.
use couper.Base.{
  ◌≡◌, ◌↔◌, ◌⊎◌, inl, inr, refl, Bool-cases, Bool, true, false, ◌||◌, List, [], ◌∷◌, ◌++◌, Option,
  none, some, arith, Str, codes, eq_str, eq_str_iff, mem_str, to_upper, trim_space, if◌then◌else◌,
}

abbrev pub default_file_spa_allowed_methods : List Str
default_file_spa_allowed_methods = codes "GET" ∷ codes "HEAD" ∷ []

abbrev pub star : Str
star = codes "*"

abbrev pub or_nil : Option (List Str) → List Str
or_nil none = []
or_nil (some l) = l

-- allowedMethods, where it is nil and a default is given
unfoldable pub effective : Option (List Str) → Option (List Str) → List Str
effective none defaults = or_nil defaults
effective (some methods) defaults = methods

-- The loop of NewAllowedMethodsHandler.
unfoldable pub collect : Option (List Str) → List Str → List Str
unfolding eq_str
collect defaults [] = []
collect defaults (method ∷ methods) =
    (if eq_str method star then or_nil defaults else to_upper method ∷ [])
    ++ collect defaults methods

unfoldable pub new_allowed_methods : Option (List Str) → Option (List Str) → List Str
new_allowed_methods methods defaults = collect defaults (effective methods defaults)

-- ServeHTTP: whether the allowed handler serves a request.
unfoldable pub serves : List Str → Str → Bool
serves allowed method = mem_str (to_upper method) allowed

unfoldable pub method_allowed : List Str → Str → Bool
method_allowed allowed method = mem_str (trim_space (to_upper method)) allowed

mem_str-append : (s : Str) (l m : List Str) → mem_str s (l ++ m) ≡ (mem_str s l || mem_str s m)
unfolding mem_str
mem_str-append s [] m = refl
mem_str-append s (t ∷ l) m = ground (arith, mem_str-append s l m)

-- One of the configured methods names the method, by itself in any case, or by "*" among the
-- defaults.
abbrev pub Names : Option (List Str) → Str → List Str → Type 0
Names defaults m [] = ⊥
Names defaults m (method ∷ methods) =
    ((eq_str method star ≡ true) × (mem_str m (or_nil defaults) ≡ true))
    ⊎ (((eq_str method star ≡ false) × (to_upper method ≡ m)) ⊎ Names defaults m methods)

collect_sound :
    (defaults : Option (List Str)) (m : Str) (methods : List Str)
    → mem_str m (collect defaults methods) ≡ true
    → Names defaults m methods
unfolding collect mem_str
collect_sound defaults m [] h = ground arith
collect_sound defaults m (method ∷ methods) h = elim (Bool-cases (eq_str method star)) [
  | inl e ↦ ground (
    arith,
    e,
    h,
    mem_str-append m (or_nil defaults) (collect defaults methods),
    collect_sound defaults m methods,
  )
  | inr e ↦ ground (arith, e, h, eq_str_iff (to_upper method) m, collect_sound defaults m methods)
]

collect_complete :
    (defaults : Option (List Str)) (m : Str) (methods : List Str)
    → Names defaults m methods
    → mem_str m (collect defaults methods) ≡ true
unfolding collect mem_str
collect_complete defaults m [] h = absurd h
collect_complete defaults m (method ∷ methods) h = elim (Bool-cases (eq_str method star)) [
  | inl e ↦ ground (
    arith,
    e,
    h,
    mem_str-append m (or_nil defaults) (collect defaults methods),
    collect_complete defaults m methods,
  )
  | inr e ↦
      ground (arith, e, h, eq_str_iff (to_upper method) m, collect_complete defaults m methods)
]

-- A request is served by the allowed handler exactly when its method in upper case is named by the
-- configured methods, or by the defaults if none are configured: by itself in any case, or by "*"
-- among the defaults.
pub serves_iff :
    (methods defaults : Option (List Str)) (method : Str)
    → (serves (new_allowed_methods methods defaults) method ≡ true)
      ↔ Names defaults (to_upper method) (effective methods defaults)
unfolding serves new_allowed_methods
serves_iff methods defaults method = (
  collect_sound defaults (to_upper method) (effective methods defaults),
  collect_complete defaults (to_upper method) (effective methods defaults),
)
