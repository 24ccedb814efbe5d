-- ===== src/Tests/Mux.antt =====
-- The router on small inputs.
use couper.Base.{
  arith, suc, ap, ◌∙◌, inl, inr, All-map, Bool-cases, if◌then◌else◌, All, ℕ, ◌≡◌, ◌≢◌, ◌↔◌, refl,
  Bool, true, false, List, [], ◌∷◌, ◌++◌, Option, none, some, Str, codes, eq_str, has_prefix,
  has_suffix, trim_prefix, split, less_str,
}
use couper.Mux.Paths.{
  slash, matches_path, IsBelow, matches_path_iff, api_error, LiesIn, IsFirst, api_error_iff,
  any_spa, any_files, is_api_error, with_slash, without_slash,
}
use couper.Mux.Order.{
  is_param_segment, segments, is_wild, less_params, less, sort_path_patterns, IsStrictOrder,
  occurrences, InOrder, IsSortSlice, Precedes, sort_path_patterns-Precedes,
}
use couper.Mux.Find.{
  Pattern, exact, prefix, Route, RouteMatch, Mux, server_not_found, find_handler,
  server_not_found_iff,
}

path_ops : Unit {0}
unfolding matches_path with_slash without_slash has_prefix has_suffix eq_str is_api_error any_files
    any_spa api_error
path_ops = tt

not_below : matches_path (codes "/api") (codes "/apix") ≡ false
unfolding path_ops
not_below = refl

api_ne_empty : codes "/api" ≢ []
api_ne_empty = cc

matches_path_iff_example :
    ((matches_path (codes "/api") (codes "/api/x") ≡ true)
      ↔ IsBelow (codes "/api") (codes "/api/x"))
    × ((matches_path (codes "/api" ++ slash) (codes "/api/x") ≡ true)
        ↔ IsBelow (codes "/api") (codes "/api/x"))
unfolding has_suffix
matches_path_iff_example = matches_path_iff (codes "/api") api_ne_empty refl (codes "/api/x")

-- Two APIs, of which the first one has the base path of a spa.
abbrev apis : List (ℕ × Str)
apis = (5, codes "/") ∷ (6, codes "/v1") ∷ []

api_error_iff_example :
    (api_error apis (codes "/" ∷ []) [] (codes "/v1/x") ≡ some 6)
    ↔ IsFirst apis (codes "/" ∷ []) [] (codes "/v1/x") 6
api_error_iff_example = api_error_iff apis (codes "/" ∷ []) [] (codes "/v1/x") 6

-- With its own base path alone the spa keeps the request; a second spa takes it away.
one_spa :
    (api_error {A = ℕ} ((5, codes "/") ∷ []) (codes "/" ∷ []) [] (codes "/x") ≡ none)
    × (api_error {A = ℕ} ((5, codes "/") ∷ []) (codes "/" ∷ codes "/app" ∷ []) [] (codes "/x")
        ≡ some 5)
unfolding path_ops
one_spa = (refl, refl)

abbrev patterns : List Str
patterns = codes "/**" ∷ codes "/{a}/b" ∷ codes "/a/b" ∷ codes "/a" ∷ []

-- An insertion sort, for sort.Slice.
unfoldable place : (Str → Str → Bool) → Str → List Str → List Str
place less p [] = p ∷ []
place less p (q ∷ qs) = if less p q then p ∷ q ∷ qs else q ∷ place less p qs

unfoldable insertion_sort : (Str → Str → Bool) → List Str → List Str
unfolding place
insertion_sort less [] = []
insertion_sort less (p ∷ ps) = place less p (insertion_sort less ps)

occurrences-place :
    (less : Str → Str → Bool) (p s : Str) (qs : List Str)
    → occurrences s (place less p qs) ≡ occurrences s (p ∷ qs)
unfolding place
occurrences-place less p s [] = refl
occurrences-place less p s (q ∷ qs) = ground (
  arith,
  occurrences-place less p s qs,
  Bool-cases (eq_str p s),
  Bool-cases (eq_str q s),
  Bool-cases (less p q),
)

place-All :
    (P : Str → Type 0) (less : Str → Str → Bool) (p : Str) (qs : List Str)
    → P p
    → All P qs
    → All P (place less p qs)
unfolding place
place-All P less p [] h hs = (h, tt)
place-All P less p (q ∷ qs) h hs = ground (arith, place-All P less p qs h)

not_after :
    (less : Str → Str → Bool) (o : IsStrictOrder less) (p q : Str)
    → less p q ≡ true
    → less q p ≡ false
not_after less o p q h = elim (Bool-cases (less q p)) [
  | inl e ↦ absurd (ground (arith, o.trans p q p h e, o.irrefl p))
  | inr e ↦ e
]

place-InOrder :
    (less : Str → Str → Bool) (o : IsStrictOrder less) (p : Str) (qs : List Str)
    → InOrder (λ a b. less b a ≡ false) qs
    → InOrder (λ a b. less b a ≡ false) (place less p qs)
unfolding place
place-InOrder less o p [] h = (tt, tt)
place-InOrder less o p (q ∷ qs) (first, h) = elim (Bool-cases (less p q)) [
  | inl e ↦ rw e (
    (
      not_after less o p q e,
      All-map (λ r. less r q ≡ false) (λ r. less r p ≡ false) (λ r g. behind r g e) qs first,
    ),
    (first, h),
  )
  | inr e ↦ rw e (place-All (λ r. less r q ≡ false) less p qs e first, place-InOrder less o p qs h)
]
  where
    behind : (r : Str) → less r q ≡ false → less p q ≡ true → less r p ≡ false
    behind r g e = elim (Bool-cases (less r p)) [
      | inl f ↦ absurd (ground (arith, o.trans r p q f e, g))
      | inr f ↦ f
    ]

insertion_sort-IsSortSlice : IsSortSlice insertion_sort
unfolding insertion_sort
insertion_sort-IsSortSlice = record { moves = moved; orders = ordered }
  where
    moved :
        (less : Str → Str → Bool) (ps : List Str) (s : Str)
        → occurrences s (insertion_sort less ps) ≡ occurrences s ps
    moved less [] s = refl
    moved less (p ∷ ps) s =
        occurrences-place less p s (insertion_sort less ps)
        ∙ ap (λ n. if eq_str p s then suc n else n) (moved less ps s)

    ordered :
        (less : Str → Str → Bool)
        → IsStrictOrder less
        → (ps : List Str) → InOrder (λ p q. less q p ≡ false) (insertion_sort less ps)
    ordered less o [] = tt
    ordered less o (p ∷ ps) = place-InOrder less o p (insertion_sort less ps) (ordered less o ps)

order_ops : Unit {0}
unfolding sort_path_patterns less is_wild segments less_params is_param_segment trim_prefix split
    less_str has_prefix has_suffix eq_str insertion_sort
order_ops = tt

patterns_sorted :
    sort_path_patterns insertion_sort patterns
    ≡ codes "/a/b" ∷ codes "/{a}/b" ∷ codes "/a" ∷ codes "/**" ∷ []
unfolding order_ops
patterns_sorted = refl

sort_path_patterns-Precedes_example :
    ((s : Str)
      → occurrences s (sort_path_patterns insertion_sort patterns) ≡ occurrences s patterns)
    × InOrder Precedes (sort_path_patterns insertion_sort patterns)
sort_path_patterns-Precedes_example =
    sort_path_patterns-Precedes insertion_sort patterns insertion_sort-IsSortSlice

abbrev exact_match : List (Route ℕ) → Str → Option (RouteMatch ℕ)
exact_match [] req = none
exact_match (r ∷ rs) req = some (record { route = r; vars = [] })

abbrev mux : Mux ℕ ℕ
mux = record {
  endpoint_root = [];
  file_root = [];
  spa_root = record { pattern = exact (codes "/"); wild = false; handler = 3 } ∷ [];
  api_base_paths = (5, codes "/api") ∷ [];
  spa_base_paths = [];
  files_base_paths = [];
}

server_not_found_iff_example :
    (find_handler exact_match (λ h. none) mux (codes "/x") ≡ server_not_found) ↔ (
      (exact_match [] (codes "/x") ≡ none)
      × All {A = ℕ × Str} (λ api. LiesIn api.1 [] [] (codes "/x") → ⊥) ((5, codes "/api") ∷ [])
      × (exact_match [] (codes "/x") ≡ none)
      × (exact_match mux.spa_root (codes "/x") ≡ none))
server_not_found_iff_example = server_not_found_iff exact_match (λ h. none) mux (codes "/x")

-- A router for paths without variables.
abbrev literal_accepts : Pattern → Str → Bool
literal_accepts (exact p) req = eq_str req p
literal_accepts (prefix p) req = has_prefix req p
