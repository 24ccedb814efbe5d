-- ===== src/Mux/Order.antt =====
-- The order of the path patterns: SortPathPatterns of server/mux.go.
use couper.Base.{
  ℕ, suc, ◌≤◌, ◌≡◌, ◌≢◌, ◌⊎◌, inl, inr, refl, Bool, true, false, not, ◌&&◌, List, [], ◌∷◌, Option,
  none, some, arith, Str, codes, eq_str, has_prefix, has_suffix, trim_prefix, split, less_str,
  less_str_irrefl, less_str_trans, less_str_total, length, ltb, if◌then◌else◌, All, All-map,
  Bool-cases,
}

unfoldable pub is_param_segment : Str → Bool
is_param_segment segment = has_prefix segment (codes "{") && has_suffix segment (codes "}")

unfoldable pub segments : Str → List Str
segments pattern = split 47 (trim_prefix pattern (codes "/"))

-- The last element; there is always one.
abbrev pub last : List Str → Str
last [] = []
last (s ∷ []) = s
last (s ∷ t ∷ ss) = last (t ∷ ss)

unfoldable pub is_wild : Str → Bool
is_wild pattern = eq_str (last (segments pattern)) (codes "**")

-- The loop over the segments: whether the first comes before the second, or `none` if the loop ends
-- without a decision. The lists have the same length where it runs.
unfoldable pub less_params : List Str → List Str → Option Bool
less_params (s ∷ ss) (t ∷ ts) =
    let rest = less_params ss ts in
    if not (is_param_segment s) && is_param_segment t
    then some true
    else if is_param_segment s && not (is_param_segment t)
    then some false
    else rest
less_params _ _ = none

abbrev pub decide_by : Option Bool → Bool → Bool
decide_by (some b) otherwise = b
decide_by none otherwise = otherwise

-- The function that is passed to sort.Slice.
unfoldable pub less : Str → Str → Bool
less p q =
    if not (is_wild p) && is_wild q
    then true
    else if is_wild p && not (is_wild q)
    then false
    else if ltb (length (segments q)) (length (segments p))
    then true
    else if ltb (length (segments p)) (length (segments q))
    then false
    else decide_by (less_params (segments p) (segments q)) (less_str p q)

-- SortPathPatterns; `sort_slice` is sort.Slice.
unfoldable pub sort_path_patterns :
    (sort_slice : (Str → Str → Bool) → List Str → List Str) → List Str → List Str
unfolding less
sort_path_patterns sort_slice path_patterns = sort_slice less path_patterns

less_params_self : (s : List Str) → less_params s s ≡ none
unfolding less_params
less_params_self [] = refl
less_params_self (x ∷ s) = ground (arith, less_params_self s)

-- No pattern comes before itself.
pub less_irrefl : (p : Str) → less p p ≡ false
unfolding less
less_irrefl p = ground (arith, less_params_self (segments p), less_str_irrefl p)

less_params_flip :
    (s t : List Str)
    → less_params t s ≡ elim (less_params s t) [ some b ↦ some (not b) | none ↦ none ]
unfolding less_params
less_params_flip [] [] = refl
less_params_flip [] (y ∷ t) = refl
less_params_flip (x ∷ s) [] = refl
less_params_flip (x ∷ s) (y ∷ t) = ground (arith, less_params_flip s t)

-- Of two different patterns one comes before the other.
pub less_total : (p q : Str) → p ≢ q → (less p q ≡ true) ⊎ (less q p ≡ true)
unfolding less
less_total p q ne =
    ground (arith, ne, less_params_flip (segments p) (segments q), less_str_total p q)

-- what the loop says of three lists of one length
less_params_trans :
    (s t u : List Str)
    → length s ≡ length t
    → length t ≡ length u
    → less_params s t ≢ some false
    → less_params t u ≢ some false
    → (less_params s u ≡ some true)
      ⊎ ((less_params s u ≡ none) × (less_params s t ≡ none) × (less_params t u ≡ none))
unfolding less_params
less_params_trans [] [] [] e f h k = inr (refl, refl, refl)
less_params_trans (x ∷ s) (y ∷ t) (z ∷ u) e f h k = ground (arith, less_params_trans s t u)
less_params_trans [] [] (z ∷ u) e f h k = absurd (omega arith)
less_params_trans [] (y ∷ t) u e f h k = absurd (omega arith)
less_params_trans (x ∷ s) [] u e f h k = absurd (omega arith)
less_params_trans (x ∷ s) (y ∷ t) [] e f h k = absurd (omega arith)

-- The order is transitive.
pub less_trans : (p q r : Str) → less p q ≡ true → less q r ≡ true → less p r ≡ true
unfolding less
less_trans p q r h k =
    ground
      (arith, h, k, less_params_trans (segments p) (segments q) (segments r), less_str_trans p q r)

-- What sort.Slice asks of its argument.
pub record IsStrictOrder (less : Str → Str → Bool) : Type 0 where
  pub irrefl : (p : Str) → less p p ≡ false
  pub trans : (p q r : Str) → less p q ≡ true → less q r ≡ true → less p r ≡ true
  pub total : (p q : Str) → p ≢ q → (less p q ≡ true) ⊎ (less q p ≡ true)

-- How often a string stands in a list.
abbrev pub occurrences : Str → List Str → ℕ
occurrences s [] = 0
occurrences s (t ∷ ts) = if eq_str t s then suc (occurrences s ts) else occurrences s ts

-- For any two places the relation holds from the earlier to the later one.
abbrev pub InOrder : (Str → Str → Type 0) → List Str → Type 0
InOrder R [] = Unit
InOrder R (p ∷ ps) = All (λ q. R p q) ps × InOrder R ps

-- What sort.Slice does: it moves the strings of a list, and leaves none behind a greater one.
pub record IsSortSlice (sort_slice : (Str → Str → Bool) → List Str → List Str) : Type 0 where
  pub moves :
      (less : Str → Str → Bool) (ps : List Str) (s : Str)
      → occurrences s (sort_slice less ps) ≡ occurrences s ps
  pub orders :
      (less : Str → Str → Bool)
      → IsStrictOrder less
      → (ps : List Str) → InOrder (λ p q. less q p ≡ false) (sort_slice less ps)

-- Segment by segment both are parameters or both are literal.
abbrev pub SameKinds : List Str → List Str → Type 0
SameKinds (s ∷ ss) (t ∷ ts) = (is_param_segment s ≡ is_param_segment t) × SameKinds ss ts
SameKinds _ _ = Unit

-- At the first place where one is a parameter and the other is literal, the first one is literal.
abbrev pub LiteralFirst : List Str → List Str → Type 0
LiteralFirst (s ∷ ss) (t ∷ ts) =
    ((is_param_segment s ≡ false) × (is_param_segment t ≡ true))
    ⊎ ((is_param_segment s ≡ is_param_segment t) × LiteralFirst ss ts)
LiteralFirst _ _ = Unit

-- The pattern may be tried before the other one.
pub record Precedes (p q : Str) : Type 0 where
  pub wildcards_last : is_wild p ≡ true → is_wild q ≡ true
  pub longer_first : is_wild p ≡ is_wild q → length (segments q) ≤ length (segments p)
  pub literals_first :
      is_wild p ≡ is_wild q
      → length (segments p) ≡ length (segments q)
      → LiteralFirst (segments p) (segments q)
  pub alphabetical :
      is_wild p ≡ is_wild q
      → length (segments p) ≡ length (segments q)
      → SameKinds (segments p) (segments q)
      → less_str q p ≡ false

less_params-LiteralFirst : (s t : List Str) → less_params t s ≢ some true → LiteralFirst s t
unfolding less_params
less_params-LiteralFirst [] t h = tt
less_params-LiteralFirst (x ∷ s) [] h = tt
less_params-LiteralFirst (x ∷ s) (y ∷ t) h = elim (Bool-cases (is_param_segment x)) [
  | inl px ↦ elim (Bool-cases (is_param_segment y)) [
    | inl py ↦
        inr (
          ground (arith, px, py),
          less_params-LiteralFirst s t (λ e. h (ground (arith, px, py, e))),
        )
    | inr py ↦ absurd (h (ground (arith, px, py)))
  ]
  | inr px ↦ elim (Bool-cases (is_param_segment y)) [
    | inl py ↦ inl (px, py)
    | inr py ↦
        inr (
          ground (arith, px, py),
          less_params-LiteralFirst s t (λ e. h (ground (arith, px, py, e))),
        )
  ]
]

less_params-SameKinds : (s t : List Str) → SameKinds s t → less_params t s ≡ none
unfolding less_params
less_params-SameKinds [] [] h = refl
less_params-SameKinds [] (y ∷ t) h = refl
less_params-SameKinds (x ∷ s) [] h = refl
less_params-SameKinds (x ∷ s) (y ∷ t) (e, h) = ground (arith, e, less_params-SameKinds s t h)

less-Precedes : (p q : Str) → less q p ≡ false → Precedes p q
unfolding less
less-Precedes p q h = record {
  wildcards_last = λ w. ground (arith, h, w);
  longer_first = λ w. ground (arith, h, w);
  literals_first =
      λ w l. less_params-LiteralFirst (segments p) (segments q) (λ e. ground (arith, h, w, l, e));
  alphabetical =
      λ w l k. ground (arith, h, w, l, less_params-SameKinds (segments p) (segments q) k);
}

less-IsStrictOrder : IsStrictOrder less
less-IsStrictOrder = record { irrefl = less_irrefl; trans = less_trans; total = less_total }

InOrder-map :
    (R S : Str → Str → Type 0) (ps : List Str)
    → ((p q : Str) → R p q → S p q)
    → InOrder R ps
    → InOrder S ps
InOrder-map R S [] f h = tt
InOrder-map R S (p ∷ ps) f (first, h) =
    (All-map (λ q. R p q) (λ q. S p q) (λ q. f p q) ps first, InOrder-map R S ps f h)

-- If sort.Slice moves the strings of a list and, for a strict total order, leaves none behind a
-- greater one, then SortPathPatterns keeps each pattern as often as it stands in the list, and of
-- any two patterns of the result the earlier one is not the only one with a wildcard as last
-- segment; else it has no fewer segments; with as many, at the first segment where one has a
-- parameter and the other is literal, the earlier one is literal; and with the same kinds of
-- segments it is not behind the other one in the alphabet.
pub sort_path_patterns-Precedes :
    (sort_slice : (Str → Str → Bool) → List Str → List Str) (ps : List Str)
    → IsSortSlice sort_slice
    → ((s : Str) → occurrences s (sort_path_patterns sort_slice ps) ≡ occurrences s ps)
      × InOrder Precedes (sort_path_patterns sort_slice ps)
unfolding sort_path_patterns
sort_path_patterns-Precedes sort_slice ps h = (
  h.moves less ps,
  InOrder-map (λ p q. less q p ≡ false) Precedes (sort_slice less ps) less-Precedes
      (h.orders less less-IsStrictOrder ps),
)
