-- ===== src/Mux/Paths.antt =====
-- The base paths of server/mux.go: matchesPath, isAPIError, getAPIErrorTemplate.
use couper.Base.{
  All, ◌-◌, ◌≡◌, ◌≢◌, ◌↔◌, ◌⊎◌, inl, inr, refl, sym, ap, ◌∙◌, Bool, true, false, not, ◌&&◌, ◌||◌,
  List, [], ◌∷◌, ◌++◌, Option, none, some, arith, Str, codes, eq_str, eq_str_iff, has_prefix,
  has_suffix, has_suffix_append, has_prefix_append, prefix_rest, take-append, length, length-append,
  take, if◌then◌else◌, Bool-cases,
}
use mathlib.Core.List.{append_assoc}

abbrev pub slash : Str
slash = codes "/"

abbrev pub is_configured : Str → Bool
is_configured base = not (eq_str base [])

-- p1 and p2 of matchesPath
unfoldable pub with_slash : Str → Str
with_slash path =
    if not (eq_str path slash) && not (has_suffix path slash) then path ++ slash else path

unfoldable pub without_slash : Str → Str
without_slash path =
    if not (eq_str path slash) && has_suffix path slash then take (length path - 1) path else path

unfoldable pub matches_path : Str → Str → Bool
matches_path path req = has_prefix req (with_slash path) || eq_str req (without_slash path)

unfoldable pub is_api_error : (api files_base spa_base req : Str) → Bool
is_api_error api files_base spa_base req =
    if matches_path api req
    then (if is_configured files_base && eq_str api files_base
        then false
        else if is_configured spa_base && eq_str api spa_base
        then false
        else true)
    else false

abbrev pub or_blank : List Str → List Str
or_blank [] = [] ∷ []
or_blank (p ∷ ps) = p ∷ ps

-- The inner loop, over the base paths of files blocks.
unfoldable pub any_files : (api spa req : Str) → List Str → Bool
any_files api spa req [] = false
any_files api spa req (files ∷ rest) = is_api_error api files spa req || any_files api spa req rest

-- The loop over the base paths of spa blocks.
unfoldable pub any_spa : (api req : Str) → List Str → List Str → Bool
any_spa api req [] files = false
any_spa api req (spa ∷ rest) files = any_files api spa req files || any_spa api req rest files

-- getAPIErrorTemplate, over the APIs with their base paths in the order in which the map is read.
unfoldable pub api_error : {A : Type 0} → List (A × Str) → List Str → List Str → Str → Option A
api_error [] spas files req = none
api_error ((api, path) ∷ rest) spas files req =
    if is_configured path && any_spa path req (or_blank spas) (or_blank files)
    then some api
    else api_error rest spas files req

-- The request path is the base, or goes on behind it with a slash.
abbrev pub IsBelow : Str → Str → Type 0
IsBelow base req = (req ≡ base) ⊎ ((rest : Str) × (req ≡ base ++ (slash ++ rest)))

longer : (base : Str) → base ≢ [] → eq_str (base ++ slash) slash ≡ false
unfolding eq_str
longer [] ne = absurd (ne refl)
longer (c ∷ []) ne = ground arith
longer (c ∷ d ∷ s) ne = ground arith

module _ (base : Str) (some_base : base ≢ []) (no_slash : has_suffix base slash ≡ false) where
  base_ne_slash : eq_str base slash ≡ false
  base_ne_slash = elim (Bool-cases (eq_str base slash)) [
    | inr e ↦ e
    | inl e ↦ absurd (clash ((eq_str_iff base slash).0 e))
  ]
    where
      clash : base ≡ slash → ⊥
      clash e = cc (sym no_slash ∙ ap (λ b. has_suffix b slash) e ∙ has_suffix_append [] slash)

  matches_path-IsBelow :
      (req : Str) → (has_prefix req (base ++ slash) || eq_str req base) ≡ true → IsBelow base req
  matches_path-IsBelow req h = elim (Bool-cases (has_prefix req (base ++ slash))) [
    | inl p ↦
        let (rest, e) = prefix_rest req (base ++ slash) p in
        inr (rest, e ∙ append_assoc base slash rest)
    | inr p ↦ inl ((eq_str_iff req base).0 (ground (arith, p, h)))
  ]

  IsBelow-matches_path :
      (req : Str) → IsBelow base req → (has_prefix req (base ++ slash) || eq_str req base) ≡ true
  IsBelow-matches_path req (inl e) = ground (arith, (eq_str_iff req base).1 e)
  IsBelow-matches_path req (inr (rest, e)) =
      let p : has_prefix req (base ++ slash) ≡ true =
        rw e (rw (← append_assoc base slash rest) (has_prefix_append (base ++ slash) rest)) in
      ground (arith, p)

  pub matches_path_plain :
      (req : Str) → matches_path base req ≡ (has_prefix req (base ++ slash) || eq_str req base)
  unfolding matches_path with_slash without_slash
  matches_path_plain req = ground (arith, base_ne_slash, no_slash)

  with_trailing :
      (req : Str)
      → matches_path (base ++ slash) req ≡ (has_prefix req (base ++ slash) || eq_str req base)
  unfolding matches_path with_slash without_slash
  with_trailing req = ground (
    arith,
    longer base some_base,
    has_suffix_append base slash,
    take-append base slash (length (base ++ slash) - 1) (omega (arith, length-append base slash)),
  )

  -- A base path that is not empty, given with or without a slash at its end, matches exactly itself
  -- and the paths that go on behind it with a slash.
  pub matches_path_iff :
      (req : Str)
      → ((matches_path base req ≡ true) ↔ IsBelow base req)
        × ((matches_path (base ++ slash) req ≡ true) ↔ IsBelow base req)
  matches_path_iff req = (
    (
      λ h. matches_path-IsBelow req (sym (matches_path_plain req) ∙ h),
      λ h. matches_path_plain req ∙ IsBelow-matches_path req h,
    ),
    (
      λ h. matches_path-IsBelow req (sym (with_trailing req) ∙ h),
      λ h. with_trailing req ∙ IsBelow-matches_path req h,
    ),
  )

-- One of the base paths is another than the given one.
abbrev pub HasOther : Str → List Str → Type 0
HasOther path [] = ⊥
HasOther path (p ∷ ps) = (p ≢ path) ⊎ HasOther path ps

any_files_iff :
    (api spa req : Str) (files : List Str)
    → is_configured api ≡ true
    → (any_files api spa req files ≡ true)
      ↔ ((matches_path api req ≡ true) × (spa ≢ api) × HasOther api files)
unfolding any_files is_api_error
any_files_iff api spa req [] c = (λ h. ground (arith, h), λ h. absurd h.2)
any_files_iff api spa req (f ∷ files) c = (
  λ h. ground (
    arith,
    h,
    (any_files_iff api spa req files c).0,
    eq_str_iff api f,
    eq_str_iff api spa,
    eq_str_iff f [],
    eq_str_iff spa [],
  ),
  λ (m, s, o).
      ground (
        arith,
        m,
        s,
        o,
        (any_files_iff api spa req files c).1,
        eq_str_iff api f,
        eq_str_iff api spa,
      ),
)

any_spa_iff :
    (api req : Str) (spas files : List Str)
    → is_configured api ≡ true
    → (any_spa api req spas files ≡ true)
      ↔ ((matches_path api req ≡ true) × HasOther api spas × HasOther api files)
unfolding any_spa
any_spa_iff api req [] files c = (λ h. ground (arith, h), λ h. absurd h.1)
any_spa_iff api req (spa ∷ spas) files c = (
  λ h.
      ground
        (arith, h, (any_files_iff api spa req files c).0, (any_spa_iff api req spas files c).0),
  λ (m, s, f).
      ground (
        arith,
        m,
        s,
        f,
        (any_files_iff api spa req files c).1,
        (any_spa_iff api req spas files c).1,
      ),
)

-- A request lies in an API with this base path: it is below the path, which is not empty, and both
-- the spa blocks and the files blocks have another base path than that.
abbrev pub LiesIn : (path : Str) (spas files : List Str) (req : Str) → Type 0
LiesIn path spas files req =
    (path ≢ [])
    × (matches_path path req ≡ true)
    × HasOther path (or_blank spas)
    × HasOther path (or_blank files)

-- The API is the first one of the list in which the request lies.
abbrev pub IsFirst : {A : Type 0} → List (A × Str) → List Str → List Str → Str → A → Type 0
IsFirst [] spas files req api = ⊥
IsFirst ((a, path) ∷ rest) spas files req api =
    (LiesIn path spas files req × (a ≡ api))
    ⊎ ((LiesIn path spas files req → ⊥) × IsFirst rest spas files req api)

any_spa-LiesIn :
    (path : Str) (spas files : List Str) (req : Str)
    → ((is_configured path && any_spa path req (or_blank spas) (or_blank files)) ≡ true)
      ↔ LiesIn path spas files req
any_spa-LiesIn path spas files req = (
  λ h.
      let c : is_configured path ≡ true = ground (arith, h) in
      let (m, s, f) =
        (any_spa_iff path req (or_blank spas) (or_blank files) c).0 (ground (arith, h, c)) in
      (ground (arith, c, eq_str_iff path []), m, s, f),
  λ (ne, m, s, f).
      let c : is_configured path ≡ true = ground (arith, ne, eq_str_iff path []) in
      ground (arith, c, (any_spa_iff path req (or_blank spas) (or_blank files) c).1 (m, s, f)),
)

-- The request lies in none of the APIs.
pub api_error-none :
    {A : Type 0} (apis : List (A × Str)) (spas files : List Str) (req : Str)
    → (api_error apis spas files req ≡ none) ↔ All (λ api. LiesIn api.1 spas files req → ⊥) apis
unfolding api_error
api_error-none [] spas files req = (λ h. tt, λ h. refl)
api_error-none ((a, path) ∷ rest) spas files req =
    let (there, back) = any_spa-LiesIn path spas files req in
    let (f, g) = api_error-none rest spas files req in
    elim (Bool-cases (is_configured path && any_spa path req (or_blank spas) (or_blank files))) [
      | inl e ↦ rw e (λ h. absurd (taken h), λ (outside, k). absurd (outside (there e)))
      | inr e ↦ rw e (λ h. (λ l. differ (sym e ∙ back l), f h), λ (outside, k). g k)
    ]
  where
    differ : false ≡ true → ⊥
    differ h = cc

    taken : {A : Type 0} {a : A} → some a ≡ none → ⊥
    taken h = cc

-- A request is an error of an API exactly when this is the first one, in the order in which the map
-- is read, in which the request lies: its base path is not empty, the path of the request matches
-- it, and both among the base paths of the spa blocks and among those of the files blocks there is
-- another one than that of the API, where the empty path stands for no such block.
pub api_error_iff :
    {A : Type 0} (apis : List (A × Str)) (spas files : List Str) (req : Str) (api : A)
    → (api_error apis spas files req ≡ some api) ↔ IsFirst apis spas files req api
unfolding api_error
api_error_iff [] spas files req api = (λ h. cc, λ h. absurd h)
api_error_iff ((a, path) ∷ rest) spas files req api =
    let (there, back) = any_spa-LiesIn path spas files req in
    let (f, g) = api_error_iff rest spas files req api in
    elim (Bool-cases (is_configured path && any_spa path req (or_blank spas) (or_blank files))) [
      | inl e ↦ rw e (
        λ h. inl (there e, some_injective h),
        λ k. elim k [
          | inl (l, same) ↦ ap some same
          | inr (outside, k) ↦ absurd (outside (there e))
        ],
      )
      | inr e ↦ rw e (
        λ h. inr (λ l. differ (sym e ∙ back l), f h),
        λ k. elim k [ inl (l, same) ↦ absurd (differ (sym e ∙ back l)) | inr (outside, k) ↦ g k ],
      )
    ]
  where
    differ : false ≡ true → ⊥
    differ h = cc

    some_injective : {A : Type 0} {a b : A} → some a ≡ some b → a ≡ b
    some_injective h = cc
