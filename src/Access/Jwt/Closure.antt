-- ===== src/Access/Jwt/Closure.antt =====
-- The permissions map is followed to its end: the granted permissions are the closure.
use couper.Base.{
  mem_str-append, all_mem, all_mem-keeps, all_mem-mem, ℕ, zero, suc, ◌≡◌, ◌≢◌, ◌↔◌, refl, sym, ap,
  ◌∙◌, inl, inr, ◌⊎◌, Bool, true, false, not, ◌&&◌, List, [], ◌∷◌, ◌++◌, none, some, arith, Str,
  eq_str, eq_str_iff, eq_str_refl, mem_str, trim_space, lookup, length, Bool-cases, Option-cases,
}
use couper.Access.Jwt.{
  NameMap, ClaimMap, Jwt, add_permission, add_new, add_mapped_permissions, mapped_values,
  claimed_permissions, get_granted_permissions,
}
use couper.Access.Jwt.Mapped.{
  is_new, add_permission_lem, add_permission-keeps, add_permission-has, total, missing-le-length,
}

-- A value of the map that has no space around it and is not empty.
is_clean : Str → Bool
is_clean v = eq_str (trim_space v) v && not (eq_str v [])

unfoldable pub are_clean : List Str → Bool
unfolding is_clean
are_clean [] = true
are_clean (v ∷ vs) = is_clean v && are_clean vs

-- A permission that a claim grants, or that the map gives for another one.
pub data Derives (m : NameMap) (granted : List Str) : Str → Type 0 where
  claimed : (p : Str) → mem_str p granted ≡ true → Derives m granted p
  mapped_from :
      (p q : Str) (vs : List Str)
      → Derives m granted p
      → lookup p m ≡ some vs
      → mem_str q vs ≡ true
      → Derives m granted q

clean_new :
    (t : List Str) (v : Str)
    → is_clean v ≡ true
    → ((trim_space v) ≡ v) × (eq_str (trim_space v) [] ≡ false)
unfolding is_clean
clean_new t v h =
    let e : trim_space v ≡ v = (eq_str_iff (trim_space v) v).0 (ground (arith, h)) in
    (e, ap (λ s. eq_str s []) e ∙ ground (arith, h, Bool-cases (eq_str v [])))

add_new-keeps : (vs t : List Str) (p : Str) → mem_str p t ≡ true → mem_str p (add_new vs t).0 ≡ true
unfolding add_new
add_new-keeps [] t p h = h
add_new-keeps (v ∷ vs) t p h =
    add_new-keeps vs (add_permission t v).0 p (add_permission-keeps t v p h)

add_new-has : (vs t : List Str) → are_clean vs ≡ true → all_mem vs (add_new vs t).0 ≡ true
unfolding add_new all_mem are_clean
add_new-has [] t h = refl
add_new-has (v ∷ vs) t h =
    let (e, ne) = clean_new t v (ground (arith, h)) in
    let here = add_new-keeps vs (add_permission t v).0 (trim_space v) (add_permission-has t v ne) in
    let here' : mem_str v (add_new vs (add_permission t v).0).0 ≡ true =
      ap (λ s. mem_str s (add_new vs (add_permission t v).0).0) (sym e) ∙ here in
    ground (arith, here', add_new-has vs (add_permission t v).0, h)

-- What is in the new target was there, or is in `l`; and what is in `l` is of the map.
add_new-splits :
    (vs t : List Str) (p : Str)
    → are_clean vs ≡ true
    → mem_str p (add_new vs t).0 ≡ true
    → (mem_str p t ≡ true) ⊎ (mem_str p (add_new vs t).1 ≡ true)
unfolding add_new are_clean mem_str
add_new-splits [] t p c h = inl h
add_new-splits (v ∷ vs) t p c h =
    let (e, ne) = clean_new t v (ground (arith, c)) in
    elim (add_new-splits vs (add_permission t v).0 p (ground (arith, c)) h) [
      | inl old ↦ ground (
        arith,
        old,
        add_permission_lem t v,
        mem_str-append p t (trim_space v ∷ []),
        ap (λ s. eq_str s p) e,
        Bool-cases (mem_str p t),
        Bool-cases (is_new v t),
      )
      | inr new ↦
          inr (ground (arith, new, Bool-cases (add_permission t v).1, Bool-cases (eq_str v p)))
    ]

add_new-from : (vs t : List Str) (p : Str) → mem_str p (add_new vs t).1 ≡ true → mem_str p vs ≡ true
unfolding add_new mem_str
add_new-from [] t p h = h
add_new-from (v ∷ vs) t p h = ground (
  arith,
  h,
  add_new-from vs (add_permission t v).0 p,
  Bool-cases (add_permission t v).1,
  Bool-cases (eq_str v p),
)

are_clean-append :
    (us ws : List Str) → are_clean (us ++ ws) ≡ true → (are_clean us ≡ true) × (are_clean ws ≡ true)
unfolding are_clean
are_clean-append [] ws h = (refl, h)
are_clean-append (u ∷ us) ws h = ground (arith, h, are_clean-append us ws)

lookup-are_clean :
    (k : Str) (m : NameMap) (vs : List Str)
    → are_clean (mapped_values m) ≡ true
    → lookup k m ≡ some vs
    → are_clean vs ≡ true
unfolding lookup mapped_values
lookup-are_clean k [] vs c h = ground (arith, h)
lookup-are_clean k ((j, ws) ∷ m) vs c h = ground (
  arith,
  h,
  are_clean-append ws (mapped_values m) c,
  lookup-are_clean k m vs,
  Bool-cases (eq_str j k),
)

-- A round of the loop that returned.
invert :
    (fuel : ℕ) (m : NameMap) (val : Str) (source target t : List Str)
    → add_mapped_permissions (suc fuel) m (val ∷ source) target ≡ some t
    → ((lookup val m ≡ none) × (add_mapped_permissions (suc fuel) m source target ≡ some t))
      ⊎ ((mapped : List Str) × (t1 : List Str) × (lookup val m ≡ some mapped)
          × (add_mapped_permissions fuel m (add_new mapped target).1 (add_new mapped target).0
              ≡ some t1)
          × (add_mapped_permissions (suc fuel) m source t1 ≡ some t))
unfolding add_mapped_permissions
invert fuel m val source target t h = elim (Option-cases (lookup val m)) [
  | inl missed ↦ inl (missed, ground (arith, h, missed))
  | inr (mapped, found) ↦
      elim (Option-cases
        (add_mapped_permissions fuel m (add_new mapped target).1 (add_new mapped target).0)) [
          | inl stopped ↦ absurd (ground (arith, h, found, stopped))
          | inr (t1, e) ↦ inr (mapped, t1, found, e, ground (arith, h, found, e))
        ]
]

stopped :
    (m : NameMap) (val : Str) (source target t : List Str)
    → add_mapped_permissions zero m (val ∷ source) target ≢ some t
unfolding add_mapped_permissions
stopped m val source target t h = ground (arith, h)

ended :
    (fuel : ℕ) (m : NameMap) (target t : List Str)
    → add_mapped_permissions fuel m [] target ≡ some t
    → target ≡ t
unfolding add_mapped_permissions
ended zero m target t h = ground (arith, h)
ended (suc fuel) m target t h = ground (arith, h)

keeps :
    (fuel : ℕ) (m : NameMap) (source target t : List Str)
    → add_mapped_permissions fuel m source target ≡ some t
    → (p : Str) → mem_str p target ≡ true
    → mem_str p t ≡ true
keeps fuel m [] target t e p h = ground (arith, ended fuel m target t e, h)
keeps zero m (val ∷ source) target t e p h = absurd (stopped m val source target t e)
keeps (suc fuel) m (val ∷ source) target t e p h = elim (invert fuel m val source target t e) [
  | inl (missed, e') ↦ keeps (suc fuel) m source target t e' p h
  | inr (mapped, t1, found, e1, e2) ↦ keeps (suc fuel) m source t1 t e2 p (
      keeps fuel m (add_new mapped target).1 (add_new mapped target).0 t1 e1 p
        (add_new-keeps mapped target p h))
]

-- All values that the map gives for one permission are in the list.
closed_in : NameMap → List Str → Str → Bool
closed_in m t q = elim (lookup q m) [ none ↦ true | some vs ↦ all_mem vs t ]

closed_in-keeps :
    (m : NameMap) (t t' : List Str) (q : Str)
    → ((p : Str) → mem_str p t ≡ true → mem_str p t' ≡ true)
    → closed_in m t q ≡ true
    → closed_in m t' q ≡ true
unfolding closed_in
closed_in-keeps m t t' q k h = elim (Option-cases (lookup q m)) [
  | inl missed ↦ ground (arith, missed)
  | inr (vs, found) ↦ ground (arith, found, all_mem-keeps vs t t' k (ground (arith, found, h)))
]

abbrev IsHandled : NameMap → (source target t : List Str) → Str → Type 0
IsHandled m source target t q =
    (closed_in m t q ≡ true) ⊎ ((mem_str q target ≡ true) × (mem_str q source ≡ false))

-- The mapped values of a permission that the loop has passed are in the result.
passed :
    (fuel : ℕ) (m : NameMap) (val : Str) (source target mapped t1 t : List Str)
    → are_clean (mapped_values m) ≡ true
    → lookup val m ≡ some mapped
    → add_mapped_permissions fuel m (add_new mapped target).1 (add_new mapped target).0 ≡ some t1
    → add_mapped_permissions (suc fuel) m source t1 ≡ some t
    → closed_in m t val ≡ true
unfolding closed_in
passed fuel m val source target mapped t1 t c found e1 e2 =
    let has =
      all_mem-keeps mapped (add_new mapped target).0 t
        (λ p h.
          keeps (suc fuel) m source t1 t e2 p
            (keeps fuel m (add_new mapped target).1 (add_new mapped target).0 t1 e1 p h))
        (add_new-has mapped target (lookup-are_clean val m mapped c found)) in
    ground (arith, found, has)

-- What was there before the inner loop, but is not among the added values.
before :
    (m : NameMap) (val q : Str) (source target mapped : List Str)
    → are_clean (mapped_values m) ≡ true
    → lookup val m ≡ some mapped
    → mem_str q (add_new mapped target).0 ≡ true
    → mem_str q (add_new mapped target).1 ≡ false
    → mem_str q target ≡ true
before m val q source target mapped c found old other =
    elim (add_new-splits mapped target q (lookup-are_clean val m mapped c found) old) [
      | inl h ↦ h
      | inr h ↦ absurd (ground (arith, h, other))
    ]

closes :
    (fuel : ℕ) (m : NameMap) (source target t : List Str)
    → are_clean (mapped_values m) ≡ true
    → add_mapped_permissions fuel m source target ≡ some t
    → (q : Str) → mem_str q t ≡ true
    → IsHandled m source target t q
unfolding mem_str closed_in
closes fuel m [] target t c e q h = inr (ground (arith, ended fuel m target t e, h), refl)
closes zero m (val ∷ source) target t c e q h = absurd (stopped m val source target t e)
closes (suc fuel) m (val ∷ source) target t c e q h = elim (invert fuel m val source target t e) [
  | inl (missed, e') ↦ elim (closes (suc fuel) m source target t c e' q h) [
    | inl closed ↦ inl closed
    | inr (old, other) ↦ elim (Bool-cases (eq_str val q)) [
      | inl same ↦ inl (ground (arith, missed, ap (λ s. lookup s m) ((eq_str_iff val q).0 same)))
      | inr ne ↦ inr (old, ground (arith, other, ne))
    ]
  ]
  | inr (mapped, t1, found, e1, e2) ↦ elim (closes (suc fuel) m source t1 t c e2 q h) [
    | inl closed ↦ inl closed
    | inr (old, other) ↦
        elim (closes fuel m (add_new mapped target).1 (add_new mapped target).0 t1 c e1 q old) [
          | inl closed ↦ inl (closed_in-keeps m t1 t q (keeps (suc fuel) m source t1 t e2) closed)
          | inr (old', other') ↦ elim (Bool-cases (eq_str val q)) [
            | inl same ↦ inl (
                ap (closed_in m t) (sym ((eq_str_iff val q).0 same))
                ∙ passed fuel m val source target mapped t1 t c found e1 e2)
            | inr ne ↦
                inr (
                  before m val q source target mapped c found old' other',
                  ground (arith, other, ne),
                )
          ]
        ]
  ]
]

joined :
    {A B : Type 0} (m : NameMap) (granted : List Str) (q : Str)
    → A ⊎ B
    → (A → Derives m granted q)
    → (B → Derives m granted q)
    → Derives m granted q
joined m granted q (inl a) f g = f a
joined m granted q (inr b) f g = g b

-- The values of a permission that the result holds.
derives :
    (fuel : ℕ) (m : NameMap) (granted source target t : List Str)
    → add_mapped_permissions fuel m source target ≡ some t
    → are_clean (mapped_values m) ≡ true
    → ((p : Str) → mem_str p source ≡ true → Derives m granted p)
    → ((p : Str) → mem_str p target ≡ true → Derives m granted p)
    → (p : Str) → mem_str p t ≡ true
    → Derives m granted p
unfolding mem_str
derives fuel m granted [] target t e c s old p h =
    old p (ground (arith, ended fuel m target t e, h))
derives zero m granted (val ∷ source) target t e c s old p h =
    absurd (stopped m val source target t e)
derives (suc fuel) m granted (val ∷ source) target t e c s old p h =
    let s' = λ (q : Str) (k : mem_str q source ≡ true).
      s q (ground (arith, k, Bool-cases (eq_str val q))) in
    elim (invert fuel m val source target t e) [
      | inl (missed, e') ↦ derives (suc fuel) m granted source target t e' c s' old p h
      | inr (mapped, t1, found, e1, e2) ↦
          let from = λ (q : Str) (k : mem_str q (add_new mapped target).1 ≡ true).
            mapped_from val q mapped (s val (ground (arith, eq_str_refl val))) found
              (add_new-from mapped target q k) in
          let known = λ (q : Str) (k : mem_str q (add_new mapped target).0 ≡ true).
            joined m granted q
              (add_new-splits mapped target q (lookup-are_clean val m mapped c found) k) (old q)
              (from q) in
          derives (suc fuel) m granted source t1 t e2 c s'
            (derives fuel m granted (add_new mapped target).1 (add_new mapped target).0 t1 e1 c from
              known)
            p h
    ]

handled :
    (m : NameMap) (granted t : List Str) (p : Str)
    → IsHandled m granted granted t p
    → closed_in m t p ≡ true
handled m granted t p (inl closed) = closed
handled m granted t p (inr (here, gone)) = absurd (ground (arith, here, gone))

holds :
    (fuel : ℕ) (m : NameMap) (granted t : List Str)
    → are_clean (mapped_values m) ≡ true
    → add_mapped_permissions fuel m granted granted ≡ some t
    → (q : Str) → Derives m granted q
    → mem_str q t ≡ true
unfolding closed_in
holds fuel m granted t c e q (claimed _ h) = keeps fuel m granted granted t e q h
holds fuel m granted t c e q (mapped_from p _ vs d found h) =
    let closed =
      handled m granted t p
        (closes fuel m granted granted t c e p (holds fuel m granted t c e p d)) in
    all_mem-mem vs t q (ground (arith, closed, found)) h

-- With a permissions map whose values are not empty and have no space around them,
-- getGrantedPermissions returns, and the permissions that it grants are exactly those of the claims
-- and those that the map gives, in any number of steps, for a granted one.
pub get_granted_permissions_iff :
    (j : Jwt) (token_claims : ClaimMap) (m : NameMap)
    → j.permissions_map ≡ some m
    → are_clean (mapped_values m) ≡ true
    → (granted : List Str) × (get_granted_permissions j token_claims ≡ some granted)
      × ((p : Str) → (mem_str p granted ≡ true) ↔ Derives m (claimed_permissions j token_claims) p)
unfolding get_granted_permissions
get_granted_permissions_iff j token_claims m given c =
    let claimed_here = claimed_permissions j token_claims in
    let fuel = suc (length (mapped_values m)) in
    let (t, e, le) =
      total fuel m claimed_here claimed_here
        (inr (ground (arith, missing-le-length (mapped_values m) claimed_here))) in
    (
      t,
      ground (arith, given, e),
      λ p. (
        derives fuel m claimed_here claimed_here claimed_here t e c (λ q h. claimed q h)
            (λ q h. claimed q h) p,
        holds fuel m claimed_here t c e p,
      ),
    )

-- The recursion over the permissions map returns for every configuration and all claims, also if
-- the map leads from a permission back to itself: it is never deeper than one more than the number
-- of mapped values.
pub get_granted_permissions-ne_none :
    (j : Jwt) (token_claims : ClaimMap)
    → (granted : List Str) × (get_granted_permissions j token_claims ≡ some granted)
unfolding get_granted_permissions
get_granted_permissions-ne_none j token_claims = elim (Option-cases j.permissions_map) [
  | inl nil_map ↦ (claimed_permissions j token_claims, ground (arith, nil_map))
  | inr (m, given) ↦
      let claimed_here = claimed_permissions j token_claims in
      let (t, e, le) =
        total (suc (length (mapped_values m))) m claimed_here claimed_here
          (inr (ground (arith, missing-le-length (mapped_values m) claimed_here))) in
      (t, ground (arith, given, e))
]
