-- ===== src/Access/Jwt/Mapped.antt =====
-- The recursion over the permissions map ends, and what it finds.
use couper.Base.{
  mem_str-append, all_mem, all_mem-append_left, all_mem-append_right, all_mem_refl, ℕ, zero, suc,
  ◌≤◌, ◌<◌, ◌≡◌, refl, ◌∙◌, inl, inr, ◌⊎◌, Bool, true, false, not, ◌&&◌, List, [], ◌∷◌, ◌++◌,
  Option, none, some, arith, Str, eq_str, eq_str_iff, eq_str_refl, mem_str, trim_space, lookup,
  length, Bool-cases, Option-cases, if◌then◌else◌,
}
use couper.Access.Jwt.{NameMap, add_permission, add_new, add_mapped_permissions, mapped_values}

-- A value that would be added.
unfoldable pub is_new : Str → List Str → Bool
is_new v t = not (eq_str (trim_space v) []) && not (mem_str (trim_space v) t)

pub add_permission_lem :
    (t : List Str) (v : Str)
    → add_permission t v ≡ (if is_new v t then (t ++ (trim_space v ∷ []), true) else (t, false))
unfolding add_permission is_new
add_permission_lem t v = ground arith

-- Nothing is lost.
pub add_permission-keeps :
    (t : List Str) (v p : Str) → mem_str p t ≡ true → mem_str p (add_permission t v).0 ≡ true
add_permission-keeps t v p h =
    ground (arith, h, add_permission_lem t v, mem_str-append p t (trim_space v ∷ []))

pub add_permission-has :
    (t : List Str) (v : Str)
    → eq_str (trim_space v) [] ≡ false
    → mem_str (trim_space v) (add_permission t v).0 ≡ true
unfolding is_new mem_str
add_permission-has t v h = ground (
  arith,
  h,
  add_permission_lem t v,
  mem_str-append (trim_space v) t (trim_space v ∷ []),
  eq_str_refl (trim_space v),
)

-- The values that are still to be added, counted as often as they stand in the list.
pub missing : List Str → List Str → ℕ
missing [] t = 0
missing (v ∷ vs) t = let n = missing vs t in if is_new v t then suc n else n

is_new-add : (t : List Str) (v u : Str) → is_new u (add_permission t v).0 ≡ true → is_new u t ≡ true
unfolding is_new
is_new-add t v u h =
    ground
      (arith, h, add_permission-keeps t v (trim_space u), Bool-cases (mem_str (trim_space u) t))

missing-add : (us t : List Str) (v : Str) → missing us (add_permission t v).0 ≤ missing us t
unfolding missing
missing-add [] t v = omega arith
missing-add (u ∷ us) t v = ground (arith, missing-add us t v, is_new-add t v u)

added_once : (t : List Str) (v : Str) → is_new v (add_permission t v).0 ≡ false
unfolding is_new
added_once t v = ground (arith, add_permission-has t v)

missing-add_lt :
    (us t : List Str) (v : Str)
    → mem_str v us ≡ true
    → is_new v t ≡ true
    → missing us (add_permission t v).0 < missing us t
unfolding missing mem_str
missing-add_lt [] t v h new = ground (arith, h)
missing-add_lt (u ∷ us) t v h new = ground (
  arith,
  h,
  new,
  missing-add us t v,
  missing-add_lt us t v,
  added_once t v,
  is_new-add t v u,
  eq_str_iff u v,
)

add_new-missing :
    (us vs t : List Str)
    → all_mem vs us ≡ true
    → (missing us (add_new vs t).0 ≤ missing us t)
      × (((add_new vs t).1 ≡ []) ⊎ (missing us (add_new vs t).0 < missing us t))
unfolding add_new all_mem
add_new-missing us [] t h = (omega arith, inl refl)
add_new-missing us (v ∷ vs) t h =
    let (le, lt) = add_new-missing us vs (add_permission t v).0 (ground (arith, h)) in
    (
      omega (arith, le, missing-add us t v),
      elim (Bool-cases (is_new v t)) [
        | inl new ↦ inr (omega (arith, le, missing-add_lt us t v (ground (arith, h)) new))
        | inr old ↦ elim lt [
          | inl e ↦ inl (ground (arith, e, old, add_permission_lem t v))
          | inr l ↦ inr (omega (arith, l, missing-add us t v))
        ]
      ],
    )

pub lookup-all_mem :
    (k : Str) (m : NameMap) (vs : List Str)
    → lookup k m ≡ some vs
    → all_mem vs (mapped_values m) ≡ true
unfolding lookup mapped_values
lookup-all_mem k [] vs h = ground (arith, h)
lookup-all_mem k ((j, ws) ∷ m) vs h = ground (
  arith,
  h,
  all_mem-append_left vs ws (mapped_values m),
  all_mem_refl vs,
  all_mem-append_right vs ws (mapped_values m),
  lookup-all_mem k m vs,
  Bool-cases (eq_str j k),
)

step_none :
    (fuel : ℕ) (m : NameMap) (val : Str) (source target : List Str)
    → lookup val m ≡ none
    → add_mapped_permissions (suc fuel) m (val ∷ source) target
      ≡ add_mapped_permissions (suc fuel) m source target
unfolding add_mapped_permissions
step_none fuel m val source target h = ground (arith, h)

step_some :
    (fuel : ℕ) (m : NameMap) (val : Str) (source target mapped t : List Str)
    → lookup val m ≡ some mapped
    → add_mapped_permissions fuel m (add_new mapped target).1 (add_new mapped target).0 ≡ some t
    → add_mapped_permissions (suc fuel) m (val ∷ source) target
      ≡ add_mapped_permissions (suc fuel) m source t
unfolding add_mapped_permissions
step_some fuel m val source target mapped t h e = ground (arith, h, e)

abbrev pub Returns : NameMap → List Str → Option (List Str) → Type 0
Returns m target r =
    (t : List Str) × (r ≡ some t) × (missing (mapped_values m) t ≤ missing (mapped_values m) target)

-- With fuel for the values that are missing, the recursion returns.
pub total :
    (fuel : ℕ) (m : NameMap) (source target : List Str)
    → (source ≡ []) ⊎ (missing (mapped_values m) target < fuel)
    → Returns m target (add_mapped_permissions fuel m source target)
unfolding add_mapped_permissions
total fuel m [] target h = (target, refl, omega arith)
total zero m (val ∷ source) target (inl e) = absurd (cc)
total zero m (val ∷ source) target (inr h) = absurd (omega arith)
total (suc fuel) m (val ∷ source) target (inl e) = absurd (cc)
total (suc fuel) m (val ∷ source) target (inr h) = elim (Option-cases (lookup val m)) [
  | inl missed ↦
      let (t, e, le) = total (suc fuel) m source target (inr h) in
      (t, step_none fuel m val source target missed ∙ e, le)
  | inr (mapped, found) ↦
      let us = mapped_values m in
      let (le, lt) = add_new-missing us mapped target (lookup-all_mem val m mapped found) in
      let (t1, e1, le1) =
        total fuel m (add_new mapped target).1 (add_new mapped target).0
          (elim lt [ inl e ↦ inl e | inr l ↦ inr (omega (arith, l, h)) ]) in
      let (t2, e2, le2) = total (suc fuel) m source t1 (inr (omega (arith, le1, le, h))) in
      (t2, step_some fuel m val source target mapped t1 found e1 ∙ e2, omega (arith, le2, le1, le))
]

pub missing-le-length : (us t : List Str) → missing us t ≤ length us
unfolding missing
missing-le-length [] t = omega arith
missing-le-length (u ∷ us) t = ground (arith, missing-le-length us t, Bool-cases (is_new u t))
