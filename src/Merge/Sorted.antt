-- ===== src/Merge/Sorted.antt =====
-- getSortedMapKeys of config/configload/merge.go, and the values of a map in this order.
use couper.Base.{
  ◌≡◌, ap, ◌∙◌, sym, inl, inr, ◌⊎◌, ◌↔◌, List, [], ◌∷◌, Option, none, some, Str, eq_str, eq_str_iff,
  less_str, lookup, In, arith, if◌then◌else◌, Bool-cases,
}

-- sort.Strings, as an insertion sort.
unfoldable pub insert_string : Str → List Str → List Str
insert_string s [] = s ∷ []
insert_string s (t ∷ ts) =
    let rest = insert_string s ts in if less_str t s then t ∷ rest else s ∷ t ∷ ts

unfoldable pub sort_strings : List Str → List Str
unfolding insert_string less_str
sort_strings [] = []
sort_strings (s ∷ ss) = insert_string s (sort_strings ss)

module _ {A : Type 0} where
  unfoldable pub keys : List (Str × A) → List Str
  keys [] = []
  keys ((k, a) ∷ m) = k ∷ keys m

  unfoldable pub get_sorted_map_keys : List (Str × A) → List Str
  unfolding keys sort_strings
  get_sorted_map_keys m = sort_strings (keys m)

  abbrev pub add_found : Option A → List A → List A
  add_found none rest = rest
  add_found (some a) rest = a ∷ rest

  -- A range over keys, each of which is looked up.
  unfoldable pub values_at : List Str → List (Str × A) → List A
  values_at [] m = []
  values_at (k ∷ ks) m = add_found (lookup k m) (values_at ks m)

  abbrev pub sorted_values : List (Str × A) → List A
  sorted_values m = values_at (get_sorted_map_keys m) m

  lookup-keys : (k : Str) (a : A) (m : List (Str × A)) → lookup k m ≡ some a → In k (keys m)
  unfolding lookup keys
  lookup-keys k a [] h = absurd (ground (arith, h))
  lookup-keys k a ((j, b) ∷ m) h = elim (Bool-cases (eq_str j k)) [
    | inl e ↦ inl (sym ((eq_str_iff j k).0 e))
    | inr ne ↦ inr (lookup-keys k a m (ground (arith, h, ne)))
  ]

insert_string-In : (k s : Str) (ts : List Str) → (k ≡ s) ⊎ In k ts → In k (insert_string s ts)
unfolding insert_string
insert_string-In k s [] h = h
insert_string-In k s (t ∷ ts) h = elim (Bool-cases (less_str t s)) [
  | inr f ↦ rw f h
  | inl l ↦ rw l (elim h [
    | inl e ↦ inr (insert_string-In k s ts (inl e))
    | inr (inl e) ↦ inl e
    | inr (inr at) ↦ inr (insert_string-In k s ts (inr at))
  ])
]

sort_strings-In : (k : Str) (ss : List Str) → In k ss → In k (sort_strings ss)
unfolding sort_strings
sort_strings-In k [] h = h
sort_strings-In k (s ∷ ss) (inl e) = insert_string-In k s (sort_strings ss) (inl e)
sort_strings-In k (s ∷ ss) (inr at) =
    insert_string-In k s (sort_strings ss) (inr (sort_strings-In k ss at))

module _ {A : Type 0} where
  add_found-In :
      (a : A) (o : Option A) (rest : List A) → In a (add_found o rest) ↔ ((o ≡ some a) ⊎ In a rest)
  add_found-In a none rest = (
    inr,
    λ (h : (none ≡ some a) ⊎ In a rest). elim h [
      | inl e ↦ absurd (ground (arith, e))
      | inr at ↦ at
    ],
  )
  add_found-In a (some b) rest = (
    λ (h : (a ≡ b) ⊎ In a rest). elim h [ inl e ↦ inl (ap some (sym e)) | inr at ↦ inr at ],
    λ (h : (some b ≡ some a) ⊎ In a rest). elim h [
      | inl e ↦ inl (ground (arith, e))
      | inr at ↦ inr at
    ],
  )

  values_at-In :
      (k : Str) (a : A) (ks : List Str) (m : List (Str × A))
      → In k ks
      → lookup k m ≡ some a
      → In a (values_at ks m)
  unfolding values_at
  values_at-In k a [] m h e = elim h [ ]
  values_at-In k a (j ∷ ks) m (inl same) e =
      (add_found-In a (lookup j m) (values_at ks m)).1 (inl (ap (λ s. lookup s m) (sym same) ∙ e))
  values_at-In k a (j ∷ ks) m (inr at) e =
      (add_found-In a (lookup j m) (values_at ks m)).1 (inr (values_at-In k a ks m at e))

  values_at-lookup :
      (a : A) (ks : List Str) (m : List (Str × A))
      → In a (values_at ks m)
      → (k : Str) × (lookup k m ≡ some a)
  unfolding values_at
  values_at-lookup a [] m h = elim h [ ]
  values_at-lookup a (j ∷ ks) m h = elim ((add_found-In a (lookup j m) (values_at ks m)).0 h) [
    | inl e ↦ (j, e)
    | inr at ↦ values_at-lookup a ks m at
  ]

  pub sorted_values_iff :
      (a : A) (m : List (Str × A)) → In a (sorted_values m) ↔ ((k : Str) × (lookup k m ≡ some a))
  unfolding get_sorted_map_keys
  sorted_values_iff a m = (
    values_at-lookup a (get_sorted_map_keys m) m,
    λ (k, e).
        values_at-In k a (get_sorted_map_keys m) m
          (sort_strings-In k (keys m) (lookup-keys k a m e)) e,
  )
