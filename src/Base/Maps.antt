-- ===== src/Base/Maps.antt =====
-- Go's maps with string keys, as association lists. The order of a list stands for one order in
-- which a range statement may visit the keys.
use couper.Base.Strings.{Str, eq_str, eq_str_iff}
use couper.Base.Tests.{if◌then◌else◌}
use mathlib.Core.Bool.{false}
use mathlib.Core.List.{List, [], ◌∷◌}
use mathlib.Core.Option.{Option, none, some}
use mathlib.Core.Path.{◌≡◌, refl}
use native.Mathlib.Omega.{arith}

module _ {ℓ} {V : Type ℓ} where
  unfoldable pub lookup : Str → List (Str × V) → Option V
  lookup k [] = none
  lookup k ((j, v) ∷ m) = if eq_str j k then some v else lookup k m

  unfoldable pub insert : Str → V → List (Str × V) → List (Str × V)
  insert k v [] = (k, v) ∷ []
  insert k v ((j, w) ∷ m) = if eq_str j k then (k, v) ∷ m else (j, w) ∷ insert k v m

  unfoldable pub delete : Str → List (Str × V) → List (Str × V)
  delete k [] = []
  delete k ((j, w) ∷ m) = if eq_str j k then delete k m else (j, w) ∷ delete k m

  pub lookup-insert :
      (k j : Str) (v : V) (m : List (Str × V))
      → lookup j (insert k v m) ≡ (if eq_str k j then some v else lookup j m)
  unfolding lookup insert
  lookup-insert k j v [] = refl
  lookup-insert k j v ((i, w) ∷ m) =
      ground (arith, eq_str_iff k j, eq_str_iff i k, eq_str_iff i j, lookup-insert k j v m)

  pub lookup-delete :
      (k j : Str) (m : List (Str × V))
      → lookup j (delete k m) ≡ (if eq_str k j then none else lookup j m)
  unfolding lookup delete
  lookup-delete k j [] = ground arith
  lookup-delete k j ((i, w) ∷ m) =
      ground (arith, eq_str_iff k j, eq_str_iff i k, eq_str_iff i j, lookup-delete k j m)

  -- No key stands twice, as in a map.
  abbrev pub IsAbsent : Str → List (Str × V) → Type 0
  IsAbsent k [] = Unit
  IsAbsent k ((j, w) ∷ m) = (eq_str j k ≡ false) × IsAbsent k m

  abbrev pub HasDistinctKeys : List (Str × V) → Type 0
  HasDistinctKeys [] = Unit
  HasDistinctKeys ((j, w) ∷ m) = IsAbsent j m × HasDistinctKeys m

  pub lookup-IsAbsent : (k : Str) (m : List (Str × V)) → IsAbsent k m → lookup k m ≡ none
  unfolding lookup
  lookup-IsAbsent k [] h = refl
  lookup-IsAbsent k ((j, w) ∷ m) h = ground (arith, lookup-IsAbsent k m)

  insert-IsAbsent :
      (k j : Str) (v : V) (m : List (Str × V))
      → eq_str k j ≡ false
      → IsAbsent j m
      → IsAbsent j (insert k v m)
  unfolding insert
  insert-IsAbsent k j v [] ne h = (ne, tt)
  insert-IsAbsent k j v ((i, w) ∷ m) ne h = ground (arith, insert-IsAbsent k j v m ne)

  pub insert-HasDistinctKeys :
      (k : Str) (v : V) (m : List (Str × V)) → HasDistinctKeys m → HasDistinctKeys (insert k v m)
  unfolding insert
  insert-HasDistinctKeys k v [] h = (tt, tt)
  insert-HasDistinctKeys k v ((j, w) ∷ m) h =
      ground (
        arith,
        eq_str_iff j k,
        eq_str_iff k j,
        insert-IsAbsent k j v m,
        insert-HasDistinctKeys k v m,
      )

  delete-IsAbsent : (k j : Str) (m : List (Str × V)) → IsAbsent j m → IsAbsent j (delete k m)
  unfolding delete
  delete-IsAbsent k j [] h = tt
  delete-IsAbsent k j ((i, w) ∷ m) h = ground (arith, delete-IsAbsent k j m)

  pub delete-HasDistinctKeys :
      (k : Str) (m : List (Str × V)) → HasDistinctKeys m → HasDistinctKeys (delete k m)
  unfolding delete
  delete-HasDistinctKeys k [] h = tt
  delete-HasDistinctKeys k ((j, w) ∷ m) h =
      ground (arith, delete-IsAbsent k j m, delete-HasDistinctKeys k m)
