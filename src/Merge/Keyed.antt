-- ===== src/Merge/Keyed.antt =====
-- Servers that stand under their labels, and the attributes that they get.
use couper.Base.{
  ◌≡◌, refl, ap, ◌∙◌, sym, inl, inr, Bool, true, false, List, [], ◌++◌, Option, none, some, Str,
  eq_str, eq_str_iff, lookup, insert, lookup-insert, Result, ok, err, Bool-cases, arith,
  if◌then◌else◌,
}
use mathlib.Core.Path.{subst}
use couper.Merge.{Block, MergeError, attributes, or_else, or_else_assoc}
use couper.Merge.Definitions.{set_attributes}
use couper.Merge.Settings.{last_value, last_value-append, lookup-set_attributes}
use couper.Merge.Parts.{Server, first_label, or_new, new_server}

module _ {V : Type 0} where
  abbrev pub own : Option (Server V) → List (Str × V)
  own none = []
  own (some s) = s.own_attributes

  abbrev pub attributes_at : Str → List (Str × Server V) → List (Str × V)
  attributes_at label results = own (lookup label results)

  -- Each server stands under its own label.
  abbrev pub IsKeyed : List (Str × Server V) → Type 0
  IsKeyed results =
      (label : Str) (s : Server V)
      → lookup label results ≡ some s
      → first_label s.own_labels ≡ label

  abbrev pub IsSame : Server V → Server V → Type 0
  IsSame s t = (t.own_attributes ≡ s.own_attributes) × (t.own_labels ≡ s.own_labels)

  abbrev pub store :
      {A : Type 0} → Result MergeError A → (A → Server V) → Result MergeError (Server V)
  store r f = elim r [ err e ↦ err e | ok m ↦ ok (f m) ]

  -- A step that changes another field.
  pub changed :
      {A : Type 0} (s t : Server V) (r : Result MergeError A) (f : A → Server V)
      → ((a : A) → IsSame s (f a))
      → store r f ≡ ok t
      → IsSame s t
  changed s t (err e) f h k = absurd (ground (arith, k))
  changed s t (ok a) f h k = let e : f a ≡ t = ground (arith, k) in subst (IsSame s) e (h a)

  -- The server under a label, or a new one.
  pub old-IsKeyed :
      (label : Str) (ls : List Str) (results : List (Str × Server V)) (o : Option (Server V))
      → IsKeyed results
      → first_label ls ≡ label
      → lookup label results ≡ o
      → (first_label (or_new o (new_server ls)).own_labels ≡ label)
        × (own o ≡ (or_new o (new_server ls)).own_attributes)
  old-IsKeyed label ls results none keyed first h = (first, refl)
  old-IsKeyed label ls results (some s) keyed first h = (keyed label s h, refl)

  pub insert-IsKeyed :
      (key : Str) (s' : Server V) (results : List (Str × Server V))
      → IsKeyed results
      → first_label s'.own_labels ≡ key
      → IsKeyed (insert key s' results)
  insert-IsKeyed key s' results keyed first label s h = elim (Bool-cases (eq_str key label)) [
    | inl e ↦
        let same : s' ≡ s = ground (arith, h, e, lookup-insert key label s' results) in
        ap (λ (t : Server V). first_label t.own_labels) (sym same)
        ∙ first
        ∙ (eq_str_iff key label).0 e
    | inr ne ↦ keyed label s (ground (arith, h, ne, lookup-insert key label s' results))
  ]

  abbrev pub if_at : Bool → List (Str × V) → List (Str × V)
  if_at p a = if p then a else []

  pub insert-attributes :
      (key : Str) (b : Block V) (s' : Server V) (results : List (Str × Server V)) (label name : Str)
      → s'.own_attributes ≡ set_attributes (attributes b) (attributes_at key results)
      → lookup name (attributes_at label (insert key s' results))
        ≡ or_else
            (last_value name (if_at (eq_str key label) (attributes b)))
            (lookup name (attributes_at label results))
  unfolding last_value
  insert-attributes key b s' results label name e =
      ap (λ o. lookup name (own o)) (lookup-insert key label s' results)
      ∙ elim (Bool-cases (eq_str key label)) [
        | inl same ↦ ground (
          arith,
          same,
          ap (lookup name) e,
          lookup-set_attributes name (attributes b) (attributes_at key results),
          ap (λ k. lookup name (attributes_at k results)) ((eq_str_iff key label).0 same),
        )
        | inr ne ↦ ground (arith, ne)
      ]

  pub joined :
      (name : Str) (a b : List (Str × V)) (z : Option V) {x y : Option V}
      → x ≡ or_else (last_value name b) y
      → y ≡ or_else (last_value name a) z
      → x ≡ or_else (last_value name (a ++ b)) z
  joined name a b z h k =
      h
      ∙ ap (or_else (last_value name b)) k
      ∙ sym (or_else_assoc (last_value name b) (last_value name a) z)
      ∙ ap (λ o. or_else o z) (sym (last_value-append name a b))

  abbrev pub ok_server : Server V → Result MergeError (Server V)
  ok_server s = ok s

  pub put : (s t s' : Server V) → IsSame s s' → ok_server s' ≡ ok t → IsSame s t
  put s t s' same k = let e : s' ≡ t = ground (arith, k) in subst (IsSame s) e same

  pub either :
      {P : Type 0} {x y : Result MergeError (Server V)} (b : Bool) (t : Server V)
      → (x ≡ ok t → P)
      → (y ≡ ok t → P)
      → (if b then x else y) ≡ ok t
      → P
  either true t f g h = f h
  either false t f g h = g h
