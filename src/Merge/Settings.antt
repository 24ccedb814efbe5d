-- ===== src/Merge/Settings.antt =====
-- The attributes of mergeSettings.
use couper.Base.{
  ◌≡◌, refl, ap, ◌∙◌, sym, Bool, true, false, List, [], ◌∷◌, ◌++◌, Option, none, some, Str, codes,
  eq_str, lookup, insert, lookup-insert, arith, Bool-cases, if◌then◌else◌,
}
use couper.Merge.{
  block, Blocks, no_blocks, and_block, attributes, or_else, or_else-none, or_else_assoc,
}
use couper.Merge.Definitions.{set_attributes, settings_in, settings_of, merge_settings}

module _ {V : Type 0} where
  -- The last value of a name.
  unfoldable pub last_value : Str → List (Str × V) → Option V
  last_value name [] = none
  last_value name ((n, v) ∷ a) =
      or_else (last_value name a) (if eq_str n name then some v else none)

  pub last_value-append :
      (name : Str) (a b : List (Str × V))
      → last_value name (a ++ b) ≡ or_else (last_value name b) (last_value name a)
  unfolding last_value
  last_value-append name [] b = sym (or_else-none (last_value name b))
  last_value-append name ((n, v) ∷ a) b =
      ap (λ o. or_else o (if eq_str n name then some v else none)) (last_value-append name a b)
      ∙ or_else_assoc (last_value name b) (last_value name a)
          (if eq_str n name then some v else none)

  pub lookup-set_attributes :
      (name : Str) (a m : List (Str × V))
      → lookup name (set_attributes a m) ≡ or_else (last_value name a) (lookup name m)
  unfolding set_attributes last_value
  lookup-set_attributes name [] m = refl
  lookup-set_attributes name ((n, v) ∷ a) m =
      lookup-set_attributes name a (insert n v m)
      ∙ ap (or_else (last_value name a))
          (lookup-insert n name v m ∙ ground (arith, Bool-cases (eq_str n name)))
      ∙ sym (
          or_else_assoc (last_value name a) (if eq_str n name then some v else none)
            (lookup name m))

  -- The attributes of the settings blocks of all files.
  unfoldable pub settings_attributes : Blocks V → List (Str × V)
  settings_attributes no_blocks = []
  settings_attributes (and_block (block t l a bs) rest) =
      (if eq_str t (codes "settings") then a else []) ++ settings_attributes rest

  unfoldable pub all_settings : List (Blocks V) → List (Str × V)
  unfolding settings_attributes
  all_settings [] = []
  all_settings (body ∷ bodies) = settings_attributes body ++ all_settings bodies

  lookup-either :
      (name : Str) (b : Bool) (a m : List (Str × V))
      → lookup name (if b then set_attributes a m else m)
        ≡ or_else (last_value name (if b then a else [])) (lookup name m)
  unfolding last_value
  lookup-either name true a m = lookup-set_attributes name a m
  lookup-either name false a m = refl

  lookup-settings_in :
      (name : Str) (bs : Blocks V) (m : List (Str × V))
      → lookup name (settings_in bs m)
        ≡ or_else (last_value name (settings_attributes bs)) (lookup name m)
  unfolding settings_in settings_attributes last_value
  lookup-settings_in name no_blocks m = refl
  lookup-settings_in name (and_block (block t l a bs) rest) m =
      let b = eq_str t (codes "settings") in
      lookup-settings_in name rest (if b then set_attributes a m else m)
      ∙ ap (or_else (last_value name (settings_attributes rest))) (lookup-either name b a m)
      ∙ sym (
          or_else_assoc (last_value name (settings_attributes rest))
            (last_value name (if b then a else [])) (lookup name m))
      ∙ ap (λ o. or_else o (lookup name m))
          (sym (last_value-append name (if b then a else []) (settings_attributes rest)))

  lookup-settings_of :
      (name : Str) (bodies : List (Blocks V)) (m : List (Str × V))
      → lookup name (settings_of bodies m)
        ≡ or_else (last_value name (all_settings bodies)) (lookup name m)
  unfolding settings_of all_settings last_value
  lookup-settings_of name [] m = refl
  lookup-settings_of name (body ∷ bodies) m =
      lookup-settings_of name bodies (settings_in body m)
      ∙ ap (or_else (last_value name (all_settings bodies))) (lookup-settings_in name body m)
      ∙ sym (
          or_else_assoc (last_value name (all_settings bodies))
            (last_value name (settings_attributes body)) (lookup name m))
      ∙ ap (λ o. or_else o (lookup name m))
          (sym (last_value-append name (settings_attributes body) (all_settings bodies)))

  -- The settings hold for each name the last value in the order of the files, and no other name.
  pub lookup-merge_settings :
      (name : Str) (bodies : List (Blocks V))
      → lookup name (attributes (merge_settings bodies)) ≡ last_value name (all_settings bodies)
  unfolding merge_settings lookup
  lookup-merge_settings name bodies =
      lookup-settings_of name bodies [] ∙ or_else-none (last_value name (all_settings bodies))
