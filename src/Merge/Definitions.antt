-- ===== src/Merge/Definitions.antt =====
-- mergeDefinitions and mergeSettings of config/configload/merge.go. A file is the list of its blocks.
use couper.Base.{
  ℕ, ltb, List, [], ◌∷◌, ◌++◌, none, some, Str, codes, eq_str, lookup, insert, delete, Result, ok,
  err, if◌then◌else◌,
}
use couper.Merge.{
  Block, block, Blocks, no_blocks, and_block, of_list, MergeError, multiple_backends, Failure,
  raised, index_panic,
}
use couper.Merge.Sorted.{sorted_values}
use couper.Merge.Backends.{
  backend, with_attribute, add_backend, check_in_backend, check_for_multiple_backends,
}

abbrev pub and_then :
    {A : Type 0} → Result MergeError (Unit {0}) → Result MergeError A → Result MergeError A
and_then (err e) r = err e
and_then (ok _) r = r

abbrev pub checked :
    {A : Type 0} → Result MergeError (Unit {0}) → Result Failure A → Result Failure A
checked (err e) r = err (raised e)
checked (ok _) r = r

pub record Definitions (V : Type 0) : Type 0 where
  pub definitions_block : List (Str × List (Str × Block V))
  pub proxies_list : List (Str × Block V)

module _ {V : Type 0} where
  -- The loop that counts the backends of a definition.
  unfoldable pub count_inner : Blocks V → Result MergeError ℕ
  count_inner no_blocks = ok 0
  count_inner (and_block (block t l a bs) rest) =
      if eq_str t (codes "error_handler")
      then and_then (check_for_multiple_backends bs) (count_inner rest)
      else if eq_str t backend
      then add_backend (check_in_backend bs) (count_inner rest)
      else count_inner rest

  abbrev pub at_most_one : Str → List (Str × V) → Result MergeError ℕ → Result MergeError (Unit {0})
  at_most_one t a (err e) = err e
  at_most_one t a (ok n) = if ltb 1 (with_attribute a n) then err (multiple_backends t) else ok tt

  unfoldable pub check_inner : Block V → Result MergeError (Unit {0})
  unfolding count_inner
  check_inner (block t l a bs) =
      and_then (if eq_str t backend then check_in_backend bs else ok tt)
        (at_most_one t a (count_inner bs))

  abbrev pub labelled : Str → List (Str × List (Str × Block V)) → List (Str × Block V)
  labelled t m = elim (lookup t m) [ none ↦ [] | some n ↦ n ]

  -- What a proxy is renamed to.
  unfoldable pub proxy_name :
      (attr_string_value : V → Result MergeError Str) → List (Str × V) → Result MergeError Str
  proxy_name attr_string_value a = elim (lookup (codes "name") a) [
    | none ↦ ok (codes "default")
    | some attr ↦ attr_string_value attr
  ]

  unfoldable pub add_inner :
      (attr_string_value : V → Result MergeError Str)
      → Block V
      → Definitions V
      → Result Failure (Definitions V)
  unfolding proxy_name
  add_inner attr_string_value (block t [] a bs) d = err index_panic
  add_inner attr_string_value (block t (label ∷ ls) a bs) d =
      if eq_str t (codes "proxy")
      then elim (proxy_name attr_string_value a) [
        | err e ↦ err (raised e)
        | ok name ↦ ok (record {
          definitions_block = insert t (labelled t d.definitions_block) d.definitions_block;
          proxies_list =
              insert label (block t (name ∷ ls) (delete (codes "name") a) bs) d.proxies_list;
        })
      ]
      else ok (record d {
        definitions_block =
            insert t (insert label (block t (label ∷ ls) a bs) (labelled t d.definitions_block))
              d.definitions_block;
      })

  unfoldable pub merge_inner :
      (attr_string_value : V → Result MergeError Str)
      → Blocks V
      → Definitions V
      → Result Failure (Definitions V)
  unfolding check_inner add_inner
  merge_inner attr_string_value no_blocks d = ok d
  merge_inner attr_string_value (and_block b bs) d =
      elim (checked (check_inner b) (add_inner attr_string_value b d)) [
        | err e ↦ err e
        | ok d' ↦ merge_inner attr_string_value bs d'
      ]

  unfoldable pub merge_outer :
      (attr_string_value : V → Result MergeError Str)
      → Blocks V
      → Definitions V
      → Result Failure (Definitions V)
  unfolding merge_inner
  merge_outer attr_string_value no_blocks d = ok d
  merge_outer attr_string_value (and_block (block t l a bs) rest) d =
      elim (if eq_str t (codes "definitions") then merge_inner attr_string_value bs d else ok d) [
        | err e ↦ err e
        | ok d' ↦ merge_outer attr_string_value rest d'
      ]

  unfoldable pub merge_bodies :
      (attr_string_value : V → Result MergeError Str)
      → List (Blocks V)
      → Definitions V
      → Result Failure (Definitions V)
  unfolding merge_outer
  merge_bodies attr_string_value [] d = ok d
  merge_bodies attr_string_value (body ∷ bodies) d = elim (merge_outer attr_string_value body d) [
    | err e ↦ err e
    | ok d' ↦ merge_bodies attr_string_value bodies d'
  ]

  unfoldable pub concat_blocks : List (List (Block V)) → List (Block V)
  concat_blocks [] = []
  concat_blocks (bs ∷ rest) = bs ++ concat_blocks rest

  unfoldable pub sorted_each : List (List (Str × Block V)) → List (List (Block V))
  sorted_each [] = []
  sorted_each (m ∷ ms) = sorted_values m ∷ sorted_each ms

  -- The blocks by type and label.
  unfoldable pub definitions_of : Definitions V → Block V
  unfolding concat_blocks sorted_each
  definitions_of d =
      block (codes "definitions") [] []
        (of_list (concat_blocks (sorted_each (sorted_values d.definitions_block))))

  unfoldable pub merge_definitions :
      (attr_string_value : V → Result MergeError Str)
      → List (Blocks V)
      → Result Failure (Block V × List (Str × Block V))
  unfolding merge_bodies definitions_of
  merge_definitions attr_string_value bodies =
      elim (merge_bodies attr_string_value bodies
        (record { definitions_block = []; proxies_list = [] })) [
          | err e ↦ err e
          | ok d ↦ ok (definitions_of d, d.proxies_list)
        ]

  -- A range over the attributes of a block.
  unfoldable pub set_attributes : List (Str × V) → List (Str × V) → List (Str × V)
  set_attributes [] attrs = attrs
  set_attributes ((name, attr) ∷ a) attrs = set_attributes a (insert name attr attrs)

  unfoldable pub settings_in : Blocks V → List (Str × V) → List (Str × V)
  unfolding set_attributes
  settings_in no_blocks attrs = attrs
  settings_in (and_block (block t l a bs) rest) attrs =
      settings_in rest (if eq_str t (codes "settings") then set_attributes a attrs else attrs)

  unfoldable pub settings_of : List (Blocks V) → List (Str × V) → List (Str × V)
  unfolding settings_in
  settings_of [] attrs = attrs
  settings_of (body ∷ bodies) attrs = settings_of bodies (settings_in body attrs)

  unfoldable pub merge_settings : List (Blocks V) → Block V
  unfolding settings_of
  merge_settings bodies = block (codes "settings") [] (settings_of bodies []) no_blocks
