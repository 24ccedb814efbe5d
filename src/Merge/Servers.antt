-- ===== src/Merge/Servers.antt =====
-- mergeServers of config/configload/merge.go: the maps that it fills, and the blocks that it makes of
-- them. An address is that of a place: the server block in its file, and the block in it.
use couper.Base.{
  ℕ, suc, Bool, true, false, List, [], ◌∷◌, ◌++◌, Option, none, some, Str, codes, eq_str, lookup,
  insert, Result, ok, err, if◌then◌else◌,
}
use couper.Merge.{
  Block, block, Blocks, no_blocks, and_block, of_list, MergeError, type_of, labels, attributes,
  blocks,
}
use couper.Merge.Sorted.{sorted_values}
use couper.Merge.Definitions.{and_then, concat_blocks, set_attributes}
use couper.Merge.Parts.{
  Group, Api, Tls, Server, first_label, check_unique, key_of, or_new, new_server, add_block,
}

module _ {V : Type 0} (attr_string_value : V → Result MergeError Str)
    (proxies : List (Str × Block V)) (several : Bool) (address : ℕ → ℕ → Str) where
  unfoldable pub add_blocks : (i j : ℕ) → Blocks V → Server V → Result MergeError (Server V)
  unfolding add_block
  add_blocks i j no_blocks s = ok s
  add_blocks i j (and_block b rest) s =
      elim (add_block attr_string_value proxies several (address i j) b s) [
        | err e ↦ err e
        | ok s' ↦ add_blocks i (suc j) rest s'
      ]

  -- One server block, the one numbered `i` of its file.
  unfoldable pub add_server :
      (i : ℕ) → Block V → List (Str × Server V) → Result MergeError (List (Str × Server V))
  unfolding key_of add_blocks set_attributes
  add_server i b results =
      let key = key_of several (address i 0) (labels b) in
      let s = or_new (lookup key results) (new_server (labels b)) in
      elim (add_blocks i 1 (blocks b)
        (record s { own_attributes = set_attributes (attributes b) s.own_attributes })) [
          | err e ↦ err e
          | ok s' ↦ ok (insert key s' results)
        ]

  unfoldable pub add_file :
      (i : ℕ) (seen : List Str)
      → Blocks V
      → List (Str × Server V)
      → Result MergeError (List (Str × Server V))
  unfolding add_server check_unique key_of
  add_file i seen no_blocks results = ok results
  add_file i seen (and_block b rest) results =
      if eq_str (type_of b) (codes "server")
      then elim (and_then (check_unique several seen (first_label (labels b)) (type_of b))
          (add_server i b results)) [
            | err e ↦ err e
            | ok results' ↦ add_file (suc i) (first_label (labels b) ∷ seen) rest results'
          ]
      else add_file i seen rest results

  unfoldable pub add_files :
      List (Blocks V) → List (Str × Server V) → Result MergeError (List (Str × Server V))
  unfolding add_file
  add_files [] results = ok results
  add_files (body ∷ bodies) results = elim (add_file 0 [] body results) [
    | err e ↦ err e
    | ok results' ↦ add_files bodies results'
  ]

module _ {V : Type 0} where
  unfoldable pub merged_group : Str → Group V → Block V
  merged_group t g = block t g.own_labels g.own_attributes (of_list (sorted_values g.own_blocks))

  unfoldable pub merged_groups : Str → List (Group V) → List (Block V)
  unfolding merged_group
  merged_groups t [] = []
  merged_groups t (g ∷ gs) = merged_group t g ∷ merged_groups t gs

  unfoldable pub merged_api : Api V → Block V
  merged_api api = block (codes "api") api.own_labels api.own_attributes (
      of_list (
        sorted_values api.own_blocks
        ++ (sorted_values api.endpoints ++ sorted_values api.error_handler)))

  -- A range over a map, in its order.
  unfoldable pub merged_apis : List (Str × Api V) → List (Block V)
  unfolding merged_api
  merged_apis [] = []
  merged_apis ((k, api) ∷ apis) = merged_api api ∷ merged_apis apis

  unfoldable pub merged_tls : Option (Tls V) → List (Block V)
  unfolding concat_blocks
  merged_tls none = []
  merged_tls (some tls) =
      block (codes "tls") [] tls.own_attributes (
        of_list
          (concat_blocks (sorted_values tls.type_blocks) ++ sorted_values tls.preserved_blocks))
      ∷ []

  unfoldable pub merged_server : Server V → Block V
  unfolding merged_apis merged_groups merged_tls
  merged_server s = block (codes "server") s.own_labels s.own_attributes (
      of_list (
        sorted_values s.own_blocks
        ++ (sorted_values s.endpoints
            ++ (merged_apis s.apis
                ++ (merged_groups (codes "spa") (sorted_values s.spas)
                    ++ (merged_groups (codes "files") (sorted_values s.files)
                        ++ merged_tls s.tls))))))

  unfoldable pub merged_servers : List (Server V) → List (Block V)
  unfolding merged_server
  merged_servers [] = []
  merged_servers (s ∷ ss) = merged_server s ∷ merged_servers ss

  abbrev pub is_several : List (Blocks V) → Bool
  is_several [] = false
  is_several (b ∷ []) = false
  is_several (b ∷ c ∷ bs) = true

  unfoldable pub merge_servers :
      (attr_string_value : V → Result MergeError Str) (proxies : List (Str × Block V))
      (address : ℕ → ℕ → Str)
      → List (Blocks V)
      → Result MergeError (List (Block V))
  unfolding add_files merged_servers
  merge_servers attr_string_value proxies address bodies =
      elim (add_files attr_string_value proxies (is_several bodies) address bodies []) [
        | err e ↦ err e
        | ok results ↦ ok (merged_servers (sorted_values results))
      ]
