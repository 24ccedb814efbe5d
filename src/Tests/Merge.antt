-- ===== src/Tests/Merge.antt =====
-- Small files that are merged. A value of an attribute is its text.
use couper.Base.{
  ◌≡◌, refl, inl, true, List, [], ◌∷◌, some, Str, codes, eq_str, less_str, lookup, insert, delete,
  mem_str, split, Result, ok, err,
}
use couper.Merge.{
  Block, block, Blocks, no_blocks, of_list, MergeError, multiple_backends, unique_labels,
  attributes,
}
use couper.Merge.Sorted.{insert_string, sort_strings, keys, get_sorted_map_keys, values_at}
use couper.Merge.Backends.{
  check_in_backend, count_backends, check_for_multiple_backends, is_ok, number_of_backends,
  tokens_fit, backends_fit, reached, senders_fit, check_for_multiple_backends-accepts,
}
use couper.Merge.Definitions.{
  count_inner, check_inner, proxy_name, add_inner, merge_inner, merge_outer, merge_bodies,
  concat_blocks, sorted_each, definitions_of, merge_definitions, set_attributes, settings_in,
  settings_of, merge_settings,
}
use couper.Merge.Fits.{inner_fit}
use couper.Merge.Added.{definitions_in, all_definitions, last_labelled}
use couper.Merge.Last.{all_fit, IsMerged, merge_definitions-IsMerged}
use couper.Merge.Settings.{last_value, settings_attributes, all_settings}
use couper.Merge.Parts.{
  first_label, split_all, join, new_error_handler_key, append_block, add_proxy, take_endpoint,
  add_to_api, put_blocks, check_unique, key_of, add_api, add_group, split_tls, put_types, add_tls,
  add_block,
}
use couper.Merge.Servers.{
  add_blocks, add_server, add_file, add_files, merged_group, merged_groups, merged_api, merged_apis,
  merged_tls, merged_server, merged_servers, merge_servers,
}
use couper.Merge.Labels.{server_attributes, all_server_attributes, merge_servers-attributes}

merging : Unit {0}
unfolding insert_string sort_strings keys get_sorted_map_keys values_at check_in_backend
    count_backends check_for_multiple_backends number_of_backends tokens_fit backends_fit reached
    senders_fit count_inner check_inner proxy_name add_inner merge_inner merge_outer merge_bodies
    concat_blocks sorted_each definitions_of merge_definitions set_attributes settings_in
    settings_of merge_settings inner_fit definitions_in all_definitions last_labelled all_fit
    last_value settings_attributes all_settings first_label split_all join new_error_handler_key
    append_block add_proxy take_endpoint add_to_api put_blocks check_unique key_of add_api add_group
    split_tls put_types add_tls add_block add_blocks add_server add_file add_files merged_group
    merged_groups merged_api merged_apis merged_tls merged_server merged_servers merge_servers
    server_attributes all_server_attributes eq_str less_str lookup insert delete mem_str split
merging = tt

abbrev text : Str → Result MergeError Str
text s = ok s

abbrev leaf : Str → List Str → Block Str
leaf t ls = block t ls [] no_blocks

abbrev of : Str → List Str → List (Block Str) → Block Str
of t ls bs = block t ls [] (of_list bs)

-- A proxy with two backends.
abbrev torn : Block Str
torn = of (codes "proxy") [] (leaf (codes "backend") [] ∷ leaf (codes "backend") [] ∷ [])

refused :
    check_for_multiple_backends (of_list (torn ∷ leaf (codes "error_handler") [] ∷ []))
    ≡ err (multiple_backends (codes "proxy"))
unfolding merging
refused = refl

-- The proxy stands behind an error handler.
check_for_multiple_backends-accepts_example :
    is_ok (check_for_multiple_backends (of_list (leaf (codes "error_handler") [] ∷ torn ∷ [])))
    ≡ true
unfolding merging
check_for_multiple_backends-accepts_example =
    check_for_multiple_backends-accepts (of_list (leaf (codes "error_handler") [] ∷ torn ∷ []))

abbrev with_origin : Str → Block Str
with_origin o = block (codes "backend") (codes "be" ∷ []) ((codes "origin", o) ∷ []) no_blocks

abbrev defining : Block Str → Blocks Str
defining b = of_list (of (codes "definitions") [] (b ∷ []) ∷ [])

merge_definitions-IsMerged_example :
    IsMerged text (with_origin (codes "a") ∷ with_origin (codes "b") ∷ []) (
      merge_definitions text
        (defining (with_origin (codes "a")) ∷ defining (with_origin (codes "b")) ∷ []))
unfolding definitions_in all_definitions eq_str
merge_definitions-IsMerged_example =
    merge_definitions-IsMerged text
      (defining (with_origin (codes "a")) ∷ defining (with_origin (codes "b")) ∷ [])

last_one :
    merge_definitions text
      (defining (with_origin (codes "a")) ∷ defining (with_origin (codes "b")) ∷ [])
    ≡ ok (of (codes "definitions") [] (with_origin (codes "b") ∷ []), [])
unfolding merging
last_one = refl

abbrev settings : Str → Blocks Str
settings v = of_list (block (codes "settings") [] ((codes "default_port", v) ∷ []) no_blocks ∷ [])

abbrev serving : List (Block Str) → List (Block Str) → Blocks Str
serving bs more = of_list (of (codes "server") (codes "s" ∷ []) bs ∷ more)

-- Two servers with one label in a file are refused, two APIs are merged.
two_servers :
    merge_servers text []
      (λ i j. [])
      (serving [] (leaf (codes "server") (codes "s" ∷ []) ∷ []) ∷ no_blocks ∷ [])
    ≡ err (unique_labels (codes "server"))
unfolding merging
two_servers = refl

two_apis :
    merge_servers text []
      (λ i j. [])
      (serving
          (of (codes "api") (codes "a" ∷ []) (leaf (codes "cors") [] ∷ [])
            ∷ of (codes "api") (codes "a" ∷ []) (leaf (codes "endpoint") (codes "/" ∷ []) ∷ [])
            ∷ [])
          []
        ∷ no_blocks
        ∷ [])
    ≡ ok (
        of (codes "server") (codes "s" ∷ []) (
          of
            (codes "api")
            (codes "a" ∷ [])
            (leaf (codes "cors") [] ∷ leaf (codes "endpoint") (codes "/" ∷ []) ∷ [])
          ∷ [])
        ∷ [])
unfolding merging
two_apis = refl

handler_key : new_error_handler_key (codes "b" ∷ codes "c a" ∷ []) ≡ codes "a b c"
unfolding merging
handler_key = refl

abbrev based : Str → Block Str
based v = block (codes "server") (codes "s" ∷ []) ((codes "base_path", v) ∷ []) no_blocks

merge_servers-attributes_example :
    lookup (codes "base_path") (attributes (based (codes "/b"))) ≡ some (codes "/b")
unfolding merging
merge_servers-attributes_example =
    merge_servers-attributes text [] (λ i j. []) (of_list (based (codes "/a") ∷ []))
      (of_list (based (codes "/b") ∷ [])) [] (based (codes "/b") ∷ []) (based (codes "/b"))
      (codes "base_path") refl (inl refl)
