-- ===== src/Merge/Parts.antt =====
-- What mergeServers of config/configload/merge.go does with one block of a server. If there is one
-- file only, the address of a variable makes each key another one; the address is a parameter.
use couper.Base.{
  Bool, List, [], ◌∷◌, ◌++◌, Option, none, some, Str, codes, eq_str, lookup, insert, delete,
  mem_str, split, Result, ok, err, if◌then◌else◌,
}
use couper.Merge.{
  Block, block, Blocks, no_blocks, and_block, MergeError, unique_labels, undefined_proxy, type_of,
  labels, attributes, blocks,
}
use couper.Merge.Sorted.{sort_strings}
use couper.Merge.Backends.{check_for_multiple_backends}
use couper.Merge.Definitions.{and_then, set_attributes}

-- spaDefinition and filesDefinition
pub record Group (V : Type 0) : Type 0 where
  pub own_labels : List Str
  pub own_attributes : List (Str × V)
  pub own_blocks : List (Str × Block V)

pub record Api (V : Type 0) : Type 0 where
  pub own_labels : List Str
  pub own_attributes : List (Str × V)
  pub own_blocks : List (Str × Block V)
  pub endpoints : List (Str × Block V)
  pub error_handler : List (Str × Block V)

pub record Tls (V : Type 0) : Type 0 where
  pub own_attributes : List (Str × V)
  pub type_blocks : List (Str × List (Block V))
  pub preserved_blocks : List (Str × Block V)

pub record Server (V : Type 0) : Type 0 where
  pub own_labels : List Str
  pub own_attributes : List (Str × V)
  pub own_blocks : List (Str × Block V)
  pub endpoints : List (Str × Block V)
  pub apis : List (Str × Api V)
  pub spas : List (Str × Group V)
  pub files : List (Str × Group V)
  pub tls : Option (Tls V)

unfoldable pub first_label : List Str → Str
first_label [] = []
first_label (l ∷ ls) = l

unfoldable pub split_all : List Str → List Str
unfolding split
split_all [] = []
split_all (l ∷ ls) = split b' ' l ++ split_all ls

unfoldable pub join : Str → List Str → Str
join sep [] = []
join sep (s ∷ []) = s
join sep (s ∷ t ∷ ss) = s ++ (sep ++ join sep (t ∷ ss))

unfoldable pub new_error_handler_key : List Str → Str
unfolding split_all join sort_strings
new_error_handler_key [] = []
new_error_handler_key (l ∷ ls) = join (b' ' ∷ []) (sort_strings (split_all (l ∷ ls)))

-- The check of a label among those of the same file; it is made for several files.
unfoldable pub check_unique :
    (several : Bool) → (seen : List Str) → (key block_type : Str) → Result MergeError (Unit {0})
check_unique several seen key block_type =
    if several then (if mem_str key seen then err (unique_labels block_type) else ok tt) else ok tt

unfoldable pub key_of : (several : Bool) → (address : Str) → List Str → Str
unfolding first_label
key_of several address ls = if several then first_label ls else first_label ls ++ (b'|' ∷ address)

abbrev pub or_new : {A : Type 0} → Option A → A → A
or_new none a = a
or_new (some b) a = b

module _ {V : Type 0} where
  unfoldable pub append_block : Blocks V → Block V → Blocks V
  append_block no_blocks b = and_block b no_blocks
  append_block (and_block c bs) b = and_block c (append_block bs b)

  unfoldable pub add_proxy :
      (attr_string_value : V → Result MergeError Str) (proxies : List (Str × Block V))
      → Block V
      → Result MergeError (Block V)
  unfolding append_block
  add_proxy attr_string_value proxies (block t l a bs) = elim (lookup (codes "proxy") a) [
    | none ↦ ok (block t l a bs)
    | some attr ↦ elim (attr_string_value attr) [
      | err e ↦ err e
      | ok reference ↦ elim (lookup reference proxies) [
        | none ↦ err (undefined_proxy reference)
        | some p ↦ ok (block t l (delete (codes "proxy") a) (append_block bs p))
      ]
    ]
  ]

  -- An endpoint block, of a server or of an API.
  unfoldable pub take_endpoint :
      (attr_string_value : V → Result MergeError Str) (proxies : List (Str × Block V))
      → Block V
      → Result MergeError (Block V)
  unfolding add_proxy
  take_endpoint attr_string_value proxies (block t [] a bs) =
      and_then (check_for_multiple_backends bs) (err (unique_labels t))
  take_endpoint attr_string_value proxies (block t (l ∷ ls) a bs) =
      and_then (check_for_multiple_backends bs)
        (add_proxy attr_string_value proxies (block t (l ∷ ls) a bs))

  abbrev pub put_endpoint :
      Result MergeError (Block V) → List (Str × Block V) → Result MergeError (List (Str × Block V))
  put_endpoint (err e) m = err e
  put_endpoint (ok b) m = ok (insert (first_label (labels b)) b m)

  -- The subblocks of an API.
  unfoldable pub add_to_api :
      (attr_string_value : V → Result MergeError Str) (proxies : List (Str × Block V))
      → Blocks V
      → Api V
      → Result MergeError (Api V)
  unfolding take_endpoint new_error_handler_key first_label
  add_to_api attr_string_value proxies no_blocks api = ok api
  add_to_api attr_string_value proxies (and_block b rest) api =
      elim (if eq_str (type_of b) (codes "endpoint")
        then elim (put_endpoint (take_endpoint attr_string_value proxies b) api.endpoints) [
          | err e ↦ err e
          | ok m ↦ ok (record api { endpoints = m })
        ]
        else if eq_str (type_of b) (codes "error_handler")
        then and_then (check_for_multiple_backends (blocks b)) (
            ok (record api {
              error_handler = insert (new_error_handler_key (labels b)) b api.error_handler;
            }))
        else ok (record api { own_blocks = insert (type_of b) b api.own_blocks })) [
          | err e ↦ err e
          | ok api' ↦ add_to_api attr_string_value proxies rest api'
        ]

  unfoldable pub put_blocks : Blocks V → List (Str × Block V) → List (Str × Block V)
  put_blocks no_blocks m = m
  put_blocks (and_block b rest) m = put_blocks rest (insert (type_of b) b m)

  abbrev pub new_api : List Str → Api V
  new_api ls = record {
    own_labels = ls;
    own_attributes = [];
    own_blocks = [];
    endpoints = [];
    error_handler = [];
  }

  abbrev pub new_group : List Str → Group V
  new_group ls = record { own_labels = ls; own_attributes = []; own_blocks = [] }

  abbrev pub new_server : List Str → Server V
  new_server ls = record {
    own_labels = ls;
    own_attributes = [];
    own_blocks = [];
    endpoints = [];
    apis = [];
    spas = [];
    files = [];
    tls = none;
  }

  -- An api block. The labels that were seen are those of this block only: the maps are made anew for
  -- each block of a server.
  unfoldable pub add_api :
      (attr_string_value : V → Result MergeError Str) (proxies : List (Str × Block V))
      (several : Bool) (address : Str)
      → Block V
      → List (Str × Api V)
      → Result MergeError (List (Str × Api V))
  unfolding key_of check_unique add_to_api set_attributes
  add_api attr_string_value proxies several address b apis =
      let key = key_of several address (labels b) in
      let api = or_new (lookup key apis) (new_api (labels b)) in
      and_then (check_unique several [] key (type_of b))
        (elim (add_to_api attr_string_value proxies (blocks b)
          (record api { own_attributes = set_attributes (attributes b) api.own_attributes })) [
            | err e ↦ err e
            | ok api' ↦ ok (insert key api' apis)
          ])

  -- A spa or files block.
  unfoldable pub add_group :
      (several : Bool) (address : Str)
      → Block V
      → List (Str × Group V)
      → Result MergeError (List (Str × Group V))
  unfolding key_of check_unique set_attributes put_blocks
  add_group several address b groups =
      let key = key_of several address (labels b) in
      let group = or_new (lookup key groups) (new_group (labels b)) in
      and_then (check_unique several [] key (type_of b)) (
        ok (
          insert key
            (record group {
              own_attributes = set_attributes (attributes b) group.own_attributes;
              own_blocks = put_blocks (blocks b) group.own_blocks;
            })
            groups))

  -- The subblocks of a tls block: with a label into the preserved ones, else to those of this block.
  unfoldable pub split_tls :
      Blocks V
      → List (Str × Block V)
      → List (Str × List (Block V))
      → List (Str × Block V) × List (Str × List (Block V))
  split_tls no_blocks preserved this = (preserved, this)
  split_tls (and_block (block t [] a bs) rest) preserved this =
      split_tls rest preserved (insert t (or_new (lookup t this) [] ++ (block t [] a bs ∷ [])) this)
  split_tls (and_block (block t (l ∷ ls) a bs) rest) preserved this =
      split_tls rest (insert (t ++ (b'_' ∷ l)) (block t (l ∷ ls) a bs) preserved) this

  unfoldable pub put_types :
      List (Str × List (Block V)) → List (Str × List (Block V)) → List (Str × List (Block V))
  put_types [] m = m
  put_types ((t, v) ∷ this) m = put_types this (insert t v m)

  unfoldable pub add_tls : Block V → Option (Tls V) → Tls V
  unfolding split_tls put_types set_attributes
  add_tls b old =
      let tls =
        or_new old
          (record { own_attributes = attributes b; type_blocks = []; preserved_blocks = [] }) in
      let (preserved, this) = split_tls (blocks b) tls.preserved_blocks [] in
      record {
        own_attributes = set_attributes (attributes b) tls.own_attributes;
        type_blocks = put_types this tls.type_blocks;
        preserved_blocks = preserved;
      }

  -- One block of a server.
  unfoldable pub add_block :
      (attr_string_value : V → Result MergeError Str) (proxies : List (Str × Block V))
      (several : Bool) (address : Str)
      → Block V
      → Server V
      → Result MergeError (Server V)
  unfolding take_endpoint add_api add_group add_tls first_label
  add_block attr_string_value proxies several address b s =
      if eq_str (type_of b) (codes "endpoint")
      then elim (put_endpoint (take_endpoint attr_string_value proxies b) s.endpoints) [
        | err e ↦ err e
        | ok m ↦ ok (record s { endpoints = m })
      ]
      else if eq_str (type_of b) (codes "api")
      then elim (add_api attr_string_value proxies several address b s.apis) [
        | err e ↦ err e
        | ok m ↦ ok (record s { apis = m })
      ]
      else if eq_str (type_of b) (codes "spa")
      then elim (add_group several address b s.spas) [
        | err e ↦ err e
        | ok m ↦ ok (record s { spas = m })
      ]
      else if eq_str (type_of b) (codes "files")
      then elim (add_group several address b s.files) [
        | err e ↦ err e
        | ok m ↦ ok (record s { files = m })
      ]
      else if eq_str (type_of b) (codes "tls")
      then ok (record s { tls = some (add_tls b s.tls) })
      else ok (record s { own_blocks = insert (type_of b) b s.own_blocks })
