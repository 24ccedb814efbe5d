-- ===== src/Merge/Labels.antt =====
-- The attributes of merged servers, by the label of the server.
use couper.Base.{
  ℕ, suc, ◌≡◌, refl, ap, ◌∙◌, sym, inl, inr, Bool, true, ◌&&◌, List, [], ◌∷◌, ◌++◌, some, In, Str,
  codes, eq_str, lookup, insert, Result, ok, err, Result-cases, Bool-cases, arith, if◌then◌else◌,
}
use mathlib.Core.Path.{subst}
use couper.Merge.{
  Block, Blocks, no_blocks, and_block, MergeError, type_of, labels, attributes, blocks, or_else,
  or_else-none,
}
use couper.Merge.Sorted.{sorted_values, sorted_values_iff}
use couper.Merge.Definitions.{and_then, set_attributes}
use couper.Merge.Settings.{last_value}
use couper.Merge.Parts.{
  Server, first_label, check_unique, key_of, or_new, new_server, take_endpoint, put_endpoint,
  add_api, add_group, add_tls, add_block,
}
use couper.Merge.Servers.{
  add_blocks, add_server, add_file, add_files, merged_server, merged_servers, merge_servers,
}
use couper.Merge.Keyed.{
  own, attributes_at, IsKeyed, IsSame, changed, old-IsKeyed, insert-IsKeyed, if_at,
  insert-attributes, joined, put, either,
}

module _ {V : Type 0} where
  -- The attributes of the server blocks with a label, in the order of the files.
  unfoldable pub server_attributes : Str → Blocks V → List (Str × V)
  server_attributes label no_blocks = []
  server_attributes label (and_block b rest) =
      (if eq_str (type_of b) (codes "server") && eq_str (first_label (labels b)) label
        then attributes b
        else [])
      ++ server_attributes label rest

  unfoldable pub all_server_attributes : Str → List (Blocks V) → List (Str × V)
  unfolding server_attributes
  all_server_attributes label [] = []
  all_server_attributes label (body ∷ bodies) =
      server_attributes label body ++ all_server_attributes label bodies

module _ {V : Type 0} (attr_string_value : V → Result MergeError Str)
    (proxies : List (Str × Block V)) where
  add_block-IsSame :
      (several : Bool) (address : Str) (b : Block V) (s t : Server V)
      → add_block attr_string_value proxies several address b s ≡ ok t
      → IsSame s t
  unfolding add_block
  add_block-IsSame several address b s t =
      either (eq_str (type_of b) (codes "endpoint")) t
        (changed s t (put_endpoint (take_endpoint attr_string_value proxies b) s.endpoints)
          (λ m. record s { endpoints = m }) (λ m. (refl, refl)))
        (either (eq_str (type_of b) (codes "api")) t
          (changed s t (add_api attr_string_value proxies several address b s.apis)
            (λ m. record s { apis = m }) (λ m. (refl, refl)))
          (either (eq_str (type_of b) (codes "spa")) t
            (changed s t (add_group several address b s.spas) (λ m. record s { spas = m })
              (λ m. (refl, refl)))
            (either (eq_str (type_of b) (codes "files")) t
              (changed s t (add_group several address b s.files) (λ m. record s { files = m })
                (λ m. (refl, refl)))
              (either (eq_str (type_of b) (codes "tls")) t
                (put s t (record s { tls = some (add_tls b s.tls) }) (refl, refl))
                (put s t (record s { own_blocks = insert (type_of b) b s.own_blocks })
                  (refl, refl))))))

  module _ (address : ℕ → ℕ → Str) where
    add_blocks-IsSame :
        (i j : ℕ) (bs : Blocks V) (s t : Server V)
        → add_blocks attr_string_value proxies true address i j bs s ≡ ok t
        → IsSame s t
    unfolding add_blocks
    add_blocks-IsSame i j no_blocks s t h =
        let e : s ≡ t = ground (arith, h) in subst (IsSame s) e (refl, refl)
    add_blocks-IsSame i j (and_block b rest) s t h =
        elim (Result-cases (add_block attr_string_value proxies true (address i j) b s)) [
          | inr (x, bad) ↦ absurd (ground (arith, h, bad))
          | inl (u, good) ↦
              let (a1, l1) = add_block-IsSame true (address i j) b s u good in
              let (a2, l2) = add_blocks-IsSame i (suc j) rest u t (ground (arith, h, good)) in
              (a2 ∙ a1, l2 ∙ l1)
        ]

    -- The attributes are added to those under the label.
    add_server-attributes :
        (i : ℕ) (b : Block V) (results results' : List (Str × Server V)) (label name : Str)
        → IsKeyed results
        → add_server attr_string_value proxies true address i b results ≡ ok results'
        → IsKeyed results'
          × (lookup name (attributes_at label results')
              ≡ or_else
                  (last_value name
                    (if eq_str (first_label (labels b)) label then attributes b else []))
                  (lookup name (attributes_at label results)))
    unfolding add_server key_of
    add_server-attributes i b results results' label name keyed h =
        let key = first_label (labels b) in
        let old = or_new (lookup key results) (new_server (labels b)) in
        let s0 = record old { own_attributes = set_attributes (attributes b) old.own_attributes } in
        let (first, same) =
          old-IsKeyed key (labels b) results (lookup key results) keyed refl refl in
        elim (Result-cases (add_blocks attr_string_value proxies true address i 1 (blocks b) s0)) [
          | inr (x, bad) ↦ absurd (ground (arith, h, bad))
          | inl (s', good) ↦
              let (a, l) = add_blocks-IsSame i 1 (blocks b) s0 s' good in
              let e : insert key s' results ≡ results' = ground (arith, h, good) in
              (
                subst IsKeyed e (insert-IsKeyed key s' results keyed (ap first_label l ∙ first)),
                ap (λ r. lookup name (attributes_at label r)) (sym e)
                    ∙ insert-attributes key b s' results label name
                        (a ∙ ap (set_attributes (attributes b)) (sym same)),
              )
        ]

    checked :
        {A : Type 0} (r : Result MergeError (Unit {0})) {x : Result MergeError A} {a : A}
        → and_then r x ≡ ok a
        → x ≡ ok a
    checked (ok _) h = h
    checked (err e) h = cc

    -- After the blocks of one file.
    add_file-attributes :
        (i : ℕ) (seen : List Str) (bs : Blocks V) (results results' : List (Str × Server V))
        (label name : Str)
        → IsKeyed results
        → add_file attr_string_value proxies true address i seen bs results ≡ ok results'
        → IsKeyed results'
          × (lookup name (attributes_at label results')
              ≡ or_else
                  (last_value name (server_attributes label bs))
                  (lookup name (attributes_at label results)))
    unfolding add_file server_attributes last_value
    add_file-attributes i seen no_blocks results results' label name keyed h =
        let e : results ≡ results' = ground (arith, h) in
        (subst IsKeyed e keyed, ap (λ r. lookup name (attributes_at label r)) (sym e))
    add_file-attributes i seen (and_block b rest) results results' label name keyed h =
        elim (Bool-cases (eq_str (type_of b) (codes "server"))) [
          | inr other ↦
              let (k, e) =
                add_file-attributes i seen rest results results' label name keyed (rw other at h) in
              (
                k,
                joined name
                    (if_at
                      (eq_str (type_of b) (codes "server") && eq_str (first_label (labels b)) label)
                      (attributes b))
                    (server_attributes label rest) (lookup name (attributes_at label results)) e
                    (ground (arith, other)),
              )
          | inl is_server ↦
              elim (Result-cases (
                and_then (check_unique true seen (first_label (labels b)) (type_of b))
                  (add_server attr_string_value proxies true address i b results))) [
                    | inr (x, bad) ↦ absurd (ground (arith, h, is_server, bad))
                    | inl (next, good) ↦
                        let (k1, e1) = add_server-attributes i b results next label name keyed (
                          checked (check_unique true seen (first_label (labels b)) (type_of b))
                            good) in
                        let (k2, e2) =
                          add_file-attributes (suc i) (first_label (labels b) ∷ seen) rest next
                            results' label name k1 (ground (arith, h, is_server, good)) in
                        (
                          k2,
                          joined name
                              (if_at
                                (eq_str (type_of b) (codes "server")
                                  && eq_str (first_label (labels b)) label)
                                (attributes b))
                              (server_attributes label rest)
                              (lookup name (attributes_at label results)) e2
                              (ground (arith, is_server, e1)),
                        )
                  ]
        ]

    add_files-attributes :
        (bodies : List (Blocks V)) (results results' : List (Str × Server V)) (label name : Str)
        → IsKeyed results
        → add_files attr_string_value proxies true address bodies results ≡ ok results'
        → IsKeyed results'
          × (lookup name (attributes_at label results')
              ≡ or_else
                  (last_value name (all_server_attributes label bodies))
                  (lookup name (attributes_at label results)))
    unfolding add_files all_server_attributes last_value
    add_files-attributes [] results results' label name keyed h =
        let e : results ≡ results' = ground (arith, h) in
        (subst IsKeyed e keyed, ap (λ r. lookup name (attributes_at label r)) (sym e))
    add_files-attributes (body ∷ bodies) results results' label name keyed h =
        elim (Result-cases (add_file attr_string_value proxies true address 0 [] body results)) [
          | inr (x, bad) ↦ absurd (ground (arith, h, bad))
          | inl (next, good) ↦
              let (k1, e1) = add_file-attributes 0 [] body results next label name keyed good in
              let (k2, e2) =
                add_files-attributes bodies next results' label name k1 (ground (arith, h, good)) in
              (
                k2,
                joined name (server_attributes label body) (all_server_attributes label bodies)
                    (lookup name (attributes_at label results)) e2 e1,
              )
        ]

    merged_servers-In :
        (b : Block V) (ss : List (Server V))
        → In b (merged_servers ss)
        → (s : Server V) × In s ss × (attributes b ≡ s.own_attributes) × (labels b ≡ s.own_labels)
    unfolding merged_servers merged_server
    merged_servers-In b [] h = elim h [ ]
    merged_servers-In b (s ∷ ss) (inl e) = (s, inl refl, ap attributes e, ap labels e)
    merged_servers-In b (s ∷ ss) (inr at) =
        let (t, place, a, l) = merged_servers-In b ss at in (t, inr place, a, l)

    -- If several files are merged without error, then every server that comes out has, for each
    -- name, the last value that the server blocks with its label give it in the order of the files,
    -- and no other attribute.
    pub merge_servers-attributes :
        (first second : Blocks V) (others : List (Blocks V)) (merged : List (Block V)) (b : Block V)
        (name : Str)
        → merge_servers attr_string_value proxies address (first ∷ second ∷ others) ≡ ok merged
        → In b merged
        → lookup name (attributes b)
          ≡ last_value name
              (all_server_attributes (first_label (labels b)) (first ∷ second ∷ others))
    unfolding merge_servers lookup
    merge_servers-attributes first second others merged b name h at =
        let bodies = first ∷ second ∷ others in
        elim (Result-cases (add_files attr_string_value proxies true address bodies [])) [
          | inr (x, bad) ↦ absurd (ground (arith, h, bad))
          | inl (results, good) ↦
              let e : merged_servers (sorted_values results) ≡ merged = ground (arith, h, good) in
              let (s, place, a, l) =
                merged_servers-In b (sorted_values results) (subst (In b) (sym e) at) in
              let (label, found) = (sorted_values_iff s results).0 place in
              let (keyed, lem) =
                add_files-attributes bodies [] results label name
                  (λ k t none_there. absurd (ground (arith, none_there))) good in
              let same = keyed label s found in
              ap (lookup name) a
              ∙ sym (ap (λ o. lookup name (own o)) found)
              ∙ lem
              ∙ or_else-none (last_value name (all_server_attributes label bodies))
              ∙ ap (λ k. last_value name (all_server_attributes k bodies))
                  (sym (ap first_label l ∙ same))
        ]
