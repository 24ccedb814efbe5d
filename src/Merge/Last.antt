-- ===== src/Merge/Last.antt =====
-- Which definitions are merged, and which of several with one label is taken.
use couper.Base.{
  if◌then◌else◌, ◌≡◌, refl, ap, ◌∙◌, sym, inl, inr, ◌↔◌, Bool, true, false, not, ◌&&◌, ◌||◌, List,
  [], ◌∷◌, none, some, In, Str, codes, eq_str, eq_str_iff, lookup, insert, Result, ok, err,
  Result-cases, arith, Bool-cases,
}
use couper.Merge.{
  Block, block, Blocks, to_list, MergeError, Failure, raised, index_panic, blocks, or_else-none,
}
use couper.Merge.Backends.{backend, is_ok, tokens_fit, has_one}
use couper.Merge.Fits.{
  inner_fit, checked-ok, checked-is_panic, is_panic, definition_fits, is_unlabelled, check_inner-ok,
  add_inner-ok, add_inner-is_panic,
}
use couper.Merge.Definitions.{
  checked, Definitions, check_inner, labelled, proxy_name, add_inner, merge_bodies, definitions_of,
  merge_definitions,
}
use couper.Merge.Added.{
  all_definitions, last_labelled, at_label, put-at_label, lookup-labelled-insert, add_all, go_on,
  add_all-at_label, definitions_of-In, merge_bodies-add_all,
}

none_found : {A : Type 0} {a : A} → none ≡ some a → ⊥
none_found h = cc

module _ {V : Type 0} (attr_string_value : V → Result MergeError Str) where
  abbrev no_definitions : Definitions V
  no_definitions = record { definitions_block = []; proxies_list = [] }

  -- No block stands under the type of the proxies.
  add_inner-proxy :
      (label : Str) (b : Block V) (d d' : Definitions V)
      → add_inner attr_string_value b d ≡ ok d'
      → at_label (codes "proxy") label d' ≡ at_label (codes "proxy") label d
  unfolding add_inner
  add_inner-proxy label (block t [] a bs) d d' h = absurd (ground (arith, h))
  add_inner-proxy label (block t (l ∷ ls) a bs) d d' h =
      elim (Bool-cases (eq_str t (codes "proxy"))) [
        | inr plain ↦
            let e : insert t (insert l (block t (l ∷ ls) a bs) (labelled t d.definitions_block))
                  d.definitions_block
                ≡ d'.definitions_block =
              ground (arith, h, plain) in
            ap (λ m. lookup label (labelled (codes "proxy") m)) (sym e)
            ∙ put-at_label (codes "proxy") t label l (block t (l ∷ ls) a bs) d.definitions_block
            ∙ ground (arith, plain)
        | inl is_proxy ↦
            let e : insert t (labelled t d.definitions_block) d.definitions_block
                ≡ d'.definitions_block =
              ground (arith, h, is_proxy, Result-cases (proxy_name attr_string_value a)) in
            ap (λ m. lookup label (labelled (codes "proxy") m)) (sym e)
            ∙ lookup-labelled-insert (codes "proxy") t label (labelled t d.definitions_block)
                d.definitions_block
            ∙ ground (
              arith,
              is_proxy,
              ap (λ s. lookup label (labelled s d.definitions_block))
                  ((eq_str_iff t (codes "proxy")).0 is_proxy),
            )
      ]

  add_all-proxy :
      (label : Str) (bs : List (Block V)) (d d' : Definitions V)
      → add_all attr_string_value bs d ≡ ok d'
      → at_label (codes "proxy") label d' ≡ at_label (codes "proxy") label d
  unfolding add_all
  add_all-proxy label [] d d' h =
      let e : d' ≡ d = ground (arith, h) in ap (at_label (codes "proxy") label) e
  add_all-proxy label (b ∷ bs) d d' h =
      elim (Result-cases (checked (check_inner b) (add_inner attr_string_value b d))) [
        | inr (x, bad) ↦ absurd (ground (arith, h, bad))
        | inl (d1, good) ↦
            add_all-proxy label bs d1 d' (ground (arith, h, good))
            ∙ add_inner-proxy label b d d1 (ground (arith, good, Result-cases (check_inner b)))
      ]

  unfoldable pub all_fit : List (Block V) → Bool
  all_fit [] = true
  all_fit (b ∷ bs) = definition_fits attr_string_value b && all_fit bs

  go_on-ok :
      (r : Result Failure (Definitions V)) (f : Definitions V → Result Failure (Definitions V))
      (p q : Bool)
      → is_ok r ≡ p
      → ((d : Definitions V) → is_ok (f d) ≡ q)
      → is_ok (go_on attr_string_value r f) ≡ (p && q)
  go_on-ok (ok d) f p q h k = k d ∙ ground (arith, h)
  go_on-ok (err e) f p q h k = ground (arith, h)

  add_one-ok :
      (b : Block V) (d : Definitions V)
      → is_ok (checked (check_inner b) (add_inner attr_string_value b d))
        ≡ definition_fits attr_string_value b
  add_one-ok (block t ls a bs) d =
      let b = block t ls a bs in
      checked-ok (check_inner b) (add_inner attr_string_value b d)
      ∙ ap (λ x. x && is_ok (add_inner attr_string_value b d)) (check_inner-ok t ls a bs)
      ∙ ap (λ x. ((not (eq_str t backend) || tokens_fit bs) && (inner_fit bs && has_one a bs)) && x)
          (add_inner-ok attr_string_value t ls a bs d)

  add_all-ok :
      (bs : List (Block V)) (d : Definitions V)
      → is_ok (add_all attr_string_value bs d) ≡ all_fit bs
  unfolding add_all all_fit
  add_all-ok [] d = refl
  add_all-ok (b ∷ rest) d =
      go_on-ok (checked (check_inner b) (add_inner attr_string_value b d))
        (add_all attr_string_value rest) (definition_fits attr_string_value b) (all_fit rest)
        (add_one-ok b d) (add_all-ok rest)

  -- The first definition that does not fit has single backends and no label.
  unfoldable pub panics : List (Block V) → Bool
  panics [] = false
  panics (b ∷ bs) =
      let rest = panics bs in if definition_fits attr_string_value b then rest else is_unlabelled b

  go_on-is_panic :
      (r : Result Failure (Definitions V)) (f : Definitions V → Result Failure (Definitions V))
      (p q x : Bool)
      → is_ok r ≡ p
      → is_panic r ≡ q
      → ((d : Definitions V) → is_panic (f d) ≡ x)
      → is_panic (go_on attr_string_value r f) ≡ (if p then x else q)
  go_on-is_panic (ok d) f p q x h k g = g d ∙ ground (arith, h)
  go_on-is_panic (err e) f p q x h k g = k ∙ ground (arith, h)

  add_one-is_panic :
      (b : Block V) (d : Definitions V)
      → is_panic (checked (check_inner b) (add_inner attr_string_value b d)) ≡ is_unlabelled b
  add_one-is_panic (block t ls a bs) d =
      let b = block t ls a bs in
      checked-is_panic (check_inner b) (add_inner attr_string_value b d)
      ∙ ap (λ x. x && is_panic (add_inner attr_string_value b d)) (check_inner-ok t ls a bs)
      ∙ ap (λ x. ((not (eq_str t backend) || tokens_fit bs) && (inner_fit bs && has_one a bs)) && x)
          (add_inner-is_panic attr_string_value t ls a bs d)

  add_all-is_panic :
      (bs : List (Block V)) (d : Definitions V)
      → is_panic (add_all attr_string_value bs d) ≡ panics bs
  unfolding add_all panics
  add_all-is_panic [] d = refl
  add_all-is_panic (b ∷ rest) d =
      go_on-is_panic (checked (check_inner b) (add_inner attr_string_value b d))
        (add_all attr_string_value rest) (definition_fits attr_string_value b) (is_unlabelled b)
        (panics rest) (add_one-ok b d) (add_one-is_panic b d) (add_all-is_panic rest)

  abbrev pub IsMerged : List (Block V) → Result Failure (Block V × List (Str × Block V)) → Type 0
  IsMerged bs (err (raised e)) = (all_fit bs ≡ false) × (panics bs ≡ false)
  IsMerged bs (err index_panic) = (all_fit bs ≡ false) × (panics bs ≡ true)
  IsMerged bs (ok (merged, proxies)) =
      (all_fit bs ≡ true)
      × ((b : Block V)
          → In b (to_list (blocks merged)) ↔ (
              (t label : Str) × (eq_str t (codes "proxy") ≡ false)
              × (last_labelled t label bs ≡ some b)))

  abbrev from_definitions :
      Result Failure (Definitions V) → Result Failure (Block V × List (Str × Block V))
  from_definitions (err e) = err e
  from_definitions (ok d) = ok (definitions_of d, d.proxies_list)

  last_of :
      (bs : List (Block V)) (d : Definitions V)
      → add_all attr_string_value bs no_definitions ≡ ok d
      → (t label : Str) → eq_str t (codes "proxy") ≡ false
      → at_label t label d ≡ last_labelled t label bs
  unfolding lookup
  last_of bs d h t label np =
      add_all-at_label attr_string_value t label bs no_definitions d np h
      ∙ or_else-none (last_labelled t label bs)

  added-IsMerged :
      (bs : List (Block V)) (r : Result Failure (Definitions V))
      → add_all attr_string_value bs no_definitions ≡ r
      → IsMerged bs (from_definitions r)
  unfolding lookup
  added-IsMerged bs (err (raised e)) h = (
    sym (add_all-ok bs no_definitions) ∙ ap is_ok h,
    sym (add_all-is_panic bs no_definitions) ∙ ap is_panic h,
  )
  added-IsMerged bs (err index_panic) h = (
    sym (add_all-ok bs no_definitions) ∙ ap is_ok h,
    sym (add_all-is_panic bs no_definitions) ∙ ap is_panic h,
  )
  added-IsMerged bs (ok d) h = (
    sym (add_all-ok bs no_definitions) ∙ ap is_ok h,
    λ b. (
      λ i.
          let (t, label, found) = (definitions_of-In b d).0 i in
          elim (Bool-cases (eq_str t (codes "proxy"))) [
            | inl is_proxy ↦ absurd (
                none_found (
                  sym (add_all-proxy label bs no_definitions d h)
                  ∙ ap (λ s. at_label s label d) (sym ((eq_str_iff t (codes "proxy")).0 is_proxy))
                  ∙ found))
            | inr plain ↦ (t, label, plain, sym (last_of bs d h t label plain) ∙ found)
          ],
      λ (t, label, np, last).
          (definitions_of-In b d).1 (t, label, last_of bs d h t label np ∙ last),
    ),
  )

  -- Whatever the files, mergeDefinitions returns no merge exactly if one of the definitions does
  -- not fit on its own: its backends, also those of its error handlers as far as these are reached,
  -- must be single, it must have a label, and the name of a proxy must be a string. It panics if
  -- the backends of the first one that does not fit are single and it has no label, and returns an
  -- error for any other. Otherwise the merged block holds a block exactly if it is the last one in
  -- the order of the files with its type and label, and no proxy.
  pub merge_definitions-IsMerged :
      (bodies : List (Blocks V))
      → IsMerged (all_definitions bodies) (merge_definitions attr_string_value bodies)
  unfolding merge_definitions
  merge_definitions-IsMerged bodies =
      let r = merge_bodies attr_string_value bodies no_definitions in
      added-IsMerged (all_definitions bodies) r
        (sym (merge_bodies-add_all attr_string_value bodies no_definitions))
