-- ===== src/Merge/Added.antt =====
-- The definitions one after the other, and which of several with one label is kept.
use couper.Base.{
  ◌≡◌, refl, ap, ◌∙◌, sym, inl, inr, ◌⊎◌, ◌↔◌, Bool, true, false, ◌&&◌, List, [], ◌∷◌, ◌++◌, Option,
  none, some, In, In-append, Str, codes, eq_str, eq_str_iff, lookup, insert, lookup-insert, Result,
  ok, err, Result-cases, arith, Bool-cases, Option-cases, if◌then◌else◌,
}
use mathlib.Core.Path.{subst}
use couper.Merge.{
  Block, block, Blocks, no_blocks, and_block, of_list, to_list, MergeError, Failure, blocks,
  or_else, or_else_assoc,
}
use couper.Merge.Sorted.{sorted_values, sorted_values_iff}
use couper.Merge.Definitions.{
  checked, Definitions, check_inner, labelled, proxy_name, add_inner, merge_inner, merge_outer,
  merge_bodies, concat_blocks, sorted_each, definitions_of,
}

module _ {V : Type 0} where
  -- All definitions, in the order of the files.
  unfoldable pub definitions_in : Blocks V → List (Block V)
  definitions_in no_blocks = []
  definitions_in (and_block (block t l a bs) rest) =
      (if eq_str t (codes "definitions") then to_list bs else []) ++ definitions_in rest

  unfoldable pub all_definitions : List (Blocks V) → List (Block V)
  unfolding definitions_in
  all_definitions [] = []
  all_definitions (body ∷ bodies) = definitions_in body ++ all_definitions bodies

  abbrev pub is_labelled : (t label : Str) → Block V → Bool
  is_labelled t label (block t' [] a bs) = false
  is_labelled t label (block t' (label' ∷ ls) a bs) = eq_str t' t && eq_str label' label

  -- The last definition of a type with a label.
  unfoldable pub last_labelled : (t label : Str) → List (Block V) → Option (Block V)
  last_labelled t label [] = none
  last_labelled t label (b ∷ bs) =
      or_else (last_labelled t label bs) (if is_labelled t label b then some b else none)

  abbrev pub at_label : (t label : Str) → Definitions V → Option (Block V)
  at_label t label d = lookup label (labelled t d.definitions_block)

  labelled-insert :
      (t t' : Str) (n : List (Str × Block V)) (m : List (Str × List (Str × Block V)))
      → labelled t (insert t' n m) ≡ (if eq_str t' t then n else labelled t m)
  labelled-insert t t' n m =
      ap (λ o. elim o [ none ↦ [] | some n ↦ n ]) (lookup-insert t' t n m)
      ∙ ground (arith, Bool-cases (eq_str t' t))

  pub lookup-labelled-insert :
      (t t' label : Str) (n : List (Str × Block V)) (m : List (Str × List (Str × Block V)))
      → lookup label (labelled t (insert t' n m))
        ≡ (if eq_str t' t then lookup label n else lookup label (labelled t m))
  lookup-labelled-insert t t' label n m =
      ap (lookup label) (labelled-insert t t' n m) ∙ ground (arith, Bool-cases (eq_str t' t))

  -- A block that is put under its type and label.
  pub put-at_label :
      (t t' label l : Str) (b : Block V) (m : List (Str × List (Str × Block V)))
      → lookup label (labelled t (insert t' (insert l b (labelled t' m)) m))
        ≡ or_else
            (if eq_str t' t && eq_str l label then some b else none)
            (lookup label (labelled t m))
  put-at_label t t' label l b m =
      lookup-labelled-insert t t' label (insert l b (labelled t' m)) m
      ∙ elim (Bool-cases (eq_str t' t)) [
        | inl e ↦ ground (
          arith,
          e,
          lookup-insert l label b (labelled t' m),
          ap (λ s. lookup label (labelled s m)) ((eq_str_iff t' t).0 e),
          Bool-cases (eq_str l label),
        )
        | inr ne ↦ ground (arith, ne)
      ]

  module _ (attr_string_value : V → Result MergeError Str) where
    add_inner-at_label :
        (t label : Str) (b : Block V) (d d' : Definitions V)
        → eq_str t (codes "proxy") ≡ false
        → add_inner attr_string_value b d ≡ ok d'
        → at_label t label d'
          ≡ or_else (if is_labelled t label b then some b else none) (at_label t label d)
    unfolding add_inner
    add_inner-at_label t label (block t' [] a bs) d d' np h = absurd (ground (arith, h))
    add_inner-at_label t label (block t' (l ∷ ls) a bs) d d' np h =
        elim (Bool-cases (eq_str t' (codes "proxy"))) [
          | inr plain ↦
              let e : insert t'
                    (insert l (block t' (l ∷ ls) a bs) (labelled t' d.definitions_block))
                    d.definitions_block
                  ≡ d'.definitions_block =
                ground (arith, h, plain) in
              ap (λ m. lookup label (labelled t m)) (sym e)
              ∙ put-at_label t t' label l (block t' (l ∷ ls) a bs) d.definitions_block
          | inl is_proxy ↦
              let e : insert t' (labelled t' d.definitions_block) d.definitions_block
                  ≡ d'.definitions_block =
                ground (arith, h, is_proxy, Result-cases (proxy_name attr_string_value a)) in
              let apart : eq_str t' t ≡ false = elim (Bool-cases (eq_str t' t)) [
                | inr ne ↦ ne
                | inl same ↦ absurd (
                    ground (
                      arith,
                      np,
                      is_proxy,
                      ap (λ s. eq_str s (codes "proxy")) ((eq_str_iff t' t).0 same),
                    ))
              ] in
              ap (λ m. lookup label (labelled t m)) (sym e)
              ∙ lookup-labelled-insert t t' label (labelled t' d.definitions_block)
                  d.definitions_block
              ∙ ground (arith, apart)
        ]

    -- The definitions one after the other.
    unfoldable pub add_all : List (Block V) → Definitions V → Result Failure (Definitions V)
    unfolding check_inner add_inner
    add_all [] d = ok d
    add_all (b ∷ bs) d = elim (checked (check_inner b) (add_inner attr_string_value b d)) [
      | err e ↦ err e
      | ok d' ↦ add_all bs d'
    ]

    abbrev pub go_on :
        Result Failure (Definitions V)
        → (Definitions V → Result Failure (Definitions V))
        → Result Failure (Definitions V)
    go_on r f = elim r [ err e ↦ err e | ok d ↦ f d ]

    go_on-go_on :
        (r : Result Failure (Definitions V)) (f g : Definitions V → Result Failure (Definitions V))
        → go_on (go_on r f) g ≡ go_on r (λ d. go_on (f d) g)
    go_on-go_on (ok d) f g = refl
    go_on-go_on (err e) f g = refl

    go_on-ext :
        (r : Result Failure (Definitions V)) (f g : Definitions V → Result Failure (Definitions V))
        → ((d : Definitions V) → f d ≡ g d)
        → go_on r f ≡ go_on r g
    go_on-ext (ok d) f g h = h d
    go_on-ext (err e) f g h = refl

    add_all-append :
        (xs ys : List (Block V)) (d : Definitions V)
        → add_all (xs ++ ys) d ≡ go_on (add_all xs d) (add_all ys)
    unfolding add_all
    add_all-append [] ys d = refl
    add_all-append (b ∷ xs) ys d =
        let r = checked (check_inner b) (add_inner attr_string_value b d) in
        go_on-ext r (add_all (xs ++ ys)) (λ d. go_on (add_all xs d) (add_all ys))
          (add_all-append xs ys)
        ∙ sym (go_on-go_on r (add_all xs) (add_all ys))

    merge_inner-add_all :
        (bs : Blocks V) (d : Definitions V)
        → merge_inner attr_string_value bs d ≡ add_all (to_list bs) d
    unfolding merge_inner add_all
    merge_inner-add_all no_blocks d = refl
    merge_inner-add_all (and_block b bs) d =
        go_on-ext (checked (check_inner b) (add_inner attr_string_value b d))
          (merge_inner attr_string_value bs) (add_all (to_list bs)) (merge_inner-add_all bs)

    either_add_all :
        (b : Bool) (bs : Blocks V) (f : Definitions V → Result Failure (Definitions V))
        (ys : List (Block V)) (d : Definitions V)
        → ((d : Definitions V) → f d ≡ add_all ys d)
        → go_on (if b then merge_inner attr_string_value bs d else ok d) f
          ≡ add_all ((if b then to_list bs else []) ++ ys) d
    either_add_all false bs f ys d h = h d
    either_add_all true bs f ys d h =
        ap (λ r. go_on r f) (merge_inner-add_all bs d)
        ∙ go_on-ext (add_all (to_list bs) d) f (add_all ys) h
        ∙ sym (add_all-append (to_list bs) ys d)

    merge_outer-add_all :
        (bs : Blocks V) (d : Definitions V)
        → merge_outer attr_string_value bs d ≡ add_all (definitions_in bs) d
    unfolding merge_outer definitions_in add_all
    merge_outer-add_all no_blocks d = refl
    merge_outer-add_all (and_block (block t l a bs) rest) d =
        either_add_all (eq_str t (codes "definitions")) bs (merge_outer attr_string_value rest)
          (definitions_in rest) d (merge_outer-add_all rest)

    pub merge_bodies-add_all :
        (bodies : List (Blocks V)) (d : Definitions V)
        → merge_bodies attr_string_value bodies d ≡ add_all (all_definitions bodies) d
    unfolding merge_bodies all_definitions add_all
    merge_bodies-add_all [] d = refl
    merge_bodies-add_all (body ∷ bodies) d =
        ap (λ r. go_on r (merge_bodies attr_string_value bodies)) (merge_outer-add_all body d)
        ∙ go_on-ext (add_all (definitions_in body) d) (merge_bodies attr_string_value bodies)
            (add_all (all_definitions bodies)) (merge_bodies-add_all bodies)
        ∙ sym (add_all-append (definitions_in body) (all_definitions bodies) d)

    pub add_all-at_label :
        (t label : Str) (bs : List (Block V)) (d d' : Definitions V)
        → eq_str t (codes "proxy") ≡ false
        → add_all bs d ≡ ok d'
        → at_label t label d' ≡ or_else (last_labelled t label bs) (at_label t label d)
    unfolding add_all last_labelled
    add_all-at_label t label [] d d' np h =
        let e : d' ≡ d = ground (arith, h) in ap (at_label t label) e
    add_all-at_label t label (b ∷ bs) d d' np h =
        elim (Result-cases (checked (check_inner b) (add_inner attr_string_value b d))) [
          | inr (x, bad) ↦ absurd (ground (arith, h, bad))
          | inl (d1, good) ↦
              add_all-at_label t label bs d1 d' np (ground (arith, h, good))
              ∙ ap (or_else (last_labelled t label bs)) (
                  add_inner-at_label t label b d d1 np
                    (ground (arith, good, Result-cases (check_inner b))))
              ∙ sym (
                  or_else_assoc (last_labelled t label bs)
                    (if is_labelled t label b then some b else none) (at_label t label d))
        ]

  -- A block of the merged definitions.
  to_list-of_list : (bs : List (Block V)) → to_list (of_list bs) ≡ bs
  to_list-of_list [] = refl
  to_list-of_list (b ∷ bs) = ap (λ r. b ∷ r) (to_list-of_list bs)

  concat_blocks-In :
      (b : Block V) (ms : List (List (Str × Block V)))
      → In b (concat_blocks (sorted_each ms))
        ↔ ((m : List (Str × Block V)) × In m ms × In b (sorted_values m))
  unfolding concat_blocks sorted_each
  concat_blocks-In b [] = (λ h. elim h [ ], λ (m, at, _). elim at [ ])
  concat_blocks-In b (m ∷ ms) = (
    λ h. elim ((In-append b (sorted_values m) (concat_blocks (sorted_each ms))).0 h) [
      | inl l ↦ (m, inl refl, l)
      | inr r ↦ let (n, at, i) = (concat_blocks-In b ms).0 r in (n, inr at, i)
    ],
    λ (n, at, i). elim at [
      | inl e ↦
          (In-append b (sorted_values m) (concat_blocks (sorted_each ms))).1
            (inl (subst (λ x. In b (sorted_values x)) e i))
      | inr later ↦
          (In-append b (sorted_values m) (concat_blocks (sorted_each ms))).1
            (inr ((concat_blocks-In b ms).1 (n, later, i)))
    ],
  )

  abbrev or_empty : Str → Option (List (Str × Block V)) → Option (Block V)
  or_empty label o = lookup label (elim o [ none ↦ [] | some n ↦ n ])

  found-In :
      (b : Block V) (d : Definitions V) (t label : Str)
      → at_label t label d ≡ some b
      → (lookup t d.definitions_block ≡ none)
        ⊎ ((m : List (Str × Block V)) × (lookup t d.definitions_block ≡ some m))
      → In b (concat_blocks (sorted_each (sorted_values d.definitions_block)))
  unfolding lookup
  found-In b d t label e (inl out) = absurd (ground (arith, sym (ap (or_empty label) out) ∙ e))
  found-In b d t label e (inr (m, found)) =
      (concat_blocks-In b (sorted_values d.definitions_block)).1 (
        m,
        (sorted_values_iff m d.definitions_block).1 (t, found),
        (sorted_values_iff b m).1 (label, sym (ap (or_empty label) found) ∙ e),
      )

  pub definitions_of-In :
      (b : Block V) (d : Definitions V)
      → In b (to_list (blocks (definitions_of d)))
        ↔ ((t label : Str) × (at_label t label d ≡ some b))
  unfolding definitions_of
  definitions_of-In b d =
      let ms = sorted_values d.definitions_block in
      let flat = to_list-of_list (concat_blocks (sorted_each ms)) in
      (
        λ h.
            let (m, at, i) = (concat_blocks-In b ms).0 (subst (In b) flat h) in
            let (t, found) = (sorted_values_iff m d.definitions_block).0 at in
            let (label, e) = (sorted_values_iff b m).0 i in
            (t, label, ap (or_empty label) found ∙ e),
        λ (t, label, e).
            subst (In b) (sym flat)
              (found-In b d t label e (Option-cases (lookup t d.definitions_block))),
      )
