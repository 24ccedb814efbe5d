-- ===== src/Merge/Fits.antt =====
-- Which definitions pass the checks of mergeDefinitions.
use couper.Base.{
  Option-cases, lookup, none, some, ℕ, suc, ltb, ◌≡◌, refl, ap, ◌∙◌, inl, inr, Bool, true, false,
  not, ◌&&◌, ◌||◌, List, [], ◌∷◌, Str, codes, eq_str, eq_str_iff, Result, Result-cases, ok, err,
  arith, Bool-cases, if◌then◌else◌,
}
use mathlib.Core.Path.{subst}
use couper.Merge.{
  Block, block, Blocks, no_blocks, and_block, MergeError, multiple_backends, Failure, raised,
  index_panic,
}
use couper.Merge.Backends.{
  backend, with_attribute, is_single, with_attribute-is_single, add_backend, check_in_backend,
  check_in_backend-ok, check_for_multiple_backends, check_for_multiple_backends-accepts, is_ok,
  tokens_fit, reached, senders_fit, number_of_backends, has_one, IsCount, if_IsCount,
  add_backend-IsCount,
}
use couper.Merge.Definitions.{
  and_then, checked, count_inner, at_most_one, check_inner, proxy_name, add_inner, Definitions,
}

and_then-IsCount :
    (first : Result MergeError (Unit {0})) (r : Result MergeError ℕ) (fit : Bool) (n : ℕ)
    → IsCount fit n r
    → IsCount (is_ok first && fit) n (and_then first r)
and_then-IsCount (ok _) r fit n h = h
and_then-IsCount (err e) r fit n h = refl

handler_is_no_backend :
    (t : Str) → eq_str t (codes "error_handler") ≡ true → eq_str t backend ≡ false
unfolding eq_str
handler_is_no_backend t h = ap (λ s. eq_str s backend) ((eq_str_iff t (codes "error_handler")).0 h)

abbrev pub has_label : List Str → Bool
has_label [] = false
has_label (l ∷ ls) = true

pub and_then-ok :
    {A : Type 0} (first : Result MergeError (Unit {0})) (r : Result MergeError A)
    → is_ok (and_then first r) ≡ (is_ok first && is_ok r)
and_then-ok (ok _) r = refl
and_then-ok (err e) r = refl

pub checked-ok :
    {A : Type 0} (first : Result MergeError (Unit {0})) (r : Result Failure A)
    → is_ok (checked first r) ≡ (is_ok first && is_ok r)
checked-ok (ok _) r = refl
checked-ok (err e) r = refl

abbrev pub is_panic : {A : Type 0} → Result Failure A → Bool
is_panic (ok a) = false
is_panic (err (raised e)) = false
is_panic (err index_panic) = true

pub checked-is_panic :
    {A : Type 0} (first : Result MergeError (Unit {0})) (r : Result Failure A)
    → is_panic (checked first r) ≡ (is_ok first && is_panic r)
checked-is_panic (ok _) r = refl
checked-is_panic (err e) r = refl

module _ {V : Type 0} where
  -- The error handlers and the backends of a definition.
  unfoldable pub inner_fit : Blocks V → Bool
  inner_fit no_blocks = true
  inner_fit (and_block (block t l a bs) rest) =
      (if eq_str t (codes "error_handler")
        then senders_fit (reached bs)
        else not (eq_str t backend) || tokens_fit bs)
      && inner_fit rest

  count_inner-IsCount :
      (bs : Blocks V) → IsCount (inner_fit bs) (number_of_backends bs) (count_inner bs)
  unfolding count_inner inner_fit number_of_backends
  count_inner-IsCount no_blocks = (refl, refl)
  count_inner-IsCount (and_block (block t l a bs) rest) =
      elim (Bool-cases (eq_str t (codes "error_handler"))) [
        | inl h ↦
            rw (h, handler_is_no_backend t h)
              (subst
                (λ f.
                  IsCount (f && inner_fit rest) (number_of_backends rest)
                    (and_then (check_for_multiple_backends bs) (count_inner rest)))
                (check_for_multiple_backends-accepts bs)
                (and_then-IsCount (check_for_multiple_backends bs) (count_inner rest)
                  (inner_fit rest) (number_of_backends rest) (count_inner-IsCount rest)))
        | inr h ↦ rw h (
            if_IsCount (eq_str t backend) (add_backend (check_in_backend bs) (count_inner rest))
              (count_inner rest) (tokens_fit bs) (inner_fit rest) (number_of_backends rest)
              (subst
                (λ f.
                  IsCount (f && inner_fit rest) (suc (number_of_backends rest))
                    (add_backend (check_in_backend bs) (count_inner rest)))
                (check_in_backend-ok bs)
                (add_backend-IsCount (inner_fit rest) (number_of_backends rest)
                  (check_in_backend bs) (count_inner rest) (count_inner-IsCount rest)))
              (count_inner-IsCount rest))
      ]

  at_most_one-ok :
      (t : Str) (a : List (Str × V)) (r : Result MergeError ℕ) (fit : Bool) (n : ℕ)
      → IsCount fit n r
      → is_ok (at_most_one t a r) ≡ (fit && is_single a n)
  at_most_one-ok t a (err e) fit n h = ground (arith, h)
  at_most_one-ok t a (ok m) fit n (f, same) =
      ap (λ k. is_ok (if ltb 1 (with_attribute a k) then err (multiple_backends t) else ok tt)) same
      ∙ ground (arith, f, with_attribute-is_single a n, Bool-cases (ltb 1 (with_attribute a n)))

  -- The name of a proxy, if there is one, is a string.
  abbrev pub is_named : (V → Result MergeError Str) → List (Str × V) → Bool
  is_named attr_string_value a = elim (lookup (codes "name") a) [
    | none ↦ true
    | some attr ↦ is_ok (attr_string_value attr)
  ]

  proxy_name-ok :
      (attr_string_value : V → Result MergeError Str) (a : List (Str × V))
      → is_ok (proxy_name attr_string_value a) ≡ is_named attr_string_value a
  unfolding proxy_name
  proxy_name-ok attr_string_value a = ground (arith, Option-cases (lookup (codes "name") a))

  -- The backends of a definition are single.
  abbrev pub checks_fit : Block V → Bool
  checks_fit (block t ls a bs) =
      (not (eq_str t backend) || tokens_fit bs) && (inner_fit bs && has_one a bs)

  -- A definition whose merge panics: its backends are single, and it has no label.
  abbrev pub is_unlabelled : Block V → Bool
  is_unlabelled (block t ls a bs) = checks_fit (block t ls a bs) && not (has_label ls)

  -- A definition that is merged: it and its blocks have one backend at most, it has a label, and a
  -- proxy has no other name than a string.
  abbrev pub definition_fits : (V → Result MergeError Str) → Block V → Bool
  definition_fits attr_string_value (block t ls a bs) =
      ((not (eq_str t backend) || tokens_fit bs) && (inner_fit bs && has_one a bs))
      && (has_label ls && (not (eq_str t (codes "proxy")) || is_named attr_string_value a))

  pub check_inner-ok :
      (t : Str) (ls : List Str) (a : List (Str × V)) (bs : Blocks V)
      → is_ok (check_inner (block t ls a bs))
        ≡ ((not (eq_str t backend) || tokens_fit bs) && (inner_fit bs && has_one a bs))
  unfolding check_inner
  check_inner-ok t ls a bs = ground (
    arith,
    and_then-ok (if eq_str t backend then check_in_backend bs else ok tt)
        (at_most_one t a (count_inner bs)),
    at_most_one-ok t a (count_inner bs) (inner_fit bs) (number_of_backends bs)
        (count_inner-IsCount bs),
    check_in_backend-ok bs,
    Bool-cases (eq_str t backend),
  )

  pub add_inner-ok :
      (attr_string_value : V → Result MergeError Str) (t : Str) (ls : List Str) (a : List (Str × V))
      (bs : Blocks V) (d : Definitions V)
      → is_ok (add_inner attr_string_value (block t ls a bs) d)
        ≡ (has_label ls && (not (eq_str t (codes "proxy")) || is_named attr_string_value a))
  unfolding add_inner
  add_inner-ok attr_string_value t [] a bs d = refl
  add_inner-ok attr_string_value t (l ∷ ls) a bs d = ground (
    arith,
    Bool-cases (eq_str t (codes "proxy")),
    proxy_name-ok attr_string_value a,
    Result-cases (proxy_name attr_string_value a),
  )

  pub add_inner-is_panic :
      (attr_string_value : V → Result MergeError Str) (t : Str) (ls : List Str) (a : List (Str × V))
      (bs : Blocks V) (d : Definitions V)
      → is_panic (add_inner attr_string_value (block t ls a bs) d) ≡ not (has_label ls)
  unfolding add_inner
  add_inner-is_panic attr_string_value t [] a bs d = refl
  add_inner-is_panic attr_string_value t (l ∷ ls) a bs d =
      ground (
        arith,
        Bool-cases (eq_str t (codes "proxy")),
        Result-cases (proxy_name attr_string_value a),
      )
