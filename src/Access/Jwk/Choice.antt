-- ===== src/Access/Jwk/Choice.antt =====
-- Which key is chosen for a token.
use couper.Base.{
  ◌≡◌, refl, ap, ◌∙◌, sym, inl, inr, ◌&&◌, ◌||◌, Bool, true, false, List, [], ◌∷◌, Option, none,
  some, In, Str, codes, eq_str, eq_str_iff, Result, ok, err, Option-cases, Bool-cases, arith,
  if◌then◌else◌,
}
use couper.SyncedJson.{FetchError}
use couper.Access.Jwk.{
  Key, Jwk, RawJwk, Element, null, invalid, raw_jwk, alg_to_kty, key_of, unmarshal_json, keys_of,
  KeyError, no_valid_data, missing_key_data, nil_pointer, Header, absent, other, text, with_id,
  get_keys, is_type, first_key, get_key, choose_key, get_sig_key_for_token,
}

abbrev pub text_of : Header → Str
text_of (text s) = s
text_of h = []

module _ {C : Type 0} where
  -- A key for an algorithm and a use, by its own algorithm, or by its type if it names none.
  unfoldable pub fits : (kid alg use_for : Str) → Jwk C → Bool
  fits kid alg use_for key =
      eq_str key.key_id kid
      && eq_str key.use_for use_for
      && (eq_str key.algorithm alg
          || eq_str key.algorithm [] && is_type (alg_to_kty alg) key.key_type)

  unfoldable pub first_that : (Jwk C → Bool) → List (Option (Jwk C)) → Option (Jwk C)
  first_that p [] = none
  first_that p (none ∷ keys) = first_that p keys
  first_that p (some key ∷ keys) =
      let later = first_that p keys in if p key then some key else later

  unfoldable pub has_null : List (Option (Jwk C)) → Bool
  has_null [] = false
  has_null (none ∷ keys) = true
  has_null (some key ∷ keys) = has_null keys

module _ {C E : Type 0} where
  abbrev then_first :
      (alg use_for : Str)
      → Result (KeyError E) (List (Jwk C))
      → Result (KeyError E) (Option (Jwk C))
  then_first alg use_for (err e) = err e
  then_first alg use_for (ok keys) = ok (first_key alg use_for keys)

  abbrev add_first :
      Bool → Jwk C → Result (KeyError E) (Option (Jwk C)) → Result (KeyError E) (Option (Jwk C))
  add_first p key (err e) = err e
  add_first p key (ok later) = ok (if p then some key else later)

  abbrev add_found :
      Bool → Jwk C → Result (KeyError E) (List (Jwk C)) → Result (KeyError E) (List (Jwk C))
  add_found p key r = elim r [ err e ↦ err e | ok found ↦ ok (if p then key ∷ found else found) ]

  found-first :
      (kid alg use_for : Str) (key : Jwk C) (r : Result (KeyError E) (List (Jwk C)))
      → then_first alg use_for (add_found (eq_str key.key_id kid) key r)
        ≡ add_first (fits kid alg use_for key) key (then_first alg use_for r)
  unfolding fits first_key
  found-first kid alg use_for key (err e) = refl
  found-first kid alg use_for key (ok found) = ground (
    arith,
    Bool-cases (eq_str key.key_id kid),
    Bool-cases (eq_str key.use_for use_for),
    Bool-cases (eq_str key.algorithm alg),
    Bool-cases (eq_str key.algorithm []),
    Bool-cases (is_type (alg_to_kty alg) key.key_type),
  )

  with_id-first :
      (kid alg use_for : Str) (keys : List (Option (Jwk C)))
      → then_first alg use_for (with_id kid keys)
        ≡ (if has_null keys then err nil_pointer else ok (first_that (fits kid alg use_for) keys))
  unfolding with_id has_null first_that first_key
  with_id-first kid alg use_for [] = refl
  with_id-first kid alg use_for (none ∷ keys) = refl
  with_id-first kid alg use_for (some key ∷ keys) =
      found-first kid alg use_for key (with_id kid keys)
      ∙ ap (add_first (fits kid alg use_for key) key) (with_id-first kid alg use_for keys)
      ∙ ground (arith, Bool-cases (has_null keys))

  -- The keys of the answer of the synced object, if there is one.
  abbrev pub choice :
      (kid alg use_for : Str)
      → Option (List (Option (Jwk C))) × Option (FetchError E)
      → Result (KeyError E) (Option (Jwk C))
  choice kid alg use_for (none, e) = err (no_valid_data e)
  choice kid alg use_for (some [], e) = err missing_key_data
  choice kid alg use_for (some (key ∷ keys), e) =
      if has_null (key ∷ keys)
      then err nil_pointer
      else ok (first_that (fits kid alg use_for) (key ∷ keys))

  -- GetKey returns an error without a document and without keys, panics if one of the keys is null,
  -- and else gives the first key with the key id and the use whose algorithm is the wanted one, or
  -- which names no algorithm and has the type of the wanted one; or no key.
  pub get_key_lem :
      (kid alg use_for : Str) (answer : Option (List (Option (Jwk C))) × Option (FetchError E))
      → get_key kid alg use_for answer ≡ choice kid alg use_for answer
  unfolding get_key get_keys
  get_key_lem kid alg use_for (none, e) = refl
  get_key_lem kid alg use_for (some [], e) = refl
  get_key_lem kid alg use_for (some (key ∷ keys), e) = with_id-first kid alg use_for (key ∷ keys)

module _ {C : Type 0} where
  first_that-In :
      (p : Jwk C → Bool) (keys : List (Option (Jwk C))) (key : Jwk C)
      → first_that p keys ≡ some key
      → In (some key) keys × (p key ≡ true)
  unfolding first_that
  first_that-In p [] key h = absurd (ground (arith, h))
  first_that-In p (none ∷ keys) key h = let (at, t) = first_that-In p keys key h in (inr at, t)
  first_that-In p (some k ∷ keys) key h = elim (Bool-cases (p k)) [
    | inl t ↦ let e : k ≡ key = ground (arith, h, t) in (inl (ap some (sym e)), ap p (sym e) ∙ t)
    | inr f ↦ let (at, t) = first_that-In p keys key (ground (arith, h, f)) in (inr at, t)
  ]

module _ {C : Type 0} (parse_certificate : Str → Option (Option C)) where
  fits-use :
      (kid alg use_for : Str) (key : Jwk C)
      → fits kid alg use_for key ≡ true
      → (key.key_id ≡ kid) × (key.use_for ≡ use_for)
  unfolding fits
  fits-use kid alg use_for key f = (
    (eq_str_iff key.key_id kid).0 (ground (arith, f, Bool-cases (eq_str key.key_id kid))),
    (eq_str_iff key.use_for use_for).0 (
        ground
          (arith, f, Bool-cases (eq_str key.key_id kid), Bool-cases (eq_str key.use_for use_for))),
  )

  -- An entry of the document that gives a key.
  abbrev pub IsFrom : List Element → Jwk C → Type 0
  IsFrom es key = (e : Element) × In e es × (unmarshal_json parse_certificate e ≡ some key)

  keys_of-IsFrom :
      (es : List Element) (key : Jwk C)
      → In (some key) (keys_of parse_certificate es)
      → IsFrom es key
  unfolding keys_of
  keys_of-IsFrom [] key h = elim h [ ]
  keys_of-IsFrom (e ∷ es) key (inl h) = (e, inl refl, sym h)
  keys_of-IsFrom (e ∷ es) key (inr h) = let (d, at, eq) = keys_of-IsFrom es key h in (d, inr at, eq)

  -- The entry that a key with a use was made of.
  abbrev pub IsMadeOf : List Element → Key C → (kid use_for : Str) → Type 0
  IsMadeOf es k kid use_for =
      (raw : RawJwk) × In (raw_jwk raw) es
      × (key_of parse_certificate raw ≡ some k)
      × (raw.kid ≡ kid)
      × (raw.use_for ≡ use_for)

  jwk-IsMadeOf :
      (es : List Element) (e : Element) (key : Jwk C) (kid : Str)
      → In e es
      → unmarshal_json parse_certificate e ≡ some key
      → key.key_id ≡ kid
      → key.use_for ≡ codes "sig"
      → (k : Key C) × (key.key ≡ some k) × IsMadeOf es k kid (codes "sig")
  unfolding unmarshal_json
  jwk-IsMadeOf es null key kid at h i u = absurd (ground (arith, h))
  jwk-IsMadeOf es invalid key kid at h i u = absurd (ground (arith, h, u))
  jwk-IsMadeOf es (raw_jwk raw) key kid at h i u =
      elim (Option-cases (key_of parse_certificate raw)) [
        | inl ignored ↦ absurd (ground (arith, h, u, ignored))
        | inr (k, made) ↦ (
          k,
          ground (arith, h, made),
          (raw, at, made, ground (arith, h, made, i), ground (arith, h, made, u)),
        )
      ]

module _ {C E : Type 0} (parse_certificate : Str → Option (Option C)) where
  choice-first :
      (keys : List (Option (Jwk C))) (e : Option (FetchError E)) (alg kid : Str)
      (k : Option (Key C))
      → choose_key (choice kid alg (codes "sig") (some keys, e)) ≡ ok k
      → (jwk : Jwk C) × (first_that (fits kid alg (codes "sig")) keys ≡ some jwk) × (jwk.key ≡ k)
  choice-first [] e alg kid k h = absurd (ground (arith, h))
  choice-first (key ∷ keys) e alg kid k h =
      elim (Option-cases (first_that (fits kid alg (codes "sig")) (key ∷ keys))) [
        | inl nothing ↦ absurd (ground (arith, h, nothing, Bool-cases (has_null (key ∷ keys))))
        | inr (jwk, found) ↦
            (jwk, found, ground (arith, h, found, Bool-cases (has_null (key ∷ keys))))
      ]

  choice-IsMadeOf :
      (es : List Element) (e : Option (FetchError E)) (alg kid : Str) (k : Option (Key C))
      → choose_key (choice kid alg (codes "sig") (some (keys_of parse_certificate es), e)) ≡ ok k
      → (v : Key C) × (k ≡ some v) × IsMadeOf parse_certificate es v kid (codes "sig")
  choice-IsMadeOf es e alg kid k h =
      let keys = keys_of parse_certificate es in
      let (jwk, found, same) = choice-first keys e alg kid k h in
      let (at, fit) = first_that-In (fits kid alg (codes "sig")) keys jwk found in
      let (i, u) = fits-use parse_certificate kid alg (codes "sig") jwk fit in
      let (d, place, made) = keys_of-IsFrom parse_certificate es jwk at in
      let (v, eq, from) = jwk-IsMadeOf parse_certificate es d jwk kid place made i u in
      (v, sym same ∙ eq, from)

  -- A key that is found for a token in a document of any elements is never nil: it is the key that
  -- UnmarshalJSON makes of an entry of this document whose key id is that of the token, the empty
  -- one if it has none, and whose use is "sig".
  pub get_sig_key_for_token-IsMadeOf :
      (es : List Element) (e : Option (FetchError E)) (alg id : Header) (k : Option (Key C))
      → get_sig_key_for_token alg id (some (keys_of parse_certificate es), e) ≡ ok k
      → (v : Key C) × (k ≡ some v) × IsMadeOf parse_certificate es v (text_of id) (codes "sig")
  unfolding get_sig_key_for_token
  get_sig_key_for_token-IsMadeOf es e absent id k h = absurd (ground (arith, h))
  get_sig_key_for_token-IsMadeOf es e other id k h = absurd (ground (arith, h))
  get_sig_key_for_token-IsMadeOf es e (text alg) other k h = absurd (ground (arith, h))
  get_sig_key_for_token-IsMadeOf es e (text alg) absent k h = choice-IsMadeOf es e alg [] k (
      ap choose_key
        (sym (get_key_lem [] alg (codes "sig") (some (keys_of parse_certificate es), e)))
      ∙ h)
  get_sig_key_for_token-IsMadeOf es e (text alg) (text kid) k h = choice-IsMadeOf es e alg kid k (
      ap choose_key
        (sym (get_key_lem kid alg (codes "sig") (some (keys_of parse_certificate es), e)))
      ∙ h)
