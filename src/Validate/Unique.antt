-- ===== src/Validate/Unique.antt =====
-- Which lists of definitions validateBody accepts.
use couper.Base.{
  ◌≡◌, refl, sym, ap, ◌∙◌, Bool, true, false, not, ◌&&◌, ◌||◌, List, [], ◌∷◌, Str, codes, eq_str,
  has_prefix, trim_space, mem_str, Bool-cases, if◌then◌else◌, arith, Result, ok, err,
}
use couper.Sequence.Resolve.{distinct}
use couper.Validate.Fresh.{fresh, fresh_nil, fresh-add_if, swap_and, swap_four, add_if, is_new}
use couper.Validate.{
  Kind, backend, access_control, jwt, jwt_signing_profile, proxy, other, kind, Refusal, Labels,
  no_labels, no_label_panic, missing_label, label_characters, valid_label, is_reserved_context_name,
  check_ac, check_jwt_signing_profiles, blocks_of_type, names_ca, validate_backend_tls,
  check_backend, check_jwt, check_kind, check_definition, check_definitions,
}

abbrev pub is_accepted : Result Refusal Labels → Bool
is_accepted (ok s) = true
is_accepted (err e) = false

-- Which labels of a definition must be unique, and among which others.
abbrev pub in_backends : (after_merge : Bool) → Kind → Bool
in_backends after_merge backend = not after_merge
in_backends after_merge k = false

abbrev pub in_access_controls : Kind → Bool
in_access_controls access_control = true
in_access_controls jwt = true
in_access_controls k = false

abbrev pub in_signing_profiles : (has_signing_ttl : Bool) → Kind → Bool
in_signing_profiles has_signing_ttl jwt_signing_profile = true
in_signing_profiles has_signing_ttl jwt = has_signing_ttl
in_signing_profiles has_signing_ttl k = false

abbrev pub in_proxies : (after_merge : Bool) → Kind → Bool
in_proxies after_merge proxy = not after_merge
in_proxies after_merge k = false

-- What a label must be like, before the merge.
abbrev pub is_label : Kind → Str → Bool
is_label backend l =
    not (eq_str l []) && label_characters l && not (has_prefix l (codes "anonymous_"))
is_label access_control l = not (eq_str l []) && not (is_reserved_context_name l)
is_label jwt l = not (eq_str l []) && not (is_reserved_context_name l)
is_label k l = true

abbrev after : Result Refusal Labels → (Labels → Bool) → Bool
after (ok s) f = f s
after (err e) f = false

unfoldable pub first_label : List Str → Str
first_label [] = []
first_label (l ∷ _) = trim_space l

unfoldable pub any_label : List Str → Bool
any_label [] = false
any_label (_ ∷ _) = true

accepted_after :
    (r : Result Refusal Labels) (f : Labels → Result Refusal Labels)
    → is_accepted (elim r [ err e ↦ err e | ok s ↦ f s ]) ≡ after r (λ s. is_accepted (f s))
accepted_after (ok s) f = refl
accepted_after (err e) f = refl

module _ {B : Type 0} (type_of : B → Str) (labels : B → List Str) (has_attribute : B → Str → Bool)
    (blocks : B → List B) (after_merge : Bool) where
  abbrev tls_fits : B → Bool
  tls_fits b = not (
      has_attribute b (codes "disable_certificate_validation")
      && names_ca type_of labels has_attribute blocks
          (blocks_of_type type_of labels has_attribute blocks (codes "tls") (blocks b)))

  abbrev fits : Kind → B → Str → Bool
  fits backend b l = (after_merge || is_label backend l) && tls_fits b
  fits k b l = after_merge || is_label k l

  abbrev has_signing_ttl : B → Bool
  has_signing_ttl b = has_attribute b (codes "signing_ttl")

  abbrev new_in : Kind → B → Str → Labels → Bool
  new_in k b l s =
      (is_new (in_backends after_merge k) l s.backends
        && is_new (in_access_controls k) l s.access_controls)
      && (is_new (in_signing_profiles (has_signing_ttl b) k) l s.signing_profiles
          && is_new (in_proxies after_merge k) l s.proxies)

  abbrev note : Kind → B → Str → Labels → Labels
  note k b l s = record {
    backends = add_if (in_backends after_merge k) l s.backends;
    access_controls = add_if (in_access_controls k) l s.access_controls;
    signing_profiles = add_if (in_signing_profiles (has_signing_ttl b) k) l s.signing_profiles;
    proxies = add_if (in_proxies after_merge k) l s.proxies;
  }

  check_ac-after :
      (l : Str) (s : Labels) (f : Labels → Bool)
      → after (check_ac after_merge l s) f ≡ (
          (after_merge || is_label access_control l)
          && not (mem_str l s.access_controls)
          && f (record s { access_controls = l ∷ s.access_controls }))
  unfolding check_ac
  check_ac-after l s f = ground (
    arith,
    Bool-cases after_merge,
    Bool-cases (eq_str l []),
    Bool-cases (is_reserved_context_name l),
    Bool-cases (mem_str l s.access_controls),
  )

  check_kind_lem :
      (k : Kind) (b : B) (l : Str) (s : Labels) (f : Labels → Bool)
      → after (check_kind type_of labels has_attribute blocks after_merge k b l s) f
        ≡ ((fits k b l && new_in k b l s) && f (note k b l s))
  unfolding check_kind check_ac check_backend check_jwt check_jwt_signing_profiles valid_label
      validate_backend_tls eq_str
  check_kind_lem backend b [] s f =
      ground
        (arith, Bool-cases after_merge, Bool-cases (mem_str [] s.backends), Bool-cases (tls_fits b))
  check_kind_lem backend b (c ∷ cs) s f = ground (
    arith,
    Bool-cases after_merge,
    Bool-cases (label_characters (c ∷ cs)),
    Bool-cases (has_prefix (c ∷ cs) (codes "anonymous_")),
    Bool-cases (mem_str (c ∷ cs) s.backends),
    Bool-cases (tls_fits b),
  )
  check_kind_lem access_control b l s f = ground (
    arith,
    check_ac-after l s f,
    Bool-cases (fits access_control b l),
    Bool-cases (mem_str l s.access_controls),
  )
  check_kind_lem jwt b l s f = ground (
    arith,
    Bool-cases after_merge,
    Bool-cases (eq_str l []),
    Bool-cases (is_reserved_context_name l),
    Bool-cases (mem_str l s.access_controls),
    Bool-cases (has_signing_ttl b),
    Bool-cases (mem_str l s.signing_profiles),
  )
  check_kind_lem jwt_signing_profile b l s f =
      ground (arith, Bool-cases after_merge, Bool-cases (mem_str l s.signing_profiles))
  check_kind_lem proxy b l s f =
      ground (arith, Bool-cases after_merge, Bool-cases (mem_str l s.proxies))
  check_kind_lem other b l s f = ground (arith, Bool-cases after_merge)

  abbrev pub kind_of : B → Kind
  kind_of b = kind (type_of b)

  abbrev pub has_label : B → Bool
  has_label b = any_label (labels b)

  abbrev pub label_of : B → Str
  label_of b = first_label (labels b)

  -- Every definition on its own.
  unfoldable pub all_fit : List B → Bool
  all_fit [] = true
  all_fit (b ∷ bs) = (has_label b && fits (kind_of b) b (label_of b)) && all_fit bs

  unfoldable pub labels_where : (B → Bool) → List B → List Str
  labels_where p [] = []
  labels_where p (b ∷ bs) = add_if (p b) (label_of b) (labels_where p bs)

  abbrev pub backend_labels : List B → List Str
  backend_labels = labels_where (λ b. in_backends after_merge (kind_of b))

  abbrev pub access_control_labels : List B → List Str
  access_control_labels = labels_where (λ b. in_access_controls (kind_of b))

  abbrev pub signing_profile_labels : List B → List Str
  signing_profile_labels = labels_where (λ b. in_signing_profiles (has_signing_ttl b) (kind_of b))

  abbrev pub proxy_labels : List B → List Str
  proxy_labels = labels_where (λ b. in_proxies after_merge (kind_of b))

  unfoldable all_fresh : List B → Labels → Bool
  all_fresh bs s =
      (fresh s.backends (backend_labels bs) && fresh s.access_controls (access_control_labels bs))
      && (fresh s.signing_profiles (signing_profile_labels bs) && fresh s.proxies (proxy_labels bs))

  all_fresh-cons :
      (b : B) (bs : List B) (s : Labels)
      → all_fresh (b ∷ bs) s
        ≡ (new_in (kind_of b) b (label_of b) s && all_fresh bs (note (kind_of b) b (label_of b) s))
  unfolding all_fresh labels_where
  all_fresh-cons b bs s =
      rw
        (
          fresh-add_if (in_backends after_merge (kind_of b)) (label_of b) s.backends
              (backend_labels bs),
          fresh-add_if (in_access_controls (kind_of b)) (label_of b) s.access_controls
              (access_control_labels bs),
          fresh-add_if (in_signing_profiles (has_signing_ttl b) (kind_of b)) (label_of b)
              s.signing_profiles (signing_profile_labels bs),
          fresh-add_if (in_proxies after_merge (kind_of b)) (label_of b) s.proxies
              (proxy_labels bs),
        )
        (swap_four (is_new (in_backends after_merge (kind_of b)) (label_of b) s.backends)
          (fresh (add_if (in_backends after_merge (kind_of b)) (label_of b) s.backends)
            (backend_labels bs))
          (is_new (in_access_controls (kind_of b)) (label_of b) s.access_controls)
          (fresh (add_if (in_access_controls (kind_of b)) (label_of b) s.access_controls)
            (access_control_labels bs))
          (is_new (in_signing_profiles (has_signing_ttl b) (kind_of b)) (label_of b)
            s.signing_profiles)
          (fresh
            (add_if (in_signing_profiles (has_signing_ttl b) (kind_of b)) (label_of b)
              s.signing_profiles)
            (signing_profile_labels bs))
          (is_new (in_proxies after_merge (kind_of b)) (label_of b) s.proxies)
          (fresh (add_if (in_proxies after_merge (kind_of b)) (label_of b) s.proxies)
            (proxy_labels bs)))

  check_labels_lem :
      (ls : List Str) (b : B) (s : Labels) (f : Labels → Bool)
      → after
          (elim ls [
            | [] ↦ err (if after_merge then no_label_panic else missing_label)
            | l ∷ _ ↦
                check_kind type_of labels has_attribute blocks after_merge
                  (kind_of b)
                  b
                  (trim_space l)
                  s
          ])
          f
        ≡ (((any_label ls && fits (kind_of b) b (first_label ls))
              && new_in (kind_of b) b (first_label ls) s)
            && f (note (kind_of b) b (first_label ls) s))
  unfolding any_label first_label
  check_labels_lem [] b s f = refl
  check_labels_lem (l ∷ _) b s f = check_kind_lem (kind_of b) b (trim_space l) s f

  check_definition_lem :
      (b : B) (s : Labels) (f : Labels → Bool)
      → after (check_definition type_of labels has_attribute blocks after_merge b s) f ≡ (
          ((has_label b && fits (kind_of b) b (label_of b)) && new_in (kind_of b) b (label_of b) s)
          && f (note (kind_of b) b (label_of b) s))
  unfolding check_definition
  check_definition_lem b s f = check_labels_lem (labels b) b s f

  check_definitions_lem :
      (bs : List B) (s : Labels)
      → is_accepted (check_definitions type_of labels has_attribute blocks after_merge bs s)
        ≡ (all_fit bs && all_fresh bs s)
  unfolding check_definitions all_fit all_fresh fresh labels_where
  check_definitions_lem [] s = refl
  check_definitions_lem (b ∷ bs) s =
      let t = note (kind_of b) b (label_of b) s in
      accepted_after (check_definition type_of labels has_attribute blocks after_merge b s)
        (check_definitions type_of labels has_attribute blocks after_merge bs)
      ∙ check_definition_lem b s (λ s'.
        is_accepted (check_definitions type_of labels has_attribute blocks after_merge bs s'))
      ∙ ap
          (λ x.
            ((has_label b && fits (kind_of b) b (label_of b))
              && new_in (kind_of b) b (label_of b) s)
            && x)
          (check_definitions_lem bs t)
      ∙ swap_and (has_label b && fits (kind_of b) b (label_of b))
          (new_in (kind_of b) b (label_of b) s) (all_fit bs) (all_fresh bs t)
      ∙ ap (λ x. all_fit (b ∷ bs) && x) (sym (all_fresh-cons b bs s))

  -- A definitions block is accepted exactly when each block in it has a label and fits on its own,
  -- and the trimmed labels are different within each of these groups: backends, access controls
  -- (those of basic_auth, beta_oauth2, oidc, saml and jwt), signing profiles (those of
  -- jwt_signing_profile and of a jwt with signing_ttl), and proxies, where backends and proxies
  -- count only before the merge. To fit, before the merge, a backend needs a label of letters,
  -- digits and underscores that does not start with "anonymous_", an access control one that is
  -- neither empty nor reserved; and a backend never disables the validation of certificates along
  -- with a CA in its first tls block.
  pub check_definitions-accepts :
      (bs : List B)
      → is_accepted (check_definitions type_of labels has_attribute blocks after_merge bs no_labels)
        ≡ (all_fit bs
            && ((distinct (backend_labels bs) && distinct (access_control_labels bs))
                && (distinct (signing_profile_labels bs) && distinct (proxy_labels bs))))
  unfolding all_fresh
  check_definitions-accepts bs =
      check_definitions_lem bs no_labels
      ∙ rw
          (
            fresh_nil (backend_labels bs),
            fresh_nil (access_control_labels bs),
            fresh_nil (signing_profile_labels bs),
            fresh_nil (proxy_labels bs),
          )
          refl
