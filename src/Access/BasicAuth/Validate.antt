-- ===== src/Access/BasicAuth/Validate.antt =====
-- Which credentials are accepted.
use couper.Base.{
  ◌≡◌, ◌≢◌, ◌↔◌, refl, inl, inr, ◌⊎◌, Bool, true, false, [], ◌∷◌, none, some, arith, Str, eq_str,
  eq_str_iff, lookup, HasDistinctKeys, IsAbsent, Bool-cases, Option-cases,
}
use mathlib.Core.Path.{subst}
use couper.Access.BasicAuth.{
  BasicAuth, HtData, Pwd, granted, takes, validate_access_data, validate_file, validate, is_nil,
}

apart : {s t : Str} → eq_str s t ≡ false → s ≢ t
apart {s} {t} ne e = ground (arith, ne, (eq_str_iff s t).1 e)

neither : {s t u v : Str} → (s ≢ t) ⊎ (u ≡ v) → s ≡ t → u ≢ v → ⊥
neither (inl a) b c = a b
neither (inr a) b c = c a

module _ (digest : Str → Str) (compare : (hash pass : Str) → Bool) where
  -- The entry of the file that takes the password.
  abbrev pub FileTakes : HtData → (user pass : Str) → Type 0
  FileTakes ht user pass =
      (p : Pwd) × (lookup user ht ≡ some p) × (takes digest compare p pass ≡ true)

  file_takes : HtData → (user pass : Str) → Bool
  file_takes ht user pass = elim (lookup user ht) [
    | none ↦ false
    | some p ↦ takes digest compare p pass
  ]

  absent :
      (user pass : Str) (ht : HtData)
      → IsAbsent user ht
      → validate_access_data digest compare user pass ht ≡ false
  unfolding validate_access_data
  absent user pass [] h = refl
  absent user pass ((u, p) ∷ ht) h = ground (arith, h, absent user pass ht)

  validate_access_data_lem :
      (user pass : Str) (ht : HtData)
      → HasDistinctKeys ht
      → validate_access_data digest compare user pass ht ≡ file_takes ht user pass
  unfolding validate_access_data file_takes lookup
  validate_access_data_lem user pass [] d = refl
  validate_access_data_lem user pass ((u, p) ∷ ht) d = elim (Bool-cases (eq_str u user)) [
    | inl same ↦ ground (
      arith,
      same,
      absent user pass ht (subst (λ s. IsAbsent s ht) ((eq_str_iff u user).0 same) d.0),
      Bool-cases (takes digest compare p pass),
    )
    | inr ne ↦ ground (arith, ne, validate_access_data_lem user pass ht d.1)
  ]

  file_takes_iff :
      (ht : HtData) (user pass : Str) → (file_takes ht user pass ≡ true) ↔ FileTakes ht user pass
  unfolding file_takes
  file_takes_iff ht user pass = elim (Option-cases (lookup user ht)) [
    | inl missed ↦ (
      λ h. absurd (ground (arith, h, missed)),
      λ (p, found, t). absurd (ground (arith, found, missed)),
    )
    | inr (p, found) ↦
        (λ h. (p, found, ground (arith, h, found)), λ (q, found', t). ground (arith, found', t))
  ]

  not_nil : (ht : HtData) (user pass : Str) → FileTakes ht user pass → is_nil ht ≡ false
  unfolding lookup
  not_nil [] user pass (p, found, t) = absurd (ground (arith, found))
  not_nil (e ∷ ht) user pass t = refl

  granted_file :
      (ba : BasicAuth) (user pass : Str)
      → HasDistinctKeys ba.ht_file
      → (validate_file digest compare ba user pass ≡ granted user) ↔ FileTakes ba.ht_file user pass
  unfolding validate_file
  granted_file ba user pass d =
      let (there, back) = file_takes_iff ba.ht_file user pass in
      let same = validate_access_data_lem user pass ba.ht_file d in
      (
        λ h. there (ground (arith, h, same, Bool-cases (is_nil ba.ht_file))),
        λ t. ground (arith, same, back t, not_nil ba.ht_file user pass t),
      )

  -- For a file in which no user stands twice, credentials are accepted, for their own user, exactly
  -- when they are the configured user with the configured password, which is not empty, or, if
  -- another user or no password is configured, when the entry of the file for the user takes the
  -- password.
  pub validate-granted_iff :
      (ba : BasicAuth) (prefix : Bool) (user pass : Str)
      → HasDistinctKeys ba.ht_file
      → (validate digest compare (some ba) prefix (some (user, pass)) ≡ granted user) ↔ (
          ((ba.user ≡ user) × (ba.pass ≢ []) × (ba.pass ≡ pass))
          ⊎ (((ba.user ≢ user) ⊎ (ba.pass ≡ [])) × FileTakes ba.ht_file user pass))
  unfolding validate
  validate-granted_iff ba prefix user pass d =
      let (there, back) = granted_file ba user pass d in
      elim (Bool-cases (eq_str ba.user user)) [
        | inr other ↦ (
          λ h. inr (inl (apart other), there (ground (arith, h, other))),
          λ h. elim h [
            | inl (same, some_pass, right) ↦ absurd (apart other same)
            | inr (c, t) ↦ ground (arith, other, back t)
          ],
        )
        | inl same ↦ elim (Bool-cases (eq_str ba.pass [])) [
          | inl no_pass ↦ (
            λ h. inr (
              inr ((eq_str_iff ba.pass []).0 no_pass),
              there (ground (arith, h, same, no_pass, Bool-cases (is_nil ba.ht_file))),
            ),
            λ h. elim h [
              | inl (u, some_pass, right) ↦ absurd (some_pass ((eq_str_iff ba.pass []).0 no_pass))
              | inr (c, t) ↦ ground (arith, same, no_pass, back t, not_nil ba.ht_file user pass t)
            ],
          )
          | inr has_pass ↦ (
            λ h. inl (
              (eq_str_iff ba.user user).0 same,
              apart has_pass,
              (eq_str_iff ba.pass pass).0
                  (ground (arith, h, same, has_pass, Bool-cases (eq_str ba.pass pass))),
            ),
            λ h. elim h [
              | inl (u, some_pass, right) ↦
                  ground (arith, same, has_pass, (eq_str_iff ba.pass pass).1 right)
              | inr (c, t) ↦ absurd (neither c ((eq_str_iff ba.user user).0 same) (apart has_pass))
            ],
          )
        ]
      ]
