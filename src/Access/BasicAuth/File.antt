-- ===== src/Access/BasicAuth/File.antt =====
-- What the lines of a password file give.
use couper.Base.{
  ◌++◌, ◌≢◌, ◌==◌, All, ◌≡◌, ◌↔◌, refl, sym, ap, ◌∙◌, inl, inr, ◌⊎◌, true, false, List, [], ◌∷◌,
  none, some, arith, Str, eq_str, eq_str_iff, trim_space, lookup, insert, lookup-insert,
  HasDistinctKeys, insert-HasDistinctKeys, In, ok, length, ltb, Bool-cases, Option-cases,
  Result-cases,
}
use mathlib.Core.Path.{subst}
use couper.Access.BasicAuth.{
  HtData, Pwd, BasicAuth, split_user, entry_of, get_pwd_type, is_comment, read_line, read_lines,
  new_basic_auth,
}

-- A line, without the space around it, that names a user and a password.
abbrev pub Gives : Str → Str → Pwd → Type 0
Gives line user p =
    (is_comment line ≡ false)
    × (password : Str) × (line ≡ user ++ (b':' ∷ password))
    × All (λ c. c ≢ b':') user
    × (entry_of (get_pwd_type password) password ≡ ok p)

abbrev StandsIn : (line : Str) → Str × Str → Type 0
StandsIn line (user, password) = (line ≡ user ++ (b':' ∷ password)) × All (λ c. c ≢ b':') user

some_injective : {A : Type 0} {a b : A} → some a ≡ some b → a ≡ b
some_injective h = cc

split_user-StandsIn : (line : Str) (x : Str × Str) → split_user line ≡ some x → StandsIn line x
unfolding split_user
split_user-StandsIn [] x h = absurd (ground (arith, h))
split_user-StandsIn (c ∷ s) x h = elim (Bool-cases (c == b':')) [
  | inl e ↦
      let same : ([], s) ≡ x = some_injective (rw e at h) in
      let colon : c ≡ b':' = ground (arith, e) in
      subst (StandsIn (c ∷ s)) same (ap (λ d. d ∷ s) colon, tt)
  | inr e ↦ elim (Option-cases (split_user s)) [
    | inl unsplit ↦ absurd (ground (arith, h, e, unsplit))
    | inr ((user, password), parts) ↦
        let (whole, free) = split_user-StandsIn s (user, password) parts in
        let same : (c ∷ user, password) ≡ x = some_injective (rw (e, parts) at h) in
        subst (StandsIn (c ∷ s)) same (ap (λ t. c ∷ t) whole, (ground (arith, e), free))
  ]
]

split_user-append :
    (user password : Str)
    → All (λ c. c ≢ b':') user
    → split_user (user ++ (b':' ∷ password)) ≡ some (user, password)
unfolding split_user
split_user-append [] password h = refl
split_user-append (c ∷ user) password (ne, h) =
    ground (arith, ne, split_user-append user password h)

-- The user and the password stand before and behind the first colon.
pub split_user_iff :
    (line user password : Str)
    → (split_user line ≡ some (user, password)) ↔ StandsIn line (user, password)
split_user_iff line user password = (
  λ h. split_user-StandsIn line (user, password) h,
  λ (whole, free). ap split_user whole ∙ split_user-append user password free,
)

abbrev IsRead : Str → HtData → HtData → Type 0
IsRead line ht ht' =
    ((is_comment line ≡ true) × (ht ≡ ht'))
    ⊎ ((is_comment line ≡ false)
        × (user : Str) × (password : Str) × (p : Pwd) × (split_user line ≡ some (user, password))
        × (lookup user ht ≡ none)
        × (entry_of (get_pwd_type password) password ≡ ok p)
        × (insert user p ht ≡ ht'))

invert : (line : Str) (ht ht' : HtData) → read_line line ht ≡ ok ht' → IsRead line ht ht'
unfolding read_line
invert line ht ht' h = elim (Bool-cases (is_comment line)) [
  | inl comment ↦ inl (comment, ground (arith, h, comment))
  | inr other ↦ elim (Option-cases (split_user line)) [
    | inl unsplit ↦ absurd (ground (arith, h, other, unsplit, Bool-cases (ltb 255 (length line))))
    | inr ((user, password), parts) ↦ elim (Option-cases (lookup user ht)) [
      | inr (q, found) ↦
          absurd (ground (arith, h, other, parts, found, Bool-cases (ltb 255 (length line))))
      | inl free ↦ elim (Result-cases (entry_of (get_pwd_type password) password)) [
        | inr (e, bad) ↦
            absurd (ground (arith, h, other, parts, free, bad, Bool-cases (ltb 255 (length line))))
        | inl (p, good) ↦ inr (
          other,
          user,
          password,
          p,
          parts,
          free,
          good,
          ground (arith, h, other, parts, free, good, Bool-cases (ltb 255 (length line))),
        )
      ]
    ]
  ]
]

same_pair :
    (user u password w : Str) (line : Str)
    → split_user line ≡ some (user, password)
    → split_user line ≡ some (u, w)
    → (user ≡ u) × (password ≡ w)
same_pair user u password w line a b = (ground (arith, a, b), ground (arith, a, b))

read_line_iff :
    (line : Str) (ht ht' : HtData) (u : Str) (q : Pwd)
    → IsRead line ht ht'
    → (lookup u ht' ≡ some q) ↔ ((lookup u ht ≡ some q) ⊎ Gives line u q)
read_line_iff line ht ht' u q (inl (comment, e)) = (
  λ h. inl (ap (lookup u) e ∙ h),
  λ h. elim h [
    | inl old ↦ ap (lookup u) (sym e) ∙ old
    | inr (other, password, whole, free, good) ↦ absurd (ground (arith, comment, other))
  ],
)
read_line_iff line ht ht' u q (inr (other, user, password, p, parts, free, good, e)) = (
  λ h. elim (Bool-cases (eq_str user u)) [
    | inl same ↦
        let (whole, colon_free) =
          (split_user_iff line u password).0 (ground (arith, parts, (eq_str_iff user u).0 same)) in
        inr (
          other,
          password,
          whole,
          colon_free,
          good ∙ ap ok (ground (arith, same, lookup-insert user u p ht, ap (lookup u) e ∙ h)),
        )
    | inr ne ↦ inl (ground (arith, ne, lookup-insert user u p ht, ap (lookup u) e ∙ h))
  ],
  λ h. ap (lookup u) (sym e) ∙ elim h [
    | inl old ↦ elim (Bool-cases (eq_str user u)) [
      | inl same ↦
          absurd
            (ground (arith, old, sym (ap (λ s. lookup s ht) ((eq_str_iff user u).0 same)) ∙ free))
      | inr ne ↦ ground (arith, ne, lookup-insert user u p ht, old)
    ]
    | inr (_, w, whole, colon_free, good') ↦
        let (us, ws) =
          same_pair user u password w line parts
            ((split_user_iff line u w).1 (whole, colon_free)) in
        ground (
          arith,
          lookup-insert user u p ht,
          (eq_str_iff user u).1 us,
          sym good ∙ ap (λ s. entry_of (get_pwd_type s) s) ws ∙ good',
        )
  ],
)

read_line-HasDistinctKeys :
    (line : Str) (ht ht' : HtData) → IsRead line ht ht' → HasDistinctKeys ht → HasDistinctKeys ht'
read_line-HasDistinctKeys line ht ht' (inl (comment, e)) d = subst HasDistinctKeys e d
read_line-HasDistinctKeys line ht ht' (inr (other, user, w, p, parts, free, good, e)) d =
    subst HasDistinctKeys e (insert-HasDistinctKeys user p ht d)

first_line :
    (line : Str) (lines : List Str) (ht ht' : HtData)
    → read_lines (line ∷ lines) ht ≡ ok ht'
    → (ht1 : HtData) × IsRead (trim_space line) ht ht1 × (read_lines lines ht1 ≡ ok ht')
unfolding read_lines
first_line line lines ht ht' h = elim (Result-cases (read_line (trim_space line) ht)) [
  | inl (ht1, e) ↦ (ht1, invert (trim_space line) ht ht1 e, ground (arith, h, e))
  | inr (x, e) ↦ absurd (ground (arith, h, e))
]

abbrev pub IsGiven : List Str → Str → Pwd → Type 0
IsGiven lines u p = (line : Str) × In line lines × Gives (trim_space line) u p

given_cons :
    (line : Str) (lines : List Str) (u : Str) (p : Pwd)
    → Gives (trim_space line) u p ⊎ IsGiven lines u p
    → IsGiven (line ∷ lines) u p
given_cons line lines u p (inl g) = (line, inl refl, g)
given_cons line lines u p (inr (l, i, g)) = (l, inr i, g)

given_uncons :
    (line : Str) (lines : List Str) (u : Str) (p : Pwd)
    → IsGiven (line ∷ lines) u p
    → Gives (trim_space line) u p ⊎ IsGiven lines u p
given_uncons line lines u p (l, inl e, g) = inl (subst (λ s. Gives (trim_space s) u p) e g)
given_uncons line lines u p (l, inr i, g) = inr (l, i, g)

read_lines_iff :
    (lines : List Str) (ht ht' : HtData)
    → read_lines lines ht ≡ ok ht'
    → HasDistinctKeys ht
    → HasDistinctKeys ht'
      × ((u : Str) (p : Pwd)
          → (lookup u ht' ≡ some p) ↔ ((lookup u ht ≡ some p) ⊎ IsGiven lines u p))
unfolding read_lines
read_lines_iff [] ht ht' h d =
    let e : ht ≡ ht' = ground (arith, h) in
    (
      subst HasDistinctKeys e d,
      λ u p. (
        λ found. inl (ap (lookup u) e ∙ found),
        λ k. elim k [
          | inl old ↦ ap (lookup u) (sym e) ∙ old
          | inr (l, none_there, g) ↦ absurd none_there
        ],
      ),
    )
read_lines_iff (line ∷ lines) ht ht' h d =
    let (ht1, one, rest) = first_line line lines ht ht' h in
    let (d', more) =
      read_lines_iff lines ht1 ht' rest
        (read_line-HasDistinctKeys (trim_space line) ht ht1 one d) in
    (
      d',
      λ u p.
          let (a, b) = more u p in
          let (c, e) = read_line_iff (trim_space line) ht ht1 u p one in
          (
            λ found. elim (a found) [
              | inr g ↦ inr (given_cons line lines u p (inr g))
              | inl there ↦ elim (c there) [
                | inl old ↦ inl old
                | inr g ↦ inr (given_cons line lines u p (inl g))
              ]
            ],
            λ k. b (elim k [
              | inl old ↦ inl (e (inl old))
              | inr g ↦ elim (given_uncons line lines u p g) [
                | inl here ↦ inl (e (inr here))
                | inr later ↦ inr later
              ]
            ]),
          ),
    )

fresh :
    (lines : List Str) (u : Str) (p : Pwd)
    → (lookup u [] ≡ some p) ⊎ IsGiven lines u p
    → IsGiven lines u p
unfolding lookup
fresh lines u p (inl e) = absurd (ground (arith, e))
fresh lines u p (inr g) = g

-- In a file that is accepted no user stands twice, and a user has an entry exactly when a line,
-- without the space around it, is no comment and gives, before its first colon, the user and,
-- behind it, a password of that entry.
pub new_basic_auth_iff :
    (user pass : Str) (lines : List Str) (ba : BasicAuth)
    → new_basic_auth user pass (some lines) ≡ ok ba
    → HasDistinctKeys ba.ht_file
      × ((u : Str) (p : Pwd) → (lookup u ba.ht_file ≡ some p) ↔ IsGiven lines u p)
unfolding new_basic_auth
new_basic_auth_iff user pass lines ba h = elim (Result-cases (read_lines lines [])) [
  | inr (e, bad) ↦ absurd (ground (arith, h, bad))
  | inl (ht, e) ↦
      let same : ht ≡ ba.ht_file = ground (arith, h, e) in
      let (d, f) = read_lines_iff lines [] ht e tt in
      (
        subst HasDistinctKeys same d,
        λ u p. (
          λ found. fresh lines u p ((f u p).0 (ap (lookup u) same ∙ found)),
          λ g. ap (lookup u) (sym same) ∙ (f u p).1 (inr g),
        ),
      )
]
