-- ===== src/Access/Jwt/Claims.antt =====
-- Which tokens Validate accepts.
use couper.Base.{
  eq_str, eq_str_iff, err, ◌++◌, insert, ◌≡◌, ◌↔◌, refl, sym, ap, ◌∙◌, inl, inr, ◌⊎◌, Bool, true,
  false, List, [], ◌∷◌, Option, none, some, arith, Str, lookup, Result, ok, All, codes, Bool-cases,
  Option-cases, Result-cases,
}
use mathlib.Core.Path.{subst}
use couper.Access.Jwt.{
  string, array, other, is_text, Value, ClaimMap, Jwt, has_required, has_expected, is_parsed_claim,
  validate_claims, Error, RequestContext, Parsed, expired, invalid, valid, accept,
  get_configured_claims, get_granted_permissions, validate, validate_token, text_of,
}
use couper.Access.Jwt.Closure.{get_granted_permissions-ne_none}

abbrev pub HasRequired : ClaimMap → List Str → Type 0
HasRequired token_claims keys = All (λ key. (v : Value) × (lookup key token_claims ≡ some v)) keys

has_required_iff :
    (keys : List Str) (token_claims : ClaimMap)
    → (has_required keys token_claims ≡ true) ↔ HasRequired token_claims keys
unfolding has_required
has_required_iff [] tc = (λ h. tt, λ h. refl)
has_required_iff (key ∷ keys) tc = elim (Option-cases (lookup key tc)) [
  | inl missed ↦ (
    λ h. absurd (ground (arith, h, missed)),
    λ ((v, e), rest). absurd (ground (arith, e, missed)),
  )
  | inr (v, found) ↦ (
    λ h. ((v, found), (has_required_iff keys tc).0 (ground (arith, h, found))),
    λ (p, rest). ground (arith, found, (has_required_iff keys tc).1 rest),
  )
]

-- A claim that is missing or a text.
abbrev pub IsText : Option Value → Type 0
IsText v = (v ≡ none) ⊎ ((s : Str) × (v ≡ some (string s)))

-- The claims that an expression gives: none for a null value, and otherwise those whose issuer and
-- audience are texts.
abbrev pub Configures : Result Error (Option ClaimMap) → ClaimMap → Type 0
Configures claims expected =
    ((claims ≡ ok none) × (expected ≡ []))
    ⊎ ((claims ≡ ok (some expected))
        × IsText (lookup (codes "iss") expected)
        × IsText (lookup (codes "aud") expected))

is_text_iff : (v : Option Value) → (is_text v ≡ true) ↔ IsText v
is_text_iff none = (λ h. inl refl, λ h. refl)
is_text_iff (some (string s)) = (λ h. inr (s, refl), λ h. refl)
is_text_iff (some (array vs)) = (λ h. absurd (ground (arith, h)), λ h. ground (arith, h))
is_text_iff (some (other n)) = (λ h. absurd (ground (arith, h)), λ h. ground (arith, h))

get_configured_claims_iff :
    (claims : Result Error (Option ClaimMap)) (expected : ClaimMap)
    → (get_configured_claims claims ≡ ok expected) ↔ Configures claims expected
unfolding get_configured_claims
get_configured_claims_iff (err e) expected = (
  λ h. absurd (ground (arith, h)),
  λ k. elim k [
    | inl (p, _) ↦ absurd (ground (arith, p))
    | inr (p, _, _) ↦ absurd (ground (arith, p))
  ],
)
get_configured_claims_iff (ok none) expected = (
  λ h. inl (refl, ground (arith, h)),
  λ k. elim k [ inl (_, e) ↦ ap ok (sym e) | inr (p, _, _) ↦ absurd (ground (arith, p)) ],
)
get_configured_claims_iff (ok (some claims)) expected =
    let (a, b) = is_text_iff (lookup (codes "iss") claims) in
    let (c, d) = is_text_iff (lookup (codes "aud") claims) in
    (
      λ h.
          let e : claims ≡ expected = ground (
            arith,
            h,
            Bool-cases (is_text (lookup (codes "iss") claims)),
            Bool-cases (is_text (lookup (codes "aud") claims)),
          ) in
          inr (
            ap (λ m. ok (some m)) e,
            subst (λ m. IsText (lookup (codes "iss") m)) e (a (ground (arith, h))),
            subst (λ m. IsText (lookup (codes "aud") m)) e (c (ground (arith, h))),
          ),
      λ k. elim k [
        | inl (p, _) ↦ absurd (ground (arith, p))
        | inr (p, i, u) ↦
            let e : expected ≡ claims = sym (ground (arith, p)) in
            ground (
              arith,
              e,
              b (subst (λ m. IsText (lookup (codes "iss") m)) e i),
              d (subst (λ m. IsText (lookup (codes "aud") m)) e u),
            )
      ],
    )

is_parsed_claim_iff :
    (k : Str) → (is_parsed_claim k ≡ true) ↔ ((k ≡ codes "iss") ⊎ (k ≡ codes "aud"))
is_parsed_claim_iff k =
    let (a, b) = eq_str_iff k (codes "iss") in
    let (c, d) = eq_str_iff k (codes "aud") in
    (
      λ h. elim (Bool-cases (eq_str k (codes "iss"))) [
        | inl e ↦ inl (a e)
        | inr e ↦ inr (c (ground (arith, h, e)))
      ],
      λ k. elim k [ inl e ↦ ground (arith, b e) | inr e ↦ ground (arith, d e) ],
    )

module _ (differ : Value → Value → Bool) where
  -- The issuer and the audience are compared while the token is parsed.
  abbrev pub Agrees : Str → Value → Value → Type 0
  Agrees k v val = ((k ≡ codes "iss") ⊎ (k ≡ codes "aud")) ⊎ (differ v val ≡ false)

  abbrev pub HasExpected : ClaimMap → ClaimMap → Type 0
  HasExpected token_claims [] = Unit
  HasExpected token_claims ((k, v) ∷ expected) =
      ((val : Value) × (lookup k token_claims ≡ some val) × Agrees k v val)
      × HasExpected token_claims expected

  Agrees-once :
      (k : Str) (v val : Value)
      → (is_parsed_claim k ≡ false)
      → (differ v val ≡ true)
      → Agrees k v val
      → ⊥
  Agrees-once k v val a b (inl c) = ground (arith, a, (is_parsed_claim_iff k).1 c)
  Agrees-once k v val a b (inr c) = ground (arith, b, c)

  some_once :
      (k : Str) (tc : ClaimMap) (v val w : Value)
      → lookup k tc ≡ some val
      → lookup k tc ≡ some w
      → Agrees k v w
      → Agrees k v val
  some_once k tc v val w e f (inl c) = inl c
  some_once k tc v val w e f (inr c) = inr (ground (arith, c, sym e ∙ f))

  has_expected_iff :
      (expected token_claims : ClaimMap)
      → (has_expected differ expected token_claims ≡ true) ↔ HasExpected token_claims expected
  unfolding has_expected
  has_expected_iff [] tc = (λ h. tt, λ h. refl)
  has_expected_iff ((k, v) ∷ expected) tc =
      let (there, back) = has_expected_iff expected tc in
      elim (Option-cases (lookup k tc)) [
        | inl missed ↦ (
          λ h. absurd (ground (arith, h, missed)),
          λ ((val, e, a), rest). absurd (ground (arith, e, missed)),
        )
        | inr (val, found) ↦ elim (Bool-cases (is_parsed_claim k)) [
          | inl parsed ↦ (
            λ h. (
              (val, found, inl ((is_parsed_claim_iff k).0 parsed)),
              there (ground (arith, h, found, parsed)),
            ),
            λ (p, rest). ground (arith, found, parsed, back rest),
          )
          | inr free ↦ elim (Bool-cases (differ v val)) [
            | inl bad ↦ (
              λ h. absurd (ground (arith, h, found, free, bad)),
              λ ((w, e, a), rest).
                  absurd (Agrees-once k v val free bad (some_once k tc v val w found e a)),
            )
            | inr good ↦ (
              λ h. ((val, found, inr good), there (ground (arith, h, found, free, good))),
              λ (p, rest). ground (arith, found, free, good, back rest),
            )
          ]
        ]
      ]

  validate_claims_iff :
      (j : Jwt) (tc expected : ClaimMap)
      → (validate_claims differ j tc expected ≡ true)
        ↔ (HasRequired tc j.claims_required × HasExpected tc expected)
  unfolding validate_claims
  validate_claims_iff j tc expected =
      let (a, b) = has_required_iff j.claims_required tc in
      let (c, d) = has_expected_iff expected tc in
      (λ h. (a (ground (arith, h)), c (ground (arith, h))), λ (r, e). ground (arith, b r, d e))

  module _ (parse : (audience issuer token : Str) → Parsed) where
    abbrev pub parsed : ClaimMap → Str → Parsed
    parsed expected token =
        parse (text_of (lookup (codes "aud") expected)) (text_of (lookup (codes "iss") expected))
          token

    parsed_cases :
        (p : Parsed) → ((tc : ClaimMap) × (p ≡ valid tc)) ⊎ ((p ≡ expired) ⊎ (p ≡ invalid))
    parsed_cases expired = inr (inl refl)
    parsed_cases invalid = inr (inr refl)
    parsed_cases (valid tc) = inl (tc, refl)

    abbrev pub Accepted :
        Jwt → RequestContext → RequestContext → Option Str → Result Error (Option ClaimMap) → Type 0
    Accepted j ctx ctx' token claims =
        (text : Str) × (expected : ClaimMap) × (token_claims : ClaimMap) × (granted : List Str)
        × (token ≡ some text)
        × Configures claims expected
        × (parsed expected text ≡ valid token_claims)
        × HasRequired token_claims j.claims_required
        × HasExpected token_claims expected
        × (get_granted_permissions j token_claims ≡ some granted)
        × (ctx' ≡ record {
          access_controls = insert j.name token_claims ctx.access_controls;
          granted_permissions = ctx.granted_permissions ++ granted;
        })

    accepted :
        (j : Jwt) (ctx ctx' : RequestContext) (text : Str) (claims : Result Error (Option ClaimMap))
        → validate differ parse j ctx (some text) claims ≡ some (ok ctx')
        → Accepted j ctx ctx' (some text) claims
    unfolding validate validate_token accept
    accepted j ctx ctx' text claims h = elim (Result-cases (get_configured_claims claims)) [
      | inr (e, conf) ↦ absurd (ground (arith, conf, h))
      | inl (expected, conf) ↦ elim (parsed_cases (parsed expected text)) [
        | inr bad ↦ absurd (ground (arith, conf, bad, h))
        | inl (tc, p) ↦ elim (Bool-cases (validate_claims differ j tc expected)) [
          | inr bad ↦ absurd (ground (arith, conf, p, bad, h))
          | inl good ↦
              let (granted, g) = get_granted_permissions-ne_none j tc in
              let (r, x) = (validate_claims_iff j tc expected).0 good in
              (
                text,
                expected,
                tc,
                granted,
                refl,
                (get_configured_claims_iff claims expected).0 conf,
                p,
                r,
                x,
                g,
                ground (arith, conf, p, good, g, h),
              )
        ]
      ]
    ]

    -- Validate accepts a request exactly when there is a token, the configured claims can be
    -- evaluated, to a null value for no claims or to claims whose issuer and audience, if given,
    -- are texts, the token can be parsed with these two, and its claims have every required name
    -- and, but for issuer and audience, every expected value; then it adds these claims and the
    -- permissions that they grant to the context.
    pub validate-accepts_iff :
        (j : Jwt) (ctx ctx' : RequestContext) (token : Option Str)
        (claims : Result Error (Option ClaimMap))
        → (validate differ parse j ctx token claims ≡ some (ok ctx'))
          ↔ Accepted j ctx ctx' token claims
    unfolding validate validate_token accept
    validate-accepts_iff j ctx ctx' none claims = (
      λ h. absurd (ground (arith, h)),
      λ (text, expected, tc, granted, e, conf, p, r, x, g, same). absurd (ground (arith, e)),
    )
    validate-accepts_iff j ctx ctx' (some text) claims = (
      accepted j ctx ctx' text claims,
      λ (text', expected, tc, granted, e, conf, p, r, x, g, same).
          let e' : text ≡ text' = ground (arith, e) in
          ground (
            arith,
            (get_configured_claims_iff claims expected).1 conf,
            ap (parsed expected) e' ∙ p,
            (validate_claims_iff j tc expected).1 (r, x),
            g,
            same,
          ),
    )
