-- ===== src/Access/TokenSource/Laws.antt =====
-- When a token source is accepted, and what a token read from it looks like.
use couper.Base.{
  ℕ, zero, suc, ◌+◌, ◌≤◌, ◌≡◌, ◌≢◌, ◌↔◌, refl, Bool, true, false, not, [], ◌∷◌, ◌++◌, arith, Str,
  eq_str, eq_str_iff, has_prefix, lower, to_lower, trim, trim_left, trim_space, reverse, drop, ok,
  err, ◌==◌, length, length-map, sym, ap, ◌∙◌, has_prefix_append,
}
use mathlib.Core.List.{reverse-reverse, map-append}
use couper.Access.TokenSource.{
  TokenSource, ones_count, only_one_source, chosen, new_token_source, bearer_prefix, get_bearer,
  Request, token_value,
}

abbrev given : Bool → ℕ
given true = 1
given false = 0

-- The number of the four attributes that are given, where a cookie or header name of white space
-- alone is not given.
abbrev pub number_given : Bool → Str → Str → Bool → ℕ
number_given bearer cookie header value =
    given bearer
    + given (not (eq_str (trim_space cookie) []))
    + given (not (eq_str (trim_space header) []))
    + given value

ones_count-chosen :
    (b c h v : Bool) → ones_count 8 (chosen b c h v).0 ≡ given b + given c + given h + given v
unfolding ones_count chosen
ones_count-chosen b c h v = ground arith

-- A token source is refused exactly when more than one of the bearer, cookie, header and value
-- attributes is given, where a name of white space alone is not given.
pub new_token_source-err_iff :
    (bearer : Bool) (cookie header : Str) (value : Bool)
    → (new_token_source bearer cookie header value ≡ err only_one_source)
      ↔ (2 ≤ number_given bearer cookie header value)
unfolding new_token_source
new_token_source-err_iff bearer cookie header value =
    let count =
      ones_count-chosen bearer (not (eq_str (trim_space cookie) []))
        (not (eq_str (trim_space header) [])) value in
    (λ e. ground (arith, count, e), λ h. ground (arith, count, h))

-- A token is never empty.
pub token_value-ne_empty :
    (s : TokenSource) (req : Request) (token : Str) → token_value s req ≡ ok token → token ≢ []
unfolding token_value
token_value-ne_empty s req token e = ground (arith, e, eq_str_iff token [])

-- A token without a space at either end.
abbrev pub HasNoEdgeSpace : Str → Type 0
HasNoEdgeSpace token =
    (trim_left (λ c. c == 32) token ≡ token)
    × (trim_left (λ c. c == 32) (reverse token) ≡ reverse token)

drop-append : (s t : Str) (n : ℕ) → length s ≡ n → drop n (s ++ t) ≡ t
drop-append [] t zero e = refl
drop-append [] t (suc n) e = absurd (omega arith)
drop-append (c ∷ s) t zero e = absurd (omega arith)
drop-append (c ∷ s) t (suc n) e = drop-append s t n (omega arith)

-- For a scheme that is "bearer " in any case and a token without a space at either end, getBearer
-- of the two joined is the token.
pub get_bearer-append :
    (scheme token : Str)
    → to_lower scheme ≡ bearer_prefix
    → HasNoEdgeSpace token
    → get_bearer (scheme ++ token) ≡ ok token
unfolding get_bearer trim
get_bearer-append scheme token e (front, behind) =
    rw (prefixed, drop-append scheme token 7 seven, front, behind, reverse-reverse)
  where
    prefixed : has_prefix (to_lower (scheme ++ token)) bearer_prefix ≡ true
    prefixed = rw (map-append, e) (has_prefix_append bearer_prefix (to_lower token))

    seven : length scheme ≡ 7
    seven = sym (length-map scheme lower) ∙ ap length e
