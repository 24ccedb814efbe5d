-- ===== src/Tests/Jwk.antt =====
-- A small document of keys.
use couper.Base.{ℕ, ◌≡◌, refl, List, [], ◌∷◌, Option, none, some, Str, codes, eq_str, ok, err}
use couper.SyncedJson.{status}
use couper.Access.Jwk.{
  Key, rsa, RawJwk, Element, null, invalid, raw_jwk, to_int, set_bytes, get_curve, alg_to_kty,
  get_public_key_from_x5c, key_of, unmarshal_json, keys_of, nil_pointer, no_matching, no_text,
  other, text, with_id, get_keys, first_key, get_key, get_sig_key_for_token,
}
use couper.Access.Jwk.Choice.{
  fits, first_that, has_null, get_key_lem, IsMadeOf, get_sig_key_for_token-IsMadeOf,
}

-- No certificate can be parsed.
abbrev parse_certificate : Str → Option (Option ℕ)
parse_certificate s = none

abbrev rsa_jwk : Str → RawJwk
rsa_jwk kid = record {
  alg = [];
  kid = kid;
  kty = codes "RSA";
  use_for = codes "sig";
  e = some (3 ∷ []);
  n = some (1 ∷ 1 ∷ []);
  x5c = [];
  crv = [];
  x = none;
  y = none;
}

abbrev elements : List Element
elements = invalid ∷ raw_jwk (rsa_jwk (codes "b")) ∷ raw_jwk (rsa_jwk (codes "a")) ∷ []

choosing : Unit {0}
unfolding to_int set_bytes get_curve alg_to_kty get_public_key_from_x5c key_of unmarshal_json
    keys_of with_id get_keys first_key get_key get_sig_key_for_token fits first_that has_null eq_str
choosing = tt

chosen :
    get_sig_key_for_token {E = Str}
      (text (codes "RS256"))
      (text (codes "a"))
      (some (keys_of parse_certificate elements), some (status 503))
    ≡ ok (some (rsa 257 3))
unfolding choosing
chosen = refl

not_elliptic :
    get_sig_key_for_token {E = Str}
      (text (codes "ES256"))
      (text (codes "a"))
      (some (keys_of parse_certificate elements), none)
    ≡ err no_matching
unfolding choosing
not_elliptic = refl

-- One null in the document.
null_key :
    get_sig_key_for_token {E = Str}
      (text (codes "RS256"))
      (text (codes "a"))
      (some (keys_of parse_certificate (raw_jwk (rsa_jwk (codes "a")) ∷ null ∷ [])), none)
    ≡ err nil_pointer
unfolding choosing
null_key = refl

-- The header kid is a number.
number_as_kid :
    get_sig_key_for_token {E = Str}
      (text (codes "RS256"))
      other
      (some (keys_of parse_certificate elements), none)
    ≡ err no_text
unfolding choosing
number_as_kid = refl

get_key_lem_example :
    get_key {E = Str}
      (codes "c")
      (codes "RS256")
      (codes "sig")
      (some (keys_of parse_certificate elements), none)
    ≡ ok none
unfolding choosing
get_key_lem_example =
    get_key_lem (codes "c") (codes "RS256") (codes "sig")
      (some (keys_of parse_certificate elements), none)

chosen_without_error :
    get_sig_key_for_token {E = Str}
      (text (codes "RS256"))
      (text (codes "a"))
      (some (keys_of parse_certificate elements), none)
    ≡ ok (some (rsa 257 3))
unfolding choosing
chosen_without_error = refl

get_sig_key_for_token-IsMadeOf_example :
    (v : Key ℕ) × (some (rsa 257 3) ≡ some v)
    × IsMadeOf parse_certificate elements v (codes "a") (codes "sig")
get_sig_key_for_token-IsMadeOf_example =
    get_sig_key_for_token-IsMadeOf {E = Str} parse_certificate elements none (text (codes "RS256"))
      (text (codes "a")) (some (rsa 257 3)) chosen_without_error
