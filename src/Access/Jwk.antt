-- ===== src/Access/Jwk.antt =====
-- accesscontrol/jwk/: the keys of a JWKS document, and the choice of the key for a token. The reading
-- of JSON, of base64 and of certificates comes as its result.
pub mod Choice
use couper.Base.{
  ℕ, zero, suc, ◌+◌, ◌*◌, ◌%◌, ◌^◌, ◌≡◌, ◌&&◌, ◌||◌, Bool, true, false, List, [], ◌∷◌, Option, none,
  some, Str, codes, eq_str, Result, ok, err, if◌then◌else◌,
}
use couper.SyncedJson.{FetchError}

pub data Curve : Type 0 where
  p256 p384 p521 : Curve

-- A public key: that of a certificate, or one made of its numbers.
pub data Key (C : Type 0) : Type 0 where
  certificate : C → Key C
  rsa : (n e : ℕ) → Key C
  ecdsa : Curve → (x y : ℕ) → Key C

pub record Jwk (C : Type 0) : Type 0 where
  pub key : Option (Key C)
  pub key_id : Str
  pub key_type : Str
  pub algorithm : Str
  pub use_for : Str

-- The bytes of the fields are decoded.
pub record RawJwk : Type 0 where
  pub alg : Str
  pub kid : Str
  pub kty : Str
  pub use_for : Str
  pub e : Option Str
  pub n : Option Str
  pub x5c : List Str
  pub crv : Str
  pub x : Option Str
  pub y : Option Str

-- An element of the array of keys.
pub data Element : Type 0 where
  null invalid : Element
  raw_jwk : RawJwk → Element

unfoldable pub set_bytes : ℕ → Str → ℕ
set_bytes acc [] = acc
set_bytes acc (b ∷ bs) = set_bytes (acc * 256 + b) bs

abbrev pub to_big_int : Str → ℕ
to_big_int = set_bytes 0

-- The bit pattern of the 64 bits of an int.
unfoldable pub to_int : Str → ℕ
unfolding set_bytes
to_int s = to_big_int s % 2 ^ 64

unfoldable pub get_curve : Str → Option Curve
unfolding eq_str
get_curve name =
    if eq_str name (codes "P-256")
    then some p256
    else if eq_str name (codes "P-384")
    then some p384
    else if eq_str name (codes "P-521")
    then some p521
    else none

abbrev pub zero_jwk : {C : Type 0} → Jwk C
zero_jwk = record { key = none; key_id = []; key_type = []; algorithm = []; use_for = [] }

unfoldable pub alg_to_kty : Str → Option Str
unfolding eq_str
alg_to_kty alg =
    if eq_str alg (codes "RS256") || eq_str alg (codes "RS384") || eq_str alg (codes "RS512")
    then some (codes "RSA")
    else if eq_str alg (codes "ES256") || eq_str alg (codes "ES384") || eq_str alg (codes "ES512")
    then some (codes "EC")
    else none

module _ {C : Type 0} (parse_certificate : Str → Option (Option C)) where
  -- getPublicKeyFromX5c; the error is `none`, and no certificate, or one without a key that the
  -- library knows, is `some none`. A null among the certificates, which the code follows, is left out.
  unfoldable pub get_public_key_from_x5c : List Str → Option (Option (Key C))
  get_public_key_from_x5c [] = some none
  get_public_key_from_x5c (first ∷ _) = elim (parse_certificate first) [
    | none ↦ none
    | some none ↦ some none
    | some (some c) ↦ some (some (certificate c))
  ]

  abbrev pub rsa_key : Option Str → Option Str → Option (Key C)
  rsa_key (some n) (some e) = some (rsa (to_big_int n) (to_int e))
  rsa_key n e = none

  abbrev pub ecdsa_key : Option Curve → Option Str → Option Str → Option (Key C)
  ecdsa_key (some curve) (some x) (some y) = some (ecdsa curve (to_big_int x) (to_big_int y))
  ecdsa_key curve x y = none

  -- The key of an entry of a supported type, `none` where the entry is ignored.
  unfoldable pub key_of : RawJwk → Option (Key C)
  unfolding eq_str get_curve
  key_of raw =
      if eq_str raw.kty (codes "RSA")
      then elim (get_public_key_from_x5c raw.x5c) [
        | none ↦ none
        | some none ↦ rsa_key raw.n raw.e
        | some (some k) ↦ some k
      ]
      else if eq_str raw.kty (codes "EC")
      then elim (get_public_key_from_x5c raw.x5c) [
        | none ↦ none
        | some none ↦ ecdsa_key (get_curve raw.crv) raw.x raw.y
        | some (some k) ↦ some k
      ]
      else none

  -- UnmarshalJSON: an entry that is ignored leaves its receiver as it is.
  unfoldable pub unmarshal_json : Element → Option (Jwk C)
  unmarshal_json null = none
  unmarshal_json invalid = some zero_jwk
  unmarshal_json (raw_jwk raw) = elim (key_of raw) [
    | none ↦ some zero_jwk
    | some k ↦ some (record {
      key = some k;
      key_id = raw.kid;
      key_type = raw.kty;
      algorithm = raw.alg;
      use_for = raw.use_for;
    })
  ]

  -- Unmarshal of the document, with nil pointers for its nulls.
  unfoldable pub keys_of : List Element → List (Option (Jwk C))
  keys_of [] = []
  keys_of (e ∷ es) = unmarshal_json e ∷ keys_of es

-- `nil_pointer` and `no_text` are panics.
pub data KeyError (E : Type 0) : Type 0 where
  no_valid_data : Option (FetchError E) → KeyError E
  missing_key_data nil_pointer missing_alg no_text no_matching : KeyError E

-- A header of a token.
pub data Header : Type 0 where
  absent other : Header
  text : Str → Header

abbrev pub is_type : Option Str → Str → Bool
is_type none kty = false
is_type (some t) kty = eq_str kty t

-- The loop of GetKey.
unfoldable pub first_key : {C : Type 0} (alg use_for : Str) → List (Jwk C) → Option (Jwk C)
unfolding eq_str alg_to_kty
first_key alg use_for [] = none
first_key alg use_for (key ∷ keys) =
    let later = first_key alg use_for keys in
    if eq_str key.use_for use_for
    then (if eq_str key.algorithm alg
        then some key
        else if eq_str key.algorithm []
        then (if is_type (alg_to_kty alg) key.key_type then some key else later)
        else later)
    else later

module _ {C E : Type 0} where
  -- The loop of getKeys.
  unfoldable pub with_id : Str → List (Option (Jwk C)) → Result (KeyError E) (List (Jwk C))
  unfolding eq_str
  with_id kid [] = ok []
  with_id kid (none ∷ keys) = err nil_pointer
  with_id kid (some key ∷ keys) = elim (with_id kid keys) [
    | err e ↦ err e
    | ok found ↦ ok (if eq_str key.key_id kid then key ∷ found else found)
  ]

  -- Data of JWKS, from that of the synced object.
  abbrev pub jwks_data :
      Option (List (Option (Jwk C))) × Option (FetchError E)
      → Result (KeyError E) (List (Option (Jwk C)))
  jwks_data (none, e) = err (no_valid_data e)
  jwks_data (some keys, e) = ok keys

  unfoldable pub get_keys :
      Str
      → Option (List (Option (Jwk C))) × Option (FetchError E)
      → Result (KeyError E) (List (Jwk C))
  unfolding with_id
  get_keys kid answer = elim (jwks_data answer) [
    | err e ↦ err e
    | ok [] ↦ err missing_key_data
    | ok (key ∷ keys) ↦ with_id kid (key ∷ keys)
  ]

  unfoldable pub get_key :
      (kid alg use_for : Str)
      → Option (List (Option (Jwk C))) × Option (FetchError E)
      → Result (KeyError E) (Option (Jwk C))
  unfolding get_keys first_key
  get_key kid alg use_for answer = elim (get_keys kid answer) [
    | err e ↦ err e
    | ok keys ↦ ok (first_key alg use_for keys)
  ]

  abbrev pub choose_key :
      Result (KeyError E) (Option (Jwk C)) → Result (KeyError E) (Option (Key C))
  choose_key (err e) = err e
  choose_key (ok none) = err no_matching
  choose_key (ok (some jwk)) = ok jwk.key

  unfoldable pub get_sig_key_for_token :
      (algorithm id : Header)
      → Option (List (Option (Jwk C))) × Option (FetchError E)
      → Result (KeyError E) (Option (Key C))
  unfolding get_key
  get_sig_key_for_token absent id answer = err missing_alg
  get_sig_key_for_token other id answer = err no_text
  get_sig_key_for_token (text alg) other answer = err no_text
  get_sig_key_for_token (text alg) absent answer = choose_key (get_key [] alg (codes "sig") answer)
  get_sig_key_for_token (text alg) (text kid) answer =
      choose_key (get_key kid alg (codes "sig") answer)
