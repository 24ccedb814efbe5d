-- ===== src/Access/BasicAuth/Apr1.antt =====
-- The shape of a salted digest of Apache.
use couper.Base.{
  ℕ, zero, suc, ◌+◌, ◌/◌, ◌%◌, ◌<◌, ◌≡◌, refl, Bool, true, false, ◌&&◌, ◌||◌, List, [], ◌∷◌, ◌++◌,
  arith, Str, length, length-append, get_or, ◌==◌, Bool-cases,
}
use couper.Access.BasicAuth.{
  apr_characters, encode, encode_sum, encode_all, calls_for, apr1_md5, muddle_rounds, first_sum,
}

is_apr : ℕ → List ℕ → Bool
is_apr c [] = false
is_apr c (d ∷ ds) = (d == c) || is_apr c ds

-- Only characters of the alphabet.
unfoldable pub all_apr : Str → Bool
unfolding is_apr
all_apr [] = true
all_apr (c ∷ s) = is_apr c apr_characters && all_apr s

is_apr-get_or : (ds : List ℕ) (i : ℕ) → i < length ds → is_apr (get_or ds i 0) ds ≡ true
unfolding is_apr
is_apr-get_or [] i h = absurd (omega arith)
is_apr-get_or (d ∷ ds) zero h = ground arith
is_apr-get_or (d ∷ ds) (suc i) h =
    ground (arith, is_apr-get_or ds i, Bool-cases (d == get_or ds i 0))

both : {a b : Bool} → a ≡ true → b ≡ true → (a && b) ≡ true
both {a} {b} h k = ground (arith, h, k)

left : (a b : Bool) → (a && b) ≡ true → a ≡ true
left a b h = ground (arith, h)

right : (a b : Bool) → (a && b) ≡ true → b ≡ true
right a b h = ground (arith, h, Bool-cases a)

encode-all_apr : (n v : ℕ) → all_apr (encode n v) ≡ true
unfolding encode all_apr
encode-all_apr zero v = refl
encode-all_apr (suc n) v =
    let letter : is_apr (get_or apr_characters (v % 64) 0) apr_characters ≡ true =
      is_apr-get_or apr_characters (v % 64) (omega arith) in
    both letter (encode-all_apr n (v / 64))

length-encode : (n v : ℕ) → length (encode n v) ≡ n
unfolding encode
length-encode zero v = refl
length-encode (suc n) v = omega (arith, length-encode n (v / 64))

all_apr-append : (s t : Str) → all_apr s ≡ true → all_apr t ≡ true → all_apr (s ++ t) ≡ true
unfolding all_apr
all_apr-append [] t h k = k
all_apr-append (c ∷ s) t h k = both (left _ _ h) (all_apr-append s t (right _ _ h) k)

characters : List (ℕ × ℕ) → ℕ
characters [] = 0
characters ((n, v) ∷ calls) = n + characters calls

encode_all-all_apr : (calls : List (ℕ × ℕ)) → all_apr (encode_all calls) ≡ true
unfolding encode_all all_apr
encode_all-all_apr [] = refl
encode_all-all_apr ((n, v) ∷ calls) =
    all_apr-append (encode n v) (encode_all calls) (encode-all_apr n v) (encode_all-all_apr calls)

length-encode_all : (calls : List (ℕ × ℕ)) → length (encode_all calls) ≡ characters calls
unfolding encode_all characters
length-encode_all [] = refl
length-encode_all ((n, v) ∷ calls) = omega (
  arith,
  length-append (encode n v) (encode_all calls),
  length-encode n v,
  length-encode_all calls,
)

length-encode_sum : (sum : Str) → length (encode_sum sum) ≡ 22
unfolding encode_sum characters
length-encode_sum sum = length-encode_all (calls_for sum)

-- Whatever the digest gives, the result of apr1MD5 is the prefix, the salt, a dollar sign and 22
-- characters of the alphabet of crypt.
pub apr1_md5_bounds :
    (digest : Str → Str) (pass salt pref : Str)
    → (code : Str) × (apr1_md5 digest pass salt pref ≡ pref ++ (salt ++ (b'$' ∷ code)))
      × (length code ≡ 22)
      × (all_apr code ≡ true)
unfolding apr1_md5 encode_sum
apr1_md5_bounds digest pass salt pref =
    let sum = muddle_rounds digest 1000 pass salt (first_sum digest pass salt pref) 0 in
    (encode_sum sum, refl, length-encode_sum sum, encode_all-all_apr (calls_for sum))
