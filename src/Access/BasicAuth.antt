-- ===== src/Access/BasicAuth.antt =====
-- accesscontrol/basic_auth.go and basic_auth_algos.go. The digest of MD5, which has 16 bytes, and the
-- comparison of bcrypt are parameters; reading the file gives its lines. The order in which the map
-- of the password prefixes is read makes no difference, as none of them begins another one.
pub mod Apr1
pub mod Validate
pub mod File
use couper.Base.{
  ℕ, zero, suc, ◌+◌, ◌*◌, ◌-◌, ◌/◌, ◌%◌, Bool, true, false, not, ◌&&◌, ◌||◌, List, [], ◌∷◌, ◌++◌,
  Option, none, some, Str, codes, eq_str, has_prefix, trim_prefix, trim_space, split, lookup,
  insert, length, take, get_or, Result, ok, err, ltb, ◌==◌, if◌then◌else◌,
}

abbrev pub pwd_prefix_apr1 : Str
pwd_prefix_apr1 = codes "$apr1$"

abbrev pub pwd_prefix_md5 : Str
pwd_prefix_md5 = codes "$1$"

pub data PwdType : Type 0 where
  unknown apr1 bcrypt md5 : PwdType

pub record Pwd : Type 0 where
  pub pwd_orig : Str
  pub pwd_prefix : Str
  pub pwd_salt : Str
  pub pwd_type : PwdType

abbrev pub HtData : Type 0
HtData = List (Str × Pwd)

unfoldable pub get_pwd_type : Str → PwdType
get_pwd_type pass =
    if has_prefix pass pwd_prefix_apr1
    then apr1
    else if has_prefix pass (codes "$2a$")
    then bcrypt
    else if has_prefix pass (codes "$2b$")
    then bcrypt
    else if has_prefix pass (codes "$2x$")
    then bcrypt
    else if has_prefix pass (codes "$2y$")
    then bcrypt
    else if has_prefix pass pwd_prefix_md5
    then md5
    else unknown

pub data Error : Type 0 where
  line_length_exceeded invalid_line malformed_password algorithm_not_supported : Error
  multiple_user : Str → Error

-- strings.SplitN at the first colon; `none` if there is none.
unfoldable pub split_user : Str → Option (Str × Str)
split_user [] = none
split_user (c ∷ s) =
    let rest = split_user s in
    if c == b':'
    then some ([], s)
    else elim rest [ none ↦ none | some (user, pass) ↦ some (c ∷ user, pass) ]

-- The parts of a salted password behind its prefix.
abbrev pub salted : PwdType → (prefix password : Str) → List Str → Result Error Pwd
salted t prefix password (salt ∷ digest ∷ []) =
    ok (record { pwd_orig = password; pwd_prefix = prefix; pwd_salt = salt; pwd_type = t })
salted t prefix password parts = err malformed_password

-- The entry for a password.
unfoldable pub entry_of : PwdType → Str → Result Error Pwd
unfolding split trim_prefix
entry_of apr1 password =
    salted apr1 pwd_prefix_apr1 password (split b'$' (trim_prefix password pwd_prefix_apr1))
entry_of md5 password =
    salted md5 pwd_prefix_md5 password (split b'$' (trim_prefix password pwd_prefix_md5))
entry_of bcrypt password =
    ok (record { pwd_orig = password; pwd_prefix = []; pwd_salt = []; pwd_type = bcrypt })
entry_of unknown password = err algorithm_not_supported

abbrev pub is_comment : Str → Bool
is_comment [] = true
is_comment (c ∷ s) = c == b'#'

-- One round of the loop over the lines, on the line without the space around it.
unfoldable pub read_line : Str → HtData → Result Error HtData
read_line line ht =
    if is_comment line
    then ok ht
    else if ltb 255 (length line)
    then err line_length_exceeded
    else elim (split_user line) [
      | none ↦ err invalid_line
      | some (username, password) ↦ elim (lookup username ht) [
        | some p ↦ err (multiple_user username)
        | none ↦ elim (entry_of (get_pwd_type password) password) [
          | err e ↦ err e
          | ok p ↦ ok (insert username p ht)
        ]
      ]
    ]

unfoldable pub read_lines : List Str → HtData → Result Error HtData
read_lines [] ht = ok ht
read_lines (line ∷ lines) ht = elim (read_line (trim_space line) ht) [
  | err e ↦ err e
  | ok ht' ↦ read_lines lines ht'
]

pub record BasicAuth : Type 0 where
  pub ht_file : HtData
  pub user : Str
  pub pass : Str

-- NewBasicAuth; `none` is the empty file name. An error of the file itself is left out.
unfoldable pub new_basic_auth :
    (user pass : Str) → (file : Option (List Str)) → Result Error BasicAuth
new_basic_auth user pass none = ok (record { ht_file = []; user = user; pass = pass })
new_basic_auth user pass (some lines) = elim (read_lines lines []) [
  | err e ↦ err e
  | ok ht ↦ ok (record { ht_file = ht; user = user; pass = pass })
]

abbrev pub apr_characters : Str
apr_characters = codes "./0123456789ABCDEFGHIJKLMNOPQRSTUVWXYZabcdefghijklmnopqrstuvwxyz"

-- `add`: the lowest six bits first.
unfoldable pub encode : (iterations v : ℕ) → Str
encode zero v = []
encode (suc n) v = get_or apr_characters (v % 64) 0 ∷ encode n (v / 64)

abbrev pub word : (a b c : ℕ) → ℕ
word a b c = (a * 65536 + b * 256) + c

-- The first loop, with at most as many rounds as the password has bytes.
unfoldable pub fill_digest : (rounds i : ℕ) → Str → Str
fill_digest zero i bin = []
fill_digest (suc n) i bin =
    let rest = fill_digest n (i - 16) bin in
    if ltb 0 i then take (if ltb 16 i then 16 else i) bin ++ rest else []

-- The second loop, which halves its number.
unfoldable pub fill_bits : (rounds i : ℕ) → Str → Str
fill_bits zero i pass = []
fill_bits (suc n) i pass =
    let rest = fill_bits n (i / 2) pass in
    if ltb 0 i then (if i % 2 == 1 then 0 ∷ [] else take 1 pass) ++ rest else []

abbrev pub unless : Bool → Str → Str
unless true s = []
unless false s = s

pub data Answer : Type 0 where
  credentials_missing authorization_unreadable credential_mismatch no_password : Answer
  configuration : Answer
  granted : Str → Answer

abbrev pub is_nil : HtData → Bool
is_nil [] = true
is_nil (e ∷ ht) = false

-- Calls of `add` in a row: how many characters, and of which number.
unfoldable pub encode_all : List (ℕ × ℕ) → Str
encode_all [] = []
encode_all ((n, v) ∷ calls) = encode n v ++ encode_all calls

-- The end: the digest in the alphabet of crypt.
abbrev pub calls_for : Str → List (ℕ × ℕ)
calls_for sum =
    let at = λ (i : ℕ). get_or sum i 0 in
    (4, word (at 0) (at 6) (at 12))
    ∷ (4, word (at 1) (at 7) (at 13))
    ∷ (4, word (at 2) (at 8) (at 14))
    ∷ (4, word (at 3) (at 9) (at 15))
    ∷ (4, word (at 4) (at 10) (at 5))
    ∷ (2, word 0 0 (at 11))
    ∷ []

unfoldable pub encode_sum : Str → Str
encode_sum sum = encode_all (calls_for sum)

module _ (digest : Str → Str) where
  -- What one of the thousand rounds hashes.
  unfoldable pub muddle : (pass salt sum : Str) → ℕ → Str
  muddle pass salt sum i =
      (if i % 2 == 1 then pass else sum)
      ++ (unless (i % 3 == 0) salt
          ++ (unless (i % 7 == 0) pass ++ (if i % 2 == 1 then sum else pass)))

  unfoldable pub muddle_rounds : (left : ℕ) (pass salt sum : Str) → ℕ → Str
  muddle_rounds zero pass salt sum i = sum
  muddle_rounds (suc n) pass salt sum i =
      muddle_rounds n pass salt (digest (muddle pass salt sum i)) (i + 1)

  -- The bytes that the rounds begin with.
  unfoldable pub first_sum : (pass salt pref : Str) → Str
  first_sum pass salt pref =
      let n = length pass in
      digest (
        (pass ++ (pref ++ salt))
        ++ (fill_digest n n (digest (pass ++ (salt ++ pass))) ++ fill_bits n n pass))

  unfoldable pub apr1_md5 : (pass salt pref : Str) → Str
  apr1_md5 pass salt pref =
      pref
      ++ (salt ++ (b'$' ∷ encode_sum (muddle_rounds 1000 pass salt (first_sum pass salt pref) 0)))

  module _ (compare : (hash pass : Str) → Bool) where
    -- Whether an entry takes a password.
    unfoldable pub takes : Pwd → Str → Bool
    takes p pass = elim p.pwd_type [
      | apr1 ↦ eq_str (apr1_md5 pass p.pwd_salt p.pwd_prefix) p.pwd_orig
      | md5 ↦ eq_str (apr1_md5 pass p.pwd_salt p.pwd_prefix) p.pwd_orig
      | bcrypt ↦ compare p.pwd_orig pass
      | unknown ↦ false
    ]

    unfoldable pub validate_access_data : (user pass : Str) → HtData → Bool
    validate_access_data user pass [] = false
    validate_access_data user pass ((u, p) ∷ ht) =
        (eq_str u user && takes p pass) || validate_access_data user pass ht

    -- The last part, on the file.
    unfoldable pub validate_file : BasicAuth → (user pass : Str) → Answer
    validate_file ba user pass =
        if is_nil ba.ht_file
        then credential_mismatch
        else if validate_access_data user pass ba.ht_file
        then granted user
        else credential_mismatch

    -- Validate, with what the method BasicAuth of the request returns, and whether the header begins
    -- with "Basic ". `granted` names the user for the context.
    unfoldable pub validate : Option BasicAuth → (basic_prefix : Bool) → Option (Str × Str) → Answer
    unfolding validate_file
    validate none basic_prefix credentials = configuration
    validate (some ba) basic_prefix none =
        if basic_prefix then authorization_unreadable else credentials_missing
    validate (some ba) basic_prefix (some (user, pass)) =
        if eq_str ba.user user
        then (if not (eq_str ba.pass [])
            then (if eq_str ba.pass pass then granted user else credential_mismatch)
            else if is_nil ba.ht_file
            then no_password
            else validate_file ba user pass)
        else validate_file ba user pass
