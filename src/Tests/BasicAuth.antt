-- ===== src/Tests/BasicAuth.antt =====
-- A password file of one line and a comment.
use couper.Base.{
  ◌≡◌, ◌↔◌, ◌≢◌, ◌⊎◌, refl, Bool, true, [], ◌∷◌, ◌++◌, List, some, Str, codes, lookup, length,
  replicate, eq_str, trim_space, has_prefix, HasDistinctKeys, insert,
}
use couper.Access.BasicAuth.{
  BasicAuth, Pwd, bcrypt, new_basic_auth, read_lines, read_line, split_user, entry_of, get_pwd_type,
  validate, granted, apr1_md5, pwd_prefix_apr1,
}
use couper.Access.BasicAuth.Validate.{FileTakes, validate-granted_iff}
use couper.Access.BasicAuth.File.{IsGiven, new_basic_auth_iff}
use couper.Access.BasicAuth.Apr1.{all_apr, apr1_md5_bounds}

abbrev digest : Str → Str
digest s = replicate 16 (length s)

abbrev compare : Str → Str → Bool
compare hash pass = eq_str hash (codes "$2a$" ++ pass)

abbrev john : Str
john = codes "john"

abbrev entry : Pwd
entry = record { pwd_orig = codes "$2a$secret"; pwd_prefix = []; pwd_salt = []; pwd_type = bcrypt }

abbrev control : BasicAuth
control = record { ht_file = (john, entry) ∷ []; user = []; pass = [] }

abbrev lines : List Str
lines = codes "# users" ∷ codes "  john:$2a$secret" ∷ []

reading : Unit {0}
unfolding new_basic_auth read_lines read_line split_user entry_of get_pwd_type eq_str trim_space
    has_prefix lookup insert
reading = tt

new_basic_auth_iff_example :
    HasDistinctKeys control.ht_file
    × ((u : Str) (p : Pwd) → (lookup u control.ht_file ≡ some p) ↔ IsGiven lines u p)
unfolding reading
new_basic_auth_iff_example = new_basic_auth_iff [] [] lines control refl

validate-granted_iff_example :
    (validate digest compare (some control) true (some (john, codes "secret")) ≡ granted john) ↔ (
      ((control.user ≡ john) × (control.pass ≢ []) × (control.pass ≡ codes "secret"))
      ⊎ (((control.user ≢ john) ⊎ (control.pass ≡ []))
          × FileTakes digest compare control.ht_file john (codes "secret")))
validate-granted_iff_example =
    validate-granted_iff digest compare control true john (codes "secret") (tt, tt)

apr1_md5_bounds_example :
    (code : Str) × (apr1_md5 digest (codes "secret") (codes "salt") pwd_prefix_apr1
      ≡ pwd_prefix_apr1 ++ (codes "salt" ++ (b'$' ∷ code)))
    × (length code ≡ 22)
    × (all_apr code ≡ true)
apr1_md5_bounds_example = apr1_md5_bounds digest (codes "secret") (codes "salt") pwd_prefix_apr1
