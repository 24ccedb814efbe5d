-- ===== src/Access/TokenSource.antt =====
-- accesscontrol/token_source.go. The request is what the code reads of it: the header fields by
-- their canonical names, the cookie of a name, and the result of evaluating the expression. Case is
-- that of ASCII.
pub mod Laws
use couper.Base.{
  ℕ, zero, suc, ◌+◌, ◌/◌, ◌%◌, ◌^◌, Bool, true, false, not, List, [], ◌∷◌, Option, none, some, Str,
  codes, eq_str, has_prefix, to_lower, trim, trim_space, drop, length, Result, ok, err, ltb, ◌==◌,
  if◌then◌else◌,
}
use Prim.Native.Nat.{bit_or}

pub data SourceType : Type 0 where
  bearer_type cookie_type header_type value_type : SourceType

-- The constants of type tokenSourceType.
abbrev pub code_of : SourceType → ℕ
code_of bearer_type = 0
code_of cookie_type = 1
code_of header_type = 2
code_of value_type = 3

pub record TokenSource : Type 0 where
  pub name : Str
  pub ts_type : SourceType

-- bits.OnesCount8
unfoldable pub ones_count : ℕ → ℕ → ℕ
ones_count zero b = 0
ones_count (suc digits) b = b % 2 + ones_count digits (b / 2)

pub data Failure : Type 0 where
  only_one_source missing_authorization bearer_required token_required evaluation : Failure

-- One of the four ifs: the bit of the source is set in `b`, and the source becomes the type.
abbrev pub choose : Bool → SourceType → ℕ × SourceType → ℕ × SourceType
choose present s (b, t) = if present then (bit_or b (2 ^ code_of s), s) else (b, t)

-- The four ifs, over which attributes are given.
unfoldable pub chosen : (bearer cookie header value : Bool) → ℕ × SourceType
chosen bearer cookie header value = choose value value_type (
    choose header header_type
      (choose cookie cookie_type (choose bearer bearer_type (0, bearer_type))))

abbrev pub name_for : SourceType → Str → Str → Str
name_for cookie_type c h = c
name_for header_type c h = h
name_for _ c h = []

-- `value` says that the expression is given and does not evaluate to null.
unfoldable pub new_token_source :
    (bearer : Bool) (cookie header : Str) (value : Bool) → Result Failure TokenSource
unfolding trim_space eq_str
new_token_source bearer cookie header value =
    let c = trim_space cookie in
    let h = trim_space header in
    let (b, t) = chosen bearer (not (eq_str c [])) (not (eq_str h [])) value in
    if ltb 1 (ones_count 8 b)
    then err only_one_source
    else ok (record { name = name_for t c h; ts_type = t })

abbrev pub bearer_prefix : Str
bearer_prefix = codes "bearer "

unfoldable pub get_bearer : Str → Result Failure Str
unfolding to_lower has_prefix
get_bearer authorization =
    if has_prefix (to_lower authorization) bearer_prefix
    then ok (trim (λ c. c == 32) (drop 7 authorization))
    else err bearer_required

-- What TokenValue reads of a request. `header` is Header.Get, empty for a missing field.
pub record Request : Type 0 where
  pub header : Str → Str
  pub cookie : Str → Option Str
  pub evaluated : Result Failure Str

unfoldable pub get_bearer_auth : Request → Result Failure Str
unfolding eq_str
get_bearer_auth req =
    if eq_str (req.header (codes "Authorization")) []
    then err missing_authorization
    else get_bearer (req.header (codes "Authorization"))

abbrev pub or_empty : Option Str → Str
or_empty (some s) = s
or_empty none = []

-- The switch of TokenValue
unfoldable pub read_token : SourceType → Str → Request → Result Failure Str
unfolding eq_str
read_token bearer_type name req = get_bearer_auth req
read_token cookie_type name req = ok (or_empty (req.cookie name))
read_token header_type name req =
    if eq_str (to_lower name) (codes "authorization")
    then get_bearer_auth req
    else ok (req.header name)
read_token value_type name req = req.evaluated

unfoldable pub token_value : TokenSource → Request → Result Failure Str
unfolding eq_str
token_value s req = elim (read_token s.ts_type s.name req) [
  | err e ↦ err e
  | ok token ↦ if eq_str token [] then err token_required else ok token
]
