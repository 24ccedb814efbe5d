-- ===== src/Transport/TokenRequest.antt =====
-- handler/transport/token_request.go: a token from a request of its own, kept in the memory store.
-- The request and the evaluation of the two expressions come as their results. The mutex is left
-- out: a call holds it from the second reading of the store to its end.
use couper.Base.{
  ℕ, ◌+◌, ◌/◌, ◌<◌, ◌≡◌, ◌≢◌, Bool, true, false, [], Option, none, some, arith, pos, Str, eq_str,
  eq_str_iff, eq_str_refl, Result, ok, err, if◌then◌else◌,
}
use couper.Cache.{MemoryStore, clamp_ttl, get, set}
use couper.Cache.Expiry.{get-set}

-- A value of the expression language, as far as the code asks.
pub data Value : Type 0 where
  null other : Value
  string : Str → Value

pub data Failure : Type 0 where
  produce_failed evaluation null_value no_string bad_duration : Failure

-- What one request for a token meets: the error of the round trip, the values of the expressions
-- `token` and `ttl`, and the duration that config.ParseDuration makes of a text, in nanoseconds.
pub record Answer : Type 0 where
  pub error : Option Failure
  pub token : Result Failure Value
  pub ttl : Result Failure Value
  pub parse : Str → Result Failure ℕ

-- The three checks of a value.
unfoldable pub as_string : Result Failure Value → Result Failure Str
as_string (err e) = err e
as_string (ok null) = err null_value
as_string (ok other) = err no_string
as_string (ok (string s)) = ok s

-- requestToken: the token and its time to live in seconds.
unfoldable pub request_token : Answer → Result Failure (Str × ℕ)
request_token a = elim a.error [
  | some e ↦ err e
  | none ↦ elim (as_string a.token) [
    | err e ↦ err e
    | ok token ↦ elim (as_string a.ttl) [
      | err e ↦ err e
      | ok ttl ↦ elim (a.parse ttl) [
        | err e ↦ err e
        | ok duration ↦ ok (token, duration / 1_000_000_000)
      ]
    ]
  ]
]

abbrev pub or_empty : Option Str → Str
or_empty none = []
or_empty (some s) = s

unfoldable pub read_token : (key : Str) → ℕ → MemoryStore Str → Str
read_token key now store = or_empty (get key now store)

-- GetToken, from its second reading of the store on, at `second`; the store is set at `third`. The
-- Boolean says whether a request was made.
unfoldable pub get_token_locked :
    (key : Str) (second third : ℕ)
    → Answer
    → MemoryStore Str
    → Result Failure Bool × MemoryStore Str
get_token_locked key second third a store =
    if eq_str (read_token key second store) []
    then elim (request_token a) [
      | err e ↦ (err e, store)
      | ok (token, ttl) ↦ (ok true, set key token (pos ttl) third store)
    ]
    else (ok false, store)

-- GetToken: a first reading without the mutex, at `first` of the store `before`, and the rest at
-- whatever store the call finds when it has the mutex.
unfoldable pub get_token :
    (key : Str) (first second third : ℕ)
    → Answer
    → (before store : MemoryStore Str) → Result Failure Bool × MemoryStore Str
get_token key first second third a before store =
    if eq_str (read_token key first before) []
    then get_token_locked key second third a store
    else (ok false, store)

-- After a call that found no token and requested one that is not empty, every reading before the
-- end of its time to live finds this token, and a call that then reads the store under the mutex,
-- having found no token before, makes no request and leaves the store.
pub get_token_once :
    (key : Str) (first second third later : ℕ) (a b : Answer) (before old : MemoryStore Str)
    (token : Str) (ttl : ℕ)
    → request_token a ≡ ok (token, ttl)
    → token ≢ []
    → eq_str (read_token key first before) [] ≡ true
    → eq_str (read_token key second old) [] ≡ true
    → later < third + clamp_ttl (pos ttl)
    → (read_token key later (get_token key first second third a before old).1 ≡ token)
      × (get_token key first later later b before (get_token key first second third a before old).1
          ≡ (ok false, (get_token key first second third a before old).1))
unfolding get_token get_token_locked read_token
get_token_once key first second third later a b before old token ttl answered some_token miss miss'
      early =
    let found = get-set key key token (pos ttl) third later old in
    (
      ground (arith, answered, miss, miss', found, eq_str_refl key, early),
      ground (
        arith,
        answered,
        miss,
        miss',
        found,
        eq_str_refl key,
        early,
        some_token,
        eq_str_iff token [],
      ),
    )
