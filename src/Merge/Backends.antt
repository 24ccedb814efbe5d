-- ===== src/Merge/Backends.antt =====
-- checkForMultipleBackends and checkForMultipleBackendsInBackend of config/configload/merge.go.
use couper.Base.{
  ℕ, suc, inl, inr, ◌≡◌, ltb, refl, ap, ◌∙◌, Bool, true, false, not, ◌&&◌, ◌||◌, List, Str, codes,
  eq_str, lookup, Result, ok, err, Bool-cases, arith, if◌then◌else◌,
}
use mathlib.Core.Path.{subst}
use couper.Merge.{block, Blocks, no_blocks, and_block, MergeError, multiple_backends, is_set}

abbrev pub backend : Str
backend = codes "backend"

abbrev pub has_token : Str → Bool
has_token t = eq_str t (codes "oauth2") || eq_str t (codes "beta_token_request")

abbrev pub sends : Str → Bool
sends t = eq_str t (codes "proxy") || eq_str t (codes "request")

-- The attribute counts as one more backend.
abbrev pub with_attribute : {V : Type 0} → List (Str × V) → ℕ → ℕ
with_attribute a n = if is_set (lookup backend a) then suc n else n

-- What follows a number of backends in a block of a type.
abbrev pub check_count :
    {V : Type 0}
    → Str
    → List (Str × V)
    → Result MergeError ℕ
    → Result MergeError (Unit {0})
    → Result MergeError (Unit {0})
check_count t a (err e) rest = err e
check_count t a (ok n) rest = if ltb 1 (with_attribute a n) then err (multiple_backends t) else rest

abbrev pub add_backend : Result MergeError (Unit {0}) → Result MergeError ℕ → Result MergeError ℕ
add_backend (err e) rest = err e
add_backend (ok _) (err e) = err e
add_backend (ok _) (ok n) = ok (suc n)

unfoldable mutual
  -- checkForMultipleBackendsInBackend, on the blocks of its block.
  pub check_in_backend : {V : Type 0} → Blocks V → Result MergeError (Unit {0})
  check_in_backend no_blocks = ok tt
  check_in_backend (and_block (block t l a bs) rest) =
      if has_token t
      then check_count t a (count_backends bs) (check_in_backend rest)
      else check_in_backend rest

  -- The loop that counts the backends of a block.
  pub count_backends : {V : Type 0} → Blocks V → Result MergeError ℕ
  count_backends no_blocks = ok 0
  count_backends (and_block (block t l a bs) rest) =
      if eq_str t backend
      then add_backend (check_in_backend bs) (count_backends rest)
      else count_backends rest

-- On the blocks of its block.
unfoldable pub check_for_multiple_backends : {V : Type 0} → Blocks V → Result MergeError (Unit {0})
check_for_multiple_backends no_blocks = ok tt
check_for_multiple_backends (and_block (block t l a bs) rest) =
    if eq_str t (codes "error_handler")
    then check_for_multiple_backends bs
    else if sends t
    then check_count t a (count_backends bs) (check_for_multiple_backends rest)
    else check_for_multiple_backends rest

abbrev pub is_ok {ℓ} : {E : Type 0} {A : Type ℓ} → Result E A → Bool
is_ok (ok a) = true
is_ok (err e) = false

unfoldable pub number_of_backends : {V : Type 0} → Blocks V → ℕ
number_of_backends no_blocks = 0
number_of_backends (and_block (block t l a bs) rest) =
    let n = number_of_backends rest in if eq_str t backend then suc n else n

-- At most one backend: no block besides the attribute, and one block without it.
abbrev pub is_single : {V : Type 0} → List (Str × V) → ℕ → Bool
is_single a n = ltb n (if is_set (lookup (codes "backend") a) then 1 else 2)

pub with_attribute-is_single :
    {V : Type 0} (a : List (Str × V)) (n : ℕ) → not (ltb 1 (with_attribute a n)) ≡ is_single a n
with_attribute-is_single a n = ground (arith, Bool-cases (is_set (lookup (codes "backend") a)))

-- A block of a type has one backend at most.
abbrev pub has_one : {V : Type 0} → List (Str × V) → Blocks V → Bool
has_one a bs = is_single a (number_of_backends bs)

unfoldable mutual
  -- Each oauth2 and beta_token_request block has one backend at most, at any depth of backends.
  pub tokens_fit : {V : Type 0} → Blocks V → Bool
  tokens_fit no_blocks = true
  tokens_fit (and_block (block t l a bs) rest) =
      (not (has_token t) || (backends_fit bs && has_one a bs)) && tokens_fit rest

  pub backends_fit : {V : Type 0} → Blocks V → Bool
  backends_fit no_blocks = true
  backends_fit (and_block (block t l a bs) rest) =
      (not (eq_str t backend) || tokens_fit bs) && backends_fit rest

-- The blocks that are looked at: those up to the first error_handler, and those in it likewise.
unfoldable pub reached : {V : Type 0} → Blocks V → Blocks V
reached no_blocks = no_blocks
reached (and_block (block t l a bs) rest) =
    if eq_str t (codes "error_handler")
    then reached bs
    else and_block (block t l a bs) (reached rest)

unfoldable pub senders_fit : {V : Type 0} → Blocks V → Bool
senders_fit no_blocks = true
senders_fit (and_block (block t l a bs) rest) =
    (not (sends t) || (backends_fit bs && has_one a bs)) && senders_fit rest

-- The count, where the backends that are counted fit.
abbrev pub IsCount : Bool → ℕ → Result MergeError ℕ → Type 0
IsCount fit n (ok m) = (fit ≡ true) × (m ≡ n)
IsCount fit n (err e) = fit ≡ false

check_count-ok :
    {V : Type 0} (t : Str) (a : List (Str × V)) (fit : Bool) (n : ℕ) (r : Result MergeError ℕ)
    (rest : Result MergeError (Unit {0}))
    → IsCount fit n r
    → is_ok (check_count t a r rest) ≡ ((fit && is_single a n) && is_ok rest)
check_count-ok t a fit n (err e) rest h = ground (arith, h)
check_count-ok t a fit n (ok m) rest (f, same) =
    let test : Bool = ltb 1 (with_attribute a n) in
    ap (λ k. is_ok (if ltb 1 (with_attribute a k) then err (multiple_backends t) else rest)) same
    ∙ ground (arith, f, with_attribute-is_single a n, Bool-cases (ltb 1 (with_attribute a n)))

pub add_backend-IsCount :
    (fit : Bool) (n : ℕ) (first : Result MergeError (Unit {0})) (r : Result MergeError ℕ)
    → IsCount fit n r
    → IsCount (is_ok first && fit) (suc n) (add_backend first r)
add_backend-IsCount fit n (ok _) (ok m) h = ground (arith, h)
add_backend-IsCount fit n (ok _) (err e) h = h
add_backend-IsCount fit n (err x) r h = refl

if_ok :
    (b : Bool) (x y : Result MergeError (Unit {0})) (p q : Bool)
    → is_ok x ≡ (p && q)
    → is_ok y ≡ q
    → is_ok (if b then x else y) ≡ ((not b || p) && q)
if_ok true x y p q hx hy = hx
if_ok false x y p q hx hy = hy

pub if_IsCount :
    (b : Bool) (x y : Result MergeError ℕ) (p q : Bool) (n : ℕ)
    → IsCount (p && q) (suc n) x
    → IsCount q n y
    → IsCount ((not b || p) && q) (if b then suc n else n) (if b then x else y)
if_IsCount true x y p q n hx hy = hx
if_IsCount false x y p q n hx hy = hy

mutual
  unfolding check_in_backend count_backends tokens_fit backends_fit number_of_backends

  pub check_in_backend-ok :
      {V : Type 0} (bs : Blocks V) → is_ok (check_in_backend bs) ≡ tokens_fit bs
  check_in_backend-ok no_blocks = refl
  check_in_backend-ok (and_block (block t l a bs) rest) =
      if_ok (has_token t) (check_count t a (count_backends bs) (check_in_backend rest))
        (check_in_backend rest) (backends_fit bs && has_one a bs) (tokens_fit rest)
        (check_count-ok t a (backends_fit bs) (number_of_backends bs) (count_backends bs)
            (check_in_backend rest) (count_backends-IsCount bs)
          ∙ ap (λ r. (backends_fit bs && has_one a bs) && r) (check_in_backend-ok rest))
        (check_in_backend-ok rest)

  pub count_backends-IsCount :
      {V : Type 0} (bs : Blocks V)
      → IsCount (backends_fit bs) (number_of_backends bs) (count_backends bs)
  count_backends-IsCount no_blocks = (refl, refl)
  count_backends-IsCount (and_block (block t l a bs) rest) =
      if_IsCount (eq_str t backend) (add_backend (check_in_backend bs) (count_backends rest))
        (count_backends rest) (tokens_fit bs) (backends_fit rest) (number_of_backends rest)
        (subst
          (λ f.
            IsCount (f && backends_fit rest) (suc (number_of_backends rest))
              (add_backend (check_in_backend bs) (count_backends rest)))
          (check_in_backend-ok bs)
          (add_backend-IsCount (backends_fit rest) (number_of_backends rest) (check_in_backend bs)
            (count_backends rest) (count_backends-IsCount rest)))
        (count_backends-IsCount rest)

-- Of the blocks that are reached, which are those up to the first error_handler block and those
-- that are reached in it, but none behind it, each proxy and request block has at most one backend,
-- counted by blocks and attribute, and each oauth2 and beta_token_request block in these backends,
-- at any depth, has so too: this is exactly when checkForMultipleBackends returns no error.
pub check_for_multiple_backends-accepts :
    {V : Type 0} (bs : Blocks V) → is_ok (check_for_multiple_backends bs) ≡ senders_fit (reached bs)
unfolding check_for_multiple_backends reached senders_fit
check_for_multiple_backends-accepts no_blocks = refl
check_for_multiple_backends-accepts (and_block (block t l a bs) rest) =
    elim (Bool-cases (eq_str t (codes "error_handler"))) [
      | inl h ↦ rw h (check_for_multiple_backends-accepts bs)
      | inr h ↦ rw h (
          if_ok (sends t) (check_count t a (count_backends bs) (check_for_multiple_backends rest))
            (check_for_multiple_backends rest) (backends_fit bs && has_one a bs)
            (senders_fit (reached rest))
            (check_count-ok t a (backends_fit bs) (number_of_backends bs) (count_backends bs)
                (check_for_multiple_backends rest) (count_backends-IsCount bs)
              ∙ ap (λ r. (backends_fit bs && has_one a bs) && r)
                  (check_for_multiple_backends-accepts rest))
            (check_for_multiple_backends-accepts rest))
    ]
