-- ===== src/Sequence/Resolve.antt =====
-- What is said of lists of names: none stands twice, each stands behind all that it depends on, and
-- how many are not seen yet.
use couper.Base.{
  ℕ, suc, ◌≤◌, ◌<◌, ◌≡◌, refl, ap, Bool, true, false, not, ◌&&◌, List, [], ◌∷◌, ◌++◌, arith, Str,
  eq_str, eq_str_iff, mem_str, mem_str-append, all_mem, length, Bool-cases, if◌then◌else◌,
}
use mathlib.Core.List.{append_assoc, append-nil}
use couper.Sequence.{Store, deps}

unfoldable pub distinct : List Str → Bool
distinct [] = true
distinct (n ∷ ns) = not (mem_str n ns) && distinct ns

pub distinct-append :
    (ns : List Str) (n : Str)
    → distinct ns ≡ true
    → mem_str n ns ≡ false
    → distinct (ns ++ (n ∷ [])) ≡ true
unfolding distinct mem_str
distinct-append [] n d h = refl
distinct-append (m ∷ ns) n d h = ground (
  arith,
  d,
  h,
  distinct-append ns n,
  mem_str-append m ns (n ∷ []),
  eq_str_iff n m,
  eq_str_iff m n,
  Bool-cases (eq_str n m),
)

-- Each name stands behind all that it depends on.
unfoldable pub ordered : Store → List Str → List Str → Bool
ordered h before [] = true
ordered h before (n ∷ ns) = all_mem (deps h n) before && ordered h (before ++ (n ∷ [])) ns

pub ordered-append :
    (h : Store) (before ns : List Str) (n : Str)
    → ordered h before ns ≡ true
    → all_mem (deps h n) (before ++ ns) ≡ true
    → ordered h before (ns ++ (n ∷ [])) ≡ true
unfolding ordered
ordered-append h before [] n o a = ground (arith, ap (all_mem (deps h n)) (append-nil before), a)
ordered-append h before (m ∷ ns) n o a = ground (
  arith,
  o,
  ordered-append h (before ++ (m ∷ [])) ns n,
  ap (all_mem (deps h n)) (append_assoc before (m ∷ []) ns),
  a,
)

-- How many names are not seen.
unfoldable pub unseen : List Str → List Str → ℕ
unseen [] seen = 0
unseen (u ∷ us) seen = let n = unseen us seen in if mem_str u seen then n else suc n

pub unseen-append : (us seen : List Str) (n : Str) → unseen us (seen ++ (n ∷ [])) ≤ unseen us seen
unfolding unseen
unseen-append [] seen n = omega arith
unseen-append (u ∷ us) seen n = ground (
  arith,
  unseen-append us seen n,
  mem_str-append u seen (n ∷ []),
  Bool-cases (mem_str u seen),
  Bool-cases (mem_str u (n ∷ [])),
)

pub unseen-append_lt :
    (us seen : List Str) (n : Str)
    → mem_str n us ≡ true
    → mem_str n seen ≡ false
    → unseen us (seen ++ (n ∷ [])) < unseen us seen
unfolding unseen mem_str
unseen-append_lt [] seen n h k = absurd (ground (arith, h))
unseen-append_lt (u ∷ us) seen n h k = ground (
  arith,
  h,
  k,
  unseen-append us seen n,
  unseen-append_lt us seen n,
  mem_str-append u seen (n ∷ []),
  eq_str_iff u n,
  eq_str_iff n u,
  Bool-cases (eq_str u n),
  Bool-cases (mem_str u seen),
)

pub unseen-le-length : (us seen : List Str) → unseen us seen ≤ length us
unfolding unseen
unseen-le-length [] seen = omega arith
unseen-le-length (u ∷ us) seen =
    ground (arith, unseen-le-length us seen, Bool-cases (mem_str u seen))
